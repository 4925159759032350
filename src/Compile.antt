-- ===== src/Compile.antt =====
-- `ngx_statshouse_stat_compile` of src/ngx_statshouse.c: a configuration and the values of its variables
-- become an array of statistics.
pub mod Config
pub mod Values
pub mod Keys
pub mod Rounds
pub mod KeyRounds
pub mod Bounds
pub mod NoCrash
pub mod Total
mod Tests
use nginx_statshouse_module.Base.{
  ℕ, zero, suc, ◌+◌, ◌-◌, List, [], ◌∷◌, ◌++◌, Bool, true, false, ◌&&◌, ◌||◌, not, Option, none,
  some, ltb, ◌==◌, if◌then◌else◌, length, take, drop, get_or,
}
use nginx_statshouse_module.Nginx.{Rc, ngx_ok, ngx_error, ngx_declined}
use nginx_statshouse_module.Stat.{
  Str, StatType, mt_counter, mt_value, mt_unique, StatValue, Stat, Fpu, stat_init, stat_value,
  stat_value_zero, stat_value_counter, stat_value_value, stat_value_nvalue, stat_value_unique,
  stat_key,
}
use nginx_statshouse_module.Split.{Part, crash, done, item, stat_part}
use nginx_statshouse_module.Compile.Config.{
  ConfValue, ConfKey, Conf, Outside, Outcome, compiled, returned, crashed, is_empty, is_false,
  held_back, touched, Cut, cut_crash, cut_done, cut, cut_part, for_some, test_required_predicates,
  eval_key, eval_keys,
}
use nginx_statshouse_module.Compile.Values.{
  one_more, fresh, parse_value, fill_value, put_value, after_cut, values_loop, one_value,
  compile_values,
}
use nginx_statshouse_module.Compile.Keys.{
  add_previous, key_all, first_value, renew, renew_new, after_key_cut, key_loop, one_key, keys_loop,
}

module _ {V : Type 0} (out : Outside V) where
  module _ (conf : Conf V) where
    -- what follows the `do … while`
    unfoldable pub compile_keys :
        ℕ → List (ConfKey V × Str) → Outcome × List Stat → Outcome × List Stat
    compile_keys max ks (compiled zero, stats) = (returned ngx_declined, stats)
    compile_keys max ks (compiled (suc n), stats) =
        elim (keys_loop out conf max [] ks (suc n) stats) [
          | none ↦ (crashed, stats)
          | some (splits, stats') ↦ (compiled splits, stats')
        ]
    compile_keys max ks (returned rc, stats) = (returned rc, stats)
    compile_keys max ks (crashed, stats) = (crashed, stats)

    -- what follows the evaluation of the condition
    unfoldable pub compile_all : ℕ → List Stat → Rc → Outcome × List Stat
    compile_all max stats ngx_error = (returned ngx_error, stats)
    compile_all max stats ngx_declined = (returned ngx_declined, stats)
    compile_all max stats ngx_ok = elim (out.complex conf.value.complex) [
      | none ↦ (returned ngx_error, stats)
      | some s ↦ elim (eval_keys out conf.keys) [
        | none ↦ (returned ngx_error, stats)
        | some ks ↦ compile_keys max ks (compile_values out conf s max stats)
      ]
    ]

  -- `ngx_statshouse_stat_compile`, with `ngx_time`: the outcome, the configuration and the array
  unfoldable pub stat_compile : Conf V → List Stat → ℕ → ℕ → Outcome × Conf V × List Stat
  stat_compile conf stats max now =
      if held_back conf now
      then (returned ngx_declined, conf, stats)
      else let timed = touched conf now in
        let (outcome, stats') =
          compile_all timed max stats (test_required_predicates out timed.condition) in
        (outcome, timed, stats')
