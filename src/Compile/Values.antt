-- ===== src/Compile/Values.antt =====
-- The `do … while` of `ngx_statshouse_stat_compile` in src/ngx_statshouse.c: a statistic for each part of the
-- value.
use nginx_statshouse_module.Base.{
  ℕ, zero, suc, ◌-◌, List, [], ◌∷◌, true, false, Option, none, some, ltb, ◌==◌, if◌then◌else◌,
  length, drop, get_or,
}
use nginx_statshouse_module.Nginx.{ngx_error}
use nginx_statshouse_module.Stat.{
  Str, StatType, mt_counter, mt_value, mt_unique, Stat, stat_init, stat_value_zero,
  stat_value_counter, stat_value_value, stat_value_nvalue, stat_value_unique,
}
use nginx_statshouse_module.Compile.Config.{
  Conf, Outside, Outcome, compiled, returned, crashed, Cut, cut_crash, cut_done, cut, cut_part,
  for_some,
}

-- A statistic is filled in, in front of what the other rounds of the loop give.
unfoldable pub one_more : Stat → Outcome × List Stat → Outcome × List Stat
one_more filled (compiled n, ss) = (compiled (suc n), filled ∷ ss)
one_more filled (returned rc, ss) = (returned rc, filled ∷ ss)
one_more filled (crashed, ss) = (crashed, filled ∷ ss)

module _ {V : Type 0} (out : Outside V) where
  -- The number in an item, by type; `none` is `NGX_ERROR`.
  unfoldable pub parse_value : StatType → Str → Stat → Option Stat
  parse_value mt_counter str stat = for_some (out.atoi str) (λ n. stat_value_counter out.fpu stat n)
  parse_value mt_value str stat =
      if get_or str 0 0 == b'-'
      then for_some (out.atofp (drop 1 str) 8) (λ n.
        stat_value_nvalue out.fpu stat (out.fpu.hundred_millionth (out.fpu.double_of_int n)))
      else for_some (out.atofp str 8)
          (λ n. stat_value_value out.fpu stat (out.fpu.hundred_millionth (out.fpu.double_of_int n)))
  parse_value mt_unique str stat =
      for_some (out.atoi str) (λ n. stat_value_unique out.fpu stat (out.fpu.double_of_int n))

  unfoldable pub fill_value : StatType → Str → Stat → Option Stat
  fill_value type str stat =
      if ltb 0 (length str) then parse_value type str stat else some (stat_value_zero stat)

  -- The loops over `stats` run over the array from its front: `stats[splits]` is its head, and at the end
  -- of the array a write of `stats[splits]` is a crash.
  module _ (conf : Conf V) where
    abbrev pub fresh : Stat → Stat
    fresh stat = stat_init stat conf.name conf.value.type

    -- One round of the `do … while`, with what the other rounds do.
    unfoldable pub put_value : Str → Stat → List Stat → Outcome × List Stat → Outcome × List Stat
    put_value str stat ss rest = elim (fill_value conf.value.type str (fresh stat)) [
      | none ↦ (returned ngx_error, fresh stat ∷ ss)
      | some filled ↦ one_more filled rest
    ]

    unfoldable pub after_cut :
        Cut → Stat → List Stat → (ℕ → Outcome × List Stat) → Outcome × List Stat
    after_cut cut_crash stat ss more = (crashed, stat ∷ ss)
    after_cut cut_done stat ss more = (compiled 0, stat ∷ ss)
    after_cut (cut str next) stat ss more = put_value str stat ss (more next)

    -- a round at the end of the array, which is a crash unless the value has no further part
    unfoldable pub past_end : Cut → Outcome × List Stat
    past_end cut_crash = (crashed, [])
    past_end cut_done = (compiled 0, [])
    past_end (cut str next) = (crashed, [])

    unfoldable pub values_loop : Str → ℕ → ℕ → List Stat → Outcome × List Stat
    values_loop s n from [] = past_end (cut_part out.behind s from)
    values_loop s zero from (stat ∷ ss) =
        after_cut (cut_part out.behind s from) stat ss (λ next. (compiled 0, ss))
    values_loop s (suc n) from (stat ∷ ss) =
        after_cut (cut_part out.behind s from) stat ss (λ next. values_loop s n next ss)

    unfoldable pub one_value : Str → List Stat → Outcome × List Stat
    one_value s [] = if length s == 0 then (compiled 0, []) else (crashed, [])
    one_value s (stat ∷ ss) =
        if length s == 0 then (compiled 0, stat ∷ ss) else put_value s stat ss (compiled 0, ss)

    -- the whole `do … while (conf->value.split && splits < max)`
    unfoldable pub compile_values : Str → ℕ → List Stat → Outcome × List Stat
    compile_values s max stats = elim conf.value.split [
      | true ↦ values_loop s (max - 1) 0 stats
      | false ↦ one_value s stats
    ]
