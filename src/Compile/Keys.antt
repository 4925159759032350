-- ===== src/Compile/Keys.antt =====
-- The loop over the keys in `ngx_statshouse_stat_compile` of src/ngx_statshouse.c.
use nginx_statshouse_module.Base.{
  ℕ, zero, suc, ◌-◌, List, [], ◌∷◌, ◌++◌, true, false, ◌||◌, Option, none, some, ltb, ◌==◌,
  if◌then◌else◌, length, get_or,
}
use nginx_statshouse_module.Stat.{Str, StatValue, Stat, stat_value, stat_value_zero, stat_key}
use nginx_statshouse_module.Compile.Config.{
  ConfKey, Conf, Outside, is_empty, Cut, cut_crash, cut_done, cut, cut_part, for_some,
}
use nginx_statshouse_module.Compile.Values.{fresh}

-- `stat_key` for each earlier key that is neither nameless, nor split, nor empty: the loop over
-- `previ`
unfoldable pub add_previous : {V : Type 0} → List (ConfKey V × Str) → Stat → Stat
add_previous [] stat = stat
add_previous ((k, v) ∷ ks) stat =
    add_previous ks
      (if (length k.name == 0) || (k.split || is_empty v) then stat else stat_key stat k.name v)

-- `for (j = 0; j < splits; j++) stat_key(&stats[j], …)`
unfoldable pub key_all : ℕ → Str → Str → List Stat → List Stat
key_all zero name v stats = stats
key_all (suc n) name v [] = []
key_all (suc n) name v (s ∷ ss) = stat_key s name v ∷ key_all n name v ss

-- `stats[0].values[0]`
abbrev pub first_value : List Stat → StatValue
first_value [] = 0
first_value (s ∷ ss) = get_or s.values 0 0

module _ {V : Type 0} (out : Outside V) where
  -- The loop over a key's parts runs over the array from its front: `stats[j]` is its head, and at the
  -- end of the array a write of `stats[j]` is a crash.
  module _ (conf : Conf V) where
    -- a statistic that a key adds beyond those of the values
    unfoldable pub renew : List (ConfKey V × Str) → StatValue → Stat → Stat
    renew before first stat = add_previous before (
        if conf.value.split
        then stat_value_zero (fresh out conf stat)
        else stat_value (fresh out conf stat) first)

    abbrev pub renew_new : List (ConfKey V × Str) → StatValue → ℕ → Stat → Stat
    renew_new before first zero stat = renew before first stat
    renew_new before first (suc left) stat = stat

    -- one round of the `while` over the parts of a key, with what the other rounds do
    unfoldable pub after_key_cut :
        List (ConfKey V × Str)
        → StatValue
        → Str
        → ℕ
        → Stat
        → List Stat
        → Cut
        → (ℕ → Option (ℕ × List Stat))
        → Option (ℕ × List Stat)
    after_key_cut before first name left stat ss cut_crash more = none
    after_key_cut before first name left stat ss cut_done more = some (0, stat ∷ ss)
    after_key_cut before first name left stat ss (cut str next) more =
        for_some (more next)
          (λ (j, rest). (suc j, stat_key (renew_new before first left stat) name str ∷ rest))

    -- a round at the end of the array
    unfoldable pub past_keys : Cut → Option (ℕ × List Stat)
    past_keys cut_crash = none
    past_keys cut_done = some (0, [])
    past_keys (cut str next) = none

    -- The `while` over the parts of a key, with `max - j` and `splits - j`: how many there are
    -- and the array, or the crash.
    unfoldable pub key_loop :
        List (ConfKey V × Str)
        → StatValue
        → Str
        → Str
        → ℕ
        → ℕ
        → ℕ
        → List Stat
        → Option (ℕ × List Stat)
    key_loop before first name v zero left from stats = some (0, stats)
    key_loop before first name v (suc n) left from [] = past_keys (cut_part out.behind v from)
    key_loop before first name v (suc n) left from (stat ∷ ss) =
        after_key_cut before first name left stat ss (cut_part out.behind v from)
          (λ next. key_loop before first name v n (left - 1) next ss)

    unfoldable pub one_key :
        ℕ → List (ConfKey V × Str) → ConfKey V → Str → ℕ → List Stat → Option (ℕ × List Stat)
    one_key max before k v splits stats =
        if is_empty v then some (splits, stats) else elim k.split [
          | true ↦
              for_some (key_loop before (first_value stats) k.name v max splits 0 stats)
                (λ (j, rest). (if ltb splits j then j else splits, rest))
          | false ↦ some (splits, key_all splits k.name v stats)
        ]

    -- the loop over the keys
    unfoldable pub keys_loop :
        ℕ → List (ConfKey V × Str) → List (ConfKey V × Str) → ℕ → List Stat → Option (ℕ × List Stat)
    keys_loop max before [] splits stats = some (splits, stats)
    keys_loop max before ((k, v) ∷ ks) splits stats = elim (one_key max before k v splits stats) [
      | none ↦ none
      | some (splits', stats') ↦ keys_loop max (before ++ ((k, v) ∷ [])) ks splits' stats'
    ]
