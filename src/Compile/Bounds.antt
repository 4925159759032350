-- ===== src/Compile/Bounds.antt =====
-- The whole of `ngx_statshouse_stat_compile` (src/ngx_statshouse.c), and its arrays.
use nginx_statshouse_module.Base.{
  ℕ, zero, suc, ◌+◌, ◌-◌, ◌≤◌, ◌≡◌, ◌≢◌, refl, ap, subst, inl, inr, List, [], ◌∷◌, ◌++◌, Bool, true,
  false, Bool-cases, Option, none, some, ltb, ◌==◌, if◌then◌else◌, length, length-append, arith,
}
use nginx_statshouse_module.Nginx.{Rc, ngx_ok, ngx_error, ngx_declined}
use nginx_statshouse_module.Stat.{Str, Stat}
use nginx_statshouse_module.Compile.Config.{
  ConfKey, Conf, Outside, Outcome, compiled, returned, crashed, is_empty, held_back, touched,
  for_some, test_required_predicates, eval_key, eval_keys,
}
use nginx_statshouse_module.Compile.Values.{compile_values}
use nginx_statshouse_module.Compile.Keys.{key_all, first_value, key_loop, one_key, keys_loop}
use nginx_statshouse_module.Compile.{compile_keys, compile_all, stat_compile}
use nginx_statshouse_module.Compile.Rounds.{
  Uses, Bounded, OptAll, OptAll-imp, for_some-OptAll, Uses-suc, compile_values-Bounded,
}
use nginx_statshouse_module.Compile.KeyRounds.{
  key_all-Uses, larger, larger_lem, Keyed, key_loop-Keyed,
}

-- How a compilation ends: with at least one statistic and no more than there is room for, all of
-- them filled in; with a return code other than `NGX_OK`; or with a crash.
abbrev pub Compiled : ℕ → ℕ → Outcome × List Stat → Type 0
Compiled k max (compiled n, ss) = (1 ≤ n) × (n ≤ max) × Uses k n ss
Compiled k max (returned rc, ss) = rc ≢ ngx_ok
Compiled k max (crashed, ss) = Unit

-- What the keys make of `splits` statistics.
abbrev Extended : ℕ → ℕ → ℕ → ℕ × List Stat → Type 0
Extended k max splits (n, ss) = (splits ≤ n) × (n ≤ max) × Uses k n ss

larger_range : (j l : ℕ) → (l ≤ larger j l) × ((m : ℕ) → j ≤ m → l ≤ m → larger j l ≤ m)
unfolding larger
larger_range j zero = (omega arith, λ m a b. a)
larger_range zero (suc l) = (omega arith, λ m a b. b)
larger_range (suc j) (suc l) =
    let (a, b) = larger_range j l in
    (omega arith, λ m x y. let below = b (m - 1) (omega arith) (omega arith) in omega arith)

module _ {V : Type 0} (out : Outside V) where
  eval_keys-length :
      (ks : List (ConfKey V)) → OptAll (λ vals. length vals ≡ length ks) (eval_keys out ks)
  unfolding eval_keys
  eval_keys-length [] = refl
  eval_keys-length (k ∷ ks) = go (eval_keys-length ks) (eval_key out k)
    where
      go :
          OptAll (λ vals. length vals ≡ length ks) (eval_keys out ks)
          → (o : Option Str)
          → OptAll
              (λ vals. length vals ≡ suc (length ks))
              (elim o [
                | none ↦ none
                | some val ↦ for_some (eval_keys out ks) (λ vals. (k, val) ∷ vals)
              ])
      go h none = tt
      go h (some val) =
          for_some-OptAll (λ vals. length vals ≡ length ks) (λ vals. length vals ≡ suc (length ks))
            (eval_keys out ks) _ h (λ vals e. ap suc e)

module _ {V : Type 0} (out : Outside V) (conf : Conf V) where
  one_key-Extended :
      (max : ℕ) (before : List (ConfKey V × Str)) (k : ConfKey V) (v : Str) (splits : ℕ)
      (ss : List Stat)
      → splits ≤ max
      → Uses (length before) splits ss
      → OptAll
          (Extended (suc (length before)) max splits)
          (one_key out conf max before k v splits ss)
  unfolding one_key
  one_key-Extended max before k v splits ss h u = elim (Bool-cases (is_empty v)) [
    | inl e ↦ rw e (omega arith, h, Uses-suc _ splits ss u)
    | inr e ↦ rw e (by_split k.split)
  ]
    where
      by_split :
          (b : Bool)
          → OptAll (Extended (suc (length before)) max splits) (elim b [
            | true ↦
                for_some
                  (key_loop out conf before (first_value ss) k.name v max splits 0 ss)
                  (λ (j, rest). (if ltb splits j then j else splits, rest))
            | false ↦ some (splits, key_all splits k.name v ss)
          ])
      by_split false = (omega arith, h, key_all-Uses _ splits k.name v ss u)
      by_split true =
          for_some-OptAll (Keyed out conf (length before) max splits) _ _ _
            (key_loop-Keyed out conf before (first_value ss) k.name v max splits 0 ss u)
            (λ (j, rest) (b, r).
              rw (larger_lem j splits)
                ((larger_range j splits).0, (larger_range j splits).1 max b h, r))

  keys_loop-Extended :
      (max : ℕ) (before ks : List (ConfKey V × Str)) (splits : ℕ) (ss : List Stat)
      → splits ≤ max
      → Uses (length before) splits ss
      → OptAll
          (Extended (length before + length ks) max splits)
          (keys_loop out conf max before ks splits ss)
  unfolding keys_loop
  keys_loop-Extended max before [] splits ss h u =
      let none_left : length before + 0 ≡ length before = omega arith in
      rw none_left (omega arith, h, u)
  keys_loop-Extended max before ((k, v) ∷ ks) splits ss h u =
      go (keys_loop-Extended max (before ++ ((k, v) ∷ [])) ks)
        (one_key out conf max before k v splits ss) (one_key-Extended max before k v splits ss h u)
    where
      longer : length (before ++ ((k, v) ∷ [])) ≡ suc (length before)
      longer = omega (arith, length-append before ((k, v) ∷ []))

      sum : suc (length before) + length ks ≡ length before + suc (length ks)
      sum = omega arith

      go :
          ((n : ℕ) (ss' : List Stat)
            → n ≤ max
            → Uses (length (before ++ ((k, v) ∷ []))) n ss'
            → OptAll
                (Extended (length (before ++ ((k, v) ∷ [])) + length ks) max n)
                (keys_loop out conf max (before ++ ((k, v) ∷ [])) ks n ss'))
          → (o : Option (ℕ × List Stat)) → OptAll (Extended (suc (length before)) max splits) o
          → OptAll (Extended (length before + suc (length ks)) max splits) (elim o [
            | none ↦ none
            | some (splits', stats') ↦
                keys_loop out conf max (before ++ ((k, v) ∷ [])) ks splits' stats'
          ])
      go rest none e = tt
      go rest (some (n, ss')) (a, b, c) =
          OptAll-imp (Extended (length (before ++ ((k, v) ∷ [])) + length ks) max n) _ _
            (rest n ss' b (rw longer c))
            (λ (m, ss'') (x, y, z). (omega arith, y, rw (longer, sum) at z))

  compile_keys-Compiled :
      (max : ℕ) (ks : List (ConfKey V × Str)) (r : Outcome × List Stat)
      → Bounded 0 max r
      → Compiled (length ks) max (compile_keys out conf max ks r)
  unfolding compile_keys
  compile_keys-Compiled max ks (compiled zero, ss) b = λ e. cc
  compile_keys-Compiled max ks (compiled (suc n), ss) (b, u) =
      go (keys_loop out conf max [] ks (suc n) ss) (keys_loop-Extended max [] ks (suc n) ss b u)
    where
      go :
          (o : Option (ℕ × List Stat))
          → OptAll (Extended (0 + length ks) max (suc n)) o
          → Compiled
              (length ks)
              max
              (elim o [ none ↦ (crashed, ss) | some (splits, stats') ↦ (compiled splits, stats') ])
      go none e = tt
      go (some (m, ss')) (x, y, z) =
          let same : 0 + length ks ≡ length ks = omega arith in (omega arith, y, rw same at z)
  compile_keys-Compiled max ks (returned rc, ss) b = b
  compile_keys-Compiled max ks (crashed, ss) b = tt

  compile_all-Compiled :
      (max : ℕ) (ss : List Stat) (rc : Rc)
      → 1 ≤ max
      → Compiled (length conf.keys) max (compile_all out conf max ss rc)
  unfolding compile_all
  compile_all-Compiled max ss ngx_error h = λ e. cc
  compile_all-Compiled max ss ngx_declined h = λ e. cc
  compile_all-Compiled max ss ngx_ok h = on_value (out.complex conf.value.complex)
    where
      on_keys :
          (s : Str) (o : Option (List (ConfKey V × Str)))
          → OptAll (λ ks. length ks ≡ length conf.keys) o
          → Compiled (length conf.keys) max (elim o [
            | none ↦ (returned ngx_error, ss)
            | some ks ↦ compile_keys out conf max ks (compile_values out conf s max ss)
          ])
      on_keys s none e = λ k. cc
      on_keys s (some ks) e =
          rw (← e) (compile_keys-Compiled max ks _ (compile_values-Bounded out conf s max ss h))

      on_value :
          (o : Option Str)
          → Compiled (length conf.keys) max (elim o [
            | none ↦ (returned ngx_error, ss)
            | some s ↦ elim (eval_keys out conf.keys) [
              | none ↦ (returned ngx_error, ss)
              | some ks ↦ compile_keys out conf max ks (compile_values out conf s max ss)
            ]
          ])
      on_value none = λ e. cc
      on_value (some s) = on_keys s (eval_keys out conf.keys) (eval_keys-length out conf.keys)

module _ {V : Type 0} (out : Outside V) where
  touched-keys : (conf : Conf V) (now : ℕ) → (touched conf now).keys ≡ conf.keys
  unfolding touched
  touched-keys conf now = elim (Bool-cases (conf.timeout == 0)) [
    | inl e ↦ rw e refl
    | inr e ↦ rw e refl
  ]

  -- If there is room for one statistic or more, a compilation ends with at least one statistic
  -- and no more than there is room for, each with one value and no more keys than the
  -- configuration has; or it returns a code other than NGX_OK; or it crashes.
  pub stat_compile-Compiled :
      (conf : Conf V) (stats : List Stat) (max now : ℕ)
      → 1 ≤ max
      → let (outcome, conf', stats') = stat_compile out conf stats max now in
        Compiled (length conf.keys) max (outcome, stats')
  unfolding stat_compile
  stat_compile-Compiled conf stats max now h = elim (Bool-cases (held_back conf now)) [
    | inl e ↦ rw e (λ k. cc)
    | inr e ↦ rw e (
        subst (λ ks. Compiled (length ks) max result) (touched-keys conf now)
          (compile_all-Compiled out (touched conf now) max stats
            (test_required_predicates out (touched conf now).condition) h))
  ]
    where
      result : Outcome × List Stat
      result =
          compile_all out (touched conf now) max stats
            (test_required_predicates out (touched conf now).condition)
