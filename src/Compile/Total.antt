-- ===== src/Compile/Total.antt =====
-- The whole of `ngx_statshouse_stat_compile` (src/ngx_statshouse.c), and where a crash comes from.
use nginx_statshouse_module.Base.{
  ℕ, zero, suc, ◌≡◌, ◌≢◌, refl, ap, ◌≤◌, ◌⊎◌, List, [], ◌∷◌, ◌++◌, Bool, true, false, Bool-cases,
  inl, inr, ◌||◌, ◌==◌, Option, none, some, ltb, if◌then◌else◌, length, arith, All,
}
use nginx_statshouse_module.Nginx.{Rc, ngx_ok, ngx_error, ngx_declined}
use nginx_statshouse_module.Stat.{Str, Stat}
use nginx_statshouse_module.Compile.Config.{
  ConfKey, Conf, Outside, Outcome, compiled, returned, crashed, is_empty, held_back, touched,
  for_some, test_required_predicates, eval_key, eval_keys,
}
use nginx_statshouse_module.Compile.Values.{compile_values}
use nginx_statshouse_module.Compile.Keys.{key_all, first_value, key_loop, one_key, keys_loop}
use nginx_statshouse_module.Compile.{compile_keys, compile_all, stat_compile}
use nginx_statshouse_module.Compile.NoCrash.{
  Plain, Safe, HasRoom, for_some-HasRoom, compile_values-Safe, key_loop-HasRoom,
}

-- The value of a key that is left out, or has no colon.
abbrev KeyPlain : {V : Type 0} → (Str → List ℕ) → ConfKey V × Str → Type 0
KeyPlain behind (k, v) = (is_empty v ≡ true) ⊎ Plain behind v

-- A list that may be missing and has only such keys.
abbrev KeysPlain : {V : Type 0} → (Str → List ℕ) → Option (List (ConfKey V × Str)) → Type 0
KeysPlain behind none = Unit
KeysPlain behind (some ks) = All (KeyPlain behind) ks

pub length-key_all :
    (n : ℕ) (name v : Str) (ss : List Stat) → length (key_all n name v ss) ≡ length ss
unfolding key_all
length-key_all zero name v ss = refl
length-key_all (suc n) name v [] = refl
length-key_all (suc n) name v (s ∷ ss) = ap suc (length-key_all n name v ss)

module _ {V : Type 0} (out : Outside V) (conf : Conf V) where
  one_key-HasRoom :
      (max : ℕ) (before : List (ConfKey V × Str)) (k : ConfKey V) (v : Str) (splits m : ℕ)
      (ss : List Stat)
      → KeyPlain out.behind (k, v)
      → max ≤ length ss
      → m ≤ length ss
      → HasRoom m (one_key out conf max before k v splits ss)
  unfolding one_key
  one_key-HasRoom max before k v splits m ss (inl e) room h = rw e h
  one_key-HasRoom max before k v splits m ss (inr plain) room h = elim (Bool-cases (is_empty v)) [
    | inl e ↦ rw e h
    | inr e ↦ rw e (by_split k.split)
  ]
    where
      by_split :
          (b : Bool)
          → HasRoom m (elim b [
            | true ↦
                for_some
                  (key_loop out conf before (first_value ss) k.name v max splits 0 ss)
                  (λ (j, rest). (if ltb splits j then j else splits, rest))
            | false ↦ some (splits, key_all splits k.name v ss)
          ])
      by_split true =
          for_some-HasRoom (length ss) m _ _
            (key_loop-HasRoom out conf before (first_value ss) k.name v max splits 0 ss plain
              (omega arith) room)
            (λ j rest e. omega arith)
      by_split false = omega (arith, length-key_all splits k.name v ss)

  keys_loop-HasRoom :
      (max : ℕ) (before ks : List (ConfKey V × Str)) (splits m : ℕ) (ss : List Stat)
      → All (KeyPlain out.behind) ks
      → max ≤ m
      → m ≤ length ss
      → HasRoom m (keys_loop out conf max before ks splits ss)
  unfolding keys_loop
  keys_loop-HasRoom max before [] splits m ss hs room h = h
  keys_loop-HasRoom max before ((k, v) ∷ ks) splits m ss (h, hs) room keeps =
      go (λ n ss' keeps'. keys_loop-HasRoom max (before ++ ((k, v) ∷ [])) ks n m ss' hs room keeps')
        (one_key out conf max before k v splits ss)
        (one_key-HasRoom max before k v splits m ss h (omega arith) keeps)
    where
      go :
          ((n : ℕ) (ss' : List Stat)
            → m ≤ length ss'
            → HasRoom m (keys_loop out conf max (before ++ ((k, v) ∷ [])) ks n ss'))
          → (o : Option (ℕ × List Stat)) → HasRoom m o
          → HasRoom m (elim o [
            | none ↦ none
            | some (splits', stats') ↦
                keys_loop out conf max (before ++ ((k, v) ∷ [])) ks splits' stats'
          ])
      go rest none e = e
      go rest (some (n, ss')) e = rest n ss' e

  compile_keys-Safe :
      (max m : ℕ) (ks : List (ConfKey V × Str)) (r : Outcome × List Stat)
      → All (KeyPlain out.behind) ks
      → max ≤ m
      → Safe m r
      → Safe m (compile_keys out conf max ks r)
  unfolding compile_keys
  compile_keys-Safe max m ks (compiled zero, ss) h room n = n
  compile_keys-Safe max m ks (compiled (suc j), ss) h room n =
      go (keys_loop out conf max [] ks (suc j) ss)
        (keys_loop-HasRoom max [] ks (suc j) m ss h room n)
    where
      go :
          (o : Option (ℕ × List Stat))
          → HasRoom m o
          → Safe m
              (elim o [ none ↦ (crashed, ss) | some (splits, stats') ↦ (compiled splits, stats') ])
      go none e = e
      go (some (j', ss')) e = e
  compile_keys-Safe max m ks (returned rc, ss) h room n = n
  compile_keys-Safe max m ks (crashed, ss) h room n = n

module _ {V : Type 0} (out : Outside V)
    (plain : (v : V) (s : Str) → out.complex v ≡ some s → Plain out.behind s) where
  eval_key-plain :
      (k : ConfKey V) (val : Str) → eval_key out k ≡ some val → KeyPlain out.behind (k, val)
  unfolding eval_key
  eval_key-plain k val e = elim (Bool-cases (k.disable || (length k.name == 0))) [
    | inl off ↦
        let nothing : some [] ≡ some val = rw off at e in
        let empty : val ≡ [] = cc in inl (rw empty (unfold is_empty in refl))
    | inr on ↦ inr (plain k.complex val (rw on at e))
  ]

  eval_keys-plain : (ks : List (ConfKey V)) → KeysPlain out.behind (eval_keys out ks)
  unfolding eval_keys
  eval_keys-plain [] = tt
  eval_keys-plain (k ∷ ks) = go (eval_keys out ks) (eval_keys-plain ks) (eval_key out k) refl
    where
      go :
          (rest : Option (List (ConfKey V × Str)))
          → KeysPlain out.behind rest
          → (o : Option Str) → eval_key out k ≡ o
          → KeysPlain out.behind
              (elim o [ none ↦ none | some val ↦ for_some rest (λ vals. (k, val) ∷ vals) ])
      go rest h none e = tt
      go none h (some val) e = tt
      go (some vals) h (some val) e = (eval_key-plain k val e, h)

  compile_all-Safe :
      (conf : Conf V) (max : ℕ) (ss : List Stat) (rc : Rc)
      → 1 ≤ max
      → max ≤ length ss
      → Safe (length ss) (compile_all out conf max ss rc)
  unfolding compile_all
  compile_all-Safe conf max ss ngx_error some_room room = omega arith
  compile_all-Safe conf max ss ngx_declined some_room room = omega arith
  compile_all-Safe conf max ss ngx_ok some_room room =
      on_value (out.complex conf.value.complex) refl
    where
      on_keys :
          (s : Str)
          → Plain out.behind s
          → (o : Option (List (ConfKey V × Str))) → KeysPlain out.behind o
          → Safe (length ss) (elim o [
            | none ↦ (returned ngx_error, ss)
            | some ks ↦ compile_keys out conf max ks (compile_values out conf s max ss)
          ])
      on_keys s p none h = omega arith
      on_keys s p (some ks) h =
          compile_keys-Safe out conf max (length ss) ks _ h room
            (compile_values-Safe out conf s max ss p some_room room)

      on_value :
          (o : Option Str)
          → out.complex conf.value.complex ≡ o
          → Safe (length ss) (elim o [
            | none ↦ (returned ngx_error, ss)
            | some s ↦ elim (eval_keys out conf.keys) [
              | none ↦ (returned ngx_error, ss)
              | some ks ↦ compile_keys out conf max ks (compile_values out conf s max ss)
            ]
          ])
      on_value none e = omega arith
      on_value (some s) e =
          on_keys s (plain conf.value.complex s e) (eval_keys out conf.keys)
            (eval_keys-plain conf.keys)

  pub stat_compile-Safe :
      (conf : Conf V) (stats : List Stat) (max now : ℕ)
      → 1 ≤ max
      → max ≤ length stats
      → let (outcome, conf', stats') = stat_compile out conf stats max now in
        Safe (length stats) (outcome, stats')
  unfolding stat_compile
  stat_compile-Safe conf stats max now some_room room = elim (Bool-cases (held_back conf now)) [
    | inl e ↦ rw e (omega arith)
    | inr e ↦ rw e (
        compile_all-Safe (touched conf now) max stats
          (test_required_predicates out (touched conf now).condition) some_room room)
  ]

  -- If no variable's value has a colon, and none lies in memory behind one that can be read, if
  -- `max` is 1 or more and the array has as many slots or more, a compilation does not crash: it
  -- neither reads through NULL nor writes past the array.
  pub stat_compile-no_crash :
      (conf : Conf V) (stats : List Stat) (max now : ℕ)
      → 1 ≤ max
      → max ≤ length stats
      → (stat_compile out conf stats max now).0 ≢ crashed
  stat_compile-no_crash conf stats max now some_room room =
      not_crashed (stat_compile out conf stats max now)
        (stat_compile-Safe conf stats max now some_room room)
    where
      not_crashed :
          (r : Outcome × Conf V × List Stat)
          → let (outcome, conf', stats') = r in
            Safe (length stats) (outcome, stats') → r.0 ≢ crashed
      not_crashed (compiled n, c, ss) h e = cc
      not_crashed (returned rc, c, ss) h e = cc
      not_crashed (crashed, c, ss) h e = h
