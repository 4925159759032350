-- ===== src/Compile/KeyRounds.antt =====
-- The loop over the keys in `ngx_statshouse_stat_compile` (src/ngx_statshouse.c), and its arrays.
use nginx_statshouse_module.Base.{
  ℕ, zero, suc, ◌+◌, ◌-◌, ◌≤◌, ◌≡◌, refl, ◌∙◌, inl, inr, List, [], ◌∷◌, Bool-cases, ◌||◌, Option,
  ltb, ◌==◌, if◌then◌else◌, length, arith,
}
use nginx_statshouse_module.Stat.{
  Str, StatValue, Stat, stat_init, stat_value, stat_value_zero, stat_key,
}
use nginx_statshouse_module.Compile.Config.{
  ConfKey, Conf, Outside, is_empty, Cut, cut_crash, cut_done, cut,
}
use nginx_statshouse_module.Compile.Keys.{
  add_previous, key_all, renew, after_key_cut, past_keys, key_loop,
}
use nginx_statshouse_module.Compile.Rounds.{Filled, Uses, OptAll, for_some-OptAll, Uses-suc}

Uses-tail : (k n : ℕ) (s : Stat) (ss : List Stat) → Uses k n (s ∷ ss) → Uses k (n - 1) ss
Uses-tail k zero s ss h = tt
Uses-tail k (suc n) s ss (f, h) = let pred : suc n - 1 ≡ n = omega arith in rw pred h

pub key_all-Uses :
    (k n : ℕ) (name v : Str) (ss : List Stat) → Uses k n ss → Uses (suc k) n (key_all n name v ss)
unfolding key_all stat_key
key_all-Uses k zero name v ss h = tt
key_all-Uses k (suc n) name v [] h = absurd h
key_all-Uses k (suc n) name v (s ∷ ss) (f, h) = (
  record { few_keys = omega (arith, f.few_keys); one_value = f.one_value },
  key_all-Uses k n name v ss h,
)

module _ {V : Type 0} where
  add_previous_lem :
      (before : List (ConfKey V × Str)) (s : Stat)
      → ((add_previous before s).keys_count ≤ s.keys_count + length before)
        × ((add_previous before s).values_count ≡ s.values_count)
  unfolding add_previous stat_key
  add_previous_lem [] s = (omega arith, refl)
  add_previous_lem ((k, v) ∷ ks) s =
      elim (Bool-cases ((length k.name == 0) || (k.split || is_empty v))) [
        | inl e ↦ rw (e, add_previous) (let (a, b) = add_previous_lem ks s in (omega arith, b))
        | inr e ↦
            rw (e, add_previous)
              (let (a, b) = add_previous_lem ks (stat_key s k.name v) in (omega arith, b))
      ]

-- the larger number, as the loop over a key's parts counts
unfoldable pub larger : ℕ → ℕ → ℕ
larger j zero = j
larger zero (suc l) = suc l
larger (suc j) (suc l) = suc (larger j l)

larger_zero : (l : ℕ) → larger 0 l ≡ l
unfolding larger
larger_zero zero = refl
larger_zero (suc l) = refl

pub larger_lem : (j l : ℕ) → (if ltb l j then j else l) ≡ larger j l
unfolding larger
larger_lem j zero = ground arith
larger_lem zero (suc l) = ground arith
larger_lem (suc j) (suc l) = let rest = larger_lem j l in ground arith

module _ {V : Type 0} (out : Outside V) (conf : Conf V) where
  renew-Filled :
      (before : List (ConfKey V × Str)) (first : StatValue) (s : Stat)
      → Filled (length before) (renew out conf before first s)
  unfolding renew stat_value_zero stat_value stat_init
  renew-Filled before first s = elim (Bool-cases conf.value.split) [
    | inl e ↦ rw e (from_fresh _ refl refl)
    | inr e ↦ rw e (from_fresh _ refl refl)
  ]
    where
      from_fresh :
          (t : Stat)
          → t.keys_count ≡ 0
          → t.values_count ≡ 1
          → Filled (length before) (add_previous before t)
      from_fresh t k v =
          let (a, b) = add_previous_lem before t in
          record { few_keys = omega arith; one_value = b ∙ v }

  -- What the loop over the parts of a key leaves.
  abbrev pub Keyed : ℕ → ℕ → ℕ → ℕ × List Stat → Type 0
  Keyed k n left (j, ss) = (j ≤ n) × Uses (suc k) (larger j left) ss

  with_key-Filled :
      (k : ℕ) (s : Stat) (name v : Str) → Filled k s → Filled (suc k) (stat_key s name v)
  unfolding stat_key
  with_key-Filled k s name v f = record {
    few_keys = omega (arith, f.few_keys);
    one_value = f.one_value;
  }

  after_key_cut-Keyed :
      (before : List (ConfKey V × Str)) (first : StatValue) (name : Str) (n left : ℕ) (stat : Stat)
      (ss : List Stat) (c : Cut) (more : ℕ → Option (ℕ × List Stat))
      → Uses (length before) left (stat ∷ ss)
      → ((next : ℕ) → OptAll (Keyed (length before) n (left - 1)) (more next))
      → OptAll
          (Keyed (length before) (suc n) left)
          (after_key_cut out conf before first name left stat ss c more)
  unfolding after_key_cut larger
  after_key_cut-Keyed before first name n left stat ss cut_crash more u h = tt
  after_key_cut-Keyed before first name n left stat ss cut_done more u h =
      (omega arith, rw (larger_zero left) (Uses-suc _ left _ u))
  after_key_cut-Keyed before first name n zero stat ss (cut str next) more u h =
      for_some-OptAll _ _ (more next) _ (h next) (λ (j, rest) (b, r).
        (omega arith, (with_key-Filled _ _ name str (renew-Filled before first stat), r)))
  after_key_cut-Keyed before first name n (suc left) stat ss (cut str next) more (f, u) h =
      for_some-OptAll _ _ (more next) _ (h next)
        (λ (j, rest) (b, r). (omega arith, (with_key-Filled _ _ name str f, rw pred at r)))
    where
      pred : suc left - 1 ≡ left
      pred = omega arith

  past_keys-Keyed :
      (k n left : ℕ) (c : Cut) → Uses k left [] → OptAll (Keyed k n left) (past_keys out conf c)
  unfolding past_keys larger
  past_keys-Keyed k n left cut_crash u = tt
  past_keys-Keyed k n left cut_done u = (omega arith, rw (larger_zero left) (Uses-suc k left [] u))
  past_keys-Keyed k n left (cut str next) u = tt

  pub key_loop-Keyed :
      (before : List (ConfKey V × Str)) (first : StatValue) (name v : Str) (n left from : ℕ)
      (ss : List Stat)
      → Uses (length before) left ss
      → OptAll (Keyed (length before) n left) (key_loop out conf before first name v n left from ss)
  unfolding key_loop larger
  key_loop-Keyed before first name v zero left from ss u =
      (omega arith, rw (larger_zero left) (Uses-suc _ left ss u))
  key_loop-Keyed before first name v (suc n) left from [] u =
      past_keys-Keyed (length before) (suc n) left _ u
  key_loop-Keyed before first name v (suc n) left from (stat ∷ ss) u =
      after_key_cut-Keyed before first name n left stat ss _ _ u (λ next.
        key_loop-Keyed before first name v n (left - 1) next ss (Uses-tail _ left stat ss u))
