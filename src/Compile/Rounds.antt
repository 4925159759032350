-- ===== src/Compile/Rounds.antt =====
-- The loop over the value in `ngx_statshouse_stat_compile` (src/ngx_statshouse.c), and its arrays.
use nginx_statshouse_module.Base.{
  ℕ, zero, suc, ◌-◌, ◌≤◌, ◌≡◌, ◌≢◌, refl, inl, inr, List, [], ◌∷◌, Bool-cases, Option, none, some,
  ltb, ◌==◌, length, arith, get_or,
}
use nginx_statshouse_module.Nginx.{ngx_ok, ngx_error}
use nginx_statshouse_module.Stat.{
  Str, StatType, mt_counter, mt_value, mt_unique, Stat, stat_init, stat_value, stat_value_zero,
  stat_value_counter, stat_value_value, stat_value_nvalue, stat_value_unique,
}
use nginx_statshouse_module.Compile.Config.{
  Conf, Outside, Outcome, compiled, returned, crashed, Cut, cut_crash, cut_done, cut, for_some,
}
use nginx_statshouse_module.Compile.Values.{
  one_more, fresh, parse_value, fill_value, put_value, after_cut, past_end, values_loop, one_value,
  compile_values,
}

-- A statistic with at most `k` keys and one value.
pub record Filled (k : ℕ) (s : Stat) : Type 0 where
  pub few_keys : s.keys_count ≤ k
  pub one_value : s.values_count ≡ 1

-- The first `n` statistics of an array that has so many.
abbrev pub Uses : ℕ → ℕ → List Stat → Type 0
Uses k zero ss = Unit
Uses k (suc n) [] = ⊥
Uses k (suc n) (s ∷ ss) = Filled k s × Uses k n ss

-- No more than `most` statistics were compiled, and they are filled in; or there is an error.
abbrev pub Bounded : ℕ → ℕ → Outcome × List Stat → Type 0
Bounded k most (compiled n, ss) = (n ≤ most) × Uses k n ss
Bounded k most (returned rc, ss) = rc ≢ ngx_ok
Bounded k most (crashed, ss) = Unit

abbrev pub OptAll {ℓ κ} : {A : Type ℓ} → (A → Type κ) → Option A → Type κ
OptAll P none = Unit
OptAll P (some a) = P a

pub for_some-OptAll {ℓ κ μ ν} :
    {A : Type ℓ} {B : Type κ} (P : A → Type μ) (Q : B → Type ν) (o : Option A) (f : A → B)
    → OptAll P o
    → ((a : A) → P a → Q (f a))
    → OptAll Q (for_some o f)
for_some-OptAll P Q none f h g = tt
for_some-OptAll P Q (some a) f h g = g a h

pub OptAll-imp {ℓ μ ν} :
    {A : Type ℓ} (P : A → Type μ) (Q : A → Type ν) (o : Option A)
    → OptAll P o
    → ((a : A) → P a → Q a)
    → OptAll Q o
OptAll-imp P Q none h g = tt
OptAll-imp P Q (some a) h g = g a h

each : {A : Type 0} (o : Option A) → OptAll (λ a. Unit {0}) o
each none = tt
each (some a) = tt

pub Uses-suc : (k n : ℕ) (ss : List Stat) → Uses k n ss → Uses (suc k) n ss
Uses-suc k zero ss h = tt
Uses-suc k (suc n) [] h = absurd h
Uses-suc k (suc n) (s ∷ ss) (f, h) =
    (record { few_keys = omega (arith, f.few_keys); one_value = f.one_value }, Uses-suc k n ss h)

one_more-Bounded :
    (most : ℕ) (f : Stat) (r : Outcome × List Stat)
    → Filled 0 f
    → Bounded 0 most r
    → Bounded 0 (suc most) (one_more f r)
unfolding one_more
one_more-Bounded most f (compiled n, ss) h (b, u) = (omega arith, (h, u))
one_more-Bounded most f (returned rc, ss) h b = b
one_more-Bounded most f (crashed, ss) h b = tt

module _ {V : Type 0} where
  module _ (out : Outside V) where
    fill_value-Filled :
        (type : StatType) (str : Str) (s : Stat)
        → s.keys_count ≡ 0
        → s.values_count ≡ 0
        → OptAll (Filled 0) (fill_value out type str s)
    unfolding fill_value parse_value stat_value_zero stat_value stat_value_counter stat_value_value
        stat_value_nvalue stat_value_unique
    fill_value-Filled type str s k v = elim (Bool-cases (ltb 0 (length str))) [
      | inr e ↦ rw e (filled _)
      | inl e ↦ rw e (by_type type)
    ]
      where
        filled : (w : ℕ) → Filled 0 (stat_value s w)
        filled w = record { few_keys = omega arith; one_value = omega arith }

        by_type : (t : StatType) → OptAll (Filled 0) (parse_value out t str s)
        by_type mt_counter = for_some-OptAll _ _ (out.atoi str) _ (each _) (λ n u. filled _)
        by_type mt_unique = for_some-OptAll _ _ (out.atoi str) _ (each _) (λ n u. filled _)
        by_type mt_value = elim (Bool-cases (get_or str 0 0 == b'-')) [
          | inl e ↦ rw e (for_some-OptAll _ _ (out.atofp _ 8) _ (each _) (λ n u. filled _))
          | inr e ↦ rw e (for_some-OptAll _ _ (out.atofp str 8) _ (each _) (λ n u. filled _))
        ]

module _ {V : Type 0} (out : Outside V) (conf : Conf V) where
  put_value-Bounded :
      (str : Str) (stat : Stat) (ss : List Stat) (most : ℕ) (rest : Outcome × List Stat)
      → Bounded 0 most rest
      → Bounded 0 (suc most) (put_value out conf str stat ss rest)
  unfolding put_value stat_init
  put_value-Bounded str stat ss most rest h =
      by_fill (fill_value out conf.value.type str (fresh out conf stat))
        (fill_value-Filled out conf.value.type str (fresh out conf stat) refl refl)
    where
      by_fill :
          (o : Option Stat)
          → OptAll (Filled 0) o
          → Bounded 0 (suc most) (elim o [
            | none ↦ (returned ngx_error, fresh out conf stat ∷ ss)
            | some filled ↦ one_more filled rest
          ])
      by_fill none f = λ e. cc
      by_fill (some filled) f = one_more-Bounded most filled rest f h

  after_cut-Bounded :
      (c : Cut) (stat : Stat) (ss : List Stat) (more : ℕ → Outcome × List Stat) (most : ℕ)
      → ((next : ℕ) → Bounded 0 most (more next))
      → Bounded 0 (suc most) (after_cut out conf c stat ss more)
  unfolding after_cut
  after_cut-Bounded cut_crash stat ss more most h = tt
  after_cut-Bounded cut_done stat ss more most h = (omega arith, tt)
  after_cut-Bounded (cut str next) stat ss more most h =
      put_value-Bounded str stat ss most (more next) (h next)

  past_end-Bounded : (most : ℕ) (c : Cut) → Bounded 0 most (past_end out conf c)
  unfolding past_end
  past_end-Bounded most cut_crash = tt
  past_end-Bounded most cut_done = (omega arith, tt)
  past_end-Bounded most (cut str next) = tt

  values_loop-Bounded :
      (s : Str) (n from : ℕ) (ss : List Stat) → Bounded 0 (suc n) (values_loop out conf s n from ss)
  unfolding values_loop
  values_loop-Bounded s n from [] = past_end-Bounded (suc n) _
  values_loop-Bounded s zero from (stat ∷ ss) =
      after_cut-Bounded _ stat ss _ 0 (λ next. (omega arith, tt))
  values_loop-Bounded s (suc n) from (stat ∷ ss) =
      after_cut-Bounded _ stat ss _ (suc n) (λ next. values_loop-Bounded s n next ss)

  one_value-Bounded : (s : Str) (ss : List Stat) → Bounded 0 1 (one_value out conf s ss)
  unfolding one_value
  one_value-Bounded s [] = elim (Bool-cases (length s == 0)) [
    | inl e ↦ rw e (omega arith, tt)
    | inr e ↦ rw e tt
  ]
  one_value-Bounded s (stat ∷ ss) = elim (Bool-cases (length s == 0)) [
    | inl e ↦ rw e (omega arith, tt)
    | inr e ↦ rw e (put_value-Bounded s stat ss 0 (compiled 0, ss) (omega arith, tt))
  ]

  Bounded-le : (a b : ℕ) (r : Outcome × List Stat) → a ≤ b → Bounded 0 a r → Bounded 0 b r
  Bounded-le a b (compiled n, ss) h (m, u) = (omega arith, u)
  Bounded-le a b (returned rc, ss) h k = k
  Bounded-le a b (crashed, ss) h k = k

  pub compile_values-Bounded :
      (s : Str) (max : ℕ) (ss : List Stat)
      → 1 ≤ max
      → Bounded 0 max (compile_values out conf s max ss)
  unfolding compile_values values_loop put_value one_value after_cut past_end
  compile_values-Bounded s max ss h = elim (Bool-cases conf.value.split) [
    | inl e ↦
        rw e (Bounded-le (suc (max - 1)) max _ (omega arith) (values_loop-Bounded s (max - 1) 0 ss))
    | inr e ↦ rw e (Bounded-le 1 max _ h (one_value-Bounded s ss))
  ]
