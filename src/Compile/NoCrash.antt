-- ===== src/Compile/NoCrash.antt =====
-- The loops of `ngx_statshouse_stat_compile` (src/ngx_statshouse.c), and where a crash comes from.
use nginx_statshouse_module.Base.{
  ℕ, zero, suc, ◌-◌, ◌≤◌, ◌≢◌, List, [], ◌∷◌, ◌++◌, Bool, true, false, Bool-cases, inl, inr, Option,
  none, some, ◌==◌, length, arith, get_or,
}
use nginx_statshouse_module.Nginx.{ngx_error}
use nginx_statshouse_module.Stat.{Str, StatValue, Stat}
use nginx_statshouse_module.Split.{Part, crash, done, item}
use nginx_statshouse_module.Split.Bounds.{Cuts, stat_part-Cuts}
use nginx_statshouse_module.Compile.Config.{
  ConfKey, Conf, Outside, Outcome, compiled, returned, crashed, Cut, cut_crash, cut_done, cut,
  cut_of, cut_part, for_some,
}
use nginx_statshouse_module.Compile.Values.{
  one_more, fresh, fill_value, put_value, after_cut, values_loop, one_value, compile_values,
}
use nginx_statshouse_module.Compile.Keys.{after_key_cut, key_loop}

-- There is no colon in a string or behind it.
abbrev pub Plain : (Str → List ℕ) → Str → Type 0
Plain behind s = (i : ℕ) → get_or (s ++ behind s) i 0 ≢ b':'

-- There is no crash, and the array keeps its `m` statistics.
abbrev pub Safe : ℕ → Outcome × List Stat → Type 0
Safe m (compiled n, ss) = m ≤ length ss
Safe m (returned rc, ss) = m ≤ length ss
Safe m (crashed, ss) = ⊥

-- the same of the loops over the keys
abbrev pub HasRoom : ℕ → Option (ℕ × List Stat) → Type 0
HasRoom m none = ⊥
HasRoom m (some (j, ss)) = m ≤ length ss

abbrev Within : ℕ → Cut → Type 0
Within end cut_crash = ⊥
Within end cut_done = Unit
Within end (cut str next) = next ≤ end

cut_of-Within :
    (byte : ℕ → ℕ) (end from : ℕ) (s : Str) (p : Part)
    → Cuts byte end from p
    → Within end (cut_of s p)
cut_of-Within byte end from s crash h = h
cut_of-Within byte end from s done h = tt
cut_of-Within byte end from s (item start len next) (_, _, _, h, _) = h

cut_part-Within :
    (behind : Str → List ℕ) (s : Str) (from : ℕ)
    → Plain behind s
    → from ≤ length s
    → Within (length s) (cut_part behind s from)
unfolding cut_part
cut_part-Within behind s from plain h =
    cut_of-Within (λ i. get_or (s ++ behind s) i 0) (length s) from s _
      (stat_part-Cuts (λ i. get_or (s ++ behind s) i 0) (length s) plain from h)

one_more-Safe :
    (m : ℕ) (f : Stat) (r : Outcome × List Stat) → Safe m r → Safe (suc m) (one_more f r)
unfolding one_more
one_more-Safe m f (compiled n, ss) h = omega arith
one_more-Safe m f (returned rc, ss) h = omega arith
one_more-Safe m f (crashed, ss) h = h

pub for_some-HasRoom :
    (a b : ℕ) (o : Option (ℕ × List Stat)) (f : ℕ × List Stat → ℕ × List Stat)
    → HasRoom a o
    → ((j : ℕ) (ss : List Stat) → a ≤ length ss → b ≤ length (f (j, ss)).1)
    → HasRoom b (for_some o f)
for_some-HasRoom a b none f h g = h
for_some-HasRoom a b (some (j, ss)) f h g = g j ss h

module _ {V : Type 0} (out : Outside V) (conf : Conf V) where
  put_value-Safe :
      (str : Str) (stat : Stat) (ss : List Stat) (rest : Outcome × List Stat)
      → Safe (length ss) rest
      → Safe (suc (length ss)) (put_value out conf str stat ss rest)
  unfolding put_value
  put_value-Safe str stat ss rest h = go (fill_value out conf.value.type str (fresh out conf stat))
    where
      go :
          (o : Option Stat)
          → Safe (suc (length ss)) (elim o [
            | none ↦ (returned ngx_error, fresh out conf stat ∷ ss)
            | some filled ↦ one_more filled rest
          ])
      go none = omega arith
      go (some filled) = one_more-Safe (length ss) filled rest h

  after_cut-Safe :
      (end : ℕ) (c : Cut) (stat : Stat) (ss : List Stat) (more : ℕ → Outcome × List Stat)
      → Within end c
      → ((next : ℕ) → next ≤ end → Safe (length ss) (more next))
      → Safe (suc (length ss)) (after_cut out conf c stat ss more)
  unfolding after_cut
  after_cut-Safe end cut_crash stat ss more w h = w
  after_cut-Safe end cut_done stat ss more w h = omega arith
  after_cut-Safe end (cut str next) stat ss more w h =
      put_value-Safe str stat ss (more next) (h next w)

  values_loop-Safe :
      (s : Str) (n from : ℕ) (ss : List Stat)
      → Plain out.behind s
      → from ≤ length s
      → suc n ≤ length ss
      → Safe (length ss) (values_loop out conf s n from ss)
  unfolding values_loop
  values_loop-Safe s n from [] plain h room = absurd (omega arith)
  values_loop-Safe s zero from (stat ∷ ss) plain h room =
      after_cut-Safe (length s) _ stat ss _ (cut_part-Within out.behind s from plain h)
        (λ next k. omega arith)
  values_loop-Safe s (suc n) from (stat ∷ ss) plain h room =
      after_cut-Safe (length s) _ stat ss _ (cut_part-Within out.behind s from plain h)
        (λ next k. values_loop-Safe s n next ss plain k (omega arith))

  one_value-Safe :
      (s : Str) (ss : List Stat) → 1 ≤ length ss → Safe (length ss) (one_value out conf s ss)
  unfolding one_value
  one_value-Safe s [] room = absurd (omega arith)
  one_value-Safe s (stat ∷ ss) room = elim (Bool-cases (length s == 0)) [
    | inl e ↦ rw e (omega arith)
    | inr e ↦ rw e (put_value-Safe s stat ss (compiled 0, ss) (omega arith))
  ]

  pub compile_values-Safe :
      (s : Str) (max : ℕ) (ss : List Stat)
      → Plain out.behind s
      → 1 ≤ max
      → max ≤ length ss
      → Safe (length ss) (compile_values out conf s max ss)
  unfolding compile_values
  compile_values-Safe s max ss plain some_room room = go conf.value.split
    where
      go :
          (b : Bool)
          → Safe (length ss) (elim b [
            | true ↦ values_loop out conf s (max - 1) 0 ss
            | false ↦ one_value out conf s ss
          ])
      go true = values_loop-Safe s (max - 1) 0 ss plain (omega arith) (omega arith)
      go false = one_value-Safe s ss (omega arith)

  after_key_cut-HasRoom :
      (end : ℕ) (before : List (ConfKey V × Str)) (first : StatValue) (name : Str) (left : ℕ)
      (stat : Stat) (ss : List Stat) (c : Cut) (more : ℕ → Option (ℕ × List Stat))
      → Within end c
      → ((next : ℕ) → next ≤ end → HasRoom (length ss) (more next))
      → HasRoom (suc (length ss)) (after_key_cut out conf before first name left stat ss c more)
  unfolding after_key_cut
  after_key_cut-HasRoom end before first name left stat ss cut_crash more w h = w
  after_key_cut-HasRoom end before first name left stat ss cut_done more w h = omega arith
  after_key_cut-HasRoom end before first name left stat ss (cut str next) more w h =
      for_some-HasRoom (length ss) (suc (length ss)) (more next) _ (h next w)
        (λ j rest k. omega arith)

  pub key_loop-HasRoom :
      (before : List (ConfKey V × Str)) (first : StatValue) (name v : Str) (n left from : ℕ)
      (ss : List Stat)
      → Plain out.behind v
      → from ≤ length v
      → n ≤ length ss
      → HasRoom (length ss) (key_loop out conf before first name v n left from ss)
  unfolding key_loop
  key_loop-HasRoom before first name v zero left from ss plain h room = omega arith
  key_loop-HasRoom before first name v (suc n) left from [] plain h room = absurd (omega arith)
  key_loop-HasRoom before first name v (suc n) left from (stat ∷ ss) plain h room =
      after_key_cut-HasRoom (length v) before first name left stat ss _ _
        (cut_part-Within out.behind v from plain h)
        (λ next k. key_loop-HasRoom before first name v n (left - 1) next ss plain k (omega arith))
