-- ===== src/Base/Without.antt =====
-- A list of addresses without one of them.
use Prim.Native.Nat.{ℕ}
use mathlib.Core.Path.{◌≡◌, refl}
use mathlib.Core.Logic.{◌≢◌, inl, inr}
use mathlib.Core.List.{List, [], ◌∷◌}
use native.Mathlib.Decide.{ℕ_discrete}
use nginx_statshouse_module.Base.Tests.{◌==◌, if◌then◌else◌, ==_iff, ==_of_ne}
use nginx_statshouse_module.Base.Lists.{In, All, All-In, All-of_In}

abbrev pub without : ℕ → List ℕ → List ℕ
without p [] = []
without p (q ∷ qs) = if p == q then without p qs else q ∷ without p qs

without-cons_eq : (p x : ℕ) (xs : List ℕ) → p ≡ x → without p (x ∷ xs) ≡ without p xs
without-cons_eq p x xs e = rw ((==_iff p x).1 e)

without-cons_ne : (p x : ℕ) (xs : List ℕ) → p ≢ x → without p (x ∷ xs) ≡ x ∷ without p xs
without-cons_ne p x xs ne = rw (==_of_ne p x ne)

pub In-without : (p q : ℕ) (xs : List ℕ) → In q (without p xs) → (p ≢ q) × In q xs
In-without p q [] h = absurd h
In-without p q (x ∷ xs) h = elim (ℕ_discrete p x) [
  | yes e ↦ let (ne, i) = In-without p q xs (rw (without-cons_eq p x xs e) at h) in (ne, inr i)
  | no ne ↦ elim (rw (without-cons_ne p x xs ne) at h) [
    | inl at ↦ ((rw at ne), inl at)
    | inr i ↦ let (ne', i') = In-without p q xs i in (ne', inr i')
  ]
]

pub In-without_back : (p q : ℕ) (xs : List ℕ) → p ≢ q → In q xs → In q (without p xs)
In-without_back p q [] ne h = absurd h
In-without_back p q (x ∷ xs) ne (inl at) = rw (without-cons_ne p x xs (rw (← at) ne)) (inl at)
In-without_back p q (x ∷ xs) ne (inr i) = elim (ℕ_discrete p x) [
  | yes e ↦ rw (without-cons_eq p x xs e) (In-without_back p q xs ne i)
  | no other ↦ rw (without-cons_ne p x xs other) (inr (In-without_back p q xs ne i))
]

pub All-without : (P : ℕ → Type 0) (p : ℕ) (xs : List ℕ) → All P xs → All P (without p xs)
All-without P p xs h = All-of_In P _ (λ q i. All-In P q xs h (In-without p q xs i).1)

-- A property of a list that holds of the list with an element left out, and is made of one of each
-- element and one of the rest, holds of the list without an address.
pub without-cases {κ} :
    (P : List ℕ → Type κ) (p x : ℕ) (xs : List ℕ)
    → P (without p xs)
    → P (x ∷ without p xs)
    → P (without p (x ∷ xs))
without-cases P p x xs skip keep = elim (ℕ_discrete p x) [
  | yes e ↦ rw (without-cons_eq p x xs e) skip
  | no ne ↦ rw (without-cons_ne p x xs ne) keep
]

-- An address that is not in the list leaves it as it is.
pub without-absent : (p : ℕ) (xs : List ℕ) → All (λ q. p ≢ q) xs → without p xs ≡ xs
without-absent p [] h = refl
without-absent p (x ∷ xs) (ne, h) = rw (without-cons_ne p x xs ne, without-absent p xs h)
