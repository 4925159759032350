-- ===== src/Aggregate/Index/Search.antt =====
-- What `lookup` finds.
use nginx_statshouse_module.Base.{
  ℕ, ◌≤◌, ◌<◌, ◌≡◌, refl, ◌⊎◌, inl, inr, List, [], ◌∷◌, some, All, In, In-append_left,
  In-append_right, arith,
}
use nginx_statshouse_module.Stat.{StatType, type_code}
use nginx_statshouse_module.Aggregate.Index.{
  AggregateStat, Memory, Tree, sentinel, node, inorder, turn, found, left, right, Turn, lookup,
}

-- A statistic answers a search if it has the hash, the size and the type that are looked for.
pub record Answers (hash size : ℕ) (type : StatType) (s : AggregateStat) : Type 0 where
  pub same_key : s.key ≡ hash
  pub same_size : s.size ≡ size
  pub same_type : s.stat.type ≡ type

type_code-injective : (s t : StatType) → type_code s ≡ type_code t → s ≡ t
type_code-injective s t h = ground arith

pub turn-found :
    (hash size : ℕ) (type : StatType) (s : AggregateStat)
    → turn hash size type s ≡ found
    → Answers hash size type s
unfolding turn
turn-found hash size type s h = record {
  same_key = ground arith;
  same_size = ground arith;
  same_type = type_code-injective _ _ (ground arith);
}

-- The order of the tree: by key, and at the same key by size.
abbrev pub Le : AggregateStat → AggregateStat → Type 0
Le a b = (a.key < b.key) ⊎ ((a.key ≡ b.key) × (a.size ≤ b.size))

abbrev pub IsSorted : Memory → List ℕ → Type 0
IsSorted mem [] = Unit
IsSorted mem (p ∷ ps) = All (λ q. Le (mem p) (mem q)) ps × IsSorted mem ps

-- No other type shares the hash and the size with the one that is looked for.
abbrev pub Unmixed : Memory → ℕ → ℕ → StatType → List ℕ → Type 0
Unmixed mem hash size type =
    All (λ p. (mem p).key ≡ hash → (mem p).size ≡ size → (mem p).stat.type ≡ type)

Turn-cases : (t : Turn) → (t ≡ found) ⊎ (t ≡ left) ⊎ (t ≡ right)
Turn-cases found = inl refl
Turn-cases left = inr (inl refl)
Turn-cases right = inr (inr refl)

module _ (mem : Memory) (hash size : ℕ) (type : StatType) where
  pub lookup-turn :
      (l r : Tree) (p : ℕ)
      → ((turn hash size type (mem p) ≡ found) × (lookup mem (node l p r) hash size type ≡ some p))
        ⊎ ((turn hash size type (mem p) ≡ left)
            × (lookup mem (node l p r) hash size type ≡ lookup mem l hash size type))
        ⊎ ((turn hash size type (mem p) ≡ right)
            × (lookup mem (node l p r) hash size type ≡ lookup mem r hash size type))
  unfolding lookup
  lookup-turn l r p = elim (Turn-cases (turn hash size type (mem p))) [
    | inl e ↦ inl (e, rw (e, lookup))
    | inr (inl e) ↦ inr (inl (e, rw (e, lookup)))
    | inr (inr e) ↦ inr (inr (e, rw (e, lookup)))
  ]

  -- What `lookup` returns is in the tree, and has the hash, the size and the type that were
  -- looked for.
  pub lookup-Answers :
      (t : Tree) (p : ℕ)
      → lookup mem t hash size type ≡ some p
      → In p (inorder t) × Answers hash size type (mem p)
  unfolding inorder
  lookup-Answers sentinel p h = unfold lookup in cc
  lookup-Answers (node l q r) p h = elim (lookup-turn l r q) [
    | inl (e, same) ↦
        let at : p ≡ q = cc in
        (In-append_right p (inorder l) _ (inl at), rw at (turn-found hash size type (mem q) e))
    | inr (inl (e, same)) ↦
        let (i, a) = lookup-Answers l p (rw same at h) in (In-append_left p (inorder l) _ i, a)
    | inr (inr (e, same)) ↦
        let (i, a) = lookup-Answers r p (rw same at h) in
        (In-append_right p (inorder l) _ (inr i), a)
  ]
