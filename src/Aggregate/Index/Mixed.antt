-- ===== src/Aggregate/Index/Mixed.antt =====
-- A search for a statistic that shares its hash and its size with statistics of smaller type codes.
use nginx_statshouse_module.Base.{
  ℕ, ◌<◌, ◌≡◌, refl, ap, ◌⊎◌, inl, inr, ◌∷◌, Option, none, some, All, All-In, All-split, In,
  In-append, arith, true,
}
use nginx_statshouse_module.Stat.{type_code}
use nginx_statshouse_module.Aggregate.Index.{
  AggregateStat, Memory, Tree, sentinel, node, inorder, turn, right, lookup, insert_value,
  goes_left,
}
use nginx_statshouse_module.Aggregate.Index.Search.{
  Le, IsSorted, Answers, turn-found, lookup-turn, lookup-Answers,
}
use nginx_statshouse_module.Aggregate.Index.Complete.{IsSorted-split}
use nginx_statshouse_module.Aggregate.Index.Insert.{insert-turn}

-- The first comes before the second, by key and at the same key by size.
abbrev Lt : AggregateStat → AggregateStat → Type 0
Lt a b = (a.key < b.key) ⊎ ((a.key ≡ b.key) × (a.size < b.size))

abbrev Same : AggregateStat → AggregateStat → Type 0
Same a b = (a.key ≡ b.key) × (a.size ≡ b.size)

-- If the first shares its hash and its size with the second, its type code is smaller.
abbrev pub Smaller : AggregateStat → AggregateStat → Type 0
Smaller a b = a.key ≡ b.key → a.size ≡ b.size → type_code a.stat.type < type_code b.stat.type

goes_left-Lt : (s t : AggregateStat) → goes_left s t ≡ true → Lt s t
unfolding goes_left
goes_left-Lt s t h = ground arith

Answers-absurd : (s t : AggregateStat) → Smaller s t → Answers t.key t.size t.stat.type s → ⊥
Answers-absurd s t h a =
    let same : type_code s.stat.type ≡ type_code t.stat.type = ap (λ x. type_code x) a.same_type in
    omega (arith, h a.same_key a.same_size)

-- where the search for the first goes at the second
right-Lt :
    (s t : AggregateStat)
    → turn s.key s.size s.stat.type t ≡ right
    → (t.key ≡ s.key → t.size ≡ s.size → type_code t.stat.type < type_code s.stat.type)
    → Lt t s
unfolding turn
right-Lt s t e h = ground arith

right-absurd : (s t : AggregateStat) → turn s.key s.size s.stat.type t ≡ right → Lt s t → ⊥
unfolding turn
right-absurd s t e h = ground arith

-- A statistic with the key and the size of the first is not behind one that is behind the first.
Le-absurd : (s p x : AggregateStat) → Same p s → Lt s x → Le x p → ⊥
Le-absurd s p x same h k = omega arith

ge-absurd : (s p x : AggregateStat) → Same p s → Lt x s → Le p x → ⊥
ge-absurd s p x same h k = omega arith

module _ (mem : Memory) (p q : ℕ) (same : Same (mem p) (mem q)) where
  in_left :
      (l r : Tree) (x : ℕ)
      → IsSorted mem (inorder (node l x r))
      → Lt (mem q) (mem x)
      → In p (inorder (node l x r))
      → In p (inorder l)
  unfolding inorder
  in_left l r x s h i =
      let (sl, sr, ll, lr) = IsSorted-split mem (inorder l) (inorder r) x s in
      elim (In-append p (inorder l) (x ∷ inorder r) i) [
        | inl k ↦ k
        | inr (inl e) ↦ let at : Same (mem x) (mem q) = rw e at same in absurd (omega arith)
        | inr (inr k) ↦ absurd (Le-absurd (mem q) (mem p) (mem x) same h (All-In _ p _ lr k))
      ]

  in_right :
      (l r : Tree) (x : ℕ)
      → IsSorted mem (inorder (node l x r))
      → Lt (mem x) (mem q)
      → In p (inorder (node l x r))
      → In p (inorder r)
  unfolding inorder
  in_right l r x s h i =
      let (sl, sr, ll, lr) = IsSorted-split mem (inorder l) (inorder r) x s in
      elim (In-append p (inorder l) (x ∷ inorder r) i) [
        | inl k ↦ absurd (ge-absurd (mem q) (mem p) (mem x) same h (All-In _ p _ ll k))
        | inr (inl e) ↦ let at : Same (mem x) (mem q) = rw e at same in absurd (omega arith)
        | inr (inr k) ↦ k
      ]

-- Nothing answers a search among statistics of smaller type codes.
lookup-Smaller :
    (mem : Memory) (t : Tree) (q : ℕ)
    → All (λ x. Smaller (mem x) (mem q)) (inorder t)
    → lookup mem t (mem q).key (mem q).size (mem q).stat.type ≡ none
lookup-Smaller mem t q h = go (lookup mem t (mem q).key (mem q).size (mem q).stat.type) refl
  where
    go : (o : Option ℕ) → lookup mem t (mem q).key (mem q).size (mem q).stat.type ≡ o → o ≡ none
    go none e = refl
    go (some x) e =
        let (i, a) = lookup-Answers mem (mem q).key (mem q).size (mem q).stat.type t x e in
        absurd (Answers-absurd (mem x) (mem q) (All-In _ x _ h i) a)

-- A statistic is inserted into a sorted tree that has another of its hash and its size, and every
-- one there of its hash and its size has a smaller type code. In the tree as the callback leaves
-- it, before it is rebalanced, a search for the inserted statistic finds nothing.
pub lookup_mixed-none :
    (mem : Memory) (t : Tree) (p q : ℕ)
    → IsSorted mem (inorder t)
    → In p (inorder t)
    → Same (mem p) (mem q)
    → All (λ x. Smaller (mem x) (mem q)) (inorder t)
    → lookup mem (insert_value mem t q) (mem q).key (mem q).size (mem q).stat.type ≡ none
unfolding inorder
lookup_mixed-none mem sentinel p q s i same h = absurd i
lookup_mixed-none mem (node l x r) p q s i same h =
    let (sl, sr, ll, lr) = IsSorted-split mem (inorder l) (inorder r) x s in
    let (hl, (hx, hr)) = All-split _ (inorder l) (x ∷ inorder r) h in
    elim (insert-turn mem l r x q) [
      | inl (g, e) ↦ rw e (
          let ahead = goes_left-Lt (mem q) (mem x) g in
          elim (lookup-turn mem (mem q).key (mem q).size (mem q).stat.type (insert_value mem l q) r
            x) [
              | inl (at, e') ↦
                  absurd (Answers-absurd (mem x) (mem q) hx (turn-found _ _ _ (mem x) at))
              | inr (inl (at, e')) ↦
                  rw e'
                    (lookup_mixed-none mem l p q sl (in_left mem p q same l r x s ahead i) same hl)
              | inr (inr (at, e')) ↦ absurd (right-absurd (mem q) (mem x) at ahead)
            ])
      | inr (g, e) ↦
          rw e
            (elim (lookup-turn mem (mem q).key (mem q).size (mem q).stat.type l
              (insert_value mem r q) x) [
                | inl (at, e') ↦
                    absurd (Answers-absurd (mem x) (mem q) hx (turn-found _ _ _ (mem x) at))
                | inr (inl (at, e')) ↦ rw e' (lookup-Smaller mem l q hl)
                | inr (inr (at, e')) ↦
                    let behind = right-Lt (mem q) (mem x) at hx in
                    rw e' (
                      lookup_mixed-none mem r p q sr (in_right mem p q same l r x s behind i) same
                        hr)
              ])
    ]
