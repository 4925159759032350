-- ===== src/Aggregate/Index/Complete.antt =====
-- When `lookup` finds something.
use nginx_statshouse_module.Base.{
  ℕ, ◌≡◌, refl, inl, inr, List, [], ◌∷◌, ◌++◌, some, All, In, In-append, All-In, arith,
}
use nginx_statshouse_module.Stat.{StatType}
use nginx_statshouse_module.Aggregate.Index.{
  AggregateStat, Memory, Tree, sentinel, node, inorder, turn, left, right, lookup,
}
use nginx_statshouse_module.Aggregate.Index.Search.{Answers, Le, IsSorted, Unmixed, lookup-turn}

pub IsSorted-split :
    (mem : Memory) (xs ys : List ℕ) (p : ℕ)
    → IsSorted mem (xs ++ (p ∷ ys))
    → IsSorted mem xs
      × IsSorted mem ys
      × All (λ q. Le (mem q) (mem p)) xs
      × All (λ q. Le (mem p) (mem q)) ys
IsSorted-split mem [] ys p (h, s) = (tt, s, tt, h)
IsSorted-split mem (x ∷ xs) ys p (h, s) =
    let (sx, sy, lx, ly) = IsSorted-split mem xs ys p s in
    ((All-take xs h, sx), sy, (All-mid xs h, lx), ly)
  where
    All-take :
        (zs : List ℕ)
        → All (λ q. Le (mem x) (mem q)) (zs ++ (p ∷ ys))
        → All (λ q. Le (mem x) (mem q)) zs
    All-take [] k = tt
    All-take (z ∷ zs) (k, ks) = (k, All-take zs ks)

    All-mid : (zs : List ℕ) → All (λ q. Le (mem x) (mem q)) (zs ++ (p ∷ ys)) → Le (mem x) (mem p)
    All-mid [] (k, ks) = k
    All-mid (z ∷ zs) (k, ks) = All-mid zs ks

Unmixed-split :
    (mem : Memory) (hash size : ℕ) (type : StatType) (xs ys : List ℕ) (p : ℕ)
    → Unmixed mem hash size type (xs ++ (p ∷ ys))
    → Unmixed mem hash size type xs
      × ((mem p).key ≡ hash → (mem p).size ≡ size → (mem p).stat.type ≡ type)
      × Unmixed mem hash size type ys
Unmixed-split mem hash size type [] ys p (h, hs) = (tt, h, hs)
Unmixed-split mem hash size type (x ∷ xs) ys p (h, hs) =
    let (a, b, c) = Unmixed-split mem hash size type xs ys p hs in ((h, a), b, c)

-- The search turns left only where what it looks for cannot lie at or right of the node, and right
-- only where it cannot lie at or left of it.
turn-left :
    (hash size : ℕ) (type : StatType) (s a : AggregateStat)
    → turn hash size type s ≡ left
    → (s.key ≡ hash → s.size ≡ size → s.stat.type ≡ type)
    → Answers hash size type a
    → ¬ Le s a
unfolding turn
turn-left hash size type s a h u w le = ground arith

turn-right :
    (hash size : ℕ) (type : StatType) (s a : AggregateStat)
    → turn hash size type s ≡ right
    → (s.key ≡ hash → s.size ≡ size → s.stat.type ≡ type)
    → Answers hash size type a
    → ¬ Le a s
unfolding turn
turn-right hash size type s a h u w le = ground arith

Le-refl : (s : AggregateStat) → Le s s
Le-refl s = inr (refl, omega arith)

-- A search succeeds if the tree is in order, holds a statistic with the hash, the size and the
-- type that are looked for, and holds none of another type with the same hash and size.
pub lookup_complete :
    (mem : Memory) (hash size : ℕ) (type : StatType) (t : Tree) (p : ℕ)
    → IsSorted mem (inorder t)
    → Unmixed mem hash size type (inorder t)
    → In p (inorder t)
    → Answers hash size type (mem p)
    → (q : ℕ) × (lookup mem t hash size type ≡ some q)
unfolding inorder
lookup_complete mem hash size type sentinel p s u i a = absurd i
lookup_complete mem hash size type (node l q r) p s u i a =
    elim (lookup-turn mem hash size type l r q) [
      | inl (e, same) ↦ (q, same)
      | inr (inl (e, same)) ↦ elim (In-append p (inorder l) _ i) [
        | inl k ↦
            let (q', found_at) = lookup_complete mem hash size type l p sorted.0 unmixed.0 k a in
            (q', rw same found_at)
        | inr (inl k) ↦
            absurd (turn-left hash size type (mem q) (mem p) e unmixed.1 a (rw k (Le-refl (mem q))))
        | inr (inr k) ↦ absurd (
            turn-left hash size type (mem q) (mem p) e unmixed.1 a
              (All-In _ p (inorder r) sorted.3 k))
      ]
      | inr (inr (e, same)) ↦ elim (In-append p (inorder l) _ i) [
        | inr (inr k) ↦
            let (q', found_at) = lookup_complete mem hash size type r p sorted.1 unmixed.2 k a in
            (q', rw same found_at)
        | inr (inl k) ↦
            absurd
              (turn-right hash size type (mem q) (mem p) e unmixed.1 a (rw k (Le-refl (mem q))))
        | inl k ↦ absurd (
            turn-right hash size type (mem q) (mem p) e unmixed.1 a
              (All-In _ p (inorder l) sorted.2 k))
      ]
    ]
  where
    sorted :
        IsSorted mem (inorder l)
        × IsSorted mem (inorder r)
        × All (λ x. Le (mem x) (mem q)) (inorder l)
        × All (λ x. Le (mem q) (mem x)) (inorder r)
    sorted = IsSorted-split mem (inorder l) (inorder r) q s

    unmixed :
        Unmixed mem hash size type (inorder l)
        × ((mem q).key ≡ hash → (mem q).size ≡ size → (mem q).stat.type ≡ type)
        × Unmixed mem hash size type (inorder r)
    unmixed = Unmixed-split mem hash size type (inorder l) (inorder r) q u
