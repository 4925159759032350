-- ===== src/Aggregate/Index/Insert.antt =====
-- What `insert_value` does to the tree.
use nginx_statshouse_module.Base.{
  ℕ, ◌≡◌, refl, ◌⊎◌, inl, inr, List, [], ◌∷◌, ◌++◌, All, All-append, All-split, All-imp, In,
  In-append, In-append_left, In-append_right, arith, true, false, Bool-cases,
}
use nginx_statshouse_module.Aggregate.Index.{
  AggregateStat, Memory, Tree, sentinel, node, inorder, insert_value, goes_left,
}
use nginx_statshouse_module.Aggregate.Index.Search.{Le, IsSorted}
use nginx_statshouse_module.Aggregate.Index.Complete.{IsSorted-split}

pub insert-turn :
    (mem : Memory) (l r : Tree) (q p : ℕ)
    → ((goes_left (mem p) (mem q) ≡ true)
        × (insert_value mem (node l q r) p ≡ node (insert_value mem l p) q r))
      ⊎ ((goes_left (mem p) (mem q) ≡ false)
          × (insert_value mem (node l q r) p ≡ node l q (insert_value mem r p)))
unfolding insert_value
insert-turn mem l r q p = elim (Bool-cases (goes_left (mem p) (mem q))) [
  | inl e ↦ inl (e, rw (e, insert_value))
  | inr e ↦ inr (e, rw (e, insert_value))
]

goes_left-Le : (s t : AggregateStat) → goes_left s t ≡ true → Le s t
unfolding goes_left
goes_left-Le s t h = ground arith

goes_right-Le : (s t : AggregateStat) → goes_left s t ≡ false → Le t s
unfolding goes_left
goes_right-Le s t h = ground arith

Le-trans : (a b c : AggregateStat) → Le a b → Le b c → Le a c
Le-trans a b c h k = omega arith

IsSorted-join :
    (mem : Memory) (xs ys : List ℕ) (p : ℕ)
    → IsSorted mem xs
    → IsSorted mem ys
    → All (λ q. Le (mem q) (mem p)) xs
    → All (λ q. Le (mem p) (mem q)) ys
    → IsSorted mem (xs ++ (p ∷ ys))
IsSorted-join mem [] ys p sx sy lx ly = (ly, sy)
IsSorted-join mem (x ∷ xs) ys p (hx, sx) sy (kx, lx) ly = (
  All-append _ xs (p ∷ ys) hx (kx, All-imp _ _ ys (λ q. Le-trans (mem x) (mem p) (mem q) kx) ly),
  IsSorted-join mem xs ys p sx sy lx ly,
)

-- Whatever holds of the new address and of all in the tree holds of all in the tree that it was
-- inserted in.
pub All-insert_value {κ} :
    (P : ℕ → Type κ) (mem : Memory) (t : Tree) (p : ℕ)
    → P p
    → All P (inorder t)
    → All P (inorder (insert_value mem t p))
unfolding inorder
All-insert_value P mem sentinel p hp h = unfold insert_value in (hp, tt)
All-insert_value P mem (node l q r) p hp h =
    let (hl, hqr) = All-split P (inorder l) (q ∷ inorder r) h in
    elim (insert-turn mem l r q p) [
      | inl (_, e) ↦ rw e (All-append P _ _ (All-insert_value P mem l p hp hl) hqr)
      | inr (_, e) ↦ rw e (All-append P _ _ hl (hqr.0, All-insert_value P mem r p hp hqr.1))
    ]

-- The insertion of an address into a tree whose in-order list is sorted by key and, at equal
-- keys, by size, leaves it sorted.
pub insert_value-IsSorted :
    (mem : Memory) (t : Tree) (p : ℕ)
    → IsSorted mem (inorder t)
    → IsSorted mem (inorder (insert_value mem t p))
unfolding inorder
insert_value-IsSorted mem sentinel p s = unfold insert_value in (tt, tt)
insert_value-IsSorted mem (node l q r) p s =
    let (sl, sr, ll, lr) = IsSorted-split mem (inorder l) (inorder r) q s in
    elim (insert-turn mem l r q p) [
      | inl (g, e) ↦ rw e (
          IsSorted-join mem _ _ q (insert_value-IsSorted mem l p sl) sr
            (All-insert_value _ mem l p (goes_left-Le (mem p) (mem q) g) ll) lr)
      | inr (g, e) ↦ rw e (
          IsSorted-join mem _ _ q sl (insert_value-IsSorted mem r p sr) ll
            (All-insert_value _ mem r p (goes_right-Le (mem p) (mem q) g) lr))
    ]

-- The inserted address is in the tree.
pub insert_value-In : (mem : Memory) (t : Tree) (p : ℕ) → In p (inorder (insert_value mem t p))
unfolding inorder
insert_value-In mem sentinel p = unfold insert_value in inl refl
insert_value-In mem (node l q r) p = elim (insert-turn mem l r q p) [
  | inl (_, e) ↦ rw e (In-append_left p _ _ (insert_value-In mem l p))
  | inr (_, e) ↦ rw e (In-append_right p (inorder l) _ (inr (insert_value-In mem r p)))
]

-- The insertion takes nothing out of the tree.
pub In-insert_value :
    (mem : Memory) (t : Tree) (p q : ℕ) → In q (inorder t) → In q (inorder (insert_value mem t p))
unfolding inorder
In-insert_value mem sentinel p q i = absurd i
In-insert_value mem (node l x r) p q i = elim (insert-turn mem l r x p) [
  | inl (_, e) ↦ rw e (elim (In-append q (inorder l) _ i) [
    | inl k ↦ In-append_left q _ _ (In-insert_value mem l p q k)
    | inr k ↦ In-append_right q (inorder (insert_value mem l p)) _ k
  ])
  | inr (_, e) ↦ rw e (elim (In-append q (inorder l) _ i) [
    | inl k ↦ In-append_left q (inorder l) _ k
    | inr (inl k) ↦ In-append_right q (inorder l) _ (inl k)
    | inr (inr k) ↦ In-append_right q (inorder l) _ (inr (In-insert_value mem r p q k))
  ])
]
