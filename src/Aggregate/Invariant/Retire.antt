-- ===== src/Aggregate/Invariant/Retire.antt =====
-- A statistic that leaves the queue, and the invariant.
use nginx_statshouse_module.Base.{
  ℕ, ◌≡◌, ◌≢◌, sym, inl, inr, List, [], ◌∷◌, All, without, In-without, In-without_back, All-without,
  without-cases, ℕ_discrete, All-In, All-of_In, In, ==_iff, ==_of_ne,
}
use nginx_statshouse_module.Aggregate.{Platform, Aggregate, retire}
use nginx_statshouse_module.Aggregate.Alloc.Layout.{Chunk, free-IsValid}
use nginx_statshouse_module.Aggregate.Alloc.Layout
use nginx_statshouse_module.Aggregate.Alloc.Distinct.{IsValid-distinct}
use nginx_statshouse_module.Aggregate.Index.{Memory, Tree, inorder}
use nginx_statshouse_module.Aggregate.Index.Search.{IsSorted}
use nginx_statshouse_module.Aggregate.Laws.{Lawful}
use nginx_statshouse_module.Aggregate.Invariant.{chunk, chunks, Indexed, IsValid}

pub IsSorted-without :
    (mem : Memory) (p : ℕ) (xs : List ℕ) → IsSorted mem xs → IsSorted mem (without p xs)
IsSorted-without mem p [] s = tt
IsSorted-without mem p (x ∷ xs) (h, s) =
    without-cases (IsSorted mem) p x xs (IsSorted-without mem p xs s)
      (All-without _ p xs h, IsSorted-without mem p xs s)

-- The addresses of the chunks are those of the queue.
ptr-ne :
    (mem : Memory) (p : ℕ) (q : List ℕ) → All (λ d. d.ptr ≢ p) (chunks mem q) → All (λ x. p ≢ x) q
ptr-ne mem p [] h = tt
ptr-ne mem p (x ∷ q) (h, hs) = ((λ e. h (sym e)), ptr-ne mem p q hs)

-- The head of the queue is in the queue once.
pub head_once :
    (a : Aggregate) (p : ℕ) (rest : List ℕ)
    → Layout.IsValid a.arena (chunks a.mem (p ∷ rest))
    → All (λ x. p ≢ x) rest
head_once a p rest v = ptr-ne a.mem p rest (IsValid-distinct a.arena _ _ v)

-- Elsewhere in the queue, if not at its head.
In-rest : (p q : ℕ) (rest : List ℕ) → p ≢ q → In q (p ∷ rest) → In q rest
In-rest p q rest ne (inl e) = absurd (ne (sym e))
In-rest p q rest ne (inr i) = i

module _ (mem : Memory) (tree : Tree) (p : ℕ) (rest : List ℕ)
    (x : Indexed mem (inorder tree) (p ∷ rest)) (once : All (λ y. p ≢ y) rest) where
  -- A statistic whose key is zero is not in the tree.
  Indexed-skip : (mem p).key ≡ 0 → Indexed mem (inorder tree) rest
  Indexed-skip zero_key = record {
    queued = All-of_In _ (inorder tree) (λ q i.
        In-rest p q rest (λ e. All-In _ q (inorder tree) x.keyed i (rw (← e) zero_key))
          (All-In _ q (inorder tree) x.queued i));
    keyed = x.keyed;
    held = x.held.1;
    sorted = x.sorted;
  }

  Indexed-delete :
      (platform : Platform)
      → Lawful platform
      → (mem p).key ≢ 0
      → Indexed mem (inorder (platform.rbtree_delete tree p)) rest
  Indexed-delete platform law key = rw deleted (record {
    queued = All-of_In _ (without p (inorder tree)) (λ q i.
        let (ne, at) = In-without p q (inorder tree) i in
        In-rest p q rest ne (All-In _ q (inorder tree) x.queued at));
    keyed = All-without _ p (inorder tree) x.keyed;
    held = All-of_In _ rest (λ q i k.
        In-without_back p q (inorder tree) (All-In _ q rest once i) (All-In _ q rest x.held.1 i k));
    sorted = IsSorted-without mem p (inorder tree) x.sorted;
  })
    where
      deleted : inorder (platform.rbtree_delete tree p) ≡ without p (inorder tree)
      deleted = law.delete_inorder tree p (x.held.0 key)

-- Retiring the head of the queue keeps the invariant.
pub retire-IsValid :
    (platform : Platform) (a : Aggregate) (p : ℕ) (rest : List ℕ)
    → Lawful platform
    → a.queue ≡ p ∷ rest
    → IsValid a
    → IsValid (retire platform a p rest)
unfolding retire
retire-IsValid platform a p rest law e v = record {
  ring = (free-IsValid a.arena (chunk a.mem p) (chunks a.mem rest) ring).0;
  slots = (rw e at v.slots).1;
  indexed = elim (ℕ_discrete (a.mem p).key 0) [
    | yes z ↦ rw ((==_iff (a.mem p).key 0).1 z) (Indexed-skip a.mem a.tree p rest x once z)
    | no n ↦
        rw (==_of_ne (a.mem p).key 0 n) (Indexed-delete a.mem a.tree p rest x once platform law n)
  ];
}
  where
    ring : Layout.IsValid a.arena (chunks a.mem (p ∷ rest))
    ring = rw e at v.ring

    x : Indexed a.mem (inorder a.tree) (p ∷ rest)
    x = rw e at v.indexed

    once : All (λ y. p ≢ y) rest
    once = head_once a p rest ring
