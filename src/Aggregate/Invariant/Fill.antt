-- ===== src/Aggregate/Invariant/Fill.antt =====
-- A new statistic in the ring, the queue and the tree, and the invariant.
use nginx_statshouse_module.Base.{
  ℕ, ◌+◌, ◌≤◌, ◌<◌, ◌≡◌, ◌≢◌, refl, sym, ap, ap₂, ◌∙◌, subst, inl, List, [], ◌∷◌, ◌++◌, All,
  All-imp, All-append, All-In, All-of_In, In, In-append_left, In-append_right, length, arith,
  length-take, length-replicate, replicate, get_or,
}
use nginx_statshouse_module.Stat.{Stat}
use nginx_statshouse_module.Aggregate.{Platform, Aggregate, copy_stat, spare_values, enlist, fill}
use nginx_statshouse_module.Aggregate.Alloc.{Arena}
use nginx_statshouse_module.Aggregate.Alloc.Layout.{Chunk, Allocated, alloc-Allocated, Apart}
use nginx_statshouse_module.Aggregate.Alloc.Layout
use nginx_statshouse_module.Aggregate.Alloc.Distinct.{IsValid-positive}
use nginx_statshouse_module.Aggregate.Index.{
  AggregateStat, Memory, store, Tree, inorder, insert_value,
}
use nginx_statshouse_module.Aggregate.Index.Insert.{
  All-insert_value, insert_value-IsSorted, insert_value-In, In-insert_value,
}
use nginx_statshouse_module.Aggregate.Laws.{Lawful}
use nginx_statshouse_module.Aggregate.Invariant.{chunk, chunks, HasRoom, Indexed, IsValid}
use nginx_statshouse_module.Aggregate.Invariant.Process.{timer-IsValid}
use nginx_statshouse_module.Aggregate.Invariant.Store.{
  store_self, store_ne, store_apart, chunks-agree, IsSorted-Same,
}

copy_stat-HasRoom :
    (s : Stat) (values : ℕ) → s.keys_count ≤ length s.keys → HasRoom values (copy_stat s values)
unfolding copy_stat
copy_stat-HasRoom s values h = record {
  room = spare;
  has_value = omega arith;
  values_in = omega arith;
  keys_in = omega (arith, length-take s.keys_count s.keys);
}
  where
    n : ℕ
    n = spare_values s.type values

    spare : length (get_or s.values 0 0 ∷ replicate n 0) ≡ 1 + n
    spare = omega (arith, length-replicate {A = ℕ} n 0)

-- The chunk that is given is at no queued statistic's address.
fresh :
    (mem : Memory) (q : List ℕ) (d : Chunk)
    → All (λ c. Apart c d) (chunks mem q)
    → All (λ c. 0 < c.size) (chunks mem q)
    → 0 < d.size
    → All (λ x. d.ptr ≢ x) q
fresh mem [] d a pos p = tt
fresh mem (x ∷ q) d (a, as') (h, hs) p = ((λ e. omega arith), fresh mem q d as' hs p)

chunks-append :
    (mem : Memory) (xs ys : List ℕ) → chunks mem (xs ++ ys) ≡ chunks mem xs ++ chunks mem ys
chunks-append mem [] ys = refl
chunks-append mem (x ∷ xs) ys = ap (λ cs. chunk mem x ∷ cs) (chunks-append mem xs ys)

module _ (mem : Memory) (tree : Tree) (queue : List ℕ) (p : ℕ) (s : AggregateStat)
    (new : All (λ x. p ≢ x) queue) (key : s.key ≢ 0) (x : Indexed mem (inorder tree) queue) where
  new_to_tree : All (λ y. p ≢ y) (inorder tree)
  new_to_tree = All-imp _ _ (inorder tree) (λ y i e. All-In _ y queue new i e) x.queued

  Indexed-insert :
      Indexed (store mem p s) (inorder (insert_value (store mem p s) tree p)) (queue ++ (p ∷ []))
  Indexed-insert = record {
    queued =
        All-insert_value (λ y. In y (queue ++ (p ∷ []))) (store mem p s) tree p
          (In-append_right p queue _ (inl refl))
          (All-imp _ _ (inorder tree) (λ y i. In-append_left y queue _ i) x.queued);
    keyed =
        All-insert_value (λ y. (store mem p s y).key ≢ 0) (store mem p s) tree p
          (subst (λ t. t.key ≢ 0) (sym (store_self mem p s)) key)
          (All-of_In _ (inorder tree) (λ y i.
            rw (store_ne mem p y s (All-In _ y (inorder tree) new_to_tree i))
              (All-In _ y (inorder tree) x.keyed i)));
    held =
        All-append _ queue (p ∷ [])
          (All-of_In _ queue (λ y i k.
            In-insert_value (store mem p s) tree p y
              (All-In _ y queue x.held i (rw (store_ne mem p y s (All-In _ y queue new i)) at k))))
          ((λ k. insert_value-In (store mem p s) tree p), tt);
    sorted = insert_value-IsSorted (store mem p s) tree p (
        IsSorted-Same mem (store mem p s) (inorder tree)
          (store_apart mem p s (inorder tree) new_to_tree) x.sorted);
  }

-- What a new statistic is given: a chunk of the ring that was allocated for it, a key, and its size.
pub fill-IsValid :
    (platform : Platform) (a : Aggregate) (arena : Arena) (stat : Stat) (now hash size p : ℕ)
    → Lawful platform
    → IsValid a
    → Allocated arena (chunks a.mem a.queue) a.arena.end (record { ptr = p; size = size })
    → 0 < size
    → hash ≢ 0
    → stat.keys_count ≤ length stat.keys
    → IsValid (fill platform (record a { arena = arena }) stat now hash size p)
unfolding fill enlist
fill-IsValid platform a arena stat now hash size p law v got pos key keys =
    timer-IsValid _ now (record {
      ring = subst (Layout.IsValid arena) (sym ring) got.valid;
      slots =
          All-append _ a.queue (p ∷ [])
            (All-of_In _ a.queue (λ q i.
              subst (λ t. HasRoom a.values t.stat)
                (sym (store_ne a.mem p q s (All-In _ q a.queue new i)))
                (All-In _ q a.queue v.slots i)))
            (
              subst (λ t. HasRoom a.values t.stat) (sym (store_self a.mem p s))
                  (copy_stat-HasRoom stat a.values keys),
              tt,
            );
      indexed =
          rw law.rebalance_inorder (Indexed-insert a.mem a.tree a.queue p s new key v.indexed);
    })
  where
    s : AggregateStat
    s = record { key = hash; size = size; time = now; stat = copy_stat stat a.values }

    new : All (λ x. p ≢ x) a.queue
    new = fresh a.mem a.queue _ got.apart (IsValid-positive a.arena _ v.ring) pos

    ring :
        chunks (store a.mem p s) (a.queue ++ (p ∷ []))
        ≡ chunks a.mem a.queue ++ (record { ptr = p; size = size } ∷ [])
    ring =
        chunks-append (store a.mem p s) a.queue (p ∷ [])
        ∙ ap₂ ◌++◌
            (chunks-agree a.mem (store a.mem p s) a.queue
              (All-imp _ _ a.queue (λ x h. h.same_size) (store_apart a.mem p s a.queue new)))
            (ap (λ t. record { ptr = p; size = t.size } ∷ []) (store_self a.mem p s))
