-- ===== src/Aggregate/Dangling.antt =====
-- A statistic whose hash is zero. The key of a node is its hash, and the code takes a key of zero
-- for the mark of a node that has left the tree.
use nginx_statshouse_module.Base.{
  arith, ℕ, ◌≡◌, refl, ap, ◌∙◌, List, [], ◌∷◌, ◌++◌, In, Option, true, ==_iff,
}
use nginx_statshouse_module.Nginx.{Rc}
use nginx_statshouse_module.Stat.{Stat}
use nginx_statshouse_module.Aggregate.{
  Platform, Aggregate, retire, process, drain, finish, process_loop, must_wait, fill, enlist,
  copy_stat,
}
use nginx_statshouse_module.Aggregate.Index.{AggregateStat, store, inorder}
use nginx_statshouse_module.Aggregate.Index.Insert.{insert_value-In}
use nginx_statshouse_module.Aggregate.Laws.{Lawful}
use nginx_statshouse_module.Aggregate.Invariant.Process.{timer_lem}
use nginx_statshouse_module.Aggregate.Invariant.Store.{store_self}

retire-tree :
    (platform : Platform) (a : Aggregate) (p : ℕ) (rest : List ℕ)
    → (a.mem p).key ≡ 0
    → (retire platform a p rest).tree ≡ a.tree
unfolding retire
retire-tree platform a p rest z = rw ((==_iff (a.mem p).key 0).1 z)

fill-tree :
    (platform : Platform) (a : Aggregate) (stat : Stat) (now hash size p : ℕ)
    → Lawful platform
    → In p (inorder (fill platform a stat now hash size p).tree)
      × ((fill platform a stat now hash size p).queue ≡ a.queue ++ (p ∷ []))
      × (((fill platform a stat now hash size p).mem p).key ≡ hash)
unfolding fill enlist
fill-tree platform a stat now hash size p law =
    let (ev, same) = timer_lem placed now in
    rw same (
      rw law.rebalance_inorder (insert_value-In placed.mem a.tree p),
      refl,
      ap (λ t. t.key) (store_self a.mem p astat),
    )
  where
    astat : AggregateStat
    astat = record { key = hash; size = size; time = now; stat = copy_stat stat a.values }

    placed : Aggregate
    placed = enlist platform (record a { mem = store a.mem p astat }) p

module _ (platform : Platform) {Ctx : Type 0} (handler : Option Stat → Ctx → Rc × Ctx) where
  pub finish-state :
      (a : Aggregate) (ctx : Ctx) (count : ℕ) → (finish platform handler a ctx count).1 ≡ a
  unfolding finish
  finish-state a ctx count = ground arith

  process_one :
      (a : Aggregate) (ctx : Ctx) (now p : ℕ)
      → a.queue ≡ p ∷ []
      → (process platform handler a ctx now true).1 ≡ retire platform a p []
  unfolding process drain process_loop must_wait
  process_one a ctx now p e = rw (e, drain) (finish-state _ _ _)

-- A statistic of hash zero is filled in while the queue is empty, and an exiting worker processes
-- the queue: the queue is empty then, and the tree still holds the statistic's address, if the
-- tree's balancing and deletion do to the in-order list what they document.
pub zero_hash_dangles :
    (platform : Platform) {Ctx : Type 0} (handler : Option Stat → Ctx → Rc × Ctx) (a : Aggregate)
    (ctx : Ctx) (stat : Stat) (now later size p : ℕ)
    → Lawful platform
    → a.queue ≡ []
    → let a' = (process platform handler (fill platform a stat now 0 size p) ctx later true).1 in
      (a'.queue ≡ []) × In p (inorder a'.tree)
zero_hash_dangles platform handler a ctx stat now later size p law e =
    let (held, queued, key) = fill-tree platform a stat now 0 size p law in
    rw
      (process_one platform handler (fill platform a stat now 0 size p) ctx later p
        (queued ∙ ap (λ q. q ++ (p ∷ [])) e))
      (
        unfold retire in refl,
        rw (retire-tree platform (fill platform a stat now 0 size p) p [] key) held,
      )
