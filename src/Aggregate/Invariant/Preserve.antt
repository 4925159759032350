-- ===== src/Aggregate/Invariant/Preserve.antt =====
-- The paths through `aggregate`, and the invariant.
use nginx_statshouse_module.Base.{
  ℕ, ◌^◌, ◌≤◌, ◌<◌, ◌≡◌, ◌≢◌, inl, inr, All-In, In, length, ◌==◌, arith, Option, some, Option-cases,
  Bool-cases, Bool, false, ltb, ltb→lt, not, ◌&&◌,
}
use nginx_statshouse_module.Nginx.{Rc, ngx_ok, ngx_error, ngx_declined}
use nginx_statshouse_module.Stat.{Stat, StatType, mt_counter}
use nginx_statshouse_module.Aggregate.{
  Platform, Aggregate, is_counter, fill, second_alloc, merge, on_lookup, append_new, aggregate,
  replace, stat_hash, stat_size,
}
use nginx_statshouse_module.Aggregate.Alloc.{Arena, alloc}
use nginx_statshouse_module.Aggregate.Alloc.Layout.{alloc-Allocated}
use nginx_statshouse_module.Aggregate.Index.{inorder, lookup}
use nginx_statshouse_module.Aggregate.Index.Search.{lookup-Answers}
use nginx_statshouse_module.Aggregate.Laws.{Lawful}
use nginx_statshouse_module.Aggregate.Invariant.{HasRoom, IsValid}
use nginx_statshouse_module.Aggregate.Invariant.Process.{process-IsValid}
use nginx_statshouse_module.Aggregate.Invariant.Store.{
  store-IsValid, add_counter-Same, add_counter-HasRoom, append_value-Same, append_value-HasRoom,
  replace-IsValid,
}
use nginx_statshouse_module.Aggregate.Invariant.Fill.{fill-IsValid}

-- What `aggregate` is given: a statistic that has the keys it counts, whose copy has a size that
-- fits a `ptrdiff_t`, and whose hash is not zero.
pub record Fitting (platform : Platform) (values : ℕ) (stat : Stat) : Type 0 where
  pub keys_in : stat.keys_count ≤ length stat.keys
  pub size_positive : 0 < stat_size platform stat values
  pub size_fits : stat_size platform stat values < 2 ^ 63
  pub hash_nonzero : stat_hash platform stat ≢ 0

granted : (r : Option ℕ × Arena) {p : ℕ} → r.0 ≡ some p → r ≡ (some p, r.1)
granted r e = λ i. (e i, r.1)

not_counter : (t : StatType) → is_counter t ≡ false → t ≢ mt_counter
not_counter t h e = ground arith

module _ (platform : Platform) {Ctx : Type 0} (handler : Option Stat → Ctx → Rc × Ctx)
    (law : Lawful platform) (stat : Stat) (now hash size : ℕ)
    (keys : stat.keys_count ≤ length stat.keys) (positive : 0 < size) (fits : size < 2 ^ 63)
    (nonzero : hash ≢ 0) where
  place :
      (a : Aggregate) (p : ℕ)
      → IsValid a
      → (alloc a.arena size).0 ≡ some p
      → IsValid (fill platform (record a { arena = (alloc a.arena size).1 }) stat now hash size p)
  place a p v e =
      fill-IsValid platform a _ stat now hash size p law v
        (alloc-Allocated a.arena _ size v.ring positive fits (granted _ e)) positive nonzero keys

  second_alloc-IsValid :
      (rc : Rc) (a : Aggregate) (ctx : Ctx)
      → IsValid a
      → IsValid (second_alloc platform handler rc a ctx stat now hash size).1
  unfolding second_alloc
  second_alloc-IsValid ngx_ok a ctx v = elim (Option-cases (alloc a.arena size).0) [
    | inl e ↦ rw (e, second_alloc) v
    | inr (p, e) ↦ rw (e, second_alloc) (place a p v e)
  ]
  second_alloc-IsValid ngx_error a ctx v = v
  second_alloc-IsValid ngx_declined a ctx v = v

  append_new-IsValid :
      (a : Aggregate) (ctx : Ctx) (exiting : Bool)
      → IsValid a
      → IsValid (append_new platform handler a ctx stat now hash size exiting).1
  unfolding append_new
  append_new-IsValid a ctx exiting v = elim (Option-cases (alloc a.arena size).0) [
    | inl e ↦
        rw (e, append_new)
          (second_alloc-IsValid _ _ _ (process-IsValid platform handler law a ctx now exiting v))
    | inr (p, e) ↦ rw (e, append_new) (place a p v e)
  ]

  merge-IsValid :
      (a : Aggregate) (ctx : Ctx) (exiting : Bool) (p : ℕ)
      → IsValid a
      → In p (inorder a.tree)
      → (a.mem p).stat.type ≡ stat.type
      → IsValid (merge platform handler a ctx stat now hash size exiting p).1
  unfolding merge
  merge-IsValid a ctx exiting p v i t = elim (Bool-cases (is_counter stat.type)) [
    | inl e ↦
        rw e (store-IsValid a p _ (add_counter-Same _ _ _) (add_counter-HasRoom _ _ _ _ room) v)
    | inr other ↦ elim (Bool-cases (ltb (a.mem p).stat.values_count a.values)) [
      | inl lt ↦
          rw (other, lt)
            (store-IsValid a p _ (append_value-Same _ _)
              (append_value-HasRoom _ _ _ (rw t (not_counter stat.type other)) (ltb→lt _ _ lt) room)
              v)
      | inr full ↦
          rw (other, full)
            (append_new-IsValid (replace platform a p) ctx exiting
              (replace-IsValid platform a p law i v))
    ]
  ]
    where
      room : HasRoom a.values (a.mem p).stat
      room = All-In _ p a.queue v.slots (All-In _ p (inorder a.tree) v.indexed.queued i)

  on_lookup-IsValid :
      (a : Aggregate) (ctx : Ctx) (exiting : Bool)
      → IsValid a
      → IsValid
          (on_lookup platform handler
            (lookup a.mem a.tree hash size stat.type)
            a
            ctx
            stat
            now
            hash
            size
            exiting).1
  unfolding on_lookup
  on_lookup-IsValid a ctx exiting v =
      elim (Option-cases (lookup a.mem a.tree hash size stat.type)) [
        | inl e ↦ rw e (append_new-IsValid a ctx exiting v)
        | inr (p, e) ↦
            let (i, answers) = lookup-Answers a.mem hash size stat.type a.tree p e in
            rw e (merge-IsValid a ctx exiting p v i answers.same_type)
      ]

-- Whatever `aggregate` does with a statistic (and with the queue, if it has to make room), it
-- keeps the invariant: the ring's chunks lie inside the memory and apart, every queued statistic
-- keeps to its slots, and the tree holds exactly the queued statistics whose key is not zero, in
-- order. It is given that the statistic has the keys it counts, that the size of its copy is
-- positive and less than 2^63, that its hash is not zero, and that the tree's balancing and
-- deletion do to the in-order list what they document.
pub aggregate-IsValid :
    (platform : Platform) {Ctx : Type 0} (handler : Option Stat → Ctx → Rc × Ctx) (a : Aggregate)
    (ctx : Ctx) (stat : Stat) (now : ℕ) (exiting : Bool)
    → Lawful platform
    → Fitting platform a.values stat
    → IsValid a
    → IsValid (aggregate platform handler a ctx stat now exiting).1
unfolding aggregate
aggregate-IsValid platform handler a ctx stat now exiting law f v =
    elim (Bool-cases (not (is_counter stat.type) && a.values == 0)) [
      | inl e ↦ rw e v
      | inr e ↦ elim (Bool-cases exiting) [
        | inl stop ↦ rw (e, stop) v
        | inr go ↦
            rw (e, go)
              (on_lookup-IsValid platform handler law stat now (stat_hash platform stat)
                (stat_size platform stat a.values) f.keys_in f.size_positive f.size_fits
                f.hash_nonzero a ctx false v)
      ]
    ]
