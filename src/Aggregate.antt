-- ===== src/Aggregate.antt =====
-- src/ngx_statshouse_aggregate.c: the aggregation of statistics before they are serialised. The
-- `ctx` of the handler is passed as a state. What lies under `src/` of nginx (the CRC, the
-- red-black tree's balance and its deletion, the size of a struct, the sum of doubles) is the record
-- `Platform`.
pub mod Alloc
pub mod Index
pub mod Laws
pub mod Invariant
pub mod Dangling
pub mod Order
mod Tests
use nginx_statshouse_module.Base.{
  ℕ, zero, suc, ◌+◌, ◌-◌, ◌*◌, List, [], ◌∷◌, ◌++◌, Bool, true, false, ◌&&◌, ◌||◌, not, Option,
  none, some, ltb, leb, ◌==◌, if◌then◌else◌, length, take, get_or, set, replicate,
}
use nginx_statshouse_module.Buf.{add_size}
use nginx_statshouse_module.Nginx.{
  Rc, ngx_ok, ngx_error, ngx_declined, msec_sub, Event, add_timer, post_event,
}
use nginx_statshouse_module.Stat.{
  Str, StatType, mt_counter, mt_value, mt_unique, Stat, StatKey, StatValue,
}
use nginx_statshouse_module.Aggregate.Alloc.{Arena, alloc, free}
use nginx_statshouse_module.Aggregate.Index.{
  AggregateStat, Memory, store, Tree, sentinel, node, insert_value, lookup,
}

pub record Platform : Type 0 where
  pub sizeof_aggregate_stat : ℕ
  pub crc32_init : ℕ
  pub crc32_update : ℕ → Str → ℕ
  pub crc32_final : ℕ → ℕ
  -- what `ngx_rbtree_insert` does after the callback has placed the node
  pub rebalance : Tree → Tree
  pub rbtree_delete : Tree → ℕ → Tree
  pub add_double : ℕ → ℕ → ℕ

-- `ngx_statshouse_aggregate_t`. The queue is the list of the addresses in it, head first.
pub record Aggregate : Type 0 where
  pub arena : Arena
  pub mem : Memory
  pub tree : Tree
  pub queue : List ℕ
  pub timer_event : Event
  pub interval : ℕ
  pub values : ℕ

-- `ngx_statshouse_aggregate_init`, where `granted` says whether `ngx_palloc` gave the memory
unfoldable pub aggregate_init : Aggregate → ℕ → Bool → Rc × Aggregate
aggregate_init a size granted =
    if granted
    then (
      ngx_ok,
      record a { arena = record { pos = 0; last = 0; end = size }; tree = sentinel; queue = [] },
    )
    else (ngx_error, a)

-- What the timer does with the head of the queue.
unfoldable pub arm : Aggregate → ℕ → List ℕ → Aggregate
arm a now [] = a
arm a now (p ∷ q) =
    let diff = msec_sub now (a.mem p).time in
    if leb a.interval diff
    then record a { timer_event = post_event a.timer_event }
    else record a { timer_event = add_timer a.timer_event (a.interval - diff) }

-- `ngx_statshouse_aggregate_timer`
unfoldable pub aggregate_timer : Aggregate → ℕ → Aggregate
aggregate_timer a now =
    if a.timer_event.timer_set || a.timer_event.posted then a else arm a now a.queue

-- the loop over the keys that computes the hash, and the one that computes the size
unfoldable pub keys_hash : (ℕ → Str → ℕ) → List StatKey → ℕ → ℕ → ℕ
keys_hash update [] n hash = hash
keys_hash update (k ∷ ks) zero hash = hash
keys_hash update (k ∷ ks) (suc n) hash = keys_hash update ks n (update (update hash k.name) k.value)

unfoldable pub keys_size : List StatKey → ℕ → ℕ → ℕ
keys_size [] n size = size
keys_size (k ∷ ks) zero size = size
keys_size (k ∷ ks) (suc n) size = keys_size ks n (add_size size (length k.value))

abbrev pub is_counter : StatType → Bool
is_counter mt_counter = true
is_counter mt_value = false
is_counter mt_unique = false

-- the room beside the first value that a statistic other than a counter is given
unfoldable pub spare_values : StatType → ℕ → ℕ
spare_values mt_counter values = 0
spare_values mt_value values = values - 1
spare_values mt_unique values = values - 1

-- The copy of a statistic at its place in the ring. The slots that are written are kept; what
-- the others hold is whatever the memory held, and nothing reads it.
unfoldable pub copy_stat : Stat → ℕ → Stat
copy_stat stat values = record stat {
  keys = take stat.keys_count stat.keys;
  values_count = 1;
  values = get_or stat.values 0 0 ∷ replicate (spare_values stat.type values) 0;
}

-- `astat->stat.values[0].counter += stat->values[0].counter`
unfoldable pub add_counter : (ℕ → ℕ → ℕ) → AggregateStat → Stat → AggregateStat
add_counter add s stat =
    let sum = add (get_or s.stat.values 0 0) (get_or stat.values 0 0) in
    record s { stat = record s.stat { values = set s.stat.values 0 sum } }

-- `astat->stat.values[astat->stat.values_count] = stat->values[0]; astat->stat.values_count++`
unfoldable pub append_value : AggregateStat → Stat → AggregateStat
append_value s stat = record s {
  stat = record s.stat {
    values = set s.stat.values s.stat.values_count (get_or stat.values 0 0);
    values_count = s.stat.values_count + 1;
  };
}

-- The loop stops at a statistic that is younger than the interval, unless all are flushed.
unfoldable pub must_wait : Bool → ℕ → ℕ → AggregateStat → Bool
must_wait flush now interval s = not flush && ltb (msec_sub now s.time) interval

unfoldable pub counted : Rc → ℕ → ℕ
counted ngx_ok count = count + 1
counted ngx_error count = count
counted ngx_declined count = count

module _ (platform : Platform) where
  open platform use {
    sizeof_aggregate_stat, crc32_init, crc32_update, crc32_final, rebalance, rbtree_delete,
    add_double,
  }

  unfoldable pub stat_hash : Stat → ℕ
  stat_hash stat =
      crc32_final
        (keys_hash crc32_update stat.keys stat.keys_count (crc32_update crc32_init stat.name))

  unfoldable pub stat_size : Stat → ℕ → ℕ
  stat_size stat values =
      let size = keys_size stat.keys stat.keys_count sizeof_aggregate_stat in
      if is_counter stat.type then size else add_size size (8 * spare_values stat.type values)

  -- `ngx_rbtree_insert` of the node at an address, and `ngx_queue_insert_tail`
  unfoldable pub enlist : Aggregate → ℕ → Aggregate
  enlist a p = record a {
    tree = rebalance (insert_value a.mem a.tree p);
    queue = a.queue ++ (p ∷ []);
  }

  -- What follows a successful allocation.
  unfoldable pub fill : Aggregate → Stat → ℕ → ℕ → ℕ → ℕ → Aggregate
  fill a stat now hash size p =
      let astat : AggregateStat = record {
        key = hash;
        size = size;
        time = now;
        stat = copy_stat stat a.values;
      } in
      aggregate_timer (enlist (record a { mem = store a.mem p astat }) p) now

  -- A statistic leaves the queue, the tree (if it is still there) and the ring.
  unfoldable pub retire : Aggregate → ℕ → List ℕ → Aggregate
  retire a p rest =
      let astat = a.mem p in
      record a {
        queue = rest;
        tree = if astat.key == 0 then a.tree else rbtree_delete a.tree p;
        arena = free a.arena p astat.size;
      }

  -- A statistic with no room for a value leaves the tree, and stays in the queue.
  unfoldable pub replace : Aggregate → ℕ → Aggregate
  replace a p = record a {
    tree = rbtree_delete a.tree p;
    mem = store a.mem p (record (a.mem p) { key = 0 });
  }

  module _ {Ctx : Type 0} (handler : Option Stat → Ctx → Rc × Ctx) where
    -- the `do … while` over the queue
    unfoldable pub process_loop : Bool → ℕ → List ℕ → Aggregate → Ctx → ℕ → Aggregate × Ctx × ℕ
    process_loop flush now [] a ctx count = (a, ctx, count)
    process_loop flush now (p ∷ rest) a ctx count =
        let (rc, ctx') = handler (some (a.mem p).stat) ctx in
        let more = process_loop flush now rest (retire a p rest) ctx' (counted rc count) in
        if must_wait flush now a.interval (a.mem p) then (a, ctx, count) else more

    -- what follows the loop
    unfoldable pub finish : Aggregate → Ctx → ℕ → Rc × Aggregate × Ctx
    finish a ctx count =
        let (rc, ctx') = handler none ctx in
        if count == 0 then (ngx_declined, a, ctx) else (rc, a, ctx')

    unfoldable pub drain : Bool → ℕ → List ℕ → Aggregate → Ctx → Rc × Aggregate × Ctx
    drain exiting now [] a ctx = (ngx_declined, a, ctx)
    drain exiting now (p ∷ rest) a ctx =
        let (a', ctx', count) = process_loop exiting now (p ∷ rest) a ctx 0 in finish a' ctx' count

    -- `ngx_statshouse_aggregate_process`; `exiting` is `ngx_terminate || ngx_exiting`
    unfoldable pub process : Aggregate → Ctx → ℕ → Bool → Rc × Aggregate × Ctx
    process a ctx now exiting = drain exiting now a.queue a ctx

    -- `ngx_statshouse_aggregate_timer_handler`
    unfoldable pub timer_handler : Aggregate → Ctx → ℕ → Bool → Aggregate × Ctx
    timer_handler a ctx now exiting =
        let (rc, a', ctx') = process a ctx now exiting in (aggregate_timer a' now, ctx')

    -- the second attempt to allocate, if the queue was processed and flushed
    unfoldable pub second_alloc : Rc → Aggregate → Ctx → Stat → ℕ → ℕ → ℕ → Rc × Aggregate × Ctx
    second_alloc ngx_ok a ctx stat now hash size =
        let (ptr, arena) = alloc a.arena size in
        elim ptr [
          | none ↦ (ngx_declined, a, ctx)
          | some p ↦ (ngx_ok, fill (record a { arena = arena }) stat now hash size p, ctx)
        ]
    second_alloc ngx_error a ctx stat now hash size = (ngx_error, a, ctx)
    second_alloc ngx_declined a ctx stat now hash size = (ngx_declined, a, ctx)

    unfoldable pub append_new : Aggregate → Ctx → Stat → ℕ → ℕ → ℕ → Bool → Rc × Aggregate × Ctx
    append_new a ctx stat now hash size exiting =
        let (ptr, arena) = alloc a.arena size in
        elim ptr [
          | none ↦
              let (rc, a', ctx') = process a ctx now exiting in
              second_alloc rc a' ctx' stat now hash size
          | some p ↦ (ngx_ok, fill (record a { arena = arena }) stat now hash size p, ctx)
        ]

    -- What is done with the statistic that `lookup` finds.
    unfoldable pub merge : Aggregate → Ctx → Stat → ℕ → ℕ → ℕ → Bool → ℕ → Rc × Aggregate × Ctx
    merge a ctx stat now hash size exiting p =
        let astat = a.mem p in
        if is_counter stat.type
        then (ngx_ok, record a { mem = store a.mem p (add_counter add_double astat stat) }, ctx)
        else if ltb astat.stat.values_count a.values
        then (ngx_ok, record a { mem = store a.mem p (append_value astat stat) }, ctx)
        else append_new (replace a p) ctx stat now hash size exiting

    unfoldable pub on_lookup :
        Option ℕ → Aggregate → Ctx → Stat → ℕ → ℕ → ℕ → Bool → Rc × Aggregate × Ctx
    on_lookup none a ctx stat now hash size exiting = append_new a ctx stat now hash size exiting
    on_lookup (some p) a ctx stat now hash size exiting = merge a ctx stat now hash size exiting p

    -- `ngx_statshouse_aggregate`
    unfoldable pub aggregate : Aggregate → Ctx → Stat → ℕ → Bool → Rc × Aggregate × Ctx
    aggregate a ctx stat now exiting =
        let hash = stat_hash stat in
        let size = stat_size stat a.values in
        if not (is_counter stat.type) && a.values == 0
        then (ngx_declined, a, ctx)
        else if exiting
        then (ngx_declined, a, ctx)
        else on_lookup (lookup a.mem a.tree hash size stat.type) a ctx stat now hash size exiting
