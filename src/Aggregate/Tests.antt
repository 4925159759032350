-- ===== src/Aggregate/Tests.antt =====
-- A concrete platform, and the theorems at concrete inputs.
use nginx_statshouse_module.Base.{
  inr, ℕ, zero, suc, ◌+◌, ◌≤◌, ◌≡◌, ◌↔◌, inl, refl, List, [], ◌∷◌, ◌++◌, true, false, Option, none,
  some, In, map, without, arith,
}
use nginx_statshouse_module.Nginx.{Rc, ngx_ok}
use nginx_statshouse_module.Stat.{Str, Stat, mt_counter, mt_value, mt_unique}
use nginx_statshouse_module.Aggregate.{
  Platform, Aggregate, keys_hash, keys_size, spare_values, stat_hash, stat_size, aggregate, process,
  process_loop, fill,
}
use nginx_statshouse_module.Aggregate.Alloc.{Arena, alloc, free}
use nginx_statshouse_module.Aggregate.Alloc.Layout.{
  Chunk, straight, Allocated, alloc-Allocated, free-IsValid, init-IsValid,
}
use nginx_statshouse_module.Aggregate.Alloc.Layout
use nginx_statshouse_module.Aggregate.Alloc.Refusal.{alloc-free-none}
use nginx_statshouse_module.Aggregate.Index.{
  AggregateStat, Memory, Tree, sentinel, node, inorder, insert_value, lookup, turn, store,
}
use nginx_statshouse_module.Aggregate.Index.Search.{Answers, IsSorted, lookup-Answers}
use nginx_statshouse_module.Aggregate.Index.Complete.{lookup_complete}
use nginx_statshouse_module.Aggregate.Index.Insert.{insert_value-IsSorted}
use nginx_statshouse_module.Aggregate.Index.Mixed.{lookup_mixed-none}
use nginx_statshouse_module.Aggregate.Laws.{Lawful}
use nginx_statshouse_module.Aggregate.Invariant.{IsValid}
use nginx_statshouse_module.Aggregate.Invariant.Process.{process-IsValid}
use nginx_statshouse_module.Aggregate.Invariant.Preserve.{Fitting, aggregate-IsValid}
use nginx_statshouse_module.Aggregate.Order.{Cut, handle_all, process_loop-order}
use nginx_statshouse_module.Aggregate.Dangling.{zero_hash_dangles}

-- a tree that leans to the right
abbrev spine : List ℕ → Tree
spine [] = sentinel
spine (p ∷ ps) = node sentinel p (spine ps)

inorder-spine : (ps : List ℕ) → inorder (spine ps) ≡ ps
unfolding inorder
inorder-spine [] = refl
inorder-spine (p ∷ ps) = rw (inorder-spine ps)

abbrev sum_bytes : ℕ → Str → ℕ
sum_bytes h [] = h
sum_bytes h (b ∷ bs) = sum_bytes (h + b) bs

abbrev simple : Platform
unfolding inorder
simple = record {
  sizeof_aggregate_stat = 664;
  crc32_init = 0;
  crc32_update = sum_bytes;
  crc32_final = λ h. h;
  rebalance = λ t. t;
  rbtree_delete = λ t p. spine (without p (inorder t));
  add_double = λ a b. a + b;
}

simple-Lawful : Lawful simple
unfolding inorder
simple-Lawful = record {
  rebalance_inorder = λ t. refl;
  delete_inorder = λ t p i. inorder-spine (without p (inorder t));
  sizeof_positive = omega arith;
}

-- memory from 0 to 4096 in which two chunks are live
abbrev two_chunks : List Chunk
two_chunks = record { ptr = 0; size = 700 } ∷ record { ptr = 700; size = 800 } ∷ []

abbrev two_live : Arena
two_live = record { pos = 1500; last = 0; end = 4096 }

two_live-IsValid : Layout.IsValid two_live two_chunks
two_live-IsValid = straight (omega arith)

alloc-Allocated_example :
    Allocated (record two_live { pos = 2200 }) two_chunks 4096 (record { ptr = 1500; size = 700 })
unfolding alloc
alloc-Allocated_example =
    alloc-Allocated two_live two_chunks 700 two_live-IsValid (omega arith) (omega arith) refl

free-IsValid_example :
    Layout.IsValid (free two_live 0 700) (record { ptr = 700; size = 800 } ∷ [])
    × ((free two_live 0 700).end ≡ 4096)
free-IsValid_example =
    free-IsValid two_live (record { ptr = 0; size = 700 }) (record { ptr = 700; size = 800 } ∷ [])
      two_live-IsValid

alloc-free-none_example :
    ((alloc (record { pos = 0; last = 0; end = 4096 }) 2000).0 ≡ some 0)
    × ((alloc (record { pos = 0; last = 0; end = 4096 }) 2500).0 ≡ some 0)
    × (((alloc (free (alloc (record { pos = 0; last = 0; end = 4096 }) 2000).1 0 2000) 2500).0
          ≡ none)
        ↔ ((2000 ≤ 2500) × (4096 ≤ 2000 + 2500)))
alloc-free-none_example = alloc-free-none 4096 2000 2500 (omega arith) (omega arith) (omega arith)

abbrev page_views : Stat
page_views = record {
  type = mt_counter;
  name = 10 ∷ 20 ∷ [];
  keys = record { name = 1 ∷ []; value = 2 ∷ 3 ∷ [] } ∷ [];
  keys_count = 1;
  values_count = 1;
  values = 5 ∷ [];
}

abbrev page_time : Stat
page_time = record page_views { type = mt_value }

abbrev page_users : Stat
page_users = record page_views { type = mt_unique }

-- One statistic at address 0, and another of the same hash and size at address 700.
abbrev queued : Stat → AggregateStat
queued s = record { key = 36; size = 666; time = 1000; stat = record s { values = 5 ∷ [] } }

abbrev one_memory : Memory
one_memory p = queued page_views

abbrev one_queued : Aggregate
one_queued = record {
  arena = record { pos = 666; last = 0; end = 4096 };
  mem = one_memory;
  tree = node sentinel 0 sentinel;
  queue = 0 ∷ [];
  timer_event = record { timer_set = true; delay = 1000; posted = false };
  interval = 1000;
  values = 24;
}

one_queued-IsValid : IsValid one_queued
unfolding inorder spare_values
one_queued-IsValid = record {
  ring = straight (omega arith);
  slots = (omega arith, tt);
  indexed = record {
    queued = (inl refl, tt);
    keyed = (omega arith, tt);
    held = ((λ k. inl refl), tt);
    sorted = (tt, tt);
  };
}

lookup-Answers_example :
    In 0 (inorder (node sentinel 0 sentinel)) × Answers 36 666 mt_counter (one_memory 0)
unfolding lookup turn
lookup-Answers_example =
    lookup-Answers one_memory 36 666 mt_counter (node sentinel 0 sentinel) 0 refl

lookup_complete_example :
    (q : ℕ) × (lookup one_memory (node sentinel 0 sentinel) 36 666 mt_counter ≡ some q)
unfolding inorder
lookup_complete_example =
    lookup_complete one_memory 36 666 mt_counter (node sentinel 0 sentinel) 0 (tt, tt)
      ((λ k z. refl), tt) (inl refl)
      (record { same_key = refl; same_size = refl; same_type = refl })

insert_value-IsSorted_example :
    IsSorted one_memory (inorder (insert_value one_memory (node sentinel 0 sentinel) 700))
unfolding inorder
insert_value-IsSorted_example =
    insert_value-IsSorted one_memory (node sentinel 0 sentinel) 700 (tt, tt)

abbrev mixed_memory : Memory
mixed_memory zero = queued page_time
mixed_memory (suc p) = queued page_users

-- the statistic below another of a smaller hash
abbrev mixed_tree : Tree
mixed_tree = node sentinel 1500 (node sentinel 0 sentinel)

abbrev other_memory : Memory
other_memory = store mixed_memory 1500 (record (mixed_memory 700) { key = 35 })

lookup_mixed-none_example :
    lookup other_memory (insert_value other_memory mixed_tree 700) 36 666 mt_unique ≡ none
unfolding inorder
lookup_mixed-none_example =
    lookup_mixed-none other_memory mixed_tree 0 700 ((inl (omega arith), tt), (tt, tt))
      (inr (inl refl)) (refl, refl) (λ e. absurd (omega arith), (λ e z. omega arith, tt))

-- a handler that takes every statistic and counts it
abbrev taking : Option Stat → ℕ → Rc × ℕ
taking none n = (ngx_ok, n)
taking (some s) n = (ngx_ok, n + 1)

process-IsValid_example : IsValid (process simple taking one_queued 0 5000 false).1
process-IsValid_example =
    process-IsValid simple taking simple-Lawful one_queued 0 5000 false one_queued-IsValid

page_time-Fitting : Fitting simple 24 page_time
unfolding stat_size stat_hash keys_hash keys_size spare_values simple
page_time-Fitting = record {
  keys_in = omega arith;
  size_positive = omega arith;
  size_fits = omega arith;
  hash_nonzero = omega arith;
}

aggregate-IsValid_example : IsValid (aggregate simple taking one_queued 0 page_time 2000 false).1
aggregate-IsValid_example =
    aggregate-IsValid simple taking one_queued 0 page_time 2000 false simple-Lawful
      page_time-Fitting one_queued-IsValid

abbrev none_queued : Aggregate
none_queued = record one_queued {
  arena = record { pos = 666; last = 0; end = 4096 };
  tree = sentinel;
  queue = [];
}

zero_hash_dangles_example :
    let a' =
      (process simple taking (fill simple none_queued page_views 1000 0 666 0) 0 3000 true).1 in
    (a'.queue ≡ []) × In 0 (inorder a'.tree)
zero_hash_dangles_example =
    zero_hash_dangles simple taking none_queued 0 page_views 1000 3000 666 0 simple-Lawful refl

process_loop-order_example :
    let (a', ctx', count) = process_loop simple taking false 5000 (0 ∷ []) one_queued 0 0 in
    (front : List ℕ) × (front ++ a'.queue ≡ 0 ∷ [])
    × ((ctx', count) ≡ handle_all taking (map (λ p. (one_memory p).stat) front) 0 0)
    × Cut false 5000 1000 one_memory front a'.queue
process_loop-order_example = process_loop-order simple taking false 5000 one_queued 0
