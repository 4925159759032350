-- ===== src/Aggregate/Alloc/Refusal.antt =====
-- When the ring refuses an allocation.
use nginx_statshouse_module.Base.{ℕ, ◌+◌, ◌^◌, ◌≤◌, ◌<◌, ◌≡◌, ◌↔◌, none, arith, some, refl, ap}
use nginx_statshouse_module.Aggregate.Alloc.{Arena, alloc, free}

-- A ring with nothing in it (`pos` at `last`) refuses, of the sizes less than 2^63, exactly those
-- that fit neither above `pos` nor below it, with a byte to spare.
alloc_empty-none :
    (a : Arena) (size : ℕ)
    → a.pos ≡ a.last
    → size < 2 ^ 63
    → ((alloc a size).0 ≡ none) ↔ ((a.end ≤ a.pos + size) × (a.pos ≤ size))
unfolding alloc
alloc_empty-none a size e h = ground arith

-- a memory from which nothing was taken
abbrev fresh : ℕ → Arena
fresh end = record { pos = 0; last = 0; end = end }

fresh-alloc :
    (end size : ℕ)
    → size < end
    → end < 2 ^ 63
    → alloc (fresh end) size ≡ (some 0, record { pos = size; last = 0; end = end })
unfolding alloc
fresh-alloc end size fits small = ground arith

drained :
    (end n : ℕ)
    → free (record { pos = n; last = 0; end = end }) 0 n ≡ record { pos = n; last = n; end = end }
unfolding free
drained end n = ground arith

-- In a memory of less than 2^63 bytes from which nothing was taken, every size less than the
-- memory's is allocated, at its start. But once a chunk of `n` bytes was allocated there and was
-- freed again, so that the ring is as empty as before, it refuses exactly the sizes, of those
-- that it had allocated, that are `n` or more and with `n` bytes more reach the end of the
-- memory.
pub alloc-free-none :
    (end n size : ℕ)
    → n < end
    → size < end
    → end < 2 ^ 63
    → ((alloc (fresh end) n).0 ≡ some 0)
      × ((alloc (fresh end) size).0 ≡ some 0)
      × (((alloc (free (alloc (fresh end) n).1 0 n) size).0 ≡ none)
          ↔ ((n ≤ size) × (end ≤ n + size)))
alloc-free-none end n size n_fits size_fits small =
    let first = fresh-alloc end n n_fits small in
    let other = fresh-alloc end size size_fits small in
    let (only, if_both) =
      alloc_empty-none (record { pos = n; last = n; end = end }) size refl (omega arith) in
    (
      ap (λ r. r.0) first,
      ap (λ r. r.0) other,
      rw (first, drained end n) (λ e. let (a, b) = only e in (b, a), λ (a, b). if_both (b, a)),
    )
