-- ===== src/Aggregate/Alloc.antt =====
-- `ngx_statshouse_aggregate_alloc` and `ngx_statshouse_aggregate_free`: the memory of the
-- aggregated statistics, used as a ring. Addresses are offsets from `alloc.start`.
pub mod Layout
pub mod Refusal
pub mod Distinct
use nginx_statshouse_module.Base.{
  ℕ, ◌+◌, ◌^◌, Bool, Option, none, some, ltb, leb, ◌==◌, if◌then◌else◌,
}

-- the `ngx_buf_t alloc`
pub record Arena : Type 0 where
  pub pos : ℕ
  pub last : ℕ
  pub end : ℕ

-- `(to - from) > (ptrdiff_t) size` on addresses: the cast makes a size from 2 ^ 63 on negative.
abbrev pub has_room : ℕ → ℕ → ℕ → Bool
has_room from to size =
    if ltb size (2 ^ 63) then ltb (from + size) to else ltb (from + size) (to + 2 ^ 64)

unfoldable pub alloc : Arena → ℕ → Option ℕ × Arena
alloc a size =
    if leb a.last a.pos
    then (if has_room a.pos a.end size
        then (some a.pos, record a { pos = a.pos + size })
        else if has_room 0 a.last size
        then (some 0, record a { pos = 0 + size })
        else (none, a))
    else if has_room a.pos a.last size
    then (some a.pos, record a { pos = a.pos + size })
    else (none, a)

unfoldable pub free : Arena → ℕ → ℕ → Arena
free a ptr size =
    let from_start = if ptr == 0 then record a { last = 0 } else a in
    record from_start { last = from_start.last + size }
