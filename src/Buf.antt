-- ===== src/Buf.antt =====
-- The part of nginx's `ngx_buf_t` that the module uses. `pos` never moves, so a buffer is the bytes
-- from `pos` to `last` and the room from `pos` to `end`. Nothing here stops a write past `end`:
-- the callers test for room first.
use nginx_statshouse_module.Base.{ℕ, ◌+◌, ◌-◌, ◌%◌, ◌^◌, List, [], ◌++◌, length}

pub record Buf : Type 0 where
  pub bytes : List ℕ
  pub room : ℕ

-- `size_t` addition, and negation
abbrev pub add_size : ℕ → ℕ → ℕ
add_size a b = (a + b) % 2 ^ 64

abbrev pub neg_size : ℕ → ℕ
neg_size a = (2 ^ 64 - a % 2 ^ 64) % 2 ^ 64

-- `ngx_cpymem(buf->last, …)`, the result stored in `buf->last`
abbrev pub cpymem : Buf → List ℕ → Buf
cpymem buf bs = record buf { bytes = buf.bytes ++ bs }

-- `ngx_buf_size`
abbrev pub buf_size : Buf → ℕ
buf_size buf = length buf.bytes

abbrev pub reset : Buf → Buf
reset buf = record buf { bytes = [] }
