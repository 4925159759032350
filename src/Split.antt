-- ===== src/Split.antt =====
-- `ngx_statshouse_stat_is_group_delimiter` and `ngx_statshouse_stat_part` of src/ngx_statshouse.c: one
-- value after the other is cut from a comma-separated string. Pointers are offsets from the string's
-- start; `byte` is what lies in memory there, also behind the string's end, which is read too.
pub mod Bounds
pub mod Crash
mod Tests
use nginx_statshouse_module.Base.{
  ℕ, zero, suc, ◌+◌, ◌-◌, Bool, true, false, ◌&&◌, ◌||◌, not, Option, none, some, ltb, ◌==◌,
  if◌then◌else◌,
}

-- What a call of `stat_part` does: it dereferences the `NULL` that it passed itself, returns `NULL`, or
-- returns the item of a start and a length and sets `*next_ptr`.
pub data Part : Type 0 where
  crash done : Part
  item : ℕ → ℕ → ℕ → Part

module _ (byte : ℕ → ℕ) (end : ℕ) where
  -- whether " : " is found; the test of the room is the code's
  unfoldable pub is_group_delimiter : ℕ → Bool
  is_group_delimiter p =
      not (ltb (p + 3) end)
      && ((byte p == b' ') && ((byte (p + 1) == b':') && (byte (p + 2) == b' ')))

  -- The loop over delimiters and spaces. It moves at each round, so that `end - p` rounds are enough.
  unfoldable pub skip : ℕ → ℕ → ℕ
  skip zero p = p
  skip (suc n) p =
      let next = if is_group_delimiter p then p + 3 else p + 1 in
      let rest = skip n next in
      if ltb p end && (is_group_delimiter p || (byte p == b' ')) then rest else p

  -- The loop up to the comma. `is_group_delimiter` reads `*next_ptr` of a `NULL` when it finds one.
  unfoldable pub scan : ℕ → ℕ → Option ℕ
  scan zero p = some p
  scan (suc n) p =
      let rest = scan n (p + 1) in
      if ltb p end
      then (if byte p == b',' then some p else if is_group_delimiter p then none else rest)
      else some p

  -- one space at the end of an item is dropped
  unfoldable pub trimmed : ℕ → ℕ → ℕ
  trimmed start p =
      let len = p - start in if ltb 0 len && (byte (start + len - 1) == b' ') then len - 1 else len

  unfoldable pub past_comma : ℕ → ℕ
  past_comma p = if ltb p end && (byte p == b',') then p + 1 else p

  unfoldable pub finish_part : ℕ → ℕ → ℕ → Part
  finish_part start len p =
      if (len == 0) && (p == end)
      then done
      else item start (if (len == 1) && (byte start == b'-') then 0 else len) p

  unfoldable pub after_scan : ℕ → Option ℕ → Part
  after_scan start none = crash
  after_scan start (some p) =
      let q = past_comma p in finish_part start (trimmed start p) (skip (end - q) q)

  -- `ngx_statshouse_stat_part`, called with the pointer that it starts from
  unfoldable pub stat_part : ℕ → Part
  stat_part from =
      let p = skip (end - from) from in if p == end then done else after_scan p (scan (end - p) p)
