-- ===== src/Split/Crash.antt =====
-- The call of `is_group_delimiter` with `NULL`.
use nginx_statshouse_module.Base.{
  ℕ, zero, suc, ◌+◌, ◌-◌, ◌≤◌, ◌<◌, ◌≡◌, ◌≢◌, refl, true, false, none, ℕ_discrete, arith,
}
use nginx_statshouse_module.Split.{crash, is_group_delimiter, skip, scan, after_scan, stat_part}

-- The string ends in " : ".
pub record EndsInDelimiter (byte : ℕ → ℕ) (end : ℕ) : Type 0 where
  pub space : byte (end - 3) ≡ b' '
  pub colon : byte (end - 2) ≡ b':'
  pub last_space : byte (end - 1) ≡ b' '

module _ (byte : ℕ → ℕ) (end : ℕ) (ends : EndsInDelimiter byte end) where
  at_end : (p : ℕ) → p + 3 ≡ end → is_group_delimiter byte end p ≡ true
  unfolding is_group_delimiter
  at_end p e =
      let zeroth : p ≡ end - 3 = omega arith in
      let first : p + 1 ≡ end - 2 = omega arith in
      let second : p + 2 ≡ end - 1 = omega arith in
      rw (first, second, ends.colon, ends.last_space) (rw (zeroth, ends.space) (ground arith))

  before_end : (p : ℕ) → p + 3 < end → is_group_delimiter byte end p ≡ false
  unfolding is_group_delimiter
  before_end p h = ground arith

  scan-none :
      (n p : ℕ)
      → p + 3 ≤ end
      → end ≤ p + n
      → ((i : ℕ) → p ≤ i → i < end → byte i ≢ b',')
      → scan byte end n p ≡ none
  unfolding scan
  scan-none zero p h k c = absurd (omega arith)
  scan-none (suc n) p h k c =
      let here : byte p ≢ b',' = c p (omega arith) (omega arith) in
      elim (ℕ_discrete (p + 3) end) [
        | yes e ↦ rw (at_end p e) (ground arith)
        | no ne ↦ rw (before_end p (omega arith)) (
            let rest =
              scan-none n (p + 1) (omega arith) (omega arith) (λ i a b. c i (omega arith) b) in
            ground arith)
      ]

  -- A call of `stat_part` reads through NULL if the string ends in the delimiter ' : ', has at
  -- least one byte before it from the point where the call starts, does not have a space there
  -- and has no comma from there on.
  pub stat_part-crash :
      (from : ℕ)
      → from + 3 < end
      → byte from ≢ b' '
      → ((i : ℕ) → from ≤ i → i < end → byte i ≢ b',')
      → stat_part byte end from ≡ crash
  unfolding stat_part after_scan skip
  stat_part-crash from h first clean =
      rw (stays (end - from))
        (rw (scan-none (end - from) from (omega arith) (omega arith) clean) (ground arith))
    where
      stays : (n : ℕ) → skip byte end n from ≡ from
      stays zero = refl
      stays (suc n) = rw (before_end from h) (ground arith)
