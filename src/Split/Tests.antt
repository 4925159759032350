-- ===== src/Split/Tests.antt =====
-- Cuts of concrete strings.
use nginx_statshouse_module.Base.{ℕ, ◌≤◌, ◌<◌, ◌≡◌, ◌≢◌, refl, [], ◌∷◌, get_or, arith}
use nginx_statshouse_module.Split.{
  crash, done, item, is_group_delimiter, skip, scan, trimmed, past_comma, finish_part, after_scan,
  stat_part,
}
use nginx_statshouse_module.Split.Crash.{EndsInDelimiter, stat_part-crash}
use nginx_statshouse_module.Split.Bounds.{Cuts, stat_part-Cuts}

abbrev ones : ℕ → ℕ
ones i = b'1'

stat_part-Cuts_example : Cuts ones 3 0 (stat_part ones 3 0)
stat_part-Cuts_example = stat_part-Cuts ones 3 (λ p e. ground arith) 0 (omega arith)

-- "12 , -" and what lies behind it
abbrev two_items : ℕ → ℕ
two_items i = get_or (b'1' ∷ b'2' ∷ b' ' ∷ b',' ∷ b' ' ∷ b'-' ∷ []) i 0

cut_twelve : stat_part two_items 6 0 ≡ item 0 2 5
unfolding stat_part after_scan scan skip trimmed past_comma finish_part is_group_delimiter
cut_twelve = refl

cut_dash : stat_part two_items 6 5 ≡ item 5 0 6
unfolding stat_part after_scan scan skip trimmed past_comma finish_part is_group_delimiter
cut_dash = refl

cut_end : stat_part two_items 6 6 ≡ done
unfolding stat_part after_scan scan skip trimmed past_comma finish_part is_group_delimiter
cut_end = refl

-- "1 : "
abbrev ends_in_delimiter : ℕ → ℕ
ends_in_delimiter i = get_or (b'1' ∷ b' ' ∷ b':' ∷ b' ' ∷ []) i 0

cut_crash : stat_part ends_in_delimiter 4 0 ≡ crash
unfolding stat_part after_scan scan skip trimmed past_comma finish_part is_group_delimiter
cut_crash = refl

ends_in_delimiter-EndsInDelimiter : EndsInDelimiter ends_in_delimiter 4
ends_in_delimiter-EndsInDelimiter = record { space = refl; colon = refl; last_space = refl }

no_comma : (i : ℕ) → 0 ≤ i → i < 4 → ends_in_delimiter i ≢ b','
no_comma i a b = ground arith

stat_part-crash_example : stat_part ends_in_delimiter 4 0 ≡ crash
stat_part-crash_example =
    stat_part-crash ends_in_delimiter 4 ends_in_delimiter-EndsInDelimiter 0 (omega arith)
      (λ e. ground arith) no_comma
