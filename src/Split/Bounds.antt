-- ===== src/Split/Bounds.antt =====
-- What `stat_part` cuts off a string in which no " : " can be found.
use nginx_statshouse_module.Base.{
  ℕ, zero, suc, ◌+◌, ◌-◌, ◌≤◌, ◌<◌, ◌≡◌, ◌≢◌, refl, ◌⊎◌, inl, inr, false, Bool-cases, ◌&&◌, some,
  ltb, ◌==◌, ℕ_discrete, arith,
}
use nginx_statshouse_module.Split.{
  Part, crash, done, item, is_group_delimiter, skip, scan, trimmed, past_comma, finish_part,
  after_scan, stat_part,
}

-- An item lies between the point where the call started and the point where the next call goes on,
-- which is further and inside the string, and there is no comma in it. There is no crash.
abbrev pub Cuts : (ℕ → ℕ) → ℕ → ℕ → Part → Type 0
Cuts byte end from crash = ⊥
Cuts byte end from done = Unit
Cuts byte end from (item start len next) =
    (from ≤ start)
    × (start + len ≤ next)
    × (from < next)
    × (next ≤ end)
    × ((i : ℕ) → start ≤ i → i < start + len → byte i ≢ b',')

clean_from :
    {byte : ℕ → ℕ} (p q : ℕ)
    → (byte p == b',') ≡ false
    → ((i : ℕ) → p + 1 ≤ i → i < q → byte i ≢ b',')
    → (i : ℕ) → p ≤ i
    → i < q
    → byte i ≢ b','
clean_from {byte} p q c rest i a b = elim (ℕ_discrete i p) [
  | yes e ↦ rw e (λ k. ground arith)
  | no n ↦ rest i (omega arith) b
]

module _ (byte : ℕ → ℕ) (end : ℕ) (plain : (p : ℕ) → byte p ≢ b':') where
  no_delimiter : (p : ℕ) → is_group_delimiter byte end p ≡ false
  unfolding is_group_delimiter
  no_delimiter p = ground (arith, plain (p + 1))

  skip_range : (n p : ℕ) → p ≤ end → (p ≤ skip byte end n p) × (skip byte end n p ≤ end)
  unfolding skip
  skip_range zero p h = omega arith
  skip_range (suc n) p h = rw (no_delimiter p) (ground (arith, skip_range n (p + 1)))

  -- what the loop up to the comma finds
  record Scanned (n p q : ℕ) : Type 0 where
    above : p ≤ q
    inside : q ≤ end
    clean : (i : ℕ) → p ≤ i → i < q → byte i ≢ b','
    stopped : end ≤ p + n → (q ≡ end) ⊎ (byte q ≡ b',')

  scan_range : (n p : ℕ) → p ≤ end → (q : ℕ) × (scan byte end n p ≡ some q) × Scanned n p q
  unfolding scan
  scan_range zero p h = (
    p,
    refl,
    record {
      above = omega arith;
      inside = h;
      clean = λ i a b. absurd (omega arith);
      stopped = λ e. inl (omega arith);
    },
  )
  scan_range (suc n) p h = elim (Bool-cases (ltb p end)) [
    | inr e ↦ (
      p,
      rw e refl,
      record {
        above = omega arith;
        inside = h;
        clean = λ i a b. absurd (omega arith);
        stopped = λ k. inl (ground arith);
      },
    )
    | inl e ↦ elim (Bool-cases (byte p == b',')) [
      | inl c ↦ (
        p,
        rw (e, c) refl,
        record {
          above = omega arith;
          inside = h;
          clean = λ i a b. absurd (omega arith);
          stopped = λ k. inr (ground arith);
        },
      )
      | inr c ↦
          let (q, same, s) = scan_range n (p + 1) (ground arith) in
          (
            q,
            rw (e, c, no_delimiter p) same,
            record {
              above = omega (arith, s.above);
              inside = s.inside;
              clean = λ i a b. clean_from p q c s.clean i a b;
              stopped = λ k. s.stopped (omega arith);
            },
          )
    ]
  ]

  trimmed_le : (start p : ℕ) → start ≤ p → start + trimmed byte end start p ≤ p
  unfolding trimmed
  trimmed_le start p h = ground arith

  past_comma_range : (p : ℕ) → p ≤ end → (p ≤ past_comma byte end p) × (past_comma byte end p ≤ end)
  unfolding past_comma
  past_comma_range p h = ground arith

  ltb_ge : (p : ℕ) → ltb p end ≡ false → end ≤ p
  ltb_ge p k = ground arith

  past_comma_moves : (p : ℕ) → p < end → byte p ≡ b',' → p < past_comma byte end p
  unfolding past_comma
  past_comma_moves p h c = ground arith

  item_moves :
      (n start p : ℕ)
      → start < end
      → end ≤ start + n
      → Scanned n start p
      → start < past_comma byte end p
  item_moves n start p h e s = elim (s.stopped e) [
    | inl at ↦ omega (arith, past_comma_range p s.inside)
    | inr c ↦ elim (Bool-cases (ltb p end)) [
      | inl k ↦ omega (arith, past_comma_moves p (ground arith) c, s.above)
      | inr k ↦ omega (arith, past_comma_range p s.inside, ltb_ge p k)
    ]
  ]

  finish_part-Cuts :
      (from start len next : ℕ)
      → from ≤ start
      → start + len ≤ next
      → from < next
      → next ≤ end
      → ((i : ℕ) → start ≤ i → i < start + len → byte i ≢ b',')
      → Cuts byte end from (finish_part byte end start len next)
  unfolding finish_part
  finish_part-Cuts from start len next a b c d clean =
      elim (Bool-cases ((len == 0) && (next == end))) [
        | inl e ↦ rw e tt
        | inr e ↦ elim (Bool-cases ((len == 1) && (byte start == b'-'))) [
          | inl k ↦ rw (e, k) (a, omega arith, c, d, (λ i x y. absurd (omega arith)))
          | inr k ↦ rw (e, k) (a, b, c, d, clean)
        ]
      ]

  -- On a string with no colon in it or behind it, a call of `stat_part` that starts inside the
  -- string does not crash: it returns NULL, or an item that lies between the point where it
  -- started and the point where the next call starts. That point is further than the first and
  -- inside the string, and there is no comma in the item.
  pub stat_part-Cuts : (from : ℕ) → from ≤ end → Cuts byte end from (stat_part byte end from)
  unfolding stat_part after_scan
  stat_part-Cuts from h =
      let start = skip byte end (end - from) from in
      let (low, high) = skip_range (end - from) from h in
      let (p, same, s) = scan_range (end - start) start high in
      let q = past_comma byte end p in
      let (pq, q_end) = past_comma_range p s.inside in
      let (qn, n_end) = skip_range (end - q) q q_end in
      elim (Bool-cases (start == end)) [
        | inl e ↦ rw e tt
        | inr e ↦
            rw (e, same)
              (finish_part-Cuts from start (trimmed byte end start p) (skip byte end (end - q) q)
                low (omega (arith, trimmed_le start p s.above))
                (omega (arith, item_moves (end - start) start p (ground arith) (omega arith) s))
                n_end (λ i x y. s.clean i x (omega (arith, trimmed_le start p s.above))))
      ]
