-- ===== src/Aggregate/Alloc/Layout.antt =====
-- Where the live chunks lie in the ring, oldest first, and what an allocation and a free do to them.
use nginx_statshouse_module.Base.{
  ℕ, ◌+◌, ◌^◌, ◌≤◌, ◌<◌, ◌≡◌, refl, sym, subst, ◌⊎◌, inl, inr, List, [], ◌∷◌, ◌++◌, append_assoc,
  some, All, All-append, arith,
}
use nginx_statshouse_module.Aggregate.Alloc.{Arena, alloc, free}

pub record Chunk : Type 0 where
  pub ptr : ℕ
  pub size : ℕ

-- The chunks fill the range from `a` to `b`, one after the other.
abbrev pub Run : ℕ → List Chunk → ℕ → Type 0
Run a [] b = a ≡ b
Run a (c ∷ cs) b = (c.ptr ≡ a) × (0 < c.size) × Run (a + c.size) cs b

-- The live range does not go round the end of the memory, or it does: the older chunks lie from
-- `last` up to some point, and the younger ones from the start up to `pos`.
pub record Straight (a : Arena) (cs : List Chunk) : Type 0 where
  pub run : Run a.last cs a.pos
  pub inside : a.pos ≤ a.end

pub record Wrapped (a : Arena) (cs : List Chunk) : Type 0 where
  pub older : List Chunk
  pub younger : List Chunk
  pub split : cs ≡ older ++ younger
  pub top : ℕ
  pub older_run : Run a.last older top
  pub younger_run : Run 0 younger a.pos
  pub gap : a.pos < a.last
  pub inside : top ≤ a.end

pub data IsValid (a : Arena) (cs : List Chunk) : Type 0 where
  straight : Straight a cs → IsValid a cs
  wrapped : Wrapped a cs → IsValid a cs

abbrev pub Apart : Chunk → Chunk → Type 0
Apart c d = (c.ptr + c.size ≤ d.ptr) ⊎ (d.ptr + d.size ≤ c.ptr)

Run-le : (a : ℕ) (cs : List Chunk) (b : ℕ) → Run a cs b → a ≤ b
Run-le a [] b h = omega arith
Run-le a (c ∷ cs) b (_, _, h) = omega (arith, Run-le (a + c.size) cs b h)

Run-append :
    (a : ℕ) (cs : List Chunk) (b : ℕ) (d : Chunk)
    → Run a cs b
    → d.ptr ≡ b
    → 0 < d.size
    → Run a (cs ++ (d ∷ [])) (b + d.size)
Run-append a [] b d h e p = omega arith
Run-append a (c ∷ cs) b d (e₁, p₁, h) e p = (e₁, p₁, Run-append (a + c.size) cs b d h e p)

-- The chunks of a range are apart from whatever lies below or above the range.
Run-below :
    (a : ℕ) (cs : List Chunk) (b : ℕ) (d : Chunk)
    → Run a cs b
    → d.ptr + d.size ≤ a
    → All (λ c. Apart c d) cs
Run-below a [] b d h le = tt
Run-below a (c ∷ cs) b d (e, p, h) le =
    (inr (omega arith), Run-below (a + c.size) cs b d h (omega arith))

Run-above :
    (a : ℕ) (cs : List Chunk) (b : ℕ) (d : Chunk) → Run a cs b → b ≤ d.ptr → All (λ c. Apart c d) cs
Run-above a [] b d h le = tt
Run-above a (c ∷ cs) b d (e, p, h) le =
    (inl (omega (arith, Run-le (a + c.size) cs b h)), Run-above (a + c.size) cs b d h le)

-- What an allocation gives: a chunk inside the memory and apart from every live chunk, and a ring
-- that holds it as the youngest.
pub record Allocated (a' : Arena) (cs : List Chunk) (end : ℕ) (d : Chunk) : Type 0 where
  pub valid : IsValid a' (cs ++ (d ∷ []))
  pub apart : All (λ c. Apart c d) cs
  pub inside : d.ptr + d.size ≤ end
  pub same_end : a'.end ≡ end

alloc_cases :
    (a : Arena) (size : ℕ) {p : ℕ} {a' : Arena}
    → size < 2 ^ 63
    → alloc a size ≡ (some p, a')
    → ((a.last ≤ a.pos)
        × (a.pos + size < a.end)
        × (p ≡ a.pos)
        × (a' ≡ record a { pos = a.pos + size }))
      ⊎ ((a.last ≤ a.pos) × (size < a.last) × (p ≡ 0) × (a' ≡ record a { pos = size }))
      ⊎ ((a.pos < a.last)
          × (a.pos + size < a.last)
          × (p ≡ a.pos)
          × (a' ≡ record a { pos = a.pos + size }))
unfolding alloc
alloc_cases a size h e = ground arith

alloc-Straight :
    (a a' : Arena) (cs : List Chunk) (size p : ℕ)
    → Straight a cs
    → 0 < size
    → ((a.pos + size < a.end) × (p ≡ a.pos) × (a' ≡ record a { pos = a.pos + size }))
      ⊎ ((size < a.last) × (p ≡ 0) × (a' ≡ record a { pos = size }))
    → Allocated a' cs a.end (record { ptr = p; size = size })
alloc-Straight a a' cs size p s pos (inl (room, at, e)) =
    rw (e, at)
      (record {
        valid = straight (record {
          run = Run-append a.last cs a.pos (record { ptr = a.pos; size = size }) s.run refl pos;
          inside = omega arith;
        });
        apart = Run-above a.last cs a.pos _ s.run (omega arith);
        inside = omega arith;
        same_end = refl;
      })
alloc-Straight a a' cs size p s pos (inr (room, at, e)) =
    rw (e, at)
      (record {
        valid = wrapped (record {
          older = cs;
          younger = record { ptr = 0; size = size } ∷ [];
          split = refl;
          top = a.pos;
          older_run = s.run;
          younger_run = (refl, pos, omega arith);
          gap = room;
          inside = s.inside;
        });
        apart = Run-below a.last cs a.pos _ s.run (omega arith);
        inside = omega (arith, Run-le a.last cs a.pos s.run, s.inside);
        same_end = refl;
      })

alloc-Wrapped :
    (a a' : Arena) (cs : List Chunk) (size p : ℕ)
    → Wrapped a cs
    → 0 < size
    → a.pos + size < a.last
    → p ≡ a.pos
    → a' ≡ record a { pos = a.pos + size }
    → Allocated a' cs a.end (record { ptr = p; size = size })
alloc-Wrapped a a' cs size p w pos room at e =
    rw (e, at, w.split)
      (record {
        valid = wrapped (record {
          older = w.older;
          younger = w.younger ++ (record { ptr = a.pos; size = size } ∷ []);
          split = append_assoc w.older w.younger _;
          top = w.top;
          older_run = w.older_run;
          younger_run = Run-append 0 w.younger a.pos _ w.younger_run refl pos;
          gap = room;
          inside = w.inside;
        });
        apart =
            All-append _ w.older w.younger
              (Run-below a.last w.older w.top _ w.older_run (omega arith))
              (Run-above 0 w.younger a.pos _ w.younger_run (omega arith));
        inside = omega (arith, Run-le a.last w.older w.top w.older_run, w.inside);
        same_end = refl;
      })

-- A straight ring has `last` up to `pos`, a wrapped one has it above.
not-Straight : (a : Arena) (cs : List Chunk) → Straight a cs → ¬ (a.pos < a.last)
not-Straight a cs s = omega (arith, Run-le a.last cs a.pos s.run)

-- If the live chunks of a ring are in order, an allocation of a positive size less than 2^63 that
-- succeeds gives a chunk that lies inside the memory and apart from every live chunk, and leaves
-- the ring in order with that chunk as its youngest.
pub alloc-Allocated :
    (a : Arena) (cs : List Chunk) (size : ℕ) {p : ℕ} {a' : Arena}
    → IsValid a cs
    → 0 < size
    → size < 2 ^ 63
    → alloc a size ≡ (some p, a')
    → Allocated a' cs a.end (record { ptr = p; size = size })
alloc-Allocated a cs size (straight s) pos h e = elim (alloc_cases a size h e) [
  | inl (_, room, at, same) ↦ alloc-Straight a _ cs size _ s pos (inl (room, at, same))
  | inr (inl (_, room, at, same)) ↦ alloc-Straight a _ cs size _ s pos (inr (room, at, same))
  | inr (inr (gap, _, _, _)) ↦ absurd (not-Straight a cs s gap)
]
alloc-Allocated a cs size (wrapped w) pos h e = elim (alloc_cases a size h e) [
  | inl (le, _, _, _) ↦ absurd (omega (arith, w.gap))
  | inr (inl (le, _, _, _)) ↦ absurd (omega (arith, w.gap))
  | inr (inr (_, room, at, same)) ↦ alloc-Wrapped a _ cs size _ w pos room at same
]

free_lem :
    (a : Arena) (p size : ℕ) → (p ≡ a.last) ⊎ (p ≡ 0) → free a p size ≡ record a { last = p + size }
unfolding free
free_lem a p size h = ground arith

free_straight :
    (a : Arena) (c : Chunk) (cs : List Chunk)
    → Run c.ptr (c ∷ cs) a.pos
    → a.pos ≤ a.end
    → IsValid (record a { last = c.ptr + c.size }) cs
free_straight a c cs (_, _, r) h = straight (record { run = r; inside = h })

free_wrapped :
    (a : Arena) (c : Chunk) (cs older younger : List Chunk) (top : ℕ)
    → c ∷ cs ≡ older ++ younger
    → Run a.last older top
    → Run 0 younger a.pos
    → a.pos < a.last
    → top ≤ a.end
    → ((c.ptr ≡ a.last) ⊎ (c.ptr ≡ 0)) × IsValid (record a { last = c.ptr + c.size }) cs
free_wrapped a c cs [] younger top e r y gap h =
    let run : Run 0 (c ∷ cs) a.pos = subst (λ l. Run 0 l a.pos) (sym e) y in
    (inr run.0, free_straight a c cs (rw (← run.0) at run) (omega arith))
free_wrapped a c cs (o ∷ older) younger top e (at, p, r) y gap h = rw same (
  inl at,
  wrapped (record {
    older = older;
    younger = younger;
    split = cc;
    top = top;
    older_run = rw at r;
    younger_run = y;
    gap = omega arith;
    inside = h;
  }),
)
  where
    same : c ≡ o
    same = cc

free_last-IsValid :
    (a : Arena) (c : Chunk) (cs : List Chunk)
    → IsValid a (c ∷ cs)
    → ((c.ptr ≡ a.last) ⊎ (c.ptr ≡ 0)) × IsValid (record a { last = c.ptr + c.size }) cs
free_last-IsValid a c cs (straight s) =
    (inl s.run.0, free_straight a c cs (rw (← s.run.0) at s.run) s.inside)
free_last-IsValid a c cs (wrapped w) =
    free_wrapped a c cs w.older w.younger w.top w.split w.older_run w.younger_run w.gap w.inside

-- If the live chunks of a ring are in order, freeing the oldest leaves the ring in order with the
-- others, in the same memory.
pub free-IsValid :
    (a : Arena) (c : Chunk) (cs : List Chunk)
    → IsValid a (c ∷ cs)
    → IsValid (free a c.ptr c.size) cs × ((free a c.ptr c.size).end ≡ a.end)
free-IsValid a c cs v =
    let (at, valid) = free_last-IsValid a c cs v in rw (free_lem a c.ptr c.size at) (valid, refl)

-- An empty ring over fresh memory is in order.
pub init-IsValid : (end : ℕ) → IsValid (record { pos = 0; last = 0; end = end }) []
init-IsValid end = straight (record { run = refl; inside = omega arith })
