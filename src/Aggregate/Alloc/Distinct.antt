-- ===== src/Aggregate/Alloc/Distinct.antt =====
-- The sizes and the addresses of the live chunks.
use nginx_statshouse_module.Base.{
  ℕ, ◌+◌, ◌≤◌, ◌<◌, ◌≡◌, ◌≢◌, List, [], ◌∷◌, ◌++◌, sym, subst, All, All-append, arith,
}
use nginx_statshouse_module.Aggregate.Alloc.{Arena}
use nginx_statshouse_module.Aggregate.Alloc.Layout.{Chunk, Run, IsValid, straight, wrapped}

-- the chunks of a range lie inside it
Run-inside :
    (a : ℕ) (cs : List Chunk) (b : ℕ)
    → Run a cs b
    → All (λ c. (0 < c.size) × (a ≤ c.ptr) × (c.ptr < b)) cs × (a ≤ b)
Run-inside a [] b e = (tt, omega arith)
Run-inside a (c ∷ cs) b (e, p, r) =
    let (h, le) = Run-inside (a + c.size) cs b r in ((omega arith, widen cs h), omega arith)
  where
    widen :
        (ds : List Chunk)
        → All (λ d. (0 < d.size) × (a + c.size ≤ d.ptr) × (d.ptr < b)) ds
        → All (λ d. (0 < d.size) × (a ≤ d.ptr) × (d.ptr < b)) ds
    widen [] h = tt
    widen (d ∷ ds) (h, hs) = (omega arith, widen ds hs)

weaken : (P Q : Chunk → Type 0) (cs : List Chunk) → ((c : Chunk) → P c → Q c) → All P cs → All Q cs
weaken P Q [] f h = tt
weaken P Q (c ∷ cs) f (h, hs) = (f c h, weaken P Q cs f hs)

pub IsValid-positive : (a : Arena) (cs : List Chunk) → IsValid a cs → All (λ c. 0 < c.size) cs
IsValid-positive a cs (straight s) = weaken _ _ cs (λ c h. h.0) (Run-inside a.last cs a.pos s.run).0
IsValid-positive a cs (wrapped w) = subst (All (λ c. 0 < c.size)) (sym w.split) (
    All-append _ w.older w.younger
      (weaken _ _ w.older (λ c h. h.0) (Run-inside a.last w.older w.top w.older_run).0)
      (weaken _ _ w.younger (λ c h. h.0) (Run-inside 0 w.younger a.pos w.younger_run).0))

-- the first chunk of a range, and the others
Run-distinct :
    (a : ℕ) (c : Chunk) (cs : List Chunk) (b : ℕ) → Run a (c ∷ cs) b → All (λ d. d.ptr ≢ c.ptr) cs
Run-distinct a c cs b (e, p, r) =
    weaken _ _ cs (λ d h. omega arith) (Run-inside (a + c.size) cs b r).0

wrapped-distinct :
    (a : Arena) (c : Chunk) (cs older younger : List Chunk) (top : ℕ)
    → c ∷ cs ≡ older ++ younger
    → Run a.last older top
    → Run 0 younger a.pos
    → a.pos < a.last
    → All (λ d. d.ptr ≢ c.ptr) cs
wrapped-distinct a c cs [] younger top e r y gap =
    Run-distinct 0 c cs a.pos (subst (λ l. Run 0 l a.pos) (sym e) y)
wrapped-distinct a c cs (o ∷ older) younger top e r y gap =
    rw (same, rest)
      (All-append _ older younger (Run-distinct a.last o older top r)
        (weaken _ _ younger (λ d h. omega (arith, r.0)) (Run-inside 0 younger a.pos y).0))
  where
    same : c ≡ o
    same = cc

    rest : cs ≡ older ++ younger
    rest = cc

-- The oldest chunk's address is no other chunk's.
pub IsValid-distinct :
    (a : Arena) (c : Chunk) (cs : List Chunk) → IsValid a (c ∷ cs) → All (λ d. d.ptr ≢ c.ptr) cs
IsValid-distinct a c cs (straight s) = Run-distinct a.last c cs a.pos s.run
IsValid-distinct a c cs (wrapped w) =
    wrapped-distinct a c cs w.older w.younger w.top w.split w.older_run w.younger_run w.gap
