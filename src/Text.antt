-- ===== src/Text.antt =====
-- What the modules take from C and nginx to read a token of the configuration. A token is the list of
-- its bytes, and a zero byte follows it.
use Prim.Native.Char.{code}
use Prim.Native.String.{String}
use nginx_statshouse_module.Base.{
  ℕ, zero, suc, ◌+◌, ◌-◌, ◌%◌, ◌^◌, ◌≡◌, ◌≢◌, refl, [], ◌∷◌, ◌++◌, Bool, true, false, ◌==◌, ==_iff,
  if◌then◌else◌, length, drop, All, arith, Bool-cases, inl, inr,
}
use nginx_statshouse_module.Stat.{Str}

-- the bytes of a literal
abbrev pub codes : String → Str
codes String.[] = []
codes (String.◌∷◌ c s) = code c ∷ codes s

-- `ngx_strncmp(a, b, n) == 0`
unfoldable pub strncmp : Str → Str → ℕ → Bool
strncmp a b zero = true
strncmp [] [] (suc n) = true
strncmp [] (y ∷ ys) (suc n) = y == 0
strncmp (x ∷ xs) [] (suc n) = x == 0
strncmp (x ∷ xs) (y ∷ ys) (suc n) =
    let rest = strncmp xs ys n in if x == y then (if x == 0 then true else rest) else false

-- A string of which only the address and the length are known: the bytes of its token from the
-- address on, and the length as a `size_t`.
pub record Slice : Type 0 where
  pub bytes : Str
  pub len : ℕ

-- `s.data = value.data + k; s.len = value.data + value.len - s.data`
abbrev pub slice : ℕ → Str → Slice
slice k s = record { bytes = drop k s; len = (2 ^ 64 + length s - k) % 2 ^ 64 }

-- A literal without a zero byte is compared in whole exactly where it is a prefix.
pub strncmp-prefix :
    (lit rest : Str) → All (λ b. b ≢ 0) lit → strncmp (lit ++ rest) lit (length lit) ≡ true
unfolding strncmp
strncmp-prefix [] rest h = refl
strncmp-prefix (x ∷ xs) rest (h, hs) = ground (arith, strncmp-prefix xs rest hs)

pub strncmp-eq :
    (s lit : Str)
    → All (λ b. b ≢ 0) lit
    → strncmp s lit (length lit) ≡ true
    → s ≡ lit ++ drop (length lit) s
unfolding strncmp
strncmp-eq s [] h e = refl
strncmp-eq [] (y ∷ ys) (h, hs) e = absurd (h ((==_iff y 0).0 e))
strncmp-eq (x ∷ xs) (y ∷ ys) (h, hs) e = elim (Bool-cases (x == y)) [
  | inr k ↦ cc
  | inl k ↦ elim (Bool-cases (x == 0)) [
    | inl z ↦ absurd (h (ground arith))
    | inr z ↦
        let same : x ≡ y = (==_iff x y).0 k in
        let rest : strncmp xs ys (length ys) ≡ true = rw (k, z) at e in
        let tail = strncmp-eq xs ys hs rest in cc
  ]
]

split_code : codes "split" ≡ b's' ∷ b'p' ∷ b'l' ∷ b'i' ∷ b't' ∷ []
split_code = refl
