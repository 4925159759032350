-- ===== src/Tl/Strings.antt =====
-- A receiver of the integers and the strings that src/ngx_statshouse_tl.c writes.
use nginx_statshouse_module.Base.{
  ℕ, zero, suc, ◌+◌, ◌-◌, ◌/◌, ◌%◌, ◌^◌, ◌<◌, ◌≡◌, refl, ap, List, [], ◌∷◌, ◌++◌, length,
  append_assoc, take, replicate, length-take, arith, leb, Bool-cases, true, inl, inr, if◌then◌else◌,
  some,
}
use nginx_statshouse_module.Stat.{Str}
use nginx_statshouse_module.Tl.{le_bytes, string_padding}
use nginx_statshouse_module.Tl.Encoding.{string_bytes}
use nginx_statshouse_module.Tl.Wire.{read_int, read_exact, read_text, read_big, read_string}
use native.Mathlib.Nat.{pow-suc}

div-lt-pow : (n x : ℕ) → x < 256 ^ suc n → x / 256 < 256 ^ n
div-lt-pow n x h = omega (arith, pow-suc 256 n)

pub read_int-le_bytes :
    (n x : ℕ) (rest : List ℕ) → x < 256 ^ n → read_int n (le_bytes n x ++ rest) ≡ some (x, rest)
unfolding read_int
read_int-le_bytes zero x rest h = ap (λ y. some (y, rest)) (omega arith)
read_int-le_bytes (suc n) x rest h =
    rw (read_int-le_bytes n (x / 256) rest (div-lt-pow n x h))
      (ap (λ y. some (y, rest)) (omega arith))

read_exact-append :
    (n : ℕ) (s rest : List ℕ) → n ≡ length s → read_exact n (s ++ rest) ≡ some (s, rest)
unfolding read_exact
read_exact-append zero [] rest e = refl
read_exact-append zero (b ∷ s) rest e = absurd (omega arith)
read_exact-append (suc n) [] rest e = absurd (omega arith)
read_exact-append (suc n) (b ∷ s) rest e = rw (read_exact-append n s rest (omega arith))

-- A receiver's padding is the serialiser's.
padding_lem :
    (str : Str)
    → string_padding str ≡ (4 - ((if leb (length str) 253 then 1 else 4) + length str) % 4) % 4
unfolding string_padding
padding_lem str = ground arith

read_text-padded :
    (head : ℕ) (str rest : List ℕ) (pad : ℕ)
    → pad ≡ (4 - (head + length str) % 4) % 4
    → read_text head (length str) (str ++ (take pad (replicate 4 0) ++ rest)) ≡ some (str, rest)
unfolding read_text
read_text-padded head str rest pad e = rw (read_exact-append (length str) str _ refl) (
    rw (
      read_exact-append ((4 - (head + length str) % 4) % 4) (take pad (replicate 4 0)) rest
        (omega (arith, length-take {A = ℕ} pad (replicate 4 0)))))

big_header :
    (len : ℕ) (rest : List ℕ)
    → (len % 256) ∷ (len / 256 % 256) ∷ (len / 65536 % 256) ∷ rest ≡ le_bytes 3 len ++ rest
big_header len rest = ap (λ b. (len % 256) ∷ (len / 256 % 256) ∷ b ∷ rest) (omega arith)

read_big-padded :
    (str rest : List ℕ) (pad : ℕ)
    → length str < 2 ^ 24
    → pad ≡ (4 - (4 + length str) % 4) % 4
    → read_big (
        (length str % 256)
        ∷ (length str / 256 % 256)
        ∷ (length str / 65536 % 256)
        ∷ (str ++ (take pad (replicate 4 0) ++ rest)))
      ≡ some (str, rest)
unfolding read_big
read_big-padded str rest pad h e =
    rw (big_header, read_int-le_bytes 3 (length str) _ h) (read_text-padded 4 str rest pad e)

-- A receiver reads back every string whose length fits the three length bytes.
pub read_string-string_bytes :
    (str rest : List ℕ)
    → length str < 2 ^ 24
    → read_string (string_bytes str ++ rest) ≡ some (str, rest)
unfolding read_string string_bytes
read_string-string_bytes str rest h =
    rw (append_assoc, append_assoc)
      (elim (Bool-cases (leb (length str) 253)) [
        | inl tiny ↦
            rw tiny
              (rw (byte tiny, tiny) (read_text-padded 1 str rest _ (rw tiny at (padding_lem str))))
        | inr big ↦
            rw big (read_big-padded str rest (string_padding str) h (rw big at (padding_lem str)))
      ])
  where
    byte : leb (length str) 253 ≡ true → length str % 256 ≡ length str
    byte h = ground arith
