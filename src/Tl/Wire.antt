-- ===== src/Tl/Wire.antt =====
-- The wire format as a receiver reads it: a parser for the serialised metrics, written from the
-- format and not from the serialiser. It is the specification that `Tl.RoundTrip` is about.
use nginx_statshouse_module.Base.{
  ℕ, zero, suc, ◌+◌, ◌-◌, ◌*◌, ◌%◌, ◌&&◌, List, [], ◌∷◌, ◌==◌, leb, if◌then◌else◌, Option, none,
  some, get_or, take,
}
use nginx_statshouse_module.Stat.{Str, StatType, mt_counter, mt_value, mt_unique, Stat, StatKey}

infixl 5 ◌>>=◌
abbrev pub ◌>>=◌ {ℓ κ} : {A : Type ℓ} {B : Type κ} → Option A → (A → Option B) → Option B
none >>= f = none
some a >>= f = f a

-- A reader takes the bytes at hand and gives its result with the bytes that follow.
abbrev pub Reader : Type 0 → Type 0
Reader A = List ℕ → Option (A × List ℕ)

unfoldable pub read_int : ℕ → Reader ℕ
read_int zero bs = some (0, bs)
read_int (suc n) [] = none
read_int (suc n) (b ∷ bs) = do (v, rest) ← read_int n bs; some (b + 256 * v, rest)

unfoldable pub read_exact : ℕ → Reader (List ℕ)
read_exact zero bs = some ([], bs)
read_exact (suc n) [] = none
read_exact (suc n) (b ∷ bs) = do (s, rest) ← read_exact n bs; some (b ∷ s, rest)

-- the text and its padding up to the next word; `head` bytes stand before the text
unfoldable pub read_text : ℕ → ℕ → Reader Str
read_text head len bs = do
  (s, rest) ← read_exact len bs
  (_, more) ← read_exact ((4 - (head + len) % 4) % 4) rest
  some (s, more)

unfoldable pub read_big : Reader Str
read_big bs = do (len, rest) ← read_int 3 bs; read_text 4 len rest

unfoldable pub read_string : Reader Str
read_string [] = none
read_string (b ∷ bs) =
    if leb b 253 then read_text 1 b bs else if b == 254 then read_big bs else none

unfoldable pub read_keys : ℕ → Reader (List StatKey)
read_keys zero bs = some ([], bs)
read_keys (suc n) bs = do
  (name, bs₁) ← read_string bs
  (value, bs₂) ← read_string bs₁
  (ks, bs₃) ← read_keys n bs₂
  some (record { name = name; value = value } ∷ ks, bs₃)

unfoldable pub read_slots : ℕ → Reader (List ℕ)
read_slots zero bs = some ([], bs)
read_slots (suc n) bs = do
  (v, rest) ← read_int 8 bs
  (vs, more) ← read_slots n rest
  some (v ∷ vs, more)

-- What the field mask announces: a counter, or a counted list of values.
unfoldable pub read_values : StatType → Reader (List ℕ)
read_values mt_counter bs = read_slots 1 bs
read_values mt_value bs = do (n, rest) ← read_int 4 bs; read_slots n rest
read_values mt_unique bs = do (n, rest) ← read_int 4 bs; read_slots n rest

unfoldable pub type_of_mask : ℕ → Option StatType
type_of_mask m =
    if m == 1
    then some mt_counter
    else if m == 2
    then some mt_value
    else if m == 4
    then some mt_unique
    else none

-- A metric on the wire.
pub record Metric : Type 0 where
  pub type : StatType
  pub name : Str
  pub keys : List StatKey
  pub values : List ℕ

unfoldable pub read_metric : Reader Metric
read_metric bs = do
  (mask, bs₁) ← read_int 4 bs
  type ← type_of_mask mask
  (name, bs₂) ← read_string bs₁
  (n, bs₃) ← read_int 4 bs₂
  (keys, bs₄) ← read_keys n bs₃
  (values, bs₅) ← read_values type bs₄
  some (record { type = type; name = name; keys = keys; values = values }, bs₅)

-- A packet is the tag, an empty field mask and a counted list of metrics.
unfoldable pub read_metrics : ℕ → Reader (List Metric)
read_metrics zero bs = some ([], bs)
read_metrics (suc n) bs = do
  (m, rest) ← read_metric bs
  (ms, more) ← read_metrics n rest
  some (m ∷ ms, more)

unfoldable pub read_packet : Reader (List Metric)
read_packet bs = do
  (tag, bs₁) ← read_int 4 bs
  (mask, bs₂) ← read_int 4 bs₁
  (n, bs₃) ← read_int 4 bs₂
  if tag == 0x5658_0239 && mask == 0 then read_metrics n bs₃ else none

-- What a statistic means on the wire.
abbrev pub wire_values : StatType → ℕ → List ℕ → List ℕ
wire_values mt_counter n vs = get_or vs 0 0 ∷ []
wire_values mt_value n vs = take n vs
wire_values mt_unique n vs = take n vs

abbrev pub wire : Stat → Metric
wire s = record {
  type = s.type;
  name = s.name;
  keys = take s.keys_count s.keys;
  values = wire_values s.type s.values_count s.values;
}
