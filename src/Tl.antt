-- ===== src/Tl.antt =====
-- src/ngx_statshouse_tl.c: the serialiser of statistics into the TL wire format. Memory is
-- little-endian, so `ngx_cpymem` of an integer writes its low byte first.
pub mod Encoding
pub mod Length
pub mod Wire
pub mod Strings
pub mod RoundTrip
mod Tests
use nginx_statshouse_module.Base.{
  ℕ, zero, suc, ◌+◌, ◌*◌, ◌/◌, ◌%◌, List, [], ◌∷◌, leb, ltb, if◌then◌else◌, length, take, replicate,
  get_or,
}
use nginx_statshouse_module.Buf.{Buf, add_size, neg_size, cpymem}
use nginx_statshouse_module.Stat.{Str, StatType, mt_counter, mt_value, mt_unique, Stat, StatKey}

abbrev pub tiny_string_len : ℕ
tiny_string_len = 253

abbrev pub big_string_marker : ℕ
big_string_marker = 0xfe

abbrev pub tl_tag : ℕ
tl_tag = 0x5658_0239

-- the low `n` bytes of an integer in memory
abbrev pub le_bytes : ℕ → ℕ → List ℕ
le_bytes zero x = []
le_bytes (suc n) x = (x % 256) ∷ le_bytes n (x / 256)

unfoldable pub string_padding : Str → ℕ
string_padding str =
    if leb (length str) tiny_string_len
    then neg_size (add_size (length str) 1) % 4
    else neg_size (length str) % 4

unfoldable pub string_len : Str → ℕ
string_len str =
    add_size (add_size (if leb (length str) tiny_string_len then 1 else 4) (length str))
      (string_padding str)

-- the length byte, or the marker and three length bytes
abbrev pub string_header : ℕ → List ℕ
string_header len =
    if leb len tiny_string_len
    then (len % 256) ∷ []
    else big_string_marker ∷ (len % 256) ∷ (len / 256 % 256) ∷ (len / 65536 % 256) ∷ []

-- `padding` is a static array of four zeros.
unfoldable pub tl_string : Buf → Str → Buf
tl_string buf str =
    let written = cpymem (cpymem buf (string_header (length str))) str in
    let padding_len = string_padding str in
    if ltb 0 padding_len then cpymem written (take padding_len (replicate 4 0)) else written

abbrev pub tl_int32 : Buf → ℕ → Buf
tl_int32 buf n = cpymem buf (le_bytes 4 n)

abbrev pub tl_uint32 : Buf → ℕ → Buf
tl_uint32 buf n = cpymem buf (le_bytes 4 n)

abbrev pub tl_int64 : Buf → ℕ → Buf
tl_int64 buf n = cpymem buf (le_bytes 8 n)

abbrev pub tl_double : Buf → ℕ → Buf
tl_double buf n = cpymem buf (le_bytes 8 n)

abbrev pub tl_int32_len : ℕ
tl_int32_len = 4

abbrev pub tl_uint32_len : ℕ
tl_uint32_len = 4

abbrev pub tl_int64_len : ℕ
tl_int64_len = 8

abbrev pub tl_double_len : ℕ
tl_double_len = 8

-- `for (i = 0; i < keys_count; i++)` over the slots of the keys
unfoldable pub keys_len : List StatKey → ℕ → ℕ → ℕ
keys_len [] n len = len
keys_len (k ∷ ks) zero len = len
keys_len (k ∷ ks) (suc n) len =
    keys_len ks n (add_size (add_size len (string_len k.name)) (string_len k.value))

abbrev pub values_len : StatType → ℕ → ℕ → ℕ
values_len mt_counter n len = add_size len tl_double_len
values_len mt_value n len = add_size (add_size len tl_uint32_len) (tl_double_len * n)
values_len mt_unique n len = add_size (add_size len tl_uint32_len) (tl_int64_len * n)

unfoldable pub metric_len : Stat → ℕ
metric_len stat = values_len stat.type stat.values_count (
    keys_len stat.keys stat.keys_count
      (add_size (add_size tl_int32_len (string_len stat.name)) tl_uint32_len))

unfoldable pub tl_keys : Buf → List StatKey → ℕ → Buf
tl_keys buf [] n = buf
tl_keys buf (k ∷ ks) zero = buf
tl_keys buf (k ∷ ks) (suc n) = tl_keys (tl_string (tl_string buf k.name) k.value) ks n

-- `for (i = 0; i < values_count; i++)` over the slots of the values
unfoldable pub tl_values : Buf → List ℕ → ℕ → Buf
tl_values buf [] n = buf
tl_values buf (v ∷ vs) zero = buf
tl_values buf (v ∷ vs) (suc n) = tl_values (tl_double buf v) vs n

abbrev pub field_mask : StatType → ℕ
field_mask mt_counter = 1
field_mask mt_value = 2
field_mask mt_unique = 4

-- The three cases of the second `switch`. The count that precedes the values of a `unique` is the
-- literal 1.
unfoldable pub metric_values : Buf → StatType → ℕ → List ℕ → Buf
metric_values buf mt_counter n vs = tl_double buf (get_or vs 0 0)
metric_values buf mt_value n vs = tl_values (tl_uint32 buf n) vs n
metric_values buf mt_unique n vs = tl_values (tl_uint32 buf 1) vs n

unfoldable pub tl_metric : Buf → Stat → Buf
tl_metric buf stat =
    metric_values
      (tl_keys
        (tl_uint32 (tl_string (tl_int32 buf (field_mask stat.type)) stat.name) stat.keys_count)
        stat.keys stat.keys_count)
      stat.type stat.values_count stat.values

-- `for (i = 0; i < count; i++)` over an array of statistics
unfoldable pub metrics_len_loop : List Stat → ℕ → ℕ → ℕ
metrics_len_loop [] n len = len
metrics_len_loop (s ∷ ss) zero len = len
metrics_len_loop (s ∷ ss) (suc n) len = metrics_len_loop ss n (add_size len (metric_len s))

unfoldable pub tl_metrics_len : List Stat → ℕ → ℕ
tl_metrics_len stats count =
    metrics_len_loop stats count (add_size (add_size tl_uint32_len tl_uint32_len) tl_uint32_len)

unfoldable pub metrics_loop : Buf → List Stat → ℕ → Buf
metrics_loop buf [] n = buf
metrics_loop buf (s ∷ ss) zero = buf
metrics_loop buf (s ∷ ss) (suc n) = metrics_loop (tl_metric buf s) ss n

unfoldable pub tl_metrics : Buf → List Stat → ℕ → Buf
tl_metrics buf stats count =
    metrics_loop (tl_uint32 (tl_uint32 (tl_uint32 buf tl_tag) 0) count) stats count
