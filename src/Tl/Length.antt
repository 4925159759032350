-- ===== src/Tl/Length.antt =====
-- The lengths that src/ngx_statshouse_tl.c computes before it writes, beside what it writes.
use nginx_statshouse_module.Base.{
  ℕ, zero, suc, ◌+◌, ◌*◌, ◌/◌, ◌%◌, ◌^◌, ◌≤◌, ◌<◌, ◌≡◌, refl, ◌∙◌, List, [], ◌∷◌, length,
  length-append, take, take-append_length, All, length-take, arith,
}
use nginx_statshouse_module.Buf.{Buf, add_size}
use nginx_statshouse_module.Stat.{Str, StatType, mt_counter, mt_value, mt_unique, Stat, StatKey}
use nginx_statshouse_module.Tl.{
  le_bytes, string_padding, string_len, string_header, keys_len, values_len, metric_len,
  metrics_len_loop, tl_metrics_len, tl_metrics, tl_metric,
}
use nginx_statshouse_module.Tl.Encoding.{
  string_bytes, keys_bytes, slots_bytes, values_bytes, metric_bytes, metrics_bytes, packet_bytes,
  tl_metrics-bytes, tl_metric-bytes,
}

pub length-le_bytes : (n x : ℕ) → length (le_bytes n x) ≡ n
length-le_bytes zero x = refl
length-le_bytes (suc n) x = omega (arith, length-le_bytes n (x / 256))

padding-lt : (str : Str) → string_padding str < 4
unfolding string_padding
padding-lt str = ground arith

-- header, text and padding
length-string_bytes_parts :
    (str : Str)
    → length (string_bytes str)
      ≡ length (string_header (length str)) + (length str + string_padding str)
unfolding string_bytes
length-string_bytes_parts str =
    rw (length-append, length-append, length-take) (omega (arith, padding-lt str))

-- A string fills whole words.
pub string_bytes-aligned : (str : Str) → length (string_bytes str) % 4 ≡ 0
string_bytes-aligned str = rw length-string_bytes_parts (unfold string_padding in ground arith)

pub string_len_lem : (str : Str) → string_len str ≡ length (string_bytes str) % 2 ^ 64
unfolding string_len
string_len_lem str = rw length-string_bytes_parts (ground arith)

keys_len_lem :
    (ks : List StatKey) (n len : ℕ)
    → keys_len ks n (len % 2 ^ 64) ≡ (len + length (keys_bytes ks n)) % 2 ^ 64
unfolding keys_len keys_bytes
keys_len_lem [] n len = omega arith
keys_len_lem (k ∷ ks) zero len = omega arith
keys_len_lem (k ∷ ks) (suc n) len = rw sum (
    keys_len_lem ks n (len + (length (string_bytes k.name) + length (string_bytes k.value)))
    ∙ rw (length-append, length-append) (omega arith))
  where
    sum :
        add_size (add_size (len % 2 ^ 64) (string_len k.name)) (string_len k.value)
        ≡ (len + (length (string_bytes k.name) + length (string_bytes k.value))) % 2 ^ 64
    sum = omega (arith, string_len_lem k.name, string_len_lem k.value)

pub length-slots_bytes : (vs : List ℕ) (n : ℕ) → n ≤ length vs → length (slots_bytes vs n) ≡ 8 * n
unfolding slots_bytes
length-slots_bytes [] n h = omega arith
length-slots_bytes (v ∷ vs) zero h = omega arith
length-slots_bytes (v ∷ vs) (suc n) h =
    rw (length-append, length-le_bytes) (omega (arith, length-slots_bytes vs n (omega arith)))

-- The slots that a statistic counts as used are slots that it has.
pub record HasSlots (s : Stat) : Type 0 where
  pub keys_in : s.keys_count ≤ length s.keys
  pub values_in : s.values_count ≤ length s.values

values_len_lem :
    (t : StatType) (n len : ℕ) (vs : List ℕ)
    → n ≤ length vs
    → values_len t n (len % 2 ^ 64) ≡ (len + length (values_bytes t n vs)) % 2 ^ 64
unfolding values_bytes
values_len_lem mt_counter n len vs h = omega arith
values_len_lem mt_value n len vs h = omega (arith, length-slots_bytes vs n h)
values_len_lem mt_unique n len vs h = omega (arith, length-slots_bytes vs n h)

length-metric_bytes :
    (s : Stat)
    → length (metric_bytes s)
      ≡ 8
        + length (string_bytes s.name)
        + length (keys_bytes s.keys s.keys_count)
        + length (values_bytes s.type s.values_count s.values)
unfolding metric_bytes
length-metric_bytes s = simp length-append (omega arith)

pub metric_len_lem : (s : Stat) → HasSlots s → metric_len s ≡ length (metric_bytes s) % 2 ^ 64
unfolding metric_len
metric_len_lem s h =
    rw (head, keys_len_lem s.keys s.keys_count head_len)
      (values_len_lem s.type s.values_count _ s.values h.values_in
        ∙ omega (arith, length-metric_bytes s))
  where
    head_len : ℕ
    head_len = 8 + length (string_bytes s.name)

    head : add_size (add_size 4 (string_len s.name)) 4 ≡ head_len % 2 ^ 64
    head = omega (arith, string_len_lem s.name)

metrics_len_loop_lem :
    (ss : List Stat) (n len : ℕ)
    → All HasSlots ss
    → metrics_len_loop ss n (len % 2 ^ 64) ≡ (len + length (metrics_bytes ss n)) % 2 ^ 64
unfolding metrics_len_loop metrics_bytes
metrics_len_loop_lem [] n len h = omega arith
metrics_len_loop_lem (s ∷ ss) zero len h = omega arith
metrics_len_loop_lem (s ∷ ss) (suc n) len (hs, hss) =
    rw sum (
      metrics_len_loop_lem ss n (len + length (metric_bytes s)) hss
      ∙ rw length-append (omega arith))
  where
    sum : add_size (len % 2 ^ 64) (metric_len s) ≡ (len + length (metric_bytes s)) % 2 ^ 64
    sum = omega (arith, metric_len_lem s hs)

-- The computed length of a packet is, as a `size_t`, the length of the packet's encoding.
pub tl_metrics_len_lem :
    (ss : List Stat) (n : ℕ)
    → All HasSlots ss
    → tl_metrics_len ss n ≡ length (packet_bytes ss n) % 2 ^ 64
unfolding tl_metrics_len packet_bytes
tl_metrics_len_lem ss n h =
    metrics_len_loop_lem ss n 12 h ∙ simp (length-append, length-le_bytes) (omega arith)

-- If every statistic has the slots it counts, `tl_metrics` advances the buffer by exactly the
-- bytes that `tl_metrics_len` announces (modulo 2^64, as a `size_t`), and leaves the bytes before
-- them and the room as they were.
pub tl_metrics-length :
    (buf : Buf) (ss : List Stat) (n : ℕ)
    → All HasSlots ss
    → ((length (tl_metrics buf ss n).bytes) % 2 ^ 64
        ≡ (length buf.bytes + tl_metrics_len ss n) % 2 ^ 64)
      × (take (length buf.bytes) (tl_metrics buf ss n).bytes ≡ buf.bytes)
      × ((tl_metrics buf ss n).room ≡ buf.room)
tl_metrics-length buf ss n h = rw tl_metrics-bytes (
  rw (length-append, tl_metrics_len_lem ss n h) (omega arith),
  take-append_length buf.bytes _,
  refl,
)

keys_bytes-aligned : (ks : List StatKey) (n : ℕ) → length (keys_bytes ks n) % 4 ≡ 0
unfolding keys_bytes
keys_bytes-aligned [] n = refl
keys_bytes-aligned (k ∷ ks) zero = refl
keys_bytes-aligned (k ∷ ks) (suc n) =
    rw (length-append, length-append)
      (omega
        (arith, string_bytes-aligned k.name, string_bytes-aligned k.value, keys_bytes-aligned ks n))

values_bytes-aligned :
    (t : StatType) (n : ℕ) (vs : List ℕ) → n ≤ length vs → length (values_bytes t n vs) % 4 ≡ 0
unfolding values_bytes
values_bytes-aligned mt_counter n vs h = refl
values_bytes-aligned mt_value n vs h = omega (arith, length-slots_bytes vs n h)
values_bytes-aligned mt_unique n vs h = omega (arith, length-slots_bytes vs n h)

-- If a statistic has the slots it counts, its metric advances the buffer by whole 32-bit words.
pub tl_metric-aligned :
    (buf : Buf) (s : Stat) → HasSlots s → length (tl_metric buf s).bytes % 4 ≡ length buf.bytes % 4
tl_metric-aligned buf s h =
    rw (tl_metric-bytes, length-append, length-metric_bytes)
      (omega (
        arith,
        string_bytes-aligned s.name,
        keys_bytes-aligned s.keys s.keys_count,
        values_bytes-aligned s.type s.values_count s.values h.values_in,
      ))
