-- ===== src/Tl/Encoding.antt =====
-- The bytes that the serialiser appends, as plain functions of what it is given.
use nginx_statshouse_module.Base.{
  ℕ, zero, suc, ◌≡◌, refl, ap, ◌∙◌, sym, List, [], ◌∷◌, ◌++◌, length, take, replicate, get_or,
  append-nil, append_assoc, arith, ltb, if◌then◌else◌,
}
use nginx_statshouse_module.Buf.{Buf, cpymem}
use nginx_statshouse_module.Stat.{Str, StatType, mt_counter, mt_value, mt_unique, Stat, StatKey}
use nginx_statshouse_module.Tl.{
  le_bytes, string_padding, string_header, tl_string, tl_keys, tl_values, field_mask, metric_values,
  tl_metric, metrics_loop, tl_metrics, tl_tag,
}

unfoldable pub string_bytes : Str → List ℕ
string_bytes str = string_header (length str) ++ (str ++ take (string_padding str) (replicate 4 0))

unfoldable pub keys_bytes : List StatKey → ℕ → List ℕ
keys_bytes [] n = []
keys_bytes (k ∷ ks) zero = []
keys_bytes (k ∷ ks) (suc n) = string_bytes k.name ++ (string_bytes k.value ++ keys_bytes ks n)

unfoldable pub slots_bytes : List ℕ → ℕ → List ℕ
slots_bytes [] n = []
slots_bytes (v ∷ vs) zero = []
slots_bytes (v ∷ vs) (suc n) = le_bytes 8 v ++ slots_bytes vs n

unfoldable pub values_bytes : StatType → ℕ → List ℕ → List ℕ
values_bytes mt_counter n vs = le_bytes 8 (get_or vs 0 0)
values_bytes mt_value n vs = le_bytes 4 n ++ slots_bytes vs n
values_bytes mt_unique n vs = le_bytes 4 1 ++ slots_bytes vs n

unfoldable pub metric_bytes : Stat → List ℕ
metric_bytes s =
    le_bytes 4 (field_mask s.type)
    ++ (string_bytes s.name
        ++ (le_bytes 4 s.keys_count
            ++ (keys_bytes s.keys s.keys_count ++ values_bytes s.type s.values_count s.values)))

unfoldable pub metrics_bytes : List Stat → ℕ → List ℕ
metrics_bytes [] n = []
metrics_bytes (s ∷ ss) zero = []
metrics_bytes (s ∷ ss) (suc n) = metric_bytes s ++ metrics_bytes ss n

unfoldable pub packet_bytes : List Stat → ℕ → List ℕ
packet_bytes ss n = le_bytes 4 tl_tag ++ (le_bytes 4 0 ++ (le_bytes 4 n ++ metrics_bytes ss n))

cpymem-nil : (buf : Buf) → cpymem buf [] ≡ buf
cpymem-nil buf = ap (λ bs. record buf { bytes = bs }) (append-nil buf.bytes)

cpymem-cpymem : (buf : Buf) (bs cs : List ℕ) → cpymem (cpymem buf bs) cs ≡ cpymem buf (bs ++ cs)
cpymem-cpymem buf bs cs = ap (λ ds. record buf { bytes = ds }) (append_assoc buf.bytes bs cs)

-- A copy that is skipped at length 0 copies nothing at length 0.
guarded_copy :
    (buf : Buf) (n : ℕ) (bs : List ℕ)
    → (if ltb 0 n then cpymem buf (take n bs) else buf) ≡ cpymem buf (take n bs)
guarded_copy buf zero bs = sym (cpymem-nil buf)
guarded_copy buf (suc n) bs = ground arith

pub tl_string-bytes : (buf : Buf) (str : Str) → tl_string buf str ≡ cpymem buf (string_bytes str)
unfolding tl_string string_bytes
tl_string-bytes buf str = guarded_copy _ (string_padding str) _ ∙ simp append_assoc

tl_keys-bytes :
    (buf : Buf) (ks : List StatKey) (n : ℕ) → tl_keys buf ks n ≡ cpymem buf (keys_bytes ks n)
unfolding tl_keys keys_bytes
tl_keys-bytes buf [] n = sym (cpymem-nil buf)
tl_keys-bytes buf (k ∷ ks) zero = sym (cpymem-nil buf)
tl_keys-bytes buf (k ∷ ks) (suc n) =
    tl_keys-bytes (tl_string (tl_string buf k.name) k.value) ks n
    ∙ simp (tl_string-bytes, append_assoc)

tl_values-bytes :
    (buf : Buf) (vs : List ℕ) (n : ℕ) → tl_values buf vs n ≡ cpymem buf (slots_bytes vs n)
unfolding tl_values slots_bytes
tl_values-bytes buf [] n = sym (cpymem-nil buf)
tl_values-bytes buf (v ∷ vs) zero = sym (cpymem-nil buf)
tl_values-bytes buf (v ∷ vs) (suc n) =
    tl_values-bytes (cpymem buf (le_bytes 8 v)) vs n ∙ cpymem-cpymem buf (le_bytes 8 v) _

metric_values-bytes :
    (buf : Buf) (t : StatType) (n : ℕ) (vs : List ℕ)
    → metric_values buf t n vs ≡ cpymem buf (values_bytes t n vs)
unfolding metric_values values_bytes
metric_values-bytes buf mt_counter n vs = refl
metric_values-bytes buf mt_value n vs = tl_values-bytes _ vs n ∙ cpymem-cpymem buf (le_bytes 4 n) _
metric_values-bytes buf mt_unique n vs = tl_values-bytes _ vs n ∙ cpymem-cpymem buf (le_bytes 4 1) _

-- One metric appends its encoding.
pub tl_metric-bytes : (buf : Buf) (s : Stat) → tl_metric buf s ≡ cpymem buf (metric_bytes s)
unfolding tl_metric metric_bytes
tl_metric-bytes buf s = simp (metric_values-bytes, tl_keys-bytes, tl_string-bytes, append_assoc)

metrics_loop-bytes :
    (buf : Buf) (ss : List Stat) (n : ℕ) → metrics_loop buf ss n ≡ cpymem buf (metrics_bytes ss n)
unfolding metrics_loop metrics_bytes
metrics_loop-bytes buf [] n = sym (cpymem-nil buf)
metrics_loop-bytes buf (s ∷ ss) zero = sym (cpymem-nil buf)
metrics_loop-bytes buf (s ∷ ss) (suc n) =
    rw tl_metric-bytes
      (metrics_loop-bytes (cpymem buf (metric_bytes s)) ss n ∙ cpymem-cpymem buf (metric_bytes s) _)

-- A packet is appended to what the buffer holds.
pub tl_metrics-bytes :
    (buf : Buf) (ss : List Stat) (n : ℕ) → tl_metrics buf ss n ≡ cpymem buf (packet_bytes ss n)
unfolding tl_metrics packet_bytes
tl_metrics-bytes buf ss n = metrics_loop-bytes _ ss n ∙ simp append_assoc
