-- ===== src/Tl/RoundTrip.antt =====
-- The serialiser of src/ngx_statshouse_tl.c, and a receiver of what it wrote.
use nginx_statshouse_module.Base.{
  ℕ, zero, suc, ◌-◌, ◌*◌, ◌^◌, ◌≤◌, ◌<◌, ◌≡◌, refl, ap, sym, ◌∙◌, List, [], ◌∷◌, ◌++◌, length,
  append-nil, append_assoc, take, drop, length-drop, All, get_or, arith, some,
}
use nginx_statshouse_module.Stat.{StatType, mt_counter, mt_value, mt_unique, Stat, StatKey}
use nginx_statshouse_module.Tl.{le_bytes, field_mask, tl_metrics}
use nginx_statshouse_module.Tl.Encoding.{
  keys_bytes, slots_bytes, values_bytes, metric_bytes, metrics_bytes, packet_bytes,
  tl_metrics-bytes,
}
use nginx_statshouse_module.Tl.Length.{HasSlots, length-slots_bytes}
use nginx_statshouse_module.Tl.Wire.{
  read_int, read_keys, read_slots, read_values, type_of_mask, read_metric, read_metrics,
  read_packet, Metric, wire_values, wire,
}
use nginx_statshouse_module.Tl.Strings.{read_int-le_bytes, read_string-string_bytes}

-- what every string of the statistic, its counts and its values satisfy where they fit the format
pub record KeyFits (k : StatKey) : Type 0 where
  pub name_fits : length k.name < 2 ^ 24
  pub value_fits : length k.value < 2 ^ 24

abbrev pub ValueFits : ℕ → Type 0
ValueFits v = v < 2 ^ 64

pub record Fits (s : Stat) : Type 0 where
  pub slots : HasSlots s
  pub name_fits : length s.name < 2 ^ 24
  pub keys_fit : All KeyFits (take s.keys_count s.keys)
  pub values_fit : All ValueFits (take s.values_count s.values)
  pub keys_count_fits : s.keys_count < 2 ^ 32
  pub values_count_fits : s.values_count < 2 ^ 32
  pub has_value : 1 ≤ s.values_count

read_keys-keys_bytes :
    (ks : List StatKey) (n : ℕ) (rest : List ℕ)
    → All KeyFits (take n ks)
    → n ≤ length ks
    → read_keys n (keys_bytes ks n ++ rest) ≡ some (take n ks, rest)
unfolding read_keys keys_bytes
read_keys-keys_bytes [] zero rest h e = refl
read_keys-keys_bytes (k ∷ ks) zero rest h e = refl
read_keys-keys_bytes [] (suc n) rest h e = absurd (omega arith)
read_keys-keys_bytes (k ∷ ks) (suc n) rest (hk, hks) e =
    rw (append_assoc, read_string-string_bytes k.name _ hk.name_fits)
      (rw (append_assoc, read_string-string_bytes k.value _ hk.value_fits)
        (rw (read_keys-keys_bytes ks n rest hks (omega arith))))

read_slots-slots_bytes :
    (vs : List ℕ) (n : ℕ) (rest : List ℕ)
    → All ValueFits (take n vs)
    → n ≤ length vs
    → read_slots n (slots_bytes vs n ++ rest) ≡ some (take n vs, rest)
unfolding read_slots slots_bytes
read_slots-slots_bytes [] zero rest h e = refl
read_slots-slots_bytes (v ∷ vs) zero rest h e = refl
read_slots-slots_bytes [] (suc n) rest h e = absurd (omega arith)
read_slots-slots_bytes (v ∷ vs) (suc n) rest (hv, hvs) e =
    rw (append_assoc, read_int-le_bytes 8 v _ hv)
      (rw (read_slots-slots_bytes vs n rest hvs (omega arith)))

-- A `unique` announces one value, however many follow: the others stay unread.
abbrev pub unread : StatType → ℕ → List ℕ → List ℕ
unread mt_counter n vs = []
unread mt_value n vs = []
unread mt_unique n vs = slots_bytes (drop 1 vs) (n - 1)

abbrev pub announced : StatType → ℕ → List ℕ → List ℕ
announced mt_counter n vs = take 1 vs
announced mt_value n vs = take n vs
announced mt_unique n vs = take 1 vs

read_first_slot :
    (vs : List ℕ) (n : ℕ) (rest : List ℕ)
    → All ValueFits (take n vs)
    → n ≤ length vs
    → 1 ≤ n
    → read_slots 1 (le_bytes 8 (get_or vs 0 0) ++ rest) ≡ some (take 1 vs, rest)
unfolding read_slots
read_first_slot [] n rest fits h one = absurd (omega arith)
read_first_slot (v ∷ vs) zero rest fits h one = absurd (omega arith)
read_first_slot (v ∷ vs) (suc n) rest (fits, _) h one = rw (read_int-le_bytes 8 v rest fits)

first_slot :
    (vs : List ℕ) (n : ℕ)
    → n ≤ length vs
    → 1 ≤ n
    → slots_bytes vs n ≡ le_bytes 8 (get_or vs 0 0) ++ slots_bytes (drop 1 vs) (n - 1)
unfolding slots_bytes
first_slot [] n h one = absurd (omega arith)
first_slot (v ∷ vs) zero h one = absurd (omega arith)
first_slot (v ∷ vs) (suc n) h one = ap (λ k. le_bytes 8 v ++ slots_bytes vs k) (omega arith)

module _ (n : ℕ) (vs rest : List ℕ) (fits : All ValueFits (take n vs)) (few : n < 2 ^ 32) where
  read_values-values_bytes :
      (t : StatType)
      → n ≤ length vs
      → 1 ≤ n
      → read_values t (values_bytes t n vs ++ rest) ≡ some (announced t n vs, unread t n vs ++ rest)
  unfolding read_values values_bytes
  read_values-values_bytes mt_counter h one = read_first_slot vs n rest fits h one
  read_values-values_bytes mt_value h one =
      rw (append_assoc, read_int-le_bytes 4 n _ few) (read_slots-slots_bytes vs n rest fits h)
  read_values-values_bytes mt_unique h one =
      rw (append_assoc, read_int-le_bytes 4 1 _ (omega arith))
        (rw (first_slot vs n h one) (read_first_slot vs n _ fits h one))

type_of_mask-field_mask : (t : StatType) → type_of_mask (field_mask t) ≡ some t
unfolding type_of_mask
type_of_mask-field_mask mt_counter = refl
type_of_mask-field_mask mt_value = refl
type_of_mask-field_mask mt_unique = refl

mask-fits : (t : StatType) → field_mask t < 256 ^ 4
mask-fits mt_counter = omega arith
mask-fits mt_value = omega arith
mask-fits mt_unique = omega arith

-- A receiver gets every metric as it is, but of a `unique` the first value alone, and then goes on
-- with the bytes of the other values as if they were the next metric.
pub read_metric-metric_bytes :
    (s : Stat) (rest : List ℕ)
    → Fits s
    → read_metric (metric_bytes s ++ rest)
      ≡ some (
        record (wire s) { values = announced s.type s.values_count s.values },
        unread s.type s.values_count s.values ++ rest,
      )
unfolding read_metric metric_bytes
read_metric-metric_bytes s rest f =
    rw (append_assoc, read_int-le_bytes 4 (field_mask s.type) _ (mask-fits s.type))
      (rw
        (
          type_of_mask-field_mask s.type,
          append_assoc,
          read_string-string_bytes s.name _ f.name_fits,
        )
        (rw (append_assoc, read_int-le_bytes 4 s.keys_count _ f.keys_count_fits)
          (rw (append_assoc, read_keys-keys_bytes s.keys s.keys_count _ f.keys_fit f.slots.keys_in)
            (rw (
              read_values-values_bytes s.values_count s.values rest f.values_fit f.values_count_fits
                s.type f.slots.values_in f.has_value)))))

abbrev received : Stat → Metric
received s = record (wire s) { values = announced s.type s.values_count s.values }

read_packet-tl_metrics :
    (room : ℕ) (s : Stat)
    → Fits s
    → read_packet (tl_metrics (record { bytes = []; room = room }) (s ∷ []) 1).bytes
      ≡ some (received s ∷ [], unread s.type s.values_count s.values)
unfolding read_packet read_metrics packet_bytes metrics_bytes read_int
read_packet-tl_metrics room s f =
    rw (tl_metrics-bytes, read_metric-metric_bytes s [] f) (rw append-nil)

-- A statistic of which the format announces every value.
abbrev pub IsWhole : Stat → Type 0
IsWhole s = (s.type ≡ mt_unique) → s.values_count ≡ 1

slots_bytes-zero : (vs : List ℕ) → slots_bytes vs 0 ≡ []
unfolding slots_bytes
slots_bytes-zero [] = refl
slots_bytes-zero (v ∷ vs) = refl

announced-wire_values :
    (t : StatType) (n : ℕ) (vs : List ℕ)
    → n ≤ length vs
    → 1 ≤ n
    → (t ≡ mt_unique → n ≡ 1)
    → (announced t n vs ≡ wire_values t n vs) × (unread t n vs ≡ [])
unfolding slots_bytes
announced-wire_values t zero vs h one w = absurd (omega arith)
announced-wire_values t (suc n) [] h one w = absurd (omega arith)
announced-wire_values mt_counter (suc n) (v ∷ vs) h one w = (refl, refl)
announced-wire_values mt_value (suc n) (v ∷ vs) h one w = (refl, refl)
announced-wire_values mt_unique (suc n) (v ∷ vs) h one w =
    let n_zero : n ≡ 0 = omega (arith, w refl) in rw n_zero (refl, slots_bytes-zero vs)

-- A receiver of the packet of one statistic reads that statistic and has nothing left over, if
-- the statistic has the slots it counts and at least one value, its strings are shorter than 2^24
-- bytes, its counts less than 2^32, its values less than 2^64, and, if it is a `unique`, it has
-- exactly one value.
pub packet_round_trip :
    (room : ℕ) (s : Stat)
    → Fits s
    → IsWhole s
    → read_packet (tl_metrics (record { bytes = []; room = room }) (s ∷ []) 1).bytes
      ≡ some (wire s ∷ [], [])
packet_round_trip room s f w =
    let (same, none_left) =
      announced-wire_values s.type s.values_count s.values f.slots.values_in f.has_value w in
    rw (read_packet-tl_metrics room s f, none_left, same)

All-tail :
    (vs : List ℕ) (n : ℕ) → All ValueFits (take n vs) → All ValueFits (take (n - 1) (drop 1 vs))
All-tail [] zero h = tt
All-tail [] (suc n) h = none_fit (suc n - 1)
  where
    none_fit : (m : ℕ) → All ValueFits (take m [])
    none_fit zero = tt
    none_fit (suc m) = tt
All-tail (v ∷ vs) zero h = tt
All-tail (v ∷ vs) (suc n) h = let pred : suc n - 1 ≡ n = omega arith in rw pred h.1

-- A receiver of the packet of one `unique` that has the slots it counts and at least one value,
-- whose strings are shorter than 2^24 bytes, whose counts are less than 2^32 and whose values are
-- less than 2^64, reads it with its first value alone, and has the eight bytes of each other
-- value left over: read as values, they are the others in their order.
pub unique_values_unread :
    (room : ℕ) (s : Stat)
    → Fits s
    → s.type ≡ mt_unique
    → (rest : List ℕ) × ((read_packet
            (tl_metrics (record { bytes = []; room = room }) (s ∷ []) 1).bytes
          ≡ some (record (wire s) { values = take 1 s.values } ∷ [], rest))
        × (length rest ≡ 8 * (s.values_count - 1))
        × (read_slots (s.values_count - 1) rest
            ≡ some (take (s.values_count - 1) (drop 1 s.values), [])))
unique_values_unread room s f u =
    let others_in : s.values_count - 1 ≤ length (drop 1 s.values) =
      omega (arith, length-drop 1 s.values, f.slots.values_in) in
    let others = slots_bytes (drop 1 s.values) (s.values_count - 1) in
    (
      others,
      (
        rw (read_packet-tl_metrics room s f) (
            ap
              (λ t. some (
                record (wire s) { values = announced t s.values_count s.values } ∷ [],
                unread t s.values_count s.values,
              ))
              u),
        length-slots_bytes (drop 1 s.values) (s.values_count - 1) others_in,
        ap (read_slots (s.values_count - 1)) (sym (append-nil others))
            ∙ read_slots-slots_bytes (drop 1 s.values) (s.values_count - 1) []
                (All-tail s.values s.values_count f.values_fit) others_in,
      ),
    )
