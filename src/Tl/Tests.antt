-- ===== src/Tl/Tests.antt =====
-- Concrete packets, and the theorems at concrete inputs.
use nginx_statshouse_module.Base.{
  ℕ, ◌+◌, ◌*◌, ◌-◌, ◌%◌, ◌^◌, ◌≡◌, refl, List, [], ◌∷◌, length, take, some, arith,
}
use nginx_statshouse_module.Buf.{Buf}
use nginx_statshouse_module.Stat.{Stat, StatKey, mt_counter, mt_unique}
use nginx_statshouse_module.Tl.{
  tl_string, tl_keys, tl_values, metric_values, tl_metric, metrics_loop, string_padding, tl_metrics,
  tl_metrics_len, metrics_len_loop, metric_len, keys_len, string_len,
}
use nginx_statshouse_module.Tl.Length.{tl_metrics-length, tl_metric-aligned}
use nginx_statshouse_module.Tl.Wire.{read_packet, read_slots, wire}
use nginx_statshouse_module.Tl.RoundTrip.{Fits, packet_round_trip, unique_values_unread}

-- "ab" with the key "1" of value "x"
abbrev key_one : StatKey
key_one = record { name = b'1' ∷ []; value = b'x' ∷ [] }

abbrev counter_stat : Stat
counter_stat = record {
  type = mt_counter;
  name = b'a' ∷ b'b' ∷ [];
  keys = key_one ∷ [];
  keys_count = 1;
  values_count = 1;
  values = 7 ∷ [];
}

abbrev unique_stat : Stat
unique_stat = record counter_stat { type = mt_unique; values_count = 2; values = 7 ∷ 8 ∷ 0 ∷ [] }

abbrev empty_buf : Buf
empty_buf = record { bytes = []; room = 4096 }

counter_packet :
    (tl_metrics empty_buf (counter_stat ∷ []) 1).bytes
    ≡ 0x39 ∷ 0x02 ∷ 0x58 ∷ 0x56 ∷ 0 ∷ 0 ∷ 0 ∷ 0 ∷ 1 ∷ 0 ∷ 0 ∷ 0 ∷ 1 ∷ 0 ∷ 0 ∷ 0 ∷ 2 ∷ b'a' ∷ b'b'
      ∷ 0 ∷ 1 ∷ 0 ∷ 0 ∷ 0 ∷ 1 ∷ b'1' ∷ 0 ∷ 0 ∷ 1 ∷ b'x' ∷ 0 ∷ 0 ∷ 7 ∷ 0 ∷ 0 ∷ 0 ∷ 0 ∷ 0 ∷ 0 ∷ 0 ∷ []
unfolding tl_string tl_keys tl_values metric_values tl_metric metrics_loop string_padding tl_metrics
counter_packet = refl

counter_packet_len : tl_metrics_len (counter_stat ∷ []) 1 ≡ 40
unfolding tl_metrics_len metrics_len_loop metric_len keys_len string_len string_padding
counter_packet_len = refl

counter_stat-Fits : Fits counter_stat
counter_stat-Fits = omega arith

unique_stat-Fits : Fits unique_stat
unique_stat-Fits = omega arith

tl_metrics-length_example :
    (length (tl_metrics empty_buf (counter_stat ∷ []) 1).bytes % 2 ^ 64
      ≡ (length empty_buf.bytes + tl_metrics_len (counter_stat ∷ []) 1) % 2 ^ 64)
    × (take 0 (tl_metrics empty_buf (counter_stat ∷ []) 1).bytes ≡ [])
    × ((tl_metrics empty_buf (counter_stat ∷ []) 1).room ≡ 4096)
tl_metrics-length_example = tl_metrics-length empty_buf (counter_stat ∷ []) 1 (omega arith)

tl_metric-aligned_example : length (tl_metric empty_buf unique_stat).bytes % 4 ≡ 0
tl_metric-aligned_example = tl_metric-aligned empty_buf unique_stat (omega arith)

packet_round_trip_example :
    read_packet (tl_metrics empty_buf (counter_stat ∷ []) 1).bytes
    ≡ some (wire counter_stat ∷ [], [])
packet_round_trip_example = packet_round_trip 4096 counter_stat counter_stat-Fits (λ e. refl)

unique_values_unread_example :
    (rest : List ℕ) × ((read_packet (tl_metrics empty_buf (unique_stat ∷ []) 1).bytes
        ≡ some (record (wire unique_stat) { values = 7 ∷ [] } ∷ [], rest))
      × (length rest ≡ 8 * (2 - 1))
      × (read_slots (2 - 1) rest ≡ some (8 ∷ [], [])))
unique_values_unread_example = unique_values_unread 4096 unique_stat unique_stat-Fits refl
