-- ===== src/Server/Tests.antt =====
-- Concrete runs of the server, and the theorems at concrete inputs.
use nginx_statshouse_module.Base.{
  ℕ, ◌≡◌, ◌≢◌, ◌≤◌, length, ◌⊎◌, refl, [], ◌∷◌, ◌++◌, true, false, arith,
}
use nginx_statshouse_module.Nginx.{ngx_ok, ngx_declined}
use nginx_statshouse_module.Stat.{Stat, mt_counter}
use nginx_statshouse_module.Server.{Server, Reply, delivered, server_flush, send_to_buffer}
use nginx_statshouse_module.Server.Refinement.{
  Holds, Flushed, Steady, Attempt, server_flush-Attempt, packet, server_flush-Flushed,
}
use nginx_statshouse_module.Server.Delivery.{Delivers, Carries, send_to_buffer-Carries}
use nginx_statshouse_module.Server.Buffering.{Sendable, send_to_buffer-Holds}
use nginx_statshouse_module.Tl.Encoding.{
  packet_bytes, metrics_bytes, metric_bytes, string_bytes, keys_bytes, values_bytes,
}
use nginx_statshouse_module.Tl.{string_padding}

abbrev good : Reply
good = record {
  has_address = true;
  socket_made = true;
  connection_got = true;
  nonblocking_set = true;
  connect_ok = true;
  connect_in_progress = false;
  send_result = delivered;
}

abbrev good_net : ℕ → Reply
good_net n = good

good_net-Steady : Steady good_net
good_net-Steady n = λ e. cc

abbrev hits : Stat
hits = record {
  type = mt_counter;
  name = b'h' ∷ [];
  keys = [];
  keys_count = 0;
  values_count = 1;
  values = 3 ∷ [];
}

hits-Sendable : Sendable hits
unfolding packet_bytes metrics_bytes metric_bytes string_bytes keys_bytes values_bytes
    string_padding
hits-Sendable = omega arith

-- a server whose buffer of 40 bytes holds one packet of 32
abbrev idle : Server
idle = record {
  connection = false;
  buffer = record { bytes = packet hits ++ []; room = 40 };
  buffer_size = 40;
  aggregate_size = 0;
  aggregate_values = 24;
  timer_ready = true;
  flush_after_request = false;
  flush = 1000;
  flush_event = record { timer_set = false; delay = 0; posted = false };
  attempts = 0;
  sent = [];
}

idle-Holds : Holds idle (hits ∷ []) []
unfolding packet_bytes metrics_bytes metric_bytes string_bytes keys_bytes values_bytes
    string_padding
idle-Holds = record {
  pending = refl;
  datagrams = refl;
  no_overrun = omega arith;
  room_fits = omega arith;
}

send_to_buffer-Holds_example :
    let (rc, s') = send_to_buffer good_net false idle hits in
    ((rc ≡ ngx_ok) × (Holds s' (hits ∷ hits ∷ []) [] ⊎ Holds s' (hits ∷ []) ((hits ∷ []) ∷ [])))
    ⊎ ((rc ≡ ngx_declined) × (Holds s' (hits ∷ []) [] ⊎ Holds s' [] ((hits ∷ []) ∷ [])))
send_to_buffer-Holds_example =
    send_to_buffer-Holds good_net false hits hits-Sendable idle (hits ∷ []) [] good_net-Steady
      idle-Holds

server_flush-Flushed_example :
    Flushed (server_flush good_net false idle).0 (server_flush good_net false idle).1 (hits ∷ []) []
server_flush-Flushed_example =
    server_flush-Flushed good_net false good_net-Steady idle (hits ∷ []) [] idle-Holds

server_flush-Attempt_example :
    ((idle.buffer.bytes ≡ []) × (server_flush good_net false idle ≡ (ngx_declined, idle)))
    ⊎ ((idle.buffer.bytes ≢ [])
        × Attempt delivered idle
            (server_flush good_net false idle).0
            (server_flush good_net false idle).1)
server_flush-Attempt_example = server_flush-Attempt good_net false idle

good-Delivers : Delivers good
good-Delivers = record {
  address = refl;
  socket = refl;
  connection = refl;
  nonblocking = refl;
  connected = refl;
  sends = refl;
}

idle-Carries : Carries idle 40 (hits ∷ [])
idle-Carries = record {
  waiting = hits ∷ [];
  out = [];
  holds = idle-Holds;
  order = refl;
  same_room = refl;
}

hits-fits : length (packet hits) ≤ 40
unfolding packet_bytes metrics_bytes metric_bytes string_bytes keys_bytes values_bytes
    string_padding
hits-fits = omega arith

send_to_buffer-Carries_example :
    ((send_to_buffer good_net false idle hits).0 ≡ ngx_ok)
    × Carries (send_to_buffer good_net false idle hits).1 40 (hits ∷ hits ∷ [])
send_to_buffer-Carries_example =
    send_to_buffer-Carries good_net false (λ n. good-Delivers) hits hits-Sendable idle 40
      (hits ∷ []) idle-Carries hits-fits
