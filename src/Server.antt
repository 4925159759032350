-- ===== src/Server.antt =====
-- src/ngx_statshouse.c, the server: the buffer that statistics are serialised into, the datagram
-- socket that it is flushed to, the flush timer and the way of a statistic through the aggregate.
-- What the operating system and nginx answer is an argument: the answers to each attempt to flush, by
-- the number of the attempt. What was sent is the list of the datagrams.
pub mod Refinement
pub mod Buffering
pub mod Flags
pub mod Delivery
mod Tests
use nginx_statshouse_module.Base.{
  ℕ, suc, ◌+◌, ◌-◌, ◌%◌, ◌^◌, List, [], ◌∷◌, ◌++◌, Bool, true, false, ◌&&◌, ◌||◌, not, Option, none,
  some, ltb, ◌==◌, if◌then◌else◌, length,
}
use nginx_statshouse_module.Buf.{Buf, buf_size, reset}
use nginx_statshouse_module.Nginx.{Rc, ngx_ok, ngx_error, ngx_declined, Event, add_timer}
use nginx_statshouse_module.Stat.{Stat}
use nginx_statshouse_module.Tl.{tl_metrics_len, tl_metrics}
use nginx_statshouse_module.Aggregate.{Platform, Aggregate, aggregate, aggregate_init}

-- What `ngx_send` does with the bytes: it delivers them, returns `NGX_AGAIN`, which is -2, or returns
-- `NGX_ERROR`, which is -1.
pub data SendResult : Type 0 where
  delivered again failed : SendResult

-- What the outside answers to one attempt to flush: whether the configured name has an address,
-- whether `ngx_socket`, `ngx_get_connection` and `ngx_nonblocking` succeed, whether `connect` does, or
-- fails with `NGX_EINPROGRESS` or `NGX_EAGAIN`, and what `ngx_send` does.
pub record Reply : Type 0 where
  pub has_address : Bool
  pub socket_made : Bool
  pub connection_got : Bool
  pub nonblocking_set : Bool
  pub connect_ok : Bool
  pub connect_in_progress : Bool
  pub send_result : SendResult

-- `ngx_statshouse_server_t`, with the number of the attempts to flush and the datagrams that were
-- sent; `connection` says whether it is not `NULL`, and `timer_ready` whether the handler of
-- `flush_event` is set.
pub record Server : Type 0 where
  pub connection : Bool
  pub buffer : Buf
  pub buffer_size : ℕ
  pub aggregate_size : ℕ
  pub aggregate_values : ℕ
  pub timer_ready : Bool
  pub flush_after_request : Bool
  pub flush : ℕ
  pub flush_event : Event
  pub attempts : ℕ
  pub sent : List (List ℕ)

-- `ngx_statshouse_timer_init`
unfoldable pub timer_init : Server → Server
timer_init server = if server.timer_ready then server else record server { timer_ready = true }

-- what the allocations of `ngx_statshouse_server_init` give, in their order
pub record Grants : Type 0 where
  pub buffer_granted : Bool
  pub splits_granted : Bool
  pub aggregate_granted : Bool
  pub arena_granted : Bool

unfoldable pub init_aggregate : Grants → Aggregate → Server → Rc × Server × Option Aggregate
init_aggregate g zeroed server =
    let configured = record zeroed { interval = server.flush; values = server.aggregate_values } in
    let (rc, a) = aggregate_init configured server.aggregate_size g.arena_granted in
    elim rc [
      | ngx_ok ↦ (ngx_ok, timer_init server, some a)
      | ngx_error ↦ (ngx_error, server, some a)
      | ngx_declined ↦ (ngx_error, server, some a)
    ]

-- `ngx_statshouse_server_init`; `zeroed` is the aggregate that `ngx_pcalloc` gives
unfoldable pub server_init : Grants → Aggregate → Server → Rc × Server × Option Aggregate
server_init g zeroed server =
    if not g.buffer_granted
    then (ngx_error, server, none)
    else let buffered = record server {
      buffer = record { bytes = []; room = server.buffer_size };
    } in
      if not g.splits_granted
      then (ngx_error, buffered, none)
      else if buffered.aggregate_size == 0
      then (ngx_ok, timer_init buffered, none)
      else if not g.aggregate_granted
      then (ngx_error, buffered, none)
      else init_aggregate g zeroed buffered

-- `ngx_statshouse_server_buffer_left`: `(size_t) (end - last)`
unfoldable pub buffer_left : Server → ℕ
buffer_left server = (2 ^ 64 + server.buffer.room - length server.buffer.bytes) % 2 ^ 64

-- `ngx_statshouse_disconnect`
unfoldable pub disconnect : Server → Server
disconnect server = if server.connection then record server { connection = false } else server

-- `ngx_statshouse_read_handler`, with the connection's flags `close` and `error` and whether its
-- `data` is set
unfoldable pub read_handler : Server → Bool → Bool → Bool → Server
read_handler server close error has_data =
    if close || error then (if has_data then disconnect server else server) else server

-- `ngx_statshouse_connect`. `ngx_get_connection` is stored in `server->connection` at once.
unfoldable pub connect : Reply → Server → Rc × Server
connect r server =
    if server.connection
    then (ngx_ok, server)
    else if not r.has_address
    then (ngx_error, server)
    else if not r.socket_made
    then (ngx_error, server)
    else if not r.connection_got
    then (ngx_error, record server { connection = false })
    else let made = record server { connection = true } in
      if not r.nonblocking_set
      then (ngx_error, disconnect made)
      else if not r.connect_ok && not r.connect_in_progress
      then (ngx_error, disconnect made)
      else (ngx_ok, made)

-- `ngx_statshouse_timer`
unfoldable pub timer : Bool → Server → Server
timer exiting server =
    if server.flush == 0 || server.flush_event.timer_set
    then server
    else if buf_size server.buffer == 0
    then server
    else if exiting
    then server
    else record server { flush_event = add_timer server.flush_event server.flush }

-- what follows an `ngx_send` that did not return -1
unfoldable pub sent_off : Bool → Server → Rc × Server
sent_off exiting server =
    let kept = if exiting then disconnect server else server in
    (ngx_ok, record kept { buffer = reset kept.buffer })

-- the call of `ngx_send` and what depends on it; only -1 is an error
unfoldable pub transmit_to : SendResult → Bool → Server → Rc × Server
transmit_to delivered exiting server =
    sent_off exiting (record server { sent = server.sent ++ (server.buffer.bytes ∷ []) })
transmit_to again exiting server = sent_off exiting server
transmit_to failed exiting server = (ngx_error, disconnect server)

-- the body of the loop in `ngx_statshouse_flush`, which `retries_max = 1` runs at most once
unfoldable pub transmit : Reply → Bool → Rc → Server → Rc × Server
transmit r exiting ngx_ok server = transmit_to r.send_result exiting server
transmit r exiting ngx_error server = (ngx_error, server)
transmit r exiting ngx_declined server = (ngx_declined, server)

-- `net` is what the outside answers to each attempt, and `exiting` is `ngx_terminate || ngx_exiting`.
module _ (net : ℕ → Reply) (exiting : Bool) where
  -- `ngx_statshouse_flush`
  unfoldable pub server_flush : Server → Rc × Server
  server_flush server =
      if buf_size server.buffer == 0
      then (ngx_declined, server)
      else let r = net server.attempts in
        let (rc, connected) = connect r (record server { attempts = server.attempts + 1 }) in
        transmit r exiting rc connected

  -- `ngx_statshouse_flush_after_request`
  unfoldable pub server_flush_after_request : Server → Rc × Server
  server_flush_after_request server =
      if server.flush_after_request then server_flush server else (ngx_declined, server)

  -- `ngx_statshouse_timer_handler`
  unfoldable pub timer_handler : Server → Server
  timer_handler server = timer exiting (server_flush server).1

  unfoldable pub append_stat : Server → Stat → Rc × Server
  append_stat server stat =
      (ngx_ok, timer exiting (record server { buffer = tl_metrics server.buffer (stat ∷ []) 1 }))

  -- the second test for room, after the flush
  unfoldable pub append_or_decline : Server → Stat → Rc × Server
  append_or_decline server stat =
      if ltb (buffer_left server) (tl_metrics_len (stat ∷ []) 1)
      then (ngx_declined, server)
      else append_stat server stat

  -- `ngx_statshouse_send_to_buffer`
  unfoldable pub send_to_buffer : Server → Stat → Rc × Server
  send_to_buffer server stat =
      if ltb (buffer_left server) (tl_metrics_len (stat ∷ []) 1)
      then append_or_decline (server_flush server).1 stat
      else append_stat server stat

  -- `ngx_statshouse_aggregate_handler`: `NULL` asks for a flush.
  unfoldable pub aggregate_handler : Option Stat → Server → Rc × Server
  aggregate_handler none server = server_flush server
  aggregate_handler (some stat) server = send_to_buffer server stat

  unfoldable pub after_aggregate : Stat → Rc × Aggregate × Server → Rc × Option Aggregate × Server
  after_aggregate stat (ngx_ok, a, server) = (ngx_ok, some a, server)
  after_aggregate stat (ngx_error, a, server) = (ngx_error, some a, server)
  after_aggregate stat (ngx_declined, a, server) =
      let (rc, server') = send_to_buffer server stat in (rc, some a, server')

  -- `ngx_statshouse_send`, with the aggregate (if the server has one) and `ngx_current_msec`
  unfoldable pub send :
      Platform → ℕ → Option Aggregate → Server → Stat → Rc × Option Aggregate × Server
  send platform now none server stat =
      let (rc, server') = send_to_buffer server stat in (rc, none, server')
  send platform now (some a) server stat =
      after_aggregate stat (aggregate platform (aggregate_handler) a server stat now exiting)
