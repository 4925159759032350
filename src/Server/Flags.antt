-- ===== src/Server/Flags.antt =====
-- What the way of a statistic through the server of src/ngx_statshouse.c leaves alone.
use nginx_statshouse_module.Base.{
  ℕ, ◌≡◌, refl, ◌∙◌, Bool, Bool-cases, inl, inr, arith, length, ◌==◌,
}
use nginx_statshouse_module.Nginx.{Rc, ngx_ok, ngx_error, ngx_declined}
use nginx_statshouse_module.Stat.{Stat}
use nginx_statshouse_module.Server.{
  Server, Reply, SendResult, delivered, again, failed, connect, disconnect, sent_off, timer,
  transmit, transmit_to, append_stat, append_or_decline, send_to_buffer, server_flush,
  server_flush_after_request,
}

connect_flag :
    (r : Reply) (s : Server) → (connect r s).1.flush_after_request ≡ s.flush_after_request
unfolding connect disconnect
connect_flag r s = ground arith

transmit_flag :
    (r : Reply) (exiting : Bool) (rc : Rc) (s : Server)
    → (transmit r exiting rc s).1.flush_after_request ≡ s.flush_after_request
unfolding transmit transmit_to sent_off disconnect
transmit_flag r exiting ngx_ok s = by_result r.send_result
  where
    by_result :
        (t : SendResult) → (transmit_to t exiting s).1.flush_after_request ≡ s.flush_after_request
    by_result delivered = ground arith
    by_result again = ground arith
    by_result failed = ground arith
transmit_flag r exiting ngx_error s = refl
transmit_flag r exiting ngx_declined s = refl

module _ (net : ℕ → Reply) (exiting : Bool) where
  flush_flag :
      (s : Server) → (server_flush net exiting s).1.flush_after_request ≡ s.flush_after_request
  unfolding server_flush
  flush_flag s = elim (Bool-cases (length s.buffer.bytes == 0)) [
    | inl e ↦ rw e refl
    | inr e ↦ rw e (transmit_flag _ exiting _ _ ∙ connect_flag (net s.attempts) _)
  ]

  append_flag :
      (s : Server) (stat : Stat)
      → (append_stat net exiting s stat).1.flush_after_request ≡ s.flush_after_request
  unfolding append_stat timer
  append_flag s stat = ground arith

  append_or_decline_flag :
      (s : Server) (stat : Stat)
      → (append_or_decline net exiting s stat).1.flush_after_request ≡ s.flush_after_request
  unfolding append_or_decline
  append_or_decline_flag s stat = ground (arith, append_flag s stat)

  pub send_flag :
      (s : Server) (stat : Stat)
      → (send_to_buffer net exiting s stat).1.flush_after_request ≡ s.flush_after_request
  unfolding send_to_buffer
  send_flag s stat = ground (
    arith,
    append_flag s stat,
    append_or_decline_flag (server_flush net exiting s).1 stat,
    flush_flag s,
  )

  pub after_request_flag :
      (s : Server)
      → (server_flush_after_request net exiting s).1.flush_after_request ≡ s.flush_after_request
  unfolding server_flush_after_request
  after_request_flag s = ground (arith, flush_flag s)
