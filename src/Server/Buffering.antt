-- ===== src/Server/Buffering.antt =====
-- `ngx_statshouse_send_to_buffer` against the list of the waiting statistics.
use nginx_statshouse_module.Base.{
  ℕ, ◌+◌, ◌^◌, ◌≤◌, ◌<◌, ◌≡◌, refl, sym, ap, ◌∙◌, ◌⊎◌, inl, inr, List, [], ◌∷◌, ◌++◌, Bool, false,
  Bool-cases, ltb, length, length-append, arith,
}
use nginx_statshouse_module.Buf.{cpymem}
use nginx_statshouse_module.Nginx.{ngx_ok, ngx_declined}
use nginx_statshouse_module.Stat.{Stat}
use nginx_statshouse_module.Tl.{tl_metrics_len, tl_metrics}
use nginx_statshouse_module.Tl.Encoding.{tl_metrics-bytes}
use nginx_statshouse_module.Tl.Length.{HasSlots, tl_metrics_len_lem}
use nginx_statshouse_module.Server.{
  Server, Reply, buffer_left, timer, append_stat, append_or_decline, send_to_buffer,
}
use nginx_statshouse_module.Server.Refinement.{
  packet, packets-append, Holds, Steady, server_flush-Flushed,
}

pub timer_lem :
    (exiting : Bool) (s : Server)
    → ((timer exiting s).buffer ≡ s.buffer) × ((timer exiting s).sent ≡ s.sent)
unfolding timer
timer_lem exiting s = ground arith

-- What is left of the room.
pub buffer_left_lem :
    (s : Server) (w : List Stat) (out : List (List Stat))
    → Holds s w out
    → buffer_left s + length s.buffer.bytes ≡ s.buffer.room
unfolding buffer_left
buffer_left_lem s w out h = omega arith

-- A statistic that has the slots it counts, and whose packet is no longer than a `size_t` can say.
pub record Sendable (stat : Stat) : Type 0 where
  pub slots : HasSlots stat
  pub packet_fits : length (packet stat) < 2 ^ 64

pub size_lem : (stat : Stat) → Sendable stat → tl_metrics_len (stat ∷ []) 1 ≡ length (packet stat)
size_lem stat h = omega (arith, tl_metrics_len_lem (stat ∷ []) 1 (h.slots, tt))

ltb-ge : (a b : ℕ) → ltb a b ≡ false → b ≤ a
ltb-ge a b h = ground arith

module _ (net : ℕ → Reply) (exiting : Bool) (stat : Stat) (ok : Sendable stat) where
  pub append_stat-Holds :
      (s : Server) (w : List Stat) (out : List (List Stat))
      → Holds s w out
      → ltb (buffer_left s) (tl_metrics_len (stat ∷ []) 1) ≡ false
      → ((append_stat net exiting s stat).0 ≡ ngx_ok)
        × Holds (append_stat net exiting s stat).1 (w ++ (stat ∷ [])) out
  unfolding append_stat
  append_stat-Holds s w out h room = (
    refl,
    record {
      pending =
          ap (λ b. b.bytes) grown
          ∙ ap (λ l. l ++ packet stat) h.pending
          ∙ sym (packets-append w stat);
      datagrams = (timer_lem exiting appended).1 ∙ h.datagrams;
      no_overrun = rw grown (
          omega (
            arith,
            length-append s.buffer.bytes (packet stat),
            buffer_left_lem s w out h,
            size_lem stat ok,
            ltb-ge _ _ room,
          ));
      room_fits = rw grown h.room_fits;
    },
  )
    where
      appended : Server
      appended = record s { buffer = tl_metrics s.buffer (stat ∷ []) 1 }

      grown : (timer exiting appended).buffer ≡ cpymem s.buffer (packet stat)
      grown = (timer_lem exiting appended).0 ∙ tl_metrics-bytes s.buffer (stat ∷ []) 1

  append_or_decline-Holds :
      (s : Server) (w : List Stat) (out : List (List Stat))
      → Holds s w out
      → let (rc, s') = append_or_decline net exiting s stat in
        ((rc ≡ ngx_ok) × Holds s' (w ++ (stat ∷ [])) out) ⊎ ((rc ≡ ngx_declined) × Holds s' w out)
  unfolding append_or_decline
  append_or_decline-Holds s w out h =
      elim (Bool-cases (ltb (buffer_left s) (tl_metrics_len (stat ∷ []) 1))) [
        | inl full ↦ rw full (inr (refl, h))
        | inr room ↦ rw room (inl (append_stat-Holds s w out h room))
      ]

  -- A server of which it is known which statistics wait in its buffer and which were sent in
  -- which datagrams, whose buffer is not overrun and has room for less than 2^63 bytes, is given
  -- a statistic that has the slots it counts and a packet shorter than 2^64 bytes, over a network
  -- on which no send returns NGX_AGAIN. Then either it answers NGX_OK and the statistic waits
  -- behind those that waited, or waits alone after those were sent as one datagram; or it answers
  -- NGX_DECLINED and those that waited still wait, or were sent as one datagram. In each case the
  -- buffer again is not overrun.
  pub send_to_buffer-Holds :
      (s : Server) (w : List Stat) (out : List (List Stat))
      → Steady net
      → Holds s w out
      → let (rc, s') = send_to_buffer net exiting s stat in
        ((rc ≡ ngx_ok) × (Holds s' (w ++ (stat ∷ [])) out ⊎ Holds s' (stat ∷ []) (out ++ (w ∷ []))))
        ⊎ ((rc ≡ ngx_declined) × (Holds s' w out ⊎ Holds s' [] (out ++ (w ∷ []))))
  unfolding send_to_buffer
  send_to_buffer-Holds s w out steady h =
      elim (Bool-cases (ltb (buffer_left s) (tl_metrics_len (stat ∷ []) 1))) [
        | inr room ↦
            rw room (let (rc, done) = append_stat-Holds s w out h room in inl (rc, inl done))
        | inl full ↦ rw full (elim (server_flush-Flushed net exiting steady s w out h).outcome [
          | inl (_, kept) ↦ elim (append_or_decline-Holds _ w out kept) [
            | inl (rc, done) ↦ inl (rc, inl done)
            | inr (rc, same) ↦ inr (rc, inl same)
          ]
          | inr (_, gone) ↦ elim (append_or_decline-Holds _ [] (out ++ (w ∷ [])) gone) [
            | inl (rc, done) ↦ inl (rc, inr done)
            | inr (rc, same) ↦ inr (rc, inr same)
          ]
        ])
      ]
