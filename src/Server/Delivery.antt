-- ===== src/Server/Delivery.antt =====
-- `ngx_statshouse_send_to_buffer` over a network that delivers: every statistic that fits into an empty
-- buffer.
use nginx_statshouse_module.Base.{
  ℕ, ◌+◌, ◌≤◌, ◌≡◌, ◌≢◌, refl, sym, ap, ◌∙◌, inl, inr, List, [], ◌∷◌, ◌++◌, append-nil,
  append_assoc, Bool, true, false, Bool-cases, ltb, ◌==◌, if◌then◌else◌, length, arith,
}
use nginx_statshouse_module.Buf.{buf_size}
use nginx_statshouse_module.Nginx.{Rc, ngx_ok, ngx_error, ngx_declined}
use nginx_statshouse_module.Stat.{Stat}
use nginx_statshouse_module.Tl.{tl_metrics_len, tl_metrics}
use nginx_statshouse_module.Tl.Encoding.{tl_metrics-bytes}
use nginx_statshouse_module.Server.{
  Server, Reply, SendResult, delivered, buffer_left, connect, disconnect, sent_off, transmit,
  transmit_to, append_stat, append_or_decline, send_to_buffer, server_flush,
  server_flush_after_request,
}
use nginx_statshouse_module.Server.Refinement.{
  packet, Holds, Steady, Attempt, server_flush-Attempt, server_flush-Flushed,
}
use nginx_statshouse_module.Server.Buffering.{
  Sendable, size_lem, buffer_left_lem, timer_lem, append_stat-Holds,
}

-- An attempt to flush that succeeds in every step.
pub record Delivers (r : Reply) : Type 0 where
  pub address : r.has_address ≡ true
  pub socket : r.socket_made ≡ true
  pub connection : r.connection_got ≡ true
  pub nonblocking : r.nonblocking_set ≡ true
  pub connected : r.connect_ok ≡ true
  pub sends : r.send_result ≡ delivered

abbrev pub Delivering : (ℕ → Reply) → Type 0
Delivering net = (n : ℕ) → Delivers (net n)

Delivering-Steady : (net : ℕ → Reply) → Delivering net → Steady net
Delivering-Steady net h n e = let d = (h n).sends in cc

-- all statistics of some datagrams
abbrev pub concat : List (List Stat) → List Stat
concat [] = []
concat (d ∷ ds) = d ++ concat ds

pub concat-one_more :
    (ds : List (List Stat)) (d : List Stat) → concat (ds ++ (d ∷ [])) ≡ concat ds ++ d
concat-one_more [] d = append-nil d
concat-one_more (e ∷ ds) d =
    ap (λ l. e ++ l) (concat-one_more ds d) ∙ sym (append_assoc e (concat ds) d)

-- The server has accepted these statistics, in this order: the front part was sent, and the others wait.
pub record Carries (s : Server) (room : ℕ) (all : List Stat) : Type 0 where
  pub waiting : List Stat
  pub out : List (List Stat)
  pub holds : Holds s waiting out
  pub order : concat out ++ waiting ≡ all
  pub same_room : s.buffer.room ≡ room

connect_ok : (r : Reply) (s : Server) → Delivers r → (connect r s).0 ≡ ngx_ok
unfolding connect disconnect
connect_ok r s h = rw (h.address, h.socket, h.connection, h.nonblocking, h.connected) (ground arith)

module _ (net : ℕ → Reply) (exiting : Bool) (h : Delivering net) where
  flush_delivers :
      (s : Server) → (buf_size s.buffer == 0) ≡ false → (server_flush net exiting s).0 ≡ ngx_ok
  unfolding server_flush transmit transmit_to sent_off
  flush_delivers s e =
      rw
        (
          e,
          connect_ok (net s.attempts) (record s { attempts = s.attempts + 1 }) (h s.attempts),
          (h s.attempts).sends,
        )
        refl

  flush_room : (s : Server) → (server_flush net exiting s).1.buffer.room ≡ s.buffer.room
  flush_room s = elim (server_flush-Attempt net exiting s) [
    | inl (_, e) ↦ rw e refl
    | inr (_, attempt) ↦ go _ _ _ attempt
  ]
    where
      go :
          (r : SendResult) (rc : Rc) (s' : Server)
          → Attempt r s rc s'
          → s'.buffer.room ≡ s.buffer.room
      go r ngx_ok s' (inl (_, d)) = ap (λ b. b.room) d.emptied
      go r ngx_ok s' (inr (_, d)) = ap (λ b. b.room) d.emptied
      go r ngx_error s' k = ap (λ b. b.room) k.same_buffer
      go r ngx_declined s' k = absurd k

  module _ (stat : Stat) (ok : Sendable stat) where
    append_stat-Carries :
        (s : Server) (room : ℕ) (w : List Stat) (out : List (List Stat))
        → Holds s w out
        → s.buffer.room ≡ room
        → ltb (buffer_left s) (tl_metrics_len (stat ∷ []) 1) ≡ false
        → ((append_stat net exiting s stat).0 ≡ ngx_ok)
          × Carries (append_stat net exiting s stat).1 room (concat out ++ (w ++ (stat ∷ [])))
    unfolding append_stat
    append_stat-Carries s room w out holds same fits =
        let (rc, holds') = append_stat-Holds net exiting stat ok s w out holds fits in
        (
          rc,
          record {
            waiting = w ++ (stat ∷ []);
            out = out;
            holds = holds';
            order = refl;
            same_room =
                ap (λ b. b.room)
                  ((timer_lem exiting appended).0 ∙ tl_metrics-bytes s.buffer (stat ∷ []) 1)
                ∙ same;
          },
        )
      where
        appended : Server
        appended = record s { buffer = tl_metrics s.buffer (stat ∷ []) 1 }

    -- An empty buffer has room for a packet that is no longer than the whole buffer.
    empty_fits :
        (s : Server) (out : List (List Stat))
        → Holds s [] out
        → length (packet stat) ≤ s.buffer.room
        → ltb (buffer_left s) (tl_metrics_len (stat ∷ []) 1) ≡ false
    empty_fits s out holds fits =
        let none_waits : length s.buffer.bytes ≡ 0 = ap (λ l. length l) holds.pending in
        let left = buffer_left_lem s [] out holds in let size = size_lem stat ok in ground arith

    append_or_decline-Carries :
        (s : Server) (room : ℕ) (w : List Stat) (out : List (List Stat))
        → Holds s w out
        → s.buffer.room ≡ room
        → ltb (buffer_left s) (tl_metrics_len (stat ∷ []) 1) ≡ false
        → ((append_or_decline net exiting s stat).0 ≡ ngx_ok)
          × Carries (append_or_decline net exiting s stat).1 room (concat out ++ (w ++ (stat ∷ [])))
    unfolding append_or_decline
    append_or_decline-Carries s room w out holds same fits =
        rw fits (append_stat-Carries s room w out holds same fits)

    -- A full buffer is not empty.
    full_buffer :
        (s : Server) (w : List Stat) (out : List (List Stat))
        → Holds s w out
        → length (packet stat) ≤ s.buffer.room
        → ltb (buffer_left s) (tl_metrics_len (stat ∷ []) 1) ≡ true
        → (buf_size s.buffer == 0) ≡ false
    full_buffer s w out holds fits full =
        let left = buffer_left_lem s w out holds in let size = size_lem stat ok in ground arith

    after_flush :
        (s : Server) (room : ℕ) (w : List Stat) (out : List (List Stat))
        → Holds s w out
        → s.buffer.room ≡ room
        → length (packet stat) ≤ room
        → (buf_size s.buffer == 0) ≡ false
        → let (rc, s') = append_or_decline net exiting (server_flush net exiting s).1 stat in
          (rc ≡ ngx_ok) × Carries s' room ((concat out ++ w) ++ (stat ∷ []))
    after_flush s room w out holds same fits busy =
        elim (server_flush-Flushed net exiting (Delivering-Steady net h) s w out holds).outcome [
          | inl (ne, _) ↦ absurd (ne (flush_delivers s busy))
          | inr (_, gone) ↦
              let room' = flush_room s ∙ same in
              let (rc, done) =
                append_or_decline-Carries _ room [] (out ++ (w ∷ [])) gone room'
                  (empty_fits _ _ gone (rw room' fits)) in
              (rc, rw (← concat-one_more out w) done)
        ]

    -- A server that has accepted some statistics, over a network on which every attempt to flush
    -- succeeds, answers NGX_OK to one more that has the slots it counts and whose packet is no
    -- longer than the buffer, and has then accepted it behind the others: what was sent and what
    -- waits are these statistics, in this order.
    pub send_to_buffer-Carries :
        (s : Server) (room : ℕ) (all : List Stat)
        → Carries s room all
        → length (packet stat) ≤ room
        → ((send_to_buffer net exiting s stat).0 ≡ ngx_ok)
          × Carries (send_to_buffer net exiting s stat).1 room (all ++ (stat ∷ []))
    unfolding send_to_buffer
    send_to_buffer-Carries s room all c fits =
        rw (← c.order) (elim (Bool-cases (ltb (buffer_left s) (tl_metrics_len (stat ∷ []) 1))) [
          | inr fit ↦
              rw (fit, append_assoc (concat c.out) c.waiting (stat ∷ []))
                (append_stat-Carries s room c.waiting c.out c.holds c.same_room fit)
          | inl full ↦ rw full (
              after_flush s room c.waiting c.out c.holds c.same_room fits
                (full_buffer s c.waiting c.out c.holds (rw c.same_room fits) full))
        ])

  flush-Carries :
      (s : Server) (room : ℕ) (all : List Stat)
      → Carries s room all
      → Carries (server_flush net exiting s).1 room all
        × ((server_flush net exiting s).1.buffer.bytes ≡ [])
  flush-Carries s room all c = elim (server_flush-Attempt net exiting s) [
    | inl (empty, e) ↦ rw e (c, empty)
    | inr (busy, _) ↦
        elim (server_flush-Flushed net exiting (Delivering-Steady net h) s c.waiting c.out
          c.holds).outcome [
            | inl (ne, _) ↦ absurd (ne (flush_delivers s (not_empty s.buffer.bytes busy)))
            | inr (_, gone) ↦ (
              record {
                waiting = [];
                out = c.out ++ (c.waiting ∷ []);
                holds = gone;
                order = append-nil _ ∙ concat-one_more c.out c.waiting ∙ c.order;
                same_room = flush_room s ∙ c.same_room;
              },
              gone.pending,
            )
          ]
  ]
    where
      not_empty : (l : List ℕ) → l ≢ [] → (length l == 0) ≡ false
      not_empty [] ne = absurd (ne refl)
      not_empty (x ∷ l) ne = ground arith

  -- After the flush that ends a request, nothing waits if the server is to flush then.
  pub flush_after_request-Carries :
      (s : Server) (room : ℕ) (all : List Stat)
      → Carries s room all
      → Carries (server_flush_after_request net exiting s).1 room all
        × (s.flush_after_request ≡ true
            → (server_flush_after_request net exiting s).1.buffer.bytes ≡ [])
  flush_after_request-Carries s room all c = elim (Bool-cases s.flush_after_request) [
    | inl on ↦
        let (carries, empty) = flush-Carries s room all c in
        rw (chosen true on) (carries, λ e. empty)
    | inr off ↦ rw (chosen false off) (c, λ on. cc)
  ]
    where
      chosen :
          (b : Bool)
          → s.flush_after_request ≡ b
          → server_flush_after_request net exiting s
            ≡ (if b then server_flush net exiting s else (ngx_declined, s))
      chosen b e =
          unfold server_flush_after_request in
          (ap (λ b. if b then server_flush net exiting s else (ngx_declined, s)) e)
