-- ===== src/Server/Refinement.antt =====
-- The buffer against what it stands for: the statistics that wait in it, and the datagrams as lists
-- of statistics.
use nginx_statshouse_module.Base.{
  ℕ, ◌+◌, ◌^◌, ◌≤◌, ◌<◌, ◌≡◌, ◌≢◌, refl, sym, ap, ap₂, ◌∙◌, ◌↔◌, ◌⊎◌, inl, inr, List, [], ◌∷◌, ◌++◌,
  map, append-nil, append_assoc, Bool, true, false, Bool-cases, ◌==◌, length, arith,
}
use nginx_statshouse_module.Buf.{buf_size, reset}
use nginx_statshouse_module.Nginx.{Rc, ngx_ok, ngx_error, ngx_declined}
use nginx_statshouse_module.Stat.{Stat}
use nginx_statshouse_module.Tl.Encoding.{packet_bytes}
use nginx_statshouse_module.Server.{
  Server, Reply, SendResult, delivered, again, failed, disconnect, connect, sent_off, transmit_to,
  transmit, server_flush,
}

-- the packet of one statistic, and of several one after the other
abbrev pub packet : Stat → List ℕ
packet s = packet_bytes (s ∷ []) 1

abbrev pub packets : List Stat → List ℕ
packets [] = []
packets (s ∷ ss) = packet s ++ packets ss

-- A server holds the statistics that wait, and has sent datagrams of whole packets; its buffer is
-- not overrun.
pub record Holds (server : Server) (waiting : List Stat) (out : List (List Stat)) : Type 0 where
  pub pending : server.buffer.bytes ≡ packets waiting
  pub datagrams : server.sent ≡ map packets out
  pub no_overrun : length server.buffer.bytes ≤ server.buffer.room
  pub room_fits : server.buffer.room < 2 ^ 63

connect_lem :
    (r : Reply) (server : Server)
    → (connect r server).1 ≡ record server { connection = (connect r server).1.connection }
unfolding connect disconnect
connect_lem r server = ground arith

-- `connect` answers NGX_OK exactly if it leaves the server with a connection, and it never
-- declines.
connect-connection :
    (r : Reply) (server : Server)
    → (((connect r server).0 ≡ ngx_ok) ↔ ((connect r server).1.connection ≡ true))
      × ((connect r server).0 ≢ ngx_declined)
unfolding connect disconnect
connect-connection r server = ground arith

-- What a flush may do to the buffer and the datagrams.
pub record Kept (s s' : Server) : Type 0 where
  pub same_buffer : s'.buffer ≡ s.buffer
  pub same_sent : s'.sent ≡ s.sent

pub record Delivered (s s' : Server) : Type 0 where
  pub emptied : s'.buffer ≡ reset s.buffer
  pub one_more : s'.sent ≡ s.sent ++ (s.buffer.bytes ∷ [])

pub record Lost (s s' : Server) : Type 0 where
  pub emptied : s'.buffer ≡ reset s.buffer
  pub same_sent : s'.sent ≡ s.sent

sent_off_lem :
    (exiting : Bool) (server : Server)
    → ((sent_off exiting server).1.buffer ≡ reset server.buffer)
      × ((sent_off exiting server).1.sent ≡ server.sent)
      × ((sent_off exiting server).0 ≡ ngx_ok)
unfolding sent_off disconnect
sent_off_lem exiting server = ground arith

-- By what the outside answers, an attempt leaves the buffer as it is and answers an error, sends it
-- off whole, or loses it; it never declines.
abbrev pub Attempt : SendResult → Server → Rc → Server → Type 0
Attempt r s ngx_ok s' = ((r ≡ delivered) × Delivered s s') ⊎ ((r ≡ again) × Lost s s')
Attempt r s ngx_error s' = Kept s s'
Attempt r s ngx_declined s' = ⊥

transmit_to-Attempt :
    (r : SendResult) (exiting : Bool) (server : Server)
    → Attempt r server (transmit_to r exiting server).0 (transmit_to r exiting server).1
unfolding transmit_to sent_off disconnect
transmit_to-Attempt delivered exiting server =
    inl (refl, record { emptied = ground arith; one_more = ground arith })
transmit_to-Attempt again exiting server =
    inr (refl, record { emptied = ground arith; same_sent = ground arith })
transmit_to-Attempt failed exiting server = record {
  same_buffer = ground arith;
  same_sent = ground arith;
}

transmit-Attempt :
    (r : Reply) (exiting : Bool) (rc : Rc) (server : Server)
    → rc ≢ ngx_declined
    → Attempt r.send_result server (transmit r exiting rc server).0 (transmit r exiting rc server).1
unfolding transmit
transmit-Attempt r exiting ngx_ok server h = transmit_to-Attempt r.send_result exiting server
transmit-Attempt r exiting ngx_error server h = record { same_buffer = refl; same_sent = refl }
transmit-Attempt r exiting ngx_declined server h = h refl

-- `Attempt` speaks of the buffer and the datagrams alone.
Attempt-from :
    (r : SendResult) (s t s' : Server) (rc : Rc)
    → t.buffer ≡ s.buffer
    → t.sent ≡ s.sent
    → Attempt r t rc s'
    → Attempt r s rc s'
Attempt-from r s t s' ngx_ok b d (inl (e, h)) = inl (
  e,
  record {
    emptied = h.emptied ∙ ap reset b;
    one_more = h.one_more ∙ ap₂ (λ x y. x ++ (y ∷ [])) d (ap (λ z. z.bytes) b);
  },
)
Attempt-from r s t s' ngx_ok b d (inr (e, h)) =
    inr (e, record { emptied = h.emptied ∙ ap reset b; same_sent = h.same_sent ∙ d })
Attempt-from r s t s' ngx_error b d h = record {
  same_buffer = h.same_buffer ∙ b;
  same_sent = h.same_sent ∙ d;
}
Attempt-from r s t s' ngx_declined b d h = h

empty-buffer : (xs : List ℕ) → (length xs == 0) ≡ true → xs ≡ []
empty-buffer [] h = refl
empty-buffer (x ∷ xs) h = absurd (ground arith)

full-buffer : (xs : List ℕ) → (length xs == 0) ≡ false → xs ≢ []
full-buffer xs h e = ground arith

-- A flush of an empty buffer declines and changes nothing. Any other flush answers NGX_OK and has
-- emptied the buffer after the send delivered its bytes as one more datagram, or after the send
-- returned NGX_AGAIN, with nothing sent; or it answers NGX_ERROR and has kept the buffer and sent
-- nothing. It does not decline.
pub server_flush-Attempt :
    (net : ℕ → Reply) (exiting : Bool) (server : Server)
    → ((server.buffer.bytes ≡ []) × (server_flush net exiting server ≡ (ngx_declined, server)))
      ⊎ ((server.buffer.bytes ≢ [])
          × Attempt
              (net server.attempts).send_result
              server
              (server_flush net exiting server).0
              (server_flush net exiting server).1)
unfolding server_flush
server_flush-Attempt net exiting server = elim (Bool-cases (buf_size server.buffer == 0)) [
  | inl e ↦ inl (empty-buffer server.buffer.bytes e, rw e)
  | inr e ↦ inr (
    full-buffer server.buffer.bytes e,
    rw e (
        Attempt-from r.send_result server connected.1 _ _ (ap (λ t. t.buffer) same)
          (ap (λ t. t.sent) same)
          (transmit-Attempt r exiting connected.0 connected.1 (connect-connection r counted).1)),
  )
]
  where
    r : Reply
    r = net server.attempts

    counted : Server
    counted = record server { attempts = server.attempts + 1 }

    connected : Rc × Server
    connected = connect r counted

    same : connected.1 ≡ record counted { connection = connected.1.connection }
    same = connect_lem r counted

-- The network never answers `NGX_AGAIN`.
abbrev pub Steady : (ℕ → Reply) → Type 0
Steady net = (n : ℕ) → (net n).send_result ≢ again

map-append_one :
    (out : List (List Stat)) (w : List Stat)
    → map packets (out ++ (w ∷ [])) ≡ map packets out ++ (packets w ∷ [])
map-append_one [] w = refl
map-append_one (o ∷ out) w = ap (λ l. packets o ∷ l) (map-append_one out w)

pub packets-append : (w : List Stat) (s : Stat) → packets (w ++ (s ∷ [])) ≡ packets w ++ packet s
packets-append [] s = append-nil (packet s)
packets-append (x ∷ w) s =
    ap (λ l. packet x ++ l) (packets-append w s)
    ∙ sym (append_assoc (packet x) (packets w) (packet s))

-- What a flush does to the statistics that wait: they stay, or they are sent as one datagram.
pub record Flushed (rc : Rc) (s' : Server) (waiting : List Stat) (out : List (List Stat))
    : Type 0 where
  pub outcome :
      ((rc ≢ ngx_ok) × Holds s' waiting out) ⊎ ((rc ≡ ngx_ok) × Holds s' [] (out ++ (waiting ∷ [])))

module _ (net : ℕ → Reply) (exiting : Bool) (steady : Steady net) where
  flushed :
      (s s' : Server) (rc : Rc) (r : SendResult) (w : List Stat) (out : List (List Stat))
      → r ≢ again
      → Holds s w out
      → Attempt r s rc s'
      → Flushed rc s' w out
  flushed s s' ngx_ok r w out ne h (inl (_, d)) = record {
    outcome = inr (
      refl,
      record {
        pending = ap (λ b. b.bytes) d.emptied;
        datagrams =
            d.one_more
            ∙ ap₂ (λ x y. x ++ (y ∷ [])) h.datagrams h.pending
            ∙ sym (map-append_one out w);
        no_overrun = rw d.emptied (omega arith);
        room_fits = rw d.emptied h.room_fits;
      },
    );
  }
  flushed s s' ngx_ok r w out ne h (inr (e, _)) = absurd (ne e)
  flushed s s' ngx_error r w out ne h k = record {
    outcome = inl (
      (λ e. cc),
      record {
        pending = ap (λ b. b.bytes) k.same_buffer ∙ h.pending;
        datagrams = k.same_sent ∙ h.datagrams;
        no_overrun = rw k.same_buffer h.no_overrun;
        room_fits = rw k.same_buffer h.room_fits;
      },
    );
  }
  flushed s s' ngx_declined r w out ne h k = absurd k

  -- On a network on which no send returns NGX_AGAIN, a flush of a server of which it is known
  -- which statistics wait and which were sent either answers NGX_OK and has sent those that
  -- waited as one datagram, or answers something else and leaves them waiting.
  pub server_flush-Flushed :
      (s : Server) (w : List Stat) (out : List (List Stat))
      → Holds s w out
      → Flushed (server_flush net exiting s).0 (server_flush net exiting s).1 w out
  server_flush-Flushed s w out h = elim (server_flush-Attempt net exiting s) [
    | inl (_, e) ↦ rw e (record { outcome = inl ((λ d. cc), h) })
    | inr (_, attempt) ↦ flushed s _ _ _ w out (steady s.attempts) h attempt
  ]
