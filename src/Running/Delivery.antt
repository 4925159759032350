-- ===== src/Running/Delivery.antt =====
-- The loop over the statistics of a metric, over a server without an aggregate and a network that delivers.
use nginx_statshouse_module.Base.{
  ℕ, ◌≤◌, ◌≡◌, refl, ◌∙◌, List, [], ◌∷◌, ◌++◌, append-nil, append_assoc, Bool, true, none, length,
  All,
}
use nginx_statshouse_module.Stat.{Stat}
use nginx_statshouse_module.Server.{send, send_to_buffer}
use nginx_statshouse_module.Server.Refinement.{packet}
use nginx_statshouse_module.Server.Buffering.{Sendable}
use nginx_statshouse_module.Server.Delivery.{
  Carries, Delivering, send_to_buffer-Carries, flush_after_request-Carries,
}
use nginx_statshouse_module.Server.Flags.{send_flag, after_request_flag}
use nginx_statshouse_module.Running.{Running, Outer, send_one, deliver, finish_request}

-- A statistic that an empty buffer has room for.
pub record Fits (room : ℕ) (stat : Stat) : Type 0 where
  pub sendable : Sendable stat
  pub packet_room : length (packet stat) ≤ room

-- A server without an aggregate that has accepted these statistics.
pub record Accepts (run : Running) (flag : Bool) (room : ℕ) (all : List Stat) : Type 0 where
  pub plain : run.aggregate ≡ none
  pub carries : Carries run.server room all
  pub same_flag : run.server.flush_after_request ≡ flag

module _ {V : Type 0} (o : Outer V) where
  send_plain :
      (run : Running) (stat : Stat)
      → run.aggregate ≡ none
      → send_one o run stat ≡ record run {
        server = (send_to_buffer o.network o.exiting run.server stat).1;
        aggregate = none;
      }
  unfolding send_one send
  send_plain run stat e = rw e refl

  module _ (h : Delivering o.network) (flag : Bool) (room : ℕ) where
    send_one-Accepts :
        (run : Running) (all : List Stat) (stat : Stat)
        → Accepts run flag room all
        → Fits room stat
        → Accepts (send_one o run stat) flag room (all ++ (stat ∷ []))
    send_one-Accepts run all stat a f = rw (send_plain run stat a.plain) (record {
      plain = refl;
      carries =
          (send_to_buffer-Carries o.network o.exiting h stat f.sendable run.server room all
            a.carries f.packet_room).1;
      same_flag = send_flag o.network o.exiting run.server stat ∙ a.same_flag;
    })

    pub deliver-Accepts :
        (stats : List Stat) (run : Running) (all : List Stat)
        → Accepts run flag room all
        → All (Fits room) stats
        → Accepts (deliver o run stats) flag room (all ++ stats)
    unfolding deliver
    deliver-Accepts [] run all a fits = rw (append-nil all) a
    deliver-Accepts (stat ∷ stats) run all a (f, fits) = rw (← append_assoc all (stat ∷ []) stats) (
        deliver-Accepts stats (send_one o run stat) (all ++ (stat ∷ []))
          (send_one-Accepts run all stat a f) fits)

    -- what a request has sent when it ends
    pub finish_request-Accepts :
        (run : Running) (all : List Stat)
        → Accepts run flag room all
        → Accepts (finish_request o run) flag room all
          × (flag ≡ true → (finish_request o run).server.buffer.bytes ≡ [])
    unfolding finish_request
    finish_request-Accepts run all a =
        let (carries, empty) =
          flush_after_request-Carries o.network o.exiting h run.server room all a.carries in
        (
          record {
            plain = a.plain;
            carries = carries;
            same_flag = after_request_flag o.network o.exiting run.server ∙ a.same_flag;
          },
          λ on. empty (a.same_flag ∙ on),
        )
