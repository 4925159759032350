-- ===== src/Http/Delivery.antt =====
-- The delivery of what a request gives (`ngx_http_statshouse_send` of src/ngx_http_statshouse_module.c).
use nginx_statshouse_module.Base.{
  ℕ, ◌≡◌, ap, ap₂, ◌∙◌, List, [], ◌++◌, Bool, true, Option, some, set, All,
}
use nginx_statshouse_module.Stat.{Str, Stat}
use nginx_statshouse_module.Compile.Config.{Conf}
use nginx_statshouse_module.Server.Delivery.{Delivering}
use nginx_statshouse_module.Running.{Running, Outer, deliver, finish_request, running, running_at}
use nginx_statshouse_module.Running.Delivery.{
  Fits, Accepts, deliver-Accepts, finish_request-Accepts,
}
use nginx_statshouse_module.Http.Conf.{LocConf}
use nginx_statshouse_module.Http.Send.{
  World, enabled_server, and_then, send_with, send_enabled, http_send,
}
use nginx_statshouse_module.Http.Collect.{collect, sent_of, with_splits, send_confs-collect}

module _ {C : Type 0} (o : Outer (Option C)) where
  -- What a request leaves: the metrics, the server with what it has accepted, and the others as they were.
  pub record Sent (w : World C) (i : ℕ) (flag : Bool) (room : ℕ) (all : List Stat)
      (confs : List (Conf (Option C))) (r : Option (World C)) : Type 0 where
    pub run : Running
    pub result : r ≡ some (record { confs = confs; servers = set w.servers i (running run) })
    pub accepts : Accepts run flag room all
    pub flushed : flag ≡ true → run.server.buffer.bytes ≡ []

  -- A location that is enabled and has metrics and a server without an aggregate answers a
  -- request, over a network on which every attempt to flush succeeds, if the compilation of none
  -- of its metrics crashes and the statistics they give have the slots they count and fit into an
  -- empty buffer. Then the server has accepted all of these statistics, in their order behind
  -- what it had accepted before: what was sent and what waits in its buffer are these. Its buffer
  -- is empty if it is to flush after a request, and no other server has changed.
  pub http_send-Sent :
      (h : Delivering o.network) (phase : Option Str) (loc : LocConf) (w : World C) (i : ℕ)
      (ids : List ℕ) (run : Running) (flag : Bool) (room : ℕ) (before stats : List Stat)
      (confs : List (Conf (Option C))) (splits : List Stat)
      → loc.enable ≡ some true
      → loc.server ≡ some (some i)
      → loc.confs ≡ some ids
      → running_at w.servers i ≡ some run
      → Accepts run flag room before
      → collect o phase run.splits_max 0 ids w.confs run.splits ≡ some (stats, confs, splits)
      → All (Fits room) stats
      → Sent w i flag room (before ++ stats) confs (http_send o phase loc w)
  unfolding http_send send_enabled enabled_server send_with
  http_send-Sent h phase loc w i ids run flag room before stats confs splits on server own found
        accepts collected fits =
      let delivered =
        deliver-Accepts o h flag room stats (with_splits run splits) before
          (record {
            plain = accepts.plain;
            carries = accepts.carries;
            same_flag = accepts.same_flag;
          })
          fits in
      let (accepts', empty) = finish_request-Accepts o h flag room _ _ delivered in
      record {
        run = finish_request o (deliver o (with_splits run splits) stats);
        result =
            ap₂ (λ l e. send_enabled o phase l e w) own (ap₂ (λ e v. enabled_server e v) on server)
            ∙ ap (λ r. send_with o phase i ids w r) found
            ∙ ap
                (λ r. and_then r (λ confs' run'. some (record {
                  confs = confs';
                  servers = set w.servers i (running (finish_request o run'));
                })))
                (send_confs-collect o phase 0 ids w.confs run
                  ∙ ap (λ c. sent_of o run c) collected);
        accepts = accepts';
        flushed = empty;
      }
