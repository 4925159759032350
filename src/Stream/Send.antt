-- ===== src/Stream/Send.antt =====
-- The handler of src/ngx_stream_statshouse_module.c and the functions that other modules call:
-- `ngx_stream_statshouse_send` and `send_stat`.
use nginx_statshouse_module.Base.{
  ℕ, ◌+◌, List, [], ◌∷◌, Bool, true, false, not, Option, none, some, if◌then◌else◌, get_elem?, set,
}
use nginx_statshouse_module.Stat.{Str, Stat}
use nginx_statshouse_module.Compile.{stat_compile}
use nginx_statshouse_module.Compile.Config.{Conf}
use nginx_statshouse_module.Running.{
  Running, Outer, in_phase, sampled_out, send_one, after_compile, finish_request, Chosen, idle,
  chosen, wild,
}
use nginx_statshouse_module.Stream.Conf.{SrvConf}

-- What a session of a worker changes: the arrays of metrics, and the servers.
pub record World (C : Type 0) : Type 0 where
  pub heap : List (List (Conf (Option C)))
  pub servers : List Running

-- The tests at the start of `send` and of `send_stat`. `NGX_CONF_UNSET` is not 0, and
-- `NGX_CONF_UNSET_PTR` is not `NULL`.
unfoldable pub enabled_server : Option Bool → Option (Option ℕ) → Chosen
enabled_server enable (some none) = idle
enabled_server (some false) none = idle
enabled_server (some true) none = wild
enabled_server none none = wild
enabled_server (some false) (some (some i)) = idle
enabled_server (some true) (some (some i)) = chosen i
enabled_server none (some (some i)) = chosen i

-- a metric in front of the others, and a round in front of the others
abbrev pub front : {A R : Type 0} → A → Option (List A × R) → Option (List A × R)
front a none = none
front a (some (rest, r)) = some (a ∷ rest, r)

abbrev pub keep_front :
    {A R : Type 0} → Option (A × R) → (R → Option (List A × R)) → Option (List A × R)
keep_front none f = none
keep_front (some (a, r)) f = front a (f r)

module _ {C : Type 0} (o : Outer (Option C)) where
  -- one round of the loop over the metrics, of which this is the `n`-th; `none` is a crash
  unfoldable pub send_conf :
      Option Str → ℕ → Conf (Option C) → Running → Option (Conf (Option C) × Running)
  send_conf phase n conf run =
      if not (in_phase phase conf)
      then some (conf, run)
      else if sampled_out (o.random n) conf
      then some (conf, run)
      else after_compile o run (stat_compile o.variables conf run.splits run.splits_max o.time)

  -- the loop over the array, which runs from its front
  unfoldable pub send_array :
      Option Str → ℕ → List (Conf (Option C)) → Running → Option (List (Conf (Option C)) × Running)
  send_array phase n [] run = some ([], run)
  send_array phase n (conf ∷ confs) run =
      keep_front (send_conf phase n conf run) (λ run'. send_array phase (n + 1) confs run')

  -- the loop and the flush, with the array `a` and the server of the number `i`
  unfoldable pub send_with :
      Option Str
      → ℕ
      → ℕ
      → World C
      → Option Running
      → Option (List (Conf (Option C)))
      → Option (World C)
  send_with phase i a w none confs = none
  send_with phase i a w (some run) none = none
  send_with phase i a w (some run) (some confs) = elim (send_array phase 0 confs run) [
    | none ↦ none
    | some (confs', run') ↦
        some
          (record { heap = set w.heap a confs'; servers = set w.servers i (finish_request o run') })
  ]

  unfoldable pub send_enabled : Option Str → Option ℕ → Chosen → World C → Option (World C)
  send_enabled phase none server w = some w
  send_enabled phase (some a) idle w = some w
  send_enabled phase (some a) wild w = none
  send_enabled phase (some a) (chosen i) w =
      send_with phase i a w (get_elem? w.servers i) (get_elem? w.heap a)

  -- `ngx_stream_statshouse_send`. It returns `NGX_OK`; `none` is a crash, and so is an array or a server
  -- that is not there.
  unfoldable pub stream_send : Option Str → SrvConf → World C → Option (World C)
  stream_send phase srv w = send_enabled phase srv.confs (enabled_server srv.enable srv.server) w

  -- `ngx_stream_statshouse_handler`
  unfoldable pub handler : SrvConf → World C → Option (World C)
  handler srv w = stream_send none srv w

  unfoldable pub send_stat_with : ℕ → Stat → World C → Option Running → Option (World C)
  send_stat_with i stat w none = none
  send_stat_with i stat w (some run) =
      some (record w { servers = set w.servers i (send_one o run stat) })

  unfoldable pub send_stat_to : Stat → World C → Chosen → Option (World C)
  send_stat_to stat w idle = some w
  send_stat_to stat w wild = none
  send_stat_to stat w (chosen i) = send_stat_with i stat w (get_elem? w.servers i)

  -- `ngx_stream_statshouse_send_stat`
  unfoldable pub send_stat : SrvConf → Stat → World C → Option (World C)
  send_stat srv stat w = send_stat_to stat w (enabled_server srv.enable srv.server)
