-- ===== src/Http/Send.antt =====
-- The handler of src/ngx_http_statshouse_module.c and the functions that other modules call:
-- `ngx_http_statshouse_send`, `send_ctx`, `send_http`, `send_server` and `send_stat`.
use nginx_statshouse_module.Base.{
  ℕ, ◌+◌, List, [], ◌∷◌, Bool, true, false, not, Option, none, some, if◌then◌else◌, get_elem?, set,
}
use nginx_statshouse_module.Nginx.{Rc, ngx_ok, ngx_error}
use nginx_statshouse_module.Stat.{Str, Stat}
use nginx_statshouse_module.Compile.{stat_compile}
use nginx_statshouse_module.Compile.Config.{Conf}
use nginx_statshouse_module.Running.{
  Running, Outer, in_phase, sampled_out, send_one, after_compile, finish_request, Instance, running,
  running_at, Chosen, idle, chosen, wild,
}
use nginx_statshouse_module.Http.Conf.{LocConf}

-- What a request of a worker changes: the metrics, which locations share, and the servers.
pub record World (C : Type 0) : Type 0 where
  pub confs : List (Conf (Option C))
  pub servers : List Instance

-- The tests at the start of `send` and of `send_stat`. `NGX_CONF_UNSET` is not 0, and
-- `NGX_CONF_UNSET_PTR` is not `NULL`.
unfoldable pub enabled_server : Option Bool → Option (Option ℕ) → Chosen
enabled_server enable (some none) = idle
enabled_server (some false) none = idle
enabled_server (some true) none = wild
enabled_server none none = wild
enabled_server (some false) (some (some i)) = idle
enabled_server (some true) (some (some i)) = chosen i
enabled_server none (some (some i)) = chosen i

-- a round that crashed, or gave these
abbrev pub put_back : {A R : Type 0} → ℕ → List A → Option (A × R) → Option (List A × R)
put_back i xs none = none
put_back i xs (some (a, r)) = some (set xs i a, r)

abbrev pub and_then : {A R B : Type 0} → Option (A × R) → (A → R → Option B) → Option B
and_then none f = none
and_then (some (a, r)) f = f a r

module _ {C : Type 0} (o : Outer (Option C)) where
  -- one round of the loop over the metrics, of which this is the `n`-th; `none` is a crash
  unfoldable pub send_conf :
      Option Str → ℕ → Conf (Option C) → Running → Option (Conf (Option C) × Running)
  send_conf phase n conf run =
      if not (in_phase phase conf)
      then some (conf, run)
      else if sampled_out (o.random n) conf
      then some (conf, run)
      else after_compile o run (stat_compile o.variables conf run.splits run.splits_max o.time)

  -- a round for the metric that `confs[i]` points at
  unfoldable pub send_found :
      Option Str
      → ℕ
      → ℕ
      → List (Conf (Option C))
      → Running
      → Option (Conf (Option C))
      → Option (List (Conf (Option C)) × Running)
  send_found phase n id confs run none = none
  send_found phase n id confs run (some conf) = put_back id confs (send_conf phase n conf run)

  -- the loop over the metrics of the location
  unfoldable pub send_confs :
      Option Str
      → ℕ
      → List ℕ
      → List (Conf (Option C))
      → Running
      → Option (List (Conf (Option C)) × Running)
  send_confs phase n [] confs run = some (confs, run)
  send_confs phase n (id ∷ ids) confs run =
      and_then (send_found phase n id confs run (get_elem? confs id))
        (λ confs' run'. send_confs phase (n + 1) ids confs' run')

  -- the loop and the flush, with the server of the number `i`
  unfoldable pub send_with : Option Str → ℕ → List ℕ → World C → Option Running → Option (World C)
  send_with phase i ids w none = none
  send_with phase i ids w (some run) = and_then (send_confs phase 0 ids w.confs run) (λ confs run'.
      some (record { confs = confs; servers = set w.servers i (running (finish_request o run')) }))

  unfoldable pub send_enabled : Option Str → Option (List ℕ) → Chosen → World C → Option (World C)
  send_enabled phase none server w = some w
  send_enabled phase (some ids) idle w = some w
  send_enabled phase (some ids) wild w = none
  send_enabled phase (some ids) (chosen i) w = send_with phase i ids w (running_at w.servers i)

  -- `ngx_http_statshouse_send`. It returns `NGX_OK`; `none` is a crash, and so is a metric or a server
  -- that is not there or a server that is not started.
  unfoldable pub http_send : Option Str → LocConf → World C → Option (World C)
  http_send phase loc w = send_enabled phase loc.confs (enabled_server loc.enable loc.server) w

  -- `ngx_http_statshouse_handler`
  unfoldable pub handler : LocConf → World C → Option (World C)
  handler loc w = http_send none loc w

  -- `ngx_http_statshouse_send_ctx`: `has_core` and `granted` are its two tests, and `loc` is the
  -- configuration in the context.
  unfoldable pub send_ctx : Bool → Bool → LocConf → Option Str → World C → Option (Rc × World C)
  send_ctx has_core granted loc phase w =
      if not has_core
      then some (ngx_error, w)
      else if not granted
      then some (ngx_error, w)
      else elim (http_send phase loc w) [ none ↦ none | some w' ↦ some (ngx_ok, w') ]

  -- `ngx_http_statshouse_send_http` and `ngx_http_statshouse_send_server`, with the configuration of the
  -- `http` block and that of a `server` block
  unfoldable pub send_http : Bool → Bool → LocConf → Option Str → World C → Option (Rc × World C)
  send_http has_core granted http_conf phase w = send_ctx has_core granted http_conf phase w

  unfoldable pub send_server : Bool → Bool → LocConf → Option Str → World C → Option (Rc × World C)
  send_server has_core granted server_conf phase w = send_ctx has_core granted server_conf phase w

  unfoldable pub send_stat_with : ℕ → Stat → World C → Option Running → Option (World C)
  send_stat_with i stat w none = none
  send_stat_with i stat w (some run) =
      some (record w { servers = set w.servers i (running (send_one o run stat)) })

  unfoldable pub send_stat_to : Stat → World C → Chosen → Option (World C)
  send_stat_to stat w idle = some w
  send_stat_to stat w wild = none
  send_stat_to stat w (chosen i) = send_stat_with i stat w (running_at w.servers i)

  -- `ngx_http_statshouse_send_stat`
  unfoldable pub send_stat : LocConf → Stat → World C → Option (World C)
  send_stat loc stat w = send_stat_to stat w (enabled_server loc.enable loc.server)
