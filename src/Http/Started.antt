-- ===== src/Http/Started.antt =====
-- A request after `ngx_http_statshouse_init` (src/ngx_http_statshouse_module.c).
use nginx_statshouse_module.Base.{ℕ, ◌≡◌, List, true, some, map, get_elem?}
use nginx_statshouse_module.Stat.{Stat}
use nginx_statshouse_module.Compile.Config.{Conf}
use nginx_statshouse_module.Aggregate.{Aggregate}
use nginx_statshouse_module.Server.{Server, Grants}
use nginx_statshouse_module.Running.{Running, running, if_running}
use nginx_statshouse_module.Http.Start.{Initialised}
use nginx_statshouse_module.Http.Send.{World}
use nginx_statshouse_module.Http.NoCrash.{IsRoomy, ServerReady}

-- the world of a worker after the start
abbrev pub world_of : {C : Type 0} → Initialised C → World C
world_of r = record { confs = r.confs; servers = r.servers }

-- the server of the number `i` of those that were started
abbrev StartedAt : ℕ → List Running → Type 0
StartedAt i runs = IsRoomy (if_running (get_elem? (map running runs) i))

module _ (grants : ℕ → Grants) (zeroed : Aggregate) (blank : Stat) where
  -- If the handler is registered, the server of that number can be used.
  abbrev Registered : {C : Type 0} → ℕ → Initialised C → Type 0
  Registered i r = r.registered ≡ true → ServerReady r.servers (some (some i))
