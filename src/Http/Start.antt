-- ===== src/Http/Start.antt =====
-- `ngx_http_statshouse_init` of src/ngx_http_statshouse_module.c.
use nginx_statshouse_module.Base.{
  ℕ, ◌+◌, List, [], ◌∷◌, Bool, true, false, Option, none, some, if◌then◌else◌, map,
}
use nginx_statshouse_module.Stat.{Str, Stat}
use nginx_statshouse_module.Compile.Config.{Conf, for_some}
use nginx_statshouse_module.Aggregate.{Aggregate}
use nginx_statshouse_module.Server.{Grants}
use nginx_statshouse_module.Directive.{ServerConf}
use nginx_statshouse_module.Running.{Running, start, Instance, running, unstarted}
use nginx_statshouse_module.Http.Conf.{MainConf}
use nginx_statshouse_module.Http.Init.{Variables, init_complex}

-- What the initialisation leaves: the servers that were started, the metrics, and whether the handler is
-- among those of the log phase. Without metrics no server is started, though the locations still point at them.
pub record Initialised (C : Type 0) : Type 0 where
  pub servers : List Instance
  pub confs : List (Conf (Option C))
  pub registered : Bool

-- `grants n` is what the pool gives the server of number `n`.
module _ (grants : ℕ → Grants) (zeroed : Aggregate) (blank : Stat) where
  -- the loop over the servers; `none` is `NGX_ERROR`
  unfoldable pub start_each : ℕ → List ServerConf → Option (List Running)
  start_each n [] = some []
  start_each n (s ∷ ss) =
      let rest = start_each (n + 1) ss in
      elim (start (grants n) zeroed blank s) [
        | none ↦ none
        | some run ↦ for_some rest (λ runs. run ∷ runs)
      ]

  unfoldable pub register_handler :
      {C : Type 0} → Bool → List (Conf (Option C)) → Option (List Running) → Option (Initialised C)
  register_handler granted confs none = none
  register_handler granted confs (some servers) =
      if granted
      then some (record { servers = map running servers; confs = confs; registered = true })
      else none

  -- what follows `init_complex`: the tests of `smcf->servers == NULL || smcf->confs == NULL`
  unfoldable pub start_servers :
      {C : Type 0} → Bool → List ServerConf → List (Conf (Option C)) → Option (Initialised C)
  start_servers granted [] confs = some (record { servers = []; confs = confs; registered = false })
  start_servers granted (s ∷ ss) [] =
      some (record { servers = map unstarted (s ∷ ss); confs = []; registered = false })
  start_servers granted (s ∷ ss) (conf ∷ confs) =
      register_handler granted (conf ∷ confs) (start_each 0 (s ∷ ss))

  -- `ngx_http_statshouse_init`; the module has no variables to add.
  unfoldable pub init :
      {C : Type 0} → Variables → (Str → Option C) → Bool → MainConf C → Option (Initialised C)
  init vars compile granted main = elim (init_complex vars compile main.confs) [
    | none ↦ none
    | some confs ↦ start_servers granted main.servers confs
  ]
