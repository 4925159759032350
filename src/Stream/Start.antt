-- ===== src/Stream/Start.antt =====
-- `ngx_stream_statshouse_init` of src/ngx_stream_statshouse_module.c.
use nginx_statshouse_module.Base.{
  ℕ, ◌+◌, List, [], ◌∷◌, Bool, true, false, Option, none, some, if◌then◌else◌,
}
use nginx_statshouse_module.Stat.{Stat}
use nginx_statshouse_module.Compile.Config.{for_some}
use nginx_statshouse_module.Aggregate.{Aggregate}
use nginx_statshouse_module.Server.{Grants}
use nginx_statshouse_module.Directive.{ServerConf}
use nginx_statshouse_module.Running.{Running, start}

-- `grants n` is what the pool gives the server of number `n`.
module _ (grants : ℕ → Grants) (zeroed : Aggregate) (blank : Stat) where
  -- the loop over the servers; `none` is `NGX_ERROR`
  unfoldable pub start_each : ℕ → List ServerConf → Option (List Running)
  start_each n [] = some []
  start_each n (s ∷ ss) =
      let rest = start_each (n + 1) ss in
      elim (start (grants n) zeroed blank s) [
        | none ↦ none
        | some run ↦ for_some rest (λ runs. run ∷ runs)
      ]

  unfoldable pub register_handler : Bool → Option (List Running) → Option (List Running × Bool)
  register_handler granted none = none
  register_handler granted (some servers) = if granted then some (servers, true) else none

  -- `ngx_stream_statshouse_init`: the servers, and whether the handler is among those of the log phase.
  unfoldable pub init : Bool → List ServerConf → Option (List Running × Bool)
  init granted [] = some ([], false)
  init granted (s ∷ ss) = register_handler granted (start_each 0 (s ∷ ss))
