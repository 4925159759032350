-- ===== src/Http/Conf.antt =====
-- The records of src/ngx_http_statshouse_module.c. A metric is shared by all locations that inherit it: the
-- main configuration holds the metrics, and a location points at its own by their numbers. A server is
-- pointed at by its number too.
use nginx_statshouse_module.Base.{ℕ, List, Bool, Option}
use nginx_statshouse_module.Compile.Config.{Conf}
use nginx_statshouse_module.Directive.{ServerConf}

-- `ngx_http_statshouse_loc_conf_t`: `none` is `NULL` for `confs`, and `NGX_CONF_UNSET` or
-- `NGX_CONF_UNSET_PTR` for the others, whose `NULL` is `some none`.
pub record LocConf : Type 0 where
  pub confs : Option (List ℕ)
  pub server : Option (Option ℕ)
  pub enable : Option Bool

-- `ngx_http_statshouse_main_conf_t`. An array is created only to be pushed to, so an empty one is `NULL`.
pub record MainConf (C : Type 0) : Type 0 where
  pub servers : List ServerConf
  pub confs : List (Conf (Option C))
