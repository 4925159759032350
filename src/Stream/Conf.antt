-- ===== src/Stream/Conf.antt =====
-- The records of src/ngx_stream_statshouse_module.c. The metrics stand in arrays, which are kept in a
-- heap here: server blocks that inherit the metrics and have none of their own share one array.
use nginx_statshouse_module.Base.{ℕ, List, Bool, Option}
use nginx_statshouse_module.Compile.Config.{Conf}
use nginx_statshouse_module.Directive.{ServerConf}

-- `ngx_stream_statshouse_srv_conf_t`: `confs` is the number of an array, and `none` is `NULL` for it. It
-- is `NGX_CONF_UNSET` or `NGX_CONF_UNSET_PTR` for the others, whose `NULL` is `some none`.
pub record SrvConf : Type 0 where
  pub confs : Option ℕ
  pub server : Option (Option ℕ)
  pub enable : Option Bool

-- `ngx_stream_statshouse_main_conf_t` with the heap; an empty array of servers is `NULL`
pub record MainConf (C : Type 0) : Type 0 where
  pub servers : List ServerConf
  pub heap : List (List (Conf (Option C)))
