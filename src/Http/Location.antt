-- ===== src/Http/Location.antt =====
-- The life of a location's configuration in src/ngx_http_statshouse_module.c: `create_main_conf`,
-- `create_loc_conf` and `merge_loc_conf`. `granted` says whether nginx's pool gives the memory that is asked
-- for.
use nginx_statshouse_module.Base.{ℕ, List, [], ◌++◌, Bool, false, Option, none, some, if◌then◌else◌}
use nginx_statshouse_module.Directive.{Slot, conf_ok, duplicate, conf_error, merge_value}
use nginx_statshouse_module.Http.Conf.{LocConf, MainConf}

-- `ngx_http_statshouse_create_main_conf` and `ngx_http_statshouse_create_loc_conf`
unfoldable pub create_main_conf : {C : Type 0} → Bool → Option (MainConf C)
create_main_conf granted = if granted then some (record { servers = []; confs = [] }) else none

unfoldable pub create_loc_conf : Bool → Option LocConf
create_loc_conf granted =
    if granted then some (record { confs = none; server = none; enable = none }) else none

-- What happens to `conf->confs`. The arrays are not pushed to after the merge, so that it does not matter
-- that a location without metrics of its own shares its parent's array.
unfoldable pub merge_confs : Bool → Option (List ℕ) → Option (List ℕ) → Slot (Option (List ℕ))
merge_confs granted none own = conf_ok own
merge_confs granted (some inherited) none = conf_ok (some inherited)
merge_confs granted (some inherited) (some own) =
    if granted then conf_ok (some (own ++ inherited)) else conf_error

-- what follows: `enable` and `server`
unfoldable pub merge_rest : LocConf → LocConf → Slot (Option (List ℕ)) → Slot LocConf
merge_rest prev conf (conf_ok ids) = conf_ok (record {
  confs = ids;
  server = merge_value conf.server prev.server none;
  enable = merge_value conf.enable prev.enable false;
})
merge_rest prev conf duplicate = conf_error
merge_rest prev conf conf_error = conf_error

-- `ngx_http_statshouse_merge_loc_conf`
unfoldable pub merge_loc_conf : Bool → LocConf → LocConf → Slot LocConf
merge_loc_conf granted prev conf = merge_rest prev conf (merge_confs granted prev.confs conf.confs)
