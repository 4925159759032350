-- ===== src/Stream/Block.antt =====
-- The life of a server block's configuration in src/ngx_stream_statshouse_module.c: `create_main_conf`,
-- `create_srv_conf` and `merge_srv_conf`. `granted` says whether nginx's pool gives the memory that is asked
-- for.
use nginx_statshouse_module.Base.{
  ℕ, List, [], ◌++◌, Bool, false, Option, none, some, if◌then◌else◌, get_or, set,
}
use nginx_statshouse_module.Compile.Config.{Conf}
use nginx_statshouse_module.Directive.{Slot, conf_ok, duplicate, conf_error, merge_value}
use nginx_statshouse_module.Stream.Conf.{SrvConf, MainConf}

-- `ngx_stream_statshouse_create_main_conf` and `ngx_stream_statshouse_create_srv_conf`
unfoldable pub create_main_conf : {C : Type 0} → Bool → Option (MainConf C)
create_main_conf granted = if granted then some (record { servers = []; heap = [] }) else none

unfoldable pub create_srv_conf : Bool → Option SrvConf
create_srv_conf granted =
    if granted then some (record { confs = none; server = none; enable = none }) else none

-- What happens to `conf->confs`: the parent's array is shared, or copied to the end of the own one.
unfoldable pub merge_arrays :
    {A : Type 0} → Bool → Option ℕ → Option ℕ → List (List A) → Slot (Option ℕ × List (List A))
merge_arrays granted none own heap = conf_ok (own, heap)
merge_arrays granted (some parent) none heap = conf_ok (some parent, heap)
merge_arrays granted (some parent) (some own) heap =
    if granted
    then conf_ok (some own, set heap own (get_or heap own [] ++ get_or heap parent []))
    else conf_error

-- what follows: `enable` and `server`
unfoldable pub merge_rest :
    {C : Type 0}
    → MainConf C
    → SrvConf
    → SrvConf
    → Slot (Option ℕ × List (List (Conf (Option C))))
    → Slot (SrvConf × MainConf C)
merge_rest main prev conf (conf_ok (array, heap)) = conf_ok (
  record {
    confs = array;
    server = merge_value conf.server prev.server none;
    enable = merge_value conf.enable prev.enable false;
  },
  record main { heap = heap },
)
merge_rest main prev conf duplicate = conf_error
merge_rest main prev conf conf_error = conf_error

-- `ngx_stream_statshouse_merge_srv_conf`
unfoldable pub merge_srv_conf :
    {C : Type 0} → Bool → MainConf C → SrvConf → SrvConf → Slot (SrvConf × MainConf C)
merge_srv_conf granted main prev conf =
    merge_rest main prev conf (merge_arrays granted prev.confs conf.confs main.heap)
