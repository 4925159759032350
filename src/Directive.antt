-- ===== src/Directive.antt =====
-- What the HTTP and the stream module share while the configuration is read: the draft of a metric, the
-- commands, and what nginx's configuration parser gives.
use nginx_statshouse_module.Base.{
  ℕ, List, [], ◌∷◌, Bool, true, false, Option, none, some, ◌==◌, if◌then◌else◌,
}
use nginx_statshouse_module.Stat.{Str, StatType}
use nginx_statshouse_module.Compile.Config.{ConfKey}
use nginx_statshouse_module.Text.{Slice}

-- What a directive's function returns: `NGX_CONF_OK`, "is duplicate" or `NGX_CONF_ERROR`. nginx gives up
-- on the configuration in the other two cases, so they leave no state.
pub data Slot (A : Type 0) : Type 0 where
  conf_ok : A → Slot A
  duplicate conf_error : Slot A

-- The functions of nginx that read an argument; `none` is an error. An address is the bytes of
-- the first address of the URL, `socklen` of them. `compile_complex` is `ngx_http_compile_complex_value`
-- or its twin of the stream module.
pub record Core (C : Type 0) : Type 0 where
  pub parse_url : Str → Option (List ℕ)
  pub parse_size : Slice → Option ℕ
  pub parse_time : Slice → Option ℕ
  pub atoi : Slice → Option ℕ
  pub compile_complex : Str → Option C

-- An `ngx_statshouse_conf_t` while its block is read. What `NGX_CONF_UNSET` or `NGX_CONF_UNSET_PTR`
-- stands in is `none`, and so is the type that is 0.
pub record Draft (C : Type 0) : Type 0 where
  pub name : Str
  pub phase : Str
  pub exists : Option (List Str)
  pub condition_strings : Option (List Str)
  pub condition : Option (List C)
  pub timeout : Option ℕ
  pub sample : Option ℕ
  pub type : Option StatType
  pub value_string : Str
  pub value_complex : Option C
  pub value_split : Bool
  pub keys : List (ConfKey (Option C))

-- what `ngx_pcalloc` gives
abbrev pub blank_key : {C : Type 0} → ConfKey (Option C)
blank_key = record {
  string = [];
  complex = none;
  name = [];
  exists = none;
  split = false;
  disable = false;
}

-- `ngx_conf_init_value`
abbrev pub init_value : Option ℕ → ℕ → ℕ
init_value none n = n
init_value (some v) n = v

-- `ngx_conf_merge_value` and `ngx_conf_merge_ptr_value`
unfoldable pub merge_value : {A : Type 0} → Option A → Option A → A → Option A
merge_value (some own) prev default = some own
merge_value none (some inherited) default = some inherited
merge_value none none default = some default

-- The functions of the commands, with the number in `offset` and the pointer in `post` that matter. Those of
-- nginx itself are `exists`, `timeout`, `phase`, `sample`, and, in the HTTP module, `condition`.
pub data Action : Type 0 where
  server metric : Action
  exists condition timeout phase sample : Action
  value : StatType → Action
  key : ℕ → Str → Action

-- where a command may stand
pub data Context : Type 0 where
  in_main in_srv in_loc in_metric : Context

-- `ngx_command_t`; `one_more` says `NGX_CONF_1MORE`, and otherwise the command has `NGX_CONF_TAKE1`.
pub record Command : Type 0 where
  pub name : Str
  pub contexts : List Context
  pub block : Bool
  pub one_more : Bool
  pub action : Action

abbrev pub command : Str → List Context → Bool → Bool → Action → Command
command name contexts block one_more action = record {
  name = name;
  contexts = contexts;
  block = block;
  one_more = one_more;
  action = action;
}

-- the fields of an `ngx_statshouse_server_t` that the directive sets
pub record ServerConf : Type 0 where
  pub addr : List ℕ
  pub flush_after_request : Bool
  pub buffer_size : ℕ
  pub aggregate_size : ℕ
  pub aggregate_values : ℕ
  pub splits_max : ℕ
  pub flush : ℕ

-- `ngx_memcmp(…) == 0` of as many bytes as both have
unfoldable pub same_bytes : List ℕ → List ℕ → Bool
same_bytes [] [] = true
same_bytes [] (y ∷ ys) = false
same_bytes (x ∷ xs) [] = false
same_bytes (x ∷ xs) (y ∷ ys) = if x == y then same_bytes xs ys else false

abbrev pub bool_eq : Bool → Bool → Bool
bool_eq true b = b
bool_eq false true = false
bool_eq false false = true
