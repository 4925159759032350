-- ===== src/Http/Slots.antt =====
-- The directives inside a metric: `ngx_http_statshouse_value_slot` and `ngx_http_statshouse_key_slot`.
-- `arg` is `value[1]`, and `props` are the arguments from `value[2]` on. `granted` says whether nginx's
-- pool gives the memory that is asked for.
use nginx_statshouse_module.Base.{
  ℕ, List, [], ◌∷◌, ◌++◌, Bool, true, Option, none, some, ltb, if◌then◌else◌, length, drop, set,
  get_or,
}
use nginx_statshouse_module.Stat.{Str, StatType}
use nginx_statshouse_module.Text.{codes, strncmp}
use nginx_statshouse_module.Compile.Config.{ConfKey}
use nginx_statshouse_module.Directive.{Slot, conf_ok, duplicate, conf_error, Draft, blank_key}

-- the loop over the properties of a value; `none` is `NGX_CONF_ERROR`
unfoldable pub value_props : List Str → Bool → Option Bool
value_props [] split = some split
value_props (p ∷ ps) split =
    let rest = value_props ps true in if strncmp p (codes "split") 5 then rest else none

unfoldable pub with_value : {C : Type 0} → Draft C → StatType → Str → Option Bool → Slot (Draft C)
with_value d type arg none = conf_error
with_value d type arg (some split) =
    conf_ok (record d { type = some type; value_string = arg; value_split = split })

-- `ngx_http_statshouse_value_slot`
unfoldable pub value_slot : {C : Type 0} → StatType → Str → List Str → Draft C → Slot (Draft C)
value_slot type arg props d = elim d.type [
  | some t ↦ duplicate
  | none ↦ with_value d type arg (value_props props d.value_split)
]

-- `ngx_array_push` to an array that is created first if it is `NULL`
abbrev pub push_variable : Option (List Str) → Str → Option (List Str)
push_variable none s = some (s ∷ [])
push_variable (some ss) s = some (ss ++ (s ∷ []))

-- the loop over the properties of a key
unfoldable pub key_props :
    {C : Type 0} → Bool → List Str → ConfKey (Option C) → Option (ConfKey (Option C))
key_props granted [] key = some key
key_props granted (p ∷ ps) key =
    let with_split = key_props granted ps (record key { split = true }) in
    let with_exists =
      key_props granted ps (record key { exists = push_variable key.exists (drop 7 p) }) in
    if strncmp p (codes "split") 5
    then with_split
    else if strncmp p (codes "exists=") 7
    then (if granted then with_exists else none)
    else none

unfoldable pub with_key : {C : Type 0} → Draft C → ℕ → Option (ConfKey (Option C)) → Slot (Draft C)
with_key d i none = conf_error
with_key d i (some key) = conf_ok (record d { keys = set d.keys i key })

-- `ngx_http_statshouse_key_slot`; `i` is the key that `cmd->offset` says, and `name` is `cmd->post`.
unfoldable pub key_slot : {C : Type 0} → Bool → ℕ → Str → Str → List Str → Draft C → Slot (Draft C)
key_slot granted i name arg props d =
    let key = get_or d.keys i blank_key in
    if ltb 0 (length key.name)
    then duplicate
    else with_key d i (key_props granted props (record key { string = arg; name = name }))
