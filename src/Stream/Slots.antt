-- ===== src/Stream/Slots.antt =====
-- The directives inside a metric: `set_predicate_slot`, `value_slot` and `key_slot` of
-- src/ngx_stream_statshouse_module.c. `arg` is `value[1]`, and `props` are the arguments from `value[2]` on.
-- `compile` is an allocation and the `ngx_stream_compile_complex_value` into it, of which either may fail.
use nginx_statshouse_module.Base.{
  ℕ, List, [], ◌∷◌, ◌++◌, Bool, true, Option, none, some, ltb, if◌then◌else◌, length, set, get_or,
}
use nginx_statshouse_module.Stat.{Str, StatType}
use nginx_statshouse_module.Text.{codes, strncmp}
use nginx_statshouse_module.Compile.Config.{ConfKey}
use nginx_statshouse_module.Directive.{Slot, conf_ok, duplicate, conf_error, Draft, blank_key}

module _ {C : Type 0} (compile : Str → Option C) where
  -- the loop over the arguments; `none` is `NGX_CONF_ERROR`
  unfoldable pub add_predicates : List Str → List C → Option (List C)
  add_predicates [] cs = some cs
  add_predicates (s ∷ ss) cs = elim (compile s) [
    | none ↦ none
    | some c ↦ add_predicates ss (cs ++ (c ∷ []))
  ]

  unfoldable pub with_condition : Draft C → Option (List C) → Slot (Draft C)
  with_condition d none = conf_error
  with_condition d (some cs) = conf_ok (record d { condition = some cs })

  -- `ngx_stream_statshouse_set_predicate_slot`
  unfoldable pub set_predicate_slot : List Str → Draft C → Slot (Draft C)
  set_predicate_slot args d = elim d.condition [
    | none ↦ with_condition d (add_predicates args [])
    | some cs ↦ with_condition d (add_predicates args cs)
  ]

  -- the loop over the properties, of a value and of a key
  unfoldable pub split_props : List Str → Bool → Option Bool
  split_props [] split = some split
  split_props (p ∷ ps) split =
      let rest = split_props ps true in if strncmp p (codes "split") 5 then rest else none

  unfoldable pub with_value : Draft C → StatType → C → Option Bool → Slot (Draft C)
  with_value d type c none = conf_error
  with_value d type c (some split) =
      conf_ok (record d { type = some type; value_complex = some c; value_split = split })

  -- `ngx_stream_statshouse_value_slot`
  unfoldable pub value_slot : StatType → Str → List Str → Draft C → Slot (Draft C)
  value_slot type arg props d = elim d.type [
    | some t ↦ duplicate
    | none ↦ elim (compile arg) [
      | none ↦ conf_error
      | some c ↦ with_value d type c (split_props props d.value_split)
    ]
  ]

  unfoldable pub with_key : Draft C → ℕ → ConfKey (Option C) → Option Bool → Slot (Draft C)
  with_key d i key none = conf_error
  with_key d i key (some split) =
      conf_ok (record d { keys = set d.keys i (record key { split = split }) })

  -- `ngx_stream_statshouse_key_slot`; `i` is the key that `cmd->offset` says, and `name` is `cmd->post`.
  unfoldable pub key_slot : ℕ → Str → Str → List Str → Draft C → Slot (Draft C)
  key_slot i name arg props d =
      let key = get_or d.keys i blank_key in
      if ltb 0 (length key.name) then duplicate else elim (compile arg) [
        | none ↦ conf_error
        | some c ↦
            with_key d i (record key { name = name; complex = some c })
              (split_props props key.split)
      ]
