-- ===== src/Http/Init.antt =====
-- What src/ngx_http_statshouse_module.c does when the configuration has been read: `variable_exists`,
-- `init_complex` and `init`.
use nginx_statshouse_module.Base.{
  List, [], ◌∷◌, Bool, true, false, ◌&&◌, ◌||◌, not, Option, none, some, ltb, ◌==◌, if◌then◌else◌,
  length, drop, get_or,
}
use nginx_statshouse_module.Nginx.{Rc, ngx_ok, ngx_error, ngx_declined}
use nginx_statshouse_module.Stat.{Str}
use nginx_statshouse_module.Text.{strncmp}
use nginx_statshouse_module.Compile.Config.{Conf, ConfKey, for_some}

-- What the core module has: the prefixes of names, the names of the indexed variables, and those in
-- the hash.
pub record Variables : Type 0 where
  pub prefix_variables : List Str
  pub variables : List Str
  pub variables_keys : List Str

-- the loop over the prefixes, and the loops over the names
unfoldable pub has_prefix : List Str → Str → Bool
has_prefix [] name = false
has_prefix (p ∷ ps) name =
    (not (ltb (length name) (length p)) && strncmp name p (length p)) || has_prefix ps name

unfoldable pub has_name : List Str → Str → Bool
has_name [] name = false
has_name (v ∷ vs) name =
    ((length name == length v) && strncmp name v (length name)) || has_name vs name

-- `ngx_http_statshouse_variable_exists`
unfoldable pub variable_exists : Variables → Str → Rc
variable_exists vars name =
    if ltb (length name) 2 || not (get_or name 0 0 == b'$')
    then ngx_error
    else let bare = drop 1 name in
      if has_prefix vars.prefix_variables bare
      then ngx_ok
      else if has_name vars.variables bare
      then ngx_ok
      else if has_name vars.variables_keys bare
      then ngx_ok
      else ngx_declined

-- the loop over `exists`, of which only `NULL` and no names pass at once
unfoldable pub is_ok : Rc → Bool
is_ok ngx_ok = true
is_ok ngx_error = false
is_ok ngx_declined = false

unfoldable pub all_exist : Variables → List Str → Bool
all_exist vars [] = true
all_exist vars (name ∷ names) = is_ok (variable_exists vars name) && all_exist vars names

unfoldable pub satisfied : Variables → Option (List Str) → Bool
satisfied vars none = true
satisfied vars (some names) = all_exist vars names

-- `compile` is an allocation and the `ngx_http_compile_complex_value` into it; `none` is the failure of
-- either, or of the allocation of the array.
module _ {C : Type 0} (vars : Variables) (compile : Str → Option C) where
  -- the loop over the conditions
  unfoldable pub compile_each : List Str → Option (List (Option C))
  compile_each [] = some []
  compile_each (s ∷ ss) =
      let rest = compile_each ss in
      elim (compile s) [ none ↦ none | some c ↦ for_some rest (λ cs. some c ∷ cs) ]

  unfoldable pub compile_conditions : Option (List Str) → List (Option C) → Option (List (Option C))
  compile_conditions none before = some before
  compile_conditions (some strings) before = compile_each strings

  -- one round of the loop over the keys, and the loop
  unfoldable pub compile_tested : ConfKey (Option C) → Option (ConfKey (Option C))
  compile_tested key =
      if key.disable
      then some key
      else for_some (compile key.string) (λ c. record key { complex = some c })

  unfoldable pub compile_key : ConfKey (Option C) → Option (ConfKey (Option C))
  compile_key key =
      if length key.name == 0
      then some key
      else if satisfied vars key.exists
      then compile_tested key
      else compile_tested (record key { disable = true })

  unfoldable pub compile_each_key : List (ConfKey (Option C)) → Option (List (ConfKey (Option C)))
  compile_each_key [] = some []
  compile_each_key (k ∷ ks) =
      let rest = compile_each_key ks in
      elim (compile_key k) [ none ↦ none | some k' ↦ for_some rest (λ ks'. k' ∷ ks') ]

  -- one round of the loop over the metrics
  unfoldable pub compile_enabled : Conf (Option C) → Option (Conf (Option C))
  compile_enabled conf = elim (compile conf.value.string) [
    | none ↦ none
    | some c ↦ elim (compile_conditions conf.condition_strings conf.condition) [
      | none ↦ none
      | some condition ↦ for_some (compile_each_key conf.keys) (λ keys. record conf {
        value = record conf.value { complex = some c };
        condition = condition;
        keys = keys;
      })
    ]
  ]

  unfoldable pub compile_metric : Conf (Option C) → Option (Conf (Option C))
  compile_metric conf =
      let tested = if satisfied vars conf.exists then conf else record conf { disable = true } in
      if tested.disable then some tested else compile_enabled tested

  -- `ngx_http_statshouse_init_complex`; `none` is `NGX_ERROR`
  unfoldable pub init_complex : List (Conf (Option C)) → Option (List (Conf (Option C)))
  init_complex [] = some []
  init_complex (conf ∷ confs) =
      let rest = init_complex confs in
      elim (compile_metric conf) [
        | none ↦ none
        | some conf' ↦ for_some rest (λ confs'. conf' ∷ confs')
      ]
