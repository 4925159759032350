-- ===== src/Http/Metric.antt =====
-- `ngx_http_statshouse_metric_slot`: a block `statshouse_metric`.
use nginx_statshouse_module.Base.{
  ℕ, List, [], ◌∷◌, ◌++◌, Bool, false, Option, none, some, if◌then◌else◌, length, replicate, ◌≡◌,
}
use nginx_statshouse_module.Stat.{Str, StatType, keys_max}
use nginx_statshouse_module.Compile.Config.{Conf}
use nginx_statshouse_module.Directive.{
  Slot, conf_ok, duplicate, conf_error, Draft, blank_key, init_value, Action, exists, condition,
  timeout, phase, sample, value, key,
}
use nginx_statshouse_module.Http.Conf.{LocConf, MainConf}
use nginx_statshouse_module.Http.Slots.{value_slot, key_slot}

-- the draft before its block is read
unfoldable pub new_draft : {C : Type 0} → Str → Draft C
new_draft name = record {
  name = name;
  phase = [];
  exists = none;
  condition_strings = none;
  condition = none;
  timeout = none;
  sample = none;
  type = none;
  value_string = [];
  value_complex = none;
  value_split = false;
  keys = replicate keys_max blank_key;
}

-- What follows the block: `type` is not 0, and the values that were not set get their default.
unfoldable pub finished : {C : Type 0} → Draft C → StatType → Conf (Option C)
finished d type = record {
  name = d.name;
  phase = d.phase;
  exists = d.exists;
  condition_strings = d.condition_strings;
  condition = [];
  timeout = init_value d.timeout 0;
  last = 0;
  disable = false;
  value = record {
    string = d.value_string;
    complex = d.value_complex;
    type = type;
    split = d.value_split;
  };
  keys = d.keys;
  sample = init_value d.sample 0;
}

-- `ngx_array_push` of a pointer to an array that is created first if it is `NULL`
abbrev pub push_conf : Option (List ℕ) → ℕ → Option (List ℕ)
push_conf none i = some (i ∷ [])
push_conf (some is) i = some (is ++ (i ∷ []))

-- The metric is added to those of the location and to all metrics.
unfoldable pub add_metric :
    {C : Type 0} → LocConf → MainConf C → Conf (Option C) → LocConf × MainConf C
add_metric loc main conf = (
  record loc { confs = push_conf loc.confs (length main.confs) },
  record main { confs = main.confs ++ (conf ∷ []) },
)

unfoldable pub after_block :
    {C : Type 0} → LocConf → MainConf C → Draft C → Option StatType → Slot (LocConf × MainConf C)
after_block loc main d none = conf_error
after_block loc main d (some type) = conf_ok (add_metric loc main (finished d type))

unfoldable pub after_parse :
    {C : Type 0} → LocConf → MainConf C → Slot (Draft C) → Slot (LocConf × MainConf C)
after_parse loc main (conf_ok d) = after_block loc main d d.type
after_parse loc main duplicate = duplicate
after_parse loc main conf_error = conf_error

-- `ngx_http_statshouse_metric_slot`; `in_http` is the test of `cf->module_type`, and `parse` is
-- `ngx_conf_parse` with the block's context, which calls the functions of the commands.
unfoldable pub metric_slot :
    {C : Type 0}
    → (Draft C → Slot (Draft C))
    → Bool
    → Bool
    → Str
    → LocConf
    → MainConf C
    → Slot (LocConf × MainConf C)
metric_slot parse in_http granted name loc main =
    if in_http
    then (if granted then after_parse loc main (parse (new_draft name)) else conf_error)
    else conf_error

-- What a command of the block does to the draft: the module's own functions, and those of
-- nginx, which set the field that the command's offset says.
pub data Step {C : Type 0} (granted : Bool) (d d' : Draft C) : Action → Type 0 where
  set_exists : (names : List Str) → d' ≡ record d { exists = some names } → Step granted d d' exists
  set_condition :
      (strings : List Str)
      → d' ≡ record d { condition_strings = some strings }
      → Step granted d d' condition
  set_timeout : (n : ℕ) → d' ≡ record d { timeout = some n } → Step granted d d' timeout
  set_sample : (n : ℕ) → d' ≡ record d { sample = some n } → Step granted d d' sample
  set_phase : (s : Str) → d' ≡ record d { phase = s } → Step granted d d' phase
  set_value :
      (type : StatType) (arg : Str) (props : List Str)
      → value_slot type arg props d ≡ conf_ok d'
      → Step granted d d' (value type)
  set_key :
      (i : ℕ) (name arg : Str) (props : List Str)
      → key_slot granted i name arg props d ≡ conf_ok d'
      → Step granted d d' (key i name)
