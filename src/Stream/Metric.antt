-- ===== src/Stream/Metric.antt =====
-- `ngx_stream_statshouse_metric_slot`: a block `statshouse_metric`.
use nginx_statshouse_module.Base.{
  ℕ, List, [], ◌∷◌, ◌++◌, Bool, false, Option, none, some, if◌then◌else◌, length, replicate, get_or,
  set,
}
use nginx_statshouse_module.Stat.{Str, StatType, keys_max}
use nginx_statshouse_module.Compile.Config.{Conf}
use nginx_statshouse_module.Directive.{
  Slot, conf_ok, duplicate, conf_error, Draft, blank_key, init_value,
}
use nginx_statshouse_module.Stream.Conf.{SrvConf, MainConf}

-- the draft before its block is read
unfoldable pub new_draft : {C : Type 0} → Str → Draft C
new_draft name = record {
  name = name;
  phase = [];
  exists = none;
  condition_strings = none;
  condition = none;
  timeout = none;
  sample = none;
  type = none;
  value_string = [];
  value_complex = none;
  value_split = false;
  keys = replicate keys_max blank_key;
}

-- the compiled conditions; no condition is `NULL`
unfoldable pub conditions : {C : Type 0} → Option (List C) → List (Option C)
conditions none = []
conditions (some []) = []
conditions (some (c ∷ cs)) = some c ∷ conditions (some cs)

-- What follows the block: `type` is not 0, and the values that were not set get their default.
unfoldable pub finished : {C : Type 0} → Draft C → StatType → Conf (Option C)
finished d type = record {
  name = d.name;
  phase = d.phase;
  exists = d.exists;
  condition_strings = d.condition_strings;
  condition = conditions d.condition;
  timeout = init_value d.timeout 0;
  last = 0;
  disable = false;
  value = record {
    string = d.value_string;
    complex = d.value_complex;
    type = type;
    split = d.value_split;
  };
  keys = d.keys;
  sample = init_value d.sample 0;
}

-- The metric is pushed to the array of the server block, which is created if it is `NULL`.
unfoldable pub push_metric :
    {C : Type 0} → Option ℕ → SrvConf → MainConf C → Conf (Option C) → SrvConf × MainConf C
push_metric none srv main conf = (
  record srv { confs = some (length main.heap) },
  record main { heap = main.heap ++ ((conf ∷ []) ∷ []) },
)
push_metric (some a) srv main conf =
    (srv, record main { heap = set main.heap a (get_or main.heap a [] ++ (conf ∷ [])) })

unfoldable pub after_block :
    {C : Type 0} → SrvConf → MainConf C → Draft C → Option StatType → Slot (SrvConf × MainConf C)
after_block srv main d none = conf_error
after_block srv main d (some type) = conf_ok (push_metric srv.confs srv main (finished d type))

unfoldable pub after_parse :
    {C : Type 0} → SrvConf → MainConf C → Slot (Draft C) → Slot (SrvConf × MainConf C)
after_parse srv main (conf_ok d) = after_block srv main d d.type
after_parse srv main duplicate = duplicate
after_parse srv main conf_error = conf_error

-- `ngx_stream_statshouse_metric_slot`; `in_stream` is the test of `cf->module_type`, and `parse` is
-- `ngx_conf_parse` with the block's context, which calls the functions of the commands.
unfoldable pub metric_slot :
    {C : Type 0}
    → (Draft C → Slot (Draft C))
    → Bool
    → Bool
    → Str
    → SrvConf
    → MainConf C
    → Slot (SrvConf × MainConf C)
metric_slot parse in_stream granted name srv main =
    if in_stream
    then (if granted then after_parse srv main (parse (new_draft name)) else conf_error)
    else conf_error
