-- ===== src/Http/Tests.antt =====
-- A request, a configuration and variables of the HTTP module, and the theorems at concrete inputs.
use nginx_statshouse_module.Base.{
  subst, sym, ℕ, ◌*◌, set, replicate, ◌≡◌, ◌≢◌, ◌↔◌, inl, inr, refl, List, [], ◌∷◌, ◌++◌, true,
  false, none, some, All, arith,
}
use nginx_statshouse_module.Nginx.{ngx_ok, ngx_declined}
use nginx_statshouse_module.Stat.{
  mt_counter, keys_max, Stat, stat_init, stat_value, stat_value_counter, stat_key,
}
use nginx_statshouse_module.Split.{
  stat_part, is_group_delimiter, skip, scan, trimmed, past_comma, finish_part, after_scan,
}
use nginx_statshouse_module.Text.{codes, strncmp}
use nginx_statshouse_module.Compile.Config.{
  is_empty, held_back, touched, cut_part, test_required_predicates, eval_key, eval_keys,
}
use nginx_statshouse_module.Compile.Values.{
  one_more, parse_value, fill_value, put_value, after_cut, values_loop, compile_values,
}
use nginx_statshouse_module.Compile.Keys.{key_all, one_key, keys_loop}
use nginx_statshouse_module.Compile.{compile_keys, compile_all, stat_compile}
use nginx_statshouse_module.Tl.Encoding.{
  packet_bytes, metrics_bytes, metric_bytes, string_bytes, keys_bytes, values_bytes,
}
use nginx_statshouse_module.Tl.{string_padding}
use nginx_statshouse_module.Running.{in_phase, sampled_out, running, unstarted}
use nginx_statshouse_module.Running.Delivery.{Fits, Accepts}
use nginx_statshouse_module.Directive.{
  Slot, conf_error, value, conf_ok, merge_value, ServerConf, same_bytes, Draft, key, blank_key,
}
use nginx_statshouse_module.Http.Conf.{LocConf, MainConf}
use nginx_statshouse_module.Http.Location.{merge_confs, merge_rest, merge_loc_conf}
use nginx_statshouse_module.Http.Init.{
  Variables, variable_exists, satisfied, compile_conditions, compile_tested, compile_key,
  compile_each_key, compile_enabled, compile_metric, init_complex,
}
use nginx_statshouse_module.Http.Target.{
  server_params, same_server, find_server, use_server, register, configure, is_off, server_slot,
}
use nginx_statshouse_module.Http.Send.{
  World, enabled_server, send_enabled, send_stat_to, send_stat_with, send_confs, http_send,
  send_stat,
}
use nginx_statshouse_module.Http.Collect.{collect_conf, collect, sent_of, send_confs-collect}
use nginx_statshouse_module.Http.Delivery.{Sent, http_send-Sent}
use nginx_statshouse_module.Http.Inheritance.{
  merge_chain, Inherits, merge_chain-Inherits, off-http_send,
}
use nginx_statshouse_module.Http.Ready.{MetricReady, init_complex-Ready}
use nginx_statshouse_module.Http.Exists.{Known, variable_exists_iff}
use nginx_statshouse_module.Http.Slots.{
  key_slot, with_key, key_props, value_slot, with_value, value_props,
}
use nginx_statshouse_module.Http.Metric.{
  new_draft, set_key, set_value, finished, add_metric, after_block, after_parse, metric_slot,
}
use nginx_statshouse_module.Http.Adding.{Parsed, Adds, metric_slot-Adds}
use nginx_statshouse_module.Http.Blocks.{Reaches, begins, goes_on}
use nginx_statshouse_module.Http.Registry.{Registers, server_slot-Registers}
use nginx_statshouse_module.Http.Start.{Initialised, start_servers, init}
use nginx_statshouse_module.Http.NoCrash.{IsSome, http_send-IsSome}
use nginx_statshouse_module.Fixtures.{
  all_granted, zeroed_aggregate, zeroed_stat, counting, count_of, worker, started, local_server,
  core, good-Delivers, outside-Plain,
}

abbrev location : LocConf
location = record { confs = some (0 ∷ []); server = some (some 0); enable = some true }

abbrev world : World ℕ
world = record { confs = counting ∷ []; servers = running started ∷ [] }

abbrev two_counts : List Stat
two_counts = count_of 12 ∷ count_of 3 ∷ []

-- "12,3" gives two statistics.
collects :
    collect worker none 2 0 (0 ∷ []) (counting ∷ []) started.splits
    ≡ some (two_counts, counting ∷ [], two_counts)
unfolding collect collect_conf in_phase sampled_out stat_compile held_back touched compile_all
    test_required_predicates eval_keys eval_key compile_values values_loop after_cut put_value
    fill_value parse_value one_more cut_part stat_part after_scan scan skip trimmed past_comma
    finish_part is_group_delimiter compile_keys keys_loop one_key is_empty key_all stat_key
    stat_init stat_value stat_value_counter
collects = refl

started-Accepts : Accepts started true 4096 []
started-Accepts = record {
  plain = refl;
  carries = record {
    waiting = [];
    out = [];
    holds = record {
      pending = refl;
      datagrams = refl;
      no_overrun = omega arith;
      room_fits = omega arith;
    };
    order = refl;
    same_room = refl;
  };
  same_flag = refl;
}

count-Fits : (n : ℕ) → Fits 4096 (count_of n)
unfolding packet_bytes metrics_bytes metric_bytes string_bytes keys_bytes values_bytes
    string_padding
count-Fits n = record {
  sendable = record { slots = omega arith; packet_fits = omega arith };
  packet_room = omega arith;
}

http_send-Sent_example :
    Sent worker world 0 true 4096 two_counts (counting ∷ []) (http_send worker none location world)
http_send-Sent_example =
    http_send-Sent worker (λ n. good-Delivers) none location world 0 (0 ∷ []) started true 4096 []
      two_counts (counting ∷ []) two_counts refl refl refl refl started-Accepts collects
      (count-Fits 12, (count-Fits 3, tt))

send_confs-collect_example :
    send_confs worker none 0 (0 ∷ []) (counting ∷ []) started
    ≡ sent_of worker started (collect worker none 2 0 (0 ∷ []) (counting ∷ []) started.splits)
send_confs-collect_example = send_confs-collect worker none 0 (0 ∷ []) (counting ∷ []) started

http_send-IsSome_example : IsSome (http_send worker none location world)
http_send-IsSome_example =
    http_send-IsSome worker outside-Plain none location world (omega arith, tt)
      (omega arith, omega arith)

-- three levels: the outermost is merged
abbrev outer_level : LocConf
outer_level = record { confs = some (1 ∷ []); server = some none; enable = some false }

abbrev server_level : LocConf
server_level = record { confs = none; server = some (some 0); enable = some true }

abbrev inner_level : LocConf
inner_level = record { confs = some (2 ∷ []); server = none; enable = none }

merge_chain-Inherits_example :
    (loc : LocConf) × ((merge_chain outer_level (server_level ∷ inner_level ∷ []) ≡ conf_ok loc)
      × Inherits outer_level (server_level ∷ inner_level ∷ []) loc)
merge_chain-Inherits_example =
    merge_chain-Inherits (server_level ∷ inner_level ∷ []) outer_level
      (record { server = none; enable = false; server_set = refl; enable_set = refl })

abbrev empty_main : MainConf ℕ
empty_main = record { servers = []; confs = [] }

turns_off :
    server_slot core true (codes "off" ++ []) [] inner_level empty_main
    ≡ conf_ok (record inner_level { enable = some false }, empty_main)
unfolding server_slot is_off strncmp
turns_off = refl

merges :
    merge_loc_conf true location (record inner_level { enable = some false })
    ≡ conf_ok (record { confs = some (2 ∷ 0 ∷ []); server = some (some 0); enable = some false })
unfolding merge_loc_conf merge_rest merge_confs merge_value
merges = refl

off-http_send_example :
    http_send worker none
      (record { confs = some (2 ∷ 0 ∷ []); server = some (some 0); enable = some false })
      world
    ≡ some world
off-http_send_example =
    off-http_send core worker true [] inner_level empty_main location none world refl
      (record inner_level { enable = some false })
      (record { confs = some (2 ∷ 0 ∷ []); server = some (some 0); enable = some false }) turns_off
      merges

abbrev names : Variables
names = record {
  prefix_variables = codes "arg_" ∷ [];
  variables = codes "uri" ∷ [];
  variables_keys = codes "host" ∷ [];
}

compiles :
    init_complex names (λ s. some 1) (counting ∷ [])
    ≡ some (record counting { value = record counting.value { complex = some 1 } } ∷ [])
unfolding init_complex compile_metric satisfied compile_enabled compile_conditions compile_each_key
    compile_key compile_tested
compiles = refl

init_complex-Ready_example :
    All MetricReady (record counting { value = record counting.value { complex = some 1 } } ∷ [])
init_complex-Ready_example =
    init_complex-Ready names (λ s. some 1) (counting ∷ [])
      (record counting { value = record counting.value { complex = some 1 } } ∷ []) (tt, tt)
      compiles

variable_exists_iff_example :
    ((variable_exists names (codes "$arg_x") ≡ ngx_ok) ↔ Known names (codes "arg_x"))
    × ((variable_exists names (codes "$arg_x") ≢ ngx_ok)
        → variable_exists names (codes "$arg_x") ≡ ngx_declined)
variable_exists_iff_example =
    variable_exists_iff names b'a' (codes "rg_x")
      (record { prefixes = omega arith; indexed = omega arith; hashed = omega arith })

abbrev one_server : MainConf ℕ
one_server = record { servers = local_server ∷ []; confs = [] }

abbrev new_server : ServerConf
new_server = record local_server {
  flush_after_request = false;
  buffer_size = 4 * 1024;
  splits_max = 16;
}

registers :
    server_slot core true (codes "127.1") [] inner_level one_server
    ≡ conf_ok (
      record inner_level { server = some (some 1); enable = some true },
      record one_server { servers = local_server ∷ new_server ∷ [] },
    )
unfolding server_slot is_off strncmp configure server_params register find_server same_server
    use_server same_bytes
registers = refl

server_slot-Registers_example :
    Registers one_server
      (record inner_level { server = some (some 1); enable = some true })
      (record one_server { servers = local_server ∷ new_server ∷ [] })
server_slot-Registers_example =
    server_slot-Registers core true inner_level one_server (tt, tt) (codes "127.1") []
      (record inner_level { server = some (some 1); enable = some true })
      (record one_server { servers = local_server ∷ new_server ∷ [] }) registers

abbrev keyed : Draft ℕ
unfolding new_draft
keyed = record (new_draft (codes "m")) {
  keys =
      set (replicate keys_max blank_key) 0
        (record blank_key { string = codes "$uri"; name = codes "0" });
}

sets_key : key_slot true 0 (codes "0") (codes "$uri") [] (new_draft (codes "m")) ≡ conf_ok keyed
unfolding key_slot with_key key_props new_draft
sets_key = refl

one_key_reached : Reaches true (new_draft (codes "m")) keyed
one_key_reached =
    goes_on (new_draft (codes "m")) keyed (key 0 (codes "0")) begins
      (inr (inr (inr (inr (inr (inr (inr (inr (inr (inl refl))))))))))
      (set_key 0 (codes "0") (codes "$uri") [] sets_key)

abbrev counted : Draft ℕ
counted = record keyed { type = some mt_counter; value_string = codes "1" }

-- the block `key0 $uri; count 1;`
abbrev parse_block : Draft ℕ → Slot (Draft ℕ)
parse_block d = elim (key_slot true 0 (codes "0") (codes "$uri") [] d) [
  | conf_ok d' ↦ value_slot mt_counter (codes "1") [] d'
  | _ ↦ conf_error
]

sets_value : value_slot mt_counter (codes "1") [] keyed ≡ conf_ok counted
unfolding value_slot with_value value_props new_draft
sets_value = refl

parses : parse_block (new_draft (codes "m")) ≡ conf_ok counted
unfolding key_slot with_key key_props value_slot with_value value_props new_draft
parses = refl

counted_reached : Reaches true (new_draft (codes "m")) counted
counted_reached =
    goes_on keyed counted (value mt_counter) one_key_reached
      (inr (inr (inr (inr (inr (inl refl)))))) (set_value mt_counter (codes "1") [] sets_value)

abbrev added_main : MainConf ℕ
unfolding finished
added_main = record { servers = []; confs = finished counted mt_counter ∷ [] }

adds :
    metric_slot parse_block true true (codes "m") inner_level empty_main
    ≡ conf_ok (record inner_level { confs = some (2 ∷ 0 ∷ []) }, added_main)
unfolding metric_slot after_parse after_block add_metric finished key_slot with_key key_props
    value_slot with_value value_props new_draft
adds = refl

metric_slot-Adds_example :
    Adds
      (codes "m")
      inner_level
      empty_main
      (record inner_level { confs = some (2 ∷ 0 ∷ []) })
      added_main
metric_slot-Adds_example =
    metric_slot-Adds (codes "m") inner_level empty_main parse_block true true
      (record inner_level { confs = some (2 ∷ 0 ∷ []) }) added_main
      (subst (λ r. Parsed (codes "m") inner_level empty_main true r) (sym parses) counted_reached)
      adds

-- Without metrics no server starts, and a statistic sent to one reads through its NULL buffer.
abbrev no_metrics : MainConf ℕ
no_metrics = record { servers = local_server ∷ []; confs = [] }

initialises :
    init (λ n. all_granted) zeroed_aggregate zeroed_stat names (λ s. some 1) true no_metrics
    ≡ some (record { servers = unstarted local_server ∷ []; confs = []; registered = false })
unfolding init init_complex start_servers
initialises = refl

sends_to_unstarted :
    send_stat worker location
      (count_of 3)
      (record { confs = []; servers = unstarted local_server ∷ [] })
    ≡ none
unfolding send_stat enabled_server send_stat_to send_stat_with
sends_to_unstarted = refl

-- The configuration of the `http` block is not merged: without a server of its own, its metrics are sent
-- through the unset pointer.
sends_unmerged :
    http_send worker none (record { confs = some (0 ∷ []); server = none; enable = none }) world
    ≡ none
unfolding http_send enabled_server send_enabled
sends_unmerged = refl

abbrev one_metric : MainConf ℕ
one_metric = record { servers = local_server ∷ []; confs = counting ∷ [] }

abbrev ready : Initialised ℕ
ready = record {
  servers = running started ∷ [];
  confs = record counting { value = record counting.value { complex = some 1 } } ∷ [];
  registered = true;
}
