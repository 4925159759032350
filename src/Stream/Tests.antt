-- ===== src/Stream/Tests.antt =====
-- Directives and arrays of the stream module, and the theorems at concrete inputs.
use nginx_statshouse_module.Base.{
  ℕ, ◌≡◌, ◌<◌, ◌⊎◌, refl, [], ◌∷◌, ◌++◌, true, false, Option, none, some, ltb, ◌||◌, arith,
}
use nginx_statshouse_module.Stat.{Str}
use nginx_statshouse_module.Text.{codes, strncmp, Slice}
use nginx_statshouse_module.Directive.{Core, conf_ok, conf_error, merge_value}
use nginx_statshouse_module.Http.Conf as HttpConf
use nginx_statshouse_module.Http.Conf.{LocConf}
use nginx_statshouse_module.Http.Target as Http
use nginx_statshouse_module.Http.Send as HttpSend
use nginx_statshouse_module.Stream.Conf.{SrvConf, MainConf}
use nginx_statshouse_module.Stream.Target as Stream
use nginx_statshouse_module.Stream.Block.{merge_arrays, merge_rest, merge_srv_conf}
use nginx_statshouse_module.Stream.Send.{send_array}
use nginx_statshouse_module.Stream.Twin.{Common, http_left, stream_left, server_slot-twin}
use nginx_statshouse_module.Stream.Offsets.{overrun, aggregate_values-refused, splits-overrun}
use nginx_statshouse_module.Stream.Loop.{numbers, send_array-twin}
use nginx_statshouse_module.Stream.Sharing.{Shares, merge_srv_conf-Shares}
use nginx_statshouse_module.Fixtures.{core, digits, counting, worker, started, local_server}

abbrev location : LocConf
location = record { confs = none; server = none; enable = none }

abbrev block : SrvConf
block = record { confs = some 0; server = none; enable = none }

abbrev http_main : HttpConf.MainConf ℕ
http_main = record { servers = local_server ∷ []; confs = [] }

abbrev main : MainConf ℕ
main = record { servers = local_server ∷ []; heap = (counting ∷ []) ∷ [] }

buffer-Common : Common (codes "buffer=8k")
unfolding strncmp
buffer-Common = record { no_values = refl; no_request = refl; no_session = refl }

server_slot-twin_example :
    stream_left (Stream.server_slot core true (codes "127.1") (codes "buffer=8k" ∷ []) block main)
    ≡ http_left
        (Http.server_slot core true (codes "127.1") (codes "buffer=8k" ∷ []) location http_main)
server_slot-twin_example =
    server_slot-twin core true location http_main block main
      (record { server = refl; enable = refl; servers = refl }) (codes "127.1")
      (codes "buffer=8k" ∷ []) (buffer-Common, tt)

-- reads the digits, and nothing that does not start with one
abbrev read_digits : Slice → Option ℕ
read_digits s = elim s.bytes [
  | [] ↦ none
  | c ∷ cs ↦ elim (ltb c b'0' || ltb b'9' c) [ true ↦ none | false ↦ some (digits 0 (c ∷ cs)) ]
]

abbrev strict : Core ℕ
strict = record core { atoi = read_digits }

strict-letters :
    (c : ℕ) (cs : Str) (n : ℕ)
    → (c < b'0') ⊎ (b'9' < c)
    → strict.atoi (record { bytes = c ∷ cs; len = n }) ≡ none
strict-letters c cs n h = ground arith

aggregate_values-refused_example :
    Stream.server_slot strict true
      (codes "127.1")
      (codes "buffer=8k" ∷ (codes "aggregate_values=" ++ codes "30") ∷ [])
      block
      main
    ≡ conf_error
aggregate_values-refused_example =
    aggregate_values-refused strict strict-letters true (codes "127.1") (codes "buffer=8k" ∷ [])
      (codes "30") [] block main refl

splits-overrun_example :
    (Http.server_param core (codes "splits" ++ codes "=9") local_server
      ≡ Http.for_number
          (core.atoi (overrun (codes "=9")))
          (λ n. record local_server { splits_max = n }))
    × (Stream.server_param core (codes "splits" ++ codes "=9") local_server
        ≡ Stream.for_number
            (core.atoi (overrun (codes "=9")))
            (λ n. record local_server { splits_max = n }))
splits-overrun_example = splits-overrun core (codes "=9") local_server (omega arith)

send_array-twin_example :
    send_array worker none 0 (counting ∷ []) started
    ≡ HttpSend.send_confs worker none 0 (numbers 0 1) (counting ∷ []) started
send_array-twin_example = send_array-twin worker none (counting ∷ []) started

-- a child with an array of its own, and its parent
abbrev two_arrays : MainConf ℕ
two_arrays = record main { heap = (counting ∷ []) ∷ (counting ∷ []) ∷ [] }

abbrev child : SrvConf
child = record { confs = some 1; server = none; enable = some true }

abbrev merged_block : SrvConf
merged_block = record { confs = some 1; server = some none; enable = some true }

abbrev merged_arrays : MainConf ℕ
merged_arrays = record main { heap = (counting ∷ []) ∷ (counting ∷ counting ∷ []) ∷ [] }

merges : merge_srv_conf true two_arrays block child ≡ conf_ok (merged_block, merged_arrays)
unfolding merge_srv_conf merge_rest merge_arrays merge_value
merges = refl

merge_srv_conf-Shares_example : Shares two_arrays block child (merged_block, merged_arrays)
merge_srv_conf-Shares_example =
    merge_srv_conf-Shares true two_arrays merged_arrays block child merged_block
      (omega arith, λ e. cc) merges
