-- ===== src/Http/Target.antt =====
-- `ngx_http_statshouse_server_slot`: the directive `statshouse_server`.
use nginx_statshouse_module.Base.{
  ℕ, ◌+◌, ◌*◌, List, [], ◌∷◌, ◌++◌, Bool, true, false, ◌&&◌, Option, none, some, ◌==◌,
  if◌then◌else◌, length,
}
use nginx_statshouse_module.Stat.{Str}
use nginx_statshouse_module.Text.{codes, strncmp, slice}
use nginx_statshouse_module.Directive.{
  Slot, conf_ok, duplicate, conf_error, Core, ServerConf, same_bytes, bool_eq,
}
use nginx_statshouse_module.Http.Conf.{LocConf, MainConf}

-- the local variables before the loop over the parameters, with the address of the URL
abbrev pub defaults : List ℕ → ServerConf
defaults addr = record {
  addr = addr;
  flush_after_request = false;
  buffer_size = 4 * 1024;
  aggregate_size = 0;
  aggregate_values = 24;
  splits_max = 16;
  flush = 1000;
}

abbrev pub for_number : Option ℕ → (ℕ → ServerConf) → Option ServerConf
for_number none f = none
for_number (some n) f = some (f n)

-- one round of the loop; `none` is `NGX_CONF_ERROR`
unfoldable pub server_param : {C : Type 0} → Core C → Str → ServerConf → Option ServerConf
server_param core p s =
    if strncmp p (codes "buffer=") 7
    then for_number (core.parse_size (slice 7 p)) (λ n. record s { buffer_size = n })
    else if strncmp p (codes "aggregate=") 10
    then for_number (core.parse_size (slice 10 p)) (λ n. record s { aggregate_size = n })
    else if strncmp p (codes "aggregate_values=") 17
    then for_number (core.atoi (slice 17 p)) (λ n. record s { aggregate_values = n })
    else if strncmp p (codes "flush=") 6
    then for_number (core.parse_time (slice 6 p)) (λ n. record s { flush = n })
    else if strncmp p (codes "splits_max=") 6
    then for_number (core.atoi (slice 11 p)) (λ n. record s { splits_max = n })
    else if strncmp p (codes "flush_after_request") 19
    then some (record s { flush_after_request = true })
    else none

unfoldable pub server_params : {C : Type 0} → Core C → List Str → ServerConf → Option ServerConf
server_params core [] s = some s
server_params core (p ∷ ps) s = elim (server_param core p s) [
  | none ↦ none
  | some s' ↦ server_params core ps s'
]

-- the comparison of a registered server with the one that is configured
unfoldable pub same_server : ServerConf → ServerConf → Bool
same_server a b =
    (length a.addr == length b.addr)
    && (same_bytes a.addr b.addr
        && (bool_eq a.flush_after_request b.flush_after_request
            && ((a.splits_max == b.splits_max)
                && ((a.aggregate_size == b.aggregate_size)
                    && ((a.aggregate_values == b.aggregate_values)
                        && (a.buffer_size == b.buffer_size))))))

-- the loop that looks for the same server, from the number `i` on
unfoldable pub find_server : List ServerConf → ServerConf → ℕ → Option ℕ
find_server [] s i = none
find_server (t ∷ ts) s i =
    let rest = find_server ts s (i + 1) in if same_server t s then some i else rest

-- What follows the loops: the same server is used, or a new one is registered.
unfoldable pub use_server :
    {C : Type 0} → Bool → LocConf → MainConf C → ServerConf → Option ℕ → Slot (LocConf × MainConf C)
use_server granted loc main s (some i) =
    conf_ok (record loc { server = some (some i); enable = some true }, main)
use_server granted loc main s none =
    if granted
    then conf_ok (
      record loc { server = some (some (length main.servers)); enable = some true },
      record main { servers = main.servers ++ (s ∷ []) },
    )
    else conf_error

unfoldable pub register :
    {C : Type 0} → Bool → LocConf → MainConf C → Option ServerConf → Slot (LocConf × MainConf C)
register granted loc main none = conf_error
register granted loc main (some s) = use_server granted loc main s (find_server main.servers s 0)

unfoldable pub configure :
    {C : Type 0}
    → Core C
    → Bool
    → List Str
    → LocConf
    → MainConf C
    → Option (List ℕ)
    → Slot (LocConf × MainConf C)
configure core granted params loc main none = conf_error
configure core granted params loc main (some addr) =
    register granted loc main (server_params core params (defaults addr))

-- `cf->args->nelts == 2` and `value[1]` starts with "off"
unfoldable pub is_off : Str → List Str → Bool
is_off arg [] = strncmp arg (codes "off") 3
is_off arg (p ∷ ps) = false

abbrev pub unless_set : {A : Type 0} → Option (Option ℕ) → Slot A → Slot A
unless_set none r = r
unless_set (some s) r = duplicate

-- `ngx_http_statshouse_server_slot`; `arg` is `value[1]`, and `params` are the arguments from `value[2]` on.
unfoldable pub server_slot :
    {C : Type 0}
    → Core C
    → Bool
    → Str
    → List Str
    → LocConf
    → MainConf C
    → Slot (LocConf × MainConf C)
server_slot core granted arg params loc main = unless_set loc.server (
    if is_off arg params
    then conf_ok (record loc { enable = some false }, main)
    else configure core granted params loc main (core.parse_url arg))
