-- ===== src/Stream/Twin.antt =====
-- `ngx_stream_statshouse_server_slot` of src/ngx_stream_statshouse_module.c beside its twin of
-- src/ngx_http_statshouse_module.c.
use nginx_statshouse_module.Base.{
  ℕ, ◌+◌, ◌≡◌, refl, ap, ◌∙◌, List, [], ◌∷◌, Bool, false, Bool-cases, inl, inr, Option, none, some,
  if◌then◌else◌, All,
}
use nginx_statshouse_module.Stat.{Str}
use nginx_statshouse_module.Text.{codes, strncmp}
use nginx_statshouse_module.Directive.{Core, Slot, conf_ok, duplicate, conf_error, ServerConf}
use nginx_statshouse_module.Http.Conf.{LocConf}
use nginx_statshouse_module.Stream.Conf.{SrvConf}
use nginx_statshouse_module.Http.Conf as HttpConf
use nginx_statshouse_module.Stream.Conf as StreamConf
use nginx_statshouse_module.Http.Target as Http
use nginx_statshouse_module.Stream.Target as Stream

-- A parameter that the two modules name alike and read at the same place.
pub record Common (p : Str) : Type 0 where
  pub no_values : strncmp p (codes "aggregate_values=") 17 ≡ false
  pub no_request : strncmp p (codes "flush_after_request") 19 ≡ false
  pub no_session : strncmp p (codes "flush_after_session") 19 ≡ false

server_param-twin :
    {C : Type 0} (core : Core C) (p : Str) (s : ServerConf)
    → Common p
    → Stream.server_param core p s ≡ Http.server_param core p s
unfolding Stream.server_param Http.server_param
server_param-twin core p s h = rw (h.no_values, h.no_request, h.no_session) refl

server_params-twin :
    {C : Type 0} (core : Core C) (ps : List Str) (s : ServerConf)
    → All Common ps
    → Stream.server_params core ps s ≡ Http.server_params core ps s
unfolding Stream.server_params Http.server_params
server_params-twin core [] s h = refl
server_params-twin core (p ∷ ps) s (h, hs) =
    ap (λ o. elim o [ none ↦ none | some s' ↦ Stream.server_params core ps s' ])
      (server_param-twin core p s h)
    ∙ go (Http.server_param core p s) (λ s'. server_params-twin core ps s' hs)
  where
    go :
        (o : Option ServerConf)
        → ((s' : ServerConf) → Stream.server_params core ps s' ≡ Http.server_params core ps s')
        → elim o [ none ↦ none | some s' ↦ Stream.server_params core ps s' ]
          ≡ elim o [ none ↦ none | some s' ↦ Http.server_params core ps s' ]
    go none same = refl
    go (some s') same = same s'

same_server-twin : (a b : ServerConf) → Stream.same_server a b ≡ Http.same_server a b
unfolding Stream.same_server Http.same_server
same_server-twin a b = refl

find_server-twin :
    (ts : List ServerConf) (s : ServerConf) (i : ℕ)
    → Stream.find_server ts s i ≡ Http.find_server ts s i
unfolding Stream.find_server Http.find_server
find_server-twin [] s i = refl
find_server-twin (t ∷ ts) s i = rw (same_server-twin t s, find_server-twin ts s (i + 1)) refl

-- What the directive leaves in either module: the server and the switch, and the registered servers.
abbrev pub Left : Type 0
Left = Slot (Option (Option ℕ) × Option Bool × List ServerConf)

abbrev pub http_left : {C : Type 0} → Slot (LocConf × HttpConf.MainConf C) → Left
http_left (conf_ok (loc, main)) = conf_ok (loc.server, loc.enable, main.servers)
http_left duplicate = duplicate
http_left conf_error = conf_error

abbrev pub stream_left : {C : Type 0} → Slot (SrvConf × StreamConf.MainConf C) → Left
stream_left (conf_ok (srv, main)) = conf_ok (srv.server, srv.enable, main.servers)
stream_left duplicate = duplicate
stream_left conf_error = conf_error

-- The two modules before the directive.
pub record Alike {C : Type 0} (loc : LocConf) (main : HttpConf.MainConf C) (srv : SrvConf)
    (stream_main : StreamConf.MainConf C) : Type 0 where
  pub server : srv.server ≡ loc.server
  pub enable : srv.enable ≡ loc.enable
  pub servers : stream_main.servers ≡ main.servers

module _ {C : Type 0} (core : Core C) (granted : Bool) (loc : LocConf) (main : HttpConf.MainConf C)
    (srv : SrvConf) (stream_main : StreamConf.MainConf C)
    (alike : Alike loc main srv stream_main) where
  use_server-twin :
      (s : ServerConf) (o : Option ℕ)
      → stream_left (Stream.use_server granted srv stream_main s o)
        ≡ http_left (Http.use_server granted loc main s o)
  unfolding Stream.use_server Http.use_server
  use_server-twin s (some i) = rw alike.servers refl
  use_server-twin s none = elim (Bool-cases granted) [
    | inl e ↦ rw (e, alike.servers) refl
    | inr e ↦ rw e refl
  ]

  register-twin :
      (o : Option ServerConf)
      → stream_left (Stream.register granted srv stream_main o)
        ≡ http_left (Http.register granted loc main o)
  unfolding Stream.register Http.register
  register-twin none = refl
  register-twin (some s) =
      ap (λ l. stream_left (Stream.use_server granted srv stream_main s (Stream.find_server l s 0)))
        alike.servers
      ∙ ap (λ i. stream_left (Stream.use_server granted srv stream_main s i))
          (find_server-twin main.servers s 0)
      ∙ use_server-twin s (Http.find_server main.servers s 0)

  configure-twin :
      (params : List Str) (addr : Option (List ℕ))
      → All Common params
      → stream_left (Stream.configure core granted params srv stream_main addr)
        ≡ http_left (Http.configure core granted params loc main addr)
  unfolding Stream.configure Http.configure
  configure-twin params none h = refl
  configure-twin params (some addr) h =
      ap (λ o. stream_left (Stream.register granted srv stream_main o))
        (server_params-twin core params (Http.defaults addr) h)
      ∙ register-twin (Http.server_params core params (Http.defaults addr))

  is_off-twin : (arg : Str) (params : List Str) → Stream.is_off arg params ≡ Http.is_off arg params
  unfolding Stream.is_off Http.is_off
  is_off-twin arg [] = refl
  is_off-twin arg (p ∷ ps) = refl

  off-twin :
      (arg : Str) (params : List Str)
      → All Common params
      → stream_left (
          if Stream.is_off arg params
          then conf_ok (record srv { enable = some false }, stream_main)
          else Stream.configure core granted params srv stream_main (core.parse_url arg))
        ≡ http_left (
            if Http.is_off arg params
            then conf_ok (record loc { enable = some false }, main)
            else Http.configure core granted params loc main (core.parse_url arg))
  off-twin arg params h = rw (is_off-twin arg params) (elim (Bool-cases (Http.is_off arg params)) [
    | inl e ↦ rw (e, alike.server, alike.servers) refl
    | inr e ↦ rw e (configure-twin params (core.parse_url arg) h)
  ])

  -- `statshouse_server` does the same in both modules, to a location and a server block that were
  -- alike, if no parameter starts with the names `aggregate_values=`, `flush_after_request` and
  -- `flush_after_session`: it is accepted by both or by none, and leaves the same server, the
  -- same switch and the same registered servers.
  pub server_slot-twin :
      (arg : Str) (params : List Str)
      → All Common params
      → stream_left (Stream.server_slot core granted arg params srv stream_main)
        ≡ http_left (Http.server_slot core granted arg params loc main)
  unfolding Stream.server_slot Http.server_slot
  server_slot-twin arg params h = same_server_set _ _ _ _ alike.server (off-twin arg params h)
    where
      by_server :
          (o : Option (Option ℕ)) (a : Slot (SrvConf × StreamConf.MainConf C))
          (b : Slot (LocConf × HttpConf.MainConf C))
          → stream_left a ≡ http_left b
          → stream_left (Stream.unless_set o a) ≡ http_left (Http.unless_set o b)
      by_server none a b e = e
      by_server (some s) a b e = refl

      same_server_set :
          (o o' : Option (Option ℕ)) (a : Slot (SrvConf × StreamConf.MainConf C))
          (b : Slot (LocConf × HttpConf.MainConf C))
          → o ≡ o'
          → stream_left a ≡ http_left b
          → stream_left (Stream.unless_set o a) ≡ http_left (Http.unless_set o' b)
      same_server_set o o' a b same e = rw same (by_server o' a b e)
