-- ===== src/Http/Registry.antt =====
-- `ngx_http_statshouse_server_slot` of src/ngx_http_statshouse_module.c and the servers that are registered.
use nginx_statshouse_module.Base.{
  ℕ, ◌+◌, ◌<◌, ◌≡◌, refl, sym, subst, List, [], ◌∷◌, ◌++◌, append-nil, Bool, false, Bool-cases, inl,
  inr, Option, none, some, if◌then◌else◌, length, length-append, All, All-append, arith,
}
use nginx_statshouse_module.Stat.{Str}
use nginx_statshouse_module.Directive.{Core, Slot, conf_ok, duplicate, conf_error, ServerConf}
use nginx_statshouse_module.Http.Conf.{LocConf, MainConf}
use nginx_statshouse_module.Http.Target.{
  defaults, server_params, same_server, find_server, use_server, register, configure, is_off,
  unless_set, server_slot,
}

-- No two registered servers are the same.
abbrev pub Distinct : List ServerConf → Type 0
Distinct [] = Unit
Distinct (s ∷ ss) = All (λ t. same_server s t ≡ false) ss × Distinct ss

-- A location's server is a registered one, if it has one.
abbrev pub Points : Option (Option ℕ) → List ServerConf → Type 0
Points none ss = Unit
Points (some none) ss = Unit
Points (some (some i)) ss = i < length ss

-- what a directive keeps of the main configuration
pub record Registers {C : Type 0} (main : MainConf C) (loc : LocConf) (main' : MainConf C)
    : Type 0 where
  pub distinct : Distinct main'.servers
  pub points : Points loc.server main'.servers
  pub extra : List ServerConf
  pub before : main'.servers ≡ main.servers ++ extra
  pub metrics : main'.confs ≡ main.confs

abbrev OnOk : {C : Type 0} → MainConf C → Slot (LocConf × MainConf C) → Type 0
OnOk main (conf_ok (loc, main')) = Registers main loc main'
OnOk main duplicate = Unit
OnOk main conf_error = Unit

-- what the search answers
abbrev Found : List ServerConf → ServerConf → ℕ → Option ℕ → Type 0
Found ts s i none = All (λ t. same_server t s ≡ false) ts
Found ts s i (some j) = j < i + length ts

find_server-Found :
    (ts : List ServerConf) (s : ServerConf) (i : ℕ) → Found ts s i (find_server ts s i)
unfolding find_server
find_server-Found [] s i = tt
find_server-Found (t ∷ ts) s i = elim (Bool-cases (same_server t s)) [
  | inl e ↦ rw e (omega arith)
  | inr e ↦ rw e (later (find_server ts s (i + 1)) e (find_server-Found ts s (i + 1)))
]
  where
    later : (o : Option ℕ) → same_server t s ≡ false → Found ts s (i + 1) o → Found (t ∷ ts) s i o
    later none e h = (e, h)
    later (some j) e h = omega arith

Distinct-append :
    (ts : List ServerConf) (s : ServerConf)
    → Distinct ts
    → All (λ t. same_server t s ≡ false) ts
    → Distinct (ts ++ (s ∷ []))
Distinct-append [] s d h = (tt, tt)
Distinct-append (t ∷ ts) s (d, ds) (h, hs) = (All-one_more ts d, Distinct-append ts s ds hs)
  where
    All-one_more :
        (us : List ServerConf)
        → All (λ u. same_server t u ≡ false) us
        → All (λ u. same_server t u ≡ false) (us ++ (s ∷ []))
    All-one_more us a = All-append (λ u. same_server t u ≡ false) us (s ∷ []) a (h, tt)

module _ {C : Type 0} (core : Core C) (granted : Bool) (loc : LocConf) (main : MainConf C)
    (distinct : Distinct main.servers) where
  use_server-OnOk :
      (s : ServerConf) (o : Option ℕ)
      → Found main.servers s 0 o
      → OnOk main (use_server granted loc main s o)
  unfolding use_server
  use_server-OnOk s (some i) h = record {
    distinct = distinct;
    points = omega arith;
    extra = [];
    before = sym (append-nil main.servers);
    metrics = refl;
  }
  use_server-OnOk s none h = elim (Bool-cases granted) [
    | inr e ↦ rw e tt
    | inl e ↦ rw e (record {
      distinct = Distinct-append main.servers s distinct h;
      points = omega (arith, length-append main.servers (s ∷ []));
      extra = s ∷ [];
      before = refl;
      metrics = refl;
    })
  ]

  register-OnOk : (o : Option ServerConf) → OnOk main (register granted loc main o)
  unfolding register
  register-OnOk none = tt
  register-OnOk (some s) =
      use_server-OnOk s (find_server main.servers s 0) (find_server-Found main.servers s 0)

  configure-OnOk :
      (params : List Str) (addr : Option (List ℕ))
      → OnOk main (configure core granted params loc main addr)
  unfolding configure
  configure-OnOk params none = tt
  configure-OnOk params (some addr) = register-OnOk (server_params core params (defaults addr))

  server_slot-OnOk :
      (arg : Str) (params : List Str) → OnOk main (server_slot core granted arg params loc main)
  unfolding server_slot
  server_slot-OnOk arg params = by_server loc.server refl
    where
      off_or_set :
          loc.server ≡ none
          → OnOk main (
              if is_off arg params
              then conf_ok (record loc { enable = some false }, main)
              else configure core granted params loc main (core.parse_url arg))
      off_or_set unset = elim (Bool-cases (is_off arg params)) [
        | inl e ↦ rw e (record {
          distinct = distinct;
          points = rw unset tt;
          extra = [];
          before = sym (append-nil main.servers);
          metrics = refl;
        })
        | inr e ↦ rw e (configure-OnOk params (core.parse_url arg))
      ]

      by_server :
          (o : Option (Option ℕ))
          → loc.server ≡ o
          → OnOk main (
              unless_set o (
                if is_off arg params
                then conf_ok (record loc { enable = some false }, main)
                else configure core granted params loc main (core.parse_url arg)))
      by_server none unset = off_or_set unset
      by_server (some s) set = tt

  -- If `statshouse_server` is accepted where no two registered servers are the same, then no two
  -- are the same afterwards either, those that were registered stay under their numbers, the
  -- location points at a registered server or at none, and the metrics are the same.
  pub server_slot-Registers :
      (arg : Str) (params : List Str) (loc' : LocConf) (main' : MainConf C)
      → server_slot core granted arg params loc main ≡ conf_ok (loc', main')
      → Registers main loc' main'
  server_slot-Registers arg params loc' main' e = subst (OnOk main) e (server_slot-OnOk arg params)
