-- ===== src/Http/Inheritance.antt =====
-- What a location of src/ngx_http_statshouse_module.c has when the configuration has been merged.
use nginx_statshouse_module.Base.{
  ℕ, ◌≡◌, refl, sym, ap, ◌∙◌, List, [], ◌∷◌, ◌++◌, append-nil, Bool, true, false, Option, none,
  some,
}
use nginx_statshouse_module.Stat.{Str}
use nginx_statshouse_module.Text.{codes, strncmp}
use nginx_statshouse_module.Directive.{Core, Slot, conf_ok, duplicate, conf_error, merge_value}
use nginx_statshouse_module.Running.{Outer, idle}
use nginx_statshouse_module.Http.Conf.{LocConf, MainConf}
use nginx_statshouse_module.Http.Location.{merge_confs, merge_rest, merge_loc_conf}
use nginx_statshouse_module.Http.Target.{server_slot, is_off}
use nginx_statshouse_module.Http.Send.{World, enabled_server, send_enabled, http_send}

abbrev pub after_merge : Slot LocConf → (LocConf → Slot LocConf) → Slot LocConf
after_merge (conf_ok merged) f = f merged
after_merge duplicate f = duplicate
after_merge conf_error f = conf_error

-- The merge of a chain of levels, from the outermost, which is merged already, to the location.
abbrev pub merge_chain : LocConf → List LocConf → Slot LocConf
merge_chain prev [] = conf_ok prev
merge_chain prev (conf ∷ confs) =
    after_merge (merge_loc_conf true prev conf) (λ merged. merge_chain merged confs)

-- What the levels say, the innermost first: the first that is set counts.
abbrev pub first_set : {A : Type 0} → Option A → Option A → Option A
first_set none inherited = inherited
first_set (some own) inherited = some own

abbrev pub innermost : {A : Type 0} → (LocConf → Option A) → Option A → List LocConf → Option A
innermost field inherited [] = inherited
innermost field inherited (conf ∷ confs) = innermost field (first_set (field conf) inherited) confs

-- the metrics of a level
abbrev pub ids_of : Option (List ℕ) → List ℕ
ids_of none = []
ids_of (some ids) = ids

abbrev pub all_ids : List ℕ → List LocConf → List ℕ
all_ids inherited [] = inherited
all_ids inherited (conf ∷ confs) = all_ids (ids_of conf.confs ++ inherited) confs

-- A location as the documentation describes it.
pub record Inherits (prev : LocConf) (levels : List LocConf) (loc : LocConf) : Type 0 where
  pub metrics : ids_of loc.confs ≡ all_ids (ids_of prev.confs) levels
  pub switch : loc.enable ≡ innermost (λ c. c.enable) prev.enable levels
  pub target : loc.server ≡ innermost (λ c. c.server) prev.server levels

-- The outermost level is merged: its server and its switch are set.
pub record Merged (prev : LocConf) : Type 0 where
  pub server : Option ℕ
  pub enable : Bool
  pub server_set : prev.server ≡ some server
  pub enable_set : prev.enable ≡ some enable

-- one merge
record MergesTo (prev conf : LocConf) : Type 0 where
  merged : LocConf
  result : merge_loc_conf true prev conf ≡ conf_ok merged
  metrics : ids_of merged.confs ≡ ids_of conf.confs ++ ids_of prev.confs
  switch : merged.enable ≡ first_set conf.enable prev.enable
  target : merged.server ≡ first_set conf.server prev.server
  still : Merged merged

merge_value-set :
    {A : Type 0} (own inherited : Option A) (default v : A)
    → inherited ≡ some v
    → (merge_value own inherited default ≡ first_set own inherited)
      × ((a : A) × (merge_value own inherited default ≡ some a))
unfolding merge_value
merge_value-set none inherited default v e = rw e (refl, (v, refl))
merge_value-set (some own) inherited default v e = (refl, (own, refl))

-- The metrics are those of the child before those of the parent.
record IdsMerge (inherited own : Option (List ℕ)) : Type 0 where
  ids : Option (List ℕ)
  result : merge_confs true inherited own ≡ conf_ok ids
  all : ids_of ids ≡ ids_of own ++ ids_of inherited

merge_confs-IdsMerge : (inherited own : Option (List ℕ)) → IdsMerge inherited own
unfolding merge_confs
merge_confs-IdsMerge none own = record { ids = own; result = refl; all = sym (append-nil _) }
merge_confs-IdsMerge (some ids) none = record { ids = some ids; result = refl; all = refl }
merge_confs-IdsMerge (some ids) (some own) = record {
  ids = some (own ++ ids);
  result = refl;
  all = refl;
}

merge_loc_conf-MergesTo : (prev conf : LocConf) → Merged prev → MergesTo prev conf
unfolding merge_loc_conf merge_rest
merge_loc_conf-MergesTo prev conf h =
    let m = merge_confs-IdsMerge prev.confs conf.confs in
    let (switch, (enable, enable_set)) =
      merge_value-set conf.enable prev.enable false h.enable h.enable_set in
    let (target, (server, server_set)) =
      merge_value-set conf.server prev.server none h.server h.server_set in
    record {
      merged = record {
        confs = m.ids;
        server = merge_value conf.server prev.server none;
        enable = merge_value conf.enable prev.enable false;
      };
      result = ap (λ r. merge_rest prev conf r) m.result;
      metrics = m.all;
      switch = switch;
      target = target;
      still = record {
        server = server;
        enable = enable;
        server_set = server_set;
        enable_set = enable_set;
      };
    }

-- A location inside a chain of levels, the outermost of which is merged, has its own metrics and
-- those of all levels around it, the inner ones first, and the switch and the server of the
-- innermost level that sets them, if the pool gives the memory.
pub merge_chain-Inherits :
    (levels : List LocConf) (prev : LocConf)
    → Merged prev
    → (loc : LocConf) × ((merge_chain prev levels ≡ conf_ok loc) × Inherits prev levels loc)
merge_chain-Inherits [] prev h =
    (prev, (refl, record { metrics = refl; switch = refl; target = refl }))
merge_chain-Inherits (conf ∷ levels) prev h =
    let m = merge_loc_conf-MergesTo prev conf h in
    let (loc, (result, i)) = merge_chain-Inherits levels m.merged m.still in
    let chain : merge_chain prev (conf ∷ levels) ≡ conf_ok loc =
      ap (λ r. after_merge r (λ merged. merge_chain merged levels)) m.result ∙ result in
    (
      loc,
      (
        chain,
        record {
          metrics = i.metrics ∙ ap (λ l. all_ids l levels) m.metrics;
          switch = i.switch ∙ ap (λ e. innermost (λ c. c.enable) e levels) m.switch;
          target = i.target ∙ ap (λ e. innermost (λ c. c.server) e levels) m.target;
        },
      ),
    )

merge_loc_conf-enable :
    (granted : Bool) (prev conf merged : LocConf)
    → merge_loc_conf granted prev conf ≡ conf_ok merged
    → merged.enable ≡ merge_value conf.enable prev.enable false
unfolding merge_loc_conf merge_rest
merge_loc_conf-enable granted prev conf merged e = go (merge_confs granted prev.confs conf.confs) e
  where
    go :
        (ids : Slot (Option (List ℕ)))
        → merge_rest prev conf ids ≡ conf_ok merged
        → merged.enable ≡ merge_value conf.enable prev.enable false
    go (conf_ok ids) e = cc
    go duplicate e = cc
    go conf_error e = cc

server_slot-off :
    {C : Type 0} (core : Core C) (granted : Bool) (rest : Str) (loc : LocConf) (main : MainConf C)
    → loc.server ≡ none
    → server_slot core granted (codes "off" ++ rest) [] loc main
      ≡ conf_ok (record loc { enable = some false }, main)
unfolding server_slot is_off strncmp
server_slot-off core granted rest loc main unset = rw unset refl

off-idle : (server : Option (Option ℕ)) → enabled_server (some false) server ≡ idle
unfolding enabled_server
off-idle none = refl
off-idle (some none) = refl
off-idle (some (some i)) = refl

send_nothing :
    {C : Type 0} (o : Outer (Option C)) (phase : Option Str) (ids : Option (List ℕ)) (w : World C)
    → send_enabled o phase ids idle w ≡ some w
unfolding send_enabled
send_nothing o phase none w = refl
send_nothing o phase (some ids) w = refl

-- A location that has no server of its own yet and whose directive `statshouse_server` has one
-- argument, which starts with "off", sends nothing for a request once it is merged, whatever it
-- inherits and whatever the phase: nothing changes.
pub off-http_send :
    {C : Type 0} (core : Core C) (o : Outer (Option C)) (granted : Bool) (rest : Str)
    (loc : LocConf) (main : MainConf C) (prev : LocConf) (phase : Option Str) (w : World C)
    → loc.server ≡ none
    → (own merged : LocConf)
    → server_slot core granted (codes "off" ++ rest) [] loc main ≡ conf_ok (own, main)
    → merge_loc_conf granted prev own ≡ conf_ok merged
    → http_send o phase merged w ≡ some w
unfolding http_send merge_value
off-http_send core o granted rest loc main prev phase w unset own merged set merges =
    let slot = server_slot-off core granted rest loc main unset in
    let off : own.enable ≡ some false = cc in
    let switch : merged.enable ≡ some false =
      merge_loc_conf-enable granted prev own merged merges
      ∙ ap (λ e. merge_value e prev.enable false) off in
    rw (switch, off-idle merged.server) (send_nothing o phase merged.confs w)
