-- ===== src/Http/Adding.antt =====
-- `ngx_http_statshouse_metric_slot` of src/ngx_http_statshouse_module.c: the metric that a block adds.
use nginx_statshouse_module.Base.{
  ℕ, ◌≡◌, refl, subst, List, [], ◌∷◌, ◌++◌, Bool, true, false, Option, none, some, length,
}
use nginx_statshouse_module.Stat.{Str, StatType, keys_max}
use nginx_statshouse_module.Compile.Config.{Conf}
use nginx_statshouse_module.Directive.{Slot, conf_ok, duplicate, conf_error, Draft}
use nginx_statshouse_module.Http.Conf.{LocConf, MainConf}
use nginx_statshouse_module.Http.Inheritance.{ids_of}
use nginx_statshouse_module.Http.Labels.{Labelled}
use nginx_statshouse_module.Http.Metric.{
  new_draft, finished, push_conf, add_metric, after_block, after_parse, metric_slot,
}
use nginx_statshouse_module.Http.Blocks.{Reaches, Keyed, Reaches-Keyed}

-- What a block adds: one metric, behind the others.
pub record Adds {C : Type 0} (name : Str) (loc : LocConf) (main : MainConf C) (loc' : LocConf)
    (main' : MainConf C) : Type 0 where
  pub conf : Conf (Option C)
  pub metrics : main'.confs ≡ main.confs ++ (conf ∷ [])
  pub own : ids_of loc'.confs ≡ ids_of loc.confs ++ (length main.confs ∷ [])
  pub servers : main'.servers ≡ main.servers
  pub same_name : conf.name ≡ name
  pub enabled : conf.disable ≡ false
  pub uncompiled : conf.condition ≡ []
  pub count : length conf.keys ≡ keys_max
  pub labels : Labelled 0 conf.keys

abbrev OnAdd : {C : Type 0} → Str → LocConf → MainConf C → Slot (LocConf × MainConf C) → Type 0
OnAdd name loc main (conf_ok (loc', main')) = Adds name loc main loc' main'
OnAdd name loc main duplicate = Unit
OnAdd name loc main conf_error = Unit

push_conf-ids : (ids : Option (List ℕ)) (i : ℕ) → ids_of (push_conf ids i) ≡ ids_of ids ++ (i ∷ [])
push_conf-ids none i = refl
push_conf-ids (some ids) i = refl

module _ {C : Type 0} (name : Str) (loc : LocConf) (main : MainConf C) where
  after_block-OnAdd :
      (d : Draft C) (o : Option StatType)
      → Keyed name d
      → OnAdd name loc main (after_block loc main d o)
  unfolding after_block add_metric finished
  after_block-OnAdd d none h = tt
  after_block-OnAdd d (some type) h = record {
    conf = finished d type;
    metrics = refl;
    own = push_conf-ids loc.confs (length main.confs);
    servers = refl;
    same_name = h.same_name;
    enabled = refl;
    uncompiled = refl;
    count = h.count;
    labels = h.labels;
  }

  -- What the parser may leave.
  abbrev pub Parsed : Bool → Slot (Draft C) → Type 0
  Parsed granted (conf_ok d) = Reaches granted (new_draft name) d
  Parsed granted duplicate = Unit
  Parsed granted conf_error = Unit

  after_parse-OnAdd :
      (granted : Bool) (r : Slot (Draft C))
      → Parsed granted r
      → OnAdd name loc main (after_parse loc main r)
  unfolding after_parse
  after_parse-OnAdd granted (conf_ok d) h =
      after_block-OnAdd d d.type (Reaches-Keyed granted name d h)
  after_parse-OnAdd granted duplicate h = tt
  after_parse-OnAdd granted conf_error h = tt

  metric_slot-OnAdd :
      (parse : Draft C → Slot (Draft C)) (in_http granted : Bool)
      → Parsed granted (parse (new_draft name))
      → OnAdd name loc main (metric_slot parse in_http granted name loc main)
  unfolding metric_slot
  metric_slot-OnAdd parse false granted h = tt
  metric_slot-OnAdd parse true false h = tt
  metric_slot-OnAdd parse true true h = after_parse-OnAdd true (parse (new_draft name)) h

  -- If a block `statshouse_metric` is accepted, and nginx's parser calls for it, one after the
  -- other, commands of the module's table alone, then one metric is added behind all others, and
  -- its number behind those of the location. It has the name that the directive gives, it is not
  -- disabled and has no compiled condition, and it has 17 keys, each of which has no name or the
  -- documented one: its number, and "_s" for the last. The servers are the same.
  pub metric_slot-Adds :
      (parse : Draft C → Slot (Draft C)) (in_http granted : Bool) (loc' : LocConf)
      (main' : MainConf C)
      → Parsed granted (parse (new_draft name))
      → metric_slot parse in_http granted name loc main ≡ conf_ok (loc', main')
      → Adds name loc main loc' main'
  metric_slot-Adds parse in_http granted loc' main' h e =
      subst (λ r. OnAdd name loc main r) e (metric_slot-OnAdd parse in_http granted h)
