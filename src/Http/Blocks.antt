-- ===== src/Http/Blocks.antt =====
-- A block `statshouse_metric` of src/ngx_http_statshouse_module.c as a sequence of commands, and the keys that it
-- leaves.
use nginx_statshouse_module.Base.{
  ℕ, ◌+◌, ◌≡◌, refl, ap, subst, ◌∙◌, ◌⊎◌, inl, inr, List, [], ◌∷◌, Bool, Bool-cases, Option, none,
  some, ltb, length, get_or, length-set, All, arith,
}
use nginx_statshouse_module.Stat.{Str, StatType, keys_max}
use nginx_statshouse_module.Compile.Config.{ConfKey}
use nginx_statshouse_module.Directive.{
  Slot, conf_ok, duplicate, conf_error, Draft, blank_key, Action, key, Command,
}
use nginx_statshouse_module.Http.Commands.{commands}
use nginx_statshouse_module.Http.Slots.{
  value_slot, with_value, value_props, key_slot, with_key, key_props,
}
use nginx_statshouse_module.Http.Metric.{
  new_draft, Step, set_exists, set_condition, set_timeout, set_sample, set_phase, set_value,
  set_key,
}
use nginx_statshouse_module.Http.Labels.{
  label, Labelled, Labelled-set, Labelled-blank, SameName, key_props-SameName,
}

-- a command of the table
abbrev Listed : Action → List Command → Type 0
Listed a [] = ⊥
Listed a (c ∷ cs) = (a ≡ c.action) ⊎ Listed a cs

-- The drafts that the commands of the table lead to, one after the other.
pub data Reaches {C : Type 0} (granted : Bool) (d : Draft C) : Draft C → Type 0 where
  begins : Reaches granted d d
  goes_on :
      (d' d'' : Draft C) (a : Action)
      → Reaches granted d d'
      → Listed a commands
      → Step granted d' d'' a
      → Reaches granted d d''

-- An action of the table that sets a key gives it its label.
abbrev GivesLabel : Action → Type 0
GivesLabel (key i name) = name ≡ label i
GivesLabel a = Unit

commands-GivesLabel : All (λ c. GivesLabel c.action) commands
commands-GivesLabel = search

Listed-GivesLabel :
    (a : Action) (cs : List Command)
    → All (λ c. GivesLabel c.action) cs
    → Listed a cs
    → GivesLabel a
Listed-GivesLabel a [] h l = absurd l
Listed-GivesLabel a (c ∷ cs) (h, hs) (inl e) = rw e h
Listed-GivesLabel a (c ∷ cs) (h, hs) (inr l) = Listed-GivesLabel a cs hs l

-- What a block keeps: the name, and what the keys are.
pub record Keyed {C : Type 0} (name : Str) (d : Draft C) : Type 0 where
  pub same_name : d.name ≡ name
  pub count : length d.keys ≡ keys_max
  pub labels : Labelled 0 d.keys

-- A directive that is accepted leaves such a draft.
abbrev OnDraft : {C : Type 0} → (Draft C → Type 0) → Slot (Draft C) → Type 0
OnDraft P (conf_ok d) = P d
OnDraft P duplicate = Unit
OnDraft P conf_error = Unit

module _ {C : Type 0} (granted : Bool) (title : Str) where
  kept-Keyed :
      (d d' : Draft C) → Keyed title d → d'.name ≡ d.name → d'.keys ≡ d.keys → Keyed title d'
  kept-Keyed d d' h n k = record {
    same_name = n ∙ h.same_name;
    count = rw k h.count;
    labels = rw k h.labels;
  }

  with_key-Keyed :
      (d : Draft C) (i : ℕ) (o : Option (ConfKey (Option C)))
      → Keyed title d
      → SameName (label i) o
      → OnDraft (Keyed title) (with_key d i o)
  unfolding with_key
  with_key-Keyed d i none h e = tt
  with_key-Keyed d i (some k) h e =
      let same : i ≡ 0 + i = omega arith in
      record {
        same_name = h.same_name;
        count = length-set d.keys i k ∙ h.count;
        labels = Labelled-set d.keys 0 i k h.labels (e ∙ ap label same);
      }

  key_slot-Keyed :
      (i : ℕ) (name arg : Str) (props : List Str) (d : Draft C)
      → Keyed title d
      → name ≡ label i
      → OnDraft (Keyed title) (key_slot granted i name arg props d)
  unfolding key_slot
  key_slot-Keyed i name arg props d h e =
      elim (Bool-cases (ltb 0 (length (get_or d.keys i blank_key).name))) [
        | inl used ↦ rw used tt
        | inr free ↦ rw free (
            with_key-Keyed d i changed h (
              subst (λ n. SameName {C = C} n changed) e
                (key_props-SameName granted props
                  (record (get_or d.keys i blank_key) { string = arg; name = name }))))
      ]
    where
      changed : Option (ConfKey (Option C))
      changed =
          key_props granted props (record (get_or d.keys i blank_key) { string = arg; name = name })

  with_value-Keyed :
      (type : StatType) (arg : Str) (d : Draft C) (o : Option Bool)
      → Keyed title d
      → OnDraft (Keyed title) (with_value d type arg o)
  unfolding with_value
  with_value-Keyed type arg d none h = tt
  with_value-Keyed type arg d (some split) h = kept-Keyed d _ h refl refl

  value_slot-Keyed :
      (type : StatType) (arg : Str) (props : List Str) (d : Draft C)
      → Keyed title d
      → OnDraft (Keyed title) (value_slot type arg props d)
  unfolding value_slot
  value_slot-Keyed type arg props d h = by_type d.type
    where
      by_type :
          (o : Option StatType)
          → OnDraft (Keyed title) (elim o [
            | some t ↦ duplicate
            | none ↦ with_value d type arg (value_props props d.value_split)
          ])
      by_type none = with_value-Keyed type arg d (value_props props d.value_split) h
      by_type (some t) = tt

  Step-Keyed :
      (a : Action) (d d' : Draft C)
      → Keyed title d
      → GivesLabel a
      → Step granted d d' a
      → Keyed title d'
  Step-Keyed a d d' h l (set_exists names e) = kept-Keyed d d' h (rw e refl) (rw e refl)
  Step-Keyed a d d' h l (set_condition ss e) = kept-Keyed d d' h (rw e refl) (rw e refl)
  Step-Keyed a d d' h l (set_timeout n e) = kept-Keyed d d' h (rw e refl) (rw e refl)
  Step-Keyed a d d' h l (set_sample n e) = kept-Keyed d d' h (rw e refl) (rw e refl)
  Step-Keyed a d d' h l (set_phase s e) = kept-Keyed d d' h (rw e refl) (rw e refl)
  Step-Keyed a d d' h l (set_value type arg props e) =
      subst (λ r. OnDraft (Keyed title) r) e (value_slot-Keyed type arg props d h)
  Step-Keyed a d d' h l (set_key i name arg props e) =
      subst (λ r. OnDraft (Keyed title) r) e (key_slot-Keyed i name arg props d h l)

  -- the invariant of the drafts that can be reached
  pub Reaches-Keyed : (d : Draft C) → Reaches granted (new_draft title) d → Keyed title d
  unfolding new_draft
  Reaches-Keyed d begins = record { same_name = refl; count = refl; labels = Labelled-blank C 17 0 }
  Reaches-Keyed d (goes_on d' _ a before listed step) =
      Step-Keyed a d' d (Reaches-Keyed d' before)
        (Listed-GivesLabel a commands commands-GivesLabel listed) step
