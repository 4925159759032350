-- ===== src/Http/Labels.antt =====
-- The names of the keys that `ngx_http_statshouse_key_slot` of src/ngx_http_statshouse_module.c gives.
use nginx_statshouse_module.Base.{
  ℕ, zero, suc, ◌+◌, ◌-◌, ◌≡◌, refl, ap, ◌∙◌, ◌⊎◌, inl, inr, List, [], ◌∷◌, Bool, true, Bool-cases,
  Option, none, some, ltb, ◌==◌, if◌then◌else◌, replicate, set, drop, arith,
}
use nginx_statshouse_module.Stat.{Str}
use nginx_statshouse_module.Text.{codes, strncmp}
use nginx_statshouse_module.Compile.Config.{ConfKey}
use nginx_statshouse_module.Directive.{blank_key}
use nginx_statshouse_module.Http.Slots.{key_props, push_variable}

-- The label of a key: its number in decimal, but for the last.
abbrev pub label : ℕ → Str
label i =
    if i == 16
    then codes "_s"
    else if ltb i 10
    then (b'0' + i) ∷ []
    else b'1' ∷ (b'0' + (i - 10)) ∷ []

-- each key from the number `i` on
abbrev pub Labelled : {C : Type 0} → ℕ → List (ConfKey (Option C)) → Type 0
Labelled i [] = Unit
Labelled i (k ∷ ks) = ((k.name ≡ []) ⊎ (k.name ≡ label i)) × Labelled (i + 1) ks

pub Labelled-set :
    {C : Type 0} (ks : List (ConfKey (Option C))) (i j : ℕ) (k : ConfKey (Option C))
    → Labelled i ks
    → k.name ≡ label (i + j)
    → Labelled i (set ks j k)
Labelled-set [] i j k h e = tt
Labelled-set (x ∷ ks) i zero k (h, hs) e =
    let same : i + 0 ≡ i = omega arith in (inr (e ∙ ap label same), hs)
Labelled-set (x ∷ ks) i (suc j) k (h, hs) e =
    let same : i + suc j ≡ i + 1 + j = omega arith in
    (h, Labelled-set ks (i + 1) j k hs (e ∙ ap label same))

pub Labelled-blank : (C : Type 0) (n i : ℕ) → Labelled {C = C} i (replicate n blank_key)
Labelled-blank C zero i = tt
Labelled-blank C (suc n) i = (inl refl, Labelled-blank C n (i + 1))

abbrev pub SameName : {C : Type 0} → Str → Option (ConfKey (Option C)) → Type 0
SameName name none = Unit
SameName name (some k) = k.name ≡ name

pub key_props-SameName :
    {C : Type 0} (granted : Bool) (ps : List Str) (k : ConfKey (Option C))
    → SameName k.name (key_props granted ps k)
unfolding key_props
key_props-SameName granted [] k = refl
key_props-SameName granted (p ∷ ps) k = elim (Bool-cases (strncmp p (codes "split") 5)) [
  | inl e ↦ rw e (key_props-SameName granted ps (record k { split = true }))
  | inr e ↦ rw e (elim (Bool-cases (strncmp p (codes "exists=") 7)) [
    | inr e' ↦ rw e' tt
    | inl e' ↦ rw e' (elim (Bool-cases granted) [
      | inr g ↦ rw g tt
      | inl g ↦
          rw g (
            key_props-SameName granted ps (record k { exists = push_variable k.exists (drop 7 p) }))
    ])
  ])
]
