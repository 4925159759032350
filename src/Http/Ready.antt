-- ===== src/Http/Ready.antt =====
-- What `ngx_http_statshouse_init_complex` of src/ngx_http_statshouse_module.c leaves to the workers: the values that
-- `ngx_statshouse_stat_compile` evaluates.
use nginx_statshouse_module.Base.{
  ◌≡◌, refl, ap, subst, ◌⊎◌, inl, inr, List, [], ◌∷◌, true, false, ◌||◌, ◌==◌, Bool-cases, Option,
  none, some, if◌then◌else◌, length, All, arith,
}
use nginx_statshouse_module.Stat.{Str}
use nginx_statshouse_module.Compile.Config.{Conf, ConfKey, for_some}
use nginx_statshouse_module.Http.Init.{
  Variables, satisfied, compile_each, compile_conditions, compile_tested, compile_key,
  compile_each_key, compile_enabled, compile_metric, init_complex,
}

-- a pointer that is not `NULL`
abbrev pub IsPresent : {C : Type 0} → Option C → Type 0
IsPresent none = ⊥
IsPresent (some c) = Unit

-- A key is left out, or its value can be evaluated.
abbrev pub KeyReady : {C : Type 0} → ConfKey (Option C) → Type 0
KeyReady k = ((k.disable || (length k.name == 0)) ≡ true) ⊎ IsPresent k.complex

pub record Ready {C : Type 0} (conf : Conf (Option C)) : Type 0 where
  pub value_set : IsPresent conf.value.complex
  pub conditions_set : All IsPresent conf.condition
  pub keys_ready : All KeyReady conf.keys

-- A metric is disabled, or everything that its compilation reads can be evaluated.
abbrev pub MetricReady : {C : Type 0} → Conf (Option C) → Type 0
MetricReady conf = (conf.disable ≡ true) ⊎ Ready conf

-- a predicate of what is returned, if it is not an error
abbrev OnSome {ℓ} : {A : Type ℓ} → (A → Type 0) → Option A → Type 0
OnSome P none = Unit
OnSome P (some a) = P a

OnSome-for_some {ℓ κ} :
    {A : Type ℓ} {B : Type κ} (P : A → Type 0) (Q : B → Type 0) (f : A → B) (o : Option A)
    → OnSome P o
    → ((a : A) → P a → Q (f a))
    → OnSome Q (for_some o f)
OnSome-for_some P Q f none h step = tt
OnSome-for_some P Q f (some a) h step = step a h

OnSome-any {ℓ} : {A : Type ℓ} (o : Option A) → OnSome (λ a. Unit) o
OnSome-any none = tt
OnSome-any (some a) = tt

-- a list that is returned in front of its rest
OnSome-cons :
    {A B : Type 0} (P : B → Type 0) (f : A → B) (o : Option A) (rest : Option (List B))
    → OnSome (λ a. P (f a)) o
    → OnSome (All P) rest
    → OnSome (All P) (elim o [ none ↦ none | some a ↦ for_some rest (λ bs. f a ∷ bs) ])
OnSome-cons P f none rest h hs = tt
OnSome-cons P f (some a) rest h hs = OnSome-for_some (All P) (All P) _ rest hs (λ bs all. (h, all))

module _ {C : Type 0} (vars : Variables) (compile : Str → Option C) where
  compile_tested-KeyReady :
      (k : ConfKey (Option C)) → OnSome KeyReady (compile_tested vars compile k)
  unfolding compile_tested
  compile_tested-KeyReady k = elim (Bool-cases k.disable) [
    | inl off ↦ rw off (inl refl)
    | inr on ↦
        rw on
          (OnSome-for_some (λ c. Unit) KeyReady _ (compile k.string) (OnSome-any _) (λ c h. inr tt))
  ]

  compile_key-KeyReady : (k : ConfKey (Option C)) → OnSome KeyReady (compile_key vars compile k)
  unfolding compile_key
  compile_key-KeyReady k = elim (Bool-cases (length k.name == 0)) [
    | inl nameless ↦ rw nameless (inl (ground (arith, nameless)))
    | inr named ↦ rw named (elim (Bool-cases (satisfied vars k.exists)) [
      | inl e ↦ rw e (compile_tested-KeyReady k)
      | inr e ↦ rw e (compile_tested-KeyReady (record k { disable = true }))
    ])
  ]

  compile_each_key-KeyReady :
      (ks : List (ConfKey (Option C))) → OnSome (All KeyReady) (compile_each_key vars compile ks)
  unfolding compile_each_key
  compile_each_key-KeyReady [] = tt
  compile_each_key-KeyReady (k ∷ ks) =
      OnSome-cons KeyReady (λ k'. k') (compile_key vars compile k) _ (compile_key-KeyReady k)
        (compile_each_key-KeyReady ks)

  compile_each-IsPresent : (ss : List Str) → OnSome (All IsPresent) (compile_each vars compile ss)
  unfolding compile_each
  compile_each-IsPresent [] = tt
  compile_each-IsPresent (s ∷ ss) =
      OnSome-cons IsPresent (λ c. some c) (compile s) _ (OnSome-any (compile s))
        (compile_each-IsPresent ss)

  compile_conditions-IsPresent :
      (strings : Option (List Str)) (before : List (Option C))
      → All IsPresent before
      → OnSome (All IsPresent) (compile_conditions vars compile strings before)
  unfolding compile_conditions
  compile_conditions-IsPresent none before h = h
  compile_conditions-IsPresent (some ss) before h = compile_each-IsPresent ss

  compile_enabled-Ready :
      (conf : Conf (Option C))
      → All IsPresent conf.condition
      → OnSome Ready (compile_enabled vars compile conf)
  unfolding compile_enabled
  compile_enabled-Ready conf h = on_value (compile conf.value.string)
    where
      on_condition :
          (c : C) (o : Option (List (Option C)))
          → OnSome (All IsPresent) o
          → OnSome Ready (elim o [
            | none ↦ none
            | some condition ↦ for_some (compile_each_key vars compile conf.keys) (λ keys.
                record conf {
                  value = record conf.value { complex = some c };
                  condition = condition;
                  keys = keys;
                })
          ])
      on_condition c none h = tt
      on_condition c (some condition) h =
          OnSome-for_some (All KeyReady) Ready _ _ (compile_each_key-KeyReady conf.keys)
            (λ keys hs. record { value_set = tt; conditions_set = h; keys_ready = hs })

      on_value :
          (o : Option C)
          → OnSome Ready (elim o [
            | none ↦ none
            | some c ↦
                elim (compile_conditions vars compile conf.condition_strings conf.condition) [
                  | none ↦ none
                  | some condition ↦ for_some (compile_each_key vars compile conf.keys) (λ keys.
                      record conf {
                        value = record conf.value { complex = some c };
                        condition = condition;
                        keys = keys;
                      })
                ]
          ])
      on_value none = tt
      on_value (some c) =
          on_condition c _ (compile_conditions-IsPresent conf.condition_strings conf.condition h)

  OnSome-imp :
      (P Q : Conf (Option C) → Type 0) (o : Option (Conf (Option C)))
      → OnSome P o
      → ((a : Conf (Option C)) → P a → Q a)
      → OnSome Q o
  OnSome-imp P Q none h f = tt
  OnSome-imp P Q (some a) h f = f a h

  compile_metric-MetricReady :
      (conf : Conf (Option C))
      → All IsPresent conf.condition
      → OnSome MetricReady (compile_metric vars compile conf)
  unfolding compile_metric
  compile_metric-MetricReady conf h = elim (Bool-cases (satisfied vars conf.exists)) [
    | inr e ↦ rw e (inl refl)
    | inl e ↦ rw e (elim (Bool-cases conf.disable) [
      | inl off ↦ rw off (inl refl)
      | inr on ↦
          rw (chosen on)
            (OnSome-imp Ready MetricReady _ (compile_enabled-Ready conf h) (λ a r. inr r))
    ])
  ]
    where
      chosen :
          conf.disable ≡ false
          → (if conf.disable then some conf else compile_enabled vars compile conf)
            ≡ compile_enabled vars compile conf
      chosen on = ap (λ b. if b then some conf else compile_enabled vars compile conf) on

  init_complex-MetricReady :
      (confs : List (Conf (Option C)))
      → All (λ conf. All IsPresent conf.condition) confs
      → OnSome (All MetricReady) (init_complex vars compile confs)
  unfolding init_complex
  init_complex-MetricReady [] h = tt
  init_complex-MetricReady (conf ∷ confs) (h, hs) =
      OnSome-cons MetricReady (λ c. c) (compile_metric vars compile conf) _
        (compile_metric-MetricReady conf h) (init_complex-MetricReady confs hs)

  -- If `init_complex` does not return NGX_ERROR, then of every metric that is not disabled the
  -- value and every condition can be evaluated, and so can every key that has a name and is not
  -- disabled. It is given that the metrics had no condition that is NULL before.
  pub init_complex-Ready :
      (confs confs' : List (Conf (Option C)))
      → All (λ conf. All IsPresent conf.condition) confs
      → init_complex vars compile confs ≡ some confs'
      → All MetricReady confs'
  init_complex-Ready confs confs' h e =
      subst (λ o. OnSome (All MetricReady) o) e (init_complex-MetricReady confs h)
