-- ===== src/Http/Exists.antt =====
-- `ngx_http_statshouse_variable_exists` of src/ngx_http_statshouse_module.c, and the variables that there are.
use nginx_statshouse_module.Base.{
  ℕ, zero, suc, ◌≤◌, ◌≡◌, ◌≢◌, refl, sym, ap, ◌∙◌, ◌⊎◌, ◌↔◌, inl, inr, List, [], ◌∷◌, ◌++◌,
  append-nil, Bool, true, false, not, ◌||◌, ◌&&◌, ◌==◌, ltb, length, length-append, drop, All,
  arith, if◌then◌else◌,
}
use nginx_statshouse_module.Nginx.{ngx_ok, ngx_declined}
use nginx_statshouse_module.Stat.{Str}
use nginx_statshouse_module.Text.{strncmp, strncmp-prefix, strncmp-eq}
use nginx_statshouse_module.Http.Init.{Variables, has_prefix, has_name, variable_exists}

-- no byte of a name is zero
abbrev pub Clean : Str → Type 0
Clean s = All (λ b. b ≢ 0) s

abbrev pub StartsWith : Str → Str → Type 0
StartsWith name p = (rest : Str) × (name ≡ p ++ rest)

-- a name begins with one of these, or is one of these
abbrev pub AnyPrefix : List Str → Str → Type 0
AnyPrefix [] name = ⊥
AnyPrefix (p ∷ ps) name = StartsWith name p ⊎ AnyPrefix ps name

abbrev pub AnyName : List Str → Str → Type 0
AnyName [] name = ⊥
AnyName (v ∷ vs) name = (name ≡ v) ⊎ AnyName vs name

prefix_test :
    (name p : Str)
    → Clean p
    → ((not (ltb (length name) (length p)) && strncmp name p (length p)) ≡ true) ↔ StartsWith name p
prefix_test name p clean = (to, from)
  where
    to :
        (not (ltb (length name) (length p)) && strncmp name p (length p)) ≡ true → StartsWith name p
    to e = (drop (length p) name, strncmp-eq name p clean (ground (arith, e)))

    from :
        StartsWith name p → (not (ltb (length name) (length p)) && strncmp name p (length p)) ≡ true
    from (rest, e) = rw e (ground (arith, strncmp-prefix p rest clean, length-append p rest))

drop_all : (n : ℕ) (s : Str) → length s ≤ n → drop n s ≡ []
drop_all zero [] h = refl
drop_all zero (x ∷ s) h = absurd (omega arith)
drop_all (suc n) [] h = refl
drop_all (suc n) (x ∷ s) h = drop_all n s (omega arith)

name_test :
    (name v : Str)
    → Clean v
    → (((length name == length v) && strncmp name v (length name)) ≡ true) ↔ (name ≡ v)
name_test name v clean = (to, from)
  where
    to : ((length name == length v) && strncmp name v (length name)) ≡ true → name ≡ v
    to e =
        let same : length name ≡ length v = ground (arith, e) in
        let test : strncmp name v (length name) ≡ true = ground (arith, e) in
        let by_v : strncmp name v (length v) ≡ true =
          ap (λ n. strncmp name v n) (sym same) ∙ test in
        let nothing : drop (length v) name ≡ [] = drop_all (length v) name (omega arith) in
        strncmp-eq name v clean by_v ∙ ap (λ l. v ++ l) nothing ∙ append-nil v

    from : name ≡ v → ((length name == length v) && strncmp name v (length name)) ≡ true
    from e =
        let test : strncmp (v ++ []) v (length v) ≡ true = strncmp-prefix v [] clean in
        let test' : strncmp v v (length v) ≡ true =
          ap (λ l. strncmp l v (length v)) (sym (append-nil v)) ∙ test in
        rw e (ground (arith, test'))

or_iff :
    (a b : Bool) {A B : Type 0} → ((a ≡ true) ↔ A) → ((b ≡ true) ↔ B) → ((a || b) ≡ true) ↔ (A ⊎ B)
or_iff true b (to, from) (to', from') = ((λ e. inl (to refl)), λ k. refl)
or_iff false b (to, from) (to', from') =
    ((λ e. inr (to' e)), λ k. elim k [ inl x ↦ let e = from x in cc | inr y ↦ from' y ])

has_prefix_iff :
    (ps : List Str) (name : Str) → All Clean ps → (has_prefix ps name ≡ true) ↔ AnyPrefix ps name
unfolding has_prefix
has_prefix_iff [] name h = ((λ e. cc), λ k. absurd k)
has_prefix_iff (p ∷ ps) name (h, hs) =
    or_iff (not (ltb (length name) (length p)) && strncmp name p (length p)) (has_prefix ps name)
      (prefix_test name p h) (has_prefix_iff ps name hs)

has_name_iff :
    (vs : List Str) (name : Str) → All Clean vs → (has_name vs name ≡ true) ↔ AnyName vs name
unfolding has_name
has_name_iff [] name h = ((λ e. cc), λ k. absurd k)
has_name_iff (v ∷ vs) name (h, hs) =
    or_iff ((length name == length v) && strncmp name v (length name)) (has_name vs name)
      (name_test name v h) (has_name_iff vs name hs)

-- no name of the core module has a zero byte
pub record CleanNames (vars : Variables) : Type 0 where
  pub prefixes : All Clean vars.prefix_variables
  pub indexed : All Clean vars.variables
  pub hashed : All Clean vars.variables_keys

abbrev pub Known : Variables → Str → Type 0
Known vars bare =
    AnyPrefix vars.prefix_variables bare
    ⊎ (AnyName vars.variables bare ⊎ AnyName vars.variables_keys bare)

-- A name that is a `$` and at least one byte is answered NGX_OK exactly if the bytes behind the
-- `$` begin with a prefix of the core module, or are one of its names, indexed or in the hash,
-- and NGX_DECLINED otherwise, if no name of the core module has a zero byte.
pub variable_exists_iff :
    (vars : Variables) (c : ℕ) (cs : Str)
    → CleanNames vars
    → ((variable_exists vars (b'$' ∷ c ∷ cs) ≡ ngx_ok) ↔ Known vars (c ∷ cs))
      × ((variable_exists vars (b'$' ∷ c ∷ cs) ≢ ngx_ok)
          → variable_exists vars (b'$' ∷ c ∷ cs) ≡ ngx_declined)
unfolding variable_exists
variable_exists_iff vars c cs h =
    let long : ltb (suc (suc (length cs))) 2 ≡ false = ground arith in
    rw long (
      answer (has_prefix vars.prefix_variables (c ∷ cs)) (has_name vars.variables (c ∷ cs))
        (has_name vars.variables_keys (c ∷ cs))
        (has_prefix_iff vars.prefix_variables (c ∷ cs) h.prefixes)
        (has_name_iff vars.variables (c ∷ cs) h.indexed)
        (has_name_iff vars.variables_keys (c ∷ cs) h.hashed))
  where
    answer :
        (p v k : Bool) {P V K : Type 0}
        → ((p ≡ true) ↔ P)
        → ((v ≡ true) ↔ V)
        → ((k ≡ true) ↔ K)
        → (((if p then ngx_ok else if v then ngx_ok else if k then ngx_ok else ngx_declined)
              ≡ ngx_ok)
            ↔ (P ⊎ (V ⊎ K)))
          × (((if p then ngx_ok else if v then ngx_ok else if k then ngx_ok else ngx_declined)
                ≢ ngx_ok)
              → (if p then ngx_ok else if v then ngx_ok else if k then ngx_ok else ngx_declined)
                ≡ ngx_declined)
    answer true v k (to, from) _ _ = (((λ e. inl (to refl)), λ x. refl), λ ne. absurd (ne refl))
    answer false true k _ (to, from) _ =
        (((λ e. inr (inl (to refl))), λ x. refl), λ ne. absurd (ne refl))
    answer false false true _ _ (to, from) =
        (((λ e. inr (inr (to refl))), λ x. refl), λ ne. absurd (ne refl))
    answer false false false (_, p) (_, v) (_, k) = (
      (
        (λ e. cc),
        λ x. elim x [
          | inl a ↦ (let e = p a in cc)
          | inr (inl a) ↦ (let e = v a in cc)
          | inr (inr a) ↦ (let e = k a in cc)
        ],
      ),
      λ ne. refl,
    )
