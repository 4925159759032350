-- ===== src/Stream/Offsets.antt =====
-- Parameters of `statshouse_server` that are read at another place than they begin
-- (src/ngx_stream_statshouse_module.c, src/ngx_http_statshouse_module.c).
use nginx_statshouse_module.Base.{
  ℕ, zero, suc, ◌+◌, ◌-◌, ◌%◌, ◌^◌, ◌<◌, ◌≤◌, ◌≡◌, refl, ap, ap₂, [], ◌∷◌, ◌++◌, ◌⊎◌, inr, none,
  some, length, drop, arith, List, Bool, false, Option, ◌∙◌, if◌then◌else◌,
}
use nginx_statshouse_module.Stat.{Str}
use nginx_statshouse_module.Text.{codes, strncmp, Slice, slice}
use nginx_statshouse_module.Directive.{Core, ServerConf, conf_ok, conf_error}
use nginx_statshouse_module.Stream.Conf.{SrvConf, MainConf}
use nginx_statshouse_module.Http.Target as Http
use nginx_statshouse_module.Stream.Target as Stream

-- `ngx_atoi` refuses a text that does not start with a digit.
abbrev pub RefusesLetters : {C : Type 0} → Core C → Type 0
RefusesLetters core =
    (c : ℕ) (cs : Str) (n : ℕ)
    → (c < b'0') ⊎ (b'9' < c)
    → core.atoi (record { bytes = c ∷ cs; len = n }) ≡ none

module _ {C : Type 0} (core : Core C) (letters : RefusesLetters core) where
  server_param-refused :
      (digits : Str) (s : ServerConf)
      → Stream.server_param core (codes "aggregate_values=" ++ digits) s ≡ none
  unfolding Stream.server_param strncmp
  server_param-refused digits s =
      ap (λ o. Stream.for_number o (λ n. record s { aggregate_values = n }))
        (letters b'v' _ _ (inr (omega arith)))

  server_params-refused :
      (before : List Str) (digits : Str) (after : List Str) (s : ServerConf)
      → Stream.server_params core (before ++ ((codes "aggregate_values=" ++ digits) ∷ after)) s
        ≡ none
  unfolding Stream.server_params
  server_params-refused [] digits after s =
      stops (Stream.server_param core (codes "aggregate_values=" ++ digits) s)
        (server_param-refused digits s)
    where
      stops :
          (o : Option ServerConf)
          → o ≡ none
          → elim o [ none ↦ none | some s' ↦ Stream.server_params core after s' ] ≡ none
      stops none e = refl
      stops (some s') e = absurd cc
  server_params-refused (p ∷ ps) digits after s =
      go (server_params-refused ps digits after) (Stream.server_param core p s)
    where
      go :
          ((s' : ServerConf)
            → Stream.server_params core (ps ++ ((codes "aggregate_values=" ++ digits) ∷ after)) s'
              ≡ none)
          → (o : Option ServerConf)
          → elim o [
            | none ↦ none
            | some s' ↦
                Stream.server_params core (ps ++ ((codes "aggregate_values=" ++ digits) ∷ after)) s'
          ]
            ≡ none
      go rest none = refl
      go rest (some s') = rest s'

  configure-refused :
      (granted : Bool) (before : List Str) (digits : Str) (after : List Str) (srv : SrvConf)
      (main : MainConf C) (addr : Option (List ℕ))
      → Stream.configure core granted
          (before ++ ((codes "aggregate_values=" ++ digits) ∷ after))
          srv
          main
          addr
        ≡ conf_error
  unfolding Stream.configure Stream.register
  configure-refused granted before digits after srv main none = refl
  configure-refused granted before digits after srv main (some addr) =
      rw (server_params-refused before digits after (Stream.defaults addr)) refl

  has_params :
      (arg : Str) (before : List Str) (p : Str) (after : List Str)
      → Stream.is_off arg (before ++ (p ∷ after)) ≡ false
  unfolding Stream.is_off
  has_params arg [] p after = refl
  has_params arg (q ∷ qs) p after = refl

  -- If `ngx_atoi` refuses what does not start with a digit, the stream module's directive
  -- `statshouse_server` is refused, where none was given before, as soon as one of its parameters
  -- starts with `aggregate_values=`, whatever follows that name and whatever the other parameters
  -- are.
  pub aggregate_values-refused :
      (granted : Bool) (arg : Str) (before : List Str) (digits : Str) (after : List Str)
      (srv : SrvConf) (main : MainConf C)
      → srv.server ≡ none
      → Stream.server_slot core granted arg
          (before ++ ((codes "aggregate_values=" ++ digits) ∷ after))
          srv
          main
        ≡ conf_error
  unfolding Stream.server_slot
  aggregate_values-refused granted arg before digits after srv main unset =
      let params = before ++ ((codes "aggregate_values=" ++ digits) ∷ after) in
      let configured = Stream.configure core granted params srv main (core.parse_url arg) in
      let off = conf_ok (record srv { enable = some false }, main) in
      ap (λ server. Stream.unless_set server (if Stream.is_off arg params then off else configured))
        unset
      ∙ ap (λ b. if b then off else configured)
          (has_params arg before (codes "aggregate_values=" ++ digits) after)
      ∙ configure-refused granted before digits after srv main (core.parse_url arg)

drop_short : (n : ℕ) (s : Str) → length s ≤ n → drop n s ≡ []
drop_short zero [] h = refl
drop_short zero (x ∷ s) h = absurd (omega arith)
drop_short (suc n) [] h = refl
drop_short (suc n) (x ∷ s) h = drop_short n s (omega arith)

-- what is read of such a parameter
abbrev pub overrun : Str → Slice
overrun rest = record { bytes = []; len = 2 ^ 64 + length rest - 5 }

slice-overrun : (rest : Str) → length rest < 5 → slice 11 (codes "splits" ++ rest) ≡ overrun rest
slice-overrun rest short =
    let length_wraps : (2 ^ 64 + length (codes "splits" ++ rest) - 11) % 2 ^ 64
        ≡ 2 ^ 64 + length rest - 5 =
      omega arith in
    ap₂ (λ bytes len. record { bytes = bytes; len = len }) (drop_short 5 rest (omega arith))
      length_wraps

-- Both modules read a parameter that starts with `splits` and has less than 11 bytes as
-- `splits_max=`, from behind its end on, with a length that has wrapped to almost 2^64 bytes.
pub splits-overrun :
    {C : Type 0} (core : Core C) (rest : Str) (s : ServerConf)
    → length rest < 5
    → (Http.server_param core (codes "splits" ++ rest) s
        ≡ Http.for_number (core.atoi (overrun rest)) (λ n. record s { splits_max = n }))
      × (Stream.server_param core (codes "splits" ++ rest) s
          ≡ Stream.for_number (core.atoi (overrun rest)) (λ n. record s { splits_max = n }))
unfolding Stream.server_param Http.server_param strncmp
splits-overrun core rest s short =
    let same = slice-overrun rest short in
    (
      ap (λ l. Http.for_number (core.atoi l) (λ n. record s { splits_max = n })) same,
      ap (λ l. Stream.for_number (core.atoi l) (λ n. record s { splits_max = n })) same,
    )
