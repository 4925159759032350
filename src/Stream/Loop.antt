-- ===== src/Stream/Loop.antt =====
-- The loop of `ngx_stream_statshouse_send` of src/ngx_stream_statshouse_module.c over an array, beside that of
-- `ngx_http_statshouse_send` of src/ngx_http_statshouse_module.c over the numbers of metrics.
use nginx_statshouse_module.Base.{
  ℕ, zero, suc, ◌+◌, ◌≡◌, refl, sym, ap, ◌∙◌, List, [], ◌∷◌, ◌++◌, append_assoc, Option, none, some,
  length, length-append, get_elem?, set,
}
use nginx_statshouse_module.Stat.{Str}
use nginx_statshouse_module.Compile.Config.{Conf}
use nginx_statshouse_module.Running.{Running, Outer}
use nginx_statshouse_module.Http.Send as Http
use nginx_statshouse_module.Stream.Send as Stream

-- the numbers from `i` on
abbrev pub numbers : ℕ → ℕ → List ℕ
numbers i zero = []
numbers i (suc n) = i ∷ numbers (i + 1) n

get_elem?-middle :
    {A : Type 0} (xs : List A) (y : A) (ys : List A)
    → get_elem? (xs ++ (y ∷ ys)) (length xs) ≡ some y
get_elem?-middle [] y ys = refl
get_elem?-middle (x ∷ xs) y ys = get_elem?-middle xs y ys

set-middle :
    {A : Type 0} (xs : List A) (y z : A) (ys : List A)
    → set (xs ++ (y ∷ ys)) (length xs) z ≡ (xs ++ (z ∷ [])) ++ ys
set-middle [] y z ys = refl
set-middle (x ∷ xs) y z ys = ap (λ l. x ∷ l) (set-middle xs y z ys)

-- the metrics before those that the loop is at
abbrev pub behind : {A R : Type 0} → List A → Option (List A × R) → Option (List A × R)
behind xs none = none
behind xs (some (ys, r)) = some (xs ++ ys, r)

behind-front :
    {A R : Type 0} (xs : List A) (y : A) (o : Option (List A × R))
    → behind (xs ++ (y ∷ [])) o ≡ behind xs (Stream.front y o)
behind-front xs y none = refl
behind-front xs y (some (ys, r)) = ap (λ l. some (l, r)) (append_assoc xs (y ∷ []) ys)

behind-nil : {A R : Type 0} (o : Option (List A × R)) → behind [] o ≡ o
behind-nil none = refl
behind-nil (some (ys, r)) = refl

module _ {C : Type 0} (o : Outer (Option C)) (phase : Option Str) where
  send_conf-twin :
      (n : ℕ) (conf : Conf (Option C)) (run : Running)
      → Http.send_conf o phase n conf run ≡ Stream.send_conf o phase n conf run
  unfolding Http.send_conf Stream.send_conf
  send_conf-twin n conf run = refl

  round-twin :
      (n : ℕ) (before : List (Conf (Option C))) (conf : Conf (Option C))
      (confs : List (Conf (Option C))) (run : Running)
      (next : List (Conf (Option C)) → Running → Option (List (Conf (Option C)) × Running))
      (more : Running → Option (List (Conf (Option C)) × Running))
      → ((conf' : Conf (Option C)) (run' : Running)
          → next ((before ++ (conf' ∷ [])) ++ confs) run'
            ≡ behind (before ++ (conf' ∷ [])) (more run'))
      → Http.and_then
          (Http.send_found o phase n
            (length before)
            (before ++ (conf ∷ confs))
            run
            (get_elem? (before ++ (conf ∷ confs)) (length before)))
          next
        ≡ behind before (Stream.keep_front (Stream.send_conf o phase n conf run) more)
  unfolding Http.send_found
  round-twin n before conf confs run next more h =
      ap
        (λ f.
          Http.and_then (Http.send_found o phase n (length before) (before ++ (conf ∷ confs)) run f)
            next)
        (get_elem?-middle before conf confs)
      ∙ ap (λ r. Http.and_then (Http.put_back (length before) (before ++ (conf ∷ confs)) r) next)
          (send_conf-twin n conf run)
      ∙ by_result (Stream.send_conf o phase n conf run)
    where
      by_result :
          (r : Option (Conf (Option C) × Running))
          → Http.and_then (Http.put_back (length before) (before ++ (conf ∷ confs)) r) next
            ≡ behind before (Stream.keep_front r more)
      by_result none = refl
      by_result (some (conf', run')) =
          ap (λ l. next l run') (set-middle before conf conf' confs)
          ∙ h conf' run'
          ∙ behind-front before conf' (more run')

  loops-twin :
      (confs before : List (Conf (Option C))) (n : ℕ) (run : Running)
      → Http.send_confs o phase n (numbers (length before) (length confs)) (before ++ confs) run
        ≡ behind before (Stream.send_array o phase n confs run)
  unfolding Http.send_confs Stream.send_array
  loops-twin [] before n run = refl
  loops-twin (conf ∷ confs) before n run = round-twin n before conf confs run _ _ (λ conf' run'.
      ap
        (λ i.
          Http.send_confs o phase (n + 1) (numbers i (length confs))
            ((before ++ (conf' ∷ [])) ++ confs) run')
        (sym (length-append before (conf' ∷ [])))
      ∙ loops-twin confs (before ++ (conf' ∷ [])) (n + 1) run')

  -- The loop of the stream module over an array of metrics does what the loop of the HTTP module
  -- does for a location whose metrics are those of the array, one number after the other: both
  -- crash, or they leave the same metrics and the same server.
  pub send_array-twin :
      (confs : List (Conf (Option C))) (run : Running)
      → Stream.send_array o phase 0 confs run
        ≡ Http.send_confs o phase 0 (numbers 0 (length confs)) confs run
  send_array-twin confs run = sym (loops-twin confs [] 0 run ∙ behind-nil _)
