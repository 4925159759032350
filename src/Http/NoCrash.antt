-- ===== src/Http/NoCrash.antt =====
-- `ngx_http_statshouse_send` of src/ngx_http_statshouse_module.c, and where a crash comes from.
use nginx_statshouse_module.Base.{
  ℕ, zero, suc, ◌+◌, ◌<◌, ◌≤◌, take, ◌≡◌, List, [], ◌∷◌, Bool, true, false, Bool-cases, inl, inr,
  Option, none, some, length, length-set, get_elem?, set, All, arith,
}
use nginx_statshouse_module.Stat.{Str, Stat}
use nginx_statshouse_module.Compile.Config.{Conf, Outcome, compiled, returned, crashed}
use nginx_statshouse_module.Compile.NoCrash.{Plain, Safe}
use nginx_statshouse_module.Compile.{stat_compile}
use nginx_statshouse_module.Http.Collect.{deliver_keeps}
use nginx_statshouse_module.Compile.Total.{stat_compile-Safe}
use nginx_statshouse_module.Running.{
  Running, Outer, in_phase, sampled_out, after_compile, finish_request, deliver, Instance, running,
  running_at,
}
use nginx_statshouse_module.Http.Conf.{LocConf}
use nginx_statshouse_module.Http.Send.{
  World, put_back, and_then, enabled_server, send_conf, send_found, send_confs, send_with,
  send_enabled, http_send,
}

-- The metrics of the location and its server are there.
abbrev pub Below : ℕ → Option (List ℕ) → Type 0
Below n none = Unit
Below n (some ids) = All (λ id. id < n) ids

-- An array of a server has room for one statistic or more, and as many slots as it says.
abbrev pub Roomy : Running → Type 0
Roomy run = (1 ≤ run.splits_max) × (run.splits_max ≤ length run.splits)

abbrev pub IsRoomy : Option Running → Type 0
IsRoomy none = ⊥
IsRoomy (some run) = Roomy run

-- The server of a merged location, which is none or one that is started.
abbrev pub ServerReady : List Instance → Option (Option ℕ) → Type 0
ServerReady servers none = ⊥
ServerReady servers (some none) = Unit
ServerReady servers (some (some i)) = IsRoomy (running_at servers i)

-- an element that is there, or a result
abbrev pub IsSome {ℓ} : {A : Type ℓ} → Option A → Type 0
IsSome none = ⊥
IsSome (some a) = Unit

get_elem?-IsSome : {A : Type 0} (xs : List A) (i : ℕ) → i < length xs → IsSome (get_elem? xs i)
get_elem?-IsSome [] i h = absurd (omega arith)
get_elem?-IsSome (x ∷ xs) zero h = tt
get_elem?-IsSome (x ∷ xs) (suc i) h = get_elem?-IsSome xs i (omega arith)

module _ {C : Type 0} (o : Outer (Option C))
    (plain : (v : Option C) (s : Str)
      → o.variables.complex v ≡ some s
      → Plain o.variables.behind s) where
  -- A round that did not crash, and whose array is still roomy.
  abbrev RoundRoomy : Option (Conf (Option C) × Running) → Type 0
  RoundRoomy none = ⊥
  RoundRoomy (some (conf, run)) = Roomy run

  deliver-Roomy :
      (stats splits : List Stat) (run : Running)
      → Roomy run
      → length run.splits ≤ length splits
      → Roomy (deliver o (record run { splits = splits }) stats)
  deliver-Roomy stats splits run h more =
      let (same, max) = deliver_keeps o stats (record run { splits = splits }) in
      rw (same, max) (h.0, omega (arith, h.1))

  after_compile-Roomy :
      (run : Running) (r : Outcome × Conf (Option C) × List Stat)
      → Roomy run
      → let (outcome, conf, stats) = r in
        Safe (length run.splits) (outcome, stats) → RoundRoomy (after_compile o run r)
  unfolding after_compile
  after_compile-Roomy run (compiled n, conf, stats) h safe =
      deliver-Roomy (take n stats) stats run h safe
  after_compile-Roomy run (returned rc, conf, stats) h safe = (h.0, omega (arith, h.1))
  after_compile-Roomy run (crashed, conf, stats) h safe = safe

  send_conf-Roomy :
      (phase : Option Str) (n : ℕ) (conf : Conf (Option C)) (run : Running)
      → Roomy run
      → RoundRoomy (send_conf o phase n conf run)
  unfolding send_conf
  send_conf-Roomy phase n conf run h = elim (Bool-cases (in_phase phase conf)) [
    | inr e ↦ rw e h
    | inl e ↦ rw e (elim (Bool-cases (sampled_out (o.random n) conf)) [
      | inl e' ↦ rw e' h
      | inr e' ↦ rw e' (
          after_compile-Roomy run (stat_compile o.variables conf run.splits run.splits_max o.time) h
            (stat_compile-Safe o.variables plain conf run.splits run.splits_max o.time h.0 h.1))
    ])
  ]

  -- a round, if the rest of the loop does not crash on as many metrics
  round-IsSome :
      (phase : Option Str) (n id : ℕ) (confs : List (Conf (Option C))) (run : Running)
      (next : List (Conf (Option C)) → Running → Option (List (Conf (Option C)) × Running))
      (found : Option (Conf (Option C)))
      → Roomy run
      → IsSome found
      → ((confs' : List (Conf (Option C))) (run' : Running)
          → length confs' ≡ length confs
          → Roomy run'
          → IsSome (next confs' run'))
      → IsSome (and_then (send_found o phase n id confs run found) next)
  unfolding send_found
  round-IsSome phase n id confs run next none room has h = absurd has
  round-IsSome phase n id confs run next (some conf) room has h =
      by_result (send_conf o phase n conf run) (send_conf-Roomy phase n conf run room)
    where
      by_result :
          (r : Option (Conf (Option C) × Running))
          → RoundRoomy r
          → IsSome (and_then (put_back id confs r) next)
      by_result none e = absurd e
      by_result (some (conf', run')) e = h (set confs id conf') run' (length-set confs id conf') e

  send_confs-IsSome :
      (phase : Option Str) (n : ℕ) (ids : List ℕ) (confs : List (Conf (Option C))) (run : Running)
      → Roomy run
      → All (λ id. id < length confs) ids
      → IsSome (send_confs o phase n ids confs run)
  unfolding send_confs
  send_confs-IsSome phase n [] confs run room h = tt
  send_confs-IsSome phase n (id ∷ ids) confs run room (h, hs) =
      round-IsSome phase n id confs run _ (get_elem? confs id) room (get_elem?-IsSome confs id h)
        (λ confs' run' e room'. send_confs-IsSome phase (n + 1) ids confs' run' room' (rw e hs))

  send_with-IsSome :
      (phase : Option Str) (i : ℕ) (ids : List ℕ) (w : World C) (found : Option Running)
      → IsRoomy found
      → All (λ id. id < length w.confs) ids
      → IsSome (send_with o phase i ids w found)
  unfolding send_with
  send_with-IsSome phase i ids w none room h = absurd room
  send_with-IsSome phase i ids w (some run) room h =
      by_loop (send_confs o phase 0 ids w.confs run)
        (send_confs-IsSome phase 0 ids w.confs run room h)
    where
      by_loop :
          (r : Option (List (Conf (Option C)) × Running))
          → IsSome r
          → IsSome {A = World C} (
              and_then r (λ confs run'. some (record {
                confs = confs;
                servers = set w.servers i (running (finish_request o run'));
              })))
      by_loop none e = absurd e
      by_loop (some (confs, run')) e = tt

  enabled-IsSome :
      (phase : Option Str) (enable : Option Bool) (server : Option (Option ℕ))
      (ids : Option (List ℕ)) (w : World C)
      → Below (length w.confs) ids
      → ServerReady w.servers server
      → IsSome (send_enabled o phase ids (enabled_server enable server) w)
  unfolding send_enabled enabled_server
  enabled-IsSome phase enable server none w h s = tt
  enabled-IsSome phase enable none (some ids) w h s = absurd s
  enabled-IsSome phase enable (some none) (some ids) w h s = tt
  enabled-IsSome phase (some false) (some (some i)) (some ids) w h s = tt
  enabled-IsSome phase (some true) (some (some i)) (some ids) w h s =
      send_with-IsSome phase i ids w (running_at w.servers i) s h
  enabled-IsSome phase none (some (some i)) (some ids) w h s =
      send_with-IsSome phase i ids w (running_at w.servers i) s h

  -- If no variable's value has a colon, and none lies in memory behind one that can be read, then
  -- a request does not crash at a location whose metrics are there and whose server is set: to
  -- none, or to one that is started and whose array has the slots it says, one or more.
  pub http_send-IsSome :
      (phase : Option Str) (loc : LocConf) (w : World C)
      → Below (length w.confs) loc.confs
      → ServerReady w.servers loc.server
      → IsSome (http_send o phase loc w)
  unfolding http_send
  http_send-IsSome phase loc w h s = enabled-IsSome phase loc.enable loc.server loc.confs w h s
