-- ===== src/Http/Collect.antt =====
-- The loop of `ngx_http_statshouse_send` of src/ngx_http_statshouse_module.c against the statistics that the metrics of the
-- location give for a request.
use nginx_statshouse_module.Base.{
  ℕ, ◌+◌, ◌≡◌, refl, ap, ◌∙◌, List, [], ◌∷◌, ◌++◌, Bool-cases, inl, inr, not, Option, none, some,
  if◌then◌else◌, get_elem?, set, take,
}
use nginx_statshouse_module.Stat.{Str, Stat}
use nginx_statshouse_module.Compile.{stat_compile}
use nginx_statshouse_module.Compile.Config.{Conf, Outcome, compiled, returned, crashed}
use nginx_statshouse_module.Running.{
  Running, Outer, in_phase, sampled_out, send_one, deliver, after_compile,
}
use nginx_statshouse_module.Http.Send.{put_back, and_then, send_conf, send_found, send_confs}

-- What a request gives, and the state that remains: the metrics, and the array the metrics are
-- compiled into.
abbrev pub Collected : Type 0 → Type 0
Collected C = List Stat × List (Conf (Option C)) × List Stat

abbrev pub of_outcome :
    {V : Type 0}
    → List Stat
    → Outcome × Conf V × List Stat
    → Option (List Stat × Conf V × List Stat)
of_outcome splits (compiled n, conf, stats) = some (take n stats, conf, stats)
of_outcome splits (returned rc, conf, stats) = some ([], conf, stats)
of_outcome splits (crashed, conf, stats) = none

abbrev pub followed_by : {C : Type 0} → List Stat → Option (Collected C) → Option (Collected C)
followed_by stats none = none
followed_by stats (some (more, confs, splits)) = some (stats ++ more, confs, splits)

module _ {C : Type 0} (o : Outer (Option C)) (phase : Option Str) (max : ℕ) where
  -- the statistics of one metric
  unfoldable pub collect_conf :
      ℕ → Conf (Option C) → List Stat → Option (List Stat × Conf (Option C) × List Stat)
  collect_conf n conf splits =
      if not (in_phase phase conf)
      then some ([], conf, splits)
      else if sampled_out (o.random n) conf
      then some ([], conf, splits)
      else of_outcome splits (stat_compile o.variables conf splits max o.time)

  abbrev pub collect_next :
      ℕ
      → List (Conf (Option C))
      → (List (Conf (Option C)) → List Stat → Option (Collected C))
      → Option (List Stat × Conf (Option C) × List Stat)
      → Option (Collected C)
  collect_next id confs more none = none
  collect_next id confs more (some (stats, conf, splits)) =
      followed_by stats (more (set confs id conf) splits)

  abbrev pub collect_found :
      ℕ
      → ℕ
      → List (Conf (Option C))
      → List Stat
      → Option (Conf (Option C))
      → (List (Conf (Option C)) → List Stat → Option (Collected C))
      → Option (Collected C)
  collect_found n id confs splits none more = none
  collect_found n id confs splits (some conf) more =
      collect_next id confs more (collect_conf n conf splits)

  -- those of all metrics, in their order
  unfoldable pub collect : ℕ → List ℕ → List (Conf (Option C)) → List Stat → Option (Collected C)
  collect n [] confs splits = some ([], confs, splits)
  collect n (id ∷ ids) confs splits =
      collect_found n id confs splits (get_elem? confs id)
        (λ confs' splits'. collect (n + 1) ids confs' splits')

abbrev pub with_splits : Running → List Stat → Running
with_splits run splits = record run { splits = splits }

module _ {C : Type 0} (o : Outer (Option C)) where
  -- What is sent does not depend on the array.
  deliver-splits :
      (stats : List Stat) (run : Running) (splits : List Stat)
      → with_splits (deliver o run stats) splits ≡ deliver o (with_splits run splits) stats
  unfolding deliver send_one
  deliver-splits [] run splits = refl
  deliver-splits (stat ∷ stats) run splits = deliver-splits stats (send_one o run stat) splits

  deliver-append :
      (xs ys : List Stat) (run : Running)
      → deliver o run (xs ++ ys) ≡ deliver o (deliver o run xs) ys
  unfolding deliver
  deliver-append [] ys run = refl
  deliver-append (x ∷ xs) ys run = deliver-append xs ys (send_one o run x)

  pub deliver_keeps :
      (stats : List Stat) (run : Running)
      → ((deliver o run stats).splits ≡ run.splits)
        × ((deliver o run stats).splits_max ≡ run.splits_max)
  unfolding deliver send_one
  deliver_keeps [] run = (refl, refl)
  deliver_keeps (stat ∷ stats) run = deliver_keeps stats (send_one o run stat)

  -- the end of the loop, from what was collected
  abbrev pub sent_of : Running → Option (Collected C) → Option (List (Conf (Option C)) × Running)
  sent_of run none = none
  sent_of run (some (stats, confs, splits)) = some (confs, deliver o (with_splits run splits) stats)

  abbrev conf_sent_of :
      Running
      → Option (List Stat × Conf (Option C) × List Stat)
      → Option (Conf (Option C) × Running)
  conf_sent_of run none = none
  conf_sent_of run (some (stats, conf, splits)) =
      some (conf, deliver o (with_splits run splits) stats)

  after_compile-of_outcome :
      (run : Running) (r : Outcome × Conf (Option C) × List Stat)
      → after_compile o run r ≡ conf_sent_of run (of_outcome run.splits r)
  unfolding after_compile deliver
  after_compile-of_outcome run (compiled n, conf, stats) = refl
  after_compile-of_outcome run (returned rc, conf, stats) = refl
  after_compile-of_outcome run (crashed, conf, stats) = refl

  send_conf-collect_conf :
      (phase : Option Str) (n : ℕ) (conf : Conf (Option C)) (run : Running)
      → send_conf o phase n conf run
        ≡ conf_sent_of run (collect_conf o phase run.splits_max n conf run.splits)
  unfolding send_conf collect_conf deliver
  send_conf-collect_conf phase n conf run = elim (Bool-cases (in_phase phase conf)) [
    | inr e ↦ rw e refl
    | inl e ↦ rw e (elim (Bool-cases (sampled_out (o.random n) conf)) [
      | inl e' ↦ rw e' refl
      | inr e' ↦ rw e' (
          after_compile-of_outcome run
            (stat_compile o.variables conf run.splits run.splits_max o.time))
    ])
  ]

  sent_of-followed_by :
      (run : Running) (stats splits : List Stat) (r : Option (Collected C))
      → sent_of (deliver o (with_splits run splits) stats) r ≡ sent_of run (followed_by stats r)
  sent_of-followed_by run stats splits none = refl
  sent_of-followed_by run stats splits (some (more, confs, splits')) =
      rw
        (
          deliver-append stats more (with_splits run splits'),
          deliver-splits stats (with_splits run splits) splits',
        )
        refl

  -- one round, if the rest of the loop does what is claimed of it
  sends_round :
      (phase : Option Str) (n id : ℕ) (confs : List (Conf (Option C))) (run : Running)
      (next : List (Conf (Option C)) → Running → Option (List (Conf (Option C)) × Running))
      (more : List (Conf (Option C)) → List Stat → Option (Collected C))
      → ((confs' : List (Conf (Option C))) (run' : Running)
          → run'.splits_max ≡ run.splits_max
          → next confs' run' ≡ sent_of run' (more confs' run'.splits))
      → (found : Option (Conf (Option C)))
      → and_then (send_found o phase n id confs run found) next
        ≡ sent_of run (collect_found o phase run.splits_max n id confs run.splits found more)
  unfolding send_found
  sends_round phase n id confs run next more h none = refl
  sends_round phase n id confs run next more h (some conf) =
      ap (λ r. and_then (put_back id confs r) next) (send_conf-collect_conf phase n conf run)
      ∙ by_collected (collect_conf o phase run.splits_max n conf run.splits)
    where
      by_collected :
          (c : Option (List Stat × Conf (Option C) × List Stat))
          → and_then (put_back id confs (conf_sent_of run c)) next
            ≡ sent_of run (collect_next o phase run.splits_max id confs more c)
      by_collected none = refl
      by_collected (some (stats, conf', splits)) =
          let (same, max) = deliver_keeps stats (with_splits run splits) in
          h (set confs id conf') (deliver o (with_splits run splits) stats) max
          ∙ ap
              (λ l.
                sent_of (deliver o (with_splits run splits) stats) (more (set confs id conf') l))
              same
          ∙ sent_of-followed_by run stats splits (more (set confs id conf') splits)

  -- The loop of `send` over the metrics of a location sends exactly the statistics that the
  -- metrics of the phase and of the sample give, one metric after the other; and it crashes if
  -- the compilation of one of them does.
  pub send_confs-collect :
      (phase : Option Str) (n : ℕ) (ids : List ℕ) (confs : List (Conf (Option C))) (run : Running)
      → send_confs o phase n ids confs run
        ≡ sent_of run (collect o phase run.splits_max n ids confs run.splits)
  unfolding send_confs collect deliver
  send_confs-collect phase n [] confs run = refl
  send_confs-collect phase n (id ∷ ids) confs run =
      sends_round phase n id confs run (λ confs' run'. send_confs o phase (n + 1) ids confs' run')
        (λ confs' splits'. collect o phase run.splits_max (n + 1) ids confs' splits')
        (λ confs' run' e.
          send_confs-collect phase (n + 1) ids confs' run'
          ∙ ap (λ m. sent_of run' (collect o phase m (n + 1) ids confs' run'.splits)) e)
        (get_elem? confs id)
