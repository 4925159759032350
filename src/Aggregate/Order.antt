-- ===== src/Aggregate/Order.antt =====
-- In which order, and when, `process` hands the queued statistics to the handler.
use nginx_statshouse_module.Base.{
  ℕ, ◌≤◌, ◌<◌, ◌≡◌, refl, ap, List, [], ◌∷◌, ◌++◌, map, Option, some, Bool, true, false, Bool-cases,
  inl, inr, arith, All, if◌then◌else◌,
}
use nginx_statshouse_module.Nginx.{Rc, msec_sub}
use nginx_statshouse_module.Stat.{Stat}
use nginx_statshouse_module.Aggregate.{
  Platform, Aggregate, retire, process_loop, counted, must_wait,
}
use nginx_statshouse_module.Aggregate.Index.{Memory}

-- The statistics of a queue that leave it: those in front of the first that must wait.
unfoldable pub due : Bool → ℕ → ℕ → Memory → List ℕ → List ℕ
due flush now interval mem [] = []
due flush now interval mem (p ∷ q) =
    if must_wait flush now interval (mem p) then [] else p ∷ due flush now interval mem q

-- Those that stay.
unfoldable pub waiting : Bool → ℕ → ℕ → Memory → List ℕ → List ℕ
waiting flush now interval mem [] = []
waiting flush now interval mem (p ∷ q) =
    if must_wait flush now interval (mem p) then p ∷ q else waiting flush now interval mem q

-- A handler called with statistics one after the other: the state that it leaves, and how many
-- times it answered `NGX_OK`.
unfoldable pub handle_all :
    {Ctx : Type 0} → (Option Stat → Ctx → Rc × Ctx) → List Stat → Ctx → ℕ → Ctx × ℕ
handle_all handler [] ctx count = (ctx, count)
handle_all handler (s ∷ ss) ctx count =
    let (rc, ctx') = handler (some s) ctx in handle_all handler ss ctx' (counted rc count)

due-append-waiting :
    (flush : Bool) (now interval : ℕ) (mem : Memory) (q : List ℕ)
    → due flush now interval mem q ++ waiting flush now interval mem q ≡ q
unfolding due waiting
due-append-waiting flush now interval mem [] = refl
due-append-waiting flush now interval mem (p ∷ q) =
    elim (Bool-cases (must_wait flush now interval (mem p))) [
      | inl e ↦ rw e
      | inr e ↦ rw e (ap (λ l. p ∷ l) (due-append-waiting flush now interval mem q))
    ]

module _ (platform : Platform) {Ctx : Type 0} (handler : Option Stat → Ctx → Rc × Ctx) where
  process_loop_lem :
      (flush : Bool) (now : ℕ) (q : List ℕ) (a : Aggregate) (ctx : Ctx) (count : ℕ)
      → a.queue ≡ q
      → let (a', ctx', count') = process_loop platform handler flush now q a ctx count in
        (a'.queue ≡ waiting flush now a.interval a.mem q)
        × ((ctx', count')
            ≡ handle_all handler
                (map (λ p. (a.mem p).stat) (due flush now a.interval a.mem q))
                ctx
                count)
  unfolding process_loop due waiting handle_all retire
  process_loop_lem flush now [] a ctx count e = (e, refl)
  process_loop_lem flush now (p ∷ q) a ctx count e =
      elim (Bool-cases (must_wait flush now a.interval (a.mem p))) [
        | inl wait ↦ rw wait (e, refl)
        | inr go ↦ rw go (
            process_loop_lem flush now q (retire platform a p q)
              (handler (some (a.mem p).stat) ctx).1
              (counted (handler (some (a.mem p).stat) ctx).0 count) refl)
      ]

-- No statistic leaves it before the interval is over,
-- unless all are flushed.
due-old :
    (now interval : ℕ) (mem : Memory) (q : List ℕ)
    → All (λ p. interval ≤ msec_sub now (mem p).time) (due false now interval mem q)
unfolding due must_wait
due-old now interval mem [] = tt
due-old now interval mem (p ∷ q) = ground (arith, due-old now interval mem q)

-- An exiting worker keeps nothing back.
waiting-flush :
    (now interval : ℕ) (mem : Memory) (q : List ℕ) → waiting true now interval mem q ≡ []
unfolding waiting must_wait
waiting-flush now interval mem [] = refl
waiting-flush now interval mem (p ∷ q) = waiting-flush now interval mem q

-- The head of what stays is younger than the interval.
abbrev pub YoungHead : ℕ → ℕ → Memory → List ℕ → Type 0
YoungHead now interval mem [] = Unit
YoungHead now interval mem (p ∷ q) = msec_sub now (mem p).time < interval

waiting-young :
    (now interval : ℕ) (mem : Memory) (q : List ℕ)
    → YoungHead now interval mem (waiting false now interval mem q)
unfolding waiting must_wait
waiting-young now interval mem [] = tt
waiting-young now interval mem (p ∷ q) = ground (arith, waiting-young now interval mem q)

-- What the ages of the statistics say of where the queue is cut.
abbrev pub Cut : Bool → ℕ → ℕ → Memory → List ℕ → List ℕ → Type 0
Cut true now interval mem front left = left ≡ []
Cut false now interval mem front left =
    All (λ p. interval ≤ msec_sub now (mem p).time) front × YoungHead now interval mem left

due-Cut :
    (flush : Bool) (now interval : ℕ) (mem : Memory) (q : List ℕ)
    → Cut flush now interval mem (due flush now interval mem q) (waiting flush now interval mem q)
due-Cut true now interval mem q = waiting-flush now interval mem q
due-Cut false now interval mem q = (due-old now interval mem q, waiting-young now interval mem q)

module _ (platform : Platform) {Ctx : Type 0} (handler : Option Stat → Ctx → Rc × Ctx) where
  -- The loop of `process` over the queue hands the handler the statistics of a front part of the
  -- queue, one after the other in the order of the queue and as they stand in memory, and leaves
  -- the others queued in their order. Unless the worker exits, each one that was handed over is
  -- as old as the interval or older, and the first of those that stay is younger; when the worker
  -- exits none stays.
  pub process_loop-order :
      (flush : Bool) (now : ℕ) (a : Aggregate) (ctx : Ctx)
      → let (a', ctx', count) = process_loop platform handler flush now a.queue a ctx 0 in
        (front : List ℕ) × (front ++ a'.queue ≡ a.queue)
        × ((ctx', count) ≡ handle_all handler (map (λ p. (a.mem p).stat) front) ctx 0)
        × Cut flush now a.interval a.mem front a'.queue
  process_loop-order flush now a ctx =
      let (left, handled) = process_loop_lem platform handler flush now a.queue a ctx 0 refl in
      (
        due flush now a.interval a.mem a.queue,
        rw left (due-append-waiting flush now a.interval a.mem a.queue),
        handled,
        (rw left (due-Cut flush now a.interval a.mem a.queue)),
      )
