-- ===== src/Aggregate/Invariant/Process.antt =====
-- `process` and the timer handler, and the invariant.
use nginx_statshouse_module.Base.{
  ℕ, ◌≡◌, refl, inl, inr, List, [], ◌∷◌, Option, some, Bool, ◌||◌, leb, ◌-◌, Bool-cases, arith,
}
use nginx_statshouse_module.Nginx.{Rc, msec_sub, Event, post_event, add_timer}
use nginx_statshouse_module.Stat.{Stat}
use nginx_statshouse_module.Aggregate.{
  Platform, Aggregate, retire, process_loop, counted, finish, process, timer_handler,
  aggregate_timer, arm, drain, must_wait,
}
use nginx_statshouse_module.Aggregate.Laws.{Lawful}
use nginx_statshouse_module.Aggregate.Invariant.{IsValid}
use nginx_statshouse_module.Aggregate.Invariant.Retire.{retire-IsValid}

-- The timer changes nothing but the event.
pub timer_lem :
    (a : Aggregate) (now : ℕ)
    → (ev : Event) × (aggregate_timer a now ≡ record a { timer_event = ev })
unfolding aggregate_timer
timer_lem a now = elim (Bool-cases (a.timer_event.timer_set || a.timer_event.posted)) [
  | inl e ↦ (a.timer_event, rw e)
  | inr e ↦ let (ev, same) = armed a.queue in (ev, rw e same)
]
  where
    armed : (q : List ℕ) → (ev : Event) × (arm a now q ≡ record a { timer_event = ev })
    armed [] = (a.timer_event, unfold arm in refl)
    armed (p ∷ q) = elim (Bool-cases (leb a.interval (msec_sub now (a.mem p).time))) [
      | inl e ↦ (post_event a.timer_event, unfold arm in rw e)
      | inr e ↦
          (add_timer a.timer_event (a.interval - msec_sub now (a.mem p).time), unfold arm in rw e)
    ]

pub timer-IsValid : (a : Aggregate) (now : ℕ) → IsValid a → IsValid (aggregate_timer a now)
timer-IsValid a now v =
    let (ev, same) = timer_lem a now in
    rw same (record { ring = v.ring; slots = v.slots; indexed = v.indexed })

module _ (platform : Platform) {Ctx : Type 0} (handler : Option Stat → Ctx → Rc × Ctx)
    (law : Lawful platform) where
  process_loop-IsValid :
      (flush : Bool) (now : ℕ) (q : List ℕ) (a : Aggregate) (ctx : Ctx) (count : ℕ)
      → a.queue ≡ q
      → IsValid a
      → IsValid (process_loop platform handler flush now q a ctx count).0
  unfolding process_loop
  process_loop-IsValid flush now [] a ctx count e v = v
  process_loop-IsValid flush now (p ∷ rest) a ctx count e v =
      elim (Bool-cases (must_wait flush now a.interval (a.mem p))) [
        | inl wait ↦ rw wait v
        | inr go ↦ rw go (
            process_loop-IsValid flush now rest (retire platform a p rest)
              (handler (some (a.mem p).stat) ctx).1
              (counted (handler (some (a.mem p).stat) ctx).0 count) (unfold retire in refl)
              (retire-IsValid platform a p rest law e v))
      ]

  drain-IsValid :
      (exiting : Bool) (now : ℕ) (q : List ℕ) (a : Aggregate) (ctx : Ctx)
      → a.queue ≡ q
      → IsValid a
      → IsValid (drain platform handler exiting now q a ctx).1
  unfolding drain finish
  drain-IsValid exiting now [] a ctx e v = v
  drain-IsValid exiting now (p ∷ rest) a ctx e v =
      ground (arith, process_loop-IsValid exiting now (p ∷ rest) a ctx 0 e v)

  -- Processing the queue keeps the invariant of the aggregate, whatever the handler answers, if
  -- the tree's balancing and deletion do to the in-order list what they document.
  pub process-IsValid :
      (a : Aggregate) (ctx : Ctx) (now : ℕ) (exiting : Bool)
      → IsValid a
      → IsValid (process platform handler a ctx now exiting).1
  unfolding process
  process-IsValid a ctx now exiting v = drain-IsValid exiting now a.queue a ctx refl v

  -- The timer's handler keeps the invariant.
  pub timer_handler-IsValid :
      (a : Aggregate) (ctx : Ctx) (now : ℕ) (exiting : Bool)
      → IsValid a
      → IsValid (timer_handler platform handler a ctx now exiting).0
  unfolding timer_handler
  timer_handler-IsValid a ctx now exiting v =
      timer-IsValid _ now (process-IsValid a ctx now exiting v)
