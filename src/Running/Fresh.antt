-- ===== src/Running/Fresh.antt =====
-- A server that was just started.
use nginx_statshouse_module.Base.{
  ◌^◌, ◌<◌, ◌≡◌, refl, subst, [], Bool-cases, inl, inr, Option, none, some, arith,
}
use nginx_statshouse_module.Stat.{Stat}
use nginx_statshouse_module.Aggregate.{Aggregate}
use nginx_statshouse_module.Server.{Grants, server_init, timer_init}
use nginx_statshouse_module.Directive.{ServerConf}
use nginx_statshouse_module.Running.{Running, start}
use nginx_statshouse_module.Running.Delivery.{Accepts}

abbrev OnStart : (Running → Type 0) → Option Running → Type 0
OnStart P none = Unit
OnStart P (some run) = P run

start-OnStart :
    (g : Grants) (zeroed : Aggregate) (blank : Stat) (s : ServerConf)
    → s.aggregate_size ≡ 0
    → s.buffer_size < 2 ^ 63
    → OnStart (λ run. Accepts run s.flush_after_request s.buffer_size []) (start g zeroed blank s)
unfolding server_init timer_init
start-OnStart g zeroed blank s off fits = elim (Bool-cases g.buffer_granted) [
  | inr e ↦ rw e tt
  | inl e ↦ rw e (elim (Bool-cases g.splits_granted) [
    | inr e' ↦ rw e' tt
    | inl e' ↦
        rw (e', off)
          (record {
            plain = refl;
            carries = record {
              waiting = [];
              out = [];
              holds = record {
                pending = refl;
                datagrams = refl;
                no_overrun = omega arith;
                room_fits = fits;
              };
              order = refl;
              same_room = refl;
            };
            same_flag = refl;
          })
  ])
]

-- A server that is started without an aggregate, with a buffer of less than 2^63 bytes, has
-- accepted no statistic. Its buffer has the configured room, and it flushes after a request if it
-- is configured to.
pub start-Accepts :
    (g : Grants) (zeroed : Aggregate) (blank : Stat) (s : ServerConf) (run : Running)
    → s.aggregate_size ≡ 0
    → s.buffer_size < 2 ^ 63
    → start g zeroed blank s ≡ some run
    → Accepts run s.flush_after_request s.buffer_size []
start-Accepts g zeroed blank s run off fits e =
    subst (λ o. OnStart (λ run. Accepts run s.flush_after_request s.buffer_size []) o) e
      (start-OnStart g zeroed blank s off fits)
