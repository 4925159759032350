-- ===== src/Running/Tests.antt =====
-- The start of a concrete server, and a concrete sample.
use nginx_statshouse_module.Base.{◌+◌, ◌≡◌, refl, [], true, some, min, arith}
use nginx_statshouse_module.Server.{server_init, timer_init}
use nginx_statshouse_module.Running.{start}
use nginx_statshouse_module.Running.Delivery.{Accepts}
use nginx_statshouse_module.Running.Fresh.{start-Accepts}
use nginx_statshouse_module.Running.Sample.{kept, kept-sample}
use nginx_statshouse_module.Fixtures.{
  all_granted, zeroed_aggregate, zeroed_stat, local_server, started, counting,
}

starts : start all_granted zeroed_aggregate zeroed_stat local_server ≡ some started
unfolding server_init timer_init
starts = refl

start-Accepts_example : Accepts started true 4096 []
start-Accepts_example =
    start-Accepts all_granted zeroed_aggregate zeroed_stat local_server started refl (omega arith)
      starts

kept-sample_example : kept 100 counting ≡ min (60 + 1) 100
kept-sample_example = kept-sample counting (omega arith)
