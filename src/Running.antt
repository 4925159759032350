-- ===== src/Running.antt =====
-- A server while a worker runs, and what the HTTP and the stream module both do with it: its start, the
-- choice of the metrics of a phase, and the sending of an array of statistics.
pub mod Delivery
pub mod Sample
pub mod Fresh
mod Tests
use nginx_statshouse_module.Base.{
  ℕ, ◌+◌, ◌%◌, List, [], ◌∷◌, Bool, true, false, ◌&&◌, Option, none, some, ltb, ◌==◌, if◌then◌else◌,
  length, take, replicate, get_elem?,
}
use nginx_statshouse_module.Nginx.{Rc, ngx_ok, ngx_error, ngx_declined}
use nginx_statshouse_module.Stat.{Str, Stat}
use nginx_statshouse_module.Text.{strncmp}
use nginx_statshouse_module.Compile.Config.{Conf, Outside, Outcome, compiled, returned, crashed}
use nginx_statshouse_module.Aggregate.{Platform, Aggregate}
use nginx_statshouse_module.Server.{
  Server, Reply, Grants, server_init, server_flush_after_request, send,
}
use nginx_statshouse_module.Directive.{ServerConf}

-- an `ngx_statshouse_server_t` after its start
pub record Running : Type 0 where
  pub server : Server
  pub aggregate : Option Aggregate
  pub splits : List Stat
  pub splits_max : ℕ

-- A server of the configuration: after its start, or as the directive left it, where the pointers to
-- its buffer and to its array are `NULL`.
pub data Instance : Type 0 where
  running : Running → Instance
  unstarted : ServerConf → Instance

abbrev pub if_running : Option Instance → Option Running
if_running none = none
if_running (some (running run)) = some run
if_running (some (unstarted s)) = none

-- The server of that number, if it can be used; the use of any other reads through a bad pointer.
abbrev pub running_at : List Instance → ℕ → Option Running
running_at servers i = if_running (get_elem? servers i)

-- What the tests at the start of `send` and of `send_stat` let through: nothing, the server of that
-- number, or the pointer `NGX_CONF_UNSET_PTR`, which the code goes on to read through.
pub data Chosen : Type 0 where
  idle : Chosen
  chosen : ℕ → Chosen
  wild : Chosen

-- What a worker asks of the outside: the variables, the network, `ngx_terminate || ngx_exiting`, the
-- platform, `ngx_current_msec`, `ngx_time`, and what `ngx_random` answers if the round of that number
-- of the loop over the metrics asks it.
pub record Outer (V : Type 0) : Type 0 where
  pub variables : Outside V
  pub network : ℕ → Reply
  pub exiting : Bool
  pub platform : Platform
  pub msec : ℕ
  pub time : ℕ
  pub random : ℕ → ℕ

-- the `ngx_statshouse_server_t` that the directive made, zeroed but for what it set
abbrev pub zeroed_server : ServerConf → Server
zeroed_server s = record {
  connection = false;
  buffer = record { bytes = []; room = 0 };
  buffer_size = s.buffer_size;
  aggregate_size = s.aggregate_size;
  aggregate_values = s.aggregate_values;
  timer_ready = false;
  flush_after_request = s.flush_after_request;
  flush = s.flush;
  flush_event = record { timer_set = false; delay = 0; posted = false };
  attempts = 0;
  sent = [];
}

-- `zeroed` is an aggregate of zero bytes, and `blank` a statistic of zero bytes.
abbrev pub start_with : Stat → ℕ → Rc × Server × Option Aggregate → Option Running
start_with blank max (ngx_ok, server, a) =
    some (record { server = server; aggregate = a; splits = replicate max blank; splits_max = max })
start_with blank max (ngx_error, server, a) = none
start_with blank max (ngx_declined, server, a) = none

abbrev pub start : Grants → Aggregate → Stat → ServerConf → Option Running
start g zeroed blank s = start_with blank s.splits_max (server_init g zeroed (zeroed_server s))

-- the tests of the phase
unfoldable pub in_phase : {V : Type 0} → Option Str → Conf V → Bool
in_phase none conf = length conf.phase == 0
in_phase (some phase) conf =
    (length phase == length conf.phase) && strncmp phase conf.phase (length phase)

-- the test of the sample
unfoldable pub sampled_out : {V : Type 0} → ℕ → Conf V → Bool
sampled_out random conf = ltb 0 conf.sample && ltb conf.sample (random % 100)

module _ {V : Type 0} (o : Outer V) where
  -- one statistic that is sent
  unfoldable pub send_one : Running → Stat → Running
  send_one run stat =
      let (rc, a, server) =
        send o.network o.exiting o.platform o.msec run.aggregate run.server stat in
      record run { server = server; aggregate = a }

  -- the loop over the statistics
  unfoldable pub deliver : Running → List Stat → Running
  deliver run [] = run
  deliver run (stat ∷ stats) = deliver (send_one run stat) stats

  -- What follows the compilation; `none` is its crash.
  unfoldable pub after_compile : Running → Outcome × Conf V × List Stat → Option (Conf V × Running)
  after_compile run (compiled n, conf, stats) =
      some (conf, deliver (record run { splits = stats }) (take n stats))
  after_compile run (returned rc, conf, stats) = some (conf, record run { splits = stats })
  after_compile run (crashed, conf, stats) = none

  unfoldable pub finish_request : Running → Running
  finish_request run = record run {
    server = (server_flush_after_request o.network o.exiting run.server).1;
  }
