-- ===== src/Fixtures.antt =====
-- What the runs and the examples of the HTTP and the stream module are made of.
use nginx_statshouse_module.Base.{
  ℕ, zero, suc, ◌+◌, ◌*◌, ◌-◌, ◌≡◌, ◌≢◌, refl, List, [], ◌∷◌, true, false, Option, none, some,
  get_or, All, subst, arith,
}
use nginx_statshouse_module.Stat.{Str, Stat, mt_counter}
use nginx_statshouse_module.Compile.Config.{Conf, ConfKey, Outside}
use nginx_statshouse_module.Compile.NoCrash.{Plain}
use nginx_statshouse_module.Aggregate.Index.{sentinel}
use nginx_statshouse_module.Aggregate.{Platform, Aggregate}
use nginx_statshouse_module.Server.{Reply, delivered, Grants}
use nginx_statshouse_module.Server.Delivery.{Delivers}
use nginx_statshouse_module.Running.{Running, Outer}
use nginx_statshouse_module.Directive.{Core, ServerConf}

abbrev pub digits : ℕ → Str → ℕ
digits n [] = n
digits n (c ∷ cs) = digits (n * 10 + (c - b'0')) cs

-- the value 0 is "12,3", the value 1 is "a", and another one fails
abbrev pub variables : Option ℕ → Option Str
variables none = none
variables (some zero) = some (b'1' ∷ b'2' ∷ b',' ∷ b'3' ∷ [])
variables (some (suc zero)) = some (b'a' ∷ [])
variables (some (suc (suc v))) = none

abbrev pub outside : Outside (Option ℕ)
outside = record {
  complex = variables;
  atoi = λ s. some (digits 0 s);
  atofp = λ s n. some (digits 0 s);
  behind = λ s. 0 ∷ [];
  fpu = record {
    double_of_int = λ n. n;
    int_of_double = λ n. n;
    negate = λ n. n;
    add = λ a b. a + b;
    hundred_millionth = λ n. n;
  };
}

abbrev pub named_key : ConfKey (Option ℕ)
named_key = record {
  string = b'a' ∷ [];
  complex = some 1;
  name = b'k' ∷ [];
  exists = none;
  split = false;
  disable = false;
}

abbrev pub counting : Conf (Option ℕ)
counting = record {
  name = b'n' ∷ [];
  phase = [];
  exists = none;
  condition_strings = none;
  condition = [];
  timeout = 0;
  last = 0;
  disable = false;
  value = record { string = b'v' ∷ []; complex = some 0; type = mt_counter; split = true };
  keys = named_key ∷ [];
  sample = 60;
}

abbrev pub zeroed_stat : Stat
zeroed_stat = record {
  type = mt_counter;
  name = [];
  keys = record { name = []; value = [] } ∷ [];
  keys_count = 0;
  values_count = 0;
  values = 0 ∷ [];
}

abbrev pub count_of : ℕ → Stat
count_of n = record {
  type = mt_counter;
  name = b'n' ∷ [];
  keys = record { name = b'k' ∷ []; value = b'a' ∷ [] } ∷ [];
  keys_count = 1;
  values_count = 1;
  values = n ∷ [];
}

abbrev pub good : Reply
good = record {
  has_address = true;
  socket_made = true;
  connection_got = true;
  nonblocking_set = true;
  connect_ok = true;
  connect_in_progress = false;
  send_result = delivered;
}

pub good-Delivers : Delivers good
good-Delivers = record {
  address = refl;
  socket = refl;
  connection = refl;
  nonblocking = refl;
  connected = refl;
  sends = refl;
}

abbrev pub platform : Platform
platform = record {
  sizeof_aggregate_stat = 664;
  crc32_init = 0;
  crc32_update = λ h s. h;
  crc32_final = λ h. h;
  rebalance = λ t. t;
  rbtree_delete = λ t p. t;
  add_double = λ a b. a + b;
}

abbrev pub worker : Outer (Option ℕ)
worker = record {
  variables = outside;
  network = λ n. good;
  exiting = false;
  platform = platform;
  msec = 0;
  time = 110;
  random = λ n. 150;
}

abbrev pub local_server : ServerConf
local_server = record {
  addr = 2 ∷ 127 ∷ 1 ∷ [];
  flush_after_request = true;
  buffer_size = 4096;
  aggregate_size = 0;
  aggregate_values = 24;
  splits_max = 2;
  flush = 1000;
}

abbrev pub all_granted : Grants
all_granted = record {
  buffer_granted = true;
  splits_granted = true;
  aggregate_granted = true;
  arena_granted = true;
}

abbrev pub zeroed_aggregate : Aggregate
zeroed_aggregate = record {
  arena = record { pos = 0; last = 0; end = 0 };
  mem = λ p. record { key = 0; stat = zeroed_stat; time = 0; size = 0 };
  tree = sentinel;
  queue = [];
  timer_event = record { timer_set = false; delay = 0; posted = false };
  interval = 0;
  values = 0;
}

-- the server just after its start
abbrev pub started : Running
started = record {
  server = record {
    connection = false;
    buffer = record { bytes = []; room = 4096 };
    buffer_size = 4096;
    aggregate_size = 0;
    aggregate_values = 24;
    timer_ready = true;
    flush_after_request = true;
    flush = 1000;
    flush_event = record { timer_set = false; delay = 0; posted = false };
    attempts = 0;
    sent = [];
  };
  aggregate = none;
  splits = zeroed_stat ∷ zeroed_stat ∷ [];
  splits_max = 2;
}

-- a parser that reads every number as 5
abbrev pub core : Core ℕ
core = record {
  parse_url = λ s. some (2 ∷ 127 ∷ 1 ∷ []);
  parse_size = λ s. some 5;
  parse_time = λ s. some 5;
  atoi = λ s. some 5;
  compile_complex = λ s. some 0;
}

colon_free : (xs : List ℕ) (i : ℕ) → All (λ b. b ≢ b':') xs → get_or xs i 0 ≢ b':'
colon_free [] i h = λ e. ground arith
colon_free (x ∷ xs) zero (h, hs) = h
colon_free (x ∷ xs) (suc i) (h, hs) = colon_free xs i hs

value-Plain : (s : Str) → b'1' ∷ b'2' ∷ b',' ∷ b'3' ∷ [] ≡ s → Plain outside.behind s
value-Plain s e =
    subst (Plain outside.behind) e
      (λ i. colon_free (b'1' ∷ b'2' ∷ b',' ∷ b'3' ∷ 0 ∷ []) i (omega arith))

key-Plain : (s : Str) → b'a' ∷ [] ≡ s → Plain outside.behind s
key-Plain s e = subst (Plain outside.behind) e (λ i. colon_free (b'a' ∷ 0 ∷ []) i (omega arith))

pub outside-Plain : (v : Option ℕ) (s : Str) → variables v ≡ some s → Plain outside.behind s
outside-Plain none s e = absurd cc
outside-Plain (some zero) s e = value-Plain s cc
outside-Plain (some (suc zero)) s e = key-Plain s cc
outside-Plain (some (suc (suc v))) s e = absurd cc
