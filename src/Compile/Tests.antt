-- ===== src/Compile/Tests.antt =====
-- Concrete configurations.
use nginx_statshouse_module.Base.{
  ℕ, zero, suc, ◌+◌, ◌*◌, ◌-◌, ◌≡◌, ◌≢◌, refl, List, subst, All, get_or, [], ◌∷◌, true, false,
  Option, none, some, arith,
}
use nginx_statshouse_module.Nginx.{ngx_declined}
use nginx_statshouse_module.Stat.{
  Str, Stat, mt_counter, Fpu, stat_init, stat_value, stat_value_counter, stat_key,
}
use nginx_statshouse_module.Split.{
  stat_part, is_group_delimiter, skip, scan, trimmed, past_comma, finish_part, after_scan,
}
use nginx_statshouse_module.Compile.Config.{
  crashed, ConfKey, Conf, Outside, compiled, returned, is_empty, is_false, held_back, touched,
  cut_part, test_required_predicates, eval_key, eval_keys,
}
use nginx_statshouse_module.Compile.Values.{
  one_more, parse_value, fill_value, put_value, after_cut, past_end, values_loop, compile_values,
}
use nginx_statshouse_module.Compile.Keys.{key_all, one_key, keys_loop}
use nginx_statshouse_module.Compile.{compile_keys, compile_all, stat_compile}
use nginx_statshouse_module.Compile.NoCrash.{Plain}
use nginx_statshouse_module.Compile.Total.{stat_compile-no_crash}
use nginx_statshouse_module.Compile.Bounds.{Compiled, stat_compile-Compiled}

abbrev digits : ℕ → Str → ℕ
digits n [] = n
digits n (c ∷ cs) = digits (n * 10 + (c - b'0')) cs

-- the value of the variable 0 is "12,3", that of others is "a"
abbrev variables : ℕ → Option Str
variables zero = some (b'1' ∷ b'2' ∷ b',' ∷ b'3' ∷ [])
variables (suc v) = some (b'a' ∷ [])

abbrev plain_fpu : Fpu
plain_fpu = record {
  double_of_int = λ n. n;
  int_of_double = λ n. n;
  negate = λ n. n;
  add = λ a b. a + b;
  hundred_millionth = λ n. n;
}

abbrev outside : Outside ℕ
outside = record {
  complex = variables;
  atoi = λ s. some (digits 0 s);
  atofp = λ s n. some (digits 0 s);
  behind = λ s. 0 ∷ [];
  fpu = plain_fpu;
}

abbrev counted_key : ConfKey ℕ
counted_key = record {
  string = [];
  complex = 1;
  name = b'k' ∷ [];
  exists = none;
  split = false;
  disable = false;
}

abbrev counting : Conf ℕ
counting = record {
  name = b'n' ∷ [];
  phase = [];
  exists = none;
  condition_strings = none;
  condition = 2 ∷ [];
  timeout = 10;
  last = 100;
  disable = false;
  value = record { string = []; complex = 0; type = mt_counter; split = true };
  keys = counted_key ∷ [];
  sample = 0;
}

abbrev zeroed : Stat
zeroed = record {
  type = mt_counter;
  name = [];
  keys = record { name = []; value = [] } ∷ [];
  keys_count = 0;
  values_count = 0;
  values = 0 ∷ [];
}

abbrev count_of : ℕ → Stat
count_of n = record {
  type = mt_counter;
  name = b'n' ∷ [];
  keys = record { name = b'k' ∷ []; value = b'a' ∷ [] } ∷ [];
  keys_count = 1;
  values_count = 1;
  values = n ∷ [];
}

two_counts :
    stat_compile outside counting (zeroed ∷ zeroed ∷ zeroed ∷ []) 3 110
    ≡ (compiled 2, record counting { last = 110 }, count_of 12 ∷ count_of 3 ∷ zeroed ∷ [])
unfolding stat_compile held_back touched compile_all test_required_predicates is_false eval_keys
    eval_key compile_values values_loop after_cut put_value fill_value parse_value one_more cut_part
    stat_part after_scan scan skip trimmed past_comma finish_part is_group_delimiter compile_keys
    keys_loop one_key is_empty key_all stat_key stat_init stat_value stat_value_counter
two_counts = refl

too_early :
    stat_compile outside counting (zeroed ∷ []) 1 109
    ≡ (returned ngx_declined, counting, zeroed ∷ [])
unfolding stat_compile held_back
too_early = refl

stat_compile-Compiled_example :
    let (outcome, conf', stats') =
      stat_compile outside counting (zeroed ∷ zeroed ∷ zeroed ∷ []) 3 110 in
    Compiled 1 3 (outcome, stats')
stat_compile-Compiled_example =
    stat_compile-Compiled outside counting (zeroed ∷ zeroed ∷ zeroed ∷ []) 3 110 (omega arith)

-- There is no slot to write to.
no_slots : stat_compile outside counting [] 0 110 ≡ (crashed, record counting { last = 110 }, [])
unfolding stat_compile held_back touched compile_all test_required_predicates is_false eval_keys
    eval_key compile_values values_loop past_end cut_part stat_part after_scan scan skip trimmed
    past_comma finish_part is_group_delimiter compile_keys
no_slots = refl

colon_free : (xs : List ℕ) (i : ℕ) → All (λ b. b ≢ b':') xs → get_or xs i 0 ≢ b':'
colon_free [] i h = λ e. ground arith
colon_free (x ∷ xs) zero (h, hs) = h
colon_free (x ∷ xs) (suc i) (h, hs) = colon_free xs i hs

value-Plain : (s : Str) → b'1' ∷ b'2' ∷ b',' ∷ b'3' ∷ [] ≡ s → Plain outside.behind s
value-Plain s e =
    subst (Plain outside.behind) e
      (λ i. colon_free (b'1' ∷ b'2' ∷ b',' ∷ b'3' ∷ 0 ∷ []) i (omega arith))

key-Plain : (s : Str) → b'a' ∷ [] ≡ s → Plain outside.behind s
key-Plain s e = subst (Plain outside.behind) e (λ i. colon_free (b'a' ∷ 0 ∷ []) i (omega arith))

outside-Plain : (v : ℕ) (s : Str) → variables v ≡ some s → Plain outside.behind s
outside-Plain zero s e = value-Plain s cc
outside-Plain (suc v) s e = key-Plain s cc

stat_compile-no_crash_example :
    (stat_compile outside counting (zeroed ∷ zeroed ∷ zeroed ∷ []) 3 110).0 ≢ crashed
stat_compile-no_crash_example =
    stat_compile-no_crash outside outside-Plain counting (zeroed ∷ zeroed ∷ zeroed ∷ []) 3 110
      (omega arith) (omega arith)
