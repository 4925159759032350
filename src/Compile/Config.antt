-- ===== src/Compile/Config.antt =====
-- What `ngx_statshouse_stat_compile` of src/ngx_statshouse.c reads: the configuration, the variables, and
-- the items of a string; and the tests of them.
use nginx_statshouse_module.Base.{
  ℕ, ◌+◌, List, [], ◌∷◌, ◌++◌, Bool, ◌&&◌, ◌||◌, not, Option, none, some, ltb, ◌==◌, if◌then◌else◌,
  length, take, drop, get_or,
}
use nginx_statshouse_module.Nginx.{Rc, ngx_ok, ngx_error, ngx_declined}
use nginx_statshouse_module.Stat.{Str, StatType, Fpu}
use nginx_statshouse_module.Split.{Part, crash, done, item, stat_part}

-- `ngx_statshouse_conf_value_t`, `ngx_statshouse_conf_key_t` and `ngx_statshouse_conf_t`.
-- `V` is the type of the pointer `complex`. An array that is `NULL` is `none`, but for the compiled
-- conditions, where it does what an empty one does.
pub record ConfValue (V : Type 0) : Type 0 where
  pub string : Str
  pub complex : V
  pub type : StatType
  pub split : Bool

pub record ConfKey (V : Type 0) : Type 0 where
  pub string : Str
  pub complex : V
  pub name : Str
  pub exists : Option (List Str)
  pub split : Bool
  pub disable : Bool

pub record Conf (V : Type 0) : Type 0 where
  pub name : Str
  pub phase : Str
  pub exists : Option (List Str)
  pub condition_strings : Option (List Str)
  pub condition : List V
  pub timeout : ℕ
  pub last : ℕ
  pub disable : Bool
  pub value : ConfValue V
  pub keys : List (ConfKey V)
  pub sample : ℕ

-- What is called from outside: `complex` evaluates a value (`none` is a return other than `NGX_OK`),
-- `ngx_atoi` and `ngx_atofp` read a number (`none` is `NGX_ERROR`), and `behind` is what lies in memory
-- behind a string.
pub record Outside (V : Type 0) : Type 0 where
  pub complex : V → Option Str
  pub atoi : Str → Option ℕ
  pub atofp : Str → ℕ → Option ℕ
  pub behind : Str → List ℕ
  pub fpu : Fpu

-- How the compilation ends: a number of statistics, a return code, or a crash: a read through NULL or
-- a write past the array.
pub data Outcome : Type 0 where
  compiled : ℕ → Outcome
  returned : Rc → Outcome
  crashed : Outcome

-- `ngx_statshouse_is_empty`
unfoldable pub is_empty : Str → Bool
is_empty str =
    (length str == 0)
    || ((length str == 1) && ((get_or str 0 0 == b'-') || (get_or str 0 0 == b'0')))

-- a value that does not satisfy a predicate
unfoldable pub is_false : Str → Bool
is_false val = (length val == 0) || ((length val == 1) && (get_or val 0 0 == b'0'))

-- A configuration is disabled, or its last statistic is less than `timeout` seconds old.
unfoldable pub held_back : {V : Type 0} → Conf V → ℕ → Bool
held_back conf now =
    conf.disable
    || (not (conf.timeout == 0) && (not (conf.last == 0) && ltb now (conf.last + conf.timeout)))

unfoldable pub touched : {V : Type 0} → Conf V → ℕ → Conf V
touched conf now = if conf.timeout == 0 then conf else record conf { last = now }

-- The next item of a string, by `stat_part`.
pub data Cut : Type 0 where
  cut_crash cut_done : Cut
  cut : Str → ℕ → Cut

abbrev pub cut_of : Str → Part → Cut
cut_of s crash = cut_crash
cut_of s done = cut_done
cut_of s (item start len next) = cut (take len (drop start s)) next

unfoldable pub cut_part : (Str → List ℕ) → Str → ℕ → Cut
cut_part behind s from = cut_of s (stat_part (λ i. get_or (s ++ behind s) i 0) (length s) from)

abbrev pub for_some {ℓ κ} : {A : Type ℓ} {B : Type κ} → Option A → (A → B) → Option B
for_some none f = none
for_some (some a) f = some (f a)

module _ {V : Type 0} (out : Outside V) where
  -- `ngx_statshouse_test_required_predicates`; no predicates are the empty list
  unfoldable pub test_required_predicates : List V → Rc
  test_required_predicates [] = ngx_ok
  test_required_predicates (v ∷ vs) =
      let rest = test_required_predicates vs in
      elim (out.complex v) [
        | none ↦ ngx_error
        | some val ↦ if is_false val then ngx_declined else rest
      ]

  -- the loop that evaluates the keys; `none` is `NGX_ERROR`
  unfoldable pub eval_key : ConfKey V → Option Str
  eval_key k = if k.disable || (length k.name == 0) then some [] else out.complex k.complex

  unfoldable pub eval_keys : List (ConfKey V) → Option (List (ConfKey V × Str))
  eval_keys [] = some []
  eval_keys (k ∷ ks) =
      let rest = eval_keys ks in
      elim (eval_key k) [ none ↦ none | some val ↦ for_some rest (λ vals. (k, val) ∷ vals) ]
