-- ===== src/Stat.antt =====
-- include/ngx_statshouse_stat.h and src/ngx_statshouse_stat.c: one statistic and the functions
-- that fill it in. A string is the list of its bytes. An array is the list of its slots beside the
-- count of slots in use; a write past the slots changes nothing.
use nginx_statshouse_module.Base.{ℕ, ◌+◌, List, set}

abbrev pub Str : Type 0
Str = List ℕ

-- `NGX_STATSHOUSE_STAT_KEYS_MAX`
abbrev pub keys_max : ℕ
keys_max = 16 + 1

-- `ngx_statshouse_stat_type_e`
pub data StatType : Type 0 where
  mt_counter mt_value mt_unique : StatType

-- the enumeration's numbers
abbrev pub type_code : StatType → ℕ
type_code mt_counter = 1
type_code mt_value = 2
type_code mt_unique = 3

-- `ngx_statshouse_stat_value_t` is a union of two doubles and an int64_t: its 64 bits.
abbrev pub StatValue : Type 0
StatValue = ℕ

pub record StatKey : Type 0 where
  pub name : Str
  pub value : Str

pub record Stat : Type 0 where
  pub type : StatType
  pub name : Str
  pub keys : List StatKey
  pub keys_count : ℕ
  pub values_count : ℕ
  pub values : List StatValue

-- What the compiler and the processor give: conversions between int64_t and double, and the
-- arithmetic of double, on their bits.
pub record Fpu : Type 0 where
  pub double_of_int : ℕ → ℕ
  pub int_of_double : ℕ → ℕ
  pub negate : ℕ → ℕ
  pub add : ℕ → ℕ → ℕ
  pub hundred_millionth : ℕ → ℕ

unfoldable pub stat_init : Stat → Str → StatType → Stat
stat_init stat name type = record stat {
  name = name;
  type = type;
  keys_count = 0;
  values_count = 0;
}

unfoldable pub stat_value : Stat → StatValue → Stat
stat_value stat v = record stat {
  values = set stat.values stat.values_count v;
  values_count = stat.values_count + 1;
}

unfoldable pub stat_value_zero : Stat → Stat
unfolding stat_value
stat_value_zero stat = stat_value stat 0

unfoldable pub stat_key : Stat → Str → Str → Stat
stat_key stat name v = record stat {
  keys = set stat.keys stat.keys_count (record { name = name; value = v });
  keys_count = stat.keys_count + 1;
}

-- An `int64_t` assigned to the member `counter`, and a double assigned to `unique`, are converted.
module _ (fpu : Fpu) where
  unfoldable pub stat_value_counter : Stat → ℕ → Stat
  unfolding stat_value
  stat_value_counter stat counter = stat_value stat (fpu.double_of_int counter)

  unfoldable pub stat_value_value : Stat → ℕ → Stat
  unfolding stat_value
  stat_value_value stat v = stat_value stat v

  unfoldable pub stat_value_nvalue : Stat → ℕ → Stat
  unfolding stat_value
  stat_value_nvalue stat v = stat_value stat (fpu.negate v)

  unfoldable pub stat_value_unique : Stat → ℕ → Stat
  unfolding stat_value
  stat_value_unique stat unique = stat_value stat (fpu.int_of_double unique)
