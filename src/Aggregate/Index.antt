-- ===== src/Aggregate/Index.antt =====
-- `ngx_statshouse_aggregate_insert_value` and `ngx_statshouse_aggregate_lookup`: the red-black tree
-- that finds an aggregated statistic by hash, size and type. The tree holds addresses, and what lies
-- at an address is read when it is compared.
pub mod Search
pub mod Complete
pub mod Insert
pub mod Mixed
use nginx_statshouse_module.Base.{
  ℕ, List, [], ◌∷◌, ◌++◌, Bool, true, false, Option, none, some, ltb, ◌==◌, if◌then◌else◌,
}
use nginx_statshouse_module.Stat.{StatType, type_code, Stat}

-- `ngx_statshouse_aggregate_stat_t`; `key` is the field of its tree node.
pub record AggregateStat : Type 0 where
  pub key : ℕ
  pub size : ℕ
  pub time : ℕ
  pub stat : Stat

-- the memory of the ring, by the address of a statistic in it
abbrev pub Memory : Type 0
Memory = ℕ → AggregateStat

abbrev pub store : Memory → ℕ → AggregateStat → Memory
store mem p s q = if p == q then s else mem q

pub data Tree : Type 0 where
  sentinel : Tree
  node : Tree → ℕ → Tree → Tree

unfoldable pub inorder : Tree → List ℕ
inorder sentinel = []
inorder (node l p r) = inorder l ++ (p ∷ inorder r)

-- where the loop of `insert_value` goes from a node: smaller keys and, at the same key, smaller
-- sizes lie to the left, all else to the right
unfoldable pub goes_left : AggregateStat → AggregateStat → Bool
goes_left new temp =
    if ltb new.key temp.key
    then true
    else if ltb temp.key new.key
    then false
    else ltb new.size temp.size

-- The descent ends where `*p == sentinel`; nginx's `ngx_rbtree_insert` itself treats the empty tree.
unfoldable pub insert_value : Memory → Tree → ℕ → Tree
insert_value mem sentinel p = node sentinel p sentinel
insert_value mem (node l q r) p = elim (goes_left (mem p) (mem q)) [
  | true ↦ node (insert_value mem l p) q r
  | false ↦ node l q (insert_value mem r p)
]

-- What the loop of `lookup` does at a node.
pub data Turn : Type 0 where
  found left right : Turn

unfoldable pub turn : ℕ → ℕ → StatType → AggregateStat → Turn
turn hash size type astat =
    if ltb hash astat.key
    then left
    else if ltb astat.key hash
    then right
    else if ltb size astat.size
    then left
    else if ltb astat.size size
    then right
    else if type_code astat.stat.type == type_code type
    then found
    else if ltb (type_code astat.stat.type) (type_code type)
    then left
    else right

unfoldable pub lookup : Memory → Tree → ℕ → ℕ → StatType → Option ℕ
lookup mem sentinel hash size type = none
lookup mem (node l p r) hash size type = elim (turn hash size type (mem p)) [
  | found ↦ some p
  | left ↦ lookup mem l hash size type
  | right ↦ lookup mem r hash size type
]
