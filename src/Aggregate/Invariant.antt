-- ===== src/Aggregate/Invariant.antt =====
-- The invariant of the aggregate: the ring holds the queued statistics and they do not overlap, each
-- has the slots that it counts, the tree holds exactly the queued statistics with a key, and the
-- tree is in order.
pub mod Retire
pub mod Process
pub mod Store
pub mod Fill
pub mod Preserve
use nginx_statshouse_module.Base.{
  ℕ, suc, ◌+◌, ◌≤◌, ◌<◌, ◌≡◌, ◌≢◌, List, [], ◌∷◌, ◌++◌, All, In, length, ◌==◌, if◌then◌else◌,
}
use nginx_statshouse_module.Stat.{Stat, StatType}
use nginx_statshouse_module.Aggregate.{Aggregate, spare_values}
use nginx_statshouse_module.Aggregate.Alloc.{Arena}
use nginx_statshouse_module.Aggregate.Alloc.Layout.{Chunk}
use nginx_statshouse_module.Aggregate.Alloc.Layout
use nginx_statshouse_module.Aggregate.Index.{AggregateStat, Memory, Tree, inorder}
use nginx_statshouse_module.Aggregate.Index.Search.{IsSorted}

abbrev pub chunk : Memory → ℕ → Chunk
chunk mem p = record { ptr = p; size = (mem p).size }

abbrev pub chunks : Memory → List ℕ → List Chunk
chunks mem [] = []
chunks mem (p ∷ ps) = chunk mem p ∷ chunks mem ps

-- A queued statistic has a value, and all the room for values that its type is given.
pub record HasRoom (values : ℕ) (s : Stat) : Type 0 where
  pub room : length s.values ≡ 1 + spare_values s.type values
  pub has_value : 1 ≤ s.values_count
  pub values_in : s.values_count ≤ length s.values
  pub keys_in : s.keys_count ≤ length s.keys

-- The tree holds exactly the queued statistics whose key is not zero.
pub record Indexed (mem : Memory) (nodes queue : List ℕ) : Type 0 where
  pub queued : All (λ p. In p queue) nodes
  pub keyed : All (λ p. (mem p).key ≢ 0) nodes
  pub held : All (λ p. (mem p).key ≢ 0 → In p nodes) queue
  pub sorted : IsSorted mem nodes

pub record IsValid (a : Aggregate) : Type 0 where
  pub ring : Layout.IsValid a.arena (chunks a.mem a.queue)
  pub slots : All (λ p. HasRoom a.values (a.mem p).stat) a.queue
  pub indexed : Indexed a.mem (inorder a.tree) a.queue
