-- ===== src/Aggregate/Laws.antt =====
-- What the module relies on of nginx's red-black tree.
use nginx_statshouse_module.Base.{ℕ, ◌≡◌, ◌<◌, In, without}
use nginx_statshouse_module.Aggregate.{Platform}
use nginx_statshouse_module.Aggregate.Index.{Tree, inorder}

-- Rotations keep the order of the nodes, and the deletion of a node that is in the tree keeps the
-- other nodes in their order.
pub record Lawful (platform : Platform) : Type 0 where
  pub rebalance_inorder : (t : Tree) → inorder (platform.rebalance t) ≡ inorder t
  pub delete_inorder :
      (t : Tree) (p : ℕ)
      → In p (inorder t)
      → inorder (platform.rbtree_delete t p) ≡ without p (inorder t)
  pub sizeof_positive : 0 < platform.sizeof_aggregate_stat
