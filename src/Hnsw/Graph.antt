-- ===== src/Hnsw/Graph.antt =====
-- What the operations on one layer use of a graph (`src/index/hnsw/layer_ops.h`, Requirements), and the
-- policies of `visibility_policy.h`. Nodes with the same key are the same node. A graph operation that fails is `none`. A distance is a number:
-- the operations do nothing with distances but compare them, and a number stands for the place of a
-- distance in their order.
use vsql_vector.Base.{ℕ, ◌≡◌, Bool, true, Option, some, List}

pub record GraphApi : Type 1 where
  pub Node : Type 0
  pub NodeData : Type 0
  pub key : Node → ℕ
  pub key_inj : (a b : Node) → key a ≡ key b → a ≡ b
  pub distance : Node → Node → Option ℕ
  pub distance_to : NodeData → Node → Option ℕ
  pub neighbours : (level : ℕ) → Node → Option (List Node)
  pub visible : Node → Option Bool

-- `GraphVisiblePolicy` and `AlwaysVisiblePolicy`.
abbrev pub graph_visible : (g : GraphApi) → g.Node → Option Bool
graph_visible g node = g.visible node

abbrev pub always_visible : (g : GraphApi) → g.Node → Option Bool
always_visible g node = some true
