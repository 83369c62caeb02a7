-- ===== src/Hnsw/Operations/Insert.antt =====
-- What an insert leaves: `insert` (`src/index/hnsw/graph_ops_impl.h`).
use vsql_vector.Base.{ℕ, ◌≡◌, Bool, Option, some, List, [], ◌∷◌, ◌⊎◌, sym, ◌∙◌}
use Prim.Native.Nat.{max}
use mathlib.Core.Path.{subst}
use vsql_vector.Hnsw.Layer.{found}
use vsql_vector.Hnsw.Mutable.{MutableGraph, >>>-found, return-found, reads-found, writes-found}
use vsql_vector.Hnsw.Operations.{insert, link_nodes, top_node}
use vsql_vector.Hnsw.Operations.EntryPoint.{NewEntry, Enters, entry_point_lem, entering}
use vsql_vector.Hnsw.Operations.Links.{Links, link_nodes-Links}
use vsql_vector.Hnsw.Operations.Levels.{
  Inserted, insert_nodes_lem, top_node-Inserted, descent_keeps,
}

some_same : {A : Type 0} (o : Option A) (x y : A) → o ≡ some x → o ≡ some y → x ≡ y
some_same o x y e e' = cc

module _ (m : MutableGraph) (tie : m.Node → m.Node → Bool) (fuel : ℕ) (query : m.NodeData) where
  open m use {State, Node}

  -- What an insert of a node comes to, step by step.
  pub record Inserts (insert_level : ℕ) (out : Node) (st st' : State) : Type 0 where
    pub entry : List Node × ℕ
    pub read_state : State
    pub entered : Enters m tie fuel insert_level st read_state entry
    pub level_state : State
    pub ensured : m.ensure_levels read_state (max entry.1 insert_level) ≡ (level_state, some tt)
    pub lowest : Node
    pub above : List (Node × ℕ)
    pub node_state : State
    pub created :
        Inserted m tie fuel query entry.1
          (out, insert_level)
          level_state
          node_state
          ((lowest, 0) ∷ above)
    pub link_state : State
    pub linked : Links m tie fuel node_state link_state ((lowest, 0) ∷ above)
    pub last :
        (NewEntry m tie fuel insert_level entry
          × (m.set_entry_point link_state (out ∷ []) insert_level ≡ (st', some tt)))
        ⊎ ((¬ NewEntry m tie fuel insert_level entry) × (st' ≡ link_state))

  created_for :
      (entry_level insert_level : ℕ) (t out : Node) (s start end : State) (nodes : List (Node × ℕ))
      → t ≡ out
      → s ≡ start
      → Inserted m tie fuel query entry_level (t, insert_level) start end nodes
      → Inserted m tie fuel query entry_level (out, insert_level) s end nodes
  created_for entry_level insert_level t out s start end nodes same kept i =
      subst
        (λ (x : Node × State).
          Inserted m tie fuel query entry_level (x.0, insert_level) x.1 end nodes)
        (λ j. (same j, sym kept j)) i

  linked_for :
      (nodes nodes' : List (Node × ℕ)) (st mid st' : State)
      → nodes ≡ nodes'
      → mid ≡ st'
      → link_nodes m tie fuel nodes st ≡ (mid, found tt)
      → link_nodes m tie fuel nodes' st ≡ (st', found tt)
  linked_for nodes nodes' st mid st' same kept h =
      subst (λ (x : List (Node × ℕ) × State). link_nodes m tie fuel x.0 st ≡ (x.1, found tt))
        (λ j. (same j, kept j)) h

  -- An insert that succeeds goes through these steps, each on the state that the one before it
  -- left. It reads the entry points, and reads them again after the upgrade of the lock where the
  -- first reading says that the new node becomes the entry point: that there are none, or that
  -- their level is below the insertion level. It makes sure of the levels, then creates one node
  -- on each level from the insertion level down to 0, each with the node above it as its parent
  -- and the highest with none, and each with at most M neighbours that a search on the graph as
  -- it is then selects, or with none above the entry level; the descent to the insertion level
  -- and the searches change no state. It links the nodes back, from the lowest level up, each
  -- neighbour that overflows by that being given a list of neighbours that is not longer than the
  -- level allows. It returns the highest node. By the last reading of the entry points, if the
  -- node becomes the entry point, the last step makes it the only one, at the insertion level; if
  -- it does not, nothing is done after the links.
  pub insert_node :
      (insert_level : ℕ) (out : Node) (st st' : State)
      → insert m tie fuel query insert_level st ≡ (st', found out)
      → Inserts insert_level out st st'
  unfolding insert
  insert_node insert_level out st st' h =
      let (s1, entry, e1, h1) = >>>-found _ _ st st' out h in
      let (s2, u2, e2, h2) = >>>-found _ _ s1 st' out h1 in
      let (s3, near, e3, h3) = >>>-found _ _ s2 st' out h2 in
      let (s4, nodes, e4, h4) = >>>-found _ _ s3 st' out h3 in
      let (s5, u5, e5, h5) = >>>-found _ _ s4 st' out h4 in
      let (s6, t, e6, h6) = >>>-found _ _ s5 st' out h5 in
      let (s7, u7, e7, h7) = >>>-found _ _ s6 st' out h6 in
      let (same, last) = return-found t s7 st' out h7 in
      let (enters, tells) = entry_point_lem m tie fuel insert_level st s1 entry.0 entry.1 e1 in
      let (kept, read) = reads-found _ s5 s6 t e6 in
      let (t', n, rest, split, i) =
        insert_nodes_lem m tie fuel query entry.0.1 insert_level near s3 s4 nodes e4 in
      let top : t' ≡ t =
        some_same (top_node m tie fuel ((n, 0) ∷ rest)) t' t
          (top_node-Inserted m tie fuel query entry.0.1 (t', insert_level) s3 s4 ((n, 0) ∷ rest) i)
          (subst (λ ns. top_node m tie fuel ns ≡ some t) split read) in
      record {
        entry = entry.0;
        read_state = s1;
        entered = enters;
        level_state = s2;
        ensured = writes-found _ s1 s2 u2 e2;
        lowest = n;
        above = rest;
        node_state = s4;
        created =
            created_for entry.0.1 insert_level t' out s2 s3 s4 ((n, 0) ∷ rest) (top ∙ last)
              (descent_keeps m tie fuel query _ insert_level entry.0.0 near s2 s3 e3) i;
        link_state = s6;
        linked =
            link_nodes-Links m tie fuel ((n, 0) ∷ rest) s4 s6
              (linked_for nodes ((n, 0) ∷ rest) s4 s5 s6 split kept e5);
        last =
            entering m tie fuel insert_level entry.0 entry.1 t out s6 s7 st' u7 tells last same e7;
      }
