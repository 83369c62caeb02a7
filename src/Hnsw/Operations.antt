-- ===== src/Hnsw/Operations.antt =====
-- `GraphOperations`: `src/index/hnsw/graph_ops.h` and `graph_ops_impl.h`. A level is a number. The level
-- locks have no part in the model: an operation runs alone, but for what other threads do while
-- `LockGraph::upgrade` holds no lock. `fuel` bounds the rounds of each search, and the level of a
-- new node, which `get_insert_level` draws, is an argument.
pub mod Knn
pub mod Returns
pub mod Marks
pub mod EntryPoint
pub mod Levels
pub mod Links
pub mod Insert
use vsql_vector.Base.{
  ℕ, zero, suc, ◌+◌, ◌-◌, ◌==◌, Bool, true, false, ◌&&◌, ◌||◌, Option, none, some, List, [], ◌∷◌,
  ◌++◌, ltb, leb, if◌then◌else◌, length, ◌⊎◌, inl, inr,
}
use Prim.Native.Nat.{max}
use vsql_vector.Hnsw.Graph.{always_visible, graph_visible}
use vsql_vector.Hnsw.Layer.{
  Layer, Query, Search, found, search_layer, seed, consume_all, consume_simple, consume_heuristic,
  ExtendCandidates, KeepPrunedConnections, extend_no, keep_no,
}
use vsql_vector.Hnsw.Mutable.{
  MutableGraph, graph_at, Step, return, ◌>>>◌, reads, writes, searches, outcome, or_failed,
}

abbrev pub should_extend_candidates : ExtendCandidates
should_extend_candidates = extend_no

abbrev pub should_keep_pruned_connections : KeepPrunedConnections
should_keep_pruned_connections = keep_no

abbrev pub greedy_descent_ef : ℕ
greedy_descent_ef = 1

module _ (m : MutableGraph) (tie : m.Node → m.Node → Bool) (fuel : ℕ) where
  open m use {State, Node, NodeData, key}

  unfoldable pub advance_to_next_level : (level : ℕ) → List Node → Step State (List Node)
  advance_to_next_level level [] = return []
  advance_to_next_level level (n ∷ candidates) =
      reads (λ st. m.get_next_level_node st n level) >>> λ next.
      advance_to_next_level level candidates >>> λ rest. return (next ∷ rest)

  -- `search` and `consume_all`; the layers of the descent show every node.
  unfoldable pub search_all : NodeData → List Node → (level ef : ℕ) → Step State (List Node)
  search_all query candidates level ef = searches λ st.
      let g = graph_at m st in
      outcome (λ s. found (consume_all g s))
        (search_layer g tie (always_visible g) fuel (Query.of_data query) candidates level ef)

  -- The loop of `search_knn` over the upper levels.
  unfoldable pub knn_descent : NodeData → (level : ℕ) → List Node → Step State (List Node)
  knn_descent query zero candidates = return candidates
  knn_descent query (suc level) candidates =
      search_all query candidates (suc level) greedy_descent_ef >>> λ nearest.
      advance_to_next_level (suc level) nearest >>> λ next. knn_descent query level next

  unfoldable pub search_knn : NodeData → (k ef_search : ℕ) → Step State (List Node)
  search_knn query k ef_search = reads m.get_entry_point >>> λ entry.
      let (candidates, entry_level) = entry in
      let found_below : Step State (List Node) =
        knn_descent query entry_level candidates >>> λ below. searches λ st.
          let g = graph_at m st in
          outcome (λ s. found (consume_simple g k s))
            (search_layer g tie (graph_visible g) fuel (Query.of_data query) below 0 ef_search) in
      if length candidates == 0 then return [] else found_below

  -- The chain of a vector's nodes is marked from `level` down.
  unfoldable pub mark_delete : (level : ℕ) → Node → (delete_mark : Bool) → Step State (Unit {0})
  mark_delete zero current delete_mark = writes (λ st. m.mark_delete st current zero delete_mark)
  mark_delete (suc level) current delete_mark =
      writes (λ st. m.mark_delete st current (suc level) delete_mark) >>> λ u.
      reads (λ st. m.get_next_level_node st current (suc level)) >>> λ next.
      mark_delete level next delete_mark

  -- For each overflowed node: its neighbours and the new one, narrowed to as many as there may be.
  unfoldable pub shrink_neighbours :
      (linked_node : Node) → (level : ℕ) → (overflowed : List Node) → Step State (Unit {0})
  shrink_neighbours linked_node level [] = return tt
  shrink_neighbours linked_node level (neighbour ∷ overflowed) =
      reads (λ st. m.neighbours st level neighbour) >>> λ connections.
      searches (λ st.
        let g = graph_at m st in
        outcome
          (λ s.
            outcome (λ out. found out.0)
              (or_failed (
                consume_heuristic g tie s (m.m_max level) should_extend_candidates
                  should_keep_pruned_connections)))
          (or_failed (
            seed g tie (always_visible g) (Query.of_node neighbour)
              (connections ++ linked_node ∷ []) level)))
      >>> λ shrunk. writes (λ st. m.replace_neighbours st neighbour level shrunk) >>> λ withheld.
          shrink_neighbours linked_node level overflowed

  -- `search` and `consume_heuristic`: the selected neighbours, and the candidate pool.
  unfoldable pub search_select :
      (query : NodeData ⊎ Node) → List Node → (level : ℕ) → Step State (List Node × List Node)
  search_select query candidates level = searches λ st.
      let g = graph_at m st in
      let q : Query g = elim query [ inl a ↦ Query.of_data a | inr n ↦ Query.of_node n ] in
      outcome
        (λ s.
          or_failed
            (consume_heuristic g tie s m.M should_extend_candidates should_keep_pruned_connections))
        (search_layer g tie (always_visible g) fuel q candidates level m.ef_construction)

  -- The first loop of `insert`, over `above` levels.
  unfoldable pub insert_descent :
      NodeData → (above insert_level : ℕ) → List Node → Step State (List Node)
  insert_descent query zero insert_level candidates = return candidates
  insert_descent query (suc above) insert_level candidates =
      let level = suc above + insert_level in
      search_all query candidates level greedy_descent_ef >>> λ nearest.
      advance_to_next_level level nearest >>> λ next. insert_descent query above insert_level next

  -- The second loop of `insert`: a node on each level, from the insertion level down. The nodes are on
  -- top of `inserted_nodes`, the lowest first.
  unfoldable pub insert_nodes :
      NodeData
      → (entry_level level : ℕ) → (parent : Option Node) → (candidates : List Node)
      → (inserted_nodes : List (Node × ℕ)) → Step State (List (Node × ℕ))
  insert_nodes query entry_level zero parent candidates inserted_nodes =
      search_select (inl query) candidates 0 >>> λ out.
      writes (λ st. m.create_node st parent 0 query out.0) >>> λ node.
      return ((node, 0) ∷ inserted_nodes)
  insert_nodes query entry_level (suc level) parent candidates inserted_nodes =
      let selected : Step State (List Node × List Node) =
        if ltb entry_level (suc level)
        then return ([], candidates)
        else search_select (inl query) candidates (suc level) in
      selected >>> λ out. writes (λ st. m.create_node st parent (suc level) query out.0) >>> λ node.
      let next : Step State (List Node) =
        if leb (suc level) entry_level
        then advance_to_next_level (suc level) out.1
        else return out.1 in
      next >>> λ below.
      insert_nodes query entry_level level (some node) below ((node, suc level) ∷ inserted_nodes)

  -- The last loop of `insert`: the links back, from the lowest level up.
  unfoldable pub link_nodes : List (Node × ℕ) → Step State (Unit {0})
  link_nodes [] = return tt
  link_nodes ((node, level) ∷ inserted_nodes) =
      writes (λ st. m.link_neighbours st node level) >>> λ overflowed.
      shrink_neighbours node level overflowed >>> λ u. link_nodes inserted_nodes

  -- The node that was pushed first.
  unfoldable pub top_node : List (Node × ℕ) → Option Node
  top_node [] = none
  top_node ((node, level) ∷ []) = some node
  top_node (n ∷ n' ∷ ns) = top_node (n' ∷ ns)

  -- The entry points, read again after the upgrade where the new node may become one.
  unfoldable pub insert_entry_point : (insert_level : ℕ) → Step State ((List Node × ℕ) × Bool)
  insert_entry_point insert_level = reads m.get_entry_point >>> λ entry.
      let is_new = λ (e : List Node × ℕ). length e.0 == 0 || ltb e.1 insert_level in
      let again : Step State ((List Node × ℕ) × Bool) =
        writes (λ st. (m.upgrade st, some tt)) >>> λ u.
        reads m.get_entry_point >>> λ entry'. return (entry', is_new entry') in
      if is_new entry then again else return (entry, false)

  unfoldable pub insert : NodeData → (insert_level : ℕ) → Step State Node
  insert query insert_level = insert_entry_point insert_level >>> λ entry.
      let ((candidates, entry_level), new_entry_point) = entry in
      let level = max entry_level insert_level in
      writes (λ st. m.ensure_levels st level) >>> λ u.
      insert_descent query (level - insert_level) insert_level candidates >>> λ near.
      insert_nodes query entry_level insert_level none near [] >>> λ inserted_nodes.
      link_nodes inserted_nodes >>> λ u'. reads (λ st. top_node inserted_nodes) >>> λ out.
      let enter : Step State (Unit {0}) =
        if new_entry_point
        then writes (λ st. m.set_entry_point st (out ∷ []) insert_level)
        else return tt in
      enter >>> λ u''. return out

  -- Whether the node is the only entry point.
  unfoldable pub is_sole_entry_point : Node → (target_level : ℕ) → List Node × ℕ → Bool
  is_sole_entry_point target target_level ([], level) = false
  is_sole_entry_point target target_level (e ∷ es, level) =
      (target_level == level) && (length es == 0) && (key e == key target)

  unfoldable pub remove_entry_point : Node → (target_level : ℕ) → Step State Bool
  remove_entry_point target target_level = reads m.get_entry_point >>> λ entry.
      let again : Step State Bool = writes (λ st. (m.upgrade st, some tt)) >>> λ u.
      reads m.get_entry_point >>> λ entry'.
      return (is_sole_entry_point target target_level entry') in
      if is_sole_entry_point target target_level entry then again else return false

  -- The loop of `remove` over the neighbours that a level leaves without a link of their own.
  unfoldable pub repair : (level : ℕ) → (orphaned unlinked : List Node) → Step State (List Node)
  repair level [] unlinked = return unlinked
  repair level (orphan ∷ orphaned) [] = repair level orphaned (orphan ∷ [])
  repair level (orphan ∷ orphaned) (n ∷ ns) = search_select (inr orphan) (n ∷ ns) level >>> λ out.
      writes (λ st. m.replace_neighbours st orphan level out.0) >>> λ overflowed.
      shrink_neighbours orphan level overflowed >>> λ u.
      repair level orphaned (n ∷ ns ++ orphan ∷ [])

  unfoldable pub first_survivor :
      (level : ℕ) → (replacement : Option (Node × ℕ)) → (unlinked : List Node) → Option (Node × ℕ)
  first_survivor level (some r) unlinked = some r
  first_survivor level none [] = none
  first_survivor level none (n ∷ ns) = some (n, level)

  -- Phase 1: the links are cut on each level, from the top down. The nodes are the lowest first.
  unfoldable pub sever :
      (level : ℕ)
      → (current : Node) → (nodes : List (Node × ℕ)) → (replacement : Option (Node × ℕ))
      → Step State (List (Node × ℕ) × Option (Node × ℕ))
  sever zero current nodes replacement =
      writes (λ st. m.unlink_neighbours st current 0) >>> λ unlinked.
      reads (λ st. m.incoming_neighbours st current 0) >>> λ orphaned.
      repair 0 orphaned unlinked >>> λ core.
      return ((current, 0) ∷ nodes, first_survivor 0 replacement core)
  sever (suc level) current nodes replacement =
      writes (λ st. m.unlink_neighbours st current (suc level)) >>> λ unlinked.
      reads (λ st. m.incoming_neighbours st current (suc level)) >>> λ orphaned.
      repair (suc level) orphaned unlinked >>> λ core.
      reads (λ st. m.get_next_level_node st current (suc level)) >>> λ next.
      sever level next ((current, suc level) ∷ nodes) (first_survivor (suc level) replacement core)

  -- Phase 2: the records are dropped, from the lowest level up.
  unfoldable pub drop_nodes : List (Node × ℕ) → Step State (Unit {0})
  drop_nodes [] = return tt
  drop_nodes ((current, level) ∷ []) = writes (λ st. m.drop_node st none level current)
  drop_nodes ((current, level) ∷ (parent, level') ∷ nodes) =
      writes (λ st. m.drop_node st (some parent) level current) >>> λ u.
      drop_nodes ((parent, level') ∷ nodes)

  unfoldable pub remove : Node → (target_level : ℕ) → Step State (Unit {0})
  remove target target_level = remove_entry_point target target_level >>> λ new_entry_point.
      sever target_level target [] none >>> λ out.
      let (nodes, replacement) = out in
      drop_nodes nodes >>> λ u.
      let enter : Step State (Unit {0}) = elim replacement [
        | some (n, level) ↦ writes (λ st. m.set_entry_point st (n ∷ []) level)
        | none ↦ writes (λ st. m.set_entry_point st [] 0)
      ] in
      if new_entry_point then enter else return tt
