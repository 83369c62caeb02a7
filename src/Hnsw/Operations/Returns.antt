-- ===== src/Hnsw/Operations/Returns.antt =====
-- The search for the nearest neighbours ends: `search_knn` (`src/index/hnsw/graph_ops_impl.h`).
use vsql_vector.Base.{
  ℕ, zero, suc, ◌+◌, ◌≤◌, ◌<◌, ◌≡◌, refl, inl, inr, Bool, true, some, List, [], ◌∷◌, arith, length,
  Has, Bool-cases, ◌==◌,
}
use vsql_vector.Hnsw.Graph.{always_visible, graph_visible}
use vsql_vector.Hnsw.Layer.{Query, found, consume_all, consume_simple}
use vsql_vector.Hnsw.Layer.Answer.{search_lem, length-map}
use vsql_vector.Hnsw.Layer.Total.{IsTotal, search_returns}
use vsql_vector.Hnsw.Mutable.{MutableGraph, graph_at, return, >>>-eq, reads-eq, searches-eq}
use vsql_vector.Hnsw.Operations.{
  advance_to_next_level, search_all, knn_descent, search_knn, greedy_descent_ef,
}

module _ (m : MutableGraph) (tie : m.Node → m.Node → Bool) (fuel : ℕ) where
  open m use {State, Node, NodeData, key}

  -- No operation of the graph fails in the state, and it has finitely many nodes.
  pub record Answers (universe : List ℕ) (st : State) : Type 0 where
    pub total : IsTotal (graph_at m st) tie (graph_visible (graph_at m st))
    pub entry_total : (e : List Node × ℕ) × (m.get_entry_point st ≡ some e)
    pub next_total :
        (n : Node) (level : ℕ) → (n' : Node) × (m.get_next_level_node st n level ≡ some n')
    pub finite : (n : Node) → Has (key n) universe

  module _ (universe : List ℕ) (st : State) (a : Answers universe st) where
    always_total : IsTotal (graph_at m st) tie (always_visible (graph_at m st))
    always_total = record {
      distance_total = a.total.distance_total;
      distance_to_total = a.total.distance_to_total;
      neighbours_total = a.total.neighbours_total;
      visible_total = λ n. (true, refl);
    }

    advance_returns :
        (level : ℕ) (candidates : List Node)
        → (out : List Node) × (advance_to_next_level m tie fuel level candidates st
            ≡ (st, found out))
          × (length out ≡ length candidates)
    unfolding advance_to_next_level return
    advance_returns level [] = ([], refl, refl)
    advance_returns level (n ∷ candidates) =
        let (next, e) = a.next_total n level in
        let (rest, e', l) = advance_returns level candidates in
        (
          next ∷ rest,
          >>>-eq _ _ st st next (reads-eq _ st next e) (>>>-eq _ _ st st rest e' refl),
          omega arith,
        )

    search_all_returns :
        (query : NodeData) (candidates : List Node) (level limit : ℕ)
        → length universe + limit < fuel
        → length candidates ≤ limit
        → 0 < limit
        → (out : List Node) × (search_all m tie fuel query candidates level greedy_descent_ef st
            ≡ (st, found out))
          × (length out ≤ limit)
    unfolding search_all
    search_all_returns query candidates level limit enough few pos =
        let g = graph_at m st in
        let (s, e) =
          search_returns g tie (always_visible g) always_total universe fuel (Query.of_data query)
            candidates level greedy_descent_ef (λ l n k ns h i. a.finite n) (λ n i. a.finite n)
            (omega arith) in
        let (cs, nodes, ans) =
          search_lem g (always_visible g) (Query.of_data query) level greedy_descent_ef candidates
            tie fuel (omega arith) s e in
        let count : length (consume_all g s) ≤ limit = rw nodes (
          rw length-map
            (let z = ans.size in elim z [ inl l ↦ omega arith | inr l ↦ omega arith ])) in
        (consume_all g s, searches-eq _ st _ (rw e refl), count)

    knn_descent_returns :
        (query : NodeData) (level : ℕ) (candidates : List Node) (limit : ℕ)
        → length universe + limit < fuel
        → length candidates ≤ limit
        → 0 < limit
        → (out : List Node) × (knn_descent m tie fuel query level candidates st ≡ (st, found out))
          × (length out ≤ limit)
    unfolding knn_descent return
    knn_descent_returns query zero candidates limit enough few pos = (candidates, refl, few)
    knn_descent_returns query (suc level) candidates limit enough few pos =
        let (near, e, l) = search_all_returns query candidates (suc level) limit enough few pos in
        let (next, e', l') = advance_returns (suc level) near in
        let (out, e'', l'') = knn_descent_returns query level next limit enough (omega arith) pos in
        (out, >>>-eq _ _ st st near e (>>>-eq _ _ st st next e' e''), l'')

    -- Where no operation of the graph fails and the keys of all nodes are in a list, a search for
    -- the k nearest has a result, and leaves the graph as it is, if each search of a level may
    -- take more rounds than the list and the entry points are long together and one more.
    pub search_knn_returns :
        (query : NodeData) (k ef_search : ℕ)
        → length universe + length a.entry_total.0.0 + 1 < fuel
        → (out : List Node) × (search_knn m tie fuel query k ef_search st ≡ (st, found out))
    unfolding search_knn return
    search_knn_returns query k ef_search enough =
        let entry = a.entry_total.0 in
        elim (Bool-cases (length entry.0 == 0)) [
          | inl empty ↦
              ([], >>>-eq _ _ st st entry (reads-eq _ st entry a.entry_total.1) (rw empty refl))
          | inr more ↦
              let (below, e, l) =
                knn_descent_returns query entry.1 entry.0 (length entry.0 + 1) (omega arith)
                  (omega arith) (omega arith) in
              let g = graph_at m st in
              let (s, e') =
                search_returns g tie (graph_visible g) a.total universe fuel (Query.of_data query)
                  below 0 ef_search (λ l n k ns h i. a.finite n) (λ n i. a.finite n)
                  (omega arith) in
              (
                consume_simple g k s,
                >>>-eq _ _ st st entry (reads-eq _ st entry a.entry_total.1)
                    (rw more (>>>-eq _ _ st st below e (searches-eq _ st _ (rw e' refl)))),
              )
        ]
