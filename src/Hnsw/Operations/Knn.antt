-- ===== src/Hnsw/Operations/Knn.antt =====
-- The search for the nearest neighbours: `search_knn` (`src/index/hnsw/graph_ops_impl.h`).
use vsql_vector.Base.{
  ℕ, zero, suc, ◌<◌, ◌≡◌, inl, inr, ◌⊎◌, Bool, false, some, List, [], ◌∷◌, arith, length, ◌==◌,
  take, map, sym, List-cases, ◌≢◌, ap, ◌∙◌,
}
use mathlib.Core.Path.{subst}
use vsql_vector.Hnsw.Graph.{graph_visible}
use vsql_vector.Hnsw.Queue.{Candidate}
use vsql_vector.Hnsw.Layer.{Query, found, search_layer, consume_all, consume_simple}
use vsql_vector.Hnsw.Layer.Answer.{IsAnswer, search_lem}
use vsql_vector.Hnsw.Mutable.{
  MutableGraph, graph_at, ◌>>>◌, searches, outcome, >>>-found, return-found, reads-found,
  searches-found, outcome-found,
}
use vsql_vector.Hnsw.Operations.{advance_to_next_level, search_all, knn_descent, search_knn}

module _ (m : MutableGraph) (tie : m.Node → m.Node → Bool) (fuel : ℕ) where
  open m use {State, Node, NodeData}

  pub advance_keeps :
      (level : ℕ) (candidates out : List Node) (st st' : State)
      → advance_to_next_level m tie fuel level candidates st ≡ (st', found out)
      → st ≡ st'
  unfolding advance_to_next_level
  advance_keeps level [] out st st' h = (return-found _ st st' out h).0
  advance_keeps level (n ∷ candidates) out st st' h =
      let (s1, next, e1, h1) = >>>-found _ _ st st' out h in
      let (s2, rest, e2, h2) = >>>-found _ _ s1 st' out h1 in
      (reads-found _ st s1 next e1).0
      ∙ advance_keeps level candidates rest s1 s2 e2
      ∙ (return-found _ s2 st' out h2).0

  knn_descent_keeps :
      (query : NodeData) (level : ℕ) (candidates out : List Node) (st st' : State)
      → knn_descent m tie fuel query level candidates st ≡ (st', found out)
      → st ≡ st'
  unfolding knn_descent search_all
  knn_descent_keeps query zero candidates out st st' h = (return-found _ st st' out h).0
  knn_descent_keeps query (suc level) candidates out st st' h =
      let (s1, nearest, e1, h1) = >>>-found _ _ st st' out h in
      let (s2, next, e2, h2) = >>>-found _ _ s1 st' out h1 in
      (searches-found _ st s1 nearest e1).0
      ∙ advance_keeps (suc level) nearest next s1 s2 e2
      ∙ knn_descent_keeps query level next out s2 st' h2

  -- An answer of the search on the lowest level, from the nodes that the descent reaches.
  abbrev pub IsNearest :
      State
      → NodeData
      → (entry_points : List Node) → (entry_level k ef_search : ℕ) → List Node
      → Type 0
  IsNearest st query entry_points entry_level k ef_search out =
      (below : List Node) × (cs : List (Candidate Node)) × (knn_descent m tie fuel query entry_level
          entry_points st
        ≡ (st, found below))
      × IsAnswer (graph_at m st) (graph_visible (graph_at m st)) (Query.of_data query) 0 ef_search
          below cs
      × (out ≡ take k (map (λ (c : Candidate Node). c.node) cs))

  bottom_lem :
      (query : NodeData) (k ef_search : ℕ) (candidates : List Node) (level : ℕ) (out : List Node)
      (st st' : State)
      → 0 < ef_search
      → (knn_descent m tie fuel query level candidates >>> λ below. searches λ st.
            let g = graph_at m st in
            outcome
              (λ s. found (consume_simple g k s))
              (search_layer g tie (graph_visible g) fuel (Query.of_data query) below 0 ef_search))
          st
        ≡ (st', found out)
      → (st ≡ st') × IsNearest st query candidates level k ef_search out
  unfolding consume_simple
  bottom_lem query k ef_search candidates level out st st' pos h =
      let (s1, below, e1, h1) = >>>-found _ _ st st' out h in
      let same = knn_descent_keeps query level candidates below st s1 e1 in
      let (same', h2) = searches-found _ s1 st' out h1 in
      let (s, e2, h3) = outcome-found _ _ out h2 in
      let g = graph_at m s1 in
      let (cs, e3, a) =
        search_lem g (graph_visible g) (Query.of_data query) 0 ef_search below tie fuel pos s e2 in
      let taken : take k (consume_all g s) ≡ out = cc (h3) in
      (
        same ∙ same',
        subst (λ u. IsNearest u query candidates level k ef_search out) (sym same)
            (
              below,
              cs,
              subst (λ u. knn_descent m tie fuel query level candidates u ≡ (s1, found below)) same
                  e1,
              a,
              sym taken ∙ ap (take k) e3,
            ),
      )

  -- A search for the k nearest that ends, with a positive ef_search, leaves the graph as it is.
  -- If the graph has no entry point the result is empty; otherwise it is the first k nodes of a
  -- sorted, visible, locally optimal answer of the search on the lowest level, from the nodes
  -- that the greedy descent from the entry points arrives at.
  pub search_knn_lem :
      (query : NodeData) (k ef_search : ℕ) (out : List Node) (st st' : State)
      → 0 < ef_search
      → search_knn m tie fuel query k ef_search st ≡ (st', found out)
      → (st ≡ st')
        × ((entry_points : List Node) × (level : ℕ) × (m.get_entry_point st
              ≡ some (entry_points, level))
            × (((entry_points ≡ []) × (out ≡ []))
                ⊎ ((entry_points ≢ []) × IsNearest st query entry_points level k ef_search out)))
  unfolding search_knn
  search_knn_lem query k ef_search out st st' pos h =
      let (s1, entry, e1, h1) = >>>-found _ _ st st' out h in
      let (same, e2) = reads-found _ st s1 entry e1 in
      elim (List-cases entry.0) [
        | inl empty ↦
            let (same', nothing) = return-found [] s1 st' out (rw empty at h1) in
            (same ∙ same', (entry.0, entry.1, e2, inl (empty, sym nothing)))
        | inr (n, ns, e) ↦
            let test : (length entry.0 == 0) ≡ false = rw e (ground arith) in
            let (same', a) =
              bottom_lem query k ef_search entry.0 entry.1 out s1 st' pos (rw test at h1) in
            (
              same ∙ same',
              (
                entry.0,
                entry.1,
                e2,
                inr (
                  (λ z. cc),
                  subst (λ u. IsNearest u query entry.0 entry.1 k ef_search out) (sym same) a,
                ),
              ),
            )
      ]
