-- ===== src/Hnsw/Layer/Stops.antt =====
-- Where the loop of `search` stops (`src/index/hnsw/layer_ops_impl.h`): at a candidate that is further
-- than the results, whether or not the results are as many as asked for.
use vsql_vector.Base.{
  ℕ, suc, ◌<◌, ◌≡◌, ◌≢◌, refl, Bool, true, false, some, [], ◌∷◌, arith, ltb, ◌==◌,
}
use vsql_vector.Hnsw.Graph.{GraphApi, graph_visible}
use vsql_vector.Hnsw.Queue.{Candidate, push, further_than_results}
use vsql_vector.Hnsw.Layer.{
  Layer, Query, found, query_keys, visit_new, evaluate_distances, offer, offer_all, expand,
  seed_candidates, seed_impl, reset, search_loop, search_layer, query_distance, consume_all,
}

module _ (g : GraphApi) (tie : g.Node → g.Node → Bool) (query : g.NodeData)
    (level ef fuel : ℕ) where
  open g use {Node, key}

  module _ (v u : Node) (dv du : ℕ) (apart : key u ≢ key v) (near : g.distance_to query v ≡ some dv)
      (far : g.distance_to query u ≡ some du) (further : dv < du) (shown : g.visible v ≡ some true)
      (hidden : g.visible u ≡ some false) (links : g.neighbours level v ≡ some (u ∷ []))
      (many : 1 < ef) where
    abbrev q : Query g
    q = Query.of_data query

    abbrev cv : Candidate Node
    cv = record { node = v; distance = dv }

    abbrev cu : Candidate Node
    cu = record { node = u; distance = du }

    abbrev first : Layer g
    first = record {
      query = q;
      level = level;
      visited = key v ∷ [];
      candidates = cv ∷ [];
      results = cv ∷ [];
    }

    seeded : seed_impl g tie (graph_visible g) (reset g q level) (v ∷ []) ≡ some first
    unfolding seed_impl visit_new query_keys evaluate_distances query_distance seed_candidates push
    seeded = rw (near, shown) refl

    abbrev second : Layer g
    second = record {
      query = q;
      level = level;
      visited = key u ∷ key v ∷ [];
      candidates = cu ∷ [];
      results = cv ∷ [];
    }

    new : (key u == key v) ≡ false
    new = ground arith

    room : ltb 1 ef ≡ true
    room = ground arith

    expanded : expand g tie (graph_visible g) ef (record first { candidates = [] }) v ≡ some second
    unfolding expand visit_new evaluate_distances query_distance offer_all offer push
    expanded = rw (links, new, far, room, hidden) refl

    -- A search from one visible node, whose only neighbour is invisible and further from the
    -- query, returns that one node, for every ef above one and whatever lies behind the invisible
    -- neighbour.
    pub search_stops_early :
        (t : Layer g) × (search_layer g tie (graph_visible g) (suc (suc fuel)) q (v ∷ []) level ef
          ≡ found t)
        × (consume_all g t ≡ v ∷ [])
    unfolding search_layer search_loop further_than_results consume_all
    search_stops_early =
        let nearest : ltb dv dv ≡ false = ground arith in
        let over : ltb dv du ≡ true = ground arith in
        (
          record second { candidates = [] },
          rw (seeded, search_layer, nearest, expanded, over) refl,
          refl,
        )
