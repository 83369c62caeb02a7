-- ===== src/Hnsw/Layer/Total.antt =====
-- A layer search on a graph whose operations do not fail: `search`
-- (`src/index/hnsw/layer_ops_impl.h`).
use vsql_vector.Base.{
  List-cases, ℕ, zero, suc, ◌+◌, ◌<◌, ◌≡◌, ◌≢◌, refl, inl, inr, Bool, ◌||◌, Option, some, List, [],
  ◌∷◌, length, Has, Bool-cases, ltb, if◌then◌else◌,
}
use vsql_vector.Hnsw.Graph.{GraphApi}
use vsql_vector.Hnsw.Queue.{
  Candidate, push_min, push_max, closer_than_results, further_than_results, admit,
}
use vsql_vector.Hnsw.Layer.{
  Layer, Query, Search, found, failed, out_of_fuel, query_keys, visit_new, evaluate_distances,
  offer, offer_all, expand, seed_candidates, seed_impl, reset, search_loop, search_layer,
  query_distance,
}
use vsql_vector.Hnsw.Layer.Ends.{Closed, search_ends}
use vsql_vector.Base.{ltb, if◌then◌else◌, ◌||◌}

Search-found : {A : Type 0} (r : Search A) → r ≢ failed → r ≢ out_of_fuel → (a : A) × (r ≡ found a)
Search-found (found a) p q = (a, refl)
Search-found failed p q = absurd (p refl)
Search-found out_of_fuel p q = absurd (q refl)

module _ (g : GraphApi) (tie : g.Node → g.Node → Bool) (is_visible : g.Node → Option Bool) where
  open g use {Node, key}

  -- No operation of the graph fails.
  pub record IsTotal : Type 0 where
    pub distance_total : (a b : Node) → (d : ℕ) × (g.distance a b ≡ some d)
    pub distance_to_total : (a : g.NodeData) (b : Node) → (d : ℕ) × (g.distance_to a b ≡ some d)
    pub neighbours_total :
        (level : ℕ) (a : Node) → (ns : List Node) × (g.neighbours level a ≡ some ns)
    pub visible_total : (a : Node) → (b : Bool) × (is_visible a ≡ some b)

  module _ (total : IsTotal) where
    query_distance_total :
        (query : Query g) (n : Node) → (d : ℕ) × (query_distance g query n ≡ some d)
    unfolding query_distance
    query_distance_total (Query.of_node a) n = total.distance_total a n
    query_distance_total (Query.of_data a) n = total.distance_to_total a n

    evaluate_distances_total :
        (query : Query g) (nodes : List Node)
        → (cs : List (Candidate Node)) × (evaluate_distances g query nodes ≡ some cs)
    unfolding evaluate_distances
    evaluate_distances_total query [] = ([], refl)
    evaluate_distances_total query (n ∷ nodes) =
        let (d, e) = query_distance_total query n in
        let (cs, e') = evaluate_distances_total query nodes in
        (record { node = n; distance = d } ∷ cs, rw (e, e') refl)

    offer_all_total :
        (ef : ℕ) (cs : List (Candidate Node)) (s : Layer g)
        → (s' : Layer g) × (offer_all g tie is_visible ef s cs ≡ some s')
    unfolding offer_all offer
    offer_all_total ef [] s = (s, refl)
    offer_all_total ef (c ∷ cs) s =
        elim (Bool-cases (ltb (length s.results) ef || closer_than_results c s.results)) [
          | inl room ↦
              let (b, e) = total.visible_total c.node in
              let (s', q) = offer_all_total ef cs (record s {
                candidates = push_min tie c s.candidates;
                results = if b then admit tie ef c s.results else s.results;
              }) in
              (s', rw (room, e) q)
          | inr full ↦ let (s', q) = offer_all_total ef cs s in (s', rw full q)
        ]

    seed_candidates_total :
        (cs : List (Candidate Node)) (s : Layer g)
        → (s' : Layer g) × (seed_candidates g tie is_visible s cs ≡ some s')
    unfolding seed_candidates
    seed_candidates_total [] s = (s, refl)
    seed_candidates_total (c ∷ cs) s =
        let (b, e) = total.visible_total c.node in
        let (s', q) = seed_candidates_total cs (record s {
          candidates = push_min tie c s.candidates;
          results = if b then push_max tie c s.results else s.results;
        }) in
        (s', rw e q)

    expand_total :
        (ef : ℕ) (s : Layer g) (n : Node)
        → (s' : Layer g) × (expand g tie is_visible ef s n ≡ some s')
    unfolding expand
    expand_total ef s n =
        let (ns, e) = total.neighbours_total s.level n in
        let (cs, e') = evaluate_distances_total s.query (visit_new g s.visited ns).1 in
        let (s', q) = offer_all_total ef cs (record s { visited = (visit_new g s.visited ns).0 }) in
        (s', rw (e, e') q)

    search_loop_succeeds :
        (ef fuel : ℕ) (s : Layer g) → search_loop g tie is_visible ef fuel s ≢ failed
    unfolding search_loop
    search_loop_succeeds ef zero s = λ h. cc
    search_loop_succeeds ef (suc fuel) s = elim (List-cases s.candidates) [
      | inl e ↦ rw e (λ h. cc)
      | inr (c, rest, e) ↦ elim (Bool-cases (further_than_results c s.results)) [
        | inl far ↦ rw (e, far) (λ h. cc)
        | inr near ↦
            let (s', q) = expand_total ef (record s { candidates = rest }) c.node in
            rw (e, near, q) (search_loop_succeeds ef fuel s')
      ]
    ]

    seed_impl_total :
        (query : Query g) (entries : List Node) (level : ℕ)
        → (s : Layer g) × (seed_impl g tie is_visible (reset g query level) entries ≡ some s)
    unfolding seed_impl
    seed_impl_total query entries level =
        let (cs, e) = evaluate_distances_total query (visit_new g (query_keys g query) entries).1 in
        let (s, q) = seed_candidates_total cs (record (reset g query level) {
          visited = (visit_new g (query_keys g query) entries).0;
        }) in
        (s, rw e q)

    search_layer_succeeds :
        (fuel : ℕ) (query : Query g) (entries : List Node) (level ef : ℕ)
        → search_layer g tie is_visible fuel query entries level ef ≢ failed
    unfolding search_layer
    search_layer_succeeds fuel query entries level ef =
        let (s, q) = seed_impl_total query entries level in
        rw (q, search_layer) (search_loop_succeeds ef fuel s)

    -- Where no operation of the graph fails, and the keys of the entry points and of all
    -- neighbours are in a list, a search has a result within as many rounds as the list is long,
    -- one more for each entry point and one for the last test.
    pub search_returns :
        (universe : List ℕ) (fuel : ℕ) (query : Query g) (entries : List Node) (level ef : ℕ)
        → Closed g tie is_visible universe
        → ((n : Node) → Has n entries → Has (key n) universe)
        → length universe + length entries < fuel
        → (t : Layer g) × (search_layer g tie is_visible fuel query entries level ef ≡ found t)
    search_returns universe fuel query entries level ef closed inside enough =
        Search-found (search_layer g tie is_visible fuel query entries level ef)
          (search_layer_succeeds fuel query entries level ef)
          (search_ends g tie is_visible universe fuel query entries level ef closed inside enough)
