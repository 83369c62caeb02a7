-- ===== src/Hnsw/Layer.antt =====
-- `LayerOperations`: `src/index/hnsw/layer_ops.h` and `layer_ops_impl.h`. A method that fails, because
-- a graph operation fails, is `none`; the object is then used no more before a `reset`. The
-- scratch buffers are local values, and the `State` that asserts watch is left out: a `consume_*`
-- stands behind the `search` or `seed` whose result it takes.
pub mod Offer
pub mod Keeps
mod Visit
pub mod Round
mod Loop
mod Seed
pub mod Answer
pub mod Ends
pub mod Total
pub mod Stops
pub mod Diverse
pub mod Selection
use vsql_vector.Base.{
  ℕ, zero, suc, Bool, true, false, ◌&&◌, ◌||◌, Option, none, some, List, [], ◌∷◌, ◌++◌, ltb, leb,
  if◌then◌else◌, length, take, map, ◌>>=◌,
}
use mathlib.Core.List.{reverse}
use vsql_vector.Page.Links.{contains}
use vsql_vector.Hnsw.Graph.{GraphApi}
use vsql_vector.Hnsw.Queue.{
  Candidate, push_min, push_max, pop, closer_than_results, further_than_results, admit,
}

pub data ExtendCandidates : Type 0 where
  extend_no : ExtendCandidates
  extend_yes : ExtendCandidates

pub data KeepPrunedConnections : Type 0 where
  keep_no : KeepPrunedConnections
  keep_yes : KeepPrunedConnections

-- How a search ends: by its own conditions, by a failing graph operation, or without fuel.
pub data Search (A : Type 0) : Type 0 where
  found : A → Search A
  failed : Search A
  out_of_fuel : Search A

module _ (g : GraphApi) where
  open g use {Node, NodeData, key}

  -- `m_query`.
  pub data Query : Type 0 where
    of_node : Node → Query
    of_data : NodeData → Query

  -- The parts of `LayerOperations` that a method leaves to the next, less `m_`. `visited` holds keys.
  pub record Layer : Type 0 where
    pub query : Query
    pub level : ℕ
    pub visited : List ℕ
    pub candidates : List (Candidate Node)
    pub results : List (Candidate Node)

  unfoldable pub query_distance : Query → Node → Option ℕ
  query_distance (of_node query) node = g.distance query node
  query_distance (of_data query) node = g.distance_to query node

  -- The loops that insert keys into `m_visited` and keep the nodes that were not there yet.
  unfoldable pub visit_new : (visited : List ℕ) → List Node → List ℕ × List Node
  visit_new visited [] = (visited, [])
  visit_new visited (node ∷ nodes) =
      let seen = visit_new visited nodes in
      let (visited', rest) = visit_new (key node ∷ visited) nodes in
      if contains (key node) visited then seen else (visited', node ∷ rest)

  unfoldable pub evaluate_distances : Query → List Node → Option (List (Candidate Node))
  evaluate_distances query [] = some []
  evaluate_distances query (node ∷ nodes) = query_distance query node >>= λ d.
      evaluate_distances query nodes >>= λ rest. some (record { node = node; distance = d } ∷ rest)

  -- `reset`, on a query that is kept or a new one; `search` and `seed` set the level.
  abbrev pub reset : Query → (level : ℕ) → Layer
  reset query level = record {
    query = query;
    level = level;
    visited = [];
    candidates = [];
    results = [];
  }

  -- The key of the query, if it is a node of the graph, is visited to begin with.
  unfoldable pub query_keys : Query → List ℕ
  query_keys (of_node query) = key query ∷ []
  query_keys (of_data query) = []

  module _ (tie : Node → Node → Bool) (is_visible : Node → Option Bool) where
    -- The last loop of `seed_impl`.
    unfoldable pub seed_candidates : Layer → List (Candidate Node) → Option Layer
    seed_candidates s [] = some s
    seed_candidates s (c ∷ cs) = is_visible c.node >>= λ visible.
        seed_candidates
          (record s {
            candidates = push_min tie c s.candidates;
            results = if visible then push_max tie c s.results else s.results;
          })
          cs

    unfoldable pub seed_impl : Layer → (entry_points : List Node) → Option Layer
    seed_impl s entry_points =
        let (visited, nodes) = visit_new (query_keys s.query) entry_points in
        evaluate_distances s.query nodes >>= λ cs.
        seed_candidates (record s { visited = visited }) cs

    -- The last loop of `expand`: one candidate, and all of them.
    unfoldable pub offer : (ef : ℕ) → Layer → Candidate Node → Option Layer
    offer ef s c =
        if ltb (length s.results) ef || closer_than_results c s.results
        then (is_visible c.node >>= λ visible. some (record s {
          candidates = push_min tie c s.candidates;
          results = if visible then admit tie ef c s.results else s.results;
        }))
        else some s

    unfoldable pub offer_all : (ef : ℕ) → Layer → List (Candidate Node) → Option Layer
    offer_all ef s [] = some s
    offer_all ef s (c ∷ cs) = offer ef s c >>= λ s'. offer_all ef s' cs

    unfoldable pub expand : (ef : ℕ) → Layer → Node → Option Layer
    expand ef s node = g.neighbours s.level node >>= λ neighbours.
        let (visited, nodes) = visit_new s.visited neighbours in
        evaluate_distances s.query nodes >>= λ cs. offer_all ef (record s { visited = visited }) cs

    -- The `while` loop of `search`. `fuel` bounds the number of rounds.
    unfoldable pub search_loop : (ef fuel : ℕ) → Layer → Search Layer
    search_loop ef zero s = out_of_fuel
    search_loop ef (suc fuel) s = elim s.candidates [
      | [] ↦ found s
      | c ∷ rest ↦
          let s1 = record s { candidates = rest } in
          let next : Search Layer = elim (expand ef s1 c.node) [
            | none ↦ failed
            | some s2 ↦ search_loop ef fuel s2
          ] in
          if further_than_results c s1.results then found s1 else next
    ]

    unfoldable pub search_layer :
        (fuel : ℕ) → Query → (entry_points : List Node) → (level ef : ℕ) → Search Layer
    search_layer fuel query entry_points level ef =
        elim (seed_impl (reset query level) entry_points) [
          | none ↦ failed
          | some s ↦ search_loop ef fuel s
        ]

    unfoldable pub seed : Query → (candidates : List Node) → (level : ℕ) → Option Layer
    seed query candidates level = seed_impl (reset query level) candidates

  -- `consume_result`, which fills `out` from its end.
  unfoldable pub consume_all : Layer → List Node
  consume_all s = reverse (map (λ (c : Candidate Node). c.node) s.results)

  unfoldable pub consume_simple : (count : ℕ) → Layer → List Node
  unfolding consume_all
  consume_simple count s = take count (consume_all s)

  -- Whether some node of the result is closer to the candidate than the query is.
  unfoldable pub is_dominated : Candidate Node → (result : List Node) → Option Bool
  is_dominated e [] = some false
  is_dominated e (r ∷ result) = g.distance e.node r >>= λ d.
      let rest = is_dominated e result in if ltb d e.distance then some true else rest

  -- The loop of `extend_with_neighbours` over the candidates of W: the nodes to be appended.
  unfoldable pub new_neighbours :
      (level : ℕ) → (visited : List ℕ) → List (Candidate Node) → Option (List Node)
  new_neighbours level visited [] = some []
  new_neighbours level visited (c ∷ cs) = g.neighbours level c.node >>= λ neighbours.
      let (visited', nodes) = visit_new visited neighbours in
      new_neighbours level visited' cs >>= λ rest. some (nodes ++ rest)

  unfoldable pub extend_with_neighbours :
      Layer → List (Candidate Node) → Option (List (Candidate Node))
  extend_with_neighbours s w = new_neighbours s.level s.visited w >>= λ nodes.
      evaluate_distances s.query nodes >>= λ more. some (w ++ more)

  module _ (tie : Node → Node → Bool) where
    unfoldable pub push_all : List (Candidate Node) → List (Candidate Node) → List (Candidate Node)
    push_all queue [] = queue
    push_all queue (c ∷ cs) = push_all (push_min tie c queue) cs

    -- The selection loop of `consume_heuristic`, over the queue: what is selected on top of `result`, and
    -- what is discarded.
    unfoldable pub select_diverse :
        (count : ℕ)
        → (queue : List (Candidate Node)) → (result : List Node) → Option (List Node × List Node)
    select_diverse count [] result = some (result, [])
    select_diverse count (e ∷ queue) result =
        let go_on = is_dominated e result >>= λ dominated.
        if dominated
        then (select_diverse count queue result >>= λ out. some (out.0, e.node ∷ out.1))
        else select_diverse count queue (result ++ e.node ∷ []) in
        if ltb (length result) count then go_on else some (result, [])

    -- The selected nodes, and the candidate pool.
    unfoldable pub consume_heuristic :
        Layer
        → (count : ℕ) → ExtendCandidates
        → KeepPrunedConnections
        → Option (List Node × List Node)
    consume_heuristic s count extend keep =
        let w = s.results in
        let pool = reverse (map (λ (c : Candidate Node). c.node) w) in
        let extended : Option (List (Candidate Node)) = elim extend [
          | extend_yes ↦ extend_with_neighbours s w
          | extend_no ↦ some w
        ] in
        extended >>= λ all. select_diverse count (push_all [] all) [] >>= λ out.
        let (selected, discarded) = out in
        some
          (elim keep [ keep_yes ↦ take count (selected ++ discarded) | keep_no ↦ selected ], pool)
