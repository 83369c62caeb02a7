-- ===== src/Tests/Layers.antt =====
-- The search and the selection on a small graph, and witnesses of the theorems of `Hnsw`.
use vsql_vector.Base.{
  ℕ, ◌+◌, ◌-◌, ◌<◌, ◌≡◌, refl, inl, inr, Bool, true, false, some, List, [], ◌∷◌, arith, length, Has,
  ltb, map,
}
use vsql_vector.Hnsw.Graph.{GraphApi, always_visible, graph_visible}
use vsql_vector.Hnsw.Queue.{
  Candidate, push, before, further_than_results, closer_than_results, admit, pop,
}
use vsql_vector.Hnsw.Layer.{
  Layer, Query, found, search_layer, consume_all, search_loop, seed_impl, visit_new, query_keys,
  evaluate_distances, query_distance, seed_candidates, expand, offer, offer_all, consume_heuristic,
  extend_no, keep_no, push_all, select_diverse, is_dominated,
}
use vsql_vector.Hnsw.Layer.Answer.{IsAnswer, search_lem, search_complete}
use vsql_vector.Hnsw.Layer.Total.{IsTotal, search_returns}
use vsql_vector.Hnsw.Layer.Stops.{search_stops_early}
use vsql_vector.Hnsw.Layer.Diverse.{IsSelection, nodes}
use vsql_vector.Hnsw.Layer.Selection.{consume_heuristic_lem}
use vsql_vector.Hnsw.Layer.Round.{Reach, entry, step}

-- Three places on a line, each linked to the next.
pub data Spot : Type 0 where
  one : Spot
  two : Spot
  three : Spot

abbrev pub place : Spot → ℕ
place one = 1
place two = 2
place three = 3

pub place_inj : (a b : Spot) → place a ≡ place b → a ≡ b
place_inj one one e = refl
place_inj one two e = absurd (omega arith)
place_inj one three e = absurd (omega arith)
place_inj two one e = absurd (omega arith)
place_inj two two e = refl
place_inj two three e = absurd (omega arith)
place_inj three one e = absurd (omega arith)
place_inj three two e = absurd (omega arith)
place_inj three three e = refl

abbrev pub links : Spot → List Spot
links one = two ∷ []
links two = one ∷ three ∷ []
links three = two ∷ []

abbrev line : (Spot → Bool) → GraphApi
line shown = record {
  Node = Spot;
  NodeData = ℕ;
  key = place;
  key_inj = place_inj;
  distance = λ a b. some ((place a - place b) + (place b - place a));
  distance_to = λ a b. some ((a - place b) + (place b - a));
  neighbours = λ level n. some (links n);
  visible = λ n. some (shown n);
}

abbrev all_shown : Spot → Bool
all_shown n = true

abbrev pub any_tie : Spot → Spot → Bool
any_tie a b = ltb (place a) (place b)

abbrev shown_line : GraphApi
shown_line = line all_shown

abbrev pub universe : List ℕ
universe = 1 ∷ 2 ∷ 3 ∷ []

pub place-Has : (n : Spot) → Has (place n) universe
place-Has one = inl refl
place-Has two = inr (inl refl)
place-Has three = inr (inr (inl refl))

abbrev candidate : Spot → ℕ → Candidate Spot
candidate n d = record { node = n; distance = d }

-- A search from the far end for the two nearest places to 0, and for four.
abbrev two_nearest : Layer shown_line
two_nearest = record {
  query = Query.of_data 0;
  level = 0;
  visited = 1 ∷ 2 ∷ 3 ∷ [];
  candidates = [];
  results = candidate two 2 ∷ candidate one 1 ∷ [];
}

abbrev all_three : Layer shown_line
all_three = record two_nearest {
  results = candidate three 3 ∷ candidate two 2 ∷ candidate one 1 ∷ [];
}

search_two :
    search_layer shown_line any_tie (always_visible shown_line) 5 (Query.of_data 0) (three ∷ []) 0 2
    ≡ found two_nearest
unfolding search_layer seed_impl visit_new query_keys evaluate_distances query_distance
    seed_candidates push before search_loop further_than_results expand offer offer_all
    closer_than_results admit pop
search_two = refl

search_four :
    search_layer shown_line any_tie (always_visible shown_line) 5 (Query.of_data 0) (three ∷ []) 0 4
    ≡ found all_three
unfolding search_layer seed_impl visit_new query_keys evaluate_distances query_distance
    seed_candidates push before search_loop further_than_results expand offer offer_all
    closer_than_results admit pop
search_four = refl

search_lem_example :
    (cs : List (Candidate Spot)) × (consume_all shown_line two_nearest
      ≡ map (λ (c : Candidate Spot). c.node) cs)
    × IsAnswer shown_line (always_visible shown_line) (Query.of_data 0) 0 2 (three ∷ []) cs
search_lem_example =
    search_lem shown_line (always_visible shown_line) (Query.of_data 0) 0 2 (three ∷ []) any_tie 5
      (omega arith) two_nearest search_two

few : length (consume_all shown_line all_three) < 4
unfolding consume_all
few = omega arith

not_query : (n : Spot) → ¬ Has (place n) (query_keys shown_line (Query.of_data 0))
unfolding query_keys
not_query n h = h

Reach-three : Reach shown_line (Query.of_data 0) 0 (three ∷ []) three
Reach-three = entry (inl refl) (not_query three)

Reach-one : Reach shown_line (Query.of_data 0) 0 (three ∷ []) one
Reach-one =
    step {ns = links two} (step {ns = links three} Reach-three refl (inl refl) (not_query two)) refl
      (inl refl) (not_query one)

search_complete_example : Has one (consume_all shown_line all_three)
search_complete_example =
    search_complete shown_line (Query.of_data 0) 0 4 (three ∷ []) any_tie 5 (omega arith) all_three
      search_four few one Reach-one

line_total : IsTotal shown_line any_tie (always_visible shown_line)
line_total = record {
  distance_total = λ a b. ((place a - place b) + (place b - place a), refl);
  distance_to_total = λ a b. ((a - place b) + (place b - a), refl);
  neighbours_total = λ level n. (links n, refl);
  visible_total = λ n. (true, refl);
}

search_returns_example :
    (t : Layer shown_line) × (search_layer shown_line any_tie
        (always_visible shown_line)
        5
        (Query.of_data 0)
        (three ∷ [])
        0
        2
      ≡ found t)
search_returns_example =
    search_returns shown_line any_tie (always_visible shown_line) line_total universe 5
      (Query.of_data 0) (three ∷ []) 0 2 (λ l n k ns h i. place-Has n) (λ n i. place-Has n)
      (omega arith)

-- The place in the middle is deleted.
abbrev gap : Spot → Bool
gap one = true
gap two = false
gap three = true

search_stops_early_example :
    (t : Layer (line gap)) × (search_layer
        (line gap)
        any_tie
        (graph_visible (line gap))
        5
        (Query.of_data 0)
        (one ∷ [])
        0
        3
      ≡ found t)
    × (consume_all (line gap) t ≡ one ∷ [])
search_stops_early_example =
    search_stops_early (line gap) any_tie 0 0 3 3 one two 1 2 (omega arith) refl refl (omega arith)
      refl refl refl (omega arith)

heuristic_two :
    consume_heuristic shown_line any_tie two_nearest 2 extend_no keep_no
    ≡ some (one ∷ [], one ∷ two ∷ [])
unfolding consume_heuristic push_all push before select_diverse is_dominated
heuristic_two = refl

consume_heuristic_lem_example :
    (◌≡◌ {A = List Spot} (one ∷ two ∷ []) (consume_all shown_line two_nearest))
    × ((picks : List (Candidate Spot)) × (one ∷ [] ≡ nodes shown_line picks)
        × IsSelection shown_line 2 (λ c. Has c two_nearest.results) picks)
consume_heuristic_lem_example =
    consume_heuristic_lem shown_line any_tie two_nearest 2 (one ∷ []) (one ∷ two ∷ []) heuristic_two
