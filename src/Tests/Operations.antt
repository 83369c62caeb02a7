-- ===== src/Tests/Operations.antt =====
-- The operations on a graph of three places with two levels, and witnesses of the theorems of
-- `Hnsw.Operations`.
use vsql_vector.Base.{
  ℕ, ◌+◌, ◌-◌, ◌<◌, ◌≡◌, ◌≢◌, refl, ◌⊎◌, Bool, true, false, not, Option, some, none, List, [], ◌∷◌,
  arith, length, if◌then◌else◌, ◌==◌, sym, ap,
}
use vsql_vector.Hnsw.Queue.{push, before, further_than_results, closer_than_results, admit, pop}
use vsql_vector.Hnsw.Layer.{
  found, search_layer, consume_all, consume_simple, search_loop, seed_impl, visit_new, query_keys,
  evaluate_distances, query_distance, seed_candidates, expand, offer, offer_all,
}
use vsql_vector.Hnsw.Mutable.{MutableGraph, return, ◌>>>◌, reads, writes, searches}
use vsql_vector.Hnsw.Operations.{
  search_knn, knn_descent, search_all, advance_to_next_level, mark_delete,
}
use vsql_vector.Hnsw.Operations.Knn.{search_knn_lem, IsNearest}
use vsql_vector.Hnsw.Operations.Returns.{Answers, search_knn_returns}
use vsql_vector.Hnsw.Operations.Marks.{MarksNodes, MarksChain, mark_delete-Chain, lowest, above}
use vsql_vector.Hnsw.Operations.Insert.{Inserts, insert_node}
use vsql_vector.Hnsw.Operations.{
  insert, insert_entry_point, insert_descent, insert_nodes, link_nodes, top_node, search_select,
  shrink_neighbours,
}
use vsql_vector.Hnsw.Layer.{consume_heuristic, push_all, select_diverse, seed, is_dominated}
use vsql_vector.Tests.Layers.{
  Spot, one, two, three, place, place_inj, links, any_tie, universe, place-Has,
}

-- The state holds the delete marks. Each place is its own counterpart on the other level.
abbrev marks_graph : MutableGraph
marks_graph = record {
  State = Spot → Bool;
  Node = Spot;
  NodeData = ℕ;
  key = place;
  key_inj = place_inj;
  distance = λ st a b. some ((place a - place b) + (place b - place a));
  distance_to = λ st a b. some ((a - place b) + (place b - a));
  neighbours = λ st level n. some (links n);
  visible = λ st n. some (not (st n));
  incoming_neighbours = λ st n level. some [];
  get_entry_point = λ st. some (three ∷ [], 1);
  get_next_level_node = λ st n level. some n;
  mark_delete = λ st n level b. ((λ x. if place x == place n then b else st x), some tt);
  ensure_levels = λ st level. (st, some tt);
  create_node = λ st parent level query ns. (st, none);
  drop_node = λ st parent level n. (st, none);
  link_neighbours = λ st n level. (st, none);
  replace_neighbours = λ st n level ns. (st, none);
  unlink_neighbours = λ st n level. (st, none);
  set_entry_point = λ st ns level. (st, none);
  M = 2;
  m_max = λ level. 4;
  ef_construction = 10;
  upgrade = λ st. st;
}

abbrev middle_marked : Spot → Bool
middle_marked n = place n == 2

abbrev unmarked : Spot → Bool
unmarked n = false

knn_two : search_knn marks_graph any_tie 9 0 2 2 unmarked ≡ (unmarked, found (one ∷ two ∷ []))
unfolding search_knn knn_descent search_all advance_to_next_level return ◌>>>◌ reads searches
    search_layer seed_impl visit_new query_keys evaluate_distances query_distance seed_candidates
    push before search_loop further_than_results expand offer offer_all closer_than_results admit
    pop consume_all consume_simple
knn_two = refl

search_knn_lem_example :
    (unmarked ≡ unmarked)
    × ((entry_points : List Spot) × (level : ℕ) × (◌≡◌ {A = Option (List Spot × ℕ)}
          (some (three ∷ [], 1))
          (some (entry_points, level)))
        × (((entry_points ≡ []) × (one ∷ two ∷ [] ≡ []))
            ⊎ ((entry_points ≢ [])
                × IsNearest marks_graph any_tie 9 unmarked 0 entry_points level 2 2
                    (one ∷ two ∷ []))))
search_knn_lem_example =
    search_knn_lem marks_graph any_tie 9 0 2 2 (one ∷ two ∷ []) unmarked unmarked (omega arith)
      knn_two

middle_Answers : Answers marks_graph any_tie 9 universe middle_marked
middle_Answers = record {
  total = record {
    distance_total = λ a b. ((place a - place b) + (place b - place a), refl);
    distance_to_total = λ a b. ((a - place b) + (place b - a), refl);
    neighbours_total = λ level n. (links n, refl);
    visible_total = λ n. (not (middle_marked n), refl);
  };
  entry_total = ((three ∷ [], 1), refl);
  next_total = λ n level. (n, refl);
  finite = place-Has;
}

enough : length universe + length middle_Answers.entry_total.0.0 + 1 < 9
unfolding middle_Answers
enough = omega arith

search_knn_returns_example :
    (out : List Spot) × (search_knn marks_graph any_tie 9 0 2 2 middle_marked
      ≡ (middle_marked, found out))
search_knn_returns_example =
    search_knn_returns marks_graph any_tie 9 universe middle_marked middle_Answers 0 2 2 enough

marks_lem : MarksNodes marks_graph any_tie 9 λ st. st
marks_lem = record {
  marks = λ st st' n level b h x.
      let e : (λ (y : Spot). if place y == place n then b else st y) ≡ st' =
        ap (λ (r : (Spot → Bool) × Option (Unit {0})). r.0) h in
      sym (ap (λ (f : Spot → Bool). f x) e);
  keeps_on_failure =
      λ st st' n level b h x. cc (ap (λ (r : (Spot → Bool) × Option (Unit {0})). r.1) h);
  keeps_levels = λ st n level b x l. refl;
}

mark_delete-Chain_example :
    MarksChain marks_graph any_tie 9
      (λ st. st)
      marks_lem
      unmarked
      true
      (two ∷ two ∷ [])
      (mark_delete marks_graph any_tie 9 1 two true unmarked)
mark_delete-Chain_example =
    mark_delete-Chain marks_graph any_tie 9 (λ st. st) marks_lem 1 two (two ∷ two ∷ []) true
      unmarked (above refl lowest)

-- A graph whose state is a log of its writes, the last one first: a number for the operation and the
-- level, on top of the number of neighbours given. A link to the node two overflows on level 0.
abbrev logged_graph : MutableGraph
logged_graph = record {
  State = List ℕ;
  Node = Spot;
  NodeData = ℕ;
  key = place;
  key_inj = place_inj;
  distance = λ st a b. some ((place a - place b) + (place b - place a));
  distance_to = λ st a b. some ((a - place b) + (place b - a));
  neighbours = λ st level n. some (links n);
  visible = λ st n. some true;
  incoming_neighbours = λ st n level. some [];
  get_entry_point = λ st. some (three ∷ [], 1);
  get_next_level_node = λ st n level. some n;
  mark_delete = λ st n level b. (700 ∷ st, some tt);
  ensure_levels = λ st level. ((500 + level) ∷ st, some tt);
  create_node = λ st parent level query ns. ((100 + level) ∷ length ns ∷ st, some one);
  drop_node = λ st parent level n. (800 ∷ st, some tt);
  link_neighbours = λ st n level. ((200 + level) ∷ st, some (if level == 0 then two ∷ [] else []));
  replace_neighbours = λ st n level ns. ((300 + level) ∷ length ns ∷ st, some []);
  unlink_neighbours = λ st n level. (900 ∷ st, some []);
  set_entry_point = λ st ns level. ((400 + level) ∷ st, some tt);
  M = 2;
  m_max = λ level. 2;
  ef_construction = 10;
  upgrade = λ st. 600 ∷ st;
}

abbrev insert_log : List ℕ
insert_log = 402 ∷ 202 ∷ 201 ∷ 300 ∷ 2 ∷ 200 ∷ 100 ∷ 1 ∷ 101 ∷ 1 ∷ 102 ∷ 0 ∷ 502 ∷ 600 ∷ []

insert_two : insert logged_graph any_tie 9 0 2 [] ≡ (insert_log, found one)
unfolding insert insert_entry_point insert_descent insert_nodes link_nodes top_node search_select
    shrink_neighbours return ◌>>>◌ reads writes searches search_layer seed_impl visit_new query_keys
    evaluate_distances seed_candidates search_loop consume_heuristic push_all select_diverse
    advance_to_next_level further_than_results expand offer offer_all closer_than_results admit pop
    push before query_distance seed is_dominated
insert_two = refl

insert_node_example : Inserts logged_graph any_tie 9 0 2 one [] insert_log
insert_node_example = insert_node logged_graph any_tie 9 0 2 one [] insert_log insert_two
