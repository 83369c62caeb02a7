-- ===== src/Hnsw/Layer/Round.antt =====
-- One round of a layer search, the seeding before the first, and what holds at the end: `seed_impl`,
-- `expand` and the loop of `search` (`src/index/hnsw/layer_ops_impl.h`).
use vsql_vector.Base.{
  ℕ, ◌≤◌, ◌<◌, ◌≡◌, refl, inl, inr, ◌⊎◌, Bool, true, Option, some, List, [], ◌∷◌, arith, Has,
  >>=-eq-some, ◌∙◌, ap,
}
use mathlib.Core.Path.{subst}
use vsql_vector.Hnsw.Graph.{GraphApi}
use vsql_vector.Hnsw.Queue.{Candidate, further_than_results, Descending, Ascending}
use vsql_vector.Hnsw.Layer.{
  Layer, Query, query_keys, query_distance, visit_new, evaluate_distances, expand,
}
use vsql_vector.Hnsw.Layer.Keeps.{
  IsLayer, offer_all-IsLayer, seen_after, seen_after-Has_old, seen_after-Has_new, Has-seen_after,
  SameQuery,
}
use vsql_vector.Hnsw.Layer.Visit.{
  visit_new-Has_old, visit_new-Has_new, Has-visit_new, visit_new-New, visit_new-Ordered,
  evaluate_distances-Apart, evaluate_distances-Has, Has-evaluate_distances,
}

-- The node that is the query, where the query is a node.
abbrev pub IsQuery : {g : GraphApi} → Query g → g.Node → Type 0
IsQuery {g} query n = Has (g.key n) (query_keys g query)

module _ (g : GraphApi) (query : Query g) (level : ℕ) (entries : List g.Node) where
  open g use {Node, key}

  -- A node to which a path leads from an entry point, on the level, past the query.
  pub data Reach : Node → Type 0 where
    entry : {n : Node} → Has n entries → ¬ IsQuery query n → Reach n
    step :
        {m n : Node} {ns : List Node}
        → Reach m
        → g.neighbours level m ≡ some ns
        → Has n ns
        → ¬ IsQuery query n
        → Reach n

  pub record IsExplored (s : Layer g) (seen : List (Candidate Node)) : Type 0 where
    pub query_is : s.query ≡ query
    pub level_is : s.level ≡ level
    pub query_visited : (n : Node) → IsQuery query n → Has (key n) s.visited
    pub visited_seen :
        (k : ℕ)
        → Has k s.visited
        → Has k (query_keys g query) ⊎ ((c : Candidate Node) × Has c seen × (key c.node ≡ k))
    pub seen_visited : (c : Candidate Node) → Has c seen → Has (key c.node) s.visited
    pub seen_reach : (c : Candidate Node) → Has c seen → Reach c.node
    pub seen_measured :
        (c : Candidate Node) → Has c seen → query_distance g query c.node ≡ some c.distance

  -- The new nodes are evaluated and join those seen.
  pub visit-IsExplored :
      (s : Layer g) (seen : List (Candidate Node))
      → IsExplored s seen
      → (nodes : List Node) (cs : List (Candidate Node))
      → evaluate_distances g s.query (visit_new g s.visited nodes).1 ≡ some cs
      → ((n : Node) → Has n nodes → ¬ IsQuery query n → Reach n)
      → (s' : Layer g) → SameQuery (record s { visited = (visit_new g s.visited nodes).0 }) s'
      → IsExplored s' (seen_after seen cs)
  visit-IsExplored s seen x nodes cs e reach s' same =
      let measured : evaluate_distances g query (visit_new g s.visited nodes).1 ≡ some cs =
        rw x.query_is at e in
      let at_end : (k : ℕ) → Has k (visit_new g s.visited nodes).0 → Has k s'.visited =
        λ k h. rw same.2 h in
      record {
        query_is = same.0 ∙ x.query_is;
        level_is = same.1 ∙ x.level_is;
        query_visited = λ n h.
            at_end (key n) (visit_new-Has_old g s.visited nodes (key n) (x.query_visited n h));
        visited_seen = λ k h. elim (Has-visit_new g s.visited nodes k (rw same.2 at h)) [
          | inl old ↦ elim (x.visited_seen k old) [
            | inl q ↦ inl q
            | inr (c, i, p) ↦ inr (c, seen_after-Has_old c seen cs i, p)
          ]
          | inr (n, i, p) ↦
              let (c, j, q) =
                evaluate_distances-Has g query (visit_new g s.visited nodes).1 cs measured n i in
              inr (c, seen_after-Has_new c seen cs j, ap key q ∙ p)
        ];
        seen_visited = λ c h. elim (Has-seen_after c seen cs h) [
          | inl new ↦
              let (i, d) =
                Has-evaluate_distances g query (visit_new g s.visited nodes).1 cs measured c new in
              let (j, f) = visit_new-New g s.visited nodes c.node i in
              at_end (key c.node) (visit_new-Has_new g s.visited nodes c.node j)
          | inr old ↦
              at_end (key c.node)
                (visit_new-Has_old g s.visited nodes (key c.node) (x.seen_visited c old))
        ];
        seen_reach = λ c h. elim (Has-seen_after c seen cs h) [
          | inl new ↦
              let (i, d) =
                Has-evaluate_distances g query (visit_new g s.visited nodes).1 cs measured c new in
              let (j, f) = visit_new-New g s.visited nodes c.node i in
              reach c.node j (λ q. f (x.query_visited c.node q))
          | inr old ↦ x.seen_reach c old
        ];
        seen_measured = λ c h. elim (Has-seen_after c seen cs h) [
          | inl new ↦
              (Has-evaluate_distances g query (visit_new g s.visited nodes).1 cs measured c new).1
          | inr old ↦ x.seen_measured c old
        ];
      }

pub further_than_results_lem :
    {N : Type 0} (c r : Candidate N) (results : List (Candidate N))
    → further_than_results c results ≡ true
    → Descending results
    → Has r results
    → r.distance < c.distance
unfolding further_than_results
further_than_results_lem c r [] h o m = elim m [ ]
further_than_results_lem c r (f ∷ results) h o m = elim m [
  | inl e ↦ rw e (ground arith)
  | inr i ↦ let near = o.0 r i in ground arith
]

module _ (g : GraphApi) (tie : g.Node → g.Node → Bool) (is_visible : g.Node → Option Bool)
    (ef limit : ℕ) where
  open g use {Node, key}

  module _ (query : Query g) (level : ℕ) (entries : List Node) where
    -- What holds before each round.
    pub record IsSearch (s : Layer g) (seen : List (Candidate Node)) : Type 0 where
      pub layer : IsLayer g tie is_visible ef limit s seen
      pub explored : IsExplored g query level entries s seen
      pub entry_visited : (n : Node) → Has n entries → Has (key n) s.visited

    -- The nearest candidate leaves the queue, and its neighbours are marked.
    pop-IsLayer :
        (s : Layer g) (seen : List (Candidate Node)) (c : Candidate Node)
        (rest : List (Candidate Node))
        → s.candidates ≡ c ∷ rest
        → (ns : List Node) → g.neighbours s.level c.node ≡ some ns
        → IsLayer g tie is_visible ef limit s seen
        → IsLayer g tie is_visible ef limit
            (record s { candidates = rest; visited = (visit_new g s.visited ns).0 })
            seen
    pop-IsLayer s seen c rest e ns neighbours_eq v = record {
      nearest_first = (let o : Ascending (c ∷ rest) = rw e at v.nearest_first in o.1);
      furthest_first = v.furthest_first;
      distinct = v.distinct;
      size = v.size;
      candidates_seen = λ a h. v.candidates_seen a (rw e (inr h));
      results_seen = v.results_seen;
      results_visible = v.results_visible;
      results_settled = λ a h. elim (v.results_settled a h) [
        | inl m ↦
            let m' : Has a (c ∷ rest) = rw e at m in
            elim m' [
              | inl here ↦ inr (λ ms ms_eq n i.
                  let same : ms ≡ ns =
                    cc (ap (λ (x : Candidate Node). g.neighbours s.level x.node) here) in
                  visit_new-Has_new g s.visited ns n (rw same at i))
              | inr later ↦ inl later
            ]
        | inr k ↦ inr (λ ms ms_eq n i. visit_new-Has_old g s.visited ns (key n) (k ms ms_eq n i))
      ];
      best = v.best;
    }

    pub expand-IsSearch :
        (s : Layer g) (seen : List (Candidate Node)) (c : Candidate Node)
        (rest : List (Candidate Node))
        → s.candidates ≡ c ∷ rest
        → IsSearch s seen
        → 0 < ef
        → ef ≤ limit
        → (s' : Layer g)
        → expand g tie is_visible ef (record s { candidates = rest }) c.node ≡ some s'
        → (seen' : List (Candidate Node)) × IsSearch s' seen'
    unfolding expand
    expand-IsSearch s seen c rest e v pos fits s' h =
        let (ns, ns_eq, h1) = >>=-eq-some (g.neighbours s.level c.node) _ h in
        let (cs, cs_eq, h2) =
          >>=-eq-some (evaluate_distances g s.query (visit_new g s.visited ns).1) _ h1 in
        let (v', same) =
          offer_all-IsLayer g tie is_visible ef limit cs _ seen
            (pop-IsLayer s seen c rest e ns ns_eq v.layer) pos fits
            (λ d h a m e.
              let (i, q) =
                Has-evaluate_distances g s.query (visit_new g s.visited ns).1 cs cs_eq d h in
              (visit_new-New g s.visited ns d.node i).1 (rw e at (v.explored.seen_visited a m)))
            (evaluate_distances-Apart g s.query (visit_new g s.visited ns).1 cs cs_eq
              (visit_new-Ordered g s.visited ns))
            s' h2 in
        let c_reach = v.explored.seen_reach c (v.layer.candidates_seen c (rw e (inl refl))) in
        (
          seen_after seen cs,
          record {
            layer = v';
            explored =
                visit-IsExplored g query level entries s seen v.explored ns cs cs_eq
                  (λ n i f.
                    Reach.step c_reach
                      (subst (λ l. g.neighbours l c.node ≡ some ns) v.explored.level_is ns_eq) i f)
                  s' same;
            entry_visited =
                λ n i. rw same.2 (visit_new-Has_old g s.visited ns (key n) (v.entry_visited n i));
          },
        )
