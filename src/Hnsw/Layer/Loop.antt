-- ===== src/Hnsw/Layer/Loop.antt =====
-- The loop of `search` and its seeding (`src/index/hnsw/layer_ops_impl.h`), from the first candidate
-- to the last.
use vsql_vector.Base.{
  List-cases, Option-cases, ℕ, zero, suc, ◌≤◌, ◌<◌, ◌≡◌, inl, inr, Bool, true, Option, List, [],
  ◌∷◌, arith, Has, Bool-cases,
}
use mathlib.Core.Path.{subst}
use vsql_vector.Hnsw.Graph.{GraphApi}
use vsql_vector.Hnsw.Queue.{Candidate, further_than_results, Ascending}
use vsql_vector.Hnsw.Layer.{Layer, Query, found, expand, search_loop}
use vsql_vector.Hnsw.Layer.Keeps.{Settled}
use vsql_vector.Hnsw.Layer.Round.{IsSearch, expand-IsSearch, further_than_results_lem}

module _ (g : GraphApi) (tie : g.Node → g.Node → Bool) (is_visible : g.Node → Option Bool)
    (ef limit : ℕ) where
  open g use {Node, key}

  module _ (query : Query g) (level : ℕ) (entries : List Node) where
    -- What holds when the loop has ended.
    pub record IsFinished (s : Layer g) (seen : List (Candidate Node)) : Type 0 where
      pub search : IsSearch g tie is_visible ef limit query level entries s seen
      pub settled : (r : Candidate Node) → Has r s.results → Settled s r

    -- The queue is empty.
    empty-IsFinished :
        (s : Layer g) (seen : List (Candidate Node))
        → s.candidates ≡ []
        → IsSearch g tie is_visible ef limit query level entries s seen
        → IsFinished s seen
    empty-IsFinished s seen e v = record {
      search = v;
      settled = λ r h. elim (v.layer.results_settled r h) [
        | inl m ↦ let none_left : Has r [] = rw e at m in absurd none_left
        | inr k ↦ k
      ];
    }

    -- The nearest candidate is further than every result.
    further-IsFinished :
        (s : Layer g) (seen : List (Candidate Node)) (c : Candidate Node)
        (rest : List (Candidate Node))
        → s.candidates ≡ c ∷ rest
        → further_than_results c s.results ≡ true
        → IsSearch g tie is_visible ef limit query level entries s seen
        → IsFinished (record s { candidates = rest }) seen
    further-IsFinished s seen c rest e far v =
        let sorted : Ascending (c ∷ rest) = rw e at v.layer.nearest_first in
        let settled : (r : Candidate Node) → Has r s.results → Settled s r = λ r h.
          elim (v.layer.results_settled r h) [
            | inl m ↦
                let m' : Has r (c ∷ rest) = rw e at m in
                let near = further_than_results_lem c r s.results far v.layer.furthest_first h in
                let away : c.distance ≤ r.distance = elim m' [
                  | inl here ↦ rw here (omega arith)
                  | inr later ↦ sorted.0 r later
                ] in
                absurd (omega arith)
            | inr k ↦ k
          ] in
        record {
          search = record {
            layer = record {
              nearest_first = sorted.1;
              furthest_first = v.layer.furthest_first;
              distinct = v.layer.distinct;
              size = v.layer.size;
              candidates_seen = λ a h. v.layer.candidates_seen a (rw e (inr h));
              results_seen = v.layer.results_seen;
              results_visible = v.layer.results_visible;
              results_settled = λ a h. inr (settled a h);
              best = v.layer.best;
            };
            explored = record {
              query_is = v.explored.query_is;
              level_is = v.explored.level_is;
              query_visited = v.explored.query_visited;
              visited_seen = v.explored.visited_seen;
              seen_visited = v.explored.seen_visited;
              seen_reach = v.explored.seen_reach;
              seen_measured = v.explored.seen_measured;
            };
            entry_visited = v.entry_visited;
          };
          settled = settled;
        }

    pub search_loop-IsFinished :
        (fuel : ℕ) (s : Layer g) (seen : List (Candidate Node))
        → IsSearch g tie is_visible ef limit query level entries s seen
        → 0 < ef
        → ef ≤ limit
        → (t : Layer g) → search_loop g tie is_visible ef fuel s ≡ found t
        → (seen' : List (Candidate Node)) × IsFinished t seen'
    unfolding search_loop
    search_loop-IsFinished zero s seen v pos fits t h = cc
    search_loop-IsFinished (suc fuel) s seen v pos fits t h = elim (List-cases s.candidates) [
      | inl e ↦
          let same : s ≡ t = cc (h) in
          (seen, subst (λ u. IsFinished u seen) same (empty-IsFinished s seen e v))
      | inr (c, rest, e) ↦
          let h1 = rw e at h in
          elim (Bool-cases (further_than_results c s.results)) [
            | inl far ↦
                let same : record s { candidates = rest } ≡ t = cc (rw far at h1) in
                (
                  seen,
                  subst (λ u. IsFinished u seen) same (further-IsFinished s seen c rest e far v),
                )
            | inr near ↦
                elim (Option-cases
                  (expand g tie is_visible ef (record s { candidates = rest }) c.node)) [
                    | inl n ↦ absurd (cc (rw (near, n) at h1))
                    | inr (s2, q) ↦
                        let (seen', v') =
                          expand-IsSearch g tie is_visible ef limit query level entries s seen c
                            rest e v pos fits s2 q in
                        search_loop-IsFinished fuel s2 seen' v' pos fits t (rw (near, q) at h1)
                  ]
          ]
    ]
