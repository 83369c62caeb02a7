-- ===== src/Hnsw/Layer/Seed.antt =====
-- The seeding of a layer search: `seed_impl` (`src/index/hnsw/layer_ops_impl.h`).
use vsql_vector.Base.{
  ℕ, suc, ◌+◌, ◌≤◌, ◌<◌, ◌≡◌, refl, inl, inr, Bool, Option, some, List, [], ◌∷◌, arith, length, Has,
  Bool-cases, >>=-eq-some,
}
use mathlib.Core.Path.{subst}
use vsql_vector.Hnsw.Graph.{GraphApi}
use vsql_vector.Hnsw.Queue.{Candidate, push_min, push_max, admit, Ordered, length-push, before}
use vsql_vector.Hnsw.Layer.{
  Layer, Query, query_keys, visit_new, evaluate_distances, seed_candidates, seed_impl, reset,
}
use vsql_vector.Hnsw.Layer.Keeps.{
  IsLayer, seen_after, SameQuery, queue-IsLayer, admit-IsLayer, IsFresh, Apart, IsFresh-cons,
}
use vsql_vector.Hnsw.Layer.Visit.{
  visit_new-Has_new, length-visit_new, visit_new-Ordered, evaluate_distances-Apart,
  length-evaluate_distances,
}
use vsql_vector.Hnsw.Layer.Round.{IsExplored, IsSearch, visit-IsExplored, Reach}

module _ {N : Type 0} (tie : N → N → Bool) (limit : ℕ) (c : Candidate N)
    (results : List (Candidate N)) where
  admit-eq-push : length results < limit → admit tie limit c results ≡ push_max tie c results
  unfolding admit
  admit-eq-push h = ground (arith, length-push (λ a b. before tie b a) c results)

  length-push_max : length (push_max tie c results) ≡ length results + 1
  length-push_max = length-push (λ a b. before tie b a) c results

module _ (g : GraphApi) (tie : g.Node → g.Node → Bool) (is_visible : g.Node → Option Bool) where
  open g use {Node, key}

  module _ (limit : ℕ) where
    -- While there is room, every visible candidate stays in the results.
    Seeded : Layer g → List (Candidate Node) → List (Candidate Node) → Layer g → Type 0
    Seeded s seen cs s' =
        IsLayer g tie is_visible limit limit s' (seen_after seen cs)
        × SameQuery s s'
        × (length s'.results ≤ length s.results + length cs)

    seed_candidates-Seeded :
        (cs : List (Candidate Node)) (s : Layer g) (seen : List (Candidate Node))
        → IsLayer g tie is_visible limit limit s seen
        → length s.results + length cs < limit
        → ((c : Candidate Node) → Has c cs → IsFresh g seen c)
        → Ordered (Apart g) cs
        → (s' : Layer g) → seed_candidates g tie is_visible s cs ≡ some s'
        → Seeded s seen cs s'
    unfolding seed_candidates Seeded
    seed_candidates-Seeded [] s seen v room fresh apart s' h =
        let same : s ≡ s' = cc in
        subst (λ u. Seeded s seen [] u) same (v, (refl, refl, refl), omega arith)
    seed_candidates-Seeded (c ∷ cs) s seen v room fresh apart s' h =
        let (visible, asked, more) = >>=-eq-some (is_visible c.node) _ h in
        elim (Bool-cases visible) [
          | inl shown ↦
              let v' : IsLayer g tie is_visible limit limit
                  (record s {
                    candidates = push_min tie c s.candidates;
                    results = push_max tie c s.results;
                  })
                  (c ∷ seen) =
                rw (← admit-eq-push tie limit c s.results (omega arith)) (
                  admit-IsLayer g tie is_visible limit limit c s seen v (ground arith) (omega arith)
                    (fresh c (inl refl)) (rw shown at asked)) in
              let (w, same, size) =
                seed_candidates-Seeded cs _ (c ∷ seen) v'
                  (omega (arith, length-push_max tie limit c s.results))
                  (IsFresh-cons g c cs seen fresh apart) apart.1 s' (rw shown at more) in
              (w, same, omega (arith, length-push_max tie limit c s.results))
          | inr hidden ↦
              let (w, same, size) =
                seed_candidates-Seeded cs _ (c ∷ seen)
                  (queue-IsLayer g tie is_visible limit limit c s seen v (rw hidden at asked))
                  (omega arith) (IsFresh-cons g c cs seen fresh apart) apart.1 s'
                  (rw hidden at more) in
              (w, same, omega arith)
        ]

  module _ (query : Query g) (level : ℕ) (entries : List Node) (ef limit : ℕ) where
    -- With room for more than there are, nothing is full.
    ample-IsLayer :
        (n : ℕ) (s : Layer g) (seen : List (Candidate Node))
        → IsLayer g tie is_visible (suc n) (suc n) s seen
        → length s.results ≤ n
        → n ≤ limit
        → IsLayer g tie is_visible ef limit s seen
    ample-IsLayer n s seen v small fits = record {
      nearest_first = v.nearest_first;
      furthest_first = v.furthest_first;
      distinct = v.distinct;
      size = omega arith;
      candidates_seen = v.candidates_seen;
      results_seen = v.results_seen;
      results_visible = v.results_visible;
      results_settled = v.results_settled;
      best = λ c h visible. elim (v.best c h visible) [
        | inl m ↦ inl m
        | inr f ↦ absurd (omega (arith, f.0))
      ];
    }

    start : Layer g
    start = record (reset g query level) { visited = query_keys g query }

    start-IsExplored : IsExplored g query level entries start []
    unfolding start
    start-IsExplored = record {
      query_is = refl;
      level_is = refl;
      query_visited = λ n h. h;
      visited_seen = λ k h. inl h;
      seen_visited = λ c h. elim h [ ];
      seen_reach = λ c h. elim h [ ];
      seen_measured = λ c h. elim h [ ];
    }

    marked : Layer g
    marked = record (reset g query level) { visited = (visit_new g (query_keys g query) entries).0 }

    marked-IsLayer : (n : ℕ) → IsLayer g tie is_visible (suc n) (suc n) marked []
    unfolding marked
    marked-IsLayer n = record {
      nearest_first = tt;
      furthest_first = tt;
      distinct = tt;
      size = omega arith;
      candidates_seen = λ c h. elim h [ ];
      results_seen = λ c h. elim h [ ];
      results_visible = λ c h. elim h [ ];
      results_settled = λ c h. elim h [ ];
      best = λ c h. elim h [ ];
    }

    pub seed_impl-IsSearch :
        length entries ≤ limit
        → (s : Layer g) → seed_impl g tie is_visible (reset g query level) entries ≡ some s
        → (seen : List (Candidate Node)) × IsSearch g tie is_visible ef limit query level entries s
            seen
    unfolding seed_impl marked Seeded start
    seed_impl-IsSearch fits s h =
        let nodes = (visit_new g (query_keys g query) entries).1 in
        let (cs, cs_eq, h2) = >>=-eq-some (evaluate_distances g query nodes) _ h in
        let count : length cs ≤ length entries = omega (
          arith,
          length-evaluate_distances g query nodes cs cs_eq,
          length-visit_new g (query_keys g query) entries,
        ) in
        let (v, same, size) =
          seed_candidates-Seeded (suc (length entries)) cs marked []
            (marked-IsLayer (length entries)) (omega arith) (λ d h a m. elim m [ ])
            (evaluate_distances-Apart g query nodes cs cs_eq
              (visit_new-Ordered g (query_keys g query) entries))
            s h2 in
        (
          seen_after [] cs,
          record {
            layer = ample-IsLayer (length entries) s (seen_after [] cs) v (omega arith) fits;
            explored =
                visit-IsExplored g query level entries start [] start-IsExplored entries cs cs_eq
                  (λ n i f. Reach.entry i f) s same;
            entry_visited = λ n i. rw same.2 (visit_new-Has_new g (query_keys g query) entries n i);
          },
        )
