-- ===== src/Hnsw/Layer/Selection.antt =====
-- The result of `consume_heuristic` with the policy that `GraphOperations` sets
-- (`src/index/hnsw/layer_ops_impl.h`, `graph_ops.h`).
use vsql_vector.Base.{
  ℕ, ◌<◌, ◌≡◌, inl, inr, ◌⊎◌, Bool, Option, some, List, [], ◌∷◌, ◌++◌, arith, length, Has,
  Bool-cases, >>=-eq-some, ltb, ap, sym, ◌∙◌,
}
use vsql_vector.Hnsw.Graph.{GraphApi}
use vsql_vector.Hnsw.Queue.{
  Candidate, Ascending, push_min-Ascending, Has-push, push-Has_old, push-Has_new, before, push_min,
}
use vsql_vector.Hnsw.Layer.{
  Layer, is_dominated, select_diverse, consume_heuristic, push_all, consume_all, keep_no, extend_no,
}
use vsql_vector.Hnsw.Layer.Diverse.{
  IsSelecting, IsSelection, select-IsSelecting, discard-IsSelecting, nodes, nodes-append,
}
use vsql_vector.Hnsw.Layer.Answer.{length-map}

module _ (g : GraphApi) (tie : g.Node → g.Node → Bool) where
  open g use {Node}

  push_all-Ascending :
      (cs queue : List (Candidate Node)) → Ascending queue → Ascending (push_all g tie queue cs)
  unfolding push_all
  push_all-Ascending [] queue o = o
  push_all-Ascending (c ∷ cs) queue o =
      push_all-Ascending cs (push_min tie c queue) (push_min-Ascending tie c queue o)

  Has-push_all :
      (cs queue : List (Candidate Node)) (a : Candidate Node)
      → Has a (push_all g tie queue cs)
      → Has a queue ⊎ Has a cs
  unfolding push_all
  Has-push_all [] queue a h = inl h
  Has-push_all (c ∷ cs) queue a h = elim (Has-push_all cs (push_min tie c queue) a h) [
    | inl m ↦ elim (Has-push (before tie) a c queue m) [ inl e ↦ inr (inl e) | inr k ↦ inl k ]
    | inr m ↦ inr (inr m)
  ]

  push_all-Has_old :
      (cs queue : List (Candidate Node)) (a : Candidate Node)
      → Has a queue
      → Has a (push_all g tie queue cs)
  unfolding push_all
  push_all-Has_old [] queue a h = h
  push_all-Has_old (c ∷ cs) queue a h =
      push_all-Has_old cs (push_min tie c queue) a (push-Has_old (before tie) a c queue h)

  push_all-Has_new :
      (cs queue : List (Candidate Node)) (a : Candidate Node)
      → Has a cs
      → Has a (push_all g tie queue cs)
  unfolding push_all
  push_all-Has_new [] queue a h = elim h [ ]
  push_all-Has_new (c ∷ cs) queue a h = elim h [
    | inl e ↦
        push_all-Has_old cs (push_min tie c queue) a (rw e (push-Has_new (before tie) c queue))
    | inr m ↦ push_all-Has_new cs (push_min tie c queue) a m
  ]

  select_diverse-IsSelection :
      (count : ℕ) (pool : Candidate Node → Type 0) (queue picks : List (Candidate Node))
      → IsSelecting g count pool queue picks
      → (out : List Node × List Node) → select_diverse g tie count queue (nodes g picks) ≡ some out
      → (all : List (Candidate Node)) × (out.0 ≡ nodes g all) × IsSelection g count pool all
  unfolding select_diverse
  select_diverse-IsSelection count pool [] picks v out h = (
    picks,
    ap (λ (t : List Node × List Node). t.0) (let e : out ≡ (nodes g picks, []) = cc in e),
    record {
      size = v.size;
      nearest_first = v.nearest_first;
      diverse = v.diverse;
      picked = v.picked;
      left_out = λ e i. elim (v.left_out e i) [
        | inl q ↦ elim q [ ]
        | inr r ↦ elim r [ inl m ↦ inl m | inr c ↦ inr (inl c) ]
      ];
    },
  )
  select_diverse-IsSelection count pool (e ∷ queue) picks v out h =
      elim (Bool-cases (ltb (length (nodes g picks)) count)) [
        | inl room ↦
            let (dominated, d_eq, h1) =
              >>=-eq-some (is_dominated g e (nodes g picks)) _ (rw room at h) in
            elim (Bool-cases dominated) [
              | inl covered ↦
                  let (out', o_eq, h2) =
                    >>=-eq-some (select_diverse g tie count queue (nodes g picks)) _
                      (rw covered at h1) in
                  let (all, same, w) =
                    select_diverse-IsSelection count pool queue picks
                      (discard-IsSelecting g count pool e queue picks v (rw covered at d_eq)) out'
                      o_eq in
                  (
                    all,
                    (let first : out'.0 ≡ out.0 =
                          cc (ap (λ (t : Option (List Node × List Node)). t) h2) in
                        sym first ∙ same),
                    w,
                  )
              | inr free ↦
                  let fits : length picks < count =
                    ground (arith, length-map (λ (c : Candidate Node). c.node) picks) in
                  select_diverse-IsSelection count pool queue (picks ++ e ∷ [])
                    (select-IsSelecting g count pool e queue picks v fits (rw free at d_eq)) out
                    (rw nodes-append (rw free at h1))
            ]
        | inr full ↦
            let size : length picks ≡ count =
              (let l = length-map (λ (c : Candidate Node). c.node) picks in
                let s = v.size in ground arith) in
            (
              picks,
              (let same : (nodes g picks, []) ≡ out = cc (rw full at h) in
                  ap (λ (t : List Node × List Node). t.0) (sym same)),
              record {
                size = v.size;
                nearest_first = v.nearest_first;
                diverse = v.diverse;
                picked = v.picked;
                left_out = λ e i. inr (inr size);
              },
            )
      ]

  -- With the policy that the graph operations set, consume_heuristic hands back all results of
  -- the search, and selects at most count of them, nearest first, none of which is closer to one
  -- that was selected before it than to the query. A result is left out only if it is closer to a
  -- selected one than to the query, or if count are selected.
  pub consume_heuristic_lem :
      (s : Layer g) (count : ℕ) (selected pool : List Node)
      → consume_heuristic g tie s count extend_no keep_no ≡ some (selected, pool)
      → (pool ≡ consume_all g s)
        × ((picks : List (Candidate Node)) × (selected ≡ nodes g picks)
            × IsSelection g count (λ c. Has c s.results) picks)
  unfolding consume_heuristic consume_all
  consume_heuristic_lem s count selected pool h =
      let (out, e, h1) =
        >>=-eq-some (select_diverse g tie count (push_all g tie [] s.results) []) _ h in
      let (picks, same, v) =
        select_diverse-IsSelection count (λ c. Has c s.results) (push_all g tie [] s.results) []
          (record {
            size = omega arith;
            nearest_first = tt;
            queue_first = push_all-Ascending s.results [] tt;
            before_queue = λ p i. elim i [ ];
            diverse = tt;
            picked = λ p i. elim i [ ];
            queued = λ a i. elim (Has-push_all s.results [] a i) [ inl n ↦ elim n [ ] | inr m ↦ m ];
            left_out = λ a i. inl (push_all-Has_new s.results [] a i);
          })
          out e in
      (cc, (picks, cc, v))
