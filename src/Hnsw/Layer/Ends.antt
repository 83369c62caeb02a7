-- ===== src/Hnsw/Layer/Ends.antt =====
-- The loop of a layer search ends: `search` (`src/index/hnsw/layer_ops_impl.h`). Each round takes
-- a candidate from the queue and queues only nodes that were not visited before.
use vsql_vector.Base.{
  List-cases, Option-cases, ℕ, zero, suc, ◌+◌, ◌≤◌, ◌<◌, ◌≡◌, ◌≢◌, refl, inl, inr, Bool, false,
  ◌||◌, Option, some, List, [], ◌∷◌, arith, length, Has, Bool-cases, >>=-eq-some, ltb,
  if◌then◌else◌,
}
use vsql_vector.Page.Links.{contains}
use vsql_vector.Hnsw.Graph.{GraphApi}
use vsql_vector.Hnsw.Queue.{
  Candidate, push_min, length-push, before, closer_than_results, further_than_results, admit,
}
use vsql_vector.Hnsw.Layer.{
  Layer, Query, out_of_fuel, query_keys, visit_new, evaluate_distances, offer, offer_all, expand,
  seed_candidates, seed_impl, reset, search_loop, search_layer,
}
use vsql_vector.Hnsw.Layer.Visit.{length-visit_new, length-evaluate_distances}

-- How many keys of the universe are not visited.
unvisited : (universe visited : List ℕ) → ℕ
unvisited [] visited = 0
unvisited (k ∷ ks) visited =
    let rest = unvisited ks visited in if contains k visited then rest else rest + 1

unvisited-le-length : (universe visited : List ℕ) → unvisited universe visited ≤ length universe
unfolding unvisited
unvisited-le-length [] visited = omega arith
unvisited-le-length (k ∷ ks) visited = ground (arith, unvisited-le-length ks visited)

-- Visiting one more key.
unvisited-cons :
    (k : ℕ) (universe visited : List ℕ)
    → unvisited universe (k ∷ visited) ≤ unvisited universe visited
unfolding unvisited
unvisited-cons k [] visited = omega arith
unvisited-cons k (x ∷ xs) visited = ground (arith, unvisited-cons k xs visited)

unvisited-cons_new :
    (k : ℕ) (universe visited : List ℕ)
    → Has k universe
    → contains k visited ≡ false
    → unvisited universe (k ∷ visited) + 1 ≤ unvisited universe visited
unfolding unvisited
unvisited-cons_new k [] visited h f = elim h [ ]
unvisited-cons_new k (x ∷ xs) visited h f = elim h [
  | inl e ↦ ground (arith, unvisited-cons k xs visited)
  | inr m ↦ ground (arith, unvisited-cons_new k xs visited m f)
]

module _ (g : GraphApi) (tie : g.Node → g.Node → Bool) (is_visible : g.Node → Option Bool)
    (universe : List ℕ) where
  open g use {Node, key}

  visit_new-unvisited :
      (visited : List ℕ) (nodes : List Node)
      → ((n : Node) → Has n nodes → Has (key n) universe)
      → unvisited universe (visit_new g visited nodes).0 + length (visit_new g visited nodes).1
        ≤ unvisited universe visited
  unfolding visit_new
  visit_new-unvisited visited [] h = omega arith
  visit_new-unvisited visited (m ∷ nodes) h = elim (Bool-cases (contains (key m) visited)) [
    | inl old ↦ rw old (visit_new-unvisited visited nodes (λ n i. h n (inr i)))
    | inr fresh ↦ rw fresh (
        omega (
          arith,
          visit_new-unvisited (key m ∷ visited) nodes (λ n i. h n (inr i)),
          unvisited-cons_new (key m) universe visited (h m (inl refl)) fresh,
        ))
  ]

  length-push_min :
      (c : Candidate Node) (cs : List (Candidate Node)) → length (push_min tie c cs) ≡ length cs + 1
  length-push_min c cs = length-push (before tie) c cs

  -- What is queued is at most what is offered, and the visited keys stay.
  Queued : ℕ → Layer g → Layer g → Type 0
  Queued n s s' = (length s'.candidates ≤ length s.candidates + n) × (s'.visited ≡ s.visited)

  offer-Queued :
      (ef : ℕ) (s : Layer g) (c : Candidate Node)
      → (s' : Layer g) → offer g tie is_visible ef s c ≡ some s'
      → Queued 1 s s'
  unfolding offer Queued
  offer-Queued ef s c s' h =
      elim (Bool-cases (ltb (length s.results) ef || closer_than_results c s.results)) [
        | inl room ↦
            let (visible, asked, e) = >>=-eq-some (is_visible c.node) _ (rw room at h) in
            let same : record s {
              candidates = push_min tie c s.candidates;
              results = if visible then admit tie ef c s.results else s.results;
            }
                ≡ s' =
              cc in
            rw (← same) (omega (arith, length-push_min c s.candidates), refl)
        | inr full ↦ let same : s ≡ s' = cc (rw full at h) in rw (← same) (omega arith, refl)
      ]

  offer_all-Queued :
      (ef : ℕ) (cs : List (Candidate Node)) (s : Layer g)
      → (s' : Layer g) → offer_all g tie is_visible ef s cs ≡ some s'
      → Queued (length cs) s s'
  unfolding offer_all Queued
  offer_all-Queued ef [] s s' h = let same : s ≡ s' = cc in rw (← same) (omega arith, refl)
  offer_all-Queued ef (c ∷ cs) s s' h =
      let (t, one, more) = >>=-eq-some (offer g tie is_visible ef s c) _ h in
      let (l, v) = offer-Queued ef s c t one in
      let (l', v') = offer_all-Queued ef cs t s' more in (omega arith, cc)

  seed_candidates-Queued :
      (cs : List (Candidate Node)) (s : Layer g)
      → (s' : Layer g) → seed_candidates g tie is_visible s cs ≡ some s'
      → length s'.candidates ≡ length s.candidates + length cs
  unfolding seed_candidates
  seed_candidates-Queued [] s s' h = let same : s ≡ s' = cc in rw (← same) (omega arith)
  seed_candidates-Queued (c ∷ cs) s s' h =
      let (visible, asked, more) = >>=-eq-some (is_visible c.node) _ h in
      omega (arith, seed_candidates-Queued cs _ s' more, length-push_min c s.candidates)

  work : Layer g → ℕ
  work s = unvisited universe s.visited + length s.candidates

  -- The keys of all neighbours are in the universe.
  abbrev pub Closed : Type 0
  Closed =
      (level : ℕ) (n m : Node) (ns : List Node)
      → g.neighbours level m ≡ some ns
      → Has n ns
      → Has (key n) universe

  expand-work :
      (ef : ℕ) (s : Layer g) (c : Candidate Node)
      → Closed
      → (s' : Layer g) → expand g tie is_visible ef s c.node ≡ some s'
      → work s' ≤ work s
  unfolding expand work Queued
  expand-work ef s c closed s' h =
      let (ns, ns_eq, h1) = >>=-eq-some (g.neighbours s.level c.node) _ h in
      let (cs, cs_eq, h2) =
        >>=-eq-some (evaluate_distances g s.query (visit_new g s.visited ns).1) _ h1 in
      let (l, v) = offer_all-Queued ef cs _ s' h2 in
      rw v (
        omega (
          arith,
          length-evaluate_distances g s.query (visit_new g s.visited ns).1 cs cs_eq,
          visit_new-unvisited s.visited ns (λ n i. closed s.level n c.node ns ns_eq i),
        ))

  search_loop_ends :
      (ef fuel : ℕ) (s : Layer g)
      → Closed
      → work s < fuel
      → search_loop g tie is_visible ef fuel s ≢ out_of_fuel
  unfolding search_loop work
  search_loop_ends ef zero s closed enough = absurd (omega arith)
  search_loop_ends ef (suc fuel) s closed enough = elim (List-cases s.candidates) [
    | inl e ↦ rw e (λ h. cc)
    | inr (c, rest, e) ↦ elim (Bool-cases (further_than_results c s.results)) [
      | inl far ↦ rw (e, far) (λ h. cc)
      | inr near ↦
          elim (Option-cases (expand g tie is_visible ef (record s { candidates = rest }) c.node)) [
            | inl n ↦ rw (e, near, n) (λ h. cc)
            | inr (s', q) ↦
                let less = expand-work ef (record s { candidates = rest }) c closed s' q in
                let count : length s.candidates ≡ length rest + 1 = rw e (omega arith) in
                rw (e, near, q) (search_loop_ends ef fuel s' closed (omega arith))
          ]
    ]
  ]

  -- A search ends within as many rounds as there are nodes and entry points, and one for the last test.
  pub search_ends :
      (fuel : ℕ) (query : Query g) (entries : List Node) (level ef : ℕ)
      → Closed
      → ((n : Node) → Has n entries → Has (key n) universe)
      → length universe + length entries < fuel
      → search_layer g tie is_visible fuel query entries level ef ≢ out_of_fuel
  unfolding search_layer seed_impl work Queued
  search_ends fuel query entries level ef closed inside enough =
      elim (Option-cases (seed_impl g tie is_visible (reset g query level) entries)) [
        | inl n ↦ rw (n, search_layer) (λ h. cc)
        | inr (s, e) ↦
            let nodes = (visit_new g (query_keys g query) entries).1 in
            let (cs, cs_eq, h2) = >>=-eq-some (evaluate_distances g query nodes) _ e in
            rw (e, search_layer)
              (search_loop_ends ef fuel s closed (
                omega (
                  arith,
                  seed_candidates-Queued cs _ s h2,
                  length-evaluate_distances g query nodes cs cs_eq,
                  length-visit_new g (query_keys g query) entries,
                  unvisited-le-length universe s.visited,
                )))
      ]
