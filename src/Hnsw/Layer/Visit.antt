-- ===== src/Hnsw/Layer/Visit.antt =====
-- The marking of visited nodes and the evaluation of distances in a layer search
-- (`src/index/hnsw/layer_ops_impl.h`).
use vsql_vector.Base.{
  ℕ, ◌≡◌, refl, inl, inr, ◌⊎◌, true, false, some, List, [], ◌∷◌, arith, Has, Bool-cases,
  >>=-eq-some, ◌==◌, sym, ◌≢◌, ◌≤◌, length,
}
use vsql_vector.Page.Links.{contains}
use vsql_vector.Hnsw.Graph.{GraphApi}
use vsql_vector.Hnsw.Queue.{Candidate, Ordered}
use vsql_vector.Hnsw.Layer.{Query, query_distance, visit_new, evaluate_distances}

contains-Has : (k : ℕ) (l : List ℕ) → contains k l ≡ true → Has k l
contains-Has k [] h = cc
contains-Has k (x ∷ xs) h = elim (Bool-cases (k == x)) [
  | inl e ↦ inl (ground arith)
  | inr e ↦ inr (contains-Has k xs (ground arith))
]

not_contains : (k : ℕ) (l : List ℕ) → contains k l ≡ false → ¬ Has k l
not_contains k [] h m = m
not_contains k (x ∷ xs) h m = elim m [
  | inl e ↦ ground arith
  | inr m' ↦ not_contains k xs (ground arith) m'
]

module _ (g : GraphApi) where
  open g use {Node, key}

  pub visit_new-Has_old :
      (visited : List ℕ) (nodes : List Node) (k : ℕ)
      → Has k visited
      → Has k (visit_new g visited nodes).0
  unfolding visit_new
  visit_new-Has_old visited [] k h = h
  visit_new-Has_old visited (n ∷ nodes) k h = elim (Bool-cases (contains (key n) visited)) [
    | inl old ↦ rw old (visit_new-Has_old visited nodes k h)
    | inr fresh ↦ rw fresh (visit_new-Has_old (key n ∷ visited) nodes k (inr h))
  ]

  -- Every one of the nodes is visited in the end.
  pub visit_new-Has_new :
      (visited : List ℕ) (nodes : List Node) (n : Node)
      → Has n nodes
      → Has (key n) (visit_new g visited nodes).0
  unfolding visit_new
  visit_new-Has_new visited [] n h = elim h [ ]
  visit_new-Has_new visited (m ∷ nodes) n h = elim (Bool-cases (contains (key m) visited)) [
    | inl old ↦ rw old (elim h [
      | inl e ↦ rw e (visit_new-Has_old visited nodes (key m) (contains-Has (key m) visited old))
      | inr k ↦ visit_new-Has_new visited nodes n k
    ])
    | inr fresh ↦ rw fresh (elim h [
      | inl e ↦ rw e (visit_new-Has_old (key m ∷ visited) nodes (key m) (inl refl))
      | inr k ↦ visit_new-Has_new (key m ∷ visited) nodes n k
    ])
  ]

  pub Has-visit_new :
      (visited : List ℕ) (nodes : List Node) (k : ℕ)
      → Has k (visit_new g visited nodes).0
      → Has k visited ⊎ ((n : Node) × Has n (visit_new g visited nodes).1 × (key n ≡ k))
  unfolding visit_new
  Has-visit_new visited [] k h = inl h
  Has-visit_new visited (m ∷ nodes) k h = elim (Bool-cases (contains (key m) visited)) [
    | inl old ↦ rw old (Has-visit_new visited nodes k (rw old at h))
    | inr fresh ↦ rw fresh (elim (Has-visit_new (key m ∷ visited) nodes k (rw fresh at h)) [
      | inl h' ↦ elim h' [ inl e ↦ inr (m, inl refl, sym e) | inr o ↦ inl o ]
      | inr (n, i, e) ↦ inr (n, inr i, e)
    ])
  ]

  pub visit_new-New :
      (visited : List ℕ) (nodes : List Node) (n : Node)
      → Has n (visit_new g visited nodes).1
      → Has n nodes × (¬ Has (key n) visited)
  unfolding visit_new
  visit_new-New visited [] n h = elim h [ ]
  visit_new-New visited (m ∷ nodes) n h = elim (Bool-cases (contains (key m) visited)) [
    | inl old ↦ let (i, f) = visit_new-New visited nodes n (rw old at h) in (inr i, f)
    | inr fresh ↦
        let h' : Has n (m ∷ (visit_new g (key m ∷ visited) nodes).1) = rw fresh at h in
        elim h' [
          | inl e ↦ (inl e, rw e (not_contains (key m) visited fresh))
          | inr i ↦
              let (j, f) = visit_new-New (key m ∷ visited) nodes n i in (inr j, λ o. f (inr o))
        ]
  ]

  pub length-visit_new :
      (visited : List ℕ) (nodes : List Node) → length (visit_new g visited nodes).1 ≤ length nodes
  unfolding visit_new
  length-visit_new visited [] = omega arith
  length-visit_new visited (m ∷ nodes) = elim (Bool-cases (contains (key m) visited)) [
    | inl old ↦ rw old (omega (arith, length-visit_new visited nodes))
    | inr fresh ↦ rw fresh (omega (arith, length-visit_new (key m ∷ visited) nodes))
  ]

  -- The nodes that are kept are different ones.
  pub visit_new-Ordered :
      (visited : List ℕ) (nodes : List Node)
      → Ordered (λ a b. key a ≢ key b) (visit_new g visited nodes).1
  unfolding visit_new
  visit_new-Ordered visited [] = tt
  visit_new-Ordered visited (m ∷ nodes) = elim (Bool-cases (contains (key m) visited)) [
    | inl old ↦ rw old (visit_new-Ordered visited nodes)
    | inr fresh ↦ rw fresh (
      λ n h e. (visit_new-New (key m ∷ visited) nodes n h).1 (inl (sym e)),
      visit_new-Ordered (key m ∷ visited) nodes,
    )
  ]

  module _ (query : Query g) where
    -- What is evaluated is each of the nodes, with its distance from the query.
    pub evaluate_distances-Has :
        (nodes : List Node) (cs : List (Candidate Node))
        → evaluate_distances g query nodes ≡ some cs
        → (n : Node) → Has n nodes
        → (c : Candidate Node) × Has c cs × (c.node ≡ n)
    unfolding evaluate_distances
    evaluate_distances-Has [] cs e n h = elim h [ ]
    evaluate_distances-Has (m ∷ nodes) cs e n h =
        let (d, e1, e2) = >>=-eq-some (query_distance g query m) _ e in
        let (rest, e3, e4) = >>=-eq-some (evaluate_distances g query nodes) _ e2 in
        let cs_eq : record { node = m; distance = d } ∷ rest ≡ cs = cc in
        rw (← cs_eq) (elim h [
          | inl here ↦ (record { node = m; distance = d }, inl refl, sym here)
          | inr later ↦
              let (c, i, q) = evaluate_distances-Has nodes rest e3 n later in (c, inr i, q)
        ])

    pub Has-evaluate_distances :
        (nodes : List Node) (cs : List (Candidate Node))
        → evaluate_distances g query nodes ≡ some cs
        → (c : Candidate Node) → Has c cs
        → Has c.node nodes × (query_distance g query c.node ≡ some c.distance)
    unfolding evaluate_distances
    Has-evaluate_distances [] cs e c h = let e' : [] ≡ cs = cc in absurd (rw (← e') at h)
    Has-evaluate_distances (m ∷ nodes) cs e c h =
        let (d, e1, e2) = >>=-eq-some (query_distance g query m) _ e in
        let (rest, e3, e4) = >>=-eq-some (evaluate_distances g query nodes) _ e2 in
        let cs_eq : record { node = m; distance = d } ∷ rest ≡ cs = cc in
        let h' : Has c (record { node = m; distance = d } ∷ rest) = rw (← cs_eq) at h in
        elim h' [
          | inl here ↦ rw here (inl refl, e1)
          | inr later ↦ let (i, q) = Has-evaluate_distances nodes rest e3 c later in (inr i, q)
        ]

    pub length-evaluate_distances :
        (nodes : List Node) (cs : List (Candidate Node))
        → evaluate_distances g query nodes ≡ some cs
        → length cs ≡ length nodes
    unfolding evaluate_distances
    length-evaluate_distances [] cs e = let e' : [] ≡ cs = cc in rw (← e') refl
    length-evaluate_distances (m ∷ nodes) cs e =
        let (d, e1, e2) = >>=-eq-some (query_distance g query m) _ e in
        let (rest, e3, e4) = >>=-eq-some (evaluate_distances g query nodes) _ e2 in
        let cs_eq : record { node = m; distance = d } ∷ rest ≡ cs = cc in
        rw (← cs_eq) (omega (arith, length-evaluate_distances nodes rest e3))

    pub evaluate_distances-Apart :
        (nodes : List Node) (cs : List (Candidate Node))
        → evaluate_distances g query nodes ≡ some cs
        → Ordered (λ a b. key a ≢ key b) nodes
        → Ordered (λ (a b : Candidate Node). key a.node ≢ key b.node) cs
    unfolding evaluate_distances
    evaluate_distances-Apart [] cs e o = let e' : [] ≡ cs = cc in rw (← e') tt
    evaluate_distances-Apart (m ∷ nodes) cs e o =
        let (d, e1, e2) = >>=-eq-some (query_distance g query m) _ e in
        let (rest, e3, e4) = >>=-eq-some (evaluate_distances g query nodes) _ e2 in
        let cs_eq : record { node = m; distance = d } ∷ rest ≡ cs = cc in
        rw (← cs_eq) (
          λ c h. o.0 c.node (Has-evaluate_distances nodes rest e3 c h).0,
          evaluate_distances-Apart nodes rest e3 o.1,
        )
