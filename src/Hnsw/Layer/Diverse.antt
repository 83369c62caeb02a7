-- ===== src/Hnsw/Layer/Diverse.antt =====
-- The heuristic selection of neighbours: `consume_heuristic` and `is_dominated`
-- (`src/index/hnsw/layer_ops_impl.h`).
use vsql_vector.Base.{
  ℕ, ◌≤◌, ◌<◌, ◌≡◌, refl, inl, inr, ◌⊎◌, true, false, some, List, [], ◌∷◌, ◌++◌, arith, length, Has,
  Bool-cases, >>=-eq-some, ltb, length-append, Has-append, Has-append_left, Has-append_right, map,
  ap, sym,
}
use vsql_vector.Hnsw.Graph.{GraphApi}
use vsql_vector.Hnsw.Queue.{Candidate, Ordered, Ordered-append, Ascending}
use vsql_vector.Hnsw.Layer.{is_dominated}

module _ (g : GraphApi) where
  open g use {Node}

  -- The candidate is closer to the node than to the query.
  abbrev pub Covers : Node → Candidate Node → Type 0
  Covers r e = (d : ℕ) × (g.distance e.node r ≡ some d) × (d < e.distance)

  is_dominated-true :
      (e : Candidate Node) (result : List Node)
      → is_dominated g e result ≡ some true
      → (r : Node) × Has r result × Covers r e
  unfolding is_dominated
  is_dominated-true e [] h = cc
  is_dominated-true e (r ∷ result) h =
      let (d, e1, e2) = >>=-eq-some (g.distance e.node r) _ h in
      elim (Bool-cases (ltb d e.distance)) [
        | inl near ↦ (r, inl refl, (d, e1, ground arith))
        | inr far ↦ let (r', i, c) = is_dominated-true e result (rw far at e2) in (r', inr i, c)
      ]

  is_dominated-false :
      (e : Candidate Node) (result : List Node)
      → is_dominated g e result ≡ some false
      → (r : Node) → Has r result
      → ¬ Covers r e
  unfolding is_dominated
  is_dominated-false e [] h r i c = i
  is_dominated-false e (x ∷ result) h r i c =
      let (d, e1, e2) = >>=-eq-some (g.distance e.node x) _ h in
      elim (Bool-cases (ltb d e.distance)) [
        | inl near ↦ cc (rw near at e2)
        | inr far ↦ elim i [
          | inl here ↦
              let same : some d ≡ some c.0 = cc (ap (λ (y : Node). g.distance e.node y) here) in
              ground arith
          | inr later ↦ is_dominated-false e result (rw far at e2) r later c
        ]
      ]

  abbrev pub nodes : List (Candidate Node) → List Node
  nodes cs = map (λ (c : Candidate Node). c.node) cs

  Has-nodes :
      (r : Node) (cs : List (Candidate Node))
      → Has r (nodes cs)
      → (c : Candidate Node) × Has c cs × (c.node ≡ r)
  Has-nodes r [] h = elim h [ ]
  Has-nodes r (c ∷ cs) h = elim h [
    | inl e ↦ (c, inl refl, sym e)
    | inr m ↦ let (c', i, e) = Has-nodes r cs m in (c', inr i, e)
  ]

  nodes-Has : (c : Candidate Node) (cs : List (Candidate Node)) → Has c cs → Has c.node (nodes cs)
  nodes-Has c [] h = h
  nodes-Has c (x ∷ cs) h = elim h [
    | inl e ↦ inl (ap (λ (y : Candidate Node). y.node) e)
    | inr m ↦ inr (nodes-Has c cs m)
  ]

  pub nodes-append :
      (cs : List (Candidate Node)) (e : Candidate Node)
      → nodes (cs ++ e ∷ []) ≡ nodes cs ++ e.node ∷ []
  nodes-append [] e = refl
  nodes-append (c ∷ cs) e = ap (λ t. c.node ∷ t) (nodes-append cs e)

  -- The selection from a set of candidates: at most `count` of them, nearest first, none covered by
  -- one before it; a candidate that is left out is covered by one that was selected, or there
  -- was no room.
  pub record IsSelection (count : ℕ) (pool : Candidate Node → Type 0)
      (picks : List (Candidate Node)) : Type 0 where
    pub size : length picks ≤ count
    pub nearest_first : Ascending picks
    pub diverse : Ordered (λ a b. ¬ Covers a.node b) picks
    pub picked : (p : Candidate Node) → Has p picks → pool p
    pub left_out :
        (e : Candidate Node)
        → pool e
        → Has e picks
          ⊎ ((p : Candidate Node) × Has p picks × Covers p.node e)
          ⊎ (length picks ≡ count)

  -- So far, with the candidates of the queue to come.
  pub record IsSelecting (count : ℕ) (pool : Candidate Node → Type 0)
      (queue picks : List (Candidate Node)) : Type 0 where
    pub size : length picks ≤ count
    pub nearest_first : Ascending picks
    pub queue_first : Ascending queue
    pub before_queue :
        (p : Candidate Node)
        → Has p picks
        → (e : Candidate Node) → Has e queue
        → p.distance ≤ e.distance
    pub diverse : Ordered (λ a b. ¬ Covers a.node b) picks
    pub picked : (p : Candidate Node) → Has p picks → pool p
    pub queued : (e : Candidate Node) → Has e queue → pool e
    pub left_out :
        (e : Candidate Node)
        → pool e
        → Has e queue ⊎ Has e picks ⊎ ((p : Candidate Node) × Has p picks × Covers p.node e)

  module _ (count : ℕ) (pool : Candidate Node → Type 0) (e : Candidate Node)
      (queue picks : List (Candidate Node)) (v : IsSelecting count pool (e ∷ queue) picks) where
    pub select-IsSelecting :
        length picks < count
        → is_dominated g e (nodes picks) ≡ some false
        → IsSelecting count pool queue (picks ++ e ∷ [])
    select-IsSelecting room free =
        let inside =
          λ (p : Candidate Node) (h : Has p (picks ++ e ∷ [])). Has-append p picks (e ∷ []) h in
        record {
          size = omega (arith, length-append picks (e ∷ []));
          nearest_first =
              Ordered-append _ picks e v.nearest_first (λ p h. v.before_queue p h e (inl refl));
          queue_first = v.queue_first.1;
          before_queue = λ p h a i. elim (inside p h) [
            | inl m ↦ v.before_queue p m a (inr i)
            | inr m ↦ elim m [ inl same ↦ rw same (v.queue_first.0 a i) | inr n ↦ elim n [ ] ]
          ];
          diverse =
              Ordered-append _ picks e v.diverse
                (λ p h c. is_dominated-false e (nodes picks) free p.node (nodes-Has p picks h) c);
          picked = λ p h. elim (inside p h) [
            | inl m ↦ v.picked p m
            | inr m ↦ elim m [ inl same ↦ rw same (v.queued e (inl refl)) | inr n ↦ elim n [ ] ]
          ];
          queued = λ a i. v.queued a (inr i);
          left_out = λ a h. elim (v.left_out a h) [
            | inl q ↦ elim q [
              | inl here ↦ inr (inl (Has-append_right a picks (e ∷ []) (inl here)))
              | inr later ↦ inl later
            ]
            | inr r ↦ elim r [
              | inl m ↦ inr (inl (Has-append_left a picks (e ∷ []) m))
              | inr (p, i, c) ↦ inr (inr (p, Has-append_left p picks (e ∷ []) i, c))
            ]
          ];
        }

    pub discard-IsSelecting :
        is_dominated g e (nodes picks) ≡ some true → IsSelecting count pool queue picks
    discard-IsSelecting covered = record {
      size = v.size;
      nearest_first = v.nearest_first;
      queue_first = v.queue_first.1;
      before_queue = λ p h a i. v.before_queue p h a (inr i);
      diverse = v.diverse;
      picked = v.picked;
      queued = λ a i. v.queued a (inr i);
      left_out = λ a h. elim (v.left_out a h) [
        | inl q ↦ elim q [
          | inl here ↦
              let (r, i, c) = is_dominated-true e (nodes picks) covered in
              let (p, j, same) = Has-nodes r picks i in inr (inr (p, j, rw (here, same) c))
          | inr later ↦ inl later
        ]
        | inr r ↦ inr r
      ];
    }
