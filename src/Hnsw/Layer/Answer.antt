-- ===== src/Hnsw/Layer/Answer.antt =====
-- The answer of a layer search: `search` followed by `consume_all` (`src/index/hnsw/layer_ops_impl.h`).
use vsql_vector.Base.{
  Option-cases, ℕ, ◌≤◌, ◌<◌, ◌≡◌, refl, inl, inr, ◌⊎◌, Bool, true, Option, some, List, [], ◌∷◌,
  arith, length, Has, Bool-cases, sym, ap, leb, map, length-append, Has-reverse, reverse-Has,
}
use mathlib.Core.Path.{subst}
use mathlib.Core.List.{reverse, reverse-cons, map-append}
use vsql_vector.Hnsw.Graph.{GraphApi, always_visible}
use vsql_vector.Hnsw.Queue.{Candidate, Ordered, Ordered-append, Ascending, Nearer, Further}
use vsql_vector.Hnsw.Layer.{
  Layer, Query, found, query_distance, search_layer, seed_impl, reset, consume_all,
}
use vsql_vector.Hnsw.Layer.Keeps.{Apart}
use vsql_vector.Hnsw.Layer.Round.{IsQuery, Reach, entry, step}
use vsql_vector.Hnsw.Layer.Loop.{IsFinished, search_loop-IsFinished}
use vsql_vector.Hnsw.Layer.Seed.{seed_impl-IsSearch}

module _ {A : Type 0} (R Q : A → A → Type 0) (turn : (a b : A) → R a b → Q b a) where
  reverse-Ordered : (xs : List A) → Ordered R xs → Ordered Q (reverse xs)
  reverse-Ordered [] o = tt
  reverse-Ordered (x ∷ xs) o = rw reverse-cons (
      Ordered-append Q (reverse xs) x (reverse-Ordered xs o.1)
        (λ a m. turn x a (o.0 a (Has-reverse a xs m))))

length-reverse : {A : Type 0} (xs : List A) → length (reverse xs) ≡ length xs
length-reverse [] = refl
length-reverse (x ∷ xs) =
    rw reverse-cons (omega (arith, length-append (reverse xs) (x ∷ []), length-reverse xs))

reverse-map : {A B : Type 0} (f : A → B) (xs : List A) → reverse (map f xs) ≡ map f (reverse xs)
reverse-map f [] = refl
reverse-map f (x ∷ xs) = simp (reverse-cons, map-append, reverse-map f xs)

module _ (g : GraphApi) (is_visible : g.Node → Option Bool) (query : Query g) (level ef : ℕ)
    (entries : List g.Node) where
  open g use {Node, key}

  -- The node is in the answer, or the answer is full and the node not nearer than any of it.
  abbrev pub Considered : List (Candidate Node) → Node → Type 0
  Considered cs n =
      ((c : Candidate Node) × Has c cs × (c.node ≡ n))
      ⊎ ((d : ℕ) × (query_distance g query n ≡ some d)
          × (ef ≤ length cs)
          × ((r : Candidate Node) → Has r cs → r.distance ≤ d))

  -- An answer: candidates of different nodes, nearest first, visible, at their distances, and reached
  -- from the entry points; none of the entry points and of the neighbours of the answer is
  -- better. The answer does not hold the query.
  pub record IsAnswer (cs : List (Candidate Node)) : Type 0 where
    pub nearest_first : Ascending cs
    pub distinct : Ordered (Apart g) cs
    pub size : (length cs ≤ ef) ⊎ (length cs ≤ length entries)
    pub visible : (c : Candidate Node) → Has c cs → is_visible c.node ≡ some true
    pub measured : (c : Candidate Node) → Has c cs → query_distance g query c.node ≡ some c.distance
    pub reached : (c : Candidate Node) → Has c cs → Reach g query level entries c.node
    pub entries_in :
        (n : Node) → Has n entries → ¬ IsQuery query n → is_visible n ≡ some true → Considered cs n
    pub neighbours_in :
        (c : Candidate Node)
        → Has c cs
        → (ns : List Node) → g.neighbours level c.node ≡ some ns
        → (n : Node) → Has n ns
        → ¬ IsQuery query n
        → is_visible n ≡ some true
        → Considered cs n

  module _ (tie : Node → Node → Bool) where
    -- What is visited and visible was considered.
    visited-Considered :
        (limit : ℕ) (t : Layer g) (seen : List (Candidate Node))
        → IsFinished g tie is_visible ef limit query level entries t seen
        → (n : Node) → Has (key n) t.visited
        → ¬ IsQuery query n
        → is_visible n ≡ some true
        → Considered (reverse t.results) n
    visited-Considered limit t seen f n h q visible =
        elim (f.search.explored.visited_seen (key n) h) [
          | inl i ↦ absurd (q i)
          | inr (c, i, e) ↦
              let same : c.node ≡ n = g.key_inj c.node n e in
              elim (f.search.layer.best c i (rw same visible)) [
                | inl m ↦ inl (c, reverse-Has c t.results m, same)
                | inr full ↦ inr (
                  c.distance,
                  rw (← same) (f.search.explored.seen_measured c i),
                  rw length-reverse full.0,
                  λ r m. full.1 r (Has-reverse r t.results m),
                )
              ]
        ]

    finished-IsAnswer :
        (limit : ℕ) (t : Layer g) (seen : List (Candidate Node))
        → (limit ≤ ef) ⊎ (limit ≤ length entries)
        → IsFinished g tie is_visible ef limit query level entries t seen
        → IsAnswer (reverse t.results)
    finished-IsAnswer limit t seen few f =
        let v = f.search.layer in
        let x = f.search.explored in
        let old =
          λ (c : Candidate Node) (h : Has c (reverse t.results)). Has-reverse c t.results h in
        record {
          nearest_first = reverse-Ordered Further Nearer (λ a b h. h) t.results v.furthest_first;
          distinct =
              reverse-Ordered (Apart g) (Apart g) (λ a b ne e. ne (sym e)) t.results v.distinct;
          size = rw length-reverse (
              let z = v.size in elim few [ inl l ↦ inl (omega arith) | inr l ↦ inr (omega arith) ]);
          visible = λ c h. v.results_visible c (old c h);
          measured = λ c h. x.seen_measured c (v.results_seen c (old c h));
          reached = λ c h. x.seen_reach c (v.results_seen c (old c h));
          entries_in = λ n h q visible.
              visited-Considered limit t seen f n (f.search.entry_visited n h) q visible;
          neighbours_in = λ c h ns e n m q visible.
              let e' = subst (λ l. g.neighbours l c.node ≡ some ns) (sym x.level_is) e in
              visited-Considered limit t seen f n (f.settled c (old c h) ns e' n m) q visible;
        }

    search-IsFinished :
        (fuel limit : ℕ)
        → ef ≤ limit
        → length entries ≤ limit
        → 0 < ef
        → (t : Layer g) → search_layer g tie is_visible fuel query entries level ef ≡ found t
        → (seen : List (Candidate Node)) × IsFinished g tie is_visible ef limit query level entries
            t seen
    unfolding search_layer
    search-IsFinished fuel limit fits room pos t h =
        elim (Option-cases (seed_impl g tie is_visible (reset g query level) entries)) [
          | inl n ↦ absurd (cc (rw (n, search_layer) at h))
          | inr (s, e) ↦
              let (seen, v) =
                seed_impl-IsSearch g tie is_visible query level entries ef limit room s e in
              search_loop-IsFinished g tie is_visible ef limit query level entries fuel s seen v pos
                fits t (rw (e, search_layer) at h)
        ]

    -- Whenever a search with a positive ef ends, consume_all returns, nearest first, visible
    -- nodes with different keys, none of them the query, all of them reached from the entry
    -- points, and no more than ef or than there are entry points. The search is a local optimum:
    -- every visible entry point and every visible neighbour of the result, but the query, is in
    -- the result itself, or the result has at least ef nodes and none of them is further than it.
    pub search_lem :
        (fuel : ℕ)
        → 0 < ef
        → (t : Layer g) → search_layer g tie is_visible fuel query entries level ef ≡ found t
        → (cs : List (Candidate Node)) × (consume_all g t ≡ map (λ (c : Candidate Node). c.node) cs)
          × IsAnswer cs
    unfolding consume_all
    search_lem fuel pos t h =
        let nodes = reverse-map (λ (c : Candidate Node). c.node) t.results in
        elim (Bool-cases (leb (length entries) ef)) [
          | inl few ↦
              let (seen, f) = search-IsFinished fuel ef (omega arith) (ground arith) pos t h in
              (reverse t.results, nodes, finished-IsAnswer ef t seen (inl (omega arith)) f)
          | inr many ↦
              let (seen, f) =
                search-IsFinished fuel (length entries) (ground arith) (omega arith) pos t h in
              (
                reverse t.results,
                nodes,
                finished-IsAnswer (length entries) t seen (inr (omega arith)) f,
              )
        ]

pub Has-map : {A B : Type 0} (f : A → B) (a : A) (xs : List A) → Has a xs → Has (f a) (map f xs)
Has-map f a [] h = h
Has-map f a (x ∷ xs) h = elim h [ inl e ↦ inl (ap f e) | inr m ↦ inr (Has-map f a xs m) ]

pub length-map : {A B : Type 0} (f : A → B) (xs : List A) → length (map f xs) ≡ length xs
length-map f [] = refl
length-map f (x ∷ xs) = omega (arith, length-map f xs)

module _ (g : GraphApi) (query : Query g) (level ef : ℕ) (entries : List g.Node)
    (tie : g.Node → g.Node → Bool) where
  open g use {Node}

  -- An answer that is not full holds what can be reached.
  Reach-Has :
      (cs : List (Candidate Node))
      → IsAnswer g (always_visible g) query level ef entries cs
      → length cs < ef
      → {n : Node} → Reach g query level entries n
      → (c : Candidate Node) × Has c cs × (c.node ≡ n)
  Reach-Has cs a room (entry {n} i q) = elim (a.entries_in n i q refl) [
    | inl there ↦ there
    | inr full ↦ absurd (omega (arith, full.2))
  ]
  Reach-Has cs a room (step {m} {n} {ns} r e i q) =
      let (c, j, same) = Reach-Has cs a room r in
      elim (a.neighbours_in c j ns (rw same e) n i q refl) [
        | inl there ↦ there
        | inr full ↦ absurd (omega (arith, full.2))
      ]

  -- Where every node is visible, a search with a positive ef that ends with fewer than ef nodes
  -- has found every node that can be reached from the entry points on paths past the query.
  pub search_complete :
      (fuel : ℕ)
      → 0 < ef
      → (t : Layer g) → search_layer g tie (always_visible g) fuel query entries level ef ≡ found t
      → length (consume_all g t) < ef
      → (n : Node) → Reach g query level entries n
      → Has n (consume_all g t)
  search_complete fuel pos t h room n r =
      let (cs, same, a) = search_lem g (always_visible g) query level ef entries tie fuel pos t h in
      let (c, i, e) =
        Reach-Has cs a
          (omega (arith, ap length same, length-map (λ (c : Candidate Node). c.node) cs)) r in
      rw (same, ← e) (Has-map (λ (c : Candidate Node). c.node) c cs i)
