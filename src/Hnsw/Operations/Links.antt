-- ===== src/Hnsw/Operations/Links.antt =====
-- The links back to a new node: the last loop of `insert` and `shrink_neighbours`
-- (`src/index/hnsw/graph_ops_impl.h`).
use vsql_vector.Base.{
  ℕ, ◌≤◌, ◌≡◌, arith, Bool, Option, some, none, List, [], ◌∷◌, length, sym, ◌∙◌, ap,
}
use mathlib.Core.Path.{subst}
use vsql_vector.Hnsw.Layer.{Search, found, consume_heuristic, extend_no, keep_no}
use vsql_vector.Hnsw.Layer.Selection.{consume_heuristic_lem}
use vsql_vector.Hnsw.Layer.Answer.{length-map}
use vsql_vector.Hnsw.Graph.{GraphApi}
use vsql_vector.Hnsw.Layer.{Layer}
use vsql_vector.Hnsw.Mutable.{
  MutableGraph, graph_at, >>>-found, return-found, reads-found, writes-found, searches-found,
  outcome, outcome-found, or_failed,
}
use vsql_vector.Hnsw.Operations.{link_nodes, shrink_neighbours}

or_failed-found : {A : Type 0} (o : Option A) (a : A) → or_failed o ≡ found a → o ≡ some a
or_failed-found none a h = cc
or_failed-found (some b) a h = cc

-- A selection is no longer than was asked for.
selection_size :
    (g : GraphApi) (tie : g.Node → g.Node → Bool) (s : Layer g) (count : ℕ)
    (selected pool : List g.Node)
    → consume_heuristic g tie s count extend_no keep_no ≡ some (selected, pool)
    → length selected ≤ count
selection_size g tie s count selected pool h =
    let (all, (picks, same, v)) = consume_heuristic_lem g tie s count selected pool h in
    let mapped = length-map (λ c. c.node) picks in omega (arith, v.size, ap length same, mapped)

found_inj : {A : Type 0} (a b : A) → ◌≡◌ {A = Search A} (found a) (found b) → a ≡ b
found_inj a b h = cc

-- The selection from whatever layer a search gave.
searched_size :
    (g : GraphApi) (tie : g.Node → g.Node → Bool) (count : ℕ) (r : Search (Layer g))
    (kept : List g.Node)
    → outcome
        (λ s.
          outcome
            (λ (out : List g.Node × List g.Node). found out.0)
            (or_failed (consume_heuristic g tie s count extend_no keep_no)))
        r
      ≡ found kept
    → length kept ≤ count
searched_size g tie count r kept h =
    let (s, seeded, selected) =
      outcome-found
        (λ s.
          outcome (λ (out : List g.Node × List g.Node). found out.0)
            (or_failed (consume_heuristic g tie s count extend_no keep_no)))
        r kept h in
    let (out, consumed, first) =
      outcome-found (λ (out : List g.Node × List g.Node). found out.0)
        (or_failed (consume_heuristic g tie s count extend_no keep_no)) kept selected in
    subst (λ k. length k ≤ count) (found_inj out.0 kept first)
      (selection_size g tie s count out.0 out.1 (or_failed-found _ out consumed))

pub chosen_size :
    (g : GraphApi) (tie : g.Node → g.Node → Bool) (count : ℕ) (r : Search (Layer g))
    (out : List g.Node × List g.Node)
    → outcome (λ s. or_failed (consume_heuristic g tie s count extend_no keep_no)) r ≡ found out
    → length out.0 ≤ count
chosen_size g tie count r out h =
    let (s, seeded, selected) =
      outcome-found (λ s. or_failed (consume_heuristic g tie s count extend_no keep_no)) r out h in
    selection_size g tie s count out.0 out.1 (or_failed-found _ out selected)

module _ (m : MutableGraph) (tie : m.Node → m.Node → Bool) (fuel : ℕ) where
  open m use {State, Node}

  -- The overflowed neighbours of a node are shrunk one after the other: each has its neighbours
  -- replaced by a list that is not longer than the level allows.
  pub data Shrinks (level : ℕ) : State → State → List Node → Type 0 where
    none_left : {st : State} → Shrinks level st st []
    shrunk :
        {st mid end : State} {neighbour : Node} {overflowed : List Node} (kept withheld : List Node)
        → length kept ≤ m.m_max level
        → m.replace_neighbours st neighbour level kept ≡ (mid, some withheld)
        → Shrinks level mid end overflowed
        → Shrinks level st end (neighbour ∷ overflowed)

  -- The nodes of a new vector are linked back one after the other, and the neighbours that overflow
  -- by that are shrunk.
  pub data Links : State → State → List (Node × ℕ) → Type 0 where
    all_linked : {st : State} → Links st st []
    linked :
        {st mid mid' end : State} {node : Node} {level : ℕ} {nodes : List (Node × ℕ)}
        (overflowed : List Node)
        → m.link_neighbours st node level ≡ (mid, some overflowed)
        → Shrinks level mid mid' overflowed
        → Links mid' end nodes
        → Links st end ((node, level) ∷ nodes)

  shrink_neighbours-Shrinks :
      (node : Node) (level : ℕ) (overflowed : List Node) (st st' : State)
      → shrink_neighbours m tie fuel node level overflowed st ≡ (st', found tt)
      → Shrinks level st st' overflowed
  unfolding shrink_neighbours
  shrink_neighbours-Shrinks node level [] st st' h =
      subst (λ s. Shrinks level st s []) (return-found _ st st' tt h).0 none_left
  shrink_neighbours-Shrinks node level (neighbour ∷ overflowed) st st' h =
      let (s1, connections, e1, h1) = >>>-found _ _ st st' tt h in
      let (s2, kept, e2, h2) = >>>-found _ _ s1 st' tt h1 in
      let (s3, withheld, e3, h3) = >>>-found _ _ s2 st' tt h2 in
      let (same1, got) = reads-found _ st s1 connections e1 in
      let (same2, searched) = searches-found _ s1 s2 kept e2 in
      shrunk kept withheld (searched_size (graph_at m s1) tie (m.m_max level) _ kept searched)
        (subst (λ x. m.replace_neighbours x neighbour level kept ≡ (s3, some withheld))
          (sym (same1 ∙ same2)) (writes-found _ s2 s3 withheld e3))
        (shrink_neighbours-Shrinks node level overflowed s3 st' h3)

  pub link_nodes-Links :
      (nodes : List (Node × ℕ)) (st st' : State)
      → link_nodes m tie fuel nodes st ≡ (st', found tt)
      → Links st st' nodes
  unfolding link_nodes
  link_nodes-Links [] st st' h =
      subst (λ s. Links st s []) (return-found _ st st' tt h).0 all_linked
  link_nodes-Links ((node, level) ∷ nodes) st st' h =
      let (s1, overflowed, e1, h1) = >>>-found _ _ st st' tt h in
      let (s2, u, e2, h2) = >>>-found _ _ s1 st' tt h1 in
      linked overflowed (writes-found _ st s1 overflowed e1)
        (shrink_neighbours-Shrinks node level overflowed s1 s2 e2)
        (link_nodes-Links nodes s2 st' h2)
