-- ===== src/Hnsw/Operations/Levels.antt =====
-- The nodes that an insert creates, one on each level: the loops of `insert`
-- (`src/index/hnsw/graph_ops_impl.h`).
use vsql_vector.Base.{
  ℕ, zero, suc, ◌≤◌, length, ◌<◌, ◌≡◌, refl, Bool, ltb, leb, Option, some, none, List, [], ◌∷◌,
  if◌then◌else◌, Bool-cases, ◌⊎◌, inl, inr, sym, ◌∙◌, ap, ltb→lt,
}
use mathlib.Core.Path.{subst}
use vsql_vector.Hnsw.Layer.{found}
use vsql_vector.Hnsw.Mutable.{
  MutableGraph, graph_at, return, writes, >>>-found, return-found, writes-found, searches-found,
}
use vsql_vector.Hnsw.Operations.{
  insert_nodes, insert_descent, top_node, search_select, search_all, advance_to_next_level,
}
use vsql_vector.Hnsw.Operations.Knn.{advance_keeps}
use vsql_vector.Hnsw.Operations.Links.{chosen_size}

module _ (m : MutableGraph) (tie : m.Node → m.Node → Bool) (fuel : ℕ) (query : m.NodeData) where
  open m use {State, Node}

  -- The neighbours that a new node is given on a level: none above the entry level, and else those
  -- that a search on the graph as it is selects, at most M.
  abbrev pub Chosen : (entry_level level : ℕ) → State → List Node → Type 0
  Chosen entry_level level st neighbours =
      ((entry_level < level) × (neighbours ≡ []))
      ⊎ ((length neighbours ≤ m.M)
          × ((candidates pool : List Node) × (search_select m tie fuel (inl query) candidates level
                  st
                ≡ (st, found (neighbours, pool)))))

  -- The nodes of a new vector, the lowest first, with the highest, as they are created one after the
  -- other from a first state on: the highest with no parent, and each other one, on the state that
  -- the creation of the node above it left, with that node as its parent.
  pub data Inserted (entry_level : ℕ) (top : Node × ℕ) (start : State)
      : State → List (Node × ℕ) → Type 0 where
    highest :
        {end : State} (neighbours : List Node)
        → Chosen entry_level top.1 start neighbours
        → m.create_node start none top.1 query neighbours ≡ (end, some top.0)
        → Inserted entry_level top start end (top ∷ [])
    lower :
        {mid end : State} {n n' : Node} {level : ℕ} {nodes : List (Node × ℕ)}
        (neighbours : List Node)
        → Inserted entry_level top start mid ((n', suc level) ∷ nodes)
        → Chosen entry_level level mid neighbours
        → m.create_node mid (some n') level query neighbours ≡ (end, some n)
        → Inserted entry_level top start end ((n, level) ∷ (n', suc level) ∷ nodes)

  select_keeps :
      (candidates : List Node) (level : ℕ) (st st' : State) (out : List Node × List Node)
      → search_select m tie fuel (inl query) candidates level st ≡ (st', found out)
      → st ≡ st'
  unfolding search_select
  select_keeps candidates level st st' out h = (searches-found _ st st' out h).0

  pub descent_keeps :
      (above insert_level : ℕ) (candidates out : List Node) (st st' : State)
      → insert_descent m tie fuel query above insert_level candidates st ≡ (st', found out)
      → st ≡ st'
  unfolding insert_descent search_all
  descent_keeps zero insert_level candidates out st st' h = (return-found _ st st' out h).0
  descent_keeps (suc above) insert_level candidates out st st' h =
      let (s1, nearest, e1, h1) = >>>-found _ _ st st' out h in
      let (s2, next, e2, h2) = >>>-found _ _ s1 st' out h1 in
      (searches-found _ st s1 nearest e1).0
      ∙ advance_keeps m tie fuel _ nearest next s1 s2 e2
      ∙ descent_keeps above insert_level next out s2 st' h2

  select_size :
      (candidates : List Node) (level : ℕ) (st st' : State) (out : List Node × List Node)
      → search_select m tie fuel (inl query) candidates level st ≡ (st', found out)
      → length out.0 ≤ m.M
  unfolding search_select
  select_size candidates level st st' out h =
      chosen_size (graph_at m st) tie m.M _ out (searches-found _ st st' out h).1

  search_Chosen :
      (entry_level level : ℕ) (candidates : List Node) (st st' : State)
      (out : List Node × List Node)
      → search_select m tie fuel (inl query) candidates level st ≡ (st', found out)
      → (st' ≡ st) × Chosen entry_level level st out.0
  search_Chosen entry_level level candidates st st' out h =
      let same = sym (select_keeps candidates level st st' out h) in
      let kept : search_select m tie fuel (inl query) candidates level st ≡ (st, found out) =
        subst (λ s. search_select m tie fuel (inl query) candidates level st ≡ (s, found out)) same
          h in
      (same, inr (select_size candidates level st st' out h, (candidates, out.1, kept)))

  -- The neighbours that one round of the loop over the levels chooses; it keeps the state.
  round_Chosen :
      (entry_level level : ℕ) (candidates : List Node) (st st' : State)
      (out : List Node × List Node)
      → (if ltb entry_level level
            then return ([], candidates)
            else search_select m tie fuel (inl query) candidates level)
          st
        ≡ (st', found out)
      → (st' ≡ st) × Chosen entry_level level st out.0
  round_Chosen entry_level level candidates st st' out h =
      elim (Bool-cases (ltb entry_level level)) [
        | inl over ↦
            let (same, none_chosen) = return-found _ st st' out (rw over at h) in
            (sym same, inl (ltb→lt _ _ over, sym (ap (λ o. o.0) none_chosen)))
        | inr under ↦ search_Chosen entry_level level candidates st st' out (rw under at h)
      ]

  below_keeps :
      (entry_level level : ℕ) (pool below : List Node) (st st' : State)
      → (if leb level entry_level then advance_to_next_level m tie fuel level pool else return pool)
          st
        ≡ (st', found below)
      → st ≡ st'
  below_keeps entry_level level pool below st st' h = elim (Bool-cases (leb level entry_level)) [
    | inl under ↦ advance_keeps m tie fuel level pool below st st' (rw under at h)
    | inr over ↦ (return-found pool st st' below (rw over at h)).0
  ]

  -- A node created on the state that the search before it kept.
  creation :
      (parent : Option Node) (level : ℕ) (neighbours : List Node) (st s1 s2 : State) (n : Node)
      → s1 ≡ st
      → writes (λ s. m.create_node s parent level query neighbours) s1 ≡ (s2, found n)
      → m.create_node st parent level query neighbours ≡ (s2, some n)
  creation parent level neighbours st s1 s2 n same h =
      subst (λ s. m.create_node s parent level query neighbours ≡ (s2, some n)) same
        (writes-found _ s1 s2 n h)

  insert_nodes_below :
      (entry_level level : ℕ) (parent : Node) (candidates : List Node) (above : List (Node × ℕ))
      (top : Node × ℕ) (start st st' : State)
      → Inserted entry_level top start st ((parent, suc level) ∷ above)
      → (out : List (Node × ℕ))
      → insert_nodes m tie fuel query entry_level level
          (some parent)
          candidates
          ((parent, suc level) ∷ above)
          st
        ≡ (st', found out)
      → (n : Node) × (rest : List (Node × ℕ)) × (out ≡ (n, 0) ∷ rest)
        × Inserted entry_level top start st' ((n, 0) ∷ rest)
  unfolding insert_nodes
  insert_nodes_below entry_level zero parent candidates above top start st st' i out h =
      let (s1, sel, e1, h1) = >>>-found _ _ st st' out h in
      let (s2, n, e2, h2) = >>>-found _ _ s1 st' out h1 in
      let (same, chosen) = search_Chosen entry_level 0 candidates st s1 sel e1 in
      let (last, nodes) = return-found _ s2 st' out h2 in
      (
        n,
        (parent, 1) ∷ above,
        sym nodes,
        subst (λ s. Inserted entry_level top start s ((n, 0) ∷ (parent, 1) ∷ above)) last
            (lower sel.0 i chosen (creation (some parent) 0 sel.0 st s1 s2 n same e2)),
      )
  insert_nodes_below entry_level (suc level) parent candidates above top start st st' i out h =
      let (s1, sel, e1, h1) = >>>-found _ _ st st' out h in
      let (s2, n, e2, h2) = >>>-found _ _ s1 st' out h1 in
      let (s3, below, e3, h3) = >>>-found _ _ s2 st' out h2 in
      let (same, chosen) = round_Chosen entry_level (suc level) candidates st s1 sel e1 in
      let made = creation (some parent) (suc level) sel.0 st s1 s2 n same e2 in
      let kept = below_keeps entry_level (suc level) sel.1 below s2 s3 e3 in
      let i' =
        subst
          (λ s.
            Inserted entry_level top start s ((n, suc level) ∷ (parent, suc (suc level)) ∷ above))
          kept (lower sel.0 i chosen made) in
      insert_nodes_below entry_level level n below ((parent, suc (suc level)) ∷ above) top start s3
        st' i' out h3

  pub insert_nodes_lem :
      (entry_level level : ℕ) (candidates : List Node) (st st' : State) (out : List (Node × ℕ))
      → insert_nodes m tie fuel query entry_level level none candidates [] st ≡ (st', found out)
      → (t : Node) × (n : Node) × (rest : List (Node × ℕ)) × (out ≡ (n, 0) ∷ rest)
        × Inserted entry_level (t, level) st st' ((n, 0) ∷ rest)
  unfolding insert_nodes
  insert_nodes_lem entry_level zero candidates st st' out h =
      let (s1, sel, e1, h1) = >>>-found _ _ st st' out h in
      let (s2, n, e2, h2) = >>>-found _ _ s1 st' out h1 in
      let (same, chosen) = search_Chosen entry_level 0 candidates st s1 sel e1 in
      let (last, nodes) = return-found _ s2 st' out h2 in
      (
        n,
        n,
        [],
        sym nodes,
        subst (λ s. Inserted entry_level (n, 0) st s ((n, 0) ∷ [])) last
            (highest sel.0 chosen (creation none 0 sel.0 st s1 s2 n same e2)),
      )
  insert_nodes_lem entry_level (suc level) candidates st st' out h =
      let (s1, sel, e1, h1) = >>>-found _ _ st st' out h in
      let (s2, n, e2, h2) = >>>-found _ _ s1 st' out h1 in
      let (s3, below, e3, h3) = >>>-found _ _ s2 st' out h2 in
      let (same, chosen) = round_Chosen entry_level (suc level) candidates st s1 sel e1 in
      let made = creation none (suc level) sel.0 st s1 s2 n same e2 in
      let kept = below_keeps entry_level (suc level) sel.1 below s2 s3 e3 in
      let i' =
        subst (λ s. Inserted entry_level (n, suc level) st s ((n, suc level) ∷ [])) kept
          (highest sel.0 chosen made) in
      let (n0, rest, e, i) =
        insert_nodes_below entry_level level n below [] (n, suc level) st s3 st' i' out h3 in
      (n, n0, rest, e, i)

  pub top_node-Inserted :
      (entry_level : ℕ) (top : Node × ℕ) (start end : State) (nodes : List (Node × ℕ))
      → Inserted entry_level top start end nodes
      → top_node m tie fuel nodes ≡ some top.0
  unfolding top_node
  top_node-Inserted entry_level top start end nodes (highest ns c e) = refl
  top_node-Inserted entry_level top start end nodes
        (lower {mid} {n' = n'} {level = level} {nodes = rest} ns i c e) =
      top_node-Inserted entry_level top start mid ((n', suc level) ∷ rest) i
