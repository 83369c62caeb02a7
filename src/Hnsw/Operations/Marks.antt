-- ===== src/Hnsw/Operations/Marks.antt =====
-- The delete marks of a vector's nodes: `mark_delete` (`src/index/hnsw/graph_ops_impl.h`).
use vsql_vector.Base.{
  ℕ, zero, suc, ◌≡◌, refl, inl, inr, ◌⊎◌, Bool, Option, some, none, List, [], ◌∷◌, arith, ◌==◌,
  if◌then◌else◌, sym, ap, ◌∙◌, map, ◌++◌,
}
use mathlib.Core.Path.{subst}
use vsql_vector.Page.Links.{contains}
use vsql_vector.Hnsw.Layer.{Search, found, failed}
use vsql_vector.Hnsw.Mutable.{MutableGraph, writes, >>>-eq, reads-eq, writes-eq, writes-fail}
use vsql_vector.Hnsw.Operations.{mark_delete}

Pair-cases :
    {S : Type 0} (r : S × Option (Unit {0}))
    → ((mid : S) × (r ≡ (mid, some tt))) ⊎ ((mid : S) × (r ≡ (mid, none)))
Pair-cases (s, none) = inr (s, refl)
Pair-cases (s, some tt) = inl (s, refl)

module _ (m : MutableGraph) (tie : m.Node → m.Node → Bool) (fuel : ℕ) where
  open m use {State, Node, key}

  -- What `Graph::mark_delete` is documented to do: it marks one node, and changes no more.
  pub record MarksNodes (marked : State → Node → Bool) : Type 0 where
    pub marks :
        (st st' : State) (n : Node) (level : ℕ) (b : Bool)
        → m.mark_delete st n level b ≡ (st', some tt)
        → (x : Node) → marked st' x ≡ (if key x == key n then b else marked st x)
    pub keeps_on_failure :
        (st st' : State) (n : Node) (level : ℕ) (b : Bool)
        → m.mark_delete st n level b ≡ (st', none)
        → (x : Node) → marked st' x ≡ marked st x
    pub keeps_levels :
        (st : State) (n : Node) (level : ℕ) (b : Bool) (x : Node) (l : ℕ)
        → m.get_next_level_node (m.mark_delete st n level b).0 x l ≡ m.get_next_level_node st x l

  -- The nodes of a vector, from a level down to level 0.
  pub data Chain (st : State) : ℕ → Node → List Node → Type 0 where
    lowest : {n : Node} → Chain st zero n (n ∷ [])
    above :
        {level : ℕ} {n next : Node} {ns : List Node}
        → m.get_next_level_node st n (suc level) ≡ some next
        → Chain st level next ns
        → Chain st (suc level) n (n ∷ ns)

  module _ (marked : State → Node → Bool) (v : MarksNodes marked) where
    Chain-mark_delete :
        (st : State) (n : Node) (level : ℕ) (b : Bool) {l : ℕ} {x : Node} {ns : List Node}
        → Chain st l x ns
        → Chain (m.mark_delete st n level b).0 l x ns
    Chain-mark_delete st n level b lowest = lowest
    Chain-mark_delete st n level b (above {level = l} {n = x} e c) =
        above (v.keeps_levels st n level b x (suc l) ∙ e) (Chain-mark_delete st n level b c)

    -- The marks after some of the nodes have been marked.
    abbrev pub AreMarked : State → State → Bool → List Node → Type 0
    AreMarked st st' b done =
        (x : Node) → marked st' x ≡ (if contains (key x) (map key done) then b else marked st x)

    abbrev pub MarksChain : State → Bool → List Node → State × Search (Unit {0}) → Type 0
    MarksChain st b ns r =
        ((r.1 ≡ found tt) × AreMarked st r.0 b ns)
        ⊎ ((r.1 ≡ failed)
            × ((done : List Node) × (rest : List Node) × (ns ≡ done ++ rest)
                × AreMarked st r.0 b done))

    marked_one :
        (st st' : State) (n : Node) (level : ℕ) (b : Bool)
        → m.mark_delete st n level b ≡ (st', some tt)
        → AreMarked st st' b (n ∷ [])
    marked_one st st' n level b h x = ground (arith, v.marks st st' n level b h x)

    marked_more :
        (st mid st' : State) (n : Node) (level : ℕ) (b : Bool) (done : List Node)
        → m.mark_delete st n level b ≡ (mid, some tt)
        → AreMarked mid st' b done
        → AreMarked st st' b (n ∷ done)
    marked_more st mid st' n level b done h k x = ground (arith, v.marks st mid n level b h x, k x)

    outcomes :
        (st : State) (n : Node) (level : ℕ) (b : Bool)
        → ((mid : State) × (m.mark_delete st n level b ≡ (mid, some tt)))
          ⊎ ((mid : State) × (m.mark_delete st n level b ≡ (mid, none)))
    outcomes st n level b = Pair-cases (m.mark_delete st n level b)

    MarksChain-above :
        (st mid : State) (n : Node) (level : ℕ) (b : Bool) (ns : List Node)
        → m.mark_delete st n level b ≡ (mid, some tt)
        → (r : State × Search (Unit {0})) → MarksChain mid b ns r
        → MarksChain st b (n ∷ ns) r
    MarksChain-above st mid n level b ns h (st', r) k = elim k [
      | inl (e, a) ↦ inl (e, marked_more st mid st' n level b ns h a)
      | inr (e, (done, rest, split, a)) ↦
          inr
            (e, (n ∷ done, rest, ap (λ t. n ∷ t) split, marked_more st mid st' n level b done h a))
    ]

    -- Where marking one node changes the mark of that node and nothing else, and nothing at all
    -- if it fails, mark_delete of a vector gives the mark to all nodes of the vector from the
    -- given level down, and to no other. If it fails on the way, the nodes above that place have
    -- the mark and all others are as they were.
    pub mark_delete-Chain :
        (level : ℕ) (n : Node) (ns : List Node) (b : Bool) (st : State)
        → Chain st level n ns
        → MarksChain st b ns (mark_delete m tie fuel level n b st)
    unfolding mark_delete writes
    mark_delete-Chain zero n ns b st lowest = elim (outcomes st n 0 b) [
      | inl (mid, e) ↦ rw e (inl (refl, marked_one st mid n 0 b e))
      | inr (mid, e) ↦ rw e (inr (refl, ([], n ∷ [], refl, v.keeps_on_failure st mid n 0 b e)))
    ]
    mark_delete-Chain (suc level) n ns b st (above {next = next} {ns = ns'} e c) =
        elim (outcomes st n (suc level) b) [
          | inl (mid, h) ↦
              let kept : (m.mark_delete st n (suc level) b).0 ≡ mid =
                ap (λ (r : State × Option (Unit {0})). r.0) h in
              let next_eq : m.get_next_level_node mid n (suc level) ≡ some next =
                subst (λ u. m.get_next_level_node u n (suc level) ≡ some next) kept
                  (v.keeps_levels st n (suc level) b n (suc level) ∙ e) in
              let c' : Chain mid level next ns' =
                subst (λ u. Chain u level next ns') kept (Chain-mark_delete st n (suc level) b c) in
              let whole : mark_delete m tie fuel (suc level) n b st
                  ≡ mark_delete m tie fuel level next b mid =
                >>>-eq (writes λ u. m.mark_delete u n (suc level) b) _ st mid tt
                  (writes-eq (λ u. m.mark_delete u n (suc level) b) st mid tt h)
                  (>>>-eq _ _ mid mid next (reads-eq _ mid next next_eq) refl) in
              subst (MarksChain st b (n ∷ ns')) (sym whole) (
                MarksChain-above st mid n (suc level) b ns' h
                  (mark_delete m tie fuel level next b mid)
                  (mark_delete-Chain level next ns' b mid c'))
          | inr (mid, h) ↦
              subst (MarksChain st b (n ∷ ns'))
                (sym (writes-fail (λ u. m.mark_delete u n (suc level) b) _ st mid h))
                (inr (refl, ([], n ∷ ns', refl, v.keeps_on_failure st mid n (suc level) b h)))
        ]
