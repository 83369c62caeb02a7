-- ===== src/Hnsw/Operations/EntryPoint.antt =====
-- The entry points that an insert reads and sets: `insert` (`src/index/hnsw/graph_ops_impl.h`).
use vsql_vector.Base.{
  ℕ, suc, ◌≤◌, ◌<◌, ◌≡◌, refl, Bool, true, false, ◌||◌, ◌==◌, ltb, Option, some, List, [], ◌∷◌,
  length, if◌then◌else◌, Bool-cases, ◌⊎◌, inl, inr, sym, ◌∙◌, arith, ap, ltb→lt, ==_of_ne,
}
use mathlib.Core.Path.{subst}
use vsql_vector.Hnsw.Layer.{found}
use vsql_vector.Hnsw.Mutable.{
  MutableGraph, return, ◌>>>◌, reads, writes, >>>-found, return-found, reads-found, writes-found,
}
use vsql_vector.Hnsw.Operations.{insert_entry_point}

if_written :
    {S : Type 0} (b : Bool) (f : S → S × Option (Unit {0})) (st st' : S) (u : Unit {0})
    → (if b then writes f else return tt) st ≡ (st', found u)
    → ((b ≡ true) × (f st ≡ (st', some u))) ⊎ ((b ≡ false) × (st' ≡ st))
if_written true f st st' u h = inl (refl, writes-found f st st' u h)
if_written false f st st' u h = inr (refl, sym (return-found tt st st' u h).0)

le_of_ltb : (a b : ℕ) → ltb a b ≡ false → b ≤ a
le_of_ltb a b h = ground arith

module _ (m : MutableGraph) (tie : m.Node → m.Node → Bool) (fuel : ℕ) where
  open m use {State, Node}

  -- A node that is inserted at a level becomes the entry point of a graph with these entry points.
  abbrev pub NewEntry : (insert_level : ℕ) → List Node × ℕ → Type 0
  NewEntry insert_level (entry_points, level) = (entry_points ≡ []) ⊎ (level < insert_level)

  -- The entry points that an insert starts from, and the state after they were read: as they are
  -- first read, or, where the node becomes the entry point by these, as they are after the upgrade
  -- of the lock.
  abbrev pub Enters : (insert_level : ℕ) → (st st' : State) → List Node × ℕ → Type 0
  Enters insert_level st st' entry =
      ((st' ≡ st) × (m.get_entry_point st ≡ some entry) × (¬ NewEntry insert_level entry))
      ⊎ ((st' ≡ m.upgrade st)
          × (m.get_entry_point st' ≡ some entry)
          × ((first : List Node × ℕ) × (m.get_entry_point st ≡ some first)
              × NewEntry insert_level first))

  new_entry : (insert_level : ℕ) → List Node × ℕ → Bool
  new_entry insert_level entry = length entry.0 == 0 || ltb entry.1 insert_level

  new_entry_lem :
      (insert_level : ℕ) (entry : List Node × ℕ)
      → ((new_entry insert_level entry ≡ true) × NewEntry insert_level entry)
        ⊎ ((new_entry insert_level entry ≡ false) × (¬ NewEntry insert_level entry))
  unfolding new_entry
  new_entry_lem insert_level ([], level) = inl (refl, inl refl)
  new_entry_lem insert_level (n ∷ ns, level) =
      rw (==_of_ne (suc (length ns)) 0 (omega arith)) (elim (Bool-cases (ltb level insert_level)) [
        | inl below ↦ rw below (inl (refl, inr (ltb→lt _ _ below)))
        | inr above ↦ rw above (
            inr (
              refl,
              λ new. elim new [
                | inl e ↦ cc
                | inr below ↦ absurd (omega (arith, le_of_ltb level insert_level above))
              ],
            ))
      ])

  -- The answer of a run is whether the node becomes the entry point.
  abbrev pub Tells : (insert_level : ℕ) → List Node × ℕ → Bool → Type 0
  Tells insert_level entry is_new =
      ((is_new ≡ true) × NewEntry insert_level entry)
      ⊎ ((is_new ≡ false) × (¬ NewEntry insert_level entry))

  read_again :
      (insert_level : ℕ) (st st' : State) (entry : List Node × ℕ) (is_new : Bool)
      → (writes (λ s. (m.upgrade s, some tt)) >>> λ u. reads m.get_entry_point >>> λ entry'.
            return {A = (List Node × ℕ) × Bool} (entry', new_entry insert_level entry'))
          st
        ≡ (st', found (entry, is_new))
      → (st' ≡ m.upgrade st)
        × (m.get_entry_point st' ≡ some entry)
        × Tells insert_level entry is_new
  read_again insert_level st st' entry is_new h =
      let (s1, u, e1, h1) = >>>-found _ _ st st' (entry, is_new) h in
      let (s2, read, e2, h2) = >>>-found _ _ s1 st' (entry, is_new) h1 in
      let (same, got) = reads-found m.get_entry_point s1 s2 read e2 in
      let (last, out) = return-found _ s2 st' (entry, is_new) h2 in
      let upgraded : m.upgrade st ≡ s1 = ap (λ r. r.0) (writes-found _ st s1 u e1) in
      let is_entry : read ≡ entry = ap (λ o. o.0) out in
      let tells : new_entry insert_level entry ≡ is_new =
        ap (new_entry insert_level) (sym is_entry) ∙ ap (λ o. o.1) out in
      (
        sym (upgraded ∙ same ∙ last),
        ap m.get_entry_point (sym (same ∙ last)) ∙ got ∙ ap (λ e. some e) is_entry,
        subst (Tells insert_level entry) tells (new_entry_lem insert_level entry),
      )

  pub entry_point_lem :
      (insert_level : ℕ) (st st' : State) (entry : List Node × ℕ) (is_new : Bool)
      → insert_entry_point m tie fuel insert_level st ≡ (st', found (entry, is_new))
      → Enters insert_level st st' entry × Tells insert_level entry is_new
  unfolding insert_entry_point new_entry
  entry_point_lem insert_level st st' entry is_new h =
      let (s1, first, e1, h1) = >>>-found _ _ st st' (entry, is_new) h in
      let (same, got) = reads-found m.get_entry_point st s1 first e1 in
      elim (new_entry_lem insert_level first) [
        | inl (new, becomes) ↦
            let (upgraded, read, tells) =
              read_again insert_level s1 st' entry is_new (rw new at h1) in
            (inr (upgraded ∙ ap m.upgrade (sym same), read, (first, got, becomes)), tells)
        | inr (old, stays) ↦
            let (last, out) = return-found _ s1 st' (entry, is_new) (rw old at h1) in
            let is_entry : first ≡ entry = ap (λ o. o.0) out in
            let stays' : ¬ NewEntry insert_level entry =
              subst (λ e. ¬ NewEntry insert_level e) is_entry stays in
            (
              inl (sym (same ∙ last), got ∙ ap (λ e. some e) is_entry, stays'),
              inr (sym (ap (λ o. o.1) out), stays'),
            )
      ]

  -- The last step, by what the first one told.
  pub entering :
      (insert_level : ℕ) (entry : List Node × ℕ) (is_new : Bool) (t out : Node) (st mid st' : State)
      (u : Unit {0})
      → Tells insert_level entry is_new
      → t ≡ out
      → mid ≡ st'
      → (if is_new then writes (λ s. m.set_entry_point s (t ∷ []) insert_level) else return tt) st
        ≡ (mid, found u)
      → (NewEntry insert_level entry
          × (m.set_entry_point st (out ∷ []) insert_level ≡ (st', some tt)))
        ⊎ ((¬ NewEntry insert_level entry) × (st' ≡ st))
  entering insert_level entry is_new t out st mid st' u tells last same h =
      elim (if_written is_new (λ s. m.set_entry_point s (t ∷ []) insert_level) st mid u h) [
        | inl (b1, set) ↦ elim tells [
          | inl (b, new) ↦ inl (
            new,
            subst
                (λ (x : Node × State).
                  m.set_entry_point st (x.0 ∷ []) insert_level ≡ (x.1, some tt))
                (λ j. (last j, same j)) set,
          )
          | inr (b, old) ↦ absurd cc
        ]
        | inr (b2, kept) ↦ elim tells [
          | inl (b, new) ↦ absurd cc
          | inr (b, old) ↦ inr (old, sym same ∙ kept)
        ]
      ]
