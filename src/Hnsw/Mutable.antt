-- ===== src/Hnsw/Mutable.antt =====
-- What `GraphOperations` (`src/index/hnsw/graph_ops.h`) uses of a graph that it changes, and its steps.
-- An operation returns the state also where it fails, as it may have changed a part by then.
use vsql_vector.Base.{Option-cases, ℕ, ◌≡◌, refl, inl, inr, ◌∙◌, ap, Bool, Option, none, some, List}
use vsql_vector.Hnsw.Graph.{GraphApi}
use vsql_vector.Hnsw.Layer.{Search, found, failed, out_of_fuel}

pub record MutableGraph : Type 1 where
  pub State : Type 0
  pub Node : Type 0
  pub NodeData : Type 0
  pub key : Node → ℕ
  pub key_inj : (a b : Node) → key a ≡ key b → a ≡ b
  pub distance : State → Node → Node → Option ℕ
  pub distance_to : State → NodeData → Node → Option ℕ
  pub neighbours : State → (level : ℕ) → Node → Option (List Node)
  pub visible : State → Node → Option Bool
  pub incoming_neighbours : State → Node → (level : ℕ) → Option (List Node)
  pub get_entry_point : State → Option (List Node × ℕ)
  pub get_next_level_node : State → Node → (level : ℕ) → Option Node
  pub mark_delete : State → Node → (level : ℕ) → Bool → State × Option (Unit {0})
  pub ensure_levels : State → (level : ℕ) → State × Option (Unit {0})
  pub create_node :
      State → (parent : Option Node) → (level : ℕ) → NodeData → List Node → State × Option Node
  pub drop_node : State → (parent : Option Node) → (level : ℕ) → Node → State × Option (Unit {0})
  -- These return the neighbours that have no room for a link back.
  pub link_neighbours : State → Node → (level : ℕ) → State × Option (List Node)
  pub replace_neighbours : State → Node → (level : ℕ) → List Node → State × Option (List Node)
  -- This returns the neighbours that keep a link of their own.
  pub unlink_neighbours : State → Node → (level : ℕ) → State × Option (List Node)
  pub set_entry_point : State → List Node → (level : ℕ) → State × Option (Unit {0})
  pub M : ℕ
  pub m_max : (level : ℕ) → ℕ
  pub ef_construction : ℕ
  -- What other threads change while `LockGraph::upgrade` holds no lock.
  pub upgrade : State → State

-- The graph that the operations on a layer see.
abbrev pub graph_at : (m : MutableGraph) → m.State → GraphApi
graph_at m st = record {
  Node = m.Node;
  NodeData = m.NodeData;
  key = m.key;
  key_inj = m.key_inj;
  distance = m.distance st;
  distance_to = m.distance_to st;
  neighbours = m.neighbours st;
  visible = m.visible st;
}

-- A step on a state: it may fail, or run out of fuel in a search.
abbrev pub Step : Type 0 → Type 0 → Type 0
Step S A = S → S × Search A

unfoldable pub return : {S A : Type 0} → A → Step S A
return a st = (st, found a)

abbrev carry_on : {S A B : Type 0} → S × Search A → (A → Step S B) → S × Search B
carry_on (st, found a) f = f a st
carry_on (st, failed) f = (st, failed)
carry_on (st, out_of_fuel) f = (st, out_of_fuel)

infixl 5 ◌>>>◌
unfoldable pub ◌>>>◌ : {S A B : Type 0} → Step S A → (A → Step S B) → Step S B
◌>>>◌ m f st = carry_on (m st) f

abbrev pub or_failed : {A : Type 0} → Option A → Search A
or_failed none = failed
or_failed (some a) = found a

-- An operation that reads, one that writes, and a search.
unfoldable pub reads : {S A : Type 0} → (S → Option A) → Step S A
reads f st = (st, or_failed (f st))

unfoldable pub writes : {S A : Type 0} → (S → S × Option A) → Step S A
writes f st = let (st', r) = f st in (st', or_failed r)

unfoldable pub searches : {S A : Type 0} → (S → Search A) → Step S A
searches f st = (st, f st)

abbrev pub outcome : {A B : Type 0} → (A → Search B) → Search A → Search B
outcome f (found a) = f a
outcome f failed = failed
outcome f out_of_fuel = out_of_fuel

continued :
    {S A B : Type 0} (r : S × Search A) (f : A → Step S B) (st' : S) (b : B)
    → carry_on r f ≡ (st', found b)
    → (mid : S) × (a : A) × (r ≡ (mid, found a)) × (f a mid ≡ (st', found b))
continued (st, found a) f st' b h = (st, a, refl, h)
continued (st, failed) f st' b h = cc
continued (st, out_of_fuel) f st' b h = cc

-- A chain that succeeds has succeeded at its first step.
pub >>>-found :
    {S A B : Type 0} (step : Step S A) (f : A → Step S B) (st st' : S) (b : B)
    → (step >>> f) st ≡ (st', found b)
    → (mid : S) × (a : A) × (step st ≡ (mid, found a)) × (f a mid ≡ (st', found b))
unfolding ◌>>>◌
>>>-found step f st st' b h = continued (step st) f st' b h

pub outcome-found :
    {A B : Type 0} (f : A → Search B) (r : Search A) (b : B)
    → outcome f r ≡ found b
    → (a : A) × (r ≡ found a) × (f a ≡ found b)
outcome-found f (found a) b h = (a, refl, h)
outcome-found f failed b h = cc
outcome-found f out_of_fuel b h = cc

pub return-found :
    {S A : Type 0} (a : A) (st st' : S) (b : A)
    → return a st ≡ (st', found b)
    → (st ≡ st') × (a ≡ b)
unfolding return
return-found a st st' b h = (ap (λ p. p.0) h, cc (ap (λ p. p.1) h))

pub reads-found :
    {S A : Type 0} (f : S → Option A) (st st' : S) (a : A)
    → reads f st ≡ (st', found a)
    → (st ≡ st') × (f st ≡ some a)
unfolding reads
reads-found {S} {A} f st st' a h = elim (Option-cases (f st)) [
  | inl e ↦ cc (rw e at h)
  | inr (b, e) ↦
      let h1 : ◌≡◌ {A = S × Search A} (st, found b) (st', found a) = rw e at h in
      (ap (λ p. p.0) h1, cc (ap (λ p. p.1) h1))
]

pub searches-found :
    {S A : Type 0} (f : S → Search A) (st st' : S) (a : A)
    → searches f st ≡ (st', found a)
    → (st ≡ st') × (f st ≡ found a)
unfolding searches
searches-found f st st' a h = (ap (λ p. p.0) h, ap (λ p. p.1) h)

-- Steps that succeed, composed.
pub >>>-eq :
    {S A B : Type 0} (step : Step S A) (f : A → Step S B) (st mid : S) (a : A) {r : S × Search B}
    → step st ≡ (mid, found a)
    → f a mid ≡ r
    → (step >>> f) st ≡ r
unfolding ◌>>>◌
>>>-eq step f st mid a e h = ap (λ r. carry_on r f) e ∙ h

pub reads-eq :
    {S A : Type 0} (f : S → Option A) (st : S) (a : A) → f st ≡ some a → reads f st ≡ (st, found a)
unfolding reads
reads-eq f st a e = rw (e, reads) refl

pub searches-eq :
    {S A : Type 0} (f : S → Search A) (st : S) (a : A)
    → f st ≡ found a
    → searches f st ≡ (st, found a)
unfolding searches
searches-eq f st a e = rw (e, searches) refl

pub writes-eq :
    {S A : Type 0} (f : S → S × Option A) (st mid : S) (a : A)
    → f st ≡ (mid, some a)
    → writes f st ≡ (mid, found a)
unfolding writes
writes-eq {S} {A} f st mid a e = ap (λ (r : S × Option A). (r.0, or_failed r.1)) e

pub writes-fail :
    {S A B : Type 0} (f : S → S × Option A) (k : A → Step S B) (st mid : S)
    → f st ≡ (mid, none)
    → (writes f >>> k) st ≡ (mid, failed)
unfolding writes ◌>>>◌
writes-fail {S} {A} f k st mid e = ap (λ (r : S × Option A). carry_on (r.0, or_failed r.1) k) e

written :
    {S A : Type 0} (r : S × Option A) (st' : S) (a : A)
    → ◌≡◌ {A = S × Search A} (r.0, or_failed r.1) (st', found a)
    → r ≡ (st', some a)
written (s, none) st' a h = cc (ap (λ p. p.1) h)
written (s, some b) st' a h = cc (ap (λ p. p.0) h, ap (λ p. p.1) h)

pub writes-found :
    {S A : Type 0} (f : S → S × Option A) (st st' : S) (a : A)
    → writes f st ≡ (st', found a)
    → f st ≡ (st', some a)
unfolding writes
writes-found f st st' a h = written (f st) st' a h
