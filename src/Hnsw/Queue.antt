-- ===== src/Hnsw/Queue.antt =====
-- The candidates of a layer search and the two priority queues of them: `Candidate`, `MinQueue` and
-- `MaxQueue` of `src/index/hnsw/layer_ops.h`. A queue is the list of its elements in the order in which
-- they are popped. The order among elements of equal distance, which `std::priority_queue` leaves
-- open, is that of `tie`, a parameter.
use vsql_vector.Base.{
  ℕ, ◌+◌, ◌≤◌, ◌≡◌, refl, Bool, true, false, ◌&&◌, ◌||◌, List, [], ◌∷◌, inl, inr, ◌⊎◌, arith, ltb,
  ◌==◌, if◌then◌else◌, Bool-cases, length, Has, Has-append, ◌++◌,
}

pub record Candidate (N : Type 0) : Type 0 where
  pub node : N
  pub distance : ℕ

module _ {A : Type 0} (first : A → A → Bool) where
  unfoldable pub push : A → List A → List A
  push c [] = c ∷ []
  push c (x ∷ xs) = if first c x then c ∷ x ∷ xs else x ∷ push c xs

  pub Has-push : (a c : A) (xs : List A) → Has a (push c xs) → (a ≡ c) ⊎ Has a xs
  unfolding push
  Has-push a c [] = λ h. h
  Has-push a c (x ∷ xs) = elim (Bool-cases (first c x)) [
    | inl now ↦ rw now λ h. h
    | inr later ↦ rw later λ h. elim h [
      | inl e ↦ inr (inl e)
      | inr m ↦ elim (Has-push a c xs m) [ inl e ↦ inl e | inr k ↦ inr (inr k) ]
    ]
  ]

  pub push-Has_old : (a c : A) (xs : List A) → Has a xs → Has a (push c xs)
  unfolding push
  push-Has_old a c [] h = inr h
  push-Has_old a c (x ∷ xs) h = elim (Bool-cases (first c x)) [
    | inl now ↦ rw now (inr h)
    | inr later ↦ rw later (elim h [ inl e ↦ inl e | inr m ↦ inr (push-Has_old a c xs m) ])
  ]

  pub push-Has_new : (c : A) (xs : List A) → Has c (push c xs)
  unfolding push
  push-Has_new c [] = inl refl
  push-Has_new c (x ∷ xs) = elim (Bool-cases (first c x)) [
    | inl now ↦ rw now (inl refl)
    | inr later ↦ rw later (inr (push-Has_new c xs))
  ]

  pub length-push : (c : A) (xs : List A) → length (push c xs) ≡ length xs + 1
  unfolding push
  length-push c [] = omega arith
  length-push c (x ∷ xs) = elim (Bool-cases (first c x)) [
    | inl now ↦ rw now (omega arith)
    | inr later ↦ rw later (omega (arith, length-push c xs))
  ]

-- Each element stands in a relation to all behind it.
abbrev pub Ordered : {A : Type 0} → (A → A → Type 0) → List A → Type 0
Ordered R [] = Unit
Ordered {A} R (x ∷ xs) = ((c : A) → Has c xs → R x c) × Ordered R xs

pub push-Ordered :
    {A : Type 0} (R : A → A → Type 0) (first : A → A → Bool)
    → ((a b : A) → first a b ≡ true → R a b)
    → ((a b : A) → first a b ≡ false → R b a)
    → ((a b c : A) → R a b → R b c → R a c)
    → (c : A) (xs : List A) → Ordered R xs
    → Ordered R (push first c xs)
unfolding push
push-Ordered R first yes_R no_R trans c [] o = (λ a h. elim h [ ], tt)
push-Ordered R first yes_R no_R trans c (x ∷ xs) o = elim (Bool-cases (first c x)) [
  | inl now ↦ rw now (
    λ a h. elim h [ inl e ↦ rw e (yes_R c x now) | inr m ↦ trans c x a (yes_R c x now) (o.0 a m) ],
    o,
  )
  | inr later ↦ rw later (
    λ a h. elim (Has-push first a c xs h) [ inl e ↦ rw e (no_R c x later) | inr m ↦ o.0 a m ],
    push-Ordered R first yes_R no_R trans c xs o.1,
  )
]

-- An element that stands in a symmetric relation to all others may stand anywhere among them.
pub push-Ordered_anywhere :
    {A : Type 0} (R : A → A → Type 0) (first : A → A → Bool)
    → ((a b : A) → R a b → R b a)
    → (c : A) (xs : List A) → Ordered R xs
    → ((a : A) → Has a xs → R a c)
    → Ordered R (push first c xs)
unfolding push
push-Ordered_anywhere R first turn c [] o h = (λ a m. elim m [ ], tt)
push-Ordered_anywhere R first turn c (x ∷ xs) o h = elim (Bool-cases (first c x)) [
  | inl now ↦ rw now (λ a m. turn a c (h a m), o)
  | inr later ↦ rw later (
    λ a m. elim (Has-push first a c xs m) [ inl e ↦ rw e (h x (inl refl)) | inr k ↦ o.0 a k ],
    push-Ordered_anywhere R first turn c xs o.1 (λ a m. h a (inr m)),
  )
]

pub Ordered-append :
    {A : Type 0} (R : A → A → Type 0) (xs : List A) (x : A)
    → Ordered R xs
    → ((a : A) → Has a xs → R a x)
    → Ordered R (xs ++ x ∷ [])
Ordered-append R [] x o h = (λ c m. elim m [ ], tt)
Ordered-append R (y ∷ ys) x o h = (
  λ c m. elim (Has-append c ys (x ∷ []) m) [
    | inl k ↦ o.0 c k
    | inr k ↦ elim k [ inl e ↦ rw e (h y (inl refl)) | inr n ↦ elim n [ ] ]
  ],
  Ordered-append R ys x o.1 (λ a m. h a (inr m)),
)

abbrev pub Nearer : {N : Type 0} → Candidate N → Candidate N → Type 0
Nearer a b = a.distance ≤ b.distance

abbrev pub Further : {N : Type 0} → Candidate N → Candidate N → Type 0
Further a b = b.distance ≤ a.distance

-- Sorted by distance, nearest or furthest first.
abbrev pub Ascending : {N : Type 0} → List (Candidate N) → Type 0
Ascending = Ordered Nearer

abbrev pub Descending : {N : Type 0} → List (Candidate N) → Type 0
Descending = Ordered Further

module _ {N : Type 0} (tie : N → N → Bool) where
  unfoldable pub before : Candidate N → Candidate N → Bool
  before a b = ltb a.distance b.distance || (a.distance == b.distance && tie a.node b.node)

  -- `MinQueue::push`: the nearest element is popped first.
  abbrev pub push_min : Candidate N → List (Candidate N) → List (Candidate N)
  push_min = push before

  -- `MaxQueue::push`: the furthest element is popped first.
  abbrev pub push_max : Candidate N → List (Candidate N) → List (Candidate N)
  push_max = push λ a b. before b a

  before-Nearer : (a b : Candidate N) → before a b ≡ true → a.distance ≤ b.distance
  unfolding before
  before-Nearer a b h = ground arith

  not_before-Further : (a b : Candidate N) → before a b ≡ false → b.distance ≤ a.distance
  unfolding before
  not_before-Further a b h = ground arith

  pub push_min-Ascending :
      (c : Candidate N) (xs : List (Candidate N)) → Ascending xs → Ascending (push_min c xs)
  push_min-Ascending =
      push-Ordered Nearer before before-Nearer not_before-Further λ a b c p q. omega arith

  pub push_max-Descending :
      (c : Candidate N) (xs : List (Candidate N)) → Descending xs → Descending (push_max c xs)
  push_max-Descending =
      push-Ordered Further (λ a b. before b a) (λ a b h. before-Nearer b a h)
        (λ a b h. not_before-Further b a h) λ a b c p q. omega arith

module _ {N : Type 0} where
  unfoldable pub pop : List (Candidate N) → List (Candidate N)
  pop [] = []
  pop (c ∷ cs) = cs

  -- The tests of `search` and `expand` against the results, whose head is the furthest of them.
  unfoldable pub closer_than_results : Candidate N → List (Candidate N) → Bool
  closer_than_results c [] = false
  closer_than_results c (f ∷ results) = ltb c.distance f.distance

  unfoldable pub further_than_results : Candidate N → List (Candidate N) → Bool
  further_than_results c [] = false
  further_than_results c (f ∷ results) = ltb f.distance c.distance

  -- A visible candidate enters the results, and the furthest leaves them if they are too many.
  unfoldable pub admit :
      (tie : N → N → Bool) (ef : ℕ) → Candidate N → List (Candidate N) → List (Candidate N)
  unfolding pop
  admit tie ef c results =
      let more = push_max tie c results in if ltb ef (length more) then pop more else more
