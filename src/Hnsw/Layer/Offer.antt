-- ===== src/Hnsw/Layer/Offer.antt =====
-- The results of a layer search under `expand` (`src/index/hnsw/layer_ops_impl.h`): what a candidate
-- that is offered does to the queue of results.
use vsql_vector.Base.{
  ℕ, suc, ◌+◌, ◌≤◌, ◌<◌, ◌≡◌, refl, inl, inr, ◌⊎◌, Bool, true, false, ◌||◌, List, [], ◌∷◌, arith,
  ltb, if◌then◌else◌, length, Has, Bool-cases,
}
use vsql_vector.Hnsw.Queue.{
  Candidate, push_max, push_max-Descending, Descending, Has-push, push-Has_old, push-Has_new,
  length-push, before, push-Ordered_anywhere, Ordered, Further, admit, closer_than_results, pop,
}

-- The results are as many as asked for, and none of them is further than the candidate.
abbrev pub Full : {N : Type 0} → (ef : ℕ) → Candidate N → List (Candidate N) → Type 0
Full {N} ef a results =
    (ef ≤ length results) × ((r : Candidate N) → Has r results → r.distance ≤ a.distance)

module _ {N : Type 0} where
  abbrev trim : (ef : ℕ) → List (Candidate N) → List (Candidate N)
  trim ef [] = []
  trim ef (c ∷ cs) = if ltb ef (suc (length cs)) then cs else c ∷ cs

  Has-trim : (ef : ℕ) (a : Candidate N) (cs : List (Candidate N)) → Has a (trim ef cs) → Has a cs
  Has-trim ef a [] h = h
  Has-trim ef a (c ∷ cs) h = elim (Bool-cases (ltb ef (suc (length cs)))) [
    | inl over ↦ inr (rw over at h)
    | inr fits ↦ rw fits at h
  ]

  trim-Ordered :
      (R : Candidate N → Candidate N → Type 0) (ef : ℕ) (cs : List (Candidate N))
      → Ordered R cs
      → Ordered R (trim ef cs)
  trim-Ordered R ef [] o = tt
  trim-Ordered R ef (c ∷ cs) o = elim (Bool-cases (ltb ef (suc (length cs)))) [
    | inl over ↦ rw over o.1
    | inr fits ↦ rw fits o
  ]

  length-trim :
      (ef n : ℕ) (cs : List (Candidate N))
      → length cs ≡ n + 1
      → length (trim ef cs) ≡ (if ltb ef (n + 1) then n else n + 1)
  length-trim ef n [] h = absurd (omega arith)
  length-trim ef n (c ∷ cs) h = ground arith

  trim-Has :
      (ef : ℕ) (a : Candidate N) (cs : List (Candidate N))
      → Descending cs
      → Has a cs
      → Has a (trim ef cs) ⊎ Full ef a (trim ef cs)
  trim-Has ef a [] o h = inl h
  trim-Has ef a (c ∷ cs) o h = elim (Bool-cases (ltb ef (suc (length cs)))) [
    | inl over ↦
        rw over (elim h [ inl e ↦ inr (ground arith, λ r m. rw e (o.0 r m)) | inr m ↦ inl m ])
    | inr fits ↦ rw fits (inl h)
  ]

  drop_over-eq-trim :
      (ef : ℕ) (cs : List (Candidate N)) → (if ltb ef (length cs) then pop cs else cs) ≡ trim ef cs
  unfolding pop
  drop_over-eq-trim ef [] = ground arith
  drop_over-eq-trim ef (c ∷ cs) = refl

  module _ (tie : N → N → Bool) (ef : ℕ) (c : Candidate N) (results : List (Candidate N)) where
    more : List (Candidate N)
    more = push_max tie c results

    admit-eq-trim : admit tie ef c results ≡ trim ef more
    unfolding admit more
    admit-eq-trim = drop_over-eq-trim ef (push_max tie c results)

    Has-more : (a : Candidate N) → Has a more → (a ≡ c) ⊎ Has a results
    unfolding more
    Has-more a = Has-push (λ a b. before tie b a) a c results

    more-Descending : Descending results → Descending more
    unfolding more
    more-Descending = push_max-Descending tie c results

    length-more : length more ≡ length results + 1
    unfolding more
    length-more = length-push (λ a b. before tie b a) c results

    pub Has-admit : (a : Candidate N) → Has a (admit tie ef c results) → (a ≡ c) ⊎ Has a results
    Has-admit a h = Has-more a (Has-trim ef a more (rw admit-eq-trim at h))

    pub admit-Descending : Descending results → Descending (admit tie ef c results)
    admit-Descending o = rw admit-eq-trim (trim-Ordered Further ef more (more-Descending o))

    pub admit-Ordered :
        (R : Candidate N → Candidate N → Type 0)
        → ((a b : Candidate N) → R a b → R b a)
        → Ordered R results
        → ((a : Candidate N) → Has a results → R a c)
        → Ordered R (admit tie ef c results)
    unfolding more
    admit-Ordered R turn o h = rw admit-eq-trim (
        trim-Ordered R ef more (push-Ordered_anywhere R (λ a b. before tie b a) turn c results o h))

    pub length-admit :
        length (admit tie ef c results)
        ≡ (if ltb ef (length results + 1) then length results else length results + 1)
    length-admit = rw admit-eq-trim (length-trim ef (length results) more length-more)

    admit-more :
        Descending results
        → (a : Candidate N) → Has a more
        → Has a (admit tie ef c results) ⊎ Full ef a (admit tie ef c results)
    admit-more o a h = rw admit-eq-trim (trim-Has ef a more (more-Descending o) h)

    -- A candidate that enters, and one that is in, is in afterwards, unless the results are full without it.
    pub admit-Has_new :
        Descending results → Has c (admit tie ef c results) ⊎ Full ef c (admit tie ef c results)
    unfolding more
    admit-Has_new o = admit-more o c (push-Has_new (λ a b. before tie b a) c results)

    pub admit-Has_old :
        Descending results
        → (a : Candidate N) → Has a results
        → Has a (admit tie ef c results) ⊎ Full ef a (admit tie ef c results)
    unfolding more
    admit-Has_old o a h = admit-more o a (push-Has_old (λ a b. before tie b a) a c results h)

-- What a candidate that is not further than the results leaves full stays full.
pub closer-Full :
    {N : Type 0} (ef : ℕ) (c a : Candidate N) (results : List (Candidate N))
    → closer_than_results c results ≡ true
    → Full ef a results
    → c.distance ≤ a.distance
unfolding closer_than_results
closer-Full ef c a [] h f = cc
closer-Full ef c a (r ∷ results) h f = ground (arith, f.1 r (inl refl))

pub not_closer-Full :
    {N : Type 0} (ef : ℕ) (c : Candidate N) (results : List (Candidate N))
    → 0 < ef
    → Descending results
    → (ltb (length results) ef || closer_than_results c results) ≡ false
    → Full ef c results
unfolding closer_than_results
not_closer-Full ef c [] z o h = absurd (ground arith)
not_closer-Full ef c (r ∷ results) z o h =
    let near : r.distance ≤ c.distance = ground arith in
    (ground arith, λ a m. elim m [ inl e ↦ rw e near | inr k ↦ omega (arith, o.0 a k) ])

pub admit-Full :
    {N : Type 0} (tie : N → N → Bool) (ef : ℕ) (c a : Candidate N) (results : List (Candidate N))
    → (ltb (length results) ef || closer_than_results c results) ≡ true
    → Full ef a results
    → Full ef a (admit tie ef c results)
admit-Full tie ef c a results h f =
    let near : c.distance ≤ a.distance = closer-Full ef c a results (ground arith) f in
    (
      ground (arith, length-admit tie ef c results),
      λ r m. elim (Has-admit tie ef c results r m) [ inl e ↦ rw e near | inr k ↦ f.1 r k ],
    )
