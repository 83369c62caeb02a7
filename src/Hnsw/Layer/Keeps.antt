-- ===== src/Hnsw/Layer/Keeps.antt =====
-- What the loops of a layer search keep (`src/index/hnsw/layer_ops_impl.h`, `seed_impl` and `expand`),
-- for the candidates `seen`, whose distances were evaluated.
use vsql_vector.Base.{
  ℕ, ◌≤◌, ◌<◌, ◌≡◌, refl, inl, inr, ◌⊎◌, Bool, true, false, ◌||◌, Option, some, List, [], ◌∷◌,
  arith, ltb, length, Has, Bool-cases, >>=-eq-some, ◌∙◌, sym, ◌≢◌,
}
use mathlib.Core.Path.{subst}
use vsql_vector.Hnsw.Graph.{GraphApi}
use vsql_vector.Hnsw.Queue.{
  Candidate, push_min, push_min-Ascending, Ascending, Descending, Has-push, push-Has_old,
  push-Has_new, before, admit, closer_than_results, Ordered,
}
use vsql_vector.Hnsw.Layer.{Layer, offer, offer_all}
use vsql_vector.Hnsw.Layer.Offer.{
  Full, Has-admit, admit-Descending, admit-Ordered, length-admit, admit-Has_new, admit-Has_old,
  admit-Full, not_closer-Full,
}

abbrev pub seen_after : {A : Type 0} → List A → List A → List A
seen_after seen [] = seen
seen_after seen (c ∷ cs) = seen_after (c ∷ seen) cs

pub seen_after-Has_old :
    {A : Type 0} (a : A) (seen cs : List A) → Has a seen → Has a (seen_after seen cs)
seen_after-Has_old a seen [] h = h
seen_after-Has_old a seen (c ∷ cs) h = seen_after-Has_old a (c ∷ seen) cs (inr h)

pub seen_after-Has_new :
    {A : Type 0} (a : A) (seen cs : List A) → Has a cs → Has a (seen_after seen cs)
seen_after-Has_new a seen [] h = elim h [ ]
seen_after-Has_new a seen (c ∷ cs) h = elim h [
  | inl e ↦ seen_after-Has_old a (c ∷ seen) cs (inl e)
  | inr m ↦ seen_after-Has_new a (c ∷ seen) cs m
]

pub Has-seen_after :
    {A : Type 0} (a : A) (seen cs : List A) → Has a (seen_after seen cs) → Has a cs ⊎ Has a seen
Has-seen_after a seen [] h = inr h
Has-seen_after a seen (c ∷ cs) h = elim (Has-seen_after a (c ∷ seen) cs h) [
  | inl m ↦ inl (inr m)
  | inr k ↦ elim k [ inl e ↦ inl (inl e) | inr m ↦ inr m ]
]

-- The neighbours of the node are visited.
abbrev pub Settled : {g : GraphApi} → Layer g → Candidate g.Node → Type 0
Settled {g} s r =
    (ns : List g.Node)
    → g.neighbours s.level r.node ≡ some ns
    → (n : g.Node) → Has n ns
    → Has (g.key n) s.visited

-- Two candidates of different nodes.
abbrev pub Apart : (g : GraphApi) → Candidate g.Node → Candidate g.Node → Type 0
Apart g a b = g.key a.node ≢ g.key b.node

-- A candidate of none of the nodes.
abbrev pub IsFresh : (g : GraphApi) → List (Candidate g.Node) → Candidate g.Node → Type 0
IsFresh g seen c = (a : Candidate g.Node) → Has a seen → Apart g a c

-- What the offers leave as it is.
abbrev pub SameQuery : {g : GraphApi} → Layer g → Layer g → Type 0
SameQuery s s' = (s'.query ≡ s.query) × (s'.level ≡ s.level) × (s'.visited ≡ s.visited)

pub IsFresh-cons :
    (g : GraphApi) (c : Candidate g.Node) (cs seen : List (Candidate g.Node))
    → ((d : Candidate g.Node) → Has d (c ∷ cs) → IsFresh g seen d)
    → Ordered (Apart g) (c ∷ cs)
    → (d : Candidate g.Node) → Has d cs
    → IsFresh g (c ∷ seen) d
IsFresh-cons g c cs seen fresh apart d i a h = elim h [
  | inl e ↦ rw e (apart.0 d i)
  | inr m ↦ fresh d (inr i) a m
]

module _ (g : GraphApi) (tie : g.Node → g.Node → Bool) (is_visible : g.Node → Option Bool)
    (ef : ℕ) where
  open g use {Node, key}

  pub record IsLayer (limit : ℕ) (s : Layer g) (seen : List (Candidate Node)) : Type 0 where
    pub nearest_first : Ascending s.candidates
    pub furthest_first : Descending s.results
    pub distinct : Ordered (Apart g) s.results
    pub size : length s.results ≤ limit
    pub candidates_seen : (c : Candidate Node) → Has c s.candidates → Has c seen
    pub results_seen : (c : Candidate Node) → Has c s.results → Has c seen
    pub results_visible : (c : Candidate Node) → Has c s.results → is_visible c.node ≡ some true
    pub results_settled : (c : Candidate Node) → Has c s.results → Has c s.candidates ⊎ Settled s c
    pub best :
        (c : Candidate Node)
        → Has c seen
        → is_visible c.node ≡ some true
        → Has c s.results ⊎ Full ef c s.results

  returned :
      (limit : ℕ) (seen : List (Candidate Node)) (s t s' : Layer g)
      → some t ≡ some s'
      → IsLayer limit t seen
      → SameQuery s t
      → IsLayer limit s' seen × SameQuery s s'
  returned limit seen s t s' e v same =
      subst (λ u. IsLayer limit u seen × SameQuery s u) (cc) (v, same)

  module _ (limit : ℕ) (c : Candidate Node) (s : Layer g) (seen : List (Candidate Node))
      (v : IsLayer limit s seen) where
    -- The candidate is queued, and does not count.
    pub queue-IsLayer :
        is_visible c.node ≡ some false
        → IsLayer limit (record s { candidates = push_min tie c s.candidates }) (c ∷ seen)
    queue-IsLayer hidden = record {
      nearest_first = push_min-Ascending tie c s.candidates v.nearest_first;
      furthest_first = v.furthest_first;
      distinct = v.distinct;
      size = v.size;
      candidates_seen = λ a h. elim (Has-push (before tie) a c s.candidates h) [
        | inl e ↦ inl e
        | inr m ↦ inr (v.candidates_seen a m)
      ];
      results_seen = λ a h. inr (v.results_seen a h);
      results_visible = v.results_visible;
      results_settled = λ a h. elim (v.results_settled a h) [
        | inl m ↦ inl (push-Has_old (before tie) a c s.candidates m)
        | inr k ↦ inr k
      ];
      best = λ a h visible. elim h [ inl e ↦ absurd (cc) | inr m ↦ v.best a m visible ];
    }

    -- The candidate is queued, and enters the results.
    pub admit-IsLayer :
        (ltb (length s.results) ef || closer_than_results c s.results) ≡ true
        → ef ≤ limit
        → IsFresh g seen c
        → is_visible c.node ≡ some true
        → IsLayer limit
            (record s {
              candidates = push_min tie c s.candidates;
              results = admit tie ef c s.results;
            })
            (c ∷ seen)
    admit-IsLayer room fits fresh shown = record {
      nearest_first = push_min-Ascending tie c s.candidates v.nearest_first;
      furthest_first = admit-Descending tie ef c s.results v.furthest_first;
      distinct =
          admit-Ordered tie ef c s.results (Apart g) (λ a b ne e. ne (sym e)) v.distinct
            (λ a m. fresh a (v.results_seen a m));
      size = (let l = length-admit tie ef c s.results in let z = v.size in ground arith);
      candidates_seen = λ a h. elim (Has-push (before tie) a c s.candidates h) [
        | inl e ↦ inl e
        | inr m ↦ inr (v.candidates_seen a m)
      ];
      results_seen = λ a h. elim (Has-admit tie ef c s.results a h) [
        | inl e ↦ inl e
        | inr m ↦ inr (v.results_seen a m)
      ];
      results_visible = λ a h. elim (Has-admit tie ef c s.results a h) [
        | inl e ↦ rw e shown
        | inr m ↦ v.results_visible a m
      ];
      results_settled = λ a h. elim (Has-admit tie ef c s.results a h) [
        | inl e ↦ inl (rw e (push-Has_new (before tie) c s.candidates))
        | inr m ↦ elim (v.results_settled a m) [
          | inl m ↦ inl (push-Has_old (before tie) a c s.candidates m)
          | inr k ↦ inr k
        ]
      ];
      best = λ a h visible. elim h [
        | inl e ↦ rw e (admit-Has_new tie ef c s.results v.furthest_first)
        | inr m ↦ elim (v.best a m visible) [
          | inl k ↦ admit-Has_old tie ef c s.results v.furthest_first a k
          | inr f ↦ inr (admit-Full tie ef c a s.results room f)
        ]
      ];
    }

    -- The candidate is left out.
    skip-IsLayer :
        0 < ef
        → (ltb (length s.results) ef || closer_than_results c s.results) ≡ false
        → IsLayer limit s (c ∷ seen)
    skip-IsLayer pos full = record {
      nearest_first = v.nearest_first;
      furthest_first = v.furthest_first;
      distinct = v.distinct;
      size = v.size;
      candidates_seen = λ a h. inr (v.candidates_seen a h);
      results_seen = λ a h. inr (v.results_seen a h);
      results_visible = v.results_visible;
      results_settled = v.results_settled;
      best = λ a h visible. elim h [
        | inl e ↦ inr (rw e (not_closer-Full ef c s.results pos v.furthest_first full))
        | inr m ↦ v.best a m visible
      ];
    }

    offer-IsLayer :
        0 < ef
        → ef ≤ limit
        → IsFresh g seen c
        → (s' : Layer g) → offer g tie is_visible ef s c ≡ some s'
        → IsLayer limit s' (c ∷ seen) × SameQuery s s'
    unfolding offer
    offer-IsLayer pos fits fresh s' h =
        elim (Bool-cases (ltb (length s.results) ef || closer_than_results c s.results)) [
          | inl room ↦
              let (visible, asked, e) = >>=-eq-some (is_visible c.node) _ (rw room at h) in
              elim (Bool-cases visible) [
                | inl shown ↦
                    returned limit (c ∷ seen) s _ s' (rw shown at e)
                      (admit-IsLayer room fits fresh (rw shown at asked)) (refl, refl, refl)
                | inr hidden ↦
                    returned limit (c ∷ seen) s _ s' (rw hidden at e)
                      (queue-IsLayer (rw hidden at asked)) (refl, refl, refl)
              ]
          | inr full ↦
              returned limit (c ∷ seen) s s s' (rw full at h) (skip-IsLayer pos full)
                (refl, refl, refl)
        ]

  pub offer_all-IsLayer :
      (limit : ℕ) (cs : List (Candidate Node)) (s : Layer g) (seen : List (Candidate Node))
      → IsLayer limit s seen
      → 0 < ef
      → ef ≤ limit
      → ((c : Candidate Node) → Has c cs → IsFresh g seen c)
      → Ordered (Apart g) cs
      → (s' : Layer g) → offer_all g tie is_visible ef s cs ≡ some s'
      → IsLayer limit s' (seen_after seen cs) × SameQuery s s'
  unfolding offer_all
  offer_all-IsLayer limit [] s seen v pos fits fresh apart s' h =
      returned limit seen s s s' h v (refl, refl, refl)
  offer_all-IsLayer limit (c ∷ cs) s seen v pos fits fresh apart s' h =
      let (t, one, more) = >>=-eq-some (offer g tie is_visible ef s c) _ h in
      let (v', same) = offer-IsLayer limit c s seen v pos fits (fresh c (inl refl)) t one in
      let (v'', same') =
        offer_all-IsLayer limit cs t (c ∷ seen) v' pos fits (IsFresh-cons g c cs seen fresh apart)
          apart.1 s' more in
      (v'', (same'.0 ∙ same.0, same'.1 ∙ same.1, same'.2 ∙ same.2))
