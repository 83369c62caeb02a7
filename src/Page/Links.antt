-- ===== src/Page/Links.antt =====
-- Doubly linked lists of pages, over the two links of each page as functions of its reference. The
-- free lists of a root page and its list of data pages are such lists, with another value for what
-- stands before the first page.
use mathlib.Core.Path.{subst}
use mathlib.Core.Bool.{true≢false, false≢true}
use vsql_vector.Base.{
  ℕ, ◌≡◌, ◌≢◌, refl, ap, sym, ◌∙◌, Bool, true, false, ◌||◌, List, [], ◌∷◌, ◌++◌, arith, ◌==◌,
  if◌then◌else◌, inl, inr, ◌⊎◌, ==_of_ne, ==_refl,
}
use vsql_vector.Page.Api.{invalid_ref}

abbrev pub contains : ℕ → List ℕ → Bool
contains a [] = false
contains a (x ∷ xs) = (a == x) || contains a xs

abbrev pub Distinct : List ℕ → Type 0
Distinct [] = Unit
Distinct (x ∷ xs) = (contains x xs ≡ false) × Distinct xs

-- One value of a function is replaced.
abbrev pub update : (ℕ → ℕ) → ℕ → ℕ → ℕ → ℕ
update f a v b = if a == b then v else f b

-- From `head` the links lead through the pages of the list, each of which links back to the one
-- before it, the first to `before`; the last links to no page.
abbrev pub Linked : (prev next : ℕ → ℕ) → (before head : ℕ) → List ℕ → Type 0
Linked prev next before head [] = head ≡ invalid_ref
Linked prev next before head (r ∷ rs) =
    (head ≡ r) × (r ≢ invalid_ref) × (prev r ≡ before) × Linked prev next r (next r) rs

-- A list survives what happens to the links of other pages.
pub Linked-same :
    (prev next prev' next' : ℕ → ℕ) (before head : ℕ) (xs : List ℕ)
    → ((a : ℕ) → contains a xs ≡ true → prev' a ≡ prev a)
    → ((a : ℕ) → contains a xs ≡ true → next' a ≡ next a)
    → Linked prev next before head xs
    → Linked prev' next' before head xs
Linked-same prev next prev' next' before head [] hp hn l = l
Linked-same prev next prev' next' before head (r ∷ rs) hp hn l =
    let tail =
      Linked-same prev next prev' next' r (next r) rs (λ a m. hp a (ground arith))
        (λ a m. hn a (ground arith)) l.3 in
    (
      l.0,
      l.1,
      hp r (ground arith) ∙ l.2,
      subst (λ h. Linked prev' next' r h rs) (sym (hn r (ground arith))) tail,
    )

pub contains-append :
    (a : ℕ) (xs ys : List ℕ) → contains a (xs ++ ys) ≡ (contains a xs || contains a ys)
contains-append a [] ys = refl
contains-append a (x ∷ xs) ys = ground (arith, contains-append a xs ys)

ne_of_contains : (a b : ℕ) (xs : List ℕ) → contains a xs ≡ true → contains b xs ≡ false → a ≢ b
ne_of_contains a b xs m n e = true≢false (sym m ∙ ap (λ c. contains c xs) e ∙ n)

-- `r` becomes the first page: it links to the old first page, and that one back to it.
pub Linked-push :
    (prev next : ℕ → ℕ) (before head r : ℕ) (xs : List ℕ)
    → r ≢ invalid_ref
    → contains r xs ≡ false
    → Distinct xs
    → Linked prev next before head xs
    → Linked
        (update (if head == invalid_ref then prev else update prev head r) r before)
        (update next r head)
        before
        r
        (r ∷ xs)
Linked-push prev next before head r [] ne fresh distinct l = (refl, ne, ground arith, ground arith)
Linked-push prev next before head r (y ∷ ys) ne fresh distinct l =
    let prev' = update (if head == invalid_ref then prev else update prev head r) r before in
    let next' = update next r head in
    let still : next' y ≡ next y = ground arith in
    let tail =
      Linked-same prev next prev' next' y (next y) ys (λ a m. others a m) (λ a m. ground arith)
        l.3 in
    (
      refl,
      ne,
      ground arith,
      (ground arith, l.1, ground arith, subst (λ h. Linked prev' next' y h ys) (sym still) tail),
    )
  where
    others :
        (a : ℕ)
        → contains a ys ≡ true
        → update (if head == invalid_ref then prev else update prev head r) r before a ≡ prev a
    others a m = ground (arith, ne_of_contains a r ys m, ne_of_contains a y ys m)

pub Distinct-mid :
    (xs ys : List ℕ) (r : ℕ)
    → Distinct (xs ++ r ∷ ys)
    → (contains r xs ≡ false) × (contains r ys ≡ false) × Distinct (xs ++ ys)
Distinct-mid [] ys r d = (refl, d.0, d.1)
Distinct-mid (x ∷ xs) ys r d =
    let (in_xs, in_ys, rest) = Distinct-mid xs ys r d.1 in
    (
      ground (arith, contains-append x xs (r ∷ ys)),
      in_ys,
      (ground (arith, contains-append x xs (r ∷ ys), contains-append x xs ys), rest),
    )

Distinct-apart :
    (a r : ℕ) (xs ys : List ℕ)
    → Distinct (xs ++ r ∷ ys)
    → contains a xs ≡ true
    → contains a ys ≡ false
Distinct-apart a r [] ys d m = absurd (false≢true m)
Distinct-apart a r (x ∷ xs) ys d m =
    ground (arith, contains-append x xs (r ∷ ys), Distinct-apart a r xs ys d.1)

-- The page before `r` in a list: the sentinel if `r` is the first, or another page of the list.
pub prev-mid :
    (prev next : ℕ → ℕ) (before head r : ℕ) (xs ys : List ℕ)
    → Linked prev next before head (xs ++ r ∷ ys)
    → (xs ≡ []) × (prev r ≡ before) × (head ≡ r) ⊎ (contains (prev r) xs ≡ true)
prev-mid prev next before head r [] ys l = inl (refl, l.2, l.0)
prev-mid prev next before head r (x ∷ xs) ys l = elim (prev-mid prev next x (next x) r xs ys l.3) [
  | inl first ↦ inr (ground (arith, first.1))
  | inr later ↦ inr (ground arith)
]

-- What `r` links to is no page, or the page behind it.
pub next-mid :
    (prev next : ℕ → ℕ) (before head r : ℕ) (xs ys : List ℕ)
    → Linked prev next before head (xs ++ r ∷ ys)
    → (ys ≡ []) × (next r ≡ invalid_ref) ⊎ (contains (next r) ys ≡ true) × (next r ≢ invalid_ref)
next-mid prev next before head r [] [] l = inl (refl, l.3)
next-mid prev next before head r [] (y ∷ ys) l =
    inr (ground (arith, l.3.0), λ e. l.3.1 (sym l.3.0 ∙ e))
next-mid prev next before head r (x ∷ xs) ys l = next-mid prev next x (next x) r xs ys l.3

-- The links after `r` has been taken out agree with those before it, but for the page before `r` and
-- the one behind it, which link to one another.
record Bridged (prev next prev' next' : ℕ → ℕ) (r : ℕ) (xs ys : List ℕ) : Type 0 where
  prev_front : (a : ℕ) → contains a xs ≡ true → prev' a ≡ prev a
  next_front : (a : ℕ) → contains a xs ≡ true → next' a ≡ (if prev r == a then next r else next a)
  next_back : (a : ℕ) → contains a ys ≡ true → next' a ≡ next a
  prev_back : (a : ℕ) → contains a ys ≡ true → prev' a ≡ (if next r == a then prev r else prev a)

prev-inner :
    (prev next : ℕ → ℕ) (before head r x : ℕ) (xs ys : List ℕ)
    → contains before (x ∷ xs) ≡ false
    → Linked prev next before head (x ∷ (xs ++ r ∷ ys))
    → (prev r == before) ≡ false
prev-inner prev next before head r x xs ys out l =
    elim (prev-mid prev next before head r (x ∷ xs) ys l) [
      | inl first ↦ cc (first.0)
      | inr m ↦ ==_of_ne (prev r) before (ne_of_contains (prev r) before (x ∷ xs) m out)
    ]

Linked-bridge :
    (prev next prev' next' : ℕ → ℕ) (before head r : ℕ) (xs ys : List ℕ)
    → Bridged prev next prev' next' r xs ys
    → contains before xs ≡ false
    → Distinct (xs ++ r ∷ ys)
    → Linked prev next before head (xs ++ r ∷ ys)
    → Linked prev' next' before (if prev r == before then next r else head) (xs ++ ys)
Linked-bridge prev next prev' next' before head r [] [] b out d l = rw (l.2, ==_refl before) l.3
Linked-bridge prev next prev' next' before head r [] (y ∷ ys) b out d l =
    let at_y : next r ≡ y = l.3.0 in
    let still : next' y ≡ next y = b.next_back y (ground arith) in
    let tail =
      Linked-same prev next prev' next' y (next y) ys
        (λ a m.
          b.prev_back a (ground arith)
          ∙ ap (λ c. if c then prev r else prev a)
              (==_of_ne (next r) a λ e. ne_of_contains a y ys m d.1.0 (sym e ∙ at_y)))
        (λ a m. b.next_back a (ground arith)) l.3.3 in
    rw (l.2, ==_refl before)
      (
        at_y,
        l.3.1,
        b.prev_back y (ground arith) ∙ ground arith,
        subst (λ h. Linked prev' next' y h ys) (sym still) tail,
      )
Linked-bridge prev next prev' next' before head r (x ∷ xs) ys b out d l =
    let later : Bridged prev next prev' next' r xs ys = record {
      prev_front = λ a m. b.prev_front a (ground arith);
      next_front = λ a m. b.next_front a (ground arith);
      next_back = b.next_back;
      prev_back = b.prev_back;
    } in
    let tail =
      Linked-bridge prev next prev' next' x (next x) r xs ys later
        (ground (arith, contains-append x xs (r ∷ ys))) d.1 l.3 in
    let inner : (prev r == before) ≡ false = prev-inner prev next before head r x xs ys out l in
    rw inner (
      l.0,
      l.1,
      b.prev_front x (ground arith) ∙ l.2,
      subst (λ h. Linked prev' next' x h (xs ++ ys)) (sym (b.next_front x (ground arith))) tail,
    )

-- `r` is taken out of a list: the page before it, or the head, and the page behind it are linked to
-- one another, and its own links are cleared.
pub Linked-unlink :
    (prev next : ℕ → ℕ) (before head r gone : ℕ) (xs ys : List ℕ)
    → contains before (xs ++ r ∷ ys) ≡ false
    → Distinct (xs ++ r ∷ ys)
    → Linked prev next before head (xs ++ r ∷ ys)
    → Linked
        (update (if next r == invalid_ref then prev else update prev (next r) (prev r)) r gone)
        (update (if prev r == before then next else update next (prev r) (next r)) r gone)
        before
        (if prev r == before then next r else head)
        (xs ++ ys)
Linked-unlink prev next before head r gone xs ys out d l =
    Linked-bridge prev next _ _ before head r xs ys bridged front d l
  where
    parts : (contains r xs ≡ false) × (contains r ys ≡ false) × Distinct (xs ++ ys)
    parts = Distinct-mid xs ys r d

    front : contains before xs ≡ false
    front = ground (arith, contains-append before xs (r ∷ ys))

    not_r : (a : ℕ) → contains a xs ≡ true → r ≢ a
    not_r a m e = ne_of_contains a r xs m parts.0 (sym e)

    not_r' : (a : ℕ) → contains a ys ≡ true → r ≢ a
    not_r' a m e = ne_of_contains a r ys m parts.1 (sym e)

    spare_prev :
        (a : ℕ)
        → contains a xs ≡ true
        → update (if next r == invalid_ref then prev else update prev (next r) (prev r)) r gone a
          ≡ prev a
    spare_prev a m = elim (next-mid prev next before head r xs ys l) [
      | inl last ↦ ground (arith, not_r a m, last.1)
      | inr inner ↦
          ground
            (arith, not_r a m, ne_of_contains (next r) a ys inner.0 (Distinct-apart a r xs ys d m))
    ]

    spare_next :
        (a : ℕ)
        → contains a ys ≡ true
        → update (if prev r == before then next else update next (prev r) (next r)) r gone a
          ≡ next a
    spare_next a m = elim (prev-mid prev next before head r xs ys l) [
      | inl first ↦ ground (arith, not_r' a m, first.1)
      | inr inner ↦ ground (
        arith,
        not_r' a m,
        ne_of_contains a (prev r) ys m (Distinct-apart (prev r) r xs ys d inner),
      )
    ]

    bridge_next :
        (a : ℕ)
        → contains a xs ≡ true
        → update (if prev r == before then next else update next (prev r) (next r)) r gone a
          ≡ (if prev r == a then next r else next a)
    bridge_next a m = ground (arith, not_r a m, ne_of_contains a before xs m front)

    bridge_prev :
        (a : ℕ)
        → contains a ys ≡ true
        → update (if next r == invalid_ref then prev else update prev (next r) (prev r)) r gone a
          ≡ (if next r == a then prev r else prev a)
    bridge_prev a m = elim (next-mid prev next before head r xs ys l) [
      | inl last ↦ absurd (true≢false (sym m ∙ ap (contains a) last.0))
      | inr inner ↦ ground (arith, not_r' a m, inner.1)
    ]

    bridged :
        Bridged prev next
          (update (if next r == invalid_ref then prev else update prev (next r) (prev r)) r gone)
          (update (if prev r == before then next else update next (prev r) (next r)) r gone)
          r
          xs
          ys
    bridged = record {
      prev_front = λ a m. spare_prev a m;
      next_front = λ a m. bridge_next a m;
      next_back = λ a m. spare_next a m;
      prev_back = λ a m. bridge_prev a m;
    }
