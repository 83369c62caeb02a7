-- ===== src/Base/Options.antt =====
-- Chains of steps that can fail, and membership in a list.
use mathlib.Core.Path.{◌≡◌, refl}
use mathlib.Core.Logic.{◌⊎◌, inl, inr}
use mathlib.Core.List.{List, [], ◌∷◌, ◌++◌, reverse, reverse-cons}
use mathlib.Core.Option.{Option, none, some}

infixl 5 ◌>>=◌
abbrev pub ◌>>=◌ {ℓ κ} : {A : Type ℓ} {B : Type κ} → Option A → (A → Option B) → Option B
none >>= f = none
some a >>= f = f a

pub >>=-eq-some {ℓ κ} :
    {A : Type ℓ} {B : Type κ} (m : Option A) (f : A → Option B) {b : B}
    → (m >>= f) ≡ some b
    → (a : A) × (m ≡ some a) × (f a ≡ some b)
>>=-eq-some none f h = cc
>>=-eq-some (some a) f h = (a, refl, h)

-- The elements of a list.
abbrev pub Has : {A : Type 0} → A → List A → Type 0
Has a [] = ⊥
Has a (x ∷ xs) = (a ≡ x) ⊎ Has a xs

pub Has-append_left : {A : Type 0} (a : A) (xs ys : List A) → Has a xs → Has a (xs ++ ys)
Has-append_left a [] ys h = elim h [ ]
Has-append_left a (x ∷ xs) ys h = elim h [ inl e ↦ inl e | inr m ↦ inr (Has-append_left a xs ys m) ]

pub Has-append_right : {A : Type 0} (a : A) (xs ys : List A) → Has a ys → Has a (xs ++ ys)
Has-append_right a [] ys h = h
Has-append_right a (x ∷ xs) ys h = inr (Has-append_right a xs ys h)

pub Has-append : {A : Type 0} (a : A) (xs ys : List A) → Has a (xs ++ ys) → Has a xs ⊎ Has a ys
Has-append a [] ys h = inr h
Has-append a (x ∷ xs) ys h = elim h [
  | inl e ↦ inl (inl e)
  | inr m ↦ elim (Has-append a xs ys m) [ inl k ↦ inl (inr k) | inr k ↦ inr k ]
]

pub Has-reverse : {A : Type 0} (a : A) (xs : List A) → Has a (reverse xs) → Has a xs
Has-reverse a [] h = h
Has-reverse a (x ∷ xs) h =
    let h' : Has a (reverse xs ++ x ∷ []) = rw reverse-cons at h in
    elim (Has-append a (reverse xs) (x ∷ []) h') [
      | inl m ↦ inr (Has-reverse a xs m)
      | inr m ↦ elim m [ inl e ↦ inl e | inr k ↦ elim k [ ] ]
    ]

pub reverse-Has : {A : Type 0} (a : A) (xs : List A) → Has a xs → Has a (reverse xs)
reverse-Has a [] h = h
reverse-Has a (x ∷ xs) h = rw reverse-cons (elim h [
  | inl e ↦ Has-append_right a (reverse xs) (x ∷ []) (inl e)
  | inr m ↦ Has-append_left a (reverse xs) (x ∷ []) (reverse-Has a xs m)
])

pub List-cases : {A : Type 0} (l : List A) → (l ≡ []) ⊎ ((x : A) × (xs : List A) × (l ≡ x ∷ xs))
List-cases [] = inl refl
List-cases (x ∷ xs) = inr (x, xs, refl)
