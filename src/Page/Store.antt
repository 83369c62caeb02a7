-- ===== src/Page/Store.antt =====
-- The pages of a space, by reference, and which of them `Page::load` can load. Two references that
-- are equal are one page, so a write through one is seen through the other.
use mathlib.Core.Path.{subst}
use native.Mathlib.Decide.{ℕ_discrete}
use vsql_vector.Base.{
  ℕ, ◌≡◌, ◌≢◌, ap, sym, ◌∙◌, inl, inr, Bool, ◌==◌, ==_of_ne, ==_refl, Bool-cases, if◌then◌else◌,
}
use vsql_vector.Page.Links.{update}
use vsql_vector.Page.Api.{PageApi}

module _ ⦃api : PageApi⦄ where
  open api use {Page}

  pub record Store : Type 0 where
    pub pages : ℕ → Page
    pub loads : ℕ → Bool

  -- One page is replaced by what a function makes of it.
  abbrev pub modify : Store → ℕ → (Page → Page) → Store
  modify st ref f = record st { pages = λ r. if ref == r then f (st.pages ref) else st.pages r }

  -- An integer of four bytes at an offset of each page.
  abbrev pub field : ℕ → Store → ℕ → ℕ
  field offset st a = api.read_integer 4 (st.pages a) offset

  pub pages-modify_ne :
      (st : Store) (ref a : ℕ) (f : Page → Page) → ref ≢ a → (modify st ref f).pages a ≡ st.pages a
  pages-modify_ne st ref a f ne = rw (==_of_ne ref a ne)

  pub pages-modify_self :
      (st : Store) (ref : ℕ) (f : Page → Page) → (modify st ref f).pages ref ≡ f (st.pages ref)
  pages-modify_self st ref f = rw (==_refl ref)

  -- A change that leaves the field alone, and one that sets it.
  pub field-modify_keep :
      (offset : ℕ) (st : Store) (ref a : ℕ) (f : Page → Page)
      → ((p : Page) → api.read_integer 4 (f p) offset ≡ api.read_integer 4 p offset)
      → field offset (modify st ref f) a ≡ field offset st a
  field-modify_keep offset st ref a f keep = elim (ℕ_discrete ref a) [
    | yes e ↦
        ap (λ p. api.read_integer 4 p offset)
          (subst (λ b. (modify st ref f).pages b ≡ f (st.pages b)) e (pages-modify_self st ref f))
        ∙ keep (st.pages a)
    | no ne ↦ ap (λ p. api.read_integer 4 p offset) (pages-modify_ne st ref a f ne)
  ]

  pub field-modify_set :
      (offset v : ℕ) (st : Store) (ref a : ℕ) (f : Page → Page)
      → ((p : Page) → api.read_integer 4 (f p) offset ≡ v)
      → field offset (modify st ref f) a ≡ update (field offset st) ref v a
  field-modify_set offset v st ref a f sets = elim (Bool-cases (ref == a)) [
    | inl e ↦
        ap (λ c. api.read_integer 4 (if c then f (st.pages ref) else st.pages a) offset) e
        ∙ sets (st.pages ref)
        ∙ sym (ap (λ c. if c then v else field offset st a) e)
    | inr ne ↦
        ap (λ c. api.read_integer 4 (if c then f (st.pages ref) else st.pages a) offset) ne
        ∙ sym (ap (λ c. if c then v else field offset st a) ne)
  ]

  -- A change that keeps what is read off a page keeps it on every page.
  pub reading-modify_keep {ℓ} :
      {A : Type ℓ} (g : Page → A) (st : Store) (ref a : ℕ) (f : Page → Page)
      → ((p : Page) → g (f p) ≡ g p)
      → g ((modify st ref f).pages a) ≡ g (st.pages a)
  reading-modify_keep g st ref a f keep = elim (ℕ_discrete ref a) [
    | yes e ↦
        ap g
          (subst (λ b. (modify st ref f).pages b ≡ f (st.pages b)) e (pages-modify_self st ref f))
        ∙ keep (st.pages a)
    | no ne ↦ ap g (pages-modify_ne st ref a f ne)
  ]
