-- ===== src/RootPage/FreeList.antt =====
-- The lists of free pages of a root page, `src/storage/root_page.cc`.
use vsql_vector.Base.{ℕ, ◌≡◌, ◌≢◌, ap, false, List, ◌==◌, if◌then◌else◌}
use vsql_vector.Page.Api.{PageApi}
use vsql_vector.Page.Store.{Store, modify, field, pages-modify_ne}
use vsql_vector.Page.Links.{contains, Distinct, update, Linked}
use vsql_vector.DataPage.{prev_free_page_off, next_free_page_off}
use vsql_vector.RootPage.{RootPage, slot_head}

module _ ⦃api : PageApi⦄ where
  open api use {
    Page, read_integer, write_integer, read_integer-lt, read-write_self, read-write_apart,
  }

  -- The list of free pages of a slot of the root page: its pages are distinct and none is the root.
  pub record IsFreeList (r : RootPage) (st : Store) (root slot : ℕ) (xs : List ℕ) : Type 0 where
    pub linked :
        Linked
          (field prev_free_page_off st)
          (field next_free_page_off st)
          root
          (slot_head r (st.pages root) slot)
          xs
    pub distinct : Distinct xs
    pub no_root : contains root xs ≡ false

  -- Writing the links of a page, and writing to the root page, as changes of the two link fields.
  module _ (root : ℕ) where
    pub root_keeps :
        (offset : ℕ) (st : Store) (a : ℕ) (f : Page → Page)
        → root ≢ a
        → field offset (modify st root f) a ≡ field offset st a
    root_keeps offset st a f ne = ap (λ p. read_integer 4 p offset) (pages-modify_ne st root a f ne)

  pub update-ap : (f g : ℕ → ℕ) (ref v a : ℕ) → f a ≡ g a → update f ref v a ≡ update g ref v a
  update-ap f g ref v a e = ap (λ n. if ref == a then v else n) e
