-- ===== src/ColumnStore/Purge.antt =====
-- `ColumnStore::purge`: `src/storage/storage.cc`.
use mathlib.Core.Path.{ap₂}
use vsql_vector.Base.{
  ℕ, ◌+◌, ◌≤◌, ◌≡◌, ◌≢◌, refl, ap, ◌∙◌, Bool, true, false, not, ◌&&◌, Option, none, some, inl,
  arith, leb, ◌==◌, if◌then◌else◌,
}
use vsql_vector.Page.Api.{PageApi}
use vsql_vector.Page.Store.{Store, modify, pages-modify_self, pages-modify_ne, reading-modify_keep}
use vsql_vector.DataPage.{
  DataPage, decode_column_ref, free_bitmap_off, needs_add_to_free_list, set_free_links,
  set_free_slot_number,
}
use vsql_vector.DataPage.{purge as purge_record}
use vsql_vector.DataPage.View.{
  IsLayout, Record, view, view_of, content-write_integer, status-write_integer,
}
use vsql_vector.DataPage.Refine.{owned_by, purge_lem}
use vsql_vector.RootPage.{
  RootPage, add_free_page, get_free_slot, slot_head, slot_off, null_free_page_ref, add_one,
  total_free_pages_off,
}
use vsql_vector.ColumnStore.{
  ColumnStore, Outcome, failed, done, Surroundings, purge, purge_latched, purge_failed,
  add_to_free_list,
}

module _ ⦃api : PageApi⦄ (d : DataPage) (laid : IsLayout d) (t : ℕ) where
  open api use {Page, write_integer}

  -- The header of a data page is no part of its records.
  view-write_header :
      (w offset v : ℕ) (p : Page)
      → offset + w ≤ free_bitmap_off
      → view d (write_integer w p offset v) t ≡ view d p t
  unfolding view
  view-write_header w offset v p h =
      ap₂ view_of (status-write_integer p w offset v t (inl (omega arith)))
        (content-write_integer d p w offset v t laid.size (omega (arith, laid.first)))

  view-set_free_links :
      (prev next : Option ℕ) (p : Page) → view d (set_free_links p prev next) t ≡ view d p t
  unfolding set_free_links
  view-set_free_links none none p = refl
  view-set_free_links none (some n) p = view-write_header 4 _ n p (omega arith)
  view-set_free_links (some m) none p = view-write_header 4 _ m p (omega arith)
  view-set_free_links (some m) (some n) p =
      view-write_header 4 _ n _ (omega arith) ∙ view-write_header 4 _ m p (omega arith)

  view-set_free_slot_number : (n : ℕ) (p : Page) → view d (set_free_slot_number p n) t ≡ view d p t
  unfolding set_free_slot_number
  view-set_free_slot_number n p = view-write_header 2 _ n p (omega arith)

  -- Putting pages on a free list changes no record of a data page.
  view-add_free_page :
      (r : RootPage) (st : Store) (root_ref a slot_number : ℕ)
      → root_ref ≢ a
      → view d ((add_free_page r st root_ref a slot_number).0.pages a) t ≡ view d (st.pages a) t
  unfolding add_free_page
  view-add_free_page r st root_ref a slot_number ne =
      pick (not (head == null_free_page_ref) && not (st.loads head))
    where
      g : Page → Option Record
      g p = view d p t

      head : ℕ
      head = slot_head r (st.pages root_ref) slot_number

      st1 : Store
      st1 =
          if head == null_free_page_ref
          then st
          else modify st head (λ p. set_free_links p (some a) none)

      f2 : Page → Page
      f2 p = write_integer 4 p (slot_off r slot_number) a

      f3 : Page → Page
      f3 p = set_free_links p (some root_ref) (some head)

      f4 : Page → Page
      f4 p = set_free_slot_number p slot_number

      f5 : Page → Page
      f5 p = add_one p (total_free_pages_off r)

      first :
          (b : Bool)
          → g ((if b then st else modify st head (λ p. set_free_links p (some a) none)).pages a)
            ≡ g (st.pages a)
      first true = refl
      first false =
          reading-modify_keep g st head a (λ p. set_free_links p (some a) none)
            (view-set_free_links (some a) none)

      st2 : Store
      st2 = modify st1 root_ref f2

      st3 : Store
      st3 = modify st2 a f3

      st4 : Store
      st4 = modify st3 a f4

      all : g ((modify st4 root_ref f5).pages a) ≡ g (st.pages a)
      all =
          ap g (pages-modify_ne st4 root_ref a f5 ne)
          ∙ reading-modify_keep g st3 a a f4 (view-set_free_slot_number slot_number)
          ∙ reading-modify_keep g st2 a a f3 (view-set_free_links (some root_ref) (some head))
          ∙ ap g (pages-modify_ne st1 root_ref a f2 ne)
          ∙ first (head == null_free_page_ref)

      result : Bool → Store × Bool
      result b = if b then (st, true) else (modify st4 root_ref f5, false)

      pick : (b : Bool) → g ((result b).0.pages a) ≡ g (st.pages a)
      pick true = refl
      pick false = all

-- What a purge by a transaction does to the records of a page: the slot `s` becomes free if the page
-- has it and it holds a record of the transaction.
abbrev pub Purges :
    ⦃api : PageApi⦄ → DataPage → (s trx : ℕ) → (before after : PageApi.Page api) → Type 0
Purges d s trx before after =
    (t : ℕ)
    → view d after t ≡ (
        if not (leb d.max_num_recs s) && owned_by trx (view d before s) && (s == t)
        then none
        else view d before t)

module _ ⦃api : PageApi⦄ (c : ColumnStore) (laid : IsLayout c.data_page) where
  open api use {Page}

  purge_record-Purges :
      (p : Page) (s trx : ℕ) → Purges c.data_page s trx p (purge_record c.data_page p s trx).0
  purge_record-Purges p s trx t =
      let (refuses, frees, changes) = purge_lem c.data_page laid p s trx in
      changes t ∙ rw (frees, refuses) refl

  purge_latched-Purges :
      (st : Store) (a s trx : ℕ) (pessimistic : Bool) (draw : ℕ)
      → c.root_page_ref ≢ a
      → let (st', out) = purge_latched c st a s trx pessimistic draw in
        Purges c.data_page s trx (st.pages a) (st'.pages a)
        × (leb c.data_page.max_num_recs s ≡ true → out ≡ failed purge_failed)
  unfolding purge_latched
  purge_latched-Purges st a s trx pessimistic draw ne = (
    λ t.
        pick t (purge_record c.data_page p s trx).2 (
          not (
            pessimistic
            && (purge_record c.data_page p s trx).1
            && needs_add_to_free_list (st1.pages a) false))
        ∙ ap (λ q. view c.data_page q t) (pages-modify_self st a λ _. p')
        ∙ purge_record-Purges p s trx t,
    λ outside. rw ((purge_lem c.data_page laid p s trx).0 ∙ outside) refl,
  )
    where
      p : Page
      p = st.pages a

      p' : Page
      p' = (purge_record c.data_page p s trx).0

      st1 : Store
      st1 = modify st a λ _. p'

      slot_number : ℕ
      slot_number = get_free_slot c.root (st1.pages c.root_page_ref) draw

      added : Store × Bool
      added = add_free_page c.root st1 c.root_page_ref a slot_number

      result : Bool → Bool → Store × Outcome Unit
      result error stays =
          if error
          then (st1, failed purge_failed)
          else if stays
          then (st1, done tt)
          else (added.0, if added.1 then failed add_to_free_list else done tt)

      pick :
          (t : ℕ) (error stays : Bool)
          → view c.data_page ((result error stays).0.pages a) t ≡ view c.data_page (st1.pages a) t
      pick t true stays = refl
      pick t false true = refl
      pick t false false =
          view-add_free_page c.data_page laid t c.root st1 c.root_page_ref a slot_number ne

  purge_latched-done :
      (st : Store) (a s trx draw : ℕ)
      → leb c.data_page.max_num_recs s ≡ false
      → (purge_latched c st a s trx false draw).1 ≡ done tt
  unfolding purge_latched
  purge_latched-done st a s trx draw inside =
      rw ((purge_lem c.data_page laid (st.pages a) s trx).0 ∙ inside) refl

  -- `purge` frees the record in the slot that the column reference leads to if the transaction wrote it,
  -- and changes no other record of the page, also when it puts the page on a free list. It works on the
  -- page as it finds it, or, where the latch on the page is given up in between since the page may have
  -- to be put on a free list, as other threads leave it. On the first of these ways it cannot fail for a
  -- slot of the page.
  pub purge-Purges :
      (st : Store) (around : Surroundings) (trx col_ref : ℕ)
      → let (a, s) = decode_column_ref col_ref in
        let later = around.others st in
        let (st', out) = purge c st around trx col_ref in
        c.root_page_ref ≢ a
        → st.loads a ≡ true
        → (needs_add_to_free_list (st.pages a) true ≡ false
            → Purges c.data_page s trx (st.pages a) (st'.pages a)
              × (leb c.data_page.max_num_recs s ≡ false → out ≡ done tt))
          × (needs_add_to_free_list (st.pages a) true ≡ true
              → around.releases a ≡ true
              → later.loads c.root_page_ref ≡ true
              → later.loads a ≡ true
              → Purges c.data_page s trx (later.pages a) (st'.pages a))
  unfolding purge
  purge-Purges st around trx col_ref ne loads =
      let (a, s) = decode_column_ref col_ref in
      let later = around.others st in
      (
        λ plain.
            rw (loads, plain)
              (
                (purge_latched-Purges st a s trx false around.first_draw ne).0,
                λ inside. purge_latched-done st a s trx around.first_draw inside,
              ),
        λ listed released root again.
            rw (loads, listed, released, root, again)
              (purge_latched-Purges later a s trx true around.first_draw ne).0,
      )
