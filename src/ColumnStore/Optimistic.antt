-- ===== src/ColumnStore/Optimistic.antt =====
-- The optimistic path of `ColumnStore::insert`, on which the root page is only read:
-- `src/storage/storage.cc`.
use vsql_vector.Base.{
  ℕ, ◌<◌, ◌≡◌, ◌≢◌, refl, ap, ◌∙◌, true, false, not, ◌&&◌, ◌||◌, some, List, arith, ltb, ◌==◌,
  ==_of_ne, if◌then◌else◌,
}
use vsql_vector.Page.Api.{PageApi, invalid_ref}
use vsql_vector.Page.Store.{Store}
use vsql_vector.DataPage.{has_last_free_slot, num_free_recs_off}
use vsql_vector.RootPage.{LastSlotInfo, page_select}
use vsql_vector.ColumnStore.{
  ColumnStore, Outcome, failed, done, Surroundings, load_data_page, release_data_page,
  release_root_page,
}
use vsql_vector.ColumnStore.Insert.{insert, choose_page, pessimistic_page}
use vsql_vector.ColumnStore.Fetch.{Ready, Stored, insert-fetch}

module _ ⦃api : PageApi⦄ (c : ColumnStore) (st : Store) (around : Surroundings)
    (info : LastSlotInfo) where
  open api use {Page, read_integer}

  choose_selected :
      (info1 : LastSlotInfo) (a cur : ℕ)
      → page_select c.root
          (st.pages c.root_page_ref)
          info
          c.space_ref
          c.root_page_ref
          around.first_draw
        ≡ (a, cur, info1)
      → a ≢ invalid_ref
      → (ltb cur around.concurrency && ltb cur c.root.max_free_slots) ≡ false
      → around.releases c.root_page_ref ≡ true
      → st.loads a ≡ true
      → 1 < read_integer 2 (st.pages a) num_free_recs_off
      → choose_page c st around info ≡ (st, info1, done a)
  unfolding choose_page has_last_free_slot
  choose_selected info1 a cur selected valid enough released loads two =
      ap with_selected selected
      ∙ rw
          (
            enough,
            ==_of_ne a invalid_ref valid,
            loads,
            ==_of_ne (read_integer 2 (st.pages a) num_free_recs_off) 1 (omega arith),
            released,
          )
          refl
    where
      with_selected : ℕ × ℕ × LastSlotInfo → Store × LastSlotInfo × Outcome ℕ
      with_selected (b, slots, info2) =
          let need_grow = ltb slots around.concurrency && ltb slots c.root.max_free_slots in
          let pessimistic = pessimistic_page c st around info2 need_grow in
          if need_grow || b == invalid_ref
          then pessimistic
          else if not (st.loads b)
          then (st, info2, failed load_data_page)
          else if has_last_free_slot (st.pages b)
          then (if around.releases b then pessimistic else (st, info2, failed release_data_page))
          else if around.releases c.root_page_ref
          then (st, info2, done b)
          else (st, info2, failed release_root_page)

  -- Where the slot that the thread uses has a page with at least two free records that is ready for the
  -- record, and the array of slots need not grow, `insert` succeeds and stores the record on that page, and
  -- changes nothing but that page.
  pub insert_optimistic :
      (info1 : LastSlotInfo) (a cur trx_ref : ℕ) (col_data : List ℕ)
      → page_select c.root
          (st.pages c.root_page_ref)
          info
          c.space_ref
          c.root_page_ref
          around.first_draw
        ≡ (a, cur, info1)
      → a ≢ invalid_ref
      → (ltb cur around.concurrency && ltb cur c.root.max_free_slots) ≡ false
      → st.loads c.root_page_ref ≡ true
      → around.releases c.root_page_ref ≡ true
      → 1 < read_integer 2 (st.pages a) num_free_recs_off
      → Ready c st a info1.next_free_rec_hint trx_ref col_data
      → Stored c st a trx_ref col_data (insert c st around info trx_ref (some col_data))
  insert_optimistic info1 a cur trx_ref col_data selected valid enough root released two r =
      insert-fetch c st st around info info1 a trx_ref col_data root
        (choose_selected info1 a cur selected valid enough released r.loads two) r
