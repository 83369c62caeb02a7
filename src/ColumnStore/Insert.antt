-- ===== src/ColumnStore/Insert.antt =====
-- `ColumnStore::insert`: `src/storage/storage.cc`. The latches that it takes and gives up are the
-- points at which it can fail, and at one of which other threads may change the pages.
use vsql_vector.Base.{
  ℕ, Bool, not, ◌&&◌, ◌||◌, Option, none, some, List, ltb, ◌==◌, if◌then◌else◌, length,
}
use vsql_vector.Page.Api.{PageApi, invalid_ref}
use vsql_vector.Page.Store.{Store, modify}
use vsql_vector.DataPage.{has_last_free_slot}
use vsql_vector.DataPage.{format as format_data, insert as insert_record}
use vsql_vector.RootPage.{
  LastSlotInfo, page_select, grow_free_slots, add_data_page, add_free_page, remove_free_page,
}
use vsql_vector.ColumnStore.{
  ColumnStore, Outcome, Surroundings, format_version, failed, done, null_column_data, size_mismatch,
  load_root_page, load_data_page, load_primary_root_page, release_data_page, release_root_page,
  release_primary_root_page, allocate_data_page, register_data_page, remove_full_page,
}

module _ ⦃api : PageApi⦄ (c : ColumnStore) where
  -- Step 7 of `insert`, on the page that has been chosen.
  unfoldable pub insert_into :
      Store
      → LastSlotInfo
      → (data_page_ref trx_ref : ℕ) → (col_data : List ℕ) → Store × LastSlotInfo × Outcome ℕ
  insert_into st info data_page_ref trx_ref col_data =
      let (p, col_ref, hint) =
        insert_record c.data_page (st.pages data_page_ref) data_page_ref trx_ref col_data
          info.next_free_rec_hint in
      (modify st data_page_ref λ _. p, record info { next_free_rec_hint = hint }, done col_ref)

  -- A data page that has just been allocated is put on the lists, on that of free pages only if it
  -- will have room after the insert.
  unfoldable pub register_page : Store → (data_page_ref slot_number : ℕ) → Store × Outcome ℕ
  register_page st data_page_ref slot_number =
      let st1 =
        modify st data_page_ref λ p. format_data c.data_page p format_version c.root_page_ref in
      let (st2, no_data_page) = add_data_page c.root st1 c.root_page_ref data_page_ref in
      let (st3, no_free_page) =
        add_free_page c.root st2 c.root_page_ref data_page_ref slot_number in
      if no_data_page
      then (st2, failed register_data_page)
      else if has_last_free_slot (st2.pages data_page_ref)
      then (st2, done data_page_ref)
      else (st3, if no_free_page then failed register_data_page else done data_page_ref)

  unfoldable pub new_page : Store → Surroundings → (slot_number : ℕ) → Store × Outcome ℕ
  new_page st around slot_number =
      let own_owning_root = not (c.primary_root_page_ref == c.root_page_ref) in
      if own_owning_root && not (st.loads c.primary_root_page_ref)
      then (st, failed load_primary_root_page)
      else elim (around.allocate c.primary_root_page_ref c.segment_index) [
        | none ↦ (st, failed allocate_data_page)
        | some data_page_ref ↦
            if own_owning_root && not (around.releases c.primary_root_page_ref)
            then (st, failed release_primary_root_page)
            else register_page st data_page_ref slot_number
      ]

  -- A page from a free list, which leaves the list if the insert fills it.
  unfoldable pub listed_page : Store → (data_page_ref : ℕ) → Store × Outcome ℕ
  listed_page st data_page_ref =
      let (st1, not_removed) = remove_free_page c.root st c.root_page_ref data_page_ref in
      if not (st.loads data_page_ref)
      then (st, failed load_data_page)
      else if not (has_last_free_slot (st.pages data_page_ref))
      then (st, done data_page_ref)
      else (st1, if not_removed then failed remove_full_page else done data_page_ref)

  -- Step 5 of `insert`: the root page is latched again, exclusively.
  unfoldable pub pessimistic_page :
      Store → Surroundings → LastSlotInfo → (need_grow : Bool) → Store × LastSlotInfo × Outcome ℕ
  pessimistic_page st around info need_grow =
      let later = around.others st in
      let st1 =
        if need_grow then modify later c.root_page_ref (grow_free_slots c.root) else later in
      let (data_page_ref, _, info1) =
        page_select c.root (st1.pages c.root_page_ref) info c.space_ref c.root_page_ref
          around.second_draw in
      let (st2, out) =
        if data_page_ref == invalid_ref
        then new_page st1 around info1.slot_number
        else listed_page st1 data_page_ref in
      if not (around.releases c.root_page_ref)
      then (st, info, failed release_root_page)
      else if not (later.loads c.root_page_ref)
      then (later, info, failed load_root_page)
      else (st2, info1, out)

  -- Steps 3 to 6 of `insert`: the choice of a data page.
  unfoldable pub choose_page :
      Store → Surroundings → LastSlotInfo → Store × LastSlotInfo × Outcome ℕ
  choose_page st around info =
      let (data_page_ref, cur_free_slots, info1) =
        page_select c.root (st.pages c.root_page_ref) info c.space_ref c.root_page_ref
          around.first_draw in
      let need_grow =
        ltb cur_free_slots around.concurrency && ltb cur_free_slots c.root.max_free_slots in
      let pessimistic = pessimistic_page st around info1 need_grow in
      if need_grow || data_page_ref == invalid_ref
      then pessimistic
      else if not (st.loads data_page_ref)
      then (st, info1, failed load_data_page)
      else if has_last_free_slot (st.pages data_page_ref)
      then (if around.releases data_page_ref
          then pessimistic
          else (st, info1, failed release_data_page))
      else if around.releases c.root_page_ref
      then (st, info1, done data_page_ref)
      else (st, info1, failed release_root_page)

  -- `none` for `col_data` is a null pointer.
  unfoldable pub insert :
      Store
      → Surroundings
      → LastSlotInfo
      → (trx_ref : ℕ) → (col_data : Option (List ℕ)) → Store × LastSlotInfo × Outcome ℕ
  insert st around info trx_ref none = (st, info, failed null_column_data)
  insert st around info trx_ref (some col_data) =
      let (st1, info1, chosen) = choose_page st around info in
      if not (length col_data == c.root.column_size)
      then (st, info, failed size_mismatch)
      else if not (st.loads c.root_page_ref)
      then (st, info, failed load_root_page)
      else elim chosen [
        | failed error ↦ (st1, info1, failed error)
        | done data_page_ref ↦ insert_into st1 info1 data_page_ref trx_ref col_data
      ]
