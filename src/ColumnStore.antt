-- ===== src/ColumnStore.antt =====
-- The column store: `src/storage/storage.h` and `storage.cc`. Its operations work on the store of
-- pages and return it as they leave it, also when they fail; an error is the place in the source
-- that reports it. What the storage engine and other threads do in the course of an insert is the
-- argument `Surroundings`.
pub mod Insert
pub mod Fetch
pub mod Optimistic
pub mod Mark
pub mod Chunks
pub mod Update
pub mod Purge
pub mod StorageRef
use vsql_vector.Base.{
  ℕ, zero, suc, ◌+◌, ◌-◌, ◌*◌, ◌/◌, ◌%◌, ◌^◌, Bool, true, false, not, ◌&&◌, ◌||◌, Option, none,
  some, List, [], ◌∷◌, ltb, leb, ◌==◌, if◌then◌else◌, length, take, drop, bit_and, bit_or,
}
use vsql_vector.Page.Api.{PageApi, invalid_ref}
use vsql_vector.Page.Store.{Store, modify}
use vsql_vector.DataPage.{
  DataPage, decode_column_ref, get_record_status, get_record_offset, get_root_page_ref,
  has_last_free_slot, needs_add_to_free_list, set_record_delete, set_record_undelete, trx_ref_size,
}
use vsql_vector.DataPage.{
  init as init_data, format as format_data, insert as insert_record, purge as purge_record,
}
use vsql_vector.RootPage.{
  RootPage, LastSlotInfo, page_select, grow_free_slots, add_data_page, add_free_page,
  remove_free_page, get_free_slot, update_header,
}
use vsql_vector.RootPage.{init as init_root}

abbrev pub format_version : ℕ
format_version = 1

-- The parts of `ColumnStore`, by the names of the source less `m_`, and `data_page` for `m_data`.
pub record ColumnStore : Type 0 where
  pub root : RootPage
  pub data_page : DataPage
  pub space_ref : ℕ
  pub root_page_ref : ℕ
  pub primary_root_page_ref : ℕ
  pub segment_index : ℕ
  pub metadata : List ℕ

-- The errors that the operations report, one for each message.
pub data StoreError : Type 0 where
  null_column_data : StoreError
  size_mismatch : StoreError
  load_root_page : StoreError
  load_data_page : StoreError
  load_primary_root_page : StoreError
  release_data_page : StoreError
  release_root_page : StoreError
  release_primary_root_page : StoreError
  allocate_data_page : StoreError
  register_data_page : StoreError
  remove_full_page : StoreError
  slot_is_free : StoreError
  bad_arguments : StoreError
  chunks_not_increasing : StoreError
  chunk_out_of_bounds : StoreError
  purge_failed : StoreError
  add_to_free_list : StoreError
  no_store_matches : StoreError
  metadata_size : StoreError

pub data Outcome (A : Type 0) : Type 0 where
  failed : StoreError → Outcome A
  done : A → Outcome A

-- `ColumnStore::init` on a store just made. `configured_max` is `RootPage::m_max_free_slots` of it.
unfoldable pub init :
    (page_size space_ref root_page_ref col_len num_segments num_root_pages : ℕ) (metadata : List ℕ)
    → (configured_max : ℕ) → ColumnStore
init page_size space_ref root_page_ref col_len num_segments num_root_pages metadata configured_max =
    record {
      root =
          init_root page_size col_len num_segments num_root_pages (length metadata % 2 ^ 8)
            configured_max;
      data_page = init_data page_size col_len;
      space_ref = space_ref;
      root_page_ref = root_page_ref;
      primary_root_page_ref = invalid_ref;
      segment_index = 0;
      metadata = metadata;
    }

-- `MultiColumnStore::encode_ref` and `decode_ref`.
unfoldable pub encode_ref : (space_ref page_ref : ℕ) → ℕ
encode_ref space_ref page_ref = bit_or space_ref (page_ref * 2 ^ 32 % 2 ^ 64)

unfoldable pub decode_ref : ℕ → ℕ × ℕ
decode_ref ref = (bit_and ref 0xffff_ffff, ref / 2 ^ 32)

-- What `fetch` returns: the delete mark, the transaction reference, and where on the page the column
-- data stands, and how long it is.
pub record Fetched : Type 0 where
  pub delete_marked : Bool
  pub trx_ref : ℕ
  pub data_offset : ℕ
  pub data_length : ℕ

-- The loop of `update` over the chunk indexes, before any of them is written. `prev` is the index
-- before, if there is one.
unfoldable pub check_chunks :
    (chunk_size length : ℕ) → (prev : Option ℕ) → List ℕ → Option StoreError
check_chunks chunk_size length prev [] = none
check_chunks chunk_size length prev (chunk_index ∷ chunk_ids) =
    let rest = check_chunks chunk_size length (some chunk_index) chunk_ids in
    if (elim prev [ none ↦ false | some before ↦ leb chunk_index before ])
    then some chunks_not_increasing
    else if ltb length (chunk_index * chunk_size + chunk_size)
    then some chunk_out_of_bounds
    else rest

-- What happens around an insert. `draws` are the two random slots that may be drawn; `others` is
-- what other threads do to the pages while the insert holds no latch on the root page.
pub record Surroundings ⦃api : PageApi⦄ : Type 0 where
  pub concurrency : ℕ
  pub first_draw : ℕ
  pub second_draw : ℕ
  pub releases : ℕ → Bool
  pub others : Store → Store
  pub allocate : (primary_root_page_ref segment_index : ℕ) → Option ℕ

module _ ⦃api : PageApi⦄ where
  open api use {Page, read_integer, write_integer, write_string}

  -- The run of consecutive chunks from `first` on, `count` of them so far, is written once the next
  -- index does not follow.
  unfoldable pub write_runs :
      Page → (col_offset : ℕ) → (col_data : List ℕ) → (chunk_size first count : ℕ) → List ℕ → Page
  write_runs p col_offset col_data chunk_size first count [] =
      let offset = first * chunk_size in
      write_string p (col_offset + offset) (take (count * chunk_size) (drop offset col_data))
  write_runs p col_offset col_data chunk_size first count (chunk ∷ chunk_ids) =
      let offset = first * chunk_size in
      let written =
        write_string p (col_offset + offset) (take (count * chunk_size) (drop offset col_data)) in
      let longer = write_runs p col_offset col_data chunk_size first (count + 1) chunk_ids in
      let next = write_runs written col_offset col_data chunk_size chunk 1 chunk_ids in
      if chunk == first + count then longer else next

  -- The write loop of `update`.
  unfoldable pub write_chunks :
      Page → (col_offset : ℕ) → (col_data : List ℕ) → (chunk_size : ℕ) → List ℕ → Page
  write_chunks p col_offset col_data chunk_size [] = p
  write_chunks p col_offset col_data chunk_size (first ∷ chunk_ids) =
      write_runs p col_offset col_data chunk_size first 1 chunk_ids

  -- The loop of `get_root_index` over the stores.
  unfoldable pub find_root : (root_page_ref index : ℕ) → List ColumnStore → Outcome ℕ
  find_root root_page_ref index [] = failed no_store_matches
  find_root root_page_ref index (store ∷ stores) =
      let rest = find_root root_page_ref (index + 1) stores in
      if store.root_page_ref == root_page_ref then done (index % 2 ^ 8) else rest

  unfoldable pub get_root_index : Store → (stores : List ColumnStore) → (col_ref : ℕ) → Outcome ℕ
  get_root_index st stores col_ref =
      let data_page_ref = (decode_column_ref col_ref).0 in
      if st.loads data_page_ref
      then find_root (get_root_page_ref (st.pages data_page_ref)) 0 stores
      else failed load_data_page

  module _ (c : ColumnStore) where
    unfoldable pub fetch : Store → (col_ref : ℕ) → Outcome Fetched
    fetch st col_ref =
        let (data_page_ref, slot_index) = decode_column_ref col_ref in
        let p = st.pages data_page_ref in
        let (delete_marked, is_free) = get_record_status p slot_index in
        let rec_offset = get_record_offset c.data_page slot_index in
        if not (st.loads data_page_ref)
        then failed load_data_page
        else if is_free
        then failed slot_is_free
        else done (record {
          delete_marked = delete_marked;
          trx_ref = read_integer 8 p rec_offset;
          data_offset = rec_offset + trx_ref_size;
          data_length = c.root.column_size;
        })

    -- `none` for `col_data` is a null pointer.
    unfoldable pub update :
        Store
        → (col_ref : ℕ) → (col_data : Option (List ℕ)) → (chunk_ids : List ℕ) → (chunk_size : ℕ)
        → Store × Outcome Unit
    update st col_ref col_data [] chunk_size = (st, done tt)
    update st col_ref none (chunk ∷ chunk_ids) chunk_size = (st, failed bad_arguments)
    update st col_ref (some col_data) (chunk ∷ chunk_ids) chunk_size =
        let (data_page_ref, slot_index) = decode_column_ref col_ref in
        let col_offset = get_record_offset c.data_page slot_index + trx_ref_size in
        if chunk_size == 0 || not (length col_data == c.root.column_size)
        then (st, failed bad_arguments)
        else elim (check_chunks chunk_size (length col_data) none (chunk ∷ chunk_ids)) [
          | some error ↦ (st, failed error)
          | none ↦
              if not (st.loads data_page_ref)
              then (st, failed load_data_page)
              else if (get_record_status (st.pages data_page_ref) slot_index).1
              then (st, failed slot_is_free)
              else (
                modify st data_page_ref
                    λ p. write_chunks p col_offset col_data chunk_size (chunk ∷ chunk_ids),
                done tt,
              )
        ]

    -- The record's mark is set or taken away, and its transaction reference becomes the caller's.
    unfoldable pub mark_record : Page → (slot_index trx_ref : ℕ) → (delete_mark : Bool) → Page
    mark_record p slot_index trx_ref delete_mark =
        let rec_offset = get_record_offset c.data_page slot_index in
        let marked =
          if delete_mark
          then set_record_delete p slot_index
          else set_record_undelete p slot_index in
        if read_integer 8 p rec_offset == trx_ref
        then marked
        else write_integer 8 marked rec_offset trx_ref

    unfoldable pub mark_delete :
        Store → (trx_ref col_ref : ℕ) → (delete_mark : Bool) → Store × Outcome Unit
    mark_delete st trx_ref col_ref delete_mark =
        let (data_page_ref, slot_index) = decode_column_ref col_ref in
        if st.loads data_page_ref
        then (modify st data_page_ref λ p. mark_record p slot_index trx_ref delete_mark, done tt)
        else (st, failed load_data_page)

    -- What `purge` does once the pages are latched. `pessimistic` says that the root page is, too.
    unfoldable pub purge_latched :
        Store
        → (data_page_ref slot_index trx_ref : ℕ) → (pessimistic : Bool) → (draw : ℕ)
        → Store × Outcome Unit
    purge_latched st data_page_ref slot_index trx_ref pessimistic draw =
        let (p, purged, error) =
          purge_record c.data_page (st.pages data_page_ref) slot_index trx_ref in
        let st1 = modify st data_page_ref λ _. p in
        let slot_number = get_free_slot c.root (st1.pages c.root_page_ref) draw in
        let (st2, not_added) = add_free_page c.root st1 c.root_page_ref data_page_ref slot_number in
        if error
        then (st1, failed purge_failed)
        else if not
            (pessimistic && purged && needs_add_to_free_list (st1.pages data_page_ref) false)
        then (st1, done tt)
        else (st2, if not_added then failed add_to_free_list else done tt)

    -- `draw` is the random slot of `get_free_slot`. While the latch on the data page is given up, other
    -- threads may change the pages.
    unfoldable pub purge : Store → Surroundings → (trx_ref col_ref : ℕ) → Store × Outcome Unit
    purge st around trx_ref col_ref =
        let (data_page_ref, slot_index) = decode_column_ref col_ref in
        let later = around.others st in
        if not (st.loads data_page_ref)
        then (st, failed load_data_page)
        else if not (needs_add_to_free_list (st.pages data_page_ref) true)
        then purge_latched st data_page_ref slot_index trx_ref false around.first_draw
        else if not (around.releases data_page_ref)
        then (st, failed release_data_page)
        else if not (later.loads c.root_page_ref)
        then (later, failed load_root_page)
        else if not (later.loads data_page_ref)
        then (later, failed load_data_page)
        else purge_latched later data_page_ref slot_index trx_ref true around.first_draw

    -- The store as it goes on has the new metadata.
    unfoldable pub update_metadata :
        Store → (metadata : List ℕ) → ColumnStore × Store × Outcome Unit
    update_metadata st metadata =
        let (p, error) = update_header c.root (st.pages c.root_page_ref) metadata in
        if not (st.loads c.root_page_ref)
        then (c, st, failed load_root_page)
        else if error
        then (c, st, failed metadata_size)
        else (record c { metadata = metadata }, modify st c.root_page_ref λ _. p, done tt)
