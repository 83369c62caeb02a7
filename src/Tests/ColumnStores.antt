-- ===== src/Tests/ColumnStores.antt =====
-- The column store on a concrete space of pages, and its theorems there.
use vsql_vector.Base.{
  ℕ, ◌<◌, ◌≡◌, ◌≢◌, refl, true, false, not, some, [], ◌∷◌, arith, leb, ◌==◌, if◌then◌else◌,
  bit_test, set_bit, clear_bit,
}
use vsql_vector.Page.Bytes.{bytes_api, zero_page, put, read_bytes, write_bytes, write_list}
use vsql_vector.Page.Store.{Store}
use vsql_vector.DataPage.{
  DataPage, decode_column_ref, get_record_status, has_last_free_slot, needs_add_to_free_list,
  set_free_links, set_free_slot_number, insert_at, write_record, set_record_allocated,
}
use vsql_vector.DataPage.{format as format_data, format_header}
use vsql_vector.DataPage.View.{IsLayout, view}
use vsql_vector.DataPage.Count.{IsConsistent, count}
use vsql_vector.RootPage.{
  RootPage, LastSlotInfo, initial_slot_info, format, clear_refs, add_free_page, page_select,
  get_random_slot, get_cached_slot_number,
}
use vsql_vector.ColumnStore.{
  ColumnStore, failed, done, Surroundings, fetch, update, mark_delete, purge, encode_ref,
  decode_ref, load_data_page, chunks_not_increasing, check_chunks,
}
use vsql_vector.ColumnStore.Insert.{insert, choose_page}
use vsql_vector.ColumnStore.Fetch.{fetched_record, fetch_lem, Stored, Ready, insert-fetch}
use vsql_vector.ColumnStore.Optimistic.{insert_optimistic}
use vsql_vector.ColumnStore.Mark.{re_marked, mark_delete_lem}
use vsql_vector.ColumnStore.Update.{Valid, Updated, update_lem, update-nothing}
use vsql_vector.ColumnStore.Purge.{Purges, purge-Purges}
use vsql_vector.ColumnStore.StorageRef.{decode_ref-encode_ref}

abbrev root : RootPage
root = record {
  num_segments = 1;
  num_other_root_pages = 0;
  storage_metadata_len = 2;
  max_free_slots = 8;
  column_size = 4;
}

abbrev four : DataPage
four = record { rec_size = 12; free_bitmap_size = 1; max_num_recs = 4; first_rec_offset = 59 }

four-IsLayout : IsLayout four
four-IsLayout = omega arith

-- The root page is page 3.
abbrev store : ColumnStore
store = record {
  root = root;
  data_page = four;
  space_ref = 1;
  root_page_ref = 3;
  primary_root_page_ref = 3;
  segment_index = 0;
  metadata = 83 ∷ 86 ∷ [];
}

-- One other thread at most, and pages from 20 on to be had.
abbrev quiet : Surroundings
quiet = record {
  concurrency = 1;
  first_draw = 0;
  second_draw = 0;
  releases = λ r. true;
  others = λ st. st;
  allocate = λ primary segment. some 20;
}

-- Page 5 is a data page with one record, on the list of slot 0.
abbrev space : Store
unfolding format format_data format_header clear_refs put write_bytes write_list read_bytes
    add_free_page set_free_links set_free_slot_number insert_at write_record set_record_allocated
    set_bit clear_bit
space =
    (add_free_page root
      (record {
        pages = λ r.
            if r == 3
            then (format root (bytes_api.write_integer 1 zero_page 38 1) 1 (83 ∷ 86 ∷ [])).1
            else if r == 5
            then (insert_at four (format_data four zero_page 1 3) 0 77 (1 ∷ 2 ∷ 3 ∷ 4 ∷ [])).0
            else zero_page;
        loads = λ r. not (r == 9);
      })
      3 5 0).0

page-IsConsistent : IsConsistent four (space.pages 5)
unfolding space get_record_status bit_test read_bytes count
page-IsConsistent = record { capacity = refl; counted = refl }

fetch_lem_example :
    (space.loads 5 ≡ false → fetch store space 5 ≡ failed load_data_page)
    × (space.loads 5 ≡ true
        → fetched_record store (space.pages 5) (fetch store space 5) ≡ view four (space.pages 5) 0)
unfolding decode_column_ref
fetch_lem_example = fetch_lem store space 5 refl

switched : LastSlotInfo
switched = record { space_ref = 1; page_ref = 3; slot_number = 0; next_free_rec_hint = 0 }

page_5_chosen : choose_page store space quiet initial_slot_info ≡ (space, switched, done 5)
unfolding space choose_page page_select get_cached_slot_number get_random_slot has_last_free_slot
    read_bytes switched
page_5_chosen = refl

page_5-Ready : Ready store space 5 0 88 (5 ∷ 6 ∷ 7 ∷ 8 ∷ [])
unfolding space read_bytes
page_5-Ready = record {
  layout = four-IsLayout;
  four = refl;
  size = refl;
  page_ref = omega arith;
  loads = refl;
  consistent = page-IsConsistent;
  some_free = omega arith;
  hint_within = omega arith;
  trx = omega arith;
  long = refl;
}

insert-fetch_example :
    Stored store space 5 88
      (5 ∷ 6 ∷ 7 ∷ 8 ∷ [])
      (insert store space quiet initial_slot_info 88 (some (5 ∷ 6 ∷ 7 ∷ 8 ∷ [])))
unfolding switched space
insert-fetch_example =
    insert-fetch store space space quiet initial_slot_info switched 5 88 (5 ∷ 6 ∷ 7 ∷ 8 ∷ []) refl
      page_5_chosen page_5-Ready

page_5_selected : page_select root (space.pages 3) initial_slot_info 1 3 0 ≡ (5, 1, switched)
unfolding space page_select get_cached_slot_number get_random_slot read_bytes switched
page_5_selected = refl

insert_optimistic_example :
    Stored store space 5 88
      (5 ∷ 6 ∷ 7 ∷ 8 ∷ [])
      (insert store space quiet initial_slot_info 88 (some (5 ∷ 6 ∷ 7 ∷ 8 ∷ [])))
unfolding switched space read_bytes
insert_optimistic_example =
    insert_optimistic store space quiet initial_slot_info switched 5 1 88 (5 ∷ 6 ∷ 7 ∷ 8 ∷ [])
      page_5_selected (omega arith) refl refl refl (omega arith) page_5-Ready

mark_delete_lem_example :
    let (st', out) = mark_delete store space 90 5 true in
    (space.loads 5 ≡ false → (st' ≡ space) × (out ≡ failed load_data_page))
    × (space.loads 5 ≡ true
        → (out ≡ done tt)
          × ((t : ℕ)
              → t < 4
              → view four (st'.pages 5) t ≡ (
                  if 0 == t
                  then re_marked true 90 (view four (space.pages 5) t)
                  else view four (space.pages 5) t))
          × ((b : ℕ) → 5 ≢ b → st'.pages b ≡ space.pages b))
unfolding decode_column_ref
mark_delete_lem_example =
    mark_delete_lem store four-IsLayout space 90 5 true (omega arith) (omega arith)

-- Two chunks of one byte, which do not stand next to one another.
chunks-Valid : Valid store (9 ∷ 9 ∷ 9 ∷ 9 ∷ []) 1 (0 ∷ 2 ∷ [])
chunks-Valid = record {
  positive = omega arith;
  long = refl;
  within = (omega arith, (omega arith, tt));
  increasing = (omega arith, tt);
}

update_lem_example :
    Updated store space 5
      (9 ∷ 9 ∷ 9 ∷ 9 ∷ [])
      (0 ∷ 2 ∷ [])
      1
      (update store space 5 (some (9 ∷ 9 ∷ 9 ∷ 9 ∷ [])) (0 ∷ 2 ∷ []) 1)
unfolding space decode_column_ref get_record_status bit_test read_bytes
update_lem_example =
    update_lem store space 5 (9 ∷ 9 ∷ 9 ∷ 9 ∷ []) (0 ∷ 2 ∷ []) 1 four-IsLayout refl chunks-Valid
      refl refl (omega arith)

update-nothing_example : (update store space 5 (some (9 ∷ 9 ∷ 9 ∷ 9 ∷ [])) (2 ∷ 2 ∷ []) 1).0 ≡ space
unfolding update check_chunks
update-nothing_example =
    update-nothing store space 5 (some (9 ∷ 9 ∷ 9 ∷ 9 ∷ [])) (2 ∷ 2 ∷ []) 1 chunks_not_increasing
      refl

purge-Purges_example :
    let (st', out) = purge store space quiet 77 5 in
    (needs_add_to_free_list (space.pages 5) true ≡ false
      → Purges four 0 77 (space.pages 5) (st'.pages 5) × (leb 4 0 ≡ false → out ≡ done tt))
    × (needs_add_to_free_list (space.pages 5) true ≡ true
        → true ≡ true
        → space.loads 3 ≡ true
        → space.loads 5 ≡ true
        → Purges four 0 77 (space.pages 5) (st'.pages 5))
unfolding decode_column_ref space
purge-Purges_example = purge-Purges store four-IsLayout space quiet 77 5 (omega arith) refl

decode_ref-encode_ref_example : decode_ref (encode_ref 7 4000) ≡ (7, 4000)
decode_ref-encode_ref_example = decode_ref-encode_ref 7 4000 (omega arith) (omega arith)
