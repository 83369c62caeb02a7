-- ===== src/Tests/DataPages.antt =====
-- Runs of the data page, and its theorems at concrete pages.
use vsql_vector.Base.{
  ℕ, zero, suc, ◌+◌, ◌*◌, ◌/◌, ◌%◌, ◌^◌, ◌≤◌, ◌<◌, ◌≡◌, refl, true, false, not, ◌&&◌, none, some,
  [], ◌∷◌, arith, leb, ◌==◌, if◌then◌else◌, bit_test, set_bit, clear_bit,
}
use vsql_vector.Page.Bytes.{
  BytesPage, bytes_api, zero_page, put, read_bytes, write_bytes, write_list,
}
use vsql_vector.DataPage.{
  DataPage, init, format, format_header, insert, insert_at, purge, find_free_slot,
  get_record_status, write_record, set_record_allocated, set_record_delete, set_record_undelete,
  encode_column_ref, decode_column_ref,
}
use vsql_vector.DataPage.Layout.{Covers, init_fits, default_Covers}
use vsql_vector.DataPage.Overlap.{init_overlap}
use vsql_vector.DataPage.ColumnRef.{decode-encode}
use vsql_vector.DataPage.FirstFree.{is_free}
use vsql_vector.DataPage.Scan.{find_free_slot_lem, find_free_slot_padding}
use vsql_vector.DataPage.View.{IsLayout, view, content, bytes_at}
use vsql_vector.DataPage.Refine.{
  view-set_record_delete, view-set_record_undelete, purge_lem, owned_by, with_mark,
}
use vsql_vector.DataPage.Count.{IsConsistent, purge-IsConsistent, format-IsConsistent, count}
use vsql_vector.DataPage.Insert.{Inserted, insert_lem}

-- Four records of four bytes of column data each.
abbrev four : DataPage
four = record { rec_size = 12; free_bitmap_size = 1; max_num_recs = 4; first_rec_offset = 59 }

four-IsLayout : IsLayout four
four-IsLayout = omega arith

abbrev fresh : BytesPage
unfolding format format_header put write_bytes
fresh = format four zero_page 1 9

fresh-IsConsistent : IsConsistent four fresh
unfolding fresh get_record_status bit_test read_bytes count
fresh-IsConsistent = record { capacity = refl; counted = refl }

insert_lem_example :
    Inserted four fresh 5 77 (1 ∷ 2 ∷ 3 ∷ 4 ∷ []) (insert four fresh 5 77 (1 ∷ 2 ∷ 3 ∷ 4 ∷ []) 2)
unfolding fresh read_bytes
insert_lem_example =
    insert_lem four fresh 5 77 2 (1 ∷ 2 ∷ 3 ∷ 4 ∷ []) four-IsLayout fresh-IsConsistent refl
      (omega arith) (omega arith) (omega arith) (omega arith) refl

-- The page after two inserts by transaction 77.
abbrev filled : BytesPage
unfolding fresh insert_at write_record set_record_allocated write_list read_bytes set_bit clear_bit
filled =
    (insert_at four (insert_at four fresh 0 77 (1 ∷ 2 ∷ 3 ∷ 4 ∷ [])).0 1 77 (5 ∷ 6 ∷ 7 ∷ 8 ∷ [])).0

filled-view :
    view four filled 1
    ≡ some (record { deleted = false; trx_ref = 77; col_data = 5 ∷ 6 ∷ 7 ∷ 8 ∷ [] })
unfolding filled view content bytes_at get_record_status bit_test
filled-view = refl

filled-IsConsistent : IsConsistent four filled
unfolding filled get_record_status bit_test read_bytes count
filled-IsConsistent = record { capacity = refl; counted = refl }

purge_lem_example :
    let (p', purged, failed) = purge four filled 1 77 in
    (failed ≡ leb 4 1)
    × (purged ≡ (not failed && owned_by 77 (view four filled 1)))
    × ((t : ℕ) → view four p' t ≡ (if purged && (1 == t) then none else view four filled t))
purge_lem_example = purge_lem four four-IsLayout filled 1 77

purge-IsConsistent_example : IsConsistent four (purge four filled 1 77).0
purge-IsConsistent_example = purge-IsConsistent four four-IsLayout filled 1 77 filled-IsConsistent

view-set_record_delete_example :
    view four (set_record_delete filled 1) 1
    ≡ (if 1 == 1 then with_mark true (view four filled 1) else view four filled 1)
view-set_record_delete_example = view-set_record_delete four four-IsLayout filled 1 1 (omega arith)

view-set_record_undelete_example :
    view four (set_record_undelete filled 1) 0
    ≡ (if 1 == 0 then with_mark false (view four filled 0) else view four filled 0)
view-set_record_undelete_example =
    view-set_record_undelete four four-IsLayout filled 1 0 (omega arith)

find_free_slot_lem_example :
    (s : ℕ) × (find_free_slot four filled 1 ≡ some s)
    × (is_free filled s ≡ true)
    × (4 % 4 ≡ 0 → s < 4)
unfolding filled get_record_status bit_test read_bytes
find_free_slot_lem_example =
    find_free_slot_lem four filled 1 2 (omega arith) (omega arith) (omega arith) refl

format-IsConsistent_example : IsConsistent four (format four fresh 1 9)
unfolding fresh get_record_status bit_test read_bytes
format-IsConsistent_example = format-IsConsistent four four-IsLayout fresh 1 9 all_free
  where
    all_free : (t : ℕ) → t < 4 → is_free fresh t ≡ true
    all_free zero h = refl
    all_free (suc zero) h = refl
    all_free (suc (suc zero)) h = refl
    all_free (suc (suc (suc zero))) h = refl
    all_free (suc (suc (suc (suc t)))) h = absurd (omega arith)

-- Five records: the bits behind the last one are never written.
abbrev five : DataPage
five = record { rec_size = 12; free_bitmap_size = 2; max_num_recs = 5; first_rec_offset = 60 }

-- Slot 4 is occupied, and all others are free.
abbrev last_used : BytesPage
unfolding format format_header put write_bytes set_record_allocated read_bytes set_bit clear_bit
last_used = set_record_allocated (format five zero_page 1 9) 4

only_slot_4 : (t : ℕ) → 4 / 4 * 4 ≤ t → t < 5 → is_free last_used t ≡ false
unfolding last_used get_record_status bit_test read_bytes
only_slot_4 zero l u = absurd (omega arith)
only_slot_4 (suc zero) l u = absurd (omega arith)
only_slot_4 (suc (suc zero)) l u = absurd (omega arith)
only_slot_4 (suc (suc (suc zero))) l u = absurd (omega arith)
only_slot_4 (suc (suc (suc (suc zero)))) l u = refl
only_slot_4 (suc (suc (suc (suc (suc t))))) l u = absurd (omega arith)

find_free_slot_padding_example : find_free_slot five last_used 4 ≡ some 5
unfolding last_used get_record_status bit_test read_bytes
find_free_slot_padding_example =
    find_free_slot_padding five last_used 4 (omega arith) (omega arith) (omega arith) refl
      only_slot_4 refl

decode-encode_example :
    decode_column_ref (encode_column_ref 70000 16383 + 5 * 2 ^ 46) ≡ (70000, 16383)
decode-encode_example = decode-encode 70000 16383 5 (omega arith) (omega arith)

init_fits_example :
    let d = init 4096 4 in
    (d.first_rec_offset + d.max_num_recs * d.rec_size + 8 ≤ 4096) × (d.max_num_recs ≤ 16384)
init_fits_example = init_fits 4096 4 (omega arith) (omega arith) (omega arith)

default_Covers_example : Covers (init 16384 (4 * 768))
default_Covers_example = default_Covers 768 (omega arith)

-- A column of one float on pages of 4 KB: 329 records, and bits for 328.
init_overlap_example : ¬ Covers (init 4096 4)
init_overlap_example = init_overlap 4096 4 82 (omega arith) (omega arith) refl

one_float :
    init 4096 4
    ≡ record { rec_size = 12; free_bitmap_size = 82; max_num_recs = 329; first_rec_offset = 140 }
unfolding init
one_float = refl
