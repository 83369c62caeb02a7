-- ===== src/DataPage.antt =====
-- The data page of a column store: `src/storage/data_page.h` and `data_page.cc`. A data page
-- holds a fixed number of records of one size, two status bits for each, and the links of the
-- free list. A function that writes to the page returns the new page. The latches, and the
-- asserts that a release build leaves out, are no part of the functions: where a theorem needs
-- what an assert states, it is a hypothesis.
pub mod Layout
pub mod Status
pub mod Links
pub mod View
pub mod Insert
pub mod Count
pub mod Refine
pub mod Scan
pub mod FirstFree
pub mod Overlap
pub mod ColumnRef
use vsql_vector.Base.{
  ℕ, zero, suc, ◌+◌, ◌-◌, ◌*◌, ◌/◌, ◌%◌, ◌^◌, Bool, true, false, not, ◌&&◌, Option, none, some,
  List, ltb, leb, ◌==◌, if◌then◌else◌, bit_and, bit_or, bit_test, set_bit, clear_bit,
}
use vsql_vector.Page.Api.{PageApi, header_size, trailer_size, invalid_ref}

-- The parts of `DataPage`, by the names of the source less `m_`.
pub record DataPage : Type 0 where
  pub rec_size : ℕ
  pub free_bitmap_size : ℕ
  pub max_num_recs : ℕ
  pub first_rec_offset : ℕ

abbrev pub trx_ref_size : ℕ
trx_ref_size = 8

abbrev pub min_free_percent_for_free_list : ℕ
min_free_percent_for_free_list = 20

abbrev pub delete_mark_bit : ℕ
delete_mark_bit = 0

abbrev pub free_bit : ℕ
free_bit = 1

abbrev pub bits_per_record : ℕ
bits_per_record = 2

abbrev pub version_off : ℕ
version_off = header_size

abbrev pub page_type_off : ℕ
page_type_off = version_off + 1

abbrev pub free_slot_number_off : ℕ
free_slot_number_off = page_type_off + 1

abbrev pub root_page_ref_off : ℕ
root_page_ref_off = free_slot_number_off + 2

abbrev pub prev_free_page_off : ℕ
prev_free_page_off = root_page_ref_off + 4

abbrev pub next_free_page_off : ℕ
next_free_page_off = prev_free_page_off + 4

abbrev pub max_num_recs_off : ℕ
max_num_recs_off = next_free_page_off + 4

abbrev pub num_free_recs_off : ℕ
num_free_recs_off = max_num_recs_off + 2

abbrev pub free_bitmap_off : ℕ
free_bitmap_off = num_free_recs_off + 2

abbrev pub invalid_slot : ℕ
invalid_slot = 0xffff

abbrev pub max_slot_index : ℕ
max_slot_index = 16383

-- `bits_to_bytes_ceil`, on a `uint32_t`.
abbrev pub bits_to_bytes_ceil : ℕ → ℕ
bits_to_bytes_ceil bits = (bits + 7) % 2 ^ 32 / 8

-- The loop of `init`: `fuel` is what `iterations` leaves of `MAX_ITERATIONS`. The values are
-- `estimated_max_recs`, `prev_max_recs` and `m_free_bitmap_size`.
unfoldable pub refine : (available rec_size fuel estimated prev bitmap : ℕ) → ℕ × ℕ
refine available rec_size zero estimated prev bitmap = (estimated, bitmap)
refine available rec_size (suc fuel) estimated prev bitmap =
    let size = bits_to_bytes_ceil (estimated * bits_per_record) in
    let space = (available + 2 ^ 32 - size) % 2 ^ 32 in
    let next = refine available rec_size fuel (space / rec_size % 2 ^ 16) estimated size in
    if estimated == prev then (estimated, bitmap) else next

abbrev pub max_iterations : ℕ
max_iterations = 10

abbrev pub available_space : ℕ → ℕ
available_space page_size = (page_size + 2 ^ 32 - free_bitmap_off - trailer_size) % 2 ^ 32

-- The cap at the greatest slot index that a column reference can hold.
unfoldable pub cap_records : ℕ × ℕ → ℕ × ℕ
cap_records (recs, bitmap) =
    if ltb (max_slot_index + 1) recs
    then (max_slot_index + 1, bits_to_bytes_ceil ((max_slot_index + 1) * bits_per_record))
    else (recs, bitmap)

unfoldable pub layout_of : ℕ → ℕ × ℕ → DataPage
layout_of rec_size (recs, bitmap) = record {
  rec_size = rec_size;
  free_bitmap_size = bitmap;
  max_num_recs = recs;
  first_rec_offset = free_bitmap_off + bitmap;
}

-- The record size is a `Page::Offset`, of 16 bits.
abbrev pub record_size : ℕ → ℕ
record_size col_len = (trx_ref_size + col_len) % 2 ^ 16

-- A column length of 65528 makes the record size 0, and the source then divides by zero.
unfoldable pub init : (page_size col_len : ℕ) → DataPage
unfolding refine cap_records layout_of
init page_size col_len =
    let rec_size = record_size col_len in
    let available = available_space page_size in
    let refined =
      cap_records (refine available rec_size max_iterations (available / rec_size % 2 ^ 16) 0 0) in
    if ltb available rec_size then layout_of rec_size (0, 0) else layout_of rec_size refined

abbrev pub get_record_offset : DataPage → ℕ → ℕ
get_record_offset d rec_index = d.first_rec_offset + rec_index * d.rec_size

-- `Column::Ref`: the page in the lower 32 bits, the slot above it.
unfoldable pub encode_column_ref : (page_ref slot_index : ℕ) → ℕ
encode_column_ref page_ref slot_index = bit_or page_ref (slot_index * 2 ^ 32 % 2 ^ 64)

-- The page reference and the slot index.
unfoldable pub decode_column_ref : ℕ → ℕ × ℕ
decode_column_ref col_ref = (bit_and col_ref 0xffff_ffff, bit_and (col_ref / 2 ^ 32) max_slot_index)

-- The offset of the byte of the bitmap that holds a slot's two bits, and where in it they stand.
abbrev pub bitmap_byte_offset : ℕ → ℕ
bitmap_byte_offset slot_index = free_bitmap_off + slot_index * bits_per_record / 8

abbrev pub bitmap_bit_offset : ℕ → ℕ
bitmap_bit_offset slot_index = slot_index * bits_per_record % 8

-- The four changes of a byte of the bitmap, at the offset of a slot's two bits.
abbrev pub delete_byte : ℕ → ℕ → ℕ
delete_byte byte bit = set_bit byte (bit + delete_mark_bit)

abbrev pub undelete_byte : ℕ → ℕ → ℕ
undelete_byte byte bit = clear_bit byte (bit + delete_mark_bit)

abbrev pub free_byte : ℕ → ℕ → ℕ
free_byte byte bit = clear_bit (clear_bit byte (bit + free_bit)) (bit + delete_mark_bit)

abbrev pub allocate_byte : ℕ → ℕ → ℕ
allocate_byte byte bit = clear_bit (set_bit byte (bit + free_bit)) (bit + delete_mark_bit)

-- The `for` loop of `free_bit_in_byte` over the bit offsets 0, 2, 4 and 6.
free_bit_from : (rounds bitmap_byte bit_offset : ℕ) → Option ℕ
free_bit_from zero bitmap_byte bit_offset = none
free_bit_from (suc rounds) bitmap_byte bit_offset =
    let rest = free_bit_from rounds bitmap_byte (bit_offset + bits_per_record) in
    if bit_test bitmap_byte (bit_offset + free_bit) then rest else some bit_offset

unfoldable pub free_bit_in_byte : ℕ → Option ℕ
unfolding free_bit_from
free_bit_in_byte bitmap_byte =
    if bit_and bitmap_byte 0xaa == 0xaa then none else free_bit_from 4 bitmap_byte 0

module _ ⦃api : PageApi⦄ where
  open api use {Page, read_integer, write_integer, write_string}

  unfoldable pub set_free_slot_number : Page → ℕ → Page
  set_free_slot_number p slot_number = write_integer 2 p free_slot_number_off slot_number

  unfoldable pub get_free_slot_number : Page → ℕ
  get_free_slot_number p = read_integer 2 p free_slot_number_off

  unfoldable pub get_root_page_ref : Page → ℕ
  get_root_page_ref p = read_integer 4 p root_page_ref_off

  abbrev pub write_if_given : Page → ℕ → Option ℕ → Page
  write_if_given p offset none = p
  write_if_given p offset (some ref) = write_integer 4 p offset ref

  -- `none` is a null pointer, which leaves the link unchanged.
  unfoldable pub set_free_links : Page → (prev next : Option ℕ) → Page
  set_free_links p prev next =
      write_if_given (write_if_given p prev_free_page_off prev) next_free_page_off next

  unfoldable pub get_free_links : Page → ℕ × ℕ
  get_free_links p = (read_integer 4 p prev_free_page_off, read_integer 4 p next_free_page_off)

  unfoldable pub has_last_free_slot : Page → Bool
  has_last_free_slot p = read_integer 2 p num_free_recs_off == 1

  unfoldable pub needs_add_to_free_list : Page → (pre_purge : Bool) → Bool
  unfolding get_free_slot_number
  needs_add_to_free_list p pre_purge =
      let max_num_recs = read_integer 2 p max_num_recs_off in
      let num_free = read_integer 2 p num_free_recs_off in
      let counted = if pre_purge && ltb num_free max_num_recs then num_free + 1 else num_free in
      if get_free_slot_number p == invalid_slot
      then (if max_num_recs == 0
          then false
          else ltb min_free_percent_for_free_list (counted * 100 / max_num_recs))
      else false

  -- Whether the record is marked as deleted, and whether its slot is free.
  unfoldable pub get_record_status : Page → ℕ → Bool × Bool
  get_record_status p slot_index =
      let byte = read_integer 1 p (bitmap_byte_offset slot_index) in
      let bit = bitmap_bit_offset slot_index in
      (bit_test byte (bit + delete_mark_bit), not (bit_test byte (bit + free_bit)))

  -- The byte of the bitmap that holds a slot's bits is replaced by a function of it.
  abbrev pub update_bitmap : Page → ℕ → (ℕ → ℕ → ℕ) → Page
  update_bitmap p slot_index f =
      let offset = bitmap_byte_offset slot_index in
      write_integer 1 p offset (f (read_integer 1 p offset) (bitmap_bit_offset slot_index))

  unfoldable pub set_record_delete : Page → ℕ → Page
  set_record_delete p slot_index = update_bitmap p slot_index delete_byte

  unfoldable pub set_record_undelete : Page → ℕ → Page
  set_record_undelete p slot_index = update_bitmap p slot_index undelete_byte

  unfoldable pub set_record_free : Page → ℕ → Page
  set_record_free p slot_index = update_bitmap p slot_index free_byte

  unfoldable pub set_record_allocated : Page → ℕ → Page
  set_record_allocated p slot_index = update_bitmap p slot_index allocate_byte

  -- The scan of the bitmap from a byte on, for a number of bytes.
  unfoldable pub scan_bitmap : Page → (byte_idx rounds : ℕ) → Option ℕ
  scan_bitmap p byte_idx zero = none
  scan_bitmap p byte_idx (suc rounds) =
      let rest = scan_bitmap p (byte_idx + 1) rounds in
      elim (free_bit_in_byte (read_integer 1 p (free_bitmap_off + byte_idx))) [
        | some bit ↦ some (byte_idx * 4 + bit / 2)
        | none ↦ rest
      ]

  -- The slow path: from the byte of the hint to the end, then from the first byte to the hint's.
  unfoldable pub scan_from_hint : DataPage → Page → ℕ → Option ℕ
  scan_from_hint d p hint_index =
      let bytes = bits_to_bytes_ceil (d.max_num_recs * bits_per_record) in
      let start = hint_index * bits_per_record / 8 in
      elim (scan_bitmap p start (bytes - start)) [
        | some slot ↦ some slot
        | none ↦ scan_bitmap p 0 start
      ]

  unfoldable pub find_free_slot : DataPage → Page → ℕ → Option ℕ
  find_free_slot d p hint_index =
      if ltb hint_index d.max_num_recs && (get_record_status p hint_index).1
      then some hint_index
      else scan_from_hint d p hint_index

  -- What `format` writes before the counter of free records.
  unfoldable pub format_header : DataPage → Page → (format_version root_page_ref : ℕ) → Page
  format_header d p format_version root_page_ref =
      let p1 = write_integer 1 p version_off format_version in
      let p2 = write_integer 1 p1 page_type_off 2 in
      let p3 = write_integer 2 p2 free_slot_number_off invalid_slot in
      let p4 = write_integer 4 p3 root_page_ref_off root_page_ref in
      let p5 = write_integer 4 p4 prev_free_page_off invalid_ref in
      let p6 = write_integer 4 p5 next_free_page_off invalid_ref in
      write_integer 2 p6 max_num_recs_off d.max_num_recs

  -- The bitmap and the records are not written.
  unfoldable pub format : DataPage → Page → (format_version root_page_ref : ℕ) → Page
  format d p format_version root_page_ref =
      write_integer 2 (format_header d p format_version root_page_ref) num_free_recs_off
        d.max_num_recs

  -- The record itself: the transaction reference, then the column data.
  unfoldable pub write_record : DataPage → Page → (slot_index trx_ref : ℕ) → List ℕ → Page
  write_record d p slot_index trx_ref col_data =
      let rec_offset = get_record_offset d slot_index in
      write_string (write_integer 8 p rec_offset trx_ref) (rec_offset + trx_ref_size) col_data

  -- What `insert` does with the slot that `find_free_slot` found: the new page and the new hint.
  unfoldable pub insert_at : DataPage → Page → (slot_index trx_ref : ℕ) → List ℕ → Page × ℕ
  insert_at d p slot_index trx_ref col_data =
      let num_free = read_integer 2 p num_free_recs_off in
      let p1 = set_record_allocated (write_record d p slot_index trx_ref col_data) slot_index in
      (
        write_integer 2 p1 num_free_recs_off ((num_free + 2 ^ 16 - 1) % 2 ^ 16),
        if leb d.max_num_recs (slot_index + 1) then 0 else slot_index + 1,
      )

  -- The new page, the column reference and the new hint. A release build does not look at whether
  -- a slot was found, and goes on with slot 0.
  unfoldable pub insert :
      DataPage → Page → (page_ref trx_ref : ℕ) → List ℕ → (hint_index : ℕ) → Page × ℕ × ℕ
  insert d p page_ref trx_ref col_data hint_index =
      let slot_index : ℕ = elim (find_free_slot d p hint_index) [ some s ↦ s | none ↦ 0 ] in
      let (p', hint) = insert_at d p slot_index trx_ref col_data in
      (p', encode_column_ref page_ref slot_index, hint)

  -- The new page, whether the record was purged, and whether an error is returned.
  unfoldable pub purge : DataPage → Page → (slot_index trx_ref : ℕ) → Page × Bool × Bool
  purge d p slot_index trx_ref =
      let p1 = set_record_free p slot_index in
      let num_free = read_integer 2 p1 num_free_recs_off in
      if leb d.max_num_recs slot_index
      then (p, false, true)
      else if (get_record_status p slot_index).1
      then (p, false, false)
      else if read_integer 8 p (get_record_offset d slot_index) == trx_ref
      then (write_integer 2 p1 num_free_recs_off ((num_free + 1) % 2 ^ 16), true, false)
      else (p, false, false)
