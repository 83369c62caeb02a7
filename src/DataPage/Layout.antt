-- ===== src/DataPage/Layout.antt =====
-- The layout that `DataPage::init` computes: `src/storage/data_page.cc`.
use vsql_vector.Base.{
  ℕ, zero, suc, ◌+◌, ◌-◌, ◌*◌, ◌/◌, ◌%◌, ◌^◌, ◌≤◌, ◌<◌, ◌≡◌, refl, ap, Bool, true, false, inl, inr,
  arith, ◌==◌, ltb, leb, Bool-cases, passes, passes_sound, leb→le, if◌then◌else◌,
}
use vsql_vector.Page.Api.{trailer_size}
use vsql_vector.DataPage.{
  DataPage, refine, cap_records, layout_of, init, available_space, bits_to_bytes_ceil,
  bits_per_record, free_bitmap_off, max_slot_index, trx_ref_size, max_iterations, record_size,
}

-- The bitmap has two bits for each record.
abbrev pub Covers : DataPage → Type 0
Covers d = d.max_num_recs * bits_per_record ≤ d.free_bitmap_size * 8

-- Records and bitmap of a candidate layout find room.
abbrev Room : ℕ → ℕ → ℕ × ℕ → Type 0
Room available rec_size (recs, bitmap) = recs * rec_size + bitmap ≤ available

quotient_room : (space rec_size : ℕ) → 0 < rec_size → space / rec_size % 2 ^ 16 * rec_size ≤ space
quotient_room space rec_size h = grind arith

pub le-mul : (n m : ℕ) → 0 < m → n ≤ n * m
le-mul n m h = grind arith

pub bitmap-le : (n : ℕ) → n < 2 ^ 16 → bits_to_bytes_ceil (n * bits_per_record) ≤ n
bitmap-le n h = omega arith

refine-Room :
    (available rec_size fuel estimated prev bitmap : ℕ)
    → 0 < rec_size
    → available < 2 ^ 16
    → Room available rec_size (estimated, bitmap)
    → Room available rec_size (refine available rec_size fuel estimated prev bitmap)
unfolding refine
refine-Room available rec_size zero estimated prev bitmap pos small room = room
refine-Room available rec_size (suc fuel) estimated prev bitmap pos small room =
    elim (Bool-cases (estimated == prev)) [
      | inl done ↦ rw done room
      | inr more ↦ rw more (refine-Room available rec_size fuel _ estimated _ pos small next)
    ]
  where
    size : ℕ
    size = bits_to_bytes_ceil (estimated * bits_per_record)

    space : ℕ
    space = (available + 2 ^ 32 - size) % 2 ^ 32

    fits : size ≤ available
    fits = omega (arith, bitmap-le estimated, le-mul estimated rec_size pos)

    next : Room available rec_size (space / rec_size % 2 ^ 16, size)
    next = omega (arith, fits, quotient_room space rec_size pos)

few_of_Room :
    (available rec_size recs bitmap : ℕ)
    → trx_ref_size ≤ rec_size
    → available < 2 ^ 16
    → Room available rec_size (recs, bitmap)
    → recs ≤ max_slot_index + 1
few_of_Room available rec_size recs bitmap pos small room = grind arith

-- The cap is out of reach on a page of up to 64 KB, since a record takes eight bytes or more.
cap_records-Room :
    (available rec_size : ℕ) (r : ℕ × ℕ)
    → trx_ref_size ≤ rec_size
    → available < 2 ^ 16
    → Room available rec_size r
    → cap_records r ≡ r
unfolding cap_records
cap_records-Room available rec_size (recs, bitmap) pos small room =
    let few = few_of_Room available rec_size recs bitmap pos small room in
    let under : ltb (max_slot_index + 1) recs ≡ false = ground arith in rw under

-- The records and the bitmap that the loop of `init` settles on.
unfoldable pub found : (available rec_size : ℕ) → ℕ × ℕ
found available rec_size =
    refine available rec_size max_iterations (available / rec_size % 2 ^ 16) 0 0

found-Room :
    (available rec_size : ℕ)
    → trx_ref_size ≤ rec_size
    → available < 2 ^ 16
    → Room available rec_size (found available rec_size)
unfolding found
found-Room available rec_size pos small =
    refine-Room available rec_size max_iterations _ 0 0 (omega arith) small
      (omega (arith, quotient_room available rec_size (omega arith)))

record_size_short :
    (col_len : ℕ) → trx_ref_size + col_len < 2 ^ 16 → record_size col_len ≡ trx_ref_size + col_len
record_size_short col_len short = omega arith

pub init-found :
    (page_size col_len : ℕ)
    → available_space page_size < 2 ^ 16
    → trx_ref_size + col_len < 2 ^ 16
    → init page_size col_len ≡ (
        if ltb (available_space page_size) (trx_ref_size + col_len)
        then layout_of (trx_ref_size + col_len) (0, 0)
        else layout_of
            (trx_ref_size + col_len)
            (found (available_space page_size) (trx_ref_size + col_len)))
unfolding init found
init-found page_size col_len small short = rw (record_size_short col_len short) (
    ap
      (λ r.
        if ltb (available_space page_size) (trx_ref_size + col_len)
        then layout_of (trx_ref_size + col_len) (0, 0)
        else layout_of (trx_ref_size + col_len) r)
      (cap_records-Room (available_space page_size) (trx_ref_size + col_len)
        (found (available_space page_size) (trx_ref_size + col_len)) (omega arith) small
        (found-Room (available_space page_size) (trx_ref_size + col_len) (omega arith) small)))

-- The layout that `init` computes lies within the page, for every page size of up to 64 KB (and
-- of at least the 66 bytes that header and trailer take) and every column length for which the
-- record size, the column length and eight bytes, is below 2 ^ 16: the records end before the page
-- trailer begins. The page holds no more records than a column reference can tell apart.
pub init_fits :
    (page_size col_len : ℕ)
    → free_bitmap_off + trailer_size ≤ page_size
    → page_size ≤ 2 ^ 16
    → trx_ref_size + col_len < 2 ^ 16
    → let d = init page_size col_len in
      (d.first_rec_offset + d.max_num_recs * d.rec_size + trailer_size ≤ page_size)
      × (d.max_num_recs ≤ max_slot_index + 1)
unfolding layout_of
init_fits page_size col_len lo hi short =
    let rec_size = trx_ref_size + col_len in
    let available = available_space page_size in
    let room = found-Room available rec_size (omega arith) (omega arith) in
    let few = few_of_Room available rec_size _ _ (omega arith) (omega arith) room in
    rw (init-found page_size col_len (omega arith) short)
      (elim (Bool-cases (ltb available rec_size)) [
        | inl none_fits ↦ rw none_fits (omega arith)
        | inr some_fit ↦ rw some_fit (omega (arith, room), few)
      ])

covers : DataPage → Bool
covers d = leb (d.max_num_recs * bits_per_record) (d.free_bitmap_size * 8)

covers_table : passes (λ n. covers (init 16384 (4 * n))) 3073 ≡ true
unfolding passes covers init
covers_table = refl

-- On pages of 16 KB, the default size, the bitmap has two bits for each record, for the column of a
-- vector of any dimension up to the greatest, 3072.
pub default_Covers : (dimension : ℕ) → dimension ≤ 3072 → Covers (init 16384 (4 * dimension))
unfolding covers
default_Covers dimension h =
    leb→le _ _
      (passes_sound (λ n. covers (init 16384 (4 * n))) 3073 dimension (omega arith) covers_table)
