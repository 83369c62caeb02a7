-- ===== src/DataPage/Overlap.antt =====
-- Page sizes at which the loop of `DataPage::init` does not settle: `src/storage/data_page.cc`.
use native.Mathlib.Nat.{div-le_self}
use vsql_vector.Base.{
  ℕ, zero, suc, ◌+◌, ◌-◌, ◌*◌, ◌/◌, ◌%◌, ◌^◌, ◌≤◌, ◌<◌, ◌≡◌, false, arith, ltb, ==_of_ne, ltb_of_le,
}
use vsql_vector.Page.Api.{trailer_size}
use vsql_vector.DataPage.{
  refine, layout_of, init, available_space, bits_to_bytes_ceil, bits_per_record, free_bitmap_off,
  trx_ref_size,
}
use vsql_vector.DataPage.Layout.{Covers, le-mul, bitmap-le, found, init-found}

le-mul_right : (n m : ℕ) → 0 < m → n ≤ m * n
le-mul_right n m h = grind arith

div-lt : (x m b : ℕ) → 0 < m → x < b * m → x / m < b
div-lt x m b pos h = grind arith

le-div : (x m b : ℕ) → 0 < m → b * m ≤ x → b ≤ x / m
le-div x m b pos h = grind arith

div-mod-small : (x m : ℕ) → x < 2 ^ 16 → x / m % 2 ^ 16 ≡ x / m
div-mod-small x m h = grind arith

abbrev double : ℕ → ℕ
double zero = zero
double (suc n) = suc (suc (double n))

-- Where `available` is just enough for `4 * k + 1` records and `k` bytes of bitmap, the estimates
-- go back and forth between at most `4 * k` and at least `4 * k + 1`.
module _ (k rec_size available : ℕ) (pos : 0 < rec_size) (small : available < 2 ^ 16)
    (tight : available ≡ (4 * k + 1) * rec_size + k) where
  size_of : ℕ → ℕ
  size_of estimated = bits_to_bytes_ceil (estimated * bits_per_record)

  next_of : ℕ → ℕ
  unfolding size_of
  next_of estimated = (available + 2 ^ 32 - size_of estimated) % 2 ^ 32 / rec_size % 2 ^ 16

  k_small : 4 * k + 1 + k ≤ available
  k_small = omega (arith, le-mul (4 * k + 1) rec_size pos)

  next_low :
      (estimated : ℕ) → 4 * k + 1 ≤ estimated → estimated ≤ available → next_of estimated ≤ 4 * k
  unfolding next_of size_of
  next_low estimated lo hi =
      let space = (available + 2 ^ 32 - size_of estimated) % 2 ^ 32 in
      let fits : size_of estimated ≤ available = omega (arith, bitmap-le estimated (omega arith)) in
      let below : space < (4 * k + 1) * rec_size = omega (arith, fits) in
      omega (
        arith,
        div-mod-small space rec_size (omega arith),
        div-lt space rec_size (4 * k + 1) pos below,
      )

  next_high : (estimated : ℕ) → estimated ≤ 4 * k → 4 * k + 1 ≤ next_of estimated
  unfolding next_of size_of
  next_high estimated hi =
      let space = (available + 2 ^ 32 - size_of estimated) % 2 ^ 32 in
      let above : (4 * k + 1) * rec_size ≤ space = omega (arith, k_small) in
      omega (
        arith,
        div-mod-small space rec_size (omega arith),
        le-div space rec_size (4 * k + 1) pos above,
      )

  swings :
      (n estimated prev bitmap : ℕ)
      → prev ≤ 4 * k
      → 4 * k + 1 ≤ estimated
      → estimated ≤ available
      → bitmap ≤ k
      → let (recs, size) = refine available rec_size (double n) estimated prev bitmap in
        (4 * k + 1 ≤ recs) × (size ≤ k)
  unfolding refine next_of size_of
  swings zero estimated prev bitmap hp he ha hb = (he, hb)
  swings (suc n) estimated prev bitmap hp he ha hb =
      let low = next_low estimated he ha in
      let high = next_high (next_of estimated) low in
      rw
        (
          ==_of_ne estimated prev (omega arith),
          ==_of_ne (next_of estimated) estimated (omega arith),
        )
        (swings n (next_of (next_of estimated)) (next_of estimated) (size_of (next_of estimated))
          low high (omega arith) (omega arith))

-- Where the space that header and trailer leave is exactly that of `4 * k + 1` records and `k` bytes
-- of bitmap, `init` settles on more records than the bitmap has bits for: the status bits of the
-- last record are the lowest bits of the first record's transaction reference.
pub init_overlap :
    (page_size col_len k : ℕ)
    → free_bitmap_off + trailer_size ≤ page_size
    → page_size ≤ 2 ^ 16
    → available_space page_size ≡ (4 * k + 1) * (trx_ref_size + col_len) + k
    → ¬ Covers (init page_size col_len)
unfolding layout_of found
init_overlap page_size col_len k lo hi tight =
    let rec_size = trx_ref_size + col_len in
    let available = available_space page_size in
    let start = available / rec_size % 2 ^ 16 in
    let small : available < 2 ^ 16 = omega arith in
    let start_is : start ≡ available / rec_size = div-mod-small available rec_size small in
    let high = le-div available rec_size (4 * k + 1) (omega arith) (omega (arith, tight)) in
    let swung =
      swings k rec_size available (omega arith) small tight 5 start 0 0 (omega arith)
        (omega (arith, start_is, high)) (omega (arith, start_is, div-le_self available rec_size))
        (omega arith) in
    let wide = le-mul_right rec_size (4 * k + 1) (omega arith) in
    let short : rec_size < 2 ^ 16 = omega (arith, tight, wide, small) in
    let fits : ltb available rec_size ≡ false = ltb_of_le _ _ (omega (arith, tight, wide)) in
    rw (init-found page_size col_len small short, fits) (omega (arith, swung))
