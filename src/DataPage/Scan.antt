-- ===== src/DataPage/Scan.antt =====
-- The search for a free slot: `DataPage::find_free_slot`.
use native.Mathlib.Decide.{dec_lt}
use mathlib.Core.Path.{subst, subst₂}
use mathlib.Core.Bool.{true≢false}
use vsql_vector.Base.{
  ℕ, ◌+◌, ◌-◌, ◌*◌, ◌/◌, ◌%◌, ◌^◌, ◌≤◌, ◌<◌, ◌≡◌, ◌≢◌, refl, ap, sym, ◌∙◌, true, false, Option,
  none, some, inl, inr, arith, Bool-cases, lt→ltb,
}
use vsql_vector.Page.Api.{PageApi}
use vsql_vector.DataPage.{
  DataPage, scan_bitmap, scan_from_hint, find_free_slot, bits_per_record, bits_to_bytes_ceil,
}
use vsql_vector.DataPage.FirstFree.{is_free, FirstFree, scan_bitmap-FirstFree}

module _ ⦃api : PageApi⦄ where
  open api use {Page, read_integer, read_integer-lt}

  -- The number of slots that the bitmap has bits for: a multiple of four, at least the records.
  abbrev pub bitmap_slots : DataPage → ℕ
  bitmap_slots d = bits_to_bytes_ceil (d.max_num_recs * bits_per_record) * 4

  -- Where a scan from the byte of `hint` ends up.
  abbrev Wrapped : DataPage → Page → ℕ → Option ℕ → Type 0
  Wrapped d p hint none = (t : ℕ) → t < bitmap_slots d → is_free p t ≡ false
  Wrapped d p hint (some s) =
      (s < bitmap_slots d)
      × (is_free p s ≡ true)
      × (s < hint / 4 * 4 → (t : ℕ) → hint / 4 * 4 ≤ t → t < bitmap_slots d → is_free p t ≡ false)

  Wrapped-join :
      (d : DataPage) (p : Page) (hint : ℕ) (first second : Option ℕ)
      → hint / 4 * 4 ≤ bitmap_slots d
      → FirstFree p (hint / 4 * 4) (bitmap_slots d) first
      → FirstFree p 0 (hint / 4 * 4) second
      → Wrapped d p hint (elim first [ some s ↦ some s | none ↦ second ])
  Wrapped-join d p hint (some s) second h a b = (a.1, a.2, λ below. absurd (omega (arith, a.0)))
  Wrapped-join d p hint none none h a b = λ t u. elim (dec_lt t (hint / 4 * 4)) [
    | yes below ↦ b t (omega arith) below
    | no above ↦ a t (omega arith) u
  ]
  Wrapped-join d p hint none (some s) h a b = (omega (arith, b.1), b.2, λ below t l u. a t l u)

  scan_from_hint-Wrapped :
      (d : DataPage) (p : Page) (hint : ℕ)
      → hint < d.max_num_recs
      → d.max_num_recs < 2 ^ 16
      → Wrapped d p hint (scan_from_hint d p hint)
  unfolding scan_from_hint
  scan_from_hint-Wrapped d p hint lt small =
      let bytes = bits_to_bytes_ceil (d.max_num_recs * bits_per_record) in
      let start = hint * bits_per_record / 8 in
      let lo : start * 4 ≡ hint / 4 * 4 = omega arith in
      let hi : (start + (bytes - start)) * 4 ≡ bytes * 4 = omega arith in
      Wrapped-join d p hint (scan_bitmap p start (bytes - start)) (scan_bitmap p 0 start)
        (omega arith)
        (subst₂ (λ a b. FirstFree p a b (scan_bitmap p start (bytes - start))) lo hi
          (scan_bitmap-FirstFree p start (bytes - start)))
        (subst (λ a. FirstFree p 0 a (scan_bitmap p 0 start)) (ap (λ n. n * 4) (omega arith) ∙ lo)
          (scan_bitmap-FirstFree p 0 start))

  slots-of_scan :
      (d : DataPage) (p : Page) (hint t : ℕ) (found : Option ℕ)
      → t < bitmap_slots d
      → is_free p t ≡ true
      → Wrapped d p hint found
      → (s : ℕ) × (found ≡ some s) × (is_free p s ≡ true) × (s < bitmap_slots d)
  slots-of_scan d p hint t none h free w = absurd (true≢false (sym free ∙ w t h))
  slots-of_scan d p hint t (some s) h free w = (s, refl, w.1, w.0)

  -- If a slot of the page is free, `find_free_slot` finds a free slot, from any hint within the
  -- page. The slot is one of the page's records if their number is a multiple of four.
  pub find_free_slot_lem :
      (d : DataPage) (p : Page) (hint t : ℕ)
      → hint < d.max_num_recs
      → d.max_num_recs < 2 ^ 16
      → t < d.max_num_recs
      → is_free p t ≡ true
      → (s : ℕ) × (find_free_slot d p hint ≡ some s)
        × (is_free p s ≡ true)
        × (d.max_num_recs % 4 ≡ 0 → s < d.max_num_recs)
  unfolding find_free_slot
  find_free_slot_lem d p hint t lt small ht free =
      let (s, found, ok, within) =
        slots-of_scan d p hint t (scan_from_hint d p hint) (omega arith) free
          (scan_from_hint-Wrapped d p hint lt small) in
      elim (Bool-cases (is_free p hint)) [
        | inl hit ↦ (hint, rw (lt→ltb _ _ lt, hit), hit, λ _. lt)
        | inr miss ↦ (s, rw (lt→ltb _ _ lt, miss) found, ok, λ e. omega (arith, within))
      ]

  -- The first free slot is found, whatever stands behind it.
  FirstFree-unique :
      (p : Page) (lo hi m : ℕ) (found : Option ℕ)
      → lo ≤ m
      → m < hi
      → ((t : ℕ) → lo ≤ t → t < m → is_free p t ≡ false)
      → is_free p m ≡ true
      → FirstFree p lo hi found
      → found ≡ some m
  FirstFree-unique p lo hi m none l u full free f = absurd (true≢false (sym free ∙ f m l u))
  FirstFree-unique p lo hi m (some s) l u full free f = elim (dec_lt s m) [
    | yes below ↦ absurd (true≢false (sym f.2 ∙ full s f.0 below))
    | no above ↦ elim (dec_lt m s) [
      | yes behind ↦ absurd (true≢false (sym free ∙ f.3 m l behind))
      | no same ↦ ap some (omega arith)
    ]
  ]

  -- Where the number of records is no multiple of four, the hint is in the last byte of the bitmap,
  -- all records of that byte are occupied, and the bits behind them are off (as they are on every
  -- page that `format` has made of a zeroed one), `find_free_slot` answers with the first slot
  -- behind the last record, whichever slots of the page are free.
  pub find_free_slot_padding :
      (d : DataPage) (p : Page) (hint : ℕ)
      → hint < d.max_num_recs
      → d.max_num_recs < 2 ^ 16
      → d.max_num_recs % 4 ≢ 0
      → hint / 4 ≡ d.max_num_recs / 4
      → ((t : ℕ) → hint / 4 * 4 ≤ t → t < d.max_num_recs → is_free p t ≡ false)
      → is_free p d.max_num_recs ≡ true
      → find_free_slot d p hint ≡ some d.max_num_recs
  unfolding find_free_slot scan_from_hint
  find_free_slot_padding d p hint lt small odd last full padding =
      let bytes = bits_to_bytes_ceil (d.max_num_recs * bits_per_record) in
      let start = hint * bits_per_record / 8 in
      let lo : start * 4 ≡ hint / 4 * 4 = omega arith in
      let hi : (start + (bytes - start)) * 4 ≡ bytes * 4 = omega arith in
      let first =
        FirstFree-unique p (hint / 4 * 4) (bytes * 4) d.max_num_recs
          (scan_bitmap p start (bytes - start)) (omega arith) (omega arith) full padding
          (subst₂ (λ a b. FirstFree p a b (scan_bitmap p start (bytes - start))) lo hi
            (scan_bitmap-FirstFree p start (bytes - start))) in
      rw (lt→ltb _ _ lt, full hint (omega arith) lt)
        (ap (λ r. elim r [ some s ↦ some s | none ↦ scan_bitmap p 0 start ]) first)
