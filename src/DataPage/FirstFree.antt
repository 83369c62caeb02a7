-- ===== src/DataPage/FirstFree.antt =====
-- The scan of the bitmap, byte by byte: `free_bit_in_byte` and the loops of
-- `DataPage::find_free_slot`.
use native.Mathlib.Decide.{ℕ_discrete, dec_lt}
use mathlib.Core.Path.{ap₂, subst, subst₂}
use mathlib.Core.Option
use vsql_vector.Base.{
  ℕ, zero, suc, ◌+◌, ◌*◌, ◌/◌, ◌%◌, ◌≤◌, ◌<◌, ◌≡◌, refl, ap, sym, ◌∙◌, Bool, true, false, not, ◌&&◌,
  Option, none, some, arith, ltb, ◌==◌, if◌then◌else◌, passes, passes_sound, bit_test,
}
use vsql_vector.Page.Api.{PageApi}
use vsql_vector.DataPage.{free_bit_in_byte, scan_bitmap, get_record_status, free_bitmap_off}

-- What a search of one byte may answer: the lowest even offset whose free bit is off, or nothing
-- when all four are on.
answers : ℕ → Option ℕ → Bool
answers byte none = bit_test byte 1 && bit_test byte 3 && bit_test byte 5 && bit_test byte 7
answers byte (some bit) =
    ltb bit 8
    && bit % 2 == 0
    && not (bit_test byte (bit + 1))
    && (if ltb 0 bit then bit_test byte 1 else true)
    && (if ltb 2 bit then bit_test byte 3 else true)
    && (if ltb 4 bit then bit_test byte 5 else true)

answers_table : passes (λ byte. answers byte (free_bit_in_byte byte)) 256 ≡ true
unfolding passes answers free_bit_in_byte bit_test
answers_table = refl

answers_lem : (byte : ℕ) → byte < 256 → answers byte (free_bit_in_byte byte) ≡ true
answers_lem byte h =
    passes_sound (λ byte. answers byte (free_bit_in_byte byte)) 256 byte h answers_table

answers-none :
    (byte : ℕ)
    → answers byte none ≡ true
    → (bit_test byte 1 ≡ true)
      × (bit_test byte 3 ≡ true)
      × (bit_test byte 5 ≡ true)
      × (bit_test byte 7 ≡ true)
unfolding answers
answers-none byte h = ground arith

answers-some :
    (byte bit : ℕ)
    → answers byte (some bit) ≡ true
    → (bit < 8)
      × (bit % 2 ≡ 0)
      × (bit_test byte (bit + 1) ≡ false)
      × (0 < bit → bit_test byte 1 ≡ true)
      × (2 < bit → bit_test byte 3 ≡ true)
      × (4 < bit → bit_test byte 5 ≡ true)
unfolding answers
answers-some byte bit h = ground arith

-- Whether the slot is free, as `get_record_status` reports it.
abbrev pub is_free : ⦃api : PageApi⦄ → PageApi.Page api → ℕ → Bool
is_free p slot_index = (get_record_status p slot_index).1

-- One of four consecutive numbers.
one_of_four :
    (P : ℕ → Type 0) (n : ℕ)
    → P n
    → P (n + 1)
    → P (n + 2)
    → P (n + 3)
    → (t : ℕ) → n ≤ t
    → t < n + 4
    → P t
one_of_four P n a b c d t lo hi = elim (ℕ_discrete t n) [
  | yes e ↦ subst P (sym e) a
  | no ne ↦ elim (ℕ_discrete t (n + 1)) [
    | yes e ↦ subst P (sym e) b
    | no ne' ↦ elim (ℕ_discrete t (n + 2)) [
      | yes e ↦ subst P (sym e) c
      | no ne'' ↦ subst P {x = n + 3} (omega arith) d
    ]
  ]
]

module _ ⦃api : PageApi⦄ where
  open api use {Page, read_integer, read_integer-lt}

  -- The answer of a search over the slots from `lo` up to `hi`.
  abbrev pub FirstFree : Page → (lo hi : ℕ) → Option ℕ → Type 0
  FirstFree p lo hi none = (t : ℕ) → lo ≤ t → t < hi → is_free p t ≡ false
  FirstFree p lo hi (some s) =
      (lo ≤ s) × (s < hi) × (is_free p s ≡ true) × ((t : ℕ) → lo ≤ t → t < s → is_free p t ≡ false)

  is_free_at :
      (p : Page) (i j : ℕ)
      → j < 4
      → is_free p (i * 4 + j) ≡ not (bit_test (read_integer 1 p (free_bitmap_off + i)) (2 * j + 1))
  unfolding get_record_status
  is_free_at p i j h =
      ap₂ (λ a b. not (bit_test (read_integer 1 p a) b)) (omega arith) (omega arith)

  occupied_at :
      (p : Page) (i j : ℕ)
      → j < 4
      → bit_test (read_integer 1 p (free_bitmap_off + i)) (2 * j + 1) ≡ true
      → is_free p (i * 4 + j) ≡ false
  occupied_at p i j h on = is_free_at p i j h ∙ ap not on

  occupied_first :
      (p : Page) (i : ℕ)
      → bit_test (read_integer 1 p (free_bitmap_off + i)) 1 ≡ true
      → is_free p (i * 4) ≡ false
  occupied_first p i on = ap (is_free p) (omega arith) ∙ occupied_at p i 0 (omega arith) on

  byte-FirstFree :
      (p : Page) (i : ℕ) (found : Option ℕ)
      → answers (read_integer 1 p (free_bitmap_off + i)) found ≡ true
      → FirstFree p (i * 4) (i * 4 + 4) (Option.map (λ bit. i * 4 + bit / 2) found)
  byte-FirstFree p i none h =
      let on = answers-none _ h in
      one_of_four (λ t. is_free p t ≡ false) (i * 4) (occupied_first p i on.0)
        (occupied_at p i 1 (omega arith) on.1) (occupied_at p i 2 (omega arith) on.2)
        (occupied_at p i 3 (omega arith) on.3)
  byte-FirstFree p i (some bit) h =
      let off = answers-some _ bit h in
      let here : 2 * (bit / 2) + 1 ≡ bit + 1 = omega (arith, off) in
      (
        omega arith,
        omega (arith, off),
        is_free_at p i (bit / 2) (omega (arith, off))
            ∙ ap (λ b. not (bit_test (read_integer 1 p (free_bitmap_off + i)) b)) here
            ∙ ap not off.2,
        λ t lo hi.
            one_of_four (λ t. t < i * 4 + bit / 2 → is_free p t ≡ false) (i * 4)
              (λ l. occupied_first p i (off.3 (omega arith)))
              (λ l. occupied_at p i 1 (omega arith) (off.4 (omega arith)))
              (λ l. occupied_at p i 2 (omega arith) (off.5 (omega arith)))
              (λ l. absurd (omega (arith, off))) t lo (omega (arith, off)) hi,
      )

  -- A search that finds nothing in its first part goes on in the second.
  FirstFree-append :
      (p : Page) (lo mid hi : ℕ) (first rest : Option ℕ)
      → mid ≤ hi
      → lo ≤ mid
      → FirstFree p lo mid first
      → FirstFree p mid hi rest
      → FirstFree p lo hi (elim first [ some s ↦ some s | none ↦ rest ])
  FirstFree-append p lo mid hi (some s) rest h k a b = (a.0, omega arith, a.2, a.3)
  FirstFree-append p lo mid hi none none h k a b =
      λ t l u. elim (dec_lt t mid) [ yes below ↦ a t l below | no above ↦ b t (omega arith) u ]
  FirstFree-append p lo mid hi none (some s) h k a b = (
    omega arith,
    b.1,
    b.2,
    λ t l u. elim (dec_lt t mid) [ yes below ↦ a t l below | no above ↦ b.3 t (omega arith) u ],
  )

  scan_step :
      (p : Page) (i rounds : ℕ) (found rest : Option ℕ)
      → answers (read_integer 1 p (free_bitmap_off + i)) found ≡ true
      → FirstFree p ((i + 1) * 4) ((i + 1 + rounds) * 4) rest
      → FirstFree p
          (i * 4)
          ((i + suc rounds) * 4)
          (elim (Option.map (λ bit. i * 4 + bit / 2) found) [ some s ↦ some s | none ↦ rest ])
  scan_step p i rounds found rest h later =
      let here = byte-FirstFree p i found h in
      let lo : (i + 1) * 4 ≡ i * 4 + 4 = omega arith in
      let hi : (i + 1 + rounds) * 4 ≡ (i + suc rounds) * 4 = omega arith in
      FirstFree-append p (i * 4) (i * 4 + 4) ((i + suc rounds) * 4)
        (Option.map (λ bit. i * 4 + bit / 2) found) rest (omega arith) (omega arith) here
        (subst₂ (λ a b. FirstFree p a b rest) lo hi later)

  pub scan_bitmap-FirstFree :
      (p : Page) (i rounds : ℕ) → FirstFree p (i * 4) ((i + rounds) * 4) (scan_bitmap p i rounds)
  unfolding scan_bitmap
  scan_bitmap-FirstFree p i zero = λ t lo hi. absurd (omega arith)
  scan_bitmap-FirstFree p i (suc rounds) =
      let byte = read_integer 1 p (free_bitmap_off + i) in
      let next = scan_bitmap p (i + 1) rounds in
      subst (FirstFree p (i * 4) ((i + suc rounds) * 4)) (joined i next (free_bit_in_byte byte)) (
        scan_step p i rounds (free_bit_in_byte byte) next
          (answers_lem byte (read_integer-lt 1 p (free_bitmap_off + i)))
          (scan_bitmap-FirstFree p (i + 1) rounds))
    where
      joined :
          (i : ℕ) (rest found : Option ℕ)
          → (elim (Option.map (λ bit. i * 4 + bit / 2) found) [ some s ↦ some s | none ↦ rest ])
            ≡ (elim found [ some bit ↦ some (i * 4 + bit / 2) | none ↦ rest ])
      joined i rest none = refl
      joined i rest (some bit) = refl
