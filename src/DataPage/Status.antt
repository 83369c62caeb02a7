-- ===== src/DataPage/Status.antt =====
-- The two status bits of a record: what each of the four writes of `DataPage` to the bitmap does
-- to the status of every slot.
use vsql_vector.Base.{
  ℕ, ◌+◌, ◌%◌, ◌<◌, ◌≡◌, ◌≢◌, sym, ap, Bool, true, false, not, arith, ◌==◌, ==_of_ne, if◌then◌else◌,
  bit_test, set_bit, clear_bit, bit_test-set_bit, bit_test-clear_bit, set_bit-lt, clear_bit-lt,
}
use native.Mathlib.Decide.{ℕ_discrete}
use vsql_vector.Page.Api.{PageApi}
use vsql_vector.DataPage.{
  delete_byte, undelete_byte, free_byte, allocate_byte, bitmap_byte_offset, bitmap_bit_offset,
  update_bitmap, get_record_status, set_record_delete, set_record_undelete, set_record_free,
  set_record_allocated, delete_mark_bit, free_bit,
}

-- The status that a byte of the bitmap gives to the slot at an offset in it.
abbrev status_of : ℕ → ℕ → Bool × Bool
status_of byte bit = (bit_test byte (bit + delete_mark_bit), not (bit_test byte (bit + free_bit)))

-- A change of a byte at one slot's bits gives that slot a status and spares the others.
abbrev Changes : (ℕ → ℕ → ℕ) → (Bool × Bool → Bool × Bool) → Type 0
Changes f g =
    (byte bit at : ℕ)
    → byte < 256
    → bit < 8
    → at < 8
    → bit % 2 ≡ 0
    → at % 2 ≡ 0
    → (f byte bit < 256)
      × (status_of (f byte bit) at
          ≡ (if bit == at then g (status_of byte at) else status_of byte at))

delete_Changes : Changes delete_byte (λ (_, free). (true, free))
delete_Changes byte bit at hb hi ha ei ea = (
  set_bit-lt byte (bit + 0) hb (omega arith),
  ground (
    arith,
    bit_test-set_bit byte (bit + 0) (at + 0) hb (omega arith) (omega arith),
    bit_test-set_bit byte (bit + 0) (at + 1) hb (omega arith) (omega arith),
  ),
)

undelete_Changes : Changes undelete_byte (λ (_, free). (false, free))
undelete_Changes byte bit at hb hi ha ei ea = (
  clear_bit-lt byte (bit + 0) hb (omega arith),
  ground (
    arith,
    bit_test-clear_bit byte (bit + 0) (at + 0) hb (omega arith) (omega arith),
    bit_test-clear_bit byte (bit + 0) (at + 1) hb (omega arith) (omega arith),
  ),
)

free_Changes : Changes free_byte (λ _. (false, true))
free_Changes byte bit at hb hi ha ei ea =
    let mid = clear_bit-lt byte (bit + 1) hb (omega arith) in
    (
      clear_bit-lt (clear_bit byte (bit + 1)) (bit + 0) mid (omega arith),
      ground (
        arith,
        bit_test-clear_bit (clear_bit byte (bit + 1)) (bit + 0) (at + 0) mid,
        bit_test-clear_bit (clear_bit byte (bit + 1)) (bit + 0) (at + 1) mid,
        bit_test-clear_bit byte (bit + 1) (at + 0) hb,
        bit_test-clear_bit byte (bit + 1) (at + 1) hb,
      ),
    )

allocate_Changes : Changes allocate_byte (λ _. (false, false))
allocate_Changes byte bit at hb hi ha ei ea =
    let mid = set_bit-lt byte (bit + 1) hb (omega arith) in
    (
      clear_bit-lt (set_bit byte (bit + 1)) (bit + 0) mid (omega arith),
      ground (
        arith,
        bit_test-clear_bit (set_bit byte (bit + 1)) (bit + 0) (at + 0) mid,
        bit_test-clear_bit (set_bit byte (bit + 1)) (bit + 0) (at + 1) mid,
        bit_test-set_bit byte (bit + 1) (at + 0) hb,
        bit_test-set_bit byte (bit + 1) (at + 1) hb,
      ),
    )

module _ ⦃api : PageApi⦄ where
  open api use {
    Page, read_integer, write_integer, read_integer-lt, read-write_self, read-write_apart,
  }

  -- A slot whose bits stand in the byte that is written.
  same_byte :
      (f : ℕ → ℕ → ℕ) (g : Bool × Bool → Bool × Bool)
      → Changes f g
      → (p : Page) (s t : ℕ) → bitmap_byte_offset t ≡ bitmap_byte_offset s
      → get_record_status (update_bitmap p s f) t
        ≡ (if s == t then g (get_record_status p t) else get_record_status p t)
  unfolding get_record_status
  same_byte f g changes p s t e =
      let byte = read_integer 1 p (bitmap_byte_offset s) in
      let changed =
        changes byte (bitmap_bit_offset s) (bitmap_bit_offset t)
          (read_integer-lt 1 p (bitmap_byte_offset s)) (omega arith) (omega arith) (omega arith)
          (omega arith) in
      let same : (bitmap_bit_offset s == bitmap_bit_offset t) ≡ (s == t) = ground arith in
      rw
        (
          e,
          read-write_self 1 p (bitmap_byte_offset s) (f byte (bitmap_bit_offset s)) changed.0,
          ← same,
        )
        changed.1

  other_byte :
      (f : ℕ → ℕ → ℕ) (p : Page) (s t : ℕ)
      → bitmap_byte_offset t ≢ bitmap_byte_offset s
      → get_record_status (update_bitmap p s f) t ≡ get_record_status p t
  unfolding get_record_status
  other_byte f p s t ne =
      ap (λ byte. status_of byte (bitmap_bit_offset t))
        (read-write_apart 1 1 p (bitmap_byte_offset s) (bitmap_byte_offset t) _ (omega arith))

  status-update_bitmap :
      (f : ℕ → ℕ → ℕ) (g : Bool × Bool → Bool × Bool)
      → Changes f g
      → (p : Page) (s t : ℕ)
      → get_record_status (update_bitmap p s f) t
        ≡ (if s == t then g (get_record_status p t) else get_record_status p t)
  status-update_bitmap f g changes p s t =
      elim (ℕ_discrete (bitmap_byte_offset t) (bitmap_byte_offset s)) [
        | yes e ↦ same_byte f g changes p s t e
        | no ne ↦
            rw (==_of_ne s t (λ e. ne (ap bitmap_byte_offset (sym e)))) (other_byte f p s t ne)
      ]

  -- `set_record_delete` marks the record of its slot as deleted and keeps whether it is free; the
  -- status of every other slot stays as it was.
  pub status-set_record_delete :
      (p : Page) (s t : ℕ)
      → get_record_status (set_record_delete p s) t
        ≡ (if s == t then (true, (get_record_status p t).1) else get_record_status p t)
  unfolding set_record_delete
  status-set_record_delete p s t =
      status-update_bitmap delete_byte (λ (_, free). (true, free)) delete_Changes p s t

  -- `set_record_undelete` takes the delete mark of its slot away and keeps whether it is free; the
  -- status of every other slot stays as it was.
  pub status-set_record_undelete :
      (p : Page) (s t : ℕ)
      → get_record_status (set_record_undelete p s) t
        ≡ (if s == t then (false, (get_record_status p t).1) else get_record_status p t)
  unfolding set_record_undelete
  status-set_record_undelete p s t =
      status-update_bitmap undelete_byte (λ (_, free). (false, free)) undelete_Changes p s t

  -- `set_record_free` makes its slot free and not marked as deleted; the status of every other
  -- slot stays as it was.
  pub status-set_record_free :
      (p : Page) (s t : ℕ)
      → get_record_status (set_record_free p s) t
        ≡ (if s == t then (false, true) else get_record_status p t)
  unfolding set_record_free
  status-set_record_free p s t =
      status-update_bitmap free_byte (λ _. (false, true)) free_Changes p s t

  -- `set_record_allocated` makes its slot occupied and not marked as deleted; the status of every
  -- other slot stays as it was.
  pub status-set_record_allocated :
      (p : Page) (s t : ℕ)
      → get_record_status (set_record_allocated p s) t
        ≡ (if s == t then (false, false) else get_record_status p t)
  unfolding set_record_allocated
  status-set_record_allocated p s t =
      status-update_bitmap allocate_byte (λ _. (false, false)) allocate_Changes p s t
