-- ===== src/DataPage/View.antt =====
-- What a data page stands for: a map from slots to records. `insert`, `purge` and the two delete
-- marks of `src/storage/data_page.cc` are updates of that map.
use mathlib.Core.Path.{ap₂, subst}
use native.Mathlib.Decide.{ℕ_discrete, dec_lt}
use vsql_vector.Base.{
  ℕ, zero, suc, ◌+◌, ◌-◌, ◌*◌, ◌^◌, ◌≤◌, ◌<◌, ◌≡◌, ◌≢◌, refl, ap, ◌∙◌, Bool, Option, none, some,
  List, [], ◌∷◌, inl, inr, arith, ◌==◌, if◌then◌else◌, length, get_or, ==_of_ne, ==_refl,
}
use vsql_vector.Page.Api.{PageApi, Apart}
use vsql_vector.DataPage.{
  DataPage, get_record_offset, get_record_status, bitmap_byte_offset, update_bitmap, write_record,
  free_bitmap_off, trx_ref_size, max_slot_index,
}
use vsql_vector.DataPage.Layout.{Covers}

-- What `init` sees to, of a layout whose bitmap has bits for all records.
pub record IsLayout (d : DataPage) : Type 0 where
  pub covers : Covers d
  pub first : d.first_rec_offset ≡ free_bitmap_off + d.free_bitmap_size
  pub size : trx_ref_size ≤ d.rec_size
  pub slots : d.max_num_recs ≤ max_slot_index + 1

-- A record in a slot that is not free.
pub record Record : Type 0 where
  pub deleted : Bool
  pub trx_ref : ℕ
  pub col_data : List ℕ

abbrev pub view_of : Bool × Bool → ℕ × List ℕ → Option Record
view_of (deleted, free) (trx_ref, col_data) =
    if free
    then none
    else some (record { deleted = deleted; trx_ref = trx_ref; col_data = col_data })

pub records-Apart :
    (first size s t : ℕ) → s ≢ t → Apart (first + s * size) size (first + t * size) size
records-Apart first size s t ne = elim (dec_lt s t) [
  | yes below ↦ inl (step s t below)
  | no above ↦ inr (step t s (omega arith))
]
  where
    step : (a b : ℕ) → a < b → first + a * size + size ≤ first + b * size
    step a b h = grind arith

module _ ⦃api : PageApi⦄ where
  open api use {Page, read_integer, write_integer, write_string, get_data}
  open api use {read-write_self, read-write_apart, read-write_string, get_data-write_integer}
  open api use {get_data-write_string, get_data-write_string_self}

  -- The bytes at an offset, as many as are asked for.
  unfoldable pub bytes_at : Page → ℕ → ℕ → List ℕ
  bytes_at p offset zero = []
  bytes_at p offset (suc n) = get_data p offset ∷ bytes_at p (offset + 1) n

  -- The transaction reference and the column data in a slot.
  unfoldable pub content : DataPage → Page → ℕ → ℕ × List ℕ
  content d p t =
      let offset = get_record_offset d t in
      (read_integer 8 p offset, bytes_at p (offset + trx_ref_size) (d.rec_size - trx_ref_size))

  -- The record in a slot, if the slot is not free.
  unfoldable pub view : DataPage → Page → ℕ → Option Record
  view d p t = view_of (get_record_status p t) (content d p t)

  pub bytes_at-same :
      (p q : Page) (n a : ℕ)
      → ((b : ℕ) → a ≤ b → b < a + n → get_data q b ≡ get_data p b)
      → bytes_at q a n ≡ bytes_at p a n
  unfolding bytes_at
  bytes_at-same p q zero a h = refl
  bytes_at-same p q (suc n) a h =
      ap₂ ◌∷◌ (h a (omega arith) (omega arith))
        (bytes_at-same p q n (a + 1) λ b l u. h b (omega arith) (omega arith))

  -- The bytes of a list that stands on the page.
  pub bytes_at-list :
      (q : Page) (l : List ℕ) (a : ℕ)
      → ((i : ℕ) → i < length l → get_data q (a + i) ≡ get_or l i 0)
      → bytes_at q a (length l) ≡ l
  unfolding bytes_at
  bytes_at-list q [] a h = refl
  bytes_at-list q (x ∷ l) a h =
      ap₂ ◌∷◌ (ap (get_data q) (omega arith) ∙ h 0 (omega arith))
        (bytes_at-list q l (a + 1) λ i lt. ap (get_data q) (omega arith) ∙ h (suc i) (omega arith))

  -- A page that agrees with another on a slot's record region has the same content there.
  pub content-same :
      (d : DataPage) (p q : Page) (t : ℕ)
      → trx_ref_size ≤ d.rec_size
      → read_integer 8 q (get_record_offset d t) ≡ read_integer 8 p (get_record_offset d t)
      → ((b : ℕ)
          → get_record_offset d t ≤ b
          → b < get_record_offset d t + d.rec_size
          → get_data q b ≡ get_data p b)
      → content d q t ≡ content d p t
  unfolding content
  content-same d p q t h e same =
      ap₂ (λ a b. (a, b)) e (bytes_at-same p q _ _ λ b l u. same b (omega arith) (omega arith))

  -- A write in front of the records changes none of them.
  pub content-write_integer :
      (d : DataPage) (p : Page) (w a v t : ℕ)
      → trx_ref_size ≤ d.rec_size
      → a + w ≤ d.first_rec_offset
      → content d (write_integer w p a v) t ≡ content d p t
  content-write_integer d p w a v t h below =
      content-same d p (write_integer w p a v) t h
        (read-write_apart w 8 p a _ v (inl (omega arith)))
        (λ b l u. get_data-write_integer w p a b v (inl (omega arith)))

  -- A write that misses a slot's byte of the bitmap leaves the slot's status alone.
  pub status-write_integer :
      (p : Page) (w a v t : ℕ)
      → Apart a w (bitmap_byte_offset t) 1
      → get_record_status (write_integer w p a v) t ≡ get_record_status p t
  unfolding get_record_status
  status-write_integer p w a v t h = rw (read-write_apart w 1 p a (bitmap_byte_offset t) v h)

  pub status-write_string :
      (p : Page) (a t : ℕ) (s : List ℕ)
      → Apart a (length s) (bitmap_byte_offset t) 1
      → get_record_status (write_string p a s) t ≡ get_record_status p t
  unfolding get_record_status
  status-write_string p a t s h = rw (read-write_string 1 p a (bitmap_byte_offset t) s h)

  -- Everything about one layout whose column data is of the length that the layout is made for.
  module _ (d : DataPage) (laid : IsLayout d) where
    pub bitmap_before_records :
        (t : ℕ) → t < d.max_num_recs → bitmap_byte_offset t + 1 ≤ d.first_rec_offset
    bitmap_before_records t h = omega arith

    record_after_first : (t : ℕ) → d.first_rec_offset ≤ get_record_offset d t
    record_after_first t = omega arith

    pub status-write_record :
        (p : Page) (s trx t : ℕ) (col_data : List ℕ)
        → t < d.max_num_recs
        → get_record_status (write_record d p s trx col_data) t ≡ get_record_status p t
    unfolding write_record
    status-write_record p s trx t col_data h =
        let before = bitmap_before_records t h in
        status-write_string _ _ t col_data (inr (omega (arith, before)))
        ∙ status-write_integer p 8 _ trx t (inr (omega (arith, before)))

    pub read-write_record :
        (p : Page) (w a s trx : ℕ) (col_data : List ℕ)
        → a + w ≤ d.first_rec_offset
        → read_integer w (write_record d p s trx col_data) a ≡ read_integer w p a
    unfolding write_record
    read-write_record p w a s trx col_data h =
        read-write_string w _ _ a col_data (inr (omega arith))
        ∙ read-write_apart 8 w p _ a trx (inr (omega arith))

    -- The content of the slot written to, and that of the others.
    pub content-write_record :
        (p : Page) (s trx t : ℕ) (col_data : List ℕ)
        → trx < 2 ^ 64
        → length col_data + trx_ref_size ≡ d.rec_size
        → content d (write_record d p s trx col_data) t
          ≡ (if s == t then (trx, col_data) else content d p t)
    unfolding write_record content
    content-write_record p s trx t col_data ht len = elim (ℕ_discrete s t) [
      | yes e ↦
          subst
            (λ u.
              content d (write_record d p s trx col_data) u
              ≡ (if s == u then (trx, col_data) else content d p u))
            e (rw (==_refl s) own)
      | no ne ↦ rw (==_of_ne s t ne) (other ne)
    ]
      where
        offset : ℕ
        offset = get_record_offset d s

        mid : Page
        mid = write_integer 8 p offset trx

        own : content d (write_record d p s trx col_data) s ≡ (trx, col_data)
        own =
            ap₂ (λ a b. (a, b))
              (read-write_string 8 mid (offset + 8) offset col_data (inr (omega arith))
                ∙ read-write_self 8 p offset trx ht)
              (ap (bytes_at (write_record d p s trx col_data) (offset + 8)) (omega arith)
                ∙ bytes_at-list (write_record d p s trx col_data) col_data (offset + 8)
                    λ i lt. get_data-write_string_self mid (offset + 8) i col_data lt)

        other : s ≢ t → content d (write_record d p s trx col_data) t ≡ content d p t
        other ne =
            let apart = records-Apart d.first_rec_offset d.rec_size s t ne in
            content-same d p (write_record d p s trx col_data) t laid.size
              (read-write_string 8 mid (offset + 8) _ col_data (omega arith)
                ∙ read-write_apart 8 8 p offset _ trx (omega arith))
              λ b l u.
                get_data-write_string mid (offset + 8) b col_data (omega arith)
                ∙ get_data-write_integer 8 p offset b trx (omega arith)

    -- A change of the bitmap, also of bits that no slot of the page owns.
    pub content-update_bitmap_before :
        (p : Page) (s t : ℕ) (f : ℕ → ℕ → ℕ)
        → bitmap_byte_offset s + 1 ≤ d.first_rec_offset
        → content d (update_bitmap p s f) t ≡ content d p t
    content-update_bitmap_before p s t f before =
        content-write_integer d p 1 (bitmap_byte_offset s) _ t laid.size before

    pub content-update_bitmap :
        (p : Page) (s t : ℕ) (f : ℕ → ℕ → ℕ)
        → s < d.max_num_recs
        → content d (update_bitmap p s f) t ≡ content d p t
    content-update_bitmap p s t f h =
        content-update_bitmap_before p s t f (bitmap_before_records s h)
