-- ===== src/DataPage/Refine.antt =====
-- The operations of a data page as updates of the map from slots to records.
use mathlib.Core.Path.{ap₂}
use vsql_vector.Base.{
  ℕ, ◌+◌, ◌^◌, ◌≤◌, ◌<◌, ◌≡◌, refl, ap, ◌∙◌, Bool, true, false, not, ◌&&◌, Option, none, some, List,
  inl, inr, arith, leb, leb-lt, ◌==◌, if◌then◌else◌, Bool-cases, length,
}
use vsql_vector.Page.Api.{PageApi}
use vsql_vector.DataPage.{
  bitmap_byte_offset, DataPage, get_record_offset, get_record_status, write_record,
  set_record_delete, set_record_undelete, set_record_free, set_record_allocated, insert_at, purge,
  num_free_recs_off, trx_ref_size, delete_byte, undelete_byte, free_byte, allocate_byte,
}
use vsql_vector.DataPage.Status.{
  status-set_record_delete, status-set_record_undelete, status-set_record_free,
  status-set_record_allocated,
}
use vsql_vector.DataPage.View.{
  IsLayout, Record, view_of, content, view, content-write_integer, status-write_integer,
  status-write_record, content-write_record, content-update_bitmap, content-update_bitmap_before,
  bitmap_before_records,
}

-- A record with its delete mark set or taken away.
abbrev pub with_mark : Bool → Option Record → Option Record
with_mark mark none = none
with_mark mark (some r) = some (record r { deleted = mark })

-- Whether a slot holds a record that the transaction wrote.
abbrev pub owned_by : ℕ → Option Record → Bool
owned_by trx none = false
owned_by trx (some r) = r.trx_ref == trx

view_of-mark :
    (b mark : Bool) (status : Bool × Bool) (c : ℕ × List ℕ)
    → view_of (if b then (mark, status.1) else status) c
      ≡ (if b then with_mark mark (view_of status c) else view_of status c)
view_of-mark true mark (deleted, true) c = refl
view_of-mark true mark (deleted, false) c = refl
view_of-mark false mark status c = refl

module _ ⦃api : PageApi⦄ (d : DataPage) (laid : IsLayout d) where
  open api use {Page, read_integer, write_integer}

  -- Marking a record as deleted changes the mark of that record alone.
  pub view-set_record_delete :
      (p : Page) (s t : ℕ)
      → s < d.max_num_recs
      → view d (set_record_delete p s) t
        ≡ (if s == t then with_mark true (view d p t) else view d p t)
  unfolding view set_record_delete
  view-set_record_delete p s t h =
      ap₂ view_of (status-set_record_delete p s t)
        (content-update_bitmap d laid p s t delete_byte h)
      ∙ view_of-mark (s == t) true (get_record_status p t) (content d p t)

  -- Taking the delete mark away changes the mark of that record alone.
  pub view-set_record_undelete :
      (p : Page) (s t : ℕ)
      → s < d.max_num_recs
      → view d (set_record_undelete p s) t
        ≡ (if s == t then with_mark false (view d p t) else view d p t)
  unfolding view set_record_undelete
  view-set_record_undelete p s t h =
      ap₂ view_of (status-set_record_undelete p s t)
        (content-update_bitmap d laid p s t undelete_byte h)
      ∙ view_of-mark (s == t) false (get_record_status p t) (content d p t)

  -- A write to the counter of free records changes no slot.
  view-write_counter :
      (p : Page) (v t : ℕ) → view d (write_integer 2 p num_free_recs_off v) t ≡ view d p t
  unfolding view
  view-write_counter p v t =
      ap₂ view_of (status-write_integer p 2 num_free_recs_off v t (inl (omega arith)))
        (content-write_integer d p 2 num_free_recs_off v t laid.size (omega arith))

  view-set_record_free :
      (p : Page) (s t : ℕ)
      → s < d.max_num_recs
      → view d (set_record_free p s) t ≡ (if s == t then none else view d p t)
  unfolding view set_record_free
  view-set_record_free p s t h =
      ap₂ view_of (status-set_record_free p s t) (content-update_bitmap d laid p s t free_byte h)
      ∙ pick (s == t)
    where
      pick :
          (b : Bool)
          → view_of (if b then (false, true) else get_record_status p t) (content d p t)
            ≡ (if b then none else view_of (get_record_status p t) (content d p t))
      pick true = refl
      pick false = refl

  -- `insert` puts the new record, not marked as deleted, in its slot, and leaves every other slot
  -- as it was, if the bits of the slot are in the bitmap.
  pub view-insert_at_before :
      (p : Page) (s trx t : ℕ) (col_data : List ℕ)
      → bitmap_byte_offset s + 1 ≤ d.first_rec_offset
      → t < d.max_num_recs
      → trx < 2 ^ 64
      → length col_data + trx_ref_size ≡ d.rec_size
      → view d (insert_at d p s trx col_data).0 t ≡ (
          if s == t
          then some (record { deleted = false; trx_ref = trx; col_data = col_data })
          else view d p t)
  unfolding insert_at
  view-insert_at_before p s trx t col_data before ht htrx len =
      view-write_counter (set_record_allocated (write_record d p s trx col_data) s) _ t ∙ allocated
    where
      written : Page
      written = write_record d p s trx col_data

      status :
          get_record_status (set_record_allocated written s) t
          ≡ (if s == t then (false, false) else get_record_status p t)
      status =
          status-set_record_allocated written s t
          ∙ ap (λ u. if s == t then (false, false) else u)
              (status-write_record d laid p s trx t col_data ht)

      held :
          content d (set_record_allocated written s) t
          ≡ (if s == t then (trx, col_data) else content d p t)
      held =
          unfold set_record_allocated in
          content-update_bitmap_before d laid written s t allocate_byte before
          ∙ content-write_record d laid p s trx t col_data htrx len

      pick :
          (b : Bool)
          → view_of
              (if b then (false, false) else get_record_status p t)
              (if b then (trx, col_data) else content d p t)
            ≡ (if b
                then some (record { deleted = false; trx_ref = trx; col_data = col_data })
                else view_of (get_record_status p t) (content d p t))
      pick true = refl
      pick false = refl

      allocated : view d (set_record_allocated written s) t ≡ (
          if s == t
          then some (record { deleted = false; trx_ref = trx; col_data = col_data })
          else view d p t)
      allocated = unfold view in ap₂ view_of status held ∙ pick (s == t)

  pub view-insert_at :
      (p : Page) (s trx t : ℕ) (col_data : List ℕ)
      → s < d.max_num_recs
      → t < d.max_num_recs
      → trx < 2 ^ 64
      → length col_data + trx_ref_size ≡ d.rec_size
      → view d (insert_at d p s trx col_data).0 t ≡ (
          if s == t
          then some (record { deleted = false; trx_ref = trx; col_data = col_data })
          else view d p t)
  view-insert_at p s trx t col_data hs =
      view-insert_at_before p s trx t col_data (bitmap_before_records d laid s hs)

  owned_by-view :
      (p : Page) (s trx : ℕ)
      → owned_by trx (view d p s)
        ≡ (not (get_record_status p s).1 && (read_integer 8 p (get_record_offset d s) == trx))
  unfolding view content
  owned_by-view p s trx = pick (get_record_status p s).1
    where
      pick :
          (free : Bool)
          → owned_by trx (view_of ((get_record_status p s).0, free) (content d p s))
            ≡ (not free && (read_integer 8 p (get_record_offset d s) == trx))
      pick true = refl
      pick false = refl

  -- `purge` refuses a slot that the page does not have. It frees the slot of a record that the
  -- transaction wrote, deleted or not, and leaves the page alone otherwise; no other slot changes.
  pub purge_lem :
      (p : Page) (s trx : ℕ)
      → let (p', purged, failed) = purge d p s trx in
        (failed ≡ leb d.max_num_recs s)
        × (purged ≡ (not failed && owned_by trx (view d p s)))
        × ((t : ℕ) → view d p' t ≡ (if purged && (s == t) then none else view d p t))
  unfolding purge
  purge_lem p s trx = rw (owned_by-view p s trx) (elim (Bool-cases (leb d.max_num_recs s)) [
    | inl outside ↦ rw outside (refl, refl, λ t. refl)
    | inr inside ↦ rw inside (elim (Bool-cases (get_record_status p s).1) [
      | inl free ↦ rw free (refl, refl, λ t. refl)
      | inr used ↦ rw used (elim (Bool-cases (read_integer 8 p (get_record_offset d s) == trx)) [
        | inl match ↦ rw match (
          refl,
          refl,
          λ t.
              view-write_counter (set_record_free p s) _ t
              ∙ view-set_record_free p s t (leb-lt _ _ inside),
        )
        | inr differs ↦ rw differs (refl, refl, λ t. refl)
      ])
    ])
  ])
