-- ===== src/DataPage/Insert.antt =====
-- `DataPage::insert` as a whole, from the search for a slot to the column reference.
use mathlib.Core.Path.{subst}
use vsql_vector.Base.{
  ℕ, ◌+◌, ◌-◌, ◌%◌, ◌^◌, ◌<◌, ◌≡◌, sym, true, false, some, List, arith, ◌==◌, if◌then◌else◌, length,
}
use vsql_vector.Page.Api.{PageApi}
use vsql_vector.DataPage.{
  DataPage, insert, insert_at, find_free_slot, encode_column_ref, decode_column_ref, trx_ref_size,
  num_free_recs_off,
}
use vsql_vector.DataPage.ColumnRef.{decode-encode_untagged}
use vsql_vector.DataPage.FirstFree.{is_free}
use vsql_vector.DataPage.Scan.{find_free_slot_lem}
use vsql_vector.DataPage.View.{IsLayout, Record, view}
use vsql_vector.DataPage.Refine.{view-insert_at}
use vsql_vector.DataPage.Count.{IsConsistent, insert_at-IsConsistent, count-pos}

module _ ⦃api : PageApi⦄ (d : DataPage) where
  open api use {Page, read_integer, read-write_self}

  -- The hint that is left behind is within the page.
  hint-insert_at :
      (p : Page) (s trx : ℕ) (col_data : List ℕ)
      → s < d.max_num_recs
      → (insert_at d p s trx col_data).1 < d.max_num_recs
  unfolding insert_at
  hint-insert_at p s trx col_data h = ground arith

  -- What an insert into a slot comes to: the page, the column reference and the hint.
  insert-found :
      (p : Page) (page_ref s trx hint : ℕ) (col_data : List ℕ)
      → find_free_slot d p hint ≡ some s
      → insert d p page_ref trx col_data hint ≡ (
        (insert_at d p s trx col_data).0,
        encode_column_ref page_ref s,
        (insert_at d p s trx col_data).1,
      )
  unfolding insert
  insert-found p page_ref s trx hint col_data e = rw e

  -- The record that an insert leaves in its slot.
  abbrev pub new_record : ℕ → List ℕ → Record
  new_record trx col_data = record { deleted = false; trx_ref = trx; col_data = col_data }

  -- What a client may rely on after an insert: the column reference leads to the page and to a slot
  -- that was free, that slot now holds the record, all other slots are as they were, the counters
  -- are right, and the hint is within the page.
  pub record Inserted (p : Page) (page_ref trx : ℕ) (col_data : List ℕ) (out : Page × ℕ × ℕ)
      : Type 0 where
    pub slot : ℕ
    pub within : slot < d.max_num_recs
    pub was_free : is_free p slot ≡ true
    pub refers : decode_column_ref out.1 ≡ (page_ref, slot)
    pub holds :
        (t : ℕ)
        → t < d.max_num_recs
        → view d out.0 t ≡ (if slot == t then some (new_record trx col_data) else view d p t)
    pub consistent : IsConsistent d out.0
    pub hint_within : out.2 < d.max_num_recs

  -- `insert` does what it should whenever the search gives it a free slot of the page.
  insert_found_lem :
      (p : Page) (page_ref s trx hint : ℕ) (col_data : List ℕ)
      → IsLayout d
      → IsConsistent d p
      → find_free_slot d p hint ≡ some s
      → s < d.max_num_recs
      → is_free p s ≡ true
      → page_ref < 2 ^ 32
      → trx < 2 ^ 64
      → length col_data + trx_ref_size ≡ d.rec_size
      → Inserted p page_ref trx col_data (insert d p page_ref trx col_data hint)
  insert_found_lem p page_ref s trx hint col_data laid c found hs free hp ht len =
      subst (Inserted p page_ref trx col_data)
        (sym (insert-found p page_ref s trx hint col_data found))
        (record {
          slot = s;
          within = hs;
          was_free = free;
          refers = decode-encode_untagged page_ref s hp (omega (arith, laid.slots));
          holds = λ t lt. view-insert_at d laid p s trx t col_data hs lt ht len;
          consistent = insert_at-IsConsistent d laid p s trx col_data hs free len c;
          hint_within = hint-insert_at p s trx col_data hs;
        })

  -- On a consistent page with a free record left, whose layout has a multiple of four records,
  -- `insert` with a hint within the page stores the record in a slot that was free and touches no
  -- other slot; it returns a reference to that slot, keeps the counters right, and leaves a hint
  -- that is within the page.
  pub insert_lem :
      (p : Page) (page_ref trx hint : ℕ) (col_data : List ℕ)
      → IsLayout d
      → IsConsistent d p
      → d.max_num_recs % 4 ≡ 0
      → 0 < read_integer 2 p num_free_recs_off
      → hint < d.max_num_recs
      → page_ref < 2 ^ 32
      → trx < 2 ^ 64
      → length col_data + trx_ref_size ≡ d.rec_size
      → Inserted p page_ref trx col_data (insert d p page_ref trx col_data hint)
  insert_lem p page_ref trx hint col_data laid c four some_free hh hp ht len =
      let (t, lt, free) = count-pos (is_free p) d.max_num_recs (omega (arith, c.counted)) in
      let (s, found, ok, within) =
        find_free_slot_lem d p hint t hh (omega (arith, laid.slots)) lt free in
      insert_found_lem p page_ref s trx hint col_data laid c found (within four) ok hp ht len

  -- An insert that is given the slot behind the last one: no slot of the page changes, the
  -- counter of free records goes down all the same, and the hint starts again at 0.
  abbrev pub Lost : Page → (page_ref : ℕ) → Page × ℕ × ℕ → Type 0
  Lost p page_ref out =
      (decode_column_ref out.1 ≡ (page_ref, d.max_num_recs))
      × ((t : ℕ) → t < d.max_num_recs → view d out.0 t ≡ view d p t)
      × (read_integer 2 out.0 num_free_recs_off
          ≡ (read_integer 2 p num_free_recs_off + 2 ^ 16 - 1) % 2 ^ 16)
      × (out.2 ≡ 0)
