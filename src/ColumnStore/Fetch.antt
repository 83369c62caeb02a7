-- ===== src/ColumnStore/Fetch.antt =====
-- What a client reads through `ColumnStore::fetch`, and what it reads after `insert` and
-- `mark_delete`: `src/storage/storage.cc`.
use mathlib.Core.Path.{subst}
use vsql_vector.Base.{
  ℕ, ◌+◌, ◌-◌, ◌%◌, ◌^◌, ◌<◌, ◌≡◌, ◌≢◌, refl, ap, sym, ◌∙◌, true, false, not, Option, none, some,
  List, inl, inr, arith, ◌==◌, ==_refl, ==_of_ne, if◌then◌else◌, Bool-cases, length,
}
use vsql_vector.Page.Api.{PageApi}
use vsql_vector.Page.Store.{Store, modify, pages-modify_self, pages-modify_ne}
use vsql_vector.DataPage.{decode_column_ref, get_record_status, trx_ref_size, num_free_recs_off}
use vsql_vector.DataPage.{insert as insert_record}
use vsql_vector.DataPage.View.{IsLayout, Record, view, content, bytes_at}
use vsql_vector.DataPage.Count.{IsConsistent}
use vsql_vector.DataPage.Insert.{Inserted, insert_lem, new_record}
use vsql_vector.RootPage.{LastSlotInfo}
use vsql_vector.ColumnStore.{
  ColumnStore, Outcome, failed, done, Fetched, Surroundings, fetch, load_data_page, size_mismatch,
  load_root_page,
}
use vsql_vector.ColumnStore.Insert.{insert, insert_into, choose_page}

module _ ⦃api : PageApi⦄ (c : ColumnStore) where
  open api use {Page, read_integer}

  -- The record that the result of `fetch` shows to its caller, who reads the column data from the page.
  abbrev pub fetched_record : Page → Outcome Fetched → Option Record
  fetched_record p (failed error) = none
  fetched_record p (done f) = some (record {
    deleted = f.delete_marked;
    trx_ref = f.trx_ref;
    col_data = bytes_at p f.data_offset f.data_length;
  })

  -- `fetch` fails when the page cannot be loaded. Otherwise it shows the record in the slot that the
  -- column reference leads to, deleted or not, and fails when that slot is free.
  pub fetch_lem :
      (st : Store) (col_ref : ℕ)
      → c.root.column_size + trx_ref_size ≡ c.data_page.rec_size
      → let (data_page_ref, slot_index) = decode_column_ref col_ref in
        let p = st.pages data_page_ref in
        (st.loads data_page_ref ≡ false → fetch c st col_ref ≡ failed load_data_page)
        × (st.loads data_page_ref ≡ true
            → fetched_record p (fetch c st col_ref) ≡ view c.data_page p slot_index)
  unfolding fetch view content
  fetch_lem st col_ref size =
      let (a, s) = decode_column_ref col_ref in
      let p = st.pages a in
      let long : c.root.column_size ≡ c.data_page.rec_size - trx_ref_size = omega (arith, size) in
      (
        λ e. rw e refl,
        λ e.
            rw (e, sym long)
              (elim (Bool-cases (get_record_status p s).1) [
                | inl free ↦ rw free refl
                | inr used ↦ rw used refl
              ]),
      )

  -- What an insert comes to, for a client of the column store: it returns a column reference, by which
  -- `fetch` shows the record from then on. The page `a` that it was put on is consistent again, the
  -- hint is within the page, and no other page and no other record is any different.
  pub record Stored (st1 : Store) (a trx_ref : ℕ) (col_data : List ℕ)
      (out : Store × LastSlotInfo × Outcome ℕ) : Type 0 where
    pub col_ref : ℕ
    pub returned : out.2 ≡ done col_ref
    pub shown :
        fetched_record (out.0.pages (decode_column_ref col_ref).0) (fetch c out.0 col_ref)
        ≡ some (new_record c.data_page trx_ref col_data)
    pub slot : ℕ
    pub refers : decode_column_ref col_ref ≡ (a, slot)
    pub other_slots :
        (t : ℕ)
        → t < c.data_page.max_num_recs
        → slot ≢ t
        → view c.data_page (out.0.pages a) t ≡ view c.data_page (st1.pages a) t
    pub other_pages : (b : ℕ) → a ≢ b → out.0.pages b ≡ st1.pages b
    pub consistent : IsConsistent c.data_page (out.0.pages a)
    pub hint_within : out.1.next_free_rec_hint < c.data_page.max_num_recs

  -- Where a record may be inserted: a page that loads, is consistent and has a free record, and a hint
  -- within it, in a layout with a multiple of four records.
  pub record Ready (st : Store) (a hint trx_ref : ℕ) (col_data : List ℕ) : Type 0 where
    pub layout : IsLayout c.data_page
    pub four : c.data_page.max_num_recs % 4 ≡ 0
    pub size : c.root.column_size + trx_ref_size ≡ c.data_page.rec_size
    pub page_ref : a < 2 ^ 32
    pub loads : st.loads a ≡ true
    pub consistent : IsConsistent c.data_page (st.pages a)
    pub some_free : 0 < read_integer 2 (st.pages a) num_free_recs_off
    pub hint_within : hint < c.data_page.max_num_recs
    pub trx : trx_ref < 2 ^ 64
    pub long : length col_data ≡ c.root.column_size

  insert_into-Stored :
      (st : Store) (info : LastSlotInfo) (a trx_ref : ℕ) (col_data : List ℕ)
      → Ready st a info.next_free_rec_hint trx_ref col_data
      → Stored st a trx_ref col_data (insert_into c st info a trx_ref col_data)
  unfolding insert_into
  insert_into-Stored st info a trx_ref col_data r = record {
    col_ref = out.1;
    returned = refl;
    shown =
        (fetch_lem st' out.1 r.size).1 (ap (λ (d : ℕ × ℕ). st.loads d.0) ins.refers ∙ r.loads)
        ∙ ap (λ (d : ℕ × ℕ). view c.data_page (st'.pages d.0) d.1) ins.refers
        ∙ ap (λ p. view c.data_page p ins.slot) here
        ∙ held;
    slot = ins.slot;
    refers = ins.refers;
    other_slots = λ t lt ne.
        ap (λ p. view c.data_page p t) here ∙ ins.holds t lt ∙ rw (==_of_ne ins.slot t ne) refl;
    other_pages = λ b ne. pages-modify_ne st a b (λ _. out.0) ne;
    consistent = subst (IsConsistent c.data_page) (sym here) ins.consistent;
    hint_within = ins.hint_within;
  }
    where
      out : Page × ℕ × ℕ
      out = insert_record c.data_page (st.pages a) a trx_ref col_data info.next_free_rec_hint

      st' : Store
      st' = modify st a λ _. out.0

      here : st'.pages a ≡ out.0
      here = pages-modify_self st a λ _. out.0

      ins : Inserted c.data_page (st.pages a) a trx_ref col_data out
      ins =
          insert_lem c.data_page (st.pages a) a trx_ref info.next_free_rec_hint col_data r.layout
            r.consistent r.four r.some_free r.hint_within r.page_ref r.trx
            (omega (arith, r.long, r.size))

      held : view c.data_page out.0 ins.slot ≡ some (new_record c.data_page trx_ref col_data)
      held = ins.holds ins.slot ins.within ∙ rw (==_refl ins.slot) refl

  -- An insert of column data of the column's size succeeds once a data page has been chosen for it that
  -- is ready for the record, with the hint that the thread keeps: the record is stored there. So a
  -- `fetch` by the column reference that it returns shows the record.
  pub insert-fetch :
      (st st1 : Store) (around : Surroundings) (info info1 : LastSlotInfo) (a trx_ref : ℕ)
      (col_data : List ℕ)
      → st.loads c.root_page_ref ≡ true
      → choose_page c st around info ≡ (st1, info1, done a)
      → Ready st1 a info1.next_free_rec_hint trx_ref col_data
      → Stored st1 a trx_ref col_data (insert c st around info trx_ref (some col_data))
  unfolding insert
  insert-fetch st st1 around info info1 a trx_ref col_data root chosen r =
      subst (Stored st1 a trx_ref col_data)
        (sym (ap with_page chosen ∙ rw (r.long, ==_refl c.root.column_size, root) refl))
        (insert_into-Stored st1 info1 a trx_ref col_data r)
    where
      with_page : Store × LastSlotInfo × Outcome ℕ → Store × LastSlotInfo × Outcome ℕ
      with_page (st2, info2, out) =
          if not (length col_data == c.root.column_size)
          then (st, info, failed size_mismatch)
          else if not (st.loads c.root_page_ref)
          then (st, info, failed load_root_page)
          else elim out [
            | failed error ↦ (st2, info2, failed error)
            | done b ↦ insert_into c st2 info2 b trx_ref col_data
          ]
