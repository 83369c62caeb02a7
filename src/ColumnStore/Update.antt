-- ===== src/ColumnStore/Update.antt =====
-- `ColumnStore::update` as a whole: `src/storage/storage.cc`. It writes all of the chunks or none.
use mathlib.Core.Path.{ap₂, subst}
use mathlib.Core.Bool.{false≢true}
use mathlib.Core.Option
use vsql_vector.Base.{
  ℕ, ◌+◌, ◌/◌, ◌≤◌, ◌<◌, ◌≡◌, ◌≢◌, refl, ap, sym, ◌∙◌, Bool, true, false, not, ◌||◌, Option, none,
  some, List, [], ◌∷◌, inr, arith, ltb, leb, ◌==◌, ==_iff, ==_of_ne, if◌then◌else◌, length, get_or,
  ltb_of_le, leb-lt,
}
use vsql_vector.Page.Api.{PageApi}
use vsql_vector.Page.Links.{contains}
use vsql_vector.Page.Store.{Store, modify, pages-modify_self, pages-modify_ne}
use vsql_vector.DataPage.{
  decode_column_ref, get_record_status, get_record_offset, bitmap_byte_offset, trx_ref_size,
}
use vsql_vector.DataPage.View.{
  IsLayout, view, view_of, content, content-same, records-Apart, bitmap_before_records,
}
use vsql_vector.ColumnStore.{
  ColumnStore, Outcome, StoreError, failed, done, check_chunks, write_chunks, update, bad_arguments,
  load_data_page, slot_is_free,
}
use vsql_vector.ColumnStore.Chunks.{
  Within, Increasing, get_data-write_chunks, get_data-write_chunks_keep, read-write_chunks,
}

passed :
    (b : Bool) (error : StoreError) (rest : Option StoreError)
    → (if b then some error else rest) ≡ none
    → (b ≡ false) × (rest ≡ none)
passed true error rest h = absurd (Option.some-ne-none error h)
passed false error rest h = (refl, h)

leb-none : (a b : ℕ) → b < a → leb a b ≡ false
leb-none a b h = ground arith

ltb-none : (a b : ℕ) → ltb a b ≡ false → b ≤ a
ltb-none a b h = ground arith

abbrev Checked : (size len : ℕ) → Option ℕ → List ℕ → Type 0
Checked size len prev chunk_ids = Within size len chunk_ids × Increasing prev chunk_ids

check_chunks-Checked :
    (size len : ℕ) (prev : Option ℕ) (chunk_ids : List ℕ)
    → check_chunks size len prev chunk_ids ≡ none
    → Checked size len prev chunk_ids
unfolding check_chunks
check_chunks-Checked size len prev [] h = (tt, tt)
check_chunks-Checked size len none (chunk ∷ chunk_ids) h =
    let (inside, rest) = passed _ _ _ h in
    let (within, increasing) = check_chunks-Checked size len (some chunk) chunk_ids rest in
    ((ltb-none _ _ inside, within), increasing)
check_chunks-Checked size len (some prev) (chunk ∷ chunk_ids) h =
    let (above, next) = passed _ _ _ h in
    let (inside, rest) = passed _ _ _ next in
    let (within, increasing) = check_chunks-Checked size len (some chunk) chunk_ids rest in
    ((ltb-none _ _ inside, within), (leb-lt _ _ above, increasing))

check_chunks_complete :
    (size len : ℕ) (prev : Option ℕ) (chunk_ids : List ℕ)
    → Within size len chunk_ids
    → Increasing prev chunk_ids
    → check_chunks size len prev chunk_ids ≡ none
unfolding check_chunks
check_chunks_complete size len prev [] w i = refl
check_chunks_complete size len none (chunk ∷ chunk_ids) w i =
    rw (ltb_of_le _ _ w.0) (check_chunks_complete size len (some chunk) chunk_ids w.1 i)
check_chunks_complete size len (some prev) (chunk ∷ chunk_ids) w i =
    rw (leb-none _ _ i.0, ltb_of_le _ _ w.0)
      (check_chunks_complete size len (some chunk) chunk_ids w.1 i.1)

-- The column data and the chunk indexes pass the checks that `update` makes before it writes.
pub record Valid (c : ColumnStore) (col_data : List ℕ) (size : ℕ) (chunk_ids : List ℕ)
    : Type 0 where
  pub positive : 0 < size
  pub long : length col_data ≡ c.root.column_size
  pub within : Within size (length col_data) chunk_ids
  pub increasing : Increasing none chunk_ids

is_failed : Outcome Unit → Bool
is_failed (failed error) = true
is_failed (done u) = false

done_ne : (error : StoreError) → ¬ (done tt ≡ failed error)
unfolding is_failed
done_ne error e = false≢true (ap is_failed e)

-- A result that leaves the store alone if it is an error.
abbrev NothingDone : ⦃api : PageApi⦄ → Store → StoreError → Store × Outcome Unit → Type 0
NothingDone st error out = out.1 ≡ failed error → out.0 ≡ st

module _ ⦃api : PageApi⦄ (c : ColumnStore) (st : Store) (col_ref : ℕ) where
  open api use {Page, read_integer, get_data}

  refused :
      (b : Bool) (why error : StoreError) (rest : Store × Outcome Unit)
      → NothingDone st error rest
      → NothingDone st error (if b then (st, failed why) else rest)
  refused true why error rest h = λ e. refl
  refused false why error rest h = h

  checked :
      (found : Option StoreError) (error : StoreError) (rest : Store × Outcome Unit)
      → NothingDone st error rest
      → NothingDone st error (elim found [ some why ↦ (st, failed why) | none ↦ rest ])
  checked none error rest h = h
  checked (some why) error rest h = λ e. refl

  -- Whenever `update` fails, the pages are as they were before.
  pub update-nothing :
      (col_data : Option (List ℕ)) (chunk_ids : List ℕ) (size : ℕ) (error : StoreError)
      → (update c st col_ref col_data chunk_ids size).1 ≡ failed error
      → (update c st col_ref col_data chunk_ids size).0 ≡ st
  unfolding update
  update-nothing col_data [] size error e = refl
  update-nothing none (chunk ∷ chunk_ids) size error e = refl
  update-nothing (some col_data) (chunk ∷ chunk_ids) size error e =
      let (a, s) = decode_column_ref col_ref in
      refused (size == 0 || not (length col_data == c.root.column_size)) bad_arguments error _
        (checked (check_chunks size (length col_data) none (chunk ∷ chunk_ids)) error _ (
          refused (not (st.loads a)) load_data_page error _ (
            refused (get_record_status (st.pages a) s).1 slot_is_free error _
              λ wrote. absurd (done_ne error wrote))))
        e

  -- What an update of chunks leaves behind: the chunks that are named have the new data; all other bytes
  -- of the column data stay, and so do the record's transaction reference, its status, every other
  -- record of the page, and every other page.
  pub record Updated (col_data : List ℕ) (chunk_ids : List ℕ) (size : ℕ)
      (out : Store × Outcome Unit) : Type 0 where
    pub succeeds : out.1 ≡ done tt
    pub bytes :
        (i : ℕ)
        → i < c.root.column_size
        → let (a, s) = decode_column_ref col_ref in
          let byte = get_record_offset c.data_page s + trx_ref_size + i in
          get_data (out.0.pages a) byte ≡ (
            if contains (i / size) chunk_ids
            then get_or col_data i 0
            else get_data (st.pages a) byte)
    pub trx :
        let (a, s) = decode_column_ref col_ref in
        let at = get_record_offset c.data_page s in
        read_integer 8 (out.0.pages a) at ≡ read_integer 8 (st.pages a) at
    pub status :
        let (a, s) = decode_column_ref col_ref in
        get_record_status (out.0.pages a) s ≡ get_record_status (st.pages a) s
    pub other_slots :
        (t : ℕ)
        → t < c.data_page.max_num_recs
        → (decode_column_ref col_ref).1 ≢ t
        → let a = (decode_column_ref col_ref).0 in
          view c.data_page (out.0.pages a) t ≡ view c.data_page (st.pages a) t
    pub other_pages : (b : ℕ) → (decode_column_ref col_ref).0 ≢ b → out.0.pages b ≡ st.pages b

  update-written :
      (col_data : List ℕ) (chunk : ℕ) (chunk_ids : List ℕ) (size : ℕ)
      → Valid c col_data size (chunk ∷ chunk_ids)
      → let (a, s) = decode_column_ref col_ref in
        st.loads a ≡ true
        → (get_record_status (st.pages a) s).1 ≡ false
        → update c st col_ref (some col_data) (chunk ∷ chunk_ids) size ≡ (
          modify st a (λ p.
              write_chunks p
                (get_record_offset c.data_page s + trx_ref_size)
                col_data
                size
                (chunk ∷ chunk_ids)),
          done tt,
        )
  unfolding update get_record_status
  update-written col_data chunk chunk_ids size v loads used =
      let not_zero : (size == 0) ≡ false = ==_of_ne size 0 (omega (arith, v.positive)) in
      let same : (length col_data == c.root.column_size) ≡ true = (==_iff _ _).1 v.long in
      let fine : check_chunks size (length col_data) none (chunk ∷ chunk_ids) ≡ none =
        check_chunks_complete size (length col_data) none (chunk ∷ chunk_ids) v.within
          v.increasing in
      rw (not_zero, same, fine, loads, used) refl

  -- With valid arguments, for a record that is there, `update` succeeds and does what it should.
  pub update_lem :
      (col_data : List ℕ) (chunk_ids : List ℕ) (size : ℕ)
      → IsLayout c.data_page
      → c.root.column_size + trx_ref_size ≡ c.data_page.rec_size
      → Valid c col_data size chunk_ids
      → let (a, s) = decode_column_ref col_ref in
        st.loads a ≡ true
        → (get_record_status (st.pages a) s).1 ≡ false
        → s < c.data_page.max_num_recs
        → Updated col_data chunk_ids size (update c st col_ref (some col_data) chunk_ids size)
  unfolding update get_record_status
  update_lem col_data [] size laid lens v loads used hs = record {
    succeeds = refl;
    bytes = λ i lt. refl;
    trx = refl;
    status = refl;
    other_slots = λ t lt ne. refl;
    other_pages = λ b ne. refl;
  }
  update_lem col_data (chunk ∷ chunk_ids) size laid lens v loads used hs =
      subst (Updated col_data (chunk ∷ chunk_ids) size)
        (sym (update-written col_data chunk chunk_ids size v loads used))
        (record {
          succeeds = refl;
          bytes = λ i lt.
              ap (λ q. get_data q (off + i)) here
              ∙ get_data-write_chunks off col_data size v.positive p i ids v.within;
          trx =
              ap (λ q. read_integer 8 q at) here
              ∙ read-write_chunks off col_data size v.positive 8 p at ids (inr (omega arith))
                  v.within;
          status = ap (λ q. get_record_status q s) here ∙ same_status s hs;
          other_slots = λ t lt ne.
              ap (λ q. view c.data_page q t) here
              ∙ unfold view in ap₂ view_of (same_status t lt) (same_content t ne);
          other_pages = λ b ne. pages-modify_ne st a b change ne;
        })
    where
      a : ℕ
      a = (decode_column_ref col_ref).0

      s : ℕ
      s = (decode_column_ref col_ref).1

      p : Page
      p = st.pages a

      at : ℕ
      at = get_record_offset c.data_page s

      off : ℕ
      off = at + trx_ref_size

      ids : List ℕ
      ids = chunk ∷ chunk_ids

      change : Page → Page
      change q = write_chunks q off col_data size ids

      here : (modify st a change).pages a ≡ change p
      here = pages-modify_self st a change

      same_status :
          (t : ℕ)
          → t < c.data_page.max_num_recs
          → get_record_status (change p) t ≡ get_record_status p t
      same_status t lt =
          let before = bitmap_before_records c.data_page laid t lt in
          rw
            (read-write_chunks off col_data size v.positive 1 p (bitmap_byte_offset t) ids
              (inr (omega (arith, before, laid.first))) v.within)
            refl

      same_content : (t : ℕ) → s ≢ t → content c.data_page (change p) t ≡ content c.data_page p t
      same_content t ne =
          let apart = records-Apart c.data_page.first_rec_offset c.data_page.rec_size s t ne in
          content-same c.data_page p (change p) t laid.size
            (read-write_chunks off col_data size v.positive 8 p _ ids
              (omega (arith, apart, laid.size, lens, v.long)) v.within)
            λ b l u.
              get_data-write_chunks_keep off col_data size v.positive p b ids
                (omega (arith, apart, laid.size, lens, v.long)) v.within
