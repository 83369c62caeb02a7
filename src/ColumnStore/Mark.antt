-- ===== src/ColumnStore/Mark.antt =====
-- What `ColumnStore::mark_delete` changes: `src/storage/storage.cc`.
use mathlib.Core.Path.{ap₂, subst}
use native.Mathlib.Decide.{ℕ_discrete}
use vsql_vector.Base.{
  ℕ, ◌^◌, ◌<◌, ◌≡◌, ◌≢◌, refl, ap, ◌∙◌, Bool, true, false, Option, none, some, List, inl, inr,
  arith, ◌==◌, ==_iff, ==_refl, ==_of_ne, if◌then◌else◌, Bool-cases,
}
use vsql_vector.Page.Api.{PageApi}
use vsql_vector.Page.Store.{Store, pages-modify_self, pages-modify_ne}
use vsql_vector.DataPage.{
  DataPage, decode_column_ref, get_record_status, get_record_offset, set_record_delete,
  set_record_undelete,
}
use vsql_vector.DataPage.View.{
  IsLayout, Record, view, view_of, content, bytes_at-same, content-same, records-Apart,
  bitmap_before_records, status-write_integer,
}
use vsql_vector.DataPage.Refine.{with_mark, view-set_record_delete, view-set_record_undelete}
use vsql_vector.ColumnStore.{ColumnStore, failed, done, mark_record, mark_delete, load_data_page}

-- A record with another delete mark and transaction reference.
abbrev pub re_marked : Bool → ℕ → Option Record → Option Record
re_marked mark trx none = none
re_marked mark trx (some r) = some (record r { deleted = mark; trx_ref = trx })

with_trx : ℕ → Option Record → Option Record
with_trx trx none = none
with_trx trx (some r) = some (record r { trx_ref = trx })

module _ ⦃api : PageApi⦄ (d : DataPage) (laid : IsLayout d) where
  open api use {
    Page, read_integer, write_integer, read-write_self, read-write_apart, get_data-write_integer,
  }

  content-write_trx :
      (p : Page) (s trx t : ℕ)
      → trx < 2 ^ 64
      → content d (write_integer 8 p (get_record_offset d s) trx) t
        ≡ (if s == t then (trx, (content d p t).1) else content d p t)
  unfolding content
  content-write_trx p s trx t small = elim (ℕ_discrete s t) [
    | yes e ↦
        subst
          (λ u.
            content d (write_integer 8 p (get_record_offset d s) trx) u
            ≡ (if s == u then (trx, (content d p u).1) else content d p u))
          e (rw (==_refl s) own)
    | no ne ↦ rw (==_of_ne s t ne) (other ne)
  ]
    where
      offset : ℕ
      offset = get_record_offset d s

      q : Page
      q = write_integer 8 p offset trx

      own : content d q s ≡ (trx, (content d p s).1)
      own =
          ap₂ (λ a b. (a, b)) (read-write_self 8 p offset trx small)
            (bytes_at-same p q _ _ λ b l u. get_data-write_integer 8 p offset b trx (omega arith))

      other : s ≢ t → content d q t ≡ content d p t
      other ne =
          let apart = records-Apart d.first_rec_offset d.rec_size s t ne in
          content-same d p q t laid.size
            (read-write_apart 8 8 p offset _ trx (omega (arith, laid.size)))
            λ b l u. get_data-write_integer 8 p offset b trx (omega (arith, laid.size))

  view-write_trx :
      (p : Page) (s trx t : ℕ)
      → t < d.max_num_recs
      → trx < 2 ^ 64
      → view d (write_integer 8 p (get_record_offset d s) trx) t
        ≡ (if s == t then with_trx trx (view d p t) else view d p t)
  unfolding view with_trx
  view-write_trx p s trx t ht small =
      ap₂ view_of
        (status-write_integer p 8 (get_record_offset d s) trx t
          (inr (omega (arith, bitmap_before_records d laid t ht))))
        (content-write_trx p s trx t small)
      ∙ pick (s == t) (get_record_status p t) (content d p t)
    where
      pick :
          (b : Bool) (status : Bool × Bool) (held : ℕ × List ℕ)
          → view_of status (if b then (trx, held.1) else held)
            ≡ (if b then with_trx trx (view_of status held) else view_of status held)
      pick true (deleted, true) held = refl
      pick true (deleted, false) held = refl
      pick false status held = refl

  abbrev marked : Page → ℕ → Bool → Page
  marked p s mark = if mark then set_record_delete p s else set_record_undelete p s

  view-marked :
      (p : Page) (s t : ℕ) (mark : Bool)
      → s < d.max_num_recs
      → view d (marked p s mark) t ≡ (if s == t then with_mark mark (view d p t) else view d p t)
  view-marked p s t true h = view-set_record_delete d laid p s t h
  view-marked p s t false h = view-set_record_undelete d laid p s t h

  -- A record that the caller's transaction wrote already.
  with_mark-own :
      (p : Page) (s trx : ℕ) (mark : Bool)
      → read_integer 8 p (get_record_offset d s) ≡ trx
      → with_mark mark (view d p s) ≡ re_marked mark trx (view d p s)
  unfolding view content
  with_mark-own p s trx mark e = pick (get_record_status p s)
    where
      pick :
          (status : Bool × Bool)
          → with_mark mark (view_of status (content d p s))
            ≡ re_marked mark trx (view_of status (content d p s))
      pick (deleted, true) = refl
      pick (deleted, false) =
          ap (λ n. some (record { deleted = mark; trx_ref = n; col_data = (content d p s).1 })) e

  with_trx-mark :
      (mark : Bool) (trx : ℕ) (r : Option Record)
      → with_trx trx (with_mark mark r) ≡ re_marked mark trx r
  unfolding with_trx
  with_trx-mark mark trx none = refl
  with_trx-mark mark trx (some r) = refl

module _ ⦃api : PageApi⦄ (c : ColumnStore) (laid : IsLayout c.data_page) where
  open api use {Page, read_integer, write_integer}

  view-mark_record :
      (p : Page) (s trx t : ℕ) (mark : Bool)
      → s < c.data_page.max_num_recs
      → t < c.data_page.max_num_recs
      → trx < 2 ^ 64
      → view c.data_page (mark_record c p s trx mark) t
        ≡ (if s == t then re_marked mark trx (view c.data_page p t) else view c.data_page p t)
  unfolding mark_record
  view-mark_record p s trx t mark hs ht small =
      let d = c.data_page in
      elim (Bool-cases (read_integer 8 p (get_record_offset d s) == trx)) [
        | inl same ↦ rw same (view-marked d laid p s t mark hs ∙ own t ((==_iff _ trx).0 same))
        | inr differs ↦ rw differs (
            view-write_trx d laid (marked d laid p s mark) s trx t ht small
            ∙ ap (λ v. if s == t then with_trx trx v else v) (view-marked d laid p s t mark hs)
            ∙ pick (s == t))
      ]
    where
      own :
          (t : ℕ)
          → read_integer 8 p (get_record_offset c.data_page s) ≡ trx
          → (if s == t then with_mark mark (view c.data_page p t) else view c.data_page p t)
            ≡ (if s == t then re_marked mark trx (view c.data_page p t) else view c.data_page p t)
      own t e = elim (ℕ_discrete s t) [
        | yes same ↦
            subst
              (λ u.
                (if s == u then with_mark mark (view c.data_page p u) else view c.data_page p u) ≡ (
                  if s == u
                  then re_marked mark trx (view c.data_page p u)
                  else view c.data_page p u))
              same (rw (==_refl s) (with_mark-own c.data_page laid p s trx mark e))
        | no ne ↦ rw (==_of_ne s t ne) refl
      ]

      pick :
          (b : Bool)
          → (if b
              then with_trx trx
                  (if b then with_mark mark (view c.data_page p t) else view c.data_page p t)
              else (if b then with_mark mark (view c.data_page p t) else view c.data_page p t))
            ≡ (if b then re_marked mark trx (view c.data_page p t) else view c.data_page p t)
      pick true = with_trx-mark c.data_page laid mark trx (view c.data_page p t)
      pick false = refl

  -- `mark_delete` fails exactly when the page cannot be loaded, and then changes nothing. Otherwise the
  -- record in the slot that the column reference leads to gets the mark, or loses it, and the caller's
  -- transaction reference; no other record of the page changes, and no other page.
  pub mark_delete_lem :
      (st : Store) (trx col_ref : ℕ) (mark : Bool)
      → trx < 2 ^ 64
      → (decode_column_ref col_ref).1 < c.data_page.max_num_recs
      → let (a, s) = decode_column_ref col_ref in
        let (st', out) = mark_delete c st trx col_ref mark in
        (st.loads a ≡ false → (st' ≡ st) × (out ≡ failed load_data_page))
        × (st.loads a ≡ true
            → (out ≡ done tt)
              × ((t : ℕ)
                  → t < c.data_page.max_num_recs
                  → view c.data_page (st'.pages a) t ≡ (
                      if s == t
                      then re_marked mark trx (view c.data_page (st.pages a) t)
                      else view c.data_page (st.pages a) t))
              × ((b : ℕ) → a ≢ b → st'.pages b ≡ st.pages b))
  unfolding mark_delete
  mark_delete_lem st trx col_ref mark small hs =
      let (a, s) = decode_column_ref col_ref in
      let change : Page → Page = λ p. mark_record c p s trx mark in
      (
        λ e. rw e (refl, refl),
        λ e. rw e (
          refl,
          λ t ht.
              ap (λ p. view c.data_page p t) (pages-modify_self st a change)
              ∙ view-mark_record (st.pages a) s trx t mark hs ht small,
          λ b ne. pages-modify_ne st a b change ne,
        ),
      )
