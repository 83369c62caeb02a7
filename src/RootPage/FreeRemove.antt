-- ===== src/RootPage/FreeRemove.antt =====
-- `RootPage::remove_free_page`.
use mathlib.Core.Path.{subst}
use mathlib.Core.Bool.{true≢false}
use vsql_vector.Base.{
  ℕ, ◌<◌, ◌≡◌, ◌≢◌, refl, ap, sym, ◌∙◌, Bool, true, false, not, ◌&&◌, ◌||◌, none, some, List, ◌∷◌,
  ◌++◌, inl, inr, arith, ◌==◌, if◌then◌else◌, Bool-cases, ==_of_ne,
}
use vsql_vector.Page.Api.{PageApi, invalid_ref}
use vsql_vector.Page.Store.{
  Store, modify, field, pages-modify_ne, pages-modify_self, field-modify_keep, field-modify_set,
  reading-modify_keep,
}
use vsql_vector.Page.Links.{
  contains, update, Linked, Linked-same, Linked-unlink, Distinct-mid, next-mid, contains-append,
}
use vsql_vector.DataPage.{
  needs_add_to_free_list, invalid_slot, set_free_links, get_free_links, get_free_slot_number,
  prev_free_page_off, next_free_page_off, free_slot_number_off,
}
use vsql_vector.DataPage.Links.{
  prev-set_prev, prev-set_next, next-set_prev, next-set_next, prev-set_both, next-set_both,
  slot-set_both, slot-set_prev, slot-set_next,
}
use vsql_vector.RootPage.{
  RootPage, slot_head, slot_off, remove_free_page, sub_one, total_free_pages_off,
  null_free_page_ref,
}
use vsql_vector.RootPage.FreeList.{IsFreeList, root_keeps, update-ap}

module _ ⦃api : PageApi⦄ where
  open api use {
    Page, read_integer, write_integer, read_integer-lt, read-write_self, read-write_apart,
  }

  -- The stages of `remove_free_page`.
  module _ (r : RootPage) (st : Store) (root page : ℕ) where
    abbrev slot : ℕ
    slot = read_integer 2 (st.pages page) free_slot_number_off

    abbrev prev : ℕ
    prev = field prev_free_page_off st page

    abbrev next : ℕ
    next = field next_free_page_off st page

    abbrev put_in_slot : Page → Page
    put_in_slot p = write_integer 4 p (slot_off r slot) next

    abbrev before_linked : Store
    before_linked =
        if prev == root
        then modify st root put_in_slot
        else modify st prev (λ p. set_free_links p none (some next))

    abbrev behind_linked : Store
    behind_linked =
        if next == null_free_page_ref
        then before_linked
        else modify before_linked next (λ p. set_free_links p (some prev) none)

    abbrev cleared : Store
    cleared =
        modify behind_linked page
          (λ p. set_free_links p (some null_free_page_ref) (some null_free_page_ref))

    abbrev count_down : Page → Page
    count_down p = sub_one p (total_free_pages_off r)

    abbrev removed : Store
    removed = modify cleared root count_down

    abbrev fails : Bool
    fails =
        (not (prev == root) && not (st.loads prev))
        || (not (next == null_free_page_ref) && not (st.loads next))

    remove_free_page-removed :
        remove_free_page r st root page ≡ (if fails then (st, true) else (removed, false))
    unfolding remove_free_page get_free_slot_number get_free_links
    remove_free_page-removed = ground arith

    -- The links of every page but the root.
    prev-before :
        (a : ℕ)
        → root ≢ a
        → field prev_free_page_off before_linked a ≡ field prev_free_page_off st a
    prev-before a ne = pick (prev == root)
      where
        pick :
            (b : Bool)
            → field prev_free_page_off
                (if b
                  then modify st root put_in_slot
                  else modify st prev (λ p. set_free_links p none (some next)))
                a
              ≡ field prev_free_page_off st a
        pick true = root_keeps root prev_free_page_off st a put_in_slot ne
        pick false =
            field-modify_keep prev_free_page_off st prev a (λ p. set_free_links p none (some next))
              (λ p. prev-set_next p next)

    abbrev joined_next : ℕ → ℕ
    joined_next =
        if prev == root
        then field next_free_page_off st
        else update (field next_free_page_off st) prev next

    next-before : (a : ℕ) → root ≢ a → field next_free_page_off before_linked a ≡ joined_next a
    next-before a ne = pick (prev == root)
      where
        pick :
            (b : Bool)
            → field next_free_page_off
                (if b
                  then modify st root put_in_slot
                  else modify st prev (λ p. set_free_links p none (some next)))
                a
              ≡ (let f : ℕ → ℕ =
                    if b
                    then field next_free_page_off st
                    else update (field next_free_page_off st) prev next in
                  f a)
        pick true = root_keeps root next_free_page_off st a put_in_slot ne
        pick false =
            field-modify_set next_free_page_off next st prev a
              (λ p. set_free_links p none (some next))
              (λ p. next-set_next p next (read_integer-lt 4 (st.pages page) next_free_page_off))

    abbrev joined_prev : ℕ → ℕ
    joined_prev =
        if next == null_free_page_ref
        then field prev_free_page_off st
        else update (field prev_free_page_off st) next prev

    prev-behind : (a : ℕ) → root ≢ a → field prev_free_page_off behind_linked a ≡ joined_prev a
    prev-behind a ne = pick (next == null_free_page_ref)
      where
        pick :
            (b : Bool)
            → field prev_free_page_off
                (if b
                  then before_linked
                  else modify before_linked next (λ p. set_free_links p (some prev) none))
                a
              ≡ (let f : ℕ → ℕ =
                    if b
                    then field prev_free_page_off st
                    else update (field prev_free_page_off st) next prev in
                  f a)
        pick true = prev-before a ne
        pick false =
            field-modify_set prev_free_page_off prev before_linked next a
              (λ p. set_free_links p (some prev) none)
              (λ p. prev-set_prev p prev (read_integer-lt 4 (st.pages page) prev_free_page_off))
            ∙ update-ap (field prev_free_page_off before_linked) (field prev_free_page_off st) next
                prev a (prev-before a ne)

    next-behind : (a : ℕ) → root ≢ a → field next_free_page_off behind_linked a ≡ joined_next a
    next-behind a ne = pick (next == null_free_page_ref) ∙ next-before a ne
      where
        pick :
            (b : Bool)
            → field next_free_page_off
                (if b
                  then before_linked
                  else modify before_linked next (λ p. set_free_links p (some prev) none))
                a
              ≡ field next_free_page_off before_linked a
        pick true = refl
        pick false =
            field-modify_keep next_free_page_off before_linked next a
              (λ p. set_free_links p (some prev) none) (λ p. next-set_prev p prev)

    prev-removed :
        (a : ℕ)
        → root ≢ a
        → field prev_free_page_off removed a ≡ update joined_prev page invalid_ref a
    prev-removed a ne =
        root_keeps root prev_free_page_off cleared a count_down ne
        ∙ field-modify_set prev_free_page_off invalid_ref behind_linked page a
            (λ p. set_free_links p (some invalid_ref) (some invalid_ref))
            (λ p. prev-set_both p invalid_ref invalid_ref (omega arith))
        ∙ update-ap (field prev_free_page_off behind_linked) joined_prev page invalid_ref a
            (prev-behind a ne)

    next-removed :
        (a : ℕ)
        → root ≢ a
        → field next_free_page_off removed a ≡ update joined_next page invalid_ref a
    next-removed a ne =
        root_keeps root next_free_page_off cleared a count_down ne
        ∙ field-modify_set next_free_page_off invalid_ref behind_linked page a
            (λ p. set_free_links p (some invalid_ref) (some invalid_ref))
            (λ p. next-set_both p invalid_ref invalid_ref (omega arith))
        ∙ update-ap (field next_free_page_off behind_linked) joined_next page invalid_ref a
            (next-behind a ne)

    slot_kept : (p : Page) (v : ℕ) → slot_head r (count_down p) v ≡ slot_head r p v
    slot_kept p v = read-write_apart 4 4 p _ _ _ (inl (omega arith))

    abbrev new_head : ℕ
    new_head = if prev == root then next else slot_head r (st.pages root) slot

    head-before : slot_head r (before_linked.pages root) slot ≡ new_head
    head-before = pick (prev == root) (λ e. ground arith)
      where
        pick :
            (b : Bool)
            → (b ≡ false → prev ≢ root)
            → slot_head r
                (let s : Store =
                    if b
                    then modify st root put_in_slot
                    else modify st prev (λ p. set_free_links p none (some next)) in
                  s.pages root)
                slot
              ≡ (if b then next else slot_head r (st.pages root) slot)
        pick true h =
            ap (λ p. slot_head r p slot) (pages-modify_self st root put_in_slot)
            ∙ read-write_self 4 (st.pages root) (slot_off r slot) next
                (read_integer-lt 4 (st.pages page) next_free_page_off)
        pick false h =
            ap (λ p. slot_head r p slot)
              (pages-modify_ne st prev root (λ p. set_free_links p none (some next)) (h refl))

    root-behind : next ≢ root → behind_linked.pages root ≡ before_linked.pages root
    root-behind ne = pick (next == null_free_page_ref)
      where
        pick :
            (b : Bool)
            → (let s : Store =
                  if b
                  then before_linked
                  else modify before_linked next (λ p. set_free_links p (some prev) none) in
                s.pages root)
              ≡ before_linked.pages root
        pick true = refl
        pick false =
            pages-modify_ne before_linked next root (λ p. set_free_links p (some prev) none) ne

    head-removed : page ≢ root → next ≢ root → slot_head r (removed.pages root) slot ≡ new_head
    head-removed pne nne =
        ap (λ p. slot_head r p slot) (pages-modify_self cleared root count_down)
        ∙ slot_kept (cleared.pages root) slot
        ∙ ap (λ p. slot_head r p slot)
            (pages-modify_ne behind_linked page root
                (λ p. set_free_links p (some null_free_page_ref) (some null_free_page_ref)) pne
              ∙ root-behind nne)
        ∙ head-before

    -- `remove_free_page` fails exactly when the page before or behind the page on its list is to be
    -- changed and cannot be loaded, and then changes nothing. Otherwise the list of the slot loses the
    -- page, wherever it stands on it, and keeps the others in order.
    pub remove_free_page_lem :
        (xs ys : List ℕ)
        → IsFreeList r st root slot (xs ++ page ∷ ys)
        → root < invalid_ref
        → let (st', failed) = remove_free_page r st root page in
          (failed ≡ fails)
          × (fails ≡ true → st' ≡ st)
          × (fails ≡ false → IsFreeList r st' root slot (xs ++ ys))
    remove_free_page_lem xs ys list hr = rw remove_free_page-removed (elim (Bool-cases fails) [
      | inl bad ↦ rw bad (refl, λ _. refl, λ e. cc)
      | inr good ↦ rw good (refl, λ e. cc, λ _. done)
    ])
      where
        apart : (contains root xs ≡ false) × (page ≢ root) × (contains root ys ≡ false)
        apart =
            let split = contains-append root xs (page ∷ ys) in
            (
              ground (arith, split, list.no_root),
              ground (arith, split, list.no_root),
              ground (arith, split, list.no_root),
            )

        no_root : contains root (xs ++ ys) ≡ false
        no_root = ground (arith, contains-append root xs ys, apart.0, apart.2)

        next_ne : next ≢ root
        next_ne e =
            elim (next-mid (field prev_free_page_off st) (field next_free_page_off st) root
              (slot_head r (st.pages root) slot) page xs ys list.linked) [
                | inl last ↦ omega (arith, last.1, e, hr)
                | inr inner ↦ true≢false (sym inner.0 ∙ ap (λ c. contains c ys) e ∙ apart.2)
              ]

        members : (a : ℕ) → contains a (xs ++ ys) ≡ true → root ≢ a
        members a m e = true≢false (sym m ∙ ap (λ c. contains c (xs ++ ys)) (sym e) ∙ no_root)

        done : IsFreeList r removed root slot (xs ++ ys)
        done = record {
          linked =
              subst
                (λ h.
                  Linked (field prev_free_page_off removed) (field next_free_page_off removed) root
                    h (xs ++ ys))
                (sym (head-removed apart.1 next_ne))
                (Linked-same (update joined_prev page invalid_ref)
                  (update joined_next page invalid_ref) (field prev_free_page_off removed)
                  (field next_free_page_off removed) root new_head (xs ++ ys)
                  (λ a m. prev-removed a (members a m)) (λ a m. next-removed a (members a m))
                  (Linked-unlink (field prev_free_page_off st) (field next_free_page_off st) root
                    (slot_head r (st.pages root) slot) page invalid_ref xs ys list.no_root
                    list.distinct list.linked));
          distinct = (Distinct-mid xs ys page list.distinct).2;
          no_root = no_root;
        }

    slot-removed : page ≢ root → read_integer 2 (removed.pages page) free_slot_number_off ≡ slot
    slot-removed ne =
        ap number (pages-modify_ne cleared root page count_down (λ e. ne (sym e)))
        ∙ reading-modify_keep number behind_linked page page
            (λ p. set_free_links p (some null_free_page_ref) (some null_free_page_ref))
            (λ p. slot-set_both p null_free_page_ref null_free_page_ref)
        ∙ behind (next == null_free_page_ref)
        ∙ before (prev == root)
      where
        number : Page → ℕ
        number p = read_integer 2 p free_slot_number_off

        behind :
            (b : Bool)
            → number (
                let s : Store =
                  if b
                  then before_linked
                  else modify before_linked next (λ p. set_free_links p (some prev) none) in
                s.pages page)
              ≡ number (before_linked.pages page)
        behind true = refl
        behind false =
            reading-modify_keep number before_linked next page
              (λ p. set_free_links p (some prev) none) (λ p. slot-set_prev p prev)

        before :
            (b : Bool)
            → number (
                let s : Store =
                  if b
                  then modify st root put_in_slot
                  else modify st prev (λ p. set_free_links p none (some next)) in
                s.pages page)
              ≡ number (st.pages page)
        before true = ap number (pages-modify_ne st root page put_in_slot (λ e. ne (sym e)))
        before false =
            reading-modify_keep number st prev page (λ p. set_free_links p none (some next))
              (λ p. slot-set_next p next)

    -- `remove_free_page` leaves the page its free slot number. So `needs_add_to_free_list` answers for
    -- a page that has been taken off its list, as `insert` does with the page that it fills, that it
    -- need not be added to one, with either use of the answer.
    pub remove_free_page_stuck :
        (pre_purge : Bool)
        → page ≢ root
        → slot ≢ invalid_slot
        → needs_add_to_free_list ((remove_free_page r st root page).0.pages page) pre_purge ≡ false
    remove_free_page_stuck pre_purge ne valid =
        rw remove_free_page-removed (elim (Bool-cases fails) [
          | inl bad ↦ rw bad (listed (st.pages page) valid)
          | inr good ↦
              rw good (listed (removed.pages page) (λ e. valid (sym (slot-removed ne) ∙ e)))
        ])
      where
        listed :
            (p : Page)
            → read_integer 2 p free_slot_number_off ≢ invalid_slot
            → needs_add_to_free_list p pre_purge ≡ false
        listed p h =
            unfold needs_add_to_free_list in
            rw (==_of_ne (read_integer 2 p free_slot_number_off) invalid_slot h)
