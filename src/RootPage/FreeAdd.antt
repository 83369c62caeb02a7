-- ===== src/RootPage/FreeAdd.antt =====
-- `RootPage::add_free_page`.
use mathlib.Core.Path.{subst}
use mathlib.Core.Bool.{true≢false}
use vsql_vector.Base.{
  ℕ, ◌^◌, ◌<◌, ◌≡◌, ◌≢◌, refl, ap, sym, ◌∙◌, Bool, true, false, not, ◌&&◌, none, some, List, ◌∷◌,
  inl, inr, arith, ◌==◌, if◌then◌else◌, Bool-cases,
}
use vsql_vector.Page.Api.{PageApi, invalid_ref}
use vsql_vector.Page.Store.{
  Store, modify, field, pages-modify_ne, pages-modify_self, field-modify_keep, field-modify_set,
}
use vsql_vector.Page.Links.{contains, update, Linked, Linked-same, Linked-push}
use vsql_vector.DataPage.{
  set_free_links, set_free_slot_number, prev_free_page_off, next_free_page_off,
}
use vsql_vector.DataPage.Links.{
  prev-set_prev, next-set_prev, prev-set_both, next-set_both, prev-set_free_slot_number,
  next-set_free_slot_number,
}
use vsql_vector.RootPage.{
  RootPage, slot_head, slot_off, add_free_page, add_one, total_free_pages_off, null_free_page_ref,
}
use vsql_vector.RootPage.FreeList.{IsFreeList, root_keeps, update-ap}

module _ ⦃api : PageApi⦄ where
  open api use {
    Page, read_integer, write_integer, read_integer-lt, read-write_self, read-write_apart,
  }

  -- The stages of `add_free_page`.
  module _ (r : RootPage) (st : Store) (root page slot : ℕ) where
    abbrev head_of : ℕ
    head_of = slot_head r (st.pages root) slot

    -- The first page of the list links back to the new one.
    abbrev first_linked : Store
    first_linked =
        if head_of == null_free_page_ref
        then st
        else modify st head_of (λ p. set_free_links p (some page) none)

    abbrev put_in_slot : Page → Page
    put_in_slot p = write_integer 4 p (slot_off r slot) page

    abbrev slot_written : Store
    slot_written = modify first_linked root put_in_slot

    abbrev page_linked : Store
    page_linked = modify slot_written page (λ p. set_free_links p (some root) (some head_of))

    abbrev page_numbered : Store
    page_numbered = modify page_linked page (λ p. set_free_slot_number p slot)

    abbrev count_up : Page → Page
    count_up p = add_one p (total_free_pages_off r)

    abbrev added : Store
    added = modify page_numbered root count_up

    -- `add_free_page` fails exactly when the first page of the list cannot be loaded, and then
    -- nothing has changed.
    add_free_page-added : add_free_page r st root page slot ≡ (
        if not (head_of == null_free_page_ref) && not (st.loads head_of)
        then (st, true)
        else (added, false))
    unfolding add_free_page
    add_free_page-added = refl

    prev-first :
        (a : ℕ)
        → page < 2 ^ 32
        → field prev_free_page_off
            (if head_of == null_free_page_ref
              then st
              else modify st head_of (λ p. set_free_links p (some page) none))
            a
          ≡ (if head_of == null_free_page_ref
                then field prev_free_page_off st
                else update (field prev_free_page_off st) head_of page)
              a
    prev-first a hp = pick (head_of == null_free_page_ref)
      where
        pick :
            (b : Bool)
            → field prev_free_page_off
                (if b then st else modify st head_of (λ p. set_free_links p (some page) none))
                a
              ≡ (let f : ℕ → ℕ =
                    if b
                    then field prev_free_page_off st
                    else update (field prev_free_page_off st) head_of page in
                  f a)
        pick true = refl
        pick false =
            field-modify_set prev_free_page_off page st head_of a
              (λ p. set_free_links p (some page) none) (λ p. prev-set_prev p page hp)

    next-first :
        (a : ℕ)
        → field next_free_page_off
            (if head_of == null_free_page_ref
              then st
              else modify st head_of (λ p. set_free_links p (some page) none))
            a
          ≡ field next_free_page_off st a
    next-first a = pick (head_of == null_free_page_ref)
      where
        pick :
            (b : Bool)
            → field next_free_page_off
                (if b then st else modify st head_of (λ p. set_free_links p (some page) none))
                a
              ≡ field next_free_page_off st a
        pick true = refl
        pick false =
            field-modify_keep next_free_page_off st head_of a
              (λ p. set_free_links p (some page) none) (λ p. next-set_prev p page)

    -- The links of every page but the root after `add_free_page`.
    abbrev pushed_prev : ℕ → ℕ
    pushed_prev =
        if head_of == null_free_page_ref
        then field prev_free_page_off st
        else update (field prev_free_page_off st) head_of page

    prev-added :
        (a : ℕ)
        → root ≢ a
        → root < 2 ^ 32
        → page < 2 ^ 32
        → field prev_free_page_off added a ≡ update pushed_prev page root a
    prev-added a ne hr hp =
        root_keeps root prev_free_page_off page_numbered a count_up ne
        ∙ field-modify_keep prev_free_page_off page_linked page a (λ p. set_free_slot_number p slot)
            (λ p. prev-set_free_slot_number p slot)
        ∙ field-modify_set prev_free_page_off root slot_written page a
            (λ p. set_free_links p (some root) (some head_of))
            (λ p. prev-set_both p root head_of hr)
        ∙ update-ap (field prev_free_page_off slot_written) pushed_prev page root a
            (root_keeps root prev_free_page_off first_linked a put_in_slot ne ∙ prev-first a hp)

    next-added :
        (a : ℕ)
        → root ≢ a
        → head_of < 2 ^ 32
        → field next_free_page_off added a ≡ update (field next_free_page_off st) page head_of a
    next-added a ne hh =
        root_keeps root next_free_page_off page_numbered a count_up ne
        ∙ field-modify_keep next_free_page_off page_linked page a (λ p. set_free_slot_number p slot)
            (λ p. next-set_free_slot_number p slot)
        ∙ field-modify_set next_free_page_off head_of slot_written page a
            (λ p. set_free_links p (some root) (some head_of))
            (λ p. next-set_both p root head_of hh)
        ∙ update-ap (field next_free_page_off slot_written) (field next_free_page_off st) page
            head_of a
            (root_keeps root next_free_page_off first_linked a put_in_slot ne ∙ next-first a)

    -- The root page after `add_free_page`: the slot holds the page, and one free page more is counted.
    root-added : page ≢ root → added.pages root ≡ count_up (put_in_slot (first_linked.pages root))
    root-added ne =
        pages-modify_self page_numbered root count_up
        ∙ ap count_up (
            pages-modify_ne page_linked page root (λ p. set_free_slot_number p slot) ne
            ∙ pages-modify_ne slot_written page root
                (λ p. set_free_links p (some root) (some head_of)) ne
            ∙ pages-modify_self first_linked root put_in_slot)

    head-added : page ≢ root → page < 2 ^ 32 → slot_head r (added.pages root) slot ≡ page
    head-added ne hp =
        let p = first_linked.pages root in
        ap (λ q. slot_head r q slot) (root-added ne)
        ∙ read-write_apart 4 4 (put_in_slot p) _ _ _ (inl (omega arith))
        ∙ read-write_self 4 p (slot_off r slot) page hp

    -- `add_free_page` fails exactly when the first page of the slot's list cannot be loaded, and then
    -- changes nothing. Otherwise the page, which is on no list, becomes the first of the list of the
    -- slot: the links lead through it and then through the pages of the list as before.
    pub add_free_page_lem :
        (xs : List ℕ)
        → IsFreeList r st root slot xs
        → contains page xs ≡ false
        → page ≢ root
        → page < invalid_ref
        → root < 2 ^ 32
        → let fails = not (head_of == null_free_page_ref) && not (st.loads head_of) in
          let (st', failed) = add_free_page r st root page slot in
          (failed ≡ fails)
          × (fails ≡ true → st' ≡ st)
          × (fails ≡ false → IsFreeList r st' root slot (page ∷ xs))
    add_free_page_lem xs list fresh ne hp hr =
        rw add_free_page-added
          (elim (Bool-cases (not (head_of == null_free_page_ref) && not (st.loads head_of))) [
            | inl bad ↦ rw bad (refl, λ _. refl, λ e. cc)
            | inr good ↦ rw good (refl, λ e. cc, λ _. done)
          ])
      where
        no_root : contains root (page ∷ xs) ≡ false
        no_root = ground (arith, list.no_root)

        members : (a : ℕ) → contains a (page ∷ xs) ≡ true → root ≢ a
        members a m e = true≢false (sym m ∙ ap (λ c. contains c (page ∷ xs)) (sym e) ∙ no_root)

        small : head_of < 2 ^ 32
        small = read_integer-lt 4 (st.pages root) (slot_off r slot)

        pushed :
            Linked
              (update pushed_prev page root)
              (update (field next_free_page_off st) page head_of)
              root
              page
              (page ∷ xs)
        pushed =
            Linked-push (field prev_free_page_off st) (field next_free_page_off st) root head_of
              page xs (omega arith) fresh list.distinct list.linked

        walked :
            Linked
              (field prev_free_page_off added)
              (field next_free_page_off added)
              root
              page
              (page ∷ xs)
        walked =
            Linked-same (update pushed_prev page root)
              (update (field next_free_page_off st) page head_of) (field prev_free_page_off added)
              (field next_free_page_off added) root page (page ∷ xs)
              (λ a m. prev-added a (members a m) hr (omega arith))
              (λ a m. next-added a (members a m) small) pushed

        done : IsFreeList r added root slot (page ∷ xs)
        done = record {
          linked =
              subst
                (λ h.
                  Linked (field prev_free_page_off added) (field next_free_page_off added) root h
                    (page ∷ xs))
                (sym (head-added ne (omega arith))) walked;
          distinct = (fresh, list.distinct);
          no_root = no_root;
        }
