-- ===== src/Tests/RootPages.antt =====
-- The free lists of a root page on a concrete store.
use vsql_vector.Base.{
  ℕ, ◌+◌, ◌*◌, ◌≤◌, ◌<◌, ◌≡◌, ◌≢◌, refl, true, false, not, ◌&&◌, List, [], ◌∷◌, arith, ◌==◌,
  if◌then◌else◌, length,
}
use vsql_vector.Page.Bytes.{bytes_api, zero_page, put, read_bytes, write_bytes, write_list}
use vsql_vector.Page.Store.{Store}
use vsql_vector.DataPage.{needs_add_to_free_list, set_free_links, set_free_slot_number}
use vsql_vector.RootPage.{
  RootPage, format, clear_refs, add_free_page, remove_free_page, null_free_page_ref,
}
use vsql_vector.RootPage.{
  init, slot_head, free_slot_array_off, get_free_slot, cur_free_slots, update_header, read_metadata,
}
use vsql_vector.Page.Api.{Apart}
use vsql_vector.RootPage.Slots.{slots_fit, get_free_slot_lem}
use vsql_vector.RootPage.Metadata.{update_header_lem}
use vsql_vector.RootPage.FreeList.{IsFreeList}
use vsql_vector.RootPage.FreeAdd.{add_free_page_lem}
use vsql_vector.RootPage.FreeRemove.{remove_free_page_lem, remove_free_page_stuck}

abbrev root : RootPage
root = record {
  num_segments = 0;
  num_other_root_pages = 1;
  storage_metadata_len = 2;
  max_free_slots = 8;
  column_size = 4;
}

-- The root page is page 3; all other pages are zeroed.
abbrev start : Store
unfolding format clear_refs put write_bytes write_list read_bytes
start = record {
  pages = λ r. if r == 3 then (format root zero_page 1 (83 ∷ 86 ∷ [])).1 else zero_page;
  loads = λ r. not (r == 9);
}

start-IsFreeList : IsFreeList root start 3 0 []
unfolding start
start-IsFreeList = record { linked = refl; distinct = tt; no_root = refl }

-- Pages 5 and 6 on the list of slot 0, 6 first.
abbrev two_pages : Store
unfolding start add_free_page set_free_links set_free_slot_number
two_pages = (add_free_page root (add_free_page root start 3 5 0).0 3 6 0).0

two_pages-IsFreeList : IsFreeList root two_pages 3 0 (6 ∷ 5 ∷ [])
unfolding two_pages
two_pages-IsFreeList = record {
  linked = (refl, omega arith, refl, (refl, omega arith, refl, refl));
  distinct = (refl, (refl, tt));
  no_root = refl;
}

add_free_page_lem_example :
    let (st', failed) = add_free_page root two_pages 3 7 0 in
    (failed ≡ (not (6 == null_free_page_ref) && not (two_pages.loads 6)))
    × ((not (6 == null_free_page_ref) && not (two_pages.loads 6)) ≡ true → st' ≡ two_pages)
    × ((not (6 == null_free_page_ref) && not (two_pages.loads 6)) ≡ false
        → IsFreeList root st' 3 0 (7 ∷ 6 ∷ 5 ∷ []))
unfolding two_pages
add_free_page_lem_example =
    add_free_page_lem root two_pages 3 7 0 (6 ∷ 5 ∷ []) two_pages-IsFreeList refl (omega arith)
      (omega arith) (omega arith)

remove_free_page_lem_example :
    let (st', failed) = remove_free_page root two_pages 3 5 in
    (failed ≡ false)
    × (false ≡ true → st' ≡ two_pages)
    × (false ≡ false → IsFreeList root st' 3 0 (6 ∷ []))
unfolding two_pages
remove_free_page_lem_example =
    remove_free_page_lem root two_pages 3 5 (6 ∷ []) [] two_pages-IsFreeList (omega arith)

remove_free_page_stuck_example :
    needs_add_to_free_list ((remove_free_page root two_pages 3 5).0.pages 5) true ≡ false
unfolding two_pages
remove_free_page_stuck_example =
    remove_free_page_stuck root two_pages 3 5 true (omega arith) (omega arith)

-- On pages of 4 KB: the array would have room for 1004 slots.
slots_fit_example :
    let r = init 4096 4 1 1 7 2048 in
    (free_slot_array_off r + r.max_free_slots * 4 + 8 ≤ 4096) × (r.max_free_slots ≤ 2048)
unfolding init
slots_fit_example = slots_fit 4096 4 1 1 7 2048 (omega arith) (omega arith)

get_free_slot_lem_example :
    let s = get_free_slot root (start.pages 3) 0 in
    (s < cur_free_slots root (start.pages 3))
    × ((t : ℕ)
        → t < cur_free_slots root (start.pages 3)
        → slot_head root (start.pages 3) t ≡ null_free_page_ref
        → slot_head root (start.pages 3) s ≡ null_free_page_ref)
unfolding start read_bytes
get_free_slot_lem_example = get_free_slot_lem root (start.pages 3) 0 (omega arith)

abbrev hi : List ℕ
hi = 72 ∷ 73 ∷ []

update_header_lem_example :
    let (p', error) = update_header root (start.pages 3) hi in
    (length hi ≢ 2 → (p' ≡ start.pages 3) × (error ≡ true))
    × (length hi ≡ 2
        → (error ≡ false)
          × (read_metadata root p' ≡ hi)
          × ((w a : ℕ)
              → Apart 42 2 a w
              → bytes_api.read_integer w p' a ≡ bytes_api.read_integer w (start.pages 3) a))
unfolding start read_bytes
update_header_lem_example = update_header_lem root (start.pages 3) hi refl
