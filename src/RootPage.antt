-- ===== src/RootPage.antt =====
-- The root page of a column store: `src/storage/root_page.h` and `root_page.cc`. It holds the column
-- size, the head and tail of the list of data pages, and an array of slots, each the head of a list
-- of data pages with free records. An operation that loads other pages works on the store of pages,
-- and returns the store and whether it failed.
pub mod FreeList
pub mod FreeAdd
pub mod FreeRemove
pub mod Metadata
pub mod Slots
use vsql_vector.Base.{
  ℕ, zero, suc, ◌+◌, ◌-◌, ◌*◌, ◌/◌, ◌%◌, ◌^◌, Bool, true, false, not, ◌&&◌, ◌||◌, Option, none,
  some, List, min, ltb, leb, ◌==◌, if◌then◌else◌, length,
}
use vsql_vector.Page.Api.{PageApi, header_size, trailer_size, invalid_ref}
use vsql_vector.Page.Store.{Store, modify}
use vsql_vector.DataPage.{
  get_free_slot_number, set_free_slot_number, get_free_links, set_free_links,
}
use vsql_vector.DataPage.View.{bytes_at}

-- The parts of `RootPage`, by the names of the source less `m_`.
pub record RootPage : Type 0 where
  pub num_segments : ℕ
  pub num_other_root_pages : ℕ
  pub storage_metadata_len : ℕ
  pub max_free_slots : ℕ
  pub column_size : ℕ

-- `RootPage::LastSlotInfo`, which each thread keeps.
pub record LastSlotInfo : Type 0 where
  pub space_ref : ℕ
  pub page_ref : ℕ
  pub slot_number : ℕ
  pub next_free_rec_hint : ℕ

abbrev pub initial_slot_info : LastSlotInfo
initial_slot_info = record {
  space_ref = 0;
  page_ref = invalid_ref;
  slot_number = 0;
  next_free_rec_hint = 0;
}

abbrev pub max_free_slot_step : ℕ
max_free_slot_step = 16

-- `Segment::NUM_SEGMENTS_SIZE` and `Segment::HEADER_SIZE`, as the page format draws them.
abbrev pub num_segments_size : ℕ
num_segments_size = 1

abbrev pub segment_header_size : ℕ
segment_header_size = 10

abbrev pub free_slot_len : ℕ
free_slot_len = 4

abbrev pub null_free_page_ref : ℕ
null_free_page_ref = invalid_ref

abbrev pub version_off : RootPage → ℕ
version_off r = header_size + num_segments_size + segment_header_size * r.num_segments

abbrev pub page_type_off : RootPage → ℕ
page_type_off r = version_off r + 1

abbrev pub storage_metadata_len_off : RootPage → ℕ
storage_metadata_len_off r = page_type_off r + 1

abbrev pub storage_metadata_off : RootPage → ℕ
storage_metadata_off r = storage_metadata_len_off r + 1

abbrev pub num_other_root_pages_off : RootPage → ℕ
num_other_root_pages_off r = storage_metadata_off r + r.storage_metadata_len

abbrev pub other_root_pages_off : RootPage → ℕ
other_root_pages_off r = num_other_root_pages_off r + 1

abbrev pub column_size_off : RootPage → ℕ
column_size_off r = other_root_pages_off r + 4 * r.num_other_root_pages

abbrev pub all_slot_head_off : RootPage → ℕ
all_slot_head_off r = column_size_off r + 2

abbrev pub all_slot_tail_off : RootPage → ℕ
all_slot_tail_off r = all_slot_head_off r + 4

abbrev pub total_data_pages_off : RootPage → ℕ
total_data_pages_off r = all_slot_tail_off r + 4

abbrev pub total_free_pages_off : RootPage → ℕ
total_free_pages_off r = total_data_pages_off r + 4

abbrev pub free_slot_array_max_size_off : RootPage → ℕ
free_slot_array_max_size_off r = total_free_pages_off r + 4

abbrev pub free_slot_array_cur_size_off : RootPage → ℕ
free_slot_array_cur_size_off r = free_slot_array_max_size_off r + 2

abbrev pub free_slot_array_off : RootPage → ℕ
free_slot_array_off r = free_slot_array_cur_size_off r + 2

abbrev pub slot_off : RootPage → ℕ → ℕ
slot_off r slot_number = free_slot_array_off r + slot_number * free_slot_len

-- `init`, on a root page whose `m_max_free_slots` is still the configured maximum.
unfoldable pub init :
    (page_size col_len num_segments num_root_pages storage_metadata_len configured_max : ℕ)
    → RootPage
init page_size col_len num_segments num_root_pages storage_metadata_len configured_max =
    let laid : RootPage = record {
      num_segments = num_segments;
      num_other_root_pages = if ltb 0 num_root_pages then num_root_pages - 1 else 0;
      storage_metadata_len = storage_metadata_len;
      max_free_slots = configured_max;
      column_size = col_len;
    } in
    let available = (page_size + 2 ^ 32 - free_slot_array_off laid - trailer_size) % 2 ^ 32 in
    let max_slots = available / free_slot_len % 2 ^ 16 in
    record laid {
      max_free_slots = if ltb configured_max max_slots then configured_max else max_slots;
    }

-- `set_layout`, by which `load` finds its way on a root page before anything else is known of it.
abbrev pub set_layout :
    RootPage → (num_segments storage_metadata_len num_other_root_pages : ℕ) → RootPage
set_layout r num_segments storage_metadata_len num_other_root_pages = record r {
  num_segments = num_segments;
  storage_metadata_len = storage_metadata_len;
  num_other_root_pages = num_other_root_pages;
}

-- `get_random_slot`; `draw` is what the generator yields, below `max_size`.
unfoldable pub get_random_slot : (draw max_size : ℕ) → ℕ
get_random_slot draw max_size = if max_size == 0 then 0 else draw

unfoldable pub get_cached_slot_number : LastSlotInfo → (space_ref page_ref max_slots : ℕ) → Option ℕ
get_cached_slot_number info space_ref page_ref max_slots =
    if not (info.space_ref == space_ref)
    then none
    else if not (info.page_ref == page_ref)
    then none
    else if leb max_slots info.slot_number
    then none
    else some info.slot_number

module _ ⦃api : PageApi⦄ where
  open api use {
    Page, read_integer, write_integer, write_string, get_data, write_links, prev_link, next_link,
  }

  -- The loops that write the null reference to consecutive places of four bytes.
  unfoldable pub clear_refs : Page → (offset rounds : ℕ) → Page
  clear_refs p offset zero = p
  clear_refs p offset (suc rounds) =
      clear_refs (write_integer 4 p offset invalid_ref) (offset + 4) rounds

  -- The root page as it goes on, the page, and whether `format` fails. The number of segments is read
  -- from the page, where the storage engine has put it.
  unfoldable pub format :
      RootPage → Page → (format_version : ℕ) → (metadata : List ℕ) → RootPage × Page × Bool
  format root p format_version metadata =
      let r = record root { num_segments = read_integer 1 p header_size } in
      let p1 = write_integer 1 p (version_off r) format_version in
      let p2 = write_integer 1 p1 (page_type_off r) 1 in
      let p3 = write_integer 1 p2 (storage_metadata_len_off r) (length metadata % 2 ^ 8) in
      let p4 = write_string p3 (storage_metadata_off r) metadata in
      let p5 = write_integer 1 p4 (num_other_root_pages_off r) r.num_other_root_pages in
      let p6 = clear_refs p5 (other_root_pages_off r) r.num_other_root_pages in
      let p7 = write_integer 2 p6 (column_size_off r) r.column_size in
      let p8 = write_integer 4 p7 (all_slot_head_off r) invalid_ref in
      let p9 = write_integer 4 p8 (all_slot_tail_off r) invalid_ref in
      let p10 = write_integer 2 p9 (free_slot_array_max_size_off r) r.max_free_slots in
      let p11 = write_integer 2 p10 (free_slot_array_cur_size_off r) 1 in
      if root.column_size == 0 || root.max_free_slots == 0 || ltb 255 (length metadata)
      then (root, p, true)
      else (r, clear_refs p11 (free_slot_array_off r) 1, false)

  unfoldable pub read_metadata : RootPage → Page → List ℕ
  read_metadata r p =
      bytes_at p (storage_metadata_off r) (read_integer 1 p (storage_metadata_len_off r))

  -- The page, and whether `update_header` fails.
  unfoldable pub update_header : RootPage → Page → (metadata : List ℕ) → Page × Bool
  update_header r p metadata =
      if length metadata == r.storage_metadata_len
      then (write_string p (storage_metadata_off r) metadata, false)
      else (p, true)

  abbrev pub cur_free_slots : RootPage → Page → ℕ
  cur_free_slots r p = read_integer 2 p (free_slot_array_cur_size_off r)

  abbrev pub slot_head : RootPage → Page → ℕ → ℕ
  slot_head r p slot_number = read_integer 4 p (slot_off r slot_number)

  unfoldable pub grow_free_slots : RootPage → Page → Page
  grow_free_slots r p =
      let cur = cur_free_slots r p in
      let grown = (cur + min cur max_free_slot_step) % 2 ^ 16 in
      let new = if ltb r.max_free_slots grown then r.max_free_slots else grown in
      write_integer 2 (clear_refs p (slot_off r cur) (new - cur)) (free_slot_array_cur_size_off r)
        new

  -- The data page (or the invalid reference), the number of free slots, and what the thread keeps.
  unfoldable pub page_select :
      RootPage → Page → LastSlotInfo → (space_ref root_page_ref draw : ℕ) → ℕ × ℕ × LastSlotInfo
  page_select r p info space_ref root_page_ref draw =
      let cur = cur_free_slots r p in
      let drawn = get_random_slot draw cur in
      let switched : LastSlotInfo = record {
        space_ref = space_ref;
        page_ref = root_page_ref;
        slot_number = drawn;
        next_free_rec_hint = 0;
      } in
      elim (get_cached_slot_number info space_ref root_page_ref cur) [
        | some cached ↦ (slot_head r p cached, cur, info)
        | none ↦ (slot_head r p drawn, cur, switched)
      ]

  -- The search of `get_free_slot` for an empty slot.
  unfoldable pub empty_slot : RootPage → Page → (slot_idx rounds : ℕ) → Option ℕ
  empty_slot r p slot_idx zero = none
  empty_slot r p slot_idx (suc rounds) =
      let rest = empty_slot r p (slot_idx + 1) rounds in
      if slot_head r p slot_idx == null_free_page_ref then some slot_idx else rest

  unfoldable pub get_free_slot : RootPage → Page → (draw : ℕ) → ℕ
  get_free_slot r p draw = elim (empty_slot r p 0 (cur_free_slots r p)) [
    | some slot_idx ↦ slot_idx
    | none ↦ get_random_slot draw (cur_free_slots r p)
  ]

  -- A number at an offset of the root page is counted up or down, on 32 bits.
  abbrev pub add_one : Page → ℕ → Page
  add_one p offset = write_integer 4 p offset ((read_integer 4 p offset + 1) % 2 ^ 32)

  abbrev pub sub_one : Page → ℕ → Page
  sub_one p offset = write_integer 4 p offset ((read_integer 4 p offset + 2 ^ 32 - 1) % 2 ^ 32)

  unfoldable pub add_free_page :
      RootPage → Store → (root_ref data_ref slot_number : ℕ) → Store × Bool
  add_free_page r st root_ref data_ref slot_number =
      let head = slot_head r (st.pages root_ref) slot_number in
      let st1 =
        if head == null_free_page_ref
        then st
        else modify st head (λ p. set_free_links p (some data_ref) none) in
      let st2 = modify st1 root_ref (λ p. write_integer 4 p (slot_off r slot_number) data_ref) in
      let st3 = modify st2 data_ref (λ p. set_free_links p (some root_ref) (some head)) in
      let st4 = modify st3 data_ref (λ p. set_free_slot_number p slot_number) in
      let st5 = modify st4 root_ref (λ p. add_one p (total_free_pages_off r)) in
      if not (head == null_free_page_ref) && not (st.loads head) then (st, true) else (st5, false)

  unfoldable pub remove_free_page : RootPage → Store → (root_ref data_ref : ℕ) → Store × Bool
  remove_free_page r st root_ref data_ref =
      let slot_number = get_free_slot_number (st.pages data_ref) in
      let (prev, next) = get_free_links (st.pages data_ref) in
      let st1 =
        if prev == root_ref
        then modify st root_ref (λ p. write_integer 4 p (slot_off r slot_number) next)
        else modify st prev (λ p. set_free_links p none (some next)) in
      let st2 =
        if next == null_free_page_ref
        then st1
        else modify st1 next (λ p. set_free_links p (some prev) none) in
      let st3 =
        modify st2 data_ref
          (λ p. set_free_links p (some null_free_page_ref) (some null_free_page_ref)) in
      let st4 = modify st3 root_ref (λ p. sub_one p (total_free_pages_off r)) in
      if not (prev == root_ref) && not (st.loads prev)
      then (st, true)
      else if not (next == null_free_page_ref) && not (st.loads next)
      then (st, true)
      else (st4, false)

  abbrev pub write_prev_link : Page → ℕ → Page
  write_prev_link p prev = write_links p prev (next_link p)

  abbrev pub write_next_link : Page → ℕ → Page
  write_next_link p next = write_links p (prev_link p) next

  unfoldable pub add_data_page : RootPage → Store → (root_ref data_ref : ℕ) → Store × Bool
  add_data_page r st root_ref data_ref =
      let head = read_integer 4 (st.pages root_ref) (all_slot_head_off r) in
      let st1 =
        if head == invalid_ref
        then modify st root_ref (λ p. write_integer 4 p (all_slot_tail_off r) data_ref)
        else modify st head (λ p. write_prev_link p data_ref) in
      let st2 = modify st1 data_ref (λ p. write_links p invalid_ref head) in
      let st3 = modify st2 root_ref (λ p. write_integer 4 p (all_slot_head_off r) data_ref) in
      let st4 = modify st3 root_ref (λ p. add_one p (total_data_pages_off r)) in
      if not (head == invalid_ref) && not (st.loads head) then (st, true) else (st4, false)

  unfoldable pub remove_data_page : RootPage → Store → (root_ref data_ref : ℕ) → Store × Bool
  remove_data_page r st root_ref data_ref =
      let prev = prev_link (st.pages data_ref) in
      let next = next_link (st.pages data_ref) in
      let st1 =
        if prev == invalid_ref
        then modify st root_ref (λ p. write_integer 4 p (all_slot_head_off r) next)
        else modify st prev (λ p. write_next_link p next) in
      let st2 =
        if next == invalid_ref
        then modify st1 root_ref (λ p. write_integer 4 p (all_slot_tail_off r) prev)
        else modify st1 next (λ p. write_prev_link p prev) in
      let st3 = modify st2 data_ref (λ p. write_links p invalid_ref invalid_ref) in
      let st4 = modify st3 root_ref (λ p. sub_one p (total_data_pages_off r)) in
      if not (prev == invalid_ref) && not (st.loads prev)
      then (st, true)
      else if not (next == invalid_ref) && not (st.loads next)
      then (st, true)
      else (st4, false)
