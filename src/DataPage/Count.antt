-- ===== src/DataPage/Count.antt =====
-- The counter of free records of a data page: it is the number of free slots, and every operation of
-- `src/storage/data_page.cc` keeps it so.
use native.Mathlib.Decide.{ℕ_discrete}
use vsql_vector.Base.{
  ℕ, zero, suc, ◌+◌, ◌%◌, ◌^◌, ◌≤◌, ◌<◌, ◌≡◌, refl, ap, sym, ◌∙◌, Bool, true, false, List, inl, inr,
  arith, leb, leb-lt, ◌==◌, if◌then◌else◌, Bool-cases, length, ==_of_ne, ==_refl,
}
use vsql_vector.Page.Api.{PageApi, invalid_ref}
use vsql_vector.DataPage.{
  delete_byte, undelete_byte, free_byte, allocate_byte, DataPage, get_record_offset,
  get_record_status, update_bitmap, write_record, set_record_delete, set_record_undelete,
  set_record_free, set_record_allocated, insert_at, purge, format, format_header, version_off,
  page_type_off, root_page_ref_off, prev_free_page_off, next_free_page_off, num_free_recs_off,
  max_num_recs_off, free_slot_number_off, trx_ref_size, free_bitmap_off, invalid_slot,
}
use vsql_vector.DataPage.Status.{
  status-set_record_delete, status-set_record_undelete, status-set_record_free,
  status-set_record_allocated,
}
use vsql_vector.DataPage.FirstFree.{is_free}
use vsql_vector.DataPage.View.{
  IsLayout, status-write_integer, status-write_record, read-write_record,
}

abbrev bit : Bool → ℕ
bit true = 1
bit false = 0

-- How many numbers below a bound pass a test.
unfoldable pub count : (ℕ → Bool) → ℕ → ℕ
count f zero = 0
count f (suc n) = bit (f n) + count f n

count-same : (f g : ℕ → Bool) (n : ℕ) → ((t : ℕ) → t < n → g t ≡ f t) → count g n ≡ count f n
unfolding count
count-same f g zero h = refl
count-same f g (suc n) h =
    omega (arith, ap bit (h n (omega arith)), count-same f g n λ t lt. h t (omega arith))

count-update :
    (f g : ℕ → Bool) (s : ℕ) (b : Bool) (n : ℕ)
    → s < n
    → ((t : ℕ) → t < n → g t ≡ (if s == t then b else f t))
    → count g n + bit (f s) ≡ count f n + bit b
unfolding count
count-update f g s b zero lt h = absurd (omega arith)
count-update f g s b (suc n) lt h = elim (ℕ_discrete s n) [
  | yes e ↦ omega (
    arith,
    ap bit (h n (omega arith) ∙ ap (λ c. if c then b else f n) (ap (λ k. k == n) e ∙ ==_refl n)),
    ap (λ k. bit (f k)) e,
    count-same f g n
        λ t below. h t (omega arith) ∙ ap (λ c. if c then b else f t) (==_of_ne s t (omega arith)),
  )
  | no ne ↦ omega (
    arith,
    ap bit (h n (omega arith) ∙ ap (λ c. if c then b else f n) (==_of_ne s n ne)),
    count-update f g s b n (omega arith) (λ t below. h t (omega arith)),
  )
]

bit-le : (b : Bool) → bit b ≤ 1
bit-le true = omega arith
bit-le false = omega arith

count-le : (f : ℕ → Bool) (n : ℕ) → count f n ≤ n
unfolding count
count-le f zero = omega arith
count-le f (suc n) = omega (arith, bit-le (f n), count-le f n)

count_all : (f : ℕ → Bool) (n : ℕ) → ((t : ℕ) → t < n → f t ≡ true) → count f n ≡ n
unfolding count
count_all f zero h = refl
count_all f (suc n) h =
    omega (arith, ap bit (h n (omega arith)), count_all f n λ t lt. h t (omega arith))

-- Where the count is not zero, some number passes the test.
pub count-pos : (f : ℕ → Bool) (n : ℕ) → 0 < count f n → (t : ℕ) × (t < n) × (f t ≡ true)
unfolding count
count-pos f zero h = absurd (omega arith)
count-pos f (suc n) h = elim (Bool-cases (f n)) [
  | inl here ↦ (n, omega arith, here)
  | inr off ↦ let (t, lt, ok) = count-pos f n (omega (arith, ap bit off)) in (t, omega arith, ok)
]

module _ ⦃api : PageApi⦄ where
  open api use {Page, read_integer, write_integer, read-write_self, read-write_apart}

  -- The counters of a page are right: its capacity is that of the layout, and the number of free
  -- records is the number of slots that are free.
  pub record IsConsistent (d : DataPage) (p : Page) : Type 0 where
    pub capacity : read_integer 2 p max_num_recs_off ≡ d.max_num_recs
    pub counted : read_integer 2 p num_free_recs_off ≡ count (is_free p) d.max_num_recs

  module _ (d : DataPage) (laid : IsLayout d) where
    -- A write to the bitmap touches neither counter.
    read-update_bitmap :
        (p : Page) (s a : ℕ) (f : ℕ → ℕ → ℕ)
        → a + 2 ≤ free_bitmap_off
        → read_integer 2 (update_bitmap p s f) a ≡ read_integer 2 p a
    read-update_bitmap p s a f h = read-write_apart 1 2 p _ a _ (inr (omega arith))

    -- Writing the right number to the counter makes a page consistent.
    write_counter :
        (p : Page) (v : ℕ)
        → read_integer 2 p max_num_recs_off ≡ d.max_num_recs
        → v ≡ count (is_free p) d.max_num_recs
        → IsConsistent d (write_integer 2 p num_free_recs_off v)
    write_counter p v capacity e =
        let few : v < 2 ^ 16 = omega (arith, count-le (is_free p) d.max_num_recs, laid.slots) in
        record {
          capacity = read-write_apart 2 2 p _ _ v (inr (omega arith)) ∙ capacity;
          counted =
              read-write_self 2 p num_free_recs_off v few
              ∙ e
              ∙ sym (
                  count-same (is_free p) (is_free (write_integer 2 p num_free_recs_off v))
                    d.max_num_recs
                    λ t lt.
                      ap (λ (st : Bool × Bool). st.1)
                        (status-write_integer p 2 num_free_recs_off v t (inl (omega arith))));
        }

    -- A change of the bitmap that frees and occupies no slot.
    keep_free :
        (p : Page) (s : ℕ) (f : ℕ → ℕ → ℕ)
        → ((t : ℕ) → is_free (update_bitmap p s f) t ≡ is_free p t)
        → IsConsistent d p
        → IsConsistent d (update_bitmap p s f)
    keep_free p s f same c = record {
      capacity = read-update_bitmap p s max_num_recs_off f (omega arith) ∙ c.capacity;
      counted =
          read-update_bitmap p s num_free_recs_off f (omega arith)
          ∙ c.counted
          ∙ sym (
              count-same (is_free p) (is_free (update_bitmap p s f)) d.max_num_recs λ t lt. same t);
    }

    -- Setting a delete mark keeps the counters right.
    pub set_record_delete-IsConsistent :
        (p : Page) (s : ℕ) → IsConsistent d p → IsConsistent d (set_record_delete p s)
    unfolding set_record_delete
    set_record_delete-IsConsistent p s = keep_free p s delete_byte λ t.
        ap (λ (st : Bool × Bool). st.1) (status-set_record_delete p s t)
        ∙ pick (s == t) (get_record_status p t)
      where
        pick :
            (b : Bool) (st : Bool × Bool)
            → (let x : Bool × Bool = if b then (true, st.1) else st in x.1) ≡ st.1
        pick true st = refl
        pick false st = refl

    -- Taking a delete mark away keeps the counters right.
    pub set_record_undelete-IsConsistent :
        (p : Page) (s : ℕ) → IsConsistent d p → IsConsistent d (set_record_undelete p s)
    unfolding set_record_undelete
    set_record_undelete-IsConsistent p s = keep_free p s undelete_byte λ t.
        ap (λ (st : Bool × Bool). st.1) (status-set_record_undelete p s t)
        ∙ pick (s == t) (get_record_status p t)
      where
        pick :
            (b : Bool) (st : Bool × Bool)
            → (let x : Bool × Bool = if b then (false, st.1) else st in x.1) ≡ st.1
        pick true st = refl
        pick false st = refl

    if_snd :
        (b c : Bool) (st u : Bool × Bool)
        → st ≡ (if b then (c, true) else u)
        → st.1 ≡ (if b then true else u.1)
    if_snd true c st u e = ap (λ (x : Bool × Bool). x.1) e
    if_snd false c st u e = ap (λ (x : Bool × Bool). x.1) e

    if_snd' :
        (b c : Bool) (st u : Bool × Bool)
        → st ≡ (if b then (c, false) else u)
        → st.1 ≡ (if b then false else u.1)
    if_snd' true c st u e = ap (λ (x : Bool × Bool). x.1) e
    if_snd' false c st u e = ap (λ (x : Bool × Bool). x.1) e

    -- `insert` into a free slot of the page counts one free record less, and keeps the counters
    -- right.
    pub insert_at-IsConsistent :
        (p : Page) (s trx : ℕ) (col_data : List ℕ)
        → s < d.max_num_recs
        → is_free p s ≡ true
        → length col_data + trx_ref_size ≡ d.rec_size
        → IsConsistent d p
        → IsConsistent d (insert_at d p s trx col_data).0
    unfolding insert_at set_record_allocated
    insert_at-IsConsistent p s trx col_data hs free len c =
        write_counter (update_bitmap written s allocate_byte) _
          (read-update_bitmap written s max_num_recs_off allocate_byte (omega arith)
            ∙ read-write_record d laid p 2 max_num_recs_off s trx col_data (omega arith)
            ∙ c.capacity)
          (omega (arith, fewer, c.counted, count-le (is_free p) d.max_num_recs, laid.slots))
      where
        written : Page
        written = write_record d p s trx col_data

        fewer :
            count (is_free (update_bitmap written s allocate_byte)) d.max_num_recs + 1
            ≡ count (is_free p) d.max_num_recs
        fewer =
            ap (λ b. count (is_free (update_bitmap written s allocate_byte)) d.max_num_recs + bit b)
              (sym free)
            ∙ count-update (is_free p) (is_free (update_bitmap written s allocate_byte)) s false
                d.max_num_recs hs
                (λ t lt.
                  if_snd' (s == t) false _ _ (status-set_record_allocated written s t)
                  ∙ ap (λ b. if s == t then false else b)
                      (ap (λ (x : Bool × Bool). x.1)
                        (status-write_record d laid p s trx t col_data lt)))
            ∙ omega arith

    freed :
        (p : Page) (s : ℕ)
        → s < d.max_num_recs
        → is_free p s ≡ false
        → IsConsistent d p
        → IsConsistent d (
            write_integer 2
              (set_record_free p s)
              num_free_recs_off
              ((read_integer 2 (set_record_free p s) num_free_recs_off + 1) % 2 ^ 16))
    unfolding set_record_free
    freed p s hs used c =
        write_counter (update_bitmap p s free_byte) _
          (read-update_bitmap p s max_num_recs_off free_byte (omega arith) ∙ c.capacity)
          (omega (
            arith,
            more,
            c.counted,
            read-update_bitmap p s num_free_recs_off free_byte (omega arith),
            count-le (is_free p) d.max_num_recs,
            laid.slots,
          ))
      where
        more :
            count (is_free (update_bitmap p s free_byte)) d.max_num_recs
            ≡ count (is_free p) d.max_num_recs + 1
        more = omega (
          arith,
          ap bit used,
          count-update (is_free p) (is_free (update_bitmap p s free_byte)) s true d.max_num_recs hs
              λ t lt. if_snd (s == t) false _ _ (status-set_record_free p s t),
        )

    -- `purge` counts one free record more where it frees a slot, and keeps the counters right.
    pub purge-IsConsistent :
        (p : Page) (s trx : ℕ) → IsConsistent d p → IsConsistent d (purge d p s trx).0
    unfolding purge
    purge-IsConsistent p s trx c = elim (Bool-cases (leb d.max_num_recs s)) [
      | inl outside ↦ rw outside c
      | inr inside ↦ rw inside (elim (Bool-cases (is_free p s)) [
        | inl free ↦ rw free c
        | inr used ↦ rw used (elim (Bool-cases (read_integer 8 p (get_record_offset d s) == trx)) [
          | inl match ↦ rw match (freed p s (leb-lt _ _ inside) used c)
          | inr differs ↦ rw differs c
        ])
      ])
    ]

    status-format_header :
        (p : Page) (version root_page_ref t : ℕ)
        → get_record_status (format_header d p version root_page_ref) t ≡ get_record_status p t
    unfolding format_header
    status-format_header p version root_page_ref t =
        let p1 = write_integer 1 p version_off version in
        let p2 = write_integer 1 p1 page_type_off 2 in
        let p3 = write_integer 2 p2 free_slot_number_off invalid_slot in
        let p4 = write_integer 4 p3 root_page_ref_off root_page_ref in
        let p5 = write_integer 4 p4 prev_free_page_off invalid_ref in
        let p6 = write_integer 4 p5 next_free_page_off invalid_ref in
        status-write_integer p6 2 max_num_recs_off _ t (inl (omega arith))
        ∙ status-write_integer p5 4 next_free_page_off _ t (inl (omega arith))
        ∙ status-write_integer p4 4 prev_free_page_off _ t (inl (omega arith))
        ∙ status-write_integer p3 4 root_page_ref_off _ t (inl (omega arith))
        ∙ status-write_integer p2 2 free_slot_number_off _ t (inl (omega arith))
        ∙ status-write_integer p1 1 page_type_off _ t (inl (omega arith))
        ∙ status-write_integer p 1 version_off _ t (inl (omega arith))

    capacity-format_header :
        (p : Page) (version root_page_ref : ℕ)
        → read_integer 2 (format_header d p version root_page_ref) max_num_recs_off ≡ d.max_num_recs
    unfolding format_header
    capacity-format_header p version root_page_ref =
        read-write_self 2 _ max_num_recs_off d.max_num_recs (omega (arith, laid.slots))

    -- A page without a record on it is consistent once `format` has written its header.
    pub format-IsConsistent :
        (p : Page) (version root_page_ref : ℕ)
        → ((t : ℕ) → t < d.max_num_recs → is_free p t ≡ true)
        → IsConsistent d (format d p version root_page_ref)
    unfolding format
    format-IsConsistent p version root_page_ref empty =
        let header = format_header d p version root_page_ref in
        write_counter header d.max_num_recs (capacity-format_header p version root_page_ref) (
          sym (
            count_all (is_free header) d.max_num_recs λ t lt.
              ap (λ (x : Bool × Bool). x.1) (status-format_header p version root_page_ref t)
              ∙ empty t lt))
