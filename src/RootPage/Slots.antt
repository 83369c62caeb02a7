-- ===== src/RootPage/Slots.antt =====
-- The array of free slots of a root page: `RootPage::init`, `get_free_slot` and `page_select`.
use mathlib.Core.Bool.{true≢false}
use vsql_vector.Base.{
  ℕ, zero, suc, ◌+◌, ◌*◌, ◌^◌, ◌≤◌, ◌<◌, ◌≡◌, ◌≢◌, ap, sym, ◌∙◌, Option, none, some, inl, inr,
  arith, ◌==◌, ==_iff, Bool-cases,
}
use native.Mathlib.Decide.{ℕ_discrete}
use vsql_vector.Page.Api.{PageApi, trailer_size}
use vsql_vector.RootPage.{
  RootPage, init, free_slot_array_off, free_slot_len, slot_head, cur_free_slots, empty_slot,
  get_free_slot, get_random_slot, null_free_page_ref,
}

-- The slot array that `init` makes room for, of at most the configured size, ends before the page
-- trailer begins, on every page of up to 64 KB that has room for the fields in front of the array.
pub slots_fit :
    (page_size col_len num_segments num_root_pages metadata_len configured_max : ℕ)
    → page_size ≤ 2 ^ 16
    → let r = init page_size col_len num_segments num_root_pages metadata_len configured_max in
      free_slot_array_off r + trailer_size ≤ page_size
      → (free_slot_array_off r + r.max_free_slots * free_slot_len + trailer_size ≤ page_size)
        × (r.max_free_slots ≤ configured_max)
unfolding init
slots_fit page_size col_len num_segments num_root_pages metadata_len configured_max small room =
    (ground arith, ground arith)

module _ ⦃api : PageApi⦄ (r : RootPage) where
  open api use {Page}

  -- Where the search for an empty slot ends: at the first one, if there is one.
  FirstEmpty : Page → (lo rounds : ℕ) → Option ℕ → Type 0
  FirstEmpty p lo rounds none =
      (t : ℕ) → lo ≤ t → t < lo + rounds → slot_head r p t ≢ null_free_page_ref
  FirstEmpty p lo rounds (some s) =
      (lo ≤ s)
      × (s < lo + rounds)
      × (slot_head r p s ≡ null_free_page_ref)
      × ((t : ℕ) → lo ≤ t → t < s → slot_head r p t ≢ null_free_page_ref)

  FirstEmpty-step :
      (p : Page) (lo rounds : ℕ) (rest : Option ℕ)
      → slot_head r p lo ≢ null_free_page_ref
      → FirstEmpty p (lo + 1) rounds rest
      → FirstEmpty p lo (suc rounds) rest
  unfolding FirstEmpty
  FirstEmpty-step p lo rounds none full f = λ t l u. elim (ℕ_discrete lo t) [
    | yes e ↦ λ empty. full (ap (slot_head r p) e ∙ empty)
    | no ne ↦ f t (omega arith) (omega arith)
  ]
  FirstEmpty-step p lo rounds (some s) full f = (
    omega (arith, f.0),
    omega (arith, f.1),
    f.2,
    λ t l u. elim (ℕ_discrete lo t) [
      | yes e ↦ λ empty. full (ap (slot_head r p) e ∙ empty)
      | no ne ↦ f.3 t (omega arith) u
    ],
  )

  empty_slot-FirstEmpty :
      (p : Page) (lo rounds : ℕ) → FirstEmpty p lo rounds (empty_slot r p lo rounds)
  unfolding FirstEmpty empty_slot
  empty_slot-FirstEmpty p lo zero = λ t l u. absurd (omega arith)
  empty_slot-FirstEmpty p lo (suc rounds) =
      elim (Bool-cases (slot_head r p lo == null_free_page_ref)) [
        | inl empty ↦
            rw empty (omega arith, omega arith, (==_iff _ _).0 empty, λ t l u. absurd (omega arith))
        | inr full ↦ rw full (
            FirstEmpty-step p lo rounds (empty_slot r p (lo + 1) rounds)
              (λ e. true≢false (sym ((==_iff _ _).1 e) ∙ full))
              (empty_slot-FirstEmpty p (lo + 1) rounds))
      ]

  -- The slot of `get_free_slot` is within the array, and empty if any slot is.
  pub get_free_slot_lem :
      (p : Page) (draw : ℕ)
      → draw < cur_free_slots r p
      → let s = get_free_slot r p draw in
        (s < cur_free_slots r p)
        × ((t : ℕ)
            → t < cur_free_slots r p
            → slot_head r p t ≡ null_free_page_ref
            → slot_head r p s ≡ null_free_page_ref)
  unfolding get_free_slot get_random_slot FirstEmpty
  get_free_slot_lem p draw lt =
      pick (empty_slot r p 0 (cur_free_slots r p)) (empty_slot-FirstEmpty p 0 (cur_free_slots r p))
    where
      slot : Option ℕ → ℕ
      slot found = elim found [ some s ↦ s | none ↦ get_random_slot draw (cur_free_slots r p) ]

      pick :
          (found : Option ℕ)
          → FirstEmpty p 0 (cur_free_slots r p) found
          → (slot found < cur_free_slots r p)
            × ((t : ℕ)
                → t < cur_free_slots r p
                → slot_head r p t ≡ null_free_page_ref
                → slot_head r p (slot found) ≡ null_free_page_ref)
      pick none f = (ground arith, λ t u empty. absurd (f t (omega arith) (omega arith) empty))
      pick (some s) f = (omega (arith, f.1), λ t u empty. f.2)
