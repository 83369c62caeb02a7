-- ===== src/DataPage/Links.antt =====
-- The free links of a data page: `DataPage::set_free_links`, `get_free_links` and
-- `set_free_slot_number`.
use vsql_vector.Base.{ℕ, ◌^◌, ◌<◌, ◌≡◌, ◌∙◌, none, some, inl, inr, arith}
use vsql_vector.Page.Api.{PageApi}
use vsql_vector.DataPage.{
  set_free_links, set_free_slot_number, prev_free_page_off, next_free_page_off,
  free_slot_number_off,
}

module _ ⦃api : PageApi⦄ (p : PageApi.Page api) where
  open api use {read_integer, write_integer, read-write_self, read-write_apart}

  prev_apart :
      (v : ℕ)
      → read_integer 4 (write_integer 4 p next_free_page_off v) prev_free_page_off
        ≡ read_integer 4 p prev_free_page_off
  prev_apart v = read-write_apart 4 4 p _ _ v (inr (omega arith))

  pub prev-set_both :
      (a b : ℕ)
      → a < 2 ^ 32
      → read_integer 4 (set_free_links p (some a) (some b)) prev_free_page_off ≡ a
  unfolding set_free_links
  prev-set_both a b h =
      read-write_apart 4 4 _ _ _ b (inr (omega arith)) ∙ read-write_self 4 p prev_free_page_off a h

  pub next-set_both :
      (a b : ℕ)
      → b < 2 ^ 32
      → read_integer 4 (set_free_links p (some a) (some b)) next_free_page_off ≡ b
  unfolding set_free_links
  next-set_both a b h = read-write_self 4 _ next_free_page_off b h

  pub prev-set_prev :
      (a : ℕ) → a < 2 ^ 32 → read_integer 4 (set_free_links p (some a) none) prev_free_page_off ≡ a
  unfolding set_free_links
  prev-set_prev a h = read-write_self 4 p prev_free_page_off a h

  pub next-set_prev :
      (a : ℕ)
      → read_integer 4 (set_free_links p (some a) none) next_free_page_off
        ≡ read_integer 4 p next_free_page_off
  unfolding set_free_links
  next-set_prev a = read-write_apart 4 4 p _ _ a (inl (omega arith))

  pub prev-set_next :
      (b : ℕ)
      → read_integer 4 (set_free_links p none (some b)) prev_free_page_off
        ≡ read_integer 4 p prev_free_page_off
  unfolding set_free_links
  prev-set_next b = prev_apart b

  pub next-set_next :
      (b : ℕ) → b < 2 ^ 32 → read_integer 4 (set_free_links p none (some b)) next_free_page_off ≡ b
  unfolding set_free_links
  next-set_next b h = read-write_self 4 p next_free_page_off b h

  pub prev-set_free_slot_number :
      (v : ℕ)
      → read_integer 4 (set_free_slot_number p v) prev_free_page_off
        ≡ read_integer 4 p prev_free_page_off
  unfolding set_free_slot_number
  prev-set_free_slot_number v = read-write_apart 2 4 p _ _ v (inl (omega arith))

  pub next-set_free_slot_number :
      (v : ℕ)
      → read_integer 4 (set_free_slot_number p v) next_free_page_off
        ≡ read_integer 4 p next_free_page_off
  unfolding set_free_slot_number
  next-set_free_slot_number v = read-write_apart 2 4 p _ _ v (inl (omega arith))

  -- The slot number of a page is no part of its links.
  pub slot-set_both :
      (a b : ℕ)
      → read_integer 2 (set_free_links p (some a) (some b)) free_slot_number_off
        ≡ read_integer 2 p free_slot_number_off
  unfolding set_free_links
  slot-set_both a b =
      read-write_apart 4 2 _ _ _ b (inr (omega arith))
      ∙ read-write_apart 4 2 p _ _ a (inr (omega arith))

  pub slot-set_next :
      (b : ℕ)
      → read_integer 2 (set_free_links p none (some b)) free_slot_number_off
        ≡ read_integer 2 p free_slot_number_off
  unfolding set_free_links
  slot-set_next b = read-write_apart 4 2 p _ _ b (inr (omega arith))

  pub slot-set_prev :
      (a : ℕ)
      → read_integer 2 (set_free_links p (some a) none) free_slot_number_off
        ≡ read_integer 2 p free_slot_number_off
  unfolding set_free_links
  slot-set_prev a = read-write_apart 4 2 p _ _ a (inr (omega arith))
