-- ===== src/Page/Api.antt =====
-- What the sources use of a page (`villagesql/preview/storage_api.h`, which the repository does
-- not hold): integers of 1, 2, 4 or 8 bytes and byte strings at an offset, and the links to the
-- previous and next page in the page header. The laws say that a write is read back and that it
-- leaves everything else alone. They do not fix the byte order.
use vsql_vector.Base.{ℕ, ◌+◌, ◌^◌, ◌≤◌, ◌<◌, ◌≡◌, ◌⊎◌, List, length, get_or}

-- The `n` bytes at `a` and the `m` bytes at `b` have none in common.
abbrev pub Apart : ℕ → ℕ → ℕ → ℕ → Type 0
Apart a n b m = (a + n ≤ b) ⊎ (b + m ≤ a)

-- `Page::HEADER_SIZE` and `Page::TRAILER_SIZE`, as the page formats in the headers draw them.
abbrev pub header_size : ℕ
header_size = 38

abbrev pub trailer_size : ℕ
trailer_size = 8

-- `Page::INVALID_REF`, the reference of no page.
abbrev pub invalid_ref : ℕ
invalid_ref = 0xffff_ffff

pub record PageApi : Type 1 where
  pub Page : Type 0
  pub read_integer : (width : ℕ) → Page → (offset : ℕ) → ℕ
  pub write_integer : (width : ℕ) → Page → (offset value : ℕ) → Page
  pub get_data : Page → ℕ → ℕ
  pub write_string : Page → ℕ → List ℕ → Page
  pub prev_link : Page → ℕ
  pub next_link : Page → ℕ
  pub write_links : Page → (prev next : ℕ) → Page
  pub read_integer-lt : (w : ℕ) (p : Page) (a : ℕ) → read_integer w p a < 256 ^ w
  pub read-write_self :
      (w : ℕ) (p : Page) (a v : ℕ) → v < 256 ^ w → read_integer w (write_integer w p a v) a ≡ v
  pub read-write_apart :
      (w u : ℕ) (p : Page) (a b v : ℕ)
      → Apart a w b u
      → read_integer u (write_integer w p a v) b ≡ read_integer u p b
  pub read-write_string :
      (u : ℕ) (p : Page) (a b : ℕ) (s : List ℕ)
      → Apart a (length s) b u
      → read_integer u (write_string p a s) b ≡ read_integer u p b
  pub get_data-write_integer :
      (w : ℕ) (p : Page) (a b v : ℕ)
      → Apart a w b 1
      → get_data (write_integer w p a v) b ≡ get_data p b
  pub get_data-write_string_self :
      (p : Page) (a i : ℕ) (s : List ℕ)
      → i < length s
      → get_data (write_string p a s) (a + i) ≡ get_or s i 0
  pub get_data-write_string :
      (p : Page) (a b : ℕ) (s : List ℕ)
      → Apart a (length s) b 1
      → get_data (write_string p a s) b ≡ get_data p b
  pub prev_link-write_links : (p : Page) (a b : ℕ) → a < 2 ^ 32 → prev_link (write_links p a b) ≡ a
  pub next_link-write_links : (p : Page) (a b : ℕ) → b < 2 ^ 32 → next_link (write_links p a b) ≡ b
  pub read-write_links :
      (u : ℕ) (p : Page) (a b at : ℕ)
      → header_size ≤ at
      → read_integer u (write_links p a b) at ≡ read_integer u p at
  pub prev_link-write_integer :
      (w : ℕ) (p : Page) (a v : ℕ)
      → header_size ≤ a
      → prev_link (write_integer w p a v) ≡ prev_link p
  pub next_link-write_integer :
      (w : ℕ) (p : Page) (a v : ℕ)
      → header_size ≤ a
      → next_link (write_integer w p a v) ≡ next_link p
  pub prev_link-write_string :
      (p : Page) (a : ℕ) (s : List ℕ)
      → header_size ≤ a
      → prev_link (write_string p a s) ≡ prev_link p
  pub next_link-write_string :
      (p : Page) (a : ℕ) (s : List ℕ)
      → header_size ≤ a
      → next_link (write_string p a s) ≡ next_link p
