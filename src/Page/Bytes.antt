-- ===== src/Page/Bytes.antt =====
-- A concrete page that meets the laws of `PageApi`, to evaluate the model with: bytes by offset, and
-- the two header links apart from them.
use native.Mathlib.Nat.{pow-suc}
use vsql_vector.Base.{
  ℕ, zero, suc, ◌+◌, ◌*◌, ◌/◌, ◌%◌, ◌^◌, ◌≤◌, ◌<◌, ◌≡◌, ◌≢◌, refl, ap, ◌∙◌, inr, arith, ◌==◌,
  if◌then◌else◌, List, [], ◌∷◌, length, get_or,
}
use vsql_vector.Page.Api.{PageApi, Apart}

pub record BytesPage : Type 0 where
  pub bytes : ℕ → ℕ
  pub prev : ℕ
  pub next : ℕ

-- The byte at one offset is replaced.
unfoldable pub put : (ℕ → ℕ) → ℕ → ℕ → ℕ → ℕ
put f a v b = if a == b then v else f b

unfoldable pub read_bytes : ℕ → (ℕ → ℕ) → ℕ → ℕ
read_bytes zero f a = 0
read_bytes (suc w) f a = f a % 256 + read_bytes w f (a + 1) * 256

unfoldable pub write_bytes : ℕ → (ℕ → ℕ) → ℕ → ℕ → ℕ → ℕ
unfolding put
write_bytes zero f a v = f
write_bytes (suc w) f a v = write_bytes w (put f a (v % 256)) (a + 1) (v / 256)

unfoldable pub write_list : (ℕ → ℕ) → ℕ → List ℕ → ℕ → ℕ
unfolding put
write_list f a [] = f
write_list f a (x ∷ xs) = write_list (put f a x) (a + 1) xs

put_self : (f : ℕ → ℕ) (a v : ℕ) → put f a v a ≡ v
unfolding put
put_self f a v = ground arith

put-other : (f : ℕ → ℕ) (a v b : ℕ) → a ≢ b → put f a v b ≡ f b
unfolding put
put-other f a v b ne = ground arith

pub write_bytes-other :
    (w : ℕ) (f : ℕ → ℕ) (a v b : ℕ) → Apart a w b 1 → write_bytes w f a v b ≡ f b
unfolding write_bytes
write_bytes-other zero f a v b h = refl
write_bytes-other (suc w) f a v b h =
    write_bytes-other w (put f a (v % 256)) (a + 1) (v / 256) b (omega arith)
    ∙ put-other f a (v % 256) b (omega arith)

pub write_list-other :
    (l : List ℕ) (f : ℕ → ℕ) (a b : ℕ) → Apart a (length l) b 1 → write_list f a l b ≡ f b
unfolding write_list
write_list-other [] f a b h = refl
write_list-other (x ∷ l) f a b h =
    write_list-other l (put f a x) (a + 1) b (omega arith) ∙ put-other f a x b (omega arith)

pub write_list_self :
    (l : List ℕ) (f : ℕ → ℕ) (a i : ℕ) → i < length l → write_list f a l (a + i) ≡ get_or l i 0
unfolding write_list
write_list_self [] f a i h = absurd (omega arith)
write_list_self (x ∷ l) f a zero h =
    write_list-other l (put f a x) (a + 1) (a + 0) (omega arith)
    ∙ ap (put f a x) (omega arith)
    ∙ put_self f a x
write_list_self (x ∷ l) f a (suc i) h =
    ap (write_list (put f a x) (a + 1) l) (omega arith)
    ∙ write_list_self l (put f a x) (a + 1) i (omega arith)

pub read_bytes-lt : (w : ℕ) (f : ℕ → ℕ) (a : ℕ) → read_bytes w f a < 256 ^ w
unfolding read_bytes
read_bytes-lt zero f a = omega arith
read_bytes-lt (suc w) f a = omega (arith, pow-suc 256 w, read_bytes-lt w f (a + 1))

-- Pages that agree on the bytes that are read give the same integer.
pub read_bytes-same :
    (w : ℕ) (f g : ℕ → ℕ) (a : ℕ)
    → ((b : ℕ) → a ≤ b → b < a + w → g b ≡ f b)
    → read_bytes w g a ≡ read_bytes w f a
unfolding read_bytes
read_bytes-same zero f g a h = refl
read_bytes-same (suc w) f g a h = omega (
  arith,
  ap (λ n. n % 256) (h a (omega arith) (omega arith)),
  read_bytes-same w f g (a + 1) λ b l u. h b (omega arith) (omega arith),
)

pub read_bytes-write_bytes :
    (w : ℕ) (f : ℕ → ℕ) (a v : ℕ) → v < 256 ^ w → read_bytes w (write_bytes w f a v) a ≡ v
unfolding read_bytes write_bytes
read_bytes-write_bytes zero f a v h = omega arith
read_bytes-write_bytes (suc w) f a v h = omega (
  arith,
  ap (λ n. n % 256)
      (write_bytes-other w (put f a (v % 256)) (a + 1) (v / 256) a (inr (omega arith))
        ∙ put_self f a (v % 256)),
  read_bytes-write_bytes w (put f a (v % 256)) (a + 1) (v / 256) (omega (arith, pow-suc 256 w)),
)

instance abbrev pub bytes_api : PageApi
bytes_api = record {
  Page = BytesPage;
  read_integer = λ w p a. read_bytes w p.bytes a;
  write_integer = λ w p a v. record p { bytes = write_bytes w p.bytes a v };
  get_data = λ p a. p.bytes a;
  write_string = λ p a s. record p { bytes = write_list p.bytes a s };
  prev_link = λ p. p.prev;
  next_link = λ p. p.next;
  write_links = λ p a b. record p { prev = a; next = b };
  read_integer-lt = λ w p a. read_bytes-lt w p.bytes a;
  read-write_self = λ w p a v h. read_bytes-write_bytes w p.bytes a v h;
  read-write_apart = λ w u p a b v h.
      read_bytes-same u p.bytes (write_bytes w p.bytes a v) b
        λ c l r. write_bytes-other w p.bytes a v c (omega arith);
  read-write_string = λ u p a b s h.
      read_bytes-same u p.bytes (write_list p.bytes a s) b
        λ c l r. write_list-other s p.bytes a c (omega arith);
  get_data-write_integer = λ w p a b v h. write_bytes-other w p.bytes a v b h;
  get_data-write_string_self = λ p a i s h. write_list_self s p.bytes a i h;
  get_data-write_string = λ p a b s h. write_list-other s p.bytes a b h;
  prev_link-write_links = λ p a b h. refl;
  next_link-write_links = λ p a b h. refl;
  read-write_links = λ u p a b at h. refl;
  prev_link-write_integer = λ w p a v h. refl;
  next_link-write_integer = λ w p a v h. refl;
  prev_link-write_string = λ p a s h. refl;
  next_link-write_string = λ p a s h. refl;
}

-- A page of zeros, as the storage engine hands out.
abbrev pub zero_page : BytesPage
zero_page = record { bytes = λ a. 0; prev = 0xffff_ffff; next = 0xffff_ffff }
