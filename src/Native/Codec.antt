-- ===== src/Native/Codec.antt =====
-- The encoded form and the native form give one another back: `float4store`, `float4get`,
-- `from_encoded` and `to_encoded` (`src/native_vector.h`, `native_vector.cc`).
use vsql_vector.Base.{
  ℕ, zero, suc, ◌+◌, ◌*◌, ◌/◌, ◌%◌, ◌^◌, ◌≤◌, ◌<◌, ◌≡◌, refl, true, some, List, [], ◌∷◌, length,
  bit_or, bit_or-field, ap, ◌∙◌, arith, Has, inl, inr,
}
use vsql_vector.Native.{
  Data, float4store, float4get, get_floats, store_floats, from_encoded, to_encoded, native_length,
  is_aligned, max_vector_dimension,
}

float4get-eq-sum :
    (b0 b1 b2 b3 : ℕ)
    → b0 < 2 ^ 8
    → b1 < 2 ^ 8
    → b2 < 2 ^ 8
    → float4get b0 b1 b2 b3 ≡ b0 + b1 * 2 ^ 8 + b2 * 2 ^ 16 + b3 * 2 ^ 24
unfolding float4get
float4get-eq-sum b0 b1 b2 b3 h0 h1 h2 =
    ap (λ t. bit_or (bit_or t (b2 * 2 ^ 16)) (b3 * 2 ^ 24)) (bit_or-field 8 b0 b1 h0)
    ∙ ap (λ t. bit_or t (b3 * 2 ^ 24)) (bit_or-field 16 (b0 + b1 * 2 ^ 8) b2 (omega arith))
    ∙ bit_or-field 24 (b0 + b1 * 2 ^ 8 + b2 * 2 ^ 16) b3 (omega arith)

pub get-store :
    (floats : List ℕ)
    → ((x : ℕ) → Has x floats → x < 2 ^ 32)
    → get_floats (length floats) (store_floats (length floats) floats) ≡ floats
unfolding get_floats store_floats float4store
get-store [] h = refl
get-store (x ∷ floats) h =
    let bound = h x (inl refl) in
    let rest = get_floats (length floats) (store_floats (length floats) floats) in
    let head : float4get (x % 2 ^ 8) (x / 2 ^ 8 % 2 ^ 8) (x / 2 ^ 16 % 2 ^ 8) (x / 2 ^ 24 % 2 ^ 8)
        ≡ x =
      float4get-eq-sum _ _ _ _ (omega arith) (omega arith) (omega arith) ∙ omega arith in
    ap (λ t. t ∷ rest) head ∙ ap (λ t. x ∷ t) (get-store floats (λ y m. h y (inr m)))

pub length-store_floats :
    (floats : List ℕ) → length (store_floats (length floats) floats) ≡ length floats * 4
unfolding store_floats float4store
length-store_floats [] = omega arith
length-store_floats (x ∷ floats) = omega (arith, length-store_floats floats)

store-get :
    (count : ℕ) (bytes : List ℕ)
    → length bytes ≡ count * 4
    → ((x : ℕ) → Has x bytes → x < 2 ^ 8)
    → store_floats count (get_floats count bytes) ≡ bytes
unfolding get_floats store_floats float4store
store-get zero [] e h = refl
store-get zero (b0 ∷ bytes) e h = absurd (omega arith)
store-get (suc count) [] e h = absurd (omega arith)
store-get (suc count) (b0 ∷ []) e h = absurd (omega arith)
store-get (suc count) (b0 ∷ b1 ∷ []) e h = absurd (omega arith)
store-get (suc count) (b0 ∷ b1 ∷ b2 ∷ []) e h = absurd (omega arith)
store-get (suc count) (b0 ∷ b1 ∷ b2 ∷ b3 ∷ bytes) e h =
    let h0 = h b0 (inl refl) in
    let h1 = h b1 (inr (inl refl)) in
    let h2 = h b2 (inr (inr (inl refl))) in
    let h3 = h b3 (inr (inr (inr (inl refl)))) in
    let v = float4get-eq-sum b0 b1 b2 b3 h0 h1 h2 in
    let x = float4get b0 b1 b2 b3 in
    let e0 : x % 2 ^ 8 ≡ b0 = omega arith in
    let e1 : x / 2 ^ 8 % 2 ^ 8 ≡ b1 = omega arith in
    let e2 : x / 2 ^ 16 % 2 ^ 8 ≡ b2 = omega arith in
    let e3 : x / 2 ^ 24 % 2 ^ 8 ≡ b3 = omega arith in
    cc (e0, e1, e2, e3, store-get count bytes (omega arith) (λ y m. h y (inr (inr (inr (inr m))))))

-- A vector of between one and 3072 floats is stored in a buffer that has room for it, and the
-- bytes are read as the same vector into an aligned buffer that has room for it.
pub from_encoded-to_encoded :
    (max_align address native_buf_len encoded_buf_len : ℕ) (v : Data)
    → v.dim ≡ length v.floats
    → ((x : ℕ) → Has x v.floats → x < 2 ^ 32)
    → 0 < v.dim
    → v.dim ≤ max_vector_dimension
    → v.dim * 4 ≤ encoded_buf_len
    → v.dim * 4 + 4 ≤ native_buf_len
    → is_aligned address max_align ≡ true
    → (bytes : List ℕ) × (to_encoded (some v) true encoded_buf_len ≡ some bytes)
      × (from_encoded max_align (some bytes) (some address) native_buf_len ≡ some v)
unfolding from_encoded to_encoded native_length
from_encoded-to_encoded max_align address native_buf_len encoded_buf_len v sized bounded pos small
      room space aligned =
    let bytes = store_floats v.dim v.floats in
    let l : length bytes ≡ v.dim * 4 = rw sized (length-store_floats v.floats) in
    let dim : length bytes / 4 % 2 ^ 32 ≡ v.dim = omega arith in
    let back : get_floats v.dim bytes ≡ v.floats = rw sized (get-store v.floats bounded) in
    (bytes, ground arith, ground arith)

-- If fewer than 2^34 bytes are read as a vector, the vector is stored as the same bytes in a
-- buffer that has room for as many.
pub to_encoded-from_encoded :
    (max_align address native_buf_len encoded_buf_len : ℕ) (bytes : List ℕ) (v : Data)
    → ((x : ℕ) → Has x bytes → x < 2 ^ 8)
    → length bytes < 2 ^ 34
    → length bytes ≤ encoded_buf_len
    → from_encoded max_align (some bytes) (some address) native_buf_len ≡ some v
    → to_encoded (some v) true encoded_buf_len ≡ some bytes
unfolding from_encoded to_encoded
to_encoded-from_encoded max_align address native_buf_len encoded_buf_len bytes v bounded short room
      h =
    let dim = length bytes / 4 % 2 ^ 32 in
    let whole : length bytes % 4 ≡ 0 = ground arith in
    let all : length bytes ≡ dim * 4 = omega arith in
    ground (arith, store-get dim bytes all bounded)
