-- ===== src/Native.antt =====
-- The native form of a vector: `src/native_vector.h` and `native_vector.cc`. A float is its 32 bits, as a
-- number; the arithmetic on floats and doubles is a parameter. A vector that the source's functions
-- take without a test for null is one that is there.
pub mod Codec
pub mod Symmetry
pub mod Buffer
use vsql_vector.Base.{
  ℕ, zero, suc, ◌+◌, ◌-◌, ◌*◌, ◌/◌, ◌%◌, ◌^◌, Bool, true, false, ◌&&◌, ◌||◌, not, Option, none,
  some, List, [], ◌∷◌, ltb, leb, ◌==◌, if◌then◌else◌, length, bit_and, bit_or, get_or,
}

abbrev pub max_vector_dimension : ℕ
max_vector_dimension = 3072

-- `dim` and the array of floats behind it.
pub record Data : Type 0 where
  pub dim : ℕ
  pub floats : List ℕ

unfoldable pub is_aligned : (address alignment : ℕ) → Bool
is_aligned address alignment = bit_and address (alignment - 1) == 0

-- The four bytes of a float, and what follows them.
unfoldable pub float4store : (value : ℕ) → (rest : List ℕ) → List ℕ
float4store bits rest =
    (bits % 2 ^ 8)
    ∷ (bits / 2 ^ 8 % 2 ^ 8)
    ∷ (bits / 2 ^ 16 % 2 ^ 8)
    ∷ (bits / 2 ^ 24 % 2 ^ 8)
    ∷ rest

unfoldable pub float4get : (b0 b1 b2 b3 : ℕ) → ℕ
float4get b0 b1 b2 b3 = bit_or (bit_or (bit_or b0 (b1 * 2 ^ 8)) (b2 * 2 ^ 16)) (b3 * 2 ^ 24)

-- `Length::length`: the header and the floats, of a dimension that is cut off at the maximum.
unfoldable pub native_length : (dimension : ℕ) → ℕ
native_length dimension =
    4 + (if ltb max_vector_dimension dimension then max_vector_dimension else dimension) * 4

-- The loop of `from_encoded`; the bytes are there, as `count` comes from their number.
unfoldable pub get_floats : (count : ℕ) → List ℕ → List ℕ
get_floats zero bytes = []
get_floats (suc count) (b0 ∷ b1 ∷ b2 ∷ b3 ∷ bytes) = float4get b0 b1 b2 b3 ∷ get_floats count bytes
get_floats (suc count) bytes = []

-- The loop of `to_encoded`.
unfoldable pub store_floats : (count : ℕ) → List ℕ → List ℕ
store_floats zero floats = []
store_floats (suc count) [] = []
store_floats (suc count) (value ∷ floats) = float4store value (store_floats count floats)

-- `none` for a pointer is null. `max_align` is `alignof(max_align_t)`.
unfoldable pub from_encoded :
    (max_align : ℕ)
    → (encoded_data : Option (List ℕ)) → (native_buffer : Option ℕ) → (native_buf_len : ℕ)
    → Option Data
from_encoded max_align none native_buffer native_buf_len = none
from_encoded max_align (some bytes) none native_buf_len = none
from_encoded max_align (some bytes) (some address) native_buf_len =
    let dim = length bytes / 4 % 2 ^ 32 in
    if not (length bytes % 4 == 0)
    then none
    else (if (dim == 0) || ltb max_vector_dimension dim
        then none
        else (if ltb native_buf_len (native_length dim)
            then none
            else (if not (is_aligned address max_align)
                then none
                else some (record { dim = dim; floats = get_floats dim bytes }))))

-- `has_buffers` is whether neither of the pointers for the result is null.
unfoldable pub to_encoded :
    (native_data : Option Data) → (has_buffers : Bool) → (encoded_buf_len : ℕ) → Option (List ℕ)
to_encoded none has_buffers encoded_buf_len = none
to_encoded (some native) has_buffers encoded_buf_len =
    if not has_buffers
    then none
    else (if (native.dim == 0) || ltb max_vector_dimension native.dim
        then none
        else (if ltb encoded_buf_len (native.dim * 4)
            then none
            else some (store_floats native.dim native.floats)))

-- The arithmetic: on floats `sub`, `mul` and `abs`, and on doubles the rest.
pub record Arithmetic : Type 1 where
  pub Double : Type 0
  pub sub : ℕ → ℕ → ℕ
  pub mul : ℕ → ℕ → ℕ
  pub abs : ℕ → ℕ
  pub widen : ℕ → Double
  pub zero_d : Double
  pub one_d : Double
  pub add_d : Double → Double → Double
  pub sub_d : Double → Double → Double
  pub mul_d : Double → Double → Double
  pub div_d : Double → Double → Double
  pub sqrt_d : Double → Double
  pub lt_d : Double → Double → Bool

module _ (a : Arithmetic) where
  open a use {Double}

  -- The loops over the dimension of the first vector, whatever that of the second is, with a term
  -- for each pair of floats: `count` rounds from the index `i` on. An array holds as many floats as
  -- the dimension says; behind its end, where the source reads what is not its own, a read is 0.
  unfoldable pub sum_pairs :
      (term : ℕ → ℕ → Double) → (result : Double) → (i count : ℕ) → List ℕ → List ℕ → Double
  sum_pairs term result i zero xs ys = result
  sum_pairs term result i (suc count) xs ys =
      let pair = term (get_or xs i 0) (get_or ys i 0) in
      sum_pairs term (a.add_d result pair) (suc i) count xs ys

  unfoldable pub dist_l1 : Data → Data → Double
  dist_l1 v1 v2 =
      sum_pairs (λ x y. a.widen (a.abs (a.sub x y))) a.zero_d 0 v1.dim v1.floats v2.floats

  unfoldable pub dist_squared_l2 : Data → Data → Double
  dist_squared_l2 v1 v2 =
      sum_pairs (λ x y. let diff = a.sub_d (a.widen x) (a.widen y) in a.mul_d diff diff) a.zero_d 0
        v1.dim v1.floats v2.floats

  unfoldable pub dist_l2 : Data → Data → Double
  dist_l2 v1 v2 = a.sqrt_d (dist_squared_l2 v1 v2)

  unfoldable pub dist_cosine : Data → Data → Double
  dist_cosine v1 v2 =
      let sum = λ (term : ℕ → ℕ → Double). sum_pairs term a.zero_d 0 v1.dim v1.floats v2.floats in
      let dot = sum (λ x y. a.mul_d (a.widen x) (a.widen y)) in
      let norm1 = sum (λ x y. a.mul_d (a.widen x) (a.widen x)) in
      let norm2 = sum (λ x y. a.mul_d (a.widen y) (a.widen y)) in
      let denom = a.mul_d (a.sqrt_d norm1) (a.sqrt_d norm2) in
      if a.lt_d a.zero_d denom then a.sub_d a.one_d (a.div_d dot denom) else a.one_d

  unfoldable pub dist_inner_product : Data → Data → Double
  dist_inner_product v1 v2 =
      sum_pairs (λ x y. a.widen (a.mul x y)) a.zero_d 0 v1.dim v1.floats v2.floats

  unfoldable pub norm_l2 : Data → Double
  norm_l2 v =
      a.sqrt_d
        (sum_pairs (λ x y. a.mul_d (a.widen x) (a.widen x)) a.zero_d 0 v.dim v.floats v.floats)
