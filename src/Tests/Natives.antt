-- ===== src/Tests/Natives.antt =====
-- Runs of the codec of the native form, and witnesses of the theorems of `Native`.
use vsql_vector.Base.{
  ℕ, ◌+◌, ◌-◌, ◌*◌, ◌^◌, ◌≡◌, ◌<◌, refl, true, false, some, List, [], ◌∷◌, ltb, arith, Has, inl,
  inr,
}
use vsql_vector.Native.{
  Data, Arithmetic, from_encoded, to_encoded, is_aligned, get_floats, float4get, native_length,
  dist_l1, dist_l2, dist_cosine, dist_inner_product,
}
use vsql_vector.Native.Codec.{from_encoded-to_encoded, to_encoded-from_encoded}
use vsql_vector.Native.Symmetry.{IsSymmetric, distances_comm}
use vsql_vector.Native.Buffer.{
  Call, call_init, call_reset, calls, call, init, reset, default_buffer, Owns, calls-Owns,
  is_initialized,
}

-- The floats 1.0 and 2.0.
abbrev two_floats : Data
two_floats = record { dim = 2; floats = 1065353216 ∷ 1073741824 ∷ [] }

abbrev two_floats_bytes : List ℕ
two_floats_bytes = 0 ∷ 0 ∷ 128 ∷ 63 ∷ 0 ∷ 0 ∷ 0 ∷ 64 ∷ []

floats_bounded : (x : ℕ) → Has x two_floats.floats → x < 2 ^ 32
floats_bounded x h = elim h [
  | inl e ↦ rw e (omega arith)
  | inr m ↦ elim m [ inl e ↦ rw e (omega arith) | inr n ↦ elim n [ ] ]
]

aligned : is_aligned 4096 16 ≡ true
unfolding is_aligned
aligned = refl

from_encoded-to_encoded_example :
    (bytes : List ℕ) × (to_encoded (some two_floats) true 8 ≡ some bytes)
    × (from_encoded 16 (some bytes) (some 4096) 12 ≡ some two_floats)
from_encoded-to_encoded_example =
    from_encoded-to_encoded 16 4096 12 8 two_floats refl floats_bounded (omega arith) (omega arith)
      (omega arith) (omega arith) aligned

read_two : from_encoded 16 (some two_floats_bytes) (some 4096) 12 ≡ some two_floats
unfolding from_encoded native_length is_aligned get_floats float4get
read_two = refl

bytes_bounded : (x : ℕ) → Has x two_floats_bytes → x < 2 ^ 8
bytes_bounded x h = ground arith

to_encoded-from_encoded_example : to_encoded (some two_floats) true 8 ≡ some two_floats_bytes
to_encoded-from_encoded_example =
    to_encoded-from_encoded 16 4096 12 8 two_floats_bytes two_floats bytes_bounded (omega arith)
      (omega arith) read_two

-- A stand-in for the arithmetic: numbers, with the distance of two as their difference.
abbrev numbers : Arithmetic
numbers = record {
  Double = ℕ;
  sub = λ x y. (x - y) + (y - x);
  mul = λ x y. x * y;
  abs = λ x. x;
  widen = λ x. x;
  zero_d = 0;
  one_d = 1;
  add_d = λ x y. x + y;
  sub_d = λ x y. (x - y) + (y - x);
  mul_d = λ x y. x * y;
  div_d = λ x y. x;
  sqrt_d = λ x. x;
  lt_d = ltb;
}

numbers_symmetric : IsSymmetric numbers
numbers_symmetric = record {
  mul_comm = λ x y. grind arith;
  mul_d_comm = λ x y. grind arith;
  abs_sub = λ x y. omega arith;
  square_sub = λ x y. let e : (x - y) + (y - x) ≡ (y - x) + (x - y) = omega arith in rw e refl;
}

abbrev two_others : Data
two_others = record { dim = 2; floats = 3 ∷ 4 ∷ [] }

distances_comm_example :
    (dist_l1 numbers two_floats two_others ≡ dist_l1 numbers two_others two_floats)
    × (dist_l2 numbers two_floats two_others ≡ dist_l2 numbers two_others two_floats)
    × (dist_cosine numbers two_floats two_others ≡ dist_cosine numbers two_others two_floats)
    × (dist_inner_product numbers two_floats two_others
        ≡ dist_inner_product numbers two_others two_floats)
distances_comm_example = distances_comm numbers numbers_symmetric two_floats two_others refl

abbrev some_calls : List Call
some_calls =
    call_init true 64 16
    ∷ call_init true 9000 16
    ∷ call_init false 9000 32
    ∷ call_reset
    ∷ call_init true 9000 64
    ∷ []

calls-Owns_example :
    Owns (calls 4096 16 some_calls default_buffer)
    × ((reset (calls 4096 16 some_calls default_buffer)).live ≡ 0)
calls-Owns_example = calls-Owns 4096 16 some_calls

one_block : (calls 4096 16 some_calls default_buffer).live ≡ 1
unfolding calls call init reset is_initialized
one_block = refl
