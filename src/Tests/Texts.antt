-- ===== src/Tests/Texts.antt =====
-- Printing and parsing with numbers of one digit, and the witness of the theorem of `VectorText`.
use vsql_vector.Base.{
  ℕ, ◌+◌, ◌-◌, ◌<◌, ◌≡◌, ◌^◌, refl, ◌&&◌, Option, some, none, List, [], ◌∷◌, ltb, leb, ◌==◌,
  if◌then◌else◌, arith, Has,
}
use vsql_vector.Native.{float4store, float4get, get_floats}
use vsql_vector.VectorText.{
  TextApi, parsed, warning, too_many_elements, expected_comma, missing_value, zeros, store_values,
  emit_str, format_values, svector_format_impl, svector_from_string, skip_ws, trim_back, split_last,
  parse_values, check_count,
}
use vsql_vector.VectorText.Reading.{ReadsBack, NoSpaces}
use vsql_vector.VectorText.RoundTrip.{stored, from_string-format}

abbrev strtof : List ℕ → Option (ℕ × ℕ)
strtof [] = none
strtof (c ∷ rest) = if leb b'0' c && leb c b'9' then some (c - b'0', 1) else none

abbrev digits_api : TextApi
digits_api = record {
  is_space = λ c. c == b' ';
  strtof = strtof;
  to_chars = λ f. if ltb f 10 then some ((f + b'0') ∷ []) else none;
  ref_size = 8;
}

parse_spaced :
    svector_from_string digits_api none
      (b' ' ∷ b'[' ∷ b'1' ∷ b' ' ∷ b',' ∷ b'2' ∷ b']' ∷ b' ' ∷ [])
      []
      16
    ≡ parsed (stored digits_api (1 ∷ 2 ∷ []), 2)
unfolding svector_from_string skip_ws trim_back split_last parse_values check_count zeros
    store_values float4store
parse_spaced = refl

parse_too_many :
    svector_from_string digits_api (some 1) (b'[' ∷ b'1' ∷ b',' ∷ b'2' ∷ b']' ∷ []) [] 16
    ≡ warning too_many_elements
unfolding svector_from_string skip_ws trim_back split_last parse_values check_count
parse_too_many = refl

parse_no_comma :
    svector_from_string digits_api (some 2) (b'[' ∷ b'1' ∷ b' ' ∷ b'2' ∷ b']' ∷ []) [] 16
    ≡ warning expected_comma
unfolding svector_from_string skip_ws trim_back split_last parse_values check_count
parse_no_comma = refl

parse_open_end :
    svector_from_string digits_api (some 2) (b'[' ∷ b'1' ∷ b',' ∷ b']' ∷ []) [] 16
    ≡ warning missing_value
unfolding svector_from_string skip_ws trim_back split_last parse_values check_count
parse_open_end = refl

digit_reads : (x : ℕ) → x < 10 → ReadsBack digits_api x
digit_reads x h = record {
  first = x + b'0';
  others = [];
  short = omega arith;
  shown = ground arith;
  not_space = ground arith;
  read = λ d rest e. ground arith;
}

floats_read : (x : ℕ) → Has x (1 ∷ 2 ∷ []) → ReadsBack digits_api x
floats_read x h = digit_reads x (ground arith)

small_floats : (x : ℕ) → Has x (1 ∷ 2 ∷ []) → x < 2 ^ 32
small_floats x h = ground arith

format_two :
    svector_format_impl digits_api 2 (stored digits_api (1 ∷ 2 ∷ [])) 100
    ≡ some (b'[' ∷ b'1' ∷ b',' ∷ b'2' ∷ b']' ∷ [])
unfolding svector_format_impl emit_str format_values get_floats float4get zeros store_values
    float4store
format_two = refl

digits_NoSpaces : NoSpaces digits_api
digits_NoSpaces = record { comma = refl; opening = refl; closing = refl }

from_string-format_example :
    (shown : List ℕ) × (svector_format_impl digits_api 2 (stored digits_api (1 ∷ 2 ∷ [])) 35
      ≡ some shown)
    × (svector_from_string digits_api (some 2) shown [] 16
        ≡ parsed (stored digits_api (1 ∷ 2 ∷ []), 2))
from_string-format_example =
    from_string-format digits_api 1 (2 ∷ []) 35 16 [] digits_NoSpaces small_floats floats_read
      (omega arith) (omega arith) (omega arith)
