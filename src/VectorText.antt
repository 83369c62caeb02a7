-- ===== src/VectorText.antt =====
-- The text form of a vector: `svector_from_string` and `svector_format_impl`
-- (`src/vector.cc`). Characters and bytes are numbers. A float is its 32 bits. The functions of the C++
-- library are parameters. A dimension is a number: one below zero is refused as zero is.
pub mod Reading
pub mod RoundTrip
mod Ends
use vsql_vector.Base.{
  ℕ, zero, suc, ◌+◌, ◌-◌, ◌*◌, ◌/◌, ◌≤◌, Bool, true, false, ◌&&◌, ◌||◌, Option, none, some, List,
  [], ◌∷◌, ◌++◌, ltb, leb, ◌==◌, if◌then◌else◌, length, drop, ◌>>=◌, min,
}
use vsql_vector.Native.{max_vector_dimension, float4store, get_floats}

abbrev pub max_float_str_length : ℕ
max_float_str_length = 16

pub record TextApi : Type 0 where
  pub is_space : ℕ → Bool
  -- The value and the number of characters that it takes; `none` where there is no number, or one out of range.
  pub strtof : List ℕ → Option (ℕ × ℕ)
  -- `none` where the text takes more than `MAX_FLOAT_STR_LENGTH` characters.
  pub to_chars : ℕ → Option (List ℕ)
  -- `sizeof(vef_storage_ref_t)`.
  pub ref_size : ℕ

pub data Warning : Type 0 where
  missing_brackets : Warning
  buffer_too_small : Warning
  invalid_dimension : Warning
  missing_value : Warning
  too_many_elements : Warning
  parse_error : Warning
  expected_comma : Warning
  dimension_mismatch : Warning

-- The bytes that are written and the dimension that is set or known.
pub data Parsed (A : Type 0) : Type 0 where
  parsed : A → Parsed A
  warning : Warning → Parsed A
  out_of_fuel : Parsed A

unfoldable pub zeros : ℕ → List ℕ
zeros zero = []
zeros (suc n) = 0 ∷ zeros n

-- The last element of a list, and those before it.
unfoldable pub split_last : List ℕ → Option (List ℕ × ℕ)
split_last [] = none
split_last (c ∷ cs) = elim (split_last cs) [
  | none ↦ some ([], c)
  | some (front, last) ↦ some (c ∷ front, last)
]

module _ (t : TextApi) where
  unfoldable pub skip_ws : List ℕ → List ℕ
  skip_ws [] = []
  skip_ws (c ∷ s) = let rest = skip_ws s in if t.is_space c then rest else c ∷ s

  -- The second loop of `trim`.
  unfoldable pub trim_back : List ℕ → List ℕ
  trim_back [] = []
  trim_back (c ∷ s) = elim (trim_back s) [
    | [] ↦ if t.is_space c then [] else c ∷ []
    | d ∷ r ↦ c ∷ d ∷ r
  ]

  -- The loop over the elements, whose bytes come behind those that are `written`. `after` is what
  -- follows the closing bracket in memory; each round takes a character at least.
  unfoldable pub parse_values :
      (is_known : Bool)
      → (expected : ℕ) → (after : List ℕ) → (fuel : ℕ) → (parse : List ℕ) → (count : ℕ)
      → (values : List ℕ) → Parsed (List ℕ)
  parse_values is_known expected after zero parse count values = out_of_fuel
  parse_values is_known expected after (suc fuel) parse count values = elim (skip_ws parse) [
    | [] ↦ warning missing_value
    | c ∷ s ↦
        if leb expected count
        then (if is_known then warning too_many_elements else warning buffer_too_small)
        else (elim (t.strtof (c ∷ s ++ (b']' ∷ after))) [
          | none ↦ warning parse_error
          | some (value, taken) ↦ elim (skip_ws (drop taken (c ∷ s))) [
            | [] ↦ parsed (values ++ value ∷ [])
            | d ∷ rest ↦
                let next =
                  parse_values is_known expected after fuel rest (count + 1)
                    (values ++ value ∷ []) in
                if d == b',' then next else warning expected_comma
          ]
        ])
  ]

  -- The bytes of the floats.
  unfoldable pub store_values : List ℕ → List ℕ
  store_values [] = []
  store_values (value ∷ values) = float4store value (store_values values)

  -- The tests after the loop.
  unfoldable pub check_count : (dimension : Option ℕ) → Parsed (List ℕ) → Parsed (List ℕ × ℕ)
  check_count dimension out_of_fuel = out_of_fuel
  check_count dimension (warning w) = warning w
  check_count (some d) (parsed values) =
      if length values == d
      then parsed (zeros t.ref_size ++ store_values values, d)
      else warning dimension_mismatch
  check_count none (parsed values) =
      if (length values == 0) || ltb max_vector_dimension (length values)
      then warning invalid_dimension
      else parsed (zeros t.ref_size ++ store_values values, length values)

  unfoldable pub svector_from_string :
      (dimension : Option ℕ)
      → (from : List ℕ) → (after : List ℕ) → (buf_size : ℕ) → Parsed (List ℕ × ℕ)
  svector_from_string dimension from after buf_size =
      let max_supportable = min ((buf_size - t.ref_size) / 4) max_vector_dimension in
      let parse = λ (is_known : Bool) (expected : ℕ) (inner : List ℕ).
        check_count dimension
          (parse_values is_known expected after (length inner + 1) inner 0 []) in
      let inside = λ (inner : List ℕ).
        if ltb buf_size t.ref_size then warning buffer_too_small else (elim dimension [
          | some d ↦
              if (d == 0) || ltb max_vector_dimension d
              then warning invalid_dimension
              else (if ltb max_supportable d then warning buffer_too_small else parse true d inner)
          | none ↦ parse false max_supportable inner
        ]) in
      elim (trim_back (skip_ws from)) [
        | [] ↦ warning missing_brackets
        | c ∷ s ↦ elim (split_last s) [
          | none ↦ warning missing_brackets
          | some (inner, d) ↦
              if (c == b'[') && (d == b']') then inside inner else warning missing_brackets
        ]
      ]

  unfoldable pub emit_str : (out_size : ℕ) → (out s : List ℕ) → Option (List ℕ)
  emit_str out_size out s = if ltb out_size (length out + length s) then none else some (out ++ s)

  -- The loop of `svector_format_impl`.
  unfoldable pub format_values :
      (out_size : ℕ) → (is_first : Bool) → (floats : List ℕ) → (out : List ℕ) → Option (List ℕ)
  format_values out_size is_first [] out = some out
  format_values out_size is_first (f ∷ floats) out =
      (if is_first then some out else emit_str out_size out (b',' ∷ [])) >>= λ out1.
      t.to_chars f >>= λ s.
      emit_str out_size out1 s >>= λ out2. format_values out_size false floats out2

  unfoldable pub svector_format_impl :
      (dimension : ℕ) → (bytes : List ℕ) → (out_size : ℕ) → Option (List ℕ)
  svector_format_impl dimension bytes out_size =
      if (dimension == 0) || ltb max_vector_dimension dimension
      then none
      else (if ltb (length bytes) (t.ref_size + dimension * 4)
          then none
          else (emit_str out_size [] (b'[' ∷ []) >>= λ out1.
              format_values out_size true (get_floats dimension (drop t.ref_size bytes)) out1
              >>= λ out2. emit_str out_size out2 (b']' ∷ [])))
