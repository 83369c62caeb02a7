-- ===== src/VectorText/Reading.antt =====
-- How the text of a vector is read: `svector_from_string` (`src/vector.cc`), between the brackets and
-- for one number.
use vsql_vector.Base.{
  ℕ, suc, ◌+◌, ◌-◌, ◌*◌, ◌/◌, ◌≤◌, ◌<◌, ◌≡◌, refl, inl, inr, ◌⊎◌, Bool, true, false, ◌||◌, some,
  List, [], ◌∷◌, ◌++◌, ltb, leb, ◌==◌, length, drop, min, arith,
}
use mathlib.Core.Path.{subst}
use mathlib.Core.List.{append_assoc, append-nil}
use vsql_vector.Native.{max_vector_dimension}
use vsql_vector.VectorText.{
  TextApi, parsed, split_last, skip_ws, trim_back, parse_values, check_count, max_float_str_length,
  svector_from_string,
}

pub split_last-append : (xs : List ℕ) (c : ℕ) → split_last (xs ++ c ∷ []) ≡ some (xs, c)
unfolding split_last
split_last-append [] c = refl
split_last-append (x ∷ xs) c = rw (split_last-append xs c) refl

pub drop-append : (xs ys : List ℕ) → drop (length xs) (xs ++ ys) ≡ ys
drop-append [] ys = refl
drop-append (x ∷ xs) ys = drop-append xs ys

module _ (t : TextApi) where
  -- The text of a float fits in its buffer, begins with no space, and is read as that float in front of a comma or a bracket.
  pub record ReadsBack (f : ℕ) : Type 0 where
    pub first : ℕ
    pub others : List ℕ
    pub shown : t.to_chars f ≡ some (first ∷ others)
    pub short : length others < max_float_str_length
    pub not_space : t.is_space first ≡ false
    pub read :
        (d : ℕ) (rest : List ℕ)
        → (d ≡ b',') ⊎ (d ≡ b']')
        → t.strtof ((first ∷ others) ++ (d ∷ rest)) ≡ some (f, length (first ∷ others))

  pub record NoSpaces : Type 0 where
    pub comma : t.is_space b',' ≡ false
    pub opening : t.is_space b'[' ≡ false
    pub closing : t.is_space b']' ≡ false

  skip_ws-cons : (c : ℕ) (s : List ℕ) → t.is_space c ≡ false → skip_ws t (c ∷ s) ≡ c ∷ s
  unfolding skip_ws
  skip_ws-cons c s e = rw e refl

  -- One number, at the end of the text or in front of a comma.
  module _ (known : Bool) (expected : ℕ) (after : List ℕ) (f : ℕ) (r : ReadsBack f)
      (spaces : NoSpaces) where
    abbrev pub shown_text : List ℕ
    shown_text = r.first ∷ r.others

    pub parse_values-last :
        (fuel count : ℕ) (values : List ℕ)
        → count < expected
        → parse_values t known expected after (suc fuel) shown_text count values
          ≡ parsed (values ++ f ∷ [])
    unfolding parse_values skip_ws
    parse_values-last fuel count values room =
        let start = skip_ws-cons r.first r.others r.not_space in
        let value = r.read b']' after (inr refl) in
        let left : leb expected count ≡ false = ground arith in
        let rest : drop (length shown_text) shown_text ≡ [] =
          subst (λ x. drop (length shown_text) x ≡ []) (append-nil shown_text)
            (drop-append shown_text []) in
        rw (start, parse_values, left, value, rest) refl

    pub parse_values-next :
        (fuel count : ℕ) (values x : List ℕ)
        → count < expected
        → parse_values t known expected after (suc fuel) (shown_text ++ (b',' ∷ x)) count values
          ≡ parse_values t known expected after fuel x (count + 1) (values ++ f ∷ [])
    unfolding parse_values
    parse_values-next fuel count values x room =
        let start = skip_ws-cons r.first (r.others ++ (b',' ∷ x)) r.not_space in
        let value : t.strtof ((shown_text ++ (b',' ∷ x)) ++ (b']' ∷ after))
            ≡ some (f, length shown_text) =
          rw (append_assoc shown_text (b',' ∷ x) (b']' ∷ after))
            (r.read b',' (x ++ (b']' ∷ after)) (inl refl)) in
        let left : leb expected count ≡ false = ground arith in
        let rest : drop (length shown_text) (shown_text ++ (b',' ∷ x)) ≡ b',' ∷ x =
          drop-append shown_text (b',' ∷ x) in
        let comma = skip_ws-cons b',' x spaces.comma in
        rw (start, parse_values, left, value, rest, comma) refl

  trim_back-closed :
      (xs : List ℕ) (c : ℕ) → t.is_space c ≡ false → trim_back t (xs ++ c ∷ []) ≡ xs ++ c ∷ []
  unfolding trim_back
  trim_back-closed [] c e = rw e refl
  trim_back-closed (x ∷ []) c e = rw (trim_back-closed [] c e, trim_back) refl
  trim_back-closed (x ∷ y ∷ ys) c e = rw (trim_back-closed (y ∷ ys) c e, trim_back) refl

  -- The text between the brackets is parsed.
  pub enclosed :
      (dimension buf_size : ℕ) (inner after : List ℕ)
      → NoSpaces
      → 0 < dimension
      → dimension ≤ max_vector_dimension
      → t.ref_size + dimension * 4 ≤ buf_size
      → svector_from_string t (some dimension) (b'[' ∷ (inner ++ b']' ∷ [])) after buf_size
        ≡ check_count t
            (some dimension)
            (parse_values t true dimension after (length inner + 1) inner 0 [])
  unfolding svector_from_string
  enclosed dimension buf_size inner after spaces pos small room =
      let start = skip_ws-cons b'[' (inner ++ b']' ∷ []) spaces.opening in
      let trimmed : trim_back t (b'[' ∷ (inner ++ b']' ∷ [])) ≡ b'[' ∷ (inner ++ b']' ∷ []) =
        trim_back-closed (b'[' ∷ inner) b']' spaces.closing in
      let last = split_last-append inner b']' in
      let a : ltb buf_size t.ref_size ≡ false = ground arith in
      let b : ((dimension == 0) || ltb max_vector_dimension dimension) ≡ false = ground arith in
      let c : ltb (min ((buf_size - t.ref_size) / 4) max_vector_dimension) dimension ≡ false =
        ground arith in
      rw (start, trimmed, svector_from_string, last, a, b, c) refl
