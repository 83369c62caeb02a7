-- ===== src/VectorText/Ends.antt =====
-- The loop over the elements of a text ends (`src/vector.cc`, `svector_from_string`).
use vsql_vector.Base.{
  ℕ, zero, suc, ◌+◌, ◌-◌, ◌≤◌, ◌<◌, ◌≡◌, ◌≢◌, inl, inr, Bool, some, List, [], ◌∷◌, ◌++◌, leb, ◌==◌,
  length, drop, arith, Bool-cases, Option-cases, List-cases, ap,
}
use vsql_vector.VectorText.{TextApi, out_of_fuel, skip_ws, parse_values}

length-drop : (n : ℕ) (s : List ℕ) → length (drop n s) ≡ length s - n
length-drop zero s = omega arith
length-drop (suc n) [] = omega arith
length-drop (suc n) (c ∷ s) = omega (arith, length-drop n s)

module _ (t : TextApi)
    (takes : (s : List ℕ) (value taken : ℕ) → t.strtof s ≡ some (value, taken) → 0 < taken) where
  length-skip_ws : (s : List ℕ) → length (skip_ws t s) ≤ length s
  unfolding skip_ws
  length-skip_ws [] = omega arith
  length-skip_ws (c ∷ s) = elim (Bool-cases (t.is_space c)) [
    | inl space ↦ rw space (omega (arith, length-skip_ws s))
    | inr other ↦ rw other (omega arith)
  ]

  -- A round for each character, and one more, are enough.
  parse_values_ends :
      (known : Bool) (expected : ℕ) (after : List ℕ) (fuel : ℕ) (parse : List ℕ) (count : ℕ)
      (values : List ℕ)
      → length parse < fuel
      → parse_values t known expected after fuel parse count values ≢ out_of_fuel
  unfolding parse_values
  parse_values_ends known expected after zero parse count values enough = absurd (omega arith)
  parse_values_ends known expected after (suc fuel) parse count values enough =
      elim (List-cases (skip_ws t parse)) [
        | inl empty ↦ rw (empty, parse_values) (λ h. cc)
        | inr (c, s, e) ↦ elim (Bool-cases (leb expected count)) [
          | inl full ↦ elim (Bool-cases known) [
            | inl k ↦ rw (e, parse_values, full, k) (λ h. cc)
            | inr k ↦ rw (e, parse_values, full, k) (λ h. cc)
          ]
          | inr room ↦ elim (Option-cases (t.strtof (c ∷ s ++ (b']' ∷ after)))) [
            | inl bad ↦ rw (e, parse_values, room, bad) (λ h. cc)
            | inr (v, q) ↦ elim (List-cases (skip_ws t (drop v.1 (c ∷ s)))) [
              | inl empty ↦ rw (e, parse_values, room, q, empty) (λ h. cc)
              | inr (d, rest, e') ↦
                  let shorter : length rest < length parse = omega (
                    arith,
                    ap length e,
                    ap length e',
                    length-skip_ws parse,
                    length-skip_ws (drop v.1 (c ∷ s)),
                    length-drop v.1 (c ∷ s),
                    takes (c ∷ s ++ (b']' ∷ after)) v.0 v.1 q,
                  ) in
                  elim (Bool-cases (d == b',')) [
                    | inl comma ↦
                        rw (e, parse_values, room, q, e', comma)
                          (parse_values_ends known expected after fuel rest (count + 1)
                            (values ++ v.0 ∷ []) (omega arith))
                    | inr other ↦ rw (e, parse_values, room, q, e', other) (λ h. cc)
                  ]
            ]
          ]
        ]
      ]
