-- ===== src/VectorText/RoundTrip.antt =====
-- A vector that is printed is parsed as the same vector (`src/vector.cc`).
use vsql_vector.Base.{
  ℕ, zero, suc, ◌+◌, ◌*◌, ◌≤◌, ◌<◌, ◌^◌, ◌≡◌, refl, inl, inr, Bool, true, false, ◌||◌, none, some,
  List, [], ◌∷◌, ◌++◌, ltb, ◌==◌, length, drop, >>=-eq-some, arith, Has, Bool-cases, ap, sym, ◌∙◌,
  length-append,
}
use mathlib.Core.Path.{subst}
use mathlib.Core.List.{append_assoc, append-nil}
use vsql_vector.Native.{max_vector_dimension, get_floats, store_floats, float4store}
use vsql_vector.Native.Codec.{get-store, length-store_floats}
use vsql_vector.VectorText.{
  TextApi, parsed, zeros, parse_values, store_values, check_count, max_float_str_length,
  svector_from_string, emit_str, format_values, svector_format_impl,
}
use vsql_vector.VectorText.Reading.{
  ReadsBack, NoSpaces, drop-append, parse_values-last, parse_values-next, enclosed,
}

length-zeros : (n : ℕ) → length (zeros n) ≡ n
unfolding zeros
length-zeros zero = refl
length-zeros (suc n) = ap suc (length-zeros n)

module _ (t : TextApi) where
  text : ℕ → List ℕ
  text f = elim (t.to_chars f) [ none ↦ [] | some s ↦ s ]

  tail_text : List ℕ → List ℕ
  tail_text [] = []
  tail_text (f ∷ fs) = b',' ∷ text f ++ tail_text fs

  length-tail_text : (fs : List ℕ) → length fs ≤ length (tail_text fs)
  unfolding tail_text
  length-tail_text [] = omega arith
  length-tail_text (f ∷ fs) =
      omega (arith, length-append (text f) (tail_text fs), length-tail_text fs)

  store_values-eq : (fs : List ℕ) → store_values t fs ≡ store_floats (length fs) fs
  unfolding store_values store_floats float4store
  store_values-eq [] = refl
  store_values-eq (f ∷ fs) = rw (store_values-eq fs) refl

  emit_str-eq : (size : ℕ) (out s o : List ℕ) → emit_str t size out s ≡ some o → o ≡ out ++ s
  unfolding emit_str
  emit_str-eq size out s o h = ground arith

  text-eq : (f : ℕ) (s : List ℕ) → t.to_chars f ≡ some s → text f ≡ s
  unfolding text
  text-eq f s e = rw (e, text) refl

  format_values-tail :
      (size : ℕ) (fs out o : List ℕ)
      → format_values t size false fs out ≡ some o
      → o ≡ out ++ tail_text fs
  unfolding format_values tail_text
  format_values-tail size [] out o h = let e : out ≡ o = cc in sym e ∙ sym (append-nil out)
  format_values-tail size (f ∷ fs) out o h =
      let (o1, e1, h1) = >>=-eq-some (emit_str t size out (b',' ∷ [])) _ h in
      let (s, e2, h2) = >>=-eq-some (t.to_chars f) _ h1 in
      let (o2, e3, h3) = >>=-eq-some (emit_str t size o1 s) _ h2 in
      let k1 = emit_str-eq size out (b',' ∷ []) o1 e1 in
      let k2 = emit_str-eq size o1 s o2 e3 in
      let k3 = format_values-tail size fs o2 o h3 in
      let k4 = text-eq f s e2 in
      k3 ∙ ap (λ x. x ++ tail_text fs) (k2 ∙ ap (λ x. x ++ s) k1) ∙ rw k4 (simp append_assoc)

  format_values-first :
      (size : ℕ) (f : ℕ) (fs out o : List ℕ)
      → format_values t size true (f ∷ fs) out ≡ some o
      → o ≡ out ++ (text f ++ tail_text fs)
  unfolding format_values
  format_values-first size f fs out o h =
      let (s, e2, h2) = >>=-eq-some (t.to_chars f) _ h in
      let (o2, e3, h3) = >>=-eq-some (emit_str t size out s) _ h2 in
      let k2 = emit_str-eq size out s o2 e3 in
      let k3 = format_values-tail size fs o2 o h3 in
      let k4 = text-eq f s e2 in k3 ∙ ap (λ x. x ++ tail_text fs) k2 ∙ rw k4 (simp append_assoc)

  parse_values-all :
      (known : Bool) (expected : ℕ) (after : List ℕ)
      → NoSpaces t
      → (fuel f : ℕ) (fs : List ℕ) → ((x : ℕ) → Has x (f ∷ fs) → ReadsBack t x)
      → (count : ℕ) (values : List ℕ) → length fs < fuel
      → count + length fs < expected
      → parse_values t known expected after fuel (text f ++ tail_text fs) count values
        ≡ parsed (values ++ f ∷ fs)
  unfolding tail_text
  parse_values-all known expected after spaces zero f fs reads count values enough room =
      absurd (omega arith)
  parse_values-all known expected after spaces (suc fuel) f [] reads count values enough room =
      let r = reads f (inl refl) in
      let shape : text f ++ [] ≡ r.first ∷ r.others =
        append-nil (text f) ∙ text-eq f (r.first ∷ r.others) r.shown in
      rw shape (parse_values-last t known expected after f r spaces fuel count values (omega arith))
  parse_values-all known expected after spaces (suc fuel) f (g ∷ gs) reads count values enough
        room =
      let r = reads f (inl refl) in
      let rest = text g ++ tail_text gs in
      let shape : text f ++ (b',' ∷ rest) ≡ (r.first ∷ r.others) ++ (b',' ∷ rest) =
        ap (λ x. x ++ (b',' ∷ rest)) (text-eq f (r.first ∷ r.others) r.shown) in
      ap (λ x. parse_values t known expected after (suc fuel) x count values) shape
      ∙ parse_values-next t known expected after f r spaces fuel count values rest (omega arith)
      ∙ parse_values-all known expected after spaces fuel g gs (λ x m. reads x (inr m)) (count + 1)
          (values ++ f ∷ []) (omega arith) (omega arith)
      ∙ ap (λ x. parsed x) (append_assoc values (f ∷ []) (g ∷ gs))

  dropped :
      (fs : List ℕ)
      → drop t.ref_size (zeros t.ref_size ++ store_values t fs) ≡ store_floats (length fs) fs
  dropped fs =
      subst (λ n. drop n (zeros t.ref_size ++ store_values t fs) ≡ store_floats (length fs) fs)
        (length-zeros t.ref_size)
        (drop-append (zeros t.ref_size) (store_values t fs) ∙ store_values-eq fs)

  -- The stored form of a vector.
  abbrev pub stored : List ℕ → List ℕ
  stored floats = zeros t.ref_size ++ store_values t floats

  format-shape :
      (f : ℕ) (fs : List ℕ) (out_size : ℕ) (shown : List ℕ)
      → ((x : ℕ) → Has x (f ∷ fs) → x < 2 ^ 32)
      → svector_format_impl t (length (f ∷ fs)) (stored (f ∷ fs)) out_size ≡ some shown
      → (length (f ∷ fs) ≤ max_vector_dimension)
        × (shown ≡ b'[' ∷ ((text f ++ tail_text fs) ++ b']' ∷ []))
  unfolding svector_format_impl
  format-shape f fs out_size shown bounded h =
      elim (Bool-cases ((length (f ∷ fs) == 0) || ltb max_vector_dimension (length (f ∷ fs)))) [
        | inl bad ↦ absurd (cc (rw bad at h))
        | inr fine ↦
            let h1 = rw fine at h in
            elim (Bool-cases (ltb (length (stored (f ∷ fs))) (t.ref_size + length (f ∷ fs) * 4))) [
              | inl short ↦ absurd (cc (rw short at h1))
              | inr whole ↦
                  let h2 = rw whole at h1 in
                  let (o1, e1, h3) = >>=-eq-some (emit_str t out_size [] (b'[' ∷ [])) _ h2 in
                  let (o2, e2, h4) =
                    >>=-eq-some
                      (format_values t out_size true
                        (get_floats (length (f ∷ fs)) (drop t.ref_size (stored (f ∷ fs)))) o1)
                      _ h3 in
                  let k1 = emit_str-eq out_size [] (b'[' ∷ []) o1 e1 in
                  let floats_eq : get_floats (length (f ∷ fs)) (drop t.ref_size (stored (f ∷ fs)))
                      ≡ f ∷ fs =
                    ap (get_floats (length (f ∷ fs))) (dropped (f ∷ fs))
                    ∙ get-store (f ∷ fs) bounded in
                  let k2 =
                    format_values-first out_size f fs o1 o2
                      (subst (λ x. format_values t out_size true x o1 ≡ some o2) floats_eq e2) in
                  let k3 = emit_str-eq out_size o2 (b']' ∷ []) shown h4 in
                  (
                    ground arith,
                    k3 ∙ ap (λ x. x ++ b']' ∷ []) (k2 ∙ ap (λ x. x ++ (text f ++ tail_text fs)) k1),
                  )
            ]
      ]

  emit_str_fits :
      (size : ℕ) (out s : List ℕ)
      → length out + length s ≤ size
      → emit_str t size out s ≡ some (out ++ s)
  unfolding emit_str
  emit_str_fits size out s h = ground arith

  format_values_fits :
      (size : ℕ) (fs out : List ℕ)
      → ((x : ℕ) → Has x fs → ReadsBack t x)
      → length out + length fs * 17 ≤ size
      → (o : List ℕ) × (format_values t size false fs out ≡ some o)
        × (length o ≤ length out + length fs * 17)
  unfolding format_values
  format_values_fits size [] out reads room = (out, refl, omega arith)
  format_values_fits size (f ∷ fs) out reads room =
      let r = reads f (inl refl) in
      let s = r.first ∷ r.others in
      let out1 = out ++ b',' ∷ [] in
      let l1 = length-append out (b',' ∷ []) in
      let l2 = length-append out1 s in
      let few = r.short in
      let e1 = emit_str_fits size out (b',' ∷ []) (omega arith) in
      let e2 = emit_str_fits size out1 s (omega arith) in
      let (o, e3, l3) =
        format_values_fits size fs (out1 ++ s) (λ x m. reads x (inr m)) (omega arith) in
      (o, rw (e1, format_values, r.shown, e2) e3, omega arith)

  length-stored : (fs : List ℕ) → length (stored fs) ≡ t.ref_size + length fs * 4
  length-stored fs = omega (
    arith,
    length-append (zeros t.ref_size) (store_values t fs),
    length-zeros t.ref_size,
    ap length (store_values-eq fs),
    length-store_floats fs,
  )

  -- A buffer for the brackets, the commas and sixteen characters for each float is large enough.
  format_fits :
      (f : ℕ) (fs : List ℕ) (out_size : ℕ)
      → ((x : ℕ) → Has x (f ∷ fs) → x < 2 ^ 32)
      → ((x : ℕ) → Has x (f ∷ fs) → ReadsBack t x)
      → length (f ∷ fs) ≤ max_vector_dimension
      → 2 + length (f ∷ fs) * max_float_str_length + length fs ≤ out_size
      → (shown : List ℕ) × (svector_format_impl t (length (f ∷ fs)) (stored (f ∷ fs)) out_size
          ≡ some shown)
  unfolding svector_format_impl format_values
  format_fits f fs out_size bounded reads small room =
      let r = reads f (inl refl) in
      let s = r.first ∷ r.others in
      let few = r.short in
      let e1 = emit_str_fits out_size [] (b'[' ∷ []) (omega arith) in
      let e2 = emit_str_fits out_size (b'[' ∷ []) s (omega arith) in
      let (o, e3, l3) =
        format_values_fits out_size fs ((b'[' ∷ []) ++ s) (λ x m. reads x (inr m)) (omega arith) in
      let e4 = emit_str_fits out_size o (b']' ∷ []) (omega arith) in
      let values : format_values t out_size true (f ∷ fs) (b'[' ∷ []) ≡ some o =
        rw (format_values, r.shown, e2) e3 in
      let floats_eq : get_floats (length (f ∷ fs)) (drop t.ref_size (stored (f ∷ fs))) ≡ f ∷ fs =
        ap (get_floats (length (f ∷ fs))) (dropped (f ∷ fs)) ∙ get-store (f ∷ fs) bounded in
      let a : ((length (f ∷ fs) == 0) || ltb max_vector_dimension (length (f ∷ fs))) ≡ false =
        ground arith in
      let b : ltb (length (stored (f ∷ fs))) (t.ref_size + length (f ∷ fs) * 4) ≡ false =
        (let l = length-stored (f ∷ fs) in ground arith) in
      (o ++ b']' ∷ [], rw (a, svector_format_impl, b, e1, floats_eq, values) e4)

  from_shown :
      (f : ℕ) (fs : List ℕ) (out_size buf_size : ℕ) (shown after : List ℕ)
      → NoSpaces t
      → ((x : ℕ) → Has x (f ∷ fs) → x < 2 ^ 32)
      → ((x : ℕ) → Has x (f ∷ fs) → ReadsBack t x)
      → t.ref_size + length (f ∷ fs) * 4 ≤ buf_size
      → svector_format_impl t (length (f ∷ fs)) (stored (f ∷ fs)) out_size ≡ some shown
      → svector_from_string t (some (length (f ∷ fs))) shown after buf_size
        ≡ parsed (stored (f ∷ fs), length (f ∷ fs))
  unfolding check_count
  from_shown f fs out_size buf_size shown after spaces bounded reads room h =
      let (small, shape) = format-shape f fs out_size shown bounded h in
      let inner = text f ++ tail_text fs in
      let parse =
        parse_values-all true (length (f ∷ fs)) after spaces (length inner + 1) f fs reads 0 []
          (omega (arith, length-append (text f) (tail_text fs), length-tail_text fs))
          (omega arith) in
      let same : (length (f ∷ fs) == length (f ∷ fs)) ≡ true = ground arith in
      ap (λ x. svector_from_string t (some (length (f ∷ fs))) x after buf_size) shape
      ∙ enclosed t (length (f ∷ fs)) buf_size inner after spaces (omega arith) small room
      ∙ ap (check_count t (some (length (f ∷ fs)))) parse
      ∙ rw (same, check_count) refl

  -- Take a vector of at most 3072 floats whose printed forms have at most 16 characters, begin
  -- with no space, and are read back as the floats in front of a comma or a closing bracket; let
  -- commas and brackets be no spaces. Then svector_format_impl prints the vector in a buffer with
  -- room for the brackets, the commas and 16 characters for each float, and svector_from_string
  -- parses the text, for a column of the same dimension and with a buffer that has room, as the
  -- same stored form.
  pub from_string-format :
      (f : ℕ) (fs : List ℕ) (out_size buf_size : ℕ) (after : List ℕ)
      → NoSpaces t
      → ((x : ℕ) → Has x (f ∷ fs) → x < 2 ^ 32)
      → ((x : ℕ) → Has x (f ∷ fs) → ReadsBack t x)
      → length (f ∷ fs) ≤ max_vector_dimension
      → 2 + length (f ∷ fs) * max_float_str_length + length fs ≤ out_size
      → t.ref_size + length (f ∷ fs) * 4 ≤ buf_size
      → (shown : List ℕ) × (svector_format_impl t (length (f ∷ fs)) (stored (f ∷ fs)) out_size
          ≡ some shown)
        × (svector_from_string t (some (length (f ∷ fs))) shown after buf_size
            ≡ parsed (stored (f ∷ fs), length (f ∷ fs)))
  from_string-format f fs out_size buf_size after spaces bounded reads small wide room =
      let (shown, e) = format_fits f fs out_size bounded reads small wide in
      (shown, e, from_shown f fs out_size buf_size shown after spaces bounded reads room e)
