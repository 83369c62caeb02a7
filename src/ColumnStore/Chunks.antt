-- ===== src/ColumnStore/Chunks.antt =====
-- What `ColumnStore::update` writes: `src/storage/storage.cc`.
use mathlib.Core.Path.{subst}
use vsql_vector.Base.{
  ℕ, ◌+◌, ◌-◌, ◌*◌, ◌/◌, ◌≤◌, ◌<◌, ◌≡◌, refl, ap, ◌∙◌, Bool, true, false, ◌&&◌, ◌||◌, Option, none,
  some, List, [], ◌∷◌, inl, inr, arith, ltb, leb, ◌==◌, ==_iff, if◌then◌else◌, Bool-cases, length,
  get_or, take, drop, length-take-drop, get_or-take-drop,
}
use vsql_vector.Page.Api.{PageApi, Apart}
use vsql_vector.Page.Links.{contains}
use vsql_vector.ColumnStore.{write_runs, write_chunks}

-- The chunks lie within column data of that length.
abbrev pub Within : (chunk_size length : ℕ) → List ℕ → Type 0
Within chunk_size length [] = Unit
Within chunk_size length (chunk ∷ chunk_ids) =
    (chunk * chunk_size + chunk_size ≤ length) × Within chunk_size length chunk_ids

-- The indexes increase, from above `prev` on if there is one.
abbrev pub Increasing : Option ℕ → List ℕ → Type 0
Increasing prev [] = Unit
Increasing none (chunk ∷ chunk_ids) = Increasing (some chunk) chunk_ids
Increasing (some prev) (chunk ∷ chunk_ids) = (prev < chunk) × Increasing (some chunk) chunk_ids

-- Whether a chunk is one of `count` chunks from `first` on.
abbrev in_run : (first count chunk : ℕ) → Bool
in_run first count chunk = leb first chunk && ltb chunk (first + count)

start-le : (first i size : ℕ) → 0 < size → first ≤ i / size → first * size ≤ i
start-le first i size pos h = grind arith

end-lt : (last i size : ℕ) → 0 < size → i / size < last → i < last * size
end-lt last i size pos h = grind arith

start-gt : (first i size : ℕ) → 0 < size → i / size < first → i + 1 ≤ first * size
start-gt first i size pos h = grind arith

end-ge : (last i size : ℕ) → 0 < size → last ≤ i / size → last * size ≤ i
end-ge last i size pos h = grind arith

mul-add : (first count size : ℕ) → (first + count) * size ≡ first * size + count * size
mul-add first count size = grind arith

one_chunk : (chunk size length : ℕ) → chunk * size + size ≤ length → (chunk + 1) * size ≤ length
one_chunk chunk size length h = omega (arith, mul-add chunk 1 size)

extended :
    (size length first count chunk : ℕ)
    → (chunk == first + count) ≡ true
    → chunk * size + size ≤ length
    → (first + (count + 1)) * size ≤ length
extended size length first count chunk follows h =
    subst (λ n. n * size ≤ length) (omega (arith, (==_iff chunk (first + count)).0 follows))
      (one_chunk chunk size length h)

module _ ⦃api : PageApi⦄ (off : ℕ) (col_data : List ℕ) (size : ℕ) (pos : 0 < size) where
  open api use {Page, get_data, write_string, get_data-write_string, get_data-write_string_self}
  open api use {read_integer, read-write_string}

  abbrev written : Page → (first count : ℕ) → Page
  written p first count =
      write_string p (off + first * size) (take (count * size) (drop (first * size) col_data))

  get_data-written :
      (p : Page) (first count i : ℕ)
      → (first + count) * size ≤ length col_data
      → get_data (written p first count) (off + i)
        ≡ (if in_run first count (i / size) then get_or col_data i 0 else get_data p (off + i))
  get_data-written p first count i fits = elim (Bool-cases (leb first (i / size))) [
    | inr before ↦ rw before (
        get_data-write_string p _ _ _
          (inr (omega (arith, start-gt first i size pos (ground arith)))))
    | inl from ↦ rw from (elim (Bool-cases (ltb (i / size) (first + count))) [
      | inl inside ↦ rw inside (
          inner (start-le first i size pos (ground arith))
            (end-lt (first + count) i size pos (ground arith)))
      | inr behind ↦ rw behind (
          get_data-write_string p _ _ _ (
            inl (
              omega (
                arith,
                piece,
                end-ge (first + count) i size pos (ground arith),
                mul-add first count size,
              ))))
    ])
  ]
    where
      piece : length (take (count * size) (drop (first * size) col_data)) ≡ count * size
      piece =
          length-take-drop (count * size) (first * size) col_data
            (omega (arith, fits, mul-add first count size))

      inner :
          first * size ≤ i
          → i < (first + count) * size
          → get_data (written p first count) (off + i) ≡ get_or col_data i 0
      inner lo hi =
          let j = i - first * size in
          let small : j < count * size = omega (arith, mul-add first count size) in
          ap (get_data (written p first count)) {y = off + first * size + j} (omega arith)
          ∙ get_data-write_string_self p (off + first * size) j _ (omega (arith, piece, small))
          ∙ get_or-take-drop (count * size) (first * size) j col_data 0 small
          ∙ ap (λ m. get_or col_data m 0) (omega arith)

  no_more :
      (first count q x y : ℕ)
      → (if in_run first count q then x else y) ≡ (if in_run first count q || false then x else y)
  no_more first count q x y = ground arith

  longer_run :
      (first count chunk q x y : ℕ) (chunk_ids : List ℕ)
      → (chunk == first + count) ≡ true
      → (if in_run first (count + 1) q || contains q chunk_ids then x else y)
        ≡ (if in_run first count q || contains q (chunk ∷ chunk_ids) then x else y)
  longer_run first count chunk q x y chunk_ids follows = ground arith

  next_run :
      (first count chunk q x y : ℕ) (chunk_ids : List ℕ)
      → (if in_run chunk 1 q || contains q chunk_ids
          then x
          else (if in_run first count q then x else y))
        ≡ (if in_run first count q || contains q (chunk ∷ chunk_ids) then x else y)
  next_run first count chunk q x y chunk_ids = ground arith

  first_run :
      (chunk q x y : ℕ) (chunk_ids : List ℕ)
      → (if in_run chunk 1 q || contains q chunk_ids then x else y)
        ≡ (if contains q (chunk ∷ chunk_ids) then x else y)
  first_run chunk q x y chunk_ids = ground arith

  -- The run that has been found so far, and then the chunks to come.
  get_data-write_runs :
      (p : Page) (first count i : ℕ) (chunk_ids : List ℕ)
      → (first + count) * size ≤ length col_data
      → Within size (length col_data) chunk_ids
      → get_data (write_runs p off col_data size first count chunk_ids) (off + i) ≡ (
          if in_run first count (i / size) || contains (i / size) chunk_ids
          then get_or col_data i 0
          else get_data p (off + i))
  unfolding write_runs
  get_data-write_runs p first count i [] fits within =
      get_data-written p first count i fits ∙ no_more first count (i / size) _ _
  get_data-write_runs p first count i (chunk ∷ chunk_ids) fits within =
      let q = i / size in
      let x = get_or col_data i 0 in
      let y = get_data p (off + i) in
      elim (Bool-cases (chunk == first + count)) [
        | inl follows ↦ rw follows (
            get_data-write_runs p first (count + 1) i chunk_ids
              (extended size (length col_data) first count chunk follows within.0) within.1
            ∙ longer_run first count chunk q x y chunk_ids follows)
        | inr apart ↦ rw apart (
            get_data-write_runs (written p first count) chunk 1 i chunk_ids
              (one_chunk chunk size (length col_data) within.0) within.1
            ∙ ap (λ z. if in_run chunk 1 q || contains q chunk_ids then x else z)
                (get_data-written p first count i fits)
            ∙ next_run first count chunk q x y chunk_ids)
      ]

  -- What a write of a part of the column data keeps, the whole loop keeps.
  write_runs-keep {ℓ} :
      {A : Type ℓ} (g : Page → A) (p : Page) (first count : ℕ) (chunk_ids : List ℕ)
      → ((q : Page) (f n : ℕ) → (f + n) * size ≤ length col_data → g (written q f n) ≡ g q)
      → (first + count) * size ≤ length col_data
      → Within size (length col_data) chunk_ids
      → g (write_runs p off col_data size first count chunk_ids) ≡ g p
  unfolding write_runs
  write_runs-keep g p first count [] keep fits within = keep p first count fits
  write_runs-keep g p first count (chunk ∷ chunk_ids) keep fits within =
      elim (Bool-cases (chunk == first + count)) [
        | inl follows ↦ rw follows (
            write_runs-keep g p first (count + 1) chunk_ids keep
              (extended size (length col_data) first count chunk follows within.0) within.1)
        | inr apart ↦ rw apart (
            write_runs-keep g (written p first count) chunk 1 chunk_ids keep
              (one_chunk chunk size (length col_data) within.0) within.1
            ∙ keep p first count fits)
      ]

  write_chunks-keep {ℓ} :
      {A : Type ℓ} (g : Page → A) (p : Page) (chunk_ids : List ℕ)
      → ((q : Page) (f n : ℕ) → (f + n) * size ≤ length col_data → g (written q f n) ≡ g q)
      → Within size (length col_data) chunk_ids
      → g (write_chunks p off col_data size chunk_ids) ≡ g p
  unfolding write_chunks
  write_chunks-keep g p [] keep within = refl
  write_chunks-keep g p (chunk ∷ chunk_ids) keep within =
      write_runs-keep g p chunk 1 chunk_ids keep (one_chunk chunk size (length col_data) within.0)
        within.1

  length-piece :
      (f n : ℕ)
      → (f + n) * size ≤ length col_data
      → length (take (n * size) (drop (f * size) col_data)) ≡ n * size
  length-piece f n fits =
      length-take-drop (n * size) (f * size) col_data (omega (arith, fits, mul-add f n size))

  -- A chunk that is given is written with the new data, and a byte of any other chunk stays.
  pub get_data-write_chunks :
      (p : Page) (i : ℕ) (chunk_ids : List ℕ)
      → Within size (length col_data) chunk_ids
      → get_data (write_chunks p off col_data size chunk_ids) (off + i)
        ≡ (if contains (i / size) chunk_ids then get_or col_data i 0 else get_data p (off + i))
  unfolding write_chunks
  get_data-write_chunks p i [] within = refl
  get_data-write_chunks p i (chunk ∷ chunk_ids) within =
      get_data-write_runs p chunk 1 i chunk_ids (one_chunk chunk size (length col_data) within.0)
        within.1
      ∙ first_run chunk (i / size) _ _ chunk_ids

  -- Bytes and integers that are apart from the column data stay.
  pub get_data-write_chunks_keep :
      (p : Page) (b : ℕ) (chunk_ids : List ℕ)
      → Apart off (length col_data) b 1
      → Within size (length col_data) chunk_ids
      → get_data (write_chunks p off col_data size chunk_ids) b ≡ get_data p b
  get_data-write_chunks_keep p b chunk_ids apart within =
      write_chunks-keep (λ q. get_data q b) p chunk_ids
        (λ q f n fits.
          get_data-write_string q _ b _
            (omega (arith, apart, fits, length-piece f n fits, mul-add f n size)))
        within

  pub read-write_chunks :
      (u : ℕ) (p : Page) (b : ℕ) (chunk_ids : List ℕ)
      → Apart off (length col_data) b u
      → Within size (length col_data) chunk_ids
      → read_integer u (write_chunks p off col_data size chunk_ids) b ≡ read_integer u p b
  read-write_chunks u p b chunk_ids apart within =
      write_chunks-keep (λ q. read_integer u q b) p chunk_ids
        (λ q f n fits.
          read-write_string u q _ b _
            (omega (arith, apart, fits, length-piece f n fits, mul-add f n size)))
        within
