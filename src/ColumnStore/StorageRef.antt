-- ===== src/ColumnStore/StorageRef.antt =====
-- The reference of a column's storage: `MultiColumnStore::encode_ref` and `decode_ref` of
-- `src/storage/storage.h`.
use mathlib.Core.Path.{ap₂}
use vsql_vector.Base.{
  ℕ, ◌+◌, ◌*◌, ◌^◌, ◌<◌, ◌≡◌, ap, ◌∙◌, arith, bit_or, bit_or-field, bit_and-mask,
}
use vsql_vector.ColumnStore.{encode_ref, decode_ref}

-- A storage reference gives back the space and the root page that it was made of.
pub decode_ref-encode_ref :
    (space_ref page_ref : ℕ)
    → space_ref < 2 ^ 32
    → page_ref < 2 ^ 32
    → decode_ref (encode_ref space_ref page_ref) ≡ (space_ref, page_ref)
unfolding encode_ref decode_ref
decode_ref-encode_ref space_ref page_ref hs hp =
    ap decode_ref sum ∙ ap₂ (λ a b. (a, b)) (bit_and-mask 32 _ ∙ omega arith) (omega arith)
  where
    sum : encode_ref space_ref page_ref ≡ space_ref + page_ref * 2 ^ 32
    sum = ap (bit_or space_ref) (omega arith) ∙ bit_or-field 32 space_ref page_ref hs
