-- ===== src/DataPage/ColumnRef.antt =====
-- `Column::Ref`: `DataPage::encode_column_ref` and `decode_column_ref`.
use mathlib.Core.Path.{ap₂}
use vsql_vector.Base.{
  ℕ, ◌+◌, ◌*◌, ◌/◌, ◌%◌, ◌^◌, ◌≤◌, ◌<◌, ◌≡◌, ap, ◌∙◌, arith, bit_or, bit_or-field, bit_and-mask,
}
use vsql_vector.DataPage.{encode_column_ref, decode_column_ref, max_slot_index}

encode-sum :
    (page_ref slot_index : ℕ)
    → page_ref < 2 ^ 32
    → slot_index ≤ max_slot_index
    → encode_column_ref page_ref slot_index ≡ page_ref + slot_index * 2 ^ 32
unfolding encode_column_ref
encode-sum page_ref slot_index hp hs =
    ap (bit_or page_ref) (omega arith) ∙ bit_or-field 32 page_ref slot_index hp

decode-parts :
    (col_ref : ℕ) → decode_column_ref col_ref ≡ (col_ref % 2 ^ 32, col_ref / 2 ^ 32 % 2 ^ 14)
unfolding decode_column_ref
decode-parts col_ref =
    ap₂ (λ a b. (a, b)) (bit_and-mask 32 col_ref) (bit_and-mask 14 (col_ref / 2 ^ 32))

-- A column reference gives back the page and the slot that it was made of, and what a caller keeps
-- in the bits above the lowest 46 does not disturb that.
pub decode-encode :
    (page_ref slot_index tag : ℕ)
    → page_ref < 2 ^ 32
    → slot_index ≤ max_slot_index
    → decode_column_ref (encode_column_ref page_ref slot_index + tag * 2 ^ 46)
      ≡ (page_ref, slot_index)
decode-encode page_ref slot_index tag hp hs =
    decode-parts _
    ∙ rw (encode-sum page_ref slot_index hp hs) (ap₂ (λ a b. (a, b)) (omega arith) (omega arith))

-- A column reference takes up the lowest 46 bits only.
pub encode_column_ref-lt :
    (page_ref slot_index : ℕ)
    → page_ref < 2 ^ 32
    → slot_index ≤ max_slot_index
    → encode_column_ref page_ref slot_index < 2 ^ 46
encode_column_ref-lt page_ref slot_index hp hs = omega (arith, encode-sum page_ref slot_index hp hs)

pub decode-encode_untagged :
    (page_ref slot_index : ℕ)
    → page_ref < 2 ^ 32
    → slot_index ≤ max_slot_index
    → decode_column_ref (encode_column_ref page_ref slot_index) ≡ (page_ref, slot_index)
decode-encode_untagged page_ref slot_index hp hs =
    ap decode_column_ref (omega arith) ∙ decode-encode page_ref slot_index 0 hp hs
