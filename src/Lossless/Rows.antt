-- ===== src/Lossless/Rows.antt =====
-- The predicting coder of a stripe.
use ntr_hr.Base.{ℕ, ◌+◌, ◌-◌, ◌*◌, Option, none, some, ltb, ◌==◌, if◌then◌else◌, get_or}
use ntr_hr.Base.Memory.{Memory}
use ntr_hr.Lossless.Format.{LosslessInfo, for_range, get_color_bias_from_format}
use ntr_hr.Lossless.Planes.{
  width_of, block_width, block_height, positions, row_at, above, max_components,
}
use ntr_hr.Lossless.Copy.{Coding, put, bits_of, is_color_bias}
use ntr_hr.Lossless.Predict.{pred_pixel}
use ntr_hr.Huffman.Derive.{DerivedTbl}

-- The pixel at an address that may be null.
unfoldable pub read : Memory → Option ℕ → Option ℕ
read m none = none
read m (some p) = some (m p)

-- The address to the left, null in the first column.
unfoldable pub left_of : ℕ → Option ℕ → Option ℕ
left_of ix none = none
left_of ix (some p) = if ltb 0 ix then some (p - 1) else none

-- The symbol of the pixel at `p`, in column `ix` of row `by` of stripe `i`.
unfoldable pub symbol_at : Memory → ℕ → ℕ → ℕ → ℕ → ℕ → ℕ → ℕ → ℕ
symbol_at prep bits i by bh width ix p =
    let t = above i by bh width p in
    pred_pixel (prep p) (read prep t) (read prep (left_of ix (some p))) (read prep (left_of ix t))
      bits

unfoldable pub put_symbol : DerivedTbl → ℕ → Coding → Coding
put_symbol tbl v = put (get_or tbl.ehufco v 0) (get_or tbl.ehufsi v 0)

-- lossless_tbl_name_from_bits. The code panics at other depths than 8, 6, 5 and 4, which bits_of
-- does not give.
unfoldable pub table_of : (ℕ → DerivedTbl) → ℕ → DerivedTbl
table_of etbl bits =
    if bits == 8 then etbl 0 else if bits == 6 then etbl 1 else if bits == 5 then etbl 2 else etbl 3

unfoldable pub encode_row :
    LosslessInfo → Memory → (ℕ → ℕ) → (ℕ → DerivedTbl) → ℕ → ℕ → ℕ → Coding → Coding
encode_row info prep plane etbl i c by =
    let bits = bits_of (get_color_bias_from_format info.color_bias info.color_space) c in
    let bh = block_height info c in
    let width = width_of info c in
    for_range
      (λ ix.
        put_symbol (table_of etbl bits)
          (symbol_at prep bits i by bh width ix (plane c + (row_at i by bh * width + ix))))
      0 (positions info * block_width info c)

unfoldable pub encode_planes :
    LosslessInfo → Memory → (ℕ → ℕ) → (ℕ → DerivedTbl) → ℕ → Coding → Coding
encode_planes info prep plane etbl i =
    for_range (λ c. for_range (encode_row info prep plane etbl i c) 0 (block_height info c)) 0
      max_components

-- Any other bias panics.
unfoldable pub do_compressed_encode :
    LosslessInfo → Memory → (ℕ → ℕ) → (ℕ → DerivedTbl) → ℕ → Coding → Option Coding
do_compressed_encode info prep plane etbl i su =
    if is_color_bias (get_color_bias_from_format info.color_bias info.color_space)
    then some (encode_planes info prep plane etbl i su)
    else none
