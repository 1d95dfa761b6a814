-- ===== src/Jpeg/Tables.antt =====
-- The constant tables of the encoder (encoder/vars.rs): Huffman tables, zigzag order, components.
use ntr_hr.Base.{
  ℕ, ◌+◌, ◌-◌, ◌^◌, ◌||◌, List, [], ◌∷◌, ◌++◌, Option, none, some, ltb, if◌then◌else◌, length, take,
  drop, replicate,
}

abbrev pub bits_dc_luminance : List ℕ
bits_dc_luminance = 0 ∷ 0 ∷ 1 ∷ 5 ∷ 1 ∷ 1 ∷ 1 ∷ 1 ∷ 1 ∷ 1 ∷ 0 ∷ 0 ∷ 0 ∷ 0 ∷ 0 ∷ 0 ∷ 0 ∷ []

abbrev pub val_dc_luminance : List ℕ
val_dc_luminance = 0 ∷ 1 ∷ 2 ∷ 3 ∷ 4 ∷ 5 ∷ 6 ∷ 7 ∷ 8 ∷ 9 ∷ 10 ∷ 11 ∷ []

abbrev pub bits_dc_chrominance : List ℕ
bits_dc_chrominance = 0 ∷ 0 ∷ 3 ∷ 1 ∷ 1 ∷ 1 ∷ 1 ∷ 1 ∷ 1 ∷ 1 ∷ 1 ∷ 1 ∷ 0 ∷ 0 ∷ 0 ∷ 0 ∷ 0 ∷ []

abbrev pub val_dc_chrominance : List ℕ
val_dc_chrominance = 0 ∷ 1 ∷ 2 ∷ 3 ∷ 4 ∷ 5 ∷ 6 ∷ 7 ∷ 8 ∷ 9 ∷ 10 ∷ 11 ∷ []

abbrev pub bits_ac_luminance : List ℕ
bits_ac_luminance = 0 ∷ 0 ∷ 2 ∷ 1 ∷ 3 ∷ 3 ∷ 2 ∷ 4 ∷ 3 ∷ 5 ∷ 5 ∷ 4 ∷ 4 ∷ 0 ∷ 0 ∷ 1 ∷ 125 ∷ []

abbrev pub val_ac_luminance : List ℕ
val_ac_luminance =
    1 ∷ 2 ∷ 3 ∷ 0 ∷ 4 ∷ 17 ∷ 5 ∷ 18 ∷ 33 ∷ 49 ∷ 65 ∷ 6 ∷ 19 ∷ 81 ∷ 97 ∷ 7 ∷ 34 ∷ 113 ∷ 20 ∷ 50 ∷ 129
    ∷ 145 ∷ 161 ∷ 8 ∷ 35 ∷ 66 ∷ 177 ∷ 193 ∷ 21 ∷ 82 ∷ 209 ∷ 240 ∷ 36 ∷ 51 ∷ 98 ∷ 114 ∷ 130 ∷ 9 ∷ 10
    ∷ 22 ∷ 23 ∷ 24 ∷ 25 ∷ 26 ∷ 37 ∷ 38 ∷ 39 ∷ 40 ∷ 41 ∷ 42 ∷ 52 ∷ 53 ∷ 54 ∷ 55 ∷ 56 ∷ 57 ∷ 58 ∷ 67
    ∷ 68 ∷ 69 ∷ 70 ∷ 71 ∷ 72 ∷ 73 ∷ 74 ∷ 83 ∷ 84 ∷ 85 ∷ 86 ∷ 87 ∷ 88 ∷ 89 ∷ 90 ∷ 99 ∷ 100 ∷ 101
    ∷ 102 ∷ 103 ∷ 104 ∷ 105 ∷ 106 ∷ 115 ∷ 116 ∷ 117 ∷ 118 ∷ 119 ∷ 120 ∷ 121 ∷ 122 ∷ 131 ∷ 132 ∷ 133
    ∷ 134 ∷ 135 ∷ 136 ∷ 137 ∷ 138 ∷ 146 ∷ 147 ∷ 148 ∷ 149 ∷ 150 ∷ 151 ∷ 152 ∷ 153 ∷ 154 ∷ 162 ∷ 163
    ∷ 164 ∷ 165 ∷ 166 ∷ 167 ∷ 168 ∷ 169 ∷ 170 ∷ 178 ∷ 179 ∷ 180 ∷ 181 ∷ 182 ∷ 183 ∷ 184 ∷ 185 ∷ 186
    ∷ 194 ∷ 195 ∷ 196 ∷ 197 ∷ 198 ∷ 199 ∷ 200 ∷ 201 ∷ 202 ∷ 210 ∷ 211 ∷ 212 ∷ 213 ∷ 214 ∷ 215 ∷ 216
    ∷ 217 ∷ 218 ∷ 225 ∷ 226 ∷ 227 ∷ 228 ∷ 229 ∷ 230 ∷ 231 ∷ 232 ∷ 233 ∷ 234 ∷ 241 ∷ 242 ∷ 243 ∷ 244
    ∷ 245 ∷ 246 ∷ 247 ∷ 248 ∷ 249 ∷ 250 ∷ []

abbrev pub bits_ac_chrominance : List ℕ
bits_ac_chrominance = 0 ∷ 0 ∷ 2 ∷ 1 ∷ 2 ∷ 4 ∷ 4 ∷ 3 ∷ 4 ∷ 7 ∷ 5 ∷ 4 ∷ 4 ∷ 0 ∷ 1 ∷ 2 ∷ 119 ∷ []

abbrev pub val_ac_chrominance : List ℕ
val_ac_chrominance =
    0 ∷ 1 ∷ 2 ∷ 3 ∷ 17 ∷ 4 ∷ 5 ∷ 33 ∷ 49 ∷ 6 ∷ 18 ∷ 65 ∷ 81 ∷ 7 ∷ 97 ∷ 113 ∷ 19 ∷ 34 ∷ 50 ∷ 129 ∷ 8
    ∷ 20 ∷ 66 ∷ 145 ∷ 161 ∷ 177 ∷ 193 ∷ 9 ∷ 35 ∷ 51 ∷ 82 ∷ 240 ∷ 21 ∷ 98 ∷ 114 ∷ 209 ∷ 10 ∷ 22 ∷ 36
    ∷ 52 ∷ 225 ∷ 37 ∷ 241 ∷ 23 ∷ 24 ∷ 25 ∷ 26 ∷ 38 ∷ 39 ∷ 40 ∷ 41 ∷ 42 ∷ 53 ∷ 54 ∷ 55 ∷ 56 ∷ 57 ∷ 58
    ∷ 67 ∷ 68 ∷ 69 ∷ 70 ∷ 71 ∷ 72 ∷ 73 ∷ 74 ∷ 83 ∷ 84 ∷ 85 ∷ 86 ∷ 87 ∷ 88 ∷ 89 ∷ 90 ∷ 99 ∷ 100 ∷ 101
    ∷ 102 ∷ 103 ∷ 104 ∷ 105 ∷ 106 ∷ 115 ∷ 116 ∷ 117 ∷ 118 ∷ 119 ∷ 120 ∷ 121 ∷ 122 ∷ 130 ∷ 131 ∷ 132
    ∷ 133 ∷ 134 ∷ 135 ∷ 136 ∷ 137 ∷ 138 ∷ 146 ∷ 147 ∷ 148 ∷ 149 ∷ 150 ∷ 151 ∷ 152 ∷ 153 ∷ 154 ∷ 162
    ∷ 163 ∷ 164 ∷ 165 ∷ 166 ∷ 167 ∷ 168 ∷ 169 ∷ 170 ∷ 178 ∷ 179 ∷ 180 ∷ 181 ∷ 182 ∷ 183 ∷ 184 ∷ 185
    ∷ 186 ∷ 194 ∷ 195 ∷ 196 ∷ 197 ∷ 198 ∷ 199 ∷ 200 ∷ 201 ∷ 202 ∷ 210 ∷ 211 ∷ 212 ∷ 213 ∷ 214 ∷ 215
    ∷ 216 ∷ 217 ∷ 218 ∷ 226 ∷ 227 ∷ 228 ∷ 229 ∷ 230 ∷ 231 ∷ 232 ∷ 233 ∷ 234 ∷ 242 ∷ 243 ∷ 244 ∷ 245
    ∷ 246 ∷ 247 ∷ 248 ∷ 249 ∷ 250 ∷ []

abbrev pub jpeg_natural_order : List ℕ
jpeg_natural_order =
    0 ∷ 1 ∷ 8 ∷ 16 ∷ 9 ∷ 2 ∷ 3 ∷ 10 ∷ 17 ∷ 24 ∷ 32 ∷ 25 ∷ 18 ∷ 11 ∷ 4 ∷ 5 ∷ 12 ∷ 19 ∷ 26 ∷ 33 ∷ 40
    ∷ 48 ∷ 41 ∷ 34 ∷ 27 ∷ 20 ∷ 13 ∷ 6 ∷ 7 ∷ 14 ∷ 21 ∷ 28 ∷ 35 ∷ 42 ∷ 49 ∷ 56 ∷ 57 ∷ 50 ∷ 43 ∷ 36
    ∷ 29 ∷ 22 ∷ 15 ∷ 23 ∷ 30 ∷ 37 ∷ 44 ∷ 51 ∷ 58 ∷ 59 ∷ 52 ∷ 45 ∷ 38 ∷ 31 ∷ 39 ∷ 46 ∷ 53 ∷ 60 ∷ 61
    ∷ 54 ∷ 47 ∷ 55 ∷ 62 ∷ 63 ∷ []

-- `bits` has 17 entries, the first unused, and `huff_vals` 256.
pub record HuffTbl : Type 0 where
  pub bits : List ℕ
  pub huff_vals : List ℕ

pub record HuffTbls : Type 0 where
  pub dc_huff_tbls : HuffTbl × HuffTbl
  pub ac_huff_tbls : HuffTbl × HuffTbl

unfoldable pub sum : List ℕ → ℕ
sum [] = 0
sum (x ∷ xs) = x + sum xs

-- `none` is a panic: on a wrong count, on a list of values that is too short, and on 256 symbols,
-- where the second loop begins behind the end of huff_vals.
unfoldable pub add_huff_table : List ℕ → List ℕ → Option HuffTbl
add_huff_table bits vals =
    let nsymbols = sum (drop 1 bits) in
    if ltb nsymbols 1 || ltb 255 nsymbols || ltb (length vals) nsymbols
    then none
    else some
        (record { bits = bits; huff_vals = take nsymbols vals ++ replicate (256 - nsymbols) 0 })

unfoldable pub collect_tbls :
    Option HuffTbl → Option HuffTbl → Option HuffTbl → Option HuffTbl → Option HuffTbls
collect_tbls (some dc0) (some ac0) (some dc1) (some ac1) =
    some (record { dc_huff_tbls = (dc0, dc1); ac_huff_tbls = (ac0, ac1) })
collect_tbls _ _ _ _ = none

-- HuffTbls::once.
unfoldable pub once : Option HuffTbls
once =
    collect_tbls (add_huff_table bits_dc_luminance val_dc_luminance)
      (add_huff_table bits_ac_luminance val_ac_luminance)
      (add_huff_table bits_dc_chrominance val_dc_chrominance)
      (add_huff_table bits_ac_chrominance val_ac_chrominance)

pub record CompInfo : Type 0 where
  pub component_id : ℕ
  pub h_samp_factor : ℕ
  pub v_samp_factor : ℕ
  pub h_samp_exp : ℕ
  pub v_samp_exp : ℕ
  pub quant_tbl_no : ℕ
  pub dc_tbl_no : ℕ
  pub ac_tbl_no : ℕ

unfoldable pub set_comp : ℕ → ℕ → ℕ → ℕ → ℕ → ℕ → CompInfo
set_comp id h_samp_exp v_samp_exp quant dctbl actbl = record {
  component_id = id;
  h_samp_factor = 2 ^ h_samp_exp;
  v_samp_factor = 2 ^ v_samp_exp;
  h_samp_exp = h_samp_exp;
  v_samp_exp = v_samp_exp;
  quant_tbl_no = quant;
  dc_tbl_no = dctbl;
  ac_tbl_no = actbl;
}

unfoldable pub set_color_space_ycb_cr_420 : List CompInfo
set_color_space_ycb_cr_420 = set_comp 1 1 1 0 0 0 ∷ set_comp 2 0 0 1 1 1 ∷ set_comp 3 0 0 1 1 1 ∷ []

unfoldable pub set_color_space_ycb_cr_422 : List CompInfo
set_color_space_ycb_cr_422 = set_comp 1 1 0 0 0 0 ∷ set_comp 2 0 0 1 1 1 ∷ set_comp 3 0 0 1 1 1 ∷ []

unfoldable pub set_color_space_ycb_cr_444 : List CompInfo
set_color_space_ycb_cr_444 = set_comp 1 0 0 0 0 0 ∷ set_comp 2 0 0 1 1 1 ∷ set_comp 3 0 0 1 1 1 ∷ []
