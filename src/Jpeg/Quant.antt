-- ===== src/Jpeg/Quant.antt =====
-- The quantisation tables of encoder/vars.rs.
use ntr_hr.Base.{ℕ, ◌+◌, ◌-◌, ◌*◌, ◌/◌, List, [], ◌∷◌, ltb, leb, if◌then◌else◌, map}
use ntr_hr.Base.Word.{u8, u32}

unfoldable pub quality_scaling : ℕ → ℕ
quality_scaling q =
    let quality = if leb q 0 then 1 else if ltb 100 q then 100 else q in
    if ltb quality 50 then 5000 / quality else 200 - quality * 2

-- One quantiser, for an entry of a basic table.
unfoldable pub quant_val : ℕ → ℕ → ℕ
quant_val scale_factor basic =
    let temp = u32 (basic * scale_factor + 50) / 100 in
    u8 (if leb temp 0 then 1 else if ltb 255 temp then 255 else temp)

unfoldable pub set_quant_table : List ℕ → ℕ → List ℕ
set_quant_table basic_table scale_factor = map (quant_val scale_factor) basic_table

abbrev pub std_luminance_quant_tbl : List ℕ
std_luminance_quant_tbl =
    16 ∷ 11 ∷ 10 ∷ 16 ∷ 24 ∷ 40 ∷ 51 ∷ 61 ∷ 12 ∷ 12 ∷ 14 ∷ 19 ∷ 26 ∷ 58 ∷ 60 ∷ 55 ∷ 14 ∷ 13 ∷ 16
    ∷ 24 ∷ 40 ∷ 57 ∷ 69 ∷ 56 ∷ 14 ∷ 17 ∷ 22 ∷ 29 ∷ 51 ∷ 87 ∷ 80 ∷ 62 ∷ 18 ∷ 22 ∷ 37 ∷ 56 ∷ 68 ∷ 109
    ∷ 103 ∷ 77 ∷ 24 ∷ 35 ∷ 55 ∷ 64 ∷ 81 ∷ 104 ∷ 113 ∷ 92 ∷ 49 ∷ 64 ∷ 78 ∷ 87 ∷ 103 ∷ 121 ∷ 120 ∷ 101
    ∷ 72 ∷ 92 ∷ 95 ∷ 98 ∷ 112 ∷ 100 ∷ 103 ∷ 99 ∷ []

abbrev pub std_chrominance_quant_tbl : List ℕ
std_chrominance_quant_tbl =
    17 ∷ 18 ∷ 24 ∷ 47 ∷ 99 ∷ 99 ∷ 99 ∷ 99 ∷ 18 ∷ 21 ∷ 26 ∷ 66 ∷ 99 ∷ 99 ∷ 99 ∷ 99 ∷ 24 ∷ 26 ∷ 56
    ∷ 99 ∷ 99 ∷ 99 ∷ 99 ∷ 99 ∷ 47 ∷ 66 ∷ 99 ∷ 99 ∷ 99 ∷ 99 ∷ 99 ∷ 99 ∷ 99 ∷ 99 ∷ 99 ∷ 99 ∷ 99 ∷ 99
    ∷ 99 ∷ 99 ∷ 99 ∷ 99 ∷ 99 ∷ 99 ∷ 99 ∷ 99 ∷ 99 ∷ 99 ∷ 99 ∷ 99 ∷ 99 ∷ 99 ∷ 99 ∷ 99 ∷ 99 ∷ 99 ∷ 99
    ∷ 99 ∷ 99 ∷ 99 ∷ 99 ∷ 99 ∷ 99 ∷ 99 ∷ []

-- `quant_tbls` after set_quality: the luminance and the chrominance table.
unfoldable pub set_linear_quality : ℕ → List ℕ × List ℕ
set_linear_quality scale_factor = (
  set_quant_table std_luminance_quant_tbl scale_factor,
  set_quant_table std_chrominance_quant_tbl scale_factor,
)

unfoldable pub set_quality : ℕ → List ℕ × List ℕ
set_quality quality = set_linear_quality (quality_scaling quality)
