-- ===== src/Jpeg/Quality.antt =====
-- The tables that a quality setting gives.
use ntr_hr.Base.{
  ℕ, refl, false, ◌-◌, ◌*◌, ◌/◌, ◌≤◌, ◌<◌, ◌≡◌, List, [], ◌∷◌, All, ltb, leb, if◌then◌else◌, arith,
  Bool-cases, inl, inr,
}
use native.Mathlib.Nat.{le-div_iff_mul-le, div-mul-le_self, mul-le-mul_left}
use ntr_hr.Jpeg.Quant.{
  quality_scaling, quant_val, set_quant_table, set_linear_quality, set_quality,
  std_luminance_quant_tbl, std_chrominance_quant_tbl,
}

abbrev pub IsQuantiser : ℕ → Type 0
IsQuantiser v = (1 ≤ v) × (v ≤ 255)

-- Entry by entry.
abbrev pub Finer : List ℕ → List ℕ → Type 0
Finer [] ys = Unit
Finer (x ∷ xs) [] = ⊥
Finer (x ∷ xs) (y ∷ ys) = (x ≤ y) × Finer xs ys

div_antitone : (n x y : ℕ) → 0 < x → x ≤ y → n / y ≤ n / x
div_antitone n x y pos le =
    let e : n / y * x ≤ n / y * y = mul-le-mul_left (n / y) le in
    (le-div_iff_mul-le pos).1 (omega (arith, e, div-mul-le_self n y))

curve : ℕ → ℕ
curve x = if ltb x 50 then 5000 / x else 200 - x * 2

curve_antitone : (x y : ℕ) → 0 < x → x ≤ y → y ≤ 100 → curve y ≤ curve x
unfolding curve
curve_antitone x y pos le bound =
    let steep = div_antitone 5000 x y pos le in
    let high : x ≤ 50 → 100 ≤ 5000 / x = λ h. (le-div_iff_mul-le pos).1 (omega arith) in
    elim (Bool-cases (ltb x 50)) [
      | inr p ↦ let q : ltb y 50 ≡ false = ground arith in rw (p, q) (ground arith)
      | inl p ↦ elim (Bool-cases (ltb y 50)) [
        | inl q ↦ rw (p, q) steep
        | inr q ↦ let h = high (ground arith) in rw (p, q) (ground arith)
      ]
    ]

clamp : ℕ → ℕ
clamp q = if leb q 0 then 1 else if ltb 100 q then 100 else q

scaling-eq-curve : (q : ℕ) → quality_scaling q ≡ curve (clamp q)
unfolding quality_scaling curve clamp
scaling-eq-curve q = refl

scaling_antitone : (q r : ℕ) → q ≤ r → quality_scaling r ≤ quality_scaling q
unfolding clamp
scaling_antitone q r le =
    rw (scaling-eq-curve q, scaling-eq-curve r)
      (curve_antitone (clamp q) (clamp r) (ground arith) (ground arith) (ground arith))

scaling_bound : (q : ℕ) → quality_scaling q ≤ 5000
scaling_bound q =
    let one : quality_scaling 0 ≡ 5000 = unfold quality_scaling in refl in
    let h = scaling_antitone 0 q (omega arith) in omega arith

quant_val_mono :
    (s r basic : ℕ) → basic ≤ 255 → s ≤ r → r ≤ 5000 → quant_val s basic ≤ quant_val r basic
unfolding quant_val
quant_val_mono s r basic small le bound =
    let a : basic * s ≤ basic * r = mul-le-mul_left basic le in
    let b : basic * r ≤ basic * 5000 = mul-le-mul_left basic bound in ground (arith, a, b)

quant_val-IsQuantiser : (s basic : ℕ) → IsQuantiser (quant_val s basic)
unfolding quant_val
quant_val-IsQuantiser s basic = ground arith

set_quant_table-Finer :
    (s r : ℕ) (tbl : List ℕ)
    → s ≤ r
    → r ≤ 5000
    → All (λ b. b ≤ 255) tbl
    → Finer (set_quant_table tbl s) (set_quant_table tbl r)
unfolding set_quant_table
set_quant_table-Finer s r [] le bound vs = tt
set_quant_table-Finer s r (b ∷ bs) le bound (v, vs) =
    (quant_val_mono s r b v le bound, set_quant_table-Finer s r bs le bound vs)

set_quant_table-IsQuantiser : (s : ℕ) (tbl : List ℕ) → All IsQuantiser (set_quant_table tbl s)
unfolding set_quant_table
set_quant_table-IsQuantiser s [] = tt
set_quant_table-IsQuantiser s (b ∷ bs) =
    (quant_val-IsQuantiser s b, set_quant_table-IsQuantiser s bs)

std_bytes :
    All (λ b. b ≤ 255) std_luminance_quant_tbl × All (λ b. b ≤ 255) std_chrominance_quant_tbl
std_bytes = ground arith

-- A higher quality never has a coarser quantiser, in either table, whatever the two settings; and
-- every quantiser is from 1 to 255.
pub set_quality-Finer :
    (q r : ℕ)
    → q ≤ r
    → Finer (set_quality r).0 (set_quality q).0
      × Finer (set_quality r).1 (set_quality q).1
      × All IsQuantiser (set_quality q).0
      × All IsQuantiser (set_quality q).1
unfolding set_quality set_linear_quality
set_quality-Finer q r le =
    let s = quality_scaling r in
    let s' = quality_scaling q in
    let down = scaling_antitone q r le in
    let top = scaling_bound q in
    (
      set_quant_table-Finer s s' std_luminance_quant_tbl down top std_bytes.0,
      set_quant_table-Finer s s' std_chrominance_quant_tbl down top std_bytes.1,
      set_quant_table-IsQuantiser s' std_luminance_quant_tbl,
      set_quant_table-IsQuantiser s' std_chrominance_quant_tbl,
    )
