-- ===== src/Work/Cover.antt =====
-- The rows of MCUs that init_work shares out cover the picture, and the last one starts in it.
use ntr_hr.Base.{
  ℕ, ◌+◌, ◌-◌, ◌*◌, ◌/◌, ◌^◌, ◌≤◌, ◌≡◌, Bool, true, false, arith, Bool-cases, inl, inr, ◌==◌, ◌⊎◌,
  ◌≢◌, refl,
}
use ntr_hr.Lossless.Format.{Downsample, whole, checker, even_odd, quarter, downsample_factor}
use ntr_hr.Jpeg.Tables.{
  set_comp, set_color_space_ycb_cr_420, set_color_space_ycb_cr_422, set_color_space_ycb_cr_444,
}
use ntr_hr.Work.Picture.{
  TopScreenWidth, left, right, both, rp_screen_height, set_comp_infos, comp_infos_of, max_v_samp,
  screen_height, downsample_screen_height, jdiv_round_up,
}
use ntr_hr.Work.Rows.{mcu_dims, jpeg_dims, lossless_block_size}

-- The lines of the picture in a row of MCUs.
abbrev pub lines : Downsample → Bool → ℕ → ℕ
lines d true mcu_col_size = lossless_block_size
lines quarter false mcu_col_size = mcu_col_size * downsample_factor
lines whole false mcu_col_size = mcu_col_size
lines even_odd false mcu_col_size = mcu_col_size
lines checker false mcu_col_size = mcu_col_size

pub record IsCover (unit rows height : ℕ) : Type 0 where
  pub few : 5 ≤ rows
  pub many : rows ≤ 2 ^ 8
  pub whole_rows : unit * (rows - 1) ≤ height
  pub covers : height ≤ unit * rows

lossless-IsCover :
    (wide : TopScreenWidth) (is_top : Bool) (d : Downsample) (hq per_row rows : ℕ)
    → IsCover 16
        (mcu_dims true d wide is_top (set_comp_infos d wide is_top hq) per_row rows).1
        (rp_screen_height wide is_top)
unfolding mcu_dims rp_screen_height
lossless-IsCover left true d hq per_row rows = omega arith
lossless-IsCover right true d hq per_row rows = omega arith
lossless-IsCover both true d hq per_row rows = omega arith
lossless-IsCover wide false d hq per_row rows = omega arith

abbrev ceil_div : ℕ → ℕ → ℕ
ceil_div a b = (a + b - 1) / b

-- A height in use is covered by rows of 8 or 16 lines, and its half by rows of as many.
heights-IsCover :
    (wide : TopScreenWidth) (is_top : Bool)
    → IsCover 8 (ceil_div (rp_screen_height wide is_top) 8) (rp_screen_height wide is_top)
      × IsCover 16 (ceil_div (rp_screen_height wide is_top) 16) (rp_screen_height wide is_top)
      × IsCover 16 (ceil_div (rp_screen_height wide is_top / 2) 8) (rp_screen_height wide is_top)
      × IsCover 32 (ceil_div (rp_screen_height wide is_top / 2) 16) (rp_screen_height wide is_top)
unfolding rp_screen_height
heights-IsCover left true = (omega arith, omega arith, omega arith, omega arith)
heights-IsCover right true = (omega arith, omega arith, omega arith, omega arith)
heights-IsCover both true = (omega arith, omega arith, omega arith, omega arith)
heights-IsCover wide false = (omega arith, omega arith, omega arith, omega arith)

-- A column of MCUs is one block or two.
max_v_samp_cases :
    (hq : ℕ) → (max_v_samp 1 (comp_infos_of hq) ≡ 1) ⊎ (max_v_samp 1 (comp_infos_of hq) ≡ 2)
unfolding comp_infos_of max_v_samp set_color_space_ycb_cr_420 set_color_space_ycb_cr_422
    set_color_space_ycb_cr_444 set_comp
max_v_samp_cases hq = elim (Bool-cases (hq == 2)) [
  | inl e ↦ inl (rw e refl)
  | inr e ↦ elim (Bool-cases (hq == 1)) [
    | inl f ↦ inl (rw (e, f) refl)
    | inr f ↦ inr (rw (e, f) refl)
  ]
]

block_rows-IsCover :
    (d : Downsample) (wide : TopScreenWidth) (is_top : Bool) (v : ℕ)
    → d ≢ checker
    → (v ≡ 1) ⊎ (v ≡ 2)
    → IsCover
        (lines d false (8 * v))
        (jdiv_round_up (screen_height d wide is_top) (8 * v))
        (rp_screen_height wide is_top)
unfolding jdiv_round_up screen_height downsample_screen_height rp_screen_height
block_rows-IsCover checker wide is_top v n k = absurd (n refl)
block_rows-IsCover whole wide is_top v n (inl e) = rw e (heights-IsCover wide is_top).0
block_rows-IsCover whole wide is_top v n (inr e) = rw e (heights-IsCover wide is_top).1
block_rows-IsCover even_odd wide is_top v n (inl e) = rw e (heights-IsCover wide is_top).0
block_rows-IsCover even_odd wide is_top v n (inr e) = rw e (heights-IsCover wide is_top).1
block_rows-IsCover quarter wide is_top v n (inl e) = rw e (heights-IsCover wide is_top).2
block_rows-IsCover quarter wide is_top v n (inr e) = rw e (heights-IsCover wide is_top).3

-- The rows that are shared out cover the picture, whatever is encoded but the checker.
pub mcu_dims-IsCover :
    (lossless : Bool) (d : Downsample) (wide : TopScreenWidth) (is_top : Bool) (hq per_row rows : ℕ)
    → d ≢ checker
    → IsCover
        (lines d lossless (set_comp_infos d wide is_top hq).mcu_col_size)
        (mcu_dims lossless d wide is_top (set_comp_infos d wide is_top hq) per_row rows).1
        (rp_screen_height wide is_top)
unfolding mcu_dims jpeg_dims set_comp_infos
mcu_dims-IsCover true d wide is_top hq per_row rows n =
    unfold mcu_dims in lossless-IsCover wide is_top d hq per_row rows
mcu_dims-IsCover false checker wide is_top hq per_row rows n = absurd (n refl)
mcu_dims-IsCover false whole wide is_top hq per_row rows n =
    block_rows-IsCover whole wide is_top (max_v_samp 1 (comp_infos_of hq)) n (max_v_samp_cases hq)
mcu_dims-IsCover false even_odd wide is_top hq per_row rows n =
    block_rows-IsCover even_odd wide is_top (max_v_samp 1 (comp_infos_of hq)) n
      (max_v_samp_cases hq)
mcu_dims-IsCover false quarter wide is_top hq per_row rows n =
    block_rows-IsCover quarter wide is_top (max_v_samp 1 (comp_infos_of hq)) n (max_v_samp_cases hq)
