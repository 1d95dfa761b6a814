-- ===== src/Lossless/Parity.antt =====
-- The columns that copy_rgb8 takes at RP_COLOR_BIAS_1.
use ntr_hr.Base.{ℕ, ◌≡◌, refl, true, false}
use ntr_hr.Base.Memory.{Memory}
use ntr_hr.Lossless.Format.{LosslessInfo, even_odd}
use ntr_hr.Lossless.Copy.{Sink, copy_rgb8, copy_row, start_step}

-- At RP_COLOR_BIAS_1 and RP_DOWNSAMPLE_EVEN_ODD, copy_rgb8 writes the same bytes of a row for the odd
-- columns as for the even ones.
pub copy_rgb8-parity :
    (r g b p t : ℕ) (info : LosslessInfo) (m : Memory) (input : ℕ) (o : Sink)
    → info.color_bias ≡ 1
    → info.downsample ≡ even_odd
    → copy_rgb8 r g b p t (record info { odd = true }) m input o
      ≡ copy_rgb8 r g b p t (record info { odd = false }) m input o
unfolding copy_rgb8 copy_row start_step
copy_rgb8-parity r g b p t info m input o bias down = rw (bias, down) refl
