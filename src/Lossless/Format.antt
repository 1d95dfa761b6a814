-- ===== src/Lossless/Format.antt =====
-- What the lossless coders read of the worker: the formats, the downsampling, the loop over a
-- range, and the two reductions of a colour to fewer bits.
use ntr_hr.Base.{
  ℕ, zero, suc, ◌+◌, ◌*◌, ◌/◌, ◌^◌, Bool, false, Option, none, some, bit_or, max, ◌==◌,
  if◌then◌else◌,
}
use ntr_hr.Base.Word.{u16, shr}

pub data ColorSpace : Type 0 where
  rgba8 : ColorSpace
  rgb8 : ColorSpace
  rgb565 : ColorSpace
  rgb5a1 : ColorSpace
  rgb4 : ColorSpace

abbrev pub rp_color_bias_none : ℕ
rp_color_bias_none = 0

abbrev pub rp_color_bias_1 : ℕ
rp_color_bias_1 = 1

abbrev pub rp_color_bias_2 : ℕ
rp_color_bias_2 = 2

abbrev pub gsp_screen_width : ℕ
gsp_screen_width = 240

abbrev pub downsample_factor : ℕ
downsample_factor = 2

abbrev pub samp_factor : ℕ
samp_factor = 2

-- RP_DOWNSAMPLE_*, in the order of the C header.
pub data Downsample : Type 0 where
  whole : Downsample
  checker : Downsample
  even_odd : Downsample
  quarter : Downsample

unfoldable pub downsample_screen_width : Downsample → ℕ
downsample_screen_width quarter = gsp_screen_width / downsample_factor
downsample_screen_width even_odd = gsp_screen_width / downsample_factor
downsample_screen_width whole = gsp_screen_width
downsample_screen_width checker = gsp_screen_width

-- The parts of the worker that the lossless coders read.
pub record LosslessInfo : Type 0 where
  pub color_space : ColorSpace
  pub color_bias : ℕ
  pub downsample : Downsample
  pub odd : Bool
  pub hss : Bool
  pub vss : Bool

-- The alternative that lets the format choose is switched off in the code.
unfoldable pub get_color_bias_from_format : ℕ → ColorSpace → ℕ
get_color_bias_from_format bias format = if false then max bias (format_bias format) else bias
  where
    format_bias : ColorSpace → ℕ
    format_bias rgba8 = rp_color_bias_none
    format_bias rgb8 = rp_color_bias_none
    format_bias rgb565 = rp_color_bias_1
    format_bias rgb5a1 = rp_color_bias_1
    format_bias rgb4 = rp_color_bias_2

-- A format that is not one of the five panics.
unfoldable pub get_color_space_from_format : ℕ → Option ColorSpace
get_color_space_from_format format =
    if format == 0
    then some rgba8
    else if format == 1
    then some rgb8
    else if format == 2
    then some rgb565
    else if format == 3
    then some rgb5a1
    else if format == 4
    then some rgb4
    else none

unfoldable pub color_bias_1 : ℕ → ℕ → ℕ → ℕ
color_bias_1 r g b = bit_or (bit_or (u16 (shr r 3 * 2 ^ 11)) (u16 (shr g 2 * 2 ^ 5))) (shr b 3)

unfoldable pub color_bias_2 : ℕ → ℕ → ℕ → ℕ
color_bias_2 r g b = bit_or (bit_or (u16 (shr r 4 * 2 ^ 8)) (u16 (shr g 4 * 2 ^ 4))) (shr b 4)

-- `for i in start..start + count`.
unfoldable pub for_range {ℓ} : {A : Type ℓ} → (ℕ → A → A) → ℕ → ℕ → A → A
for_range f start zero a = a
for_range f start (suc count) a = for_range f (start + 1) count (f start a)
