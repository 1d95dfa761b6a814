-- ===== src/Work/Picture.antt =====
-- The sizes of a picture: the macros and helpers of vars.rs and encoder/vars.rs, the screens that
-- set_comp_infos of encoder/init.rs fills in, and BlitCtx of entries/work_thread/vars.rs.
use ntr_hr.Base.{ℕ, ◌+◌, ◌-◌, ◌*◌, ◌/◌, Bool, List, [], ◌∷◌, max, leb, ◌==◌, if◌then◌else◌}
use ntr_hr.Jpeg.Tables.{
  CompInfo, set_color_space_ycb_cr_420, set_color_space_ycb_cr_422, set_color_space_ycb_cr_444,
}
use ntr_hr.Lossless.Format.{
  Downsample, whole, checker, even_odd, quarter, gsp_screen_width, downsample_factor,
  downsample_screen_width,
}

pub data TopScreenWidth : Type 0 where
  left : TopScreenWidth
  right : TopScreenWidth
  both : TopScreenWidth

unfoldable pub top_screen_width : ℕ → TopScreenWidth
top_screen_width full_width =
    if leb 2 full_width then both else if leb 1 full_width then right else left

-- GSP_SCREEN_HEIGHT_TOP_2X for both eyes, GSP_SCREEN_HEIGHT_TOP for one.
unfoldable pub top_height : TopScreenWidth → ℕ
top_height both = 800
top_height left = 400
top_height right = 400

-- The macro rp_screen_height, with GSP_SCREEN_HEIGHT_BOTTOM.
unfoldable pub rp_screen_height : TopScreenWidth → Bool → ℕ
unfolding top_height
rp_screen_height wide is_top = if is_top then top_height wide else 320

unfoldable pub downsample_screen_height : Downsample → TopScreenWidth → Bool → ℕ
downsample_screen_height quarter wide is_top = rp_screen_height wide is_top / downsample_factor
downsample_screen_height even_odd wide is_top = rp_screen_height wide is_top
downsample_screen_height whole wide is_top = rp_screen_height wide is_top
downsample_screen_height checker wide is_top = rp_screen_height wide is_top

unfoldable pub downsample_checker_screen_dim : TopScreenWidth → Bool → ℕ
downsample_checker_screen_dim wide is_top =
    (gsp_screen_width + rp_screen_height wide is_top) / downsample_factor

unfoldable pub jdiv_round_up : ℕ → ℕ → ℕ
jdiv_round_up a b = (a + b - 1) / b

-- The width and height of a screen, as EncoderShared::init sets them.
unfoldable pub screen_width : Downsample → TopScreenWidth → Bool → ℕ
screen_width checker wide is_top = downsample_checker_screen_dim wide is_top
screen_width whole wide is_top = downsample_screen_width whole
screen_width even_odd wide is_top = downsample_screen_width even_odd
screen_width quarter wide is_top = downsample_screen_width quarter

unfoldable pub screen_height : Downsample → TopScreenWidth → Bool → ℕ
screen_height checker wide is_top = downsample_checker_screen_dim wide is_top
screen_height whole wide is_top = downsample_screen_height whole wide is_top
screen_height even_odd wide is_top = downsample_screen_height even_odd wide is_top
screen_height quarter wide is_top = downsample_screen_height quarter wide is_top

abbrev pub rp_chromass_422 : ℕ
rp_chromass_422 = 1

abbrev pub rp_chromass_444 : ℕ
rp_chromass_444 = 2

unfoldable pub comp_infos_of : ℕ → List CompInfo
comp_infos_of hq =
    if hq == rp_chromass_444
    then set_color_space_ycb_cr_444
    else if hq == rp_chromass_422
    then set_color_space_ycb_cr_422
    else set_color_space_ycb_cr_420

abbrev pub dctsize : ℕ
dctsize = 8

-- The loop over the components: the greatest factors, from the one that init sets, and the blocks.
unfoldable pub max_h_samp : ℕ → List CompInfo → ℕ
max_h_samp m [] = m
max_h_samp m (c ∷ cs) = max_h_samp (max m c.h_samp_factor) cs

unfoldable pub max_v_samp : ℕ → List CompInfo → ℕ
max_v_samp m [] = m
max_v_samp m (c ∷ cs) = max_v_samp (max m c.v_samp_factor) cs

unfoldable pub blocks_in_mcu : ℕ → List CompInfo → ℕ
blocks_in_mcu n [] = n
blocks_in_mcu n (c ∷ cs) = blocks_in_mcu (n + c.h_samp_factor * c.v_samp_factor) cs

pub record JpegScreen : Type 0 where
  pub max_blocks_in_mcu : ℕ
  pub mcu_row_size : ℕ
  pub mcu_col_size : ℕ
  pub mcus_per_row : ℕ
  pub mcu_rows : ℕ
  pub mcus : ℕ

-- The part of set_comp_infos that does not depend on delta quantisation; the panic for more than
-- MAX_BLOCKS_IN_MCU blocks is not reached, since no table of components has that many.
unfoldable pub set_comp_infos : Downsample → TopScreenWidth → Bool → ℕ → JpegScreen
set_comp_infos d wide is_top hq =
    let infos = comp_infos_of hq in
    let row_size = dctsize * max_h_samp 1 infos in
    let col_size = dctsize * max_v_samp 1 infos in
    let per_row = jdiv_round_up (screen_width d wide is_top) row_size in
    let rows = jdiv_round_up (screen_height d wide is_top) col_size in
    record {
      max_blocks_in_mcu = blocks_in_mcu 0 infos;
      mcu_row_size = row_size;
      mcu_col_size = col_size;
      mcus_per_row = per_row;
      mcu_rows = rows;
      mcus = per_row * rows;
    }

unfoldable pub bpp : ℕ → ℕ
bpp format = if format == 0 then 4 else if format == 1 then 3 else 2

unfoldable pub pitch : ℕ → ℕ
unfolding bpp
pitch format = bpp format * gsp_screen_width

unfoldable pub src_len : ℕ → TopScreenWidth → Bool → ℕ
src_len format wide is_top = rp_screen_height wide is_top * pitch format
