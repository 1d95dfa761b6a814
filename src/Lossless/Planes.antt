-- ===== src/Lossless/Planes.antt =====
-- HSS and VSS are `hss` and `hss && vss` of the screen: there is no coder for VSS alone.
-- Where the rows of a stripe stand in the worker's buffer: the planes of `WorkerBufComps`, and the
-- row above a row, which a ring of two stripes keeps.
use ntr_hr.Base.{
  ℕ, ◌+◌, ◌-◌, ◌*◌, ◌/◌, ◌%◌, Bool, true, false, Option, none, some, ltb, ◌==◌, ◌&&◌, ◌||◌, not,
  if◌then◌else◌,
}
use ntr_hr.Lossless.Format.{samp_factor, LosslessInfo, downsample_screen_width}

abbrev pub dctsize : ℕ
dctsize = 8

abbrev pub max_components : ℕ
max_components = 3

-- The size of the three planes of a stripe; none for a failed assertion.
unfoldable pub worker_buf_comps_size : ℕ → Option ℕ
worker_buf_comps_size width =
    let no_v_no_h = width * dctsize * max_components in
    let no_v_h = width * dctsize + width / samp_factor * dctsize * (max_components - 1) in
    let v_h =
      width * samp_factor * dctsize + width / samp_factor * dctsize * (max_components - 1) in
    if ltb no_v_h v_h && (v_h == no_v_no_h) then some v_h else none

-- `get`: the start and the end of a component's part; none for the panic.
unfoldable pub get : ℕ → ℕ → Bool → Bool → Option (ℕ × ℕ)
get size ci true true =
    let y_size = size / max_components * samp_factor in
    let u_v_size = (size - y_size) / (max_components - 1) in
    some (
      if ci == 2
      then (y_size + u_v_size, size)
      else if ci == 1
      then (y_size, y_size + u_v_size)
      else (0, y_size))
get size ci true false =
    let y_size = size / max_components in
    let u_v_size = size / max_components / samp_factor in
    some (
      if ci == 2
      then (y_size + u_v_size, y_size + u_v_size * 2)
      else if ci == 1
      then (y_size, y_size + u_v_size)
      else (0, y_size))
get size ci false true = none
get size ci false false =
    let width_dct = size / max_components in some (width_dct * ci, width_dct * (ci + 1))

unfoldable pub need_subsamp_ci : Bool → Bool → ℕ → Bool
need_subsamp_ci h_samp v_samp ci = (h_samp || v_samp) && not (ci == 0)

-- `width_x`: the width of a component's rows.
unfoldable pub width_of : LosslessInfo → ℕ → ℕ
width_of info ci =
    let width = downsample_screen_width info.downsample in
    if info.hss && need_subsamp_ci true info.vss ci then width / samp_factor else width

-- `bw_x` and `bh_x`: the columns and the rows of a component at one position.
unfoldable pub block_width : LosslessInfo → ℕ → ℕ
block_width info ci = if info.hss && (ci == 0) then samp_factor else 1

unfoldable pub block_height : LosslessInfo → ℕ → ℕ
block_height info ci = if info.hss && info.vss && (ci == 0) then samp_factor else 1

-- The positions in a stripe.
unfoldable pub positions : LosslessInfo → ℕ
positions info =
    let width = downsample_screen_width info.downsample in
    if info.hss then width / samp_factor else width

-- The row of the ring that stripe `i` has its row `by` in.
unfoldable pub row_at : ℕ → ℕ → ℕ → ℕ
row_at i by bh = i % 2 * bh + by

-- The address of the pixel above the one at `p`, null on the first row of the picture part.
unfoldable pub above : ℕ → ℕ → ℕ → ℕ → ℕ → Option ℕ
above i by bh width p =
    if ltb 0 by
    then some (p - width)
    else if ltb 0 i
    then some (if i % 2 == 0 then p + width * (bh * 2 - 1) else p - width)
    else none
