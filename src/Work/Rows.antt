-- ===== src/Work/Rows.antt =====
-- init_work of entries/work_thread/vars.rs: how the rows of a picture are shared out among the
-- encoder threads, and send_frame's cut of the captured picture.
use ntr_hr.Base.{
  ℕ, zero, suc, ◌+◌, ◌-◌, ◌*◌, ◌/◌, Bool, true, false, not, ◌&&◌, List, min, ltb, ◌==◌,
  if◌then◌else◌, set, length, take, drop, get_or, replicate,
}
use ntr_hr.Base.Word.{u16, u32, sub32}
use ntr_hr.Ranged.Index.{prev_wrapped_n}
use ntr_hr.Lossless.Format.{Downsample, whole, checker, even_odd, quarter, downsample_factor}
use ntr_hr.Work.Picture.{JpegScreen, TopScreenWidth, rp_screen_height, pitch}

abbrev pub core_count_max : ℕ
core_count_max = 3

abbrev pub lossless_block_size : ℕ
lossless_block_size = 16

-- `last_restart_range`, from EncoderShared::init.
unfoldable pub last_restart_range : Bool → ℕ
last_restart_range delta_prog = if delta_prog then 64 else 32

-- LAST_ROW_LAST_N and LAST_ROW_LAST_W.
pub record LastRow : Type 0 where
  pub n : ℕ
  pub w : ℕ

unfoldable pub init : LastRow
unfolding prev_wrapped_n
init = record { n = 0; w = prev_wrapped_n 0 1 0 }

-- The value that the exchange puts in place of `curr`.
unfoldable pub next_n : Bool → ℕ → ℕ → ℕ → ℕ
next_n t_last range other curr =
    if t_last
    then (if ltb curr (sub32 range other) then u32 (curr + other) else range)
    else if ltb 1 curr
    then curr - 1
    else 1

pub record Split : Type 0 where
  pub v_adjusted : ℕ
  pub v_last_adjusted : ℕ
  pub last_n : ℕ

-- `curr` is the value that the last try of the exchange found.
unfoldable pub split_rows : (core_count mcu_rows range : ℕ) → Bool → ℕ → Split
split_rows core_count mcu_rows range t_last curr =
    let other = core_count - 1 in
    let n = u32 (mcu_rows + core_count - 1) / core_count in
    let n_last = sub32 mcu_rows (u32 (n * other)) in
    let next = next_n t_last range other curr in
    let rows_last = u32 (u32 (n_last * next) + range - 1) / range in
    let rows = sub32 mcu_rows rows_last / other in
    if ltb 0 curr && ltb 1 core_count
    then record {
      v_adjusted = rows;
      v_last_adjusted = sub32 mcu_rows (u32 (rows * other));
      last_n = next;
    }
    else record { v_adjusted = n; v_last_adjusted = n_last; last_n = range }

-- The loop over the threads from `j` on.
unfoldable pub set_starts : ℕ → ℕ → ℕ → List ℕ → List ℕ
set_starts zero j v starts = starts
set_starts (suc k) j v starts = set_starts k (j + 1) v (set starts j (u32 (v * j)))

unfoldable pub set_counts : ℕ → ℕ → ℕ → ℕ → ℕ → List ℕ → List ℕ
set_counts zero j last v v_last counts = counts
set_counts (suc k) j last v v_last counts =
    set_counts k (j + 1) last v v_last (set counts j (if j == last then v_last else v))

pub record WorkRows : Type 0 where
  pub split : Split
  pub i_start : List ℕ
  pub i_count : List ℕ
  pub restart_interval : ℕ
  pub even_odd : Bool
  pub encode_even_odd : Bool

abbrev pub alternates : Downsample → Bool
alternates checker = true
alternates even_odd = true
alternates whole = false
alternates quarter = false

unfoldable pub jpeg_dims : Downsample → JpegScreen → ℕ → ℕ → ℕ × ℕ
jpeg_dims checker screen checker_per_row checker_rows = (checker_per_row, checker_rows)
jpeg_dims whole screen checker_per_row checker_rows = (screen.mcus_per_row, screen.mcu_rows)
jpeg_dims even_odd screen checker_per_row checker_rows = (screen.mcus_per_row, screen.mcu_rows)
jpeg_dims quarter screen checker_per_row checker_rows = (screen.mcus_per_row, screen.mcu_rows)

-- The MCUs in a row, and the rows that are shared out.
unfoldable pub mcu_dims : Bool → Downsample → TopScreenWidth → Bool → JpegScreen → ℕ → ℕ → ℕ × ℕ
mcu_dims lossless d wide is_top screen checker_per_row checker_rows =
    if lossless
    then (1, rp_screen_height wide is_top / lossless_block_size)
    else jpeg_dims d screen checker_per_row checker_rows

-- `w` is the work's index, and `flag` the screen's entry of ENCODE_EVEN_ODD.
unfoldable pub init_work :
    (core_count mcus_per_row mcu_rows range w : ℕ) → Downsample → Bool → LastRow → WorkRows
init_work core_count mcus_per_row mcu_rows range w d flag l =
    let s = split_rows core_count mcu_rows range (l.w == prev_wrapped_n 0 1 w) l.n in
    record {
      split = s;
      i_start = set_starts core_count 0 s.v_adjusted (replicate core_count_max 0);
      i_count =
          set_counts core_count 0 (core_count - 1) s.v_adjusted s.v_last_adjusted
            (replicate core_count_max 0);
      restart_interval = u16 (s.v_adjusted * mcus_per_row);
      even_odd = flag;
      encode_even_odd = if alternates d then not flag else flag;
    }

-- The first byte and the number of bytes of thread `t` in send_frame, for all but the checker.
unfoldable pub scaled : Downsample → Bool → ℕ → ℕ
scaled quarter lossless i = if lossless then i else u32 (i * downsample_factor)
scaled whole lossless i = i
scaled even_odd lossless i = i
scaled checker lossless i = i

unfoldable pub send_frame_src :
    {A : Type 0}
    → (format : ℕ) (d : Downsample) (lossless : Bool) (mcu_col_size : ℕ) → WorkRows
    → (t : ℕ) → List A
    → List A
send_frame_src format d lossless mcu_col_size r t src =
    let i_start = scaled d lossless (get_or r.i_start t 0) in
    let i_count = scaled d lossless (get_or r.i_count t 0) in
    let mcu_size = if lossless then lossless_block_size else mcu_col_size in
    let j_start = mcu_size * pitch format * i_start in
    let j_count = mcu_size * pitch format * i_count in
    take (min (j_start + j_count) (length src) - j_start) (drop j_start src)
