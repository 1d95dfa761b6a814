-- ===== src/Work/Pace.antt =====
-- When a frame goes out: WorkSync::skip_frame, and what frame_release and work_ready_release of
-- entries/work_thread/vars.rs keep of a frame's time, for one screen.
use ntr_hr.Base.{
  ℕ, ◌+◌, ◌-◌, ◌*◌, ◌/◌, Bool, true, false, not, ◌&&◌, ◌||◌, List, [], ◌∷◌, Option, none, some, ltb,
  leb, ◌==◌, if◌then◌else◌,
}
use ntr_hr.Base.Word.{u32, sub32}

abbrev pub sysclock_arm11 : ℕ
sysclock_arm11 = 268111856

abbrev pub frame_time_max_f : ℕ
frame_time_max_f = 2

abbrev pub frame_time_factor : ℕ
frame_time_factor = 2

-- The entries of LAST_FRAME_TIMINGS, FRAME_TIMES and NO_SKIP_FRAMES.
pub record FrameClock : Type 0 where
  pub last_timing : ℕ
  pub frame_time : ℕ
  pub no_skip : Bool

-- RP_CONFIG's limits of the screen, and the allowance of thread_screen.
pub record Limits : Type 0 where
  pub fps_limit : ℕ
  pub no_skip_frame : ℕ
  pub allowance : ℕ

-- A captured picture: the system's tick, and how it compares to the one before.
pub record Captured : Type 0 where
  pub tick : ℕ
  pub format_changed : Bool
  pub frame_changed : Bool

-- RP_FPS_LIMIT_1 to RP_FPS_LIMIT_30, in the order of the C header.
unfoldable pub fps_of : ℕ → ℕ
fps_of k =
    if k == 1
    then 1
    else if k == 2
    then 2
    else if k == 3
    then 3
    else if k == 4
    then 4
    else if k == 5
    then 5
    else if k == 6
    then 6
    else if k == 7
    then 10
    else if k == 8
    then 12
    else if k == 9
    then 15
    else if k == 10
    then 20
    else if k == 11
    then 30
    else 60

unfoldable pub frame_time_limit : ℕ → ℕ
frame_time_limit k = let limit = sysclock_arm11 / fps_of k in limit - limit / 10

-- Whether the limit holds the frame back; `fps_limit as u8` is that of a small number.
unfoldable pub too_early : ℕ → ℕ → ℕ → Bool
too_early fps_limit prev frame_time =
    ltb 0 fps_limit
    && ltb (u32 (prev + u32 (frame_time * (frame_time_factor - 1))) / frame_time_factor)
        (frame_time_limit fps_limit)

-- The time since the last frame, if the frame goes out.
unfoldable pub skip_frame : Limits → Captured → FrameClock → Option ℕ × FrameClock
skip_frame l a s =
    let frame_time = sub32 (u32 a.tick) s.last_timing in
    let s' = if leb l.allowance frame_time then record s { no_skip = true } else s in
    if too_early l.fps_limit s.frame_time frame_time
    then (none, s)
    else if ltb 0 l.no_skip_frame
    then (some frame_time, s)
    else if not s'.no_skip && (not a.format_changed && not a.frame_changed)
    then (none, s')
    else (some frame_time, s')

-- The average that the exchange puts in place of `cur`.
unfoldable pub average_time : ℕ → ℕ → ℕ
average_time cur frame_time =
    if ltb frame_time (cur / frame_time_max_f) || ltb cur (frame_time / frame_time_max_f)
    then frame_time
    else u32 (u32 (cur * (frame_time_factor - 1)) + frame_time) / frame_time_factor

-- The stores of frame_release and work_ready_release, where neither gives up.
unfoldable pub frame_release : ℕ → ℕ → FrameClock → FrameClock
frame_release timing frame_time s = record {
  last_timing = timing;
  frame_time = average_time s.frame_time frame_time;
  no_skip = false;
}

unfoldable pub after_skip : Captured → Option ℕ × FrameClock → ℕ × FrameClock
after_skip a (none, s) = (0, s)
after_skip a (some frame_time, s) = (1, frame_release (u32 a.tick) frame_time s)

-- The frames that go out of those captured, counted, and the clock after them.
unfoldable pub frames : Limits → List Captured → FrameClock → ℕ × FrameClock
frames l [] s = (0, s)
frames l (a ∷ rest) s =
    let (one, s') = after_skip a (skip_frame l a s) in
    let (n, s'') = frames l rest s' in (one + n, s'')
