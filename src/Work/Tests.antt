-- ===== src/Work/Tests.antt =====
-- Frames of one to three threads.
use ntr_hr.Base.{
  ◌+◌, ◌-◌, ◌*◌, ◌≡◌, ◌≤◌, refl, true, false, none, some, Option, [], ◌∷◌, arith, List, ℕ,
  replicate, length-replicate, length,
}
use ntr_hr.Sink.State.{Release, released, timeout}
use ntr_hr.Lossless.Format.{whole}
use ntr_hr.Work.Picture.{left, both, src_len, pitch, bpp, rp_screen_height, set_comp_infos}
use ntr_hr.Work.Rows.{init_work, mcu_dims, last_restart_range, LastRow}
use ntr_hr.Work.Whole.{parts_from, init_work-parts}
use ntr_hr.Work.Pace.{FrameClock, Limits, Captured, frames, frame_time_limit, sysclock_arm11}
use ntr_hr.Work.Rate.{end, frames_rate}
use ntr_hr.Work.Terms.{TermInput, jpeg_ret, send_term_dsts, quality_of}
use ntr_hr.Work.Received.{Fits}
use ntr_hr.Work.Sent.{IsReady, IsReceived, send_term_dsts-IsReceived}
use ntr_hr.Work.Gate.{
  Gate, Reach, here, next, call, swap_first, release, capture_first, finish_last, setup, called,
  closing,
}
use ntr_hr.Work.Census.{total, is_away}
use ntr_hr.Work.Alone.{IsHeld, setup_alone, closing_last}
use ntr_hr.Work.Complete.{IsCompleted, frame_completes}

-- A picture of the bottom screen, in a format of two bytes.
picture : List ℕ
picture = replicate 153600 0

length-picture : length picture ≡ src_len 2 left false
unfolding picture src_len pitch bpp rp_screen_height
length-picture = length-replicate {A = ℕ} 153600 0

abbrev last_row : LastRow
last_row = record { n = 30; w = 1 }

init_work-parts_example :
    (let screen = set_comp_infos whole left false 0 in
      let dims = mcu_dims false whole left false screen 8 30 in
      parts_from 3 2 whole false screen.mcu_col_size
        (init_work 3 dims.0 dims.1 (last_restart_range false) 0 whole false last_row)
        0
        picture
      ≡ picture)
unfolding last_restart_range
init_work-parts_example =
    init_work-parts 3 false false whole left false 0 2 8 30 0 false last_row picture (omega arith)
      (omega arith) (λ e. cc) (omega arith) length-picture

abbrev clock : FrameClock
clock = record { last_timing = 1000; frame_time = 9000000; no_skip = false }

abbrev limits : Limits
limits = record { fps_limit = 11; no_skip_frame = 0; allowance = sysclock_arm11 }

abbrev pictures : List Captured
pictures =
    record { tick = 4000000; format_changed = false; frame_changed = true }
    ∷ record { tick = 9001000; format_changed = false; frame_changed = true }
    ∷ []

frames_rate_example :
    (frames limits pictures clock).0 * frame_time_limit 11
    ≤ (end 1000 pictures - 1000) + (9000000 - frame_time_limit 11)
frames_rate_example =
    frames_rate limits pictures clock 1000 1000 (omega arith) (omega arith) refl (omega arith)
      (omega arith) (omega arith) (omega arith)

abbrev input : TermInput
input = record {
  w = 1;
  packet_data_size = 26;
  audio_kcp = true;
  info = record {
    is_top = true;
    core_count = 2;
    v_adjusted = 9;
    v_last_adjusted = 7;
    even_odd = false;
  };
  downsample = 2;
  chroma_ss = 1;
  delta_prog = false;
  wide = both;
  both_eyes = true;
  core_count = 2;
}

abbrev rests : List (List ℕ)
rests = (1 ∷ 2 ∷ 3 ∷ []) ∷ (4 ∷ 5 ∷ []) ∷ []

abbrev dsts : List (Option (List ℕ))
dsts = some (1 ∷ 2 ∷ 3 ∷ []) ∷ some (4 ∷ 5 ∷ []) ∷ none ∷ []

abbrev answers : List Release
answers = released ∷ timeout ∷ released ∷ released ∷ released ∷ []

input-Fits : Fits input (jpeg_ret 75) rests
unfolding quality_of
input-Fits = record {
  downsample = omega arith;
  chroma_ss = omega arith;
  cores = omega arith;
  quality = omega arith;
  same = refl;
  each = refl;
  sizes = omega arith;
}

input-IsReady : IsReady input dsts rests 4 answers
input-IsReady = record {
  some_thread = omega arith;
  cores = omega arith;
  there = (refl, (refl, tt));
  packets = omega arith;
  large = omega arith;
  buffers = omega arith;
  accepts = tt;
}

send_term_dsts-IsReceived_example :
    IsReceived input
      (jpeg_ret 75)
      dsts
      rests
      (send_term_dsts input (jpeg_ret 75) dsts true 4 answers)
send_term_dsts-IsReceived_example =
    send_term_dsts-IsReceived input (jpeg_ret 75) dsts rests 3 answers input-Fits input-IsReady

-- Of two threads the first has the set-up.
two_threads : (g : Gate) × Reach 2 g × (g.threads ≡ setup ∷ called false ∷ [])
two_threads = (_, next (next here (call refl)) (swap_first 0 false refl refl), refl)

setup_alone_example : IsHeld (called false)
unfolding two_threads
setup_alone_example =
    setup_alone two_threads.1 0 1 (called false) refl refl (λ e. absurd (omega arith))

-- One thread goes through a frame up to its end.
one_thread : (g : Gate) × Reach 1 g × (g.threads ≡ closing ∷ [])
one_thread = (
  _,
  next
      (next (next (next (next here (call refl)) (swap_first 0 false refl refl)) (release 0 refl))
        (capture_first 0 refl refl))
      (finish_last 0 refl refl),
  refl,
)

closing_last_example :
    (one_thread.0.captures ≡ 1)
    × (total is_away one_thread.0.threads + 1 ≡ length one_thread.0.threads)
    × (one_thread.0.done ≡ 0)
unfolding one_thread
closing_last_example = closing_last one_thread.1 0 refl

frame_completes_example : IsCompleted two_threads.0
unfolding two_threads
frame_completes_example = frame_completes (omega arith) two_threads.1
