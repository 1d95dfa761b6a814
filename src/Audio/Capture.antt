-- ===== src/Audio/Capture.antt =====
-- thread_audio: one round of its loop, from the DSP's final mix to the ring. `Mix` is what the
-- round reads of the DSP's two regions: their frame counters and final samples.
use ntr_hr.Base.{ℕ, ◌+◌, ◌-◌, ◌*◌, Bool, true, List, ◌&&◌, not, ◌==◌, ltb, if◌then◌else◌, min}
use ntr_hr.Base.Word.{u8, sub16}
use ntr_hr.Base.Memory.{Memory, store, copy, slice}
use ntr_hr.Base.{replicate}
use ntr_hr.Consts.{data_hdr_size}
use ntr_hr.Audio.Ring.{AudioWorkArea, audio_enqueue}

abbrev pub dsp_region0 : ℕ
dsp_region0 = 0x1ff50000 + 0x80000000

abbrev pub dsp_region1 : ℕ
dsp_region1 = 0x1ff70000 + 0x80000000

abbrev pub audio_frame_bytes : ℕ
audio_frame_bytes = 640

abbrev pub audio_redundancy : ℕ
audio_redundancy = 2

abbrev pub audio_pkt_size : ℕ
audio_pkt_size = data_hdr_size + audio_redundancy * audio_frame_bytes

abbrev pub seq_gap_safe : ℕ
seq_gap_safe = 32

pub record Mix : Type 0 where
  pub fc0 : ℕ
  pub fc1 : ℕ
  pub mix0 : List ℕ
  pub mix1 : List ℕ

-- `staging` from address 0 on.
pub record Capture : Type 0 where
  pub staging : Memory
  pub seq : ℕ
  pub last_fc : ℕ
  pub have_last : Bool
  pub work : AudioWorkArea

unfoldable pub newer_region : ℕ → ℕ → ℕ
newer_region fc0 fc1 =
    if not (fc1 == fc0) && ltb (sub16 fc1 fc0) 0x8000 then dsp_region1 else dsp_region0

abbrev pub newest : ℕ
newest = data_hdr_size + (audio_redundancy - 1) * audio_frame_bytes

-- The oldest frames are dropped.
unfoldable pub shift_frames : ℕ → Memory → Memory
shift_frames fc_diff m =
    if ltb fc_diff audio_redundancy
    then copy m data_hdr_size (
        slice m (data_hdr_size + audio_frame_bytes * fc_diff)
          ((audio_redundancy - fc_diff) * audio_frame_bytes))
    else m

-- Frames that were missed are silent.
unfoldable pub silence : ℕ → Memory → Memory
silence fc_gap m =
    if ltb 0 fc_gap
    then copy m (newest - audio_frame_bytes * fc_gap) (replicate (audio_frame_bytes * fc_gap) 0)
    else m

unfoldable pub frame_diff : ℕ → Capture → ℕ
frame_diff fc s = if s.have_last then sub16 fc s.last_fc else 1

-- The number in hdr[0].
unfoldable pub packet_seq : ℕ → ℕ → ℕ
packet_seq seq fc_diff =
    u8 (seq + (if ltb fc_diff seq_gap_safe then min fc_diff audio_redundancy - 1 else 127))

unfoldable pub fill_staging : ℕ → ℕ → List ℕ → Memory → Memory
fill_staging seq fc_diff frame m =
    store (copy (silence (min fc_diff audio_redundancy - 1) (shift_frames fc_diff m)) newest frame)
      0 (packet_seq seq fc_diff)

unfoldable pub take_frame : ℕ → List ℕ → Capture → Capture
take_frame fc frame s =
    let m = fill_staging s.seq (frame_diff fc s) frame s.staging in
    record s {
      staging = m;
      seq = u8 (s.seq + 1);
      last_fc = fc;
      have_last = true;
      work = audio_enqueue (slice m 0 audio_pkt_size) s.work;
    }

unfoldable pub capture_round : Mix → Capture → Capture
capture_round d s =
    let src = newer_region d.fc0 d.fc1 in
    let fc = if src == dsp_region1 then d.fc1 else d.fc0 in
    if s.have_last && fc == s.last_fc
    then s
    else take_frame fc (if src == dsp_region1 then d.mix1 else d.mix0) s
