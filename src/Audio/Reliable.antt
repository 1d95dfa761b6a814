-- ===== src/Audio/Reliable.antt =====
-- thread_audio_kcp: one round of its loop while the session is ready. `body` is what stands in
-- the staging buffer behind its two header words. The answers of rp_audio_data_buf_malloc (a
-- buffer or none) and of audio_enqueue_kcp are lists in the state.
use ntr_hr.Base.{
  ℕ, ◌+◌, ◌-◌, ◌*◌, ◌^◌, Bool, true, false, ◌&&◌, ◌||◌, List, [], ◌∷◌, ◌++◌, Option, none, some,
  bit_and, bit_or, ◌==◌, ltb, if◌then◌else◌, length, replicate,
}
use ntr_hr.Base.Word.{u16, sub16}
use ntr_hr.Consts.{arq_rp_data_size}
use ntr_hr.Sink.Send.{le16}
use ntr_hr.Audio.Capture.{Mix, newer_region, dsp_region1, audio_frame_bytes}

pub record Staging : Type 0 where
  pub count : ℕ
  pub reprime : Bool
  pub body : List ℕ

pub record Reliable : Type 0 where
  pub staging : Option Staging
  pub last_fc : ℕ
  pub have_last : Bool
  pub mallocs : List Bool
  pub accepts : List Bool
  -- the packets queued, the last one first, and whether the loop has ended
  pub queued : List (List ℕ)
  pub ended : Bool

-- The second header word.
unfoldable pub audio_hdr : ℕ → Bool → ℕ
audio_hdr count reprime =
    bit_or (bit_or (bit_or (2 ^ 15) (2 ^ 14)) (u16 (bit_and count 3 * 2 ^ 12)))
      ((if reprime then 1 else 0) * 2 ^ 11)

unfoldable pub audio_packet : Staging → List ℕ
audio_packet st =
    le16 (2 ^ 15)
    ++ le16 (audio_hdr st.count st.reprime)
    ++ st.body
    ++ replicate (arq_rp_data_size - 4 - length st.body) 0

unfoldable pub add_frame : Bool → List ℕ → Staging → Staging
add_frame gap frame st = record {
  count = u16 (st.count + 1);
  reprime = st.reprime || gap;
  body = st.body ++ frame;
}

-- audio_enqueue_kcp with its answer; the loop ends where it fails.
unfoldable pub queue_packet : List Bool → Staging → Reliable → Reliable
queue_packet [] st s = record s { ended = true }
queue_packet (false ∷ rest) st s = record s { accepts = rest; ended = true }
queue_packet (true ∷ rest) st s = record s {
  accepts = rest;
  queued = audio_packet st ∷ s.queued;
  staging = none;
}

unfoldable pub is_filled : Staging → Bool
is_filled st = ltb (arq_rp_data_size - 4 - length st.body) audio_frame_bytes

-- The fresh frame, on the staging buffer `st`. A gap first sends what was staged before it.
unfoldable pub stage_frame : ℕ → List ℕ → Staging → Reliable → Reliable
stage_frame fc frame st s =
    let gap = ltb 1 (if s.have_last then sub16 fc s.last_fc else 1) in
    let st' = add_frame gap frame st in
    let s' = record s { staging = some st'; last_fc = fc; have_last = true } in
    if gap && ltb 0 st.count
    then queue_packet s.accepts st (record s { staging = some st })
    else if is_filled st'
    then queue_packet s.accepts st' s'
    else s'

unfoldable pub take_staging : List Bool → Reliable → Option Staging × Reliable
take_staging [] s = (none, record s { ended = true })
take_staging (false ∷ ms) s = (none, record s { mallocs = ms; ended = true })
take_staging (true ∷ ms) s =
    (some (record { count = 0; reprime = false; body = [] }), record s { mallocs = ms })

unfoldable pub get_staging : Option Staging → Reliable → Option Staging × Reliable
get_staging none s = take_staging s.mallocs s
get_staging (some st) s = (some st, s)

unfoldable pub staged_round : Mix → Option Staging × Reliable → Reliable
staged_round d (none, s) = s
staged_round d (some st, s) =
    let src = newer_region d.fc0 d.fc1 in
    let fc = if src == dsp_region1 then d.fc1 else d.fc0 in
    if s.have_last && fc == s.last_fc
    then record s { staging = some st }
    else stage_frame fc (if src == dsp_region1 then d.mix1 else d.mix0) st s

unfoldable pub reliable_round : Mix → Reliable → Reliable
reliable_round d s = staged_round d (get_staging s.staging s)
