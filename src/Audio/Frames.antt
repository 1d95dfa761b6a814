-- ===== src/Audio/Frames.antt =====
-- What a packet of the audio thread holds, and which of the two regions it is read from.
use ntr_hr.Base.{
  ℕ, ◌+◌, ◌-◌, ◌^◌, ◌<◌, ◌≡◌, ◌≢◌, refl, sym, ap, ap₂, ◌∙◌, true, false, List, [], ◌∷◌, ◌++◌, arith,
  length, ◌==◌, ltb, if◌then◌else◌, min, replicate, length-replicate, Bool-cases, inl, inr,
}
use ntr_hr.Base.Word.{u8, u16}
use ntr_hr.Base.Memory.{
  Memory, copy_outside, slice-copy_exact, copy, slice, slice-add, slice-copy_after,
  slice-store_before, length-slice,
}
use ntr_hr.Audio.Ring.{audio_enqueue}
use ntr_hr.Audio.Capture.{
  Mix, Capture, newer_region, dsp_region0, dsp_region1, shift_frames, silence, frame_diff,
  packet_seq, fill_staging, take_frame, capture_round, newest, audio_pkt_size,
}

-- The region that is ahead by fewer than half of the counter's values is the one read, also
-- where the 16-bit counter wraps.
pub newer_region_wraps :
    (fc d : ℕ)
    → fc < 2 ^ 16
    → 0 < d
    → d < 2 ^ 15
    → (newer_region fc (u16 (fc + d)) ≡ dsp_region1)
      × (newer_region (u16 (fc + d)) fc ≡ dsp_region0)
unfolding newer_region
newer_region_wraps fc d h pos small = (ground arith, ground arith)

-- The staging packet: the fixed header bytes, and the frame sent last.
pub record IsStaged (m : Memory) (last : List ℕ) : Type 0 where
  pub flags : m 1 ≡ 0
  pub kind : m 2 ≡ 4
  pub format : m 3 ≡ 0
  pub held : slice m newest 640 ≡ last

-- The frame before the newest one, in a packet `fc_diff` frames after the last.
abbrev pub older : ℕ → List ℕ → List ℕ
older fc_diff last = if fc_diff == 1 then last else replicate 640 0

older_kept :
    (m : Memory) (fc_diff : ℕ) (last : List ℕ)
    → 0 < fc_diff
    → slice m newest 640 ≡ last
    → slice (silence (min fc_diff 2 - 1) (shift_frames fc_diff m)) 4 640 ≡ older fc_diff last
unfolding silence shift_frames
older_kept m fc_diff last pos held = elim (Bool-cases (fc_diff == 1)) [
  | inl p ↦
      let e : fc_diff ≡ 1 = ground arith in
      rw e (slice-copy_exact m 4 640 (slice m newest 640) (length-slice m newest 640) ∙ held)
  | inr p ↦
      let few : ltb fc_diff 2 ≡ false = ground arith in
      let gap : min fc_diff 2 - 1 ≡ 1 = ground arith in
      rw (p, few, gap) (slice-copy_exact m 4 640 (replicate 640 0) (length-replicate {A = ℕ} 640 0))
]

silence-shift_low :
    (m : Memory) (fc_diff q : ℕ)
    → 0 < fc_diff
    → q < 4
    → silence (min fc_diff 2 - 1) (shift_frames fc_diff m) q ≡ m q
unfolding silence shift_frames
silence-shift_low m fc_diff q pos low = elim (Bool-cases (fc_diff == 1)) [
  | inl p ↦
      let e : fc_diff ≡ 1 = ground arith in rw e (copy_outside m 4 (slice m newest 640) q (inl low))
  | inr p ↦
      let few : ltb fc_diff 2 ≡ false = ground arith in
      let gap : min fc_diff 2 - 1 ≡ 1 = ground arith in
      rw (few, gap) (copy_outside m 4 (replicate 640 0) q (inl low))
]

fill_staging_low :
    (seq fc_diff : ℕ) (frame : List ℕ) (m : Memory) (q : ℕ)
    → 0 < fc_diff
    → 0 < q
    → q < 4
    → fill_staging seq fc_diff frame m q ≡ m q
unfolding fill_staging
fill_staging_low seq fc_diff frame m q pos high low =
    let k = silence (min fc_diff 2 - 1) (shift_frames fc_diff m) in
    ground (
      arith,
      copy_outside k newest frame q (inl (omega arith)),
      silence-shift_low m fc_diff q pos low,
    )

fill_staging_frames :
    (seq fc_diff : ℕ) (frame : List ℕ) (m : Memory) {last : List ℕ}
    → 0 < fc_diff
    → length frame ≡ 640
    → slice m newest 640 ≡ last
    → let m' = fill_staging seq fc_diff frame m in
      (slice m' 4 640 ≡ older fc_diff last) × (slice m' newest 640 ≡ frame)
unfolding fill_staging
fill_staging_frames seq fc_diff frame m {last} pos full held =
    let k = silence (min fc_diff 2 - 1) (shift_frames fc_diff m) in
    (
      slice-store_before (copy k newest frame) 0 (packet_seq seq fc_diff) 4 640 (omega arith)
          ∙ slice-copy_after k newest frame 4 640 (omega arith)
          ∙ older_kept m fc_diff last pos held,
      slice-store_before (copy k newest frame) 0 (packet_seq seq fc_diff) newest 640 (omega arith)
          ∙ slice-copy_exact k newest 640 frame full,
    )

slice_header : (m : Memory) → slice m 0 4 ≡ m 0 ∷ m 1 ∷ m 2 ∷ m 3 ∷ []
unfolding slice
slice_header m = refl

fill_staging_seq :
    (seq fc_diff : ℕ) (frame : List ℕ) (m : Memory)
    → fill_staging seq fc_diff frame m 0 ≡ packet_seq seq fc_diff
unfolding fill_staging
fill_staging_seq seq fc_diff frame m = refl

fill_staging-IsStaged :
    (seq fc_diff : ℕ) (frame : List ℕ) {m : Memory} {last : List ℕ}
    → 0 < fc_diff
    → length frame ≡ 640
    → IsStaged m last
    → let m' = fill_staging seq fc_diff frame m in
      IsStaged m' frame
      × (slice m' 0 1284 ≡ (packet_seq seq fc_diff ∷ 0 ∷ 4 ∷ 0 ∷ []) ++ older fc_diff last ++ frame)
fill_staging-IsStaged seq fc_diff frame {m} {last} pos full v =
    let m' = fill_staging seq fc_diff frame m in
    let (old, new) = fill_staging_frames seq fc_diff frame m pos full v.held in
    let low = fill_staging_low seq fc_diff frame m in
    let b1 = low 1 pos (omega arith) (omega arith) ∙ v.flags in
    let b2 = low 2 pos (omega arith) (omega arith) ∙ v.kind in
    let b3 = low 3 pos (omega arith) (omega arith) ∙ v.format in
    let top : slice m' 0 4 ≡ packet_seq seq fc_diff ∷ 0 ∷ 4 ∷ 0 ∷ [] =
      rw (slice_header m', fill_staging_seq seq fc_diff frame m, b1, b2, b3) refl in
    (
      record { flags = b1; kind = b2; format = b3; held = new },
      slice-add m' 0 4 1280 ∙ ap₂ ◌++◌ top (slice-add m' 4 640 640 ∙ ap₂ ◌++◌ old new),
    )

-- The fresh frame of a round.
abbrev pub fresh_fc : Mix → ℕ
fresh_fc d = if newer_region d.fc0 d.fc1 == dsp_region1 then d.fc1 else d.fc0

abbrev pub fresh_mix : Mix → List ℕ
fresh_mix d = if newer_region d.fc0 d.fc1 == dsp_region1 then d.mix1 else d.mix0

capture_round-eq-take_frame :
    (d : Mix) (s : Capture)
    → (s.have_last ≡ true → fresh_fc d ≢ s.last_fc)
    → capture_round d s ≡ take_frame (fresh_fc d) (fresh_mix d) s
unfolding capture_round
capture_round-eq-take_frame d s ne = elim (Bool-cases s.have_last) [
  | inr p ↦ rw p refl
  | inl p ↦ elim (Bool-cases (fresh_fc d == s.last_fc)) [
    | inl q ↦ absurd (ne p (ground arith))
    | inr q ↦ rw (p, q) refl
  ]
]

frame_diff_pos :
    (fc : ℕ) (s : Capture)
    → fc < 2 ^ 16
    → s.last_fc < 2 ^ 16
    → (s.have_last ≡ true → fc ≢ s.last_fc)
    → 0 < frame_diff fc s
unfolding frame_diff
frame_diff_pos fc s word last_word ne = elim (Bool-cases s.have_last) [
  | inr p ↦ rw p (omega arith)
  | inl p ↦ let different = ne p in rw p (omega (arith, different, word, last_word))
]

-- A round in which the mix has advanced enqueues one packet: its number, the fixed bytes, the
-- frame of the last packet (or silence where frames were missed in between) and the fresh frame;
-- the staging buffer is ready for the next round. The frames have 640 bytes, the counters 16 bits.
pub capture_round-Staged :
    (d : Mix) (s : Capture) {last : List ℕ}
    → IsStaged s.staging last
    → length (fresh_mix d) ≡ 640
    → fresh_fc d < 2 ^ 16
    → s.last_fc < 2 ^ 16
    → (s.have_last ≡ true → fresh_fc d ≢ s.last_fc)
    → let s' = capture_round d s in
      let diff = frame_diff (fresh_fc d) s in
      IsStaged s'.staging (fresh_mix d)
      × (s'.work
          ≡ audio_enqueue
              ((packet_seq s.seq diff ∷ 0 ∷ 4 ∷ 0 ∷ []) ++ older diff last ++ fresh_mix d)
              s.work)
      × (s'.last_fc ≡ fresh_fc d)
      × (s'.seq ≡ u8 (s.seq + 1))
unfolding take_frame
capture_round-Staged d s {last} v full word last_word ne =
    let pos = frame_diff_pos (fresh_fc d) s word last_word ne in
    let (staged, packet) =
      fill_staging-IsStaged s.seq (frame_diff (fresh_fc d) s) (fresh_mix d) pos full v in
    rw (capture_round-eq-take_frame d s ne)
      (staged, ap (λ p. audio_enqueue p s.work) packet, refl, refl)

take_frame_packet :
    (fc : ℕ) (frame : List ℕ) (s : Capture)
    → let s' = take_frame fc frame s in
      (s'.staging 0 ≡ packet_seq s.seq (frame_diff fc s))
      × (s'.work ≡ audio_enqueue (slice s'.staging 0 audio_pkt_size) s.work)
unfolding take_frame
take_frame_packet fc frame s = (fill_staging_seq s.seq (frame_diff fc s) frame s.staging, refl)

-- Where one frame was missed before a packet, it and the packet of the next frame carry the same
-- number: the two rounds enqueue one packet each, and their first bytes are equal. The counters
-- have 16 bits.
pub capture_round-repeats :
    (d d' : Mix) (s : Capture)
    → s.have_last ≡ true
    → s.last_fc < 2 ^ 16
    → fresh_fc d ≡ u16 (s.last_fc + 2)
    → fresh_fc d' ≡ u16 (s.last_fc + 3)
    → let s1 = capture_round d s in
      let s2 = capture_round d' s1 in
      (s1.work ≡ audio_enqueue (slice s1.staging 0 audio_pkt_size) s.work)
      × (s2.work ≡ audio_enqueue (slice s2.staging 0 audio_pkt_size) s1.work)
      × (s2.staging 0 ≡ s1.staging 0)
unfolding take_frame frame_diff packet_seq
capture_round-repeats d d' s have word gap step =
    let s1 = take_frame (fresh_fc d) (fresh_mix d) s in
    let one = capture_round-eq-take_frame d s (λ _ e. omega (arith, e, gap, word)) in
    let two : capture_round d' s1 ≡ take_frame (fresh_fc d') (fresh_mix d') s1 =
      capture_round-eq-take_frame d' s1 (λ _ e. omega (arith, e, gap, step, word)) in
    let (seq1, work1) = take_frame_packet (fresh_fc d) (fresh_mix d) s in
    let (seq2, work2) = take_frame_packet (fresh_fc d') (fresh_mix d') s1 in
    let diff1 : frame_diff (fresh_fc d) s ≡ 2 = rw have (omega (arith, gap, word)) in
    let diff2 : frame_diff (fresh_fc d') s1 ≡ 1 = omega (arith, gap, step, word) in
    let same : packet_seq (u8 (s.seq + 1)) 1 ≡ packet_seq s.seq 2 = omega arith in
    rw (one, two)
      (
        work1,
        work2,
        seq2
            ∙ ap (packet_seq (u8 (s.seq + 1))) diff2
            ∙ same
            ∙ sym (seq1 ∙ ap (packet_seq s.seq) diff1),
      )
