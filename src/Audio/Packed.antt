-- ===== src/Audio/Packed.antt =====
-- The packets of the reliable audio stream.
use ntr_hr.Base.{
  ℕ, ◌+◌, ◌-◌, ◌*◌, ◌/◌, ◌%◌, ◌^◌, ◌≤◌, ◌<◌, ◌≡◌, refl, Bool, true, false, ◌&&◌, List, [], ◌∷◌,
  ◌++◌, Option, none, some, ◌==◌, ltb, if◌then◌else◌, length, length-append, replicate,
  length-replicate, All, arith, Bool-cases, inl, inr, and_low, bit_or, bit_and, or_disjoint,
}
use ntr_hr.Base.Word.{u16, sub16}
use ntr_hr.Sink.Send.{le16}
use ntr_hr.Audio.Capture.{Mix}
use ntr_hr.Audio.Frames.{fresh_mix, fresh_fc}
use ntr_hr.Audio.Reliable.{
  Staging, Reliable, audio_hdr, audio_packet, add_frame, queue_packet, is_filled, stage_frame,
  take_staging, get_staging, staged_round, reliable_round,
}

-- A receiver reads the number of frames and the flag for a gap back from the header.
pub audio_hdr_fields :
    (count : ℕ) (reprime : Bool)
    → count < 4
    → (audio_hdr count reprime / 2 ^ 14 ≡ 3)
      × (audio_hdr count reprime / 2 ^ 12 % 4 ≡ count)
      × (audio_hdr count reprime / 2 ^ 11 % 2 ≡ (if reprime then 1 else 0))
unfolding audio_hdr
audio_hdr_fields count reprime h =
    let low : u16 (bit_and count 3 * 2 ^ 12) ≡ count * 2 ^ 12 =
      rw (and_low 2 count) (omega arith) in
    let two : bit_or (3 * 2 ^ 14) (count * 2 ^ 12) ≡ 3 * 2 ^ 14 + count * 2 ^ 12 =
      or_disjoint 14 3 (count * 2 ^ 12) (omega arith) in
    let e : 3 * 2 ^ 14 + count * 2 ^ 12 ≡ (12 + count) * 2 ^ 12 = omega arith in
    let all =
      or_disjoint 12 (12 + count) ((if reprime then 1 else 0) * 2 ^ 11)
        (ground (arith, Bool-cases reprime)) in
    rw (low, two, e, all) (ground (arith, Bool-cases reprime))

-- Between rounds at most one frame is staged.
abbrev pub IsStaging : Option Staging → Type 0
IsStaging none = Unit
IsStaging (some st) = (st.count ≤ 1) × (length st.body ≡ 640 * st.count)

abbrev pub HasPacketSize : List ℕ → Type 0
HasPacketSize p = length p ≡ 1444

abbrev pub IsReliable : Reliable → Type 0
IsReliable s = (s.ended ≡ false → IsStaging s.staging) × All HasPacketSize s.queued

length-audio_packet : (st : Staging) → length st.body ≤ 1440 → length (audio_packet st) ≡ 1444
unfolding audio_packet
length-audio_packet st h =
    let n = 1440 - length st.body in
    let head = le16 (2 ^ 15) ++ le16 (audio_hdr st.count st.reprime) in
    omega (
      arith,
      length-append (head ++ st.body) (replicate n 0),
      length-append head st.body,
      length-replicate {A = ℕ} n 0,
    )

queue_packet-IsReliable :
    (answers : List Bool) (st : Staging) (s : Reliable)
    → length st.body ≤ 1440
    → All HasPacketSize s.queued
    → IsReliable (queue_packet answers st s)
unfolding queue_packet
queue_packet-IsReliable [] st s h vs = (λ e. absurd (ground (arith, e)), vs)
queue_packet-IsReliable (false ∷ rest) st s h vs = (λ e. absurd (ground (arith, e)), vs)
queue_packet-IsReliable (true ∷ rest) st s h vs = (λ e. tt, (length-audio_packet st h, vs))

stage_frame-IsReliable :
    (fc : ℕ) (frame : List ℕ) (st : Staging) (s : Reliable)
    → length frame ≡ 640
    → IsStaging (some st)
    → All HasPacketSize s.queued
    → IsReliable (stage_frame fc frame st s)
unfolding stage_frame
stage_frame-IsReliable fc frame st s n (few, sized) vs =
    let gap = ltb 1 (if s.have_last then sub16 fc s.last_fc else 1) in
    let st' = add_frame gap frame st in
    let grown : length st'.body ≡ length st.body + 640 =
      unfold add_frame in omega (arith, length-append st.body frame, n) in
    let counted : st'.count ≡ st.count + 1 = unfold add_frame in omega arith in
    elim (Bool-cases (gap && ltb 0 st.count)) [
      | inl p ↦
          rw p
            (queue_packet-IsReliable s.accepts st (record s { staging = some st }) (omega arith) vs)
      | inr p ↦ elim (Bool-cases (is_filled st')) [
        | inl q ↦
            rw (p, q)
              (queue_packet-IsReliable s.accepts st'
                (record s { staging = some st'; last_fc = fc; have_last = true }) (omega arith) vs)
        | inr q ↦
            let short : st.count ≡ 0 = unfold is_filled in ground (arith, q, grown) in
            rw (p, q) (λ e. (omega arith, omega (arith, grown, counted)), vs)
      ]
    ]

abbrev Ready : Option Staging × Reliable → Type 0
Ready (none, s) = (s.ended ≡ true) × All HasPacketSize s.queued
Ready (some st, s) = IsStaging (some st) × All HasPacketSize s.queued

take_staging-Ready :
    (answers : List Bool) (s : Reliable)
    → All HasPacketSize s.queued
    → Ready (take_staging answers s)
unfolding take_staging
take_staging-Ready [] s vs = (refl, vs)
take_staging-Ready (false ∷ rest) s vs = (refl, vs)
take_staging-Ready (true ∷ rest) s vs = ((omega arith, refl), vs)

get_staging-Ready :
    (o : Option Staging) (s : Reliable)
    → IsStaging o
    → All HasPacketSize s.queued
    → Ready (get_staging o s)
unfolding get_staging
get_staging-Ready none s v vs = take_staging-Ready s.mallocs s vs
get_staging-Ready (some st) s v vs = (v, vs)

staged_round-IsReliable :
    (d : Mix) (r : Option Staging × Reliable)
    → length (fresh_mix d) ≡ 640
    → Ready r
    → IsReliable (staged_round d r)
unfolding staged_round
staged_round-IsReliable d (none, s) n (over, vs) = (λ e. absurd (ground (arith, e, over)), vs)
staged_round-IsReliable d (some st, s) n (v, vs) =
    elim (Bool-cases (s.have_last && fresh_fc d == s.last_fc)) [
      | inl p ↦ rw p (λ e. v, vs)
      | inr p ↦ rw p (stage_frame-IsReliable (fresh_fc d) (fresh_mix d) st s n v vs)
    ]

-- A round of thread_audio_kcp whose frames have 640 bytes keeps at most one frame staged, with all
-- of its bytes, and every packet that it queues has the size of a reliable packet.
pub reliable_round-IsReliable :
    (d : Mix) (s : Reliable)
    → length (fresh_mix d) ≡ 640
    → s.ended ≡ false
    → IsReliable s
    → IsReliable (reliable_round d s)
unfolding reliable_round
reliable_round-IsReliable d s n runs (staged, vs) =
    staged_round-IsReliable d (get_staging s.staging s) n
      (get_staging-Ready s.staging s (staged runs) vs)
