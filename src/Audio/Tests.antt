-- ===== src/Audio/Tests.antt =====
-- A ring whose indices are about to wrap, and one captured frame.
use ntr_hr.Base.{
  some, false, ◌∙◌, ◌⊎◌, ℕ, ◌+◌, ◌-◌, ◌^◌, ◌≤◌, ◌≡◌, refl, true, List, [], ◌∷◌, ◌++◌, length, leb,
  if◌then◌else◌, arith, replicate, length-replicate,
}
use ntr_hr.Base.Word.{u8}
use ntr_hr.Base.Memory.{Memory, slice, store}
use ntr_hr.Audio.Packed.{IsReliable, reliable_round-IsReliable}
use ntr_hr.Audio.Reliable.{Staging, Reliable, reliable_round}
use ntr_hr.Audio.Ring.{
  AudioWorkArea, audio_enqueue, drain_audio, slot, is_full, write_slot, publish, release,
}
use ntr_hr.Audio.Queue.{IsRing, queue, packets, audio_enqueue-queue, drain_audio-queue}
use ntr_hr.Audio.Interleave.{
  waiting, outside, polling, given, dropped, system, load, copy, store_tail, enter, find, send,
  pass_over, store_head, leave, Reachable, start, next,
}
use ntr_hr.Audio.Pending.{pending, packets_in, sent_in}
use ntr_hr.Audio.Delivery.{sent_in_order}
use ntr_hr.Audio.Capture.{Mix, Capture, newer_region, frame_diff, packet_seq, capture_round}
use ntr_hr.Audio.Frames.{
  IsStaged, older, fresh_fc, fresh_mix, capture_round-Staged, capture_round-repeats,
}

abbrev packet : List ℕ
packet = 7 ∷ 8 ∷ []

-- One packet waits, in the last slot.
abbrev ring : AudioWorkArea
ring = record { bufs = λ i. 9 ∷ []; head = 2 ^ 32 - 1; tail = 0 }

ring-IsRing : IsRing ring
ring-IsRing = record { head_word = omega arith; tail_word = omega arith; bounded = omega arith }

wraps : queue (audio_enqueue packet ring) ≡ (9 ∷ []) ∷ packet ∷ []
unfolding queue packets audio_enqueue is_full publish write_slot slot
wraps = refl

audio_enqueue-queue_example :
    IsRing (audio_enqueue packet ring)
    × (queue (audio_enqueue packet ring)
        ≡ (if leb 32 (length (queue ring)) then queue ring else queue ring ++ packet ∷ []))
audio_enqueue-queue_example = audio_enqueue-queue packet ring ring-IsRing

ring_fits : length (queue ring) ≤ 32
unfolding queue packets
ring_fits = omega arith

drain_audio-queue_example :
    let (sent, w') = drain_audio 32 true ring in
    (sent ≡ (if true then queue ring else [])) × (queue w' ≡ []) × IsRing w'
drain_audio-queue_example = drain_audio-queue 32 true ring ring-IsRing ring_fits

abbrev empty : AudioWorkArea
empty = record { bufs = λ i. []; head = 0; tail = 0 }

-- A packet is published, and sent by a call that finds the session alive; a second one is published.
abbrev one_in : AudioWorkArea
one_in = publish 0 (write_slot 0 packet empty)

abbrev one_out : AudioWorkArea
one_out = release 0 one_in

abbrev two_in : AudioWorkArea
two_in = publish 1 (write_slot 1 (9 ∷ []) one_out)

first_published : Reachable (system one_in waiting outside (packet ∷ []) [] true)
unfolding write_slot is_full
first_published =
    next (next (next (start {w = empty} refl refl) (load packet)) (copy refl)) store_tail

first_sent : Reachable (system one_out waiting outside (packet ∷ []) (given packet ∷ []) true)
unfolding write_slot publish release slot
first_sent =
    let called = next first_published (enter true) in
    let there = next called (find (λ e. omega (arith, e))) in
    next (next (next there send) store_head) (leave refl)

second_published :
    Reachable (system two_in waiting outside (packet ∷ (9 ∷ []) ∷ []) (given packet ∷ []) true)
unfolding write_slot publish release is_full
second_published = next (next (next first_sent (load (9 ∷ []))) (copy refl)) store_tail

-- The next call finds the session dead, and drops it.
second_dropped : Reachable (
    system
      (release 1 two_in)
      waiting
      (polling false)
      (packet ∷ (9 ∷ []) ∷ [])
      (given packet ∷ dropped (9 ∷ []) ∷ [])
      false)
unfolding write_slot publish release slot
second_dropped =
    let called = next second_published (enter false) in
    let there = next called (find (λ e. omega (arith, e))) in next (next there pass_over) store_head

sent_in_order_example :
    (packets_in (given packet ∷ []) ++ pending outside two_in ≡ packet ∷ (9 ∷ []) ∷ [])
    × (length (queue two_in) ≤ 32)
    × ((true ≡ false) ⊎ (sent_in (given packet ∷ []) ≡ packets_in (given packet ∷ [])))
sent_in_order_example = sent_in_order second_published

-- A counter that wraps, with the fresh frame in the second region.
abbrev mix : Mix
mix = record { fc0 = 65535; fc1 = 0; mix0 = replicate 640 1; mix1 = replicate 640 2 }

abbrev staging : Memory
staging = store (λ q. 0) 2 4

abbrev capture : Capture
capture = record { staging = staging; seq = 255; last_fc = 65535; have_last = true; work = ring }

staged : IsStaged staging (slice staging 644 640)
staged = record { flags = refl; kind = refl; format = refl; held = refl }

fresh : (fresh_mix mix ≡ replicate 640 2) × (fresh_fc mix ≡ 0)
unfolding newer_region
fresh = (refl, refl)

capture_round-Staged_example :
    let s' = capture_round mix capture in
    let diff = frame_diff (fresh_fc mix) capture in
    IsStaged s'.staging (fresh_mix mix)
    × (s'.work
        ≡ audio_enqueue
            ((packet_seq 255 diff ∷ 0 ∷ 4 ∷ 0 ∷ [])
              ++ older diff (slice staging 644 640)
              ++ fresh_mix mix)
            ring)
    × (s'.last_fc ≡ fresh_fc mix)
    × (s'.seq ≡ u8 (255 + 1))
capture_round-Staged_example =
    capture_round-Staged mix capture staged (rw fresh.0 (length-replicate {A = ℕ} 640 2))
      (rw fresh.1 (omega arith)) (omega arith) (λ _ e. omega (arith, e, fresh.1))

-- The counter a frame after the next, and the one behind it.
abbrev gap_mix : Mix
gap_mix = record { fc0 = 1; fc1 = 0; mix0 = replicate 640 1; mix1 = replicate 640 2 }

abbrev next_mix : Mix
next_mix = record { fc0 = 1; fc1 = 2; mix0 = replicate 640 1; mix1 = replicate 640 3 }

gap_fresh : (fresh_fc gap_mix ≡ 1) × (fresh_fc next_mix ≡ 2)
unfolding newer_region
gap_fresh = (refl, refl)

capture_round-repeats_example :
    let s1 = capture_round gap_mix capture in
    let s2 = capture_round next_mix s1 in
    (s1.work ≡ audio_enqueue (slice s1.staging 0 1284) capture.work)
    × (s2.work ≡ audio_enqueue (slice s2.staging 0 1284) s1.work)
    × (s2.staging 0 ≡ s1.staging 0)
capture_round-repeats_example =
    capture_round-repeats gap_mix next_mix capture refl (omega arith) (gap_fresh.0 ∙ omega arith)
      (gap_fresh.1 ∙ omega arith)

-- A frame is staged, and the mix has advanced by one.
abbrev staging_one : Staging
staging_one = record { count = 1; reprime = false; body = replicate 640 1 }

abbrev reliable : Reliable
reliable = record {
  staging = some staging_one;
  last_fc = 65535;
  have_last = true;
  mallocs = [];
  accepts = true ∷ [];
  queued = [];
  ended = false;
}

reliable_round-IsReliable_example : IsReliable (reliable_round mix reliable)
reliable_round-IsReliable_example =
    reliable_round-IsReliable mix reliable (rw fresh.0 (length-replicate {A = ℕ} 640 2)) refl
      (λ e. (omega arith, length-replicate {A = ℕ} 640 1), tt)
