-- ===== src/Audio/Ring.antt =====
-- The ring between the audio thread and the nwm thread: audio_enqueue and drain_audio of
-- entries/thread_audio.rs.
use ntr_hr.Base.{ℕ, zero, suc, ◌+◌, ◌-◌, Bool, List, [], ◌∷◌, bit_and, ◌==◌, leb, if◌then◌else◌}
use ntr_hr.Base.Word.{u32, sub32}

abbrev pub audio_q_len : ℕ
audio_q_len = 32

-- `bufs` gives the packet in a slot, without the room for the headers in front of it.
pub record AudioWorkArea : Type 0 where
  pub bufs : ℕ → List ℕ
  pub head : ℕ
  pub tail : ℕ

unfoldable pub slot : ℕ → ℕ
slot i = bit_and i (audio_q_len - 1)

unfoldable pub is_full : ℕ → ℕ → Bool
is_full head tail = leb audio_q_len (sub32 tail head)

unfoldable pub write_slot : ℕ → List ℕ → AudioWorkArea → AudioWorkArea
write_slot tail pkt w =
    let s = slot tail in record w { bufs = λ i. if i == s then pkt else w.bufs i }

unfoldable pub publish : ℕ → AudioWorkArea → AudioWorkArea
publish tail w = record w { tail = u32 (tail + 1) }

unfoldable pub audio_enqueue : List ℕ → AudioWorkArea → AudioWorkArea
audio_enqueue pkt w = if is_full w.head w.tail then w else publish w.tail (write_slot w.tail pkt w)

unfoldable pub release : ℕ → AudioWorkArea → AudioWorkArea
release head w = record w { head = u32 (head + 1) }

-- drain_audio on at most `fuel` packets, with the packets that it hands to rp_output. The sleep
-- and the tick of each packet, which Net/Pace models for the sender, are left out.
unfoldable pub drain_audio : ℕ → Bool → AudioWorkArea → List (List ℕ) × AudioWorkArea
drain_audio zero ready w = ([], w)
drain_audio (suc fuel) ready w =
    let (sent, w') = drain_audio fuel ready (release w.head w) in
    if w.head == w.tail then ([], w) else (if ready then w.bufs (slot w.head) ∷ sent else sent, w')
