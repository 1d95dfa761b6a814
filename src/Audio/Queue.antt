-- ===== src/Audio/Queue.antt =====
-- The ring is a queue of at most 32 packets, also where its indices wrap.
use ntr_hr.Base.{
  ℕ, ◌≢◌, zero, suc, ◌+◌, ◌%◌, ◌^◌, ◌≤◌, ◌<◌, ◌≡◌, refl, sym, ap, ap₂, ◌∙◌, Bool, List, [], ◌∷◌,
  ◌++◌, ◌==◌, leb, if◌then◌else◌, arith, length, and_low, Bool-cases, inl, inr,
}
use ntr_hr.Base.Word.{u32, sub32}
use ntr_hr.Audio.Ring.{
  AudioWorkArea, slot, is_full, write_slot, publish, audio_enqueue, release, drain_audio,
}

pub record IsRing (w : AudioWorkArea) : Type 0 where
  pub head_word : w.head < 2 ^ 32
  pub tail_word : w.tail < 2 ^ 32
  pub bounded : sub32 w.tail w.head ≤ 32

-- The packets in `n` slots from index `h` on.
unfoldable pub packets : ℕ → ℕ → (ℕ → List ℕ) → List (List ℕ)
packets zero h bufs = []
packets (suc n) h bufs = bufs (slot h) ∷ packets n (u32 (h + 1)) bufs

unfoldable pub queue : AudioWorkArea → List (List ℕ)
queue w = packets (sub32 w.tail w.head) w.head w.bufs

pub slot_mod : (i : ℕ) → slot i ≡ i % 32
unfolding slot
slot_mod i = and_low 5 i

length-packets : (n h : ℕ) (bufs : ℕ → List ℕ) → length (packets n h bufs) ≡ n
unfolding packets
length-packets zero h bufs = refl
length-packets (suc n) h bufs = ap suc (length-packets n (u32 (h + 1)) bufs)

pub length-queue : (w : AudioWorkArea) → length (queue w) ≡ sub32 w.tail w.head
unfolding queue
length-queue w = length-packets (sub32 w.tail w.head) w.head w.bufs

packets-snoc :
    (n h : ℕ) (bufs : ℕ → List ℕ)
    → packets (suc n) h bufs ≡ packets n h bufs ++ bufs (slot (u32 (h + n))) ∷ []
unfolding packets
packets-snoc zero h bufs =
    ap (λ s. bufs s ∷ [])
      (slot_mod h
        ∙ (let e : h % 32 ≡ u32 (h + 0) % 32 = omega arith in e)
        ∙ sym (slot_mod (u32 (h + 0))))
packets-snoc (suc n) h bufs =
    ap (λ l. bufs (slot h) ∷ l)
      (packets-snoc n (u32 (h + 1)) bufs
        ∙ ap (λ i. packets n (u32 (h + 1)) bufs ++ bufs (slot i) ∷ [])
            (let e : u32 (u32 (h + 1) + n) ≡ u32 (h + suc n) = omega arith in e))

-- The slot at the tail of a ring that is not full holds none of its packets.
packets-write_slot :
    (n h t : ℕ) (pkt : List ℕ) (w : AudioWorkArea)
    → h < 2 ^ 32
    → t < 2 ^ 32
    → n ≤ sub32 t h
    → sub32 t h < 32
    → packets n h (write_slot t pkt w).bufs ≡ packets n h w.bufs
unfolding packets write_slot
packets-write_slot zero h t pkt w hh ht le lt = refl
packets-write_slot (suc n) h t pkt w hh ht le lt =
    ap₂ ◌∷◌ (ground (arith, slot_mod h, slot_mod t))
      (packets-write_slot n (u32 (h + 1)) t pkt w (omega arith) ht (omega arith) (omega arith))

push : List ℕ → AudioWorkArea → AudioWorkArea
push pkt w = publish w.tail (write_slot w.tail pkt w)

pub write_slot_self :
    (t : ℕ) (pkt : List ℕ) (w : AudioWorkArea) → (write_slot t pkt w).bufs (slot t) ≡ pkt
unfolding write_slot
write_slot_self t pkt w = ground arith

-- Publishing a packet that stands in the slot at the tail.
pub queue-publish :
    (pkt : List ℕ) (w : AudioWorkArea)
    → IsRing w
    → sub32 w.tail w.head < 32
    → w.bufs (slot w.tail) ≡ pkt
    → IsRing (publish w.tail w) × (queue (publish w.tail w) ≡ queue w ++ pkt ∷ [])
unfolding publish queue
queue-publish pkt w r lt there =
    let n = sub32 w.tail w.head in
    let e : sub32 (u32 (w.tail + 1)) w.head ≡ suc n = omega (arith, r.head_word, r.tail_word) in
    let f : u32 (w.head + n) ≡ w.tail = omega (arith, r.head_word, r.tail_word) in
    (
      record { head_word = r.head_word; tail_word = omega arith; bounded = omega (arith, e) },
      ap (λ k. packets k w.head w.bufs) e
          ∙ packets-snoc n w.head w.bufs
          ∙ ap (λ x. packets n w.head w.bufs ++ x ∷ []) (ap (λ i. w.bufs (slot i)) f ∙ there),
    )

-- Writing the slot at the tail of a ring that is not full leaves its packets alone.
pub queue-write_slot :
    (pkt : List ℕ) (w : AudioWorkArea)
    → IsRing w
    → sub32 w.tail w.head < 32
    → IsRing (write_slot w.tail pkt w) × (queue (write_slot w.tail pkt w) ≡ queue w)
unfolding queue write_slot
queue-write_slot pkt w r lt = (
  record { head_word = r.head_word; tail_word = r.tail_word; bounded = r.bounded },
  packets-write_slot (sub32 w.tail w.head) w.head w.tail pkt w r.head_word r.tail_word (omega arith)
      lt,
)

-- The first packet of a ring that is not empty, and the ring without it.
pub queue-release :
    (w : AudioWorkArea)
    → IsRing w
    → w.head ≢ w.tail
    → IsRing (release w.head w) × (queue w ≡ w.bufs (slot w.head) ∷ queue (release w.head w))
unfolding queue release packets
queue-release w r ne =
    let e : sub32 w.tail w.head ≡ suc (sub32 w.tail (u32 (w.head + 1))) =
      omega (arith, r.head_word, r.tail_word, ne) in
    (
      record {
        head_word = omega arith;
        tail_word = r.tail_word;
        bounded = omega (arith, e, r.bounded);
      },
      ap (λ k. packets k w.head w.bufs) e,
    )

pub queue_empty : (w : AudioWorkArea) → w.head ≡ w.tail → queue w ≡ []
unfolding queue packets
queue_empty w e =
    ap (λ k. packets k w.head w.bufs) (let z : sub32 w.tail w.head ≡ 0 = omega (arith, e) in z)

-- audio_enqueue is the insertion into a queue that drops a packet when 32 are waiting.
pub audio_enqueue-queue :
    (pkt : List ℕ) (w : AudioWorkArea)
    → IsRing w
    → IsRing (audio_enqueue pkt w)
      × (queue (audio_enqueue pkt w)
          ≡ (if leb 32 (length (queue w)) then queue w else queue w ++ pkt ∷ []))
unfolding audio_enqueue is_full write_slot
audio_enqueue-queue pkt w r = elim (Bool-cases (leb 32 (sub32 w.tail w.head))) [
  | inl p ↦ rw (length-queue w, p) (r, refl)
  | inr p ↦
      let lt : sub32 w.tail w.head < 32 = ground arith in
      let (r', same) = queue-write_slot pkt w r lt in
      let (r'', more) =
        queue-publish pkt (write_slot w.tail pkt w) r' lt (write_slot_self w.tail pkt w) in
      rw (length-queue w, p) (r'', more ∙ ap (λ q. q ++ pkt ∷ []) same)
]

-- drain_audio, run alone on a ring, ends within 32 rounds: it empties the queue, and hands
-- all of it to rp_output in order, or nothing of it where the session is not ready.
pub drain_audio-queue :
    (fuel : ℕ) (ready : Bool) (w : AudioWorkArea)
    → IsRing w
    → length (queue w) ≤ fuel
    → let (sent, w') = drain_audio fuel ready w in
      (sent ≡ (if ready then queue w else [])) × (queue w' ≡ []) × IsRing w'
unfolding drain_audio
drain_audio-queue zero ready w r le =
    let e : queue w ≡ [] =
      queue_empty w (omega (arith, length-queue w, r.head_word, r.tail_word)) in
    (rw e (ground arith), e, r)
drain_audio-queue (suc fuel) ready w r le = elim (Bool-cases (w.head == w.tail)) [
  | inl p ↦
      let e : queue w ≡ [] = queue_empty w (ground arith) in
      rw p (rw e (ground (arith, Bool-cases ready)), e, r)
  | inr p ↦
      let (r', e) = queue-release w r (ground arith) in
      let (sent, empty, ring) =
        drain_audio-queue fuel ready (release w.head w) r'
          (let l = ap (length {A = List ℕ}) e in omega arith) in
      rw p (rw (sent, e) (ground (arith, Bool-cases ready)), empty, ring)
]
