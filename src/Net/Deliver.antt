-- ===== src/Net/Deliver.antt =====
-- One call of nwm_send_next_buffer, from the bytes of the threads to the packet.
use ntr_hr.Base.{
  ℕ, zero, suc, ◌+◌, ◌-◌, ◌≤◌, ◌<◌, ◌≡◌, ◌≢◌, ◌⊎◌, refl, sym, ap, ap₂, ◌∙◌, Bool, true, false, ◌&&◌,
  List, [], ◌∷◌, ◌++◌, Option, none, some, ◌==◌, if◌then◌else◌, get_or, set, length, drop, All,
  arith, append-nil, Bool-cases, inl, inr,
}
use ntr_hr.Base.Memory.{Memory, slice, length-slice}
use ntr_hr.Ranged.Index.{next_wrapped_n}
use ntr_hr.Net.Sender.{
  DataInfo, no_info, Sender, Collected, part_done, collect_from, nwm_send_next_buffer, send_result,
  send_collected, send_packet, pass_threads, nwm_done_release,
}
use ntr_hr.Net.Carry.{
  stream, Apart, Same, advance, left, stream-Same, text-Same, Same-trans, Same-widen, Apart-advance,
}
use ntr_hr.Net.Collect.{First, FirstOutcome, collect_from-First}
use ntr_hr.Net.Headers.{HasRoom, hdr_size, Sent, send_packet-Sent}

-- The last of the work's bytes are in the packet, and the work is handed back.
abbrev pub Finished : List ℕ → ℕ → Sender → Sender → Type 0
Finished got t s s' =
    (got ≡ stream s.mem (drop t s.infos))
    × (s'.thread_index ≡ 0)
    × (s'.work_index ≡ next_wrapped_n 0 1 s.work_index)
    × (s'.nwm_done s.work_index ≡ suc (s.nwm_done s.work_index))

-- The packet is full, and what is left follows its bytes.
abbrev pub GoesOn : List ℕ → ℕ → Sender → Sender → Type 0
GoesOn got t s s' =
    (got ++ stream s'.mem (drop s'.thread_index s'.infos) ≡ stream s.mem (drop t s.infos))
    × (length got ≡ s.packet_data_size)
    × (s'.work_index ≡ s.work_index)

pub record Delivered (t : ℕ) (s s' : Sender) : Type 0 where
  pub hdr : List ℕ
  pub got : List ℕ
  pub output : s'.outputs ≡ (hdr ++ got) ∷ s.outputs
  pub hdr_len : length hdr ≡ hdr_size s
  pub fits : length got ≤ s.packet_data_size
  pub rest : Finished got t s s' ⊎ GoesOn got t s s'

All-tail :
    (lo hi k : ℕ) (ds : List DataInfo)
    → ((j : ℕ) → k ≤ j → Apart lo hi (get_or ds j no_info))
    → All (Apart lo hi) (drop k ds)
All-tail lo hi zero [] h = tt
All-tail lo hi zero (d ∷ ds) h =
    (h 0 (omega arith), All-tail lo hi 0 ds (λ j le. h (suc j) (omega arith)))
All-tail lo hi (suc k) [] h = tt
All-tail lo hi (suc k) (d ∷ ds) h = All-tail lo hi k ds (λ j le. h (suc j) (omega arith))

drop-set :
    (i : ℕ) (ds : List DataInfo) (v : DataInfo)
    → i < length ds
    → drop i (set ds i v) ≡ v ∷ drop (suc i) ds
drop-set i [] v h = absurd (omega arith)
drop-set zero (d ∷ ds) v h = refl
drop-set (suc i) (d ∷ ds) v h = drop-set i ds v (omega arith)

-- The other threads' bytes lie apart from the packet and its headers.
abbrev pub OthersApart : ℕ → Sender → Type 0
OthersApart t s =
    let buf = (get_or s.infos t no_info).send_pos in
    (j : ℕ) → j ≢ t → Apart (buf - 56) (buf + s.packet_data_size) (get_or s.infos j no_info)

module _ (t : ℕ) (s : Sender) (bound : t ≤ s.last) (n : length s.infos ≡ suc s.last)
    (apart : OthersApart t s) where
  abbrev buf : ℕ
  buf = (get_or s.infos t no_info).send_pos

  abbrev size : ℕ
  size = s.packet_data_size

  passed : Collected → DataInfo
  passed c = advance c.end_size (get_or s.infos c.end_index no_info)

  passed-Apart :
      (m : Memory) (c : Collected)
      → First t s.infos size s.mem m c
      → c.end_done ≡ false
      → (t ≤ c.end_index) × Apart (buf - 56) (buf + size) (passed c)
  unfolding passed
  passed-Apart m c f open_ = elim (Bool-cases (part_done (get_or s.infos t no_info) size)) [
    | inr q ↦ let (e, _, w) = f.stays q in (omega (arith, e), inr (rw (e, w) (omega arith)))
    | inl q ↦
        let more = f.moves q open_ in
        (
          omega arith,
          Apart-advance (buf - 56) (buf + size) c.end_size (get_or s.infos c.end_index no_info)
              (apart c.end_index (λ e. absurd (omega (arith, e, more)))),
        )
  ]

  -- What is left, seen in memory after the call.
  left_kept :
      (m k : Memory) (c : Collected)
      → First t s.infos size s.mem m c
      → c.end_done ≡ false
      → Same (buf - 56) (buf + size) k s.mem
      → left s.mem s.infos c ≡ stream k (drop c.end_index (set s.infos c.end_index (passed c)))
  unfolding passed
  left_kept m k c f open_ same =
      let (le, free) = passed-Apart m c f open_ in
      let back : Same (buf - 56) (buf + size) s.mem k = λ q z. sym (same q z) in
      let others =
        All-tail (buf - 56) (buf + size) (suc c.end_index) s.infos
          (λ j h. apart j (λ e. absurd (omega (arith, e, h, le)))) in
      rw open_ (
        ap₂ ◌++◌ (text-Same (passed c) back free)
          (stream-Same (drop (suc c.end_index) s.infos) back others)
        ∙ sym
            (ap (stream k) (drop-set c.end_index s.infos (passed c) (f.carried.end_bound open_).1)))

  module _ (current : s.thread_index ≡ t) (room : HasRoom buf s) (tick flag : ℕ) (m : Memory)
      (c : Collected) (f : First t s.infos size s.mem m c) where
    abbrev s₁ : Sender
    s₁ = record s { mem = m }

    sent : Sent buf c.total_size s₁ (send_packet buf t tick flag c s₁)
    sent =
        send_packet-Sent buf t tick flag c s₁
          (record { room = room.room; nwm = room.nwm; four = room.four; extra = room.extra })

    held : slice m buf c.total_size ≡ f.carried.got
    unfolding slice
    held = f.carried.held

    length-got : length f.carried.got ≡ c.total_size
    length-got = ap (length {A = ℕ}) (sym held) ∙ length-slice m buf c.total_size

    output : (send_packet buf t tick flag c s₁).outputs ≡ (sent.hdr ++ f.carried.got) ∷ s.outputs
    output = sent.output ∙ ap (λ g. (sent.hdr ++ g) ∷ s.outputs) held

    kept : Same (buf - 56) (buf + size) (send_packet buf t tick flag c s₁).mem s.mem
    kept =
        Same-trans (buf - 56) (buf - 56) (buf + size) (omega arith)
          (Same-widen (buf - 56) (buf - 56) buf (buf + size) (omega arith) (omega arith) sent.same)
          (Same-widen (buf - 56) (buf + 0) (buf + size) (buf + size) (omega arith) (omega arith)
            f.carried.same)

    abbrev packet : Sender
    packet = send_packet buf t tick flag c s₁

    abbrev done : Bool
    done = part_done (get_or s.infos t no_info) size

    released_at :
        c.end_done ≡ true
        → done ≡ true
        → Delivered t s (nwm_done_release (pass_threads true c packet))
    unfolding pass_threads nwm_done_release
    released_at closed _ =
        let none_left : left s.mem s.infos c ≡ [] = rw closed refl in
        record {
          hdr = sent.hdr;
          got = f.carried.got;
          output = output;
          hdr_len = sent.hdr_len;
          fits = omega (arith, length-got, f.carried.fits);
          rest = inl (
            sym (append-nil f.carried.got)
                ∙ ap (λ l. f.carried.got ++ l) (sym none_left)
                ∙ f.carried.split,
            f.carried.done_index closed,
            ap (next_wrapped_n 0 1) sent.work,
            rw (sent.work, sent.released) (ground arith),
          );
        }

    passed_on :
        (b : Bool)
        → c.end_done ≡ false
        → (pass_threads b c packet).thread_index ≡ c.end_index
        → Delivered t s (pass_threads b c packet)
    unfolding pass_threads passed
    passed_on b open_ at_ =
        let moved_in : List DataInfo → List DataInfo =
          λ l. set l c.end_index (advance c.end_size (get_or l c.end_index no_info)) in
        let moved : (pass_threads b c packet).infos ≡ set s.infos c.end_index (passed c) =
          ap (λ b'. if b' then packet.infos else moved_in packet.infos) open_
          ∙ ap moved_in sent.infos in
        record {
          hdr = sent.hdr;
          got = f.carried.got;
          output = output;
          hdr_len = sent.hdr_len;
          fits = omega (arith, length-got, f.carried.fits);
          rest = inr (
            ap (λ l. f.carried.got ++ l)
                  (ap₂ (λ i l. stream packet.mem (drop i l)) at_ moved
                    ∙ sym (left_kept m packet.mem c f open_ kept))
                ∙ f.carried.split,
            length-got ∙ f.carried.fills open_,
            sent.work,
          );
        }

    collected_end :
        (b : Bool)
        → done ≡ b
        → send_collected buf t tick flag done c s₁ ≡ (
            if b && c.end_index == 0
            then nwm_done_release (pass_threads b c packet)
            else pass_threads b c packet)
    unfolding send_collected
    collected_end b e =
        ap
          (λ a.
            if a && c.end_index == 0
            then nwm_done_release (pass_threads a c packet)
            else pass_threads a c packet)
          e

    collected : Delivered t s (send_collected buf t tick flag done c s₁)
    collected = elim (Bool-cases c.end_done) [
      | inl closed ↦ elim (Bool-cases done) [
        | inl q ↦
            let zero_ : (c.end_index == 0) ≡ true = ground (arith, f.carried.done_index closed) in
            rw (collected_end true q, zero_) (released_at closed q)
        | inr q ↦ absurd (ground (arith, closed, (f.stays q).1))
      ]
      | inr open_ ↦ elim (Bool-cases done) [
        | inl q ↦
            let other : (c.end_index == 0) ≡ false = ground (arith, f.moves q open_) in
            rw (collected_end true q, other) (passed_on true open_ (unfold pass_threads in refl))
        | inr q ↦ rw (collected_end false q) (
            passed_on false open_
              (unfold pass_threads in sent.thread ∙ current ∙ sym (f.stays q).0))
      ]
    ]

parted :
    (t : ℕ) (s : Sender)
    → OthersApart t s
    → let d = get_or s.infos t no_info in
      d.send_pos ≤ d.pos
      → (j : ℕ) → Apart d.pos (d.send_pos + s.packet_data_size) (get_or s.infos j no_info)
parted t s apart ordered j = elim (Bool-cases (j == t)) [
  | inl e ↦ let same : j ≡ t = ground arith in rw same (inl (omega arith))
  | inr e ↦ elim (apart j (λ z. ground (arith, e, z))) [
    | inl below ↦ inl (omega arith)
    | inr above ↦ inr above
  ]
]

-- The answer of a call.
abbrev pub Answer : ℕ → Sender → Bool × Sender → Type 0
Answer t s (ok, s') =
    (ok ≡ true → Delivered t s s')
    × (ok ≡ false → (s'.outputs ≡ s.outputs) × (s'.infos ≡ s.infos) × (s'.thread_index ≡ t))

send_result-Answer :
    (t tick : ℕ) (s : Sender) (r : Memory × Option Collected)
    → t ≤ s.last
    → length s.infos ≡ suc s.last
    → s.thread_index ≡ t
    → HasRoom (get_or s.infos t no_info).send_pos s
    → OthersApart t s
    → FirstOutcome t s.infos s.packet_data_size s.mem r
    → let d = get_or s.infos t no_info in
      Answer t s (send_result d.send_pos t tick d.flag (part_done d s.packet_data_size) r s)
unfolding send_result
send_result-Answer t tick s (m, none) bound n current room apart o =
    (λ e. absurd (ground (arith, e)), λ e. (refl, refl, current))
send_result-Answer t tick s (m, some c) bound n current room apart f = (
  λ e. collected t s bound n apart current room tick (get_or s.infos t no_info).flag m c f,
  λ e. absurd (ground (arith, e)),
)

-- A call of nwm_send_next_buffer for the current thread, with that thread's position and flag:
-- if it sends, the packet's data and what is left to send after it are, in order, what was left
-- before it; it is full, or ends the work, which is then handed back. If it does not send,
-- nothing is put out and no position moves. The other threads' bytes lie apart from the packet.
pub nwm_send_next_buffer-Answer :
    (t tick : ℕ) (s : Sender)
    → t ≤ s.last
    → length s.infos ≡ suc s.last
    → s.thread_index ≡ t
    → (get_or s.infos t no_info).send_pos ≤ (get_or s.infos t no_info).pos
    → HasRoom (get_or s.infos t no_info).send_pos s
    → OthersApart t s
    → let d = get_or s.infos t no_info in Answer t s (nwm_send_next_buffer t tick d.pos d.flag s)
unfolding nwm_send_next_buffer
nwm_send_next_buffer-Answer t tick s bound n current ordered room apart =
    let d = get_or s.infos t no_info in
    send_result-Answer t tick s (collect_from t d s) bound n current room apart (
      collect_from-First t s bound n (
        All-tail d.pos (d.send_pos + s.packet_data_size) 0 s.infos
          (λ j le. parted t s apart ordered j)))
