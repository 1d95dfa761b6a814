-- ===== src/Net/Progress.antt =====
-- When the threads of a work are done writing, the sender is never stuck.
use ntr_hr.Base.{
  ℕ, zero, suc, ◌+◌, ◌-◌, ◌≤◌, ◌<◌, ◌≡◌, refl, ap, true, false, not, ◌&&◌, ◌||◌, List, Option, some,
  ltb, ◌==◌, if◌then◌else◌, get_or, arith, Bool-cases, inl, inr,
}
use ntr_hr.Base.Memory.{Memory, copy, slice}
use ntr_hr.Ranged.Index.{next_wrapped_n}
use ntr_hr.Net.Sender.{
  DataInfo, no_info, Sender, Collected, part_size, part_done, data_buffer_filled, collect,
  collect_from, nwm_send_next_buffer, send_result,
}

-- A thread that has set its flag, behind its last byte.
abbrev pub Closed : DataInfo → Type 0
Closed d = (d.send_pos ≤ d.pos) × (0 < d.flag)

Collects : Memory × Option Collected → Type 0
Collects r = (c : Collected) × (r.1 ≡ some c)

part-Closed :
    (d : DataInfo) (room : ℕ)
    → Closed d
    → (ltb (part_size d room) room && not (part_done d room)) ≡ false
unfolding part_size part_done
part-Closed d room (ordered, flagged) = ground arith

collect-Collects :
    (fuel buf size last i total : ℕ) (infos : List DataInfo) (m : Memory)
    → i ≤ last
    → last < fuel + i
    → ((j : ℕ) → j ≤ last → Closed (get_or infos j no_info))
    → Collects (collect fuel infos last size buf i total m)
unfolding collect Collects data_buffer_filled
collect-Collects zero buf size last i total infos m h enough closed = absurd (omega arith)
collect-Collects (suc fuel) buf size last i total infos m h enough closed =
    let d = get_or infos i no_info in
    let part = part_size d (size - total) in
    let c = closed i h in
    let flagged : ltb 0 d.flag ≡ true = ground arith in
    let filled : data_buffer_filled d ≡ true =
      ground (arith, flagged, Bool-cases (ltb d.send_pos d.pos)) in
    let stop : (not (data_buffer_filled d)
          || (ltb part (size - total) && not (part_done d (size - total))))
        ≡ false =
      rw (filled, part-Closed d (size - total) c) refl in
    elim (Bool-cases (part_done d (size - total))) [
      | inr q ↦ rw (stop, q) (_, refl)
      | inl q ↦ elim (Bool-cases (next_wrapped_n 0 last i == 0)) [
        | inl z ↦ rw (stop, q, z) (_, refl)
        | inr z ↦
            let e : next_wrapped_n 0 last i ≡ suc i = unfold next_wrapped_n in ground arith in
            let more : i < last = unfold next_wrapped_n in ground arith in
            let m1 = copy m (buf + total) (slice m d.send_pos part) in
            rw (stop, q, z, e)
              (collect-Collects fuel buf size last (suc i) (total + part) infos m1 more
                (omega arith) closed)
      ]
    ]

collect_from-Collects :
    (t : ℕ) (s : Sender)
    → t ≤ s.last
    → ((j : ℕ) → j ≤ s.last → Closed (get_or s.infos j no_info))
    → Collects (collect_from t (get_or s.infos t no_info) s)
unfolding collect_from Collects
collect_from-Collects t s h closed =
    let d = get_or s.infos t no_info in
    let size = s.packet_data_size in
    let i = if part_done d size then next_wrapped_n 0 s.last t else t in
    elim (Bool-cases (part_done d size && not (i == 0))) [
      | inr q ↦ rw (part-Closed d size (closed t h), q) (_, refl)
      | inl q ↦
          let le : i ≤ s.last =
            unfold next_wrapped_n in ground (arith, Bool-cases (part_done d size)) in
          rw (part-Closed d size (closed t h), q)
            (collect-Collects (s.last + 1) d.send_pos size s.last i (part_size d size) s.infos s.mem
              le (omega arith) closed)
    ]

-- When every thread of the work is closed, the call sends a packet.
pub nwm_send_next_buffer_sends :
    (t tick : ℕ) (s : Sender)
    → t ≤ s.last
    → ((j : ℕ) → j ≤ s.last → Closed (get_or s.infos j no_info))
    → let d = get_or s.infos t no_info in (nwm_send_next_buffer t tick d.pos d.flag s).0 ≡ true
unfolding nwm_send_next_buffer send_result Collects
nwm_send_next_buffer_sends t tick s h closed =
    let d = get_or s.infos t no_info in
    let (c, e) = collect_from-Collects t s h closed in
    ap
      (λ r.
        (send_result d.send_pos t tick d.flag (part_done d s.packet_data_size)
          ((collect_from t d s).0, r) s).0)
      e
