-- ===== src/Sink/Fill.antt =====
-- Bytes written one after another over plain UDP, as long as the thread's buffer has room.
use ntr_hr.Base.{
  ℕ, ◌+◌, ◌-◌, ◌≤◌, ◌≡◌, refl, ap, List, [], ◌∷◌, ◌++◌, length, ◌==◌, arith, Bool-cases, inl, inr,
}
use ntr_hr.Base.Memory.{length-slice}
use ntr_hr.Sink.State.{WorkerDst, Env}
use ntr_hr.Sink.Write.{write_byte}
use ntr_hr.Sink.Stream.{Wrote, write_byte-Writes, put_bytes-Writes, put_byte-eq-put_bytes}

pub dst_of_text :
    {buf : ℕ} {text : List ℕ} {d : WorkerDst} {e : Env}
    → Wrote buf text d e
    → d.dst ≡ buf + length text
dst_of_text {buf} {text} {d} {e} v =
    omega
      (arith, v.ahead, v.begun, length-slice e.mem buf (d.dst - buf), ap (length {A = ℕ}) v.holds)

-- One byte, with the last packet's start still ahead of it.
pub write_byte-Fills :
    (b : ℕ) {buf : ℕ} {text : List ℕ} {d : WorkerDst} {e : Env}
    → Wrote buf text d e
    → buf + length text ≤ e.buf_packet_last
    → let (_, d', e') = write_byte b d e in
      Wrote buf (text ++ b ∷ []) d' e' × (e'.buf_packet_last ≡ e.buf_packet_last)
unfolding write_byte
write_byte-Fills b {buf} {text} {d} {e} v h = elim (Bool-cases (d.free_in_bytes == 0)) [
  | inl p ↦
      let r = write_byte-Writes b v (ground (arith, v.full, dst_of_text v, h, p)) in
      (r.wrote, r.same_last)
  | inr p ↦
      let r = put_bytes-Writes (b ∷ []) 1 v refl (ground (arith, p)) in
      rw (p, put_byte-eq-put_bytes) (r.wrote, r.same_last)
]
