-- ===== src/Sink/Send.antt =====
-- rp_send_buffer: hands the packet that ends at `dst.dst` on, and moves `dst` to a fresh one.
use ntr_hr.Base.{
  ℕ, ◌+◌, ◌-◌, ◌*◌, ◌/◌, ◌^◌, Bool, true, false, not, ◌&&◌, List, [], ◌∷◌, Option, none, some,
  bit_or, ltb, if◌then◌else◌,
}
use ntr_hr.Base.Word.{u8, u16, u32}
use ntr_hr.Base.Memory.{Memory, copy}
use ntr_hr.Consts.{
  nwm_hdr_size, arq_overhead_size, arq_data_hdr_size, pid_nbits, cid_nbits, rp_kcp_hdr_w_nbits,
  term_flag,
}
use ntr_hr.Sink.State.{WorkerDst, Env, Release, released, timeout, failed}

-- The bytes of a little-endian u16 and u32 in memory.
abbrev pub le16 : ℕ → List ℕ
le16 v = u8 v ∷ u8 (v / 2 ^ 8) ∷ []

abbrev pub le32 : ℕ → List ℕ
le32 v = u8 v ∷ u8 (v / 2 ^ 8) ∷ u8 (v / 2 ^ 16) ∷ u8 (v / 2 ^ 24) ∷ []

-- ArqRpHdr: the work index above the packet and channel ids, the thread index above it.
unfoldable pub arq_hdr : ℕ → ℕ → ℕ
arq_hdr w t =
    bit_or (u16 (w * 2 ^ (pid_nbits + cid_nbits)))
      (u16 (t * 2 ^ (pid_nbits + cid_nbits + rp_kcp_hdr_w_nbits)))

unfoldable pub write_hdr : ℕ → ℕ → ℕ → Memory → Memory
write_hdr w t p m = copy m p (le16 (arq_hdr w t))

abbrev pub rp_data_buf_data : ℕ → ℕ
rp_data_buf_data d = d + (nwm_hdr_size + arq_overhead_size + arq_data_hdr_size)

-- The branch for plain UDP: publish the bytes to the nwm thread by moving `pos`. A failure of
-- svcSignalEvent is only logged.
unfoldable pub send_udp : WorkerDst → Bool → Env → Bool × WorkerDst × Env
send_udp d term e =
    let size = if term then e.packet_data_size - d.free_in_bytes else e.packet_data_size in
    let next = e.pos + size in
    let next' = if not term && ltb e.buf_packet_last next then e.buf_packet_last else next in
    (
      true,
      record d { dst = next'; free_in_bytes = u16 e.packet_data_size },
      record e { pos = next; flag = if term then term_flag else e.flag },
    )

unfoldable pub set_term_dst : ℕ → Env → Bool × Env
set_term_dst p e = elim e.term_dst [
  | none ↦ (true, record e { term_dst = some p })
  | some _ ↦ (false, e)
]

-- `while !reset_threads() { rp_syn_rel1 … }`: what is left of the answers when the loop ends,
-- and whether it ended without the early return.
pub data Loop : Type 0 where
  done : List Release → Loop
  reset : Loop
  fault : List Release → Loop

unfoldable pub rel_loop : List Release → Loop
rel_loop [] = reset
rel_loop (released ∷ rs) = done rs
rel_loop (timeout ∷ rs) = rel_loop rs
rel_loop (failed ∷ rs) = fault rs

-- rp_term_data_buf_malloc: a failed allocation resets the threads.
unfoldable pub take_buf : List ℕ → Env → Option ℕ × Env
take_buf [] e = (none, record e { reset = true })
take_buf (p ∷ ps) e = (some p, record e { mallocs = ps })

-- rp_data_buf_malloc. Under a reset its wait_syn returns `None` at once.
unfoldable pub rp_data_buf_malloc : Env → Option ℕ × Env
rp_data_buf_malloc e = if e.reset then (none, e) else take_buf e.mallocs e

-- `dst.dst` becomes the data part of the buffer, and `free_in_bytes` a whole packet.
abbrev pub fresh_packet : WorkerDst → Option ℕ × Env → Bool × WorkerDst × Env
fresh_packet d (none, e) = (false, d, e)
fresh_packet d (some p, e) =
    (true, record d { dst = rp_data_buf_data p; free_in_bytes = u16 e.packet_data_size }, e)

-- How the branch for a full packet goes on when the loop has ended. Its packet starts at `p`.
unfoldable pub after_rel : Loop → ℕ → WorkerDst → Env → Bool × WorkerDst × Env
after_rel (done rs) p d e =
    fresh_packet d (rp_data_buf_malloc (record e { releases = rs; queue = p ∷ e.queue }))
after_rel reset p d e =
    fresh_packet d (rp_data_buf_malloc (record e { releases = []; reset = true }))
after_rel (fault rs) p d e = (false, d, record e { releases = rs; reset = true })

-- The branch for the reliable stream.
unfoldable pub send_kcp : WorkerDst → Bool → Env → Bool × WorkerDst × Env
send_kcp d true e =
    let p = d.dst - (e.packet_data_size - d.free_in_bytes) in
    let size = u32 (e.packet_data_size - d.free_in_bytes) in
    let (ok, e') = set_term_dst p (record e { mem = copy e.mem (p - 4) (le32 size) }) in (ok, d, e')
send_kcp d false e =
    let p = d.dst - e.packet_data_size - arq_data_hdr_size in
    let size = u32 (u32 e.packet_data_size + arq_data_hdr_size) in
    after_rel (rel_loop e.releases) p d
      (record e { mem = copy (write_hdr d.w d.t p e.mem) (p - 4) (le32 size) })

unfoldable pub rp_send_buffer : WorkerDst → Bool → Env → Bool × WorkerDst × Env
rp_send_buffer d term e = if d.rel_stream then send_kcp d term e else send_udp d term e
