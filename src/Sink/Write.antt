-- ===== src/Sink/Write.antt =====
-- `impl WorkerDst`: bytes go to `dst.dst` while the packet has room, and a full packet is sent
-- before the next byte.
use ntr_hr.Base.{ℕ, ◌+◌, ◌-◌, Bool, true, false, List, ◌==◌, ltb, if◌then◌else◌, length, take, drop}
use ntr_hr.Base.Word.{u16, u32, sub16, sub32}
use ntr_hr.Base.Memory.{copy, store}
use ntr_hr.Sink.State.{WorkerDst, Env}
use ntr_hr.Sink.Count.{dq_next, update_size}
use ntr_hr.Sink.Send.{rp_send_buffer}

-- The size counter that the mode selects.
unfoldable pub count_size : WorkerDst → ℕ → Env → Env
count_size d size e =
    if d.delta_prog
    then record e { compressed_size = dq_next e.compressed_size size d.blkn }
    else record e { frame_size = update_size e.frame_size size }

unfoldable pub flush : WorkerDst → Env → Bool × WorkerDst × Env
flush d e = rp_send_buffer (record d { blkn = 0 }) false (count_size d (u32 e.packet_data_size) e)

unfoldable pub term : WorkerDst → Env → Bool × WorkerDst × Env
term d e =
    rp_send_buffer (record d { blkn = 0 }) true
      (count_size d (sub32 (u32 e.packet_data_size) d.free_in_bytes) e)

unfoldable pub put_byte : ℕ → WorkerDst → Env → Bool × WorkerDst × Env
put_byte b d e = (
  true,
  record d { dst = d.dst + 1; free_in_bytes = sub16 d.free_in_bytes 1 },
  record e { mem = store e.mem d.dst b },
)

unfoldable pub write_byte : ℕ → WorkerDst → Env → Bool × WorkerDst × Env
write_byte b d e =
    if d.free_in_bytes == 0
    then (let (ok, d', e') = flush d e in if ok then put_byte b d' e' else (false, d', e'))
    else put_byte b d e

-- The end of write_bytes: the bytes still to write are assumed to fit.
unfoldable pub put_bytes : List ℕ → ℕ → WorkerDst → Env → Bool × WorkerDst × Env
put_bytes bs len d e = (
  true,
  record d { dst = d.dst + len; free_in_bytes = sub16 d.free_in_bytes len },
  record e { mem = copy e.mem d.dst (take len bs) },
)

-- The packet is filled by the first `free_in_bytes` bytes.
unfoldable pub fill : List ℕ → WorkerDst → Env → WorkerDst × Env
fill bs d e = (
  record d { dst = d.dst + d.free_in_bytes; free_in_bytes = 0 },
  record e { mem = copy e.mem d.dst (take d.free_in_bytes bs) },
)

unfoldable pub flush_then : List ℕ → ℕ → WorkerDst → Env → Bool × WorkerDst × Env
flush_then bs len d e =
    let (ok, d', e') = flush d e in if ok then put_bytes bs len d' e' else (false, d', e')

unfoldable pub write_bytes : List ℕ → WorkerDst → Env → Bool × WorkerDst × Env
write_bytes bs d e =
    let len = u16 (length bs) in
    if ltb 0 d.free_in_bytes
    then if ltb d.free_in_bytes len
      then (let (d', e') = fill bs d e in
          flush_then (drop d.free_in_bytes bs) (len - d.free_in_bytes) d' e')
      else put_bytes bs len d e
    else flush_then bs len d e

unfoldable pub advance_to : ℕ → WorkerDst → WorkerDst
advance_to p d = record d { free_in_bytes = sub16 d.free_in_bytes (u16 (p - d.dst)); dst = p }
