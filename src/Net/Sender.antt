-- ===== src/Net/Sender.antt =====
-- nwm_send_next_buffer: a packet is taken from the buffer of the current thread, and filled up
-- from the next threads' where that one is done. Addresses are numbers, and a load of a thread's
-- `pos` and `flag` sees what its DataInfo holds when the call begins.
use ntr_hr.Base.{
  ℕ, zero, suc, ◌+◌, ◌-◌, Bool, true, false, not, ◌&&◌, ◌||◌, List, ◌∷◌, Option, none, some,
  bit_and, bit_or, min, ◌==◌, ltb, if◌then◌else◌, get_or, set,
}
use ntr_hr.Base.Word.{u8}
use ntr_hr.Base.Memory.{Memory, store, copy, slice}
use ntr_hr.Consts.{data_hdr_size, rp_lossless_hdr_size, nwm_hdr_size}
use ntr_hr.Ranged.Index.{next_wrapped_n}
use ntr_hr.Net.Packet.{nwm_output}
use ntr_hr.Net.Pace.{next_tick}

pub record DataInfo : Type 0 where
  pub send_pos : ℕ
  pub pos : ℕ
  pub flag : ℕ

abbrev pub no_info : DataInfo
no_info = record { send_pos = 0; pos = 0; flag = 0 }

-- `infos` are those of the work that is sent, one for each thread in use. `outputs` are the
-- packets that rp_output was called with, the last one first.
pub record Sender : Type 0 where
  pub mem : Memory
  pub infos : List DataInfo
  -- NWM_WORK_INDEX, NWM_THREAD_INDEX, thread_index_last
  pub work_index : ℕ
  pub thread_index : ℕ
  pub last : ℕ
  -- NWM_NEED_SYN and the count of SYN_HANDLES.works[w].nwm_done
  pub need_syn : ℕ → Bool
  pub nwm_done : ℕ → ℕ
  -- DATA_BUF_HDRS and LOSSLESS_DATA_BUF_HDRS of the work
  pub data_buf_hdr : List ℕ
  pub lossless_data_hdr : List ℕ
  pub lossless : Bool
  pub packet_data_size : ℕ
  -- CURRENT_NWM_HDR, the port, MIN_SEND_INTERVAL_TICK, RP_OUTPUT_NEXT_TICK
  pub nwm_hdr : List ℕ
  pub dst_port : ℕ
  pub interval : ℕ
  pub output_next_tick : ℕ
  pub outputs : List (List ℕ)

unfoldable pub data_buffer_filled : DataInfo → Bool
data_buffer_filled d = ltb d.send_pos d.pos || ltb 0 d.flag

pub record Collected : Type 0 where
  pub total_size : ℕ
  pub end_size : ℕ
  pub end_done : Bool
  pub end_index : ℕ

-- The bytes of a thread that a packet with `room` bytes left takes, and whether they are the
-- thread's last.
unfoldable pub part_size : DataInfo → ℕ → ℕ
part_size d room = min (d.pos - d.send_pos) room

unfoldable pub part_done : DataInfo → ℕ → Bool
part_done d room = d.send_pos + part_size d room == d.pos && ltb 0 d.flag

-- The loop over the threads behind a thread that is done, on at most `fuel` of them.
unfoldable pub collect : ℕ → List DataInfo → ℕ → ℕ → ℕ → ℕ → ℕ → Memory → Memory × Option Collected
collect zero infos last size data_buf i total m = (m, none)
collect (suc fuel) infos last size data_buf i total m =
    let d = get_or infos i no_info in
    let part = part_size d (size - total) in
    let done = part_done d (size - total) in
    let m' = copy m (data_buf + total) (slice m d.send_pos part) in
    let i' = next_wrapped_n 0 last i in
    let rest = collect fuel infos last size data_buf i' (total + part) m' in
    if not (data_buffer_filled d) || (ltb part (size - total) && not done)
    then (m, none)
    else if done
    then if i' == 0
      then (
        m',
        some
            (record { total_size = total + part; end_size = part; end_done = true; end_index = 0 }),
      )
      else rest
    else (
      m',
      some (record { total_size = total + part; end_size = part; end_done = false; end_index = i }),
    )

-- rp_output on the packet at address `p`: the frame's headers are put in front of it.
unfoldable pub rp_output : ℕ → ℕ → ℕ → Sender → Sender
rp_output p size tick s =
    let base = p - nwm_hdr_size in
    let (frame, m) = nwm_output s.nwm_hdr s.dst_port size (λ q. s.mem (base + q)) in
    record s {
      mem = λ q. if ltb q base then s.mem q else m (q - base);
      outputs = slice s.mem p size ∷ s.outputs;
      output_next_tick = next_tick s.interval size tick;
    }

-- `WorkIndex` has two values.
unfoldable pub nwm_done_release : Sender → Sender
nwm_done_release s =
    let w = s.work_index in
    record s {
      nwm_done = λ v. if v == w then s.nwm_done v + 1 else s.nwm_done v;
      need_syn = λ v. if v == w then true else s.need_syn v;
      work_index = next_wrapped_n 0 1 w;
    }

-- The DataHdr at `p`, with the flag of a work's last packet.
unfoldable pub put_data_hdr : ℕ → List ℕ → ℕ → Bool → Memory → Memory
put_data_hdr p hdr flag ends m =
    let m' = copy m p hdr in if ends then store m' (p + 1) (bit_or (m' (p + 1)) (u8 flag)) else m'

-- The LosslessDataHdr at `p`, with the thread.
unfoldable pub put_lossless_hdr : ℕ → List ℕ → ℕ → Memory → Memory
put_lossless_hdr p hdr t m =
    let m' = copy m p hdr in store m' (p + 1) (bit_or (m' (p + 1)) (bit_and (u8 t) 3))

-- The headers in front of the packet's data at `data_buf`.
unfoldable pub packet_hdrs : ℕ → ℕ → ℕ → Bool → Sender → Sender
packet_hdrs data_buf t flag ends s =
    let lossless_buf = if s.lossless then data_buf - rp_lossless_hdr_size else data_buf in
    let m = put_data_hdr (lossless_buf - data_hdr_size) s.data_buf_hdr flag ends s.mem in
    record s {
      mem = if s.lossless then put_lossless_hdr lossless_buf s.lossless_data_hdr t m else m;
      data_buf_hdr = set s.data_buf_hdr 3 (u8 (get_or s.data_buf_hdr 3 0 + 1));
    }

-- The packet of what was collected, with its headers.
unfoldable pub send_packet : ℕ → ℕ → ℕ → ℕ → Collected → Sender → Sender
send_packet data_buf t tick flag c s =
    let s' = packet_hdrs data_buf t flag (c.end_done && c.end_index == 0) s in
    let hdrs = data_hdr_size + (if s.lossless then rp_lossless_hdr_size else 0) in
    rp_output (data_buf - hdrs) (c.total_size + hdrs) tick s'

-- The positions after the packet.
unfoldable pub pass_threads : Bool → Collected → Sender → Sender
pass_threads thread_done c s =
    let e = get_or s.infos c.end_index no_info in
    record s {
      infos =
          if c.end_done
          then s.infos
          else set s.infos c.end_index (record e { send_pos = e.send_pos + c.end_size });
      thread_index = if thread_done then c.end_index else s.thread_index;
    }

-- The end of the call, with what was collected.
unfoldable pub send_collected : ℕ → ℕ → ℕ → ℕ → Bool → Collected → Sender → Sender
send_collected data_buf t tick flag thread_done c s =
    let s' = pass_threads thread_done c (send_packet data_buf t tick flag c s) in
    if thread_done && c.end_index == 0 then nwm_done_release s' else s'

unfoldable pub send_result :
    ℕ → ℕ → ℕ → ℕ → Bool → Memory × Option Collected → Sender → Bool × Sender
send_result data_buf t tick flag thread_done (m, none) s = (false, record s { mem = m })
send_result data_buf t tick flag thread_done (m, some c) s =
    (true, send_collected data_buf t tick flag thread_done c (record s { mem = m }))

-- What a call collects for thread `t`, whose DataInfo is `d`.
unfoldable pub collect_from : ℕ → DataInfo → Sender → Memory × Option Collected
collect_from t d s =
    let size = part_size d s.packet_data_size in
    let done = part_done d s.packet_data_size in
    let i = if done then next_wrapped_n 0 s.last t else t in
    if ltb size s.packet_data_size && not done
    then (s.mem, none)
    else if done && not (i == 0)
    then collect (s.last + 1) s.infos s.last s.packet_data_size d.send_pos i size s.mem
    else (
      s.mem,
      some (record { total_size = size; end_size = size; end_done = done; end_index = i }),
    )

unfoldable pub nwm_send_next_buffer : ℕ → ℕ → ℕ → ℕ → Sender → Bool × Sender
nwm_send_next_buffer t tick pos flag s =
    let d = record (get_or s.infos t no_info) { pos = pos; flag = flag } in
    send_result d.send_pos t tick flag (part_done d s.packet_data_size) (collect_from t d s) s
