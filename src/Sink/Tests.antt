-- ===== src/Sink/Tests.antt =====
-- Runs of the sink at small packets, and its theorems at those states.
use ntr_hr.Base.{◌-◌, ◌≡◌, refl, Bool, true, false, [], ◌∷◌, none, arith}
use ntr_hr.Base.Memory.{Memory, slice, copy}
use ntr_hr.Consts.{term_flag}
use ntr_hr.Sink.State.{WorkerDst, Env, released, timeout, failed}
use ntr_hr.Sink.Count.{dq_update_size, size_of, blkn_of, dq_update_size_fields, update_size}
use ntr_hr.Sink.Send.{rp_send_buffer, send_udp}
use ntr_hr.Sink.Write.{write_bytes, term, flush, flush_then, fill, put_bytes, count_size}
use ntr_hr.Sink.Stream.{Wrote, Writes, write_bytes-Writes, term_publishes}
use ntr_hr.Sink.Kcp.{Sent, send_kcp-Sent, Refused, send_kcp-Refused}

abbrev blank : Memory
blank q = 0

-- Packets of four bytes in a buffer from 100 on, with two bytes in the first.
abbrev udp_dst : WorkerDst
udp_dst = record {
  blkn = 0;
  dst = 102;
  free_in_bytes = 2;
  rel_stream = false;
  delta_prog = false;
  w = 0;
  t = 0;
}

abbrev udp_env : Env
udp_env = record {
  mem = copy blank 100 (7 ∷ 8 ∷ []);
  pos = 100;
  flag = 0;
  buf_packet_last = 140;
  packet_data_size = 4;
  compressed_size = 0;
  frame_size = 0;
  releases = [];
  mallocs = [];
  queue = [];
  term_dst = none;
  reset = false;
}

udp-Wrote : Wrote 100 (7 ∷ 8 ∷ []) udp_dst udp_env
unfolding copy slice
udp-Wrote = record {
  udp = refl;
  ahead = omega arith;
  begun = omega arith;
  full = refl;
  small = omega arith;
  some_room = omega arith;
  holds = refl;
}

abbrev after_three : Bool × WorkerDst × Env
after_three = write_bytes (1 ∷ 2 ∷ 3 ∷ []) udp_dst udp_env

-- The first packet is full and sent, and the third byte begins the next.
three_bytes :
    (after_three.1.dst ≡ 105)
    × (after_three.1.free_in_bytes ≡ 3)
    × (after_three.2.pos ≡ 104)
    × (after_three.2.frame_size ≡ 4)
    × (slice after_three.2.mem 100 5 ≡ 7 ∷ 8 ∷ 1 ∷ 2 ∷ 3 ∷ [])
unfolding write_bytes flush_then fill flush put_bytes count_size rp_send_buffer send_udp copy slice
    update_size
three_bytes = (refl, refl, refl, refl, refl)

write_bytes-Writes_example : Writes 100 (7 ∷ 8 ∷ 1 ∷ 2 ∷ 3 ∷ []) udp_env after_three
write_bytes-Writes_example =
    write_bytes-Writes (1 ∷ 2 ∷ 3 ∷ []) udp-Wrote (omega arith) (omega arith)

term_publishes_example :
    let (ok, d', e') = term udp_dst udp_env in
    (ok ≡ true)
    × (slice e'.mem 100 (e'.pos - 100) ≡ 7 ∷ 8 ∷ [])
    × (e'.pos ≡ 102)
    × (e'.flag ≡ term_flag)
term_publishes_example = term_publishes udp-Wrote

dq_update_size_fields_example :
    (size_of (dq_update_size 9 (524290 ∷ []) 524287 3) ≡ 1)
    × (blkn_of (dq_update_size 9 (524290 ∷ []) 524287 3) ≡ 4)
dq_update_size_fields_example = dq_update_size_fields 9 (524290 ∷ []) 524287 3 (omega arith)

abbrev kcp_dst : WorkerDst
kcp_dst = record udp_dst { rel_stream = true; w = 1; t = 2; dst = 110; free_in_bytes = 0 }

-- The queue answers with a timeout, then takes the packet; one buffer is left.
abbrev kcp_env : Env
kcp_env = record udp_env { releases = timeout ∷ released ∷ []; mallocs = 200 ∷ [] }

send_kcp-Sent_example : Sent kcp_dst kcp_env 200 [] (rp_send_buffer kcp_dst false kcp_env)
send_kcp-Sent_example =
    send_kcp-Sent kcp_dst kcp_env 200 [] refl refl tt refl (omega arith) (omega arith)

abbrev failing : Env
failing = record kcp_env { releases = timeout ∷ failed ∷ released ∷ [] }

send_kcp-Refused_example : Refused kcp_dst failing (rp_send_buffer kcp_dst false failing)
send_kcp-Refused_example = send_kcp-Refused kcp_dst failing refl (λ h. h)
