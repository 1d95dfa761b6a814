-- ===== src/Net/SenderTests.antt =====
-- Two threads of a work that are done with twelve bytes each, in packets of at most twenty.
use ntr_hr.Base.{
  ℕ, zero, suc, ◌+◌, ◌-◌, ◌^◌, ◌≤◌, ◌≡◌, refl, true, false, List, [], ◌∷◌, get_or, replicate,
  length-replicate, arith, ltb, if◌then◌else◌, inl, inr,
}
use ntr_hr.Base.Word.{u32}
use ntr_hr.Base.Memory.{slice, copy}
use ntr_hr.Ranged.Index.{next_wrapped_n}
use ntr_hr.Net.Pace.{paced, due, shares, paced-due}
use ntr_hr.Net.Sender.{
  Sender, DataInfo, no_info, nwm_send_next_buffer, send_result, send_collected, send_packet,
  pass_threads, nwm_done_release, collect_from, collect, part_size, part_done, packet_hdrs,
  put_data_hdr, rp_output, data_buffer_filled,
}
use ntr_hr.Net.Deliver.{OthersApart, Answer, nwm_send_next_buffer-Answer}
use ntr_hr.Net.Progress.{Closed, nwm_send_next_buffer_sends}

abbrev infos : List DataInfo
infos =
    record { send_pos = 1000; pos = 1012; flag = 16 }
    ∷ record { send_pos = 2000; pos = 2012; flag = 16 }
    ∷ []

abbrev sender : Sender
sender = record {
  mem = λ q. if ltb q 2000 then 1 else 2;
  infos = infos;
  work_index = 1;
  thread_index = 0;
  last = 1;
  need_syn = λ w. false;
  nwm_done = λ w. 0;
  data_buf_hdr = 3 ∷ 1 ∷ 2 ∷ 9 ∷ [];
  lossless_data_hdr = 0 ∷ 0 ∷ [];
  lossless = false;
  packet_data_size = 20;
  nwm_hdr = replicate 50 0;
  dst_port = 8001;
  interval = 1000;
  output_next_tick = 0;
  outputs = [];
}

-- The first packet takes all of one thread and eight bytes of the other.
both_threads :
    (nwm_send_next_buffer 0 5 1012 16 sender).1.outputs
    ≡ (3 ∷ 1 ∷ 2 ∷ 9 ∷ 1 ∷ 1 ∷ 1 ∷ 1 ∷ 1 ∷ 1 ∷ 1 ∷ 1 ∷ 1 ∷ 1 ∷ 1 ∷ 1 ∷ 2 ∷ 2 ∷ 2 ∷ 2 ∷ 2 ∷ 2 ∷ 2 ∷ 2
        ∷ [])
      ∷ []
unfolding nwm_send_next_buffer send_result send_collected send_packet pass_threads collect_from
    collect part_size part_done packet_hdrs put_data_hdr rp_output data_buffer_filled copy slice
    nwm_done_release next_wrapped_n
both_threads = refl

others : OthersApart 0 sender
others zero h = absurd (h refl)
others (suc zero) h = inr (omega arith)
others (suc (suc j)) h = inl (omega arith)

closed : (j : ℕ) → j ≤ 1 → Closed (get_or infos j no_info)
closed zero h = (omega arith, omega arith)
closed (suc zero) h = (omega arith, omega arith)
closed (suc (suc j)) h = absurd (omega arith)

nwm_send_next_buffer-Answer_example : Answer 0 sender (nwm_send_next_buffer 0 5 1012 16 sender)
nwm_send_next_buffer-Answer_example =
    nwm_send_next_buffer-Answer 0 5 sender (omega arith) refl refl (omega arith)
      (record {
        room = omega arith;
        nwm = length-replicate {A = ℕ} 50 0;
        four = refl;
        extra = refl;
      })
      others

nwm_send_next_buffer_sends_example : (nwm_send_next_buffer 0 5 1012 16 sender).0 ≡ true
nwm_send_next_buffer_sends_example = nwm_send_next_buffer_sends 0 5 sender (omega arith) closed

paced-due_example :
    (paced 1000 (u32 (2 ^ 32 - 100)) ((1448, 2 ^ 32) ∷ (724, 2 ^ 32 + 5000) ∷ [])
      ≡ u32 (due 1000 (2 ^ 32 - 100) ((1448, 2 ^ 32) ∷ (724, 2 ^ 32 + 5000) ∷ [])))
    × (2 ^ 32 - 100 + shares 1000 ((1448, 2 ^ 32) ∷ (724, 2 ^ 32 + 5000) ∷ [])
        ≤ due 1000 (2 ^ 32 - 100) ((1448, 2 ^ 32) ∷ (724, 2 ^ 32 + 5000) ∷ []))
paced-due_example =
    paced-due 1000 (2 ^ 32 - 100) ((1448, 2 ^ 32) ∷ (724, 2 ^ 32 + 5000) ∷ [])
      (omega arith, omega arith, omega arith, (omega arith, omega arith, omega arith, tt))
