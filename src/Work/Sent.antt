-- ===== src/Work/Sent.antt =====
-- send_term_dsts sends a frame's rest so that a receiver finds all of it.
use ntr_hr.Base.{
  ℕ, zero, suc, ◌+◌, ◌-◌, ◌*◌, ◌≤◌, ◌≡◌, Bool, true, List, [], ◌∷◌, ◌++◌, arith, refl, ap, Option,
  none, some, length, get_or, length-append, All, All-append, replicate, length-replicate, map,
}
use ntr_hr.Sink.State.{Release, released, timeout, failed}
use ntr_hr.Sink.Send.{rel_loop, done}
use ntr_hr.Work.Picture.{TopScreenWidth}
use ntr_hr.Work.Rows.{core_count_max}
use ntr_hr.Work.Terms.{
  Terms, TermInfo, TermInput, TermPacket, EncodeRet, queue_next, queue_packets, term_packet, is_nil,
  packets_of, copy_all, term_hdr, quality_of, TermResult, returned, send_copied, send_waited,
  send_present, send_term_dsts, clear_dsts,
}
use ntr_hr.Work.Gather.{hdr_len, joined, later, joined-extend}
use ntr_hr.Work.Fill.{IsFilled, space, text, Appends}
use ntr_hr.Work.Frame.{Present, frame_bytes, hdr_bytes, size_bytes, concat, copy_all-Appends}
use ntr_hr.Work.Read.{read_frame}
use ntr_hr.Work.Received.{Fits, sent_frame, read_frame-frame_bytes}

-- The queue takes `n` packets, after any number of timeouts.
abbrev pub Accepts : ℕ → List Release → Type 0
Accepts zero rs = Unit {0}
Accepts (suc n) [] = ⊥
Accepts (suc n) (released ∷ rs) = Accepts n rs
Accepts (suc n) (timeout ∷ rs) = Accepts (suc n) rs
Accepts (suc n) (failed ∷ rs) = ⊥

rel_loop-Accepts :
    (n : ℕ) (rs : List Release)
    → Accepts (suc n) rs
    → (rest : List Release) × (rel_loop rs ≡ done rest) × Accepts n rest
unfolding rel_loop
rel_loop-Accepts n [] h = absurd h
rel_loop-Accepts n (released ∷ rs) h = (rs, refl, h)
rel_loop-Accepts n (timeout ∷ rs) h = rel_loop-Accepts n rs h
rel_loop-Accepts n (failed ∷ rs) h = absurd h

Accepts-le : (n m : ℕ) (rs : List Release) → n ≤ m → Accepts m rs → Accepts n rs
Accepts-le zero m rs le h = tt
Accepts-le (suc n) zero rs le h = absurd (omega arith)
Accepts-le (suc n) (suc m) [] le h = h
Accepts-le (suc n) (suc m) (released ∷ rs) le h = Accepts-le n m rs (omega arith) h
Accepts-le (suc n) (suc m) (timeout ∷ rs) le h = Accepts-le (suc n) (suc m) rs le h
Accepts-le (suc n) (suc m) (failed ∷ rs) le h = h

-- The packets in their frames, the last one marked.
unfoldable pub framed : ℕ → ℕ → List (List ℕ) → List TermPacket
framed w size [] = []
framed w size (bytes ∷ packets) = term_packet w size (is_nil packets) bytes ∷ framed w size packets

queue_packets_lem :
    (w size : ℕ) (packets : List (List ℕ)) (rs : List Release)
    → Accepts (length packets) rs
    → queue_packets w size packets rs ≡ record { answer = true; queue = framed w size packets }
unfolding queue_packets queue_next framed
queue_packets_lem w size [] rs h = refl
queue_packets_lem w size (bytes ∷ packets) rs h =
    let (rest, e, more) = rel_loop-Accepts (length packets) rs h in
    rw (e, queue_packets_lem w size packets rest more) refl

map-framed :
    (w size : ℕ) (packets : List (List ℕ))
    → map (λ (p : TermPacket). p.bytes) (framed w size packets) ≡ packets
unfolding framed term_packet
map-framed w size [] = refl
map-framed w size (bytes ∷ packets) = ap (λ t. bytes ∷ t) (map-framed w size packets)

length-hdr_bytes :
    (v2 : Bool) (info : TermInfo) (downsample hdr : ℕ) (wide : TopScreenWidth) (both_eyes : Bool)
    → length (hdr_bytes v2 info downsample hdr wide both_eyes) ≤ 4
unfolding hdr_bytes
length-hdr_bytes v2 info downsample hdr wide both_eyes = ground arith

length-size_bytes :
    (info : TermInfo) (last j : ℕ) (threads : List (List ℕ))
    → length (size_bytes info last j threads) ≡ 2 * length threads
unfolding size_bytes
length-size_bytes info last j [] = omega arith
length-size_bytes info last j (bytes ∷ rest) =
    omega (arith, length-size_bytes info last (j + 1) rest)

length-concat_le :
    (size : ℕ) (threads : List (List ℕ))
    → All (λ bytes. length bytes ≤ size) threads
    → length (concat threads) ≤ length threads * size
length-concat_le size [] h = omega arith
length-concat_le size (bytes ∷ rest) h =
    let e : suc (length rest) * size ≡ size + length rest * size = grind arith in
    omega (arith, length-append bytes (concat rest), length-concat_le size rest h.1, h.0, e)

-- What the call's circumstances allow: bytes for each of at most three threads, no more than a
-- packet of each, and a pool and a queue that take four packets.
pub record IsReady (i : TermInput) (dsts : List (Option (List ℕ))) (threads : List (List ℕ))
    (pool : ℕ) (rs : List Release) : Type 0 where
  pub some_thread : 1 ≤ length threads
  pub cores : length threads ≤ 3
  pub there : Present dsts 0 threads
  pub packets : All (λ bytes. length bytes ≤ i.packet_data_size) threads
  pub large : 26 ≤ i.packet_data_size
  pub buffers : 4 ≤ pool
  pub accepts : Accepts 4 rs

first_there :
    (dsts : List (Option (List ℕ))) (threads : List (List ℕ))
    → 1 ≤ length threads
    → Present dsts 0 threads
    → (bytes : List ℕ) × (get_or dsts 0 none ≡ some bytes)
first_there dsts [] one there = absurd (omega arith)
first_there dsts (bytes ∷ rest) one there = (bytes, there.0)

-- What a receiver gets.
pub record IsReceived (i : TermInput) (ret : EncodeRet) (dsts : List (Option (List ℕ)))
    (threads : List (List ℕ)) (r : TermResult) : Type 0 where
  pub packets : List (List ℕ)
  pub sent :
      r ≡ returned true (framed i.w i.packet_data_size packets) (clear_dsts i.core_count 0 dsts)
  pub sizes : All (λ p. length p ≡ i.packet_data_size) packets
  pub frame : read_frame (joined i.audio_kcp packets) ≡ some (sent_frame i ret threads)

module _ (i : TermInput) (ret : EncodeRet) (dsts : List (Option (List ℕ))) (threads : List (List ℕ))
    (pool : ℕ) (rs : List Release) (f : Fits i ret threads)
    (ready : IsReady i dsts threads (suc pool) rs) where
  abbrev start : Terms
  start = record { full = []; cur = []; room = core_count_max; pool = pool }

  hdr_len_le : hdr_len i.audio_kcp ≤ 4
  hdr_len_le = ground arith

  length-frame_bytes :
      length (frame_bytes i ret threads) + 4 ≤ space i.packet_data_size i.audio_kcp 3 []
  unfolding frame_bytes
  length-frame_bytes =
      let hdr = term_hdr i.info i.downsample i.chroma_ss (quality_of i.delta_prog ret) in
      let size = i.packet_data_size in
      let few : length threads * size ≤ 3 * size = grind arith in
      omega (
        arith,
        length-append (hdr_bytes i.audio_kcp i.info i.downsample hdr i.wide i.both_eyes)
            (size_bytes i.info (i.core_count - 1) 0 threads ++ concat threads),
        length-append (size_bytes i.info (i.core_count - 1) 0 threads) (concat threads),
        length-size_bytes i.info (i.core_count - 1) 0 threads,
        length-hdr_bytes i.audio_kcp i.info i.downsample hdr i.wide i.both_eyes,
        length-concat_le size threads ready.packets,
        hdr_len_le,
        ready.large,
        ready.cores,
      )

  empty : IsFilled i.packet_data_size i.audio_kcp [] []
  empty = record { whole = tt; fits = omega arith; has_hdr = tt }

  gathered :
      Appends i.packet_data_size i.audio_kcp start
        (frame_bytes i ret threads)
        (copy_all i ret dsts start)
  gathered =
      copy_all-Appends i ret dsts threads start (omega (arith, hdr_len_le, ready.large)) f.each
        ready.there empty (omega (arith, ready.buffers)) length-frame_bytes

  filled_up :
      (t : Terms)
      → IsFilled i.packet_data_size i.audio_kcp t.full t.cur
      → All (λ p. length p ≡ i.packet_data_size) (packets_of i.packet_data_size t)
  unfolding packets_of
  filled_up t g =
      let pad = replicate {A = ℕ} (i.packet_data_size - length t.cur) 0 in
      All-append (λ p. length p ≡ i.packet_data_size) t.full ((t.cur ++ pad) ∷ []) g.whole
        (
          omega (
            arith,
            length-append t.cur pad,
            length-replicate {A = ℕ} (i.packet_data_size - length t.cur) 0,
            g.fits,
          ),
          tt,
        )

  few_packets : Accepts (length (packets_of i.packet_data_size gathered.after)) rs
  unfolding packets_of
  few_packets =
      let t = gathered.after in
      let last = (t.cur ++ replicate {A = ℕ} (i.packet_data_size - length t.cur) 0) ∷ [] in
      Accepts-le (length (t.full ++ last)) 4 rs
        (omega (arith, gathered.slots, length-append t.full last)) ready.accepts

  text_start : text i.audio_kcp start ≡ []
  unfolding joined later
  text_start = refl

  read_all :
      read_frame (joined i.audio_kcp (packets_of i.packet_data_size gathered.after))
      ≡ some (sent_frame i ret threads)
  unfolding packets_of
  read_all =
      let t = gathered.after in
      let pad = replicate {A = ℕ} (i.packet_data_size - length t.cur) 0 in
      rw
        (
          joined-extend i.audio_kcp t.full t.cur pad gathered.filled.has_hdr,
          gathered.wrote,
          text_start,
        )
        (read_frame-frame_bytes i ret threads f pad)

  -- Where the bytes of every thread are there, with buffers for them and a queue that accepts, the
  -- call succeeds; its packets are full, and the last one is marked; from them a receiver gets the
  -- fields of the headers and, for each thread, five bits of its number of rows and its bytes.
  pub send_term_dsts-IsReceived :
      IsReceived i ret dsts threads (send_term_dsts i ret dsts true (suc pool) rs)
  unfolding send_term_dsts send_present send_waited send_copied
  send_term_dsts-IsReceived =
      let packets = packets_of i.packet_data_size gathered.after in
      let (bytes, there) = first_there dsts threads ready.some_thread ready.there in
      record {
        packets = packets;
        sent =
            rw (there, gathered.ok, queue_packets_lem i.w i.packet_data_size packets rs few_packets)
              refl;
        sizes = filled_up gathered.after gathered.filled;
        frame = read_all;
      }
