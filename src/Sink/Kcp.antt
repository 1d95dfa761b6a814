-- ===== src/Sink/Kcp.antt =====
-- On the reliable stream each packet is its own buffer. Before it is handed over it gets a
-- length word and, unless it is the last one of a frame, the work and thread index.
use ntr_hr.Base.{
  ℕ, ◌+◌, ◌-◌, ◌*◌, ◌/◌, ◌%◌, ◌^◌, ◌≤◌, ◌<◌, ◌≡◌, refl, ap, ◌∙◌, Bool, true, false, List, [], ◌∷◌,
  none, some, arith, if◌then◌else◌, or_disjoint_low,
}
use ntr_hr.Base.Word.{u16, u32}
use ntr_hr.Base.Memory.{Memory, copy, slice, slice-copy_self, slice-copy_before}
use ntr_hr.Sink.State.{WorkerDst, Env, Release, released, timeout, failed}
use ntr_hr.Sink.Send.{
  le16, le32, arq_hdr, write_hdr, send_kcp, send_udp, rp_send_buffer, after_rel, set_term_dst,
  rel_loop, done, rp_data_buf_malloc, take_buf, rp_data_buf_data, fresh_packet,
}

-- The receiver's reading of the header: the work index is bit 13, the thread index the two bits
-- above it.
abbrev pub hdr_w : ℕ → ℕ
hdr_w h = h / 2 ^ 13 % 2

abbrev pub hdr_t : ℕ → ℕ
hdr_t h = h / 2 ^ 14

-- The header keeps both indices apart and leaves the 13 bits below to the packet and channel ids.
pub arq_hdr_fields :
    (w t : ℕ)
    → w < 2
    → t < 4
    → (hdr_w (arq_hdr w t) ≡ w) × (hdr_t (arq_hdr w t) ≡ t) × (arq_hdr w t % 2 ^ 13 ≡ 0)
unfolding arq_hdr
arq_hdr_fields w t h k =
    let e : u16 (w * 2 ^ 13) ≡ w * 2 ^ 13 = omega arith in
    let f : u16 (t * 2 ^ 14) ≡ t * 2 ^ 14 = omega arith in
    rw (e, f, or_disjoint_low 14 t (w * 2 ^ 13) (omega arith)) (omega arith)

abbrev pub Accepted : List Release → Type 0
Accepted [] = ⊥
Accepted (released ∷ rs) = Unit
Accepted (timeout ∷ rs) = Accepted rs
Accepted (failed ∷ rs) = ⊥

-- What is in memory for a packet of `n` payload bytes whose payload starts at `p`, behind a
-- header: the length word counts the header.
pub record Framed (w t p n : ℕ) (payload : List ℕ) (m : Memory) : Type 0 where
  pub size_word : slice m (p - 6) 4 ≡ le32 (u32 (u32 n + 2))
  pub header : slice m (p - 2) 2 ≡ le16 (arq_hdr w t)
  pub body : slice m p n ≡ payload

frame : ℕ → ℕ → ℕ → ℕ → Memory → Memory
frame w t p n m = copy (write_hdr w t (p - 2) m) (p - 2 - 4) (le32 (u32 (u32 n + 2)))

frame-Framed : (w t p n : ℕ) (m : Memory) → 6 ≤ p → Framed w t p n (slice m p n) (frame w t p n m)
unfolding frame write_hdr
frame-Framed w t p n m h = record {
  size_word =
      let e : p - 6 ≡ p - 2 - 4 = omega arith in
      rw e (slice-copy_self (write_hdr w t (p - 2) m) (p - 2 - 4) (le32 (u32 (u32 n + 2))));
  header =
      slice-copy_before (write_hdr w t (p - 2) m) (p - 2 - 4) (le32 (u32 (u32 n + 2))) (p - 2) 2
        (omega arith)
      ∙ slice-copy_self m (p - 2) (le16 (arq_hdr w t));
  body =
      slice-copy_before (write_hdr w t (p - 2) m) (p - 2 - 4) (le32 (u32 (u32 n + 2))) p n
        (omega arith)
      ∙ slice-copy_before m (p - 2) (le16 (arq_hdr w t)) p n (omega arith);
}

rel_loop-Accepted :
    (rs : List Release) → Accepted rs → (left : List Release) × (rel_loop rs ≡ done left)
unfolding rel_loop
rel_loop-Accepted [] h = absurd h
rel_loop-Accepted (released ∷ rs) h = (rs, refl)
rel_loop-Accepted (timeout ∷ rs) h = rel_loop-Accepted rs h
rel_loop-Accepted (failed ∷ rs) h = absurd h

-- What a full packet handed over in the buffer `next` leaves behind.
pub record Sent (d : WorkerDst) (e : Env) (next : ℕ) (rest : List ℕ) (r : Bool × WorkerDst × Env)
    : Type 0 where
  pub ok : r.0 ≡ true
  pub next_dst : r.1.dst ≡ rp_data_buf_data next
  pub next_free : r.1.free_in_bytes ≡ e.packet_data_size
  pub queued : r.2.queue ≡ (d.dst - e.packet_data_size - 2) ∷ e.queue
  pub bufs : r.2.mallocs ≡ rest
  pub framed :
      Framed d.w d.t
        (d.dst - e.packet_data_size)
        e.packet_data_size
        (slice e.mem (d.dst - e.packet_data_size) e.packet_data_size)
        r.2.mem

rp_send_buffer-eq-send_kcp :
    (d : WorkerDst) (t : Bool) (e : Env)
    → d.rel_stream ≡ true
    → rp_send_buffer d t e ≡ send_kcp d t e
unfolding rp_send_buffer
rp_send_buffer-eq-send_kcp d t e rel = ap (λ b. if b then send_kcp d t e else send_udp d t e) rel

rp_data_buf_malloc_next :
    (e : Env) {next : ℕ} {rest : List ℕ}
    → e.reset ≡ false
    → e.mallocs ≡ next ∷ rest
    → rp_data_buf_malloc e ≡ (some next, record e { mallocs = rest })
unfolding rp_data_buf_malloc take_buf
rp_data_buf_malloc_next e run bufs =
    ap (λ b. if b then (none, e) else take_buf e.mallocs e) run ∙ ap (λ l. take_buf l e) bufs

-- On the reliable stream, where the queue accepts the packet after any number of timeouts and a
-- buffer is left, the call frames the full packet in place without touching its bytes, queues it
-- once, and goes on in the next buffer. No reset is pending and a packet is a u16 of bytes.
pub send_kcp-Sent :
    (d : WorkerDst) (e : Env) (next : ℕ) (rest : List ℕ)
    → d.rel_stream ≡ true
    → e.reset ≡ false
    → Accepted e.releases
    → e.mallocs ≡ next ∷ rest
    → e.packet_data_size < 2 ^ 16
    → e.packet_data_size + 6 ≤ d.dst
    → Sent d e next rest (rp_send_buffer d false e)
unfolding send_kcp after_rel
send_kcp-Sent d e next rest rel run acc bufs small fits =
    let (left, eq) = rel_loop-Accepted e.releases acc in
    let p = d.dst - e.packet_data_size - 2 in
    let m = frame d.w d.t (d.dst - e.packet_data_size) e.packet_data_size e.mem in
    let e' = record e { mem = m; releases = left; queue = p ∷ e.queue } in
    let all : rp_send_buffer d false e ≡ fresh_packet d (some next, record e' { mallocs = rest }) =
      unfold frame in
      rp_send_buffer-eq-send_kcp d false e rel
      ∙ ap (λ l. after_rel l p d (record e { mem = m })) eq
      ∙ ap (fresh_packet d) (rp_data_buf_malloc_next e' run bufs) in
    rw all (record {
      ok = refl;
      next_dst = refl;
      next_free = omega arith;
      queued = refl;
      bufs = refl;
      framed =
          frame-Framed d.w d.t (d.dst - e.packet_data_size) e.packet_data_size e.mem (omega arith);
    })

abbrev pub Refused : WorkerDst → Env → Bool × WorkerDst × Env → Type 0
Refused d e r = (r.0 ≡ false) × (r.1 ≡ d) × (r.2.queue ≡ e.queue) × (r.2.reset ≡ true)

after_rel-Refused :
    (rs : List Release) (p : ℕ) (d : WorkerDst) (e : Env)
    → ¬ (Accepted rs)
    → Refused d e (after_rel (rel_loop rs) p d e)
unfolding rel_loop after_rel rp_data_buf_malloc
after_rel-Refused [] p d e h = (refl, refl, refl, refl)
after_rel-Refused (released ∷ rs) p d e h = absurd (h tt)
after_rel-Refused (timeout ∷ rs) p d e h = after_rel-Refused rs p d e h
after_rel-Refused (failed ∷ rs) p d e h = (refl, refl, refl, refl)

-- Where the queue never accepts the packet (another error, or the threads' reset), the call
-- fails, the destination is unchanged, nothing is queued, and the threads are told to reset.
pub send_kcp-Refused :
    (d : WorkerDst) (e : Env)
    → d.rel_stream ≡ true
    → ¬ (Accepted e.releases)
    → Refused d e (rp_send_buffer d false e)
unfolding send_kcp
send_kcp-Refused d e rel h =
    rw (rp_send_buffer-eq-send_kcp d false e rel) (after_rel-Refused e.releases _ d _ h)

-- The last packet of a frame is left for the thread that ends the frame: its address goes into
-- an empty slot, and a slot that is taken is an error that changes no slot. The destination is
-- unchanged either way.
pub term_kcp :
    (d : WorkerDst) (e : Env)
    → d.rel_stream ≡ true
    → let (ok, d', e') = rp_send_buffer d true e in
      let p = d.dst - (e.packet_data_size - d.free_in_bytes) in
      (d' ≡ d)
      × ((e.term_dst ≡ none) → (ok ≡ true) × (e'.term_dst ≡ some p))
      × ((q : ℕ) → e.term_dst ≡ some q → (ok ≡ false) × (e'.term_dst ≡ some q))
unfolding send_kcp set_term_dst
term_kcp d e rel =
    rw (rp_send_buffer-eq-send_kcp d true e rel) (refl, λ h. ground arith, λ q h. ground arith)
