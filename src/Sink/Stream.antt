-- ===== src/Sink/Stream.antt =====
-- Over plain UDP the packets of a thread lie one behind the other in its buffer. So what the
-- nwm thread is told to send is the text that the encoder wrote.
use ntr_hr.Base.{
  ℕ, ◌+◌, ◌-◌, ◌^◌, ◌≤◌, ◌<◌, ◌≡◌, refl, ap, ◌∙◌, Bool, true, false, List, [], ◌∷◌, ◌++◌, length,
  take, drop, arith, ltb, ◌==◌, take_all, length-take, length-drop, take-drop, append_assoc, inl,
  inr, Bool-cases,
}
use ntr_hr.Base.Word.{u16}
use ntr_hr.Base.Memory.{copy, slice, length-slice, slice-copy_extend}
use ntr_hr.Consts.{term_flag}
use ntr_hr.Sink.State.{WorkerDst, Env}
use ntr_hr.Sink.Send.{rp_send_buffer, send_udp}
use ntr_hr.Sink.Write.{
  flush, term, write_byte, write_bytes, put_byte, put_bytes, fill, flush_then, count_size,
}

-- `text` stands in memory from `buf` up to `dst`. The packet being filled began at `pos`.
pub record Wrote (buf : ℕ) (text : List ℕ) (d : WorkerDst) (e : Env) : Type 0 where
  pub udp : d.rel_stream ≡ false
  pub ahead : buf ≤ e.pos
  pub begun : e.pos ≤ d.dst
  pub full : d.dst + d.free_in_bytes ≡ e.pos + e.packet_data_size
  pub small : e.packet_data_size < 2 ^ 16
  pub some_room : 0 < e.packet_data_size
  pub holds : slice e.mem buf (d.dst - buf) ≡ text

-- The packet after this one still lies inside the buffer.
abbrev pub Room : Env → Type 0
Room e = e.pos + e.packet_data_size ≤ e.buf_packet_last

-- A call that succeeds, leaves the sizes of the buffer alone and moves `pos` by at most one packet.
pub record Writes (buf : ℕ) (text : List ℕ) (e : Env) (r : Bool × WorkerDst × Env) : Type 0 where
  pub ok : r.0 ≡ true
  pub wrote : Wrote buf text r.1 r.2
  pub same_size : r.2.packet_data_size ≡ e.packet_data_size
  pub same_last : r.2.buf_packet_last ≡ e.buf_packet_last
  pub same_flag : r.2.flag ≡ e.flag
  pub moved : r.2.pos ≤ e.pos + e.packet_data_size

module _ {buf : ℕ} {text : List ℕ} where
  pub put_bytes-Writes :
      (bs : List ℕ) (len : ℕ) {d : WorkerDst} {e : Env}
      → Wrote buf text d e
      → len ≡ length bs
      → len ≤ d.free_in_bytes
      → Writes buf (text ++ bs) e (put_bytes bs len d e)
  unfolding put_bytes
  put_bytes-Writes bs len {d} {e} v q fits = record {
    ok = refl;
    wrote = record {
      udp = v.udp;
      ahead = v.ahead;
      begun = omega arith;
      full = omega arith;
      small = v.small;
      some_room = v.some_room;
      holds =
          rw (take_all len bs (omega arith))
            (slice-copy_extend e.mem buf d.dst len text bs (omega arith) q v.holds);
    };
    same_size = refl;
    same_last = refl;
    same_flag = refl;
    moved = omega arith;
  }

  flush-Writes :
      {d : WorkerDst} {e : Env}
      → Wrote buf text d e
      → d.free_in_bytes ≡ 0
      → Room e
      → Writes buf text e (flush d e) × ((flush d e).1.free_in_bytes ≡ e.packet_data_size)
  unfolding flush rp_send_buffer send_udp count_size
  flush-Writes {d} {e} v z room = ground (arith, Bool-cases d.delta_prog)

  fill-Wrote :
      (bs : List ℕ) {d : WorkerDst} {e : Env}
      → Wrote buf text d e
      → d.free_in_bytes ≤ length bs
      → let (d', e') = fill bs d e in Wrote buf (text ++ take d.free_in_bytes bs) d' e'
  unfolding fill
  fill-Wrote bs {d} {e} v h = record {
    udp = v.udp;
    ahead = v.ahead;
    begun = omega arith;
    full = omega arith;
    small = v.small;
    some_room = v.some_room;
    holds =
        slice-copy_extend e.mem buf d.dst d.free_in_bytes text (take d.free_in_bytes bs)
          (omega arith) (omega (arith, length-take d.free_in_bytes bs)) v.holds;
  }

  -- `put_bytes` stays in its packet, so a call that may flush moves `pos` once.
  Writes-then_put :
      (bs : List ℕ) (len : ℕ) {d : WorkerDst} {e e' : Env}
      → Wrote buf text d e'
      → (e'.packet_data_size ≡ e.packet_data_size)
      → (e'.buf_packet_last ≡ e.buf_packet_last)
      → (e'.flag ≡ e.flag)
      → e'.pos ≤ e.pos + e.packet_data_size
      → len ≡ length bs
      → len ≤ d.free_in_bytes
      → Writes buf (text ++ bs) e (put_bytes bs len d e')
  unfolding put_bytes
  Writes-then_put bs len {d} {e} {e'} v size last flag' moved q fits = record {
    ok = refl;
    wrote = (put_bytes-Writes bs len v q fits).wrote;
    same_size = size;
    same_last = last;
    same_flag = flag';
    moved = moved;
  }

  flush_then-Writes :
      (bs : List ℕ) (len : ℕ) {d : WorkerDst} {e : Env}
      → Wrote buf text d e
      → d.free_in_bytes ≡ 0
      → len ≡ length bs
      → len ≤ e.packet_data_size
      → Room e
      → Writes buf (text ++ bs) e (flush_then bs len d e)
  unfolding flush_then
  flush_then-Writes bs len {d} {e} v z q fits room =
      let (f, free) = flush-Writes v z room in
      rw f.ok (
        Writes-then_put bs len f.wrote f.same_size f.same_last f.same_flag f.moved q
          (omega (arith, free)))

fill_flush-Writes :
    (bs : List ℕ) (len : ℕ) {buf : ℕ} {text : List ℕ} {d : WorkerDst} {e : Env}
    → Wrote buf text d e
    → len ≡ length bs
    → d.free_in_bytes < len
    → len ≤ e.packet_data_size
    → Room e
    → Writes buf (text ++ bs) e (
        flush_then
          (drop d.free_in_bytes bs)
          (len - d.free_in_bytes)
          (fill bs d e).0
          (fill bs d e).1)
unfolding fill
fill_flush-Writes bs len {buf} {text} {d} {e} v q more fits room =
    let r =
      flush_then-Writes (drop d.free_in_bytes bs) (len - d.free_in_bytes)
        (fill-Wrote bs v (omega arith)) refl (omega (arith, length-drop d.free_in_bytes bs))
        (omega arith) room in
    record {
      ok = r.ok;
      wrote = rw regroup at (r.wrote);
      same_size = r.same_size;
      same_last = r.same_last;
      same_flag = r.same_flag;
      moved = r.moved;
    }
  where
    regroup : (text ++ take d.free_in_bytes bs) ++ drop d.free_in_bytes bs ≡ text ++ bs
    regroup =
        append_assoc text (take d.free_in_bytes bs) (drop d.free_in_bytes bs)
        ∙ ap (λ t. text ++ t) (take-drop d.free_in_bytes bs)

pub put_byte-eq-put_bytes :
    (b : ℕ) (d : WorkerDst) (e : Env) → put_byte b d e ≡ put_bytes (b ∷ []) 1 d e
unfolding put_byte put_bytes copy
put_byte-eq-put_bytes b d e = refl

-- write_bytes on plain UDP: with at most a packet of bytes (a u16 count) and room for the next
-- packet, the call succeeds and the buffer holds the bytes written before, then these.
pub write_bytes-Writes :
    (bs : List ℕ) {buf : ℕ} {text : List ℕ} {d : WorkerDst} {e : Env}
    → Wrote buf text d e
    → length bs ≤ e.packet_data_size
    → Room e
    → Writes buf (text ++ bs) e (write_bytes bs d e)
unfolding write_bytes
write_bytes-Writes bs {buf} {text} {d} {e} v fits room = elim (Bool-cases (ltb 0 d.free_in_bytes)) [
  | inr p ↦ rw p (flush_then-Writes bs _ v (ground arith) count fits' room)
  | inl p ↦ elim (Bool-cases (ltb d.free_in_bytes (u16 (length bs)))) [
    | inr q ↦ rw (p, q) (Writes-then_put bs _ v refl refl refl (omega arith) count (ground arith))
    | inl q ↦ rw (p, q) (fill_flush-Writes bs _ v count (ground arith) fits' room)
  ]
]
  where
    count : u16 (length bs) ≡ length bs
    count = omega (arith, v.small)

    fits' : u16 (length bs) ≤ e.packet_data_size
    fits' = omega (arith, v.small)

-- write_byte on plain UDP likewise appends one byte.
pub write_byte-Writes :
    (b : ℕ) {buf : ℕ} {text : List ℕ} {d : WorkerDst} {e : Env}
    → Wrote buf text d e
    → Room e
    → Writes buf (text ++ b ∷ []) e (write_byte b d e)
unfolding write_byte flush_then
write_byte-Writes b {buf} {text} {d} {e} v room = elim (Bool-cases (d.free_in_bytes == 0)) [
  | inl p ↦
      rw (p, put_byte-eq-put_bytes)
        (flush_then-Writes (b ∷ []) 1 v (ground arith) refl (omega (arith, v.some_room)) room)
  | inr p ↦
      rw (p, put_byte-eq-put_bytes)
        (Writes-then_put (b ∷ []) 1 v refl refl refl (omega arith) refl (ground arith))
]

-- term publishes the last, shorter packet: `pos` reaches the end of the text, so the bytes from
-- `buf` to `pos` are all that was written, and the flag says that nothing follows.
pub term_publishes :
    {buf : ℕ} {text : List ℕ} {d : WorkerDst} {e : Env}
    → Wrote buf text d e
    → let (ok, d', e') = term d e in
      (ok ≡ true)
      × (slice e'.mem buf (e'.pos - buf) ≡ text)
      × (e'.pos ≡ buf + length text)
      × (e'.flag ≡ term_flag)
unfolding term rp_send_buffer send_udp count_size
term_publishes {buf} {text} {d} {e} v = ground (
  arith,
  Bool-cases d.delta_prog,
  length-slice e.mem buf (d.dst - buf),
  ap (length {A = ℕ}) v.holds,
)
