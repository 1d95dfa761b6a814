-- ===== src/Coder/Direct.antt =====
-- A buffer without room of its own: what is put into it goes to the sink byte by byte.
use ntr_hr.Base.{
  ℕ, ◌-◌, ◌^◌, ◌≤◌, ◌<◌, ◌≡◌, refl, sym, ap, ◌∙◌, inl, inr, true, false, List, [], ◌++◌, ltb,
  Bool-cases,
}
use ntr_hr.Base.Digits.{bits}
use ntr_hr.Sink.State.{WorkerDst, Env}
use ntr_hr.Jpeg.Writer.{Out, write_byte, write_each}
use ntr_hr.Jpeg.Segments.{write_each-append}
use ntr_hr.Coder.Buffer.{
  BitEncoderState, EncodeBuffer, init, put_direct, flush, raw_bytes, put_and_flush, put_bits, store,
}
use ntr_hr.Coder.Escape.{emitted}
use ntr_hr.Coder.Stream.{Coded, put_bits-Coded, digits_of}

-- A buffer `v` that keeps what `u` has handed on to the sink, from `o` on.
pub record Mirror (o : Out) (v u : EncodeBuffer) : Type 0 where
  pub kept : v.direct ≡ false
  pub raw : v.no_escape ≡ true
  pub direct : u.direct ≡ true
  pub as_is : u.no_escape ≡ true
  pub handed : (u.dst, u.env) ≡ write_each v.out o

flush-Mirror :
    (c : ℕ) {o : Out} {v u : EncodeBuffer} → Mirror o v u → Mirror o (flush c v) (flush c u)
unfolding flush put_direct write_each write_byte
flush-Mirror c {o} {v} {u} m =
    rw (m.raw, m.as_is, m.kept, m.direct)
      record {
        kept = refl;
        raw = refl;
        direct = refl;
        as_is = refl;
        handed = sym (
            write_each-append v.out (raw_bytes c) o ∙ ap (write_each (raw_bytes c)) (sym m.handed));
      }

pub put_bits-Mirror :
    (code size : ℕ) (s : BitEncoderState) {o : Out} {v u : EncodeBuffer}
    → Mirror o v u
    → let (s1, v1) = put_bits code size s v in
      let (s2, u2) = put_bits code size s u in (s2 ≡ s1) × Mirror o v1 u2
unfolding put_bits put_and_flush
put_bits-Mirror code size s m = elim (Bool-cases (ltb s.free_bits size)) [
  | inl p ↦ rw p (refl, flush-Mirror _ m)
  | inr p ↦ rw p (refl, m)
]

-- The bits that went to the sink behind `o`, byte for byte, and the pending ones.
pub record Streamed (stream : List ℕ) (o : Out) (s : BitEncoderState) (u : EncodeBuffer)
    : Type 0 where
  pub kept : EncodeBuffer
  pub mirror : Mirror o kept u
  pub coded : Coded stream s kept

-- put_bits on a buffer without room of its own: the bits of the code follow those already taken in,
-- in bytes that are in the sink, unescaped. A code fits its size, which is at most 31.
pub put_bits-Streamed :
    (code size : ℕ) {stream : List ℕ} {o : Out} {s : BitEncoderState} {u : EncodeBuffer}
    → Streamed stream o s u
    → code < 2 ^ size
    → size ≤ 31
    → let (s', u') = put_bits code size s u in Streamed (stream ++ bits size code) o s' u'
put_bits-Streamed code size {stream} {o} {s} {u} v fits h =
    let (e, m) = put_bits-Mirror code size s v.mirror in
    record {
      kept = (put_bits code size s v.kept).1;
      mirror = m;
      coded = rw e (put_bits-Coded code size v.coded fits h);
    }

-- A fresh buffer, with what is pending from before.
pub init-Streamed :
    (s : BitEncoderState) (d : WorkerDst) (e : Env)
    → s.c < 2 ^ 32
    → s.free_bits ≤ 32
    → Streamed (bits (32 - s.free_bits) s.c) (d, e) s (init 0 true d e)
unfolding init write_each digits_of
init-Streamed s d e h k = record {
  kept = record { direct = false; local = false; no_escape = true; out = []; dst = d; env = e };
  mirror = record { kept = refl; raw = refl; direct = refl; as_is = refl; handed = refl };
  coded = record { raw = []; text = refl; digits = refl; small = h; room = k; buffered = refl };
}

-- What store leaves of it: the sink behind the whole bytes of the stream.
pub store-Streamed :
    {stream : List ℕ} {o : Out} {s : BitEncoderState} {u : EncodeBuffer}
    → Streamed stream o s u
    → (raw : List ℕ) × (store u ≡ write_each raw o)
      × (digits_of raw ++ bits (32 - s.free_bits) s.c ≡ stream)
unfolding store
store-Streamed {stream} {o} {s} {u} v =
    let text : v.kept.out ≡ v.coded.raw =
      v.coded.text ∙ ap (λ b. emitted b v.coded.raw) v.mirror.raw in
    (
      v.coded.raw,
      rw v.mirror.direct (v.mirror.handed ∙ ap (λ t. write_each t o) text),
      v.coded.digits,
    )
