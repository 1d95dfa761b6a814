-- ===== src/Coder/Buffer.antt =====
-- `EncodeBuffer` and `BitEncoderState`. In a buffer of N bytes (N not 0) the bytes between the
-- buffer's start and `buf` are the list `out`; what emit_byte scribbles behind `buf` is not kept,
-- since the next byte overwrites it. With N = 0 (`direct`) each byte goes through write_byte,
-- whose result the code drops.
use ntr_hr.Base.{
  ℕ, zero, suc, ◌+◌, ◌-◌, ◌^◌, Bool, not, ◌&&◌, List, [], ◌∷◌, ◌++◌, bit_and, bit_or, ltb, leb,
  ◌==◌, if◌then◌else◌, length,
}
use ntr_hr.Base.Word.{u8, u32, shl32, shr, not32}
use ntr_hr.Base.Memory.{copy}
use ntr_hr.Sink.State.{WorkerDst, Env}
use ntr_hr.Sink.Write.{write_byte, write_bytes, advance_to}

-- `free_bits` is below 0 only inside put_bits, which hands what it holds there on in another
-- form, so that a stored value is a natural number.
pub record BitEncoderState : Type 0 where
  pub c : ℕ
  pub free_bits : ℕ

abbrev pub bit_buf_size : ℕ
bit_buf_size = 32

-- `local`: the base is the local array, to be copied by store; otherwise `out` stands at `dst.dst`.
pub record EncodeBuffer : Type 0 where
  pub direct : Bool
  pub local : Bool
  pub no_escape : Bool
  pub out : List ℕ
  pub dst : WorkerDst
  pub env : Env

unfoldable pub init : ℕ → Bool → WorkerDst → Env → EncodeBuffer
init n no_escape d e = record {
  direct = n == 0;
  local = not (n == 0) && ltb d.free_in_bytes n;
  no_escape = no_escape;
  out = [];
  dst = d;
  env = e;
}

unfoldable pub put_direct : ℕ → EncodeBuffer → EncodeBuffer
put_direct b u = let (_, d, e) = write_byte b u.dst u.env in record u { dst = d; env = e }

unfoldable pub emit_byte : ℕ → EncodeBuffer → EncodeBuffer
emit_byte b u =
    if u.direct
    then (let u' = put_direct b u in if not u.no_escape && b == 0xff then put_direct 0 u' else u')
    else if u.no_escape
    then record u { out = u.out ++ (b ∷ []) }
    else record u { out = u.out ++ (if ltb b 0xff then b ∷ [] else b ∷ 0 ∷ []) }

-- The test for a byte 0xff in a word.
unfoldable pub has_ff : ℕ → Bool
has_ff c = ltb 0 (bit_and (bit_and c 0x80808080) (not32 (u32 (c + 0x01010101))))

abbrev pub raw_bytes : ℕ → List ℕ
raw_bytes c = u8 (shr c 24) ∷ u8 (shr c 16) ∷ u8 (shr c 8) ∷ u8 c ∷ []

unfoldable pub flush : ℕ → EncodeBuffer → EncodeBuffer
flush c u =
    if not u.no_escape && has_ff c
    then emit_byte (u8 c)
        (emit_byte (u8 (shr c 8)) (emit_byte (u8 (shr c 16)) (emit_byte (u8 (shr c 24)) u)))
    else if u.direct
    then put_direct (u8 c)
        (put_direct (u8 (shr c 8)) (put_direct (u8 (shr c 16)) (put_direct (u8 (shr c 24)) u)))
    else record u { out = u.out ++ raw_bytes c }

-- Called with `free_bits` = `free` - `size` below 0: its opposite is `size - free`.
unfoldable pub put_and_flush :
    ℕ → ℕ → BitEncoderState → EncodeBuffer → BitEncoderState × EncodeBuffer
put_and_flush code size s u =
    let over = size - s.free_bits in
    let c = bit_or (shl32 s.c s.free_bits) (shr code over) in
    (record { c = code; free_bits = bit_buf_size - over }, flush c u)

unfoldable pub put_bits : ℕ → ℕ → BitEncoderState → EncodeBuffer → BitEncoderState × EncodeBuffer
put_bits code size s u =
    if ltb s.free_bits size
    then put_and_flush code size s u
    else (record { c = bit_or (shl32 s.c size) code; free_bits = s.free_bits - size }, u)

-- `temp` is the u32 pattern of the i32.
unfoldable pub put_code :
    ℕ → ℕ → ℕ → ℕ → BitEncoderState → EncodeBuffer → BitEncoderState × EncodeBuffer
put_code code size temp nbits s u =
    put_bits (bit_or (bit_and temp (2 ^ nbits - 1)) (shl32 code nbits)) (u8 (nbits + size)) s u

unfoldable pub store : EncodeBuffer → WorkerDst × Env
store u =
    if u.direct
    then (u.dst, u.env)
    else if u.local
    then (let (_, d, e) = write_bytes u.out u.dst u.env in (d, e))
    else (
      advance_to (u.dst.dst + length u.out) u.dst,
      record u.env { mem = copy u.env.mem u.dst.dst u.out },
    )

unfoldable pub reset : BitEncoderState → BitEncoderState
reset s = record { c = 0; free_bits = bit_buf_size }

-- The whole bytes of the `put_bits` pending bits, on as many rounds, and the bits left over.
unfoldable pub flush_whole : ℕ → ℕ → ℕ → EncodeBuffer → ℕ × EncodeBuffer
flush_whole zero c n u = (n, u)
flush_whole (suc fuel) c n u =
    let rest = flush_whole fuel c (n - 8) (emit_byte (u8 (shr c (n - 8))) u) in
    if leb 8 n then rest else (n, u)

-- A partial byte is filled with ones.
unfoldable pub flush_bits : BitEncoderState → EncodeBuffer → EncodeBuffer
flush_bits s u =
    let (n, u') = flush_whole 4 s.c (bit_buf_size - s.free_bits) u in
    if ltb 0 n then emit_byte (u8 (bit_or (shl32 s.c (8 - n)) (shr 0xff n))) u' else u'

-- BitEncoderState::flush, with its local array of 16 bytes.
unfoldable pub flush_state : BitEncoderState → Bool → WorkerDst → Env → WorkerDst × Env
flush_state s no_escape d e = store (flush_bits s (init 16 no_escape d e))
