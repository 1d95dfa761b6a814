-- ===== src/Huffman/Bounds.antt =====
-- encode_one_block as a whole: the room its buffer needs, and what arrives in the packets.
use ntr_hr.Base.{
  ℕ, zero, suc, ◌+◌, ◌-◌, ◌*◌, ◌/◌, ◌%◌, ◌^◌, ◌<◌, ◌≤◌, ◌≡◌, refl, sym, ap, ◌∙◌, inl, inr, Bool,
  true, false, List, [], ◌∷◌, ◌++◌, All, ltb, ◌==◌, get_or, replicate, length, length-append,
  Bool-cases, arith,
}
use ntr_hr.Base.Word.{u16}
use ntr_hr.Base.Digits.{bits}
use ntr_hr.Sink.State.{WorkerDst, Env}
use ntr_hr.Sink.Stream.{Wrote, Room}
use ntr_hr.Coder.Buffer.{BitEncoderState, EncodeBuffer, init}
use ntr_hr.Coder.Escape.{escape, emitted}
use ntr_hr.Coder.Stream.{Coded, digits_of}
use ntr_hr.Coder.Finish.{store-Wrote}
use ntr_hr.Coder.Kept.{Kept}
use ntr_hr.Huffman.Derive.{DerivedTbl}
use ntr_hr.Huffman.Symbols.{IsPrefixCode}
use ntr_hr.Huffman.Block.{
  val1_of, nbits_of, encode_values, encode_one_block, ac_values, dc_difference, bufsize,
}
use ntr_hr.Huffman.Value.{IsSmall, value}
use ntr_hr.Huffman.Tokens.{Token, tokens}
use ntr_hr.Huffman.Emit.{
  token_bits, ac_bits, ac_bits-append, block_bits, ac_tokens, dc_token, encode_values-Holds,
}

length-bits : (n v : ℕ) → length (bits n v) ≡ n
unfolding bits
length-bits zero v = refl
length-bits (suc n) v =
    omega (arith, length-append (bits n (v / 2)) (v % 2 ∷ []), length-bits n (v / 2))

length-token_bits :
    {tbl : DerivedTbl} (t : Token) (most : ℕ)
    → IsPrefixCode tbl
    → t.1 ≤ most
    → length (token_bits tbl t) ≤ 16 + most
length-token_bits {tbl} (sym, k, x) most p h = omega (
  arith,
  h,
  (p.each sym).size,
  length-append (bits (get_or tbl.ehufsi sym 0) (get_or tbl.ehufco sym 0)) (bits k x),
  length-bits (get_or tbl.ehufsi sym 0) (get_or tbl.ehufco sym 0),
  length-bits k x,
)

length-runs :
    {tbl : DerivedTbl} (q : ℕ)
    → IsPrefixCode tbl
    → length (ac_bits tbl (replicate q (0xf0, 0, 0))) ≤ 16 * q
unfolding ac_bits
length-runs zero p = omega arith
length-runs {tbl} (suc q) p = omega (
  arith,
  length-append (token_bits tbl (0xf0, 0, 0)) (ac_bits tbl (replicate q (0xf0, 0, 0))),
  length-token_bits (0xf0, 0, 0) 0 p (omega arith),
  length-runs q p,
)

-- At most 31 bits for each value, zeros or not.
length-ac_bits :
    {tbl : DerivedTbl} (vs : List ℕ) (z : ℕ)
    → IsPrefixCode tbl
    → All IsSmall vs
    → length (ac_bits tbl (tokens vs z)) ≤ 31 * (z + length vs)
unfolding ac_bits tokens
length-ac_bits [] zero p h = omega arith
length-ac_bits {tbl} [] (suc z) p h =
    let a : ltb 0 (suc z) ≡ true = ground arith in
    rw a (
      omega (
        arith,
        length-append (token_bits tbl (0, 0, 0)) [],
        length-token_bits (0, 0, 0) 0 p (omega arith),
      ))
length-ac_bits {tbl} (v ∷ vs) z p h = elim (Bool-cases (v == 0)) [
  | inl e ↦ rw e (omega (arith, length-ac_bits vs (suc z) p h.1))
  | inr e ↦
      let t : Token = (z % 16 * 16 + nbits_of v, nbits_of v, val1_of v) in
      let runs = replicate {A = Token} (z / 16) (0xf0, 0, 0) in
      rw e (
        omega (
          arith,
          ap length (ac_bits-append tbl runs (t ∷ tokens vs 0)),
          length-append (ac_bits tbl runs) (ac_bits tbl (t ∷ tokens vs 0)),
          length-append (token_bits tbl t) (ac_bits tbl (tokens vs 0)),
          length-runs (z / 16) p,
          length-token_bits t 15 p (value v h.0).small,
          length-ac_bits vs 0 p h.1,
        ))
]

length-digits_of : (bs : List ℕ) → length (digits_of bs) ≡ 8 * length bs
unfolding digits_of
length-digits_of [] = refl
length-digits_of (b ∷ bs) =
    omega (arith, length-append (bits 8 b) (digits_of bs), length-bits 8 b, length-digits_of bs)

length-escape : (bs : List ℕ) → length (escape bs) ≤ 2 * length bs
unfolding escape
length-escape [] = omega arith
length-escape (b ∷ bs) = ground (arith, length-escape bs)

length-emitted : (plain : Bool) (bs : List ℕ) → length (emitted plain bs) ≤ 2 * length bs
length-emitted true bs = omega arith
length-emitted false bs = length-escape bs

length-block_bits :
    {dc_tbl ac_tbl : DerivedTbl} (block : List ℕ) (last : ℕ)
    → IsPrefixCode dc_tbl
    → IsPrefixCode ac_tbl
    → IsSmall (dc_difference block last)
    → All IsSmall (ac_values block)
    → length (block_bits block last dc_tbl ac_tbl) ≤ 31 * 64
length-block_bits {dc_tbl} {ac_tbl} block last p q h k = omega (
  arith,
  length-append (token_bits dc_tbl (dc_token block last)) (ac_bits ac_tbl (ac_tokens block)),
  length-token_bits (dc_token block last) 15 p (value (dc_difference block last) h).small,
  length-ac_bits (ac_values block) 0 q k,
)

-- A buffer that took in at most 64 values behind at most 32 pending bits.
buffer_fits :
    {stream : List ℕ} {s : BitEncoderState} {u : EncodeBuffer}
    → Coded stream s u
    → length stream ≤ 32 + 31 * 64
    → length u.out ≤ bufsize
buffer_fits {stream} {s} {u} c h = omega (
  arith,
  h,
  ap length c.text,
  ap length c.digits,
  length-append (digits_of c.raw) (bits (32 - s.free_bits) s.c),
  length-digits_of c.raw,
  length-emitted u.no_escape c.raw,
)

-- What a block leaves in the packets behind `text`, and what stays pending.
pub record Sent (buf : ℕ) (text stream : List ℕ) (s : BitEncoderState) (d : WorkerDst) (e : Env)
    : Type 0 where
  pub raw : List ℕ
  pub wrote : Wrote buf (text ++ escape raw) d e
  pub digits : digits_of raw ++ bits (32 - s.free_bits) s.c ≡ stream
  pub fits : length (escape raw) ≤ bufsize

-- Over plain UDP, encode_one_block writes behind the text of the sink the bytes of the pending bits
-- and the block's, with a zero behind each 0xff, but for the last bits, which stay pending. The
-- block's bits are a code for the difference to the last DC value and for each run of zeros and
-- value in zigzag order. The bytes fit the local buffer. The tables are prefix codes, the values
-- are between -2^15 and 2^15, a packet has room for the local buffer, and the thread's buffer has
-- room for the next packet.
pub encode_one_block-Sent :
    (block : List ℕ) (last : ℕ) (dc_tbl ac_tbl : DerivedTbl) (s : BitEncoderState) {buf : ℕ}
    {text : List ℕ} {d : WorkerDst} {e : Env}
    → IsPrefixCode dc_tbl
    → IsPrefixCode ac_tbl
    → IsSmall (dc_difference block last)
    → All IsSmall (ac_values block)
    → s.c < 2 ^ 32
    → s.free_bits ≤ 32
    → Wrote buf text d e
    → Room e
    → bufsize ≤ e.packet_data_size
    → let (dc, s', d', e') = encode_one_block block last dc_tbl ac_tbl s d e in
      (dc ≡ get_or block 0 0)
      × Sent buf text (bits (32 - s.free_bits) s.c ++ block_bits block last dc_tbl ac_tbl) s' d' e'
unfolding encode_one_block init digits_of escape
encode_one_block-Sent block last dc_tbl ac_tbl s {buf} {text} {d} {e} p q h k low room v roomy big =
    let d1 = record d { blkn = u16 (d.blkn + 1) } in
    let u0 = init bufsize d.rel_stream d1 e in
    let pending = bits (32 - s.free_bits) s.c in
    let start : Coded pending s u0 = record {
      raw = [];
      text = rw v.udp refl;
      digits = refl;
      small = low;
      room = room;
      buffered = refl;
    } in
    let kept : Kept u0 u0 = record {
      dst = refl;
      env = refl;
      local = refl;
      no_escape = refl;
      buffered = refl;
    } in
    let (c, g) =
      encode_values-Holds block last dc_tbl ac_tbl {su = (s, u0)} p q h k (start, kept) in
    let u = (encode_values block last dc_tbl ac_tbl (s, u0)).1 in
    let few = buffer_fits c (
      omega (
        arith,
        length-append pending (block_bits block last dc_tbl ac_tbl),
        length-bits (32 - s.free_bits) s.c,
        length-block_bits block last p q h k,
      )) in
    let w : Wrote buf text d1 e = behind v in
    let w' : Wrote buf text u.dst u.env = rw (g.dst, g.env) w in
    let roomy' : Room u.env = rw g.env roomy in
    let out : u.out ≡ escape c.raw = c.text ∙ ap (λ b. emitted b c.raw) (g.no_escape ∙ v.udp) in
    let in_place : u.local ≡ false → length u.out ≤ u.dst.free_in_bytes = λ here.
      let there : ltb d.free_in_bytes bufsize ≡ false = sym g.local ∙ here in
      let same : u.dst.free_in_bytes ≡ d.free_in_bytes = ap (λ t. t.free_in_bytes) g.dst in
      ground (arith, there, same, few) in
    let size : length u.out ≤ u.env.packet_data_size =
      omega (arith, few, big, ap (λ t. t.packet_data_size) g.env) in
    let r = store-Wrote u w' roomy' c.buffered size in_place in
    (
      refl,
      record {
        raw = c.raw;
        wrote = rw out at (r);
        digits = c.digits;
        fits = omega (arith, few, ap length out);
      },
    )
  where
    behind : Wrote buf text d e → Wrote buf text (record d { blkn = u16 (d.blkn + 1) }) e
    behind v = record {
      udp = v.udp;
      ahead = v.ahead;
      begun = v.begun;
      full = v.full;
      small = v.small;
      some_room = v.some_room;
      holds = v.holds;
    }
