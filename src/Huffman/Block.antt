-- ===== src/Huffman/Block.antt =====
-- encode_one_block (encoder/encode/compress.rs): the 64 coefficients of a block. An i32 is its u32
-- pattern, a coefficient its i16 pattern.
use ntr_hr.Base.{
  ℕ, zero, suc, ◌+◌, ◌-◌, ◌*◌, ◌/◌, ◌^◌, List, [], ◌∷◌, map, ltb, leb, ◌==◌, if◌then◌else◌, get_or,
  drop,
}
use ntr_hr.Base.Word.{u16, u32, sub32, not32}
use ntr_hr.Sink.State.{WorkerDst, Env}
use ntr_hr.Coder.Buffer.{BitEncoderState, EncodeBuffer, init, put_bits, put_code, store}
use ntr_hr.Jpeg.Tables.{jpeg_natural_order}
use ntr_hr.Huffman.Derive.{DerivedTbl}

abbrev pub Coding : Type 0
Coding = BitEncoderState × EncodeBuffer

-- `x as i32`.
unfoldable pub sign_extend : ℕ → ℕ
sign_extend x = if ltb x (2 ^ 15) then x else x + (2 ^ 32 - 2 ^ 16)

-- `32 - x.leading_zeros()`.
unfoldable pub bit_length : ℕ → ℕ → ℕ
bit_length zero x = 0
bit_length (suc fuel) x = let n = bit_length fuel (x / 2) in if x == 0 then 0 else suc n

unfoldable pub jpeg_nbits_nonzero : ℕ → ℕ
jpeg_nbits_nonzero x = bit_length 32 x

-- `val >> 31`, and `x ^ sign1` for such a sign.
unfoldable pub sign_of : ℕ → ℕ
sign_of val = if ltb val (2 ^ 31) then 0 else 2 ^ 32 - 1

unfoldable pub xor_sign : ℕ → ℕ → ℕ
xor_sign x sign = if sign == 0 then x else not32 x

-- `val1` and `bits`.
unfoldable pub val1_of : ℕ → ℕ
val1_of val = u32 (val + sign_of val)

unfoldable pub nbits_of : ℕ → ℕ
nbits_of val = jpeg_nbits_nonzero (xor_sign (val1_of val) (sign_of val))

unfoldable pub put_entry : DerivedTbl → ℕ → Coding → Coding
put_entry tbl v (s, u) = put_bits (get_or tbl.ehufco v 0) (get_or tbl.ehufsi v 0) s u

unfoldable pub put_value : DerivedTbl → ℕ → ℕ → ℕ → Coding → Coding
put_value tbl v temp nbits (s, u) =
    put_code (get_or tbl.ehufco v 0) (get_or tbl.ehufsi v 0) temp nbits s u

-- A code for each 16 zeros; `r` counts 16 for each zero.
unfoldable pub put_zero_runs : ℕ → DerivedTbl → ℕ → Coding → ℕ × Coding
put_zero_runs zero tbl r su = (r, su)
put_zero_runs (suc fuel) tbl r su =
    let rest = put_zero_runs fuel tbl (r - 16 * 16) (put_entry tbl 0xf0 su) in
    if leb (16 * 16) r then rest else (r, su)

unfoldable pub encode_ac : DerivedTbl → List ℕ → ℕ → Coding → Coding
encode_ac tbl [] r su = if ltb 0 r then put_entry tbl 0 su else su
encode_ac tbl (val ∷ vals) r su =
    let (r', su') = put_zero_runs (suc r) tbl r su in
    let zeros = encode_ac tbl vals (r + 16) su in
    let coded =
      encode_ac tbl vals 0 (put_value tbl (r' + nbits_of val) (val1_of val) (nbits_of val) su') in
    if val == 0 then zeros else coded

-- The values of a block in zigzag order, without the first.
abbrev pub ac_values : List ℕ → List ℕ
ac_values block = map (λ k. sign_extend (get_or block k 0)) (drop 1 jpeg_natural_order)

abbrev pub dc_difference : List ℕ → ℕ → ℕ
dc_difference block last_dc_val = sub32 (sign_extend (get_or block 0 0)) (sign_extend last_dc_val)

abbrev pub bufsize : ℕ
bufsize = 64 * 8

-- The calls on the buffer.
unfoldable pub encode_values : List ℕ → ℕ → DerivedTbl → DerivedTbl → Coding → Coding
encode_values block last_dc_val dc_tbl ac_tbl su =
    let val = dc_difference block last_dc_val in
    encode_ac ac_tbl (ac_values block) 0
      (put_value dc_tbl (nbits_of val) (val1_of val) (nbits_of val) su)

unfoldable pub encode_one_block :
    List ℕ
    → ℕ
    → DerivedTbl
    → DerivedTbl
    → BitEncoderState
    → WorkerDst
    → Env
    → ℕ × BitEncoderState × WorkerDst × Env
encode_one_block block last_dc_val dc_tbl ac_tbl s dst e =
    let d = record dst { blkn = u16 (dst.blkn + 1) } in
    let (s', u) =
      encode_values block last_dc_val dc_tbl ac_tbl (s, init bufsize d.rel_stream d e) in
    let (d', e') = store u in (get_or block 0 0, s', d', e')
