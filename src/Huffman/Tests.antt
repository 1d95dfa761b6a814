-- ===== src/Huffman/Tests.antt =====
-- The standard tables, a block coded by them, and the theorems at both.
use ntr_hr.Base.{
  ℕ, ◌-◌, ◌^◌, ◌≡◌, refl, inl, inr, Bool, true, false, List, [], ◌∷◌, ◌++◌, All, Option, none, some,
  ltb, ◌&&◌, ◌||◌, replicate, Bool-cases, arith,
}
use ntr_hr.Base.Memory.{slice}
use ntr_hr.Base.Digits.{bits}
use ntr_hr.Sink.State.{WorkerDst, Env}
use ntr_hr.Sink.Stream.{Wrote}
use ntr_hr.Coder.Buffer.{BitEncoderState}
use ntr_hr.Jpeg.Tables.{
  HuffTbl, bits_dc_luminance, val_dc_luminance, bits_ac_luminance, val_ac_luminance,
}
use ntr_hr.Huffman.Derive.{
  DerivedTbl, do_set_derived_tbl, and_then, huff_sizes, huff_codes, codes_of, fill_tbl, prepend,
  no_codes,
}
use ntr_hr.Huffman.Symbols.{IsPrefixCode, do_set_derived_tbl-IsPrefixCode, code_of}
use ntr_hr.Huffman.Block.{
  encode_one_block, ac_values, dc_difference, sign_extend, val1_of, nbits_of, sign_of, xor_sign,
  jpeg_nbits_nonzero, bit_length,
}
use ntr_hr.Huffman.Value.{IsSmall}
use ntr_hr.Huffman.Tokens.{tokens, decode_ac, decode_ac-tokens}
use ntr_hr.Huffman.Emit.{block_bits}
use ntr_hr.Huffman.Bounds.{Sent, encode_one_block-Sent}

abbrev dc_luminance : HuffTbl
dc_luminance = record { bits = bits_dc_luminance; huff_vals = val_dc_luminance }

abbrev ac_luminance : HuffTbl
ac_luminance = record { bits = bits_ac_luminance; huff_vals = val_ac_luminance }

abbrev table_or : DerivedTbl → Option DerivedTbl → DerivedTbl
table_or d none = d
table_or d (some t) = t

abbrev dc_tbl : DerivedTbl
dc_tbl = table_or no_codes (do_set_derived_tbl dc_luminance 15)

abbrev ac_tbl : DerivedTbl
ac_tbl = table_or no_codes (do_set_derived_tbl ac_luminance 255)

dc_succeeds : do_set_derived_tbl dc_luminance 15 ≡ some dc_tbl
unfolding do_set_derived_tbl and_then huff_sizes huff_codes codes_of fill_tbl prepend
dc_succeeds = refl

ac_succeeds : do_set_derived_tbl ac_luminance 255 ≡ some ac_tbl
unfolding do_set_derived_tbl and_then huff_sizes huff_codes codes_of fill_tbl prepend
ac_succeeds = refl

-- The end of a block is 1010.
end_of_block : code_of ac_tbl 0 ≡ (10, 4)
unfolding do_set_derived_tbl and_then huff_sizes huff_codes codes_of fill_tbl prepend
end_of_block = refl

-- A table whose counts ask for three codes of one bit.
overfull : do_set_derived_tbl (record { bits = 0 ∷ 3 ∷ []; huff_vals = 1 ∷ 2 ∷ 3 ∷ [] }) 15 ≡ none
unfolding do_set_derived_tbl and_then huff_sizes huff_codes codes_of fill_tbl prepend
overfull = refl

dc_tbl-IsPrefixCode : IsPrefixCode dc_tbl
dc_tbl-IsPrefixCode =
    do_set_derived_tbl-IsPrefixCode dc_luminance 15 dc_tbl (omega arith) dc_succeeds

do_set_derived_tbl-IsPrefixCode_example : IsPrefixCode ac_tbl
do_set_derived_tbl-IsPrefixCode_example =
    do_set_derived_tbl-IsPrefixCode ac_luminance 255 ac_tbl (omega arith) ac_succeeds

ac_tbl-IsPrefixCode : IsPrefixCode ac_tbl
ac_tbl-IsPrefixCode =
    do_set_derived_tbl-IsPrefixCode ac_luminance 255 ac_tbl (omega arith) ac_succeeds

abbrev values : List ℕ
values = 5 ∷ 0 ∷ (2 ^ 32 - 3) ∷ 0 ∷ 0 ∷ []

values-IsSmall : All IsSmall values
values-IsSmall = (
  inl (omega arith),
  (
    inl (omega arith),
    (inr (omega arith, omega arith), (inl (omega arith), (inl (omega arith), tt))),
  ),
)

-- Behind seventeen zeros: one code for sixteen of them, and the end of the block for the last two.
decode_ac-tokens_example : decode_ac 22 (tokens values 17) ≡ replicate 17 0 ++ values
decode_ac-tokens_example = decode_ac-tokens values 17 values-IsSmall

three_tokens : tokens values 17 ≡ (0xf0, 0, 0) ∷ (19, 3, 5) ∷ (18, 2, 2 ^ 32 - 4) ∷ (0, 0, 0) ∷ []
unfolding tokens nbits_of val1_of sign_of xor_sign jpeg_nbits_nonzero bit_length
three_tokens = refl

-- A decidable form of IsSmall.
is_small : ℕ → Bool
is_small v = ltb v (2 ^ 15) || (ltb (2 ^ 32 - 2 ^ 15) v && ltb v (2 ^ 32))

abbrev all_small : List ℕ → Bool
all_small [] = true
all_small (v ∷ vs) = is_small v && all_small vs

is_small-IsSmall : (v : ℕ) → is_small v ≡ true → IsSmall v
unfolding is_small
is_small-IsSmall v h = elim (Bool-cases (ltb v (2 ^ 15))) [
  | inl p ↦ inl (ground (arith, p))
  | inr p ↦ inr (ground (arith, h, p), ground (arith, h, p))
]

all_small-IsSmall : (vs : List ℕ) → all_small vs ≡ true → All IsSmall vs
all_small-IsSmall [] h = tt
all_small-IsSmall (v ∷ vs) h = elim (Bool-cases (is_small v)) [
  | inl p ↦ (is_small-IsSmall v p, all_small-IsSmall vs (rw p at (h)))
  | inr p ↦ absurd (ground (arith, h, p))
]

-- A block with a few values, whose first byte, 0xff, comes of the pending ones.
abbrev block : List ℕ
block = 20 ∷ 3 ∷ (2 ^ 16 - 2) ∷ 0 ∷ 0 ∷ 7 ∷ replicate 58 0

abbrev pending : BitEncoderState
pending = record { c = 0xff; free_bits = 24 }

abbrev wide_dst : WorkerDst
wide_dst = record {
  blkn = 0;
  dst = 102;
  free_in_bytes = 598;
  rel_stream = false;
  delta_prog = false;
  w = 0;
  t = 0;
}

abbrev wide_env : Env
wide_env = record {
  mem = λ q. 7;
  pos = 100;
  flag = 0;
  buf_packet_last = 1300;
  packet_data_size = 600;
  compressed_size = 0;
  frame_size = 0;
  releases = [];
  mallocs = [];
  queue = [];
  term_dst = none;
  reset = false;
}

wide-Wrote : Wrote 100 (7 ∷ 7 ∷ []) wide_dst wide_env
unfolding slice
wide-Wrote = record {
  udp = refl;
  ahead = omega arith;
  begun = omega arith;
  full = refl;
  small = omega arith;
  some_room = omega arith;
  holds = refl;
}

block-IsSmall : All IsSmall (ac_values block)
unfolding sign_extend is_small
block-IsSmall = all_small-IsSmall (ac_values block) refl

difference-IsSmall : IsSmall (dc_difference block 23)
unfolding sign_extend is_small
difference-IsSmall = is_small-IsSmall (dc_difference block 23) refl

encode_one_block-Sent_example :
    let (dc, s', d', e') = encode_one_block block 23 dc_tbl ac_tbl pending wide_dst wide_env in
    (dc ≡ 20) × Sent 100 (7 ∷ 7 ∷ []) (bits 8 0xff ++ block_bits block 23 dc_tbl ac_tbl) s' d' e'
encode_one_block-Sent_example =
    encode_one_block-Sent block 23 dc_tbl ac_tbl pending dc_tbl-IsPrefixCode ac_tbl-IsPrefixCode
      difference-IsSmall block-IsSmall (omega arith) (omega arith) wide-Wrote (omega arith)
      (omega arith)
