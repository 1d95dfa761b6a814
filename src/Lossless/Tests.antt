-- ===== src/Lossless/Tests.antt =====
-- Small pictures: each theorem of the lossless coders at one of them.
use ntr_hr.Base.{
  ℕ, ◌+◌, ◌-◌, ◌*◌, ◌/◌, ◌%◌, ◌<◌, ◌≤◌, ◌≡◌, refl, inl, inr, true, false, List, [], ◌∷◌, ◌++◌,
  Option, none, some, min, length, ◌==◌, Bool-cases, arith,
}
use ntr_hr.Base.Word.{shr, IsByte}
use ntr_hr.Base.Memory.{Memory}
use ntr_hr.Base.Digits.{bits}
use ntr_hr.Sink.State.{WorkerDst, Env}
use ntr_hr.Jpeg.Tables.{HuffTbl}
use ntr_hr.Jpeg.Writer.{write_each}
use ntr_hr.Coder.Buffer.{BitEncoderState, init}
use ntr_hr.Coder.Stream.{digits_of}
use ntr_hr.Coder.Direct.{init-Streamed}
use ntr_hr.Huffman.Derive.{
  DerivedTbl, do_set_derived_tbl, and_then, huff_sizes, huff_codes, codes_of, fill_tbl, prepend,
  no_codes,
}
use ntr_hr.Huffman.Symbols.{IsPrefixCode, do_set_derived_tbl-IsPrefixCode}
use ntr_hr.Lossless.Format.{
  LosslessInfo, rgb565, even_odd, whole, downsample_screen_width, get_color_bias_from_format,
}
use ntr_hr.Lossless.Planes.{above, worker_buf_comps_size}
use ntr_hr.Lossless.Predict.{depth6, pred_pixel, residual, prediction, asr8}
use ntr_hr.Lossless.Copy.{Coding, copy_encode, copy_rgb8, start_step, is_color_bias}
use ntr_hr.Lossless.Rows.{read, symbol_at, table_of, do_compressed_encode}
use ntr_hr.Lossless.Predict.{top_bits}
use ntr_hr.Lossless.Delta.{encode_chunk}
use ntr_hr.Lossless.Decode.{decode_row, tabulate, decode_row-symbols}
use ntr_hr.Lossless.Stream.{gather, Taken, stripe_bits, do_compressed_encode-stripe}
use ntr_hr.Lossless.Choice.{codes, preds, diffs, shorter, encode_chunk-shorter}
use ntr_hr.Lossless.Nibbles.{nibbles, nibble_bits, bytes_per_pixel, copy_encode-nibbles}
use ntr_hr.Lossless.Parity.{copy_rgb8-parity}

abbrev picture : Memory
picture q = q * 7 % 251

picture-IsByte : (q : ℕ) → IsByte (picture q)
picture-IsByte q = omega arith

abbrev old_picture : Memory
old_picture q = q * 5 % 256

old_picture-IsByte : (q : ℕ) → IsByte (old_picture q)
old_picture-IsByte q = omega arith

-- In four bits 200 next to 190 is a step of one.
step_of_one : pred_pixel 200 none (some 190) none 4 ≡ 129
unfolding pred_pixel residual prediction asr8
step_of_one = refl

decode_row-symbols_example :
    decode_row 6
      (λ k. top_bits 6 (read picture (above 3 1 2 4 (12 + k))))
      0
      none
      none
      (tabulate (λ k. symbol_at picture 6 3 1 2 4 k (12 + k)) 0 3)
    ≡ tabulate (λ k. shr (picture (12 + k)) (8 - 6)) 0 3
decode_row-symbols_example = decode_row-symbols picture picture-IsByte depth6 3 1 2 4 12 3

-- The buffer of the narrowest pictures; a width of zero does not pass the assertions.
planes_sizes : (worker_buf_comps_size 120 ≡ some 2880) × (worker_buf_comps_size 0 ≡ none)
unfolding worker_buf_comps_size
planes_sizes = (refl, refl)

-- A table of three codes of two bits.
abbrev three : HuffTbl
three = record { bits = 0 ∷ 0 ∷ 3 ∷ []; huff_vals = 127 ∷ 128 ∷ 129 ∷ [] }

abbrev table_or : DerivedTbl → Option DerivedTbl → DerivedTbl
table_or d none = d
table_or d (some t) = t

abbrev three_tbl : DerivedTbl
three_tbl = table_or no_codes (do_set_derived_tbl three 255)

three_succeeds : do_set_derived_tbl three 255 ≡ some three_tbl
unfolding do_set_derived_tbl and_then huff_sizes huff_codes codes_of fill_tbl prepend
three_succeeds = refl

three_tbl-IsPrefixCode : IsPrefixCode three_tbl
three_tbl-IsPrefixCode =
    do_set_derived_tbl-IsPrefixCode three 255 three_tbl (omega arith) three_succeeds

abbrev dst : WorkerDst
dst = record {
  blkn = 0;
  dst = 102;
  free_in_bytes = 598;
  rel_stream = false;
  delta_prog = false;
  w = 0;
  t = 0;
}

abbrev env : Env
env = record {
  mem = λ q. 7;
  pos = 100;
  flag = 0;
  buf_packet_last = 1300;
  packet_data_size = 600;
  compressed_size = 0;
  frame_size = 0;
  releases = [];
  mallocs = [];
  queue = [];
  term_dst = none;
  reset = false;
}

-- Five bits are pending.
abbrev state : BitEncoderState
state = record { c = 21; free_bits = 27 }

abbrev coding : Coding
coding = (state, init 0 true dst env)

coding-Taken : Taken (dst, env) (bits 5 21) coding
coding-Taken = init-Streamed state dst env (omega arith) (omega arith)

abbrev info : LosslessInfo
info = record {
  color_space = rgb565;
  color_bias = 2;
  downsample = even_odd;
  odd = true;
  hss = true;
  vss = true;
}

abbrev tables : ℕ → DerivedTbl
tables n = three_tbl

tables-IsPrefixCode : (n : ℕ) → IsPrefixCode (table_of tables n)
unfolding table_of
tables-IsPrefixCode n = elim (Bool-cases (n == 8)) [
  | inl p ↦ rw p three_tbl-IsPrefixCode
  | inr p ↦ elim (Bool-cases (n == 6)) [
    | inl q ↦ rw (p, q) three_tbl-IsPrefixCode
    | inr q ↦ elim (Bool-cases (n == 5)) [
      | inl r ↦ rw (p, q, r) three_tbl-IsPrefixCode
      | inr r ↦ rw (p, q, r) three_tbl-IsPrefixCode
    ]
  ]
]

biased : is_color_bias (get_color_bias_from_format info.color_bias info.color_space) ≡ true
unfolding is_color_bias get_color_bias_from_format
biased = refl

do_compressed_encode-stripe_example :
    (su' : Coding) × (do_compressed_encode info picture (λ c. 1000 * c) tables 3 coding ≡ some su')
    × Taken (dst, env) (bits 5 21 ++ stripe_bits info picture (λ c. 1000 * c) tables 3) su'
do_compressed_encode-stripe_example =
    do_compressed_encode-stripe info picture (λ c. 1000 * c) tables 3 coding biased
      tables-IsPrefixCode coding-Taken

abbrev symbol : ℕ → ℕ → ℕ
symbol ix p = pred_pixel (picture p) none none none 4

encode_chunk-shorter_example :
    let (prev', su') = encode_chunk three_tbl 4 picture symbol 20 50 1 (old_picture, coding) in
    let ds = length (codes three_tbl (diffs three_tbl 4 picture symbol 20 50 old_picture 30)) in
    let ps = length (codes three_tbl (preds three_tbl 4 picture symbol 20 50 30)) in
    Taken (dst, env) (bits 5 21 ++ shorter three_tbl 4 picture symbol 20 50 old_picture 30) su'
    × (length (shorter three_tbl 4 picture symbol 20 50 old_picture 30) ≡ 1 + min ds ps)
    × ((ix : ℕ) → 30 ≤ ix → ix < 60 → prev' (50 + ix) ≡ picture (20 + ix))
encode_chunk-shorter_example =
    encode_chunk-shorter three_tbl 4 picture symbol 20 50 1 old_picture coding
      three_tbl-IsPrefixCode coding-Taken

odd_columns : start_step info ≡ some (1, 2)
unfolding start_step
odd_columns = refl

copy_encode-nibbles_example :
    let (s', o') = copy_encode info picture 10 (state, (dst, env)) in
    (raw : List ℕ) × (o' ≡ write_each raw (dst, env))
    × (digits_of raw ++ bits (32 - s'.free_bits) s'.c
        ≡ bits 5 21
          ++ gather
              (λ i.
                nibble_bits (nibbles rgb565 picture (10 + (i * 2 + 1) * bytes_per_pixel rgb565)))
              0
              (downsample_screen_width whole / 2))
copy_encode-nibbles_example =
    copy_encode-nibbles info picture 10 state dst env 1 2 refl odd_columns picture-IsByte
      (omega arith) (omega arith)

copy_rgb8-parity_example :
    copy_rgb8 2 1 0 3 0 (record info { color_bias = 1; odd = true }) picture 10 (state, (dst, env))
    ≡ copy_rgb8 2 1 0 3 0
        (record info { color_bias = 1; odd = false })
        picture
        10
        (state, (dst, env))
copy_rgb8-parity_example =
    copy_rgb8-parity 2 1 0 3 0 (record info { color_bias = 1 }) picture 10 (state, (dst, env)) refl
      refl
