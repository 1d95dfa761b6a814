-- ===== src/Lossless/Delta.antt =====
-- The coder that takes each run of pixels from its neighbours or from the previous picture,
-- whichever is shorter.
use ntr_hr.Base.{
  ℕ, ◌+◌, ◌*◌, ◌/◌, List, [], ◌∷◌, ◌++◌, Option, none, some, ltb, ◌&&◌, if◌then◌else◌, get_or,
}
use ntr_hr.Base.Memory.{Memory, store}
use ntr_hr.Lossless.Format.{
  LosslessInfo, for_range, get_color_bias_from_format, downsample_screen_width, samp_factor,
}
use ntr_hr.Lossless.Planes.{width_of, block_width, block_height, positions, row_at, max_components}
use ntr_hr.Lossless.Copy.{Coding, put, bits_of, is_color_bias}
use ntr_hr.Lossless.Predict.{residual}
use ntr_hr.Lossless.Rows.{symbol_at, put_symbol, table_of}
use ntr_hr.Huffman.Derive.{DerivedTbl}

abbrev pub delta_block_width_count : ℕ
delta_block_width_count = 30

-- `pred`, `diff`, their lengths in bits and the previous picture, as a run of pixels fills them.
pub record Chunk : Type 0 where
  pub pred : List ℕ
  pub diff : List ℕ
  pub pred_len : ℕ
  pub diff_len : ℕ
  pub prev : Memory

abbrev pub new_chunk : Memory → Chunk
new_chunk prev = record { pred = []; diff = []; pred_len = 0; diff_len = 0; prev = prev }

abbrev pub size_of : DerivedTbl → ℕ → ℕ
size_of tbl v = get_or tbl.ehufsi v 0

-- One pixel: its value, its symbol from its neighbours, and its place in the previous picture.
unfoldable pub step_chunk : DerivedTbl → ℕ → ℕ → ℕ → ℕ → Chunk → Chunk
step_chunk tbl bits c v q k =
    let d = residual c (k.prev q) bits in
    record {
      pred = k.pred ++ v ∷ [];
      diff = k.diff ++ d ∷ [];
      pred_len = k.pred_len + size_of tbl v;
      diff_len = k.diff_len + size_of tbl d;
      prev = store k.prev q c;
    }

unfoldable pub put_symbols : DerivedTbl → List ℕ → Coding → Coding
put_symbols tbl [] su = su
put_symbols tbl (v ∷ vs) su = put_symbols tbl vs (put_symbol tbl v su)

unfoldable pub put_chunk : DerivedTbl → Chunk → Coding → Coding
put_chunk tbl k su =
    if ltb k.diff_len k.pred_len
    then put_symbols tbl k.diff (put 1 1 su)
    else put_symbols tbl k.pred (put 0 1 su)

abbrev pub Delta : Type 0
Delta = Memory × Coding

-- The `n`-th run of a row at `row`, whose pixels in the previous picture start at `old`.
unfoldable pub encode_chunk : DerivedTbl → ℕ → Memory → (ℕ → ℕ → ℕ) → ℕ → ℕ → ℕ → Delta → Delta
encode_chunk tbl bits prep symbol row old n (prev, su) =
    let k =
      for_range (λ ix. step_chunk tbl bits (prep (row + ix)) (symbol ix (row + ix)) (old + ix))
        (n * delta_block_width_count) delta_block_width_count (new_chunk prev) in
    (k.prev, put_chunk tbl k su)

-- What is left of a row behind the last whole run is not coded.
unfoldable pub encode_delta_row :
    LosslessInfo → Memory → (ℕ → ℕ) → (ℕ → DerivedTbl) → ℕ → ℕ → ℕ → ℕ → Delta → Delta
encode_delta_row info prep plane etbl prev i c by =
    let bits = bits_of (get_color_bias_from_format info.color_bias info.color_space) c in
    let bh = block_height info c in
    let width_c = width_of info c in
    let width = downsample_screen_width info.downsample in
    let v_samp = if info.hss && info.vss then samp_factor else 1 in
    for_range
      (encode_chunk (table_of etbl bits) bits prep (symbol_at prep bits i by bh width_c)
        (plane c + row_at i by bh * width_c) (prev + v_samp * width * c + by * width))
      0 (positions info * block_width info c / delta_block_width_count)

unfoldable pub do_compressed_delta_encode :
    LosslessInfo → Memory → (ℕ → ℕ) → (ℕ → DerivedTbl) → ℕ → ℕ → Delta → Option Delta
do_compressed_delta_encode info prep plane etbl prev i o =
    if is_color_bias (get_color_bias_from_format info.color_bias info.color_space)
    then some (
        for_range
          (λ c. for_range (encode_delta_row info prep plane etbl prev i c) 0 (block_height info c))
          0 max_components o)
    else none
