-- ===== src/Lossless/Choice.antt =====
-- A run of pixels in its shorter form, and the previous picture behind it.
use ntr_hr.Base.{
  ℕ, zero, suc, ◌+◌, ◌-◌, ◌*◌, ◌/◌, ◌%◌, ◌<◌, ◌≤◌, ◌≡◌, ◌≢◌, refl, sym, ap, ap₂, ◌∙◌, ◌⊎◌, inl, inr,
  List, [], ◌∷◌, ◌++◌, append_assoc, append-nil, min, ltb, if◌then◌else◌, get_or, length,
  length-append, Bool-cases, eq-cases, arith,
}
use ntr_hr.Base.Word.{shr, IsByte}
use ntr_hr.Base.Memory.{Memory, store}
use ntr_hr.Base.Digits.{bits}
use mathlib.Core.Path.{subst}
use ntr_hr.Jpeg.Writer.{Out}
use ntr_hr.Coder.Direct.{put_bits-Streamed}
use ntr_hr.Huffman.Derive.{DerivedTbl}
use ntr_hr.Huffman.Symbols.{IsPrefixCode}
use ntr_hr.Lossless.Format.{for_range}
use ntr_hr.Lossless.Copy.{Coding, put}
use ntr_hr.Lossless.Predict.{residual, restore, IsDepth, restore-residual}
use ntr_hr.Lossless.Rows.{put_symbol}
use ntr_hr.Lossless.Delta.{
  Chunk, new_chunk, step_chunk, put_symbols, put_chunk, size_of, encode_chunk,
  delta_block_width_count,
}
use ntr_hr.Lossless.Decode.{tabulate}
use ntr_hr.Lossless.Stream.{Taken, code_bits, put_symbol-Taken}

unfoldable pub codes : DerivedTbl → List ℕ → List ℕ
codes tbl [] = []
codes tbl (v ∷ vs) = code_bits tbl v ++ codes tbl vs

-- The pixels of a run from its differences to the previous picture at `q`.
unfoldable pub decode_diff : ℕ → Memory → ℕ → List ℕ → List ℕ
decode_diff b prev q [] = []
decode_diff b prev q (v ∷ vs) = restore v (shr (prev q) (8 - b)) b ∷ decode_diff b prev (q + 1) vs

tabulate_ext :
    (f g : ℕ → ℕ) (start n : ℕ)
    → ((j : ℕ) → start ≤ j → f j ≡ g j)
    → tabulate f start n ≡ tabulate g start n
unfolding tabulate
tabulate_ext f g start zero h = refl
tabulate_ext f g start (suc n) h =
    ap₂ ◌∷◌ (h start (omega arith)) (tabulate_ext f g (start + 1) n (λ j k. h j (omega arith)))

length-bits : (n v : ℕ) → length (bits n v) ≡ n
unfolding bits
length-bits zero v = refl
length-bits (suc n) v =
    omega (arith, length-append (bits n (v / 2)) (v % 2 ∷ []), length-bits n (v / 2))

put_symbols-Taken :
    {tbl : DerivedTbl} {o : Out} (vs : List ℕ) (stream : List ℕ) (su : Coding)
    → IsPrefixCode tbl
    → Taken o stream su
    → Taken o (stream ++ codes tbl vs) (put_symbols tbl vs su)
unfolding put_symbols codes
put_symbols-Taken [] stream su t h = rw (append-nil stream) h
put_symbols-Taken {tbl} {o} (v ∷ vs) stream su t h =
    subst (λ s. Taken o s (put_symbols tbl vs (put_symbol tbl v su)))
      (append_assoc stream (code_bits tbl v) (codes tbl vs))
      (put_symbols-Taken vs (stream ++ code_bits tbl v) (put_symbol tbl v su) t
        (put_symbol-Taken v stream su t h))

length-codes_snoc :
    (tbl : DerivedTbl) (vs : List ℕ) (v : ℕ)
    → length (codes tbl (vs ++ v ∷ [])) ≡ length (codes tbl vs) + size_of tbl v
unfolding codes
length-codes_snoc tbl [] v =
    ap length (append-nil (code_bits tbl v))
    ∙ length-bits (size_of tbl v) (get_or tbl.ehufco v 0)
    ∙ omega arith
length-codes_snoc tbl (w ∷ vs) v = omega (
  arith,
  length-append (code_bits tbl w) (codes tbl (vs ++ v ∷ [])),
  length-append (code_bits tbl w) (codes tbl vs),
  length-codes_snoc tbl vs v,
)

store-same : (m : Memory) (p v : ℕ) → store m p v p ≡ v
store-same m p v = ground arith

store-other : (m : Memory) (p v q : ℕ) → q ≢ p → store m p v q ≡ m q
store-other m p v q h = ground (arith, h)

module _ (tbl : DerivedTbl) (b : ℕ) (prep : Memory) (symbol : ℕ → ℕ → ℕ) (row old : ℕ) where
  abbrev pub fill_chunk : ℕ → ℕ → Chunk → Chunk
  fill_chunk =
      for_range (λ ix. step_chunk tbl b (prep (row + ix)) (symbol ix (row + ix)) (old + ix))

  -- What the loop over a run leaves in the chunk.
  record Filled (k r : Chunk) (start n : ℕ) : Type 0 where
    pred : r.pred ≡ k.pred ++ tabulate (λ ix. symbol ix (row + ix)) start n
    diff :
        r.diff ≡ k.diff ++ tabulate (λ ix. residual (prep (row + ix)) (k.prev (old + ix)) b) start n
    pred_len : r.pred_len + length (codes tbl k.pred) ≡ k.pred_len + length (codes tbl r.pred)
    diff_len : r.diff_len + length (codes tbl k.diff) ≡ k.diff_len + length (codes tbl r.diff)
    prev : (ix : ℕ) → start ≤ ix → ix < start + n → r.prev (old + ix) ≡ prep (row + ix)
    rest : (q : ℕ) → (q < old + start) ⊎ (old + start + n ≤ q) → r.prev q ≡ k.prev q

  fill_chunk-Filled : (start n : ℕ) (k : Chunk) → Filled k (fill_chunk start n k) start n
  unfolding for_range step_chunk tabulate
  fill_chunk-Filled start zero k = record {
    pred = sym (append-nil k.pred);
    diff = sym (append-nil k.diff);
    pred_len = refl;
    diff_len = refl;
    prev = λ ix g h. absurd (omega arith);
    rest = λ q h. refl;
  }
  fill_chunk-Filled start (suc n) k =
      let f =
        fill_chunk-Filled (start + 1) n
          (step_chunk tbl b (prep (row + start)) (symbol start (row + start)) (old + start) k) in
      let c = prep (row + start) in
      let v = symbol start (row + start) in
      let d = residual c (k.prev (old + start)) b in
      let later =
        tabulate_ext (λ ix. residual (prep (row + ix)) (store k.prev (old + start) c (old + ix)) b)
          (λ ix. residual (prep (row + ix)) (k.prev (old + ix)) b) (start + 1) n
          (λ j h.
            ap (λ (t : ℕ). residual (prep (row + j)) t b)
              (store-other k.prev (old + start) c (old + j) (λ e. omega (arith, e, h)))) in
      record {
        pred = f.pred ∙ append_assoc k.pred (v ∷ []) _;
        diff = f.diff ∙ append_assoc k.diff (d ∷ []) _ ∙ ap (λ t. k.diff ++ d ∷ t) later;
        pred_len = omega (arith, f.pred_len, length-codes_snoc tbl k.pred v);
        diff_len = omega (arith, f.diff_len, length-codes_snoc tbl k.diff d);
        prev = λ ix g h. elim (eq-cases start ix) [
          | inl e ↦
              subst (λ t. (fill_chunk start (suc n) k).prev (old + t) ≡ prep (row + t)) e
                (f.rest (old + start) (inl (omega arith)) ∙ store-same k.prev (old + start) c)
          | inr d ↦ f.prev ix (omega (arith, g, d)) (omega (arith, h))
        ];
        rest = λ q h.
            f.rest q (ground (arith, h))
            ∙ store-other k.prev (old + start) c q (λ e. ground (arith, h, e));
      }

  abbrev pub preds : ℕ → List ℕ
  preds start = tabulate (λ ix. symbol ix (row + ix)) start delta_block_width_count

  abbrev pub diffs : Memory → ℕ → List ℕ
  diffs prev start =
      tabulate (λ ix. residual (prep (row + ix)) (prev (old + ix)) b) start delta_block_width_count

  -- A flag and the codes of the differences, when these are shorter, or of the predictions.
  abbrev pub shorter : Memory → ℕ → List ℕ
  shorter prev start =
      if ltb (length (codes tbl (diffs prev start))) (length (codes tbl (preds start)))
      then 1 ∷ codes tbl (diffs prev start)
      else 0 ∷ codes tbl (preds start)

  put_chunk-Taken :
      {o : Out} {stream : List ℕ} (prev : Memory) (start : ℕ) (k : Chunk) (su : Coding)
      → Filled (new_chunk prev) k start delta_block_width_count
      → IsPrefixCode tbl
      → Taken o stream su
      → Taken o (stream ++ shorter prev start) (put_chunk tbl k su)
  unfolding put_chunk put codes bits
  put_chunk-Taken {o} {stream} prev start k su f t h =
      let p : k.pred_len ≡ length (codes tbl (preds start)) =
        omega (arith, f.pred_len, ap (λ vs. length (codes tbl vs)) f.pred) in
      let d : k.diff_len ≡ length (codes tbl (diffs prev start)) =
        omega (arith, f.diff_len, ap (λ vs. length (codes tbl vs)) f.diff) in
      let flag : (x : ℕ) → x < 2 → Taken o (stream ++ bits 1 x) (put x 1 su) =
        λ x g. put_bits-Streamed x 1 h g (omega arith) in
      let with_flag : (x : ℕ) (vs : List ℕ)
          → Taken o (stream ++ bits 1 x) (put x 1 su)
          → Taken o (stream ++ (bits 1 x ++ codes tbl vs)) (put_symbols tbl vs (put x 1 su)) =
        λ x vs g.
          subst (λ s. Taken o s (put_symbols tbl vs (put x 1 su)))
            (append_assoc stream (bits 1 x) (codes tbl vs))
            (put_symbols-Taken vs (stream ++ bits 1 x) (put x 1 su) t g) in
      elim (Bool-cases
        (ltb (length (codes tbl (diffs prev start))) (length (codes tbl (preds start))))) [
          | inl q ↦ rw (p, d, q, f.diff) (with_flag 1 (diffs prev start) (flag 1 (omega arith)))
          | inr q ↦ rw (p, d, q, f.pred) (with_flag 0 (preds start) (flag 0 (omega arith)))
        ]

  -- The `n`-th run of a row adds to the stream a flag and the codes of its differences to the
  -- previous picture, when these are fewer bits than the codes from the neighbours, or else the
  -- latter: a bit more than the shorter of the two. It leaves its pixels in the previous picture.
  pub encode_chunk-shorter :
      {o : Out} {stream : List ℕ} (n : ℕ) (prev : Memory) (su : Coding)
      → IsPrefixCode tbl
      → Taken o stream su
      → let (prev', su') = encode_chunk tbl b prep symbol row old n (prev, su) in
        let start = n * delta_block_width_count in
        Taken o (stream ++ shorter prev start) su'
        × (length (shorter prev start)
            ≡ 1 + min (length (codes tbl (diffs prev start))) (length (codes tbl (preds start))))
        × ((ix : ℕ)
            → start ≤ ix
            → ix < start + delta_block_width_count
            → prev' (old + ix) ≡ prep (row + ix))
  unfolding encode_chunk
  encode_chunk-shorter n prev su t h =
      let start = n * delta_block_width_count in
      let f = fill_chunk-Filled start delta_block_width_count (new_chunk prev) in
      (
        put_chunk-Taken prev start (fill_chunk start delta_block_width_count (new_chunk prev)) su f
            t h,
        ground (
          arith,
          Bool-cases
              (ltb (length (codes tbl (diffs prev start))) (length (codes tbl (preds start)))),
        ),
        f.prev,
      )

-- From the differences to the previous picture, a decoder that has its top bits finds those of the
-- run's pixels, for the bit depths in use.
pub decode_diff-residual :
    {b : ℕ} (prep prev : Memory) (row old start n : ℕ)
    → IsDepth b
    → ((q : ℕ) → IsByte (prep q))
    → ((q : ℕ) → IsByte (prev q))
    → decode_diff b prev
        (old + start)
        (tabulate (λ ix. residual (prep (row + ix)) (prev (old + ix)) b) start n)
      ≡ tabulate (λ ix. shr (prep (row + ix)) (8 - b)) start n
unfolding decode_diff tabulate
decode_diff-residual prep prev row old start zero d h k = refl
decode_diff-residual {b} prep prev row old start (suc n) d h k =
    let e : old + start + 1 ≡ old + (start + 1) = omega arith in
    rw
      (
        e,
        restore-residual (prep (row + start)) (prev (old + start)) d (h (row + start))
            (k (old + start)),
      )
      (ap (λ t. shr (prep (row + start)) (8 - b) ∷ t)
        (decode_diff-residual prep prev row old (start + 1) n d h k))
