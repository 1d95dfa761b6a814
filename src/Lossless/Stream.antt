-- ===== src/Lossless/Stream.antt =====
-- What the loops of the lossless coders add to the stream of bits.
use ntr_hr.Base.{
  ℕ, zero, suc, ◌+◌, ◌*◌, ◌≡◌, refl, true, List, [], ◌++◌, append_assoc, append-nil, some, get_or,
  arith,
}
use ntr_hr.Base.Memory.{Memory}
use ntr_hr.Base.Digits.{bits}
use mathlib.Core.Path.{subst}
use ntr_hr.Jpeg.Writer.{Out}
use ntr_hr.Coder.Direct.{Streamed, put_bits-Streamed}
use ntr_hr.Huffman.Derive.{DerivedTbl}
use ntr_hr.Huffman.Symbols.{IsPrefixCode}
use ntr_hr.Lossless.Format.{LosslessInfo, for_range, get_color_bias_from_format}
use ntr_hr.Lossless.Planes.{width_of, block_width, block_height, positions, row_at, max_components}
use ntr_hr.Lossless.Copy.{Coding, put, bits_of, is_color_bias}
use ntr_hr.Lossless.Rows.{
  symbol_at, put_symbol, table_of, encode_row, encode_planes, do_compressed_encode,
}

-- Runs of bits at `n` indices from `start` on, one after another.
unfoldable pub gather : (ℕ → List ℕ) → ℕ → ℕ → List ℕ
gather g start zero = []
gather g start (suc n) = g start ++ gather g (start + 1) n

-- A loop each of whose rounds appends its run.
pub for_range-gathers :
    {A : Type 0} (P : List ℕ → A → Type 0) (f : ℕ → A → A) (g : ℕ → List ℕ)
    → ((i : ℕ) (stream : List ℕ) (a : A) → P stream a → P (stream ++ g i) (f i a))
    → (start n : ℕ) (stream : List ℕ) (a : A) → P stream a
    → P (stream ++ gather g start n) (for_range f start n a)
unfolding gather for_range
for_range-gathers P f g step start zero stream a h = rw (append-nil stream) h
for_range-gathers P f g step start (suc n) stream a h =
    subst (λ s. P s (for_range f (start + 1) n (f start a)))
      (append_assoc stream (g start) (gather g (start + 1) n))
      (for_range-gathers P f g step (start + 1) n (stream ++ g start) (f start a)
        (step start stream a h))

abbrev pub Taken : Out → List ℕ → Coding → Type 0
Taken o stream su = Streamed stream o su.0 su.1

abbrev pub code_bits : DerivedTbl → ℕ → List ℕ
code_bits tbl v = bits (get_or tbl.ehufsi v 0) (get_or tbl.ehufco v 0)

pub put_symbol-Taken :
    {tbl : DerivedTbl} {o : Out} (v : ℕ) (stream : List ℕ) (su : Coding)
    → IsPrefixCode tbl
    → Taken o stream su
    → Taken o (stream ++ code_bits tbl v) (put_symbol tbl v su)
unfolding put_symbol put
put_symbol-Taken {tbl} v stream su t h =
    put_bits-Streamed (get_or tbl.ehufco v 0) (get_or tbl.ehufsi v 0) h (t.each v).fits
      (omega (arith, (t.each v).size))

module _ (info : LosslessInfo) (prep : Memory) (plane : ℕ → ℕ) (etbl : ℕ → DerivedTbl) (i : ℕ) where
  abbrev pub depth_of : ℕ → ℕ
  depth_of c = bits_of (get_color_bias_from_format info.color_bias info.color_space) c

  -- The symbol in column `ix` of row `by` of component `c`, and the codes of the rows.
  abbrev pub sample : ℕ → ℕ → ℕ → ℕ
  sample c by ix =
      symbol_at prep (depth_of c) i by (block_height info c) (width_of info c) ix
        (plane c + (row_at i by (block_height info c) * width_of info c + ix))

  abbrev pub row_bits : ℕ → ℕ → List ℕ
  row_bits c by =
      gather (λ ix. code_bits (table_of etbl (depth_of c)) (sample c by ix)) 0
        (positions info * block_width info c)

  abbrev pub stripe_bits : List ℕ
  stripe_bits = gather (λ c. gather (row_bits c) 0 (block_height info c)) 0 max_components

  -- A stripe adds to the stream the codes of its symbols: component after component, row after row,
  -- pixel after pixel. The bias is one of the three and the tables are prefix codes.
  pub do_compressed_encode-stripe :
      {o : Out} {stream : List ℕ} (su : Coding)
      → is_color_bias (get_color_bias_from_format info.color_bias info.color_space) ≡ true
      → ((n : ℕ) → IsPrefixCode (table_of etbl n))
      → Taken o stream su
      → (su' : Coding) × (do_compressed_encode info prep plane etbl i su ≡ some su')
        × Taken o (stream ++ stripe_bits) su'
  unfolding do_compressed_encode encode_planes encode_row
  do_compressed_encode-stripe {o} {stream} su b t h = (
    encode_planes info prep plane etbl i su,
    rw b refl,
    for_range-gathers (Taken o) _ _
        (λ c s a k.
          for_range-gathers (Taken o) _ _
            (λ by s a k.
              for_range-gathers (Taken o) _ _
                (λ ix s a k. put_symbol-Taken (sample c by ix) s a (t (depth_of c)) k) 0
                (positions info * block_width info c) s a k)
            0 (block_height info c) s a k)
        0 max_components stream su h,
  )
