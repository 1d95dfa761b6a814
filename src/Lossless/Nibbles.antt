-- ===== src/Lossless/Nibbles.antt =====
-- The copying coder at four bits a channel: the nibbles of the pixels, in every format.
use ntr_hr.Base.{
  ℕ, ◌+◌, ◌-◌, ◌*◌, ◌/◌, ◌%◌, ◌^◌, ◌<◌, ◌≤◌, ◌≡◌, refl, ap, ap₂, ◌∙◌, true, List, ◌++◌, some,
  bit_and, bit_or, or_disjoint, and_low, arith,
}
use ntr_hr.Base.Word.{u8, u16, shr, IsByte}
use ntr_hr.Base.Memory.{Memory}
use ntr_hr.Base.Digits.{bits, bits-append}
use mathlib.Core.Path.{subst}
use ntr_hr.Sink.State.{WorkerDst, Env}
use ntr_hr.Jpeg.Writer.{write_each}
use ntr_hr.Coder.Buffer.{BitEncoderState, init}
use ntr_hr.Coder.Stream.{digits_of}
use ntr_hr.Coder.Direct.{put_bits-Streamed, init-Streamed, store-Streamed}
use ntr_hr.Lossless.Format.{
  ColorSpace, LosslessInfo, rgba8, rgb8, rgb565, rgb5a1, rgb4, whole, downsample_screen_width,
  color_bias_2, for_range,
}
use ntr_hr.Lossless.Copy.{
  read_u16, with_buffer, put, start_step, copy_row, copy_rgb8, cut_rgb565, copy_rgb565, cut_rgb5a1,
  copy_rgb5, copy_rgb4, copy_as, copy_encode,
}
use ntr_hr.Lossless.Stream.{gather, for_range-gathers, Taken}

-- The top four bits of red, green and blue of the pixel at `q`.
unfoldable pub nibbles : ColorSpace → Memory → ℕ → ℕ × ℕ × ℕ
nibbles rgba8 m q = (m (q + 3) / 16, m (q + 2) / 16, m (q + 1) / 16)
nibbles rgb8 m q = (m (q + 2) / 16, m (q + 1) / 16, m (q + 0) / 16)
nibbles rgb565 m q = let v = m q + 256 * m (q + 1) in (v / 2048 / 2, v / 32 % 64 / 4, v % 32 / 2)
nibbles rgb5a1 m q =
    let v = m q + 256 * m (q + 1) in (v / 2048 / 2, v / 64 % 32 / 2, v / 2 % 32 / 2)
nibbles rgb4 m q = let v = m q + 256 * m (q + 1) in (v / 4096, v / 256 % 16, v / 16 % 16)

unfoldable pub bytes_per_pixel : ColorSpace → ℕ
bytes_per_pixel rgba8 = 4
bytes_per_pixel rgb8 = 3
bytes_per_pixel rgb565 = 2
bytes_per_pixel rgb5a1 = 2
bytes_per_pixel rgb4 = 2

abbrev pub nibble_bits : ℕ × ℕ × ℕ → List ℕ
nibble_bits (r, g, b) = bits 4 r ++ (bits 4 g ++ bits 4 b)

-- `x` is the three nibbles side by side.
record Packs (n : ℕ × ℕ × ℕ) (x : ℕ) : Type 0 where
  value : x ≡ (n.0 * 16 + n.1) * 16 + n.2
  red : n.0 < 16
  green : n.1 < 16
  blue : n.2 < 16

Packs-bits : (n : ℕ × ℕ × ℕ) (x : ℕ) → Packs n x → (x < 2 ^ 12) × (bits 12 x ≡ nibble_bits n)
Packs-bits (r, g, b) x v = (
  omega (arith, v.value, v.red, v.green, v.blue),
  ap (bits 12)
        (v.value ∙ (let e : (r * 16 + g) * 16 + b ≡ r * 2 ^ 8 + (g * 16 + b) = omega arith in e))
      ∙ bits-append 4 8 r (g * 16 + b) (omega (arith, v.green, v.blue))
      ∙ ap (λ t. bits 4 r ++ t) (bits-append 4 4 g b v.blue),
)

pack :
    (r g b : ℕ)
    → r < 16
    → g < 16
    → b < 16
    → bit_or (bit_or (u16 (r * 2 ^ 8)) (u16 (g * 2 ^ 4))) b ≡ (r * 16 + g) * 16 + b
pack r g b p q k =
    let e : u16 (r * 2 ^ 8) ≡ r * 2 ^ 8 = omega arith in
    let f : u16 (g * 2 ^ 4) ≡ g * 2 ^ 4 = omega arith in
    let h : r * 2 ^ 8 + g * 2 ^ 4 ≡ (r * 16 + g) * 2 ^ 4 = omega arith in
    ap₂ (λ (x y : ℕ). bit_or (bit_or x y) b) e f
    ∙ ap (λ (x : ℕ). bit_or x b) (or_disjoint 8 r (g * 2 ^ 4) (omega arith) ∙ h)
    ∙ or_disjoint 4 (r * 16 + g) b k

Packs-color_bias_2 :
    (r g b : ℕ)
    → IsByte r
    → IsByte g
    → IsByte b
    → Packs (r / 16, g / 16, b / 16) (color_bias_2 r g b)
unfolding color_bias_2
Packs-color_bias_2 r g b p q k = record {
  value = pack (r / 16) (g / 16) (b / 16) (omega arith) (omega arith) (omega arith);
  red = omega arith;
  green = omega arith;
  blue = omega arith;
}

module _ (m : Memory) (bytes : (q : ℕ) → IsByte (m q)) (q : ℕ) where
  abbrev word : ℕ
  word = m q + 256 * m (q + 1)

  word-lt : word < 2 ^ 16
  word-lt = omega (arith, bytes q, bytes (q + 1))

  Packs-rgb565 : Packs (nibbles rgb565 m q) (cut_rgb565 (read_u16 m q))
  unfolding nibbles cut_rgb565 read_u16
  Packs-rgb565 =
      let r : u8 (u16 (bit_and (shr word 11) 0x1f * 2 ^ 3)) ≡ word / 2048 * 8 =
        omega (arith, and_low 5 (word / 2048), word-lt) in
      let g : u8 (u16 (bit_and (shr word 5) 0x3f * 2 ^ 2)) ≡ word / 32 % 64 * 4 =
        omega (arith, and_low 6 (word / 32)) in
      let b : u8 (u16 (bit_and word 0x1f * 2 ^ 3)) ≡ word % 32 * 8 =
        omega (arith, and_low 5 word) in
      let v =
        Packs-color_bias_2 (word / 2048 * 8) (word / 32 % 64 * 4) (word % 32 * 8)
          (omega (arith, word-lt)) (omega arith) (omega arith) in
      let x : cut_rgb565 (read_u16 m q)
          ≡ color_bias_2 (word / 2048 * 8) (word / 32 % 64 * 4) (word % 32 * 8) =
        rw (r, g, b) refl in
      record {
        value = omega (arith, x, v.value);
        red = omega (arith, word-lt);
        green = omega arith;
        blue = omega arith;
      }

  Packs-rgb5a1 : Packs (nibbles rgb5a1 m q) (cut_rgb5a1 (read_u16 m q))
  unfolding nibbles cut_rgb5a1 read_u16
  Packs-rgb5a1 =
      let r = and_low 4 (word / 4096) in
      let g = and_low 4 (word / 128) in
      let b = and_low 4 (word / 4) in
      let x : cut_rgb5a1 (read_u16 m q)
          ≡ (word / 4096 % 16 * 16 + word / 128 % 16) * 16 + word / 4 % 16 =
        rw (r, g, b)
          (pack (word / 4096 % 16) (word / 128 % 16) (word / 4 % 16) (omega arith) (omega arith)
            (omega arith)) in
      record {
        value = omega (arith, x, word-lt);
        red = omega (arith, word-lt);
        green = omega arith;
        blue = omega arith;
      }

  Packs-rgb4 : Packs (nibbles rgb4 m q) (shr (read_u16 m q) 4)
  unfolding nibbles read_u16
  Packs-rgb4 = record {
    value = omega arith;
    red = omega (arith, word-lt);
    green = omega arith;
    blue = omega arith;
  }

-- A run of codes of 12 bits through a buffer of its own.
cut_row :
    (s : BitEncoderState) (d : WorkerDst) (e : Env) (f : ℕ → ℕ) (n : ℕ → ℕ × ℕ × ℕ) (width : ℕ)
    → s.c < 2 ^ 32
    → s.free_bits ≤ 32
    → ((i : ℕ) → Packs (n i) (f i))
    → let (s', o') = with_buffer (for_range (λ i. put (f i) 12) 0 width) (s, (d, e)) in
      (raw : List ℕ) × (o' ≡ write_each raw (d, e))
      × (digits_of raw ++ bits (32 - s'.free_bits) s'.c
          ≡ bits (32 - s.free_bits) s.c ++ gather (λ i. nibble_bits (n i)) 0 width)
unfolding with_buffer put
cut_row s d e f n width h k packs = store-Streamed (
    for_range-gathers (Taken (d, e)) (λ i. put (f i) 12) (λ i. nibble_bits (n i))
      (λ i stream a v.
        let (small, same) = Packs-bits (n i) (f i) (packs i) in
        subst (λ t. Taken (d, e) (stream ++ t) (put (f i) 12 a)) same
          (put_bits-Streamed (f i) 12 v small (omega arith)))
      0 width (bits (32 - s.free_bits) s.c) (s, init 0 true d e) (init-Streamed s d e h k))

-- At RP_COLOR_BIAS_2 a row that is copied, of any of the five formats, adds to the stream the top
-- four bits of red, green and blue of each of its pixels; the pixels are every one or, for
-- RP_DOWNSAMPLE_EVEN_ODD, every other one from the first or the second on. What is pending from
-- before stays in front, and the whole bytes are in the sink.
pub copy_encode-nibbles :
    (info : LosslessInfo) (m : Memory) (input : ℕ) (s : BitEncoderState) (d : WorkerDst) (e : Env)
    (start step : ℕ)
    → info.color_bias ≡ 2
    → start_step info ≡ some (start, step)
    → ((q : ℕ) → IsByte (m q))
    → s.c < 2 ^ 32
    → s.free_bits ≤ 32
    → let (s', o') = copy_encode info m input (s, (d, e)) in
      (raw : List ℕ) × (o' ≡ write_each raw (d, e))
      × (digits_of raw ++ bits (32 - s'.free_bits) s'.c
          ≡ bits (32 - s.free_bits) s.c
            ++ gather
                (λ i. nibble_bits (
                  nibbles info.color_space m
                    (input + (i * step + start) * bytes_per_pixel info.color_space)))
                0
                (downsample_screen_width whole / step))
unfolding copy_encode copy_as copy_row copy_rgb8 copy_rgb565 copy_rgb5 copy_rgb4 nibbles
    bytes_per_pixel
copy_encode-nibbles info m input s d e start step bias row bytes h k = copied info.color_space
  where
    width : ℕ
    width = downsample_screen_width whole / step

    at : ColorSpace → ℕ → ℕ
    at cs i = input + (i * step + start) * bytes_per_pixel cs

    Copied : ColorSpace → Type 0
    Copied cs =
        let (s', o') = copy_as cs info m input (s, (d, e)) in
        (raw : List ℕ) × (o' ≡ write_each raw (d, e))
        × (digits_of raw ++ bits (32 - s'.free_bits) s'.c
            ≡ bits (32 - s.free_bits) s.c
              ++ gather (λ i. nibble_bits (nibbles cs m (at cs i))) 0 width)

    as_cut :
        (cs : ColorSpace) (f : ℕ → ℕ)
        → copy_as cs info m input (s, (d, e))
          ≡ with_buffer (for_range (λ i. put (f (at cs i)) 12) 0 width) (s, (d, e))
        → ((q : ℕ) → Packs (nibbles cs m q) (f q))
        → Copied cs
    as_cut cs f eq packs = rw eq (
        cut_row s d e (λ i. f (at cs i)) (λ i. nibbles cs m (at cs i)) width h k
          (λ i. packs (at cs i)))

    copied : (cs : ColorSpace) → Copied cs
    copied rgba8 =
        as_cut rgba8 (λ q. color_bias_2 (m (q + 3)) (m (q + 2)) (m (q + 1))) (rw (row, bias) refl)
          (λ q. Packs-color_bias_2 _ _ _ (bytes (q + 3)) (bytes (q + 2)) (bytes (q + 1)))
    copied rgb8 =
        as_cut rgb8 (λ q. color_bias_2 (m (q + 2)) (m (q + 1)) (m (q + 0))) (rw (row, bias) refl)
          (λ q. Packs-color_bias_2 _ _ _ (bytes (q + 2)) (bytes (q + 1)) (bytes (q + 0)))
    copied rgb565 =
        as_cut rgb565 (λ q. cut_rgb565 (read_u16 m q)) (rw (row, bias) refl) (Packs-rgb565 m bytes)
    copied rgb5a1 =
        as_cut rgb5a1 (λ q. cut_rgb5a1 (read_u16 m q)) (rw (row, bias) refl) (Packs-rgb5a1 m bytes)
    copied rgb4 = as_cut rgb4 (λ q. shr (read_u16 m q) 4) (rw (row, bias) refl) (Packs-rgb4 m bytes)
