-- ===== src/Lossless/Copy.antt =====
-- The copying coder: the pixels of a row as they come or cut to fewer bits, and the uncompressed
-- coder of the converted planes.
use ntr_hr.Base.{
  ℕ, ◌+◌, ◌-◌, ◌*◌, ◌/◌, ◌^◌, Bool, true, List, [], ◌∷◌, Option, none, some, bit_or, bit_and, ◌==◌,
  ◌||◌, not, if◌then◌else◌,
}
use ntr_hr.Base.Word.{u8, u16, shr}
use ntr_hr.Base.Memory.{Memory, slice}
use ntr_hr.Coder.Buffer.{BitEncoderState, EncodeBuffer, init, put_bits, store}
use ntr_hr.Jpeg.Writer.{Out, write_byte}
use ntr_hr.Lossless.Format.{
  ColorSpace, Downsample, LosslessInfo, rgba8, rgb8, rgb565, rgb5a1, rgb4, whole, checker, even_odd,
  quarter, rp_color_bias_none, rp_color_bias_1, rp_color_bias_2, downsample_screen_width,
  color_bias_1, color_bias_2, for_range, get_color_bias_from_format,
}
use ntr_hr.Lossless.Planes.{width_of, block_width, block_height, positions, max_components}

-- The bit encoder's state and the destination.
abbrev pub Sink : Type 0
Sink = BitEncoderState × Out

abbrev pub Coding : Type 0
Coding = BitEncoderState × EncodeBuffer

unfoldable pub write_bytes : List ℕ → Sink → Sink
write_bytes bs (s, (d, e)) = let (_, d', e') = ntr_hr.Sink.Write.write_bytes bs d e in (s, (d', e'))

-- `*(input as *const u16)`.
unfoldable pub read_u16 : Memory → ℕ → ℕ
read_u16 m p = m p + 2 ^ 8 * m (p + 1)

-- The bytes of a u16 in memory.
unfoldable pub u16_bytes : ℕ → List ℕ
u16_bytes v = u8 v ∷ u8 (shr v 8) ∷ []

-- An encode buffer with no room of its own, the loop's calls on it, and `store`.
unfoldable pub with_buffer : (Coding → Coding) → Sink → Sink
with_buffer f (s, (d, e)) = let (s', u) = f (s, init 0 true d e) in (s', store u)

unfoldable pub put : ℕ → ℕ → Coding → Coding
put code size (s, u) = put_bits code size s u

-- The first column of a row and the step to the next; none where nothing is copied.
unfoldable pub start_step : LosslessInfo → Option (ℕ × ℕ)
start_step info = start_step_of info.downsample
  where
    start_step_of : Downsample → Option (ℕ × ℕ)
    start_step_of whole = some (0, 1)
    start_step_of even_odd = some (if not info.odd then (0, 2) else (1, 2))
    start_step_of checker = none
    start_step_of quarter = none

-- The loop that each of the four copies runs on a row that is copied.
unfoldable pub copy_row : LosslessInfo → (ℕ → ℕ → ℕ → Sink → Sink) → Sink → Sink
copy_row info f o = on_row (start_step info)
  where
    on_row : Option (ℕ × ℕ) → Sink
    on_row none = o
    on_row (some (start, step)) = f start step (downsample_screen_width whole / step) o

-- The pixel of RP_COLOR_BIAS_1 is the `i`-th of the row, whatever the start and the step.
unfoldable pub copy_rgb8 : ℕ → ℕ → ℕ → ℕ → ℕ → LosslessInfo → Memory → ℕ → Sink → Sink
copy_rgb8 r g b p t info m input o =
    copy_row info
      (λ start step width o.
        if info.color_bias == rp_color_bias_none
        then for_range (λ i. write_bytes (slice m (input + (i * step + start) * p + t) 3)) 0 width o
        else if info.color_bias == rp_color_bias_1
        then for_range
            (λ i.
              let q = input + i * p in
              write_bytes (u16_bytes (color_bias_1 (m (q + r)) (m (q + g)) (m (q + b)))))
            0 width o
        else if info.color_bias == rp_color_bias_2
        then with_buffer
            (for_range
              (λ i.
                let q = input + (i * step + start) * p in
                put (color_bias_2 (m (q + r)) (m (q + g)) (m (q + b))) 12)
              0 width)
            o
        else o)
      o

-- A pixel of five, six and five bits, cut to four each.
unfoldable pub cut_rgb565 : ℕ → ℕ
cut_rgb565 input =
    let r = u16 (bit_and (shr input 11) 0x1f * 2 ^ 3) in
    let g = u16 (bit_and (shr input 5) 0x3f * 2 ^ 2) in
    let b = u16 (bit_and input 0x1f * 2 ^ 3) in color_bias_2 (u8 r) (u8 g) (u8 b)

unfoldable pub copy_rgb565 : LosslessInfo → Memory → ℕ → Sink → Sink
copy_rgb565 info m input o =
    copy_row info
      (λ start step width o.
        if info.color_bias == rp_color_bias_none || info.color_bias == rp_color_bias_1
        then for_range (λ i. write_bytes (slice m (input + (i * step + start) * 2) 2)) 0 width o
        else if info.color_bias == rp_color_bias_2
        then with_buffer
            (for_range (λ i. put (cut_rgb565 (read_u16 m (input + (i * step + start) * 2))) 12) 0
              width)
            o
        else o)
      o

-- The alpha bit goes, and green gets a zero in its place.
unfoldable pub widen_rgb5a1 : ℕ → ℕ
widen_rgb5a1 input = bit_or (bit_and input 0xffc0) (bit_and (shr input 1) 0x1f)

unfoldable pub cut_rgb5a1 : ℕ → ℕ
cut_rgb5a1 input =
    let r = bit_and (shr input 12) 0xf in
    let g = bit_and (shr input 7) 0xf in
    let b = bit_and (shr input 2) 0xf in bit_or (bit_or (u16 (r * 2 ^ 8)) (u16 (g * 2 ^ 4))) b

unfoldable pub copy_rgb5 : LosslessInfo → Memory → ℕ → Sink → Sink
copy_rgb5 info m input o =
    copy_row info
      (λ start step width o.
        if info.color_bias == rp_color_bias_none || info.color_bias == rp_color_bias_1
        then for_range
            (λ i.
              write_bytes (u16_bytes (widen_rgb5a1 (read_u16 m (input + (i * step + start) * 2)))))
            0 width o
        else if info.color_bias == rp_color_bias_2
        then with_buffer
            (for_range (λ i. put (cut_rgb5a1 (read_u16 m (input + (i * step + start) * 2))) 12) 0
              width)
            o
        else o)
      o

unfoldable pub copy_rgb4 : LosslessInfo → Memory → ℕ → Sink → Sink
copy_rgb4 info m input o =
    copy_row info
      (λ start step width o.
        if info.color_bias == rp_color_bias_none
          || info.color_bias == rp_color_bias_1
          || info.color_bias == rp_color_bias_2
        then with_buffer
            (for_range (λ i. put (shr (read_u16 m (input + (i * step + start) * 2)) 4) 12) 0 width)
            o
        else o)
      o

unfoldable pub copy_as : ColorSpace → LosslessInfo → Memory → ℕ → Sink → Sink
copy_as rgba8 = copy_rgb8 3 2 1 4 1
copy_as rgb8 = copy_rgb8 2 1 0 3 0
copy_as rgb565 = copy_rgb565
copy_as rgb5a1 = copy_rgb5
copy_as rgb4 = copy_rgb4

unfoldable pub copy_encode : LosslessInfo → Memory → ℕ → Sink → Sink
copy_encode info m input o = copy_as info.color_space info m input o

-- `prep`: the converted planes, and where each component's plane starts. `bb_x`: the bits of each,
-- for a bias that is one of the three.
unfoldable pub bits_of : ℕ → ℕ → ℕ
bits_of bias ci =
    if bias == rp_color_bias_none
    then 8
    else if bias == rp_color_bias_1
    then (if ci == 0 then 6 else 5)
    else 4

unfoldable pub is_color_bias : ℕ → Bool
is_color_bias bias =
    bias == rp_color_bias_none || bias == rp_color_bias_1 || bias == rp_color_bias_2

-- One position: each component's block, row by row.
unfoldable pub each_pixel {ℓ} : {A : Type ℓ} → LosslessInfo → (ℕ → ℕ) → ℕ → (ℕ → ℕ → A → A) → A → A
each_pixel info plane x f =
    for_range
      (λ c.
        for_range
          (λ by.
            for_range (λ bx. f c (plane c + (by * width_of info c + (x * block_width info c + bx))))
              0 (block_width info c))
          0 (block_height info c))
      0 max_components

unfoldable pub write_sample : Memory → ℕ → ℕ → Sink → Sink
write_sample prep c p (s, o) = (s, write_byte (prep p) o)

unfoldable pub put_sample : Memory → ℕ → ℕ → ℕ → Coding → Coding
put_sample prep bias c p = put (shr (prep p) (8 - bits_of bias c)) (bits_of bias c)

unfoldable pub do_uncompressed_encode : LosslessInfo → Memory → (ℕ → ℕ) → Sink → Sink
do_uncompressed_encode info prep plane o =
    let bias = get_color_bias_from_format info.color_bias info.color_space in
    if bias == rp_color_bias_none
    then for_range (λ x. each_pixel info plane x (write_sample prep)) 0 (positions info) o
    else if bias == rp_color_bias_1 || bias == rp_color_bias_2
    then with_buffer
        (for_range (λ x. each_pixel info plane x (put_sample prep bias)) 0 (positions info)) o
    else o
