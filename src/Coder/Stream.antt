-- ===== src/Coder/Stream.antt =====
-- The bits that the writer has taken in: those of the bytes it put out, then the pending ones.
use ntr_hr.Base.{
  ℕ, ◌+◌, ◌-◌, ◌*◌, ◌/◌, ◌%◌, ◌^◌, ◌≤◌, ◌<◌, ◌≡◌, refl, sym, ap, ap₂, ◌∙◌, inl, inr, false, List,
  [], ◌∷◌, ◌++◌, append_assoc, append-nil, bit_or, ltb, Bool-cases, arith, or_disjoint,
}
use ntr_hr.Base.Word.{u8, shr, shl32}
use ntr_hr.Base.Digits.{bits, bits-append, bits-cut, bits-mod, shl_mod, pow-add, pow_le, field_lt}
use mathlib.Core.Path.{subst}
use native.Mathlib.Nat.{one-le-pow, div-lt_iff_lt-mul}
use ntr_hr.Coder.Buffer.{
  BitEncoderState, EncodeBuffer, bit_buf_size, raw_bytes, put_and_flush, put_bits,
}
use ntr_hr.Coder.Escape.{emitted, emitted-append, flush-eq-put}

unfoldable pub digits_of : List ℕ → List ℕ
digits_of [] = []
digits_of (b ∷ bs) = bits 8 b ++ digits_of bs

pub digits_of-append : (xs ys : List ℕ) → digits_of (xs ++ ys) ≡ digits_of xs ++ digits_of ys
unfolding digits_of
digits_of-append [] ys = refl
digits_of-append (x ∷ xs) ys =
    ap (λ t. bits 8 x ++ t) (digits_of-append xs ys)
    ∙ sym (append_assoc (bits 8 x) (digits_of xs) (digits_of ys))

-- The bytes put out are the stuffed form of `raw`, whose bits, with the pending ones behind,
-- are `stream`.
pub record Coded (stream : List ℕ) (s : BitEncoderState) (u : EncodeBuffer) : Type 0 where
  pub raw : List ℕ
  pub text : u.out ≡ emitted u.no_escape raw
  pub digits : digits_of raw ++ bits (bit_buf_size - s.free_bits) s.c ≡ stream
  pub small : s.c < 2 ^ 32
  pub room : s.free_bits ≤ bit_buf_size
  pub buffered : u.direct ≡ false

-- `(c << k) | code` for a code of `k` bits, as a sum of fields.
shift_as_sum :
    (k c code : ℕ)
    → k ≤ 32
    → code < 2 ^ k
    → bit_or (shl32 c k) code ≡ c % 2 ^ (32 - k) * 2 ^ k + code
shift_as_sum k c code h fits =
    let e : 32 ≡ 32 - k + k = omega arith in
    ap (λ t. bit_or (c * 2 ^ k % 2 ^ t) code) e
    ∙ ap (λ t. bit_or t code) (shl_mod (32 - k) k c)
    ∙ or_disjoint k (c % 2 ^ (32 - k)) code fits

shift-lt : (k c code : ℕ) → k ≤ 32 → code < 2 ^ k → bit_or (shl32 c k) code < 2 ^ 32
shift-lt k c code h fits =
    let e : 32 - k + k ≡ 32 = omega arith in
    omega (
      arith,
      shift_as_sum k c code h fits,
      field_lt (c % 2 ^ (32 - k)) (2 ^ (32 - k)) (2 ^ k) (omega (arith, one-le-pow (32 - k) 2))
          (one-le-pow k 2 (omega arith)),
      sym (pow-add (32 - k) k) ∙ ap (λ t. 2 ^ t) e,
      top_field (c % 2 ^ (32 - k)) (2 ^ (32 - k)) (2 ^ k) (omega (arith, one-le-pow (32 - k) 2)),
    )
  where
    top_field : (r m p : ℕ) → r < m → r * p + p ≤ m * p
    top_field r m p q = grind arith

-- Shifting a code in behind `n` pending bits appends its bits.
pub shift_in :
    (n k c code : ℕ)
    → n + k ≤ 32
    → code < 2 ^ k
    → bits (n + k) (bit_or (shl32 c k) code) ≡ bits n c ++ bits k code
shift_in n k c code h fits =
    ap (bits (n + k)) (shift_as_sum k c code (omega arith) fits)
    ∙ bits-append n k (c % 2 ^ (32 - k)) code fits
    ∙ ap (λ t. t ++ bits k code)
        (let e : 32 - k ≡ (32 - k - n) + n = omega arith in
          ap (λ t. bits n (c % 2 ^ t)) e ∙ bits-mod n (32 - k - n) c)

pub bits_byte : (x : ℕ) → bits 8 (u8 x) ≡ bits 8 x
bits_byte x = bits-mod 8 0 x

digits_of-raw_bytes : (c : ℕ) → digits_of (raw_bytes c) ≡ bits 32 c
unfolding digits_of
digits_of-raw_bytes c =
    rw (bits_byte (shr c 24), bits_byte (shr c 16), bits_byte (shr c 8), bits_byte c, append-nil)
      (sym (
        bits-cut 8 24 c
        ∙ ap (λ t. bits 8 (shr c 24) ++ t)
            (bits-cut 8 16 c ∙ ap (λ t. bits 8 (shr c 16) ++ t) (bits-cut 8 8 c))))

module _ (code size : ℕ) {stream : List ℕ} {s : BitEncoderState} {u : EncodeBuffer}
    (v : Coded stream s u) (fits : code < 2 ^ size) where
  room-Coded :
      size ≤ s.free_bits
      → Coded
          (stream ++ bits size code)
          (record { c = bit_or (shl32 s.c size) code; free_bits = s.free_bits - size })
          u
  room-Coded h = record {
    raw = v.raw;
    text = v.text;
    digits =
        let e : 32 - (s.free_bits - size) ≡ 32 - s.free_bits + size = omega (arith, v.room) in
        ap (λ n. digits_of v.raw ++ bits n (bit_or (shl32 s.c size) code)) e
        ∙ ap (λ t. digits_of v.raw ++ t)
            (shift_in (32 - s.free_bits) size s.c code (omega (arith, v.room)) fits)
        ∙ sym (append_assoc (digits_of v.raw) (bits (32 - s.free_bits) s.c) (bits size code))
        ∙ ap (λ t. t ++ bits size code) v.digits;
    small = shift-lt size s.c code (omega (arith, v.room)) fits;
    room = omega (arith, v.room);
    buffered = v.buffered;
  }

  -- The part of the code that completes the word, and the rest that stays.
  high_part-lt : s.free_bits < size → code / 2 ^ (size - s.free_bits) < 2 ^ s.free_bits
  high_part-lt h =
      let e : size ≡ s.free_bits + (size - s.free_bits) = omega arith in
      (div-lt_iff_lt-mul (one-le-pow (size - s.free_bits) 2 (omega arith))).1
        (subst (λ t. code < t) (ap (λ n. 2 ^ n) e ∙ pow-add s.free_bits (size - s.free_bits)) fits)

  word_digits :
      s.free_bits < size
      → let over = size - s.free_bits in
        bits 32 (bit_or (shl32 s.c s.free_bits) (code / 2 ^ over)) ++ bits over code
        ≡ bits (32 - s.free_bits) s.c ++ bits size code
  word_digits h =
      let over = size - s.free_bits in
      let e : 32 ≡ 32 - s.free_bits + s.free_bits = omega (arith, v.room) in
      let f : s.free_bits + over ≡ size = omega arith in
      ap (λ t. t ++ bits over code)
        (ap (λ n. bits n (bit_or (shl32 s.c s.free_bits) (code / 2 ^ over))) e
          ∙ shift_in (32 - s.free_bits) s.free_bits s.c (code / 2 ^ over) (omega (arith, v.room))
              (high_part-lt h))
      ∙ append_assoc (bits (32 - s.free_bits) s.c) (bits s.free_bits (code / 2 ^ over))
          (bits over code)
      ∙ ap (λ t. bits (32 - s.free_bits) s.c ++ t)
          (sym (bits-cut s.free_bits over code) ∙ ap (λ n. bits n code) f)

  flush-Coded :
      s.free_bits < size
      → size ≤ 31
      → let (s', u') = put_and_flush code size s u in Coded (stream ++ bits size code) s' u'
  unfolding put_and_flush
  flush-Coded h k =
      let over = size - s.free_bits in
      let w = bit_or (shl32 s.c s.free_bits) (code / 2 ^ over) in
      rw
        (flush-eq-put w u (shift-lt s.free_bits s.c (code / 2 ^ over) v.room (high_part-lt h))
          v.buffered)
        (record {
          raw = v.raw ++ raw_bytes w;
          text =
              ap (λ o. o ++ emitted u.no_escape (raw_bytes w)) v.text
              ∙ sym (emitted-append u.no_escape v.raw (raw_bytes w));
          digits =
              let e : 32 - (32 - over) ≡ over = omega arith in
              ap₂ (λ t n. t ++ bits n code)
                (digits_of-append v.raw (raw_bytes w)
                  ∙ ap (λ t. digits_of v.raw ++ t) (digits_of-raw_bytes w))
                e
              ∙ append_assoc (digits_of v.raw) (bits 32 w) (bits over code)
              ∙ ap (λ t. digits_of v.raw ++ t) (word_digits h)
              ∙ sym (append_assoc (digits_of v.raw) (bits (32 - s.free_bits) s.c) (bits size code))
              ∙ ap (λ t. t ++ bits size code) v.digits;
          small = omega (arith, fits, pow_le size 32 (omega arith));
          room = omega arith;
          buffered = v.buffered;
        })

-- put_bits takes the bits of a code into the stream, whether or not they fill the word: what was
-- put out and what is pending together grow by the `size` low bits of `code`. A code fits its
-- size, which is at most 31, and the buffer has room of its own.
pub put_bits-Coded :
    (code size : ℕ) {stream : List ℕ} {s : BitEncoderState} {u : EncodeBuffer}
    → Coded stream s u
    → code < 2 ^ size
    → size ≤ 31
    → let (s', u') = put_bits code size s u in Coded (stream ++ bits size code) s' u'
unfolding put_bits
put_bits-Coded code size {stream} {s} {u} v fits h = elim (Bool-cases (ltb s.free_bits size)) [
  | inl p ↦ rw p (flush-Coded code size v fits (ground arith) h)
  | inr p ↦ rw p (room-Coded code size v fits (ground arith))
]
