-- ===== src/Coder/Escape.antt =====
-- Byte stuffing: a zero follows each byte 0xff, so that no marker stands inside coded data.
use ntr_hr.Base.{
  ℕ, ◌+◌, ◌*◌, ◌/◌, ◌%◌, ◌^◌, ◌<◌, ◌≡◌, refl, sym, ap, ap₂, ◌∙◌, ◌≢◌, inl, inr, Bool, true, false,
  List, [], ◌∷◌, ◌++◌, append_assoc, bit_and, ◌==◌, if◌then◌else◌, Bool-cases, arith, and_split,
  and_low, bit_and-zero,
}
use ntr_hr.Base.Word.{u8, u32, shr, not32}
use ntr_hr.Coder.Buffer.{EncodeBuffer, emit_byte, has_ff, raw_bytes, flush}

unfoldable pub escape : List ℕ → List ℕ
escape [] = []
escape (b ∷ bs) = if b == 0xff then b ∷ 0 ∷ escape bs else b ∷ escape bs

-- What a decoder does: it drops the byte behind each 0xff.
unfoldable pub unescape : List ℕ → List ℕ
unescape [] = []
unescape (b ∷ []) = b ∷ []
unescape (b ∷ k ∷ bs) = if b == 0xff then b ∷ unescape bs else b ∷ unescape (k ∷ bs)

abbrev pub emitted : Bool → List ℕ → List ℕ
emitted no_escape bs = if no_escape then bs else escape bs

pub escape-append : (xs ys : List ℕ) → escape (xs ++ ys) ≡ escape xs ++ escape ys
unfolding escape
escape-append [] ys = refl
escape-append (x ∷ xs) ys = ground (arith, escape-append xs ys)

pub emitted-append :
    (n : Bool) (xs ys : List ℕ) → emitted n (xs ++ ys) ≡ emitted n xs ++ emitted n ys
emitted-append true xs ys = refl
emitted-append false xs ys = escape-append xs ys

-- A word of four bytes, and `&` byte by byte.
abbrev word : ℕ → ℕ → ℕ → ℕ → ℕ
word a b g h = ((a * 2 ^ 8 + b) * 2 ^ 8 + g) * 2 ^ 8 + h

and_word :
    (a b g h a' b' g' h' : ℕ)
    → (b < 256) × (g < 256) × (h < 256)
    → (b' < 256) × (g' < 256) × (h' < 256)
    → bit_and (word a b g h) (word a' b' g' h')
      ≡ word (bit_and a a') (bit_and b b') (bit_and g g') (bit_and h h')
and_word a b g h a' b' g' h' p q = rw (
  and_split 8 ((a * 2 ^ 8 + b) * 2 ^ 8 + g) ((a' * 2 ^ 8 + b') * 2 ^ 8 + g') h h' p.2 q.2,
  and_split 8 (a * 2 ^ 8 + b) (a' * 2 ^ 8 + b') g g' p.1 q.1,
  and_split 8 a a' b b' p.0 q.0,
)

and_top : (x : ℕ) → bit_and x 0x80 ≡ x / 128 % 2 * 128
and_top x = ground (
  arith,
  and_split 7 (x / 128) 1 (x % 128) 0 (omega arith) (omega arith),
  and_low 1 (x / 128),
  bit_and-zero (x % 128),
)

abbrev top : ℕ → ℕ
top x = x / 128 % 2 * 128

-- The high bits of a word, masked by another word.
high_bits :
    (a b g h a' b' g' h' : ℕ)
    → (b < 256) × (g < 256) × (h < 256)
    → (b' < 256) × (g' < 256) × (h' < 256)
    → bit_and (bit_and (word a b g h) 0x80808080) (word a' b' g' h')
      ≡ word (bit_and (top a) a') (bit_and (top b) b') (bit_and (top g) g') (bit_and (top h) h')
high_bits a b g h a' b' g' h' p q =
    ap (λ t. bit_and t (word a' b' g' h'))
      (and_word a b g h 128 128 128 128 p (omega arith)
        ∙ rw (and_top a, and_top b, and_top g, and_top h))
    ∙ and_word (top a) (top b) (top g) (top h) a' b' g' h' (omega arith) q

word_bytes : (c : ℕ) → c ≡ word (c / 2 ^ 24) (c / 2 ^ 16 % 256) (c / 2 ^ 8 % 256) (c % 256)
word_bytes c = omega arith

abbrev mask : ℕ → ℕ
mask c = not32 (u32 (c + 0x01010101))

tested :
    (c : ℕ)
    → bit_and (bit_and c 0x80808080) (mask c)
      ≡ word
          (bit_and (top (c / 2 ^ 24)) (mask c / 2 ^ 24))
          (bit_and (top (c / 2 ^ 16 % 256)) (mask c / 2 ^ 16 % 256))
          (bit_and (top (c / 2 ^ 8 % 256)) (mask c / 2 ^ 8 % 256))
          (bit_and (top (c % 256)) (mask c % 256))
tested c =
    ap₂ (λ t u. bit_and (bit_and t 0x80808080) u) (word_bytes c) (word_bytes (mask c))
    ∙ high_bits _ _ _ _ _ _ _ _ (omega arith) (omega arith)

-- A byte 0xff whose mask byte is 0xff shows in the test.
seen : (x y : ℕ) → x ≡ 255 → y ≡ 255 → bit_and (top x) y ≡ 128
seen x y p q = rw (p, q)

-- Where the test fails, no byte of the word is 0xff: below the lowest such byte the sum carries
-- nothing, so its mask byte would be 0xff.
abbrev NoFf : ℕ → Type 0
NoFf c =
    (c / 2 ^ 24 % 256 ≢ 255) × (c / 2 ^ 16 % 256 ≢ 255) × (c / 2 ^ 8 % 256 ≢ 255) × (c % 256 ≢ 255)

has_ff-NoFf : (c : ℕ) → c < 2 ^ 32 → has_ff c ≡ false → NoFf c
unfolding has_ff
has_ff-NoFf c small h = (λ e. absurd (byte3 e), byte2, byte1, byte0)
  where
    none_set : bit_and (bit_and c 0x80808080) (mask c) ≡ 0
    none_set = ground arith

    byte0 : c % 256 ≢ 255
    byte0 e =
        absurd (omega (arith, none_set, tested c, seen (c % 256) (mask c % 256) e (omega arith)))

    byte1 : c / 2 ^ 8 % 256 ≢ 255
    byte1 e = absurd (
        omega (
          arith,
          none_set,
          tested c,
          byte0,
          seen (c / 2 ^ 8 % 256) (mask c / 2 ^ 8 % 256) e (omega (arith, byte0)),
        ))

    byte2 : c / 2 ^ 16 % 256 ≢ 255
    byte2 e = absurd (
        omega (
          arith,
          none_set,
          tested c,
          seen (c / 2 ^ 16 % 256) (mask c / 2 ^ 16 % 256) e (omega (arith, byte0, byte1)),
        ))

    byte3 : c / 2 ^ 24 % 256 ≡ 255 → ⊥
    byte3 e = omega (
      arith,
      none_set,
      tested c,
      seen (c / 2 ^ 24) (mask c / 2 ^ 24) (omega arith) (omega (arith, byte0, byte1, byte2)),
    )

-- Stuffed bytes appended to what the buffer holds.
abbrev pub put : List ℕ → EncodeBuffer → EncodeBuffer
put bs u = record u { out = u.out ++ emitted u.no_escape bs }

pub put-put : (xs ys : List ℕ) (u : EncodeBuffer) → put ys (put xs u) ≡ put (xs ++ ys) u
put-put xs ys u =
    ap (λ o. record u { out = o })
      (append_assoc u.out (emitted u.no_escape xs) (emitted u.no_escape ys)
        ∙ ap (λ o. u.out ++ o) (sym (emitted-append u.no_escape xs ys)))

pub emit_byte-eq-put :
    (b : ℕ) (u : EncodeBuffer) → b < 256 → u.direct ≡ false → emit_byte b u ≡ put (b ∷ []) u
unfolding emit_byte escape
emit_byte-eq-put b u small buffered = ground arith

escape_plain : (c : ℕ) → NoFf c → escape (raw_bytes c) ≡ raw_bytes c
unfolding escape
escape_plain c h = ground arith

emit_four :
    (a b g h : ℕ) (u : EncodeBuffer)
    → (a < 256) × (b < 256) × (g < 256) × (h < 256)
    → u.direct ≡ false
    → emit_byte h (emit_byte g (emit_byte b (emit_byte a u))) ≡ put (a ∷ b ∷ g ∷ h ∷ []) u
emit_four a b g h u p buffered = rw (
  emit_byte-eq-put a u p.0 buffered,
  emit_byte-eq-put b (put (a ∷ []) u) p.1 buffered,
  put-put (a ∷ []) (b ∷ []) u,
  emit_byte-eq-put g (put (a ∷ b ∷ []) u) p.2 buffered,
  put-put (a ∷ b ∷ []) (g ∷ []) u,
  emit_byte-eq-put h (put (a ∷ b ∷ g ∷ []) u) p.3 buffered,
  put-put (a ∷ b ∷ g ∷ []) (h ∷ []) u,
)

-- The fast path of flush is sound: whichever branch the word test takes, a buffered flush appends
-- the four bytes of the word, the most significant first, with a zero behind each 0xff unless
-- escaping is off.
pub flush-eq-put :
    (c : ℕ) (u : EncodeBuffer) → c < 2 ^ 32 → u.direct ≡ false → flush c u ≡ put (raw_bytes c) u
unfolding flush
flush-eq-put c u small buffered = elim (Bool-cases u.no_escape) [
  | inl p ↦ ground arith
  | inr p ↦ elim (Bool-cases (has_ff c)) [
    | inl q ↦ ground (
      arith,
      emit_four (u8 (shr c 24)) (u8 (shr c 16)) (u8 (shr c 8)) (u8 c) u (omega arith) buffered,
    )
    | inr q ↦ ground (arith, escape_plain c (has_ff-NoFf c small q))
  ]
]

unescape-cons : (b : ℕ) (bs : List ℕ) → b ≢ 255 → unescape (b ∷ bs) ≡ b ∷ unescape bs
unfolding unescape
unescape-cons b [] h = refl
unescape-cons b (k ∷ bs) h = ground arith

-- A decoder gets the bytes back.
pub unescape-escape : (bs : List ℕ) → unescape (escape bs) ≡ bs
unfolding escape unescape
unescape-escape [] = refl
unescape-escape (b ∷ bs) = elim (Bool-cases (b == 0xff)) [
  | inl p ↦ rw (p, p) (ap (λ t. b ∷ t) (unescape-escape bs))
  | inr p ↦ rw p (unescape-cons b (escape bs) (ground arith) ∙ ap (λ t. b ∷ t) (unescape-escape bs))
]
