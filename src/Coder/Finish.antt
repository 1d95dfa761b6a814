-- ===== src/Coder/Finish.antt =====
-- put_code, the padding at the end of a scan, and where a buffer's bytes go.
use ntr_hr.Base.{
  ℕ, zero, suc, ◌+◌, ◌-◌, ◌*◌, ◌/◌, ◌%◌, ◌^◌, ◌≤◌, ◌<◌, ◌≡◌, refl, sym, ap, ap₂, ◌∙◌, inl, inr,
  Bool, true, false, List, [], ◌∷◌, ◌++◌, append_assoc, append-nil, bit_and, bit_or, ltb, leb,
  if◌then◌else◌, Bool-cases, arith, or_disjoint_low, and_low, length,
}
use ntr_hr.Base.Word.{u8, shr, shl32}
use ntr_hr.Base.Memory.{copy, slice-copy_extend}
use ntr_hr.Base.Digits.{bits, bits-append, bits-cut, bits-mod, shl_mod, pow-add, pow_le}
use mathlib.Core.Path.{subst}
use native.Mathlib.Nat.{one-le-pow, mod-eq_of_lt}
use ntr_hr.Sink.State.{WorkerDst, Env}
use ntr_hr.Sink.Write.{write_bytes, advance_to}
use ntr_hr.Sink.Stream.{Wrote, Room, write_bytes-Writes}
use ntr_hr.Coder.Buffer.{
  BitEncoderState, EncodeBuffer, bit_buf_size, put_code, store, flush_whole, flush_bits,
}
use ntr_hr.Coder.Escape.{escape, emitted, emitted-append, put, put-put, emit_byte-eq-put}
use ntr_hr.Coder.Stream.{digits_of, digits_of-append, Coded, put_bits-Coded, shift_in, bits_byte}

code_as_sum :
    (code size temp nbits : ℕ)
    → code < 2 ^ size
    → size + nbits ≤ 32
    → bit_or (bit_and temp (2 ^ nbits - 1)) (shl32 code nbits) ≡ code * 2 ^ nbits + temp % 2 ^ nbits
code_as_sum code size temp nbits fits h =
    let e : 32 ≡ 32 - nbits + nbits = omega arith in
    let narrow : code % 2 ^ (32 - nbits) ≡ code =
      mod-eq_of_lt (omega (arith, fits, pow_le size (32 - nbits) (omega arith))) in
    rw and_low (
      ap (λ t. bit_or (temp % 2 ^ nbits) (code * 2 ^ nbits % 2 ^ t)) e
      ∙ ap (λ t. bit_or (temp % 2 ^ nbits) t) (shl_mod (32 - nbits) nbits code)
      ∙ ap (λ t. bit_or (temp % 2 ^ nbits) (t * 2 ^ nbits)) narrow
      ∙ or_disjoint_low nbits code (temp % 2 ^ nbits) (omega (arith, one-le-pow nbits 2)))

sum-lt : (q p m r : ℕ) → q < p → r < m → q * m + r < p * m
sum-lt q p m r h k = grind arith

-- put_code takes in a Huffman code and then the `nbits` low bits of the value behind it, for a
-- code that fits its size and at most 31 bits in all.
pub put_code-Coded :
    (code size temp nbits : ℕ) {stream : List ℕ} {s : BitEncoderState} {u : EncodeBuffer}
    → Coded stream s u
    → code < 2 ^ size
    → size + nbits ≤ 31
    → let (s', u') = put_code code size temp nbits s u in
      Coded (stream ++ (bits size code ++ bits nbits temp)) s' u'
unfolding put_code
put_code-Coded code size temp nbits {stream} {s} {u} v fits h =
    let e : u8 (nbits + size) ≡ size + nbits = omega arith in
    let low : temp % 2 ^ nbits < 2 ^ nbits = omega (arith, one-le-pow nbits 2) in
    let r =
      put_bits-Coded (code * 2 ^ nbits + temp % 2 ^ nbits) (size + nbits) v
        (rw pow-add (sum-lt code (2 ^ size) (2 ^ nbits) (temp % 2 ^ nbits) fits low)) h in
    let same : bits nbits (temp % 2 ^ nbits) ≡ bits nbits temp =
      ap (λ k. bits nbits (temp % 2 ^ k)) (let f : nbits ≡ 0 + nbits = omega arith in f)
      ∙ bits-mod nbits 0 temp in
    rw
      (
        code_as_sum code size temp nbits fits (omega arith),
        e,
        ← same,
        ← bits-append size nbits code (temp % 2 ^ nbits) low,
      )
      r

unfoldable pub ones : ℕ → List ℕ
ones zero = []
ones (suc n) = 1 ∷ ones n

put-nil : (u : EncodeBuffer) → put [] u ≡ u
unfolding escape
put-nil u =
    ap (λ o. record u { out = o })
      (ap (λ t. u.out ++ t) (none_emitted u.no_escape) ∙ append-nil u.out)
  where
    none_emitted : (b : Bool) → emitted b [] ≡ []
    none_emitted true = refl
    none_emitted false = refl

-- What the whole bytes take out of the pending bits.
flush_whole_lem :
    (fuel c n : ℕ) (u : EncodeBuffer)
    → u.direct ≡ false
    → n < 8 * fuel + 8
    → (bs : List ℕ) × (flush_whole fuel c n u ≡ (n % 8, put bs u))
      × (digits_of bs ++ bits (n % 8) c ≡ bits n c)
unfolding flush_whole digits_of
flush_whole_lem zero c n u b h = let e : n % 8 ≡ n = omega arith in ([], rw (e, put-nil u), rw e)
flush_whole_lem (suc fuel) c n u b h = elim (Bool-cases (leb 8 n)) [
  | inr p ↦ let e : n % 8 ≡ n = ground arith in ([], rw (p, e, put-nil u), rw e)
  | inl p ↦
      (let x = u8 (shr c (n - 8)) in
        let m : (n - 8) % 8 ≡ n % 8 = ground arith in
        let k : 8 + (n - 8) ≡ n = ground arith in
        let (bs, runs, cut) = flush_whole_lem fuel c (n - 8) (put (x ∷ []) u) b (ground arith) in
        (
          x ∷ bs,
          rw (p, emit_byte-eq-put x u (omega arith) b, runs, m, put-put (x ∷ []) bs u),
          append_assoc (bits 8 x) (digits_of bs) (bits (n % 8) c)
              ∙ ap₂ ◌++◌ (bits_byte (shr c (n - 8)))
                  (ap (λ t. digits_of bs ++ bits t c) (sym m) ∙ cut)
              ∙ sym (bits-cut 8 (n - 8) c)
              ∙ ap (λ t. bits t c) k,
        ))
]

-- The byte that completes `m` pending bits with ones.
ones_fill :
    (m : ℕ)
    → 0 < m
    → m < 8
    → (255 / 2 ^ m < 2 ^ (8 - m)) × (bits (8 - m) (255 / 2 ^ m) ≡ ones (8 - m))
unfolding bits ones
ones_fill zero p h = absurd (omega arith)
ones_fill (suc zero) p h = (omega arith, refl)
ones_fill (suc (suc zero)) p h = (omega arith, refl)
ones_fill (suc (suc (suc zero))) p h = (omega arith, refl)
ones_fill (suc (suc (suc (suc zero)))) p h = (omega arith, refl)
ones_fill (suc (suc (suc (suc (suc zero))))) p h = (omega arith, refl)
ones_fill (suc (suc (suc (suc (suc (suc zero)))))) p h = (omega arith, refl)
ones_fill (suc (suc (suc (suc (suc (suc (suc zero))))))) p h = (omega arith, refl)
ones_fill (suc (suc (suc (suc (suc (suc (suc (suc m)))))))) p h = absurd (omega arith)

partial_byte :
    (m c : ℕ)
    → 0 < m
    → m < 8
    → bits 8 (u8 (bit_or (shl32 c (8 - m)) (shr 0xff m))) ≡ bits m c ++ ones (8 - m)
partial_byte m c p h =
    let (fits, filled) = ones_fill m p h in
    let e : 8 ≡ m + (8 - m) = omega arith in
    bits_byte (bit_or (shl32 c (8 - m)) (shr 0xff m))
    ∙ ap (λ n. bits n (bit_or (shl32 c (8 - m)) (shr 0xff m))) e
    ∙ shift_in m (8 - m) c (shr 0xff m) (omega arith) fits
    ∙ ap (λ t. bits m c ++ t) filled

-- The pending bits at the end of a scan.
abbrev pub padding : BitEncoderState → ℕ
padding s = (8 - (bit_buf_size - s.free_bits) % 8) % 8

pub record Padded (stream : List ℕ) (s : BitEncoderState) (u u' : EncodeBuffer) : Type 0 where
  pub raw : List ℕ
  pub text : u'.out ≡ emitted u.no_escape raw
  pub digits : digits_of raw ≡ stream ++ ones (padding s)
  pub buffered : u'.direct ≡ false

last_digits : (x : ℕ) → digits_of (x ∷ []) ≡ bits 8 x
unfolding digits_of
last_digits x = append-nil (bits 8 x)

no_digits : (n c : ℕ) → n ≡ 0 → [] ≡ bits n c
unfolding bits
no_digits zero c h = refl
no_digits (suc n) c h = absurd (omega arith)

no_ones : (n : ℕ) → n ≡ 0 → [] ≡ ones n
unfolding ones
no_ones zero h = refl
no_ones (suc n) h = absurd (omega arith)

-- The end of a scan puts out every bit taken in, the last byte filled up with ones: whole bytes
-- whose bits are the stream and fewer than eight ones.
pub flush_bits-Padded :
    {stream : List ℕ} {s : BitEncoderState} {u : EncodeBuffer}
    → Coded stream s u
    → Padded stream s u (flush_bits s u)
unfolding flush_bits
flush_bits-Padded {stream} {s} {u} v =
    let n = bit_buf_size - s.free_bits in
    let (bs, runs, cut) = flush_whole_lem 4 s.c n u v.buffered (omega arith) in
    let all : digits_of (v.raw ++ bs) ++ bits (n % 8) s.c ≡ stream =
      ap (λ t. t ++ bits (n % 8) s.c) (digits_of-append v.raw bs)
      ∙ append_assoc (digits_of v.raw) (digits_of bs) (bits (n % 8) s.c)
      ∙ ap (λ t. digits_of v.raw ++ t) cut
      ∙ v.digits in
    let put_all : (ys : List ℕ) → (put ys u).out ≡ emitted u.no_escape (v.raw ++ ys) = λ ys.
      ap (λ o. o ++ emitted u.no_escape ys) v.text ∙ sym (emitted-append u.no_escape v.raw ys) in
    elim (Bool-cases (ltb 0 (n % 8))) [
      | inl p ↦
          let m = n % 8 in
          let x = u8 (bit_or (shl32 s.c (8 - m)) (shr 0xff m)) in
          let pad : padding s ≡ 8 - m = ground arith in
          rw
            (runs, p, emit_byte-eq-put x (put bs u) (omega arith) v.buffered, put-put bs (x ∷ []) u)
            (record {
              raw = v.raw ++ (bs ++ (x ∷ []));
              text = put_all (bs ++ (x ∷ []));
              digits =
                  ap digits_of (sym (append_assoc v.raw bs (x ∷ [])))
                  ∙ digits_of-append (v.raw ++ bs) (x ∷ [])
                  ∙ ap (λ t. digits_of (v.raw ++ bs) ++ t)
                      (last_digits x ∙ partial_byte m s.c (ground arith) (omega arith))
                  ∙ sym (append_assoc (digits_of (v.raw ++ bs)) (bits m s.c) (ones (8 - m)))
                  ∙ ap₂ (λ t k. t ++ ones k) all (sym pad);
              buffered = v.buffered;
            })
      | inr p ↦
          let none : n % 8 ≡ 0 = ground arith in
          rw (runs, p)
            (record {
              raw = v.raw ++ bs;
              text = put_all bs;
              digits =
                  digits_of-append v.raw bs
                  ∙ sym (append-nil (digits_of v.raw ++ digits_of bs))
                  ∙ append_assoc (digits_of v.raw) (digits_of bs) []
                  ∙ ap (λ t. digits_of v.raw ++ (digits_of bs ++ t)) (no_digits (n % 8) s.c none)
                  ∙ ap (λ t. digits_of v.raw ++ t) cut
                  ∙ v.digits
                  ∙ sym (append-nil stream)
                  ∙ ap (λ k. stream ++ k) (no_ones (padding s) (omega arith));
              buffered = v.buffered;
            })
    ]

-- store moves the buffer into the packets of plain UDP: from a local array, or in place where the
-- packet had room for the whole buffer. Either way the text of the sink grows by the buffer. It
-- has room of its own and at most a packet of bytes, and the thread's buffer has room for the next
-- packet.
pub store-Wrote :
    (u : EncodeBuffer) {buf : ℕ} {text : List ℕ}
    → Wrote buf text u.dst u.env
    → Room u.env
    → u.direct ≡ false
    → length u.out ≤ u.env.packet_data_size
    → (u.local ≡ false → length u.out ≤ u.dst.free_in_bytes)
    → let (d, e) = store u in Wrote buf (text ++ u.out) d e
unfolding store advance_to
store-Wrote u {buf} {text} v room buffered fits in_place =
    subst (λ b. StoresBy b u.local) (sym buffered)
      (elim (Bool-cases u.local) [
        | inl p ↦ subst (StoresBy false) (sym p) (write_bytes-Writes u.out v fits room).wrote
        | inr p ↦ subst (StoresBy false) (sym p) (here (in_place p))
      ])
  where
    StoresBy : Bool → Bool → Type 0
    StoresBy direct local =
        let (d, e) : WorkerDst × Env =
          if direct
          then (u.dst, u.env)
          else if local
          then (let (_, d, e) = write_bytes u.out u.dst u.env in (d, e))
          else (
            advance_to (u.dst.dst + length u.out) u.dst,
            record u.env { mem = copy u.env.mem u.dst.dst u.out },
          ) in
        Wrote buf (text ++ u.out) d e

    here : length u.out ≤ u.dst.free_in_bytes → StoresBy false false
    here h = record {
      udp = v.udp;
      ahead = v.ahead;
      begun = omega (arith, v.begun);
      full = omega (arith, v.full, v.small, v.begun);
      small = v.small;
      some_room = v.some_room;
      holds =
          slice-copy_extend u.env.mem buf u.dst.dst (length u.out) text u.out
            (omega (arith, v.begun, v.ahead)) refl v.holds;
    }
