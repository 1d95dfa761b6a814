-- ===== src/Huffman/Emit.antt =====
-- encode_one_block puts out the codes of the block's tokens, in a buffer that has room for them.
use ntr_hr.Base.{
  ℕ, zero, suc, ◌+◌, ◌-◌, ◌*◌, ◌/◌, ◌%◌, ◌<◌, ◌≤◌, ◌≡◌, refl, sym, ap, ◌∙◌, inl, inr, true, false,
  List, [], ◌∷◌, ◌++◌, append_assoc, append-nil, All, ltb, leb, ◌==◌, get_or, replicate, Bool-cases,
  arith,
}
use ntr_hr.Base.Digits.{bits}
use mathlib.Core.Path.{subst}
use ntr_hr.Coder.Buffer.{EncodeBuffer}
use ntr_hr.Coder.Stream.{Coded, put_bits-Coded}
use ntr_hr.Coder.Finish.{put_code-Coded}
use ntr_hr.Coder.Kept.{Kept, put_bits-Kept, put_code-Kept}
use ntr_hr.Huffman.Derive.{DerivedTbl}
use ntr_hr.Huffman.Symbols.{IsPrefixCode}
use ntr_hr.Huffman.Block.{
  Coding, val1_of, nbits_of, put_entry, put_value, put_zero_runs, encode_ac, encode_values,
  ac_values, dc_difference,
}
use ntr_hr.Huffman.Value.{IsSmall, value}
use ntr_hr.Huffman.Tokens.{Token, tokens}

abbrev pub token_bits : DerivedTbl → Token → List ℕ
token_bits tbl (sym, k, x) = bits (get_or tbl.ehufsi sym 0) (get_or tbl.ehufco sym 0) ++ bits k x

unfoldable pub ac_bits : DerivedTbl → List Token → List ℕ
ac_bits tbl [] = []
ac_bits tbl (t ∷ ts) = token_bits tbl t ++ ac_bits tbl ts

pub ac_bits-append :
    (tbl : DerivedTbl) (ss ts : List Token)
    → ac_bits tbl (ss ++ ts) ≡ ac_bits tbl ss ++ ac_bits tbl ts
unfolding ac_bits
ac_bits-append tbl [] ts = refl
ac_bits-append tbl (s ∷ ss) ts =
    ap (λ t. token_bits tbl s ++ t) (ac_bits-append tbl ss ts)
    ∙ sym (append_assoc (token_bits tbl s) (ac_bits tbl ss) (ac_bits tbl ts))

abbrev pub Holds : EncodeBuffer → List ℕ → Coding → Type 0
Holds u0 stream su = Coded stream su.0 su.1 × Kept u0 su.1

-- One token more in front of what follows.
cons-Holds :
    (tbl : DerivedTbl) (stream : List ℕ) (su : Coding) {u0 : EncodeBuffer} (t : Token)
    (ts : List Token)
    → Holds u0 ((stream ++ token_bits tbl t) ++ ac_bits tbl ts) su
    → Holds u0 (stream ++ ac_bits tbl (t ∷ ts)) su
unfolding ac_bits
cons-Holds tbl stream su {u0} t ts c =
    subst (λ s. Holds u0 s su) (append_assoc stream (token_bits tbl t) (ac_bits tbl ts)) c

module _ {tbl : DerivedTbl} (p : IsPrefixCode tbl) where
  put_value-Holds :
      {stream : List ℕ} {su : Coding} {u0 : EncodeBuffer} (v temp k : ℕ)
      → k ≤ 15
      → Holds u0 stream su
      → Holds u0 (stream ++ token_bits tbl (v, k, temp)) (put_value tbl v temp k su)
  unfolding put_value
  put_value-Holds {stream} {su} v temp k h c = (
    put_code-Coded (get_or tbl.ehufco v 0) (get_or tbl.ehufsi v 0) temp k c.0 (p.each v).fits
        (omega (arith, h, (p.each v).size)),
    put_code-Kept su.0 (get_or tbl.ehufco v 0) (get_or tbl.ehufsi v 0) temp k c.1,
  )

  put_entry-Holds :
      {stream : List ℕ} {su : Coding} {u0 : EncodeBuffer} (v : ℕ)
      → Holds u0 stream su
      → Holds u0 (stream ++ token_bits tbl (v, 0, 0)) (put_entry tbl v su)
  unfolding put_entry bits
  put_entry-Holds {stream} {su} v c =
      rw (append-nil (bits (get_or tbl.ehufsi v 0) (get_or tbl.ehufco v 0))) (
        put_bits-Coded (get_or tbl.ehufco v 0) (get_or tbl.ehufsi v 0) c.0 (p.each v).fits
            (omega (arith, (p.each v).size)),
        put_bits-Kept su.0 (get_or tbl.ehufco v 0) (get_or tbl.ehufsi v 0) c.1,
      )

  put_zero_runs-Holds :
      (fuel q t : ℕ) {stream : List ℕ} {su : Coding} {u0 : EncodeBuffer}
      → q < fuel
      → t < 256
      → Holds u0 stream su
      → let (r', su') = put_zero_runs fuel tbl (256 * q + t) su in
        (r' ≡ t) × Holds u0 (stream ++ ac_bits tbl (replicate q (0xf0, 0, 0))) su'
  unfolding put_zero_runs ac_bits
  put_zero_runs-Holds zero q t h k c = absurd (omega (arith, h))
  put_zero_runs-Holds (suc fuel) zero t {stream} h k c =
      let e : leb 256 (256 * 0 + t) ≡ false = ground (arith, k) in
      rw (e, append-nil stream) (omega arith, c)
  put_zero_runs-Holds (suc fuel) (suc q) t {stream} {su} h k c =
      let e : leb 256 (256 * suc q + t) ≡ true = ground arith in
      let f : 256 * suc q + t - 256 ≡ 256 * q + t = omega arith in
      let (r, s) =
        put_zero_runs-Holds fuel q t {su = put_entry tbl 0xf0 su} (omega (arith, h)) k
          (put_entry-Holds 0xf0 c) in
      rw (e, f) (r, cons-Holds tbl stream _ (0xf0, 0, 0) (replicate q (0xf0, 0, 0)) s)

  encode_ac-Holds :
      (vs : List ℕ) (z : ℕ) {stream : List ℕ} {su : Coding} {u0 : EncodeBuffer}
      → All IsSmall vs
      → Holds u0 stream su
      → Holds u0 (stream ++ ac_bits tbl (tokens vs z)) (encode_ac tbl vs (16 * z) su)
  unfolding encode_ac tokens ac_bits
  encode_ac-Holds [] zero {stream} h c = rw (append-nil stream) c
  encode_ac-Holds [] (suc z) {stream} {su} h c =
      let a : ltb 0 (suc z) ≡ true = ground arith in
      let b : ltb 0 (16 * suc z) ≡ true = ground arith in
      let last = put_entry-Holds 0 c in rw (a, b, append-nil (token_bits tbl (0, 0, 0))) last
  encode_ac-Holds (v ∷ vs) z {stream} {su} h c = elim (Bool-cases (v == 0)) [
    | inl e ↦
        let f : 16 * z + 16 ≡ 16 * suc z = omega arith in
        rw (e, f) (encode_ac-Holds vs (suc z) h.1 c)
    | inr e ↦
        let t : Token = (z % 16 * 16 + nbits_of v, nbits_of v, val1_of v) in
        let whole : 256 * (z / 16) + 16 * (z % 16) ≡ 16 * z = omega arith in
        let runs = replicate {A = Token} (z / 16) (0xf0, 0, 0) in
        let (a, b) =
          put_zero_runs-Holds (suc (16 * z)) (z / 16) (16 * (z % 16)) {su = su} (omega arith)
            (omega arith) c in
        let a' : (put_zero_runs (suc (16 * z)) tbl (16 * z) su).0 ≡ z % 16 * 16 =
          rw whole at (a) ∙ omega arith in
        let d =
          put_value-Holds t.0 (val1_of v) (nbits_of v) (value v h.0).small (rw whole at (b)) in
        let f = encode_ac-Holds vs 0 h.1 d in
        let regroup : ((stream ++ ac_bits tbl runs) ++ token_bits tbl t)
              ++ ac_bits tbl (tokens vs 0)
            ≡ stream ++ ac_bits tbl (runs ++ t ∷ tokens vs 0) =
          append_assoc (stream ++ ac_bits tbl runs) (token_bits tbl t) (ac_bits tbl (tokens vs 0))
          ∙ append_assoc stream (ac_bits tbl runs) (token_bits tbl t ++ ac_bits tbl (tokens vs 0))
          ∙ ap (λ l. stream ++ l) (sym (ac_bits-append tbl runs (t ∷ tokens vs 0))) in
        rw (e, a', ← regroup) f
  ]

-- The tokens of a block: the difference to the last DC value, then the others in zigzag order.
abbrev pub dc_token : List ℕ → ℕ → Token
dc_token block last_dc_val =
    let val = dc_difference block last_dc_val in (nbits_of val, nbits_of val, val1_of val)

abbrev pub ac_tokens : List ℕ → List Token
ac_tokens block = tokens (ac_values block) 0

abbrev pub block_bits : List ℕ → ℕ → DerivedTbl → DerivedTbl → List ℕ
block_bits block last_dc_val dc_tbl ac_tbl =
    token_bits dc_tbl (dc_token block last_dc_val) ++ ac_bits ac_tbl (ac_tokens block)

pub encode_values-Holds :
    (block : List ℕ) (last_dc_val : ℕ) (dc_tbl ac_tbl : DerivedTbl) {stream : List ℕ} {su : Coding}
    {u0 : EncodeBuffer}
    → IsPrefixCode dc_tbl
    → IsPrefixCode ac_tbl
    → IsSmall (dc_difference block last_dc_val)
    → All IsSmall (ac_values block)
    → Holds u0 stream su
    → Holds u0
        (stream ++ block_bits block last_dc_val dc_tbl ac_tbl)
        (encode_values block last_dc_val dc_tbl ac_tbl su)
unfolding encode_values
encode_values-Holds block last dc_tbl ac_tbl {stream} {su} p q h k c =
    let val = dc_difference block last in
    let d = put_value-Holds p (nbits_of val) (val1_of val) (nbits_of val) (value val h).small c in
    let r = encode_ac-Holds q (ac_values block) 0 k d in
    rw
      (append_assoc stream (token_bits dc_tbl (dc_token block last))
        (ac_bits ac_tbl (ac_tokens block)))
      at (r)
