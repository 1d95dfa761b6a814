-- ===== src/Work/Fields.antt =====
-- The fields of a frame's header words keep apart.
use ntr_hr.Base.{
  ℕ, ◌+◌, ◌-◌, ◌*◌, ◌%◌, ◌^◌, ◌<◌, ◌≡◌, Bool, true, false, not, ◌&&◌, arith, refl, ◌∙◌, bit_or,
  bit_and, or_disjoint, or_disjoint_low, and_low, if◌then◌else◌, bit_or-zero,
}
use ntr_hr.Base.Word.{u16}
use ntr_hr.Work.Terms.{TermInfo, bit, term_hdr, ex_hdr, thread_hdr, ex_hdr_bit}

pub bit_lt : (b : Bool) → bit b < 2
bit_lt true = omega arith
bit_lt false = omega arith

-- A field below the multiples of 2 ^ k is added.
or_below : (k q a r s : ℕ) → a ≡ q * 2 ^ k → r < 2 ^ k → s ≡ r → bit_or a s ≡ a + r
or_below k q a r s e h f = rw (e, f) (or_disjoint k q r h)

-- The fields of the first word.
pub term_hdr_sum :
    (info : TermInfo) (downsample chroma_ss : ℕ) (delta_prog : Bool) (quality : ℕ)
    → downsample < 4
    → chroma_ss < 4
    → info.core_count < 4
    → quality < 2 ^ 7
    → term_hdr info downsample chroma_ss (delta_prog, quality)
      ≡ downsample * 2 ^ 13
        + bit delta_prog * 2 ^ 12
        + chroma_ss * 2 ^ 10
        + bit (not info.is_top) * 2 ^ 9
        + info.core_count * 2 ^ 7
        + quality
unfolding term_hdr
term_hdr_sum info d c dp q hd hc hn hq =
    let p = bit_lt dp in
    let t = bit_lt (not info.is_top) in
    let top : u16 (d * 2 ^ 13) ≡ d * 2 ^ 13 = omega arith in
    let s12 =
      or_below 13 d (d * 2 ^ 13) (bit dp * 2 ^ 12) (u16 (bit dp * 2 ^ 12)) refl (omega arith)
        (omega arith) in
    let a12 = d * 2 ^ 13 + bit dp * 2 ^ 12 in
    let s10 =
      or_below 12 (d * 2 + bit dp) a12 (c * 2 ^ 10) (u16 (c * 2 ^ 10)) (omega arith) (omega arith)
        (omega arith) in
    let a10 = a12 + c * 2 ^ 10 in
    let s9 =
      or_below 10 (d * 8 + bit dp * 4 + c) a10 (bit (not info.is_top) * 2 ^ 9)
        (u16 (bit (not info.is_top) * 2 ^ 9)) (omega arith) (omega arith) (omega arith) in
    let a9 = a10 + bit (not info.is_top) * 2 ^ 9 in
    let s7 =
      or_below 9 (d * 16 + bit dp * 8 + c * 2 + bit (not info.is_top)) a9 (info.core_count * 2 ^ 7)
        (u16 (info.core_count * 2 ^ 7)) (omega arith) (omega arith) (omega arith) in
    let a7 = a9 + info.core_count * 2 ^ 7 in
    let s0 =
      or_below 7 (d * 64 + bit dp * 32 + c * 8 + bit (not info.is_top) * 4 + info.core_count) a7 q q
        (omega arith) (omega arith) refl in
    rw (top, s12, s10, s9, s7, s0) refl

pub with_ex_bit : (hdr : ℕ) → hdr < 2 ^ 15 → bit_or hdr (2 ^ ex_hdr_bit) ≡ 2 ^ 15 + hdr
with_ex_bit hdr h = or_disjoint_low 15 1 hdr h

or_bit :
    (k : ℕ) (b : Bool) (r v : ℕ)
    → r < 2 ^ k
    → v ≡ 2 ^ k
    → bit_or r (if b then v else 0) ≡ r + bit b * 2 ^ k
or_bit k true r v h e =
    rw e (let f : 2 ^ k ≡ 1 * 2 ^ k = omega arith in rw f (or_disjoint_low k 1 r h ∙ omega arith))
or_bit k false r v h e = bit_or-zero r ∙ omega arith

-- The bits of the second word.
pub ex_hdr_sum :
    (info : TermInfo) (need full both v2 : Bool)
    → ex_hdr info need full both v2
      ≡ (if need then bit info.even_odd else 0)
        + bit full * 2
        + bit (full && both) * 4
        + bit v2 * 2 ^ 14
unfolding ex_hdr
ex_hdr_sum info need full both v2 =
    let e = if need then bit info.even_odd else 0 in
    let small : e < 2 = ground (arith, bit_lt info.even_odd) in
    let f = bit_lt full in
    let g = bit_lt (full && both) in
    rw
      (
        or_bit 1 full e 2 small refl,
        or_bit 2 (full && both) (e + bit full * 2) 4 (omega arith) refl,
        or_bit 14 v2 (e + bit full * 2 + bit (full && both) * 4) (2 ^ 14) (omega arith) refl,
      )
      refl

pub thread_hdr_sum :
    (info : TermInfo) (last : Bool) (size : ℕ)
    → size < 2 ^ 11
    → thread_hdr info last size
      ≡ (if last then info.v_last_adjusted else info.v_adjusted) % 2 ^ 5 * 2 ^ 11 + size
unfolding thread_hdr
thread_hdr_sum info last size h =
    let v = if last then info.v_last_adjusted else info.v_adjusted in
    let small : u16 size ≡ size = omega arith in
    let cut : u16 (bit_and (u16 v) (2 ^ 5 - 1) * 2 ^ 11) ≡ v % 2 ^ 5 * 2 ^ 11 =
      rw (and_low 5 (u16 v)) (omega arith) in
    rw (small, cut) (or_disjoint_low 11 (v % 2 ^ 5) size h)
