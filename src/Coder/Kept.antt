-- ===== src/Coder/Kept.antt =====
-- The calls on a buffer with room of its own leave its place in the packets alone.
use ntr_hr.Base.{ℕ, ◌≡◌, refl, sym, ◌∙◌, inl, inr, false, not, ◌&&◌, ltb, Bool-cases}
use ntr_hr.Coder.Buffer.{
  BitEncoderState, EncodeBuffer, emit_byte, has_ff, flush, put_and_flush, put_bits, put_code,
}

-- A buffer that still belongs to the same place.
pub record Kept (u0 u : EncodeBuffer) : Type 0 where
  pub dst : u.dst ≡ u0.dst
  pub env : u.env ≡ u0.env
  pub local : u.local ≡ u0.local
  pub no_escape : u.no_escape ≡ u0.no_escape
  pub buffered : u.direct ≡ false

emit_byte-Kept : {u0 u : EncodeBuffer} (b : ℕ) → Kept u0 u → Kept u0 (emit_byte b u)
unfolding emit_byte
emit_byte-Kept {u0} {u} b k = elim (Bool-cases u.no_escape) [
  | inl p ↦
      rw (k.buffered, p)
        record {
          dst = k.dst;
          env = k.env;
          local = k.local;
          no_escape = sym p ∙ k.no_escape;
          buffered = refl;
        }
  | inr p ↦
      rw (k.buffered, p)
        record {
          dst = k.dst;
          env = k.env;
          local = k.local;
          no_escape = sym p ∙ k.no_escape;
          buffered = refl;
        }
]

flush-Kept : {u0 u : EncodeBuffer} (c : ℕ) → Kept u0 u → Kept u0 (flush c u)
unfolding flush
flush-Kept {u0} {u} c k = elim (Bool-cases (not u.no_escape && has_ff c)) [
  | inl p ↦ rw p (emit_byte-Kept _ (emit_byte-Kept _ (emit_byte-Kept _ (emit_byte-Kept _ k))))
  | inr p ↦
      rw (p, k.buffered)
        record {
          dst = k.dst;
          env = k.env;
          local = k.local;
          no_escape = k.no_escape;
          buffered = refl;
        }
]

pub put_bits-Kept :
    {u0 u : EncodeBuffer} (s : BitEncoderState) (code size : ℕ)
    → Kept u0 u
    → Kept u0 (put_bits code size s u).1
unfolding put_bits put_and_flush
put_bits-Kept s code size k = elim (Bool-cases (ltb s.free_bits size)) [
  | inl p ↦ rw p (flush-Kept _ k)
  | inr p ↦ rw p k
]

pub put_code-Kept :
    {u0 u : EncodeBuffer} (s : BitEncoderState) (code size temp nbits : ℕ)
    → Kept u0 u
    → Kept u0 (put_code code size temp nbits s u).1
unfolding put_code
put_code-Kept s code size temp nbits k = put_bits-Kept s _ _ k
