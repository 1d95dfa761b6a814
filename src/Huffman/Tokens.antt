-- ===== src/Huffman/Tokens.antt =====
-- A block as run-length symbols: what encode_one_block puts out, and a reader of it.
use ntr_hr.Base.{
  ℕ, zero, suc, ◌+◌, ◌-◌, ◌*◌, ◌/◌, ◌%◌, ◌^◌, ◌≡◌, refl, sym, ap, ap₂, ◌∙◌, inl, inr, true, false,
  List, [], ◌∷◌, ◌++◌, append-nil, All, ltb, ◌==◌, if◌then◌else◌, replicate, length, Bool-cases,
  arith,
}
use ntr_hr.Huffman.Block.{val1_of, nbits_of}
use ntr_hr.Huffman.Value.{IsSmall, Value, value, extend}

-- A symbol, and the number and the value of the bits behind its code.
abbrev pub Token : Type 0
Token = ℕ × ℕ × ℕ

-- `z` zeros, then the values.
unfoldable pub tokens : List ℕ → ℕ → List Token
tokens [] z = if ltb 0 z then (0, 0, 0) ∷ [] else []
tokens (v ∷ vs) z =
    if v == 0
    then tokens vs (suc z)
    else replicate (z / 16) (0xf0, 0, 0)
      ++ (z % 16 * 16 + nbits_of v, nbits_of v, val1_of v) ∷ tokens vs 0

-- The `n` values that the tokens stand for.
unfoldable pub decode_ac : ℕ → List Token → List ℕ
decode_ac n [] = []
decode_ac n ((sym, k, x) ∷ ts) =
    if sym == 0
    then replicate n 0
    else if sym == 0xf0
    then replicate 16 0 ++ decode_ac (n - 16) ts
    else replicate (sym / 16) 0 ++ extend (sym % 16) (x % 2 ^ k) ∷ decode_ac (n - sym / 16 - 1) ts

replicate-snoc : (n : ℕ) (vs : List ℕ) → replicate (suc n) 0 ++ vs ≡ replicate n 0 ++ 0 ∷ vs
replicate-snoc zero vs = refl
replicate-snoc (suc n) vs = ap (λ t. 0 ∷ t) (replicate-snoc n vs)

replicate-add :
    (m n : ℕ) (vs : List ℕ) → replicate m 0 ++ (replicate n 0 ++ vs) ≡ replicate (m + n) 0 ++ vs
replicate-add zero n vs = let e : 0 + n ≡ n = omega arith in rw e refl
replicate-add (suc m) n vs =
    let e : suc m + n ≡ suc (m + n) = omega arith in rw e (ap (λ t. 0 ∷ t) (replicate-add m n vs))

decode_ac-runs :
    (q n : ℕ) (ts : List Token)
    → decode_ac n (replicate q (0xf0, 0, 0) ++ ts)
      ≡ replicate (16 * q) 0 ++ decode_ac (n - 16 * q) ts
unfolding decode_ac
decode_ac-runs zero n ts = ap (λ k. decode_ac k ts) (let e : n ≡ n - 16 * 0 = omega arith in e)
decode_ac-runs (suc q) n ts =
    let e : 16 + 16 * q ≡ 16 * suc q = omega arith in
    let f : n - 16 - 16 * q ≡ n - 16 * suc q = omega arith in
    ap (λ t. replicate 16 0 ++ t) (decode_ac-runs q (n - 16) ts)
    ∙ replicate-add 16 (16 * q) (decode_ac (n - 16 - 16 * q) ts)
    ∙ ap₂ (λ a b. replicate a 0 ++ decode_ac b ts) e f

decode_ac-Value :
    (v z : ℕ) (vs : List ℕ)
    → Value v
    → (v == 0) ≡ false
    → decode_ac (0 + length vs) (tokens vs 0) ≡ replicate 0 0 ++ vs
    → decode_ac
        (z + suc (length vs) - 16 * (z / 16))
        ((z % 16 * 16 + nbits_of v, nbits_of v, val1_of v) ∷ tokens vs 0)
      ≡ replicate (z % 16) 0 ++ v ∷ vs
unfolding decode_ac
decode_ac-Value v z vs w p rest =
    let k = nbits_of v in
    let few = w.small in
    let pos = w.some_bits p in
    let a : (z % 16 * 16 + k == 0) ≡ false = ground (arith, pos) in
    let b : (z % 16 * 16 + k == 0xf0) ≡ false = ground (arith, pos, few) in
    let c : (z % 16 * 16 + k) / 16 ≡ z % 16 = omega (arith, few) in
    let d : (z % 16 * 16 + k) % 16 ≡ k = omega (arith, few) in
    let e : z + suc (length vs) - 16 * (z / 16) - z % 16 - 1 ≡ 0 + length vs = omega arith in
    rw (a, b, c, d, e, w.back, rest) refl

-- The reader finds the values again, with the zeros that are still open in front.
pub decode_ac-tokens :
    (vs : List ℕ) (z : ℕ)
    → All IsSmall vs
    → decode_ac (z + length vs) (tokens vs z) ≡ replicate z 0 ++ vs
unfolding tokens decode_ac
decode_ac-tokens [] zero h = refl
decode_ac-tokens [] (suc z) h =
    let p : ltb 0 (suc z) ≡ true = ground arith in
    let e : suc z + 0 ≡ suc z = omega arith in rw (p, e, append-nil (replicate {A = ℕ} z 0)) refl
decode_ac-tokens (v ∷ vs) z h = elim (Bool-cases (v == 0)) [
  | inl p ↦
      let e : z + suc (length vs) ≡ suc z + length vs = omega arith in
      rw (p, e)
        (decode_ac-tokens vs (suc z) h.1
          ∙ replicate-snoc z vs
          ∙ ap (λ t. replicate z 0 ++ t ∷ vs) (ground (arith, p)))
  | inr p ↦ rw p (
      decode_ac-runs (z / 16) (z + suc (length vs)) _
      ∙ ap (λ t. replicate (16 * (z / 16)) 0 ++ t)
          (decode_ac-Value v z vs (value v h.0) p (decode_ac-tokens vs 0 h.1))
      ∙ replicate-add (16 * (z / 16)) (z % 16) (v ∷ vs)
      ∙ ap (λ k. replicate k 0 ++ v ∷ vs) (let e : 16 * (z / 16) + z % 16 ≡ z = omega arith in e))
]
