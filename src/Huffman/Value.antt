-- ===== src/Huffman/Value.antt =====
-- The bits behind a code give the value back.
use ntr_hr.Base.{
  ℕ, zero, suc, ◌+◌, ◌-◌, ◌*◌, ◌/◌, ◌%◌, ◌^◌, ◌<◌, ◌≤◌, ◌≡◌, ◌≢◌, refl, sym, ap, ◌∙◌, ◌⊎◌, inl, inr,
  true, false, ltb, ◌==◌, if◌then◌else◌, Bool-cases, eq-cases, le-cases, arith,
}
use ntr_hr.Base.Word.{u32}
use ntr_hr.Base.Digits.{pow-add, pow_le}
use native.Mathlib.Nat.{one-le-pow, pow-suc, mod-eq_of_lt, add-mul-mod_self_right}
use ntr_hr.Huffman.Block.{bit_length, jpeg_nbits_nonzero, sign_of, xor_sign, val1_of, nbits_of}

-- The i32 pattern of a value that is strictly between -2^15 and 2^15.
abbrev pub IsSmall : ℕ → Type 0
IsSmall v = (v < 2 ^ 15) ⊎ ((2 ^ 32 - 2 ^ 15 < v) × (v < 2 ^ 32))

-- The reader's EXTEND: `n` bits `x` whose first is 0 stand for a negative value.
unfoldable pub extend : ℕ → ℕ → ℕ
extend n x = if n == 0 then 0 else if ltb x (2 ^ (n - 1)) then u32 (x + (2 ^ 32 - 2 ^ n) + 1) else x

-- The number of digits of `x`.
record Digits (x n : ℕ) : Type 0 where
  high : x < 2 ^ n
  low : 0 < x → 2 ^ n ≤ 2 * x
  none_of_0 : x ≡ 0 → n ≡ 0

bit_length-Digits : (fuel x : ℕ) → x < 2 ^ fuel → Digits x (bit_length fuel x)
unfolding bit_length
bit_length-Digits zero x h = record {
  high = h;
  low = λ p. omega (arith, h, p);
  none_of_0 = λ p. refl;
}
bit_length-Digits (suc fuel) x h =
    let half = bit_length-Digits fuel (x / 2) (omega (arith, pow-suc 2 fuel)) in
    let n = bit_length fuel (x / 2) in
    elim (Bool-cases (x == 0)) [
      | inl p ↦ rw p (record {
        high = ground (arith, p);
        low = λ k. ground (arith, p, k);
        none_of_0 = λ k. refl;
      })
      | inr p ↦ rw p (record {
        high = omega (arith, half.high, pow-suc 2 n);
        low = λ k. low_of n k half;
        none_of_0 = λ k. ground (arith, p, k);
      })
    ]
  where
    low_of : (n : ℕ) → 0 < x → Digits (x / 2) n → 2 ^ suc n ≤ 2 * x
    low_of n k half = elim (le-cases 2 x) [
      | inl a ↦ omega (arith, pow-suc 2 n, half.low (omega arith))
      | inr a ↦
          let z : n ≡ 0 = half.none_of_0 (omega arith) in
          omega (arith, k, ap (λ (t : ℕ). 2 ^ suc t) z)
    ]

-- A value in range takes at most 15 bits, none for 0, and the reader finds it in them.
pub record Value (v : ℕ) : Type 0 where
  pub small : nbits_of v ≤ 15
  pub back : extend (nbits_of v) (val1_of v % 2 ^ nbits_of v) ≡ v
  pub some_bits : (v == 0) ≡ false → 0 < nbits_of v

few-Digits : (x n : ℕ) → x < 2 ^ 15 → Digits x n → n ≤ 15
few-Digits x n h d = elim (le-cases 16 n) [
  | inr a ↦ omega (arith, a)
  | inl a ↦ elim (eq-cases x 0) [
    | inl z ↦ omega (arith, d.none_of_0 z)
    | inr z ↦ absurd (omega (arith, h, d.low (omega (arith, z)), pow_le 16 n a))
  ]
]

-- The number of a value's bits, in either sign.
nbits-up : (v : ℕ) → v < 2 ^ 15 → (val1_of v ≡ v) × (nbits_of v ≡ bit_length 32 v)
unfolding val1_of nbits_of sign_of xor_sign jpeg_nbits_nonzero
nbits-up v h =
    let p : ltb v (2 ^ 31) ≡ true = ground (arith, h) in
    let e : u32 (v + 0) ≡ v = omega (arith, h) in rw (p, e) (refl, refl)

nbits-down :
    (v : ℕ)
    → 2 ^ 32 - 2 ^ 15 < v
    → v < 2 ^ 32
    → (val1_of v ≡ v - 1) × (nbits_of v ≡ bit_length 32 (2 ^ 32 - v))
unfolding val1_of nbits_of sign_of xor_sign jpeg_nbits_nonzero
nbits-down v h k =
    let p : ltb v (2 ^ 31) ≡ false = ground (arith, h) in
    let e : u32 (v + (2 ^ 32 - 1)) ≡ v - 1 = omega (arith, h, k) in
    let f : 2 ^ 32 - 1 - (v - 1) ≡ 2 ^ 32 - v = omega (arith, h, k) in
    rw (p, e) (refl, ap (bit_length 32) f)

extend_top : (n x : ℕ) → 0 < n → 2 ^ n ≤ 2 * x → extend n x ≡ x
unfolding extend
extend_top zero x h k = absurd (omega arith)
extend_top (suc n) x h k =
    let e : suc n - 1 ≡ n = omega arith in
    let z : (suc n == 0) ≡ false = ground arith in
    let p : ltb x (2 ^ n) ≡ false = ground (arith, k, pow-suc 2 n) in rw (z, e, p) refl

extend_low :
    (n a : ℕ) → n ≤ 15 → 0 < a → a < 2 ^ n → 2 ^ n ≤ 2 * a → extend n (2 ^ n - 1 - a) ≡ 2 ^ 32 - a
unfolding extend
extend_low zero a t h k l = absurd (omega arith)
extend_low (suc n) a t h k l =
    let e : suc n - 1 ≡ n = omega arith in
    let z : (suc n == 0) ≡ false = ground arith in
    let top = pow_le (suc n) 15 t in
    let p : ltb (2 ^ suc n - 1 - a) (2 ^ n) ≡ true = ground (arith, h, l, pow-suc 2 n) in
    rw (z, e, p) omega (arith, k, h, top)

-- `-a - 1` in `n` bits.
below_0 : (n a : ℕ) → n ≤ 32 → a < 2 ^ n → (2 ^ 32 - a - 1) % 2 ^ n ≡ 2 ^ n - 1 - a
below_0 n a h k =
    let p = 2 ^ n in
    let q = 2 ^ (32 - n) in
    let whole : q * p ≡ 2 ^ 32 =
      sym (pow-add (32 - n) n) ∙ ap (λ t. 2 ^ t) (let e : 32 - n + n ≡ 32 = omega arith in e) in
    let split : 2 ^ 32 - a - 1 ≡ (p - 1 - a) + (q - 1) * p =
      omega (arith, k, whole, less_one q p (one-le-pow (32 - n) 2 (omega arith))) in
    ap (λ t. t % p) split
    ∙ add-mul-mod_self_right (p - 1 - a) (q - 1) p
    ∙ mod-eq_of_lt (omega (arith, k))
  where
    less_one : (q p : ℕ) → 1 ≤ q → (q - 1) * p + p ≡ q * p
    less_one zero p h = absurd (omega arith)
    less_one (suc q) p h = let e : suc q - 1 ≡ q = omega arith in rw e omega arith

pub value : (v : ℕ) → IsSmall v → Value v
unfolding extend
value v (inl h) =
    let (e, f) = nbits-up v h in
    let d = bit_length-Digits 32 v (omega (arith, h)) in
    let n = bit_length 32 v in
    let low : v % 2 ^ n ≡ v = mod-eq_of_lt d.high in
    let some_of : v ≢ 0 → 0 < n = λ z. no_digits n z d.high in
    record {
      small = omega (arith, f, few-Digits v n h d);
      back =
          rw (e, f, low)
            (elim (eq-cases v 0) [
              | inl z ↦ let g = d.none_of_0 z in rw (g, z) refl
              | inr z ↦ extend_top n v (some_of z) (d.low (omega (arith, z)))
            ]);
      some_bits = λ z. omega (arith, f, some_of (λ g. ground (arith, z, g)));
    }
  where
    no_digits : (n : ℕ) → v ≢ 0 → v < 2 ^ n → 0 < n
    no_digits zero z k = absurd (omega (arith, z, k))
    no_digits (suc n) z k = omega arith
value v (inr (h, k)) =
    let a = 2 ^ 32 - v in
    let (e, f) = nbits-down v h k in
    let d = bit_length-Digits 32 a (omega (arith, h)) in
    let n = bit_length 32 a in
    let few = few-Digits a n (omega (arith, h)) d in
    let pos : 0 < a = omega (arith, k) in
    let rest : v - 1 ≡ 2 ^ 32 - a - 1 = omega (arith, h, k) in
    record {
      small = omega (arith, f, few);
      back =
          rw (e, f, rest, below_0 n a (omega (arith, few)) d.high)
            (extend_low n a few pos d.high (d.low pos) ∙ omega (arith, h, k));
      some_bits = λ z. omega (arith, f, one_digit n d.high pos);
    }
  where
    one_digit : (n : ℕ) → 2 ^ 32 - v < 2 ^ n → 0 < 2 ^ 32 - v → 0 < n
    one_digit zero p q = absurd (omega (arith, p, q))
    one_digit (suc n) p q = omega arith
