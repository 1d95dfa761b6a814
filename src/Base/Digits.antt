-- ===== src/Base/Digits.antt =====
-- Numbers as runs of binary digits, the most significant first, and powers of two.
use Prim.Native.Nat.{ℕ, zero, suc, ◌+◌, ◌*◌, ◌/◌, ◌%◌, ◌^◌, ◌≤◌, ◌<◌}
use mathlib.Core.Path.{◌≡◌, refl, sym, ap, ap₂, ◌∙◌}
use mathlib.Core.List.{List, [], ◌∷◌, ◌++◌, append_assoc, append-nil}
use native.Mathlib.Nat.{
  pow-suc, one-le-pow, add-mul-mod_self_right, mod-eq_of_lt, div-add-mod', pow-le-pow_right,
}
use native.Mathlib.Omega.{arith}
use ntr_hr.Base.Bits.{double_pow}

-- The low `n` digits of `v`.
unfoldable pub bits : ℕ → ℕ → List ℕ
bits zero v = []
bits (suc n) v = bits n (v / 2) ++ (v % 2 ∷ [])

pub pow-add : (a b : ℕ) → 2 ^ (a + b) ≡ 2 ^ a * 2 ^ b
pow-add zero b = ap (λ k. 2 ^ k) (let e : 0 + b ≡ b = omega arith in e) ∙ omega arith
pow-add (suc a) b =
    let e : suc a + b ≡ suc (a + b) = omega arith in
    rw e (
      omega (
        arith,
        pow-suc 2 (a + b),
        pow-suc 2 a,
        pow-add a b,
        ap (λ (t : ℕ). t * 2 ^ b) (pow-suc 2 a),
      ))

pub pow_le : (i j : ℕ) → i ≤ j → 2 ^ i ≤ 2 ^ j
pow_le i j h = pow-le-pow_right (omega arith) h

-- Digits above the run do not matter.
pub bits-high : (n q r : ℕ) → bits n (q * 2 ^ n + r) ≡ bits n r
unfolding bits
bits-high zero q r = refl
bits-high (suc n) q r =
    let e : (q * 2 ^ suc n + r) / 2 ≡ q * 2 ^ n + r / 2 = omega (arith, double_pow q n) in
    let f : (q * 2 ^ suc n + r) % 2 ≡ r % 2 = omega (arith, double_pow q n) in
    rw (e, f, bits-high n q (r / 2))

pub bits-append : (a b x y : ℕ) → y < 2 ^ b → bits (a + b) (x * 2 ^ b + y) ≡ bits a x ++ bits b y
unfolding bits
bits-append a zero x y h =
    ap₂ bits (let e : a + 0 ≡ a = omega arith in e) (let e : x * 2 ^ 0 + y ≡ x = omega arith in e)
    ∙ rw append-nil
bits-append a (suc b) x y h =
    let s : a + suc b ≡ suc (a + b) = omega arith in
    let e : (x * 2 ^ suc b + y) / 2 ≡ x * 2 ^ b + y / 2 = omega (arith, double_pow x b) in
    let f : (x * 2 ^ suc b + y) % 2 ≡ y % 2 = omega (arith, double_pow x b) in
    rw (s, e, f, bits-append a b x (y / 2) (omega (arith, pow-suc 2 b)), append_assoc)

-- A run may be cut anywhere.
pub bits-cut : (a b v : ℕ) → bits (a + b) v ≡ bits a (v / 2 ^ b) ++ bits b v
bits-cut a b v =
    ap (bits (a + b)) fields
    ∙ bits-append a b (v / 2 ^ b) (v % 2 ^ b) (omega (arith, one-le-pow b 2))
    ∙ ap (λ t. bits a (v / 2 ^ b) ++ t)
        (sym (ap (bits b) fields ∙ bits-high b (v / 2 ^ b) (v % 2 ^ b)))
  where
    fields : v ≡ v / 2 ^ b * 2 ^ b + v % 2 ^ b
    fields = omega (arith, one-le-pow b 2)

pub bits-mod : (n k v : ℕ) → bits n (v % 2 ^ (k + n)) ≡ bits n v
bits-mod n k v = rw (← bits-high n (v / 2 ^ (k + n) * 2 ^ k) (v % 2 ^ (k + n))) (
    ap (bits n)
      (omega (arith, one-le-pow (k + n) 2, ap (λ (t : ℕ). v / 2 ^ (k + n) * t) (pow-add k n))))

pub field_lt : (r m p : ℕ) → r < m → 1 ≤ p → r * p < m * p
field_lt r m p h k = grind arith

-- `x << s` on a word of `k + s` bits drops the bits above the low `k`.
pub shl_mod : (k s x : ℕ) → x * 2 ^ s % 2 ^ (k + s) ≡ (x % 2 ^ k) * 2 ^ s
shl_mod k s x =
    ap (λ t. t % 2 ^ (k + s)) split ∙ add-mul-mod_self_right _ (x / 2 ^ k) _ ∙ mod-eq_of_lt small
  where
    split : x * 2 ^ s ≡ x % 2 ^ k * 2 ^ s + x / 2 ^ k * 2 ^ (k + s)
    split = omega (
      arith,
      ap (λ (t : ℕ). t * 2 ^ s) (div-add-mod' x (2 ^ k)),
      ap (λ (t : ℕ). x / 2 ^ k * t) (pow-add k s),
    )

    small : x % 2 ^ k * 2 ^ s < 2 ^ (k + s)
    small = rw pow-add (
        field_lt (x % 2 ^ k) (2 ^ k) (2 ^ s) (omega (arith, one-le-pow k 2))
          (one-le-pow s 2 (omega arith)))
