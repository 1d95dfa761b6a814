-- ===== src/Base/Bits.antt =====
-- `&` and `|` at variables. Each works digit by digit, so it splits at any bit position.
use Prim.Native.Nat.{ℕ, zero, suc, ◌+◌, ◌-◌, ◌*◌, ◌/◌, ◌%◌, ◌^◌, ◌≤◌, ◌<◌, min, max}
use Prim.Native.Nat.{bit_and, bit_or, digits, bit_and-bitwise, bit_or-bitwise}
use mathlib.Core.Path.{◌≡◌, refl, ap}
use native.Mathlib.Nat.{pow-suc, one-le-pow}
use native.Mathlib.Omega.{arith}

-- The digit recursion behind both operations does not depend on spare fuel.
digits_spare :
    (z : ℕ → ℕ) (f : ℕ → ℕ → ℕ) (m n a b : ℕ) → a ≤ m → a ≤ n → digits z f m a b ≡ digits z f n a b
digits_spare z f zero zero a b p q = refl
digits_spare z f zero (suc n) zero b p q = refl
digits_spare z f zero (suc n) (suc a) b p q = absurd (omega arith)
digits_spare z f (suc m) zero zero b p q = refl
digits_spare z f (suc m) zero (suc a) b p q = absurd (omega arith)
digits_spare z f (suc m) (suc n) zero b p q = refl
digits_spare z f (suc m) (suc n) (suc a) b p q =
    rw (digits_spare z f m n (suc a / 2) (b / 2) (omega arith) (omega arith))

pub and_digit : (a b : ℕ) → bit_and a b ≡ bit_and (a / 2) (b / 2) * 2 + min (a % 2) (b % 2)
and_digit zero b = omega (arith, bit_and-bitwise 0 b, bit_and-bitwise 0 (b / 2))
and_digit (suc a) b = omega (
  arith,
  bit_and-bitwise (suc a) b,
  bit_and-bitwise (suc a / 2) (b / 2),
  digits_spare (λ y. zero) min a (suc a / 2) (suc a / 2) (b / 2) (omega arith) (omega arith),
)

pub or_digit : (a b : ℕ) → bit_or a b ≡ bit_or (a / 2) (b / 2) * 2 + max (a % 2) (b % 2)
or_digit zero b = omega (arith, bit_or-bitwise 0 b, bit_or-bitwise 0 (b / 2))
or_digit (suc a) b = omega (
  arith,
  bit_or-bitwise (suc a) b,
  bit_or-bitwise (suc a / 2) (b / 2),
  digits_spare (λ y. y) max a (suc a / 2) (suc a / 2) (b / 2) (omega arith) (omega arith),
)

-- One more digit below the split position.
pub double_pow : (a k : ℕ) → a * 2 ^ suc k ≡ 2 * (a * 2 ^ k)
double_pow a k = omega (arith, ap (λ (t : ℕ). a * t) (pow-suc 2 k))

pub and_split :
    (k a b x y : ℕ)
    → x < 2 ^ k
    → y < 2 ^ k
    → bit_and (a * 2 ^ k + x) (b * 2 ^ k + y) ≡ bit_and a b * 2 ^ k + bit_and x y
and_split zero a b zero zero p q = ground (arith, bit_and-bitwise 0 0)
and_split zero a b (suc x) y p q = absurd (omega arith)
and_split zero a b zero (suc y) p q = absurd (omega arith)
and_split (suc k) a b x y p q = ground (
  arith,
  and_digit (a * 2 ^ suc k + x) (b * 2 ^ suc k + y),
  and_digit x y,
  double_pow a k,
  double_pow b k,
  double_pow (bit_and a b) k,
  pow-suc 2 k,
  and_split k a b (x / 2) (y / 2) (omega (arith, pow-suc 2 k)) (omega (arith, pow-suc 2 k)),
)

pub or_split :
    (k a b x y : ℕ)
    → x < 2 ^ k
    → y < 2 ^ k
    → bit_or (a * 2 ^ k + x) (b * 2 ^ k + y) ≡ bit_or a b * 2 ^ k + bit_or x y
or_split zero a b zero zero p q = ground (arith, bit_or-bitwise 0 0)
or_split zero a b (suc x) y p q = absurd (omega arith)
or_split zero a b zero (suc y) p q = absurd (omega arith)
or_split (suc k) a b x y p q = ground (
  arith,
  or_digit (a * 2 ^ suc k + x) (b * 2 ^ suc k + y),
  or_digit x y,
  double_pow a k,
  double_pow b k,
  double_pow (bit_or a b) k,
  pow-suc 2 k,
  or_split k a b (x / 2) (y / 2) (omega (arith, pow-suc 2 k)) (omega (arith, pow-suc 2 k)),
)

pub zero-bit_or : (b : ℕ) → bit_or 0 b ≡ b
zero-bit_or b = bit_or-bitwise 0 b

or-zero_below : (m a : ℕ) → a ≤ m → bit_or a 0 ≡ a
or-zero_below m zero h = zero-bit_or 0
or-zero_below zero (suc a) h = absurd (omega arith)
or-zero_below (suc m) (suc a) h =
    omega (arith, or_digit (suc a) 0, or-zero_below m (suc a / 2) (omega arith))

pub bit_or-zero : (a : ℕ) → bit_or a 0 ≡ a
bit_or-zero a = or-zero_below a a (omega arith)

-- `(q << k) | r` is a sum where `r` fits `k` bits.
pub or_disjoint : (k q r : ℕ) → r < 2 ^ k → bit_or (q * 2 ^ k) r ≡ q * 2 ^ k + r
or_disjoint k q r h = ground (
  arith,
  one-le-pow k 2,
  or_split k q 0 0 r (omega (arith, one-le-pow k 2)) h,
  bit_or-zero q,
  zero-bit_or r,
)

-- `r | (q << k)` is that sum too.
pub or_disjoint_low : (k q r : ℕ) → r < 2 ^ k → bit_or r (q * 2 ^ k) ≡ q * 2 ^ k + r
or_disjoint_low k q r h = ground (
  arith,
  one-le-pow k 2,
  or_split k 0 q r 0 h (omega (arith, one-le-pow k 2)),
  zero-bit_or q,
  bit_or-zero r,
)

pub zero-bit_and : (b : ℕ) → bit_and 0 b ≡ 0
zero-bit_and b = bit_and-bitwise 0 b

and-zero_below : (m a : ℕ) → a ≤ m → bit_and a 0 ≡ 0
and-zero_below m zero h = zero-bit_and 0
and-zero_below zero (suc a) h = absurd (omega arith)
and-zero_below (suc m) (suc a) h =
    omega (arith, and_digit (suc a) 0, and-zero_below m (suc a / 2) (omega arith))

pub bit_and-zero : (a : ℕ) → bit_and a 0 ≡ 0
bit_and-zero a = and-zero_below a a (omega arith)

and_low_self : (k a : ℕ) → a < 2 ^ k → bit_and a (2 ^ k - 1) ≡ a
and_low_self zero a h = ground (arith, bit_and-zero a)
and_low_self (suc k) a h = ground (
  arith,
  and_digit a (2 ^ suc k - 1),
  pow-suc 2 k,
  one-le-pow k 2,
  and_low_self k (a / 2) (omega (arith, pow-suc 2 k)),
)

and_low_fields : (k q r : ℕ) → r < 2 ^ k → bit_and (q * 2 ^ k + r) (2 ^ k - 1) ≡ r
and_low_fields k q r h = ground (
  arith,
  one-le-pow k 2,
  and_split k q 0 r (2 ^ k - 1) h (omega (arith, one-le-pow k 2)),
  bit_and-zero q,
  and_low_self k r h,
)

-- `a & ((1 << k) - 1)` keeps the low `k` bits.
pub and_low : (k a : ℕ) → bit_and a (2 ^ k - 1) ≡ a % 2 ^ k
and_low k a = ground (arith, one-le-pow k 2, and_low_fields k (a / 2 ^ k) (a % 2 ^ k))
