-- ===== src/Base/Memory.antt =====
-- Byte-addressed memory: a store, `ptr::copy_nonoverlapping` from a run of bytes, and the run of
-- bytes that starts at an address.
use Prim.Native.Nat.{ℕ, zero, suc, ◌+◌, ◌-◌, ◌≤◌, ◌<◌}
use mathlib.Core.Path.{◌≡◌, refl, sym, ap, ap₂, ◌∙◌}
use mathlib.Core.Logic.{◌⊎◌, inl, inr}
use mathlib.Core.List.{List, [], ◌∷◌, ◌++◌}
use native.Mathlib.Omega.{arith}
use ntr_hr.Base.Test.{◌==◌, if◌then◌else◌}
use ntr_hr.Base.Array.{length}

abbrev pub Memory : Type 0
Memory = ℕ → ℕ

abbrev pub store : Memory → ℕ → ℕ → Memory
store m p v q = if q == p then v else m q

unfoldable pub copy : Memory → ℕ → List ℕ → Memory
copy m p [] = m
copy m p (x ∷ xs) = copy (store m p x) (p + 1) xs

unfoldable pub slice : Memory → ℕ → ℕ → List ℕ
slice m p zero = []
slice m p (suc n) = m p ∷ slice m (p + 1) n

pub length-slice : (m : Memory) (p n : ℕ) → length (slice m p n) ≡ n
unfolding slice
length-slice m p zero = refl
length-slice m p (suc n) = ap suc (length-slice m (p + 1) n)

-- A copy changes nothing outside of the bytes it writes.
pub copy_outside :
    (m : Memory) (p : ℕ) (xs : List ℕ) (q : ℕ) → (q < p) ⊎ (p + length xs ≤ q) → copy m p xs q ≡ m q
unfolding copy
copy_outside m p [] q h = refl
copy_outside m p (x ∷ xs) q h = ground (arith, copy_outside (store m p x) (p + 1) xs q)

pub slice_ext :
    (m k : Memory) (p n : ℕ) → ((q : ℕ) → p ≤ q → q < p + n → m q ≡ k q) → slice m p n ≡ slice k p n
unfolding slice
slice_ext m k p zero h = refl
slice_ext m k p (suc n) h =
    ap₂ ◌∷◌ (h p (omega arith) (omega arith))
      (slice_ext m k (p + 1) n (λ q a b. h q (omega arith) (omega arith)))

pub slice-add : (m : Memory) (p a b : ℕ) → slice m p (a + b) ≡ slice m p a ++ slice m (p + a) b
unfolding slice
slice-add m p zero b =
    ap₂ (slice m) (let e : p ≡ p + 0 = omega arith in e) (let e : 0 + b ≡ b = omega arith in e)
slice-add m p (suc a) b =
    let e : suc a + b ≡ suc (a + b) = omega arith in
    let f : p + 1 + a ≡ p + suc a = omega arith in rw (e, slice-add m (p + 1) a b, f)

pub slice-copy_self : (m : Memory) (p : ℕ) (xs : List ℕ) → slice (copy m p xs) p (length xs) ≡ xs
unfolding slice copy
slice-copy_self m p [] = refl
slice-copy_self m p (x ∷ xs) =
    ap₂ ◌∷◌ (copy_outside (store m p x) (p + 1) xs p (inl (omega arith)) ∙ ground arith)
      (slice-copy_self (store m p x) (p + 1) xs)

-- A copy just behind a run of bytes extends the run.
pub slice-copy_append :
    (m : Memory) (p n : ℕ) (xs : List ℕ)
    → slice (copy m (p + n) xs) p (n + length xs) ≡ slice m p n ++ xs
slice-copy_append m p n xs =
    slice-add (copy m (p + n) xs) p n (length xs)
    ∙ ap₂ ◌++◌ (slice_ext (copy m (p + n) xs) m p n (λ q a b. copy_outside m (p + n) xs q (inl b)))
        (slice-copy_self m (p + n) xs)

pub slice-copy_extend :
    (m : Memory) (buf p len : ℕ) (text xs : List ℕ)
    → buf ≤ p
    → len ≡ length xs
    → slice m buf (p - buf) ≡ text
    → slice (copy m p xs) buf (p + len - buf) ≡ text ++ xs
slice-copy_extend m buf p len text xs h q held =
    let e : p ≡ buf + (p - buf) = omega arith in
    let f : p + len - buf ≡ p - buf + length xs = omega arith in
    ap₂ (λ k n. slice (copy m k xs) buf n) e f
    ∙ (slice-copy_append m buf (p - buf) xs ∙ ap (λ t. t ++ xs) held)

-- A copy that ends at or before a run of bytes leaves it alone.
pub slice-copy_before :
    (m : Memory) (p : ℕ) (xs : List ℕ) (a n : ℕ)
    → p + length xs ≤ a
    → slice (copy m p xs) a n ≡ slice m a n
slice-copy_before m p xs a n h =
    slice_ext (copy m p xs) m a n (λ q b c. copy_outside m p xs q (inr (omega arith)))

-- A copy that starts at or behind the end of a run of bytes leaves it alone.
pub slice-copy_after :
    (m : Memory) (p : ℕ) (xs : List ℕ) (a n : ℕ) → a + n ≤ p → slice (copy m p xs) a n ≡ slice m a n
slice-copy_after m p xs a n h =
    slice_ext (copy m p xs) m a n (λ q b c. copy_outside m p xs q (inl (omega arith)))

pub slice-store_before : (m : Memory) (p v a n : ℕ) → p < a → slice (store m p v) a n ≡ slice m a n
slice-store_before m p v a n h = slice_ext (store m p v) m a n (λ q b c. ground arith)

pub slice-copy_exact :
    (m : Memory) (p n : ℕ) (xs : List ℕ) → length xs ≡ n → slice (copy m p xs) p n ≡ xs
slice-copy_exact m p n xs e = ap (slice (copy m p xs) p) (sym e) ∙ slice-copy_self m p xs
