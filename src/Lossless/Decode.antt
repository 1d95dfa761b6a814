-- ===== src/Lossless/Decode.antt =====
-- A row of symbols read back, pixel by pixel, and the ring that keeps the row above.
use ntr_hr.Base.{
  ℕ, zero, suc, ◌+◌, ◌-◌, ◌*◌, ◌%◌, ◌<◌, ◌≤◌, ◌≡◌, refl, ap, inl, inr, Bool, true, false, List, [],
  ◌∷◌, Option, none, some, ltb, ◌==◌, if◌then◌else◌, Bool-cases, arith,
}
use ntr_hr.Base.Word.{shr, IsByte}
use ntr_hr.Base.Memory.{Memory}
use ntr_hr.Lossless.Planes.{row_at, above}
use ntr_hr.Lossless.Predict.{IsDepth, restore, guess, top_bits, IsNeighbour, restore-pred_pixel}
use ntr_hr.Lossless.Rows.{read, left_of, symbol_at}

-- `f` at `n` indices from `start` on.
unfoldable pub tabulate {ℓ} : {A : Type ℓ} → (ℕ → A) → ℕ → ℕ → List A
tabulate f start zero = []
tabulate f start (suc n) = f start ∷ tabulate f (start + 1) n

-- The pixels of a row of `b` bits from its symbols, those above it, and those to the left and
-- above left of the first.
unfoldable pub decode_row : ℕ → (ℕ → Option ℕ) → ℕ → Option ℕ → Option ℕ → List ℕ → List ℕ
decode_row b top ix l tl [] = []
decode_row b top ix l tl (v ∷ vs) =
    let c = restore v (guess b (top ix) l tl) b in
    c ∷ decode_row b top (ix + 1) (some c) (top ix) vs

module _ (prep : Memory) (bytes : (q : ℕ) → IsByte (prep q)) where
  read-IsNeighbour : (p : Option ℕ) → IsNeighbour (read prep p)
  unfolding read
  read-IsNeighbour none = omega arith
  read-IsNeighbour (some q) = bytes q

  module _ {b : ℕ} (depth : IsDepth b) (i by bh width row : ℕ) where
    abbrev up : ℕ → Option ℕ
    up ix = above i by bh width (row + ix)

    abbrev known : Option ℕ → Option ℕ
    known p = top_bits b (read prep p)

    left_first : (p : Option ℕ) → left_of 0 p ≡ none
    unfolding left_of
    left_first none = refl
    left_first (some p) = refl

    left_of-next : (ix : ℕ) → left_of (ix + 1) (some (row + (ix + 1))) ≡ some (row + ix)
    unfolding left_of
    left_of-next ix = ground arith

    left_of-above : (ix : ℕ) → left_of (ix + 1) (up (ix + 1)) ≡ up ix
    unfolding left_of above
    left_of-above ix = elim (Bool-cases (ltb 0 by)) [
      | inl p ↦ rw p (ground arith)
      | inr p ↦ elim (Bool-cases (ltb 0 i)) [
        | inl q ↦ rw (p, q) (ring (i % 2 == 0))
        | inr q ↦ rw (p, q) refl
      ]
    ]
      where
        ring :
            (even : Bool)
            → left_of (ix + 1) (
                some
                  (if even then row + (ix + 1) + width * (bh * 2 - 1) else row + (ix + 1) - width))
              ≡ some (if even then row + ix + width * (bh * 2 - 1) else row + ix - width)
        ring true = ground arith
        ring false = ground arith

    decode_row-from :
        (ix n : ℕ)
        → decode_row b
            (λ k. known (up k))
            ix
            (known (left_of ix (some (row + ix))))
            (known (left_of ix (up ix)))
            (tabulate (λ k. symbol_at prep b i by bh width k (row + k)) ix n)
          ≡ tabulate (λ k. shr (prep (row + k)) (8 - b)) ix n
    unfolding decode_row tabulate symbol_at read
    decode_row-from ix zero = refl
    decode_row-from ix (suc n) =
        let c =
          restore-pred_pixel (prep (row + ix)) (read prep (up ix))
            (read prep (left_of ix (some (row + ix)))) (read prep (left_of ix (up ix))) depth
            (bytes (row + ix)) (read-IsNeighbour (up ix))
            (read-IsNeighbour (left_of ix (some (row + ix))))
            (read-IsNeighbour (left_of ix (up ix))) in
        let r = decode_row-from (ix + 1) n in
        let r' = rw (left_of-next ix, left_of-above ix) at (r) in
        rw c (ap (λ t. shr (prep (row + ix)) (8 - b) ∷ t) r')

    -- From the symbols of a row of a component, a decoder that knows the top bits of the row above
    -- finds the top bits of the row's pixels, for the bit depths in use.
    pub decode_row-symbols :
        (n : ℕ)
        → decode_row b
            (λ k. known (up k))
            0
            none
            none
            (tabulate (λ k. symbol_at prep b i by bh width k (row + k)) 0 n)
          ≡ tabulate (λ k. shr (prep (row + k)) (8 - b)) 0 n
    unfolding read left_of
    decode_row-symbols n = rw (left_first (up 0)) at (decode_row-from 0 n)

row_before :
    (r base width ix : ℕ) → 0 < r → base + (r * width + ix) - width ≡ base + ((r - 1) * width + ix)
row_before zero base width ix h = absurd (omega arith)
row_before (suc r) base width ix h =
    let e : suc r * width ≡ r * width + width = omega arith in
    let f : suc r - 1 ≡ r = omega arith in rw (e, f) omega arith

row_around : (m base width ix : ℕ) → base + (0 * width + ix) + width * m ≡ base + (m * width + ix)
row_around m base width ix = omega arith

-- Where row `n` of a component stands in a ring of two stripes of `bh` rows.
record InRing (i by bh : ℕ) : Type 0 where
  here : i % 2 * bh + by ≡ (i * bh + by) % (2 * bh)
  before : 0 < i % 2 * bh + by → i % 2 * bh + by - 1 ≡ (i * bh + by - 1) % (2 * bh)
  around : i % 2 * bh + by ≡ 0 → 0 < i → (i * bh + by - 1) % (2 * bh) ≡ bh * 2 - 1
  first : by ≡ 0 → i ≡ 0 → (i * bh + by == 0) ≡ true
  later : 0 < by + i → (i * bh + by == 0) ≡ false
  odd : by ≡ 0 → (i % 2 == 0) ≡ false → 0 < i % 2 * bh + by

in_ring : (i by bh : ℕ) → by < bh → bh ≤ 2 → InRing i by bh
in_ring i by zero h k = absurd (omega arith)
in_ring i by (suc zero) h k = record {
  here = omega arith;
  before = λ a. omega arith;
  around = λ a b. omega arith;
  first = λ a b. ground (arith, a, b);
  later = λ a. ground (arith, a);
  odd = λ a b. ground (arith, a, b);
}
in_ring i by (suc (suc zero)) h k = record {
  here = omega arith;
  before = λ a. omega arith;
  around = λ a b. omega arith;
  first = λ a b. ground (arith, a, b);
  later = λ a. ground (arith, a);
  odd = λ a b. ground (arith, a, b);
}
in_ring i by (suc (suc (suc bh))) h k = absurd (omega arith)

-- The rows of a component, numbered through the stripes, stand in a ring of two stripes; the pixel
-- above one is in the row before, in the ring, and there is none above the first row. A stripe has
-- one row of the component or two.
pub above-ring :
    (i by bh base width ix : ℕ)
    → by < bh
    → bh ≤ 2
    → (row_at i by bh ≡ (i * bh + by) % (2 * bh))
      × (above i by bh width (base + (row_at i by bh * width + ix)) ≡ (
          if i * bh + by == 0
          then none
          else some (base + ((i * bh + by - 1) % (2 * bh) * width + ix))))
unfolding row_at above
above-ring i by bh base width ix h k = (v.here, there)
  where
    v : InRing i by bh
    v = in_ring i by bh h k

    there : above i by bh width (base + (row_at i by bh * width + ix)) ≡ (
        if i * bh + by == 0
        then none
        else some (base + ((i * bh + by - 1) % (2 * bh) * width + ix)))
    there = elim (Bool-cases (ltb 0 by)) [
      | inl p ↦
          rw (p, v.later (ground (arith, p)), ← v.before (ground (arith, p)))
            (ap some (row_before (i % 2 * bh + by) base width ix (ground (arith, p))))
      | inr p ↦ elim (Bool-cases (ltb 0 i)) [
        | inr q ↦ rw (p, q, v.first (ground (arith, p)) (ground (arith, q))) refl
        | inl q ↦ elim (Bool-cases (i % 2 == 0)) [
          | inr e ↦
              rw (p, q, e, v.later (ground (arith, q)), ← v.before (v.odd (ground (arith, p)) e))
                (ap some (row_before (i % 2 * bh + by) base width ix (v.odd (ground (arith, p)) e)))
          | inl e ↦
              let z : i % 2 * bh + by ≡ 0 = even_row (ground (arith, e)) (ground (arith, p)) in
              rw (p, q, e, v.later (ground (arith, q)), v.around z (ground (arith, q)), z)
                (ap some (row_around (bh * 2 - 1) base width ix))
        ]
      ]
    ]
      where
        even_row : i % 2 ≡ 0 → by ≡ 0 → i % 2 * bh + by ≡ 0
        even_row a b = rw (a, b) omega arith
