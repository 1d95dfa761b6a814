-- ===== src/Lossless/Predict.antt =====
-- The prediction of a pixel from its neighbours above, left and above left, and its inverse.
use ntr_hr.Base.{
  ℕ, ◌+◌, ◌-◌, ◌*◌, ◌%◌, ◌^◌, ◌≡◌, refl, ap, ◌∙◌, Option, none, some, min, max, ltb, if◌then◌else◌,
  arith,
}
use ntr_hr.Base.Word.{u8, sub8, shr, IsByte}

-- The sums wrap, and come back below 256.
unfoldable pub median_3 : ℕ → ℕ → ℕ → ℕ
median_3 a b c =
    let hi = max (max a b) c in let lo = min (min a b) c in sub8 (sub8 (u8 (u8 (a + b) + c)) hi) lo

-- `x as s8 >> s` as a byte, for a shift of at most 7.
unfoldable pub asr8 : ℕ → ℕ → ℕ
asr8 x s = if ltb x 128 then shr x s else shr x s + (2 ^ 8 - 2 ^ (8 - s))

-- The predicted value: 128 with no neighbour.
unfoldable pub prediction : Option ℕ → Option ℕ → Option ℕ → ℕ
prediction none none tl = 128
prediction none (some l) tl = l
prediction (some t) none tl = t
prediction (some t) (some l) none = median_3 t l 0
prediction (some t) (some l) (some tl) = median_3 t l tl

-- The symbol of `c` against a predicted value `p`, in `b` bits.
unfoldable pub residual : ℕ → ℕ → ℕ → ℕ
residual c p b =
    if ltb b 8
    then (let s = 8 - b in u8 (asr8 (u8 (sub8 (shr c s) (shr p s) * 2 ^ s)) s + 128))
    else u8 (sub8 c p + 128)

unfoldable pub pred_pixel : ℕ → Option ℕ → Option ℕ → Option ℕ → ℕ → ℕ
pred_pixel c t l tl b = residual c (prediction t l tl) b

-- The bit depths of the three colour biases.
pub data IsDepth : ℕ → Type 0 where
  depth4 : IsDepth 4
  depth5 : IsDepth 5
  depth6 : IsDepth 6
  depth8 : IsDepth 8

-- The value of `b` bits that a symbol stands for, next to a prediction of `b` bits.
unfoldable pub restore : ℕ → ℕ → ℕ → ℕ
restore v p b = (v + 128 + p) % 2 ^ b

pub median_3-mid :
    (a b c : ℕ) → IsByte a → IsByte b → IsByte c → median_3 a b c ≡ max (min a b) (min (max a b) c)
unfolding median_3
median_3-mid a b c p q r = omega arith

pub residual-IsByte : {b : ℕ} (c p : ℕ) → IsDepth b → IsByte c → IsByte p → IsByte (residual c p b)
unfolding residual
residual-IsByte c p depth4 h k = omega arith
residual-IsByte c p depth5 h k = omega arith
residual-IsByte c p depth6 h k = omega arith
residual-IsByte c p depth8 h k = omega arith

pub restore-residual :
    {b : ℕ} (c p : ℕ)
    → IsDepth b
    → IsByte c
    → IsByte p
    → restore (residual c p b) (shr p (8 - b)) b ≡ shr c (8 - b)
unfolding restore residual asr8
restore-residual c p depth4 h k = ground arith
restore-residual c p depth5 h k = ground arith
restore-residual c p depth6 h k = ground arith
restore-residual c p depth8 h k = ground arith

-- The prediction from neighbours of which only the top `b` bits are known.
abbrev pub mid : ℕ → ℕ → ℕ → ℕ
mid a b c = max (min a b) (min (max a b) c)

unfoldable pub guess : ℕ → Option ℕ → Option ℕ → Option ℕ → ℕ
guess b none none tl = shr 128 (8 - b)
guess b none (some l) tl = l
guess b (some t) none tl = t
guess b (some t) (some l) none = mid t l 0
guess b (some t) (some l) (some tl) = mid t l tl

abbrev pub top_bits : ℕ → Option ℕ → Option ℕ
top_bits b none = none
top_bits b (some c) = some (shr c (8 - b))

-- A neighbour that is missing or a byte.
abbrev pub IsNeighbour : Option ℕ → Type 0
IsNeighbour none = IsByte 0
IsNeighbour (some c) = IsByte c

-- Shifting is monotone, so it goes through the middle of three.
shr-mid :
    {b : ℕ} (x y z : ℕ)
    → IsDepth b
    → shr (mid x y z) (8 - b) ≡ mid (shr x (8 - b)) (shr y (8 - b)) (shr z (8 - b))
shr-mid x y z depth4 = omega arith
shr-mid x y z depth5 = omega arith
shr-mid x y z depth6 = omega arith
shr-mid x y z depth8 = omega arith

mid-IsByte : (x y z : ℕ) → IsByte x → IsByte y → IsByte z → IsByte (mid x y z)
mid-IsByte x y z p q r = omega arith

pub prediction-IsByte :
    (t l tl : Option ℕ)
    → IsNeighbour t
    → IsNeighbour l
    → IsNeighbour tl
    → IsByte (prediction t l tl)
unfolding prediction
prediction-IsByte none none tl p q r = omega arith
prediction-IsByte none (some l) tl p q r = q
prediction-IsByte (some t) none tl p q r = p
prediction-IsByte (some t) (some l) none p q r =
    rw (median_3-mid t l 0 p q r) (mid-IsByte t l 0 p q r)
prediction-IsByte (some t) (some l) (some tl) p q r =
    rw (median_3-mid t l tl p q r) (mid-IsByte t l tl p q r)

shr_none : {b : ℕ} → IsDepth b → shr 0 (8 - b) ≡ 0
shr_none d = omega arith

prediction-guess :
    {b : ℕ} (t l tl : Option ℕ)
    → IsDepth b
    → IsNeighbour t
    → IsNeighbour l
    → IsNeighbour tl
    → shr (prediction t l tl) (8 - b) ≡ guess b (top_bits b t) (top_bits b l) (top_bits b tl)
unfolding prediction guess
prediction-guess none none tl d p q r = refl
prediction-guess none (some l) tl d p q r = refl
prediction-guess (some t) none tl d p q r = refl
prediction-guess {b} (some t) (some l) none d p q r =
    rw (median_3-mid t l 0 p q r)
      (shr-mid t l 0 d ∙ ap (mid (shr t (8 - b)) (shr l (8 - b))) (shr_none d))
prediction-guess (some t) (some l) (some tl) d p q r =
    rw (median_3-mid t l tl p q r) (shr-mid t l tl d)

-- A decoder that knows only the top `b` bits of the neighbours finds those of the pixel, whichever
-- neighbours there are, for 4, 5, 6 and 8 bits.
pub restore-pred_pixel :
    {b : ℕ} (c : ℕ) (t l tl : Option ℕ)
    → IsDepth b
    → IsByte c
    → IsNeighbour t
    → IsNeighbour l
    → IsNeighbour tl
    → restore (pred_pixel c t l tl b) (guess b (top_bits b t) (top_bits b l) (top_bits b tl)) b
      ≡ shr c (8 - b)
unfolding pred_pixel
restore-pred_pixel {b} c t l tl d h p q r =
    rw (← prediction-guess t l tl d p q r)
      (restore-residual c (prediction t l tl) d h (prediction-IsByte t l tl p q r))
