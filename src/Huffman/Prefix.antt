-- ===== src/Huffman/Prefix.antt =====
-- No code of a derived table is the start of another.
use ntr_hr.Base.{
  ℕ, zero, suc, ◌+◌, ◌-◌, ◌*◌, ◌^◌, ◌≤◌, ◌<◌, ◌≡◌, refl, sym, ap, ◌∙◌, inl, inr, List, [], ◌∷◌,
  ◌++◌, Option, none, some, leb, ◌==◌, All, All-map, double_pow, length, Bool-cases, arith,
}
use ntr_hr.Base.Word.{u32}
use ntr_hr.Base.Digits.{pow_le}
use mathlib.Core.Path.{subst}
use mathlib.Core.Option.{none-ne-some, some-injective}
use ntr_hr.Huffman.Derive.{prepend, huff_codes}

-- The code of `x` is used up before that of `y`: the successor of the one still comes to no more
-- than the start of the other.
pub record Before (x y : ℕ × ℕ) : Type 0 where
  pub shorter : x.1 ≤ y.1
  pub below : (x.0 + 1) * 2 ^ (y.1 - x.1) ≤ y.0

abbrev pub InOrder : List (ℕ × ℕ) → Type 0
InOrder [] = Unit
InOrder (x ∷ xs) = All (Before x) xs × InOrder xs

-- A code in its size.
pub record IsCode (x : ℕ × ℕ) : Type 0 where
  pub fits : x.0 < 2 ^ x.1
  pub size : x.1 ≤ 16

-- Sizes that do not fall, from `lo` on.
abbrev pub Rising : ℕ → List ℕ → Type 0
Rising lo [] = lo ≤ 16
Rising lo (s ∷ ss) = (lo ≤ s) × Rising s ss

Rising-top : (lo : ℕ) (ss : List ℕ) → Rising lo ss → lo ≤ 16
Rising-top lo [] h = h
Rising-top lo (s ∷ ss) h = omega (arith, h.0, Rising-top s ss h.1)

-- From a state of the loop on, what holds of every code it still gives out.
pub record From (code si : ℕ) (x : ℕ × ℕ) : Type 0 where
  pub is_code : IsCode x
  pub longer : si ≤ x.1
  pub beyond : code * 2 ^ (x.1 - si) ≤ x.0

times_2 : (c p : ℕ) → c * 2 * p ≡ 2 * (c * p)
times_2 c p = omega arith

From-next : {code si : ℕ} (x : ℕ × ℕ) → From (code * 2) (si + 1) x → From code si x
From-next {code} {si} x f = record {
  is_code = f.is_code;
  longer = omega (arith, f.longer);
  beyond =
      let e : x.1 - si ≡ suc (x.1 - (si + 1)) = omega (arith, f.longer) in
      omega (
        arith,
        ap (λ (n : ℕ). code * 2 ^ n) e,
        double_pow code (x.1 - (si + 1)),
        times_2 code (2 ^ (x.1 - (si + 1))),
        f.beyond,
      );
}

From-earlier : {code si : ℕ} (x : ℕ × ℕ) → From (code + 1) si x → From code si x
From-earlier {code} {si} x f = record {
  is_code = f.is_code;
  longer = f.longer;
  beyond = grow code (2 ^ (x.1 - si)) x.0 f.beyond;
}
  where
    grow : (c p n : ℕ) → (c + 1) * p ≤ n → c * p ≤ n
    grow c p n h = omega arith

From-Before : {code si : ℕ} (x : ℕ × ℕ) → From (code + 1) si x → Before (code, si) x
From-Before x f = record { shorter = f.longer; below = f.beyond }

From-self : (code si : ℕ) → code < 2 ^ si → si ≤ 16 → From code si (code, si)
From-self code si h k = record {
  is_code = record { fits = h; size = k };
  longer = omega arith;
  beyond = let e : si - si ≡ 0 = omega arith in rw e omega arith;
}

-- What a run of the loop from a state gives out.
pub record Run (code si : ℕ) (cs : List (ℕ × ℕ)) : Type 0 where
  pub room : code < 2 ^ si
  pub from : All (From code si) cs
  pub order : InOrder cs

pub prepend-some :
    {A : Type 0} (xs : List A) (o : Option (List A)) (ys : List A)
    → prepend xs o ≡ some ys
    → (zs : List A) × (o ≡ some zs) × (xs ++ zs ≡ ys)
unfolding prepend
prepend-some xs none ys h = absurd (none-ne-some ys h)
prepend-some xs (some zs) ys h = (zs, refl, some-injective (xs ++ zs) ys h)

Run-same :
    {code si : ℕ} {cs : List (ℕ × ℕ)}
    → si ≤ 16
    → Run (code + 1) si cs
    → Run code si ((code, si) ∷ cs)
Run-same {code} {si} {cs} top r = record {
  room = omega (arith, r.room);
  from = (
    From-self code si (omega (arith, r.room)) top,
    All-map (From (code + 1) si) (From code si) From-earlier cs r.from,
  );
  order = (All-map (From (code + 1) si) (Before (code, si)) From-Before cs r.from, r.order);
}

Run-next :
    {code si : ℕ} {cs : List (ℕ × ℕ)} → code < 2 ^ si → Run (code * 2) (si + 1) cs → Run code si cs
Run-next {code} {si} {cs} h r = record {
  room = h;
  from = All-map (From (code * 2) (si + 1)) (From code si) From-next cs r.from;
  order = r.order;
}

-- Every code that the loop gives out: it fits its size, and uses up its part of the codes.
pub huff_codes-Run :
    (fuel code si : ℕ) (sizes : List ℕ) (cs : List (ℕ × ℕ))
    → huff_codes fuel code si sizes ≡ some cs
    → Rising si sizes
    → code + length sizes ≤ 2 ^ 18
    → length sizes ≤ 256
    → Run code si cs
unfolding huff_codes
huff_codes-Run zero code si sizes cs e h b l = absurd (none-ne-some cs e)
huff_codes-Run (suc fuel) code si [] cs e h b l = elim (Bool-cases (leb (2 ^ si) code)) [
  | inl p ↦ absurd (none-ne-some cs (rw p at (e)))
  | inr p ↦
      let q = some-injective [] cs (rw p at (e)) in
      subst (Run code si) q (record { room = ground (arith, p); from = tt; order = tt })
]
huff_codes-Run (suc fuel) code si (s ∷ ss) cs e h b l = elim (Bool-cases (s == si)) [
  | inl p ↦
      let (zs, f, g) =
        prepend-some ((code, s) ∷ []) (huff_codes fuel (u32 (code + 1)) si ss) cs (rw p at (e)) in
      let same : s ≡ si = ground (arith, p) in
      let w : u32 (code + 1) ≡ code + 1 = omega arith in
      let r =
        huff_codes-Run fuel (code + 1) si ss zs (rw w at (f)) (rw same at (h.1)) (omega arith)
          (omega arith) in
      subst (Run code si) (ap (λ t. (code, t) ∷ zs) (sym same) ∙ g)
        (Run-same (omega (arith, Rising-top s ss h.1, h.0)) r)
  | inr p ↦ elim (Bool-cases (leb (2 ^ si) code)) [
    | inl q ↦ absurd (none-ne-some cs (rw (p, q) at (e)))
    | inr q ↦
        let less : code < 2 ^ si = ground (arith, q) in
        let far : si + 1 ≤ s = ground (arith, p, h.0) in
        let w : u32 (code * 2) ≡ code * 2 =
          omega (arith, less, pow_le si 16 (omega (arith, Rising-top s ss h.1, h.0))) in
        let e' = rw (p, q, w) at (e) in
        Run-next less (
          huff_codes-Run fuel (code * 2) (si + 1) (s ∷ ss) cs e' (far, h.1)
            (omega (arith, less, pow_le si 16 (omega (arith, Rising-top s ss h.1, h.0)))) l)
  ]
]

-- More fuel than a round for each code and each size still ahead changes nothing.
pub huff_codes-fuel :
    (f g code si : ℕ) (sizes : List ℕ)
    → Rising si sizes
    → length sizes + (16 - si) < f
    → length sizes + (16 - si) < g
    → huff_codes f code si sizes ≡ huff_codes g code si sizes
unfolding huff_codes
huff_codes-fuel zero g code si sizes h p q = absurd (omega (arith, p))
huff_codes-fuel (suc f) zero code si sizes h p q = absurd (omega (arith, q))
huff_codes-fuel (suc f) (suc g) code si [] h p q = refl
huff_codes-fuel (suc f) (suc g) code si (s ∷ ss) h p q = elim (Bool-cases (s == si)) [
  | inl e ↦
      let same : s ≡ si = ground (arith, e) in
      rw e (
        ap (prepend ((code, s) ∷ [])) (
          huff_codes-fuel f g (u32 (code + 1)) si ss (rw same at (h.1)) (omega (arith, p))
            (omega (arith, q))))
  | inr e ↦ elim (Bool-cases (leb (2 ^ si) code)) [
    | inl k ↦ rw (e, k) refl
    | inr k ↦
        let far : si + 1 ≤ s = ground (arith, e, h.0) in
        let top = Rising-top s ss h.1 in
        rw (e, k)
          (huff_codes-fuel f g (u32 (code * 2)) (si + 1) (s ∷ ss) (far, h.1)
            (omega (arith, p, far, top)) (omega (arith, q, far, top)))
  ]
]
