-- ===== src/Huffman/Symbols.antt =====
-- From the codes by index to the codes by symbol: do_set_derived_tbl gives a prefix code.
use ntr_hr.Base.{
  ℕ, ◌+◌, ◌-◌, ◌*◌, ◌/◌, ◌^◌, ◌≤◌, ◌<◌, ◌≡◌, ◌≢◌, refl, sym, ap₂, ◌∙◌, inl, inr, List, [], ◌∷◌,
  Option, none, some, ltb, ◌||◌, All, All-map, get_or, set, length, length-set, length-replicate,
  length-take, take, drop, get_or-set_self, get_or-set_ne, get_or-replicate, eq-cases, Bool-cases,
  arith,
}
use mathlib.Core.Path.{subst}
use mathlib.Core.Option.{none-ne-some, some-injective}
use native.Mathlib.Nat.{one-le-pow, le-div_iff_mul-le}
use ntr_hr.Jpeg.Tables.{HuffTbl}
use ntr_hr.Huffman.Derive.{
  DerivedTbl, huff_sizes, codes_of, codes_fuel, fill_tbl, no_codes, and_then, do_set_derived_tbl,
}
use ntr_hr.Huffman.Sizes.{huff_sizes-Rising, length-huff_sizes}
use ntr_hr.Huffman.Prefix.{Before, InOrder, IsCode, Rising, From, huff_codes-Run}

-- Neither of two codes is the start of the other.
pub record Apart (x y : ℕ × ℕ) : Type 0 where
  pub forth : x.1 ≤ y.1 → y.0 / 2 ^ (y.1 - x.1) ≢ x.0
  pub back : y.1 ≤ x.1 → x.0 / 2 ^ (x.1 - y.1) ≢ y.0

abbrev pub code_of : DerivedTbl → ℕ → ℕ × ℕ
code_of tbl v = (get_or tbl.ehufco v 0, get_or tbl.ehufsi v 0)

-- What the symbols of a table with codes still to come satisfy.
record Filled (tbl : DerivedTbl) (cs : List (ℕ × ℕ)) : Type 0 where
  long_co : length tbl.ehufco ≡ 256
  long_si : length tbl.ehufsi ≡ 256
  codes : (v : ℕ) → IsCode (code_of tbl v)
  apart :
      (v w : ℕ)
      → v ≢ w
      → 0 < (code_of tbl v).1
      → 0 < (code_of tbl w).1
      → Apart (code_of tbl v) (code_of tbl w)
  ahead : (v : ℕ) → 0 < (code_of tbl v).1 → All (Before (code_of tbl v)) cs

Before-Apart : (x y : ℕ × ℕ) → Before x y → Apart x y
Before-Apart x y b = record {
  forth = λ h e.
      let g : x.0 + 1 ≤ y.0 / 2 ^ (y.1 - x.1) =
        (le-div_iff_mul-le (one-le-pow (y.1 - x.1) 2 (omega arith))).1 b.below in
      omega (arith, g, e);
  back = λ h e.
      let same : y.1 - x.1 ≡ 0 = omega arith in
      let same' : x.1 - y.1 ≡ 0 = omega (arith, b.shorter) in
      let below : (x.0 + 1) * 2 ^ 0 ≤ y.0 = rw same at (b.below) in
      let e' : x.0 / 2 ^ 0 ≡ y.0 = rw same' at (e) in omega (arith, below, e');
}

Apart-sym : (x y : ℕ × ℕ) → Apart x y → Apart y x
Apart-sym x y a = record { forth = a.back; back = a.forth }

-- The table with one more code.
abbrev with_code : ℕ → ℕ × ℕ → DerivedTbl → DerivedTbl
with_code v c tbl = record { ehufco = set tbl.ehufco v c.0; ehufsi = set tbl.ehufsi v c.1 }

module _ {tbl : DerivedTbl} {c : ℕ × ℕ} {cs : List (ℕ × ℕ)} (f : Filled tbl (c ∷ cs)) (v : ℕ)
    (small : v < 256) where
  code_of-same : code_of (with_code v c tbl) v ≡ c
  code_of-same =
      ap₂ (λ (a b : ℕ). (a, b)) (get_or-set_self tbl.ehufco v c.0 0 (omega (arith, f.long_co)))
        (get_or-set_self tbl.ehufsi v c.1 0 (omega (arith, f.long_si)))

  code_of-other : (w : ℕ) → v ≢ w → code_of (with_code v c tbl) w ≡ code_of tbl w
  code_of-other w h =
      ap₂ (λ (a b : ℕ). (a, b)) (get_or-set_ne tbl.ehufco v w c.0 0 h)
        (get_or-set_ne tbl.ehufsi v w c.1 0 h)

  Filled-with_code : IsCode c → All (Before c) cs → Filled (with_code v c tbl) cs
  Filled-with_code k b = record {
    long_co = length-set tbl.ehufco v c.0 ∙ f.long_co;
    long_si = length-set tbl.ehufsi v c.1 ∙ f.long_si;
    codes = λ w. by_symbol IsCode k f.codes w;
    apart = λ w z d h i. apart_at w z d h i;
    ahead =
        λ w h. by_symbol (λ x. 0 < x.1 → All (Before x) cs) (λ _. b) (λ z g. (f.ahead z g).1) w h;
  }
    where
      by_symbol :
          (P : ℕ × ℕ → Type 0)
          → P c
          → ((z : ℕ) → P (code_of tbl z))
          → (w : ℕ) → P (code_of (with_code v c tbl) w)
      by_symbol P p q w = elim (eq-cases v w) [
        | inl e ↦ subst (λ z. P (code_of (with_code v c tbl) z)) e (subst P (sym code_of-same) p)
        | inr d ↦ subst P (sym (code_of-other w d)) (q w)
      ]

      apart_at :
          (w z : ℕ)
          → w ≢ z
          → 0 < (code_of (with_code v c tbl) w).1
          → 0 < (code_of (with_code v c tbl) z).1
          → Apart (code_of (with_code v c tbl) w) (code_of (with_code v c tbl) z)
      apart_at w z d = elim (eq-cases v w) [
        | inl e ↦
            let other : v ≢ z = λ g. d (sym e ∙ g) in
            both (here w e) (code_of-other z other)
              (λ h i. Apart-sym (code_of tbl z) c (Before-Apart (code_of tbl z) c (f.ahead z i).0))
        | inr e ↦ elim (eq-cases v z) [
          | inl g ↦
              both (code_of-other w e) (here z g)
                (λ h i. Before-Apart (code_of tbl w) c (f.ahead w h).0)
          | inr g ↦ both (code_of-other w e) (code_of-other z g) (f.apart w z d)
        ]
      ]
        where
          here : (t : ℕ) → v ≡ t → code_of (with_code v c tbl) t ≡ c
          here t e = subst (λ t. code_of (with_code v c tbl) t ≡ c) e code_of-same

          both :
              {p q x y : ℕ × ℕ}
              → p ≡ x
              → q ≡ y
              → (0 < x.1 → 0 < y.1 → Apart x y)
              → 0 < p.1
              → 0 < q.1
              → Apart p q
          both e g h = rw (e, g) h

fill_tbl-Filled :
    (maxsymbol : ℕ) (cs : List (ℕ × ℕ)) (vals : List ℕ) (tbl out : DerivedTbl)
    → fill_tbl maxsymbol cs vals tbl ≡ some out
    → maxsymbol < 256
    → Filled tbl cs
    → All IsCode cs
    → InOrder cs
    → Filled out []
unfolding fill_tbl
fill_tbl-Filled m [] vals tbl out e h f k o = subst (λ t. Filled t []) (some-injective tbl out e) f
fill_tbl-Filled m (c ∷ cs) [] tbl out e h f k o = absurd (none-ne-some out e)
fill_tbl-Filled m (c ∷ cs) (v ∷ vals) tbl out e h f k o =
    elim (Bool-cases (ltb m v || ltb 0 (get_or tbl.ehufsi v 0))) [
      | inl p ↦ absurd (none-ne-some out (rw p at (e)))
      | inr p ↦
          fill_tbl-Filled m cs vals (with_code v c tbl) out (rw p at (e)) h
            (Filled-with_code f v (ground (arith, p, h)) k.0 o.0) k.1 o.1
    ]

no_codes-Filled : (cs : List (ℕ × ℕ)) → Filled no_codes cs
no_codes-Filled cs =
    let zero_si : (v : ℕ) → get_or no_codes.ehufsi v 0 ≡ 0 = λ v. get_or-replicate 256 v 0 in
    let zero_co : (v : ℕ) → get_or no_codes.ehufco v 0 ≡ 0 = λ v. get_or-replicate 256 v 0 in
    record {
      long_co = length-replicate {A = ℕ} 256 0;
      long_si = length-replicate {A = ℕ} 256 0;
      codes = λ v.
          let fits : get_or no_codes.ehufco v 0 < 2 ^ get_or no_codes.ehufsi v 0 =
            omega (arith, zero_co v, one-le-pow (get_or no_codes.ehufsi v 0) 2) in
          record { fits = fits; size = omega (arith, zero_si v) };
      apart = λ v w d h i. absurd (omega (arith, h, zero_si v));
      ahead = λ v h. absurd (omega (arith, h, zero_si v));
    }

-- The codes of a table that do_set_derived_tbl makes.
pub record IsPrefixCode (tbl : DerivedTbl) : Type 0 where
  pub each : (v : ℕ) → IsCode (code_of tbl v)
  pub free :
      (v w : ℕ)
      → v ≢ w
      → 0 < (code_of tbl v).1
      → 0 < (code_of tbl w).1
      → Apart (code_of tbl v) (code_of tbl w)

and_then-some :
    {A B : Type 0} (o : Option A) (f : A → Option B) (b : B)
    → and_then o f ≡ some b
    → (a : A) × (o ≡ some a) × (f a ≡ some b)
unfolding and_then
and_then-some none f b e = absurd (none-ne-some b e)
and_then-some (some a) f b e = (a, refl, e)

codes_of-InOrder :
    (sizes : List ℕ) (cs : List (ℕ × ℕ))
    → codes_of sizes ≡ some cs
    → Rising 1 sizes
    → length sizes ≤ 256
    → All IsCode cs × InOrder cs
unfolding codes_of
codes_of-InOrder [] cs e h l =
    let g = some-injective ((0, 0) ∷ []) cs e in
    subst (λ cs. All IsCode cs × InOrder cs) g
      ((record { fits = omega arith; size = omega arith }, tt), (tt, tt))
codes_of-InOrder (s ∷ ss) cs e h l =
    let r =
      huff_codes-Run (codes_fuel (s ∷ ss)) 0 s (s ∷ ss) cs e (omega arith, h.1) (omega arith) l in
    (All-map (From 0 s) IsCode (λ x g. g.is_code) cs r.from, r.order)

-- When do_set_derived_tbl does not panic, every symbol's code fits its size, which is at most 16,
-- and the code of no symbol is the start of another symbol's.
pub do_set_derived_tbl-IsPrefixCode :
    (htbl : HuffTbl) (maxsymbol : ℕ) (tbl : DerivedTbl)
    → maxsymbol < 256
    → do_set_derived_tbl htbl maxsymbol ≡ some tbl
    → IsPrefixCode tbl
unfolding do_set_derived_tbl
do_set_derived_tbl-IsPrefixCode htbl m tbl h e =
    let counts = take 16 (drop 1 htbl.bits) in
    let (sizes, p, e1) =
      and_then-some (huff_sizes 1 0 counts)
        (λ sizes. and_then (codes_of sizes) (λ codes. fill_tbl m codes htbl.huff_vals no_codes)) tbl
        e in
    let (cs, q, e2) =
      and_then-some (codes_of sizes) (λ codes. fill_tbl m codes htbl.huff_vals no_codes) tbl e1 in
    let few : 1 + length counts ≤ 17 = omega (arith, length-take 16 (drop 1 htbl.bits)) in
    let rising = huff_sizes-Rising 1 0 counts sizes p few 1 (omega arith) (omega arith) in
    let short = length-huff_sizes 1 0 counts sizes p (omega arith) in
    let (k, o) = codes_of-InOrder sizes cs q rising (omega (arith, short)) in
    let f = fill_tbl-Filled m cs htbl.huff_vals no_codes tbl e2 h (no_codes-Filled cs) k o in
    record { each = f.codes; free = f.apart }
