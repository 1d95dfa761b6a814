-- ===== src/Huffman/Derive.antt =====
-- do_set_derived_tbl (encoder/vars.rs): the codes of a table of counts and values. None is a panic.
use ntr_hr.Base.{
  ℕ, zero, suc, ◌+◌, ◌*◌, ◌^◌, Bool, true, false, List, [], ◌∷◌, ◌++◌, Option, none, some, ltb, leb,
  ◌==◌, ◌||◌, if◌then◌else◌, get_or, set, take, drop, replicate, length,
}
use ntr_hr.Base.Word.{u32}
use ntr_hr.Jpeg.Tables.{HuffTbl, HuffTbls}

pub record DerivedTbl : Type 0 where
  pub ehufco : List ℕ
  pub ehufsi : List ℕ

unfoldable pub prepend {ℓ} : {A : Type ℓ} → List A → Option (List A) → Option (List A)
prepend xs none = none
prepend xs (some ys) = some (xs ++ ys)

-- Figure C.1: `n` sizes of `l` for each count, with no more than 256 in all.
unfoldable pub huff_sizes : ℕ → ℕ → List ℕ → Option (List ℕ)
huff_sizes l p [] = some []
huff_sizes l p (n ∷ ns) =
    if ltb 256 (p + n) then none else prepend (replicate n l) (huff_sizes (l + 1) (p + n) ns)

-- Figure C.2: the code and the size at each index. A run of one size counts up; at its end the
-- next code must still fit, and it moves on by a bit.
unfoldable pub huff_codes : ℕ → ℕ → ℕ → List ℕ → Option (List (ℕ × ℕ))
huff_codes zero code si sizes = none
huff_codes (suc fuel) code si [] = if leb (2 ^ si) code then none else some []
huff_codes (suc fuel) code si (s ∷ ss) =
    let same = huff_codes fuel (u32 (code + 1)) si ss in
    let next = huff_codes fuel (u32 (code * 2)) (si + 1) (s ∷ ss) in
    if s == si then prepend ((code, s) ∷ []) same else if leb (2 ^ si) code then none else next

-- One turn of the outer loop for each size, and one of the inner for each code.
abbrev pub codes_fuel : List ℕ → ℕ
codes_fuel sizes = length sizes + 17

-- No size, no turn; the third loop then reads the zeros at index 0.
unfoldable pub codes_of : List ℕ → Option (List (ℕ × ℕ))
codes_of [] = some ((0, 0) ∷ [])
codes_of (s ∷ ss) = huff_codes (codes_fuel (s ∷ ss)) 0 s (s ∷ ss)

-- Figure C.3: codes by symbol; a symbol too large or met again panics.
unfoldable pub fill_tbl : ℕ → List (ℕ × ℕ) → List ℕ → DerivedTbl → Option DerivedTbl
fill_tbl maxsymbol [] vals tbl = some tbl
fill_tbl maxsymbol (c ∷ cs) [] tbl = none
fill_tbl maxsymbol (c ∷ cs) (v ∷ vals) tbl =
    if ltb maxsymbol v || ltb 0 (get_or tbl.ehufsi v 0)
    then none
    else fill_tbl maxsymbol cs vals
        (record { ehufco = set tbl.ehufco v c.0; ehufsi = set tbl.ehufsi v c.1 })

abbrev pub no_codes : DerivedTbl
no_codes = record { ehufco = replicate 256 0; ehufsi = replicate 256 0 }

unfoldable pub and_then {ℓ κ} : {A : Type ℓ} {B : Type κ} → Option A → (A → Option B) → Option B
and_then none f = none
and_then (some a) f = f a

unfoldable pub do_set_derived_tbl : HuffTbl → ℕ → Option DerivedTbl
do_set_derived_tbl htbl maxsymbol =
    and_then (huff_sizes 1 0 (take 16 (drop 1 htbl.bits))) (λ sizes.
      and_then (codes_of sizes) (λ codes. fill_tbl maxsymbol codes htbl.huff_vals no_codes))

unfoldable pub set_derived_tbl : Bool → HuffTbl → Bool → Option DerivedTbl
set_derived_tbl is_dc htbl is_dq =
    do_set_derived_tbl htbl (if is_dc then (if is_dq then 16 else 15) else 255)

pub record EntropyTbls : Type 0 where
  pub dc_derived_tbls : DerivedTbl × DerivedTbl
  pub ac_derived_tbls : DerivedTbl × DerivedTbl

unfoldable pub set_entropy_tbls : HuffTbls → Bool → Option EntropyTbls
set_entropy_tbls t is_dq = and_then (set_derived_tbl true t.dc_huff_tbls.0 is_dq) (λ dc0.
    and_then (set_derived_tbl false t.ac_huff_tbls.0 is_dq) (λ ac0.
      and_then (set_derived_tbl true t.dc_huff_tbls.1 is_dq) (λ dc1.
        and_then (set_derived_tbl false t.ac_huff_tbls.1 is_dq)
          (λ ac1. some (record { dc_derived_tbls = (dc0, dc1); ac_derived_tbls = (ac0, ac1) })))))
