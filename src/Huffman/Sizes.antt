-- ===== src/Huffman/Sizes.antt =====
-- The sizes of the codes: they do not fall, and there are at most 256 of them.
use ntr_hr.Base.{
  ℕ, zero, suc, ◌+◌, ◌≤◌, ◌≡◌, inl, inr, List, [], ◌∷◌, ◌++◌, some, ltb, length, replicate,
  length-replicate, length-append, Bool-cases, arith,
}
use mathlib.Core.Path.{subst}
use mathlib.Core.Option.{none-ne-some, some-injective}
use ntr_hr.Huffman.Derive.{huff_sizes}
use ntr_hr.Huffman.Prefix.{Rising, prepend-some}

Rising-replicate :
    (n l : ℕ) (rest : List ℕ)
    → l ≤ 16
    → ((lo : ℕ) → lo ≤ l → Rising lo rest)
    → (lo : ℕ) → lo ≤ l
    → Rising lo (replicate n l ++ rest)
Rising-replicate zero l rest t f lo h = f lo h
Rising-replicate (suc n) l rest t f lo h = (h, Rising-replicate n l rest t f l (omega arith))

pub huff_sizes-Rising :
    (l p : ℕ) (ns sizes : List ℕ)
    → huff_sizes l p ns ≡ some sizes
    → l + length ns ≤ 17
    → (lo : ℕ) → lo ≤ l
    → lo ≤ 16
    → Rising lo sizes
unfolding huff_sizes
huff_sizes-Rising l p [] sizes e b lo h k = subst (Rising lo) (some-injective [] sizes e) k
huff_sizes-Rising l p (n ∷ ns) sizes e b lo h k = elim (Bool-cases (ltb 256 (p + n))) [
  | inl q ↦ absurd (none-ne-some sizes (rw q at (e)))
  | inr q ↦
      let (zs, f, g) =
        prepend-some (replicate n l) (huff_sizes (l + 1) (p + n) ns) sizes (rw q at (e)) in
      subst (Rising lo) g (
        Rising-replicate n l zs (omega arith)
          (λ lo' a.
            huff_sizes-Rising (l + 1) (p + n) ns zs f (omega arith) lo' (omega arith) (omega arith))
          lo h)
]

pub length-huff_sizes :
    (l p : ℕ) (ns sizes : List ℕ)
    → huff_sizes l p ns ≡ some sizes
    → p ≤ 256
    → p + length sizes ≤ 256
unfolding huff_sizes
length-huff_sizes l p [] sizes e b =
    subst (λ t. p + length t ≤ 256) (some-injective [] sizes e) (omega arith)
length-huff_sizes l p (n ∷ ns) sizes e b = elim (Bool-cases (ltb 256 (p + n))) [
  | inl q ↦ absurd (none-ne-some sizes (rw q at (e)))
  | inr q ↦
      let (zs, f, g) =
        prepend-some (replicate n l) (huff_sizes (l + 1) (p + n) ns) sizes (rw q at (e)) in
      subst (λ t. p + length t ≤ 256) g
        (omega (
          arith,
          length-append (replicate n l) zs,
          length-replicate n l,
          length-huff_sizes (l + 1) (p + n) ns zs f (ground (arith, q)),
        ))
]
