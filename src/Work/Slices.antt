-- ===== src/Work/Slices.antt =====
-- Parts of a list that meet.
use ntr_hr.Base.{
  ℕ, zero, suc, ◌+◌, ◌-◌, ◌≤◌, ◌≡◌, arith, List, [], ◌∷◌, ◌++◌, length, take, drop, take_all,
  drop_all, min, ap₂, ap, ◌∙◌, sym, append-nil,
}

module _ {A : Type 0} where
  -- From byte `s` up to byte `e`, or the end.
  abbrev pub part : ℕ → ℕ → List A → List A
  part s e src = take (min e (length src) - s) (drop s src)

  drop-drop : (s n : ℕ) (xs : List A) → drop n (drop s xs) ≡ drop (s + n) xs
  drop-drop zero n xs = ap (λ k. drop k xs) (let e : n ≡ 0 + n = omega arith in e)
  drop-drop (suc s) n [] = drop_all n [] (omega arith) ∙ sym (drop_all (suc s + n) [] (omega arith))
  drop-drop (suc s) n (x ∷ xs) =
      drop-drop s n xs
      ∙ ap (λ k. drop k (x ∷ xs)) (let e : suc (s + n) ≡ suc s + n = omega arith in e)

  take-take : (a b : ℕ) (xs : List A) → take a xs ++ take b (drop a xs) ≡ take (a + b) xs
  take-take zero b xs = ap (λ k. take k xs) (let e : b ≡ 0 + b = omega arith in e)
  take-take (suc a) b [] = take_all b [] (omega arith) ∙ sym (take_all (suc a + b) [] (omega arith))
  take-take (suc a) b (x ∷ xs) =
      ap (λ t. x ∷ t) (take-take a b xs)
      ∙ ap (λ k. take k (x ∷ xs)) (let e : suc (a + b) ≡ suc a + b = omega arith in e)

  -- Parts that meet join.
  pub part-part :
      (a b c : ℕ) (src : List A)
      → a ≤ b
      → b ≤ c
      → b ≤ length src
      → part a b src ++ part b c src ≡ part a c src
  part-part a b c src h k m =
      let e : min b (length src) ≡ b = omega arith in
      let f : a + (b - a) ≡ b = omega arith in
      let g : b - a + (min c (length src) - b) ≡ min c (length src) - a = omega arith in
      ap₂ (λ n t. take n (drop a src) ++ take (min c (length src) - b) t) (ap (λ n. n - a) e)
        (sym (drop-drop a (b - a) src ∙ ap (λ n. drop n src) f))
      ∙ take-take (b - a) (min c (length src) - b) (drop a src)
      ∙ ap (λ n. take n (drop a src)) g

  pub part_all : (e : ℕ) (src : List A) → length src ≤ e → part 0 e src ≡ src
  part_all e src h = take_all (min e (length src) - 0) src (omega arith)

-- One, two and three parts of a list, the last of which reaches its end.
module _ {A : Type 0} (a l : ℕ) (src : List A) where
  pub one_part : length src ≤ l → part 0 (0 + l) src ++ [] ≡ src
  one_part h = append-nil (part 0 (0 + l) src) ∙ part_all (0 + l) src (omega arith)

  pub two_parts :
      a ≤ length src → length src ≤ a + l → part 0 (0 + a) src ++ (part a (a + l) src ++ []) ≡ src
  two_parts h k =
      let e : 0 + a ≡ a = omega arith in
      rw (append-nil (part a (a + l) src), e)
        (part-part 0 a (a + l) src (omega arith) (omega arith) h ∙ part_all (a + l) src k)

  pub three_parts :
      a + a ≤ length src
      → length src ≤ a + a + l
      → part 0 (0 + a) src ++ (part a (a + a) src ++ (part (a + a) (a + a + l) src ++ [])) ≡ src
  three_parts h k =
      let e : 0 + a ≡ a = omega arith in
      rw
        (
          append-nil (part (a + a) (a + a + l) src),
          e,
          part-part a (a + a) (a + a + l) src (omega arith) (omega arith) h,
        )
        (part-part 0 a (a + a + l) src (omega arith) (omega arith) (omega arith)
          ∙ part_all (a + a + l) src k)
