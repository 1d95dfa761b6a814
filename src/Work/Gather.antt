-- ===== src/Work/Gather.antt =====
-- copy_to_terms appends to the bytes of the packets, and its packets are full.
use ntr_hr.Base.{
  ℕ, zero, suc, ◌≤◌, ◌≡◌, Bool, true, false, List, [], ◌∷◌, ◌++◌, arith, refl, sym, ap, ◌∙◌, length,
  drop, append_assoc, append-nil,
}
use ntr_hr.Work.Terms.{later_hdr}

abbrev pub hdr_len : Bool → ℕ
hdr_len true = 4
hdr_len false = 0

pub length-later_hdr : (v2 : Bool) → length (later_hdr v2) ≡ hdr_len v2
unfolding later_hdr
length-later_hdr true = refl
length-later_hdr false = refl

-- A receiver's view: the first packet whole, the later ones behind their header.
unfoldable pub later : Bool → List (List ℕ) → List ℕ
later v2 [] = []
later v2 (p ∷ ps) = drop (hdr_len v2) p ++ later v2 ps

unfoldable pub joined : Bool → List (List ℕ) → List ℕ
joined v2 [] = []
joined v2 (p ∷ ps) = p ++ later v2 ps

pub drop-append_le {ℓ} :
    {A : Type ℓ} (n : ℕ) (xs ys : List A) → n ≤ length xs → drop n (xs ++ ys) ≡ drop n xs ++ ys
drop-append_le zero xs ys h = refl
drop-append_le (suc n) [] ys h = absurd (omega arith)
drop-append_le (suc n) (x ∷ xs) ys h = drop-append_le n xs ys (omega arith)

later-extend :
    (v2 : Bool) (full : List (List ℕ)) (cur bytes : List ℕ)
    → hdr_len v2 ≤ length cur
    → later v2 (full ++ (cur ++ bytes) ∷ []) ≡ later v2 (full ++ cur ∷ []) ++ bytes
unfolding later
later-extend v2 [] cur bytes h =
    append-nil (drop (hdr_len v2) (cur ++ bytes))
    ∙ drop-append_le (hdr_len v2) cur bytes h
    ∙ ap (λ t. t ++ bytes) (sym (append-nil (drop (hdr_len v2) cur)))
later-extend v2 (p ∷ full) cur bytes h =
    ap (λ t. drop (hdr_len v2) p ++ t) (later-extend v2 full cur bytes h)
    ∙ sym (append_assoc (drop (hdr_len v2) p) (later v2 (full ++ cur ∷ [])) bytes)

-- The packet being filled has its header, if it is not the first.
abbrev pub HasHdr : Bool → List (List ℕ) → List ℕ → Type 0
HasHdr v2 [] cur = Unit {0}
HasHdr v2 (p ∷ full) cur = hdr_len v2 ≤ length cur

pub joined-extend :
    (v2 : Bool) (full : List (List ℕ)) (cur bytes : List ℕ)
    → HasHdr v2 full cur
    → joined v2 (full ++ (cur ++ bytes) ∷ []) ≡ joined v2 (full ++ cur ∷ []) ++ bytes
unfolding joined later
joined-extend v2 [] cur bytes h =
    append-nil (cur ++ bytes) ∙ ap (λ t. t ++ bytes) (sym (append-nil cur))
joined-extend v2 (p ∷ full) cur bytes h =
    ap (λ t. p ++ t) (later-extend v2 full cur bytes h)
    ∙ sym (append_assoc p (later v2 (full ++ cur ∷ [])) bytes)

later-fresh :
    (v2 : Bool) (packets : List (List ℕ))
    → later v2 (packets ++ later_hdr v2 ∷ []) ≡ later v2 packets
unfolding later later_hdr
later-fresh true [] = refl
later-fresh false [] = refl
later-fresh v2 (p ∷ ps) = ap (λ t. drop (hdr_len v2) p ++ t) (later-fresh v2 ps)

pub joined-fresh :
    (v2 : Bool) (full : List (List ℕ)) (cur : List ℕ)
    → joined v2 ((full ++ cur ∷ []) ++ later_hdr v2 ∷ []) ≡ joined v2 (full ++ cur ∷ [])
unfolding joined
joined-fresh v2 [] cur = ap (λ t. cur ++ t) (later-fresh v2 [])
joined-fresh v2 (p ∷ full) cur = ap (λ t. p ++ t) (later-fresh v2 (full ++ cur ∷ []))

pub HasHdr-fresh : (v2 : Bool) (full : List (List ℕ)) → HasHdr v2 full (later_hdr v2)
HasHdr-fresh v2 [] = tt
HasHdr-fresh v2 (p ∷ full) = omega (arith, length-later_hdr v2)
