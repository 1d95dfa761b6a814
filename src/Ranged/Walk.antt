-- ===== src/Ranged/Walk.antt =====
-- Steps and iteration over a range.
use ntr_hr.Base.{
  ℕ, zero, suc, ◌+◌, ◌-◌, ◌≤◌, ◌≡◌, refl, ap, ◌∙◌, true, false, arith, List, [], ◌∷◌, some, ◌==◌,
}
use ntr_hr.Ranged.Index.{next_wrapped_n, prev_wrapped_n, up_to, next, items, item_then}

-- A step forth and a step back undo each other and stay in the range from `nb` to `e`.
pub wrapped_steps :
    (nb e i : ℕ)
    → nb ≤ i
    → i ≤ e
    → (prev_wrapped_n nb e (next_wrapped_n nb e i) ≡ i)
      × (next_wrapped_n nb e (prev_wrapped_n nb e i) ≡ i)
      × (nb ≤ next_wrapped_n nb e i)
      × (next_wrapped_n nb e i ≤ e)
unfolding next_wrapped_n prev_wrapped_n
wrapped_steps nb e i h k = ground arith

-- `n` numbers from `i` on.
abbrev pub range : ℕ → ℕ → List ℕ
range i zero = []
range i (suc n) = i ∷ range (i + 1) n

items_open :
    (nb f i e : ℕ)
    → (i == e) ≡ false
    → items nb (suc f) (record { i = i; e = e; b = false })
      ≡ item_then (some i) (items nb f (record { i = i + 1; e = e; b = false }))
unfolding items next next_wrapped_n
items_open nb f i e ne = rw ne refl

items_last :
    (nb f i e : ℕ)
    → (i == e) ≡ true
    → items nb (suc (suc f)) (record { i = i; e = e; b = false }) ≡ some (i ∷ [])
unfolding items next item_then
items_last nb f i e eq = rw eq refl

items-range :
    (nb k i e : ℕ)
    → i + k ≡ e
    → items nb (suc (suc k)) (record { i = i; e = e; b = false }) ≡ some (range i (suc k))
items-range nb zero i e h = items_last nb 0 i e (ground arith)
items-range nb (suc k) i e h =
    items_open nb (suc (suc k)) i e (ground arith)
    ∙ ap (item_then (some i)) (items-range nb k (i + 1) e (omega arith))
    ∙ (unfold item_then in refl)

-- The loop over `up_to e` ends after one more call of `next` than the range has numbers, and it
-- sees each number from `nb` to `e` once, in order.
pub up_to-items :
    (nb e : ℕ) → nb ≤ e → items nb (e - nb + 2) (up_to nb e) ≡ some (range nb (e - nb + 1))
unfolding up_to
up_to-items nb e h =
    let two : e - nb + 2 ≡ suc (suc (e - nb)) = omega arith in
    let one : e - nb + 1 ≡ suc (e - nb) = omega arith in
    rw (two, one) (items-range nb (e - nb) nb e (omega arith))
