-- ===== src/Ranged/Index.antt =====
-- `IRanged` and `IRangedIter`. The compiler evaluates the bounds; they are arguments here.
use ntr_hr.Base.{
  ℕ, zero, suc, ◌+◌, ◌-◌, Bool, true, false, List, [], ◌∷◌, Option, none, some, ◌==◌, leb, ◌&&◌,
  if◌then◌else◌,
}

-- `init` and `set` panic outside of the range.
unfoldable pub init : ℕ → ℕ → ℕ → Option ℕ
init nb ne i = if leb nb i && leb i ne then some i else none

unfoldable pub next_wrapped_n : ℕ → ℕ → ℕ → ℕ
next_wrapped_n nb e i = if i == e then nb else i + 1

unfoldable pub prev_wrapped_n : ℕ → ℕ → ℕ → ℕ
prev_wrapped_n nb e i = if i == nb then e else i - 1

pub record RangedIter : Type 0 where
  pub i : ℕ
  pub e : ℕ
  pub b : Bool

unfoldable pub up_to : ℕ → ℕ → RangedIter
up_to nb n = record { i = nb; e = n; b = false }

-- Iterator::next.
unfoldable pub next : ℕ → RangedIter → Option ℕ × RangedIter
next nb it = if it.b then (none, it) else (
  some it.i,
  if it.i == it.e then record it { b = true } else record it { i = next_wrapped_n nb it.e it.i },
)

-- The items of a loop: one item and those of the rest of the loop, if both are known.
unfoldable pub item_then : Option ℕ → Option (List ℕ) → Option (List ℕ)
item_then none rest = some []
item_then (some x) none = none
item_then (some x) (some xs) = some (x ∷ xs)

-- What a `for` loop over the iterator sees, on at most `fuel` calls of `next`; the answer is
-- `none` where it is not over by then.
unfoldable pub items : ℕ → ℕ → RangedIter → Option (List ℕ)
items nb zero it = none
items nb (suc fuel) it =
    let (item, it') = next nb it in let rest = items nb fuel it' in item_then item rest
