-- ===== src/Ranged/Tests.antt =====
-- Ranges of three and of two numbers.
use ntr_hr.Base.{◌+◌, ◌-◌, ◌≡◌, refl, some, none, [], ◌∷◌, arith}
use ntr_hr.Ranged.Index.{init, next_wrapped_n, items, up_to, next, item_then}
use ntr_hr.Ranged.Walk.{up_to-items, range}

out_of_range : init 1 3 4 ≡ none
unfolding init
out_of_range = refl

three : items 0 4 (up_to 0 2) ≡ some (0 ∷ 1 ∷ 2 ∷ [])
unfolding items next next_wrapped_n up_to item_then
three = refl

up_to-items_example : items 0 (2 - 0 + 2) (up_to 0 2) ≡ some (range 0 (2 - 0 + 1))
up_to-items_example = up_to-items 0 2 (omega arith)
