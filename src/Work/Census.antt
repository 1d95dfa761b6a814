-- ===== src/Work/Census.antt =====
-- How many threads stand at a place, and how a step changes that.
use ntr_hr.Base.{
  ℕ, zero, suc, ◌+◌, ◌≡◌, true, false, List, [], ◌∷◌, some, map, length, set, get_elem?, arith,
  refl, ap,
}
use mathlib.Core.Option.{some-injective, none-ne-some}
use ntr_hr.Work.Gate.{Place, away, called, setup, waiting, encoding, captured, closing}

unfoldable pub total : (Place → ℕ) → List Place → ℕ
total w [] = 0
total w (p ∷ ps) = w p + total w ps

pub total-set :
    (w : Place → ℕ) (ps : List Place) (i : ℕ) (p q : Place)
    → get_elem? ps i ≡ some p
    → total w (set ps i q) + w p ≡ total w ps + w q
unfolding total
total-set w [] i p q h = absurd (none-ne-some p h)
total-set w (x ∷ ps) zero p q h = let e = ap w (some-injective x p h) in omega (arith, e)
total-set w (x ∷ ps) (suc i) p q h = omega (arith, total-set w ps i p q h)

-- A sum over changed places is one over the places.
pub total-map :
    (w v : Place → ℕ) (f : Place → Place)
    → ((p : Place) → w (f p) ≡ v p)
    → (ps : List Place) → total w (map f ps) ≡ total v ps
unfolding total
total-map w v f h [] = refl
total-map w v f h (p ∷ ps) = omega (arith, h p, total-map w v f h ps)

pub total-add :
    (u v w : Place → ℕ)
    → ((p : Place) → w p ≡ u p + v p)
    → (ps : List Place) → total w ps ≡ total u ps + total v ps
unfolding total
total-add u v w h [] = refl
total-add u v w h (p ∷ ps) = omega (arith, h p, total-add u v w h ps)

pub length-map_place : (f : Place → Place) (ps : List Place) → length (map f ps) ≡ length ps
length-map_place f [] = refl
length-map_place f (p ∷ ps) = ap suc (length-map_place f ps)

pub get_elem?-map :
    (f : Place → Place) (ps : List Place) (i : ℕ) (p : Place)
    → get_elem? ps i ≡ some p
    → get_elem? (map f ps) i ≡ some (f p)
get_elem?-map f [] i p h = absurd (none-ne-some p h)
get_elem?-map f (x ∷ ps) zero p h = ap (λ q. some (f q)) (some-injective x p h)
get_elem?-map f (x ∷ ps) (suc i) p h = get_elem?-map f ps i p h

-- One for the places of a kind.
abbrev pub is_away : Place → ℕ
is_away away = 1
is_away (called false) = 0
is_away (called true) = 0
is_away setup = 0
is_away (waiting false) = 0
is_away (waiting true) = 0
is_away encoding = 0
is_away captured = 0
is_away closing = 0

abbrev pub is_called : Place → ℕ
is_called away = 0
is_called (called false) = 1
is_called (called true) = 0
is_called setup = 0
is_called (waiting false) = 0
is_called (waiting true) = 0
is_called encoding = 0
is_called captured = 0
is_called closing = 0

abbrev pub is_open_called : Place → ℕ
is_open_called away = 0
is_open_called (called false) = 0
is_open_called (called true) = 1
is_open_called setup = 0
is_open_called (waiting false) = 0
is_open_called (waiting true) = 0
is_open_called encoding = 0
is_open_called captured = 0
is_open_called closing = 0

abbrev pub is_setup : Place → ℕ
is_setup away = 0
is_setup (called false) = 0
is_setup (called true) = 0
is_setup setup = 1
is_setup (waiting false) = 0
is_setup (waiting true) = 0
is_setup encoding = 0
is_setup captured = 0
is_setup closing = 0

abbrev pub is_waiting : Place → ℕ
is_waiting away = 0
is_waiting (called false) = 0
is_waiting (called true) = 0
is_waiting setup = 0
is_waiting (waiting false) = 1
is_waiting (waiting true) = 0
is_waiting encoding = 0
is_waiting captured = 0
is_waiting closing = 0

abbrev pub is_open_waiting : Place → ℕ
is_open_waiting away = 0
is_open_waiting (called false) = 0
is_open_waiting (called true) = 0
is_open_waiting setup = 0
is_open_waiting (waiting false) = 0
is_open_waiting (waiting true) = 1
is_open_waiting encoding = 0
is_open_waiting captured = 0
is_open_waiting closing = 0

abbrev pub is_encoding : Place → ℕ
is_encoding away = 0
is_encoding (called false) = 0
is_encoding (called true) = 0
is_encoding setup = 0
is_encoding (waiting false) = 0
is_encoding (waiting true) = 0
is_encoding encoding = 1
is_encoding captured = 0
is_encoding closing = 0

abbrev pub is_captured : Place → ℕ
is_captured away = 0
is_captured (called false) = 0
is_captured (called true) = 0
is_captured setup = 0
is_captured (waiting false) = 0
is_captured (waiting true) = 0
is_captured encoding = 0
is_captured captured = 1
is_captured closing = 0

abbrev pub is_closing : Place → ℕ
is_closing away = 0
is_closing (called false) = 0
is_closing (called true) = 0
is_closing setup = 0
is_closing (waiting false) = 0
is_closing (waiting true) = 0
is_closing encoding = 0
is_closing captured = 0
is_closing closing = 1
