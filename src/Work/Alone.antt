-- ===== src/Work/Alone.antt =====
-- While a thread sets a frame up, the other threads are held, and a frame starts one capture.
use ntr_hr.Base.{
  ℕ, zero, suc, ◌+◌, ◌≤◌, ◌≡◌, ◌≢◌, true, false, List, [], ◌∷◌, some, length, get_elem?, arith,
  refl, ap,
}
use mathlib.Core.Option.{some-injective, none-ne-some}
use ntr_hr.Work.Gate.{Place, away, called, setup, waiting, encoding, captured, closing, Gate, Reach}
use ntr_hr.Work.Census.{
  total, is_away, is_called, is_open_called, is_setup, is_waiting, is_open_waiting, is_encoding,
  is_captured, is_closing,
}
use ntr_hr.Work.Tally.{tally}
use ntr_hr.Work.Phases.{free, fresh, setting, opened, shared, ending, Reach-Phase}

pub total-get :
    (w : Place → ℕ) (ps : List Place) (i : ℕ) (p : Place)
    → get_elem? ps i ≡ some p
    → w p ≤ total w ps
unfolding total
total-get w [] i p h = absurd (none-ne-some p h)
total-get w (x ∷ ps) zero p h = let e = ap w (some-injective x p h) in omega (arith, e)
total-get w (x ∷ ps) (suc i) p h = omega (arith, total-get w ps i p h)

total-get_two :
    (w : Place → ℕ) (ps : List Place) (i j : ℕ) (p q : Place)
    → get_elem? ps i ≡ some p
    → get_elem? ps j ≡ some q
    → i ≢ j
    → w p + w q ≤ total w ps
unfolding total
total-get_two w [] i j p q h k n = absurd (none-ne-some p h)
total-get_two w (x ∷ ps) zero zero p q h k n = absurd (n refl)
total-get_two w (x ∷ ps) zero (suc j) p q h k n =
    let e = ap w (some-injective x p h) in omega (arith, e, total-get w ps j q k)
total-get_two w (x ∷ ps) (suc i) zero p q h k n =
    let e = ap w (some-injective x q k) in omega (arith, e, total-get w ps i p h)
total-get_two w (x ∷ ps) (suc i) (suc j) p q h k n =
    omega (arith, total-get_two w ps i j p q h k (λ e. n (ap suc e)))

-- Called for the frame and before the swap, or waiting, with work_ready not released to it.
pub data IsHeld : Place → Type 0 where
  still_called : IsHeld (called false)
  still_waiting : IsHeld (waiting false)

-- Where no thread stands anywhere but called, waiting or at the set-up, and this one is not there.
held :
    (ps : List Place) (i j : ℕ) (p : Place)
    → get_elem? ps i ≡ some setup
    → get_elem? ps j ≡ some p
    → i ≢ j
    → total is_setup ps ≡ 1
    → total is_called ps + total is_waiting ps + 1 ≡ length ps
    → IsHeld p
held ps i j (called false) h k n one rest = still_called
held ps i j (waiting false) h k n one rest = still_waiting
held ps i j setup h k n one rest =
    absurd (omega (arith, total-get_two is_setup ps i j setup setup h k n))
held ps i j away h k n one rest = absurd (omega (arith, total-get is_away ps j away k, tally ps))
held ps i j (called true) h k n one rest =
    absurd (omega (arith, total-get is_open_called ps j (called true) k, tally ps))
held ps i j (waiting true) h k n one rest =
    absurd (omega (arith, total-get is_open_waiting ps j (waiting true) k, tally ps))
held ps i j encoding h k n one rest =
    absurd (omega (arith, total-get is_encoding ps j encoding k, tally ps))
held ps i j captured h k n one rest =
    absurd (omega (arith, total-get is_captured ps j captured k, tally ps))
held ps i j closing h k n one rest =
    absurd (omega (arith, total-get is_closing ps j closing k, tally ps))

-- In every reachable state of a work, while one thread has the set-up of a frame of it, every other
-- is still called for this frame or waits at it, with work_ready not released to it: none has the
-- set-up too, and none encodes this frame.
pub setup_alone :
    {n : ℕ} {g : Gate}
    → Reach n g
    → (i j : ℕ) (p : Place) → get_elem? g.threads i ≡ some setup
    → get_elem? g.threads j ≡ some p
    → i ≢ j
    → IsHeld p
setup_alone {g} r i j p h k n = elim (Reach-Phase r) [
  | free a b c d ↦ absurd (omega (arith, total-get is_setup g.threads i setup h, tally g.threads))
  | fresh a b c d ↦ absurd (omega (arith, total-get is_setup g.threads i setup h, tally g.threads))
  | setting a b c d e x y ↦ held g.threads i j p h k n a b
  | opened a b c d e x ↦
      absurd (omega (arith, total-get is_setup g.threads i setup h, tally g.threads))
  | shared a b lt c d e x ↦
      absurd (omega (arith, total-get is_setup g.threads i setup h, tally g.threads))
  | ending a b c d e x y ↦
      absurd (omega (arith, total-get is_setup g.threads i setup h, tally g.threads))
]

-- In every reachable state of a work, when the last thread closes a frame, every other thread is away
-- from the work, the frame has started the next capture exactly once, and work_done is not given yet.
pub closing_last :
    {n : ℕ} {g : Gate}
    → Reach n g
    → (i : ℕ) → get_elem? g.threads i ≡ some closing
    → (g.captures ≡ 1) × (total is_away g.threads + 1 ≡ length g.threads) × (g.done ≡ 0)
closing_last {g} r i h = elim (Reach-Phase r) [
  | free a b c d ↦
      absurd (omega (arith, total-get is_closing g.threads i closing h, tally g.threads))
  | fresh a b c d ↦
      absurd (omega (arith, total-get is_closing g.threads i closing h, tally g.threads))
  | setting a b c d e x y ↦
      absurd (omega (arith, total-get is_closing g.threads i closing h, tally g.threads))
  | opened a b c d e x ↦
      absurd (omega (arith, total-get is_closing g.threads i closing h, tally g.threads))
  | shared a b lt c d e x ↦
      absurd (omega (arith, total-get is_closing g.threads i closing h, tally g.threads))
  | ending a b c d e x y ↦ (y, b, e)
]
