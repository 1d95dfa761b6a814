-- ===== src/Work/Tally.antt =====
-- Where the threads of a work stand, counted, and what a step changes of it.
use ntr_hr.Base.{
  ℕ, ◌+◌, ◌≡◌, true, false, List, [], ◌∷◌, some, map, length, set, get_elem?, arith, refl,
  length-set,
}
use ntr_hr.Work.Gate.{Place, away, called, setup, waiting, encoding, captured, closing, give, raise}
use ntr_hr.Work.Census.{
  total, total-set, is_away, is_called, is_open_called, is_setup, is_waiting, is_open_waiting,
  is_encoding, is_captured, is_closing,
}

-- The threads of a list by their places.
pub record Tally (ps : List Place) : Type 0 where
  pub all :
      total is_away ps
        + total is_called ps
        + total is_open_called ps
        + total is_setup ps
        + total is_waiting ps
        + total is_open_waiting ps
        + total is_encoding ps
        + total is_captured ps
        + total is_closing ps
      ≡ length ps

pub tally : (ps : List Place) → Tally ps
unfolding total
tally [] = record { all = omega arith }
tally (away ∷ ps) = record { all = omega (arith, tally ps) }
tally (called true ∷ ps) = record { all = omega (arith, tally ps) }
tally (called false ∷ ps) = record { all = omega (arith, tally ps) }
tally (setup ∷ ps) = record { all = omega (arith, tally ps) }
tally (waiting true ∷ ps) = record { all = omega (arith, tally ps) }
tally (waiting false ∷ ps) = record { all = omega (arith, tally ps) }
tally (encoding ∷ ps) = record { all = omega (arith, tally ps) }
tally (captured ∷ ps) = record { all = omega (arith, tally ps) }
tally (closing ∷ ps) = record { all = omega (arith, tally ps) }

-- A thread goes from place `p` to place `q`.
pub record Moved (ps qs : List Place) (p q : Place) : Type 0 where
  pub aways : total is_away qs + is_away p ≡ total is_away ps + is_away q
  pub calleds : total is_called qs + is_called p ≡ total is_called ps + is_called q
  pub open_calleds :
      total is_open_called qs + is_open_called p ≡ total is_open_called ps + is_open_called q
  pub setups : total is_setup qs + is_setup p ≡ total is_setup ps + is_setup q
  pub waitings : total is_waiting qs + is_waiting p ≡ total is_waiting ps + is_waiting q
  pub open_waitings :
      total is_open_waiting qs + is_open_waiting p ≡ total is_open_waiting ps + is_open_waiting q
  pub encodings : total is_encoding qs + is_encoding p ≡ total is_encoding ps + is_encoding q
  pub captureds : total is_captured qs + is_captured p ≡ total is_captured ps + is_captured q
  pub closings : total is_closing qs + is_closing p ≡ total is_closing ps + is_closing q
  pub same : length qs ≡ length ps

pub moved :
    (ps : List Place) (i : ℕ) (p q : Place) → get_elem? ps i ≡ some p → Moved ps (set ps i q) p q
moved ps i p q h = record {
  aways = total-set is_away ps i p q h;
  calleds = total-set is_called ps i p q h;
  open_calleds = total-set is_open_called ps i p q h;
  setups = total-set is_setup ps i p q h;
  waitings = total-set is_waiting ps i p q h;
  open_waitings = total-set is_open_waiting ps i p q h;
  encodings = total-set is_encoding ps i p q h;
  captureds = total-set is_captured ps i p q h;
  closings = total-set is_closing ps i p q h;
  same = length-set ps i q;
}

-- All that were away are called.
pub given_called :
    (ps : List Place) → total is_called (map give ps) ≡ total is_away ps + total is_called ps
unfolding total
given_called [] = omega arith
given_called (away ∷ ps) = omega (arith, given_called ps)
given_called (called true ∷ ps) = omega (arith, given_called ps)
given_called (called false ∷ ps) = omega (arith, given_called ps)
given_called (setup ∷ ps) = omega (arith, given_called ps)
given_called (waiting true ∷ ps) = omega (arith, given_called ps)
given_called (waiting false ∷ ps) = omega (arith, given_called ps)
given_called (encoding ∷ ps) = omega (arith, given_called ps)
given_called (captured ∷ ps) = omega (arith, given_called ps)
given_called (closing ∷ ps) = omega (arith, given_called ps)

-- The semaphores of those that are held are released.
pub record Raised (ps : List Place) : Type 0 where
  pub calleds : total is_open_called (map raise ps) ≡ total is_called ps + total is_open_called ps
  pub waitings :
      total is_open_waiting (map raise ps) ≡ total is_waiting ps + total is_open_waiting ps
  pub others : total is_encoding (map raise ps) ≡ total is_encoding ps

pub raised : (ps : List Place) → Raised ps
unfolding total
raised [] = record { calleds = omega arith; waitings = omega arith; others = refl }
raised (away ∷ ps) =
    let r = raised ps in
    record { calleds = omega (arith, r); waitings = omega (arith, r); others = omega (arith, r) }
raised (called true ∷ ps) =
    let r = raised ps in
    record { calleds = omega (arith, r); waitings = omega (arith, r); others = omega (arith, r) }
raised (called false ∷ ps) =
    let r = raised ps in
    record { calleds = omega (arith, r); waitings = omega (arith, r); others = omega (arith, r) }
raised (setup ∷ ps) =
    let r = raised ps in
    record { calleds = omega (arith, r); waitings = omega (arith, r); others = omega (arith, r) }
raised (waiting true ∷ ps) =
    let r = raised ps in
    record { calleds = omega (arith, r); waitings = omega (arith, r); others = omega (arith, r) }
raised (waiting false ∷ ps) =
    let r = raised ps in
    record { calleds = omega (arith, r); waitings = omega (arith, r); others = omega (arith, r) }
raised (encoding ∷ ps) =
    let r = raised ps in
    record { calleds = omega (arith, r); waitings = omega (arith, r); others = omega (arith, r) }
raised (captured ∷ ps) =
    let r = raised ps in
    record { calleds = omega (arith, r); waitings = omega (arith, r); others = omega (arith, r) }
raised (closing ∷ ps) =
    let r = raised ps in
    record { calleds = omega (arith, r); waitings = omega (arith, r); others = omega (arith, r) }
