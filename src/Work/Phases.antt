-- ===== src/Work/Phases.antt =====
-- The phases of a frame of a work, and that every step leads from phase to phase.
use ntr_hr.Base.{
  ℕ, zero, suc, ◌+◌, ◌<◌, ◌≡◌, Bool, true, false, some, map, length, set, get_elem?, arith, refl,
}
use ntr_hr.Work.Gate.{
  away, called, setup, waiting, encoding, captured, closing, give, raise, all_away, Gate, move,
  Step, call, swap_first, swap_other, skip, release, take, capture_first, capture_other, finish,
  finish_last, close, Reach, here, next,
}
use ntr_hr.Work.Census.{
  total, length-map_place, get_elem?-map, is_away, is_called, is_open_called, is_setup, is_waiting,
  is_open_waiting, is_encoding, is_captured, is_closing,
}
use ntr_hr.Work.Tally.{tally, moved, given_called, raised}

-- The phases of a frame of the work, and what they say of the threads and the shared words.
pub data Phase (g : Gate) : Type 0 where
  -- No thread is at the work, and work_done can be taken.
  free :
      total is_away g.threads ≡ length g.threads
      → g.flag ≡ false
      → g.count ≡ 0
      → g.done ≡ 1
      → Phase g
  -- All are called, none has swapped the flag.
  fresh :
      total is_called g.threads ≡ length g.threads
      → g.flag ≡ false
      → g.count ≡ 0
      → g.done ≡ 0
      → Phase g
  -- One thread sets the frame up, the others are held.
  setting :
      total is_setup g.threads ≡ 1
      → total is_called g.threads + total is_waiting g.threads + 1 ≡ length g.threads
      → g.flag ≡ true
      → g.count ≡ 0
      → g.done ≡ 0
      → g.should_capture ≡ false
      → g.captures ≡ 0
      → Phase g
  -- All may encode, and none has started the next capture.
  opened :
      total is_open_called g.threads + total is_open_waiting g.threads + total is_encoding g.threads
        ≡ length g.threads
      → g.flag ≡ true
      → g.count ≡ 0
      → g.done ≡ 0
      → g.should_capture ≡ false
      → g.captures ≡ 0
      → Phase g
  -- The next capture has been started, once; those that are away are counted.
  shared :
      total is_open_called g.threads
          + total is_open_waiting g.threads
          + total is_encoding g.threads
          + total is_captured g.threads
          + g.count
        ≡ length g.threads
      → total is_away g.threads ≡ g.count
      → g.count < length g.threads
      → g.flag ≡ true
      → g.done ≡ 0
      → g.should_capture ≡ true
      → g.captures ≡ 1
      → Phase g
  -- The last thread closes the work, all others are away.
  ending :
      total is_closing g.threads ≡ 1
      → total is_away g.threads + 1 ≡ length g.threads
      → g.count ≡ length g.threads
      → g.flag ≡ true
      → g.done ≡ 0
      → g.should_capture ≡ true
      → g.captures ≡ 1
      → Phase g

swap_other-Phase :
    (g : Gate) (i : ℕ) (s : Bool)
    → get_elem? g.threads i ≡ some (called s)
    → g.flag ≡ true
    → Phase g
    → Phase (record g { threads = move g i (waiting s) })
swap_other-Phase g i s h f (free a b c d) = cc
swap_other-Phase g i s h f (fresh a b c d) = cc
swap_other-Phase g i true h f (setting a b c d e x y) =
    let m = moved g.threads i (called true) (waiting true) h in
    absurd (omega (arith, m, tally g.threads))
swap_other-Phase g i false h f (setting a b c d e x y) =
    let m = moved g.threads i (called false) (waiting false) h in
    setting (omega (arith, m)) (omega (arith, m)) c d e x y
swap_other-Phase g i true h f (opened a b c d x y) =
    let m = moved g.threads i (called true) (waiting true) h in opened (omega (arith, m)) b c d x y
swap_other-Phase g i false h f (opened a b c d x y) =
    let m = moved g.threads i (called false) (waiting false) h in
    absurd (omega (arith, m, tally g.threads))
swap_other-Phase g i true h f (shared a b lt c d x y) =
    let m = moved g.threads i (called true) (waiting true) h in
    shared (omega (arith, m)) (omega (arith, m)) (omega (arith, m)) c d x y
swap_other-Phase g i false h f (shared a b lt c d x y) =
    let m = moved g.threads i (called false) (waiting false) h in
    absurd (omega (arith, m, tally g.threads))
swap_other-Phase g i true h f (ending a b c d e x y) =
    let m = moved g.threads i (called true) (waiting true) h in
    absurd (omega (arith, m, tally g.threads))
swap_other-Phase g i false h f (ending a b c d e x y) =
    let m = moved g.threads i (called false) (waiting false) h in
    absurd (omega (arith, m, tally g.threads))

take-Phase :
    (g : Gate) (i : ℕ)
    → get_elem? g.threads i ≡ some (waiting true)
    → Phase g
    → Phase (record g { threads = move g i encoding })
take-Phase g i h (free a b c d) =
    absurd (omega (arith, moved g.threads i (waiting true) encoding h, tally g.threads))
take-Phase g i h (fresh a b c d) =
    absurd (omega (arith, moved g.threads i (waiting true) encoding h, tally g.threads))
take-Phase g i h (setting a b c d e x y) =
    absurd (omega (arith, moved g.threads i (waiting true) encoding h, tally g.threads))
take-Phase g i h (opened a b c d e x) =
    let m = moved g.threads i (waiting true) encoding h in opened (omega (arith, m)) b c d e x
take-Phase g i h (shared a b lt c d e x) =
    let m = moved g.threads i (waiting true) encoding h in
    shared (omega (arith, m)) (omega (arith, m)) (omega (arith, m)) c d e x
take-Phase g i h (ending a b c d e x y) =
    absurd (omega (arith, moved g.threads i (waiting true) encoding h, tally g.threads))

capture_first-Phase :
    (g : Gate) (i : ℕ)
    → get_elem? g.threads i ≡ some encoding
    → g.should_capture ≡ false
    → Phase g
    → Phase
        (record g { threads = move g i captured; should_capture = true; captures = g.captures + 1 })
capture_first-Phase g i h f (free a b c d) =
    absurd (omega (arith, moved g.threads i encoding captured h, tally g.threads))
capture_first-Phase g i h f (fresh a b c d) =
    absurd (omega (arith, moved g.threads i encoding captured h, tally g.threads))
capture_first-Phase g i h f (setting a b c d e x y) =
    absurd (omega (arith, moved g.threads i encoding captured h, tally g.threads))
capture_first-Phase g i h f (opened a b c d e x) =
    let m = moved g.threads i encoding captured h in
    shared (omega (arith, m, tally g.threads)) (omega (arith, m, tally g.threads))
      (omega (arith, m, tally g.threads)) b d refl (omega arith)
capture_first-Phase g i h f (shared a b lt c d e x) = cc
capture_first-Phase g i h f (ending a b c d e x y) = cc

capture_other-Phase :
    (g : Gate) (i : ℕ)
    → get_elem? g.threads i ≡ some encoding
    → g.should_capture ≡ true
    → Phase g
    → Phase (record g { threads = move g i captured })
capture_other-Phase g i h f (free a b c d) =
    absurd (omega (arith, moved g.threads i encoding captured h, tally g.threads))
capture_other-Phase g i h f (fresh a b c d) =
    absurd (omega (arith, moved g.threads i encoding captured h, tally g.threads))
capture_other-Phase g i h f (setting a b c d e x y) = cc
capture_other-Phase g i h f (opened a b c d e x) = cc
capture_other-Phase g i h f (shared a b lt c d e x) =
    let m = moved g.threads i encoding captured h in
    shared (omega (arith, m)) (omega (arith, m)) (omega (arith, m)) c d e x
capture_other-Phase g i h f (ending a b c d e x y) =
    absurd (omega (arith, moved g.threads i encoding captured h, tally g.threads))

finish-Phase :
    (g : Gate) (i : ℕ)
    → get_elem? g.threads i ≡ some captured
    → g.count + 1 < length g.threads
    → Phase g
    → Phase (record g { threads = move g i away; count = g.count + 1 })
finish-Phase g i h f (free a b c d) =
    absurd (omega (arith, moved g.threads i captured away h, tally g.threads))
finish-Phase g i h f (fresh a b c d) =
    absurd (omega (arith, moved g.threads i captured away h, tally g.threads))
finish-Phase g i h f (setting a b c d e x y) =
    absurd (omega (arith, moved g.threads i captured away h, tally g.threads))
finish-Phase g i h f (opened a b c d e x) =
    absurd (omega (arith, moved g.threads i captured away h, tally g.threads))
finish-Phase g i h f (shared a b lt c d e x) =
    let m = moved g.threads i captured away h in
    shared (omega (arith, m)) (omega (arith, m)) (omega (arith, m)) c d e x
finish-Phase g i h f (ending a b c d e x y) =
    absurd (omega (arith, moved g.threads i captured away h, tally g.threads))

finish_last-Phase :
    (g : Gate) (i : ℕ)
    → get_elem? g.threads i ≡ some captured
    → g.count + 1 ≡ length g.threads
    → Phase g
    → Phase (record g { threads = move g i closing; count = g.count + 1 })
finish_last-Phase g i h f (free a b c d) =
    absurd (omega (arith, moved g.threads i captured closing h, tally g.threads))
finish_last-Phase g i h f (fresh a b c d) =
    absurd (omega (arith, moved g.threads i captured closing h, tally g.threads))
finish_last-Phase g i h f (setting a b c d e x y) =
    absurd (omega (arith, moved g.threads i captured closing h, tally g.threads))
finish_last-Phase g i h f (opened a b c d e x) =
    absurd (omega (arith, moved g.threads i captured closing h, tally g.threads))
finish_last-Phase g i h f (shared a b lt c d e x) =
    let m = moved g.threads i captured closing h in
    ending (omega (arith, m, tally g.threads)) (omega (arith, m)) (omega (arith, m)) c d e x
finish_last-Phase g i h f (ending a b c d e x y) =
    absurd (omega (arith, moved g.threads i captured closing h, tally g.threads))

close-Phase :
    (g : Gate) (i : ℕ)
    → get_elem? g.threads i ≡ some closing
    → Phase g
    → Phase (record g { threads = move g i away; count = 0; flag = false; done = g.done + 1 })
close-Phase g i h (free a b c d) =
    absurd (omega (arith, moved g.threads i closing away h, tally g.threads))
close-Phase g i h (fresh a b c d) =
    absurd (omega (arith, moved g.threads i closing away h, tally g.threads))
close-Phase g i h (setting a b c d e x y) =
    absurd (omega (arith, moved g.threads i closing away h, tally g.threads))
close-Phase g i h (opened a b c d e x) =
    absurd (omega (arith, moved g.threads i closing away h, tally g.threads))
close-Phase g i h (shared a b lt c d e x) =
    absurd (omega (arith, moved g.threads i closing away h, tally g.threads))
close-Phase g i h (ending a b c d e x y) =
    let m = moved g.threads i closing away h in free (omega (arith, m)) refl refl (omega arith)

swap_first-Phase :
    (g : Gate) (i : ℕ) (s : Bool)
    → get_elem? g.threads i ≡ some (called s)
    → g.flag ≡ false
    → Phase g
    → Phase
        (record g { threads = move g i setup; flag = true; should_capture = false; captures = 0 })
swap_first-Phase g i true h f (free a b c d) =
    absurd (omega (arith, moved g.threads i (called true) setup h, tally g.threads))
swap_first-Phase g i false h f (free a b c d) =
    absurd (omega (arith, moved g.threads i (called false) setup h, tally g.threads))
swap_first-Phase g i true h f (fresh a b c d) =
    absurd (omega (arith, moved g.threads i (called true) setup h, tally g.threads))
swap_first-Phase g i false h f (fresh a b c d) =
    let m = moved g.threads i (called false) setup h in
    setting (omega (arith, m, tally g.threads)) (omega (arith, m, tally g.threads)) refl c d refl
      refl
swap_first-Phase g i s h f (setting a b c d e x y) = cc
swap_first-Phase g i s h f (opened a b c d e x) = cc
swap_first-Phase g i s h f (shared a b lt c d e x) = cc
swap_first-Phase g i s h f (ending a b c d e x y) = cc

call-Phase :
    (g : Gate) → g.done ≡ 1 → Phase g → Phase (record g { threads = map give g.threads; done = 0 })
call-Phase g h (free a b c d) =
    fresh (omega (arith, given_called g.threads, tally g.threads, length-map_place give g.threads))
      b c refl
call-Phase g h (fresh a b c d) = absurd (omega arith)
call-Phase g h (setting a b c d e x y) = absurd (omega arith)
call-Phase g h (opened a b c d e x) = absurd (omega arith)
call-Phase g h (shared a b lt c d e x) = absurd (omega arith)
call-Phase g h (ending a b c d e x y) = absurd (omega arith)

release-Phase :
    (g : Gate) (i : ℕ)
    → get_elem? g.threads i ≡ some setup
    → Phase g
    → Phase (record g { threads = set (map raise g.threads) i encoding })
release-Phase g i h (free a b c d) =
    absurd (omega (arith, moved g.threads i setup encoding h, tally g.threads))
release-Phase g i h (fresh a b c d) =
    absurd (omega (arith, moved g.threads i setup encoding h, tally g.threads))
release-Phase g i h (setting a b c d e x y) =
    let r = map raise g.threads in
    let m = moved r i setup encoding (get_elem?-map raise g.threads i setup h) in
    opened (omega (arith, m, raised g.threads, length-map_place raise g.threads, tally g.threads)) c
      d e x y
release-Phase g i h (opened a b c d e x) =
    absurd (omega (arith, moved g.threads i setup encoding h, tally g.threads))
release-Phase g i h (shared a b lt c d e x) =
    absurd (omega (arith, moved g.threads i setup encoding h, tally g.threads))
release-Phase g i h (ending a b c d e x y) =
    absurd (omega (arith, moved g.threads i setup encoding h, tally g.threads))

-- Every step leads from phase to phase.
pub Step-Phase : {g h : Gate} → Step g h → Phase g → Phase h
Step-Phase {g} (call d) p = call-Phase g d p
Step-Phase {g} (swap_first i s h f) p = swap_first-Phase g i s h f p
Step-Phase {g} (swap_other i s h f) p = swap_other-Phase g i s h f p
Step-Phase {g} (skip i h) p = p
Step-Phase {g} (release i h) p = release-Phase g i h p
Step-Phase {g} (take i h) p = take-Phase g i h p
Step-Phase {g} (capture_first i h f) p = capture_first-Phase g i h f p
Step-Phase {g} (capture_other i h f) p = capture_other-Phase g i h f p
Step-Phase {g} (finish i h f) p = finish-Phase g i h f p
Step-Phase {g} (finish_last i h f) p = finish_last-Phase g i h f p
Step-Phase {g} (close i h) p = close-Phase g i h p

length-all_away : (n : ℕ) → total is_away (all_away n) ≡ length (all_away n)
unfolding total
length-all_away zero = refl
length-all_away (suc n) = omega (arith, length-all_away n)

-- However the steps interleave, a work is in one of its phases.
pub Reach-Phase : {n : ℕ} {g : Gate} → Reach n g → Phase g
Reach-Phase {n} here = free (length-all_away n) refl refl refl
Reach-Phase (next r s) = Step-Phase s (Reach-Phase r)
