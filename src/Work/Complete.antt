-- ===== src/Work/Complete.antt =====
-- A frame of a work can always be completed, and a thread's step brings it nearer.
use ntr_hr.Base.{
  ℕ, zero, suc, ◌+◌, ◌≤◌, ◌<◌, ◌≡◌, true, false, List, [], ◌∷◌, some, length, get_elem?, map, arith,
  refl, ap, ◌∙◌, Bool-cases, inl, inr, ◌⊎◌, le-cases, length-set,
}
use ntr_hr.Work.Gate.{
  Place, away, called, setup, waiting, encoding, captured, closing, give, raise, all_away, Gate,
  Step, call, swap_first, swap_other, skip, release, take, capture_first, capture_other, finish,
  finish_last, close, Reach, here, next,
}
use ntr_hr.Work.Census.{
  total, total-set, total-map, length-map_place, get_elem?-map, is_called, is_open_called, is_setup,
  is_open_waiting, is_encoding, is_captured, is_closing,
}
use ntr_hr.Work.Phases.{Phase, free, fresh, setting, opened, shared, ending, Reach-Phase}

-- The steps that a thread has before it at most.
abbrev pub steps_left : Place → ℕ
steps_left away = 0
steps_left (called s) = 6
steps_left setup = 5
steps_left (waiting s) = 4
steps_left encoding = 3
steps_left captured = 2
steps_left closing = 1

abbrev pub rank : Gate → ℕ
rank g = total steps_left g.threads

-- A thread at a place that counts.
find :
    (w : Place → ℕ) (ps : List Place)
    → 1 ≤ total w ps
    → (i : ℕ) × (p : Place) × (get_elem? ps i ≡ some p) × (1 ≤ w p)
unfolding total
find w [] h = absurd (omega arith)
find w (p ∷ ps) h = elim (le-cases 1 (w p)) [
  | inl k ↦ (0, p, refl, k)
  | inr k ↦ let (i, q, e, l) = find w ps (omega arith) in (suc i, q, e, l)
]

-- A step that brings the frame nearer to its end.
pub data Nearer (g : Gate) : Type 0 where
  nearer : (h : Gate) → Step g h → rank h < rank g → Nearer g

steps_left-raise : (p : Place) → steps_left (raise p) ≡ steps_left p
steps_left-raise away = refl
steps_left-raise (called s) = refl
steps_left-raise setup = refl
steps_left-raise (waiting s) = refl
steps_left-raise encoding = refl
steps_left-raise captured = refl
steps_left-raise closing = refl

module _ (g : Gate) where
  fresh-Nearer :
      (i : ℕ) (p : Place)
      → get_elem? g.threads i ≡ some p
      → 1 ≤ is_called p
      → g.flag ≡ false
      → Nearer g
  fresh-Nearer i (called s) h k f =
      nearer _ (swap_first i s h f)
        (omega (arith, total-set steps_left g.threads i (called s) setup h))
  fresh-Nearer i away h k f = absurd (omega arith)
  fresh-Nearer i setup h k f = absurd (omega arith)
  fresh-Nearer i (waiting s) h k f = absurd (ground arith)
  fresh-Nearer i encoding h k f = absurd (omega arith)
  fresh-Nearer i captured h k f = absurd (omega arith)
  fresh-Nearer i closing h k f = absurd (omega arith)

  setting-Nearer : (i : ℕ) (p : Place) → get_elem? g.threads i ≡ some p → 1 ≤ is_setup p → Nearer g
  setting-Nearer i setup h k = nearer _ (release i h) (
      omega (
        arith,
        total-set steps_left (map raise g.threads) i setup encoding
            (get_elem?-map raise g.threads i setup h),
        total-map steps_left steps_left raise steps_left-raise g.threads,
      ))
  setting-Nearer i away h k = absurd (omega arith)
  setting-Nearer i (called s) h k = absurd (ground arith)
  setting-Nearer i (waiting s) h k = absurd (ground arith)
  setting-Nearer i encoding h k = absurd (omega arith)
  setting-Nearer i captured h k = absurd (omega arith)
  setting-Nearer i closing h k = absurd (omega arith)

  abbrev is_open : Place → ℕ
  is_open away = 0
  is_open (called s) = is_open_called (called s)
  is_open setup = 0
  is_open (waiting s) = is_open_waiting (waiting s)
  is_open encoding = 1
  is_open captured = 1
  is_open closing = 0

  open-Nearer :
      (i : ℕ) (p : Place)
      → get_elem? g.threads i ≡ some p
      → 1 ≤ is_open p
      → g.flag ≡ true
      → g.count < length g.threads
      → Nearer g
  open-Nearer i (called s) h k f few =
      nearer _ (swap_other i s h f)
        (omega (arith, total-set steps_left g.threads i (called s) (waiting s) h))
  open-Nearer i (waiting true) h k f few =
      nearer _ (take i h)
        (omega (arith, total-set steps_left g.threads i (waiting true) encoding h))
  open-Nearer i encoding h k f few = elim (Bool-cases g.should_capture) [
    | inl c ↦
        nearer _ (capture_other i h c)
          (omega (arith, total-set steps_left g.threads i encoding captured h))
    | inr c ↦
        nearer _ (capture_first i h c)
          (omega (arith, total-set steps_left g.threads i encoding captured h))
  ]
  open-Nearer i captured h k f few = elim (le-cases (length g.threads) (g.count + 1)) [
    | inl c ↦
        nearer _ (finish_last i h (omega arith))
          (omega (arith, total-set steps_left g.threads i captured closing h))
    | inr c ↦
        nearer _ (finish i h c) (omega (arith, total-set steps_left g.threads i captured away h))
  ]
  open-Nearer i (waiting false) h k f few = absurd (omega arith)
  open-Nearer i away h k f few = absurd (omega arith)
  open-Nearer i setup h k f few = absurd (omega arith)
  open-Nearer i closing h k f few = absurd (omega arith)

  ending-Nearer : (i : ℕ) (p : Place) → get_elem? g.threads i ≡ some p → 1 ≤ is_closing p → Nearer g
  ending-Nearer i closing h k =
      nearer _ (close i h) (omega (arith, total-set steps_left g.threads i closing away h))
  ending-Nearer i away h k = absurd (omega arith)
  ending-Nearer i (called s) h k = absurd (ground arith)
  ending-Nearer i (waiting s) h k = absurd (ground arith)
  ending-Nearer i encoding h k = absurd (omega arith)
  ending-Nearer i captured h k = absurd (omega arith)
  ending-Nearer i setup h k = absurd (omega arith)

total-is_open :
    (g : Gate) (ps : List Place)
    → total (is_open g) ps
      ≡ total is_open_called ps
        + total is_open_waiting ps
        + total is_encoding ps
        + total is_captured ps
unfolding total
total-is_open g [] = omega arith
total-is_open g (away ∷ ps) = omega (arith, total-is_open g ps)
total-is_open g (called true ∷ ps) = omega (arith, total-is_open g ps)
total-is_open g (called false ∷ ps) = omega (arith, total-is_open g ps)
total-is_open g (setup ∷ ps) = omega (arith, total-is_open g ps)
total-is_open g (waiting true ∷ ps) = omega (arith, total-is_open g ps)
total-is_open g (waiting false ∷ ps) = omega (arith, total-is_open g ps)
total-is_open g (encoding ∷ ps) = omega (arith, total-is_open g ps)
total-is_open g (captured ∷ ps) = omega (arith, total-is_open g ps)
total-is_open g (closing ∷ ps) = omega (arith, total-is_open g ps)

Step-length : {g h : Gate} → Step g h → length h.threads ≡ length g.threads
Step-length {g} (call d) = length-map_place give g.threads
Step-length {g} (swap_first i s h f) = length-set g.threads i setup
Step-length {g} (swap_other i s h f) = length-set g.threads i (waiting s)
Step-length {g} (skip i h) = refl
Step-length {g} (release i h) =
    length-set (map raise g.threads) i encoding ∙ length-map_place raise g.threads
Step-length {g} (take i h) = length-set g.threads i encoding
Step-length {g} (capture_first i h f) = length-set g.threads i captured
Step-length {g} (capture_other i h f) = length-set g.threads i captured
Step-length {g} (finish i h f) = length-set g.threads i away
Step-length {g} (finish_last i h f) = length-set g.threads i closing
Step-length {g} (close i h) = length-set g.threads i away

length-all_away : (n : ℕ) → length (all_away n) ≡ n
length-all_away zero = refl
length-all_away (suc n) = ap suc (length-all_away n)

Reach-length : {n : ℕ} {g : Gate} → Reach n g → length g.threads ≡ n
Reach-length {n} here = length-all_away n
Reach-length (next r s) = Step-length s ∙ Reach-length r

-- While a frame is under way some thread can bring it nearer to its end.
pub progress : (g : Gate) → Phase g → 1 ≤ length g.threads → (g.done ≡ 1) ⊎ Nearer g
progress g (free a b c d) one = inl d
progress g (fresh a b c d) one =
    let (i, p, h, k) = find is_called g.threads (omega arith) in inr (fresh-Nearer g i p h k b)
progress g (setting a b c d e x y) one =
    let (i, p, h, k) = find is_setup g.threads (omega arith) in inr (setting-Nearer g i p h k)
progress g (opened a b c d e x) one =
    let (i, p, h, k) = find (is_open g) g.threads (omega (arith, total-is_open g g.threads)) in
    inr (open-Nearer g i p h k b (omega arith))
progress g (shared a b lt c d e x) one =
    let (i, p, h, k) = find (is_open g) g.threads (omega (arith, total-is_open g g.threads)) in
    inr (open-Nearer g i p h k c lt)
progress g (ending a b c d e x y) one =
    let (i, p, h, k) = find is_closing g.threads (omega arith) in inr (ending-Nearer g i p h k)

-- Steps that lead to the state `last`.
pub data Run (last : Gate) : Gate → Type 0 where
  stop : Run last last
  step : {g h : Gate} → Step g h → Run last h → Run last g

pub record IsCompleted (g : Gate) : Type 0 where
  pub last : Gate
  pub run : Run last g
  pub free : last.done ≡ 1

complete_within : (k : ℕ) {n : ℕ} (g : Gate) → 1 ≤ n → rank g ≤ k → Reach n g → IsCompleted g
complete_within zero g one low r =
    elim (progress g (Reach-Phase r) (omega (arith, Reach-length r))) [
      | inl d ↦ record { last = g; run = stop; free = d }
      | inr (nearer h s less) ↦ absurd (omega arith)
    ]
complete_within (suc k) g one low r =
    elim (progress g (Reach-Phase r) (omega (arith, Reach-length r))) [
      | inl d ↦ record { last = g; run = stop; free = d }
      | inr (nearer h s less) ↦
          let more = complete_within k h one (omega arith) (next r s) in
          record { last = more.last; run = step s more.run; free = more.free }
    ]

-- From every state that one thread or more can reach, the threads can complete the frame, so that
-- work_done can be taken.
pub frame_completes : {n : ℕ} {g : Gate} → 1 ≤ n → Reach n g → IsCompleted g
frame_completes {g = g} one r = complete_within (rank g) g one (omega arith) r
