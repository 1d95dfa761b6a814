-- ===== src/Screen/Queues.antt =====
-- The queues of the screens while a game runs: they stay bounded, and the screen that is asked
-- first can always pay.
use ntr_hr.Base.{
  ℕ, ◌+◌, ◌-◌, ◌*◌, ◌/◌, ◌^◌, ◌≤◌, ◌<◌, ◌≡◌, Bool, true, false, not, ◌&&◌, Option, none, some,
  arith, refl, Bool-cases, inl, inr, ◌⊎◌, ltb, leb, ◌==◌,
}
use native.Mathlib.Nat.{div-lt_iff_lt-mul, le-div_iff_mul-le, div-le_of_le-mul}
use ntr_hr.Base.Word.{u32}
use ntr_hr.Screen.Choose.{
  Screens, Config, Poll, Pass, leave, pick, again, of, put, same, scale_bits, prio, factor, refill,
  first_choice, spend, take_turn, turn_pass, take_any, can_dequeue, dequeue, pass, init,
}

pub record IsBounded (c : Config) : Type 0 where
  pub fixed : c.priority_factor_scaled ≡ c.priority_factor * 2 ^ 16
  pub some_factor : 1 ≤ c.priority_factor
  pub small : c.priority_factor < 2 ^ 8
  pub each : (s : Bool) → of c.frame_queues s ≤ prio c s + c.priority_factor_scaled

prio_cases : (c : Config) (s : Bool) → (prio c s ≡ 2 ^ 16) ⊎ (prio c s ≡ c.priority_factor_scaled)
unfolding prio
prio_cases c s = elim (Bool-cases (same s c.priority_is_top)) [
  | inl e ↦ inl (rw e refl)
  | inr e ↦ inr (rw e refl)
]

module _ (c : Config) (b : IsBounded c) where
  prio_bounds :
      (s : Bool)
      → (2 ^ 16 ≤ prio c s)
        × (prio c s ≤ 255 * 2 ^ 16)
        × (c.priority_factor_scaled ≤ 255 * prio c s)
  prio_bounds s = elim (prio_cases c s) [
    | inl e ↦ omega (arith, e, b.fixed, b.some_factor, b.small)
    | inr e ↦ omega (arith, e, b.fixed, b.some_factor, b.small)
  ]

  -- The factor is not cut, and it is below one exactly where the queue cannot pay.
  factor_lt : (s : Bool) → factor c s < 2 ^ 16 → of c.frame_queues s < prio c s
  unfolding factor
  factor_lt s h =
      let q = of c.frame_queues s in
      let (low, high, scaled) = prio_bounds s in
      let room : 2 ^ 16 * q ≤ 2 ^ 24 * prio c s = omega (arith, b.each s, scaled) in
      let whole : 2 ^ 16 * q / prio c s ≤ 2 ^ 24 =
        div-le_of_le-mul (prio c s) (omega (arith, room)) in
      let less =
        (div-lt_iff_lt-mul {k = prio c s} {x = 2 ^ 16 * q} {y = 2 ^ 16} (omega (arith, low))).0
          (omega (arith, whole)) in
      omega (arith, less)

  factor_ge : (s : Bool) → 2 ^ 16 ≤ factor c s → prio c s ≤ of c.frame_queues s
  unfolding factor
  factor_ge s h =
      let q = of c.frame_queues s in
      let (low, high, scaled) = prio_bounds s in
      let room : 2 ^ 16 * q ≤ 2 ^ 24 * prio c s = omega (arith, b.each s, scaled) in
      let whole : 2 ^ 16 * q / prio c s ≤ 2 ^ 24 =
        div-le_of_le-mul (prio c s) (omega (arith, room)) in
      let paid =
        (le-div_iff_mul-le {k = prio c s} {x = 2 ^ 16} {y = 2 ^ 16 * q} (omega (arith, low))).0
          (omega (arith, h)) in
      omega (arith, paid)

  abbrev both_short : Bool
  both_short = ltb (factor c false) (2 ^ scale_bits) && ltb (factor c true) (2 ^ scale_bits)

  short : both_short ≡ true → (s : Bool) → of c.frame_queues s < prio c s
  short e true = factor_lt true (ground (arith, e))
  short e false = factor_lt false (ground (arith, e))

  prio_pays : (s : Bool) → prio c s ≤ c.priority_factor_scaled
  prio_pays s = elim (prio_cases c s) [
    | inl e ↦ omega (arith, e, b.fixed, b.some_factor)
    | inr e ↦ omega (arith, e)
  ]

  abbrev filled : Config
  filled = record c {
    frame_queues = record {
      top = u32 (c.frame_queues.top + c.priority_factor_scaled);
      bottom = u32 (c.frame_queues.bottom + c.priority_factor_scaled);
    };
  }

  filled_queue :
      (s : Bool) → of filled.frame_queues s ≡ of c.frame_queues s + c.priority_factor_scaled
  filled_queue true =
      let (low, high, scaled) = prio_bounds true in
      omega (arith, b.each true, b.fixed, b.small, high)
  filled_queue false =
      let (low, high, scaled) = prio_bounds false in
      omega (arith, b.each false, b.fixed, b.small, high)

  prio_filled : (s : Bool) → prio filled s ≡ prio c s
  unfolding prio
  prio_filled s = refl

  pub refill-IsBounded : IsBounded (refill c)
  unfolding refill
  refill-IsBounded = elim (Bool-cases both_short) [
    | inl e ↦ rw e (record {
      fixed = b.fixed;
      some_factor = b.some_factor;
      small = b.small;
      each = λ s. omega (arith, short e s, filled_queue s, prio_filled s);
    })
    | inr e ↦ rw e b
  ]

  first_long : (is_top : Bool) → both_short ≡ false → 2 ^ 16 ≤ factor c (first_choice c is_top)
  unfolding first_choice
  first_long true e = elim (Bool-cases (leb (factor c false) (factor c true))) [
    | inl f ↦ rw f (ground (arith, e, f))
    | inr f ↦ rw f (ground (arith, e, f))
  ]
  first_long false e = elim (Bool-cases (leb (factor c true) (factor c false))) [
    | inl f ↦ rw f (ground (arith, e, f))
    | inr f ↦ rw f (ground (arith, e, f))
  ]

  -- The screen that is asked first can pay.
  pub first_pays :
      (is_top : Bool)
      → prio (refill c) (first_choice c is_top) ≤ of (refill c).frame_queues (first_choice c is_top)
  unfolding refill
  first_pays is_top =
      let s = first_choice c is_top in
      elim (Bool-cases both_short) [
        | inl e ↦ rw e (omega (arith, filled_queue s, prio_filled s, prio_pays s))
        | inr e ↦ rw e (factor_ge s (first_long is_top e))
      ]

-- What a round leaves is bounded again.
abbrev pub Keeps : Pass → Type 0
Keeps leave = Unit {0}
Keeps (pick is_top busy_wait no_skip c) = IsBounded c
Keeps (again is_top c) = IsBounded c

put_le : (s : Screens) (a b : Bool) (v : ℕ) → v ≤ of s a → of (put s a v) b ≤ of s b
put_le s true true v h = h
put_le s true false v h = omega arith
put_le s false true v h = omega arith
put_le s false false v h = h

lower-IsBounded :
    (c : Config) (s : Bool) (v : ℕ)
    → IsBounded c
    → v ≤ of c.frame_queues s
    → IsBounded (record c { frame_queues = put c.frame_queues s v })
unfolding prio
lower-IsBounded c s v b h = record {
  fixed = b.fixed;
  some_factor = b.some_factor;
  small = b.small;
  each = λ a. omega (arith, put_le c.frame_queues s a v h, b.each a);
}

spend-IsBounded : (c : Config) (s : Bool) (n : ℕ) → IsBounded c → IsBounded (spend c s n)
spend-IsBounded c s n b = lower-IsBounded c s (of c.frame_queues s - n) b (omega arith)

take_any-Keeps :
    (c : Config) (is_top : Bool) (any : Option Bool) → IsBounded c → Keeps (take_any c is_top any)
unfolding take_any
take_any-Keeps c is_top none b = b
take_any-Keeps c is_top (some s) b = elim (Bool-cases (leb (prio c s) (of c.frame_queues s))) [
  | inl e ↦ rw e (spend-IsBounded c s (prio c s) b)
  | inr e ↦ rw e (lower-IsBounded c s 0 b (omega arith))
]

dequeue-Keeps : (c : Config) (p : Poll) (is_top : Bool) → IsBounded c → Keeps (dequeue c p is_top)
unfolding dequeue
dequeue-Keeps c p is_top b = elim (Bool-cases (can_dequeue c p is_top)) [
  | inl e ↦ rw e (spend-IsBounded c is_top (prio c is_top) b)
  | inr e ↦ elim (Bool-cases (can_dequeue c p (not is_top))) [
    | inl f ↦ rw (e, f) (spend-IsBounded c (not is_top) (prio c (not is_top)) b)
    | inr f ↦ rw (e, f) (take_any-Keeps c is_top p.any b)
  ]
]

counts-IsBounded :
    (c : Config) (n : Screens) → IsBounded c → IsBounded (record c { frame_counts = n })
unfolding prio
counts-IsBounded c n b = record {
  fixed = b.fixed;
  some_factor = b.some_factor;
  small = b.small;
  each = b.each;
}

turn-Keeps : (c : Config) (is_top : Bool) → IsBounded c → Keeps (turn_pass (take_turn c is_top))
unfolding take_turn turn_pass
turn-Keeps c is_top b =
    let some_factor : (c.priority_factor == 0) ≡ false = ground (arith, b.some_factor) in
    elim (Bool-cases (leb c.priority_factor (of c.frame_counts is_top))) [
      | inl e ↦ rw (some_factor, e) (counts-IsBounded c _ b)
      | inr e ↦ rw (some_factor, e) (counts-IsBounded c _ b)
    ]

-- Whatever a round finds, bounded queues stay bounded: each holds at most what its screen costs and
-- a refill, so that no sum wraps. The priority factor is from 1 to 255.
pub pass-Keeps : (c : Config) (p : Poll) (is_top : Bool) → IsBounded c → Keeps (pass c p is_top)
unfolding pass dequeue can_dequeue
pass-Keeps c p is_top b =
    let some_factor : (c.priority_factor == 0) ≡ false = ground (arith, b.some_factor) in
    elim (Bool-cases p.stops) [
      | inl e ↦ rw e tt
      | inr e ↦ elim (Bool-cases (p.game_pid == 0)) [
        | inl f ↦ rw (e, f) (turn-Keeps c is_top b)
        | inr f ↦ elim (Bool-cases (leb c.frame_timing_allowance (u32 p.elapsed))) [
          | inl g ↦ rw (e, f, g) b
          | inr g ↦
              rw (e, f, g, some_factor)
                (dequeue-Keeps (refill c) p (first_choice c is_top) (refill-IsBounded c b))
        ]
      ]
    ]

-- While a game runs, and in time, the screen with the greater factor is captured at once if it is
-- ready, and its queue pays for it in full; the queues are bounded when the round begins, and the
-- priority factor is from 1 to 255.
pub pass_first :
    (c : Config) (p : Poll) (is_top : Bool)
    → IsBounded c
    → p.stops ≡ false
    → 0 < p.game_pid
    → u32 p.elapsed < c.frame_timing_allowance
    → p.ready (first_choice c is_top) ≡ true
    → (let s = first_choice c is_top in
        (pass c p is_top ≡ pick s false false (spend (refill c) s (prio (refill c) s)))
        × (prio (refill c) s ≤ of (refill c).frame_queues s))
unfolding pass dequeue can_dequeue
pass_first c p is_top b e game early ready =
    let s = first_choice c is_top in
    let some_factor : (c.priority_factor == 0) ≡ false = ground (arith, b.some_factor) in
    let f : (p.game_pid == 0) ≡ false = ground arith in
    let g : leb c.frame_timing_allowance (u32 p.elapsed) ≡ false = ground arith in
    let pays = first_pays c b is_top in
    let k : leb (prio (refill c) s) (of (refill c).frame_queues s) ≡ true = ground (arith, pays) in
    (rw (e, f, g, some_factor, k, ready) refl, pays)

init_queue :
    (mode allowance : ℕ) (s : Bool)
    → of (init mode allowance).frame_queues s
      ≤ prio (init mode allowance) s + (init mode allowance).priority_factor_scaled
unfolding init
init_queue mode allowance true = omega arith
init_queue mode allowance false = omega arith

-- The queues of the start.
pub init-IsBounded :
    (mode allowance : ℕ)
    → 1 ≤ (init mode allowance).priority_factor
    → IsBounded (init mode allowance)
unfolding init prio
init-IsBounded mode allowance h = record {
  fixed = refl;
  some_factor = h;
  small = omega arith;
  each = λ s. init_queue mode allowance s;
}
