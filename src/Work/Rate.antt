-- ===== src/Work/Rate.antt =====
-- The limit on the frame rate holds in the long run.
use ntr_hr.Base.{
  ℕ, ◌+◌, ◌-◌, ◌*◌, ◌/◌, ◌^◌, ◌≤◌, ◌<◌, ◌≡◌, true, false, not, ◌&&◌, List, [], ◌∷◌, some, arith,
  refl, Bool-cases, inl, inr, leb, ltb, sym, ◌∙◌,
}
use ntr_hr.Base.Word.{u32, sub32}
use ntr_hr.Work.Pace.{
  FrameClock, Limits, Captured, fps_of, frame_time_limit, too_early, skip_frame, average_time,
  frame_release, after_skip, frames,
}

frame_time_limit_bounds : (k : ℕ) → (1 ≤ frame_time_limit k) × (frame_time_limit k < 2 ^ 28)
unfolding frame_time_limit fps_of
frame_time_limit_bounds k = ground arith

-- What a frame takes over the limit, and what the average has over it, never go down together.
pub average_time_pays :
    (limit cur t : ℕ)
    → cur < 2 ^ 31
    → t < 2 ^ 31
    → limit ≤ (cur + t) / 2
    → limit + (average_time cur t - limit) ≤ t + (cur - limit)
unfolding average_time
average_time_pays limit cur t a b h = ground arith

average_time_bound : (cur t : ℕ) → cur < 2 ^ 31 → t < 2 ^ 31 → average_time cur t < 2 ^ 31
unfolding average_time
average_time_bound cur t a b = ground arith

-- An attempt either leaves the frame out and the clock's times alone, soon after the last frame,
-- or sends it, not too early.
pub data Outcome (l : Limits) (a : Captured) (s : FrameClock) (last : ℕ) : Type 0 where
  skipped :
      (after : FrameClock)
      → after_skip a (skip_frame l a s) ≡ (0, after)
      → after.last_timing ≡ s.last_timing
      → after.frame_time ≡ s.frame_time
      → a.tick ≤ last + 2 ^ 30
      → Outcome l a s last
  sent :
      (after : FrameClock)
      → after_skip a (skip_frame l a s) ≡ (1, after)
      → after.last_timing ≡ u32 a.tick
      → after.frame_time ≡ average_time s.frame_time (a.tick - last)
      → frame_time_limit l.fps_limit ≤ (s.frame_time + (a.tick - last)) / 2
      → Outcome l a s last

module _ (l : Limits) (a : Captured) (s : FrameClock) (last : ℕ) (known : u32 last ≡ s.last_timing)
    (later : last ≤ a.tick) (near : a.tick ≤ last + 2 ^ 30 + 2 ^ 29) (small : s.frame_time < 2 ^ 31)
    (limited : 0 < l.fps_limit) (soon : l.allowance ≤ 2 ^ 28) where
  frame_time_lem : sub32 (u32 a.tick) s.last_timing ≡ a.tick - last
  frame_time_lem = omega arith

  not_early :
      too_early l.fps_limit s.frame_time (a.tick - last) ≡ false
      → frame_time_limit l.fps_limit ≤ (s.frame_time + (a.tick - last)) / 2
  unfolding too_early
  not_early e = ground arith

  early_soon : too_early l.fps_limit s.frame_time (a.tick - last) ≡ true → a.tick ≤ last + 2 ^ 30
  unfolding too_early
  early_soon e = ground (arith, frame_time_limit_bounds l.fps_limit)

  goes :
      (s' : FrameClock)
      → s'.frame_time ≡ s.frame_time
      → skip_frame l a s ≡ (some (a.tick - last), s')
      → frame_time_limit l.fps_limit ≤ (s.frame_time + (a.tick - last)) / 2
      → Outcome l a s last
  unfolding after_skip frame_release
  goes s' same e late =
      sent (frame_release (u32 a.tick) (a.tick - last) s') (rw e refl) refl (rw same refl) late

  outcome_late : too_early l.fps_limit s.frame_time (a.tick - last) ≡ false → Outcome l a s last
  unfolding skip_frame after_skip
  outcome_late e = elim (Bool-cases (ltb 0 l.no_skip_frame)) [
    | inl f ↦ goes s refl (rw (frame_time_lem, e, f) refl) (not_early e)
    | inr f ↦ elim (Bool-cases (leb l.allowance (a.tick - last))) [
      | inl g ↦
          goes (record s { no_skip = true }) refl (rw (frame_time_lem, e, f, g) refl) (not_early e)
      | inr g ↦ elim (Bool-cases (not s.no_skip && (not a.format_changed && not a.frame_changed))) [
        | inl d ↦ skipped s (rw (frame_time_lem, e, f, g, d) refl) refl refl (ground (arith, g))
        | inr d ↦ goes s refl (rw (frame_time_lem, e, f, g, d) refl) (not_early e)
      ]
    ]
  ]

  pub outcome : Outcome l a s last
  unfolding skip_frame after_skip
  outcome = elim (Bool-cases (too_early l.fps_limit s.frame_time (a.tick - last))) [
    | inl e ↦ skipped s (rw (frame_time_lem, e) refl) refl refl (early_soon e)
    | inr e ↦ outcome_late e
  ]

-- Pictures are captured in time, from `tick` on, at most two seconds apart.
abbrev pub IsSpaced : ℕ → List Captured → Type 0
IsSpaced tick [] = Unit
IsSpaced tick (a ∷ rest) = (tick ≤ a.tick) × (a.tick ≤ tick + 2 ^ 29) × IsSpaced a.tick rest

-- The tick of the last picture.
abbrev pub end : ℕ → List Captured → ℕ
end tick [] = tick
end tick (a ∷ rest) = end a.tick rest

end_le : (tick : ℕ) (captured : List Captured) → IsSpaced tick captured → tick ≤ end tick captured
end_le tick [] h = omega arith
end_le tick (a ∷ rest) h = omega (arith, h.0, end_le a.tick rest h.2)

one_more : (n limit : ℕ) → (1 + n) * limit ≡ limit + n * limit
one_more n limit = grind arith

none_more : (n limit : ℕ) → (0 + n) * limit ≡ n * limit
none_more n limit = grind arith

-- With a limit on the rate, the frames that go out of a run of pictures take at least the limit's
-- time each, but for what the average was over the limit when the run began; `last` is the tick of
-- the frame before, up to two seconds ago, and pictures are at most two seconds apart.
pub frames_rate :
    (l : Limits) (captured : List Captured) (s : FrameClock) (last tick : ℕ)
    → 0 < l.fps_limit
    → l.allowance ≤ 2 ^ 28
    → u32 last ≡ s.last_timing
    → last ≤ tick
    → tick ≤ last + 2 ^ 30
    → s.frame_time < 2 ^ 31
    → IsSpaced tick captured
    → (frames l captured s).0 * frame_time_limit l.fps_limit
      ≤ (end tick captured - last) + (s.frame_time - frame_time_limit l.fps_limit)
unfolding frames
frames_rate l [] s last tick limited soon known le near small h = omega arith
frames_rate l (a ∷ rest) s last tick limited soon known le near small h =
    elim (outcome l a s last known (omega (arith, h.0)) (omega (arith, h.1)) small limited soon) [
      | skipped after e timing time close ↦
          let limit = frame_time_limit l.fps_limit in
          rw e (
            omega (
              arith,
              none_more (frames l rest after).0 limit,
              time,
              frames_rate l rest after last a.tick limited soon (known ∙ sym timing)
                  (omega (arith, h.0)) close (omega (arith, time)) h.2,
            ))
      | sent after e timing time late ↦
          let limit = frame_time_limit l.fps_limit in
          let spent : a.tick - last < 2 ^ 31 = omega (arith, h.1) in
          rw e (
            omega (
              arith,
              one_more (frames l rest after).0 limit,
              time,
              h.0,
              end_le a.tick rest h.2,
              average_time_pays limit s.frame_time (a.tick - last) small spent late,
              frames_rate l rest after a.tick a.tick limited soon (sym timing) (omega arith)
                  (omega arith)
                  (omega (arith, time, average_time_bound s.frame_time (a.tick - last) small spent))
                  h.2,
            ))
    ]
