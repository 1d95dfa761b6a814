-- ===== src/Net/Pace.antt =====
-- The clock of the sender, on u32 ticks that wrap: do_send_next_buffer, and the last part of
-- rp_output. MIN_SEND_INTERVAL_TICK is the argument `interval`.
use ntr_hr.Base.{
  ℕ, ◌+◌, ◌*◌, ◌/◌, ◌^◌, ◌≤◌, ◌<◌, ◌≡◌, Bool, ◌&&◌, ltb, if◌then◌else◌, max, List, [], ◌∷◌, refl,
  ap, arith, ◌∙◌,
}
use ntr_hr.Base.Word.{u32, sub32}
use ntr_hr.Consts.{packet_size}

-- `next as s32 - curr as s32 > 0`.
unfoldable pub tick_ahead : ℕ → ℕ → Bool
tick_ahead next curr = ltb 0 (sub32 next curr) && ltb (sub32 next curr) (2 ^ 31)

-- The tick that a packet is sent with; the code first sleeps up to a `next` that is ahead.
unfoldable pub send_tick : ℕ → ℕ → ℕ
send_tick next curr = if tick_ahead next curr then next else curr

-- RP_OUTPUT_NEXT_TICK after a packet of `size` bytes that is sent with `tick`.
unfoldable pub next_tick : ℕ → ℕ → ℕ → ℕ
next_tick interval size tick = u32 (tick + u32 (interval * size) / packet_size)

-- The tick of the last of a run of packets, where the first is sent with `tick`: each entry is a
-- packet's size, and the clock when the next one is due.
unfoldable pub paced : ℕ → ℕ → List (ℕ × ℕ) → ℕ
paced interval tick [] = tick
paced interval tick ((size, clock) ∷ rest) =
    paced interval (send_tick (next_tick interval size tick) (u32 clock)) rest

-- The same with a clock that does not wrap: a packet goes out behind the share of the one before, or
-- at the clock where that is later.
abbrev pub share : ℕ → ℕ → ℕ
share interval size = interval * size / packet_size

unfoldable pub due : ℕ → ℕ → List (ℕ × ℕ) → ℕ
due interval tick [] = tick
due interval tick ((size, clock) ∷ rest) =
    due interval (max (tick + share interval size) clock) rest

unfoldable pub shares : ℕ → List (ℕ × ℕ) → ℕ
shares interval [] = 0
shares interval ((size, clock) ∷ rest) = share interval size + shares interval rest

-- The products are u32, and the clock is within half its range of the packet's share.
abbrev pub IsNear : ℕ → ℕ → List (ℕ × ℕ) → Type 0
IsNear interval tick [] = Unit
IsNear interval tick ((size, clock) ∷ rest) =
    (interval * size < 2 ^ 32)
    × (clock < tick + share interval size + 2 ^ 31)
    × (tick + share interval size < clock + 2 ^ 31)
    × IsNear interval (max (tick + share interval size) clock) rest

send_tick-max :
    (tick clock : ℕ)
    → clock < tick + 2 ^ 31
    → tick < clock + 2 ^ 31
    → send_tick (u32 tick) (u32 clock) ≡ u32 (max tick clock)
unfolding send_tick tick_ahead
send_tick-max tick clock h k = ground arith

next_tick-share :
    (interval size tick : ℕ)
    → interval * size < 2 ^ 32
    → next_tick interval size (u32 tick) ≡ u32 (tick + share interval size)
unfolding next_tick
next_tick-share interval size tick small =
    let e : u32 (interval * size) ≡ interval * size = omega arith in rw e (omega arith)

due-shares :
    (interval tick : ℕ) (run : List (ℕ × ℕ)) → tick + shares interval run ≤ due interval tick run
unfolding due shares
due-shares interval tick [] = omega arith
due-shares interval tick ((size, clock) ∷ rest) =
    omega (arith, due-shares interval (max (tick + share interval size) clock) rest)

-- Over a run of packets the wrapping ticks are those of a clock that does not wrap: each packet's
-- tick is behind the one before by that one's share of the interval, or at the clock where that is
-- later, so that the last is behind the first by the shares of all packets before it at least. The
-- interval times a packet's size is a u32, and the clock never is half its range from a packet's tick.
pub paced-due :
    (interval tick : ℕ) (run : List (ℕ × ℕ))
    → IsNear interval tick run
    → (paced interval (u32 tick) run ≡ u32 (due interval tick run))
      × (tick + shares interval run ≤ due interval tick run)
unfolding paced due
paced-due interval tick [] near = (refl, due-shares interval tick [])
paced-due interval tick ((size, clock) ∷ rest) (small, after, before, near) = (
  ap (λ t. paced interval t rest)
        (ap (λ t. send_tick t (u32 clock)) (next_tick-share interval size tick small)
          ∙ send_tick-max (tick + share interval size) clock after before)
      ∙ (paced-due interval (max (tick + share interval size) clock) rest near).0,
  due-shares interval tick ((size, clock) ∷ rest),
)
