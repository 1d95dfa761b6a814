-- ===== src/Screen/Choose.antt =====
-- Which screen is captured next: the loop of do_screen in entries/thread_screen/safe_impl.rs.
use ntr_hr.Base.{
  ℕ, ◌+◌, ◌-◌, ◌*◌, ◌/◌, ◌%◌, ◌^◌, Bool, true, false, not, ◌&&◌, List, [], ◌∷◌, Option, none, some,
  ltb, leb, ◌==◌, if◌then◌else◌,
}
use ntr_hr.Base.Word.{u32}

abbrev pub scale_bits : ℕ
scale_bits = 16

-- A number for each screen, as FrameCounts and FrameQueues.
pub record Screens : Type 0 where
  pub top : ℕ
  pub bottom : ℕ

abbrev pub of : Screens → Bool → ℕ
of s is_top = if is_top then s.top else s.bottom

abbrev pub put : Screens → Bool → ℕ → Screens
put s is_top v = if is_top then record s { top = v } else record s { bottom = v }

pub record Config : Type 0 where
  pub priority_is_top : Bool
  pub priority_factor : ℕ
  pub priority_factor_scaled : ℕ
  pub frame_counts : Screens
  pub frame_queues : Screens
  pub frame_timing_allowance : ℕ

-- `fix` of a whole number is exact.
unfoldable pub init : (mode allowance : ℕ) → Config
init mode allowance =
    let factor = mode % 2 ^ 8 in
    record {
      priority_is_top = ltb 0 (mode / 2 ^ 8 % 2 ^ 8);
      priority_factor = factor;
      priority_factor_scaled = factor * 2 ^ scale_bits;
      frame_counts = record { top = 1; bottom = 1 };
      frame_queues = record { top = factor * 2 ^ scale_bits; bottom = factor * 2 ^ scale_bits };
      frame_timing_allowance = allowance;
    }

-- What a round of the loop finds: a reset, the game's process, the ticks since the call, and the
-- answers of screen_port_sync with and without a wait, and of screens_ports_sync.
pub record Poll : Type 0 where
  pub stops : Bool
  pub game_pid : ℕ
  pub elapsed : ℕ
  pub waited : Bool
  pub ready : Bool → Bool
  pub any : Option Bool

-- A round leaves the function, the loop with a screen (and whether it waits for the blank, and
-- keeps the frame from being skipped), or neither.
pub data Pass : Type 0 where
  leave : Pass
  pick : (is_top busy_wait no_skip : Bool) → Config → Pass
  again : (is_top : Bool) → Config → Pass

-- Without a game the screens take turns by their counts.
unfoldable pub take_turn : Config → Bool → Bool × Config
take_turn c is_top =
    if c.priority_factor == 0
    then (is_top, c)
    else if leb c.priority_factor (of c.frame_counts is_top)
    then (
      not is_top,
      record c {
        frame_counts = put c.frame_counts is_top (of c.frame_counts is_top - c.priority_factor);
      },
    )
    else (
      is_top,
      record c { frame_counts = put c.frame_counts is_top (u32 (of c.frame_counts is_top + 1)) },
    )

abbrev pub same : Bool → Bool → Bool
same a b = if a then b else not b

unfoldable pub prio : Config → Bool → ℕ
prio c s = if same s c.priority_is_top then 2 ^ scale_bits else c.priority_factor_scaled

unfoldable pub factor : Config → Bool → ℕ
factor c s = u32 (2 ^ scale_bits * of c.frame_queues s / prio c s)

unfoldable pub refill : Config → Config
refill c =
    if ltb (factor c false) (2 ^ scale_bits) && ltb (factor c true) (2 ^ scale_bits)
    then record c {
      frame_queues = record {
        top = u32 (c.frame_queues.top + c.priority_factor_scaled);
        bottom = u32 (c.frame_queues.bottom + c.priority_factor_scaled);
      };
    }
    else c

-- The screen that is asked first, by the factors from before the refill.
unfoldable pub first_choice : Config → Bool → Bool
first_choice c is_top = if leb (factor c (not is_top)) (factor c is_top) then is_top else not is_top

abbrev pub spend : Config → Bool → ℕ → Config
spend c s n = record c { frame_queues = put c.frame_queues s (of c.frame_queues s - n) }

-- Behind a failed try for both screens.
unfoldable pub take_any : Config → Bool → Option Bool → Pass
take_any c is_top none = again is_top c
take_any c is_top (some s) = pick s false false (
    if leb (prio c s) (of c.frame_queues s)
    then spend c s (prio c s)
    else record c { frame_queues = put c.frame_queues s 0 })

unfoldable pub can_dequeue : Config → Poll → Bool → Bool
can_dequeue c p s = leb (prio c s) (of c.frame_queues s) && p.ready s

unfoldable pub dequeue : Config → Poll → Bool → Pass
dequeue c p is_top =
    if can_dequeue c p is_top
    then pick is_top false false (spend c is_top (prio c is_top))
    else if can_dequeue c p (not is_top)
    then pick (not is_top) false false (spend c (not is_top) (prio c (not is_top)))
    else take_any c is_top p.any

unfoldable pub turn_pass : Bool × Config → Pass
turn_pass (is_top, c) = pick is_top true false c

unfoldable pub pass : Config → Poll → Bool → Pass
pass c p is_top =
    if p.stops
    then leave
    else if p.game_pid == 0
    then turn_pass (take_turn c is_top)
    else if leb c.frame_timing_allowance (u32 p.elapsed)
    then pick is_top true true c
    else if c.priority_factor == 0
    then (if p.waited then pick is_top false false c else again is_top c)
    else dequeue (refill c) p (first_choice c is_top)

unfoldable pub next_round : Pass → (Config → Bool → Pass) → Pass
next_round leave more = leave
next_round (pick is_top busy_wait no_skip c) more = pick is_top busy_wait no_skip c
next_round (again is_top c) more = more c is_top

-- The loop, over as many rounds as there are polls: `again` where these run out.
unfoldable pub rounds : List Poll → Config → Bool → Pass
rounds [] c is_top = again is_top c
rounds (p ∷ polls) c is_top = next_round (pass c p is_top) (rounds polls)

unfoldable pub choose_screen : List Poll → Config → Pass
choose_screen polls c = rounds polls c c.priority_is_top
