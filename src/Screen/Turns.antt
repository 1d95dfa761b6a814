-- ===== src/Screen/Turns.antt =====
-- The screens' shares of the captured frames.
use ntr_hr.Base.{
  ℕ, suc, ◌+◌, ◌-◌, ◌*◌, ◌^◌, ◌≤◌, ◌<◌, ◌≡◌, Bool, true, false, not, List, [], ◌∷◌, arith, refl,
  ◌∙◌, Bool-cases, inl, inr, ◌⊎◌, leb, ◌==◌, if◌then◌else◌, length, All,
}
use ntr_hr.Base.Word.{u32}
use ntr_hr.Screen.Choose.{
  Screens, Config, Poll, Pass, leave, pick, again, of, put, take_turn, turn_pass, pass, next_round,
  rounds, choose_screen, same,
}

-- No game runs, and nothing is reset.
pub record IsQuiet (p : Poll) : Type 0 where
  pub runs : p.stops ≡ false
  pub no_game : p.game_pid ≡ 0

abbrev pub counted : Config → ℕ
counted c = of c.frame_counts c.priority_is_top

-- The frames of the other screen in a run of calls, and the configuration behind it.
unfoldable pub other_frames : Pass → (Config → ℕ × Config) → Config → ℕ × Config
other_frames leave more c = (0, c)
other_frames (again is_top c') more c = (0, c')
other_frames (pick is_top busy_wait no_skip c') more c =
    let (n, c'') = more c' in ((if same is_top c.priority_is_top then n else suc n), c'')

-- Calls of do_screen, one for each poll, that all succeed in their first round.
unfoldable pub calls : List Poll → Config → ℕ × Config
calls [] c = (0, c)
calls (p ∷ polls) c = other_frames (choose_screen (p ∷ []) c) (calls polls) c

of_put : (s : Screens) (b : Bool) (v : ℕ) → of (put s b v) b ≡ v
of_put s true v = refl
of_put s false v = refl

same_self : (b : Bool) → same b b ≡ true
same_self true = refl
same_self false = refl

same_not : (b : Bool) → same (not b) b ≡ false
same_not true = refl
same_not false = refl

choose-take_turn :
    (c : Config) (p : Poll)
    → IsQuiet p
    → choose_screen (p ∷ []) c ≡ next_round (turn_pass (take_turn c c.priority_is_top)) (rounds [])
unfolding choose_screen rounds pass
choose-take_turn c p q =
    let e : (p.game_pid == 0) ≡ true = ground (arith, q.no_game) in rw (q.runs, e) refl

-- A call without a game picks the priority screen and counts it, or the other one, which the
-- counted ones pay for.
record Turn (c : Config) (p : Poll) : Type 0 where
  screen : Bool
  after : Config
  picked : choose_screen (p ∷ []) c ≡ pick screen true false after
  factor : after.priority_factor ≡ c.priority_factor
  top : after.priority_is_top ≡ c.priority_is_top
  count :
      ((same screen c.priority_is_top ≡ true)
        × (counted after ≡ counted c + 1)
        × (counted c < c.priority_factor))
      ⊎ ((same screen c.priority_is_top ≡ false) × (counted after + c.priority_factor ≡ counted c))

turn :
    (c : Config) (p : Poll)
    → IsQuiet p
    → 1 ≤ c.priority_factor
    → c.priority_factor < 2 ^ 8
    → Turn c p
unfolding take_turn turn_pass next_round
turn c p q one small =
    let some_factor : (c.priority_factor == 0) ≡ false = ground arith in
    elim (Bool-cases (leb c.priority_factor (counted c))) [
      | inl e ↦ record {
        screen = not c.priority_is_top;
        after = record c {
          frame_counts = put c.frame_counts c.priority_is_top (counted c - c.priority_factor);
        };
        picked = choose-take_turn c p q ∙ rw (some_factor, e) refl;
        factor = refl;
        top = refl;
        count = inr (
          same_not c.priority_is_top,
          ground
              (arith, e, of_put c.frame_counts c.priority_is_top (counted c - c.priority_factor)),
        );
      }
      | inr e ↦ record {
        screen = c.priority_is_top;
        after = record c {
          frame_counts = put c.frame_counts c.priority_is_top (u32 (counted c + 1));
        };
        picked = choose-take_turn c p q ∙ rw (some_factor, e) refl;
        factor = refl;
        top = refl;
        count = inl (
          same_self c.priority_is_top,
          ground (arith, e, of_put c.frame_counts c.priority_is_top (u32 (counted c + 1))),
          ground (arith, e),
        );
      }
    ]

more_others : (k n : ℕ) → (k + 1) * suc n ≡ (k + 1) * n + k + 1
more_others k n = grind arith

-- What a run of calls leaves: of `k + 1` calls in a row one is for the other screen, up to the
-- count, which stays at most `k`.
pub record Shares (k calls count : ℕ) (r : ℕ × Config) : Type 0 where
  pub shares : calls + count ≡ counted r.1 + (k + 1) * r.0
  pub low : counted r.1 ≤ k

module _ (k : ℕ) (one : 1 ≤ k) (small : k < 2 ^ 8) where
  -- While no game runs, the calls for the other screen are one in `k + 1`, for a priority factor
  -- of `k` from 1 to 255: `n` calls and the count before are the count after, which is at most
  -- `k`, and `k + 1` for each call for the other screen.
  pub calls-Shares :
      (polls : List Poll) (c : Config)
      → All IsQuiet polls
      → c.priority_factor ≡ k
      → counted c ≤ k
      → Shares k (length polls) (counted c) (calls polls c)
  unfolding calls other_frames
  calls-Shares [] c quiet e low = record { shares = omega arith; low = low }
  calls-Shares (p ∷ polls) c quiet e low =
      let t = turn c p quiet.0 (omega arith) (omega arith) in
      let ih = calls-Shares polls t.after quiet.1 (t.factor ∙ e) in
      rw t.picked (elim t.count [
        | inl (prio, count, below) ↦
            let s = ih (omega (arith, count)) in
            rw prio (record { shares = omega (arith, s.shares, count); low = s.low })
        | inr (other, count) ↦
            let s = ih (omega (arith, count)) in
            rw other (record {
              shares = omega (arith, s.shares, count, more_others k (calls polls t.after).0);
              low = s.low;
            })
      ])
