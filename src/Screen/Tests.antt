-- ===== src/Screen/Tests.antt =====
-- The screens' turns and queues on small inputs.
use ntr_hr.Base.{◌≡◌, ◌≤◌, refl, true, false, none, [], ◌∷◌, arith, ℕ}
use ntr_hr.Screen.Choose.{Poll, pick, init, pass, first_choice, refill, spend, prio, of}
use ntr_hr.Screen.Turns.{Shares, counted, calls, calls-Shares}
use ntr_hr.Screen.Queues.{IsBounded, Keeps, pass-Keeps, pass_first, init-IsBounded}

-- The top screen has priority, with a factor of 2.
abbrev mode : ℕ
mode = 0x102

abbrev quiet : Poll
quiet = record {
  stops = false;
  game_pid = 0;
  elapsed = 0;
  waited = false;
  ready = λ s. false;
  any = none;
}

abbrev game : Poll
game = record {
  stops = false;
  game_pid = 7;
  elapsed = 5;
  waited = false;
  ready = λ s. true;
  any = none;
}

calls-Shares_example :
    Shares 2 3 (counted (init mode 100)) (calls (quiet ∷ quiet ∷ quiet ∷ []) (init mode 100))
unfolding init
calls-Shares_example =
    calls-Shares 2 (omega arith) (omega arith) (quiet ∷ quiet ∷ quiet ∷ []) (init mode 100)
      (
        record { runs = refl; no_game = refl },
        (record { runs = refl; no_game = refl }, (record { runs = refl; no_game = refl }, tt)),
      )
      refl (omega arith)

mode-IsBounded : IsBounded (init mode 100)
unfolding init
mode-IsBounded = init-IsBounded mode 100 (omega arith)

pass-Keeps_example : Keeps (pass (init mode 100) game true)
pass-Keeps_example = pass-Keeps (init mode 100) game true mode-IsBounded

pass_first_example :
    (pass (init mode 100) game true
      ≡ pick (first_choice (init mode 100) true) false false (
          spend
            (refill (init mode 100))
            (first_choice (init mode 100) true)
            (prio (refill (init mode 100)) (first_choice (init mode 100) true))))
    × (prio (refill (init mode 100)) (first_choice (init mode 100) true)
        ≤ of (refill (init mode 100)).frame_queues (first_choice (init mode 100) true))
unfolding init
pass_first_example =
    pass_first (init mode 100) game true mode-IsBounded refl (omega arith) (omega arith) refl
