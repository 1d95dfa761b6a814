-- ===== src/Work/Gate.antt =====
-- The threads of one work: the flag, the semaphores and the counter that work_ready_acquire,
-- work_ready_release, WorkOtherReady::acquire, capture_screen and WorkRet::drop of
-- entries/work_thread/vars.rs share, with thread_ready_release and work_done_acquire of
-- entries/thread_screen/vars.rs. What a thread does at the other work in between is not seen here.
use ntr_hr.Base.{
  ℕ, zero, suc, ◌+◌, ◌<◌, ◌≡◌, Bool, true, false, List, [], ◌∷◌, some, map, length, set, get_elem?,
}

-- Where a thread stands in a frame of the work; `called` lasts up to the swap of work_ready_flag. The
-- flag of `called` and `waiting` is its work_ready semaphore.
pub data Place : Type 0 where
  away : Place  -- behind its last frame of the work
  called : Bool → Place  -- thread_ready is released to it; it may still be at the other work
  setup : Place  -- it has the frame's set-up, up to work_ready_release
  waiting : Bool → Place  -- in WorkOtherReady::acquire
  encoding : Place  -- before its capture_screen
  captured : Place  -- behind it, before WorkRet::drop
  closing : Place  -- in WorkRet::drop, as the last one

pub record Gate : Type 0 where
  pub threads : List Place
  -- work_ready_flag, work_done_count and should_capture of the work
  pub flag : Bool
  pub count : ℕ
  pub should_capture : Bool
  -- the count of the work_done semaphore
  pub done : ℕ
  -- the captures of the next picture that this frame has started
  pub captures : ℕ

abbrev pub give : Place → Place
give away = called false
give p = p

-- release_sem on work_ready.
abbrev pub raise : Place → Place
raise (called s) = called true
raise (waiting s) = waiting true
raise p = p

abbrev pub move : Gate → ℕ → Place → List Place
move g i p = set g.threads i p

pub data Step (g : Gate) : Gate → Type 0 where
  -- The screen thread takes work_done and releases thread_ready to all threads.
  call : g.done ≡ 1 → Step g (record g { threads = map give g.threads; done = 0 })
  swap_first :
      (i : ℕ) (s : Bool)
      → get_elem? g.threads i ≡ some (called s)
      → g.flag ≡ false
      → Step g
          (record g { threads = move g i setup; flag = true; should_capture = false; captures = 0 })
  swap_other :
      (i : ℕ) (s : Bool)
      → get_elem? g.threads i ≡ some (called s)
      → g.flag ≡ true
      → Step g (record g { threads = move g i (waiting s) })
  -- A frame that is skipped is captured again for the thread that has the set-up.
  skip : (i : ℕ) → get_elem? g.threads i ≡ some setup → Step g g
  -- work_ready_release, for all threads but the thread itself.
  release :
      (i : ℕ)
      → get_elem? g.threads i ≡ some setup
      → Step g (record g { threads = set (map raise g.threads) i encoding })
  take :
      (i : ℕ)
      → get_elem? g.threads i ≡ some (waiting true)
      → Step g (record g { threads = move g i encoding })
  capture_first :
      (i : ℕ)
      → get_elem? g.threads i ≡ some encoding
      → g.should_capture ≡ false
      → Step g (record g {
        threads = move g i captured;
        should_capture = true;
        captures = g.captures + 1;
      })
  capture_other :
      (i : ℕ)
      → get_elem? g.threads i ≡ some encoding
      → g.should_capture ≡ true
      → Step g (record g { threads = move g i captured })
  finish :
      (i : ℕ)
      → get_elem? g.threads i ≡ some captured
      → g.count + 1 < length g.threads
      → Step g (record g { threads = move g i away; count = g.count + 1 })
  finish_last :
      (i : ℕ)
      → get_elem? g.threads i ≡ some captured
      → g.count + 1 ≡ length g.threads
      → Step g (record g { threads = move g i closing; count = g.count + 1 })
  -- The stores of WorkRet::drop and the release of work_done, which the others wait for.
  close :
      (i : ℕ)
      → get_elem? g.threads i ≡ some closing
      → Step g (record g { threads = move g i away; count = 0; flag = false; done = g.done + 1 })

-- After start-up, with `threads` threads: work_done can be taken once.
abbrev pub all_away : ℕ → List Place
all_away zero = []
all_away (suc n) = away ∷ all_away n

abbrev pub start_gate : ℕ → Gate
start_gate n = record {
  threads = all_away n;
  flag = false;
  count = 0;
  should_capture = false;
  done = 1;
  captures = 0;
}

pub data Reach (n : ℕ) : Gate → Type 0 where
  here : Reach n (start_gate n)
  next : {g h : Gate} → Reach n g → Step g h → Reach n h
