-- ===== src/Audio/Interleave.antt =====
-- The two sides of the ring at work at once: audio_enqueue on the audio thread and calls of
-- drain_audio on the nwm thread, one load, copy or store of an index at a time.
use ntr_hr.Base.{ℕ, ◌≡◌, ◌≢◌, Bool, true, false, ◌&&◌, List, [], ◌∷◌, ◌++◌}
use ntr_hr.Audio.Ring.{AudioWorkArea, slot, is_full, write_slot, publish, release}

-- The audio thread has loaded both indices, or has also copied its packet into the slot.
pub data Producer : Type 0 where
  waiting : Producer
  loaded : List ℕ → ℕ → ℕ → Producer
  copied : List ℕ → ℕ → Producer

-- The nwm thread is outside of drain_audio; or it is in the loop of a call, with the call's `ready`;
-- or has found a packet at the index there; or has also sent it, or passed it over.
pub data Consumer : Type 0 where
  outside : Consumer
  polling : Bool → Consumer
  found : Bool → ℕ → Consumer
  handled : Bool → ℕ → Consumer

-- A packet that the nwm thread is through with: given to rp_output, or dropped.
pub data Taken : Type 0 where
  given : List ℕ → Taken
  dropped : List ℕ → Taken

-- With the packets published so far, those taken from the ring, and whether `ready` was set in every
-- call of drain_audio so far.
pub data System : Type 0 where
  system :
      AudioWorkArea
      → Producer
      → Consumer
      → (ins : List (List ℕ)) → (taken : List Taken) → (live : Bool) → System

pub data Step : System → System → Type 0 where
  load :
      {w : AudioWorkArea} {c : Consumer} {ins : List (List ℕ)} {taken : List Taken} {live : Bool}
      (pkt : List ℕ)
      → Step
          (system w waiting c ins taken live)
          (system w (loaded pkt w.head w.tail) c ins taken live)
  give_up :
      {w : AudioWorkArea} {c : Consumer} {ins : List (List ℕ)} {taken : List Taken} {live : Bool}
      {pkt : List ℕ} {h t : ℕ}
      → is_full h t ≡ true
      → Step (system w (loaded pkt h t) c ins taken live) (system w waiting c ins taken live)
  copy :
      {w : AudioWorkArea} {c : Consumer} {ins : List (List ℕ)} {taken : List Taken} {live : Bool}
      {pkt : List ℕ} {h t : ℕ}
      → is_full h t ≡ false
      → Step
          (system w (loaded pkt h t) c ins taken live)
          (system (write_slot t pkt w) (copied pkt t) c ins taken live)
  store_tail :
      {w : AudioWorkArea} {c : Consumer} {ins : List (List ℕ)} {taken : List Taken} {live : Bool}
      {pkt : List ℕ} {t : ℕ}
      → Step
          (system w (copied pkt t) c ins taken live)
          (system (publish t w) waiting c (ins ++ pkt ∷ []) taken live)
  -- A call of drain_audio, for any value of AUDIO_ENABLE, nwm_send_ready and nwm_session_alive.
  enter :
      {w : AudioWorkArea} {p : Producer} {ins : List (List ℕ)} {taken : List Taken} {live : Bool}
      (ready : Bool)
      → Step
          (system w p outside ins taken live)
          (system w p (polling ready) ins taken (live && ready))
  leave :
      {w : AudioWorkArea} {p : Producer} {ins : List (List ℕ)} {taken : List Taken}
      {live ready : Bool}
      → w.head ≡ w.tail
      → Step (system w p (polling ready) ins taken live) (system w p outside ins taken live)
  find :
      {w : AudioWorkArea} {p : Producer} {ins : List (List ℕ)} {taken : List Taken}
      {live ready : Bool}
      → w.head ≢ w.tail
      → Step
          (system w p (polling ready) ins taken live)
          (system w p (found ready w.head) ins taken live)
  send :
      {w : AudioWorkArea} {p : Producer} {ins : List (List ℕ)} {taken : List Taken} {live : Bool}
      {h : ℕ}
      → Step
          (system w p (found true h) ins taken live)
          (system w p (handled true h) ins (taken ++ given (w.bufs (slot h)) ∷ []) live)
  pass_over :
      {w : AudioWorkArea} {p : Producer} {ins : List (List ℕ)} {taken : List Taken} {live : Bool}
      {h : ℕ}
      → Step
          (system w p (found false h) ins taken live)
          (system w p (handled false h) ins (taken ++ dropped (w.bufs (slot h)) ∷ []) live)
  store_head :
      {w : AudioWorkArea} {p : Producer} {ins : List (List ℕ)} {taken : List Taken}
      {live ready : Bool} {h : ℕ}
      → Step
          (system w p (handled ready h) ins taken live)
          (system (release h w) p (polling ready) ins taken live)

-- The system after any number of steps from an empty ring.
pub data Reachable : System → Type 0 where
  start :
      {w : AudioWorkArea}
      → w.head ≡ 0
      → w.tail ≡ 0
      → Reachable (system w waiting outside [] [] true)
  next : {s s' : System} → Reachable s → Step s s' → Reachable s'
