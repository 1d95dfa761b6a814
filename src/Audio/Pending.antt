-- ===== src/Audio/Pending.antt =====
-- The packets that are still to be taken from the ring while its two threads (audio_enqueue and
-- drain_audio of entries/thread_audio.rs) interleave, and what holds of the state in between.
use ntr_hr.Base.{
  ℕ, ◌≤◌, ◌<◌, ◌≡◌, ◌≢◌, refl, ap, Bool, true, false, List, [], ◌∷◌, ◌++◌, arith, ◌⊎◌,
}
use ntr_hr.Base.Word.{sub32}
use ntr_hr.Audio.Ring.{AudioWorkArea, slot, write_slot, publish, release}
use ntr_hr.Audio.Queue.{IsRing, queue, queue-publish, queue-write_slot, queue-release}
use ntr_hr.Audio.Interleave.{
  Producer, waiting, loaded, copied, Consumer, outside, polling, found, handled, Taken, given,
  dropped, System, system,
}

-- The packets published and not yet taken.
abbrev pub pending : Consumer → AudioWorkArea → List (List ℕ)
pending outside w = queue w
pending (polling r) w = queue w
pending (found r h) w = queue w
pending (handled r h) w = queue (release h w)

-- The packets that were taken, and those of them that were given to rp_output.
unfoldable pub packets_in : List Taken → List (List ℕ)
packets_in [] = []
packets_in (given pkt ∷ ts) = pkt ∷ packets_in ts
packets_in (dropped pkt ∷ ts) = pkt ∷ packets_in ts

unfoldable pub sent_in : List Taken → List (List ℕ)
sent_in [] = []
sent_in (given pkt ∷ ts) = pkt ∷ sent_in ts
sent_in (dropped pkt ∷ ts) = sent_in ts

pub packets_in-append :
    (xs ys : List Taken) → packets_in (xs ++ ys) ≡ packets_in xs ++ packets_in ys
unfolding packets_in
packets_in-append [] ys = refl
packets_in-append (given pkt ∷ xs) ys = ap (λ l. pkt ∷ l) (packets_in-append xs ys)
packets_in-append (dropped pkt ∷ xs) ys = ap (λ l. pkt ∷ l) (packets_in-append xs ys)

pub sent_in-append : (xs ys : List Taken) → sent_in (xs ++ ys) ≡ sent_in xs ++ sent_in ys
unfolding sent_in
sent_in-append [] ys = refl
sent_in-append (given pkt ∷ xs) ys = ap (λ l. pkt ∷ l) (sent_in-append xs ys)
sent_in-append (dropped pkt ∷ xs) ys = sent_in-append xs ys

abbrev pub is_ready : Consumer → Bool
is_ready outside = true
is_ready (polling r) = r
is_ready (found r h) = r
is_ready (handled r h) = r

abbrev pub ProducerOk : Producer → AudioWorkArea → Type 0
ProducerOk waiting w = Unit
ProducerOk (loaded pkt h t) w = (t ≡ w.tail) × (sub32 w.tail w.head ≤ sub32 t h)
ProducerOk (copied pkt t) w = (t ≡ w.tail) × (sub32 w.tail w.head < 32) × (w.bufs (slot t) ≡ pkt)

abbrev pub ConsumerOk : Consumer → AudioWorkArea → Type 0
ConsumerOk outside w = Unit
ConsumerOk (polling r) w = Unit
ConsumerOk (found r h) w = (h ≡ w.head) × (w.head ≢ w.tail)
ConsumerOk (handled r h) w = (h ≡ w.head) × (w.head ≢ w.tail)

-- Unless a call found the session dead, everything taken was sent.
abbrev pub SentOk : Consumer → List Taken → Bool → Type 0
SentOk c taken live = (live ≡ false) ⊎ ((is_ready c ≡ true) × (sent_in taken ≡ packets_in taken))

pub record Ok (w : AudioWorkArea) (p : Producer) (c : Consumer) (ins : List (List ℕ))
    (taken : List Taken) (live : Bool) : Type 0 where
  pub ring : IsRing w
  pub producer : ProducerOk p w
  pub consumer : ConsumerOk c w
  pub delivered : packets_in taken ++ pending c w ≡ ins
  pub all_sent : SentOk c taken live

abbrev pub SystemOk : System → Type 0
SystemOk (system w p c ins taken live) = Ok w p c ins taken live

pub pending-write_slot :
    (c : Consumer) (pkt : List ℕ) (w : AudioWorkArea)
    → IsRing w
    → ConsumerOk c w
    → sub32 w.tail w.head < 32
    → pending c (write_slot w.tail pkt w) ≡ pending c w
unfolding write_slot release
pending-write_slot outside pkt w r k lt = (queue-write_slot pkt w r lt).1
pending-write_slot (polling ready) pkt w r k lt = (queue-write_slot pkt w r lt).1
pending-write_slot (found ready h) pkt w r k lt = (queue-write_slot pkt w r lt).1
pending-write_slot (handled ready h) pkt w r (e, ne) lt =
    rw e
      (queue-write_slot pkt (release w.head w) (queue-release w r ne).0
        (omega (arith, r.head_word, r.tail_word, ne))).1

pub pending-publish :
    (c : Consumer) (pkt : List ℕ) (w : AudioWorkArea)
    → IsRing w
    → ConsumerOk c w
    → sub32 w.tail w.head < 32
    → w.bufs (slot w.tail) ≡ pkt
    → pending c (publish w.tail w) ≡ pending c w ++ pkt ∷ []
unfolding publish release
pending-publish outside pkt w r k lt there = (queue-publish pkt w r lt there).1
pending-publish (polling ready) pkt w r k lt there = (queue-publish pkt w r lt there).1
pending-publish (found ready h) pkt w r k lt there = (queue-publish pkt w r lt there).1
pending-publish (handled ready h) pkt w r (e, ne) lt there =
    rw e
      (queue-publish pkt (release w.head w) (queue-release w r ne).0
        (omega (arith, r.head_word, r.tail_word, ne)) there).1

pub ConsumerOk-write_slot :
    (c : Consumer) (pkt : List ℕ) (w : AudioWorkArea)
    → ConsumerOk c w
    → ConsumerOk c (write_slot w.tail pkt w)
unfolding write_slot
ConsumerOk-write_slot outside pkt w k = k
ConsumerOk-write_slot (polling ready) pkt w k = k
ConsumerOk-write_slot (found ready h) pkt w k = k
ConsumerOk-write_slot (handled ready h) pkt w k = k

pub ConsumerOk-publish :
    (c : Consumer) (w : AudioWorkArea)
    → IsRing w
    → sub32 w.tail w.head < 32
    → ConsumerOk c w
    → ConsumerOk c (publish w.tail w)
unfolding publish
ConsumerOk-publish outside w r lt k = k
ConsumerOk-publish (polling ready) w r lt k = k
ConsumerOk-publish (found ready h) w r lt (e, ne) =
    (e, λ q. absurd (omega (arith, q, r.head_word, r.tail_word)))
ConsumerOk-publish (handled ready h) w r lt (e, ne) =
    (e, λ q. absurd (omega (arith, q, r.head_word, r.tail_word)))

pub ProducerOk-release :
    (p : Producer) (w : AudioWorkArea)
    → IsRing w
    → w.head ≢ w.tail
    → ProducerOk p w
    → ProducerOk p (release w.head w)
unfolding release
ProducerOk-release waiting w r ne k = k
ProducerOk-release (loaded pkt h t) w r ne (e, le) =
    (e, omega (arith, r.head_word, r.tail_word, ne))
ProducerOk-release (copied pkt t) w r ne (e, lt, there) =
    (e, omega (arith, r.head_word, r.tail_word, ne), there)
