-- ===== src/Audio/Delivery.antt =====
-- What the interleaved threads of the ring, audio_enqueue and drain_audio of
-- entries/thread_audio.rs, deliver.
use ntr_hr.Base.{
  ℕ, ◌≤◌, ◌<◌, ◌≡◌, ◌≢◌, refl, sym, ap, ◌∙◌, Bool, true, false, ◌&&◌, List, [], ◌∷◌, ◌++◌, arith,
  length, append_assoc, ◌⊎◌, inl, inr,
}
use ntr_hr.Base.Word.{sub32}
use ntr_hr.Audio.Ring.{AudioWorkArea, slot, is_full, write_slot, publish, release}
use ntr_hr.Audio.Queue.{
  IsRing, queue, queue-publish, queue-write_slot, queue-release, queue_empty, write_slot_self,
  length-queue,
}
use ntr_hr.Audio.Interleave.{
  Producer, waiting, copied, Consumer, outside, polling, found, handled, Taken, given, dropped,
  System, system, Step, load, give_up, copy, store_tail, enter, leave, find, send, pass_over,
  store_head, Reachable, start, next,
}
use ntr_hr.Audio.Pending.{
  pending, packets_in, sent_in, packets_in-append, sent_in-append, SentOk, Ok, SystemOk,
  pending-write_slot, pending-publish, ConsumerOk-write_slot, ConsumerOk-publish,
  ProducerOk-release,
}

copy-Ok :
    {w : AudioWorkArea} {c : Consumer} {ins : List (List ℕ)} {taken : List Taken} {live : Bool}
    (pkt : List ℕ)
    → Ok w waiting c ins taken live
    → sub32 w.tail w.head < 32
    → Ok (write_slot w.tail pkt w) (copied pkt w.tail) c ins taken live
unfolding write_slot
copy-Ok {w} {c} {ins} {taken} pkt v lt = record {
  ring = (queue-write_slot pkt w v.ring lt).0;
  producer = (refl, lt, write_slot_self w.tail pkt w);
  consumer = ConsumerOk-write_slot c pkt w v.consumer;
  delivered =
      ap (λ q. packets_in taken ++ q) (pending-write_slot c pkt w v.ring v.consumer lt)
      ∙ v.delivered;
  all_sent = v.all_sent;
}

store_tail-Ok :
    {w : AudioWorkArea} {c : Consumer} {ins : List (List ℕ)} {taken : List Taken} {live : Bool}
    (pkt : List ℕ)
    → Ok w (copied pkt w.tail) c ins taken live
    → Ok (publish w.tail w) waiting c (ins ++ pkt ∷ []) taken live
store_tail-Ok {w} {c} {ins} {taken} pkt v =
    let (_, lt, there) = v.producer in
    record {
      ring = (queue-publish pkt w v.ring lt there).0;
      producer = tt;
      consumer = ConsumerOk-publish c w v.ring lt v.consumer;
      delivered =
          ap (λ q. packets_in taken ++ q) (pending-publish c pkt w v.ring v.consumer lt there)
          ∙ sym (append_assoc (packets_in taken) (pending c w) (pkt ∷ []))
          ∙ ap (λ q. q ++ pkt ∷ []) v.delivered;
      all_sent = v.all_sent;
    }

-- The first packet of the ring moves to those taken.
take-delivered :
    {w : AudioWorkArea} {ins : List (List ℕ)} (taken : List Taken) (t : Taken)
    → IsRing w
    → w.head ≢ w.tail
    → packets_in (t ∷ []) ≡ w.bufs (slot w.head) ∷ []
    → packets_in taken ++ queue w ≡ ins
    → packets_in (taken ++ t ∷ []) ++ queue (release w.head w) ≡ ins
take-delivered {w} taken t r ne one all =
    let first = (queue-release w r ne).1 in
    ap (λ q. q ++ queue (release w.head w))
      (packets_in-append taken (t ∷ []) ∙ ap (λ q. packets_in taken ++ q) one)
    ∙ append_assoc (packets_in taken) (w.bufs (slot w.head) ∷ []) (queue (release w.head w))
    ∙ ap (λ q. packets_in taken ++ q) (sym first)
    ∙ all

send-Ok :
    {w : AudioWorkArea} {p : Producer} {ins : List (List ℕ)} {taken : List Taken} {live : Bool}
    → Ok w p (found true w.head) ins taken live
    → Ok w p (handled true w.head) ins (taken ++ given (w.bufs (slot w.head)) ∷ []) live
unfolding packets_in sent_in
send-Ok {w} {p} {ins} {taken} v =
    let t = given (w.bufs (slot w.head)) in
    record {
      ring = v.ring;
      producer = v.producer;
      consumer = v.consumer;
      delivered = take-delivered taken t v.ring v.consumer.1 refl v.delivered;
      all_sent = elim v.all_sent [
        | inl dead ↦ inl dead
        | inr (ready, all) ↦ inr (
          ready,
          sent_in-append taken (t ∷ [])
              ∙ ap (λ q. q ++ w.bufs (slot w.head) ∷ []) all
              ∙ sym (packets_in-append taken (t ∷ [])),
        )
      ];
    }

pass_over-Ok :
    {w : AudioWorkArea} {p : Producer} {ins : List (List ℕ)} {taken : List Taken} {live : Bool}
    → Ok w p (found false w.head) ins taken live
    → Ok w p (handled false w.head) ins (taken ++ dropped (w.bufs (slot w.head)) ∷ []) live
unfolding packets_in
pass_over-Ok {w} {p} {ins} {taken} v =
    let t = dropped (w.bufs (slot w.head)) in
    record {
      ring = v.ring;
      producer = v.producer;
      consumer = v.consumer;
      delivered = take-delivered taken t v.ring v.consumer.1 refl v.delivered;
      all_sent = elim v.all_sent [ inl dead ↦ inl dead | inr (ready, all) ↦ ground arith ];
    }

store_head-Ok :
    {w : AudioWorkArea} {p : Producer} {ins : List (List ℕ)} {taken : List Taken}
    {live ready : Bool}
    → Ok w p (handled ready w.head) ins taken live
    → Ok (release w.head w) p (polling ready) ins taken live
store_head-Ok {w} {p} v = record {
  ring = (queue-release w v.ring v.consumer.1).0;
  producer = ProducerOk-release p w v.ring v.consumer.1 v.producer;
  consumer = tt;
  delivered = v.delivered;
  all_sent = v.all_sent;
}

enter-SentOk :
    (taken : List Taken) (live ready : Bool)
    → SentOk outside taken live
    → SentOk (polling ready) taken (live && ready)
enter-SentOk taken false ready k = inl refl
enter-SentOk taken true false k = inl refl
enter-SentOk taken true true k = elim k [ inl dead ↦ inl dead | inr (_, all) ↦ inr (refl, all) ]

leave-SentOk :
    (taken : List Taken) (live ready : Bool)
    → SentOk (polling ready) taken live
    → SentOk outside taken live
leave-SentOk taken live ready k = elim k [ inl dead ↦ inl dead | inr (_, all) ↦ inr (refl, all) ]

Step-Ok : {s s' : System} → Step s s' → SystemOk s → SystemOk s'
Step-Ok (load {w} {c} pkt) v = record {
  ring = v.ring;
  producer = (refl, omega arith);
  consumer = v.consumer;
  delivered = v.delivered;
  all_sent = v.all_sent;
}
Step-Ok (give_up full) v = record {
  ring = v.ring;
  producer = tt;
  consumer = v.consumer;
  delivered = v.delivered;
  all_sent = v.all_sent;
}
Step-Ok (copy {w} {c} {ins} {taken} {live} {pkt} {h} {t} room) v =
    let (e, le) = v.producer in
    let v' : Ok w waiting c ins taken live = record {
      ring = v.ring;
      producer = tt;
      consumer = v.consumer;
      delivered = v.delivered;
      all_sent = v.all_sent;
    } in
    let lt : sub32 w.tail w.head < 32 = unfold is_full in ground arith in rw e (copy-Ok pkt v' lt)
Step-Ok (store_tail {w} {c} {ins} {taken} {live} {pkt} {t}) v =
    let e = v.producer.0 in rw e (store_tail-Ok pkt (rw e at (v)))
Step-Ok (enter {w} {p} {ins} {taken} {live} ready) v = record {
  ring = v.ring;
  producer = v.producer;
  consumer = tt;
  delivered = v.delivered;
  all_sent = enter-SentOk taken live ready v.all_sent;
}
Step-Ok (leave {w} {p} {ins} {taken} {live} {ready} empty) v = record {
  ring = v.ring;
  producer = v.producer;
  consumer = tt;
  delivered = v.delivered;
  all_sent = leave-SentOk taken live ready v.all_sent;
}
Step-Ok (find ne) v = record {
  ring = v.ring;
  producer = v.producer;
  consumer = (refl, ne);
  delivered = v.delivered;
  all_sent = v.all_sent;
}
Step-Ok send v = let e = v.consumer.0 in rw e (send-Ok (rw e at (v)))
Step-Ok pass_over v = let e = v.consumer.0 in rw e (pass_over-Ok (rw e at (v)))
Step-Ok store_head v = let e = v.consumer.0 in rw e (store_head-Ok (rw e at (v)))

start-Ok : {w : AudioWorkArea} → w.head ≡ 0 → w.tail ≡ 0 → Ok w waiting outside [] [] true
unfolding packets_in sent_in
start-Ok {w} e f = record {
  ring = record { head_word = omega arith; tail_word = omega arith; bounded = omega arith };
  producer = tt;
  consumer = tt;
  delivered = queue_empty w (e ∙ sym f);
  all_sent = inr (refl, refl);
}

Reachable-Ok : {s : System} → Reachable s → SystemOk s
Reachable-Ok (start e f) = start-Ok e f
Reachable-Ok (next r step) = Step-Ok step (Reachable-Ok r)

-- However the steps of the two threads interleave, every published packet is taken from the ring
-- once, unchanged and in order: those taken, then those still in the ring, are those published. The
-- ring never holds more than 32. Unless a call of drain_audio found the session dead, all packets
-- taken were given to rp_output.
pub sent_in_order :
    {w : AudioWorkArea} {p : Producer} {c : Consumer} {ins : List (List ℕ)} {taken : List Taken}
    {live : Bool}
    → Reachable (system w p c ins taken live)
    → (packets_in taken ++ pending c w ≡ ins)
      × (length (queue w) ≤ 32)
      × ((live ≡ false) ⊎ (sent_in taken ≡ packets_in taken))
sent_in_order {w} {p} {c} r =
    let v = Reachable-Ok r in
    (
      v.delivered,
      omega (arith, length-queue w, v.ring.bounded),
      elim v.all_sent [ inl dead ↦ inl dead | inr (_, all) ↦ inr all ],
    )
