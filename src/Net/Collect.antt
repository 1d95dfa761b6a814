-- ===== src/Net/Collect.antt =====
-- What a call of nwm_send_next_buffer collects from the threads' buffers.
use ntr_hr.Base.{
  ℕ, suc, ◌+◌, ◌≤◌, ◌<◌, ◌≡◌, refl, sym, ap, ◌∙◌, true, false, not, ◌&&◌, List, [], ◌++◌, Option,
  none, some, ltb, ◌==◌, get_or, length, drop, drop_all, All, arith, append_assoc, Bool-cases, inl,
  inr,
}
use ntr_hr.Base.Memory.{Memory, slice}
use ntr_hr.Ranged.Index.{next_wrapped_n}
use ntr_hr.Net.Sender.{
  DataInfo, no_info, Sender, Collected, part_size, part_done, collect, collect_from,
}
use ntr_hr.Net.Carry.{
  stream, Apart, Same, left, Carried, Outcome, collect-Outcome, stream-drop, part_done-text,
  Same-trans,
}

-- What a call takes from thread `t` on, and whether that thread is done.
pub record First (t : ℕ) (infos : List DataInfo) (size : ℕ) (m m' : Memory) (c : Collected)
    : Type 0 where
  pub carried : Carried (get_or infos t no_info).send_pos 0 size t infos m m' c
  pub stays :
      part_done (get_or infos t no_info) size ≡ false
      → (c.end_index ≡ t) × (c.end_done ≡ false) × (c.end_size ≡ size)
  pub moves : part_done (get_or infos t no_info) size ≡ true → c.end_done ≡ false → t < c.end_index

abbrev pub FirstOutcome : ℕ → List DataInfo → ℕ → Memory → Memory × Option Collected → Type 0
FirstOutcome t infos size m (m', none) =
    let buf = (get_or infos t no_info).send_pos in
    Same (get_or infos t no_info).pos (buf + size) m' m
FirstOutcome t infos size m (m', some c) = First t infos size m m' c

stop-First :
    (t : ℕ) (infos : List DataInfo) (size : ℕ) (m : Memory)
    → t < length infos
    → let d = get_or infos t no_info in
      ltb (part_size d size) size ≡ false
      → part_done d size ≡ false
      → First t infos size m m (record {
        total_size = part_size d size;
        end_size = part_size d size;
        end_done = false;
        end_index = t;
      })
unfolding slice
stop-First t infos size m h full open_ =
    let d = get_or infos t no_info in
    let part = part_size d size in
    record {
      carried = record {
        got = slice m d.send_pos part;
        same = λ q k. refl;
        held = refl;
        split = stream-drop m t part infos h (unfold part_size in ground arith);
        fits = unfold part_size in ground arith;
        fills = λ e. unfold part_size in ground arith;
        done_index = λ e. absurd (ground (arith, e));
        end_bound = λ e. (omega arith, h);
      };
      stays = λ e. (refl, refl, unfold part_size in ground arith);
      moves = λ e. absurd (ground (arith, e, open_));
    }

last-First :
    (t : ℕ) (infos : List DataInfo) (size : ℕ) (m : Memory)
    → length infos ≡ suc t
    → let d = get_or infos t no_info in
      part_done d size ≡ true
      → First t infos size m m (record {
        total_size = part_size d size;
        end_size = part_size d size;
        end_done = true;
        end_index = 0;
      })
unfolding slice
last-First t infos size m n done =
    let d = get_or infos t no_info in
    let part = part_size d size in
    let over : drop (suc t) infos ≡ [] = drop_all (suc t) infos (omega arith) in
    record {
      carried = record {
        got = slice m d.send_pos part;
        same = λ q k. refl;
        held = refl;
        split =
            ap (λ l. slice m d.send_pos part ++ stream m l) (sym over)
            ∙ part_done-text m t size infos (omega arith) done;
        fits = unfold part_size in ground arith;
        fills = λ e. absurd (ground (arith, e));
        done_index = λ e. refl;
        end_bound = λ e. absurd (ground (arith, e));
      };
      stays = λ e. absurd (ground (arith, e, done));
      moves = λ _ e. absurd (ground (arith, e));
    }

more-First :
    (t : ℕ) (infos : List DataInfo) (size : ℕ) (m : Memory) (r : Memory × Option Collected)
    → t < length infos
    → let d = get_or infos t no_info in
      part_done d size ≡ true
      → Outcome d.send_pos (part_size d size) size (suc t) infos m r
      → FirstOutcome t infos size m r
unfolding slice part_done
more-First t infos size m (m', none) h done o =
    let d = get_or infos t no_info in
    let e : d.pos ≤ d.send_pos + part_size d size = ground arith in
    Same-trans d.pos (d.send_pos + part_size d size) (d.send_pos + size) e o (λ q k. refl)
more-First t infos size m (m', some c) h done o =
    let d = get_or infos t no_info in
    let part = part_size d size in
    let bytes = slice m d.send_pos part in
    record {
      carried = record {
        got = bytes ++ o.got;
        same =
            Same-trans (d.send_pos + 0) (d.send_pos + part) (d.send_pos + size) (omega arith) o.same
              (λ q k. refl);
        held = o.held;
        split =
            append_assoc bytes o.got (left m infos c)
            ∙ ap (λ l. bytes ++ l) o.split
            ∙ part_done-text m t size infos h done;
        fits = o.fits;
        fills = o.fills;
        done_index = o.done_index;
        end_bound = λ e. (omega (arith, (o.end_bound e).0), (o.end_bound e).1);
      };
      stays = λ e. absurd (ground (arith, e, done));
      moves = λ _ e. omega (arith, (o.end_bound e).0);
    }

pub collect_from-First :
    (t : ℕ) (s : Sender)
    → t ≤ s.last
    → length s.infos ≡ suc s.last
    → let d = get_or s.infos t no_info in
      All (Apart d.pos (d.send_pos + s.packet_data_size)) s.infos
      → FirstOutcome t s.infos s.packet_data_size s.mem (collect_from t d s)
unfolding collect_from
collect_from-First t s h n apart =
    let d = get_or s.infos t no_info in
    let size = s.packet_data_size in
    elim (Bool-cases (part_done d size)) [
      | inr q ↦ elim (Bool-cases (ltb (part_size d size) size)) [
        | inl p ↦ rw (q, p) (λ x k. refl)
        | inr p ↦ rw (q, p) (stop-First t s.infos size s.mem (omega arith) p q)
      ]
      | inl q ↦
          let np : (ltb (part_size d size) size && not (part_done d size)) ≡ false =
            rw q (ground (arith, Bool-cases (ltb (part_size d size) size))) in
          elim (Bool-cases (t == s.last)) [
            | inl p ↦
                let e : next_wrapped_n 0 s.last t ≡ 0 = unfold next_wrapped_n in ground arith in
                let l : t ≡ s.last = ground arith in
                rw (np, q, e) (last-First t s.infos size s.mem (omega arith) q)
            | inr p ↦
                let e : next_wrapped_n 0 s.last t ≡ suc t = unfold next_wrapped_n in ground arith in
                let l : t < s.last = ground arith in
                let fits : part_size d size ≤ size = unfold part_size in ground arith in
                let below : d.pos ≤ d.send_pos + part_size d size =
                  unfold part_done in ground arith in
                let r =
                  collect (s.last + 1) s.infos s.last size d.send_pos (suc t) (part_size d size)
                    s.mem in
                let o =
                  collect-Outcome (s.last + 1) d.send_pos size s.last (suc t) (part_size d size)
                    d.pos s.infos s.mem n l fits below apart in
                let nz : (suc t == 0) ≡ false = ground arith in
                rw (np, q, e, nz) (more-First t s.infos size s.mem r (omega arith) q o)
          ]
    ]
