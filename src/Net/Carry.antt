-- ===== src/Net/Carry.antt =====
-- The packets of a work cut up the texts of its threads, taken one behind the other.
use ntr_hr.Base.{
  ℕ, zero, suc, ◌+◌, ◌-◌, ◌≤◌, ◌<◌, ◌≡◌, ◌⊎◌, refl, sym, ap, ap₂, ◌∙◌, true, false, not, ◌&&◌, ◌||◌,
  List, [], ◌∷◌, ◌++◌, Option, none, some, ltb, ◌==◌, if◌then◌else◌, get_or, length, drop, All,
  drop_all, arith, append_assoc, Bool-cases, inl, inr,
}
use ntr_hr.Base.Memory.{
  Memory, copy, slice, slice-add, slice_ext, slice-copy_append, copy_outside, length-slice,
}
use ntr_hr.Ranged.Index.{next_wrapped_n}
use ntr_hr.Net.Sender.{
  DataInfo, no_info, Collected, part_size, part_done, data_buffer_filled, collect,
}

-- The bytes of a thread, and of several threads in their order, that are still to be sent.
abbrev pub text : Memory → DataInfo → List ℕ
text m d = slice m d.send_pos (d.pos - d.send_pos)

abbrev pub stream : Memory → List DataInfo → List ℕ
stream m [] = []
stream m (d ∷ ds) = text m d ++ stream m ds

-- A thread's bytes lie outside of the addresses from `lo` to `hi`.
abbrev pub Apart : ℕ → ℕ → DataInfo → Type 0
Apart lo hi d = (d.pos ≤ lo) ⊎ (hi ≤ d.send_pos)

abbrev pub Same : ℕ → ℕ → Memory → Memory → Type 0
Same lo hi m k = (q : ℕ) → (q < lo) ⊎ (hi ≤ q) → m q ≡ k q

abbrev pub advance : ℕ → DataInfo → DataInfo
advance n d = record d { send_pos = d.send_pos + n }

pub text-Same :
    {lo hi : ℕ} {m k : Memory} (d : DataInfo) → Same lo hi m k → Apart lo hi d → text m d ≡ text k d
text-Same {lo} {hi} {m} {k} d same (inl below) =
    slice_ext m k d.send_pos (d.pos - d.send_pos) (λ q a b. same q (inl (omega arith)))
text-Same {lo} {hi} {m} {k} d same (inr above) =
    slice_ext m k d.send_pos (d.pos - d.send_pos) (λ q a b. same q (inr (omega arith)))

pub stream-Same :
    {lo hi : ℕ} {m k : Memory} (ds : List DataInfo)
    → Same lo hi m k
    → All (Apart lo hi) ds
    → stream m ds ≡ stream k ds
stream-Same [] same v = refl
stream-Same (d ∷ ds) same (v, vs) = ap₂ ◌++◌ (text-Same d same v) (stream-Same ds same vs)

pub text-advance :
    (m : Memory) (n : ℕ) (d : DataInfo)
    → n ≤ d.pos - d.send_pos
    → text m d ≡ slice m d.send_pos n ++ text m (advance n d)
text-advance m n d le =
    ap (slice m d.send_pos)
      (let e : d.pos - d.send_pos ≡ n + (d.pos - (d.send_pos + n)) = omega arith in e)
    ∙ slice-add m d.send_pos n (d.pos - (d.send_pos + n))

drop_get :
    (i : ℕ) (ds : List DataInfo) → i < length ds → drop i ds ≡ get_or ds i no_info ∷ drop (suc i) ds
drop_get i [] h = absurd (omega arith)
drop_get zero (d ∷ ds) h = refl
drop_get (suc i) (d ∷ ds) h = drop_get i ds (omega arith)

pub All-get :
    (lo hi i : ℕ) (ds : List DataInfo) → All (Apart lo hi) ds → Apart lo hi (get_or ds i no_info)
All-get lo hi i [] vs = inl (omega arith)
All-get lo hi zero (d ∷ ds) (v, vs) = v
All-get lo hi (suc i) (d ∷ ds) (v, vs) = All-get lo hi i ds vs

All-drop : (lo hi i : ℕ) (ds : List DataInfo) → All (Apart lo hi) ds → All (Apart lo hi) (drop i ds)
All-drop lo hi zero ds vs = vs
All-drop lo hi (suc i) [] vs = vs
All-drop lo hi (suc i) (d ∷ ds) (v, vs) = All-drop lo hi i ds vs

pub Apart-advance : (lo hi n : ℕ) (d : DataInfo) → Apart lo hi d → Apart lo hi (advance n d)
Apart-advance lo hi n d (inl below) = inl below
Apart-advance lo hi n d (inr above) = inr (omega arith)

-- What is still to be sent after a packet that ends as `c` says.
abbrev pub left : Memory → List DataInfo → Collected → List ℕ
left m infos c =
    if c.end_done
    then []
    else text m (advance c.end_size (get_or infos c.end_index no_info))
      ++ stream m (drop (suc c.end_index) infos)

-- What the loop leaves behind: bytes are added behind the `total` bytes at `buf`, and those and
-- the ones left are the texts of the threads.
pub record Carried (buf total size i : ℕ) (infos : List DataInfo) (m m' : Memory) (c : Collected)
    : Type 0 where
  pub got : List ℕ
  pub same : Same (buf + total) (buf + size) m' m
  pub held : slice m' buf c.total_size ≡ slice m buf total ++ got
  pub split : got ++ left m infos c ≡ stream m (drop i infos)
  pub fits : c.total_size ≤ size
  pub fills : c.end_done ≡ false → c.total_size ≡ size
  pub done_index : c.end_done ≡ true → c.end_index ≡ 0
  pub end_bound : c.end_done ≡ false → (i ≤ c.end_index) × (c.end_index < length infos)

abbrev pub Outcome : ℕ → ℕ → ℕ → ℕ → List DataInfo → Memory → Memory × Option Collected → Type 0
Outcome buf total size i infos m (m', none) = Same (buf + total) (buf + size) m' m
Outcome buf total size i infos m (m', some c) = Carried buf total size i infos m m' c

copy-Same :
    (m : Memory) (buf total size p part : ℕ)
    → total + part ≤ size
    → Same (buf + total) (buf + size) (copy m (buf + total) (slice m p part)) m
copy-Same m buf total size p part fits q (inl below) =
    copy_outside m (buf + total) (slice m p part) q (inl below)
copy-Same m buf total size p part fits q (inr above) =
    copy_outside m (buf + total) (slice m p part) q (inr (omega (arith, length-slice m p part)))

copy_held :
    (m : Memory) (buf total p part : ℕ)
    → slice (copy m (buf + total) (slice m p part)) buf (total + part)
      ≡ slice m buf total ++ slice m p part
copy_held m buf total p part =
    ap (λ n. slice (copy m (buf + total) (slice m p part)) buf (total + n))
      (sym (length-slice m p part))
    ∙ slice-copy_append m buf total (slice m p part)

pub Same-trans :
    (lo lo' hi : ℕ) {k m m' : Memory}
    → lo ≤ lo'
    → Same lo' hi k m
    → Same lo hi m m'
    → Same lo hi k m'
Same-trans lo lo' hi le a b q (inl below) = a q (inl (omega arith)) ∙ b q (inl below)
Same-trans lo lo' hi le a b q (inr above) = a q (inr above) ∙ b q (inr above)

pub Same-widen :
    (lo lo' hi' hi : ℕ) {m k : Memory} → lo ≤ lo' → hi' ≤ hi → Same lo' hi' m k → Same lo hi m k
Same-widen lo lo' hi' hi a b same q (inl below) = same q (inl (omega arith))
Same-widen lo lo' hi' hi a b same q (inr above) = same q (inr (omega arith))

pub left-Same :
    {lo hi : ℕ} {m k : Memory} (infos : List DataInfo) (c : Collected)
    → Same lo hi m k
    → All (Apart lo hi) infos
    → left m infos c ≡ left k infos c
left-Same {lo} {hi} infos c same vs = elim (Bool-cases c.end_done) [
  | inl p ↦ rw p refl
  | inr p ↦ rw p (
      ap₂ ◌++◌
        (text-Same (advance c.end_size (get_or infos c.end_index no_info)) same (
          Apart-advance lo hi c.end_size (get_or infos c.end_index no_info)
            (All-get lo hi c.end_index infos vs)))
        (stream-Same (drop (suc c.end_index) infos) same
          (All-drop lo hi (suc c.end_index) infos vs)))
]

pub stream-drop :
    (m : Memory) (i n : ℕ) (infos : List DataInfo)
    → i < length infos
    → n ≤ (get_or infos i no_info).pos - (get_or infos i no_info).send_pos
    → let d = get_or infos i no_info in
      slice m d.send_pos n ++ (text m (advance n d) ++ stream m (drop (suc i) infos))
      ≡ stream m (drop i infos)
stream-drop m i n infos h le =
    let d = get_or infos i no_info in
    sym (append_assoc (slice m d.send_pos n) (text m (advance n d)) (stream m (drop (suc i) infos)))
    ∙ ap (λ t. t ++ stream m (drop (suc i) infos)) (sym (text-advance m n d le))
    ∙ sym (ap (stream m) (drop_get i infos h))

-- A part that is a thread's last takes all of its text.
pub part_done-text :
    (m : Memory) (i room : ℕ) (infos : List DataInfo)
    → i < length infos
    → part_done (get_or infos i no_info) room ≡ true
    → let d = get_or infos i no_info in
      slice m d.send_pos (part_size d room) ++ stream m (drop (suc i) infos)
      ≡ stream m (drop i infos)
unfolding part_done part_size
part_done-text m i room infos h done =
    let d = get_or infos i no_info in
    let e : part_size d room ≡ d.pos - d.send_pos = unfold part_size in ground arith in
    ap (λ n. slice m d.send_pos n ++ stream m (drop (suc i) infos)) e
    ∙ sym (ap (stream m) (drop_get i infos h))

-- A packet that is full before the thread is done.
stop-Carried :
    (buf size i total : ℕ) (infos : List DataInfo) (m : Memory)
    → i < length infos
    → total ≤ size
    → let d = get_or infos i no_info in
      let part = part_size d (size - total) in
      ltb part (size - total) ≡ false
      → Carried buf total size i infos m
          (copy m (buf + total) (slice m d.send_pos part))
          (record { total_size = total + part; end_size = part; end_done = false; end_index = i })
unfolding part_size
stop-Carried buf size i total infos m h fits full =
    let d = get_or infos i no_info in
    let part = part_size d (size - total) in
    record {
      got = slice m d.send_pos part;
      same = copy-Same m buf total size d.send_pos part (ground arith);
      held = copy_held m buf total d.send_pos part;
      split = stream-drop m i part infos h (ground arith);
      fits = ground arith;
      fills = λ e. ground arith;
      done_index = λ e. absurd (ground (arith, e));
      end_bound = λ e. (omega arith, h);
    }

-- The last thread's end.
last-Carried :
    (buf size i total : ℕ) (infos : List DataInfo) (m : Memory)
    → length infos ≡ suc i
    → total ≤ size
    → let d = get_or infos i no_info in
      let part = part_size d (size - total) in
      part_done d (size - total) ≡ true
      → Carried buf total size i infos m
          (copy m (buf + total) (slice m d.send_pos part))
          (record { total_size = total + part; end_size = part; end_done = true; end_index = 0 })
last-Carried buf size i total infos m n fits done =
    let d = get_or infos i no_info in
    let part = part_size d (size - total) in
    let bound : total + part ≤ size = unfold part_size in ground arith in
    let over : drop (suc i) infos ≡ [] = drop_all (suc i) infos (omega arith) in
    record {
      got = slice m d.send_pos part;
      same = copy-Same m buf total size d.send_pos part bound;
      held = copy_held m buf total d.send_pos part;
      split =
          ap (λ t. slice m d.send_pos part ++ stream m t) (sym over)
          ∙ part_done-text m i (size - total) infos (omega arith) done;
      fits = bound;
      fills = λ e. absurd (ground (arith, e));
      done_index = λ e. refl;
      end_bound = λ e. absurd (ground (arith, e));
    }

pub part_size-fits :
    (d : DataInfo) (total size : ℕ) → total ≤ size → total + part_size d (size - total) ≤ size
unfolding part_size
part_size-fits d total size h = ground arith

-- A thread's end, with what the rest of the loop does.
more-Outcome :
    (buf size i total lo : ℕ) (infos : List DataInfo) (m : Memory) (r : Memory × Option Collected)
    → suc i < length infos
    → total ≤ size
    → lo ≤ buf + total
    → All (Apart lo (buf + size)) infos
    → let d = get_or infos i no_info in
      let part = part_size d (size - total) in
      part_done d (size - total) ≡ true
      → Outcome buf
          (total + part)
          size
          (suc i)
          infos
          (copy m (buf + total) (slice m d.send_pos part))
          r
      → Outcome buf total size i infos m r
more-Outcome buf size i total lo infos m (m', none) h fits below apart done o =
    let d = get_or infos i no_info in
    let part = part_size d (size - total) in
    Same-trans (buf + total) (buf + (total + part)) (buf + size) (omega arith) o
      (copy-Same m buf total size d.send_pos part (part_size-fits d total size fits))
more-Outcome buf size i total lo infos m (m', some c) h fits below apart done o =
    let d = get_or infos i no_info in
    let part = part_size d (size - total) in
    let m1 = copy m (buf + total) (slice m d.send_pos part) in
    let bytes = slice m d.send_pos part in
    let kept : Same (buf + total) (buf + size) m1 m =
      copy-Same m buf total size d.send_pos part (part_size-fits d total size fits) in
    let kept' : Same lo (buf + size) m1 m =
      Same-trans lo (buf + total) (buf + size) below kept (λ q k. refl) in
    record {
      got = bytes ++ o.got;
      same = Same-trans (buf + total) (buf + (total + part)) (buf + size) (omega arith) o.same kept;
      held =
          o.held
          ∙ ap (λ t. t ++ o.got) (copy_held m buf total d.send_pos part)
          ∙ append_assoc (slice m buf total) bytes o.got;
      split =
          append_assoc bytes o.got (left m infos c)
          ∙ ap (λ t. bytes ++ t)
              (ap (λ t. o.got ++ t) (sym (left-Same infos c kept' apart))
                ∙ o.split
                ∙ stream-Same (drop (suc i) infos) kept'
                    (All-drop lo (buf + size) (suc i) infos apart))
          ∙ part_done-text m i (size - total) infos (omega arith) done;
      fits = o.fits;
      fills = o.fills;
      done_index = o.done_index;
      end_bound = λ e. (omega (arith, o.end_bound e), (o.end_bound e).1);
    }

pub collect-Outcome :
    (fuel buf size last i total lo : ℕ) (infos : List DataInfo) (m : Memory)
    → length infos ≡ suc last
    → i ≤ last
    → total ≤ size
    → lo ≤ buf + total
    → All (Apart lo (buf + size)) infos
    → Outcome buf total size i infos m (collect fuel infos last size buf i total m)
unfolding collect
collect-Outcome zero buf size last i total lo infos m n h fits below apart = λ q k. refl
collect-Outcome (suc fuel) buf size last i total lo infos m n h fits below apart =
    let d = get_or infos i no_info in
    let part = part_size d (size - total) in
    let done = part_done d (size - total) in
    elim (Bool-cases (not (data_buffer_filled d) || (ltb part (size - total) && not done))) [
      | inl p ↦ rw p (λ q k. refl)
      | inr p ↦ elim (Bool-cases done) [
        | inr q ↦
            rw (p, q) (stop-Carried buf size i total infos m (omega arith) fits (ground arith))
        | inl q ↦ elim (Bool-cases (next_wrapped_n 0 last i == 0)) [
          | inl z ↦
              let e : i ≡ last = unfold next_wrapped_n in ground arith in
              rw (p, q, z) (last-Carried buf size i total infos m (omega arith) fits q)
          | inr z ↦
              let e : next_wrapped_n 0 last i ≡ suc i = unfold next_wrapped_n in ground arith in
              let more : i < last = unfold next_wrapped_n in ground arith in
              let m1 = copy m (buf + total) (slice m d.send_pos part) in
              rw (p, q, z, e)
                (more-Outcome buf size i total lo infos m
                  (collect fuel infos last size buf (suc i) (total + part) m1) (omega arith) fits
                  below apart q
                  (collect-Outcome fuel buf size last (suc i) (total + part) lo infos m1 n
                    (omega arith) (part_size-fits d total size fits) (omega arith) apart))
        ]
      ]
    ]
