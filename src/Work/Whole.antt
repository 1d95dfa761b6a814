-- ===== src/Work/Whole.antt =====
-- The bytes of the captured picture that send_frame gives to the threads are all of its bytes.
use ntr_hr.Base.{
  ℕ, zero, suc, ◌+◌, ◌-◌, ◌*◌, ◌^◌, ◌≤◌, ◌≡◌, Bool, true, false, refl, arith, List, [], ◌∷◌, ◌++◌,
  length, ap₂, ◌∙◌, ◌≢◌, ◌==◌, get_or, replicate, if◌then◌else◌,
}
use ntr_hr.Base.Word.{u32}
use ntr_hr.Ranged.Index.{prev_wrapped_n}
use ntr_hr.Lossless.Format.{Downsample, whole, checker, even_odd, quarter, downsample_factor}
use ntr_hr.Work.Picture.{TopScreenWidth, pitch, src_len, rp_screen_height, set_comp_infos}
use ntr_hr.Work.Rows.{
  WorkRows, LastRow, send_frame_src, scaled, init_work, set_starts, set_counts, core_count_max,
  lossless_block_size, mcu_dims, last_restart_range, split_rows,
}
use ntr_hr.Work.Cover.{lines, IsCover, mcu_dims-IsCover}
use ntr_hr.Work.Share.{split_rows-IsShared}
use ntr_hr.Work.Slices.{part, one_part, two_parts, three_parts}

-- What the threads from `t` on encode, one behind the other.
unfoldable pub parts_from :
    {A : Type 0}
    → ℕ
    → (format : ℕ) (d : Downsample) (lossless : Bool) (mcu_col_size : ℕ) → WorkRows
    → (t : ℕ) → List A
    → List A
parts_from zero format d lossless mcu_col_size r t src = []
parts_from (suc k) format d lossless mcu_col_size r t src =
    send_frame_src format d lossless mcu_col_size r t src
    ++ parts_from k format d lossless mcu_col_size r (t + 1) src

-- The bytes of `n` rows of MCUs.
abbrev row_bytes : ℕ → Downsample → Bool → ℕ → ℕ → ℕ
row_bytes format d lossless mcu_col_size n =
    (if lossless then lossless_block_size else mcu_col_size) * pitch format * scaled d lossless n

row_bytes_lem :
    (format : ℕ) (d : Downsample) (lossless : Bool) (mcu_col_size n : ℕ)
    → n ≤ 2 ^ 9
    → row_bytes format d lossless mcu_col_size n ≡ lines d lossless mcu_col_size * n * pitch format
unfolding scaled
row_bytes_lem format whole true mcs n h = grind arith
row_bytes_lem format checker true mcs n h = grind arith
row_bytes_lem format even_odd true mcs n h = grind arith
row_bytes_lem format quarter true mcs n h = grind arith
row_bytes_lem format whole false mcs n h = grind arith
row_bytes_lem format checker false mcs n h = grind arith
row_bytes_lem format even_odd false mcs n h = grind arith
row_bytes_lem format quarter false mcs n h =
    let e : u32 (n * downsample_factor) ≡ n * 2 = omega arith in rw e (grind arith)

thread_src :
    {A : Type 0} (format : ℕ) (d : Downsample) (lossless : Bool) (mcs : ℕ) (r : WorkRows)
    (t i n : ℕ) (src : List A)
    → get_or r.i_start t 0 ≡ i
    → get_or r.i_count t 0 ≡ n
    → send_frame_src format d lossless mcs r t src
      ≡ part
          (row_bytes format d lossless mcs i)
          (row_bytes format d lossless mcs i + row_bytes format d lossless mcs n)
          src
unfolding send_frame_src
thread_src format d lossless mcs r t i n src e f = rw (e, f) refl

mul_mono : (a b p : ℕ) → a ≤ b → a * p ≤ b * p
mul_mono a b p h = grind arith

add_mul : (a b p : ℕ) → (a + b) * p ≡ a * p + b * p
add_mul a b p = grind arith

-- The last row starts inside of the picture, and the rows reach its end.
reach :
    (unit before last height p : ℕ)
    → unit * (before + last - 1) ≤ height
    → height ≤ unit * (before + last)
    → 1 ≤ last
    → (unit * before * p ≤ height * p) × (height * p ≤ unit * before * p + unit * last * p)
reach unit before last height p h k one =
    let low : unit * before ≤ unit * (before + last - 1) = grind arith in
    let high : unit * (before + last) ≡ unit * before + unit * last = grind arith in
    let a : unit * before ≤ height = omega (arith, low) in
    let b : height ≤ unit * before + unit * last = omega (arith, high) in
    (
      mul_mono (unit * before) height p a,
      rw (← add_mul (unit * before) (unit * last) p)
          (mul_mono height (unit * before + unit * last) p b),
    )

-- What init_work leaves for the threads in use.
module _ (v v_last : ℕ) where
  starts_one : set_starts 1 0 v (replicate core_count_max 0) ≡ (0 ∷ 0 ∷ 0 ∷ [])
  unfolding set_starts
  starts_one = let e : u32 (v * 0) ≡ 0 = omega arith in rw e refl

  starts_two : v ≤ 2 ^ 8 → set_starts 2 0 v (replicate core_count_max 0) ≡ (0 ∷ v ∷ 0 ∷ [])
  unfolding set_starts
  starts_two few =
      let e : u32 (v * 0) ≡ 0 = omega arith in
      let f : u32 (v * 1) ≡ v = omega arith in rw (e, f) refl

  starts_three : v ≤ 2 ^ 8 → set_starts 3 0 v (replicate core_count_max 0) ≡ (0 ∷ v ∷ (v + v) ∷ [])
  unfolding set_starts
  starts_three few =
      let e : u32 (v * 0) ≡ 0 = omega arith in
      let f : u32 (v * 1) ≡ v = omega arith in
      let g : u32 (v * 2) ≡ v + v = omega arith in rw (e, f, g) refl

  counts_one : set_counts 1 0 0 v v_last (replicate core_count_max 0) ≡ (v_last ∷ 0 ∷ 0 ∷ [])
  unfolding set_counts
  counts_one = refl

  counts_two : set_counts 2 0 1 v v_last (replicate core_count_max 0) ≡ (v ∷ v_last ∷ 0 ∷ [])
  unfolding set_counts
  counts_two = refl

  counts_three : set_counts 3 0 2 v v_last (replicate core_count_max 0) ≡ (v ∷ v ∷ v_last ∷ [])
  unfolding set_counts
  counts_three = refl

module _ {A : Type 0} (format : ℕ) (d : Downsample) (lossless : Bool) (mcs : ℕ) (r : WorkRows)
    (v v_last : ℕ) (src : List A) where
  abbrev bytes : ℕ → ℕ
  bytes n = lines d lossless mcs * n * pitch format

  thread_part :
      (t i n x : ℕ)
      → get_or r.i_start t 0 ≡ i
      → get_or r.i_count t 0 ≡ n
      → i ≤ 2 ^ 9
      → n ≤ 2 ^ 9
      → bytes i ≡ x
      → send_frame_src format d lossless mcs r t src ≡ part x (x + bytes n) src
  thread_part t i n x e f few_i few_n g =
      thread_src format d lossless mcs r t i n src e f
      ∙ ap₂ (λ j k. part j (j + k) src) (row_bytes_lem format d lossless mcs i few_i ∙ g)
          (row_bytes_lem format d lossless mcs n few_n)

  bytes_zero : bytes 0 ≡ 0
  bytes_zero = grind arith

  bytes_two : bytes (v + v) ≡ bytes v + bytes v
  bytes_two = grind arith

  parts_one :
      r.i_start ≡ 0 ∷ 0 ∷ 0 ∷ []
      → r.i_count ≡ v_last ∷ 0 ∷ 0 ∷ []
      → v_last ≤ 2 ^ 8
      → length src ≤ bytes v_last
      → parts_from 1 format d lossless mcs r 0 src ≡ src
  unfolding parts_from
  parts_one e f few h =
      rw (thread_part 0 0 v_last 0 (rw e refl) (rw f refl) (omega arith) (omega arith) bytes_zero)
        (one_part 0 (bytes v_last) src h)

  parts_two :
      r.i_start ≡ 0 ∷ v ∷ 0 ∷ []
      → r.i_count ≡ v ∷ v_last ∷ 0 ∷ []
      → v ≤ 2 ^ 8
      → v_last ≤ 2 ^ 8
      → bytes v ≤ length src
      → length src ≤ bytes v + bytes v_last
      → parts_from 2 format d lossless mcs r 0 src ≡ src
  unfolding parts_from
  parts_two e f few last h k =
      rw
        (
          thread_part 0 0 v 0 (rw e refl) (rw f refl) (omega arith) (omega arith) bytes_zero,
          thread_part 1 v v_last (bytes v) (rw e refl) (rw f refl) (omega arith) (omega arith) refl,
        )
        (two_parts (bytes v) (bytes v_last) src h k)

  parts_three :
      r.i_start ≡ 0 ∷ v ∷ (v + v) ∷ []
      → r.i_count ≡ v ∷ v ∷ v_last ∷ []
      → v ≤ 2 ^ 8
      → v_last ≤ 2 ^ 8
      → bytes v + bytes v ≤ length src
      → length src ≤ bytes v + bytes v + bytes v_last
      → parts_from 3 format d lossless mcs r 0 src ≡ src
  unfolding parts_from
  parts_three e f few last h k =
      rw
        (
          thread_part 0 0 v 0 (rw e refl) (rw f refl) (omega arith) (omega arith) bytes_zero,
          thread_part 1 v v (bytes v) (rw e refl) (rw f refl) (omega arith) (omega arith) refl,
          thread_part 2 (v + v) v_last (bytes v + bytes v) (rw e refl) (rw f refl) (omega arith)
              (omega arith) bytes_two,
        )
        (three_parts (bytes v) (bytes v_last) src h k)

-- For each number of threads.
parts_dealt :
    {A : Type 0} (core_count format : ℕ) (d : Downsample) (lossless : Bool) (mcs : ℕ) (r : WorkRows)
    (v v_last rows height : ℕ) (src : List A)
    → 1 ≤ core_count
    → core_count ≤ 3
    → r.i_start ≡ set_starts core_count 0 v (replicate core_count_max 0)
    → r.i_count ≡ set_counts core_count 0 (core_count - 1) v v_last (replicate core_count_max 0)
    → IsCover (lines d lossless mcs) rows height
    → v * (core_count - 1) + v_last ≡ rows
    → 1 ≤ v_last
    → length src ≡ height * pitch format
    → parts_from core_count format d lossless mcs r 0 src ≡ src
parts_dealt zero format d lossless mcs r v v_last rows height src a b e f c g one len =
    absurd (omega arith)
parts_dealt (suc zero) format d lossless mcs r v v_last rows height src a b e f c g one len =
    let same : rows ≡ v_last = omega (arith, g) in
    let covered = rw same at (c.covers) in
    parts_one format d lossless mcs r v v_last src (e ∙ starts_one v v_last)
      (f ∙ counts_one v v_last) (omega (arith, c.many))
      (rw len (mul_mono height (lines d lossless mcs * v_last) (pitch format) covered))
parts_dealt (suc (suc zero)) format d lossless mcs r v v_last rows height src a b e f c g one len =
    let few : v + v_last ≤ 2 ^ 8 = omega (arith, c.many) in
    let same : v + v_last ≡ rows = omega arith in
    let k =
      reach (lines d lossless mcs) v v_last height (pitch format) (rw same c.whole_rows)
        (rw same c.covers) one in
    parts_two format d lossless mcs r v v_last src (e ∙ starts_two v v_last (omega arith))
      (f ∙ counts_two v v_last) (omega arith) (omega arith) (rw len k.0) (rw len k.1)
parts_dealt (suc (suc (suc zero))) format d lossless mcs r v v_last rows height src a b e f c g one
      len =
    let few : v + v + v_last ≤ 2 ^ 8 = omega (arith, c.many) in
    let same : v + v + v_last ≡ rows = omega arith in
    let k =
      reach (lines d lossless mcs) (v + v) v_last height (pitch format) (rw same c.whole_rows)
        (rw same c.covers) one in
    let twice = bytes_two format d lossless mcs r v v_last src in
    parts_three format d lossless mcs r v v_last src (e ∙ starts_three v v_last (omega arith))
      (f ∙ counts_three v v_last) (omega arith) (omega arith) (rw (len, ← twice) k.0)
      (rw (len, ← twice) k.1)
parts_dealt (suc (suc (suc (suc n)))) format d lossless mcs r v v_last rows height src a b e f c g
      one len =
    absurd (omega arith)

-- The threads' parts of the captured picture, one behind the other, are the picture, for one to
-- three threads, every format and width, and all but the checker; `l` is what the frames before
-- left, with a row count in its range, and `checker_per_row` and `checker_rows` are not looked at.
pub init_work-parts :
    {A : Type 0} (core_count : ℕ) (dp lossless : Bool) (d : Downsample) (wide : TopScreenWidth)
    (is_top : Bool) (hq format checker_per_row checker_rows w : ℕ) (flag : Bool) (l : LastRow)
    (src : List A)
    → 1 ≤ core_count
    → core_count ≤ 3
    → d ≢ checker
    → l.n ≤ last_restart_range dp
    → length src ≡ src_len format wide is_top
    → (let screen = set_comp_infos d wide is_top hq in
        let dims = mcu_dims lossless d wide is_top screen checker_per_row checker_rows in
        parts_from core_count format d lossless screen.mcu_col_size
          (init_work core_count dims.0 dims.1 (last_restart_range dp) w d flag l)
          0
          src
        ≡ src)
unfolding init_work src_len
init_work-parts core_count dp lossless d wide is_top hq format pr cr w flag l src one three n low
      e =
    let screen = set_comp_infos d wide is_top hq in
    let dims = mcu_dims lossless d wide is_top screen pr cr in
    let cover = mcu_dims-IsCover lossless d wide is_top hq pr cr n in
    let t_last = l.w == prev_wrapped_n 0 1 w in
    let s = split_rows core_count dims.1 (last_restart_range dp) t_last l.n in
    let shared =
      split_rows-IsShared core_count dims.1 dp t_last l.n one three cover.few
        (omega (arith, cover.many)) low in
    parts_dealt core_count format d lossless screen.mcu_col_size
      (init_work core_count dims.0 dims.1 (last_restart_range dp) w d flag l) s.v_adjusted
      s.v_last_adjusted dims.1 (rp_screen_height wide is_top) src one three refl refl cover
      shared.all shared.some_last e
