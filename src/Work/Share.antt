-- ===== src/Work/Share.antt =====
-- The rows that init_work gives the threads are those of the picture, and no thread is left idle.
use ntr_hr.Base.{
  ℕ, zero, suc, ◌+◌, ◌-◌, ◌*◌, ◌/◌, ◌^◌, ◌≤◌, ◌≡◌, ap, ◌∙◌, Bool, true, false, refl, arith,
  Bool-cases, inl, inr, ltb, ◌&&◌, ◌⊎◌,
}
use ntr_hr.Base.Word.{u32, sub32}
use ntr_hr.Work.Rows.{Split, split_rows, next_n, last_restart_range}

pub next_n_bounds :
    (dp t_last : Bool) (other curr : ℕ)
    → 1 ≤ other
    → other ≤ 2
    → curr ≤ last_restart_range dp
    → (1 ≤ next_n t_last (last_restart_range dp) other curr)
      × (next_n t_last (last_restart_range dp) other curr ≤ last_restart_range dp)
unfolding next_n last_restart_range
next_n_bounds true t_last other curr a b h = ground arith
next_n_bounds false t_last other curr a b h = ground arith

pub record IsShared (core_count mcu_rows range : ℕ) (s : Split) : Type 0 where
  pub all : s.v_adjusted * (core_count - 1) + s.v_last_adjusted ≡ mcu_rows
  pub some_each : 1 ≤ s.v_adjusted
  pub some_last : 1 ≤ s.v_last_adjusted
  pub low : 1 ≤ s.last_n
  pub high : s.last_n ≤ range

share_le : (n next range : ℕ) → next ≤ range → n * next ≤ n * range
share_le n next range h = grind arith

share_pos : (n next : ℕ) → 1 ≤ n → 1 ≤ next → 1 ≤ n * next
share_pos n next h k = grind arith

-- The last thread's rows before they are rounded up.
abbrev last_share : ℕ → ℕ → ℕ → ℕ
last_share n range next = u32 (u32 (n * next) + range - 1) / range

last_share_bounds :
    (dp : Bool) (n next : ℕ)
    → 1 ≤ n
    → n ≤ 2 ^ 16
    → 1 ≤ next
    → next ≤ last_restart_range dp
    → (1 ≤ last_share n (last_restart_range dp) next)
      × (last_share n (last_restart_range dp) next ≤ n)
unfolding last_restart_range
last_share_bounds true n next a b low high =
    omega (arith, share_le n next 64 high, share_pos n next a low)
last_share_bounds false n next a b low high =
    omega (arith, share_le n next 32 high, share_pos n next a low)

-- With a share of the last thread that leaves a row to each of the `other` ones.
abbrev shared : ℕ → ℕ → ℕ → ℕ → Split
shared mcu_rows other next share = record {
  v_adjusted = sub32 mcu_rows share / other;
  v_last_adjusted = sub32 mcu_rows (u32 (sub32 mcu_rows share / other * other));
  last_n = next;
}

shared-IsShared :
    (mcu_rows other range next share : ℕ)
    → (other ≡ 1) ⊎ (other ≡ 2)
    → mcu_rows ≤ 2 ^ 16
    → 1 ≤ share
    → share + other ≤ mcu_rows
    → 1 ≤ next
    → next ≤ range
    → IsShared (suc other) mcu_rows range (shared mcu_rows other next share)
shared-IsShared mcu_rows other range next share (inl e) few a b low high = ground arith
shared-IsShared mcu_rows other range next share (inr e) few a b low high = ground arith

-- The rows of the last thread where they are shared out evenly.
abbrev n_last : ℕ → ℕ → ℕ
n_last core_count mcu_rows =
    sub32 mcu_rows (u32 (u32 (mcu_rows + core_count - 1) / core_count * (core_count - 1)))

n_last_bounds :
    (core_count mcu_rows : ℕ)
    → 1 ≤ core_count
    → core_count ≤ 3
    → 5 ≤ mcu_rows
    → mcu_rows ≤ 2 ^ 16
    → (1 ≤ n_last core_count mcu_rows) × (n_last core_count mcu_rows + (core_count - 1) ≤ mcu_rows)
n_last_bounds zero mcu_rows a b h k = absurd (omega arith)
n_last_bounds (suc zero) mcu_rows a b h k = omega arith
n_last_bounds (suc (suc zero)) mcu_rows a b h k = omega arith
n_last_bounds (suc (suc (suc zero))) mcu_rows a b h k = omega arith
n_last_bounds (suc (suc (suc (suc n)))) mcu_rows a b h k = absurd (omega arith)

abbrev even : ℕ → ℕ → ℕ → Split
even core_count mcu_rows range = record {
  v_adjusted = u32 (mcu_rows + core_count - 1) / core_count;
  v_last_adjusted = n_last core_count mcu_rows;
  last_n = range;
}

even-IsShared :
    (core_count mcu_rows range : ℕ)
    → 1 ≤ core_count
    → core_count ≤ 3
    → 5 ≤ mcu_rows
    → mcu_rows ≤ 2 ^ 16
    → 1 ≤ range
    → IsShared core_count mcu_rows range (even core_count mcu_rows range)
even-IsShared zero mcu_rows range a b h k c = absurd (omega arith)
even-IsShared (suc zero) mcu_rows range a b h k c = omega arith
even-IsShared (suc (suc zero)) mcu_rows range a b h k c = omega arith
even-IsShared (suc (suc (suc zero))) mcu_rows range a b h k c = omega arith
even-IsShared (suc (suc (suc (suc n)))) mcu_rows range a b h k c = absurd (omega arith)

pub range_pos : (dp : Bool) → 1 ≤ last_restart_range dp
unfolding last_restart_range
range_pos true = omega arith
range_pos false = omega arith

split_open :
    (core_count mcu_rows range : ℕ) (t_last : Bool) (curr : ℕ)
    → (ltb 0 curr && ltb 1 core_count) ≡ true
    → split_rows core_count mcu_rows range t_last curr
      ≡ shared mcu_rows (core_count - 1) (next_n t_last range (core_count - 1) curr) (
          last_share (n_last core_count mcu_rows) range (next_n t_last range (core_count - 1) curr))
unfolding split_rows
split_open core_count mcu_rows range t_last curr e = rw e refl

split_even :
    (core_count mcu_rows range : ℕ) (t_last : Bool) (curr : ℕ)
    → (ltb 0 curr && ltb 1 core_count) ≡ false
    → split_rows core_count mcu_rows range t_last curr ≡ even core_count mcu_rows range
unfolding split_rows
split_even core_count mcu_rows range t_last curr e = rw e refl

other_cases : (other : ℕ) → 1 ≤ other → other ≤ 2 → (other ≡ 1) ⊎ (other ≡ 2)
other_cases zero a b = absurd (omega arith)
other_cases (suc zero) a b = inl refl
other_cases (suc (suc zero)) a b = inr refl
other_cases (suc (suc (suc n))) a b = absurd (omega arith)

-- Where the share of the last thread moves, with `other` threads besides it.
moved-IsShared :
    (other mcu_rows : ℕ) (dp t_last : Bool) (curr : ℕ)
    → (other ≡ 1) ⊎ (other ≡ 2)
    → 5 ≤ mcu_rows
    → mcu_rows ≤ 2 ^ 16
    → curr ≤ last_restart_range dp
    → IsShared (suc other) mcu_rows (last_restart_range dp) (
        shared mcu_rows other (next_n t_last (last_restart_range dp) other curr) (
          last_share
            (n_last (suc other) mcu_rows)
            (last_restart_range dp)
            (next_n t_last (last_restart_range dp) other curr)))
moved-IsShared other mcu_rows dp t_last curr two h k c =
    let few : (1 ≤ other) × (other ≤ 2) = ground arith in
    let next = next_n t_last (last_restart_range dp) other curr in
    let (low, high) = next_n_bounds dp t_last other curr few.0 few.1 c in
    let (some, room) = n_last_bounds (suc other) mcu_rows (omega arith) (omega arith) h k in
    let share =
      last_share_bounds dp (n_last (suc other) mcu_rows) next some (omega (arith, room)) low high in
    shared-IsShared mcu_rows other (last_restart_range dp) next
      (last_share (n_last (suc other) mcu_rows) (last_restart_range dp) next) two k share.0
      (omega (arith, share.1, room)) low high

-- The rows come to those of the picture, every thread has one, and the share stays in its range.
pub split_rows-IsShared :
    (core_count mcu_rows : ℕ) (dp t_last : Bool) (curr : ℕ)
    → 1 ≤ core_count
    → core_count ≤ 3
    → 5 ≤ mcu_rows
    → mcu_rows ≤ 2 ^ 16
    → curr ≤ last_restart_range dp
    → IsShared core_count mcu_rows
        (last_restart_range dp)
        (split_rows core_count mcu_rows (last_restart_range dp) t_last curr)
split_rows-IsShared zero mcu_rows dp t_last curr a b h k c = absurd (omega arith)
split_rows-IsShared (suc other) mcu_rows dp t_last curr a b h k c =
    let moves = λ (o : ℕ). shared mcu_rows o (next_n t_last (last_restart_range dp) o curr) (
      last_share (n_last (suc other) mcu_rows) (last_restart_range dp)
        (next_n t_last (last_restart_range dp) o curr)) in
    let less : suc other - 1 ≡ other = omega arith in
    elim (Bool-cases (ltb 0 curr && ltb 1 (suc other))) [
      | inl e ↦
          rw (split_open (suc other) mcu_rows (last_restart_range dp) t_last curr e ∙ ap moves less)
            (moved-IsShared other mcu_rows dp t_last curr
              (other_cases other (ground (arith, e)) (omega arith)) h k c)
      | inr e ↦
          rw (split_even (suc other) mcu_rows (last_restart_range dp) t_last curr e)
            (even-IsShared (suc other) mcu_rows (last_restart_range dp) a b h k (range_pos dp))
    ]
