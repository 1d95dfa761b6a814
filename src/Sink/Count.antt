-- ===== src/Sink/Count.antt =====
-- The counters of compressed bytes: rp_update_size adds to a u32, rp_dq_update_size keeps a byte
-- count and a block count in one u32.
use ntr_hr.Base.{
  ℕ, ◌+◌, ◌-◌, ◌*◌, ◌/◌, ◌%◌, ◌^◌, ◌<◌, ◌≡◌, List, [], ◌∷◌, bit_and, bit_or, arith, and_low,
  or_disjoint_low,
}
use ntr_hr.Base.Word.{u32, shl32, shr}

abbrev pub size_nbits : ℕ
size_nbits = 19

abbrev pub blkn_nbits : ℕ
blkn_nbits = 13

-- The new value of the counter for the current value `curr`. The shift of the byte-count mask
-- is on u32; both sums wrap before they are masked.
unfoldable pub dq_next : ℕ → ℕ → ℕ → ℕ
dq_next curr size blkn =
    let prev_size = bit_and curr (2 ^ 19 - 1) in
    let prev_blkn = bit_and (shr curr 19) (2 ^ 13 - 1) in
    let next_size = u32 (prev_size + size) in
    let next_blkn = u32 (prev_blkn + blkn) in
    bit_or (bit_and next_size (2 ^ 19 - 1)) (shl32 (bit_and next_blkn (2 ^ 13 - 1)) 19)

-- One round of the loop meets another writer's value (`some v`, the exchange fails and `curr`
-- becomes `v`) or none (the exchange succeeds). The list holds the failures in order.
unfoldable pub dq_update_size : ℕ → List ℕ → ℕ → ℕ → ℕ
dq_update_size curr [] size blkn = dq_next curr size blkn
dq_update_size curr (temp ∷ rest) size blkn = dq_update_size temp rest size blkn

-- fetch_add on u32.
unfoldable pub update_size : ℕ → ℕ → ℕ
update_size total size = u32 (total + size)

abbrev pub size_of : ℕ → ℕ
size_of c = c % 2 ^ 19

abbrev pub blkn_of : ℕ → ℕ
blkn_of c = c / 2 ^ 19

-- The value that the successful exchange met: the last failure's, or the one first read.
abbrev pub last_seen : ℕ → List ℕ → ℕ
last_seen curr [] = curr
last_seen curr (temp ∷ rest) = last_seen temp rest

-- With the masks read as remainders the word is a sum of two fields.
dq_next_as_sum :
    (curr size blkn : ℕ)
    → curr < 2 ^ 32
    → dq_next curr size blkn
      ≡ ((blkn_of curr + blkn) % 2 ^ 13) * 2 ^ 19 + (size_of curr + size) % 2 ^ 19
unfolding dq_next
dq_next_as_sum curr size blkn h =
    rw
      (
        and_low 19 curr,
        and_low 13 (shr curr 19),
        and_low 19 (u32 (curr % 2 ^ 19 + size)),
        and_low 13 (u32 (shr curr 19 % 2 ^ 13 + blkn)),
      )
      (ground (
        arith,
        or_disjoint_low 19 (u32 (shr curr 19 % 2 ^ 13 + blkn) % 2 ^ 13)
            (u32 (curr % 2 ^ 19 + size) % 2 ^ 19) (omega arith),
      ))

dq_next-lt : (curr size blkn : ℕ) → curr < 2 ^ 32 → dq_next curr size blkn < 2 ^ 32
dq_next-lt curr size blkn h = omega (arith, dq_next_as_sum curr size blkn h)

-- Whatever other writers did before the exchange succeeds, both halves of the counter word are
-- the halves of the value that it met, with the bytes added modulo 2 ^ 19 and the blocks modulo
-- 2 ^ 13, and neither carries into the other. All values are u32.
pub dq_update_size_fields :
    (curr : ℕ) (seen : List ℕ) (size blkn : ℕ)
    → last_seen curr seen < 2 ^ 32
    → (size_of (dq_update_size curr seen size blkn)
        ≡ (size_of (last_seen curr seen) + size) % 2 ^ 19)
      × (blkn_of (dq_update_size curr seen size blkn)
          ≡ (blkn_of (last_seen curr seen) + blkn) % 2 ^ 13)
unfolding dq_update_size
dq_update_size_fields curr [] size blkn h = omega (arith, dq_next_as_sum curr size blkn h)
dq_update_size_fields curr (temp ∷ rest) size blkn h = dq_update_size_fields temp rest size blkn h
