-- ===== src/Net/Checksum.antt =====
-- The IP header checks, and its length fields are those of the datagram.
use ntr_hr.Base.{
  ℕ, zero, suc, ◌+◌, ◌*◌, ◌/◌, ◌%◌, ◌^◌, ◌≤◌, ◌<◌, ◌≡◌, refl, ap, ◌∙◌, arith, and_low,
}
use ntr_hr.Base.Word.{u16, u32, not32}
use ntr_hr.Base.Memory.{Memory}
use ntr_hr.Net.Packet.{
  htons, ntohs, load16, store16, sum_loop, finish, ip_checksum, fill_headers, init_udp_packet,
}

-- The big-endian word at an address, as the receiver reads it.
abbrev pub word_at : Memory → ℕ → ℕ
word_at m p = m p * 256 + m (p + 1)

-- The sum of `n` words from `p` on.
abbrev pub word_sum : Memory → ℕ → ℕ → ℕ
word_sum m p zero = 0
word_sum m p (suc n) = word_at m p + word_sum m (p + 2) n

-- One's-complement addition of the carries, twice.
abbrev pub fold_carries : ℕ → ℕ
fold_carries t = let a = t % 65536 + t / 65536 in a % 65536 + a / 65536

abbrev pub IsBytes : Memory → Type 0
IsBytes m = (q : ℕ) → m q < 256

ntohs-load16 : (m : Memory) (p : ℕ) → IsBytes m → ntohs (load16 m p) ≡ word_at m p
unfolding ntohs
ntohs-load16 m p h = omega (arith, h p, h (p + 1))

word_sum-le : (m : Memory) (p n : ℕ) → IsBytes m → word_sum m p n ≤ n * 65535
word_sum-le m p zero h = omega arith
word_sum-le m p (suc n) h = omega (arith, h p, h (p + 1), word_sum-le m (p + 2) n h)

-- The accumulator does not wrap over a header.
sum_loop-eq :
    (m : Memory) (p n i acc : ℕ)
    → IsBytes m
    → acc + n * 65535 < 2 ^ 32
    → sum_loop m p n i acc ≡ acc + word_sum m (p + 2 * i) n
unfolding sum_loop
sum_loop-eq m p zero i acc b h = omega arith
sum_loop-eq m p (suc n) i acc b h =
    let e : p + 2 * (i + 1) ≡ p + 2 * i + 2 = omega arith in
    let f : u32 (acc + ntohs (load16 m (p + 2 * i))) ≡ acc + word_at m (p + 2 * i) =
      omega (arith, ntohs-load16 m (p + 2 * i) b, b (p + 2 * i), b (p + 2 * i + 1)) in
    rw
      (
        f,
        sum_loop-eq m p n (i + 1) (acc + word_at m (p + 2 * i)) b
            (omega (arith, b (p + 2 * i), b (p + 2 * i + 1))),
        e,
      )
      (omega arith)

swap_swap : (x : ℕ) → x < 2 ^ 16 → (htons x < 2 ^ 16) × (ntohs (htons x) ≡ x)
unfolding htons ntohs
swap_swap x h = (omega arith, omega arith)

-- The complement of a sum with its carries added, taken to 16 bits.
abbrev complement : ℕ → ℕ
complement t = let a = t % 65536 + t / 65536 in u16 (not32 (a + a / 65536))

complement_completes : (t : ℕ) → t < 655360 → fold_carries (t + complement t) ≡ 65535
complement_completes t h =
    let q = t / 65536 in
    let r = t % 65536 in
    let e : t ≡ 65536 * q + r = omega arith in
    let small : q < 10 = omega arith in let low : r < 65536 = omega arith in rw e (omega arith)

finish-eq : (t : ℕ) → t < 655360 → finish t ≡ htons (complement t)
unfolding finish
finish-eq t h = rw (and_low 16 t) (ap htons omega arith)

filled-IsBytes : (port len : ℕ) (m : Memory) → IsBytes m → IsBytes (fill_headers port len m)
unfolding fill_headers
filled-IsBytes port len m b q = ground (arith, b q)

-- A checksum stored over a zero adds its word to the sum of the header.
sum-stored :
    (m : Memory) (c size : ℕ)
    → m 0x20 ≡ 0
    → m 0x21 ≡ 0
    → c < 2 ^ 16
    → word_sum (store16 (store16 m 0x20 c) 12 size) 0x16 10 ≡ word_sum m 0x16 10 + ntohs c
unfolding ntohs
sum-stored m c size z z' h = omega arith

checksum_field :
    (m : Memory)
    → IsBytes m
    → let t = word_sum m 0x16 10 in
      (t < 655360) × (finish (sum_loop m 0x16 10 0 0) ≡ htons (complement t))
checksum_field m b =
    let le : word_sum m 0x16 10 < 655360 = omega (arith, word_sum-le m 0x16 10 b) in
    let e : 0 + word_sum m 0x16 10 ≡ word_sum m 0x16 10 = omega arith in
    (
      le,
      ap finish (sum_loop-eq m 0x16 10 0 0 b (omega arith) ∙ e) ∙ finish-eq (word_sum m 0x16 10) le,
    )

verified :
    (m : Memory) (size : ℕ)
    → IsBytes m
    → m 0x20 ≡ 0
    → m 0x21 ≡ 0
    → fold_carries
        (word_sum (store16 (store16 m 0x20 (finish (sum_loop m 0x16 10 0 0))) 12 size) 0x16 10)
      ≡ 65535
verified m size b z z' =
    let (le, e) = checksum_field m b in
    let t = word_sum m 0x16 10 in
    let (small, swapped) = swap_swap (complement t) (omega arith) in
    ap fold_carries (
      ap (λ c. word_sum (store16 (store16 m 0x20 c) 12 size) 0x16 10) e
      ∙ sum-stored m (htons (complement t)) size z z' small
      ∙ ap (λ k. t + k) swapped)
    ∙ complement_completes t le

-- A receiver's checks pass, for a packet whose sizes fit 16 bits and whatever template bytes the
-- memory holds: the IP header sums to all ones, its length field is that of the IP datagram, the
-- length in the UDP header is 20 less, the ports are the stream's, and the length in the frame's
-- own header is the size returned, 50 more than the payload.
pub header_checks :
    (port len : ℕ) (m : Memory)
    → IsBytes m
    → len + 50 < 2 ^ 16
    → port < 2 ^ 16
    → let (size, m') = init_udp_packet port len m in
      (fold_carries (word_sum m' 0x16 10) ≡ 65535)
      × (word_at m' 0x18 ≡ len + 28)
      × (word_at m' 0x2e ≡ len + 8)
      × (word_at m' 0x2a ≡ 8000)
      × (word_at m' 0x2c ≡ port)
      × (word_at m' 12 ≡ size)
      × (size ≡ len + 50)
unfolding init_udp_packet ip_checksum fill_headers
header_checks port len m b h k = (
  verified (fill_headers port len m) (htons (u16 (u32 (u32 (u32 (len + 8) + 20) + 22))))
      (filled-IsBytes port len m b) refl refl,
  omega arith,
  omega arith,
  omega arith,
  omega arith,
  omega arith,
  omega arith,
)

-- Nothing behind the headers changes, so the payload goes out as it was written.
pub payload_kept :
    (port len : ℕ) (m : Memory) (q : ℕ) → 50 ≤ q → (init_udp_packet port len m).1 q ≡ m q
unfolding init_udp_packet ip_checksum fill_headers
payload_kept port len m q h = ground arith
