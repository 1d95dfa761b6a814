-- ===== src/Net/Packet.antt =====
-- init_udp_packet, ip_checksum and nwm_output. Addresses are relative to `nwm_buf`. The machine
-- is little-endian, so a u16 is stored with its low byte first.
use ntr_hr.Base.{ℕ, zero, suc, ◌+◌, ◌*◌, ◌/◌, ◌%◌, List, bit_and, ◌==◌, if◌then◌else◌}
use ntr_hr.Base.Word.{u8, u16, u32, shr, not32}
use ntr_hr.Base.Memory.{Memory, store, copy, slice}

-- `v.to_be()` and `v.swap_bytes()` on a u16.
unfoldable pub htons : ℕ → ℕ
htons v = v % 256 * 256 + v / 256

unfoldable pub ntohs : ℕ → ℕ
ntohs v = v % 256 * 256 + v / 256

abbrev pub load16 : Memory → ℕ → ℕ
load16 m p = m p + m (p + 1) * 256

abbrev pub store16 : Memory → ℕ → ℕ → Memory
store16 m p v = store (store m p (u8 v)) (p + 1) (u8 (v / 256))

-- `for i in 0..length`, with `n` rounds left.
unfoldable pub sum_loop : Memory → ℕ → ℕ → ℕ → ℕ → ℕ
sum_loop m p zero i acc = acc
sum_loop m p (suc n) i acc = sum_loop m p n (i + 1) (u32 (acc + ntohs (load16 m (p + 2 * i))))

-- The checksum of an accumulated sum.
unfoldable pub finish : ℕ → ℕ
unfolding htons
finish acc =
    let acc' = u32 (bit_and acc 0xffff + shr acc 16) in
    let acc'' = u32 (acc' + shr acc' 16) in htons (u16 (not32 acc''))

-- An odd length is padded by a zero byte in memory.
unfoldable pub ip_checksum : ℕ → ℕ → Memory → ℕ × Memory
ip_checksum p length m =
    if length % 2 == 0
    then (finish (sum_loop m p (length / 2) 0 0), m)
    else (let m' = store m (p + length) 0 in (finish (sum_loop m' p ((length + 1) / 2) 0 0), m'))

abbrev pub rp_src_port : ℕ
rp_src_port = 8000

-- The headers up to the checksum, for a datagram of `len` bytes in all.
unfoldable pub fill_headers : ℕ → ℕ → Memory → Memory
unfolding htons
fill_headers dst_port len m =
    let udp_len = u32 (len + 8) in
    let ip_len = u32 (udp_len + 20) in
    let m1 = store16 m (0x22 + 8) (htons (u16 rp_src_port)) in
    let m2 = store16 m1 (0x24 + 8) (htons (u16 dst_port)) in
    let m3 = store16 m2 (0x26 + 8) (htons (u16 udp_len)) in
    let m4 = store16 m3 (0x28 + 8) 0 in
    let m5 = store16 m4 (0x10 + 8) (htons (u16 ip_len)) in
    let m6 = store16 m5 (0x12 + 8) 0xaf01 in
    let m7 = store16 m6 (0x14 + 8) 0x0040 in
    let m8 = store16 m7 (0x16 + 8) 0x1140 in store16 m8 (0x18 + 8) 0

-- It returns the size of the frame and leaves the headers in memory.
unfoldable pub init_udp_packet : ℕ → ℕ → Memory → ℕ × Memory
unfolding htons
init_udp_packet dst_port len m =
    let (sum, m') = ip_checksum (0xE + 8) 0x14 (fill_headers dst_port len m) in
    let frame_len = u32 (u32 (u32 (len + 8) + 20) + 22) in
    (frame_len, store16 (store16 m' (0x18 + 8) sum) 12 (htons (u16 frame_len)))

-- nwm_output copies the current header in front, and hands `nwm_size` bytes from there on to
-- nwmSendPacket.
unfoldable pub nwm_output : List ℕ → ℕ → ℕ → Memory → List ℕ × Memory
nwm_output hdr dst_port packet_size m =
    let (nwm_size, m') = init_udp_packet dst_port packet_size (copy m 0 hdr) in
    (slice m' 0 nwm_size, m')
