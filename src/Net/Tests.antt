-- ===== src/Net/Tests.antt =====
-- A packet of 100 bytes to port 8001 over a template with addresses.
use ntr_hr.Base.{◌≡◌, refl, [], ◌∷◌, arith}
use ntr_hr.Base.Memory.{Memory, copy, slice}
use ntr_hr.Net.Packet.{init_udp_packet, ip_checksum, fill_headers, sum_loop, finish, ntohs}
use ntr_hr.Net.Checksum.{word_at, word_sum, fold_carries, IsBytes, header_checks}

-- 0x45 and the addresses 192.168.0.1 and 192.168.0.2 in place.
abbrev template : Memory
template =
    copy (copy (λ q. 0) 0x16 (0x45 ∷ 0 ∷ [])) 0x22 (192 ∷ 168 ∷ 0 ∷ 1 ∷ 192 ∷ 168 ∷ 0 ∷ 2 ∷ [])

template-IsBytes : IsBytes template
unfolding copy
template-IsBytes q = ground arith

header :
    slice (init_udp_packet 8001 100 template).1 0x16 20
    ≡ 0x45 ∷ 0 ∷ 0 ∷ 128 ∷ 1 ∷ 0xaf ∷ 0x40 ∷ 0 ∷ 0x40 ∷ 17 ∷ 0xb7 ∷ 0x6a ∷ 192 ∷ 168 ∷ 0 ∷ 1 ∷ 192
      ∷ 168 ∷ 0 ∷ 2 ∷ []
unfolding init_udp_packet ip_checksum fill_headers sum_loop finish ntohs copy slice
header = refl

header_checks_example :
    let (size, m') = init_udp_packet 8001 100 template in
    (fold_carries (word_sum m' 0x16 10) ≡ 65535)
    × (word_at m' 0x18 ≡ 128)
    × (word_at m' 0x2e ≡ 108)
    × (word_at m' 0x2a ≡ 8000)
    × (word_at m' 0x2c ≡ 8001)
    × (word_at m' 12 ≡ size)
    × (size ≡ 150)
header_checks_example = header_checks 8001 100 template template-IsBytes (omega arith) (omega arith)
