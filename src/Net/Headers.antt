-- ===== src/Net/Headers.antt =====
-- The headers of a packet touch only the bytes in front of its data.
use ntr_hr.Base.{
  ℕ, ◌+◌, ◌-◌, ◌≤◌, ◌≡◌, refl, ap, ◌∙◌, Bool, false, ◌&&◌, List, ◌∷◌, ◌++◌, ltb, ◌==◌,
  if◌then◌else◌, length, arith, Bool-cases, inl, inr,
}
use ntr_hr.Base.Memory.{Memory, copy, slice, slice-add, slice_ext, copy_outside, length-slice}
use ntr_hr.Net.Packet.{nwm_output}
use ntr_hr.Net.Checksum.{payload_kept}
use ntr_hr.Net.Sender.{
  Sender, Collected, send_packet, packet_hdrs, put_data_hdr, put_lossless_hdr, rp_output,
}
use ntr_hr.Net.Carry.{Same, Same-trans, Same-widen}

-- The headers' buffers have their sizes, and there is room for them in front of the data.
pub record HasRoom (buf : ℕ) (s : Sender) : Type 0 where
  pub room : 56 ≤ buf
  pub nwm : length s.nwm_hdr ≡ 50
  pub four : length s.data_buf_hdr ≡ 4
  pub extra : length s.lossless_data_hdr ≡ 2

abbrev pub hdr_size : Sender → ℕ
hdr_size s = 4 + (if s.lossless then 2 else 0)

put_data_hdr-Same :
    (p flag : ℕ) (hdr : List ℕ) (ends : Bool) (m : Memory) (hi : ℕ)
    → length hdr ≡ 4
    → p + 4 ≤ hi
    → Same p hi (put_data_hdr p hdr flag ends m) m
unfolding put_data_hdr
put_data_hdr-Same p flag hdr ends m hi n le q (inl below) =
    ground (arith, copy_outside m p hdr q (inl below), Bool-cases ends)
put_data_hdr-Same p flag hdr ends m hi n le q (inr above) =
    ground (arith, copy_outside m p hdr q (inr (omega arith)), Bool-cases ends)

put_lossless_hdr-Same :
    (p t : ℕ) (hdr : List ℕ) (m : Memory)
    → length hdr ≡ 2
    → Same p (p + 2) (put_lossless_hdr p hdr t m) m
unfolding put_lossless_hdr
put_lossless_hdr-Same p t hdr m n q (inl below) = ground (arith, copy_outside m p hdr q (inl below))
put_lossless_hdr-Same p t hdr m n q (inr above) =
    ground (arith, copy_outside m p hdr q (inr (omega arith)))

packet_hdrs-Same :
    (buf t flag : ℕ) (ends : Bool) (s : Sender)
    → HasRoom buf s
    → Same (buf - hdr_size s) buf (packet_hdrs buf t flag ends s).mem s.mem
unfolding packet_hdrs
packet_hdrs-Same buf t flag ends s v = elim (Bool-cases s.lossless) [
  | inr p ↦ rw p (
      put_data_hdr-Same (buf - 4) flag s.data_buf_hdr ends s.mem buf v.four (omega (arith, v.room)))
  | inl p ↦
      let m = put_data_hdr (buf - 2 - 4) s.data_buf_hdr flag ends s.mem in
      let a : Same (buf - 2 - 4) buf m s.mem =
        put_data_hdr-Same (buf - 2 - 4) flag s.data_buf_hdr ends s.mem buf v.four
          (omega (arith, v.room)) in
      let b : Same (buf - 2) (buf - 2 + 2) (put_lossless_hdr (buf - 2) s.lossless_data_hdr t m) m =
        put_lossless_hdr-Same (buf - 2) t s.lossless_data_hdr m v.extra in
      let e : buf - 2 + 2 ≡ buf = omega (arith, v.room) in
      let f : buf - 6 ≡ buf - 2 - 4 = omega arith in
      rw (p, f) (Same-trans (buf - 2 - 4) (buf - 2) buf (omega arith) (rw e at (b)) a)
]

rp_output-Same :
    (p size tick : ℕ) (s : Sender)
    → 50 ≤ p
    → length s.nwm_hdr ≡ 50
    → Same (p - 50) p (rp_output p size tick s).mem s.mem
unfolding rp_output nwm_output
rp_output-Same p size tick s h n q (inl below) = ground arith
rp_output-Same p size tick s h n q (inr above) =
    let base = p - 50 in
    let m : Memory = λ x. s.mem (base + x) in
    let kept = payload_kept s.dst_port size (copy m 0 s.nwm_hdr) (q - base) (omega arith) in
    let outside = copy_outside m 0 s.nwm_hdr (q - base) (inr (omega arith)) in
    let e : base + (q - base) ≡ q = omega arith in
    let no : ltb q base ≡ false = ground arith in rw no (kept ∙ outside ∙ ap s.mem e)

-- The packet is headers and the collected bytes, and outside of the headers memory is kept.
pub record Sent (buf total : ℕ) (s s' : Sender) : Type 0 where
  pub hdr : List ℕ
  pub output : s'.outputs ≡ (hdr ++ slice s.mem buf total) ∷ s.outputs
  pub hdr_len : length hdr ≡ hdr_size s
  pub same : Same (buf - 56) buf s'.mem s.mem
  pub infos : s'.infos ≡ s.infos
  pub thread : s'.thread_index ≡ s.thread_index
  pub work : s'.work_index ≡ s.work_index
  pub released : s'.nwm_done ≡ s.nwm_done

hdr_size-bounds : (s : Sender) → (4 ≤ hdr_size s) × (hdr_size s ≤ 6)
hdr_size-bounds s = ground (arith, Bool-cases s.lossless)

output_bytes :
    (buf total : ℕ) (s : Sender) (m : Memory)
    → hdr_size s ≤ buf
    → Same (buf - hdr_size s) buf m s.mem
    → slice m (buf - hdr_size s) (total + hdr_size s)
      ≡ slice m (buf - hdr_size s) (hdr_size s) ++ slice s.mem buf total
output_bytes buf total s m h same =
    let n = hdr_size s in
    let e : total + n ≡ n + total = omega arith in
    let f : buf - n + n ≡ buf = omega arith in
    ap (slice m (buf - n)) e
    ∙ slice-add m (buf - n) n total
    ∙ ap (λ l. slice m (buf - n) n ++ l)
        (ap (λ p. slice m p total) f ∙ slice_ext m s.mem buf total (λ q a b. same q (inr a)))

pub send_packet-Sent :
    (buf t tick flag : ℕ) (c : Collected) (s : Sender)
    → HasRoom buf s
    → Sent buf c.total_size s (send_packet buf t tick flag c s)
unfolding send_packet rp_output packet_hdrs
send_packet-Sent buf t tick flag c s v =
    let s1 = packet_hdrs buf t flag (c.end_done && c.end_index == 0) s in
    let n = hdr_size s in
    let (four, six) = hdr_size-bounds s in
    let kept : Same (buf - n) buf s1.mem s.mem =
      packet_hdrs-Same buf t flag (c.end_done && c.end_index == 0) s v in
    let sent = rp_output-Same (buf - n) (c.total_size + n) tick s1 (omega (arith, v.room)) v.nwm in
    record {
      hdr = slice s1.mem (buf - n) n;
      output =
          ap (λ l. l ∷ s.outputs)
            (output_bytes buf c.total_size s s1.mem (omega (arith, v.room)) kept);
      hdr_len = length-slice s1.mem (buf - n) n;
      same =
          Same-trans (buf - 56) (buf - n - 50) buf (omega arith)
            (Same-widen (buf - n - 50) (buf - n - 50) (buf - n) buf (omega arith) (omega arith)
              sent)
            (Same-widen (buf - 56) (buf - n) buf buf (omega arith) (omega arith) kept);
      infos = refl;
      thread = refl;
      work = refl;
      released = refl;
    }
