-- ===== src/Jpeg/Headers.antt =====
-- The headers as one run of bytes, and what a reader of the segments finds in them.
use ntr_hr.Base.{
  ℕ, suc, ◌+◌, ◌-◌, ◌*◌, ◌≤◌, ◌<◌, ◌≡◌, refl, sym, true, false, List, [], ◌∷◌, ◌++◌, All,
  append_assoc, append-nil, some, ltb, ◌==◌, length, length-append, take-append, drop-append, arith,
  Bool-cases, inl, inr,
}
use ntr_hr.Base.Word.{u8, shr}
use ntr_hr.Jpeg.Tables.{HuffTbl}
use ntr_hr.Jpeg.Writer.{Out, write_byte, write_each, write_marker, HeaderInfo, write_headers}
use ntr_hr.Jpeg.Segments.{
  Segment, segment, segments, then_segment, read_segments, dqt, dht, sof, dri, sos, app0,
  header_segments, IsHuffTbl, IsHeaderInfo, header_bytes, app0-written, dqt-written, dri-written,
  dht-written, sos-written, sof-written, write_segment, segments-append, write_each-append,
  length-dht, length-frame_comps, length-scan_comps, scan_comps,
}
use ntr_hr.Sink.State.{WorkerDst, Env}
use ntr_hr.Sink.Stream.{Wrote}
use ntr_hr.Sink.Fill.{write_byte-Fills}

write_last :
    (ss : List Segment) (s : Segment) (o : Out)
    → write_each (segments (ss ++ s ∷ [])) o ≡ write_each (segment s) (write_each (segments ss) o)
unfolding segments
write_last ss s o =
    rw
      (
        segments-append ss (s ∷ []),
        append-nil (segment s),
        write_each-append (segments ss) (segment s),
      )
      refl

-- Eight segments, some, and a last one.
in_turn :
    (a b c d p q r s : Segment) (ts : List Segment) (z : Segment) (o : Out)
    → write_each (segments (a ∷ b ∷ c ∷ d ∷ p ∷ q ∷ r ∷ s ∷ ts ++ z ∷ [])) o
      ≡ write_each (segment z) (
          write_each (segments ts) (
            write_each (segment s) (
              write_each (segment r) (
                write_each (segment q) (
                  write_each (segment p) (
                    write_each (segment d) (
                      write_each
                        (segment c)
                        (write_each (segment b) (write_each (segment a) o)))))))))
in_turn a b c d p q r s ts z o =
    rw
      (
        write_last (a ∷ b ∷ c ∷ d ∷ p ∷ q ∷ r ∷ s ∷ ts) z o,
        write_segment a (b ∷ c ∷ d ∷ p ∷ q ∷ r ∷ s ∷ ts),
        write_segment b (c ∷ d ∷ p ∷ q ∷ r ∷ s ∷ ts),
        write_segment c (d ∷ p ∷ q ∷ r ∷ s ∷ ts),
        write_segment d (p ∷ q ∷ r ∷ s ∷ ts),
        write_segment p (q ∷ r ∷ s ∷ ts),
        write_segment q (r ∷ s ∷ ts),
        write_segment r (s ∷ ts),
        write_segment s ts,
      )
      refl

pub write_headers-bytes :
    (h : HeaderInfo) (o : Out) → IsHeaderInfo h → write_headers h o ≡ write_each (header_bytes h) o
unfolding write_headers write_marker write_each
write_headers-bytes h o v =
    let a : 0 < 256 = omega arith in
    let b : 1 < 256 = omega arith in
    let c : 0 < 2 = omega arith in
    let d : 1 < 2 = omega arith in
    let three = v.comps in
    let t0 = v.dc0 in
    let t1 = v.ac0 in
    let t2 = v.dc1 in
    let t3 = v.ac1 in
    rw
      (
        app0-written,
        dqt-written 0 h.quant_tbls.0,
        dqt-written 1 h.quant_tbls.1,
        sof-written h,
        dht-written 0 h.huff_tbls.dc_huff_tbls.0 false,
        dht-written 0 h.huff_tbls.ac_huff_tbls.0 true,
        dht-written 1 h.huff_tbls.dc_huff_tbls.1 false,
        dht-written 1 h.huff_tbls.ac_huff_tbls.1 true,
        dri-written h,
        sos-written h,
      )
      (sym (
        in_turn app0 (dqt 0 h.quant_tbls.0) (dqt 1 h.quant_tbls.1) (sof h)
          (dht 0 h.huff_tbls.dc_huff_tbls.0) (dht 16 h.huff_tbls.ac_huff_tbls.0)
          (dht 1 h.huff_tbls.dc_huff_tbls.1) (dht 17 h.huff_tbls.ac_huff_tbls.1) (dri h) (sos h)
          (write_byte 0xd8 (write_byte 0xff o))))

-- A segment a reader goes past.
pub record IsSegment (s : Segment) : Type 0 where
  pub short : length s.1 + 2 < 65536
  pub marker : (s.0 == 0xda) ≡ false

read_length : (n : ℕ) → n < 65536 → u8 (shr n 8) * 256 + u8 n ≡ n
read_length n h = omega arith

read_segment :
    (fuel : ℕ) (s : Segment) (bs : List ℕ)
    → IsSegment s
    → read_segments (suc fuel) (segment s ++ bs) ≡ then_segment s (read_segments fuel bs)
unfolding read_segments
read_segment fuel (m, p) bs v =
    let n : u8 (shr (length p + 2) 8) * 256 + u8 (length p + 2) - 2 ≡ length p =
      omega (arith, v.short) in
    rw (v.marker, n, take-append p bs, drop-append p bs) refl

read_last :
    (fuel : ℕ) (s : Segment)
    → length s.1 + 2 < 65536
    → (s.0 ≡ 0xda)
    → read_segments (suc fuel) (segment s) ≡ some (s ∷ [])
unfolding read_segments
read_last fuel (m, p) h e =
    let n : u8 (shr (length p + 2) 8) * 256 + u8 (length p + 2) - 2 ≡ length p = omega arith in
    let same : (length p == length p) ≡ true = ground arith in rw (e, n, same) refl

one_segment : (s : Segment) → segments (s ∷ []) ≡ segment s
unfolding segments
one_segment s = append-nil (segment s)

-- The segments before the scan, then the scan's.
read_segments-segments :
    (ss : List Segment) (s : Segment)
    → All IsSegment ss
    → length s.1 + 2 < 65536
    → (s.0 ≡ 0xda)
    → read_segments (length (ss ++ s ∷ [])) (segments ss ++ segment s) ≡ some (ss ++ s ∷ [])
unfolding segments then_segment
read_segments-segments [] s v h e = read_last 0 s h e
read_segments-segments (x ∷ xs) s v h e =
    rw
      (
        append_assoc (segment x) (segments xs) (segment s),
        read_segment (length (xs ++ s ∷ [])) x (segments xs ++ segment s) v.0,
        read_segments-segments xs s v.1 h e,
      )
      refl

write_each-Fills :
    (bs : List ℕ) {buf : ℕ} {text : List ℕ} {d : WorkerDst} {e : Env}
    → Wrote buf text d e
    → buf + length text + length bs ≤ suc e.buf_packet_last
    → let (d', e') = write_each bs (d, e) in Wrote buf (text ++ bs) d' e'
unfolding write_each write_byte
write_each-Fills [] {buf} {text} v h = rw (append-nil text) v
write_each-Fills (b ∷ bs) {buf} {text} {d} {e} v h =
    let (w, q) = write_byte-Fills b v (omega arith) in
    let r = write_each-Fills bs w (omega (arith, q, length-append text (b ∷ []))) in
    rw (append_assoc text (b ∷ []) bs) at (r)

dht-IsSegment : (i : ℕ) (tbl : HuffTbl) → IsHuffTbl tbl → IsSegment (dht i tbl)
dht-IsSegment i tbl v = record { short = omega (arith, v.few, length-dht tbl v); marker = refl }

dri-IsSegment : (h : HeaderInfo) → All IsSegment (dri h)
dri-IsSegment h = elim (Bool-cases (ltb 1 h.core_count)) [
  | inl p ↦ rw p (record { short = omega arith; marker = refl }, tt)
  | inr p ↦ rw p tt
]

abbrev before_scan : HeaderInfo → List Segment
before_scan h =
    app0
    ∷ dqt 0 h.quant_tbls.0
    ∷ dqt 1 h.quant_tbls.1
    ∷ sof h
    ∷ dht 0 h.huff_tbls.dc_huff_tbls.0
    ∷ dht 16 h.huff_tbls.ac_huff_tbls.0
    ∷ dht 1 h.huff_tbls.dc_huff_tbls.1
    ∷ dht 17 h.huff_tbls.ac_huff_tbls.1
    ∷ dri h

before_scan-IsSegment : (h : HeaderInfo) → IsHeaderInfo h → All IsSegment (before_scan h)
before_scan-IsSegment h v =
    let short_frame : length (sof h).1 + 2 < 65536 =
      omega (arith, length-frame_comps h.comp_infos, v.comps) in
    let p0 : IsSegment app0 = record { short = omega arith; marker = refl } in
    let p1 : IsSegment (dqt 0 h.quant_tbls.0) = record { short = omega arith; marker = refl } in
    let p2 : IsSegment (dqt 1 h.quant_tbls.1) = record { short = omega arith; marker = refl } in
    let p3 : IsSegment (sof h) = record { short = short_frame; marker = refl } in
    let q0 = dht-IsSegment 0 h.huff_tbls.dc_huff_tbls.0 v.dc0 in
    let q1 = dht-IsSegment 16 h.huff_tbls.ac_huff_tbls.0 v.ac0 in
    let q2 = dht-IsSegment 1 h.huff_tbls.dc_huff_tbls.1 v.dc1 in
    let q3 = dht-IsSegment 17 h.huff_tbls.ac_huff_tbls.1 v.ac1 in
    (p0, (p1, (p2, (p3, (q0, (q1, (q2, (q3, dri-IsSegment h))))))))

length-sos : (h : HeaderInfo) → IsHeaderInfo h → length (sos h).1 ≡ 10
length-sos h v = omega (
  arith,
  length-append (scan_comps h.comp_infos) (0 ∷ 63 ∷ 0 ∷ []),
  length-scan_comps h.comp_infos,
  v.comps,
)

read_headers :
    (h : HeaderInfo)
    → IsHeaderInfo h
    → read_segments (length (header_segments h)) (segments (header_segments h))
      ≡ some (header_segments h)
read_headers h v =
    let last : segments (sos h ∷ []) ≡ segment (sos h) = one_segment (sos h) in
    let fits : length (sos h).1 + 2 < 65536 = omega (arith, length-sos h v) in
    let r = read_segments-segments (before_scan h) (sos h) (before_scan-IsSegment h v) fits refl in
    rw (segments-append (before_scan h) (sos h ∷ []), last) r

-- Over plain UDP, with room for them ahead of the last packet's start, write_headers appends to
-- what the thread has written the bytes of the headers, in which a reader that goes by the marker
-- and the length of each segment finds JFIF, both quantisation tables, the frame, the four Huffman
-- tables, the restart interval when more than one thread encodes, and the scan; it wants three
-- components and Huffman tables of fewer than 256 values.
pub write_headers-readable :
    (h : HeaderInfo) {buf : ℕ} {text : List ℕ} {d : WorkerDst} {e : Env}
    → IsHeaderInfo h
    → Wrote buf text d e
    → buf + length text + length (header_bytes h) ≤ suc e.buf_packet_last
    → let (d', e') = write_headers h (d, e) in
      Wrote buf (text ++ 0xff ∷ 0xd8 ∷ segments (header_segments h)) d' e'
      × (read_segments (length (header_segments h)) (segments (header_segments h))
          ≡ some (header_segments h))
write_headers-readable h {buf} {text} {d} {e} v w room =
    rw (write_headers-bytes h (d, e) v) (write_each-Fills (header_bytes h) w room, read_headers h v)
