-- ===== src/Jpeg/Segments.antt =====
-- The headers as marker segments, and a reader of them that goes by their lengths.
use ntr_hr.Base.{
  ℕ, zero, suc, ◌+◌, ◌-◌, ◌*◌, ◌≤◌, ◌<◌, ◌≡◌, refl, sym, ap, ◌∙◌, Bool, true, false, List, [], ◌∷◌,
  ◌++◌, append_assoc, Option, none, some, bit_or, ltb, ◌==◌, if◌then◌else◌, get_or, take, drop, map,
  length, length-append, length-take, length-drop, take_all, arith, Bool-cases, inl, inr,
}
use ntr_hr.Base.Word.{u8, u16, shr}
use ntr_hr.Jpeg.Tables.{HuffTbl, CompInfo, jpeg_natural_order, sum}
use ntr_hr.Jpeg.Writer.{
  Out, write_byte, write_each, write_marker, write_2bytes, write_jfif_app0, write_dqt, write_dht,
  write_dri, write_scan_comps, write_sos, write_frame_comps, write_sof, HeaderInfo,
}

-- A marker and what stands behind its length.
abbrev pub Segment : Type 0
Segment = ℕ × List ℕ

abbrev pub segment : Segment → List ℕ
segment (m, p) = 0xff ∷ m ∷ u8 (shr (length p + 2) 8) ∷ u8 (length p + 2) ∷ p

unfoldable pub segments : List Segment → List ℕ
segments [] = []
segments (s ∷ ss) = segment s ++ segments ss

-- A reader: the segments up to the start of the scan, with nothing behind that one.
unfoldable pub then_segment : Segment → Option (List Segment) → Option (List Segment)
then_segment s none = none
then_segment s (some ss) = some (s ∷ ss)

unfoldable pub read_segments : ℕ → List ℕ → Option (List Segment)
read_segments zero bs = none
read_segments (suc fuel) (ff ∷ m ∷ hi ∷ lo ∷ bs) =
    let n = hi * 256 + lo - 2 in
    let rest = read_segments fuel (drop n bs) in
    if m == 0xda
    then (if length bs == n then some ((m, bs) ∷ []) else none)
    else then_segment (m, take n bs) rest
read_segments (suc fuel) _ = none

abbrev pub zigzag : List ℕ → List ℕ
zigzag quant_val = map (λ k. get_or quant_val k 0) jpeg_natural_order

unfoldable pub frame_comps : List CompInfo → List ℕ
frame_comps [] = []
frame_comps (c ∷ cs) =
    c.component_id ∷ u8 (c.h_samp_factor * 16 + c.v_samp_factor) ∷ c.quant_tbl_no ∷ frame_comps cs

unfoldable pub scan_comps : List CompInfo → List ℕ
scan_comps [] = []
scan_comps (c ∷ cs) = c.component_id ∷ u8 (c.dc_tbl_no * 16 + c.ac_tbl_no) ∷ scan_comps cs

abbrev pub dqt : ℕ → List ℕ → Segment
dqt i q = (0xdb, i ∷ zigzag q)

abbrev pub dht : ℕ → HuffTbl → Segment
dht i tbl = (0xc4, i ∷ drop 1 tbl.bits ++ take (sum (drop 1 tbl.bits)) tbl.huff_vals)

abbrev pub sof : HeaderInfo → Segment
sof h = (
  0xc0,
  8
      ∷ u8 (shr h.height 8)
      ∷ u8 h.height
      ∷ u8 (shr h.width 8)
      ∷ u8 h.width
      ∷ 3
      ∷ frame_comps h.comp_infos,
)

abbrev pub dri : HeaderInfo → List Segment
dri h =
    if ltb 1 h.core_count
    then (0xdd, u8 (shr h.restart_interval 8) ∷ u8 h.restart_interval ∷ []) ∷ []
    else []

abbrev pub sos : HeaderInfo → Segment
sos h = (0xda, 3 ∷ scan_comps h.comp_infos ++ 0 ∷ 63 ∷ 0 ∷ [])

abbrev pub app0 : Segment
app0 = (0xe0, 0x4a ∷ 0x46 ∷ 0x49 ∷ 0x46 ∷ 0 ∷ 1 ∷ 1 ∷ 0 ∷ 0 ∷ 1 ∷ 0 ∷ 1 ∷ 0 ∷ 0 ∷ [])

-- What the headers say, segment by segment.
abbrev pub header_segments : HeaderInfo → List Segment
header_segments h =
    app0
      ∷ dqt 0 h.quant_tbls.0
      ∷ dqt 1 h.quant_tbls.1
      ∷ sof h
      ∷ dht 0 h.huff_tbls.dc_huff_tbls.0
      ∷ dht 16 h.huff_tbls.ac_huff_tbls.0
      ∷ dht 1 h.huff_tbls.dc_huff_tbls.1
      ∷ dht 17 h.huff_tbls.ac_huff_tbls.1
      ∷ dri h
    ++ sos h ∷ []

-- A table whose counts add up to fewer than 256 values.
pub record IsHuffTbl (tbl : HuffTbl) : Type 0 where
  pub counts : length tbl.bits ≡ 17
  pub few : sum (drop 1 tbl.bits) < 256
  pub enough : sum (drop 1 tbl.bits) ≤ length tbl.huff_vals

pub write_each-append :
    (xs ys : List ℕ) (o : Out) → write_each (xs ++ ys) o ≡ write_each ys (write_each xs o)
unfolding write_each
write_each-append [] ys o = refl
write_each-append (x ∷ xs) ys o = write_each-append xs ys (write_byte x o)

pub app0-written : (o : Out) → write_jfif_app0 o ≡ write_each (segment app0) o
unfolding write_jfif_app0 write_each write_marker write_2bytes
app0-written o = refl

pub dqt-written :
    (i : ℕ) (q : List ℕ) (o : Out) → i < 256 → write_dqt i q o ≡ write_each (segment (dqt i q)) o
unfolding write_dqt write_each write_marker write_2bytes
dqt-written i q o h = let e : u8 i ≡ i = omega arith in rw e refl

pub dri-written :
    (h : HeaderInfo) (o : Out)
    → (if ltb 1 h.core_count then write_dri h.restart_interval o else o)
      ≡ write_each (segments (dri h)) o
unfolding write_dri write_each write_marker write_2bytes segments
dri-written h o = elim (Bool-cases (ltb 1 h.core_count)) [ inl p ↦ rw p refl | inr p ↦ rw p refl ]

bit_or_16 : (i : ℕ) → i < 2 → bit_or i 16 ≡ 16 + i
bit_or_16 zero h = refl
bit_or_16 (suc zero) h = refl
bit_or_16 (suc (suc i)) h = absurd (omega arith)

dht_index :
    (i : ℕ) (is_ac : Bool)
    → i < 2
    → u8 (if is_ac then bit_or i 16 else i) ≡ (if is_ac then 16 + i else i)
dht_index i true h = rw (bit_or_16 i h) omega arith
dht_index i false h = omega arith

pub length-dht :
    (tbl : HuffTbl)
    → IsHuffTbl tbl
    → length (drop 1 tbl.bits ++ take (sum (drop 1 tbl.bits)) tbl.huff_vals)
      ≡ 16 + sum (drop 1 tbl.bits)
length-dht tbl v =
    length-append (drop 1 tbl.bits) (take (sum (drop 1 tbl.bits)) tbl.huff_vals)
    ∙ omega (
      arith,
      length-drop 1 tbl.bits,
      length-take (sum (drop 1 tbl.bits)) tbl.huff_vals,
      v.counts,
      v.enough,
    )

pub dht-written :
    (i : ℕ) (tbl : HuffTbl) (is_ac : Bool) (o : Out)
    → IsHuffTbl tbl
    → i < 2
    → write_dht i tbl is_ac o ≡ write_each (segment (dht (if is_ac then 16 + i else i) tbl)) o
unfolding write_dht write_each write_marker write_2bytes
dht-written i tbl is_ac o v h =
    let n = sum (drop 1 tbl.bits) in
    let all : take 16 (drop 1 tbl.bits) ≡ drop 1 tbl.bits =
      take_all 16 (drop 1 tbl.bits) (omega (arith, length-drop 1 tbl.bits, v.counts)) in
    let few : u8 (u16 n) ≡ n = omega (arith, v.few) in
    let len : u16 (u16 n + 2 + 1 + 16)
        ≡ suc (length (drop 1 tbl.bits ++ take n tbl.huff_vals)) + 2 =
      omega (arith, v.few, length-dht tbl v) in
    rw
      (
        all,
        few,
        len,
        dht_index i is_ac h,
        write_each-append (drop 1 tbl.bits) (take n tbl.huff_vals),
      )
      refl

scan_comps-written :
    (cs : List CompInfo) (o : Out) → write_scan_comps cs o ≡ write_each (scan_comps cs) o
unfolding write_scan_comps scan_comps write_each
scan_comps-written [] o = refl
scan_comps-written (c ∷ cs) o =
    scan_comps-written cs
      (write_byte (u8 (c.dc_tbl_no * 16 + c.ac_tbl_no)) (write_byte c.component_id o))

frame_comps-written :
    (cs : List CompInfo) (o : Out) → write_frame_comps cs o ≡ write_each (frame_comps cs) o
unfolding write_frame_comps frame_comps write_each
frame_comps-written [] o = refl
frame_comps-written (c ∷ cs) o = frame_comps-written cs (
    write_byte c.quant_tbl_no
      (write_byte (u8 (c.h_samp_factor * 16 + c.v_samp_factor)) (write_byte c.component_id o)))

pub length-scan_comps : (cs : List CompInfo) → length (scan_comps cs) ≡ 2 * length cs
unfolding scan_comps
length-scan_comps [] = refl
length-scan_comps (c ∷ cs) = omega (arith, length-scan_comps cs)

pub length-frame_comps : (cs : List CompInfo) → length (frame_comps cs) ≡ 3 * length cs
unfolding frame_comps
length-frame_comps [] = refl
length-frame_comps (c ∷ cs) = omega (arith, length-frame_comps cs)

pub sos-written :
    (h : HeaderInfo) (o : Out)
    → length h.comp_infos ≡ 3
    → write_sos h.comp_infos o ≡ write_each (segment (sos h)) o
unfolding write_sos write_each write_marker write_2bytes
sos-written h o three =
    let len : suc (length (scan_comps h.comp_infos ++ 0 ∷ 63 ∷ 0 ∷ [])) + 2 ≡ 12 = omega (
      arith,
      length-append (scan_comps h.comp_infos) (0 ∷ 63 ∷ 0 ∷ []),
      length-scan_comps h.comp_infos,
      three,
    ) in
    rw
      (
        len,
        write_each-append (scan_comps h.comp_infos) (0 ∷ 63 ∷ 0 ∷ []),
        scan_comps-written h.comp_infos,
      )
      refl

pub sof-written :
    (h : HeaderInfo) (o : Out)
    → length h.comp_infos ≡ 3
    → write_sof 0xc0 h.height h.width h.comp_infos o ≡ write_each (segment (sof h)) o
unfolding write_sof write_each write_marker write_2bytes
sof-written h o three =
    let len : suc (suc (suc (suc (suc (suc (length (frame_comps h.comp_infos))))))) + 2 ≡ 17 =
      omega (arith, length-frame_comps h.comp_infos, three) in
    rw (len, frame_comps-written h.comp_infos) refl

pub segments-append : (ss ts : List Segment) → segments (ss ++ ts) ≡ segments ss ++ segments ts
unfolding segments
segments-append [] ts = refl
segments-append (s ∷ ss) ts =
    ap (λ t. segment s ++ t) (segments-append ss ts)
    ∙ sym (append_assoc (segment s) (segments ss) (segments ts))

pub write_segment :
    (s : Segment) (ss : List Segment) (o : Out)
    → write_each (segments (s ∷ ss)) o ≡ write_each (segments ss) (write_each (segment s) o)
unfolding segments
write_segment s ss o = write_each-append (segment s) (segments ss) o

-- The bytes of the headers.
abbrev pub header_bytes : HeaderInfo → List ℕ
header_bytes h = 0xff ∷ 0xd8 ∷ segments (header_segments h)

-- What the headers need of the tables.
pub record IsHeaderInfo (h : HeaderInfo) : Type 0 where
  pub comps : length h.comp_infos ≡ 3
  pub dc0 : IsHuffTbl h.huff_tbls.dc_huff_tbls.0
  pub ac0 : IsHuffTbl h.huff_tbls.ac_huff_tbls.0
  pub dc1 : IsHuffTbl h.huff_tbls.dc_huff_tbls.1
  pub ac1 : IsHuffTbl h.huff_tbls.ac_huff_tbls.1
