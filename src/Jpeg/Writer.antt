-- ===== src/Jpeg/Writer.antt =====
-- encode/write.rs: the headers, byte by byte into the sink. What write_byte and term answer is
-- dropped, as the code drops it.
use ntr_hr.Base.{
  ℕ, ◌+◌, ◌-◌, ◌*◌, Bool, true, false, List, [], ◌∷◌, bit_or, ltb, if◌then◌else◌, get_or, take,
  drop, map,
}
use ntr_hr.Base.Word.{u8, u16, shr}
use ntr_hr.Sink.State.{WorkerDst, Env}
use ntr_hr.Jpeg.Tables.{HuffTbl, HuffTbls, CompInfo, jpeg_natural_order, sum}

-- The destination of the encoder and what it reaches.
abbrev pub Out : Type 0
Out = WorkerDst × Env

unfoldable pub write_byte : ℕ → Out → Out
write_byte value (d, e) = let (_, d', e') = ntr_hr.Sink.Write.write_byte value d e in (d', e')

-- A loop that writes each value.
unfoldable pub write_each : List ℕ → Out → Out
write_each [] o = o
write_each (v ∷ vs) o = write_each vs (write_byte v o)

unfoldable pub write_marker : ℕ → Out → Out
write_marker mark o = write_byte mark (write_byte 0xff o)

unfoldable pub write_2bytes : ℕ → Out → Out
write_2bytes value o = write_byte (u8 value) (write_byte (u8 (shr value 8)) o)

unfoldable pub write_jfif_app0 : Out → Out
write_jfif_app0 o =
    let o1 = write_2bytes (2 + 4 + 1 + 2 + 1 + 2 + 2 + 1 + 1) (write_marker 0xe0 o) in
    let o2 = write_byte 0x46 (write_byte 0x49 (write_byte 0x46 (write_byte 0x4a o1))) in
    let o3 = write_byte 0 (write_byte 1 (write_byte 1 (write_byte 0 o2))) in
    write_byte 0 (write_byte 0 (write_2bytes 1 (write_2bytes 1 o3)))

unfoldable pub write_dqt : ℕ → List ℕ → Out → Out
write_dqt index quant_val o =
    write_each (map (λ k. get_or quant_val k 0) jpeg_natural_order)
      (write_byte (u8 index) (write_2bytes (64 + 1 + 2) (write_marker 0xdb o)))

-- `length` is a u16, and the last loop runs up to its low byte.
unfoldable pub write_dht : ℕ → HuffTbl → Bool → Out → Out
write_dht index tbl is_ac o =
    let count = u16 (sum (take 16 (drop 1 tbl.bits))) in
    let o1 = write_2bytes (u16 (count + 2 + 1 + 16)) (write_marker 0xc4 o) in
    let o2 = write_byte (u8 (if is_ac then bit_or index 0x10 else index)) o1 in
    write_each (take (u8 count) tbl.huff_vals) (write_each (take 16 (drop 1 tbl.bits)) o2)

unfoldable pub write_dri : ℕ → Out → Out
write_dri restart_interval o = write_2bytes restart_interval (write_2bytes 4 (write_marker 0xdd o))

unfoldable pub write_scan_comps : List CompInfo → Out → Out
write_scan_comps [] o = o
write_scan_comps (c ∷ cs) o =
    write_scan_comps cs
      (write_byte (u8 (c.dc_tbl_no * 16 + c.ac_tbl_no)) (write_byte c.component_id o))

unfoldable pub write_sos : List CompInfo → Out → Out
write_sos infos o =
    let o1 = write_byte 3 (write_2bytes (2 * 3 + 2 + 1 + 3) (write_marker 0xda o)) in
    write_byte 0 (write_byte (64 - 1) (write_byte 0 (write_scan_comps infos o1)))

unfoldable pub write_frame_comps : List CompInfo → Out → Out
write_frame_comps [] o = o
write_frame_comps (c ∷ cs) o = write_frame_comps cs (
    write_byte c.quant_tbl_no
      (write_byte (u8 (c.h_samp_factor * 16 + c.v_samp_factor)) (write_byte c.component_id o)))

unfoldable pub write_sof : ℕ → ℕ → ℕ → List CompInfo → Out → Out
write_sof code height width infos o =
    let o1 = write_byte 8 (write_2bytes (3 * 3 + 2 + 5 + 1) (write_marker code o)) in
    write_frame_comps infos (write_byte 3 (write_2bytes width (write_2bytes height o1)))

-- What write_headers reads of the encoder's state.
pub record HeaderInfo : Type 0 where
  pub quant_tbls : List ℕ × List ℕ
  pub huff_tbls : HuffTbls
  pub comp_infos : List CompInfo
  pub height : ℕ
  pub width : ℕ
  pub restart_interval : ℕ
  pub core_count : ℕ

unfoldable pub write_headers : HeaderInfo → Out → Out
write_headers h o =
    let o1 = write_jfif_app0 (write_marker 0xd8 o) in
    let o2 = write_dqt 1 h.quant_tbls.1 (write_dqt 0 h.quant_tbls.0 o1) in
    let o3 = write_sof 0xc0 h.height h.width h.comp_infos o2 in
    let o4 =
      write_dht 0 h.huff_tbls.ac_huff_tbls.0 true
        (write_dht 0 h.huff_tbls.dc_huff_tbls.0 false o3) in
    let o5 =
      write_dht 1 h.huff_tbls.ac_huff_tbls.1 true
        (write_dht 1 h.huff_tbls.dc_huff_tbls.1 false o4) in
    let o6 = if ltb 1 h.core_count then write_dri h.restart_interval o5 else o5 in
    write_sos h.comp_infos o6

unfoldable pub write_rst : ℕ → Out → Out
write_rst thread_index o = write_marker (u8 (0xd0 + u8 thread_index)) o

unfoldable pub write_trailer : Out → Out
write_trailer o = write_marker 0xd9 o

unfoldable pub write_term : Out → Out
write_term (d, e) = let (_, d', e') = ntr_hr.Sink.Write.term d e in (d', e')
