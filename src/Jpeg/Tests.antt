-- ===== src/Jpeg/Tests.antt =====
-- Quality settings, and the headers of a picture.
use ntr_hr.Base.{
  ◌+◌, ◌≤◌, ◌≡◌, refl, false, [], ◌∷◌, some, none, All, length, arith, replicate, ◌++◌,
}
use ntr_hr.Base.Memory.{slice}
use ntr_hr.Sink.State.{WorkerDst, Env}
use ntr_hr.Sink.Stream.{Wrote}
use ntr_hr.Jpeg.Tables.{
  HuffTbls, add_huff_table, bits_dc_luminance, val_dc_luminance, bits_ac_luminance,
  val_ac_luminance, bits_dc_chrominance, val_dc_chrominance, bits_ac_chrominance,
  val_ac_chrominance, sum, set_color_space_ycb_cr_420,
}
use ntr_hr.Jpeg.Writer.{HeaderInfo, write_headers}
use ntr_hr.Jpeg.Segments.{
  segments, read_segments, header_segments, header_bytes, frame_comps, scan_comps, IsHeaderInfo,
}
use ntr_hr.Jpeg.Headers.{write_headers-readable}
use ntr_hr.Jpeg.Quant.{
  set_quality, set_linear_quality, set_quant_table, quant_val, quality_scaling,
  std_luminance_quant_tbl, std_chrominance_quant_tbl,
}
use ntr_hr.Jpeg.Quality.{Finer, IsQuantiser, set_quality-Finer}

-- The basic tables are those of quality 50.
basic : set_quality 50 ≡ (std_luminance_quant_tbl, std_chrominance_quant_tbl)
unfolding set_quality set_linear_quality set_quant_table quant_val quality_scaling
basic = refl

-- Counts of 256 symbols in all.
too_many : add_huff_table (replicate 9 0 ++ 255 ∷ 1 ∷ []) (replicate 256 0) ≡ none
unfolding add_huff_table sum
too_many = refl

set_quality-Finer_example :
    Finer (set_quality 75).0 (set_quality 40).0
    × Finer (set_quality 75).1 (set_quality 40).1
    × All IsQuantiser (set_quality 40).0
    × All IsQuantiser (set_quality 40).1
set_quality-Finer_example = set_quality-Finer 40 75 (omega arith)

abbrev tbls : HuffTbls
tbls = record {
  dc_huff_tbls = (
    record { bits = bits_dc_luminance; huff_vals = val_dc_luminance },
    record { bits = bits_dc_chrominance; huff_vals = val_dc_chrominance },
  );
  ac_huff_tbls = (
    record { bits = bits_ac_luminance; huff_vals = val_ac_luminance },
    record { bits = bits_ac_chrominance; huff_vals = val_ac_chrominance },
  );
}

-- The top screen in two threads.
abbrev info : HeaderInfo
info = record {
  quant_tbls = (std_luminance_quant_tbl, std_chrominance_quant_tbl);
  huff_tbls = tbls;
  comp_infos = set_color_space_ycb_cr_420;
  height = 400;
  width = 240;
  restart_interval = 195;
  core_count = 2;
}

info-IsHeaderInfo : IsHeaderInfo info
unfolding sum set_color_space_ycb_cr_420
info-IsHeaderInfo = record {
  comps = refl;
  dc0 = record { counts = refl; few = omega arith; enough = omega arith };
  ac0 = record { counts = refl; few = omega arith; enough = omega arith };
  dc1 = record { counts = refl; few = omega arith; enough = omega arith };
  ac1 = record { counts = refl; few = omega arith; enough = omega arith };
}

abbrev dst : WorkerDst
dst = record {
  blkn = 0;
  dst = 102;
  free_in_bytes = 2;
  rel_stream = false;
  delta_prog = false;
  w = 0;
  t = 0;
}

abbrev env : Env
env = record {
  mem = λ q. 7;
  pos = 100;
  flag = 0;
  buf_packet_last = 1300;
  packet_data_size = 4;
  compressed_size = 0;
  frame_size = 0;
  releases = [];
  mallocs = [];
  queue = [];
  term_dst = none;
  reset = false;
}

two_written : Wrote 100 (7 ∷ 7 ∷ []) dst env
unfolding slice
two_written = record {
  udp = refl;
  ahead = omega arith;
  begun = omega arith;
  full = refl;
  small = omega arith;
  some_room = omega arith;
  holds = refl;
}

room : 100 + 2 + length (header_bytes info) ≤ 1301
unfolding segments frame_comps scan_comps set_color_space_ycb_cr_420 sum
room = omega arith

write_headers-readable_example :
    let (d', e') = write_headers info (dst, env) in
    Wrote 100 (7 ∷ 7 ∷ 0xff ∷ 0xd8 ∷ segments (header_segments info)) d' e'
    × (read_segments 10 (segments (header_segments info)) ≡ some (header_segments info))
write_headers-readable_example = write_headers-readable info info-IsHeaderInfo two_written room
