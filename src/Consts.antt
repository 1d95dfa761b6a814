-- ===== src/Consts.antt =====
-- The sizes and widths that the C headers (include/constants.h, source/nwm_misc/ikcp.h,
-- source/nwm_rs/nwm_rs.h) and the modules of source/nwm_rs/src give, for the New 3DS build.
use ntr_hr.Base.{ℕ, ◌-◌}

abbrev pub nwm_hdr_size : ℕ
nwm_hdr_size = 50

abbrev pub data_hdr_size : ℕ
data_hdr_size = 4

abbrev pub packet_size : ℕ
packet_size = 1448

abbrev pub arq_overhead_size : ℕ
arq_overhead_size = 2

abbrev pub arq_data_hdr_size : ℕ
arq_data_hdr_size = 2

abbrev pub arq_rp_data_size : ℕ
arq_rp_data_size = packet_size - arq_overhead_size - arq_data_hdr_size

abbrev pub rp_data_size : ℕ
rp_data_size = packet_size - data_hdr_size

abbrev pub rp_lossless_hdr_size : ℕ
rp_lossless_hdr_size = 2

abbrev pub rp_lossless_data_size : ℕ
rp_lossless_data_size = rp_data_size - rp_lossless_hdr_size

abbrev pub pid_nbits : ℕ
pid_nbits = 12

abbrev pub cid_nbits : ℕ
cid_nbits = 1

abbrev pub rp_kcp_hdr_w_nbits : ℕ
rp_kcp_hdr_w_nbits = 1

abbrev pub term_flag : ℕ
term_flag = 0x10
