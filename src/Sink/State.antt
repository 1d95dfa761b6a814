-- ===== src/Sink/State.antt =====
-- What an encoder thread writes through, and the part of the program's state that it reaches.
use ntr_hr.Base.{ℕ, Bool, List, Option}
use ntr_hr.Base.Memory.{Memory}

-- `WorkerDst`, with `user` taken apart: `w` and `t` are those of `kcp_hdr`. Addresses are numbers.
pub record WorkerDst : Type 0 where
  pub blkn : ℕ
  pub dst : ℕ
  pub free_in_bytes : ℕ
  pub rel_stream : Bool
  pub delta_prog : Bool
  pub w : ℕ
  pub t : ℕ

-- What a call of rp_syn_rel1 returns: 0, RES_TIMEOUT, or another code.
pub data Release : Type 0 where
  released timeout failed : Release

pub record Env : Type 0 where
  pub mem : Memory
  -- `DataInfo.pos` and `.flag`, and `buf_packet_last`, of this thread's `NwmThreadInfo`
  pub pos : ℕ
  pub flag : ℕ
  pub buf_packet_last : ℕ
  -- PACKET_DATA_SIZE
  pub packet_data_size : ℕ
  -- the counters of rp_dq_update_size and rp_update_size
  pub compressed_size : ℕ
  pub frame_size : ℕ
  -- what rp_syn_rel1 will answer (the end of the list is the threads' reset), and the buffers
  -- that rp_data_buf_malloc will hand out (the end of the list is its `None`)
  pub releases : List Release
  pub mallocs : List ℕ
  -- the packets given to rp_syn_rel1 so far, the last one first
  pub queue : List ℕ
  -- TERM_DSTS[w][t], `none` for the null pointer
  pub term_dst : Option ℕ
  -- RESET_THREADS
  pub reset : Bool
