-- ===== src/Coder/Tests.antt =====
-- The bit writer on small inputs, and its theorems there.
use ntr_hr.Base.{
  ℕ, ◌+◌, ◌-◌, ◌%◌, ◌^◌, ◌≤◌, ◌<◌, ◌≡◌, refl, Bool, true, false, List, [], ◌∷◌, ◌++◌, none, some,
  arith, length,
}
use ntr_hr.Base.Memory.{Memory}
use ntr_hr.Base.Digits.{bits}
use ntr_hr.Sink.State.{WorkerDst, Env}
use ntr_hr.Sink.Stream.{Wrote}
use ntr_hr.Coder.Buffer.{
  BitEncoderState, EncodeBuffer, put_bits, put_code, put_and_flush, flush, has_ff, flush_bits,
  flush_whole, emit_byte, store, raw_bytes,
}
use ntr_hr.Coder.Escape.{escape, unescape, unescape-escape, put, flush-eq-put}
use ntr_hr.Coder.Stream.{digits_of, Coded, put_bits-Coded}
use ntr_hr.Coder.Finish.{put_code-Coded, Padded, flush_bits-Padded, store-Wrote}

abbrev dst : WorkerDst
dst = record {
  blkn = 0;
  dst = 100;
  free_in_bytes = 20;
  rel_stream = false;
  delta_prog = false;
  w = 0;
  t = 0;
}

abbrev env : Env
env = record {
  mem = λ q. 0;
  pos = 100;
  flag = 0;
  buf_packet_last = 140;
  packet_data_size = 20;
  compressed_size = 0;
  frame_size = 0;
  releases = [];
  mallocs = [];
  queue = [];
  term_dst = none;
  reset = false;
}

abbrev empty_buffer : EncodeBuffer
empty_buffer = record {
  direct = false;
  local = false;
  no_escape = false;
  out = [];
  dst = dst;
  env = env;
}

-- 28 bits are pending, the last of them ones.
abbrev state : BitEncoderState
state = record { c = 0x123ff0f; free_bits = 4 }

pending : List ℕ
pending = bits 28 0x123ff0f

state-Coded : Coded pending state empty_buffer
unfolding pending digits_of escape
state-Coded = record {
  raw = [];
  text = refl;
  digits = refl;
  small = omega arith;
  room = omega arith;
  buffered = refl;
}

-- Eight more bits complete the word 0x123ff0ff, whose byte 0xff is stuffed.
completes_word : put_bits 0xf3 8 state empty_buffer ≡ (
  record { c = 0xf3; free_bits = 28 },
  record empty_buffer { out = 0x12 ∷ 0x3f ∷ 0xf0 ∷ 0xff ∷ 0 ∷ [] },
)
unfolding put_bits put_and_flush flush has_ff emit_byte
completes_word = refl

put_bits-Coded_example :
    let (s', u') = put_bits 0xf3 8 state empty_buffer in Coded (pending ++ bits 8 0xf3) s' u'
put_bits-Coded_example = put_bits-Coded 0xf3 8 state-Coded (omega arith) (omega arith)

put_code-Coded_example :
    let (s', u') = put_code 5 3 (2 ^ 32 - 3) 2 state empty_buffer in
    Coded (pending ++ (bits 3 5 ++ bits 2 (2 ^ 32 - 3))) s' u'
put_code-Coded_example = put_code-Coded 5 3 (2 ^ 32 - 3) 2 state-Coded (omega arith) (omega arith)

flush_bits-Padded_example : Padded pending state empty_buffer (flush_bits state empty_buffer)
flush_bits-Padded_example = flush_bits-Padded state-Coded

ends_padded : (flush_bits state empty_buffer).out ≡ 0x12 ∷ 0x3f ∷ 0xf0 ∷ 0xff ∷ 0 ∷ []
unfolding flush_bits flush_whole emit_byte
ends_padded = refl

flush-eq-put_example : flush 0x00ff00ff empty_buffer ≡ put (raw_bytes 0x00ff00ff) empty_buffer
flush-eq-put_example = flush-eq-put 0x00ff00ff empty_buffer (omega arith) refl

unescape-escape_example : unescape (escape (255 ∷ 0 ∷ 255 ∷ [])) ≡ 255 ∷ 0 ∷ 255 ∷ []
unescape-escape_example = unescape-escape (255 ∷ 0 ∷ 255 ∷ [])

dst-Wrote : Wrote 100 [] dst env
unfolding ntr_hr.Base.Memory.slice
dst-Wrote = record {
  udp = refl;
  ahead = omega arith;
  begun = omega arith;
  full = refl;
  small = omega arith;
  some_room = omega arith;
  holds = refl;
}

store-Wrote_example :
    let (d, e) = store (record empty_buffer { out = 1 ∷ 2 ∷ [] }) in Wrote 100 (1 ∷ 2 ∷ []) d e
store-Wrote_example =
    store-Wrote (record empty_buffer { out = 1 ∷ 2 ∷ [] }) dst-Wrote (omega arith) refl
      (omega arith) (λ h. omega arith)
