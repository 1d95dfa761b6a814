-- ===== src/Lib.antt =====
-- Verification of the streaming core of NTR-HR: the Rust plugin in source/nwm_rs that captures the
-- screens and the sound of a 3DS, encodes them, and sends them over the network. The model is of
-- the New 3DS build.
--
-- How the parts work together. The screen thread chooses the screen to capture (Screen). The
-- threads of a work share the picture (Work): one of them sets the frame up, paces it and splits
-- its rows, each encodes its part, and the last hands the rests of the streams on and closes the
-- frame. Encoder threads write bits (Coder) into a byte sink (Sink). The sink cuts the bytes into
-- packets in the thread's own buffer, and publishes them to the sender, or on the reliable stream
-- hands each packet to the transport. The sender (Net) joins the threads' bytes of a frame into
-- packets, puts the headers in front, and paces them. The audio thread (Audio) captures the sound
-- processor's mix and passes packets to the sender through a ring. Indices of threads and works
-- are ranges that wrap (Ranged). A picture goes out as JPEG, whose headers (Jpeg) are bytes and
-- whose blocks (Huffman) are codes and bits for the bit writer, or without loss (Lossless), as
-- pixels or as codes of what a prediction from the neighbours, or the previous picture, leaves
-- over. The tables of codes are derived from counts (Huffman).
--
-- Files and source (paths below source/nwm_rs/src, names as in the source):
--   Base      numbers, machine words, byte-addressed memory, lists and bit strings
--   Consts    sizes and widths from include/constants.h and the crate
--   Sink      encoder/worker_dst.rs and rp_send_buffer of entries/thread_nwm/vars.rs: State is
--             WorkerDst and what it reaches, Send is rp_send_buffer, Write is WorkerDst, Count the
--             size counters; Stream, Fill and Kcp hold the proofs for plain UDP and the reliable stream
--   Coder     encoder/encode/encode_buffer.rs and BitEncoderState of encoder/worker.rs: Buffer
--             is the code; Escape, Stream, Finish, Direct (a buffer without room of its own) and Kept
--             hold the proofs
--   Net       entries/thread_nwm/vars.rs: Packet is init_udp_packet, ip_checksum and nwm_output,
--             Pace the clock of do_send_next_buffer and rp_output, Sender is nwm_send_next_buffer;
--             Carry, Collect, Headers, Deliver and Progress hold the sender's proofs
--   Audio     entries/thread_audio.rs: Ring is audio_enqueue and drain_audio, Capture a round of
--             thread_audio, Reliable one of thread_audio_kcp, Interleave the ring's two threads as a
--             step relation; Queue, Pending, Delivery, Frames and Packed hold the
--             proofs
--   Jpeg      encoder/vars.rs and encoder/encode/write.rs: Quant is the quantisation tables of a
--             quality setting, Tables the constant tables, Writer the headers; Quality, Segments and
--             Headers hold the proofs
--   Huffman   encoder/vars.rs and encoder/encode/compress.rs: Derive is do_set_derived_tbl, Block is
--             encode_one_block; Prefix, Sizes, Symbols, Value, Tokens, Emit and Bounds hold the proofs
--   Lossless  encoder/encode/compress.rs: Format and Planes are what the coders read of the worker,
--             Copy the copying and uncompressed coders, Predict pred_pixel, Rows and Delta the coders
--             do_compressed_encode and do_compressed_delta_encode; Decode, Stream, Choice, Nibbles and
--             Parity hold the proofs
--   Screen    entries/thread_screen/vars.rs and safe_impl.rs: Choose is do_screen up to the choice of
--             the screen; Turns and Queues hold the proofs without and with a game
--   Work      entries/work_thread/vars.rs and safe_impl.rs, and set_comp_infos of encoder/init.rs:
--             Picture is the sizes of a screen, Rows is init_work and a thread's part of the picture,
--             Pace is skip_frame and the average of the frame times, Terms is send_term_dsts, Gate
--             the semaphores of the threads as a step relation; Share, Slices, Cover and Whole hold
--             the proofs for Rows, Rate for Pace, Gather, Fill, Frame, Fields, Received and Sent for
--             Terms, with the receiver in Read, and Census, Tally, Phases, Alone and Complete for Gate
--   Ranged    vars/ranged.rs: Index is the code, Walk the proofs
--
-- State is passed explicitly. Memory is a function from addresses to bytes, and a pointer is a
-- number. A u8, u16 or u32 is a number with its wrapping written out. What code outside of the
-- crate answers is data in the state: the results of rp_syn_rel1, the buffers of the pool, the
-- clock's ticks, the frames of the sound processor.
--
-- Fuel. huff_codes has a round for each code and each of the sixteen sizes, and huff_codes-fuel
-- shows that more changes nothing; its none stands for a panic. The loop over the runs of sixteen
-- zeros has more rounds than zeros. flush_whole has four rounds, since at most 32 bits are
-- pending. The loop of nwm_send_next_buffer has one round for each thread. copy_from counts down
-- the free entries of the array of packets, as the loop does. The rounds of do_screen end with the
-- polls, which are data. drain_audio and the loop over a range take their fuel as an argument.
-- Where a result could run out of fuel, a theorem gives the fuel that is enough.
--
-- Not modelled: the system calls and handles of the 3DS; nwmSendPacket, which only receives the
-- bytes of a frame; the transport (ikcp.c) and the erasure code in C; the start-up and port code;
-- the menus, the loader and the patches in C; the vendored const_default. Of the frame, the
-- capture by DMA, the game's process, the overlay, the registers of the screens, the rows of a
-- checker, and the wait for the previous picture. Of the encoder, the colour conversion,
-- downsampling, transform and quantisation of a block, the cache of quantised blocks, the optimal
-- tables, the loops over a picture in encode.rs, and delta quantisation. Arithmetic on bytes
-- wraps, as in a release build of the crate.
pub mod Base
pub mod Consts
pub mod Sink
pub mod Coder
pub mod Net
pub mod Audio
pub mod Ranged
pub mod Jpeg
pub mod Huffman
pub mod Lossless
pub mod Work
pub mod Screen
