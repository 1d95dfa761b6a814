-- ===== src/Work/Received.antt =====
-- A receiver finds the fields of a frame's rest, and each thread's bytes, behind its headers.
use ntr_hr.Base.{
  ℕ, ◌+◌, ◌-◌, ◌*◌, ◌/◌, ◌%◌, ◌^◌, ◌<◌, ◌≡◌, Bool, true, false, not, ◌&&◌, ◌||◌, List, [], ◌∷◌,
  ◌++◌, arith, refl, ap, ◌∙◌, some, inl, inr, ◌==◌, if◌then◌else◌, bit_or, leb, length,
  length-append, append_assoc, take-append, drop-append, All, Bool-cases,
}
use ntr_hr.Sink.Send.{le16}
use ntr_hr.Work.Terms.{
  TermInfo, TermInput, EncodeRet, bit, quality_of, needs_even_odd, is_full_width, term_hdr, ex_hdr,
  thread_hdr, ex_hdr_bit,
}
use ntr_hr.Work.Frame.{hdr_bytes, size_bytes, concat, frame_bytes}
use ntr_hr.Work.Fields.{term_hdr_sum, with_ex_bit, ex_hdr_sum, thread_hdr_sum, bit_lt}
use ntr_hr.Work.Read.{
  read_word, read_bytes, read_sizes, read_threads, Received, received, read_ex, read_frame,
}

-- Each thread's rows, of which five bits are sent, and its bytes.
abbrev pub thread_rows : TermInfo → (last j : ℕ) → List (List ℕ) → List (ℕ × List ℕ)
thread_rows info last j [] = []
thread_rows info last j (bytes ∷ rest) =
    ((if j == last then info.v_last_adjusted else info.v_adjusted) % 2 ^ 5, bytes)
    ∷ thread_rows info last (j + 1) rest

-- The headers' values.
abbrev size_hdrs : TermInfo → (last j : ℕ) → List (List ℕ) → List ℕ
size_hdrs info last j [] = []
size_hdrs info last j (bytes ∷ rest) =
    thread_hdr info (j == last) (length bytes) ∷ size_hdrs info last (j + 1) rest

abbrev pub Small : List (List ℕ) → Type 0
Small = All (λ bytes. length bytes < 2 ^ 11)

read_word-le16 : (v : ℕ) (xs : List ℕ) → v < 2 ^ 16 → read_word (le16 v ++ xs) ≡ some (v, xs)
unfolding read_word
read_word-le16 v xs h = ap (λ n. some (n, xs)) (omega arith)

thread_hdr_small :
    (info : TermInfo) (last : Bool) (size : ℕ) → size < 2 ^ 11 → thread_hdr info last size < 2 ^ 16
thread_hdr_small info last size h = omega (arith, thread_hdr_sum info last size h)

read_sizes_lem :
    (info : TermInfo) (last j : ℕ) (threads : List (List ℕ)) (xs : List ℕ)
    → Small threads
    → read_sizes (length threads) (size_bytes info last j threads ++ xs)
      ≡ some (size_hdrs info last j threads, xs)
unfolding read_sizes size_bytes
read_sizes_lem info last j [] xs h = refl
read_sizes_lem info last j (bytes ∷ rest) xs h =
    let hdr = thread_hdr info (j == last) (length bytes) in
    rw
      (
        read_word-le16 hdr (size_bytes info last (j + 1) rest ++ xs)
            (thread_hdr_small info (j == last) (length bytes) h.0),
        read_sizes_lem info last (j + 1) rest xs h.1,
      )
      refl

read_bytes-append : (bytes xs : List ℕ) → read_bytes (length bytes) (bytes ++ xs) ≡ some (bytes, xs)
unfolding read_bytes
read_bytes-append bytes xs =
    let e : leb (length bytes) (length (bytes ++ xs)) ≡ true =
      ground (arith, length-append bytes xs) in
    rw (e, take-append bytes xs, drop-append bytes xs) refl

read_threads_lem :
    (info : TermInfo) (last j : ℕ) (threads : List (List ℕ)) (xs : List ℕ)
    → Small threads
    → read_threads (size_hdrs info last j threads) (concat threads ++ xs)
      ≡ some (thread_rows info last j threads)
unfolding read_threads
read_threads_lem info last j [] xs h = refl
read_threads_lem info last j (bytes ∷ rest) xs h =
    let hdr = thread_hdr_sum info (j == last) (length bytes) h.0 in
    let low : thread_hdr info (j == last) (length bytes) % 2 ^ 11 ≡ length bytes =
      omega (arith, hdr, h.0) in
    let high : thread_hdr info (j == last) (length bytes) / 2 ^ 11
        ≡ (if j == last then info.v_last_adjusted else info.v_adjusted) % 2 ^ 5 =
      omega (arith, hdr, h.0) in
    rw
      (
        append_assoc bytes (concat rest) xs,
        low,
        read_bytes-append bytes (concat rest ++ xs),
        read_threads_lem info last (j + 1) rest xs h.1,
        high,
      )
      refl

-- The fields fit their widths, and there is a thread's bytes for each of the threads.
pub record Fits (i : TermInput) (ret : EncodeRet) (threads : List (List ℕ)) : Type 0 where
  pub downsample : i.downsample < 4
  pub chroma_ss : i.chroma_ss < 4
  pub cores : i.info.core_count < 4
  pub quality : (quality_of i.delta_prog ret).1 < 2 ^ 7
  pub same : i.info.core_count ≡ i.core_count
  pub each : i.core_count ≡ length threads
  pub sizes : Small threads

-- What was sent.
abbrev pub sent_frame : TermInput → EncodeRet → List (List ℕ) → Received
sent_frame i ret threads =
    let (delta_prog, quality) = quality_of i.delta_prog ret in
    let full_width = is_full_width i.info i.wide in
    record {
      downsample = i.downsample;
      delta_prog = bit delta_prog;
      chroma_ss = i.chroma_ss;
      bottom = bit (not i.info.is_top);
      core_count = i.core_count;
      quality = quality;
      even_odd = if needs_even_odd i.downsample then bit i.info.even_odd else 0;
      full_width = bit full_width;
      both_eyes = bit (full_width && i.both_eyes);
      v2 = bit i.audio_kcp;
      threads = thread_rows i.info (i.core_count - 1) 0 threads;
    }

even_odd_lt : (need flag : Bool) → (if need then bit flag else 0) < 2
even_odd_lt true flag = bit_lt flag
even_odd_lt false flag = omega arith

module _ (i : TermInput) (ret : EncodeRet) (threads : List (List ℕ)) (f : Fits i ret threads) where
  abbrev hdr : ℕ
  hdr = term_hdr i.info i.downsample i.chroma_ss (quality_of i.delta_prog ret)

  abbrev ex : ℕ
  ex =
      ex_hdr i.info (needs_even_odd i.downsample) (is_full_width i.info i.wide) i.both_eyes
        i.audio_kcp

  abbrev last : ℕ
  last = i.core_count - 1

  hdr_sum :
      hdr
      ≡ i.downsample * 2 ^ 13
        + bit (quality_of i.delta_prog ret).0 * 2 ^ 12
        + i.chroma_ss * 2 ^ 10
        + bit (not i.info.is_top) * 2 ^ 9
        + i.info.core_count * 2 ^ 7
        + (quality_of i.delta_prog ret).1
  hdr_sum =
      term_hdr_sum i.info i.downsample i.chroma_ss (quality_of i.delta_prog ret).0
        (quality_of i.delta_prog ret).1 f.downsample f.chroma_ss f.cores f.quality

  -- Reading the first word `h`, which is the header up to its top bit, and the second word.
  fields :
      (h e : ℕ)
      → h % 2 ^ 15 ≡ hdr
      → e ≡ ex
      → received h e (thread_rows i.info last 0 threads) ≡ sent_frame i ret threads
  unfolding received
  fields h e p q =
      let dp = bit_lt (quality_of i.delta_prog ret).0 in
      let b = bit_lt (not i.info.is_top) in
      let full = is_full_width i.info i.wide in
      let n = even_odd_lt (needs_even_odd i.downsample) i.info.even_odd in
      let g = bit_lt full in
      let k = bit_lt (full && i.both_eyes) in
      let v = bit_lt i.audio_kcp in
      let s = ex_hdr_sum i.info (needs_even_odd i.downsample) full i.both_eyes i.audio_kcp in
      let e1 : h / 2 ^ 13 % 4 ≡ i.downsample =
        omega (arith, hdr_sum, f.downsample, f.chroma_ss, f.cores, f.quality) in
      let e2 : h / 2 ^ 12 % 2 ≡ bit (quality_of i.delta_prog ret).0 =
        omega (arith, hdr_sum, f.chroma_ss, f.cores, f.quality) in
      let e3 : h / 2 ^ 10 % 4 ≡ i.chroma_ss =
        omega (arith, hdr_sum, f.chroma_ss, f.cores, f.quality) in
      let e4 : h / 2 ^ 9 % 2 ≡ bit (not i.info.is_top) =
        omega (arith, hdr_sum, f.cores, f.quality) in
      let e5 : h / 2 ^ 7 % 4 ≡ i.core_count = omega (arith, hdr_sum, f.cores, f.quality, f.same) in
      let e6 : h % 2 ^ 7 ≡ (quality_of i.delta_prog ret).1 = omega (arith, hdr_sum, f.quality) in
      let x1 : e % 2 ≡ (if needs_even_odd i.downsample then bit i.info.even_odd else 0) =
        omega (arith, s) in
      let x2 : e / 2 % 2 ≡ bit full = omega (arith, s) in
      let x3 : e / 4 % 2 ≡ bit (full && i.both_eyes) = omega (arith, s) in
      let x4 : e / 2 ^ 14 % 2 ≡ bit i.audio_kcp = omega (arith, s) in
      rw (e1, e2, e3, e4, e5, e6, x1, x2, x3, x4) refl

  abbrev rest : List ℕ → List ℕ
  rest pad = size_bytes i.info last 0 threads ++ (concat threads ++ pad)

  split :
      (pad : List ℕ)
      → frame_bytes i ret threads ++ pad
        ≡ hdr_bytes i.audio_kcp i.info i.downsample hdr i.wide i.both_eyes ++ rest pad
  unfolding frame_bytes
  split pad =
      append_assoc (hdr_bytes i.audio_kcp i.info i.downsample hdr i.wide i.both_eyes)
        (size_bytes i.info last 0 threads ++ concat threads) pad
      ∙ ap (λ t. hdr_bytes i.audio_kcp i.info i.downsample hdr i.wide i.both_eyes ++ t)
          (append_assoc (size_bytes i.info last 0 threads) (concat threads) pad)

  -- Behind the words `h` and `e`.
  read_behind :
      (h e : ℕ) (xs tail pad : List ℕ)
      → h % 2 ^ 15 ≡ hdr
      → e ≡ ex
      → read_word xs ≡ some (h, tail)
      → read_ex h tail ≡ some (e, rest pad)
      → read_frame xs ≡ some (sent_frame i ret threads)
  unfolding read_frame
  read_behind h e xs tail pad p q r r' =
      let count : h / 2 ^ 7 % 4 ≡ length threads =
        omega (arith, hdr_sum, f.cores, f.quality, f.same, f.each) in
      rw
        (
          r,
          r',
          count,
          read_sizes_lem i.info last 0 threads (concat threads ++ pad) f.sizes,
          read_threads_lem i.info last 0 threads pad f.sizes,
        )
        (ap some (fields h e p q))

  hdr_small : hdr < 2 ^ 15
  hdr_small = omega (
    arith,
    hdr_sum,
    f.downsample,
    f.chroma_ss,
    f.cores,
    f.quality,
    bit_lt (quality_of i.delta_prog ret).0,
    bit_lt (not i.info.is_top),
  )

  ex_small : ex < 2 ^ 16
  ex_small = omega (
    arith,
    ex_hdr_sum i.info (needs_even_odd i.downsample) (is_full_width i.info i.wide) i.both_eyes
        i.audio_kcp,
    even_odd_lt (needs_even_odd i.downsample) i.info.even_odd,
    bit_lt (is_full_width i.info i.wide),
    bit_lt (is_full_width i.info i.wide && i.both_eyes),
    bit_lt i.audio_kcp,
  )

  two_words :
      (pad : List ℕ)
      → read_frame ((le16 (bit_or hdr (2 ^ ex_hdr_bit)) ++ le16 ex) ++ rest pad)
        ≡ some (sent_frame i ret threads)
  unfolding read_ex
  two_words pad =
      let h = bit_or hdr (2 ^ ex_hdr_bit) in
      let e : h ≡ 2 ^ 15 + hdr = with_ex_bit hdr hdr_small in
      let top : (h / 2 ^ 15 == 1) ≡ true = ground (arith, e, hdr_small) in
      read_behind h ex ((le16 h ++ le16 ex) ++ rest pad) (le16 ex ++ rest pad) pad
        (omega (arith, e, hdr_small)) refl
        (read_word-le16 h (le16 ex ++ rest pad) (omega (arith, e, hdr_small)))
        (rw top (read_word-le16 ex (rest pad) ex_small))

  one_word :
      (pad : List ℕ) → 0 ≡ ex → read_frame (le16 hdr ++ rest pad) ≡ some (sent_frame i ret threads)
  unfolding read_ex
  one_word pad e =
      let top : (hdr / 2 ^ 15 == 1) ≡ false = ground (arith, hdr_small) in
      read_behind hdr 0 (le16 hdr ++ rest pad) (rest pad) pad (omega (arith, hdr_small)) e
        (read_word-le16 hdr (rest pad) (omega (arith, hdr_small))) (rw top refl)

  no_ex :
      (needs_even_odd i.downsample || i.audio_kcp || is_full_width i.info i.wide) ≡ false → 0 ≡ ex
  no_ex e = ground (
    arith,
    e,
    ex_hdr_sum i.info (needs_even_odd i.downsample) (is_full_width i.info i.wide) i.both_eyes
        i.audio_kcp,
  )

  pub read_frame-frame_bytes :
      (pad : List ℕ)
      → read_frame (frame_bytes i ret threads ++ pad) ≡ some (sent_frame i ret threads)
  unfolding hdr_bytes
  read_frame-frame_bytes pad =
      let need = needs_even_odd i.downsample in
      let full = is_full_width i.info i.wide in
      rw (split pad) (elim (Bool-cases (need || i.audio_kcp || full)) [
        | inl e ↦ rw e (two_words pad)
        | inr e ↦ rw e (one_word pad (no_ex e))
      ])
