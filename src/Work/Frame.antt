-- ===== src/Work/Frame.antt =====
-- The packets of send_term_dsts hold its headers and the threads' bytes, in order.
use ntr_hr.Base.{
  ℕ, ◌+◌, ◌-◌, ◌^◌, ◌≤◌, ◌<◌, ◌≡◌, Bool, ◌||◌, List, [], ◌∷◌, ◌++◌, arith, refl, sym, Option, none,
  some, inl, inr, bit_or, ◌==◌, if◌then◌else◌, length, get_or, length-append, append_assoc,
  append-nil, Bool-cases,
}
use ntr_hr.Sink.Send.{le16}
use ntr_hr.Work.Picture.{TopScreenWidth}
use ntr_hr.Work.Terms.{
  Terms, TermInfo, TermInput, EncodeRet, copied, copy_to_terms, ex_hdr_bit, term_hdr, quality_of,
  needs_even_odd, is_full_width, ex_hdr, thread_hdr, put_hdrs, put_size, put_sizes, put_dst,
  put_dsts, copy_all,
}
use ntr_hr.Work.Gather.{hdr_len}
use ntr_hr.Work.Fill.{IsFilled, space, text, Appends, copy_to_terms-Appends, Appends-bind}

-- TERM_DSTS has the threads' bytes from thread `j` on.
abbrev pub Present : List (Option (List ℕ)) → ℕ → List (List ℕ) → Type 0
Present dsts j [] = Unit {0}
Present dsts j (bytes ∷ rest) = (get_or dsts j none ≡ some bytes) × Present dsts (j + 1) rest

unfoldable pub hdr_bytes : Bool → TermInfo → (downsample hdr : ℕ) → TopScreenWidth → Bool → List ℕ
hdr_bytes v2 info downsample hdr wide both_eyes =
    let need = needs_even_odd downsample in
    let full_width = is_full_width info wide in
    if need || v2 || full_width
    then le16 (bit_or hdr (2 ^ ex_hdr_bit)) ++ le16 (ex_hdr info need full_width both_eyes v2)
    else le16 hdr

unfoldable pub size_bytes : TermInfo → (last j : ℕ) → List (List ℕ) → List ℕ
size_bytes info last j [] = []
size_bytes info last j (bytes ∷ rest) =
    le16 (thread_hdr info (j == last) (length bytes)) ++ size_bytes info last (j + 1) rest

abbrev pub concat : List (List ℕ) → List ℕ
concat [] = []
concat (bytes ∷ rest) = bytes ++ concat rest

-- All that a call gathers.
unfoldable pub frame_bytes : TermInput → EncodeRet → List (List ℕ) → List ℕ
frame_bytes i ret threads =
    hdr_bytes i.audio_kcp i.info i.downsample
      (term_hdr i.info i.downsample i.chroma_ss (quality_of i.delta_prog ret)) i.wide i.both_eyes
    ++ (size_bytes i.info (i.core_count - 1) 0 threads ++ concat threads)

module _ (size : ℕ) (v2 : Bool) (big : hdr_len v2 < size) where
  Appends-nothing :
      (t : Terms)
      → IsFilled size v2 t.full t.cur
      → t.room ≤ t.pool
      → Appends size v2 t [] (copied t)
  Appends-nothing t f enough = record {
    after = t;
    ok = refl;
    wrote = sym (append-nil (text v2 t));
    filled = f;
    pooled = enough;
    left = omega arith;
    slots = refl;
  }

  put_hdrs-Appends :
      (info : TermInfo) (downsample hdr : ℕ) (wide : TopScreenWidth) (both_eyes : Bool) (t : Terms)
      → IsFilled size v2 t.full t.cur
      → t.room ≤ t.pool
      → 4 ≤ space size v2 t.room t.cur
      → Appends size v2 t
          (hdr_bytes v2 info downsample hdr wide both_eyes)
          (put_hdrs size v2 info downsample hdr wide both_eyes t)
  unfolding put_hdrs hdr_bytes
  put_hdrs-Appends info downsample hdr wide both_eyes t f enough fit =
      let need = needs_even_odd downsample in
      let full = is_full_width info wide in
      elim (Bool-cases (need || v2 || full)) [
        | inl e ↦ rw e (
            let hdr' = bit_or hdr (2 ^ ex_hdr_bit) in
            Appends-bind size v2 big t (le16 hdr') (le16 (ex_hdr info need full both_eyes v2))
              (copy_to_terms size v2 (le16 hdr') t)
              (copy_to_terms size v2 (le16 (ex_hdr info need full both_eyes v2)))
              (copy_to_terms-Appends size v2 big t (le16 hdr') f enough (omega arith)) fit
              (λ u g more fit'.
                copy_to_terms-Appends size v2 big u (le16 (ex_hdr info need full both_eyes v2)) g
                  more fit'))
        | inr e ↦ rw e (copy_to_terms-Appends size v2 big t (le16 hdr) f enough (omega arith))
      ]

  put_sizes-Appends :
      (info : TermInfo) (last j : ℕ) (dsts : List (Option (List ℕ))) (threads : List (List ℕ))
      (t : Terms)
      → Present dsts j threads
      → IsFilled size v2 t.full t.cur
      → t.room ≤ t.pool
      → length (size_bytes info last j threads) ≤ space size v2 t.room t.cur
      → Appends size v2 t
          (size_bytes info last j threads)
          (put_sizes (length threads) size v2 info last j dsts t)
  unfolding put_sizes size_bytes put_size
  put_sizes-Appends info last j dsts [] t there f enough fit = Appends-nothing t f enough
  put_sizes-Appends info last j dsts (bytes ∷ rest) t there f enough fit =
      let hdr = le16 (thread_hdr info (j == last) (length bytes)) in
      rw there.0 (
        Appends-bind size v2 big t hdr (size_bytes info last (j + 1) rest)
          (copy_to_terms size v2 hdr t) (put_sizes (length rest) size v2 info last (j + 1) dsts)
          (copy_to_terms-Appends size v2 big t hdr f enough (omega arith)) (omega arith)
          (λ u g more fit'. put_sizes-Appends info last (j + 1) dsts rest u there.1 g more fit'))

  put_dsts-Appends :
      (j : ℕ) (dsts : List (Option (List ℕ))) (threads : List (List ℕ)) (t : Terms)
      → Present dsts j threads
      → IsFilled size v2 t.full t.cur
      → t.room ≤ t.pool
      → length (concat threads) ≤ space size v2 t.room t.cur
      → Appends size v2 t (concat threads) (put_dsts (length threads) size v2 j dsts t)
  unfolding put_dsts put_dst
  put_dsts-Appends j dsts [] t there f enough fit = Appends-nothing t f enough
  put_dsts-Appends j dsts (bytes ∷ rest) t there f enough fit = rw there.0 (
      Appends-bind size v2 big t bytes (concat rest) (copy_to_terms size v2 bytes t)
        (put_dsts (length rest) size v2 (j + 1) dsts)
        (copy_to_terms-Appends size v2 big t bytes f enough
          (omega (arith, length-append bytes (concat rest))))
        (omega (arith, length-append bytes (concat rest)))
        (λ u g more fit'. put_dsts-Appends (j + 1) dsts rest u there.1 g more fit'))

-- All of the frame's bytes are appended, where there is room.
pub copy_all-Appends :
    (i : TermInput) (ret : EncodeRet) (dsts : List (Option (List ℕ))) (threads : List (List ℕ))
    (t : Terms)
    → hdr_len i.audio_kcp < i.packet_data_size
    → i.core_count ≡ length threads
    → Present dsts 0 threads
    → IsFilled i.packet_data_size i.audio_kcp t.full t.cur
    → t.room ≤ t.pool
    → length (frame_bytes i ret threads) + 4 ≤ space i.packet_data_size i.audio_kcp t.room t.cur
    → Appends i.packet_data_size i.audio_kcp t (frame_bytes i ret threads) (copy_all i ret dsts t)
unfolding copy_all frame_bytes
copy_all-Appends i ret dsts threads t big count there f enough fit =
    let size = i.packet_data_size in
    let v2 = i.audio_kcp in
    let last = length threads - 1 in
    let enough_room = rw count at (fit) in
    let hdr = term_hdr i.info i.downsample i.chroma_ss (quality_of i.delta_prog ret) in
    let hs = hdr_bytes v2 i.info i.downsample hdr i.wide i.both_eyes in
    let ss = size_bytes i.info last 0 threads in
    let room = length-append hs (ss ++ concat threads) in
    let room' = length-append ss (concat threads) in
    rw (count, ← append_assoc hs ss (concat threads))
      (Appends-bind size v2 big t (hs ++ ss) (concat threads) _
        (put_dsts (length threads) size v2 0 dsts)
        (Appends-bind size v2 big t hs ss _ (put_sizes (length threads) size v2 i.info last 0 dsts)
          (put_hdrs-Appends size v2 big i.info i.downsample hdr i.wide i.both_eyes t f enough
            (omega arith))
          (omega (arith, room, room'))
          (λ u g more fit'.
            put_sizes-Appends size v2 big i.info last 0 dsts threads u there g more fit'))
        (omega (arith, length-append hs ss, room, room'))
        (λ u g more fit'. put_dsts-Appends size v2 big 0 dsts threads u there g more fit'))
