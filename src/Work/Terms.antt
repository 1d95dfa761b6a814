-- ===== src/Work/Terms.antt =====
-- send_term_dsts of entries/work_thread/vars.rs: what the threads of a frame did not fill a packet
-- with is gathered, behind a header, in packets of its own.
use ntr_hr.Base.{
  ℕ, zero, suc, ◌+◌, ◌-◌, ◌*◌, ◌^◌, Bool, true, false, not, ◌&&◌, ◌||◌, List, [], ◌∷◌, ◌++◌, Option,
  none, some, bit_or, bit_and, leb, ◌==◌, if◌then◌else◌, length, take, drop, get_or, set, replicate,
}
use ntr_hr.Base.Word.{u16, u32}
use ntr_hr.Sink.State.{Release}
use ntr_hr.Sink.Send.{le16, arq_hdr, Loop, done, reset, fault, rel_loop}
use ntr_hr.Consts.{arq_data_hdr_size}
use ntr_hr.Work.Rows.{core_count_max}
use ntr_hr.Work.Picture.{TopScreenWidth, left, right, both}

abbrev pub ex_hdr_bit : ℕ
ex_hdr_bit = 15

abbrev pub exhdr_v2_bit : ℕ
exhdr_v2_bit = 14

abbrev pub rp_kcp_hdr_quality_nbits : ℕ
rp_kcp_hdr_quality_nbits = 7

abbrev pub rp_kcp_hdr_t_nbits : ℕ
rp_kcp_hdr_t_nbits = 2

abbrev pub rp_kcp_hdr_chromass_nbits : ℕ
rp_kcp_hdr_chromass_nbits = 2

abbrev pub rp_kcp_hdr_size_nbits : ℕ
rp_kcp_hdr_size_nbits = 11

abbrev pub rp_kcp_hdr_rc_nbits : ℕ
rp_kcp_hdr_rc_nbits = 5

pub record TermInfo : Type 0 where
  pub is_top : Bool
  pub core_count : ℕ
  pub v_adjusted : ℕ
  pub v_last_adjusted : ℕ
  pub even_odd : Bool

pub data EncodeRet : Type 0 where
  jpeg_ret : (quality : ℕ) → EncodeRet
  jpeg_dq_ret : (delta_q : ℕ) → EncodeRet
  lossless_ret : (color_bias : ℕ) → EncodeRet

-- The packets so far: the full ones, the one being filled, how many entries of `terms` are free
-- behind it, and how many buffers the pool will still give.
pub record Terms : Type 0 where
  pub full : List (List ℕ)
  pub cur : List ℕ
  pub room : ℕ
  pub pool : ℕ

-- A copy is refused where the pool has no buffer, and panics behind the end of `terms`.
pub data Copied : Type 0 where
  copied : Terms → Copied
  refused : Copied
  panicked : Copied

-- What a later packet starts with.
unfoldable pub later_hdr : Bool → List ℕ
later_hdr v2 = if v2 then le16 (2 ^ ex_hdr_bit) ++ le16 (2 ^ exhdr_v2_bit) else []

unfoldable pub no_entry : ℕ → Copied
no_entry zero = refused
no_entry (suc pool) = panicked

-- The loop of copy_to_terms.
unfoldable pub copy_from :
    (room : ℕ) (size : ℕ) (v2 : Bool) → List (List ℕ) → List ℕ → (pool : ℕ) → List ℕ → Copied
copy_from zero size v2 full cur pool bytes =
    if leb (length bytes) (size - length cur)
    then copied (record { full = full; cur = cur ++ bytes; room = 0; pool = pool })
    else no_entry pool
copy_from (suc room) size v2 full cur zero bytes =
    if leb (length bytes) (size - length cur)
    then copied (record { full = full; cur = cur ++ bytes; room = suc room; pool = 0 })
    else refused
copy_from (suc room) size v2 full cur (suc pool) bytes =
    let rest =
      copy_from room size v2 (full ++ (cur ++ take (size - length cur) bytes) ∷ []) (later_hdr v2)
        pool (drop (size - length cur) bytes) in
    if leb (length bytes) (size - length cur)
    then copied (record { full = full; cur = cur ++ bytes; room = suc room; pool = suc pool })
    else rest

unfoldable pub copy_to_terms : ℕ → Bool → List ℕ → Terms → Copied
copy_to_terms size v2 bytes t = copy_from t.room size v2 t.full t.cur t.pool bytes

infixl 5 ◌>>=◌
abbrev pub ◌>>=◌ : Copied → (Terms → Copied) → Copied
copied t >>= f = f t
refused >>= f = refused
panicked >>= f = panicked

-- Whether the frame is a difference, and the quality field.
unfoldable pub quality_of : Bool → EncodeRet → Bool × ℕ
quality_of delta_prog (jpeg_ret quality) = (false, quality)
quality_of delta_prog (jpeg_dq_ret delta_q) = (true, delta_q)
quality_of delta_prog (lossless_ret color_bias) =
    (delta_prog, bit_or color_bias (if delta_prog then 2 ^ (rp_kcp_hdr_quality_nbits - 1) else 0))

abbrev pub bit : Bool → ℕ
bit true = 1
bit false = 0

-- The fields above the quality, `is_top` as the index of the screen (the top one has 0).
unfoldable pub term_hdr : TermInfo → (downsample chroma_ss : ℕ) → Bool × ℕ → ℕ
term_hdr info downsample chroma_ss (delta_prog, quality) =
    bit_or
      (bit_or
        (bit_or
          (bit_or (bit_or (u16 (downsample * 2 ^ 13)) (u16 (bit delta_prog * 2 ^ 12)))
            (u16 (chroma_ss * 2 ^ 10)))
          (u16 (bit (not info.is_top) * 2 ^ 9)))
        (u16 (info.core_count * 2 ^ rp_kcp_hdr_quality_nbits)))
      quality

unfoldable pub needs_even_odd : ℕ → Bool
needs_even_odd downsample = downsample == 1 || downsample == 2

unfoldable pub is_full_width : TermInfo → TopScreenWidth → Bool
is_full_width info left = false
is_full_width info right = false
is_full_width info both = info.is_top

-- The second header word, where `need` is that of the even and odd columns.
unfoldable pub ex_hdr : TermInfo → (need full_width both_eyes v2 : Bool) → ℕ
ex_hdr info need full_width both_eyes v2 =
    bit_or
      (bit_or (bit_or (if need then bit info.even_odd else 0) (if full_width then 2 else 0))
        (if full_width && both_eyes then 4 else 0))
      (if v2 then 2 ^ exhdr_v2_bit else 0)

unfoldable pub put_hdrs :
    ℕ → Bool → TermInfo → (downsample hdr : ℕ) → TopScreenWidth → Bool → Terms → Copied
put_hdrs size v2 info downsample hdr wide both_eyes t =
    let need = needs_even_odd downsample in
    let full_width = is_full_width info wide in
    if need || v2 || full_width
    then copy_to_terms size v2 (le16 (bit_or hdr (2 ^ ex_hdr_bit))) t
      >>= copy_to_terms size v2 (le16 (ex_hdr info need full_width both_eyes v2))
    else copy_to_terms size v2 (le16 hdr) t

-- A thread's size, and its rows above it; `as u16` cuts the size.
unfoldable pub thread_hdr : TermInfo → Bool → ℕ → ℕ
thread_hdr info last size = bit_or (u16 size) (
    u16 (
      bit_and (u16 (if last then info.v_last_adjusted else info.v_adjusted))
        (2 ^ rp_kcp_hdr_rc_nbits - 1)
      * 2 ^ rp_kcp_hdr_size_nbits))

unfoldable pub put_size : ℕ → Bool → TermInfo → Bool → Option (List ℕ) → Terms → Copied
put_size size v2 info last none t = refused
put_size size v2 info last (some bytes) t =
    copy_to_terms size v2 (le16 (thread_hdr info last (length bytes))) t

-- The loop over the threads from `j` on that puts their headers; `dsts` holds the bytes behind the
-- pointers of TERM_DSTS, `none` for the null pointer.
unfoldable pub put_sizes :
    (k : ℕ) → ℕ → Bool → TermInfo → (last j : ℕ) → List (Option (List ℕ)) → Terms → Copied
put_sizes zero size v2 info last j dsts t = copied t
put_sizes (suc k) size v2 info last j dsts t =
    put_size size v2 info (j == last) (get_or dsts j none) t
    >>= put_sizes k size v2 info last (j + 1) dsts

unfoldable pub put_dst : ℕ → Bool → Option (List ℕ) → Terms → Copied
put_dst size v2 none t = refused
put_dst size v2 (some bytes) t = copy_to_terms size v2 bytes t

-- The loop that puts the threads' bytes; no pointer is null behind the loop before.
unfoldable pub put_dsts : (k : ℕ) → ℕ → Bool → (j : ℕ) → List (Option (List ℕ)) → Terms → Copied
put_dsts zero size v2 j dsts t = copied t
put_dsts (suc k) size v2 j dsts t =
    put_dst size v2 (get_or dsts j none) t >>= put_dsts k size v2 (j + 1) dsts

-- The pointers behind that loop.
unfoldable pub clear_dsts : (k : ℕ) → ℕ → List (Option (List ℕ)) → List (Option (List ℕ))
clear_dsts zero j dsts = dsts
clear_dsts (suc k) j dsts = clear_dsts k (j + 1) (set dsts j none)

-- A packet for rp_syn_rel1: its header, the word in front of it, and its bytes.
pub record TermPacket : Type 0 where
  pub hdr : ℕ
  pub word : ℕ
  pub bytes : List ℕ

-- The last packet is filled up with zeros.
unfoldable pub packets_of : ℕ → Terms → List (List ℕ)
packets_of size t = t.full ++ (t.cur ++ replicate (size - length t.cur) 0) ∷ []

unfoldable pub term_packet : ℕ → ℕ → Bool → List ℕ → TermPacket
term_packet w size last bytes = record {
  hdr = arq_hdr w core_count_max;
  word = bit_or (bit_or (u32 (size + arq_data_hdr_size)) (2 ^ 31)) (if last then 2 ^ 30 else 0);
  bytes = bytes;
}

abbrev pub is_nil : {A : Type 0} → List A → Bool
is_nil [] = true
is_nil (x ∷ xs) = false

-- What the call answers, and the packets that the queue took, in order.
pub record Queued : Type 0 where
  pub answer : Bool
  pub queue : List TermPacket

-- After the loop on rp_syn_rel1 for a packet: under a reset no packet is queued, but the call goes on.
unfoldable pub queue_next : Loop → TermPacket → (List Release → Queued) → Queued
queue_next (done rs) p rest = let q = rest rs in record q { queue = p ∷ q.queue }
queue_next reset p rest = rest []
queue_next (fault rs) p rest = record { answer = false; queue = [] }

unfoldable pub queue_packets : ℕ → ℕ → List (List ℕ) → List Release → Queued
queue_packets w size [] rs = record { answer = true; queue = [] }
queue_packets w size (bytes ∷ packets) rs =
    queue_next (rel_loop rs) (term_packet w size (is_nil packets) bytes)
      (queue_packets w size packets)

-- What the call reads besides TERM_DSTS.
pub record TermInput : Type 0 where
  pub w : ℕ
  pub packet_data_size : ℕ
  pub audio_kcp : Bool
  pub info : TermInfo
  pub downsample : ℕ
  pub chroma_ss : ℕ
  pub delta_prog : Bool
  pub wide : TopScreenWidth
  pub both_eyes : Bool
  pub core_count : ℕ

-- All the copies, from the first buffer on.
unfoldable pub copy_all : TermInput → EncodeRet → List (Option (List ℕ)) → Terms → Copied
copy_all i ret dsts t =
    let size = i.packet_data_size in
    let hdr = term_hdr i.info i.downsample i.chroma_ss (quality_of i.delta_prog ret) in
    put_hdrs size i.audio_kcp i.info i.downsample hdr i.wide i.both_eyes t
    >>= put_sizes i.core_count size i.audio_kcp i.info (i.core_count - 1) 0 dsts
    >>= put_dsts i.core_count size i.audio_kcp 0 dsts

-- A call returns with its answer, the packets queued, and TERM_DSTS, or it panics. After an answer
-- of `false` the caller resets the threads, so the pointers are those of the call's start.
pub data TermResult : Type 0 where
  returned : Bool → List TermPacket → List (Option (List ℕ)) → TermResult
  panic : TermResult

unfoldable pub send_copied : TermInput → List (Option (List ℕ)) → List Release → Copied → TermResult
send_copied i dsts rs (copied t) =
    let q = queue_packets i.w i.packet_data_size (packets_of i.packet_data_size t) rs in
    returned q.answer q.queue (clear_dsts i.core_count 0 dsts)
send_copied i dsts rs refused = returned false [] dsts
send_copied i dsts rs panicked = panic

-- `sem` is the answer of the wait for SEG_MEM_TERM_SEM, and `pool` the number of buffers left.
unfoldable pub send_waited :
    TermInput → EncodeRet → List (Option (List ℕ)) → Bool → ℕ → List Release → TermResult
send_waited i ret dsts false pool rs = returned false [] dsts
send_waited i ret dsts true zero rs = returned false [] dsts
send_waited i ret dsts true (suc pool) rs =
    send_copied i dsts rs
      (copy_all i ret dsts (record { full = []; cur = []; room = core_count_max; pool = pool }))

unfoldable pub send_present :
    TermInput
    → EncodeRet
    → List (Option (List ℕ))
    → Bool
    → ℕ
    → List Release
    → Option (List ℕ)
    → TermResult
send_present i ret dsts sem pool rs none = returned true [] dsts
send_present i ret dsts sem pool rs (some bytes) = send_waited i ret dsts sem pool rs

unfoldable pub send_term_dsts :
    TermInput → EncodeRet → List (Option (List ℕ)) → Bool → ℕ → List Release → TermResult
send_term_dsts i ret dsts sem pool rs = send_present i ret dsts sem pool rs (get_or dsts 0 none)
