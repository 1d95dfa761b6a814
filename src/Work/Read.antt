-- ===== src/Work/Read.antt =====
-- A receiver's reading of a frame's gathered rest: the fields of the headers, and each thread's
-- rows and bytes.
use ntr_hr.Base.{
  ℕ, zero, suc, ◌+◌, ◌*◌, ◌/◌, ◌%◌, ◌^◌, List, [], ◌∷◌, Option, none, some, ◌==◌, if◌then◌else◌,
  leb, length, take, drop,
}

infixl 5 ◌>>=◌
abbrev ◌>>=◌ : {A B : Type 0} → Option A → (A → Option B) → Option B
none >>= f = none
some a >>= f = f a

unfoldable pub read_word : List ℕ → Option (ℕ × List ℕ)
read_word [] = none
read_word (a ∷ []) = none
read_word (a ∷ b ∷ rest) = some (a + b * 2 ^ 8, rest)

unfoldable pub read_bytes : ℕ → List ℕ → Option (List ℕ × List ℕ)
read_bytes n xs = if leb n (length xs) then some (take n xs, drop n xs) else none

-- The headers of `k` threads.
unfoldable pub read_sizes : ℕ → List ℕ → Option (List ℕ × List ℕ)
read_sizes zero xs = some ([], xs)
read_sizes (suc k) xs = do
  (hdr, rest) ← read_word xs
  (hdrs, rest') ← read_sizes k rest
  some (hdr ∷ hdrs, rest')

-- The rows and bytes of the threads with these headers; what follows is not looked at.
unfoldable pub read_threads : List ℕ → List ℕ → Option (List (ℕ × List ℕ))
read_threads [] xs = some []
read_threads (hdr ∷ hdrs) xs = do
  (bytes, rest) ← read_bytes (hdr % 2 ^ 11) xs
  threads ← read_threads hdrs rest
  some ((hdr / 2 ^ 11, bytes) ∷ threads)

pub record Received : Type 0 where
  pub downsample : ℕ
  pub delta_prog : ℕ
  pub chroma_ss : ℕ
  pub bottom : ℕ
  pub core_count : ℕ
  pub quality : ℕ
  -- the bits of the second header word, zeros without one
  pub even_odd : ℕ
  pub full_width : ℕ
  pub both_eyes : ℕ
  pub v2 : ℕ
  pub threads : List (ℕ × List ℕ)

unfoldable pub received : ℕ → ℕ → List (ℕ × List ℕ) → Received
received hdr ex threads = record {
  downsample = hdr / 2 ^ 13 % 4;
  delta_prog = hdr / 2 ^ 12 % 2;
  chroma_ss = hdr / 2 ^ 10 % 4;
  bottom = hdr / 2 ^ 9 % 2;
  core_count = hdr / 2 ^ 7 % 4;
  quality = hdr % 2 ^ 7;
  even_odd = ex % 2;
  full_width = ex / 2 % 2;
  both_eyes = ex / 4 % 2;
  v2 = ex / 2 ^ 14 % 2;
  threads = threads;
}

-- The top bit of the first word says whether there is a second one.
unfoldable pub read_ex : ℕ → List ℕ → Option (ℕ × List ℕ)
read_ex hdr xs = if hdr / 2 ^ 15 == 1 then read_word xs else some (0, xs)

unfoldable pub read_frame : List ℕ → Option Received
read_frame xs = do
  (hdr, rest) ← read_word xs
  (ex, rest') ← read_ex hdr rest
  (sizes, rest'') ← read_sizes (hdr / 2 ^ 7 % 4) rest'
  threads ← read_threads sizes rest''
  some (received hdr ex threads)
