-- ===== src/Ether/Linux.antt =====
-- Frames as src/linux/ether.c builds and takes them: `ether_send` up to `sendto`, and
-- `ether_receive` from `recvfrom` on. A hardware address is a list of its bytes, and a stored
-- `uint32_t` has its lowest byte first.
pub mod Laws
pub mod Driver
use nstack.Base.{
  ℕ, ◌+◌, ◌-◌, ◌*◌, ◌/◌, ◌%◌, ◌^◌, List, [], ◌∷◌, ◌++◌, Bool, true, false, ◌&&◌, Option, none, some,
  ltb, ◌==◌, max, min, length, take, drop, replicate, if◌then◌else◌,
}
use nstack.Base.Int.{ℤ, pos, negsuc}
use nstack.Ether.Fcs.{ether_fcs}

-- `ETHER_HEADER_LEN`, `ETHER_FCS_LEN`, `ETHER_MINLEN` and `ETHER_MAXLEN`.
abbrev pub ether_header_len : ℕ
ether_header_len = 14

abbrev pub ether_fcs_len : ℕ
ether_fcs_len = 4

abbrev pub ether_minlen : ℕ
ether_minlen = 60

abbrev pub ether_maxlen : ℕ
ether_maxlen = 1514

-- The bytes of a `uint16_t` that `htons` has converted, and those of a `uint32_t`.
abbrev pub store16 : ℕ → List ℕ
store16 x = (x / 256 % 256) ∷ (x % 256) ∷ []

abbrev pub store32 : ℕ → List ℕ
store32 x = (x % 256) ∷ (x / 2 ^ 8 % 256) ∷ (x / 2 ^ 16 % 256) ∷ (x / 2 ^ 24 % 256) ∷ []

-- `frame_size`.
unfoldable pub frame_size : ℕ → ℕ
frame_size bsize = ether_header_len + max bsize (ether_minlen - ether_fcs_len) + ether_fcs_len

-- The frame over which the check sequence is taken: the header, the payload and the bytes that
-- `memset` clears.
unfoldable pub frame_body : List ℕ → List ℕ → ℕ → List ℕ → List ℕ
unfolding frame_size
frame_body dst src proto buf =
    let cleared = frame_size (length buf) - ether_fcs_len - ether_header_len - length buf in
    dst ++ (src ++ (store16 proto ++ (buf ++ replicate cleared 0)))

-- `ether_send`: the frame that goes to `sendto`, `none` for -EMSGSIZE.
unfoldable pub ether_frame : List ℕ → List ℕ → ℕ → List ℕ → Option (List ℕ)
ether_frame dst src proto buf =
    let body = frame_body dst src proto buf in
    if ltb (ether_maxlen + ether_fcs_len) (frame_size (length buf))
    then none
    else some (body ++ store32 (ether_fcs body))

-- `memcmp` gives 0.
unfoldable pub same_bytes : List ℕ → List ℕ → Bool
same_bytes [] [] = true
same_bytes [] (b ∷ rest_b) = false
same_bytes (a ∷ rest_a) [] = false
same_bytes (a ∷ rest_a) (b ∷ rest_b) = let rest = same_bytes rest_a rest_b in a == b && rest

-- What a call of `recvfrom` gives: a frame, nothing in time (EAGAIN, EWOULDBLOCK, EINPROGRESS) or
-- another error.
pub data Recvfrom : Type 0 where
  came : List ℕ → Recvfrom
  timed_out recv_failed : Recvfrom

-- What `ether_receive` fills in: the header and the bytes that it copies to `buf`.
pub record Received : Type 0 where
  pub h_dst : List ℕ
  pub h_src : List ℕ
  pub h_proto : ℕ
  pub buf : List ℕ
  pub retval : ℤ

-- How `ether_receive` ends: with a frame, with a value alone, in reading behind its array, or not before
-- a further call of `recvfrom` returns.
pub data EtherReceive : Type 0 where
  received : Received → EtherReceive
  returned : ℤ → EtherReceive
  overreads waits : EtherReceive

abbrev pub load16_be : List ℕ → ℕ
load16_be (a ∷ b ∷ bs) = a * 256 + b
load16_be bs = 0

-- `retval -= ETHER_HEADER_LEN`.
unfoldable pub without_header : ℕ → ℤ
without_header n =
    if ltb n ether_header_len then negsuc (ether_header_len - 1 - n) else pos (n - ether_header_len)

-- `min(retval, bsize)`, whose arguments are converted to `unsigned int`.
unfoldable pub copied : ℤ → ℕ → ℕ
copied (pos n) bsize = min (n % 2 ^ 32) (bsize % 2 ^ 32)
copied (negsuc n) bsize = min (2 ^ 32 - 1 - n % 2 ^ 32) (bsize % 2 ^ 32)

-- `frame` after a call of `recvfrom` that writes at most `sizeof(frame)` bytes: the array is not cleared
-- and keeps what was behind them.
abbrev pub filled : List ℕ → List ℕ → List ℕ
filled frame arrived =
    let written = take ether_maxlen arrived in written ++ drop (length written) frame

-- `ether_receive` behind its loop, with `size` bytes in `frame`.
unfoldable pub receive_frame : List ℕ → ℕ → ℕ → EtherReceive
unfolding without_header copied
receive_frame frame size bsize =
    let retval = without_header size in
    let count = copied retval bsize in
    if ltb (ether_maxlen - ether_header_len) count
    then overreads
    else received (record {
      h_dst = take 6 frame;
      h_src = take 6 (drop 6 frame);
      h_proto = load16_be (drop 12 frame);
      buf = take count (drop ether_header_len frame);
      retval = retval;
    })

-- The loop of `ether_receive` on what `recvfrom` gives, call by call: the frames that the interface has
-- sent itself are passed over.
unfoldable pub receive_loop : List ℕ → ℕ → List ℕ → List Recvfrom → EtherReceive
unfolding same_bytes receive_frame
receive_loop el_mac bsize frame [] = waits
receive_loop el_mac bsize frame (timed_out ∷ calls) = returned (pos 0)
receive_loop el_mac bsize frame (recv_failed ∷ calls) = returned (negsuc 0)
receive_loop el_mac bsize frame (came arrived ∷ calls) =
    let frame' = filled frame arrived in
    let rest = receive_loop el_mac bsize frame' calls in
    if same_bytes (take 6 (drop 6 frame')) el_mac
    then rest
    else receive_frame frame' (length (take ether_maxlen arrived)) bsize

-- `ether_receive`: `el_mac` is `none` where `ether_handle2eth` gives NULL, and `frame` is what its
-- array holds at first.
unfoldable pub ether_receive : Option (List ℕ) → ℕ → List ℕ → List Recvfrom → EtherReceive
unfolding receive_loop
ether_receive none bsize frame calls = returned (negsuc 0)
ether_receive (some el_mac) bsize frame calls = receive_loop el_mac bsize frame calls
