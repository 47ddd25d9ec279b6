-- ===== src/Ether.antt =====
-- The Ethernet service: src/ether.c and src/ether_fcs.c. Handlers enter as the list that the linker
-- set collects.
pub mod Fcs
pub mod Linux
use nstack.Base.{ℕ, List, [], ◌∷◌, Option, none, some, ltb, ◌==◌, if◌then◌else◌}
use nstack.Base.Int.{ℤ, negsuc, neg_part}
use nstack.Base.Errno.{eprotonosupport, Ret, done, fail}

-- `struct ether_hdr`.
pub record EtherHdr : Type 0 where
  pub h_dst : ℕ
  pub h_src : ℕ
  pub h_proto : ℕ

-- `struct _ether_proto_handler`, over a state `S` and payloads `P`: the handler writes its reply back to
-- the payload. Its errors are negated numbers.
pub record EtherProtoHandler (S P : Type 0) : Type 0 where
  pub proto_id : ℕ
  pub fn : S → EtherHdr → P → ℕ → S × P × Ret

-- The loop over the handlers.
unfoldable pub find_handler :
    {S P : Type 0} → ℕ → List (EtherProtoHandler S P) → Option (EtherProtoHandler S P)
find_handler proto [] = none
find_handler proto (h ∷ handlers) =
    let rest = find_handler proto handlers in if h.proto_id == proto then some h else rest

-- `ether_input`; an error is the -1 with its number in `errno`.
unfoldable pub ether_input :
    {S P : Type 0} → List (EtherProtoHandler S P) → S → EtherHdr → P → ℕ → S × P × Ret
unfolding find_handler
ether_input handlers s hdr payload bsize = elim (find_handler hdr.h_proto handlers) [
  | some h ↦ h.fn s hdr payload bsize
  | none ↦ (s, payload, fail eprotonosupport)
]

-- `ether_output_reply`, over the driver's `ether_send` on the interface: the result, and the number
-- that it leaves in `errno` when it is -1.
unfoldable pub ether_output_reply :
    {S P : Type 0} → (S → ℕ → ℕ → P → ℕ → S × ℤ) → S → EtherHdr → P → ℕ → S × ℤ × ℕ
ether_output_reply ether_send s hdr payload bsize =
    let (s', retval) = ether_send s hdr.h_src hdr.h_proto payload bsize in
    if ltb 0 (neg_part retval) then (s', negsuc 0, neg_part retval) else (s', retval, 0)
