-- ===== src/Ip/Input.antt =====
-- `ip_input` of src/ip.c. A packet is its header and the bytes behind the 20 bytes of the header. The
-- handlers enter as the list that the linker set collects, and `ip_fragment_input`, which calls back,
-- as a function.
pub mod Laws
pub mod Receive
pub mod Ping
use nstack.Base.{
  ◌%◌, ◌^◌, ℕ, zero, suc, ◌+◌, ◌-◌, List, [], ◌∷◌, Bool, true, false, not, Option, none, some, ltb,
  leb, ◌==◌, test_bit, take, drop, if◌then◌else◌,
}
use nstack.Base.Errno.{Errno, enotsock, Ret, done, fail}
use nstack.Base.Outcome.{Outcome, returns, faults, ◌>>=◌}
use nstack.Host.{Host}
use nstack.RbMap.{RbMap}
use nstack.Ip.Header.{IpHdr, ip_hdr_hlen, ip_ntoh, ip_fragment_is_frag, ip_reply_header}
use nstack.Ip.Route.{IpRoute, Rib, ip_route_find_by_iface}
use nstack.Ip.Send.{IpState}
use nstack.Icmp.{IcmpDestunreac, icmp_generate_dest_unreachable}
use nstack.Arp.Cache.{arp_cache_dyn, arp_cache_insert}
use nstack.Ether.{EtherHdr}

-- `struct _ip_proto_handler` over the state `T` of the transport protocols: the handler writes its
-- reply back to the bytes.
pub record IpProtoHandler (T : Type 0) : Type 0 where
  pub proto_id : ℕ
  pub fn : T → IpHdr → List ℕ → ℕ → T × List ℕ × Ret

-- What `ip_input` leaves: no reply and the result 0, a negated error number, a reply of so many bytes
-- in place of the packet, or a message that its destination cannot be reached.
pub data IpOutput : Type 0 where
  nothing : IpOutput
  failed : Errno → IpOutput
  reply : IpHdr → List ℕ → ℕ → IpOutput
  unreachable : IpHdr → IcmpDestunreac → ℕ → IpOutput

-- `ICMP_CODE_HOSTUNREAC`, `ICMP_CODE_PROTOUNREAC` and `ICMP_CODE_PORTUNREAC`.
abbrev pub icmp_code_hostunreac : ℕ
icmp_code_hostunreac = 1

abbrev pub icmp_code_protounreac : ℕ
icmp_code_protounreac = 2

abbrev pub icmp_code_portunreac : ℕ
icmp_code_portunreac = 3

-- The loop over the handlers.
unfoldable pub find_handler : {T : Type 0} → ℕ → List (IpProtoHandler T) → Option (IpProtoHandler T)
find_handler proto [] = none
find_handler proto (h ∷ handlers) =
    let rest = find_handler proto handlers in if h.proto_id == proto then some h else rest

-- The guards on the header: the bit of version 4, the length of the header and that of the packet.
unfoldable pub accepts_hdr : IpHdr → ℕ → Bool
accepts_hdr ip bsize =
    if not (test_bit ip.ip_vhl 6)
    then false
    else if ltb (ip_hdr_hlen ip) 20
    then false
    else ip.ip_len == bsize

-- `bsize - hlen` as a `size_t`.
abbrev pub data_size : ℕ → ℕ → ℕ
data_size bsize hlen = (2 ^ 64 + bsize - hlen) % 2 ^ 64

module _ (host : Host) where
  -- `icmp_generate_dest_unreachable` for the packet.
  unfoldable pub dest_unreachable : IpHdr → ℕ → List ℕ → ℕ → IpOutput
  dest_unreachable ip code buf bsize =
      let (net, msg, size) = icmp_generate_dest_unreachable host ip code buf bsize in
      unreachable net msg size

  -- What `ip_input` makes of the result of a handler, which leaves `written` of the payload; this is also
  -- what a message that the port is unreachable is made from.
  unfoldable pub handler_output : IpHdr → List ℕ → ℕ → List ℕ → List ℕ → Ret → IpOutput
  handler_output ip buf bsize options written (done zero) = nothing
  handler_output ip buf bsize options written (done (suc n)) =
      let (net, size) = ip_reply_header host ip options (suc n) in reply net written size
  handler_output ip buf bsize options written (fail enotsock) =
      dest_unreachable ip icmp_code_portunreac written bsize
  handler_output ip buf bsize options written (fail e) = failed e

  module _ (trees : RbMap ℕ IpRoute) (index : RbMap ℕ ℕ) {S T : Type 0}
      (handlers : List (IpProtoHandler T))
      (ip_fragment_input : IpState trees index S
        → T
        → IpHdr
        → List ℕ
        → IpState trees index S × T) where
    -- The second half of `ip_input`, where the packet is for an interface of ours or not.
    unfoldable pub ip_deliver :
        IpState trees index S → T → IpHdr → List ℕ → ℕ → IpState trees index S × T × IpOutput
    ip_deliver st t ip behind bsize =
        let hlen = ip_hdr_hlen ip in
        let options = take (hlen - 20) behind in
        let buf = drop (hlen - 20) behind in
        let (st', t') = ip_fragment_input st t ip buf in
        let handled : T × IpOutput = elim (find_handler ip.ip_proto handlers) [
          | none ↦ (t, dest_unreachable ip icmp_code_protounreac buf (data_size bsize hlen))
          | some h ↦
              let (t2, written, ret) = h.fn t ip buf (data_size bsize hlen) in
              (t2, handler_output ip buf (data_size bsize hlen) options written ret)
        ] in
        elim (ip_route_find_by_iface trees st.rib ip.ip_dst) [
          | none ↦ (st, t, dest_unreachable ip icmp_code_hostunreac buf (data_size bsize hlen))
          | some route ↦
              if ip_fragment_is_frag ip then (st', t', nothing) else (st, handled.0, handled.1)
        ]

    -- `ip_input` of a packet in host order that came in a frame: the sender is put into the ARP cache.
    unfoldable pub ip_receive :
        IpState trees index S
        → T
        → EtherHdr
        → IpHdr
        → List ℕ
        → ℕ
        → Outcome (IpState trees index S × T × IpOutput)
    ip_receive st t e_hdr ip behind bsize =
        let learned = arp_cache_insert index st.arp ip.ip_src e_hdr.h_src arp_cache_dyn in
        if accepts_hdr ip bsize
        then learned >>= (λ r. returns (ip_deliver (record st { arp = r.0 }) t ip behind bsize))
        else returns (st, t, nothing)

    -- `ip_input`; without an Ethernet header the packet is in host order.
    unfoldable pub ip_input :
        IpState trees index S
        → T
        → Option EtherHdr
        → IpHdr
        → List ℕ
        → ℕ
        → Outcome (IpState trees index S × T × IpOutput)
    ip_input st t none ip behind bsize =
        if accepts_hdr ip bsize
        then returns (ip_deliver st t ip behind bsize)
        else returns (st, t, nothing)
    ip_input st t (some e_hdr) net behind bsize =
        ip_receive st t e_hdr (ip_ntoh host net).0 behind bsize
