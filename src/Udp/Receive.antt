-- ===== src/Udp/Receive.antt =====
-- A UDP datagram on its way from `udp_input` of src/udp.c through `nstack_sock_dgram_input` of
-- src/nstack.c to `nstack_recvfrom` of src/socket.c.
use nstack.Base.{
  ℕ, ◌+◌, ◌-◌, ◌<◌, ◌≤◌, ◌≡◌, refl, ap, ◌∙◌, arith, List, [], ◌++◌, false, some, length,
  length-append, take, drop, drop-append, take_all,
}
use nstack.Base.Errno.{done}
use nstack.Host.{Host}
use nstack.RbMap.{RbMap, IsMap}
use nstack.QueueR.Fifo.{Ring, IsRing, contents, capacity}
use nstack.Socket.{SockAddr, same_addr, Dgram}
use nstack.Socket.Ops.{back, nstack_sock_dgram_input, nstack_recvfrom}
use nstack.Socket.Ops.Laws.{nstack_recvfrom-nstack_sock_dgram_input}
use nstack.Ip.Header.{IpHdr}
use nstack.Udp.{UdpHdr, Delivery, nstack_udp_bind, udp_input}

-- The bytes of a segment that a delivery names.
abbrev pub delivered_bytes : Delivery → List ℕ → List ℕ
delivered_bytes d segment = take d.size (drop d.offset segment)

delivered_payload :
    (d : Delivery) (hdr payload : List ℕ)
    → length hdr ≡ 8
    → d.offset ≡ 8
    → d.size ≡ length payload
    → delivered_bytes d (hdr ++ payload) ≡ payload
delivered_payload d hdr payload h o n =
    let offset : d.offset ≡ 8 + 0 = o ∙ omega arith in
    ap (λ k. take d.size (drop k (hdr ++ payload))) offset
    ∙ ap (take d.size) (drop-append hdr payload 8 0 h)
    ∙ take_all d.size payload (omega (arith, n))

module _ (host : Host) (socks : RbMap SockAddr ℕ) where
  -- What is delivered from a datagram of `bsize` bytes.
  abbrev pub delivery : ℕ → IpHdr → UdpHdr → ℕ → Delivery
  delivery sock ip_hdr net bsize = record {
    socket = sock;
    source = record { inet4_addr = ip_hdr.ip_src; port = host.ntohs net.udp_sport };
    offset = 8;
    size = bsize - 8;
  }

  module _ (laws : IsMap same_addr socks) where
    delivered_to :
        (tree : socks.Map) (addr : SockAddr) (sock : ℕ) (ip_hdr : IpHdr) (net : UdpHdr) (bsize : ℕ)
        → 8 ≤ bsize
        → ip_hdr.ip_dst ≡ addr.inet4_addr
        → host.ntohs net.udp_dport ≡ addr.port
        → (nstack_udp_bind host socks tree addr sock).1 ≡ done 0
        → (udp_input host socks (nstack_udp_bind host socks tree addr sock).0 ip_hdr net bsize).2
          ≡ some (delivery sock ip_hdr net bsize)
    unfolding udp_input nstack_udp_bind
    delivered_to tree addr sock ip_hdr net bsize long dst port bound = ground (
      arith,
      laws.find-insert (record { inet4_addr = ip_hdr.ip_dst; port = host.ntohs net.udp_dport }) addr
          sock tree,
    )

    -- After a socket is bound, a UDP datagram with a payload of at most 4072 bytes for its address: the
    -- payload goes into the socket's queue, where that is valid, empty and of some capacity, and the
    -- next `nstack_recvfrom` with room for it returns exactly the payload, with the address and port of
    -- the sender; then the queue is empty again.
    pub udp_payload_received :
        (tree : socks.Map) (addr : SockAddr) (sock : ℕ) (ip_hdr : IpHdr) (net : UdpHdr)
        (hdr payload : List ℕ) (q : Ring Dgram) (len : ℕ)
        → length hdr ≡ 8
        → length payload ≤ 4072
        → length payload ≤ len
        → ip_hdr.ip_dst ≡ addr.inet4_addr
        → host.ntohs net.udp_dport ≡ addr.port
        → (nstack_udp_bind host socks tree addr sock).1 ≡ done 0
        → IsRing q
        → contents q ≡ []
        → 0 < capacity q
        → (d : Delivery) × (q' q'' : Ring Dgram) × ((udp_input host socks
              (nstack_udp_bind host socks tree addr sock).0
              ip_hdr
              net
              (length (hdr ++ payload))).2
            ≡ some d)
          × (d.socket ≡ sock)
          × (nstack_sock_dgram_input q addr d.source (delivered_bytes d (hdr ++ payload))
              ≡ back (q', done 0))
          × (nstack_recvfrom q' len false
              ≡ back (
                q'',
                payload,
                record { inet4_addr = ip_hdr.ip_src; port = host.ntohs net.udp_sport },
                length payload,
              ))
          × (contents q'' ≡ [])
    udp_payload_received tree addr sock ip_hdr net hdr payload q len h small fits dst port bound v
          empty room =
        let bsize : ℕ = length (hdr ++ payload) in
        let d : Delivery = delivery sock ip_hdr net bsize in
        let n = length-append hdr payload in
        let bytes : delivered_bytes d (hdr ++ payload) ≡ payload =
          delivered_payload d hdr payload h refl (omega (arith, n, h)) in
        let (q', q'', put_in, taken, none_left) =
          nstack_recvfrom-nstack_sock_dgram_input q addr d.source payload len v empty room small
            fits in
        (
          d,
          q',
          q'',
          delivered_to tree addr sock ip_hdr net bsize (omega (arith, n, h)) dst port bound,
          refl,
          ap (nstack_sock_dgram_input q addr d.source) bytes ∙ put_in,
          taken,
          none_left,
        )
