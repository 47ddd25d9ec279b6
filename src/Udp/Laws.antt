-- ===== src/Udp/Laws.antt =====
-- What `udp_input`, `nstack_udp_bind`, `udp_checksum` and `nstack_udp_send` do on every branch.
use nstack.Base.{
  ℕ, ◌≡◌, ◌≢◌, ◌≤◌, ◌<◌, ◌⊎◌, inl, inr, refl, arith, Bool-cases, ◌+◌, ◌-◌, ◌/◌, ◌%◌, ◌^◌, List,
  none, some, u16, ◌==◌, length, take,
}
use nstack.Base.Errno.{ebadmsg, enotsock, done, fail}
use nstack.Base.Int.{ℤ, negsuc}
use nstack.Host.{Host}
use nstack.RbMap.{RbMap, IsMap}
use nstack.Socket.{SockAddr, same_addr, Dgram}
use nstack.Ip.Header.{IpHdr}
use nstack.Tcp.Fsm.{Delivery}
use nstack.Udp.{
  UdpHdr, UdpPacket, udp_maxlen, fold_carries, udp_hton, udp_ntoh, udp_total, udp_checksum,
  nstack_udp_bind, udp_input, udp_send_hdr, nstack_udp_send,
}

-- Two rounds leave no carry, and the sum keeps its remainder modulo 0xffff.
pub fold_carries_lem :
    (sum : ℕ)
    → sum < 2 ^ 32
    → (out : ℕ) × (fold_carries 3 sum ≡ some out) × (out < 2 ^ 16) × (out % 0xffff ≡ sum % 0xffff)
unfolding fold_carries
fold_carries_lem sum h =
    let once = sum % 2 ^ 16 + sum / 2 ^ 16 in
    let twice = once % 2 ^ 16 + once / 2 ^ 16 in
    elim (Bool-cases (sum / 2 ^ 16 == 0)) [
      | inl small ↦ (sum, rw small refl, ground arith, refl)
      | inr big ↦ elim (Bool-cases (once / 2 ^ 16 == 0)) [
        | inl less ↦ (once, rw big (rw less refl), ground arith, omega arith)
        | inr more ↦ (twice, ground arith, omega arith, omega arith)
      ]
    ]

module _ (host : Host) where
  total-lt :
      (hdr : UdpHdr) (bytes : List ℕ) (len src_addr dest_addr : ℕ)
      → udp_total host hdr bytes len src_addr dest_addr < 2 ^ 32
  unfolding udp_total
  total-lt hdr bytes len src_addr dest_addr = omega arith

  -- The checksum is computed in every case, and it is the complement of a word with the remainder of the
  -- sum modulo 0xffff.
  udp_checksum_lem :
      (hdr : UdpHdr) (bytes : List ℕ) (len src_addr dest_addr : ℕ)
      → (chk : ℕ) × (udp_checksum host hdr bytes len src_addr dest_addr ≡ some chk)
        × (chk < 2 ^ 16)
        × ((chk + udp_total host hdr bytes len src_addr dest_addr) % 0xffff ≡ 0)
  unfolding udp_checksum
  udp_checksum_lem hdr bytes len src_addr dest_addr =
      let total = udp_total host hdr bytes len src_addr dest_addr in
      let (sum, e, small, same) =
        fold_carries_lem total (total-lt hdr bytes len src_addr dest_addr) in
      (0xffff - u16 sum, rw (e, udp_checksum) refl, omega arith, omega (arith, small, same))

  -- A datagram is sent only if the checksum over the header and what the stack happens to hold is 0;
  -- every other one is refused, with the result -1, or -22 for its size.
  pub nstack_udp_send_cases :
      {S : Type 0} (ip_send : S → UdpPacket → S × ℤ) (source : SockAddr) (dgram : Dgram)
      (garbage : List ℕ) (s : S)
      → let hdr = udp_send_hdr host ip_send source dgram in
        let out = nstack_udp_send host ip_send source dgram garbage s in
        ((out ≡ some (s, negsuc 21)) × ((length dgram.buf ≡ 0) ⊎ (udp_maxlen ≤ length dgram.buf)))
        ⊎ ((0 < length dgram.buf)
            × (length dgram.buf < udp_maxlen)
            × ((chk : ℕ) × (udp_checksum host hdr
                    (take (hdr.udp_len - 8) garbage)
                    hdr.udp_len
                    dgram.srcaddr.inet4_addr
                    dgram.dstaddr.inet4_addr
                  ≡ some chk)
                × (((chk ≢ 0) × (out ≡ some (s, negsuc 0)))
                    ⊎ ((chk ≡ 0)
                        × (out
                            ≡ some (
                                ip_send s (record {
                                  dst = dgram.dstaddr.inet4_addr;
                                  header = udp_hton host hdr;
                                  behind = dgram.buf;
                                })))))))
  unfolding nstack_udp_send
  nstack_udp_send_cases ip_send source dgram garbage s =
      let hdr = udp_send_hdr host ip_send source dgram in
      let (chk, e, small, same) =
        udp_checksum_lem hdr (take (hdr.udp_len - 8) garbage) hdr.udp_len dgram.srcaddr.inet4_addr
          dgram.dstaddr.inet4_addr in
      ground (arith, e)

  module _ (socks : RbMap SockAddr ℕ) where
    -- A datagram that is too short is refused; one for a port without a socket is reported; every other
    -- one is handed, without its header and with its sender, to the socket of its address.
    pub udp_input_cases :
        (tree : socks.Map) (ip_hdr : IpHdr) (net : UdpHdr) (bsize : ℕ)
        → let addr : SockAddr = record {
          inet4_addr = ip_hdr.ip_dst;
          port = host.ntohs net.udp_dport;
        } in
          let out = udp_input host socks tree ip_hdr net bsize in
          ((bsize < 8) × (out ≡ (net, fail ebadmsg, none)))
          ⊎ ((8 ≤ bsize)
              × (socks.find addr tree ≡ none)
              × (out ≡ (udp_ntoh host net, fail enotsock, none)))
          ⊎ ((8 ≤ bsize)
              × ((sock : ℕ) × (socks.find addr tree ≡ some sock)
                  × (out.1 ≡ done 0)
                  × (out.2
                      ≡ some (record {
                        socket = sock;
                        source = record {
                          inet4_addr = ip_hdr.ip_src;
                          port = host.ntohs net.udp_sport;
                        };
                        offset = 8;
                        size = bsize - 8;
                      }))))
    unfolding udp_input udp_ntoh
    udp_input_cases tree ip_hdr net bsize = ground arith

    -- After a socket is bound, a datagram for its address is handed to it.
    udp_input-nstack_udp_bind :
        (laws : IsMap same_addr socks) (tree : socks.Map) (addr : SockAddr) (sock : ℕ)
        (ip_hdr : IpHdr) (net : UdpHdr) (bsize : ℕ)
        → 8 ≤ bsize
        → ip_hdr.ip_dst ≡ addr.inet4_addr
        → host.ntohs net.udp_dport ≡ addr.port
        → (nstack_udp_bind host socks tree addr sock).1 ≡ done 0
        → (d : Delivery) × ((udp_input host socks
              (nstack_udp_bind host socks tree addr sock).0
              ip_hdr
              net
              bsize).2
            ≡ some d)
          × (d.socket ≡ sock)
          × (d.size + 8 ≡ bsize)
    unfolding udp_input nstack_udp_bind
    udp_input-nstack_udp_bind laws tree addr sock ip_hdr net bsize long dst port bound = (
      record {
        socket = sock;
        source = record { inet4_addr = ip_hdr.ip_src; port = host.ntohs net.udp_sport };
        offset = 8;
        size = bsize - 8;
      },
      ground (
        arith,
        laws.find-insert (record { inet4_addr = ip_hdr.ip_dst; port = host.ntohs net.udp_dport })
            addr sock tree,
      ),
      refl,
      omega arith,
    )
