-- ===== src/Tests/Packets.antt =====
-- Examples for checksums, headers, ICMP and UDP.
use nstack.Tests.{
  ip_in, ip_in-IsHdr, socks, server, two_bytes, dgram_ring, dgram_ring-IsRing, dgram, fun_map-IsMap,
}
use nstack.Base.{
  false, List, ℕ, arith, refl, ◌∷◌, [], suc, ◌-◌, ◌≤◌, ◌<◌, ◌≡◌, ◌++◌, take, ◌≢◌, ◌⊎◌, some, length,
}
use nstack.Base.Int.{ℤ, pos, negsuc}
use nstack.Host.{little_endian}
use nstack.Socket.{same_addr}
use nstack.Udp.{
  UdpHdr, UdpPacket, udp_maxlen, udp_hton, udp_checksum, nstack_udp_bind, udp_input, udp_send_hdr,
  nstack_udp_send,
}
use nstack.Ip.Header.{ip_hdr_hlen, ip_hdr_checksum, ip_hton}
use nstack.Ip.Header.Laws.{ip_hton_verifies}
use nstack.Base.Errno.{done}
use nstack.Tcp.Fsm.{Delivery}
use nstack.Udp.Receive.{delivered_bytes, udp_payload_received}
use nstack.QueueR.Fifo.{Ring, contents}
use nstack.Socket.{Dgram}
use nstack.Socket.Ops.{back, nstack_sock_dgram_input, nstack_recvfrom}
use nstack.Udp.Laws.{nstack_udp_send_cases}

-- A datagram for port 80 on the wire.
abbrev datagram : UdpHdr
datagram = record { udp_sport = 4; udp_dport = 0x5000; udp_len = 0x0b00; udp_csum = 0 }

abbrev udp_ok : ℕ → UdpPacket → ℕ × ℤ
udp_ok n packet = (suc n, pos 31)

ip_hton_verifies_example :
    ip_hdr_checksum little_endian (ip_hton little_endian ip_in []) [] (ip_hdr_hlen ip_in) ≡ 0
unfolding ip_hdr_hlen
ip_hton_verifies_example = ip_hton_verifies little_endian ip_in [] ip_in-IsHdr tt (omega arith)

nstack_udp_send_cases_example :
    let hdr = udp_send_hdr little_endian udp_ok server dgram in
    let out = nstack_udp_send little_endian udp_ok server dgram (9 ∷ []) 0 in
    ((out ≡ some (0, negsuc 21)) × ((length dgram.buf ≡ 0) ⊎ (udp_maxlen ≤ length dgram.buf)))
    ⊎ ((0 < length dgram.buf)
        × (length dgram.buf < udp_maxlen)
        × ((chk : ℕ) × (udp_checksum little_endian hdr
                (take (hdr.udp_len - 8) (9 ∷ []))
                hdr.udp_len
                dgram.srcaddr.inet4_addr
                dgram.dstaddr.inet4_addr
              ≡ some chk)
            × (((chk ≢ 0) × (out ≡ some (0, negsuc 0)))
                ⊎ ((chk ≡ 0)
                    × (out
                        ≡ some (
                            udp_ok 0 (record {
                              dst = dgram.dstaddr.inet4_addr;
                              header = udp_hton little_endian hdr;
                              behind = dgram.buf;
                            })))))))
nstack_udp_send_cases_example = nstack_udp_send_cases little_endian udp_ok server dgram (9 ∷ []) 0

-- The bytes of a UDP header, which `datagram` stands for.
abbrev header_bytes : List ℕ
header_bytes = 4 ∷ 0 ∷ 0 ∷ 80 ∷ 0 ∷ 10 ∷ 0 ∷ 0 ∷ []

udp_payload_received_example :
    (d : Delivery) × (q' q'' : Ring Dgram) × ((udp_input little_endian socks
        (nstack_udp_bind little_endian socks socks.empty server 7).0
        ip_in
        datagram
        (length (header_bytes ++ two_bytes))).2
      ≡ some d)
    × (d.socket ≡ 7)
    × (nstack_sock_dgram_input dgram_ring server d.source
          (delivered_bytes d (header_bytes ++ two_bytes))
        ≡ back (q', done 0))
    × (nstack_recvfrom q' 100 false
        ≡ back (
          q'',
          two_bytes,
          record { inet4_addr = ip_in.ip_src; port = little_endian.ntohs datagram.udp_sport },
          length two_bytes,
        ))
    × (contents q'' ≡ [])
unfolding nstack_udp_bind
udp_payload_received_example =
    udp_payload_received little_endian socks (fun_map-IsMap same_addr) socks.empty server 7 ip_in
      datagram header_bytes two_bytes dgram_ring 100 refl (omega arith) (omega arith) refl refl refl
      dgram_ring-IsRing refl (omega arith)
