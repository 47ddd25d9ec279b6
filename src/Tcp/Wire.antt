-- ===== src/Tcp/Wire.antt =====
-- A TCP header on the wire: `tcp_hton` and `tcp_ntoh` of src/tcp.c without their loops over the
-- options, which stand in `Options`.
use nstack.Base.{ℕ, ◌-◌, ◌^◌, ◌<◌, ◌≡◌, List, [], ◌∷◌, ◌++◌, take}
use nstack.Host.{Host, halves}
use nstack.Checksum.{words_of, tcp_checksum}
use nstack.Socket.{SockAddr}
use nstack.Tcp.{TcpHdr}

-- What is handed to `ip_send`: the destination, the header in network order, the bytes behind it.
pub record TcpPacket : Type 0 where
  pub dst : ℕ
  pub header : TcpHdr
  pub behind : List ℕ

module _ (host : Host) where
  open host use {htons, ntohs, htonl, ntohl, ntohs-htons, ntohl-htonl}

  -- The header in memory as 16-bit words.
  unfoldable pub tcp_hdr_words : TcpHdr → List ℕ
  tcp_hdr_words hdr =
      hdr.tcp_sport ∷ hdr.tcp_dport ∷ halves hdr.tcp_seqno
      ++ halves hdr.tcp_ack_num
      ++ hdr.tcp_flags ∷ hdr.tcp_win_size ∷ hdr.tcp_checksum ∷ hdr.tcp_urg_ptr ∷ []

  -- `tcp_hton`, with the bytes behind the header in memory.
  unfoldable pub tcp_hton : SockAddr → SockAddr → TcpHdr → List ℕ → ℕ → TcpHdr
  unfolding tcp_hdr_words
  tcp_hton src dst hdr behind bsize =
      let net : TcpHdr = record {
        tcp_sport = htons hdr.tcp_sport;
        tcp_dport = htons hdr.tcp_dport;
        tcp_seqno = htonl hdr.tcp_seqno;
        tcp_ack_num = htonl hdr.tcp_ack_num;
        tcp_flags = htons hdr.tcp_flags;
        tcp_win_size = htons hdr.tcp_win_size;
        tcp_checksum = 0;
        tcp_urg_ptr = htons hdr.tcp_urg_ptr;
      } in
      let segment = tcp_hdr_words net ++ words_of host (take (bsize - 20) behind) in
      record net { tcp_checksum = tcp_checksum host src.inet4_addr dst.inet4_addr segment bsize }

  -- `tcp_ntoh`. The checksum is left as it is.
  unfoldable pub tcp_ntoh : TcpHdr → TcpHdr
  tcp_ntoh net = record {
    tcp_sport = ntohs net.tcp_sport;
    tcp_dport = ntohs net.tcp_dport;
    tcp_seqno = ntohl net.tcp_seqno;
    tcp_ack_num = ntohl net.tcp_ack_num;
    tcp_flags = ntohs net.tcp_flags;
    tcp_win_size = ntohs net.tcp_win_size;
    tcp_checksum = net.tcp_checksum;
    tcp_urg_ptr = ntohs net.tcp_urg_ptr;
  }

  -- Every field fits its C type.
  pub record IsTcpHdr (hdr : TcpHdr) : Type 0 where
    pub sport : hdr.tcp_sport < 2 ^ 16
    pub dport : hdr.tcp_dport < 2 ^ 16
    pub seqno : hdr.tcp_seqno < 2 ^ 32
    pub ack_num : hdr.tcp_ack_num < 2 ^ 32
    pub flags : hdr.tcp_flags < 2 ^ 16
    pub win_size : hdr.tcp_win_size < 2 ^ 16
    pub urg_ptr : hdr.tcp_urg_ptr < 2 ^ 16

  -- A header that is converted to network order and back is the same but for the checksum.
  pub tcp_ntoh-tcp_hton :
      (src dst : SockAddr) (hdr : TcpHdr) (behind : List ℕ) (bsize : ℕ)
      → IsTcpHdr hdr
      → let net = tcp_hton src dst hdr behind bsize in
        tcp_ntoh net ≡ record hdr { tcp_checksum = net.tcp_checksum }
  unfolding tcp_ntoh tcp_hton
  tcp_ntoh-tcp_hton src dst hdr behind bsize v = rw (
    ntohs-htons hdr.tcp_sport v.sport,
    ntohs-htons hdr.tcp_dport v.dport,
    ntohl-htonl hdr.tcp_seqno v.seqno,
    ntohl-htonl hdr.tcp_ack_num v.ack_num,
    ntohs-htons hdr.tcp_flags v.flags,
    ntohs-htons hdr.tcp_win_size v.win_size,
    ntohs-htons hdr.tcp_urg_ptr v.urg_ptr,
  )
