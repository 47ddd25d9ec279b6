-- ===== src/Udp.antt =====
-- UDP: src/udp.c and src/udp.h. Sockets are found in a search tree by their address. Results of
-- `ip_send` are given by the integers it returns.
pub mod Laws
pub mod Receive
use nstack.Base.{
  ℕ, zero, suc, ◌+◌, ◌-◌, ◌*◌, ◌/◌, ◌%◌, ◌^◌, List, [], ◌∷◌, ◌++◌, Bool, true, false, ◌&&◌, Option,
  none, some, u16, u32, ltb, ◌==◌, length, take, if◌then◌else◌,
}
use nstack.Base.Errno.{einval, ebadmsg, eaddrinuse, enotsock, Ret, done, fail}
use nstack.Base.Int.{ℤ, negsuc}
use nstack.Host.{Host, halves}
use nstack.RbMap.{RbMap}
use nstack.Socket.{SockAddr, Dgram, sock_port_max}
use nstack.Ip.Header.{IpHdr}
use nstack.Tcp.Fsm.{Delivery}

-- `struct udp_hdr`.
pub record UdpHdr : Type 0 where
  pub udp_sport : ℕ
  pub udp_dport : ℕ
  pub udp_len : ℕ
  pub udp_csum : ℕ

-- `UDP_MAXLEN`.
abbrev pub udp_maxlen : ℕ
udp_maxlen = 65507

-- What is handed to `ip_send`: the destination, the header in network order, the payload.
pub record UdpPacket : Type 0 where
  pub dst : ℕ
  pub header : UdpHdr
  pub behind : List ℕ

-- The loop that adds the carries, `while (sum >> 16)`, with fuel.
unfoldable pub fold_carries : ℕ → ℕ → Option ℕ
fold_carries zero sum = none
fold_carries (suc fuel) sum =
    let rest = fold_carries fuel (sum % 2 ^ 16 + sum / 2 ^ 16) in
    if sum / 2 ^ 16 == 0 then some sum else rest

-- One word added to the sum, with `if (sum & 0x80000000)`.
unfoldable pub udp_add : ℕ → ℕ → ℕ
udp_add sum word =
    let next = u32 (sum + word) in
    if ltb 0x7fffffff next then next % 2 ^ 16 + next / 2 ^ 16 else next

module _ (host : Host) where
  open host use {htons, ntohs, load16}

  -- `udp_hton` and `udp_ntoh`.
  unfoldable pub udp_hton : UdpHdr → UdpHdr
  udp_hton hdr = record hdr {
    udp_sport = htons hdr.udp_sport;
    udp_dport = htons hdr.udp_dport;
    udp_len = htons hdr.udp_len;
  }

  unfoldable pub udp_ntoh : UdpHdr → UdpHdr
  udp_ntoh net = record net {
    udp_sport = ntohs net.udp_sport;
    udp_dport = ntohs net.udp_dport;
    udp_len = ntohs net.udp_len;
  }

  -- The loop of `udp_checksum` over the bytes behind the header; the last odd byte is added as it is.
  unfoldable pub udp_sum : ℕ → List ℕ → ℕ
  unfolding udp_add
  udp_sum sum [] = sum
  udp_sum sum (b ∷ []) = u32 (sum + b)
  udp_sum sum (b ∷ c ∷ bytes) = udp_sum (udp_add sum (load16 b c)) bytes

  -- The sum before the carries are added: header, bytes and pseudo header.
  unfoldable pub udp_total : UdpHdr → List ℕ → ℕ → ℕ → ℕ → ℕ
  unfolding udp_sum
  udp_total hdr bytes len src_addr dest_addr =
      let h1 = udp_add 0 hdr.udp_sport in
      let h2 = udp_add h1 hdr.udp_dport in
      let h3 = udp_add h2 hdr.udp_len in
      let h4 = udp_add h3 hdr.udp_csum in
      let pseudo =
        src_addr % 2 ^ 16
        + src_addr / 2 ^ 16
        + dest_addr % 2 ^ 16
        + dest_addr / 2 ^ 16
        + htons 17
        + htons (u16 len) in
      u32 (udp_sum h4 bytes + pseudo)

  -- `udp_checksum`; the loop over the carries has fuel for three rounds.
  unfoldable pub udp_checksum : UdpHdr → List ℕ → ℕ → ℕ → ℕ → Option ℕ
  udp_checksum hdr bytes len src_addr dest_addr =
      elim (fold_carries 3 (udp_total hdr bytes len src_addr dest_addr)) [
        | none ↦ none
        | some sum ↦ some (0xffff - u16 sum)
      ]

  module _ (socks : RbMap SockAddr ℕ) where
    open socks use {Map as SockTree}

    -- `nstack_udp_bind` of the socket `sock` with the address `addr`.
    unfoldable pub nstack_udp_bind : SockTree → SockAddr → ℕ → SockTree × Ret
    nstack_udp_bind tree addr sock =
        if ltb sock_port_max addr.port then (tree, fail einval) else elim (socks.find addr tree) [
          | some other ↦ (tree, fail eaddrinuse)
          | none ↦ (socks.insert addr sock tree, done 0)
        ]

    -- `udp_input`: the header, the result and what was handed to a socket. `nstack_sock_dgram_input`
    -- returns 0, so its caller has nothing to reply with.
    unfoldable pub udp_input : SockTree → IpHdr → UdpHdr → ℕ → UdpHdr × Ret × Option Delivery
    unfolding udp_ntoh
    udp_input tree ip_hdr net bsize =
        let udp = udp_ntoh net in
        let addr : SockAddr = record { inet4_addr = ip_hdr.ip_dst; port = udp.udp_dport } in
        let source : SockAddr = record { inet4_addr = ip_hdr.ip_src; port = udp.udp_sport } in
        let out : UdpHdr × Ret × Option Delivery = elim (socks.find addr tree) [
          | none ↦ (udp, fail enotsock, none)
          | some sock ↦ (
            udp,
            done 0,
            some (record { socket = sock; source = source; offset = 8; size = bsize - 8 }),
          )
        ] in
        if ltb bsize 8 then (net, fail ebadmsg, none) else out

  module _ {S : Type 0} (ip_send : S → UdpPacket → S × ℤ) where
    -- The header that `nstack_udp_send` builds.
    unfoldable pub udp_send_hdr : SockAddr → Dgram → UdpHdr
    udp_send_hdr source dgram = record {
      udp_sport = u16 source.port;
      udp_dport = u16 dgram.dstaddr.port;
      udp_len = u16 (8 + length dgram.buf);
      udp_csum = 0;
    }

    -- `nstack_udp_send`. The checksum is computed before the payload is copied, over what the stack
    -- holds behind the header, `garbage`, and a checksum that is not 0 is an error. `none` would be a
    -- loop that does not end.
    unfoldable pub nstack_udp_send : SockAddr → Dgram → List ℕ → S → Option (S × ℤ)
    unfolding udp_send_hdr udp_checksum
    nstack_udp_send source dgram garbage s =
        let hdr = udp_send_hdr source dgram in
        let packet : UdpPacket = record {
          dst = dgram.dstaddr.inet4_addr;
          header = udp_hton hdr;
          behind = dgram.buf;
        } in
        let checksum =
          udp_checksum hdr (take (hdr.udp_len - 8) garbage) hdr.udp_len dgram.srcaddr.inet4_addr
            dgram.dstaddr.inet4_addr in
        let out : Option (S × ℤ) = elim checksum [
          | none ↦ none
          | some chk ↦ some (if chk == 0 then ip_send s packet else (s, negsuc 0))
        ] in
        if ltb 0 (length dgram.buf) && ltb (length dgram.buf) udp_maxlen
        then out
        else some (s, negsuc 21)
