-- ===== src/Ip/Fragments.antt =====
-- A packet sent in fragments: `ip_off_round`, `next_fragment_size` and `ip_send_fragments` of src/ip.c.
-- The packet is its header, without options, and the bytes behind it.
mod Moves
pub mod Pieces
pub mod Laws
use nstack.Base.{
  ℕ, zero, suc, ◌+◌, ◌-◌, ◌*◌, ◌/◌, ◌^◌, List, [], ◌∷◌, ◌++◌, Bool, Option, none, some, ltb, leb,
  ◌==◌, u16, set_bit, length, take, drop, if◌then◌else◌,
}
use nstack.Base.Int.{ℤ, pos, neg_part, ◌+ℤ◌}
use nstack.Host.{Host}
use nstack.Ip.Header.{IpHdr, ip_hdr_hlen, ip_hton, ip_ntoh}
use nstack.Arp.{ether_proto_ipv4}
use nstack.Link.{Packet, ip_packet, Driver, ether_data_len}

-- `ip_off_round`: `(plen + 7) & ~7`.
unfoldable pub ip_off_round : ℕ → ℕ
ip_off_round plen = (plen + 7) / 8 * 8

-- `next_fragment_size`, where the header and 8 more bytes fit into `mtu`.
unfoldable pub next_fragment_size : ℕ → ℕ → ℕ → ℕ
unfolding ip_off_round
next_fragment_size bytes hlen mtu =
    let max = ip_off_round (mtu - hlen - 8) in if ltb bytes max then bytes else max

-- The fields that a round of the loop stores: the offset in units of 8 bytes, the flag MF, which is
-- bit 13, unless no bytes are left.
unfoldable pub fragment_hdr : IpHdr → ℕ → ℕ → ℕ → IpHdr
fragment_hdr hdr plen left offset = record hdr {
  ip_len = u16 (ip_hdr_hlen hdr + plen);
  ip_foff = u16 (if left == 0 then offset / 2 ^ 3 else set_bit (offset / 2 ^ 3) 13);
}

-- `memmove(data, data + offset, plen)`.
unfoldable pub move_front : List ℕ → ℕ → ℕ → List ℕ
move_front buf offset plen = take plen (drop offset buf) ++ drop plen buf

module _ (host : Host) {S : Type 0} (driver : Driver S) (ether_handle dst_mac : ℕ) where
  -- `ether_send` of the header, in network order, and the bytes behind it.
  unfoldable pub send_packet : S → IpHdr → List ℕ → S × ℤ
  send_packet s hdr buf =
      driver.ether_send s ether_handle dst_mac ether_proto_ipv4
        (ip_packet (ip_hton host hdr []) (take (hdr.ip_len - ip_hdr_hlen hdr) buf)) hdr.ip_len

  -- The loop of `ip_send_fragments`, with fuel.
  unfoldable pub fragment_loop : ℕ → IpHdr → S → List ℕ → ℕ → ℕ → ℤ → Option (S × ℤ)
  fragment_loop zero hdr s buf bytes offset retval = none
  fragment_loop (suc fuel) hdr s buf bytes offset retval =
      let plen = next_fragment_size bytes (ip_hdr_hlen hdr) ether_data_len in
      let left = bytes - plen in
      let moved = move_front buf offset plen in
      let (s', eret) = send_packet s (fragment_hdr hdr plen left offset) moved in
      let rest = fragment_loop fuel hdr s' moved left (offset + plen) (retval +ℤ eret) in
      if ltb 0 (neg_part eret)
      then some (s', eret)
      else if left == 0
      then some (s', retval +ℤ eret)
      else rest

  -- `ip_send_fragments` of a packet in network order.
  unfoldable pub ip_send_fragments : ℕ → S → IpHdr → List ℕ → Option (S × ℤ)
  unfolding fragment_loop
  ip_send_fragments fuel s net buf =
      let (hdr, hlen) = ip_ntoh host net in fragment_loop fuel hdr s buf (length buf) 0 (pos 0)
