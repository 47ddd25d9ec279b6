-- ===== src/Ip/Send/Laws.antt =====
-- What `ip_send` does.
use nstack.Base.{
  ℕ, ◌+◌, ◌<◌, ◌≤◌, ◌≡◌, ◌⊎◌, ap, List, [], Option, none, some, ltb, ◌==◌, length, u32,
  if◌then◌else◌,
}
use nstack.Base.Int.{ℤ, pos, neg_part}
use nstack.Base.Errno.{ehostunreach, errno_number}
use nstack.Host.{Host}
use nstack.RbMap.{RbMap}
use nstack.Ip.Header.{IpHdr, ip_hton, ip_ntoh, ip_hdr_hlen}
use nstack.Ip.Defer.{ip_defer_push}
use nstack.Ip.Route.{IpRoute, ip_route_find_by_network, ip_route_find_by_iface}
use nstack.Ip.Fragments.Pieces.{Piece, piece_size, IsTiling}
use nstack.Ip.Fragments.Laws.{send_all}
use nstack.Ip.Send.{
  SendRet, value, error, sizeof_ip_hdr, send_hdr, deferred_ret, IpState, send_unresolved,
  send_resolved, send_after, ip_send,
}
use nstack.Arp.{ether_proto_ipv4, arp_request}
use nstack.Arp.Cache.{cached_haddr}
use nstack.Arp.Resolve.{broadcast}
use nstack.Arp.Resolve.Laws.{get_haddr_known, get_haddr_asks}
use nstack.Link.{ip_packet, Driver, ether_data_len}

module _ (host : Host) (trees : RbMap ℕ IpRoute) (index : RbMap ℕ ℕ) {S : Type 0}
    (driver : Driver S) where
  -- The header of the packet in network order, and the result for the sum of the fragments' results.
  abbrev pub sent_hdr : IpState trees index S → IpRoute → ℕ → ℕ → List ℕ → IpHdr
  sent_hdr st route dst proto buf =
      ip_hton host (send_hdr st.ip_global_id route dst proto (length buf)) []

  abbrev pub fragments_ret : ℤ → SendRet
  fragments_ret sum = if ltb 0 (neg_part sum) then error (neg_part sum) else value sum

  abbrev pub sent_state : IpState trees index S → S → IpState trees index S
  sent_state st s = record st { ip_global_id = u32 (st.ip_global_id + 1); link = s }

  -- A packet to a known hardware address: whole, or in fragments.
  abbrev pub WasSent :
      IpState trees index S
      → IpRoute
      → ℕ
      → ℕ
      → ℕ
      → List ℕ
      → Option (IpState trees index S × SendRet)
      → Type 0
  WasSent st route mac dst proto buf result =
      ((length buf ≤ ether_data_len)
        × (let r =
              driver.ether_send st.link route.r_iface_handle mac ether_proto_ipv4
                (ip_packet (sent_hdr st route dst proto buf) buf) (sizeof_ip_hdr + length buf) in
            result ≡ some (sent_state st r.0, value r.1)))
      ⊎ ((ether_data_len < length buf)
          × ((pieces : List Piece) × IsTiling
                (piece_size (ip_hdr_hlen (sent_hdr st route dst proto buf))) 0 buf pieces
              × (let r =
                    send_all host driver route.r_iface_handle mac
                      (ip_ntoh host (sent_hdr st route dst proto buf)).0 st.link pieces (pos 0) in
                  result ≡ some (sent_state st r.0, fragments_ret r.1))))

  module _ (fuel : ℕ) (st : IpState trees index S) (dst proto : ℕ) (buf : List ℕ) where
    module _ (route : IpRoute)
        (found : ip_route_find_by_network trees st.rib dst ≡ some route) where
      pub ip_send_known :
          (mac : ℕ)
          → cached_haddr index st.arp dst ≡ some mac
          → ip_send host trees index driver fuel st dst proto buf
            ≡ send_resolved host trees index driver fuel st route mac dst proto buf
      unfolding ip_send send_after
      ip_send_known mac known =
          rw (found, ip_send)
            (ap (send_after host trees index driver fuel st route dst proto buf) (
              get_haddr_known host trees index driver st.arp st.rib route.r_iface dst st.link mac
                known))

      pub ip_send_asks :
          (out : IpRoute)
          → cached_haddr index st.arp dst ≡ none
          → ip_route_find_by_iface trees st.rib route.r_iface ≡ some out
          → ip_send host trees index driver fuel st dst proto buf
            ≡ some (
                let asked =
                  arp_request host
                    (broadcast driver out.r_iface_handle)
                    (driver.ether_handle2addr out.r_iface_handle)
                    out.r_iface
                    dst
                    st.link in
                let pushed = ip_defer_push st.defer dst proto buf in
                let errno =
                  if neg_part asked.1 == 0 then errno_number ehostunreach else neg_part asked.1 in
                if errno == errno_number ehostunreach
                then (record st { defer = pushed.0; link = asked.0 }, deferred_ret pushed.1)
                else (record st { link = asked.0 }, value (pos 0)))
      unfolding ip_send send_after send_unresolved
      ip_send_asks out unknown there =
          rw (found, ip_send)
            (ap (send_after host trees index driver fuel st route dst proto buf) (
              get_haddr_asks host trees index driver st.arp st.rib route.r_iface dst st.link out
                unknown there))
