-- ===== src/Ip/Input/Receive.antt =====
-- What `ip_input` makes of a packet that `ip_send` has built.
use nstack.Base.{
  ◌%◌, ℕ, ◌+◌, ◌-◌, ◌^◌, ◌<◌, ◌≤◌, ◌≡◌, ◌≢◌, refl, ap, ◌∙◌, arith, List, [], true, false, none,
  some, ◌==◌, test_bit, length,
}
use nstack.Base.Errno.{done}
use nstack.Base.Outcome.{returns}
use nstack.Host.{Host}
use nstack.RbMap.{RbMap, IsMap}
use nstack.Ip.Header.{IpHdr, ip_hdr_hlen, ip_ntoh, ip_hton, ip_fragment_is_frag}
use nstack.Ip.Header.Laws.{IsHdr, ip_ntoh-ip_hton}
use nstack.Ip.Route.{IpRoute, ip_route_find_by_iface}
use nstack.Ip.Send.{IpState, send_hdr, sizeof_ip_hdr}
use nstack.Arp.Cache.{ArpCache, arp_cache_dyn, arp_cache_insert, cached_haddr}
use nstack.Arp.Cache.Tidy.{IsIndexed, CanTake}
use nstack.Arp.Cache.Laws.{arp_cache_insert_keeps}
use nstack.Ether.{EtherHdr}
use nstack.Ip.Input.{
  IpProtoHandler, find_handler, accepts_hdr, handler_output, ip_deliver, ip_receive, ip_input,
}
use nstack.Ip.Input.Laws.{known_after}

pub send_hdr-IsHdr :
    (ip_global_id : ℕ) (route : IpRoute) (dst proto bsize : ℕ)
    → route.r_iface < 2 ^ 32
    → dst < 2 ^ 32
    → proto < 256
    → IsHdr (send_hdr ip_global_id route dst proto bsize)
unfolding send_hdr
send_hdr-IsHdr ip_global_id route dst proto bsize i d p = record {
  vhl = omega arith;
  tos = omega arith;
  len = omega arith;
  id = omega arith;
  foff = omega arith;
  ttl = omega arith;
  proto = p;
  csum = omega arith;
  src = i;
  dst = d;
}

-- A header that `ip_send` builds is accepted, and is not that of a fragment.
send_hdr_accepted :
    (ip_global_id : ℕ) (route : IpRoute) (dst proto bsize csum : ℕ)
    → bsize ≤ 65515
    → accepts_hdr
        (record (send_hdr ip_global_id route dst proto bsize) { ip_csum = csum })
        (sizeof_ip_hdr + bsize)
      ≡ true
unfolding send_hdr accepts_hdr ip_hdr_hlen test_bit
send_hdr_accepted ip_global_id route dst proto bsize csum h = ground arith

send_hdr_whole :
    (ip_global_id : ℕ) (route : IpRoute) (dst proto bsize csum : ℕ)
    → ip_fragment_is_frag (record (send_hdr ip_global_id route dst proto bsize) { ip_csum = csum })
      ≡ false
unfolding send_hdr ip_fragment_is_frag test_bit
send_hdr_whole ip_global_id route dst proto bsize csum = refl

-- The header that `ip_send` has built, as the receiver reads it.
abbrev pub received_hdr : Host → ℕ → IpRoute → ℕ → ℕ → List ℕ → IpHdr
received_hdr host ip_global_id route dst proto buf =
    let hdr = send_hdr ip_global_id route dst proto (length buf) in
    record hdr { ip_csum = (ip_hton host hdr []).ip_csum }

module _ (host : Host) (trees : RbMap ℕ IpRoute) (index : RbMap ℕ ℕ) {S T : Type 0}
    (handlers : List (IpProtoHandler T))
    (ip_fragment_input : IpState trees index S
      → T
      → IpHdr
      → List ℕ
      → IpState trees index S × T) where
  deliver_handled :
      (st : IpState trees index S) (t : T) (ip : IpHdr) (buf : List ℕ) (size : ℕ) (there : IpRoute)
      (h : IpProtoHandler T)
      → ip_route_find_by_iface trees st.rib ip.ip_dst ≡ some there
      → ip_fragment_is_frag ip ≡ false
      → find_handler ip.ip_proto handlers ≡ some h
      → ip_hdr_hlen ip ≡ 20
      → size ≤ 65515
      → (let r = h.fn t ip buf size in
          ip_deliver host trees index handlers ip_fragment_input st t ip buf (sizeof_ip_hdr + size)
          ≡ (st, r.0, handler_output host ip buf size [] r.1 r.2))
  unfolding ip_deliver
  deliver_handled st t ip buf size there h found_route whole found hlen small =
      let n : (2 ^ 64 + (sizeof_ip_hdr + size) - 20) % 2 ^ 64 ≡ size = omega arith in
      rw (found_route, ip_deliver, whole, found, hlen, n) refl

  input_handled :
      (st : IpState trees index S) (t : T) (e_hdr : EtherHdr) (net ip : IpHdr) (buf : List ℕ)
      (size : ℕ) (c : ArpCache index) (there : IpRoute) (h : IpProtoHandler T)
      → (ip_ntoh host net).0 ≡ ip
      → arp_cache_insert index st.arp ip.ip_src e_hdr.h_src arp_cache_dyn ≡ returns (c, done 0)
      → accepts_hdr ip (sizeof_ip_hdr + size) ≡ true
      → ip_route_find_by_iface trees st.rib ip.ip_dst ≡ some there
      → ip_fragment_is_frag ip ≡ false
      → find_handler ip.ip_proto handlers ≡ some h
      → ip_hdr_hlen ip ≡ 20
      → size ≤ 65515
      → (let r = h.fn t ip buf size in
          ip_input host trees index handlers ip_fragment_input st t
            (some e_hdr)
            net
            buf
            (sizeof_ip_hdr + size)
          ≡ returns (record st { arp = c }, r.0, handler_output host ip buf size [] r.1 r.2))
  unfolding ip_input ip_receive
  input_handled st t e_hdr net ip buf size c there h back learned good found_route whole found hlen
        small =
      ap
        (λ p.
          ip_receive host trees index handlers ip_fragment_input st t e_hdr p buf
            (sizeof_ip_hdr + size))
        back
      ∙ rw (good, learned)
          (ap returns (
            deliver_handled (record st { arp = c }) t ip buf size there h found_route whole found
              hlen small))

  module _ (laws : IsMap ◌==◌ index) where
    -- The header as it is received.
    pub ip_input_received :
        (st : IpState trees index S) (t : T) (e_hdr : EtherHdr) (ip_global_id : ℕ) (route : IpRoute)
        (dst proto : ℕ) (buf : List ℕ) (there : IpRoute) (h : IpProtoHandler T)
        → IsIndexed index laws st.arp
        → CanTake index laws st.arp
        → route.r_iface ≢ 0
        → route.r_iface < 2 ^ 32
        → dst < 2 ^ 32
        → proto < 256
        → length buf ≤ 65515
        → ip_route_find_by_iface trees st.rib dst ≡ some there
        → find_handler proto handlers ≡ some h
        → (c : ArpCache index) × IsIndexed index laws c
          × (cached_haddr index c route.r_iface ≢ none)
          × (let ip = received_hdr host ip_global_id route dst proto buf in
              let r = h.fn t ip buf (length buf) in
              ip_input host trees index handlers ip_fragment_input st t
                (some e_hdr)
                (ip_hton host (send_hdr ip_global_id route dst proto (length buf)) [])
                buf
                (sizeof_ip_hdr + length buf)
              ≡ returns
                  (record st { arp = c }, r.0, handler_output host ip buf (length buf) [] r.1 r.2))
    unfolding send_hdr ip_hdr_hlen
    ip_input_received st t e_hdr ip_global_id route dst proto buf there h indexed free_slot nonzero
          i d p small found_route found =
        let hdr : IpHdr = send_hdr ip_global_id route dst proto (length buf) in
        let net : IpHdr = ip_hton host hdr [] in
        let ip : IpHdr = received_hdr host ip_global_id route dst proto buf in
        let back : (ip_ntoh host net).0 ≡ ip =
          ap (λ r. r.0)
            (ip_ntoh-ip_hton host hdr []
              (send_hdr-IsHdr ip_global_id route dst proto (length buf) i d p)) in
        let (c, e, keeps, learned) =
          arp_cache_insert_keeps index laws st.arp route.r_iface e_hdr.h_src indexed free_slot
            nonzero in
        (
          c,
          keeps,
          known_after index c route.r_iface e_hdr.h_src st.arp learned,
          input_handled st t e_hdr net ip buf (length buf) c there h back e
              (send_hdr_accepted ip_global_id route dst proto (length buf) net.ip_csum small)
              found_route (send_hdr_whole ip_global_id route dst proto (length buf) net.ip_csum)
              found refl small,
        )

    -- A packet of up to 65515 bytes that `ip_send` has built, on a receiver with an ARP cache whose
    -- tree, a map, refers to its slots and whose next slot can be taken (IsIndexed and CanTake), an
    -- interface with the packet's destination and a handler for its protocol: the handler gets the
    -- data as it was sent, under the sender's address, the destination and the protocol, and the
    -- sender is in the cache, whose tree still refers to its slots.
    pub ip_input_receives :
        (st : IpState trees index S) (t : T) (e_hdr : EtherHdr) (ip_global_id : ℕ) (route : IpRoute)
        (dst proto : ℕ) (buf : List ℕ) (there : IpRoute) (h : IpProtoHandler T)
        → IsIndexed index laws st.arp
        → CanTake index laws st.arp
        → route.r_iface ≢ 0
        → route.r_iface < 2 ^ 32
        → dst < 2 ^ 32
        → proto < 256
        → length buf ≤ 65515
        → ip_route_find_by_iface trees st.rib dst ≡ some there
        → find_handler proto handlers ≡ some h
        → (c : ArpCache index) × (ip : IpHdr) × IsIndexed index laws c
          × (cached_haddr index c route.r_iface ≢ none)
          × (ip.ip_src ≡ route.r_iface)
          × (ip.ip_dst ≡ dst)
          × (ip.ip_proto ≡ proto)
          × (let r = h.fn t ip buf (length buf) in
              ip_input host trees index handlers ip_fragment_input st t
                (some e_hdr)
                (ip_hton host (send_hdr ip_global_id route dst proto (length buf)) [])
                buf
                (sizeof_ip_hdr + length buf)
              ≡ returns
                  (record st { arp = c }, r.0, handler_output host ip buf (length buf) [] r.1 r.2))
    unfolding send_hdr
    ip_input_receives st t e_hdr ip_global_id route dst proto buf there h indexed free_slot nonzero
          i d p small found_route found =
        let (c, keeps, known, handled) =
          ip_input_received st t e_hdr ip_global_id route dst proto buf there h indexed free_slot
            nonzero i d p small found_route found in
        (
          c,
          received_hdr host ip_global_id route dst proto buf,
          keeps,
          known,
          refl,
          refl,
          refl,
          handled,
        )
