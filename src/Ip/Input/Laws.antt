-- ===== src/Ip/Input/Laws.antt =====
-- What `ip_input` does.
use nstack.Base.{ℕ, ◌-◌, ◌≡◌, ◌≢◌, ◌⊎◌, inl, inr, List, true, false, none, some, take, drop}
use nstack.Host.{Host}
use nstack.RbMap.{RbMap}
use nstack.Ip.Header.{IpHdr, ip_hdr_hlen, ip_fragment_is_frag}
use nstack.Ip.Route.{IpRoute, ip_route_find_by_iface}
use nstack.Ip.Send.{IpState}
use nstack.Arp.Cache.{ArpCache, cached_haddr, slot_at}
use nstack.Ip.Input.{
  data_size, IpProtoHandler, IpOutput, nothing, icmp_code_hostunreac, icmp_code_protounreac,
  find_handler, dest_unreachable, handler_output,
}

pub known_after :
    (index : RbMap ℕ ℕ) (c : ArpCache index) (addr haddr : ℕ) (old : ArpCache index)
    → ((index.find addr old.arp_cache_head ≡ none) × (cached_haddr index c addr ≡ some haddr))
      ⊎ ((i : ℕ) × (index.find addr old.arp_cache_head ≡ some i)
          × (cached_haddr index c addr ≡ some (slot_at old.arp_cache i).haddr))
    → cached_haddr index c addr ≢ none
known_after index c addr haddr old (inl h) = λ f. cc (h.1, f)
known_after index c addr haddr old (inr (i, h, m)) = λ f. cc (m, f)

module _ (host : Host) (trees : RbMap ℕ IpRoute) (index : RbMap ℕ ℕ) {S T : Type 0}
    (handlers : List (IpProtoHandler T))
    (ip_fragment_input : IpState trees index S
      → T
      → IpHdr
      → List ℕ
      → IpState trees index S × T) where
  -- What a packet that the stack accepts leads to.
  abbrev pub WasDelivered :
      IpState trees index S → T → IpHdr → List ℕ → ℕ → IpState trees index S × T × IpOutput → Type 0
  WasDelivered st t ip behind bsize result =
      let hlen = ip_hdr_hlen ip in
      let buf = drop (hlen - 20) behind in
      let size = data_size bsize hlen in
      ((ip_route_find_by_iface trees st.rib ip.ip_dst ≡ none)
        × (result ≡ (st, t, dest_unreachable host ip icmp_code_hostunreac buf size)))
      ⊎ ((route : IpRoute) × (ip_route_find_by_iface trees st.rib ip.ip_dst ≡ some route)
          × (((ip_fragment_is_frag ip ≡ true)
                × (let kept = ip_fragment_input st t ip buf in result ≡ (kept.0, kept.1, nothing)))
              ⊎ ((ip_fragment_is_frag ip ≡ false)
                  × (((find_handler ip.ip_proto handlers ≡ none)
                        × (result
                            ≡ (st, t, dest_unreachable host ip icmp_code_protounreac buf size)))
                      ⊎ ((h : IpProtoHandler T) × (find_handler ip.ip_proto handlers ≡ some h)
                          × (let r = h.fn t ip buf size in
                              result ≡ (
                                st,
                                r.0,
                                handler_output host ip buf size (take (hlen - 20) behind) r.1 r.2,
                              )))))))
