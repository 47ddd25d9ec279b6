-- ===== src/Arp/Resolve/Laws.antt =====
-- What `arp_cache_get_haddr` comes to.
use nstack.Base.{ℕ, ◌≡◌, refl, none, some, ◌==◌, if◌then◌else◌}
use nstack.Base.Int.{neg_part}
use nstack.Base.Errno.{enoent, ehostunreach, errno_number}
use nstack.Host.{Host}
use nstack.RbMap.{RbMap}
use nstack.Ip.Route.{IpRoute, Rib, ip_route_find_by_iface}
use nstack.Arp.{arp_request}
use nstack.Arp.Cache.{ArpCache, cached_haddr}
use nstack.Arp.Resolve.{resolved, unresolved, broadcast, request_haddr, arp_cache_get_haddr}
use nstack.Link.{Driver}

module _ (host : Host) (trees : RbMap ℕ IpRoute) (index : RbMap ℕ ℕ) {S : Type 0}
    (driver : Driver S) (cache : ArpCache index) (rib : Rib trees) (iface addr : ℕ) (s : S) where
  pub get_haddr_known :
      (mac : ℕ)
      → cached_haddr index cache addr ≡ some mac
      → arp_cache_get_haddr host trees index driver cache rib iface addr s ≡ (s, resolved mac)
  unfolding arp_cache_get_haddr
  get_haddr_known mac known = rw (known, arp_cache_get_haddr) refl

  pub get_haddr_unrouted :
      cached_haddr index cache addr ≡ none
      → ip_route_find_by_iface trees rib iface ≡ none
      → arp_cache_get_haddr host trees index driver cache rib iface addr s
        ≡ (s, unresolved (errno_number enoent))
  unfolding arp_cache_get_haddr request_haddr
  get_haddr_unrouted unknown gone = rw (unknown, arp_cache_get_haddr, gone, request_haddr) refl

  pub get_haddr_asks :
      (out : IpRoute)
      → cached_haddr index cache addr ≡ none
      → ip_route_find_by_iface trees rib iface ≡ some out
      → arp_cache_get_haddr host trees index driver cache rib iface addr s ≡ (
          let asked =
            arp_request host
              (broadcast driver out.r_iface_handle)
              (driver.ether_handle2addr out.r_iface_handle)
              out.r_iface
              addr
              s in
          (
            asked.0,
            unresolved
                (if neg_part asked.1 == 0 then errno_number ehostunreach else neg_part asked.1),
          ))
  unfolding arp_cache_get_haddr request_haddr
  get_haddr_asks out unknown there = rw (unknown, arp_cache_get_haddr, there, request_haddr) refl
