-- ===== src/Arp/Resolve.antt =====
-- `arp_cache_get_haddr` of src/arp.c: the hardware address of a receiver, or a request for it.
pub mod Laws
use nstack.Base.{ℕ, Bool, Option, none, some, ◌==◌, if◌then◌else◌}
use nstack.Base.Int.{ℤ, neg_part}
use nstack.Base.Errno.{enoent, ehostunreach, errno_number}
use nstack.Host.{Host}
use nstack.RbMap.{RbMap}
use nstack.Ip.Route.{IpRoute, Rib, ip_route_find_by_iface}
use nstack.Arp.{ArpIp, arp_request}
use nstack.Arp.Cache.{ArpCache, cached_haddr}
use nstack.Link.{Packet, arp_packet, Driver, mac_broadcast_addr, ether_proto_arp}

-- The 0 with the address in `haddr`, or the -1 with a number in `errno`.
pub data Haddr : Type 0 where
  resolved : ℕ → Haddr
  unresolved : ℕ → Haddr

-- `sizeof(struct arp_ip)`.
abbrev pub sizeof_arp_ip : ℕ
sizeof_arp_ip = 28

-- `ether_send` of an ARP message to every host.
abbrev pub broadcast : {S : Type 0} → Driver S → ℕ → S → ArpIp → S × ℤ
broadcast driver handle s msg =
    driver.ether_send s handle mac_broadcast_addr ether_proto_arp (arp_packet msg) sizeof_arp_ip

module _ (host : Host) (trees : RbMap ℕ IpRoute) (index : RbMap ℕ ℕ) {S : Type 0}
    (driver : Driver S) where
  -- What follows in `arp_cache_get_haddr` when the cache has no address. A failing `arp_request` leaves
  -- in `errno` what `ether_send` has put there, the number that it returns negated.
  unfoldable pub request_haddr : Rib trees → ℕ → ℕ → S → S × Haddr
  request_haddr rib iface addr s = elim (ip_route_find_by_iface trees rib iface) [
    | none ↦ (s, unresolved (errno_number enoent))
    | some route ↦
        let handle = route.r_iface_handle in
        let (s', ret) =
          arp_request host (broadcast driver handle) (driver.ether_handle2addr handle) route.r_iface
            addr s in
        (s', unresolved (if neg_part ret == 0 then errno_number ehostunreach else neg_part ret))
  ]

  -- `arp_cache_get_haddr`.
  unfoldable pub arp_cache_get_haddr : ArpCache index → Rib trees → ℕ → ℕ → S → S × Haddr
  arp_cache_get_haddr cache rib iface addr s = elim (cached_haddr index cache addr) [
    | some haddr ↦ (s, resolved haddr)
    | none ↦ request_haddr rib iface addr s
  ]
