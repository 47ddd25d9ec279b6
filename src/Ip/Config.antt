-- ===== src/Ip/Config.antt =====
-- `ip_config` of src/ip.c: an interface gets its address.
use nstack.Base.{ℕ, zero, suc}
use nstack.Base.Outcome.{Outcome, returns, ◌>>=◌}
use nstack.Host.{Host}
use nstack.RbMap.{RbMap}
use nstack.Ip.Route.{IpRoute, and_bits, ip_route_update}
use nstack.Ip.Send.{IpState}
use nstack.Arp.{arp_gratuitous}
use nstack.Arp.Cache.{arp_cache_static, arp_cache_insert}
use nstack.Arp.Resolve.{broadcast}
use nstack.Link.{Driver}

-- The route of the network of the interface.
unfoldable pub config_route : ℕ → ℕ → ℕ → IpRoute
unfolding and_bits
config_route ether_handle ip_addr netmask = record {
  r_network = and_bits 32 ip_addr netmask;
  r_netmask = netmask;
  r_gw = 0;
  r_iface = ip_addr;
  r_iface_handle = ether_handle;
}

module _ (host : Host) (trees : RbMap ℕ IpRoute) (index : RbMap ℕ ℕ) {S : Type 0}
    (driver : Driver S) where
  -- The loop that announces the address `n` times.
  unfoldable pub announce : ℕ → ℕ → ℕ → S → S
  announce zero ether_handle ip_addr s = s
  announce (suc n) ether_handle ip_addr s =
      let sent =
        arp_gratuitous host (broadcast driver ether_handle) (driver.ether_handle2addr ether_handle)
          ip_addr s in
      announce n ether_handle ip_addr sent.0

  -- `ip_config`, whose result is 0 wherever it returns.
  unfoldable pub ip_config : IpState trees index S → ℕ → ℕ → ℕ → Outcome (IpState trees index S)
  unfolding config_route announce
  ip_config st ether_handle ip_addr netmask =
      let mac = driver.ether_handle2addr ether_handle in
      arp_cache_insert index st.arp ip_addr mac arp_cache_static >>= (λ inserted.
        ip_route_update trees st.rib (config_route ether_handle ip_addr netmask) >>= (λ rib'.
          returns (record st {
            arp = inserted.0;
            rib = rib';
            link = announce 3 ether_handle ip_addr st.link;
          })))
