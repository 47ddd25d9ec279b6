-- ===== src/Ip/Send.antt =====
-- `ip_send` of src/ip.c and the state that the IP service works on.
pub mod Laws
use nstack.Base.{
  ℕ, ◌+◌, List, [], Option, none, some, Bool, ltb, leb, ◌==◌, length, u16, u32, if◌then◌else◌,
}
use nstack.Base.Int.{ℤ, pos, neg_part}
use nstack.Base.Errno.{ealready, ehostunreach, errno_number, Ret, done, fail}
use nstack.Host.{Host}
use nstack.RbMap.{RbMap}
use nstack.Ip.Header.{
  IpHdr, ip_hton, ip_vhl_default, ip_tos_default, ip_toff_default, ip_ttl_default,
}
use nstack.Ip.Defer.{DeferQueue, ip_defer_push}
use nstack.Ip.Route.{IpRoute, Rib, ip_route_find_by_network}
use nstack.Ip.Fragments.{ip_send_fragments}
use nstack.Arp.Cache.{ArpCache}
use nstack.Arp.Resolve.{Haddr, resolved, unresolved, arp_cache_get_haddr}
use nstack.Arp.{ether_proto_ipv4}
use nstack.Link.{ip_packet, Driver, ether_data_len}

-- A result of `ip_send`: a number, or the -1 with a number in `errno`.
pub data SendRet : Type 0 where
  value : ℤ → SendRet
  error : ℕ → SendRet

-- `sizeof(struct ip_hdr)`.
abbrev pub sizeof_ip_hdr : ℕ
sizeof_ip_hdr = 20

-- The header that `ip_send` fills in from `ip_hdr_template`, in host order.
unfoldable pub send_hdr : ℕ → IpRoute → ℕ → ℕ → ℕ → IpHdr
send_hdr ip_global_id route dst proto bsize = record {
  ip_vhl = ip_vhl_default;
  ip_tos = ip_tos_default;
  ip_len = u16 (sizeof_ip_hdr + bsize);
  ip_id = u16 ip_global_id;
  ip_foff = ip_toff_default;
  ip_ttl = ip_ttl_default;
  ip_proto = proto;
  ip_csum = 0;
  ip_src = route.r_iface;
  ip_dst = dst;
}

-- What `ip_send` makes of the result of `ip_defer_push`.
abbrev pub deferred_ret : Ret → SendRet
deferred_ret (done n) = value (pos 0)
deferred_ret (fail ealready) = value (pos 0)
deferred_ret (fail e) = error (errno_number e)

module _ (trees : RbMap ℕ IpRoute) (index : RbMap ℕ ℕ) (S : Type 0) where
  -- The static variables of src/arp.c, src/ip_route.c, src/ip_defer.c and src/ip.c, and the
  -- driver's state.
  pub record IpState : Type 0 where
    pub arp : ArpCache index
    pub rib : Rib trees
    pub defer : DeferQueue
    pub ip_global_id : ℕ
    pub link : S

module _ (host : Host) (trees : RbMap ℕ IpRoute) (index : RbMap ℕ ℕ) {S : Type 0}
    (driver : Driver S) where
  -- The packet is queued until the address is known; for another error `ip_send` returns 0.
  unfoldable pub send_unresolved :
      IpState trees index S → ℕ → ℕ → List ℕ → ℕ → IpState trees index S × SendRet
  send_unresolved st dst proto buf errno =
      let (q, ret) = ip_defer_push st.defer dst proto buf in
      if errno == errno_number ehostunreach
      then (record st { defer = q }, deferred_ret ret)
      else (st, value (pos 0))

  -- A packet with its header as it goes to the link.
  unfoldable pub send_resolved :
      ℕ
      → IpState trees index S
      → IpRoute
      → ℕ
      → ℕ
      → ℕ
      → List ℕ
      → Option (IpState trees index S × SendRet)
  unfolding send_hdr
  send_resolved fuel st route haddr dst proto buf =
      let net = ip_hton host (send_hdr st.ip_global_id route dst proto (length buf)) [] in
      let counted = record st { ip_global_id = u32 (st.ip_global_id + 1) } in
      let (s1, ret) =
        driver.ether_send st.link route.r_iface_handle haddr ether_proto_ipv4 (ip_packet net buf)
          (sizeof_ip_hdr + length buf) in
      let parts : Option (IpState trees index S × SendRet) =
        elim (ip_send_fragments host driver route.r_iface_handle haddr fuel st.link net buf) [
          | none ↦ none
          | some (s2, sum) ↦ some (
            record counted { link = s2 },
            if ltb 0 (neg_part sum) then error (neg_part sum) else value sum,
          )
        ] in
      if leb (length buf) ether_data_len
      then some (record counted { link = s1 }, value ret)
      else parts

  -- What `ip_send` does with the result of `arp_cache_get_haddr`.
  unfoldable pub send_after :
      ℕ
      → IpState trees index S
      → IpRoute
      → ℕ
      → ℕ
      → List ℕ
      → S × Haddr
      → Option (IpState trees index S × SendRet)
  send_after fuel st route dst proto buf (s, resolved mac) =
      send_resolved fuel (record st { link = s }) route mac dst proto buf
  send_after fuel st route dst proto buf (s, unresolved errno) =
      some (send_unresolved (record st { link = s }) dst proto buf errno)

  -- `ip_send`, with the fuel for the fragments.
  unfoldable pub ip_send :
      ℕ → IpState trees index S → ℕ → ℕ → List ℕ → Option (IpState trees index S × SendRet)
  ip_send fuel st dst proto buf = elim (ip_route_find_by_network trees st.rib dst) [
    | none ↦ some (st, error (errno_number ehostunreach))
    | some route ↦
        send_after fuel st route dst proto buf
          (arp_cache_get_haddr host trees index driver st.arp st.rib route.r_iface dst st.link)
  ]
