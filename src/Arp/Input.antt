-- ===== src/Arp/Input.antt =====
-- `arp_input` of src/arp.c, with the packets that wait for an address: `ip_defer_handler` with
-- `ip_send` as it is called from there.
pub mod Laws
pub mod Deferred
use nstack.Base.{ℕ, ◌+◌, List, Bool, true, false, Option, none, some, ◌==◌, if◌then◌else◌}
use nstack.Base.Int.{ℤ}
use nstack.Base.Errno.{eprototype, ehostunreach, errno_number, Ret, done, fail}
use nstack.Base.Outcome.{Outcome, returns, faults, ◌>>=◌}
use nstack.Host.{Host}
use nstack.RbMap.{RbMap}
use nstack.Ip.Route.{IpRoute, Rib, ip_route_find_by_iface}
use nstack.Ip.Defer.{DeferQueue, ip_data_max_bytes, ip_defer_max, ip_defer_handler}
use nstack.Ip.Send.{SendRet, value, error, IpState, ip_send}
use nstack.Arp.{ether_proto_ipv4, ArpIp, arp_oper_request, arp_ntoh}
use nstack.Arp.Cache.{ArpCache, arp_cache_dyn, arp_cache_insert}
use nstack.Link.{Driver}

-- `ARP_HTYPE_ETHER` and `ARP_OPER_REPLY`.
abbrev pub arp_htype_ether : ℕ
arp_htype_ether = 1

abbrev pub arp_oper_reply : ℕ
arp_oper_reply = 2

-- Whether a result of `ip_send` is the -1 with EHOSTUNREACH.
abbrev pub is_unreachable : SendRet → Bool
is_unreachable (value n) = false
is_unreachable (error e) = e == errno_number ehostunreach

module _ (host : Host) (trees : RbMap ℕ IpRoute) (index : RbMap ℕ ℕ) {S : Type 0}
    (driver : Driver S) where
  -- `ip_send` as `ip_defer_handler` calls it. A packet that waits has at most 65515 bytes, so the fuel
  -- is enough.
  unfoldable pub resend : IpState trees index S → ℕ → ℕ → List ℕ → IpState trees index S × Bool
  resend st dst proto buf =
      elim (ip_send host trees index driver (ip_data_max_bytes + 1) st dst proto buf) [
        | none ↦ (st, false)
        | some (st', ret) ↦ (st', is_unreachable ret)
      ]

  -- `ip_defer_handler` on the whole state. Pushing is inhibited meanwhile; the queue is put back at the
  -- end.
  unfoldable pub handle_deferred : IpState trees index S → Option (IpState trees index S)
  handle_deferred st =
      let inhibited : IpState trees index S = record st {
        defer = record st.defer { defer_inhibit = true };
      } in
      elim (ip_defer_handler resend (ip_defer_max + 1) st.defer inhibited) [
        | none ↦ none
        | some (q, st') ↦ some (record st' { defer = q })
      ]

  -- The `switch` of `arp_input`: the message as it is left in the buffer, and the result.
  unfoldable pub arp_answer : Rib trees → ArpIp → ℕ → ArpIp × Ret
  arp_answer rib net bsize =
      let arp = arp_ntoh host net in
      let answered : ArpIp × Ret = elim (ip_route_find_by_iface trees rib arp.arp_tpa) [
        | none ↦ (net, done 0)
        | some route ↦ (
          record net {
            arp_oper = host.htons arp_oper_reply;
            arp_sha = driver.ether_handle2addr route.r_iface_handle;
            arp_tha = arp.arp_sha;
            arp_tpa = net.arp_spa;
            arp_spa = host.htonl route.r_iface;
          },
          done bsize,
        )
      ] in
      if arp.arp_oper == arp_oper_request then answered else (net, done 0)

  -- `arp_input`. `none` stands for a handler of deferred packets that does not end.
  unfoldable pub arp_input :
      IpState trees index S → ArpIp → ℕ → Outcome (Option (IpState trees index S × ArpIp × Ret))
  arp_input st net bsize =
      let arp = arp_ntoh host net in
      let accepted : Outcome (Option (IpState trees index S × ArpIp × Ret)) =
        arp_cache_insert index st.arp arp.arp_spa arp.arp_sha arp_cache_dyn >>= (λ r.
          returns (elim (handle_deferred (record st { arp = r.0 })) [
            | none ↦ none
            | some st' ↦ some (let (msg, ret) = arp_answer st'.rib net bsize in (st', msg, ret))
          ])) in
      if arp.arp_htype == arp_htype_ether
      then (if arp.arp_ptype == ether_proto_ipv4
          then accepted
          else returns (some (st, net, fail eprototype)))
      else returns (some (st, net, fail eprototype))
