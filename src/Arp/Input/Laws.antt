-- ===== src/Arp/Input/Laws.antt =====
-- What `arp_input` does.
use nstack.Base.{
  ℕ, suc, ◌+◌, ◌≤◌, ◌≡◌, ◌≢◌, refl, ap, arith, List, true, false, none, some, ltb, ◌==◌,
}
use nstack.Base.Int.{ℤ, neg_part}
use nstack.Base.Errno.{ealready, fail}
use nstack.Host.{Host}
use nstack.RbMap.{RbMap}
use nstack.Ip.Route.{IpRoute, ip_route_find_by_network, ip_route_find_by_iface}
use nstack.Ip.Defer.{
  IpDefer, DeferQueue, ip_data_max_bytes, ip_defer_push, next_slot, set_tries, defer_loop,
}
use nstack.Ip.Send.{IpState}
use nstack.Ip.Send.Laws.{ip_send_asks}
use nstack.Arp.{ArpIp, arp_ntoh, arp_request}
use nstack.Arp.Cache.{cached_haddr}
use nstack.Arp.Resolve.{broadcast}
use nstack.Ip.Defer.Laws.{ip_defer_drop_waiting}
use nstack.Link.{Driver}
use nstack.Arp.Input.{arp_oper_reply, resend}

module _ (host : Host) (trees : RbMap ℕ IpRoute) (index : RbMap ℕ ℕ) {S : Type 0}
    (driver : Driver S) where
  -- What `arp_request` on the route's interface leaves.
  abbrev pub asked : IpRoute → ℕ → S → S × ℤ
  asked out dst s =
      arp_request host (broadcast driver out.r_iface_handle)
        (driver.ether_handle2addr out.r_iface_handle) out.r_iface dst s

  push_inhibited :
      (q : DeferQueue) (dst proto : ℕ) (buf : List ℕ)
      → q.defer_inhibit ≡ true
      → ip_defer_push q dst proto buf ≡ (q, fail ealready)
  unfolding ip_defer_push
  push_inhibited q dst proto buf h = rw h refl

  resend_asks :
      (st : IpState trees index S) (dst proto : ℕ) (buf : List ℕ) (route out : IpRoute)
      → st.defer.defer_inhibit ≡ true
      → ip_route_find_by_network trees st.rib dst ≡ some route
      → cached_haddr index st.arp dst ≡ none
      → ip_route_find_by_iface trees st.rib route.r_iface ≡ some out
      → neg_part (asked out dst st.link).1 ≡ 0
      → resend host trees index driver st dst proto buf
        ≡ (record st { link = (asked out dst st.link).0 }, false)
  unfolding resend
  resend_asks st dst proto buf route out busy found unknown there sent =
      let e =
        ip_send_asks host trees index driver (ip_data_max_bytes + 1) st dst proto buf route found
          out unknown there in
      rw (e, resend, sent, push_inhibited st.defer dst proto buf busy) refl

  -- A packet at the front of the queue, tried at most three times before, whose receiver has a route
  -- but still no known hardware address, while the packets are handled and pushing is inhibited: where
  -- the route's interface has a route and the ARP request for the receiver is sent, this request goes
  -- out, the packet is dropped as if it had been sent, and the handler goes on with the next one.
  pub deferred_packet_dropped :
      (fuel : ℕ) (q : DeferQueue) (st : IpState trees index S) (route out : IpRoute)
      → q.q_rd ≢ q.q_wr
      → (q.ip_defer_queue q.q_rd).tries ≤ 3
      → st.defer.defer_inhibit ≡ true
      → ip_route_find_by_network trees st.rib (q.ip_defer_queue q.q_rd).dst ≡ some route
      → cached_haddr index st.arp (q.ip_defer_queue q.q_rd).dst ≡ none
      → ip_route_find_by_iface trees st.rib route.r_iface ≡ some out
      → neg_part (asked out (q.ip_defer_queue q.q_rd).dst st.link).1 ≡ 0
      → defer_loop (resend host trees index driver) (suc fuel) q st
        ≡ defer_loop
            (resend host trees index driver)
            fuel
            (record (set_tries q (q.ip_defer_queue q.q_rd) ((q.ip_defer_queue q.q_rd).tries + 1)) {
              q_rd = next_slot q.q_rd;
            })
            (record st { link = (asked out (q.ip_defer_queue q.q_rd).dst st.link).0 })
  unfolding defer_loop
  deferred_packet_dropped fuel q st route out waits few busy found unknown there sent =
      let ipd : IpDefer = q.ip_defer_queue q.q_rd in
      let w : (q.q_rd == q.q_wr) ≡ false = ground arith in
      let t : ltb 3 ipd.tries ≡ false = ground arith in
      let e = resend_asks st ipd.dst ipd.proto ipd.buf route out busy found unknown there sent in
      rw (w, defer_loop, t, e)
        (ap
          (λ p.
            defer_loop (resend host trees index driver) fuel p
              (record st { link = (asked out ipd.dst st.link).0 }))
          (ip_defer_drop_waiting (set_tries q ipd (ipd.tries + 1)) waits))

  -- The answer as the sender reads it.
  abbrev pub answer : ArpIp → IpRoute → ArpIp
  answer arp route = record arp {
    arp_oper = arp_oper_reply;
    arp_sha = driver.ether_handle2addr route.r_iface_handle;
    arp_spa = host.ntohl (host.htonl route.r_iface);
    arp_tha = arp.arp_sha;
    arp_tpa = arp.arp_spa;
  }

  -- The answer as it stands in the buffer.
  abbrev raw_answer : ArpIp → IpRoute → ArpIp
  raw_answer net route = record net {
    arp_oper = host.htons arp_oper_reply;
    arp_sha = driver.ether_handle2addr route.r_iface_handle;
    arp_tha = (arp_ntoh host net).arp_sha;
    arp_tpa = net.arp_spa;
    arp_spa = host.htonl route.r_iface;
  }
