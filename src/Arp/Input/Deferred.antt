-- ===== src/Arp/Input/Deferred.antt =====
-- A packet that waits in the queue of src/ip_defer.c for its receiver's address, and the answer that
-- `arp_input` of src/arp.c gets.
use nstack.Base.{ℕ, ◌+◌, List, length}
use nstack.Host.{Host}
use nstack.RbMap.{RbMap}
use nstack.Ip.Route.{IpRoute}
use nstack.Ip.Defer.{DeferQueue, next_slot, write_slot}
use nstack.Ip.Send.{IpState, sizeof_ip_hdr}
use nstack.Ip.Send.Laws.{sent_hdr}
use nstack.Arp.{ether_proto_ipv4}
use nstack.Link.{ip_packet, Driver}

-- The queue with one more packet.
abbrev pushed_queue : DeferQueue → ℕ → ℕ → List ℕ → DeferQueue
pushed_queue q dst proto buf = record q {
  ip_defer_queue =
      write_slot q.ip_defer_queue q.q_wr
        (record { tries = 0; dst = dst; proto = proto; buf = buf });
  q_wr = next_slot q.q_wr;
}

module _ (host : Host) (trees : RbMap ℕ IpRoute) (index : RbMap ℕ ℕ) {S : Type 0}
    (driver : Driver S) where
  -- What the link has after a whole packet was sent.
  abbrev pub linked : IpState trees index S → IpRoute → ℕ → ℕ → ℕ → List ℕ → S
  linked st route mac dst proto buf =
      let r =
        driver.ether_send st.link route.r_iface_handle mac ether_proto_ipv4
          (ip_packet (sent_hdr host trees index driver st route dst proto buf) buf)
          (sizeof_ip_hdr + length buf) in
      r.0
