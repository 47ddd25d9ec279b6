-- ===== src/Tcp/Send/Laws.antt =====
-- `nstack_tcp_send` on a connection that does not exist yet, and on one that the other side has opened.
use nstack.Base.{ℕ, ◌≡◌, refl, arith, ◌∙◌, ap, List, Bool, false, Option, some}
use nstack.Base.Outcome.{null_dereference, returns, faults, >>=-eq-returns}
use nstack.Host.{Host}
use nstack.RbMap.{RbMap}
use nstack.Socket.{SockAddr, Dgram}
use nstack.Ip.Header.{IpHdr}
use nstack.Tcp.{
  TcpHdr, Tcb, TcpState, closed, listen, syn_rcvd, syn_sent, established, fin_wait_1, fin_wait_2,
  close_wait, closing, last_ack, time_wait, ConnAttr, tcp_new_connection,
}
use nstack.Tcp.Rto.{tcp_rto_update}
use nstack.Tcp.Wire.{TcpPacket}
use nstack.Tcp.Segments.{tcp_ack_segments}
use nstack.Tcp.Fsm.{FsmOut, tcp_fsm, fsm_switch, fsm_established, fsm_received, fsm_sample}
use nstack.Tcp.Send.{nstack_tcp_send, send_found, send_established}

-- What no segment changes: whether the lists are set up, and the mutex.
pub record SameLists (a b : Tcb) : Type 0 where
  pub ready : b.lists_ready ≡ a.lists_ready
  pub free : b.locked ≡ a.locked

ack-SameLists :
    (conn : Tcb) (rs : TcpHdr) {out : Tcb}
    → tcp_ack_segments conn rs ≡ returns out
    → SameLists conn out
unfolding tcp_ack_segments
ack-SameLists conn rs {out} e = record { ready = ground arith; free = ground arith }

module _ (find_socket : SockAddr → Option ℕ) (random : ℕ) (ip_hdr : IpHdr) (bsize : ℕ) where
  sample-SameLists :
      (conn : Tcb) (rs : TcpHdr)
      → SameLists conn (fsm_sample find_socket random ip_hdr bsize conn rs)
  unfolding fsm_sample tcp_rto_update
  sample-SameLists conn rs = record { ready = ground arith; free = ground arith }

  established-SameLists :
      (conn : Tcb) (rs : TcpHdr) {out : FsmOut}
      → fsm_established find_socket random ip_hdr bsize conn rs ≡ returns out
      → SameLists conn out.conn
  unfolding fsm_established fsm_received
  established-SameLists conn rs {out} e = record { ready = ground arith; free = ground arith }

  switch-SameLists :
      (state : TcpState) (conn : Tcb) (rs : TcpHdr) {out : FsmOut}
      → fsm_switch find_socket random ip_hdr bsize state conn rs ≡ returns out
      → SameLists conn out.conn
  unfolding fsm_switch
  switch-SameLists closed conn rs e = record { ready = ground arith; free = ground arith }
  switch-SameLists listen conn rs e = record { ready = ground arith; free = ground arith }
  switch-SameLists syn_rcvd conn rs e = record { ready = ground arith; free = ground arith }
  switch-SameLists syn_sent conn rs e = record { ready = ground arith; free = ground arith }
  switch-SameLists established conn rs e =
      let (acked, e1, e2) =
        >>=-eq-returns (tcp_ack_segments conn rs)
          (λ c. fsm_established find_socket random ip_hdr bsize c rs) e in
      let first = ack-SameLists conn rs e1 in
      let second = established-SameLists acked rs e2 in
      record { ready = second.ready ∙ first.ready; free = second.free ∙ first.free }
  switch-SameLists fin_wait_1 conn rs e = record { ready = ground arith; free = ground arith }
  switch-SameLists fin_wait_2 conn rs e = record { ready = ground arith; free = ground arith }
  switch-SameLists close_wait conn rs e = record { ready = ground arith; free = ground arith }
  switch-SameLists closing conn rs e = record { ready = ground arith; free = ground arith }
  switch-SameLists last_ack conn rs e = record { ready = ground arith; free = ground arith }
  switch-SameLists time_wait conn rs e = record { ready = ground arith; free = ground arith }

-- A connection that the other side has opened: made for a SYN, then changed by any number of segments.
pub data Accepted (attr : ConnAttr) : Tcb → Type 0 where
  made : Accepted attr (record (tcp_new_connection attr) { state = listen })
  moved :
      {conn : Tcb} {out : FsmOut} (find_socket : SockAddr → Option ℕ) (random : ℕ) (ip_hdr : IpHdr)
      (bsize : ℕ) (rs : TcpHdr)
      → Accepted attr conn
      → tcp_fsm find_socket random ip_hdr bsize (some conn) rs ≡ returns out
      → Accepted attr out.conn

Accepted-SameLists :
    {attr : ConnAttr} {conn : Tcb} → Accepted attr conn → SameLists (tcp_new_connection attr) conn
unfolding tcp_fsm
Accepted-SameLists made = record { ready = refl; free = refl }
Accepted-SameLists (moved {conn} {out} find_socket random ip_hdr bsize rs a e) =
    let before = Accepted-SameLists a in
    let sampled = sample-SameLists find_socket random ip_hdr bsize conn rs in
    let after =
      switch-SameLists find_socket random ip_hdr bsize conn.state
        (fsm_sample find_socket random ip_hdr bsize conn rs) rs e in
    record { ready = cc; free = cc }

module _ (host : Host) {S : Type 0} (ip_send : S → TcpPacket → S × Bool)
    (conns : RbMap ConnAttr Tcb) where
  send_unready :
      (conn : Tcb) (buf : List ℕ) (s : S)
      → conn.locked ≡ false
      → conn.lists_ready ≡ false
      → send_established host ip_send conn buf s ≡ faults null_dereference
  unfolding send_established
  send_unready conn buf s free unready = ground arith

  -- Sending on an established connection that the other side has opened writes through a null pointer:
  -- no segment sets up its lists.
  pub nstack_tcp_send_passive :
      (map : conns.Map) (random : ℕ) (garbage : TcpHdr) (source : SockAddr) (dgram : Dgram) (s : S)
      (conn : Tcb)
      → Accepted (record { attr_local = source; attr_remote = dgram.dstaddr }) conn
      → conn.state ≡ established
      → conns.find (record { attr_local = source; attr_remote = dgram.dstaddr }) map ≡ some conn
      → nstack_tcp_send host ip_send conns map random garbage source dgram s
        ≡ faults null_dereference
  unfolding nstack_tcp_send tcp_new_connection
  nstack_tcp_send_passive map random garbage source dgram s conn accepted up found =
      let same = Accepted-SameLists accepted in
      let found_it = ap (λ st. send_found host ip_send st conn dgram.buf s) up in
      let faulty = send_unready conn dgram.buf s same.free same.ready in
      rw found (rw (found_it ∙ faulty) refl)
