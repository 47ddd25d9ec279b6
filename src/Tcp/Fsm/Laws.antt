-- ===== src/Tcp/Fsm/Laws.antt =====
-- How `tcp_fsm` moves a connection, and where it does what it should not.
use nstack.Base.{ℕ, ◌≡◌, ◌⊎◌, ◌∙◌, arith, Bool, true, Option, some, test_bit}
use nstack.Base.Outcome.{returns, >>=-eq-returns}
use nstack.Socket.{SockAddr}
use nstack.Ip.Header.{IpHdr}
use nstack.Tcp.{
  TcpHdr, Tcb, TcpState, closed, listen, syn_rcvd, syn_sent, established, fin_wait_1, fin_wait_2,
  close_wait, closing, last_ack, time_wait, tcp_fin, tcp_syn, tcp_rst, tcp_ack,
}
use nstack.Tcp.Rto.{tcp_rto_update}
use nstack.Tcp.Segments.{tcp_ack_segments}
use nstack.Tcp.Fsm.{
  FsmOut, fsm_listen, fsm_syn_sent, fsm_syn_rcvd, fsm_received, fsm_established, fsm_switch,
  fsm_sample, tcp_fsm,
}

abbrev pub has : TcpHdr → ℕ → Bool
has rs flag = test_bit rs.tcp_flags flag

-- The moves between states that one segment `rs` can cause, with what causes them.
abbrev pub Move : TcpHdr → TcpState → TcpState → Type 0
Move rs s t =
    (t ≡ s)
    ⊎ ((s ≡ listen) × (has rs tcp_syn ≡ true) × ((t ≡ syn_rcvd) ⊎ (t ≡ closed)))
    ⊎ ((s ≡ syn_sent) × ((has rs tcp_syn ≡ true) ⊎ (has rs tcp_ack ≡ true)) × (t ≡ established))
    ⊎ ((s ≡ syn_rcvd) × (has rs tcp_rst ≡ true) × (t ≡ listen))
    ⊎ ((s ≡ syn_rcvd) × (has rs tcp_ack ≡ true) × (t ≡ established))
    ⊎ ((s ≡ established) × (has rs tcp_fin ≡ true) × (t ≡ last_ack))
    ⊎ ((s ≡ last_ack) × (has rs tcp_ack ≡ true) × (t ≡ closed))

tcp_ack_segments-state :
    (conn : Tcb) (rs : TcpHdr) (c : Tcb)
    → tcp_ack_segments conn rs ≡ returns c
    → (c.state ≡ conn.state) × (c.recv_next ≡ conn.recv_next)
unfolding tcp_ack_segments
tcp_ack_segments-state conn rs c h = ground arith

module _ (find_socket : SockAddr → Option ℕ) (random : ℕ) (ip_hdr : IpHdr) (bsize : ℕ) where
  listen-Move :
      (conn : Tcb) (rs : TcpHdr)
      → conn.state ≡ listen
      → Move rs listen (fsm_listen find_socket random ip_hdr bsize conn rs).conn.state
  unfolding fsm_listen
  listen-Move conn rs e = ground arith

  syn_sent-Move :
      (conn : Tcb) (rs : TcpHdr)
      → conn.state ≡ syn_sent
      → Move rs syn_sent (fsm_syn_sent find_socket random ip_hdr bsize conn rs).conn.state
  unfolding fsm_syn_sent
  syn_sent-Move conn rs e = ground arith

  syn_rcvd-Move :
      (conn : Tcb) (rs : TcpHdr)
      → conn.state ≡ syn_rcvd
      → Move rs syn_rcvd (fsm_syn_rcvd find_socket random ip_hdr bsize conn rs).conn.state
  unfolding fsm_syn_rcvd
  syn_rcvd-Move conn rs e = ground arith

  established-Move :
      (conn : Tcb) (rs : TcpHdr) (out : FsmOut)
      → conn.state ≡ established
      → fsm_established find_socket random ip_hdr bsize conn rs ≡ returns out
      → Move rs established out.conn.state
  unfolding fsm_established fsm_received
  established-Move conn rs out e h = ground arith

  sample-state :
      (conn : Tcb) (rs : TcpHdr)
      → ((fsm_sample find_socket random ip_hdr bsize conn rs).state ≡ conn.state)
        × ((fsm_sample find_socket random ip_hdr bsize conn rs).locked ≡ conn.locked)
        × ((fsm_sample find_socket random ip_hdr bsize conn rs).recv_next ≡ conn.recv_next)
        × ((fsm_sample find_socket random ip_hdr bsize conn rs).send_next ≡ conn.send_next)
        × ((fsm_sample find_socket random ip_hdr bsize conn rs).send_una ≡ conn.send_una)
  unfolding fsm_sample tcp_rto_update
  sample-state conn rs = ground arith

  switch-Move :
      (s : TcpState) (conn : Tcb) (rs : TcpHdr) (out : FsmOut)
      → conn.state ≡ s
      → fsm_switch find_socket random ip_hdr bsize s conn rs ≡ returns out
      → Move rs s out.conn.state
  unfolding fsm_switch
  switch-Move closed conn rs out e h = ground arith
  switch-Move listen conn rs out e h = ground (arith, listen-Move conn rs e)
  switch-Move syn_rcvd conn rs out e h = ground (arith, syn_rcvd-Move conn rs e)
  switch-Move syn_sent conn rs out e h = ground (arith, syn_sent-Move conn rs e)
  switch-Move established conn rs out e h =
      let (c, acked, rest) = >>=-eq-returns (tcp_ack_segments conn rs) _ h in
      established-Move c rs out ((tcp_ack_segments-state conn rs c acked).0 ∙ e) rest
  switch-Move last_ack conn rs out e h = ground arith
  switch-Move fin_wait_1 conn rs out e h = ground arith
  switch-Move fin_wait_2 conn rs out e h = ground arith
  switch-Move close_wait conn rs out e h = ground arith
  switch-Move closing conn rs out e h = ground arith
  switch-Move time_wait conn rs out e h = ground arith

  -- Whatever segment arrives, if `tcp_fsm` returns, the state stays or moves along one of the
  -- edges of `Move`, and each edge but staying needs the flag that it names.
  pub tcp_fsm_moves :
      (conn : Tcb) (rs : TcpHdr) (out : FsmOut)
      → tcp_fsm find_socket random ip_hdr bsize (some conn) rs ≡ returns out
      → Move rs conn.state out.conn.state
  unfolding tcp_fsm
  tcp_fsm_moves conn rs out h =
      switch-Move conn.state (fsm_sample find_socket random ip_hdr bsize conn rs) rs out
        (sample-state conn rs).0 h
