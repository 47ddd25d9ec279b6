-- ===== src/Tcp/Fsm/Handshake.antt =====
-- Opening a connection: the handshake on the side that listens, and the reply that ends it on the
-- side that connects.
use nstack.Base.{
  ◌*◌, ◌/◌, ◌%◌, ◌^◌, ◌↔◌, ℕ, ◌+◌, ◌≡◌, ◌⊎◌, arith, true, false, Option, some, u32, test_bit,
  set_bit,
}
use nstack.Base.Errno.{done}
use nstack.Base.Outcome.{returns}
use nstack.Base.Int.{pos}
use nstack.Socket.{SockAddr}
use nstack.Ip.Header.{IpHdr}
use nstack.Tcp.{
  TcpHdr, Tcb, listen, syn_rcvd, syn_sent, established, tcp_syn, tcp_rst, tcp_ack, tcp_hdr_size,
  doff, doff_is_bad,
}
use nstack.Tcp.Fsm.{FsmOut, fsm_listen, fsm_syn_sent, fsm_syn_rcvd, fsm_sample, tcp_fsm}
use nstack.Tcp.Fsm.Laws.{has}

flags-set_ack :
    (flags : ℕ)
    → test_bit flags tcp_syn ≡ true
    → (test_bit (set_bit flags tcp_ack) tcp_syn ≡ true)
      × (test_bit (set_bit flags tcp_ack) tcp_ack ≡ true)
unfolding set_bit
flags-set_ack flags h = ground arith

doff-set_ack : (flags : ℕ) → set_bit flags tcp_ack / 2 ^ 12 % 16 ≡ flags / 2 ^ 12 % 16
unfolding set_bit
doff-set_ack flags = ground arith

module _ (find_socket : SockAddr → Option ℕ) (random : ℕ) (ip_hdr : IpHdr) (bsize : ℕ) where
  -- Without a measurement in progress no sample is taken.
  pub no_sample :
      (conn : Tcb) (rs : TcpHdr)
      → conn.rtt ≡ pos 0
      → fsm_sample find_socket random ip_hdr bsize conn rs ≡ conn
  unfolding fsm_sample
  no_sample conn rs e = ground arith

  -- A listening connection for which no round trip is timed answers a SYN for a bound socket, with
  -- a valid header size, by a segment of just that size, with SYN and ACK, the number drawn at
  -- random and the next number expected, and waits in SYN_RCVD. There a segment with ACK and
  -- without RST opens the connection exactly when it carries both numbers.
  pub handshake :
      (conn : Tcb) (syn ack : TcpHdr) (sock : ℕ)
      → conn.state ≡ listen
      → conn.rtt ≡ pos 0
      → has syn tcp_syn ≡ true
      → doff_is_bad syn ≡ false
      → find_socket (record { inet4_addr = ip_hdr.ip_dst; port = syn.tcp_dport }) ≡ some sock
      → has ack tcp_ack ≡ true
      → has ack tcp_rst ≡ false
      → (out : FsmOut) × (tcp_fsm find_socket random ip_hdr bsize (some conn) syn ≡ returns out)
        × (out.conn.state ≡ syn_rcvd)
        × (has out.rs tcp_syn ≡ true)
        × (has out.rs tcp_ack ≡ true)
        × (out.rs.tcp_ack_num ≡ u32 (syn.tcp_seqno + 1))
        × (out.rs.tcp_seqno ≡ random)
        × (out.ret ≡ done (doff syn * 4))
        × (out' : FsmOut) × (tcp_fsm find_socket random ip_hdr bsize (some out.conn) ack
            ≡ returns out')
        × ((out'.conn.state ≡ established)
            ↔ ((ack.tcp_seqno ≡ u32 (syn.tcp_seqno + 1)) × (ack.tcp_ack_num ≡ u32 (random + 1))))
  unfolding tcp_fsm fsm_listen fsm_syn_rcvd tcp_hdr_size
  handshake conn syn ack sock e idle h good found a r =
      let opened = fsm_listen find_socket random ip_hdr bsize conn syn in
      let flags = flags-set_ack syn.tcp_flags h in
      (
        opened,
        ground (arith, no_sample conn syn idle),
        ground arith,
        ground (arith, flags),
        ground (arith, flags),
        ground arith,
        ground arith,
        ground (arith, doff-set_ack syn.tcp_flags),
        fsm_syn_rcvd find_socket random ip_hdr bsize opened.conn ack,
        ground (arith, no_sample opened.conn ack),
        ground arith,
      )

  -- A connection that has sent its SYN and for which no round trip is timed is opened by any
  -- segment with SYN or ACK, whatever number it acknowledges, and the reply acknowledges that
  -- segment; any other segment changes nothing. So it never goes to SYN_RCVD.
  syn_sent_cases :
      (conn : Tcb) (rs : TcpHdr)
      → conn.state ≡ syn_sent
      → conn.rtt ≡ pos 0
      → (out : FsmOut) × (tcp_fsm find_socket random ip_hdr bsize (some conn) rs ≡ returns out)
        × ((((has rs tcp_syn ≡ true) ⊎ (has rs tcp_ack ≡ true))
              × (out.conn.state ≡ established)
              × (out.rs.tcp_ack_num ≡ u32 (rs.tcp_seqno + 1))
              × (out.ret ≡ done 20))
            ⊎ ((has rs tcp_syn ≡ false)
                × (has rs tcp_ack ≡ false)
                × (out.conn ≡ conn)
                × (out.ret ≡ done 0)))
  unfolding tcp_fsm fsm_syn_sent tcp_hdr_size
  syn_sent_cases conn rs e idle = (
    fsm_syn_sent find_socket random ip_hdr bsize conn rs,
    ground (arith, no_sample conn rs idle),
    ground arith,
  )
