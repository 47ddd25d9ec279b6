-- ===== src/Tcp/Send.antt =====
-- Sending on a connection in src/tcp.c: `tcp_connection_init`, `tcp_send_syn` and `nstack_tcp_send`.
-- Results are given by whether they are not negative. What the stack holds where `tcp_send_syn` builds
-- its packet is the header `garbage`.
pub mod Laws
use nstack.Base.{
  ℕ, ◌+◌, List, [], ◌∷◌, ◌++◌, Bool, true, false, Option, none, some, u32, if◌then◌else◌,
}
use nstack.Base.Outcome.{Fault, null_dereference, deadlock, Outcome, returns, faults, ◌>>=◌}
use nstack.Base.Int.{ℤ, pos}
use nstack.Host.{Host}
use nstack.RbMap.{RbMap}
use nstack.Socket.{SockAddr, Dgram}
use nstack.Tcp.{
  TcpHdr, TcpSegment, Tcb, TcpState, closed, listen, syn_rcvd, syn_sent, established, fin_wait_1,
  fin_wait_2, close_wait, closing, last_ack, time_wait, ConnAttr, tcp_new_connection,
}
use nstack.Tcp.Rto.{nonzero}
use nstack.Tcp.Wire.{TcpPacket, tcp_hton}
use nstack.Tcp.Segments.{tcp_send_segments}

-- `TCP_SYN | 6 << 12` and `TCP_PSH | TCP_ACK | (5 << TCP_DOFF_OFF)`.
abbrev pub syn_flags : ℕ
syn_flags = 0x6002

abbrev pub data_flags : ℕ
data_flags = 0x5018

-- The option that `tcp_send_syn` adds, as `tcp_hton_opt` leaves it: the kind, the length, and the
-- segment size 1460 in network order.
abbrev pub mss_option : List ℕ
mss_option = 2 ∷ 4 ∷ 0x05 ∷ 0xb4 ∷ []

-- `tcp_connection_init`, for the number read from /dev/urandom.
unfoldable pub tcp_connection_init : ℕ → Tcb → Tcb
tcp_connection_init random conn = record conn {
  state = syn_sent;
  mss = 1460;
  send_next = random;
  rtt_est = pos 0;
  rtt_var = pos 24;
  retran_timeout = 12;
  send_wnd = 502;
  send_una = random;
  send_max = random;
  unsent_list = [];
  unacked_list = [];
  lists_ready = true;
}

-- The segment that `nstack_tcp_send` allocates for a datagram; the fields that it does not name are
-- zero.
unfoldable pub new_segment : SockAddr → SockAddr → List ℕ → TcpSegment
new_segment source dest buf = record {
  header = record {
    tcp_sport = source.port;
    tcp_dport = dest.port;
    tcp_seqno = 0;
    tcp_ack_num = 0;
    tcp_flags = data_flags;
    tcp_win_size = 502;
    tcp_checksum = 0;
    tcp_urg_ptr = 0;
  };
  payload = buf;
}

-- TAILQ_INSERT_TAIL on the unsent list under the mutex. A head without a tail pointer is a null pointer
-- that is written through.
unfoldable pub queue_segment : Tcb → TcpSegment → Outcome Tcb
queue_segment conn seg =
    if conn.locked
    then faults deadlock
    else if conn.lists_ready
    then returns (record conn { unsent_list = conn.unsent_list ++ (seg ∷ []) })
    else faults null_dereference

-- The start of a round trip sample.
unfoldable pub time_segment : Tcb → Tcb
time_segment conn =
    if nonzero conn.rtt then conn else record conn { rtt = pos 1; rtt_cur_seq = conn.send_next }

module _ (host : Host) {S : Type 0} (ip_send : S → TcpPacket → S × Bool) where
  -- The packet of `tcp_send_syn`.
  unfoldable pub syn_packet : Tcb → TcpHdr → TcpPacket
  syn_packet conn garbage =
      let hdr : TcpHdr = record garbage {
        tcp_seqno = conn.send_next;
        tcp_flags = syn_flags;
        tcp_win_size = 502;
        tcp_sport = conn.local.port;
        tcp_dport = conn.remote.port;
      } in
      record {
        dst = conn.remote.inet4_addr;
        header = tcp_hton host conn.local conn.remote hdr mss_option 24;
        behind = mss_option;
      }

  -- `tcp_send_syn`.
  unfoldable pub tcp_send_syn : Tcb → TcpHdr → S → Tcb × S × Bool
  unfolding syn_packet
  tcp_send_syn conn garbage s =
      let (s', sent) = ip_send s (syn_packet conn garbage) in
      let conn' : Tcb = record conn {
        send_next = u32 (conn.send_next + 1);
        state = syn_sent;
        timer = record conn.timer { keep = pos 150 };
      } in
      (conn', s', sent)

  -- case TCP_ESTABLISHED of `nstack_tcp_send`
  unfoldable pub send_established : Tcb → List ℕ → S → Outcome (Tcb × S × Bool)
  unfolding time_segment new_segment queue_segment tcp_send_segments
  send_established conn buf s =
      queue_segment (time_segment conn) (new_segment conn.local conn.remote buf)
      >>= (λ conn'. tcp_send_segments host ip_send conn' s)

  -- `nstack_tcp_send` on a connection that is found; `-EINVAL` in every state but ESTABLISHED.
  unfoldable pub send_found : TcpState → Tcb → List ℕ → S → Outcome (Tcb × S × Bool)
  unfolding send_established
  send_found established conn buf s = send_established conn buf s
  send_found closed conn buf s = returns (conn, s, false)
  send_found listen conn buf s = returns (conn, s, false)
  send_found syn_rcvd conn buf s = returns (conn, s, false)
  send_found syn_sent conn buf s = returns (conn, s, false)
  send_found fin_wait_1 conn buf s = returns (conn, s, false)
  send_found fin_wait_2 conn buf s = returns (conn, s, false)
  send_found close_wait conn buf s = returns (conn, s, false)
  send_found closing conn buf s = returns (conn, s, false)
  send_found last_ack conn buf s = returns (conn, s, false)
  send_found time_wait conn buf s = returns (conn, s, false)

  -- `nstack_tcp_send` where there is no connection yet: the datagram waits for the handshake.
  unfoldable pub send_new : ConnAttr → ℕ → TcpHdr → List ℕ → S → Outcome (Tcb × S × Bool)
  unfolding tcp_new_connection tcp_connection_init new_segment queue_segment tcp_send_syn
  send_new attr random garbage buf s =
      queue_segment (tcp_connection_init random (tcp_new_connection attr))
        (new_segment attr.attr_local attr.attr_remote buf)
      >>= (λ conn. returns (tcp_send_syn conn garbage s))

  module _ (conns : RbMap ConnAttr Tcb) where
    -- `nstack_tcp_send` for the socket bound to `source`.
    unfoldable pub nstack_tcp_send :
        conns.Map → ℕ → TcpHdr → SockAddr → Dgram → S → Outcome (conns.Map × S × Bool)
    unfolding send_found send_new
    nstack_tcp_send map random garbage source dgram s =
        let attr : ConnAttr = record { attr_local = source; attr_remote = dgram.dstaddr } in
        let run : Outcome (Tcb × S × Bool) = elim (conns.find attr map) [
          | some conn ↦ send_found conn.state conn dgram.buf s
          | none ↦ send_new attr random garbage dgram.buf s
        ] in
        run >>= (λ (conn, s', ret). returns (conns.insert attr conn map, s', ret))
