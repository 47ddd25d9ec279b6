-- ===== src/Tcp/Fsm.antt =====
-- `tcp_fsm` of src/tcp.c: one received segment against the state of its connection. The header `rs` is
-- turned into the header of the reply. `open("/dev/urandom")` is a number, and `find_tcp_socket` the
-- function `find_socket`.
pub mod Laws
pub mod Data
pub mod Handshake
pub mod Connect
pub mod Taken
pub mod Stream
use nstack.Base.{
  ℕ, zero, suc, ◌+◌, ◌-◌, ◌/◌, ◌%◌, ◌^◌, Bool, true, false, ◌&&◌, ◌||◌, Option, none, some, u32,
  ltb, ◌==◌, test_bit, set_bit, clear_bit, if◌then◌else◌,
}
use nstack.Base.Errno.{einval, Ret, done, fail}
use nstack.Base.Outcome.{Fault, null_dereference, Outcome, returns, faults, ◌>>=◌}
use nstack.Base.Int.{ℤ, pos}
use nstack.Socket.{SockAddr}
use nstack.Ip.Header.{IpHdr}
use nstack.Tcp.{
  TcpHdr, Tcb, TcpState, closed, listen, syn_rcvd, syn_sent, established, fin_wait_1, fin_wait_2,
  close_wait, closing, last_ack, time_wait, tcp_fin, tcp_syn, tcp_rst, tcp_psh, tcp_ack,
  tcp_hdr_size, tcp_hdr_bytes,
}
use nstack.Tcp.Rto.{nonzero, tcp_rto_update}
use nstack.Tcp.Segments.{tcp_ack_segments}

-- A call of `nstack_sock_dgram_input`: the socket, the sender, and the bytes by their place in the
-- datagram and their number.
pub record Delivery : Type 0 where
  pub socket : ℕ
  pub source : SockAddr
  pub offset : ℕ
  pub size : ℕ

-- What a call comes to: the connection, the header, the result, whether the connection was unlinked
-- and freed, and what was handed to the socket.
pub record FsmOut : Type 0 where
  pub conn : Tcb
  pub rs : TcpHdr
  pub ret : Ret
  pub freed : Bool
  pub delivered : Option Delivery

abbrev pub fsm_out : Tcb → TcpHdr → Ret → FsmOut
fsm_out conn rs ret = record { conn = conn; rs = rs; ret = ret; freed = false; delivered = none }

-- `TCP_ACK | 5 << 12` and `(TCP_SYN | TCP_ACK) | 5 << 12`.
abbrev pub ack_flags : ℕ
ack_flags = 0x5010

abbrev pub syn_ack_flags : ℕ
syn_ack_flags = 0x5012

module _ (find_socket : SockAddr → Option ℕ) (random : ℕ) (ip_hdr : IpHdr) (bsize : ℕ) where
  -- case TCP_LISTEN
  unfoldable pub fsm_listen : Tcb → TcpHdr → FsmOut
  fsm_listen conn rs =
      let addr : SockAddr = record { inet4_addr = ip_hdr.ip_dst; port = rs.tcp_dport } in
      let refused = set_bit (clear_bit rs.tcp_flags tcp_syn) tcp_rst in
      let bound : Bool = elim (find_socket addr) [ none ↦ false | some _ ↦ true ] in
      let flags = set_bit (if bound then rs.tcp_flags else refused) tcp_ack in
      let rs' : TcpHdr = record rs {
        tcp_flags = flags;
        tcp_ack_num = u32 (rs.tcp_seqno + 1);
        tcp_seqno = random;
      } in
      let conn' : Tcb = record conn {
        state = if bound then syn_rcvd else closed;
        recv_next = u32 (rs.tcp_seqno + 1);
        send_next = u32 (random + 1);
      } in
      if test_bit rs.tcp_flags tcp_syn
      then fsm_out conn' rs' (tcp_hdr_size rs')
      else fsm_out conn rs (done 0)

  -- case TCP_SYN_SENT, which falls through to TCP_LISTEN
  unfoldable pub fsm_syn_sent : Tcb → TcpHdr → FsmOut
  unfolding fsm_listen
  fsm_syn_sent conn rs =
      let reply : TcpHdr = record rs {
        tcp_ack_num = u32 (rs.tcp_seqno + 1);
        tcp_seqno = conn.send_next;
      } in
      let heard : Tcb = record conn {
        recv_next = u32 (rs.tcp_seqno + 1);
        recv_wnd = rs.tcp_win_size;
      } in
      let acked : TcpHdr = record reply { tcp_flags = ack_flags } in
      let open_conn : Tcb = record heard {
        timer = record conn.timer { keep = pos 0; rexmt = pos 1 };
        state = established;
      } in
      let crossed : TcpHdr = record reply { tcp_flags = syn_ack_flags } in
      if test_bit rs.tcp_flags tcp_syn || test_bit rs.tcp_flags tcp_ack
      then fsm_out open_conn acked (tcp_hdr_size acked)
      else if test_bit rs.tcp_flags tcp_syn
      then fsm_out (record heard { state = syn_rcvd }) crossed (tcp_hdr_size crossed)
      else fsm_listen conn rs

  -- case TCP_SYN_RCVD
  unfoldable pub fsm_syn_rcvd : Tcb → TcpHdr → FsmOut
  fsm_syn_rcvd conn rs =
      let expected = rs.tcp_seqno == conn.recv_next && rs.tcp_ack_num == conn.send_next in
      let rs' : TcpHdr = record rs {
        tcp_flags = clear_bit rs.tcp_flags tcp_ack;
        tcp_ack_num = rs.tcp_seqno;
        tcp_seqno = conn.send_next;
      } in
      let again : Tcb = record conn {
        recv_next = rs.tcp_seqno;
        send_next = u32 (conn.send_next + 1);
      } in
      let ready : Tcb = record conn {
        timer = record conn.timer { keep = pos 0 };
        state = established;
      } in
      if test_bit rs.tcp_flags tcp_rst && expected
      then fsm_out (record conn { state = listen }) rs (done 0)
      else if test_bit rs.tcp_flags tcp_ack && expected
      then fsm_out ready rs (done 0)
      else fsm_out again rs' (tcp_hdr_size rs')

  -- The data handling of TCP_ESTABLISHED, for the socket that is found.
  unfoldable pub fsm_received : ℕ → Tcb → TcpHdr → FsmOut
  fsm_received sock conn rs =
      let acked : TcpHdr = record rs { tcp_flags = clear_bit rs.tcp_flags tcp_psh } in
      let header_size = tcp_hdr_bytes acked in
      let size = (2 ^ 64 + bsize - header_size) % 2 ^ 64 in
      let ack = u32 (rs.tcp_seqno + size) in
      let rs' : TcpHdr = record acked { tcp_ack_num = ack; tcp_seqno = conn.send_next } in
      let source : SockAddr = record { inet4_addr = ip_hdr.ip_src; port = rs.tcp_sport } in
      record {
        conn = record conn { recv_next = ack };
        rs = rs';
        ret = tcp_hdr_size rs';
        freed = false;
        delivered =
            some (record { socket = sock; source = source; offset = header_size; size = size });
      }

  -- A socket that is not found is followed as a null pointer by `nstack_sock_dgram_input`.
  unfoldable pub fsm_receive : Tcb → TcpHdr → Outcome FsmOut
  fsm_receive conn rs =
      elim (find_socket (record { inet4_addr = ip_hdr.ip_dst; port = rs.tcp_dport })) [
        | none ↦ faults null_dereference
        | some sock ↦ returns (fsm_received sock conn rs)
      ]

  -- The close request of TCP_ESTABLISHED.
  unfoldable pub fsm_close : Tcb → TcpHdr → FsmOut
  fsm_close conn rs =
      let rs' : TcpHdr = record rs {
        tcp_flags = set_bit rs.tcp_flags tcp_ack;
        tcp_ack_num = u32 (rs.tcp_seqno + 1);
        tcp_seqno = conn.send_next;
      } in
      let conn' : Tcb = record conn {
        state = last_ack;
        recv_next = u32 (rs.tcp_seqno + 1);
        send_next = u32 (conn.send_next + 1);
      } in
      fsm_out conn' rs' (tcp_hdr_size rs')

  -- case TCP_ESTABLISHED, after `tcp_ack_segments`
  unfoldable pub fsm_established : Tcb → TcpHdr → Outcome FsmOut
  unfolding fsm_receive fsm_close
  fsm_established conn rs =
      if test_bit rs.tcp_flags tcp_ack
        && test_bit rs.tcp_flags tcp_psh
        && rs.tcp_seqno == conn.recv_next
        && rs.tcp_ack_num == conn.send_next
      then fsm_receive conn rs
      else if test_bit rs.tcp_flags tcp_fin
      then returns (fsm_close conn rs)
      else returns (fsm_out conn rs (done 0))

  -- case TCP_LAST_ACK
  unfoldable pub fsm_last_ack : Tcb → TcpHdr → FsmOut
  fsm_last_ack conn rs =
      if test_bit rs.tcp_flags tcp_ack
      then record (fsm_out (record conn { state = closed }) rs (done 0)) { freed = true }
      else fsm_out conn rs (done 0)

  -- The switch on the state.
  unfoldable pub fsm_switch : TcpState → Tcb → TcpHdr → Outcome FsmOut
  unfolding fsm_syn_sent fsm_listen fsm_syn_rcvd fsm_established fsm_last_ack
  fsm_switch closed conn rs = returns (fsm_out conn rs (done 0))
  fsm_switch syn_sent conn rs = returns (fsm_syn_sent conn rs)
  fsm_switch listen conn rs = returns (fsm_listen conn rs)
  fsm_switch syn_rcvd conn rs = returns (fsm_syn_rcvd conn rs)
  fsm_switch established conn rs = do conn' ← tcp_ack_segments conn rs; fsm_established conn' rs
  fsm_switch fin_wait_1 conn rs = returns (fsm_out conn rs (done 0))
  fsm_switch fin_wait_2 conn rs = returns (fsm_out conn rs (done 0))
  fsm_switch close_wait conn rs = returns (fsm_out conn rs (done 0))
  fsm_switch closing conn rs = returns (fsm_out conn rs (done 0))
  fsm_switch last_ack conn rs = returns (fsm_last_ack conn rs)
  fsm_switch time_wait conn rs = returns (fsm_out conn rs (fail einval))

  -- The round trip sample at the head of `tcp_fsm`.
  unfoldable pub fsm_sample : Tcb → TcpHdr → Tcb
  fsm_sample conn rs =
      if nonzero conn.rtt && ltb conn.rtt_cur_seq rs.tcp_ack_num
      then tcp_rto_update conn conn.rtt
      else conn

  -- `tcp_fsm`. The connection is `none` where the caller passes a null pointer.
  unfoldable pub tcp_fsm : Option Tcb → TcpHdr → Outcome FsmOut
  unfolding fsm_sample fsm_switch
  tcp_fsm none rs = faults null_dereference
  tcp_fsm (some conn) rs = fsm_switch conn.state (fsm_sample conn rs) rs
