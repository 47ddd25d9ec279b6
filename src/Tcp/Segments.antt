-- ===== src/Tcp/Segments.antt =====
-- The segment lists of a connection in src/tcp.c: `tcp_send_segments`, `tcp_ack_segments`,
-- `tcp_rexmt_prepare` and `tcp_rexmt_commit`. `ip_send` is given by what it does to the rest of the
-- stack and by whether its result is not negative.
pub mod Laws
use nstack.Base.{
  ℕ, ◌+◌, ◌^◌, ◌%◌, List, [], ◌∷◌, ◌++◌, Bool, true, false, u32, ltb, ◌==◌, length, if◌then◌else◌,
}
use nstack.Base.Outcome.{Fault, deadlock, Outcome, returns, faults}
use nstack.Base.Int.{ℤ, pos}
use nstack.Host.{Host}
use nstack.Socket.{SockAddr}
use nstack.Tcp.{TcpHdr, TcpSegment, Tcb, tcp_hdr_bytes}
use nstack.Tcp.Wire.{TcpPacket, tcp_hton}

-- The segments of the list that `tcp_ack_segments` keeps: those whose number is not below.
pub keep_unacked : ℕ → List TcpSegment → List TcpSegment
keep_unacked una [] = []
keep_unacked una (seg ∷ segs) =
    let rest = keep_unacked una segs in if ltb seg.header.tcp_seqno una then rest else seg ∷ rest

-- `tcp_ack_segments`.
unfoldable pub tcp_ack_segments : Tcb → TcpHdr → Outcome Tcb
unfolding keep_unacked
tcp_ack_segments conn tcp =
    let una = tcp.tcp_ack_num in
    let acked : Tcb = record conn {
      send_una = una;
      unacked_list = keep_unacked una conn.unacked_list;
    } in
    let all_acked : Tcb = record acked { timer = record conn.timer { rexmt = pos 0 } } in
    let some_acked : Tcb = record acked {
      send_next = una;
      timer = record conn.timer { rexmt = conn.rtt_est };
    } in
    if ltb conn.send_una una
    then (if conn.locked
        then faults deadlock
        else returns (if una == conn.send_max then all_acked else some_acked))
    else returns conn

-- `tcp_rexmt_prepare`: the unsent segments go behind the unacknowledged ones, and the lists are
-- swapped. TAILQ_SWAP sets the tail pointers of both lists.
unfoldable pub tcp_rexmt_prepare : Tcb → Outcome Tcb
tcp_rexmt_prepare conn =
    if conn.locked
    then faults deadlock
    else returns (record conn {
      unsent_list = conn.unacked_list ++ conn.unsent_list;
      unacked_list = [];
      lists_ready = true;
    })

-- The connection after one segment has been taken from the unsent list and numbered.
unfoldable pub take_segment : List TcpSegment → Tcb → TcpSegment → Tcb
take_segment rest conn seg =
    let next = u32 (conn.send_next + length seg.payload) in
    record conn { unsent_list = rest; send_next = next; send_max = next }

module _ (host : Host) where
  -- The packet built for a segment: its header with the connection's numbers, in network order.
  unfoldable pub segment_packet : Tcb → TcpSegment → TcpPacket
  segment_packet conn seg =
      let hdr : TcpHdr = record seg.header {
        tcp_seqno = conn.send_next;
        tcp_ack_num = conn.recv_next;
      } in
      let bsize = tcp_hdr_bytes seg.header + length seg.payload in
      record {
        dst = conn.remote.inet4_addr;
        header = tcp_hton host conn.local conn.remote hdr seg.payload bsize;
        behind = seg.payload;
      }

module _ (host : Host) {S : Type 0} (ip_send : S → TcpPacket → S × Bool) where
  -- The loop of `tcp_send_segments` over the unsent list. The Boolean is false for the -1 that is
  -- returned at once when `ip_send` fails; the mutex is then still locked.
  unfoldable pub send_loop : List TcpSegment → Tcb → S → Tcb × S × Bool
  send_loop [] conn s = (record conn { locked = false }, s, true)
  send_loop (seg ∷ rest) conn s =
      let (s', sent) = ip_send s (segment_packet host conn seg) in
      let conn' = take_segment rest conn seg in
      let done : Tcb = record conn' { unacked_list = conn.unacked_list ++ (seg ∷ []) } in
      let go_on = send_loop rest done s' in if sent then go_on else (conn', s', false)

  -- `tcp_send_segments`.
  unfoldable pub tcp_send_segments : Tcb → S → Outcome (Tcb × S × Bool)
  tcp_send_segments conn s =
      if conn.locked
      then faults deadlock
      else returns (send_loop conn.unsent_list (record conn { locked = true }) s)

  -- `tcp_rexmt_commit`: the result of `tcp_send_segments` is not looked at.
  unfoldable pub tcp_rexmt_commit : Tcb → S → Outcome (Tcb × S × Bool)
  unfolding tcp_send_segments
  tcp_rexmt_commit conn s =
      tcp_send_segments (record conn { retran_count = u32 (conn.retran_count + 1) }) s
