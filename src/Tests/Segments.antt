-- ===== src/Tests/Segments.antt =====
-- Examples for what a connection sends and for the segments that arrive.
use nstack.Tests.{
  conn_in, two_bytes, find_80, ip_in, segment, send_ok, send_bad, sender, waiting, server, link,
  conns, socks, dgram,
}
use nstack.Base.{map, Option, ℕ, arith, refl, List, [], ◌∷◌, false, ◌≡◌, true, none, some, test_bit}
use nstack.Host.{little_endian}
use nstack.Tcp.{Tcb, listen, tcp_new_connection, tcp_opt_size}
use nstack.Tcp.Fsm.{fsm_listen, fsm_syn_rcvd, FsmOut, tcp_fsm}
use nstack.Tcp.Wire.{tcp_ntoh}
use nstack.Tcp.Options.{convert_options}
use nstack.Base.Outcome.{returns, faults, null_dereference}
use nstack.Tcp.{established}
use nstack.Tcp.Wire.{TcpPacket}
use nstack.Tcp.Fsm.Taken.{Expects}
use nstack.Tcp.Fsm.Stream.{wire, segments, deliveries, take_packets, sent_data_arrives}
use nstack.Socket.{SockAddr}
use nstack.Tcp.Segments.{take_segment, send_loop, tcp_send_segments}
use nstack.Tcp.Input.Laws.{tcp_input_unknown_connection, tcp_input_unknown_option}
use nstack.Tcp.Send.{nstack_tcp_send}
use nstack.Tcp.Send.Laws.{nstack_tcp_send_passive, Accepted, made, moved}
use nstack.Tcp.Input.{tcp_input}

-- A conversion in place that leaves the bytes, as on a big-endian host.
abbrev in_place : List ℕ → ℕ → List ℕ
in_place mem i = mem

-- The connection after the first of two segments could not be sent.
abbrev stuck : Tcb
stuck = record sender { unsent_list = waiting ∷ []; send_next = 103; send_max = 103; locked = true }

stuck_fails : tcp_send_segments little_endian send_bad sender 0 ≡ returns (stuck, 0, false)
unfolding tcp_send_segments send_loop take_segment
stuck_fails = refl

-- The connection after the client's SYN, and after its ACK.
abbrev syn_out : FsmOut
syn_out =
    fsm_listen find_80 77 ip_in 20 (record (tcp_new_connection link) { state = listen })
      (segment 0x5002 5 0)

abbrev ack_out : FsmOut
ack_out = fsm_syn_rcvd find_80 77 ip_in 20 syn_out.conn (segment 0x5010 6 78)

ack_out-Accepted : Accepted link ack_out.conn
unfolding tcp_fsm fsm_listen tcp_new_connection test_bit
ack_out-Accepted =
    moved {out = ack_out} find_80 77 ip_in 20 (segment 0x5010 6 78)
      (moved {out = syn_out} find_80 77 ip_in 20 (segment 0x5002 5 0) made refl) refl

nstack_tcp_send_passive_example :
    nstack_tcp_send little_endian send_ok conns
      (conns.insert link ack_out.conn conns.empty)
      77
      (segment 0 0 0)
      server
      dgram
      0
    ≡ faults null_dereference
unfolding fsm_syn_rcvd fsm_listen test_bit
nstack_tcp_send_passive_example =
    nstack_tcp_send_passive little_endian send_ok conns (conns.insert link ack_out.conn conns.empty)
      77 (segment 0 0 0) server dgram 0 ack_out.conn ack_out-Accepted refl refl

tcp_input_unknown_connection_example :
    tcp_input little_endian conns socks in_place in_place in_place in_place 1 conns.empty
      socks.empty 77 ip_in
      (segment 0x1050 0 0)
      []
      20
    ≡ some (faults null_dereference)
unfolding convert_options tcp_opt_size tcp_ntoh test_bit
tcp_input_unknown_connection_example =
    tcp_input_unknown_connection little_endian conns socks in_place in_place in_place in_place 1
      conns.empty socks.empty 77 ip_in (segment 0x1050 0 0) [] [] 20 (omega arith) refl refl refl
      refl

tcp_input_unknown_option_example :
    tcp_input little_endian conns socks in_place in_place in_place in_place 9 conns.empty
      socks.empty 77 ip_in
      (segment 0x1060 0 0)
      (6 ∷ [])
      24
    ≡ none
unfolding convert_options tcp_opt_size tcp_ntoh test_bit
tcp_input_unknown_option_example =
    tcp_input_unknown_option little_endian conns socks in_place in_place in_place in_place 9
      conns.empty socks.empty 77 ip_in (segment 0x1060 0 0) 6 [] 24 (omega arith) refl (omega arith)
      refl

abbrev pieces : List (List ℕ)
pieces = two_bytes ∷ (1 ∷ 2 ∷ 3 ∷ []) ∷ []

abbrev stocked : Tcb
stocked = record (conn_in established 5 100) {
  unsent_list = segments (conn_in established 5 100) pieces;
}

-- Every port has the socket 7.
abbrev find_7 : SockAddr → Option ℕ
find_7 addr = some 7

sent_data_arrives_example :
    (conn' : Tcb) × (ps : List TcpPacket) × (peer' : Tcb) × (tcp_send_segments little_endian wire
        stocked []
      ≡ returns (conn', ps, true))
    × (map (λ (packet : TcpPacket). packet.behind) ps ≡ pieces)
    × (take_packets find_7 77 ip_in little_endian ps (conn_in established 100 5)
        ≡ returns (peer', deliveries ip_in 7 80 pieces))
    × Expects conn'.send_next conn'.recv_next peer'
    × (conn'.unsent_list ≡ [])
sent_data_arrives_example =
    sent_data_arrives find_7 77 ip_in little_endian stocked (conn_in established 100 5) pieces 7
      refl refl (omega arith) (omega arith) (omega arith) (omega arith)
      (record { up = refl; idle = refl; unlocked = refl; next = refl; sent = refl }) refl
      (omega arith, (omega arith, tt))
