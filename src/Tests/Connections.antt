-- ===== src/Tests/Connections.antt =====
-- Examples for the state machine of a connection, its timers and its estimators.
use nstack.Tests.{find_80, ip_in, conn_in, segment, send_ok, client, server}
use nstack.Base.{
  arith, refl, ◌≡◌, ◌⊎◌, true, some, test_bit, ◌↔◌, ◌+◌, u32, ◌-◌, ◌*◌, ◌/◌, ◌^◌, ◌≤◌, ◌<◌, none,
  max,
}
use nstack.Host.{little_endian}
use nstack.Base.Int.{pos, pos_part}
use nstack.Tcp.{Tcb, listen, established, syn_sent, syn_rcvd, tcp_syn, tcp_ack, doff}
use nstack.Tcp.Fsm.{fsm_listen, FsmOut, fsm_established, tcp_fsm, Delivery}
use nstack.Tcp.Timer.{t_keep, slow_conn}
use nstack.Base.Outcome.{returns, use_after_free, faults}
use nstack.Tcp.Rto.{tcp_rto_update, tcp_rto_update_lem, IsEstimated}
use nstack.Tcp.Fsm.Laws.{has, Move, tcp_fsm_moves}
use nstack.Base.Errno.{done}
use nstack.Tcp.Fsm.Handshake.{handshake}
use nstack.Tcp.Fsm.Data.{InSequence, HasData, fsm_established_data, fsm_established_overflow}
use nstack.Tcp.Timer.Laws.{slow_conn_runs_out}

abbrev syn_out : FsmOut
syn_out = fsm_listen find_80 77 ip_in 20 (conn_in listen 0 0) (segment 0x5002 5 0)

fresh-IsEstimated : IsEstimated (conn_in established 5 100)
fresh-IsEstimated = record { est_nonneg = refl; var_nonneg = refl }

-- A SYN has not been answered in time.
abbrev unanswered : Tcb
unanswered = record (conn_in syn_sent 0 78) {
  timer = record { rexmt = pos 0; persist = pos 0; keep = pos 1; two_msl = pos 0 };
}

tcp_fsm_moves_example : Move (segment 0x5002 5 0) (conn_in listen 0 0).state syn_out.conn.state
unfolding tcp_fsm
tcp_fsm_moves_example =
    tcp_fsm_moves find_80 77 ip_in 20 (conn_in listen 0 0) (segment 0x5002 5 0) syn_out refl

handshake_example :
    (out : FsmOut) × (tcp_fsm find_80 77 ip_in 20 (some (conn_in listen 0 0)) (segment 0x5002 5 0)
      ≡ returns out)
    × (out.conn.state ≡ syn_rcvd)
    × (has out.rs tcp_syn ≡ true)
    × (has out.rs tcp_ack ≡ true)
    × (out.rs.tcp_ack_num ≡ u32 ((segment 0x5002 5 0).tcp_seqno + 1))
    × (out.rs.tcp_seqno ≡ 77)
    × (out.ret ≡ done (doff (segment 0x5002 5 0) * 4))
    × (out' : FsmOut) × (tcp_fsm find_80 77 ip_in 20 (some out.conn) (segment 0x5010 6 78)
        ≡ returns out')
    × ((out'.conn.state ≡ established) ↔ (
        ((segment 0x5010 6 78).tcp_seqno ≡ u32 ((segment 0x5002 5 0).tcp_seqno + 1))
        × ((segment 0x5010 6 78).tcp_ack_num ≡ u32 (77 + 1))))
unfolding test_bit
handshake_example =
    handshake find_80 77 ip_in 20 (conn_in listen 0 0) (segment 0x5002 5 0) (segment 0x5010 6 78) 7
      refl refl refl refl refl refl refl

fsm_established_data_example :
    (out : FsmOut) × (fsm_established find_80 77 ip_in 23
        (conn_in established 5 100)
        (segment 0x5018 5 100)
      ≡ returns out)
    × ((HasData (segment 0x5018 5 100)
          × InSequence (conn_in established 5 100) (segment 0x5018 5 100)
          × (out.delivered
              ≡ some (record {
                socket = 7;
                source = client;
                offset = doff (segment 0x5018 5 100) * 4;
                size = 23 - doff (segment 0x5018 5 100) * 4;
              }))
          × (out.conn.recv_next
              ≡ u32 ((segment 0x5018 5 100).tcp_seqno + (23 - doff (segment 0x5018 5 100) * 4)))
          × (out.rs.tcp_ack_num ≡ out.conn.recv_next)
          × (out.ret ≡ done (doff (segment 0x5018 5 100) * 4)))
        ⊎ ((¬ (
              HasData (segment 0x5018 5 100)
              × InSequence (conn_in established 5 100) (segment 0x5018 5 100)))
            × (out.delivered ≡ none)))
fsm_established_data_example =
    fsm_established_data find_80 77 ip_in 23 (conn_in established 5 100) (segment 0x5018 5 100) 7
      refl refl (omega arith) (omega arith)

fsm_established_overflow_example :
    (out : FsmOut) × (d : Delivery) × (fsm_established find_80 77 ip_in 20
        (conn_in established 5 100)
        (segment 0xf018 5 100)
      ≡ returns out)
    × (out.delivered ≡ some d)
    × (d.size + (doff (segment 0xf018 5 100) * 4 - 20) ≡ 2 ^ 64)
    × (2 ^ 64 - 60 ≤ d.size)
unfolding test_bit
fsm_established_overflow_example =
    fsm_established_overflow find_80 77 ip_in 20 (conn_in established 5 100) (segment 0xf018 5 100)
      7 refl refl (omega arith) (refl, refl) (refl, refl)

tcp_rto_update_lem_example :
    let c = tcp_rto_update (conn_in established 5 100) (pos 3) in
    IsEstimated c
    × (0 < pos_part c.rtt_est)
    × (0 < pos_part c.rtt_var)
    × (c.rtt ≡ pos 0)
    × (c.retran_timeout ≡ u32 (pos_part c.rtt_est / 8 + pos_part c.rtt_var))
    × (((pos_part (conn_in established 5 100).rtt_est ≡ 0) × (c.retran_timeout ≡ u32 (3 * 3)))
        ⊎ ((0 < pos_part (conn_in established 5 100).rtt_est)
            × (pos_part c.rtt_est
                ≡ max 1 (
                    pos_part (conn_in established 5 100).rtt_est
                    - pos_part (conn_in established 5 100).rtt_est / 8
                    + (3 - 1)))))
tcp_rto_update_lem_example =
    tcp_rto_update_lem (conn_in established 5 100) 3 fresh-IsEstimated (omega arith)

slow_conn_runs_out_example : slow_conn little_endian send_ok unanswered 0 ≡ faults use_after_free
slow_conn_runs_out_example =
    slow_conn_runs_out little_endian send_ok unanswered 0 t_keep refl (λ e. ground arith) refl

-- A connection of the client, which has to send its SYN.
abbrev opening : Tcb
opening = record (conn_in listen 0 500) { local = client; remote = server }
