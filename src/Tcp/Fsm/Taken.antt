-- ===== src/Tcp/Fsm/Taken.antt =====
-- What an established connection takes of a segment with data, in `tcp_fsm` of src/tcp.c.
use nstack.Base.{
  ℕ, ◌+◌, ◌-◌, ◌%◌, ◌^◌, ◌<◌, ◌≡◌, refl, ap, ◌∙◌, arith, true, false, Option, some, u32, ◌==◌, ltb,
  test_bit, clear_bit, inl, inr, Bool-cases,
}
use nstack.Base.Int.{pos}
use nstack.Base.Outcome.{returns, ◌>>=◌}
use nstack.Socket.{SockAddr}
use nstack.Ip.Header.{IpHdr}
use nstack.Tcp.{TcpHdr, Tcb, established, tcp_hdr_bytes, tcp_psh, tcp_ack}
use nstack.Tcp.Send.{data_flags}
use nstack.Tcp.Segments.{keep_unacked, tcp_ack_segments}
use nstack.Tcp.Fsm.{
  FsmOut, Delivery, fsm_received, fsm_receive, fsm_established, fsm_switch, fsm_sample, tcp_fsm,
}
use nstack.Tcp.Fsm.Handshake.{no_sample}

-- An established connection on which no round trip is timed and that expects these numbers.
pub record Expects (n a : ℕ) (p : Tcb) : Type 0 where
  pub up : p.state ≡ established
  pub idle : p.rtt ≡ pos 0
  pub unlocked : p.locked ≡ false
  pub next : p.recv_next ≡ n
  pub sent : p.send_next ≡ a

-- What is handed to the socket of a segment with so many bytes of data.
abbrev pub data_delivery : IpHdr → ℕ → ℕ → ℕ → Delivery
data_delivery ip_hdr sock sport k = record {
  socket = sock;
  source = record { inet4_addr = ip_hdr.ip_src; port = sport };
  offset = 20;
  size = k;
}

-- The connection after an acknowledgement.
abbrev all_acked : Tcb → ℕ → Tcb
all_acked p una = record p {
  send_una = una;
  unacked_list = keep_unacked una p.unacked_list;
  timer = record p.timer { rexmt = pos 0 };
}

abbrev some_acked : Tcb → ℕ → Tcb
some_acked p una = record p {
  send_una = una;
  unacked_list = keep_unacked una p.unacked_list;
  send_next = una;
  timer = record p.timer { rexmt = p.rtt_est };
}

acked :
    (n a : ℕ) (p : Tcb) (rs : TcpHdr)
    → Expects n a p
    → rs.tcp_ack_num ≡ a
    → (c : Tcb) × (tcp_ack_segments p rs ≡ returns c) × Expects n a c
unfolding tcp_ack_segments
acked n a p rs v e =
    let una : ℕ = rs.tcp_ack_num in
    elim (Bool-cases (ltb p.send_una una)) [
      | inr old ↦ (p, rw old refl, v)
      | inl new ↦ elim (Bool-cases (una == p.send_max)) [
        | inl every ↦ (
          all_acked p una,
          rw (new, v.unlocked, every) refl,
          record { up = v.up; idle = v.idle; unlocked = v.unlocked; next = v.next; sent = v.sent },
        )
        | inr part ↦ (
          some_acked p una,
          rw (new, v.unlocked, part) refl,
          record { up = v.up; idle = v.idle; unlocked = v.unlocked; next = v.next; sent = e },
        )
      ]
    ]

module _ (find_socket : SockAddr → Option ℕ) (random : ℕ) (ip_hdr : IpHdr) where
  received :
      (n a k sock : ℕ) (c : Tcb) (rs : TcpHdr)
      → Expects n a c
      → rs.tcp_seqno ≡ n
      → rs.tcp_ack_num ≡ a
      → rs.tcp_flags ≡ data_flags
      → find_socket (record { inet4_addr = ip_hdr.ip_dst; port = rs.tcp_dport }) ≡ some sock
      → k < 2 ^ 16
      → let out = fsm_received find_socket random ip_hdr (20 + k) sock c rs in
        (fsm_established find_socket random ip_hdr (20 + k) c rs ≡ returns out)
        × (out.delivered ≡ some (data_delivery ip_hdr sock rs.tcp_sport k))
        × Expects (u32 (n + k)) a out.conn
  unfolding fsm_established fsm_receive fsm_received tcp_hdr_bytes test_bit clear_bit
  received n a k sock c rs v seq ack flags found small =
      let header : tcp_hdr_bytes (record rs { tcp_flags = clear_bit rs.tcp_flags tcp_psh }) ≡ 20 =
        ap (λ f. tcp_hdr_bytes (record rs { tcp_flags = clear_bit f tcp_psh })) flags in
      let size : (2 ^ 64
              + (20 + k)
              - tcp_hdr_bytes (record rs { tcp_flags = clear_bit rs.tcp_flags tcp_psh }))
            % 2 ^ 64
          ≡ k =
        omega (arith, header) in
      let whole : (2 ^ 64 + (20 + k) - 20) % 2 ^ 64 ≡ k = omega arith in
      let ack_bit : test_bit rs.tcp_flags tcp_ack ≡ true = ap (λ f. test_bit f tcp_ack) flags in
      let psh_bit : test_bit rs.tcp_flags tcp_psh ≡ true = ap (λ f. test_bit f tcp_psh) flags in
      (
        ground (arith, ack_bit, psh_bit, v.next, v.sent),
        rw (header, whole) refl,
        record {
          up = v.up;
          idle = v.idle;
          unlocked = v.unlocked;
          next = ap (λ m. u32 (rs.tcp_seqno + m)) size ∙ ap (λ m. u32 (m + k)) seq;
          sent = v.sent;
        },
      )

  -- A segment with data, as the receiver reads it.
  pub taken :
      (n a k sock : ℕ) (p : Tcb) (rs : TcpHdr)
      → Expects n a p
      → rs.tcp_seqno ≡ n
      → rs.tcp_ack_num ≡ a
      → rs.tcp_flags ≡ data_flags
      → find_socket (record { inet4_addr = ip_hdr.ip_dst; port = rs.tcp_dport }) ≡ some sock
      → k < 2 ^ 16
      → (out : FsmOut) × (tcp_fsm find_socket random ip_hdr (20 + k) (some p) rs ≡ returns out)
        × (out.delivered ≡ some (data_delivery ip_hdr sock rs.tcp_sport k))
        × Expects (u32 (n + k)) a out.conn
  unfolding tcp_fsm fsm_switch
  taken n a k sock p rs v seq ack flags found small =
      let (c, acks, v') = acked n a p rs v ack in
      let (run, delivered, next) = received n a k sock c rs v' seq ack flags found small in
      (
        fsm_received find_socket random ip_hdr (20 + k) sock c rs,
        ap
              (λ st.
                fsm_switch find_socket random ip_hdr (20 + k) st
                  (fsm_sample find_socket random ip_hdr (20 + k) p rs) rs)
              v.up
            ∙ ap (λ q. fsm_switch find_socket random ip_hdr (20 + k) established q rs)
                (no_sample find_socket random ip_hdr (20 + k) p rs v.idle)
            ∙ ap (λ o. o >>= (λ q. fsm_established find_socket random ip_hdr (20 + k) q rs)) acks
            ∙ run,
        delivered,
        next,
      )
