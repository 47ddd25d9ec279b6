-- ===== src/Tcp/Fsm/Data.antt =====
-- The data that `tcp_fsm` hands to the socket of an established connection.
use nstack.Base.{
  ℕ, ◌+◌, ◌-◌, ◌*◌, ◌/◌, ◌%◌, ◌^◌, ◌≤◌, ◌<◌, ◌≡◌, ◌⊎◌, inl, inr, refl, arith, Bool, true, false,
  ◌&&◌, Option, none, some, u32, ◌==◌, set_bit, clear_bit, Bool-cases,
}
use nstack.Base.Errno.{done}
use nstack.Base.Outcome.{returns}
use nstack.Socket.{SockAddr}
use nstack.Ip.Header.{IpHdr}
use nstack.Tcp.{
  TcpHdr, Tcb, tcp_fin, tcp_psh, tcp_ack, tcp_hdr_size, tcp_hdr_bytes, doff, doff_is_bad,
}
use nstack.Tcp.Fsm.{FsmOut, Delivery, fsm_out, fsm_received, fsm_close, fsm_established}
use nstack.Tcp.Fsm.Laws.{has}

-- The segment is the one that the connection waits for.
abbrev pub InSequence : Tcb → TcpHdr → Type 0
InSequence conn rs = (rs.tcp_seqno ≡ conn.recv_next) × (rs.tcp_ack_num ≡ conn.send_next)

-- The test of the data branch.
abbrev wanted : Tcb → TcpHdr → Bool
wanted conn rs =
    has rs tcp_ack
    && has rs tcp_psh
    && rs.tcp_seqno == conn.recv_next
    && rs.tcp_ack_num == conn.send_next

-- The flags ACK and PSH.
abbrev pub HasData : TcpHdr → Type 0
HasData rs = (has rs tcp_ack ≡ true) × (has rs tcp_psh ≡ true)

doff-clear_psh : (flags : ℕ) → clear_bit flags tcp_psh / 2 ^ 12 % 16 ≡ flags / 2 ^ 12 % 16
unfolding clear_bit
doff-clear_psh flags = ground arith

doff-set_ack : (flags : ℕ) → set_bit flags tcp_ack / 2 ^ 12 % 16 ≡ flags / 2 ^ 12 % 16
unfolding set_bit
doff-set_ack flags = ground arith

module _ (find_socket : SockAddr → Option ℕ) (random : ℕ) (ip_hdr : IpHdr) (bsize : ℕ) where
  abbrev destination : TcpHdr → SockAddr
  destination rs = record { inet4_addr = ip_hdr.ip_dst; port = rs.tcp_dport }

  abbrev source : TcpHdr → SockAddr
  source rs = record { inet4_addr = ip_hdr.ip_src; port = rs.tcp_sport }

  fsm_received_lem :
      (conn : Tcb) (rs : TcpHdr) (sock : ℕ)
      → doff_is_bad rs ≡ false
      → let out = fsm_received find_socket random ip_hdr bsize sock conn rs in
        let size = (2 ^ 64 + bsize - doff rs * 4) % 2 ^ 64 in
        (out.delivered
          ≡ some (record { socket = sock; source = source rs; offset = doff rs * 4; size = size }))
        × (out.ret ≡ done (doff rs * 4))
        × (out.conn.recv_next ≡ u32 (rs.tcp_seqno + size))
  unfolding fsm_received tcp_hdr_bytes tcp_hdr_size
  fsm_received_lem conn rs sock good = ground (arith, doff-clear_psh rs.tcp_flags)

  -- For a bound socket and a segment whose header size is valid and fits the datagram: the step of
  -- the state ESTABLISHED behind `tcp_ack_segments`, on the connection as that leaves it, hands to
  -- the socket exactly the payload of a segment with ACK and PSH that is in sequence with that
  -- connection, expects the byte behind it next and acknowledges up to there; any other segment
  -- hands over nothing.
  pub fsm_established_data :
      (conn : Tcb) (rs : TcpHdr) (sock : ℕ)
      → find_socket (destination rs) ≡ some sock
      → doff_is_bad rs ≡ false
      → doff rs * 4 ≤ bsize
      → bsize < 2 ^ 64
      → (out : FsmOut) × (fsm_established find_socket random ip_hdr bsize conn rs ≡ returns out)
        × ((HasData rs
              × InSequence conn rs
              × (out.delivered
                  ≡ some (record {
                    socket = sock;
                    source = source rs;
                    offset = doff rs * 4;
                    size = bsize - doff rs * 4;
                  }))
              × (out.conn.recv_next ≡ u32 (rs.tcp_seqno + (bsize - doff rs * 4)))
              × (out.rs.tcp_ack_num ≡ out.conn.recv_next)
              × (out.ret ≡ done (doff rs * 4)))
            ⊎ ((¬ (HasData rs × InSequence conn rs)) × (out.delivered ≡ none)))
  unfolding fsm_established
  fsm_established_data conn rs sock found good fits small = elim (Bool-cases (wanted conn rs)) [
    | inl e ↦
        let out = fsm_received find_socket random ip_hdr bsize sock conn rs in
        let (delivered, ret, next) = fsm_received_lem conn rs sock good in
        let size : (2 ^ 64 + bsize - doff rs * 4) % 2 ^ 64 ≡ bsize - doff rs * 4 = omega arith in
        (
          out,
          ground arith,
          inl (
            ground arith,
            ground arith,
            ground arith,
            rw size at next,
            unfold fsm_received in refl,
            ret,
          ),
        )
    | inr e ↦ elim (Bool-cases (has rs tcp_fin)) [
      | inl f ↦ (
        fsm_close find_socket random ip_hdr bsize conn rs,
        ground arith,
        inr ((λ h. absurd (ground arith)), unfold fsm_close in refl),
      )
      | inr f ↦ (fsm_out conn rs (done 0), ground arith, inr ((λ h. absurd (ground arith)), refl))
    ]
  ]

  -- For a bound socket, a segment with ACK and PSH in sequence whose header size is valid but
  -- larger than the datagram is not refused: the socket is handed a size that has wrapped below
  -- zero.
  pub fsm_established_overflow :
      (conn : Tcb) (rs : TcpHdr) (sock : ℕ)
      → find_socket (destination rs) ≡ some sock
      → doff_is_bad rs ≡ false
      → bsize < doff rs * 4
      → HasData rs
      → InSequence conn rs
      → (out : FsmOut) × (d : Delivery) × (fsm_established find_socket random ip_hdr bsize conn rs
          ≡ returns out)
        × (out.delivered ≡ some d)
        × (d.size + (doff rs * 4 - bsize) ≡ 2 ^ 64)
        × (2 ^ 64 - 60 ≤ d.size)
  unfolding fsm_established
  fsm_established_overflow conn rs sock found good short has_data in_seq =
      let out = fsm_received find_socket random ip_hdr bsize sock conn rs in
      let (delivered, ret, next) = fsm_received_lem conn rs sock good in
      (out, _, ground arith, delivered, ground arith, ground arith)
