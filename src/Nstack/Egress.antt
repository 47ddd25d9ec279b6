-- ===== src/Nstack/Egress.antt =====
-- From `nstack_sendto` of src/socket.c to the protocol's send function: the queue of a socket between
-- an application and the rounds of the egress thread of src/nstack.c.
use nstack.Base.{ℕ, zero, suc, ◌≤◌, List, [], ◌∷◌, map, length}
use nstack.Base.Int.{ℤ}
use nstack.Base.Errno.{Ret, done}
use nstack.QueueR.Fifo.{Ring}
use nstack.Socket.{SockAddr, Dgram}
use nstack.Socket.Ops.{Io, waits, overflows, back, nstack_sendto}
use nstack.Socket.Ops.Laws.{sent_dgram}
use nstack.Nstack.{Sock, egress_pass}

-- The application sends one message after the other: the queue, and what the calls return; `waits` where
-- one has to wait.
abbrev pub sendto_all : Ring Dgram → List (List ℕ × SockAddr) → Io (Ring Dgram × List Ret)
sendto_all q [] = back (q, [])
sendto_all q (msg ∷ msgs) = elim (nstack_sendto q msg.0 msg.1) [
  | waits ↦ waits
  | overflows ↦ overflows
  | back r ↦ elim (sendto_all r.0 msgs) [
    | waits ↦ waits
    | overflows ↦ overflows
    | back s ↦ back (s.0, r.1 ∷ s.1)
  ]
]

-- Each call returns the length of its message.
abbrev pub sent_lengths : List (List ℕ × SockAddr) → List Ret
sent_lengths = map (λ msg. done (length msg.0))

-- The datagrams of the messages.
abbrev pub sent_dgrams : List (List ℕ × SockAddr) → List Dgram
sent_dgrams = map (λ msg. sent_dgram msg.0 msg.1)

abbrev pub AllFit : List (List ℕ × SockAddr) → Type 0
AllFit [] = Unit {0}
AllFit (msg ∷ msgs) = (length msg.0 ≤ 4072) × AllFit msgs

module _ {S : Type 0} (proto_send : ℕ → S → SockAddr → Dgram → S × ℤ) where
  -- So many rounds of the egress thread.
  abbrev pub rounds : ℕ → List Sock → S → List Sock × S
  rounds zero socks s = (socks, s)
  rounds (suc n) socks s = let r = egress_pass proto_send socks s in rounds n r.0 r.1

  -- The datagrams handed to the socket's protocol one after the other.
  abbrev pub send_each : Sock → List Dgram → S → S
  send_each sock [] s = s
  send_each sock (dgram ∷ dgrams) s =
      send_each sock dgrams (proto_send sock.sock_proto s sock.sock_addr dgram).0
