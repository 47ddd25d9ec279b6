-- ===== src/Nstack.antt =====
-- src/nstack.c: starting, the rounds of its threads, and binding. Sockets are a list; the transport
-- protocols' functions enter as the table `proto_send` and as arguments.
pub mod Laws
pub mod Stop
pub mod Egress
pub mod Init
use nstack.Base.{
  ℕ, ◌+◌, ◌-◌, List, [], ◌∷◌, Bool, true, false, not, Option, none, some, ltb, leb, ◌==◌,
  if◌then◌else◌,
}
use nstack.Base.Int.{ℤ, pos, negsuc, pos_part, neg_part, ltb_ℤ, ◌-ℤ◌}
use nstack.Base.Errno.{Errno, ealready, eprototype, Ret, done, fail}
use nstack.QueueR.Fifo.{Ring, front, discard}
use nstack.Socket.{SockAddr, Dgram}
use nstack.Ether.{EtherHdr, EtherProtoHandler, ether_input, ether_output_reply}

-- `enum nstack_state`.
pub data NstackState : Type 0 where
  stopped running dying : NstackState

-- `enum nstack_sock_proto`.
abbrev pub xip_proto_tcp : ℕ
xip_proto_tcp = 1

abbrev pub xip_proto_udp : ℕ
xip_proto_udp = 2

abbrev pub xip_proto_last : ℕ
xip_proto_last = 3

-- `NSTACK_PERIODIC_EVENT_SEC`.
abbrev pub periodic_event_sec : ℕ
periodic_event_sec = 10

-- Which threads `nstack_start` has created; a thread that was cancelled is not among them.
pub record Threads : Type 0 where
  pub ingress : Bool
  pub egress : Bool
  pub timer : Bool

abbrev pub no_threads : Threads
no_threads = record { ingress = false; egress = false; timer = false }

-- The static variables of src/nstack.c that starting and stopping use.
pub record Nstack : Type 0 where
  pub nstack_state : NstackState
  pub ether_handle : ℕ
  pub threads : Threads

-- The results of `nstack_start`: 0, the -1 with EALREADY, and the -1 of a failing `pthread_create`,
-- which does not set `errno`.
pub data StartRet : Type 0 where
  started already no_thread : StartRet

-- `nstack_start`, once `nstack_init` has returned; the Booleans say which calls of `pthread_create`
-- succeed.
unfoldable pub nstack_start : Bool → Bool → Bool → Nstack → ℕ → Nstack × StartRet
nstack_start ingress_ok egress_ok timer_ok st handle =
    let st1 : Nstack = record st { ether_handle = handle } in
    let up : Nstack = record st1 {
      nstack_state = running;
      threads = record { ingress = true; egress = true; timer = true };
    } in
    let starting : Nstack × StartRet =
      if not ingress_ok
      then (st1, no_thread)
      else if not egress_ok
      then (record st1 { threads = no_threads }, no_thread)
      else if not timer_ok
      then (record st1 { threads = no_threads }, no_thread)
      else (up, started) in
    elim st.nstack_state [ stopped ↦ starting | running ↦ (st1, already) | dying ↦ (st1, already) ]

-- `eval_timer` on the seconds of the clock: `start`, `delta_time`, and whether a tick is due.
unfoldable pub eval_timer : ℤ → ℤ → ℤ × ℤ × Bool
eval_timer start now =
    let delta_time = now -ℤ start in
    if ltb_ℤ delta_time (pos periodic_event_sec)
    then (start, delta_time, false)
    else (now, delta_time, true)

-- `run_periodic_tasks` of the tasks that the linker set collects.
unfoldable pub run_periodic_tasks : {S : Type 0} → List (ℤ → S → S) → ℤ → S → S
run_periodic_tasks [] delta_time s = s
run_periodic_tasks (task ∷ tasks) delta_time s =
    run_periodic_tasks tasks delta_time (task delta_time s)

-- `nstack_bind` by the protocol of the socket.
unfoldable pub nstack_bind : {S : Type 0} → (S → S × Ret) → (S → S × Ret) → ℕ → S → S × Ret
nstack_bind nstack_udp_bind nstack_tcp_bind sock_proto s =
    if sock_proto == xip_proto_udp
    then nstack_udp_bind s
    else if sock_proto == xip_proto_tcp
    then nstack_tcp_bind s
    else (s, fail eprototype)

-- What a socket is to the egress thread.
pub record Sock : Type 0 where
  pub sock_proto : ℕ
  pub sock_addr : SockAddr
  pub egress_q : Ring Dgram

module _ {S : Type 0} (proto_send : ℕ → S → SockAddr → Dgram → S × ℤ) where
  -- The body of the loop over the sockets in `nstack_egress_thread`; an error of `proto_send` is
  -- only logged.
  unfoldable pub egress_sock : Sock → S → Sock × S
  egress_sock sock s = elim (front sock.egress_q) [
    | none ↦ (sock, s)
    | some dgram ↦
        let (s', ret) = proto_send sock.sock_proto s sock.sock_addr dgram in
        let rest : Sock = record sock { egress_q = (discard sock.egress_q 1).1 } in
        if ltb 0 sock.sock_proto
        then (if ltb sock.sock_proto xip_proto_last then (rest, s') else (rest, s))
        else (rest, s)
  ]

  -- The loop over the sockets: one round of `nstack_egress_thread`.
  unfoldable pub egress_pass : List Sock → S → List Sock × S
  egress_pass [] s = ([], s)
  egress_pass (sock ∷ socks) s =
      let (sock', s1) = egress_sock sock s in
      let (socks', s2) = egress_pass socks s1 in (sock' ∷ socks', s2)

-- What `ether_receive` returns: a frame, a timeout, an error.
pub data Received (P : Type 0) : Type 0 where
  frame : EtherHdr → P → ℕ → Received P
  timed_out : Received P
  broken : Received P

module _ {S P : Type 0} (handlers : List (EtherProtoHandler S P))
    (ether_send : S → ℕ → ℕ → P → ℕ → S × ℤ) where
  -- One round of `nstack_ingress_thread` before its timer: errors are only logged.
  unfoldable pub ingress_step : S → Received P → S
  ingress_step s timed_out = s
  ingress_step s broken = s
  ingress_step s (frame hdr payload bsize) =
      let (s', reply, ret) = ether_input handlers s hdr payload bsize in
      let sent : ℕ → S = λ n. (ether_output_reply ether_send s' hdr reply n).0 in
      elim ret [ done n ↦ if n == 0 then s' else sent n | fail e ↦ s' ]
