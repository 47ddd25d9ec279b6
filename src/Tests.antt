-- ===== src/Tests.antt =====
-- Concrete data for the examples: a queue of two blocks, connections and headers between a server on
-- port 80 and a client, and search trees given by functions.
pub mod Queues
pub mod Packets
pub mod Connections
pub mod Segments
pub mod Link
pub mod Internet
pub mod Fragments
pub mod Startup
pub mod Routes
use nstack.Base.{
  ℕ, zero, suc, ◌+◌, ◌<◌, ◌≡◌, refl, arith, List, [], ◌∷◌, Bool, true, false, Option, none, some,
  u32, ◌==◌, if◌then◌else◌,
}
use nstack.Base.Int.{pos}
use nstack.RbMap.{RbMap, IsMap}
use nstack.Socket.{SockAddr, same_addr, Dgram}
use nstack.QueueR.Inv.{IsValid}
use nstack.QueueR.Fifo.{Ring, IsRing}
use nstack.Ip.Header.{IpHdr}
use nstack.Ip.Header.Laws.{IsHdr}
use nstack.Tcp.{TcpHdr, TcpSegment, Tcb, TcpState, listen, ConnAttr}
use nstack.Tcp.Wire.{TcpPacket}
use nstack.Tcp.Input.Laws.{same_attr}

-- A search tree as a function from keys.
abbrev pub fun_map : {K V : Type 0} → (K → K → Bool) → RbMap K V
fun_map {K} {V} same = record {
  Map = K → Option V;
  empty = λ k. none;
  find = λ k t. t k;
  insert = λ k v t j. if same j k then some v else t j;
  remove = λ k t j. if same j k then none else t j;
  to_list = λ t. [];
}

pub fun_map-IsMap : {K V : Type 0} (same : K → K → Bool) → IsMap {K = K} {V = V} same (fun_map same)
fun_map-IsMap same = record {
  find-empty = λ k. refl;
  find-insert = λ j k v t. refl;
  find-remove = λ j k t. refl;
}

abbrev pub conns : RbMap ConnAttr Tcb
conns = fun_map same_attr

abbrev pub socks : RbMap SockAddr ℕ
socks = fun_map same_addr

abbrev pub server : SockAddr
server = record { inet4_addr = 0x0a000002; port = 80 }

abbrev pub client : SockAddr
client = record { inet4_addr = 0x0a000001; port = 1024 }

abbrev pub link : ConnAttr
link = record { attr_local = server; attr_remote = client }

-- The socket 7 is bound to port 80.
abbrev pub find_80 : SockAddr → Option ℕ
find_80 addr = if addr.port == 80 then some 7 else none

-- An IP header from the client to the server, in host order.
abbrev pub ip_in : IpHdr
ip_in = record {
  ip_vhl = 0x45;
  ip_tos = 0;
  ip_len = 60;
  ip_id = 1;
  ip_foff = 0;
  ip_ttl = 9;
  ip_proto = 6;
  ip_csum = 0;
  ip_src = 0x0a000001;
  ip_dst = 0x0a000002;
}

pub ip_in-IsHdr : IsHdr ip_in
ip_in-IsHdr = record {
  vhl = omega arith;
  tos = omega arith;
  len = omega arith;
  id = omega arith;
  foff = omega arith;
  ttl = omega arith;
  proto = omega arith;
  csum = omega arith;
  src = omega arith;
  dst = omega arith;
}

-- A segment from the client by its flags and numbers.
abbrev pub segment : ℕ → ℕ → ℕ → TcpHdr
segment flags seqno ack_num = record {
  tcp_sport = 1024;
  tcp_dport = 80;
  tcp_seqno = seqno;
  tcp_ack_num = ack_num;
  tcp_flags = flags;
  tcp_win_size = 502;
  tcp_checksum = 0;
  tcp_urg_ptr = 0;
}

-- A connection of the server in a state, with the numbers it expects.
abbrev pub conn_in : TcpState → ℕ → ℕ → Tcb
conn_in state recv_next send_next = record {
  local = server;
  remote = client;
  state = state;
  mss = 0;
  rtt_est = pos 0;
  rtt_var = pos 0;
  rtt = pos 0;
  rtt_cur_seq = 0;
  retran_timeout = 12;
  retran_count = 0;
  recv_next = recv_next;
  recv_wnd = 0;
  send_next = send_next;
  send_una = 0;
  send_max = send_next;
  send_wnd = 502;
  unsent_list = [];
  unacked_list = [];
  lists_ready = true;
  timer = record { rexmt = pos 0; persist = pos 0; keep = pos 0; two_msl = pos 0 };
  locked = false;
}

-- A segment of three bytes that waits to be sent.
abbrev pub waiting : TcpSegment
waiting = record { header = segment 0x5018 0 0; payload = 1 ∷ 2 ∷ 3 ∷ [] }

abbrev pub sender : Tcb
sender = record (conn_in listen 5 100) { unsent_list = waiting ∷ waiting ∷ [] }

-- Sending counts the packets, and fails for the first one or never.
abbrev pub send_ok : ℕ → TcpPacket → ℕ × Bool
send_ok n packet = (suc n, true)

abbrev pub send_bad : ℕ → TcpPacket → ℕ × Bool
send_bad n packet = (n, false)

-- A queue of blocks of 4 bytes with one block, at the end of the array, so that a second one goes round.
abbrev pub ring : Ring ℕ
ring = record { cb = record { b_size = 4; a_len = 3; m_write = 2; m_read = 1 }; block = λ i. i + 1 }

pub ring-IsRing : IsRing ring
ring-IsRing = record {
  valid = record {
    write_in = omega arith;
    read_in = omega arith;
    small = omega arith;
    fits = omega arith;
  };
  sized = omega arith;
}

abbrev pub dgram : Dgram
dgram = record { srcaddr = server; dstaddr = client; buf = 1 ∷ 2 ∷ 3 ∷ [] }

-- An empty queue of datagrams as the stack sets it up.
abbrev pub dgram_ring : Ring Dgram
dgram_ring = record {
  cb = record { b_size = 4096; a_len = 4; m_write = 0; m_read = 0 };
  block = λ i. dgram;
}

pub dgram_ring-IsRing : IsRing dgram_ring
dgram_ring-IsRing = record {
  valid = record {
    write_in = omega arith;
    read_in = omega arith;
    small = omega arith;
    fits = omega arith;
  };
  sized = omega arith;
}

abbrev pub two_bytes : List ℕ
two_bytes = 7 ∷ 8 ∷ []
