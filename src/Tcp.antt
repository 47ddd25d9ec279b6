-- ===== src/Tcp.antt =====
-- TCP: src/tcp.c and src/tcp.h. This file has the header, the connection control block and the
-- state numbers; the functions stand in the modules below.
pub mod Rto
pub mod Wire
pub mod Segments
pub mod Fsm
pub mod Options
pub mod Input
pub mod Send
pub mod Timer
use nstack.Base.{
  ℕ, ◌+◌, ◌-◌, ◌*◌, ◌/◌, ◌%◌, ◌^◌, List, [], Bool, true, false, ◌||◌, ltb, if◌then◌else◌,
}
use nstack.Base.Errno.{einval, Ret, done, fail}
use nstack.Base.Int.{ℤ, pos}
use nstack.Socket.{SockAddr}

-- `struct tcp_hdr`, in host order; the options are not part of it.
pub record TcpHdr : Type 0 where
  pub tcp_sport : ℕ
  pub tcp_dport : ℕ
  pub tcp_seqno : ℕ
  pub tcp_ack_num : ℕ
  pub tcp_flags : ℕ
  pub tcp_win_size : ℕ
  pub tcp_checksum : ℕ
  pub tcp_urg_ptr : ℕ

-- The positions of the flags' bits in `tcp_flags`.
abbrev pub tcp_fin : ℕ
tcp_fin = 0

abbrev pub tcp_syn : ℕ
tcp_syn = 1

abbrev pub tcp_rst : ℕ
tcp_rst = 2

abbrev pub tcp_psh : ℕ
tcp_psh = 3

abbrev pub tcp_ack : ℕ
tcp_ack = 4

-- The data offset, `(flags & TCP_DOFF_MASK) >> TCP_DOFF_OFF`.
abbrev pub doff : TcpHdr → ℕ
doff hdr = hdr.tcp_flags / 2 ^ 12 % 16

abbrev pub doff_is_bad : TcpHdr → Bool
doff_is_bad hdr = ltb (doff hdr) 5 || ltb 15 (doff hdr)

-- `tcp_hdr_size`.
unfoldable pub tcp_hdr_size : TcpHdr → Ret
tcp_hdr_size hdr = if doff_is_bad hdr then fail einval else done (doff hdr * 4)

-- `tcp_opt_size`; `sizeof(struct tcp_hdr)` is 20.
unfoldable pub tcp_opt_size : TcpHdr → Ret
tcp_opt_size hdr = if doff_is_bad hdr then fail einval else done (doff hdr * 4 - 20)

-- `tcp_hdr_size` as a `size_t`: -EINVAL is -22.
unfoldable pub tcp_hdr_bytes : TcpHdr → ℕ
tcp_hdr_bytes hdr = if doff_is_bad hdr then 2 ^ 64 - 22 else doff hdr * 4

-- `enum tcp_state`.
pub data TcpState : Type 0 where
  closed listen syn_rcvd syn_sent established fin_wait_1 : TcpState
  fin_wait_2 close_wait closing last_ack time_wait : TcpState

-- The value of the enumerator.
abbrev pub state_num : TcpState → ℕ
state_num closed = 0
state_num listen = 1
state_num syn_rcvd = 2
state_num syn_sent = 3
state_num established = 4
state_num fin_wait_1 = 5
state_num fin_wait_2 = 6
state_num close_wait = 7
state_num closing = 8
state_num last_ack = 9
state_num time_wait = 10

-- `struct tcp_segment`; `size` is the length of `payload`, which stands for `data`.
pub record TcpSegment : Type 0 where
  pub header : TcpHdr
  pub payload : List ℕ

-- `int timer[TCP_T_NTIMERS]`.
pub record Timers : Type 0 where
  pub rexmt : ℤ
  pub persist : ℤ
  pub keep : ℤ
  pub two_msl : ℤ

-- `struct tcp_conn_tcb`, without the fields that no code reads or writes. `lists_ready` says that the
-- tail pointers of the segment lists are set, as TAILQ_INIT does; `locked` is the mutex.
pub record Tcb : Type 0 where
  pub local : SockAddr
  pub remote : SockAddr
  pub state : TcpState
  pub mss : ℕ
  pub rtt_est : ℤ
  pub rtt_var : ℤ
  pub rtt : ℤ
  pub rtt_cur_seq : ℕ
  pub retran_timeout : ℕ
  pub retran_count : ℕ
  pub recv_next : ℕ
  pub recv_wnd : ℕ
  pub send_next : ℕ
  pub send_una : ℕ
  pub send_max : ℕ
  pub send_wnd : ℕ
  pub unsent_list : List TcpSegment
  pub unacked_list : List TcpSegment
  pub lists_ready : Bool
  pub timer : Timers
  pub locked : Bool

-- `struct tcp_conn_attr`.
pub record ConnAttr : Type 0 where
  pub attr_local : SockAddr
  pub attr_remote : SockAddr

-- `tcp_new_connection`: memory from `calloc` with the addresses copied; its TAILQ heads are zero.
unfoldable pub tcp_new_connection : ConnAttr → Tcb
tcp_new_connection attr = record {
  local = attr.attr_local;
  remote = attr.attr_remote;
  state = closed;
  mss = 0;
  rtt_est = pos 0;
  rtt_var = pos 0;
  rtt = pos 0;
  rtt_cur_seq = 0;
  retran_timeout = 0;
  retran_count = 0;
  recv_next = 0;
  recv_wnd = 0;
  send_next = 0;
  send_una = 0;
  send_max = 0;
  send_wnd = 0;
  unsent_list = [];
  unacked_list = [];
  lists_ready = false;
  timer = record { rexmt = pos 0; persist = pos 0; keep = pos 0; two_msl = pos 0 };
  locked = false;
}
