-- ===== src/Tcp/Input.antt =====
-- `tcp_input` and `nstack_tcp_bind` of src/tcp.c. The connections and the sockets are search trees.
-- `ip2str` and the log are left out.
pub mod Laws
use nstack.Base.{
  ℕ, ◌+◌, ◌-◌, ◌%◌, ◌^◌, List, Bool, true, false, ◌&&◌, ◌||◌, Option, none, some, ltb, leb, ◌==◌,
  test_bit, if◌then◌else◌,
}
use nstack.Base.Errno.{einval, ebadmsg, eaddrinuse, Ret, done, fail}
use nstack.Base.Int.{ℤ, ◌+ℤ◌}
use nstack.Base.Outcome.{Fault, Outcome, returns, faults, ◌>>=◌}
use nstack.Host.{Host}
use nstack.RbMap.{RbMap}
use nstack.Socket.{SockAddr, sock_port_max}
use nstack.Ip.Header.{IpHdr}
use nstack.Tcp.{
  TcpHdr, Tcb, TcpState, closed, listen, established, state_num, ConnAttr, tcp_new_connection,
  tcp_syn, tcp_hdr_size, tcp_opt_size, doff_is_bad,
}
use nstack.Tcp.Wire.{tcp_hton, tcp_ntoh}
use nstack.Tcp.Options.{convert_options}
use nstack.Tcp.Fsm.{FsmOut, Delivery, tcp_fsm}

-- `tcp_conn_cmp`: the sum of what `memcmp` gives for the local and for the remote addresses.
unfoldable pub tcp_conn_cmp : (SockAddr → SockAddr → ℤ) → ConnAttr → ConnAttr → ℤ
unfolding ◌+ℤ◌
tcp_conn_cmp memcmp a b = memcmp a.attr_local b.attr_local +ℤ memcmp a.attr_remote b.attr_remote

module _ (host : Host) (conns : RbMap ConnAttr Tcb) (socks : RbMap SockAddr ℕ) where
  open conns use {Map as ConnMap}

  -- What `tcp_input` leaves: the connections, the payload's header, the result, and what was handed
  -- to a socket.
  pub record InputOut : Type 0 where
    pub map : ConnMap
    pub tcp : TcpHdr
    pub ret : Ret
    pub delivered : Option Delivery

  -- The addresses of the connection that a segment belongs to.
  unfoldable pub segment_attr : IpHdr → TcpHdr → ConnAttr
  segment_attr ip_hdr net = record {
    attr_local = record { inet4_addr = ip_hdr.ip_dst; port = host.ntohs net.tcp_dport };
    attr_remote = record { inet4_addr = ip_hdr.ip_src; port = host.ntohs net.tcp_sport };
  }

  -- The guard on the flags and the header size.
  unfoldable pub segment_is_bad : Option Tcb → TcpHdr → Bool
  segment_is_bad none tcp = doff_is_bad tcp
  segment_is_bad (some conn) tcp =
      (test_bit tcp.tcp_flags tcp_syn && leb (state_num established) (state_num conn.state))
      || doff_is_bad tcp

  -- The connection that `tcp_fsm` is called with: the one that is found, a new one in LISTEN for a
  -- SYN, or a null pointer.
  unfoldable pub input_conn : ConnAttr → Option Tcb → TcpHdr → Option Tcb
  input_conn attr (some conn) tcp = some conn
  input_conn attr none tcp =
      if test_bit tcp.tcp_flags tcp_syn
      then some (record (tcp_new_connection attr) { state = listen })
      else none

  -- The connection is written back, or unlinked where `tcp_fsm` has freed it.
  unfoldable pub store_conn : ConnAttr → FsmOut → ConnMap → ConnMap
  store_conn attr out map =
      if out.freed then conns.remove attr map else conns.insert attr out.conn map

  -- Conversions of 2 or 4 bytes in place.
  module _ (ntohs_at ntohl_at htons_at htonl_at : List ℕ → ℕ → List ℕ) where
    -- The reply: the ports are set and the header goes back to network order. `htons_at` and `htonl_at`
    -- convert bytes in place for the loop over the options, which has fuel.
    unfoldable pub fast_reply : ℕ → ConnAttr → TcpHdr → List ℕ → Ret → Option (Outcome TcpHdr)
    fast_reply fuel attr rs behind (fail e) = some (returns rs)
    fast_reply fuel attr rs behind (done n) =
        let rs' : TcpHdr = record rs {
          tcp_sport = attr.attr_local.port;
          tcp_dport = attr.attr_remote.port;
        } in
        let sent : Option (Outcome TcpHdr) =
          elim (convert_options htons_at htonl_at fuel (tcp_opt_size rs') behind) [
            | none ↦ none
            | some (faults e) ↦ some (faults e)
            | some (returns behind') ↦
                some (returns (tcp_hton host attr.attr_local attr.attr_remote rs' behind' n))
          ] in
        if ltb 0 n then sent else some (returns rs)

    -- What `tcp_input` leaves after `tcp_fsm`.
    unfoldable pub finish : ℕ → ConnAttr → ConnMap → List ℕ → FsmOut → Option (Outcome InputOut)
    unfolding fast_reply store_conn
    finish fuel attr map behind out = elim (fast_reply fuel attr out.rs behind out.ret) [
      | none ↦ none
      | some (faults e) ↦ some (faults e)
      | some (returns hdr) ↦ some (
          returns (record {
            map = store_conn attr out map;
            tcp = hdr;
            ret = out.ret;
            delivered = out.delivered;
          }))
    ]

    -- `tcp_input` from the conversion of the header on.
    unfoldable pub input_segment :
        ℕ → ConnMap → socks.Map → ℕ → IpHdr → TcpHdr → List ℕ → ℕ → Option (Outcome InputOut)
    unfolding segment_attr segment_is_bad input_conn finish
    input_segment fuel map socket_tree random ip_hdr net behind bsize =
        let attr = segment_attr ip_hdr net in
        let tcp = tcp_ntoh host net in
        let conn = conns.find attr map in
        let find_socket : SockAddr → Option ℕ = λ addr. socks.find addr socket_tree in
        let run : Option (Outcome InputOut) =
          elim (tcp_fsm find_socket random ip_hdr bsize (input_conn attr conn tcp) tcp) [
            | faults e ↦ some (faults e)
            | returns out ↦ finish fuel attr map behind out
          ] in
        if segment_is_bad conn tcp
        then some (returns (record { map = map; tcp = tcp; ret = fail einval; delivered = none }))
        else run

    -- `tcp_input`, on the header in network order and the bytes behind it, with fuel for the loops
    -- over the options; `none` means that the fuel ran out.
    unfoldable pub tcp_input :
        ℕ → ConnMap → socks.Map → ℕ → IpHdr → TcpHdr → List ℕ → ℕ → Option (Outcome InputOut)
    unfolding input_segment
    tcp_input fuel map socket_tree random ip_hdr net behind bsize =
        let options =
          convert_options ntohs_at ntohl_at fuel (tcp_opt_size (tcp_ntoh host net)) behind in
        let out : Option (Outcome InputOut) = elim options [
          | none ↦ none
          | some (faults e) ↦ some (faults e)
          | some (returns behind') ↦
              input_segment fuel map socket_tree random ip_hdr net behind' bsize
        ] in
        if ltb bsize 20
        then some (returns (record { map = map; tcp = net; ret = fail ebadmsg; delivered = none }))
        else out

  -- `nstack_tcp_bind` of the socket `sock` with the address `addr`.
  unfoldable pub nstack_tcp_bind : socks.Map → SockAddr → ℕ → socks.Map × Ret
  nstack_tcp_bind tree addr sock =
      if ltb sock_port_max addr.port then (tree, fail einval) else elim (socks.find addr tree) [
        | some other ↦ (tree, fail eaddrinuse)
        | none ↦ (socks.insert addr sock tree, done 0)
      ]
