-- ===== src/Tcp/Input/Laws.antt =====
-- What a segment can do to the table of connections, and the binding of sockets.
use nstack.Base.{
  ℕ, ◌≡◌, ◌≢◌, ◌≤◌, ◌<◌, ◌*◌, ◌/◌, ◌⊎◌, arith, ◌∷◌, ◌-◌, ◌^◌, List, Bool, true, false, ◌&&◌, Option,
  none, some, test_bit, set_bit, clear_bit,
}
use nstack.Base.Errno.{einval, eaddrinuse, done, fail}
use nstack.Base.Int.{ℤ, pos, ◌+ℤ◌}
use nstack.Base.Outcome.{null_dereference, returns, faults}
use nstack.Host.{Host}
use nstack.RbMap.{RbMap, IsMap}
use nstack.Socket.{SockAddr, same_addr, sock_port_max}
use nstack.Ip.Header.{IpHdr}
use nstack.Tcp.{
  TcpHdr, doff, Tcb, closed, listen, ConnAttr, tcp_new_connection, tcp_syn, tcp_rst, tcp_ack,
  tcp_hdr_size, tcp_opt_size, doff_is_bad,
}
use nstack.Tcp.Wire.{tcp_hton, tcp_ntoh}
use nstack.Tcp.Options.{convert_options, known, opt_loop_hangs}
use nstack.Tcp.Fsm.{tcp_fsm, fsm_listen}
use nstack.Tcp.Input.{InputOut, segment_attr, fast_reply, tcp_input, nstack_tcp_bind, tcp_conn_cmp}

-- The attributes of two connections are equal.
abbrev pub same_attr : ConnAttr → ConnAttr → Bool
same_attr a b = same_addr a.attr_local b.attr_local && same_addr a.attr_remote b.attr_remote

-- If `memcmp` of exchanged arguments gives the opposite number, a connection and the one with its two
-- addresses exchanged compare as equal, so `tcp_conn_cmp` is no order on connections.
pub tcp_conn_cmp_collides :
    (memcmp : SockAddr → SockAddr → ℤ) (a b : SockAddr)
    → memcmp a b +ℤ memcmp b a ≡ pos 0
    → tcp_conn_cmp memcmp
        (record { attr_local = a; attr_remote = b })
        (record { attr_local = b; attr_remote = a })
      ≡ pos 0
unfolding tcp_conn_cmp
tcp_conn_cmp_collides memcmp a b h = h

module _ (host : Host) (conns : RbMap ConnAttr Tcb) (socks : RbMap SockAddr ℕ) where
  module _ (ntohs_at ntohl_at htons_at htonl_at : List ℕ → ℕ → List ℕ) where
    -- A segment without SYN for a connection that does not exist is not refused: if it has 20
    -- bytes, a valid header size, and options over which the loop ends, the code follows a null
    -- pointer.
    pub tcp_input_unknown_connection :
        (fuel : ℕ) (map : conns.Map) (tree : socks.Map) (random : ℕ) (ip_hdr : IpHdr) (net : TcpHdr)
        (behind behind' : List ℕ) (bsize : ℕ)
        → 20 ≤ bsize
        → convert_options ntohs_at ntohl_at fuel (tcp_opt_size (tcp_ntoh host net)) behind
          ≡ some (returns behind')
        → doff_is_bad (tcp_ntoh host net) ≡ false
        → conns.find (segment_attr host conns socks ip_hdr net) map ≡ none
        → test_bit (tcp_ntoh host net).tcp_flags tcp_syn ≡ false
        → tcp_input host conns socks ntohs_at ntohl_at htons_at htonl_at fuel map tree random ip_hdr
            net behind bsize
          ≡ some (faults null_dereference)
    unfolding tcp_input tcp_fsm
    tcp_input_unknown_connection fuel map tree random ip_hdr net behind behind' bsize long options
          good absent no_syn =
        ground arith

    -- A segment of at least 20 bytes with a valid header size above 20, whose first option has a
    -- kind that the code does not know, is never done with, however long it runs.
    pub tcp_input_unknown_option :
        (fuel : ℕ) (map : conns.Map) (tree : socks.Map) (random : ℕ) (ip_hdr : IpHdr) (net : TcpHdr)
        (kind : ℕ) (behind : List ℕ) (bsize : ℕ)
        → 20 ≤ bsize
        → doff_is_bad (tcp_ntoh host net) ≡ false
        → 5 < doff (tcp_ntoh host net)
        → known ntohs_at ntohl_at kind ≡ false
        → tcp_input host conns socks ntohs_at ntohl_at htons_at htonl_at fuel map tree random ip_hdr
            net
            (kind ∷ behind)
            bsize
          ≡ none
    unfolding tcp_input convert_options tcp_opt_size
    tcp_input_unknown_option fuel map tree random ip_hdr net kind behind bsize long good more new =
        ground (
          arith,
          opt_loop_hangs ntohs_at ntohl_at fuel (doff (tcp_ntoh host net) * 4 - 20) 0 kind
              (kind ∷ behind),
        )

  -- The connection that a SYN makes.
  abbrev new_conn : ConnAttr → Tcb
  new_conn attr = record (tcp_new_connection attr) { state = listen }

  -- `rs->tcp_flags &= ~TCP_SYN; |= TCP_RST; |= TCP_ACK` leave the data offset alone.
  doff-refused :
      (f : ℕ) → set_bit (set_bit (clear_bit f tcp_syn) tcp_rst) tcp_ack / 2 ^ 12 ≡ f / 2 ^ 12
  unfolding set_bit clear_bit test_bit
  doff-refused f = ground arith

  -- A SYN for a port that no socket is bound to closes the connection it has made and keeps it.
  refused :
      (find_socket : SockAddr → Option ℕ) (random : ℕ) (ip_hdr : IpHdr) (bsize : ℕ)
      (attr : ConnAttr) (rs : TcpHdr)
      → find_socket (record { inet4_addr = ip_hdr.ip_dst; port = rs.tcp_dport }) ≡ none
      → test_bit rs.tcp_flags tcp_syn ≡ true
      → let out = fsm_listen find_socket random ip_hdr bsize (new_conn attr) rs in
        (tcp_fsm find_socket random ip_hdr bsize (some (new_conn attr)) rs ≡ returns out)
        × (out.conn.state ≡ closed)
        × (out.freed ≡ false)
        × (out.ret ≡ tcp_hdr_size out.rs)
        × (doff out.rs ≡ doff rs)
  unfolding tcp_fsm fsm_listen tcp_new_connection
  refused find_socket random ip_hdr bsize attr rs unbound syn =
      ground (arith, doff-refused rs.tcp_flags)

  -- A reply of header size is put into network order once the loop over its options ends.
  reply_made :
      (ntohs_at ntohl_at htons_at htonl_at : List ℕ → ℕ → List ℕ) (fuel : ℕ) (attr : ConnAttr)
      (rs tcp : TcpHdr) (behind behind' : List ℕ)
      → doff rs ≡ doff tcp
      → doff_is_bad tcp ≡ false
      → convert_options htons_at htonl_at fuel (tcp_opt_size tcp) behind ≡ some (returns behind')
      → (hdr : TcpHdr) × (fast_reply host conns socks ntohs_at ntohl_at htons_at htonl_at fuel attr
            rs behind
            (tcp_hdr_size rs)
          ≡ some (returns hdr))
  unfolding fast_reply tcp_hdr_size tcp_opt_size
  reply_made ntohs_at ntohl_at htons_at htonl_at fuel attr rs tcp behind behind' e good options =
      let rs' : TcpHdr = record rs {
        tcp_sport = attr.attr_local.port;
        tcp_dport = attr.attr_remote.port;
      } in
      (tcp_hton host attr.attr_local attr.attr_remote rs' behind' (doff rs * 4), ground arith)

  -- A SYN with a valid header for a connection that does not exist and a port that no socket is
  -- bound to is taken, but the connection it has made stays in the table, closed. The loops over
  -- the options are assumed to end, for the segment and for the reply.
  refused_connection_stays :
      (ntohs_at ntohl_at htons_at htonl_at : List ℕ → ℕ → List ℕ) (laws : IsMap same_attr conns)
      (fuel : ℕ) (map : conns.Map) (tree : socks.Map) (random : ℕ) (ip_hdr : IpHdr) (net : TcpHdr)
      (behind behind' behind'' : List ℕ) (bsize : ℕ)
      → 20 ≤ bsize
      → doff_is_bad (tcp_ntoh host net) ≡ false
      → convert_options ntohs_at ntohl_at fuel (tcp_opt_size (tcp_ntoh host net)) behind
        ≡ some (returns behind')
      → convert_options htons_at htonl_at fuel (tcp_opt_size (tcp_ntoh host net)) behind'
        ≡ some (returns behind'')
      → conns.find (segment_attr host conns socks ip_hdr net) map ≡ none
      → test_bit (tcp_ntoh host net).tcp_flags tcp_syn ≡ true
      → socks.find (segment_attr host conns socks ip_hdr net).attr_local tree ≡ none
      → (out : InputOut host conns socks) × (conn : Tcb) × (tcp_input host conns socks ntohs_at
            ntohl_at htons_at htonl_at fuel map tree random ip_hdr net behind bsize
          ≡ some (returns out))
        × (conns.find (segment_attr host conns socks ip_hdr net) out.map ≡ some conn)
        × (conn.state ≡ closed)
  unfolding tcp_input tcp_ntoh
  refused_connection_stays ntohs_at ntohl_at htons_at htonl_at laws fuel map tree random ip_hdr net
        behind behind' behind'' bsize long good options options' absent syn unbound =
      let attr = segment_attr host conns socks ip_hdr net in
      let out =
        fsm_listen (λ addr. socks.find addr tree) random ip_hdr bsize (new_conn attr)
          (tcp_ntoh host net) in
      let facts =
        refused (λ addr. socks.find addr tree) random ip_hdr bsize attr (tcp_ntoh host net) unbound
          syn in
      let (hdr, made) =
        reply_made ntohs_at ntohl_at htons_at htonl_at fuel attr out.rs (tcp_ntoh host net) behind'
          behind'' facts.4 good options' in
      let res : InputOut host conns socks = record {
        map = conns.insert attr out.conn map;
        tcp = hdr;
        ret = out.ret;
        delivered = out.delivered;
      } in
      (
        res,
        out.conn,
        ground (arith, facts, made),
        ground (arith, facts, laws.find-insert attr attr out.conn map),
        ground (arith, facts),
      )

  -- `nstack_tcp_bind` refuses a port above the limit and an address in use, and leaves the sockets
  -- alone; else the socket is found under its address from then on, and the address is in use.
  pub nstack_tcp_bind_cases :
      (laws : IsMap same_addr socks) (tree : socks.Map) (addr : SockAddr) (sock other : ℕ)
      → let (tree', ret) = nstack_tcp_bind host conns socks tree addr sock in
        ((sock_port_max < addr.port) × (ret ≡ fail einval) × (tree' ≡ tree))
        ⊎ ((addr.port ≤ sock_port_max)
            × (ret ≡ fail eaddrinuse)
            × (tree' ≡ tree)
            × (socks.find addr tree ≢ none))
        ⊎ ((addr.port ≤ sock_port_max)
            × (socks.find addr tree ≡ none)
            × (ret ≡ done 0)
            × (socks.find addr tree' ≡ some sock)
            × (nstack_tcp_bind host conns socks tree' addr other ≡ (tree', fail eaddrinuse)))
  unfolding nstack_tcp_bind
  nstack_tcp_bind_cases laws tree addr sock other =
      ground (arith, laws.find-insert addr addr sock tree)
