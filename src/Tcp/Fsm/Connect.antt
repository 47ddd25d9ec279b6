-- ===== src/Tcp/Fsm/Connect.antt =====
-- Both sides of the handshake of `tcp_fsm` in src/tcp.c, with the headers as they go over the wire.
use nstack.Base.{ℕ, List}
use nstack.Host.{Host}
use nstack.Socket.{SockAddr}
use nstack.Tcp.{TcpHdr}
use nstack.Tcp.Wire.{tcp_hton, tcp_ntoh}

-- What the other side reads of a reply: `tcp_input` sets the ports of the header and converts it, and
-- the other side converts it back.
abbrev pub transmit : Host → SockAddr → SockAddr → List ℕ → ℕ → TcpHdr → TcpHdr
transmit host src dst behind bsize rs =
    tcp_ntoh host (
      tcp_hton host src dst (record rs { tcp_sport = src.port; tcp_dport = dst.port }) behind bsize)
