-- ===== src/Socket.antt =====
-- Addresses, datagrams and the limits of include/nstack_socket.h and config.h.
pub mod Ops
use nstack.Base.{ℕ, List, Bool, ◌&&◌, ◌==◌, ◌≡◌, ◌↔◌, arith}

-- `struct nstack_sockaddr`.
pub record SockAddr : Type 0 where
  pub inet4_addr : ℕ
  pub port : ℕ

-- `memcmp` of two addresses gives 0.
abbrev pub same_addr : SockAddr → SockAddr → Bool
same_addr a b = a.inet4_addr == b.inet4_addr && a.port == b.port

-- `struct nstack_dgram`; `buf_size` is the length of `buf`.
pub record Dgram : Type 0 where
  pub srcaddr : SockAddr
  pub dstaddr : SockAddr
  pub buf : List ℕ

-- `NSTACK_SOCK_PORT_MAX`.
abbrev pub sock_port_max : ℕ
sock_port_max = 49151

-- `NSTACK_DATAGRAM_SIZE_MAX` and `NSTACK_DATAGRAM_BUF_SIZE`.
abbrev pub datagram_size_max : ℕ
datagram_size_max = 4096

abbrev pub datagram_buf_size : ℕ
datagram_buf_size = 16384
