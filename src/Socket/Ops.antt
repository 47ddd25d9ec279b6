-- ===== src/Socket/Ops.antt =====
-- Datagrams through the shared memory of a socket: `nstack_sock_dgram_input` of src/nstack.c and
-- `nstack_recvfrom` and `nstack_sendto` of src/socket.c. The wake-up signals are left out, and a loop
-- that waits for the other side is the result `waits`.
pub mod Laws
use nstack.Base.{
  ℕ, ◌+◌, List, Bool, true, false, Option, none, some, u32, min, ltb, length, take, if◌then◌else◌,
}
use nstack.Base.Errno.{enobufs, Ret, done, fail}
use nstack.QueueR.Fifo.{Ring, put, front, discard}
use nstack.Socket.{SockAddr, Dgram, datagram_size_max}

-- What a call comes to: it waits, it writes past the block that holds its datagram, or it returns.
pub data Io (A : Type 0) : Type 0 where
  waits : Io A
  overflows : Io A
  back : A → Io A

-- `sizeof(struct nstack_dgram)`: two addresses of 8 bytes and a `size_t`. A block of the queues has
-- `NSTACK_DATAGRAM_SIZE_MAX` bytes.
abbrev pub sizeof_dgram : ℕ
sizeof_dgram = 24

-- Allocate a block, fill it with the datagram, commit.
unfoldable pub push_dgram : Ring Dgram → Dgram → Io (Ring Dgram)
push_dgram q dgram = elim (put q dgram) [
  | none ↦ waits
  | some q' ↦ if ltb datagram_size_max (sizeof_dgram + length dgram.buf) then overflows else back q'
]

-- `nstack_sock_dgram_input` for the socket with the address `sock_addr`.
unfoldable pub nstack_sock_dgram_input :
    Ring Dgram → SockAddr → SockAddr → List ℕ → Io (Ring Dgram × Ret)
unfolding push_dgram
nstack_sock_dgram_input ingress_q sock_addr srcaddr buf =
    elim (push_dgram ingress_q (record { srcaddr = srcaddr; dstaddr = sock_addr; buf = buf })) [
      | waits ↦ waits
      | overflows ↦ overflows
      | back q ↦ back (q, done 0)
    ]

-- `nstack_recvfrom` with room for `len` bytes; `peek` is the flag NSTACK_MSG_PEEK. The bytes copied,
-- the sender, and the number returned.
unfoldable pub nstack_recvfrom : Ring Dgram → ℕ → Bool → Io (Ring Dgram × List ℕ × SockAddr × ℕ)
nstack_recvfrom ingress_q len peek = elim (front ingress_q) [
  | none ↦ waits
  | some dgram ↦
      let rd = u32 (min len (length dgram.buf)) in
      let left : Ring Dgram = if peek then ingress_q else (discard ingress_q 1).1 in
      back (left, take rd dgram.buf, dgram.srcaddr, rd)
]

-- `nstack_sendto`.
unfoldable pub nstack_sendto : Ring Dgram → List ℕ → SockAddr → Io (Ring Dgram × Ret)
unfolding push_dgram
nstack_sendto egress_q buffer dest_addr =
    let dgram : Dgram = record {
      srcaddr = record { inet4_addr = 0; port = 0 };
      dstaddr = dest_addr;
      buf = buffer;
    } in
    let out : Io (Ring Dgram × Ret) = elim (push_dgram egress_q dgram) [
      | waits ↦ waits
      | overflows ↦ overflows
      | back q ↦ back (q, done (length buffer))
    ] in
    if ltb datagram_size_max (length buffer) then back (egress_q, fail enobufs) else out
