-- ===== src/Nstack/Init.antt =====
-- `nstack_init` of src/nstack.c and `nstack_listen` of src/socket.c: the shared memory of the sockets.
-- `open`, `mmap` and the binding functions are arguments.
use nstack.Base.{ℕ, ◌≡◌, arith, List, [], ◌∷◌, Bool, not, Option, none, some, if◌then◌else◌}
use nstack.Base.Errno.{Ret, done, fail}
use nstack.QueueR.{queue_create}
use nstack.QueueR.Fifo.{queue_create-IsRing, Ring, IsRing, contents, capacity}
use nstack.Socket.{SockAddr, Dgram, datagram_size_max, datagram_buf_size}
use nstack.Nstack.{xip_proto_tcp, xip_proto_udp, nstack_bind}

-- The entries of `sockets`: `struct nstack_sock_info` as far as it is read, and the path of the memory.
pub record SockInfo : Type 0 where
  pub sock_proto : ℕ
  pub sock_addr : SockAddr
  pub shmem_path : ℕ

-- `sockets`; the paths "/tmp/unetcat.sock" and "/tmp/tnetcat.sock" are 0 and 1.
abbrev pub sockets : List SockInfo
sockets =
    record {
      sock_proto = xip_proto_udp;
      sock_addr = record { inet4_addr = 167772162; port = 10 };
      shmem_path = 0;
    }
    ∷ record {
      sock_proto = xip_proto_tcp;
      sock_addr = record { inet4_addr = 167772162; port = 10 };
      shmem_path = 1;
    }
    ∷ []

-- The shared memory of a socket: `struct nstack_sock_ctrl`, and the two queues with their data.
pub record Shmem : Type 0 where
  pub pid_inetd : ℕ
  pub pid_end : ℕ
  pub ingress : Ring Dgram
  pub egress : Ring Dgram

-- A block of memory that `memset` has cleared.
abbrev pub zero_dgram : Dgram
zero_dgram = record {
  srcaddr = record { inet4_addr = 0; port = 0 };
  dstaddr = record { inet4_addr = 0; port = 0 };
  buf = [];
}

-- A queue as `nstack_init` creates it.
unfoldable pub new_ring : Ring Dgram
new_ring = record { cb = queue_create datagram_size_max datagram_buf_size; block = λ i. zero_dgram }

-- The memory of a socket after `nstack_init`.
abbrev pub new_shmem : ℕ → Shmem
new_shmem mypid = record { pid_inetd = mypid; pid_end = 0; ingress = new_ring; egress = new_ring }

-- What `nstack_init` comes to: the process exits at a socket whose memory cannot be opened or mapped, or
-- that cannot be bound; or it has the memory of every socket.
pub data InitOut (W T : Type 0) : Type 0 where
  no_shmem no_map not_bound : W → T → SockInfo → InitOut W T
  initialised : W → T → List Shmem → InitOut W T

-- `nstack_bind` of a socket.
abbrev pub bind_sock :
    {T : Type 0} → (SockInfo → T → T × Ret) → (SockInfo → T → T × Ret) → SockInfo → T → T × Ret
bind_sock nstack_udp_bind nstack_tcp_bind info t =
    nstack_bind (nstack_udp_bind info) (nstack_tcp_bind info) info.sock_proto t

-- The memory of one more socket.
abbrev pub with_shmem : {W T : Type 0} → ℕ → InitOut W T → InitOut W T
with_shmem mypid (initialised w t mems) = initialised w t (new_shmem mypid ∷ mems)
with_shmem mypid (no_shmem w t info) = no_shmem w t info
with_shmem mypid (no_map w t info) = no_map w t info
with_shmem mypid (not_bound w t info) = not_bound w t info

module _ {W T : Type 0} (open_path : W → ℕ → W × Option ℕ) (mmap : W → ℕ → W × Bool) where
  module _ (nstack_udp_bind nstack_tcp_bind : SockInfo → T → T × Ret) (mypid : ℕ) where
    -- The loop of `nstack_init`.
    unfoldable pub nstack_init : List SockInfo → W → T → InitOut W T
    nstack_init [] w t = initialised w t []
    nstack_init (info ∷ infos) w t =
        let (w1, opened) = open_path w info.shmem_path in
        let (t', bound) = bind_sock nstack_udp_bind nstack_tcp_bind info t in
        let mapped : ℕ → InitOut W T = λ fd.
          let (w2, ok) = mmap w1 fd in
          let rest = nstack_init infos w2 t' in
          if not ok
          then no_map w2 t info
          else elim bound [ fail e ↦ not_bound w2 t' info | done n ↦ with_shmem mypid rest ] in
        elim opened [ none ↦ no_shmem w1 t info | some fd ↦ mapped fd ]

module _ {W : Type 0} (open_path : W → ℕ → W × Option ℕ) (mmap : W → ℕ → W × Bool) where
  -- `nstack_listen` of a process on the memory that the path names; `none` is NULL. The descriptor
  -- stays open where `mmap` fails.
  unfoldable pub nstack_listen : W → ℕ → ℕ → Shmem → W × Option Shmem
  nstack_listen w path pid mem =
      let (w1, opened) = open_path w path in
      let mapped : ℕ → W × Option Shmem = λ fd.
        let (w2, ok) = mmap w1 fd in
        if not ok then (w2, none) else (w2, some (record mem { pid_end = pid })) in
      elim opened [ none ↦ (w1, none) | some fd ↦ mapped fd ]

-- A queue that holds nothing and has room for three datagrams.
abbrev IsEmptyRing : Ring Dgram → Type 0
IsEmptyRing q = IsRing q × (contents q ≡ []) × (capacity q ≡ 3)

new_ring-IsEmptyRing : IsEmptyRing new_ring
unfolding new_ring
new_ring-IsEmptyRing =
    queue_create-IsRing (λ i. zero_dgram) datagram_size_max datagram_buf_size (omega arith)
      (omega arith) (omega arith)
