-- ===== src/Tests/Link.antt =====
-- Examples for frames and the threads of the stack.
use nstack.Tests.{dgram_ring, dgram_ring-IsRing, server, two_bytes}
use nstack.Base.{
  ℕ, suc, arith, refl, false, List, ◌∷◌, [], ◌<◌, ◌≤◌, ◌≡◌, ◌⊎◌, ◌++◌, none, some, length, drop,
  ◌≢◌, map, some,
}
use nstack.Base.Int.{ℤ, pos}
use nstack.Nstack.{no_threads, stopped, Nstack, Sock, egress_pass}
use nstack.Socket.{SockAddr, Dgram}
use nstack.Ether.Fcs.{ether_fcs, crc32}
use nstack.Ether.Fcs.Laws.{ether_fcs-crc32}
use nstack.Ether.Linux.{store32, frame_body, ether_frame, same_bytes, came, ether_receive}
use nstack.Ether.Linux.Laws.{IsReceived, ether_receive-ether_frame}
use nstack.Nstack.Stop
use nstack.Nstack.Stop.{started_process, nstack_stop_hangs, Process, Reach, joining_tcp_timer}
use nstack.Socket.Ops.{back}
use nstack.Nstack.Laws.{fronts, AllRings, send_fronts, queues, egress_pass_lem}

abbrev mac_a : List ℕ
mac_a = 2 ∷ 0 ∷ 0 ∷ 0 ∷ 0 ∷ 1 ∷ []

abbrev mac_b : List ℕ
mac_b = 2 ∷ 0 ∷ 0 ∷ 0 ∷ 0 ∷ 2 ∷ []

abbrev off : Nstack
off = record { nstack_state = stopped; ether_handle = 0; threads = no_threads }

abbrev count_send : ℕ → ℕ → SockAddr → Dgram → ℕ × ℤ
count_send proto n addr packet = (suc n, pos 0)

abbrev one_sock : Sock
one_sock = record { sock_proto = 2; sock_addr = server; egress_q = dgram_ring }

ether_fcs-crc32_example : ether_fcs two_bytes ≡ crc32 two_bytes
ether_fcs-crc32_example = ether_fcs-crc32 two_bytes (omega arith, (omega arith, tt))

ether_receive-ether_frame_example :
    ((length two_bytes ≤ 1500)
      × ((frame : List ℕ) × (ether_frame mac_a mac_b 0x0800 two_bytes ≡ some frame)
          × (frame
              ≡ frame_body mac_a mac_b 0x0800 two_bytes
                ++ store32 (ether_fcs (frame_body mac_a mac_b 0x0800 two_bytes)))
          × IsReceived mac_a mac_b 0x0800 two_bytes
              (ether_receive (some mac_a) 1514 [] (came frame ∷ []))))
    ⊎ ((1500 < length two_bytes) × (ether_frame mac_a mac_b 0x0800 two_bytes ≡ none))
unfolding same_bytes
ether_receive-ether_frame_example =
    ether_receive-ether_frame mac_a mac_b 0x0800 two_bytes mac_a [] 1514 refl refl (omega arith)
      refl (omega arith) (omega arith)

nstack_stop_hangs_example :
    ((q : Process)
      → Reach (started_process off 0) q
      → (q.main_at ≢ Stop.back) × (q.nstack.nstack_state ≢ stopped))
    × ((q : Process) × Reach (started_process off 0) q
        × (q.main_at ≡ joining_tcp_timer)
        × (q.nstack.threads.ingress ≡ false)
        × (q.nstack.threads.egress ≡ false))
nstack_stop_hangs_example = nstack_stop_hangs off 0 refl

egress_pass_lem_example :
    ((egress_pass count_send (one_sock ∷ []) 0).1
      ≡ send_fronts count_send (fronts (one_sock ∷ [])) 0)
    × (queues count_send (egress_pass count_send (one_sock ∷ []) 0).0
        ≡ map (drop 1) (queues count_send (one_sock ∷ [])))
    × AllRings (egress_pass count_send (one_sock ∷ []) 0).0
egress_pass_lem_example = egress_pass_lem count_send (one_sock ∷ []) 0 (dgram_ring-IsRing, tt)

abbrev messages : List (List ℕ × SockAddr)
messages = (two_bytes, server) ∷ (mac_a, server) ∷ []
