-- ===== src/Tests/Fragments.antt =====
-- Examples for the reassembly of packets.
use nstack.Base.{ℕ, ◌+◌, ◌/◌, ◌<◌, ◌≡◌, suc, refl, arith, List, [], ◌∷◌, true, false, set, length}
use nstack.Base.Int.{ℤ, pos}
use nstack.Base.Outcome.{returns}
use nstack.Host.{little_endian}
use nstack.Ip.Header.{IpHdr}
use nstack.Ip.Reassembly.{PacketBuf, no_buffer, find_buffer, free_buffer}
use nstack.Ip.Reassembly.Receive.{reversed_pieces_wait}
use nstack.Ip.Reassembly.Steps.{receive_pieces}
use nstack.Tests.{ip_in, two_bytes}

abbrev ten_bytes : List ℕ
ten_bytes = 1 ∷ 2 ∷ 3 ∷ 4 ∷ 5 ∷ 6 ∷ 7 ∷ 8 ∷ 9 ∷ 10 ∷ []

abbrev eight_bytes : List ℕ
eight_bytes = 1 ∷ 2 ∷ 3 ∷ 4 ∷ 5 ∷ 6 ∷ 7 ∷ 8 ∷ []

abbrev four_buffers : List PacketBuf
four_buffers = no_buffer ∷ no_buffer ∷ no_buffer ∷ no_buffer ∷ []

-- Packets are counted and nothing is answered.
abbrev count_packet : ℕ → IpHdr → (ℕ → ℕ) → ℕ → ℕ × IpHdr × (ℕ → ℕ) × ℤ
count_packet n hdr payload bsize = (suc n, hdr, payload, pos 0)

abbrev no_answer : ℕ → ℕ → ℕ → (ℕ → ℕ) → ℤ → ℕ
no_answer n dst proto payload retval = n

reversed_pieces_wait_example :
    (q : PacketBuf) × (q.reserved ≡ true)
    × (q.ip_hdr.ip_len ≡ 0)
    × ((j : ℕ) → j < (length eight_bytes + length two_bytes + 7) / 8 → q.fragmap j ≡ true)
    × (receive_pieces little_endian count_packet no_answer ip_in 0 four_buffers (
          record { start = length eight_bytes; bytes = two_bytes; more = false }
          ∷ record { start = 0; bytes = eight_bytes; more = true }
          ∷ [])
        ≡ returns (0, set four_buffers 0 q))
unfolding find_buffer free_buffer
reversed_pieces_wait_example =
    reversed_pieces_wait little_endian count_packet no_answer ip_in 0 four_buffers 0 eight_bytes
      two_bytes refl refl (omega arith) refl (omega arith)
