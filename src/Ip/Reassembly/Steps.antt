-- ===== src/Ip/Reassembly/Steps.antt =====
-- What `ip_fragment_input` of src/ip_fragment.c does with each fragment of a packet that arrives in
-- order.
use nstack.Base.{
  ℕ, ◌+◌, ◌%◌, ◌<◌, ◌≤◌, ◌≡◌, refl, ap, ◌∙◌, arith, List, [], ◌∷◌, true, false, none, some, ltb,
  set, length, length-append, get_or-set_self,
}
use nstack.Base.Int.{ℤ}
use nstack.Base.Errno.{done}
use nstack.Base.Outcome.{Outcome, returns, ◌>>=◌}
use nstack.Host.{Host}
use nstack.Ip.Header.{IpHdr}
use nstack.Ip.Fragments.Pieces.{Piece, IsTiling, only, next}
use nstack.Ip.Fragments.Laws.{piece_hdr}
use nstack.Ip.Reassembly.{
  PacketBuf, fragment_off, store_fragment, is_complete, find_buffer, free_buffer, fresh_buffer,
  buffer_at, no_buffer, get_packet_buffer, deliver_packet, delivered, receive_fragment,
  ip_fragment_input,
}
use nstack.Ip.Reassembly.Laws.{store_pieces, store_last, piece_off}
use nstack.Ip.Reassembly.Buffers.{
  set-set, free_buffer_lem, first_hdr, is_complete_no, is_complete-IsStored,
  get_packet_buffer_piece, IsWaiting, find_kept, next-IsWaiting, release-set,
}

module _ (host : Host) {S : Type 0} (ip_input : S → IpHdr → (ℕ → ℕ) → ℕ → S × IpHdr × (ℕ → ℕ) × ℤ)
    (ip_send : S → ℕ → ℕ → (ℕ → ℕ) → ℤ → S) where
  -- The fragments of a packet arrive one after the other.
  abbrev pub receive_pieces : IpHdr → S → List PacketBuf → List Piece → Outcome (S × List PacketBuf)
  receive_pieces hdr s bufs [] = returns (s, bufs)
  receive_pieces hdr s bufs (piece ∷ pieces) =
      ip_fragment_input host ip_input ip_send s bufs (piece_hdr hdr piece) piece.bytes
      >>= (λ r. receive_pieces hdr r.0 r.1 pieces)

  -- What a complete packet in buffer `i` leaves.
  abbrev pub handed_on : S → List PacketBuf → ℕ → PacketBuf → Outcome (S × List PacketBuf)
  handed_on s bufs i q =
      let r = deliver_packet host ip_input ip_send s q in
      returns (r.0, set bufs i (record r.1 { reserved = false }))

  pub input_found :
      (s : S) (bufs : List PacketBuf) (hdr : IpHdr) (buf : List ℕ) (found : List PacketBuf × ℕ)
      → fragment_off hdr ≤ 65535
      → get_packet_buffer bufs hdr ≡ some found
      → ip_fragment_input host ip_input ip_send s bufs hdr buf
        ≡ receive_fragment host ip_input ip_send s hdr buf found
  unfolding ip_fragment_input
  input_found s bufs hdr buf found off e =
      let fits : ltb 65535 (fragment_off hdr) ≡ false = ground arith in rw (fits, e) refl

  pub received_part :
      (s : S) (hdr : IpHdr) (buf : List ℕ) (bufs : List PacketBuf) (i : ℕ) (p : PacketBuf)
      → fragment_off hdr + length buf ≤ 65535
      → buffer_at bufs i ≡ p
      → is_complete (store_fragment p hdr buf) ≡ false
      → receive_fragment host ip_input ip_send s hdr buf (bufs, i)
        ≡ returns (s, set bufs i (store_fragment p hdr buf), done 0)
  unfolding receive_fragment
  received_part s hdr buf bufs i p off e incomplete =
      let fits : ltb 65535 (fragment_off hdr + length buf) ≡ false = ground arith in
      rw (fits, e, incomplete) refl

  received_last :
      (s : S) (hdr : IpHdr) (buf : List ℕ) (bufs : List PacketBuf) (i : ℕ) (p : PacketBuf)
      → fragment_off hdr + length buf ≤ 65535
      → buffer_at bufs i ≡ p
      → is_complete (store_fragment p hdr buf) ≡ true
      → receive_fragment host ip_input ip_send s hdr buf (bufs, i)
        ≡ delivered host ip_input ip_send
            (set bufs i (store_fragment p hdr buf))
            i
            (deliver_packet host ip_input ip_send s (store_fragment p hdr buf))
  unfolding receive_fragment
  received_last s hdr buf bufs i p off e complete =
      let fits : ltb 65535 (fragment_off hdr + length buf) ≡ false = ground arith in
      rw (fits, e, complete) refl

module _ (host : Host) {S : Type 0} (ip_input : S → IpHdr → (ℕ → ℕ) → ℕ → S × IpHdr × (ℕ → ℕ) × ℤ)
    (ip_send : S → ℕ → ℕ → (ℕ → ℕ) → ℤ → S) where
  receive_last :
      (hdr : IpHdr) (s : S) (bufs : List PacketBuf) (i start : ℕ) (buf : List ℕ) (q : PacketBuf)
      → 0 < start
      → start % 8 ≡ 0
      → start + length buf ≤ 65515
      → find_buffer bufs hdr 0 ≡ none
      → i < length bufs
      → IsWaiting hdr start q
      → receive_pieces host ip_input ip_send hdr s
          (set bufs i q)
          (record { start = start; bytes = buf; more = false } ∷ [])
        ≡ handed_on host ip_input ip_send s bufs i
            (store_pieces hdr q (record { start = start; bytes = buf; more = false } ∷ []))
  receive_last hdr s bufs i start buf q positive round small unknown lt waiting =
      let piece : Piece = record { start = start; bytes = buf; more = false } in
      let h : IpHdr = piece_hdr hdr piece in
      let off : fragment_off h ≡ start = piece_off hdr piece round (omega arith) in
      let q' : PacketBuf = store_fragment q h buf in
      let complete : is_complete q' ≡ true =
        is_complete-IsStored start buf q q' (omega arith)
          (store_last hdr q start buf positive round small waiting.2) in
      let found = find_kept bufs hdr i 0 piece q unknown lt waiting.0 waiting.1 in
      let came =
        input_found host ip_input ip_send s (set bufs i q) h buf (set bufs i q, i)
          (omega (arith, off)) found
        ∙ received_last host ip_input ip_send s h buf (set bufs i q) i q (omega (arith, off))
            (get_or-set_self bufs i q no_buffer lt) complete in
      let r = deliver_packet host ip_input ip_send s q' in
      ap (λ m. m >>= (λ r. receive_pieces host ip_input ip_send hdr r.0 r.1 [])) came
      ∙ ap (λ t. returns (r.0, t)) (release-set bufs i q q' r.1 lt)

  receive_next :
      (hdr : IpHdr) (s : S) (bufs : List PacketBuf) (i start : ℕ) (front : List ℕ)
      (pieces : List Piece) (q : PacketBuf)
      → 0 < start
      → start % 8 ≡ 0
      → start + length front ≤ 65515
      → find_buffer bufs hdr 0 ≡ none
      → i < length bufs
      → IsWaiting hdr start q
      → receive_pieces host ip_input ip_send hdr s
          (set bufs i q)
          (record { start = start; bytes = front; more = true } ∷ pieces)
        ≡ receive_pieces host ip_input ip_send hdr s
            (set bufs i (
              store_fragment q
                (piece_hdr hdr (record { start = start; bytes = front; more = true }))
                front))
            pieces
  receive_next hdr s bufs i start front pieces q positive round small unknown lt waiting =
      let piece : Piece = record { start = start; bytes = front; more = true } in
      let h : IpHdr = piece_hdr hdr piece in
      let off : fragment_off h ≡ start = piece_off hdr piece round (omega arith) in
      let q' : PacketBuf = store_fragment q h front in
      let still = next-IsWaiting hdr q start front positive round small waiting in
      let incomplete : is_complete q' ≡ false =
        is_complete_no q' (ap (λ (t : IpHdr). t.ip_len) still.1) in
      let found = find_kept bufs hdr i 0 piece q unknown lt waiting.0 waiting.1 in
      let came =
        input_found host ip_input ip_send s (set bufs i q) h front (set bufs i q, i)
          (omega (arith, off)) found
        ∙ received_part host ip_input ip_send s h front (set bufs i q) i q (omega (arith, off))
            (get_or-set_self bufs i q no_buffer lt) incomplete in
      ap (λ m. m >>= (λ r. receive_pieces host ip_input ip_send hdr r.0 r.1 pieces)) came
      ∙ ap (λ t. receive_pieces host ip_input ip_send hdr s t pieces) (set-set bufs i q q')

  pub receive_tail :
      (hdr : IpHdr) (s : S) (bufs : List PacketBuf) (i size start : ℕ) (buf : List ℕ)
      (pieces : List Piece) (q : PacketBuf)
      → IsTiling size start buf pieces
      → 0 < start
      → start % 8 ≡ 0
      → start + length buf ≤ 65515
      → find_buffer bufs hdr 0 ≡ none
      → i < length bufs
      → IsWaiting hdr start q
      → receive_pieces host ip_input ip_send hdr s (set bufs i q) pieces
        ≡ handed_on host ip_input ip_send s bufs i (store_pieces hdr q pieces)
  receive_tail hdr s bufs i size start buf pieces q (only b data_ h) positive round small unknown lt
        waiting =
      receive_last hdr s bufs i b data_ q positive round small unknown lt waiting
  receive_tail hdr s bufs i size start buf pieces q (next b front rest others full mult tiling)
        positive round small unknown lt waiting =
      let total = length-append front rest in
      let short : b + length front ≤ 65515 = omega (arith, total, small) in
      let piece : Piece = record { start = b; bytes = front; more = true } in
      let q' : PacketBuf = store_fragment q (piece_hdr hdr piece) front in
      receive_next hdr s bufs i b front others q positive round short unknown lt waiting
      ∙ receive_tail hdr s bufs i size (b + length front) rest others q' tiling (omega arith)
          (omega arith) (omega (arith, total, small)) unknown lt
          (next-IsWaiting hdr q b front positive round short waiting)

  pub receive_first :
      (hdr : IpHdr) (s : S) (bufs : List PacketBuf) (i : ℕ) (front : List ℕ) (pieces : List Piece)
      → length front ≤ 65515
      → find_buffer bufs hdr 0 ≡ none
      → free_buffer bufs 0 ≡ some i
      → receive_pieces host ip_input ip_send hdr s bufs
          (record { start = 0; bytes = front; more = true } ∷ pieces)
        ≡ receive_pieces host ip_input ip_send hdr s
            (set bufs i (
              store_fragment
                (fresh_buffer (buffer_at bufs i) hdr)
                (piece_hdr hdr (record { start = 0; bytes = front; more = true }))
                front))
            pieces
  receive_first hdr s bufs i front pieces small unknown free =
      let piece : Piece = record { start = 0; bytes = front; more = true } in
      let h : IpHdr = piece_hdr hdr piece in
      let off : fragment_off h ≡ 0 = piece_off hdr piece refl (omega arith) in
      let q : PacketBuf = fresh_buffer (buffer_at bufs i) hdr in
      let q' : PacketBuf = store_fragment q h front in
      let incomplete : is_complete q' ≡ false =
        is_complete_no q' (ap (λ (t : IpHdr). t.ip_len) (first_hdr q h front off)) in
      let found = get_packet_buffer_piece bufs hdr piece i unknown free in
      let came =
        input_found host ip_input ip_send s bufs h front (set bufs i q, i) (omega (arith, off))
          found
        ∙ received_part host ip_input ip_send s h front (set bufs i q) i q (omega (arith, off))
            (get_or-set_self bufs i q no_buffer
              (free_buffer_lem bufs 0 i (free ∙ ap some (omega arith))))
            incomplete in
      ap (λ m. m >>= (λ r. receive_pieces host ip_input ip_send hdr r.0 r.1 pieces)) came
      ∙ ap (λ t. receive_pieces host ip_input ip_send hdr s t pieces) (set-set bufs i q q')
