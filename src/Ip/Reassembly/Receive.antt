-- ===== src/Ip/Reassembly/Receive.antt =====
-- The fragments of a packet go through `ip_fragment_input` of src/ip_fragment.c, one after the other.
use nstack.Base.{
  ℕ, ◌+◌, ◌/◌, ◌%◌, ◌<◌, ◌≤◌, ◌≡◌, refl, ap, ◌∙◌, arith, List, [], ◌∷◌, true, false, none, some,
  ltb, set, length, get_or-set_self, Bool-cases, inl, inr,
}
use nstack.Base.Int.{ℤ}
use nstack.Base.Errno.{done}
use nstack.Base.Outcome.{returns, ◌>>=◌}
use nstack.Host.{Host}
use nstack.Ip.Header.{IpHdr}
use nstack.Ip.Fragments.Pieces.{Piece}
use nstack.Ip.Fragments.Laws.{piece_hdr}
use nstack.Ip.Reassembly.{
  set_units, PacketBuf, fragment_off, store_fragment, find_buffer, free_buffer, fresh_buffer,
  buffer_at, no_buffer,
}
use nstack.Ip.Reassembly.Laws.{set_units_lem, store_fragmap, piece_off}
use nstack.Ip.Reassembly.Buffers.{
  set-set, last_alone, free_buffer_lem, first_hdr, store_reserved, is_complete_no,
  get_packet_buffer_piece, find_kept, is_complete-missing,
}
use nstack.Ip.Reassembly.Steps.{receive_pieces, input_found, received_part}

both_units :
    (hdr : IpHdr) (q : PacketBuf) (front rest : List ℕ)
    → 0 < length front
    → length front % 8 ≡ 0
    → length front + length rest ≤ 65515
    → ((j : ℕ)
        → length front / 8 ≤ j
        → j < (length front + length rest + 7) / 8
        → q.fragmap j ≡ true)
    → (j : ℕ) → j < (length front + length rest + 7) / 8
    → (store_fragment q
          (piece_hdr hdr (record { start = 0; bytes = front; more = true }))
          front).fragmap
        j
      ≡ true
both_units hdr q front rest positive mult small kept j lt =
    let first : Piece = record { start = 0; bytes = front; more = true } in
    let h : IpHdr = piece_hdr hdr first in
    let off : fragment_off h ≡ 0 = piece_off hdr first refl (omega arith) in
    let n : ℕ = (length front + 7) / 8 in
    ap (λ m. m j) (store_fragmap q h front)
    ∙ ap (λ o. set_units q.fragmap (o / 8) n j) off
    ∙ set_units_lem n 0 j q.fragmap (elim (Bool-cases (ltb j (length front / 8))) [
      | inl below ↦ inl (omega arith, ground (arith, below))
      | inr above ↦ inr (kept j (ground (arith, above)) lt)
    ])

module _ (host : Host) {S : Type 0} (ip_input : S → IpHdr → (ℕ → ℕ) → ℕ → S × IpHdr × (ℕ → ℕ) × ℤ)
    (ip_send : S → ℕ → ℕ → (ℕ → ℕ) → ℤ → S) where
  -- Two fragments that make up a packet, the last one before the first: every unit of the packet has
  -- come, and yet nothing is delivered. The buffer stays reserved and no longer knows the length.
  pub reversed_pieces_wait :
      (hdr : IpHdr) (s : S) (bufs : List PacketBuf) (i : ℕ) (front rest : List ℕ)
      → find_buffer bufs hdr 0 ≡ none
      → free_buffer bufs 0 ≡ some i
      → 0 < length front
      → length front % 8 ≡ 0
      → length front + length rest ≤ 65515
      → (q : PacketBuf) × (q.reserved ≡ true)
        × (q.ip_hdr.ip_len ≡ 0)
        × ((j : ℕ) → j < (length front + length rest + 7) / 8 → q.fragmap j ≡ true)
        × (receive_pieces host ip_input ip_send hdr s bufs (
              record { start = length front; bytes = rest; more = false }
              ∷ record { start = 0; bytes = front; more = true }
              ∷ [])
            ≡ returns (s, set bufs i q))
  reversed_pieces_wait hdr s bufs i front rest unknown free positive mult small =
      let start : ℕ = length front in
      let lt = free_buffer_lem bufs 0 i (free ∙ ap some (omega arith)) in
      let last : Piece = record { start = start; bytes = rest; more = false } in
      let first : Piece = record { start = 0; bytes = front; more = true } in
      let h : IpHdr = piece_hdr hdr last in
      let h' : IpHdr = piece_hdr hdr first in
      let off : fragment_off h ≡ start = piece_off hdr last mult (omega arith) in
      let off' : fragment_off h' ≡ 0 = piece_off hdr first refl (omega arith) in
      let p : PacketBuf = fresh_buffer (buffer_at bufs i) hdr in
      let q : PacketBuf = store_fragment p h rest in
      let q' : PacketBuf = store_fragment q h' front in
      let alone = last_alone hdr (buffer_at bufs i) start rest positive mult small in
      let one =
        input_found host ip_input ip_send s bufs h rest (set bufs i p, i) (omega (arith, off))
          (get_packet_buffer_piece bufs hdr last i unknown free)
        ∙ received_part host ip_input ip_send s h rest (set bufs i p) i p (omega (arith, off))
            (get_or-set_self bufs i p no_buffer lt) (is_complete-missing q alone.2)
        ∙ ap (λ t. returns (s, t, done 0)) (set-set bufs i p q) in
      let two =
        input_found host ip_input ip_send s (set bufs i q) h' front (set bufs i q, i)
          (omega (arith, off'))
          (find_kept bufs hdr i (start + length rest) first q unknown lt alone.0 alone.1)
        ∙ received_part host ip_input ip_send s h' front (set bufs i q) i q (omega (arith, off'))
            (get_or-set_self bufs i q no_buffer lt)
            (is_complete_no q' (ap (λ (t : IpHdr). t.ip_len) (first_hdr q h' front off')))
        ∙ ap (λ t. returns (s, t, done 0)) (set-set bufs i q q') in
      (
        q',
        store_reserved q h' front ∙ alone.0,
        ap (λ (t : IpHdr). t.ip_len) (first_hdr q h' front off'),
        (λ j lt. both_units hdr q front rest positive mult small alone.3 j lt),
        ap (λ m. m >>= (λ r. receive_pieces host ip_input ip_send hdr r.0 r.1 (first ∷ []))) one
            ∙ ap (λ m. m >>= (λ r. receive_pieces host ip_input ip_send hdr r.0 r.1 [])) two,
      )
