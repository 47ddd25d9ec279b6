-- ===== src/Ip/Fragments/Laws.antt =====
-- The fragments that `ip_send_fragments` sends.
use nstack.Base.{
  ℕ, zero, suc, ◌+◌, ◌-◌, ◌/◌, ◌^◌, ◌<◌, ◌≤◌, ◌≡◌, refl, sym, ap, ◌∙◌, arith, List, [], ◌∷◌, Bool,
  true, false, some, ltb, leb, ◌==◌, Bool-cases, inl, inr, u16, set_bit, test_bit, length, take,
  drop, if◌then◌else◌, min, length-take, length-drop,
}
use nstack.Base.Int.{ℤ, pos, neg_part, ◌+ℤ◌}
use nstack.Host.{Host}
use nstack.Ip.Header.{IpHdr, ip_hdr_hlen, ip_hton, ip_ntoh}
use nstack.Arp.{ether_proto_ipv4}
use nstack.Link.{ip_packet, Driver, ether_data_len}
use nstack.Ip.Fragments.{
  ip_off_round, next_fragment_size, fragment_hdr, move_front, send_packet, fragment_loop,
  ip_send_fragments,
}
use nstack.Base.{take_all}
use nstack.Ip.Fragments.Moves.{move_front-take, move_front-drop, move_front-length, if_some}
use nstack.Ip.Fragments.Pieces.{Piece, cut, piece_size, IsTiling, cut-IsTiling}

-- The header of a piece, in host order.
abbrev pub piece_hdr : IpHdr → Piece → IpHdr
piece_hdr hdr piece = record hdr {
  ip_len = ip_hdr_hlen hdr + length piece.bytes;
  ip_foff = piece.start / 8 + (if piece.more then 2 ^ 13 else 0);
}

ip_hdr_hlen-le : (hdr : IpHdr) → ip_hdr_hlen hdr ≤ 60
unfolding ip_hdr_hlen
ip_hdr_hlen-le hdr = omega arith

next_fragment_size_lem :
    (bytes hlen : ℕ)
    → hlen ≤ 60
    → next_fragment_size bytes hlen ether_data_len ≡ min bytes (piece_size hlen)
unfolding next_fragment_size ip_off_round
next_fragment_size_lem bytes hlen h = ground arith

piece_size-bounds :
    (hlen : ℕ) → hlen ≤ 60 → (1432 ≤ piece_size hlen) × (hlen + piece_size hlen ≤ 1500)
piece_size-bounds hlen h = (omega arith, omega arith)

-- The header that a round stores is that of the piece.
fragment_len :
    (hdr : IpHdr) (plen : ℕ) → plen ≤ 1500 → u16 (ip_hdr_hlen hdr + plen) ≡ ip_hdr_hlen hdr + plen
fragment_len hdr plen small = omega (arith, ip_hdr_hlen-le hdr)

fragment_off :
    (left offset : ℕ) (more : Bool)
    → (left == 0) ≡ (if more then false else true)
    → offset < 2 ^ 16
    → u16 (if left == 0 then offset / 2 ^ 3 else set_bit (offset / 2 ^ 3) 13)
      ≡ offset / 8 + (if more then 2 ^ 13 else 0)
unfolding set_bit test_bit
fragment_off left offset true e low = ground arith
fragment_off left offset false e low = ground arith

fragment_hdr_lem :
    (hdr : IpHdr) (bytes : List ℕ) (left offset : ℕ) (more : Bool)
    → (left == 0) ≡ (if more then false else true)
    → length bytes ≤ 1500
    → offset < 2 ^ 16
    → fragment_hdr hdr (length bytes) left offset
      ≡ piece_hdr hdr (record { start = offset; bytes = bytes; more = more })
unfolding fragment_hdr
fragment_hdr_lem hdr bytes left offset more e small low =
    ap
      (λ n. record hdr {
        ip_len = n;
        ip_foff = u16 (if left == 0 then offset / 2 ^ 3 else set_bit (offset / 2 ^ 3) 13);
      })
      (fragment_len hdr (length bytes) small)
    ∙ ap (λ n. record hdr { ip_len = ip_hdr_hlen hdr + length bytes; ip_foff = n })
        (fragment_off left offset more e low)

module _ (host : Host) {S : Type 0} (driver : Driver S) (ether_handle dst_mac : ℕ) where
  abbrev pub send_piece : IpHdr → S → Piece → S × ℤ
  send_piece hdr s piece =
      let h = piece_hdr hdr piece in
      driver.ether_send s ether_handle dst_mac ether_proto_ipv4
        (ip_packet (ip_hton host h []) piece.bytes) h.ip_len

  -- The pieces are sent in order up to the first error; otherwise the results are added up.
  abbrev pub send_all : IpHdr → S → List Piece → ℤ → S × ℤ
  send_all hdr s [] retval = (s, retval)
  send_all hdr s (piece ∷ pieces) retval =
      let (s', eret) = send_piece hdr s piece in
      let rest = send_all hdr s' pieces (retval +ℤ eret) in
      if ltb 0 (neg_part eret) then (s', eret) else rest

  send_packet_lem :
      (s : S) (hdr : IpHdr) (bytes buf : List ℕ) (left offset : ℕ) (more : Bool)
      → (left == 0) ≡ (if more then false else true)
      → length bytes ≤ 1500
      → offset < 2 ^ 16
      → take (length bytes) buf ≡ bytes
      → send_packet host driver ether_handle dst_mac s
          (fragment_hdr hdr (length bytes) left offset)
          buf
        ≡ send_piece hdr s (record { start = offset; bytes = bytes; more = more })
  unfolding send_packet ip_hdr_hlen
  send_packet_lem s hdr bytes buf left offset more e small low same =
      ap (λ h. send_packet host driver ether_handle dst_mac s h buf)
        (fragment_hdr_lem hdr bytes left offset more e small low)
      ∙ ap
          (λ t.
            driver.ether_send s ether_handle dst_mac ether_proto_ipv4
              (ip_packet
                (ip_hton host
                  (piece_hdr hdr (record { start = offset; bytes = bytes; more = more })) [])
                t)
              (ip_hdr_hlen hdr + length bytes))
          ((let n : ip_hdr_hlen hdr + length bytes - ip_hdr_hlen hdr ≡ length bytes = omega arith in
              ap (λ k. take k buf) n)
            ∙ same)

  -- One round of the loop.
  round_lem :
      (fuel : ℕ) (hdr : IpHdr) (s : S) (buf : List ℕ) (n offset : ℕ) (retval : ℤ) (plen : ℕ)
      (r : S × ℤ)
      → next_fragment_size n (ip_hdr_hlen hdr) ether_data_len ≡ plen
      → send_packet host driver ether_handle dst_mac s
          (fragment_hdr hdr plen (n - plen) offset)
          (move_front buf offset plen)
        ≡ r
      → fragment_loop host driver ether_handle dst_mac (suc fuel) hdr s buf n offset retval ≡ (
          if ltb 0 (neg_part r.1)
          then some r
          else if n - plen == 0
          then some (r.0, retval +ℤ r.1)
          else fragment_loop host driver ether_handle dst_mac fuel hdr r.0
              (move_front buf offset plen)
              (n - plen)
              (offset + plen)
              (retval +ℤ r.1))
  unfolding fragment_loop
  round_lem fuel hdr s buf n offset retval plen r e f = rw (e, f) refl

  -- The loop sends the pieces of what is left, as long as there is fuel for every byte.
  fragment_loop_lem :
      (fuel : ℕ) (hdr : IpHdr) (s : S) (buf : List ℕ) (offset : ℕ) (retval : ℤ)
      → offset ≤ length buf
      → length buf ≤ 65515
      → length buf - offset < fuel
      → fragment_loop host driver ether_handle dst_mac fuel hdr s buf
          (length buf - offset)
          offset
          retval
        ≡ some (
            send_all hdr s
              (cut fuel (piece_size (ip_hdr_hlen hdr)) offset (drop offset buf))
              retval)
  fragment_loop_lem zero hdr s buf offset retval inside small enough = absurd (omega arith)
  fragment_loop_lem (suc fuel) hdr s buf offset retval inside small enough =
      let hlen : ℕ = ip_hdr_hlen hdr in
      let size : ℕ = piece_size hlen in
      let d : List ℕ = drop offset buf in
      let n : ℕ = length buf - offset in
      let bound = ip_hdr_hlen-le hdr in
      let sizes = piece_size-bounds hlen bound in
      let counted : length d ≡ n = length-drop offset buf in
      elim (Bool-cases (leb (length d) size)) [
        | inl fits ↦
            let piece : Piece = record { start = offset; bytes = d; more = false } in
            let r : S × ℤ = send_piece hdr s piece in
            let moved : List ℕ = move_front buf offset n in
            let plen : next_fragment_size n hlen ether_data_len ≡ n =
              ground (arith, next_fragment_size_lem n hlen bound) in
            let sent : send_packet host driver ether_handle dst_mac s
                  (fragment_hdr hdr n (n - n) offset) moved
                ≡ r =
              ap
                (λ m.
                  send_packet host driver ether_handle dst_mac s (fragment_hdr hdr m (n - n) offset)
                    moved)
                (sym counted)
              ∙ send_packet_lem s hdr d moved (n - n) offset false (ground arith)
                  (ground (arith, sizes.1)) (omega arith)
                  (ap (λ m. take m moved) counted
                    ∙ move_front-take buf offset n (omega arith)
                    ∙ take_all n d (omega arith)) in
            let finished : (n - n == 0) ≡ true = ground arith in
            round_lem fuel hdr s buf n offset retval n r plen sent
            ∙ ap
                (λ b.
                  if ltb 0 (neg_part r.1)
                  then some r
                  else if b
                  then some (r.0, retval +ℤ r.1)
                  else fragment_loop host driver ether_handle dst_mac fuel hdr r.0 moved (n - n)
                      (offset + n) (retval +ℤ r.1))
                finished
            ∙ if_some (ltb 0 (neg_part r.1)) r (r.0, retval +ℤ r.1)
            ∙ ap
                (λ b. some (
                  send_all hdr s
                    (if b
                      then piece ∷ []
                      else record { start = offset; bytes = take size d; more = true }
                        ∷ cut fuel size (offset + size) (drop size d))
                    retval))
                (sym fits)
        | inr longer ↦
            let piece : Piece = record { start = offset; bytes = take size d; more = true } in
            let r : S × ℤ = send_piece hdr s piece in
            let moved : List ℕ = move_front buf offset size in
            let full : length (take size d) ≡ size = ground (arith, length-take size d) in
            let plen : next_fragment_size n hlen ether_data_len ≡ size =
              ground (arith, next_fragment_size_lem n hlen bound) in
            let sent : send_packet host driver ether_handle dst_mac s
                  (fragment_hdr hdr size (n - size) offset) moved
                ≡ r =
              ap
                (λ m.
                  send_packet host driver ether_handle dst_mac s
                    (fragment_hdr hdr m (n - size) offset) moved)
                (sym full)
              ∙ send_packet_lem s hdr (take size d) moved (n - size) offset true (ground arith)
                  (omega (arith, sizes.1)) (omega arith)
                  (ap (λ m. take m moved) full ∙ move_front-take buf offset size (ground arith)) in
            let unfinished : (n - size == 0) ≡ false = ground arith in
            let room : offset + size ≤ length buf = ground arith in
            let same : length moved - (offset + size) ≡ n - size =
              omega (arith, move_front-length buf offset size room) in
            let later : fragment_loop host driver ether_handle dst_mac fuel hdr r.0 moved (n - size)
                  (offset + size) (retval +ℤ r.1)
                ≡ some (
                    send_all hdr r.0 (cut fuel size (offset + size) (drop size d))
                      (retval +ℤ r.1)) =
              ap
                (λ m.
                  fragment_loop host driver ether_handle dst_mac fuel hdr r.0 moved m
                    (offset + size) (retval +ℤ r.1))
                (sym same)
              ∙ fragment_loop_lem fuel hdr r.0 moved (offset + size) (retval +ℤ r.1)
                  (omega (arith, move_front-length buf offset size room))
                  (omega (arith, move_front-length buf offset size room))
                  (omega (arith, same, sizes.0))
              ∙ ap (λ t. some (send_all hdr r.0 (cut fuel size (offset + size) t) (retval +ℤ r.1)))
                  (move_front-drop buf offset size room) in
            let tail =
              send_all hdr r.0 (cut fuel size (offset + size) (drop size d)) (retval +ℤ r.1) in
            round_lem fuel hdr s buf n offset retval size r plen sent
            ∙ ap
                (λ b.
                  if ltb 0 (neg_part r.1)
                  then some r
                  else if b
                  then some (r.0, retval +ℤ r.1)
                  else fragment_loop host driver ether_handle dst_mac fuel hdr r.0 moved (n - size)
                      (offset + size) (retval +ℤ r.1))
                unfinished
            ∙ ap (λ t. if ltb 0 (neg_part r.1) then some r else t) later
            ∙ if_some (ltb 0 (neg_part r.1)) r tail
            ∙ ap
                (λ b. some (
                  send_all hdr s
                    (if b
                      then record { start = offset; bytes = d; more = false } ∷ []
                      else piece ∷ cut fuel size (offset + size) (drop size d))
                    retval))
                (sym longer)
      ]

module _ (host : Host) {S : Type 0} (driver : Driver S) (ether_handle dst_mac : ℕ) where
  -- With fuel for every byte `ip_send_fragments` returns. It sends, in order and up to the first error,
  -- pieces that make up the data, each under the packet's header with its own length, offset and flag
  -- MF and a checksum that covers them, and none longer than the link takes.
  pub ip_send_fragments_lem :
      (fuel : ℕ) (s : S) (net : IpHdr) (buf : List ℕ)
      → length buf ≤ 65515
      → length buf < fuel
      → (pieces : List Piece) × (ip_send_fragments host driver ether_handle dst_mac fuel s net buf
          ≡ some (send_all host driver ether_handle dst_mac (ip_ntoh host net).0 s pieces (pos 0)))
        × IsTiling (piece_size (ip_hdr_hlen net)) 0 buf pieces
        × (ip_hdr_hlen net + piece_size (ip_hdr_hlen net) ≤ ether_data_len)
  unfolding ip_send_fragments ip_ntoh ip_hdr_hlen
  ip_send_fragments_lem fuel s net buf small enough =
      let hdr : IpHdr = (ip_ntoh host net).0 in
      let sizes = piece_size-bounds (ip_hdr_hlen hdr) (ip_hdr_hlen-le hdr) in
      (
        cut fuel (piece_size (ip_hdr_hlen hdr)) 0 buf,
        (let e : length buf ≡ length buf - 0 = omega arith in
              ap (λ m. fragment_loop host driver ether_handle dst_mac fuel hdr s buf m 0 (pos 0)) e)
            ∙ fragment_loop_lem host driver ether_handle dst_mac fuel hdr s buf 0 (pos 0)
                (omega arith) small (omega arith),
        cut-IsTiling fuel ((1499 - ip_hdr_hlen hdr) / 8) 0 buf (omega (arith, sizes.0)) enough,
        sizes.1,
      )
