-- ===== src/Nstack/Laws.antt =====
-- What starting and the rounds of the threads do.
use nstack.Base.{
  ℕ, ◌≡◌, inl, inr, refl, sym, ap, ap₂, ◌∙◌, List, [], ◌∷◌, map, drop, ◌&&◌, none, some, ltb,
  Bool-cases, if◌then◌else◌,
}
use nstack.Base.Int.{ℤ}
use nstack.QueueR.Fifo.{IsRing, contents, front, discard, front_cases, discard_lem}
use nstack.Socket.{SockAddr, Dgram}
use nstack.Nstack.{Sock, xip_proto_last, egress_sock, egress_pass}

-- What waits at the front of the queues of the sockets, in the order of the sockets.
abbrev pub fronts : List Sock → List (Sock × Dgram)
fronts [] = []
fronts (sock ∷ socks) =
    let rest = fronts socks in
    elim (contents sock.egress_q) [ [] ↦ rest | dgram ∷ queued ↦ (sock, dgram) ∷ rest ]

fronts_empty :
    (sock : Sock) (socks : List Sock)
    → contents sock.egress_q ≡ []
    → fronts (sock ∷ socks) ≡ fronts socks
fronts_empty sock socks e = rw (e, fronts) refl

fronts_full :
    (sock : Sock) (dgram : Dgram) (queued : List Dgram) (socks : List Sock)
    → contents sock.egress_q ≡ dgram ∷ queued
    → fronts (sock ∷ socks) ≡ (sock, dgram) ∷ fronts socks
fronts_full sock dgram queued socks e = rw (e, fronts) refl

-- Every queue of the list is a ring.
abbrev pub AllRings : List Sock → Type 0
AllRings [] = Unit {0}
AllRings (sock ∷ socks) = IsRing sock.egress_q × AllRings socks

module _ {S : Type 0} (proto_send : ℕ → S → SockAddr → Dgram → S × ℤ) where
  -- The datagrams sent one after the other, those of a socket without a known protocol left out.
  abbrev pub send_fronts : List (Sock × Dgram) → S → S
  send_fronts [] s = s
  send_fronts (first ∷ rest) s =
      let sock = first.0 in
      let known = ltb 0 sock.sock_proto && ltb sock.sock_proto xip_proto_last in
      send_fronts rest
        (if known then (proto_send sock.sock_proto s sock.sock_addr first.1).0 else s)

  -- The contents of the queues.
  abbrev pub queues : List Sock → List (List Dgram)
  queues = map (λ sock. contents sock.egress_q)

  -- What the socket's protocol makes of the datagram.
  abbrev pub send_first : Sock → Dgram → S → S
  send_first sock dgram s =
      if ltb 0 sock.sock_proto && ltb sock.sock_proto xip_proto_last
      then (proto_send sock.sock_proto s sock.sock_addr dgram).0
      else s

  abbrev pub emptied : Sock → Sock
  emptied sock = record sock { egress_q = (discard sock.egress_q 1).1 }

  pub egress_sock_full :
      (sock : Sock) (s : S) (dgram : Dgram)
      → front sock.egress_q ≡ some dgram
      → egress_sock proto_send sock s ≡ (emptied sock, send_first sock dgram s)
  unfolding egress_sock
  egress_sock_full sock s dgram f = elim (Bool-cases (ltb 0 sock.sock_proto)) [
    | inl low ↦ elim (Bool-cases (ltb sock.sock_proto xip_proto_last)) [
      | inl high ↦ rw (f, egress_sock, low, high) refl
      | inr high ↦ rw (f, egress_sock, low, high) refl
    ]
    | inr low ↦ rw (f, egress_sock, low) refl
  ]

  egress_sock_empty :
      (sock : Sock) (s : S) → front sock.egress_q ≡ none → egress_sock proto_send sock s ≡ (sock, s)
  unfolding egress_sock
  egress_sock_empty sock s f = rw (f, egress_sock) refl

  -- A socket's part of a round.
  HasRound : List Sock → S → List Sock × S → Type 0
  HasRound socks s result =
      (result.1 ≡ send_fronts (fronts socks) s)
      × (queues result.0 ≡ map (drop 1) (queues socks))
      × AllRings result.0

  round_empty :
      (sock : Sock) (socks : List Sock) (s : S) (later : List Sock × S)
      → IsRing sock.egress_q
      → contents sock.egress_q ≡ []
      → HasRound socks s later
      → HasRound (sock ∷ socks) s (sock ∷ later.0, later.1)
  unfolding HasRound
  round_empty sock socks s later ring none_left h = (
    h.0 ∙ ap (λ l. send_fronts l s) (sym (fronts_empty sock socks none_left)),
    ap₂ (λ a b. a ∷ b) (none_left ∙ sym (ap (drop 1) none_left)) h.1,
    (ring, h.2),
  )

  round_full :
      (sock : Sock) (dgram : Dgram) (queued : List Dgram) (socks : List Sock) (s : S)
      (later : List Sock × S)
      → IsRing sock.egress_q
      → contents sock.egress_q ≡ dgram ∷ queued
      → HasRound socks (send_first sock dgram s) later
      → HasRound (sock ∷ socks) s (emptied sock ∷ later.0, later.1)
  unfolding HasRound
  round_full sock dgram queued socks s later ring first h =
      let gone = discard_lem sock.egress_q 1 ring in
      (
        h.0 ∙ ap (λ l. send_fronts l s) (sym (fronts_full sock dgram queued socks first)),
        ap₂ (λ a b. a ∷ b) gone.0 h.1,
        (gone.3, h.2),
      )

  -- One round of the egress thread takes the datagram at the front out of every queue that holds one,
  -- and nothing else; the queues stay rings. Of these datagrams it sends those of sockets with a known
  -- protocol, in the order of the sockets and whatever sending returns; those of other sockets are
  -- discarded unsent.
  pub egress_pass_lem :
      (socks : List Sock) (s : S)
      → AllRings socks
      → ((egress_pass proto_send socks s).1 ≡ send_fronts (fronts socks) s)
        × (queues (egress_pass proto_send socks s).0 ≡ map (drop 1) (queues socks))
        × AllRings (egress_pass proto_send socks s).0
  unfolding egress_pass HasRound
  egress_pass_lem [] s rings = (refl, refl, tt)
  egress_pass_lem (sock ∷ socks) s rings = elim (front_cases sock.egress_q rings.0) [
    | inl (none_left, f) ↦
        rw (egress_sock_empty sock s f, egress_pass)
          (round_empty sock socks s (egress_pass proto_send socks s) rings.0 none_left
            (egress_pass_lem socks s rings.1))
    | inr (dgram, queued, first, f) ↦
        let s1 : S = send_first sock dgram s in
        rw (egress_sock_full sock s dgram f, egress_pass)
          (round_full sock dgram queued socks s (egress_pass proto_send socks s1) rings.0 first
            (egress_pass_lem socks s1 rings.1))
  ]
