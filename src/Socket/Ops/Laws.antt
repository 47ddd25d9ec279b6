-- ===== src/Socket/Ops/Laws.antt =====
-- The sockets' queues keep datagrams in order, and where their size is not checked.
use nstack.Base.{
  ℕ, ◌≡◌, ◌<◌, ◌≤◌, ◌⊎◌, inl, inr, refl, arith, ap, sym, ◌∙◌, Bool-cases, List, [], ◌∷◌, ◌++◌, Bool,
  false, u32, min, drop, length, take, if◌then◌else◌,
}
use nstack.Base.Errno.{enobufs, done, fail}
use nstack.QueueR.Fifo.{
  Ring, IsRing, contents, capacity, discard, put_cases, front_cases, discard_lem,
}
use nstack.Socket.{SockAddr, Dgram}
use nstack.Socket.Ops.{
  waits, overflows, back, nstack_sock_dgram_input, nstack_recvfrom, nstack_sendto,
}

take-length {ℓ} : {A : Type ℓ} (xs : List A) → take (length xs) xs ≡ xs
take-length [] = refl
take-length (x ∷ xs) = ap (λ t. x ∷ t) (take-length xs)

-- The datagram that `nstack_sendto` writes.
abbrev pub sent_dgram : List ℕ → SockAddr → Dgram
sent_dgram buffer dest_addr = record {
  srcaddr = record { inet4_addr = 0; port = 0 };
  dstaddr = dest_addr;
  buf = buffer;
}

-- On a valid queue, `nstack_sendto` refuses more than 4096 bytes, waits while the queue is full,
-- writes past its block for more than 4072 bytes, and else appends the datagram to the queue and
-- returns its size.
nstack_sendto_cases :
    (q : Ring Dgram) (buffer : List ℕ) (dest_addr : SockAddr)
    → IsRing q
    → let out = nstack_sendto q buffer dest_addr in
      ((4096 < length buffer) × (out ≡ back (q, fail enobufs)))
      ⊎ ((length buffer ≤ 4096) × (length (contents q) ≡ capacity q) × (out ≡ waits))
      ⊎ ((4072 < length buffer)
          × (length buffer ≤ 4096)
          × (length (contents q) < capacity q)
          × (out ≡ overflows))
      ⊎ ((length buffer ≤ 4072)
          × (length (contents q) < capacity q)
          × ((q' : Ring Dgram) × (out ≡ back (q', done (length buffer)))
              × (contents q' ≡ contents q ++ (sent_dgram buffer dest_addr ∷ []))
              × IsRing q'))
unfolding nstack_sendto
nstack_sendto_cases q buffer dest_addr v = elim (put_cases q (sent_dgram buffer dest_addr) v) [
  | inl (full, e) ↦ ground (arith, full, e)
  | inr (q', e, c, room, k, v') ↦ ground (arith, e, c, room, v')
]

-- On a valid queue, `nstack_recvfrom` waits while the queue is empty; else it copies the oldest
-- datagram, up to the room that there is, with its sender, and takes it out of the queue unless it
-- only peeks.
pub nstack_recvfrom_cases :
    (q : Ring Dgram) (len : ℕ) (peek : Bool)
    → IsRing q
    → let out = nstack_recvfrom q len peek in
      ((contents q ≡ []) × (out ≡ waits))
      ⊎ ((dgram : Dgram) × (rest : List Dgram) × (q' : Ring Dgram) × (contents q ≡ dgram ∷ rest)
          × (out
              ≡ back (
                q',
                take (u32 (min len (length dgram.buf))) dgram.buf,
                dgram.srcaddr,
                u32 (min len (length dgram.buf)),
              ))
          × (contents q' ≡ (if peek then dgram ∷ rest else rest))
          × IsRing q')
unfolding nstack_recvfrom
nstack_recvfrom_cases q len peek v = elim (front_cases q v) [
  | inl (none_left, e) ↦ inl (none_left, rw (e, nstack_recvfrom) refl)
  | inr (dgram, rest, c, e) ↦
      let (left, _, _, ring) = discard_lem q 1 v in
      inr (
        dgram,
        rest,
        if peek then q else (discard q 1).1,
        c,
        rw (e, nstack_recvfrom) refl,
        elim (Bool-cases peek) [
          | inl only ↦ rw only c
          | inr take_it ↦ rw take_it (left ∙ ap (drop 1) c)
        ],
        elim (Bool-cases peek) [ inl only ↦ rw only v | inr take_it ↦ rw take_it ring ],
      )
]

-- A datagram of at most 4072 bytes that is handed to a socket with a valid, empty queue of some
-- capacity is what the next `nstack_recvfrom` with room for it reads, with its sender, and the
-- queue is empty again.
pub nstack_recvfrom-nstack_sock_dgram_input :
    (q : Ring Dgram) (sock_addr srcaddr : SockAddr) (bytes : List ℕ) (len : ℕ)
    → IsRing q
    → contents q ≡ []
    → 0 < capacity q
    → length bytes ≤ 4072
    → length bytes ≤ len
    → (q' q'' : Ring Dgram) × (nstack_sock_dgram_input q sock_addr srcaddr bytes
        ≡ back (q', done 0))
      × (nstack_recvfrom q' len false ≡ back (q'', bytes, srcaddr, length bytes))
      × (contents q'' ≡ [])
unfolding nstack_sock_dgram_input nstack_recvfrom
nstack_recvfrom-nstack_sock_dgram_input q sock_addr srcaddr bytes len v none_left room small fits =
    let dgram : Dgram = record { srcaddr = srcaddr; dstaddr = sock_addr; buf = bytes } in
    elim (put_cases q dgram v) [
      | inl (full, e) ↦ absurd (ground (arith, ap length none_left))
      | inr (q', e, c, less, k, v') ↦
          let c' : contents q' ≡ dgram ∷ [] = c ∙ ap (λ t. t ++ (dgram ∷ [])) none_left in
          elim (front_cases q' v') [
            | inl (none', e') ↦ absurd (ground (arith, sym c' ∙ none'))
            | inr (dgram', rest, c'', e') ↦
                let same : dgram' ≡ dgram = ground (arith, sym c'' ∙ c') in
                let all : u32 (min len (length bytes)) ≡ length bytes = omega arith in
                (
                  q',
                  (discard q' 1).1,
                  ground (arith, e),
                  rw (e', nstack_recvfrom) (rw (same, all, take-length bytes) refl),
                  (discard_lem q' 1 v').0 ∙ ap (drop 1) c',
                )
          ]
    ]
