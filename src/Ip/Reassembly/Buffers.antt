-- ===== src/Ip/Reassembly/Buffers.antt =====
-- The packet buffers of src/ip_fragment.c: how the one of a packet is found, and what its fragments
-- leave in it.
use nstack.Base.{
  ℕ, zero, suc, ◌+◌, ◌/◌, ◌%◌, ◌<◌, ◌≤◌, ◌≡◌, refl, ap, ◌∙◌, arith, List, [], ◌∷◌, Bool, true,
  false, ◌&&◌, none, some, ◌==◌, u16, set, length, length-append, get_or-set_self, Bool-cases, inl,
  inr,
}
use nstack.Ip.Header.{IpHdr}
use nstack.Ip.Fragments.Pieces.{Piece, IsTiling, only, next}
use nstack.Ip.Fragments.Laws.{piece_hdr}
use nstack.Ip.Reassembly.{
  set_units, fragmap_set, fragmap_init, PacketBuf, fragment_off, more_fragments, store_fragment,
  is_complete, all_units, same_packet, find_buffer, free_buffer, fresh_buffer, buffer_at, no_buffer,
  get_packet_buffer, release_packet_buffer,
}
use nstack.Ip.Reassembly.Laws.{
  store_pieces, set_units_lem, store_fragmap, IsStored, store_bits, all_units_lem, piece_off,
  piece_more,
}

pub set-set :
    (bufs : List PacketBuf) (i : ℕ) (p q : PacketBuf) → set (set bufs i p) i q ≡ set bufs i q
set-set [] i p q = refl
set-set (b ∷ bufs) zero p q = refl
set-set (b ∷ bufs) (suc i) p q = ap (λ t. b ∷ t) (set-set bufs i p q)

-- The buffer of a packet is found again after it was filled.
pub find_buffer-set :
    (bufs : List PacketBuf) (hdr : IpHdr) (k i : ℕ) (p : PacketBuf)
    → find_buffer bufs hdr k ≡ none
    → i < length bufs
    → (p.reserved && same_packet p.ip_hdr hdr) ≡ true
    → find_buffer (set bufs i p) hdr k ≡ some (k + i)
unfolding find_buffer
find_buffer-set [] hdr k i p free lt same = absurd (omega (arith, lt))
find_buffer-set (b ∷ bufs) hdr k zero p free lt same = rw same (ap some (omega arith))
find_buffer-set (b ∷ bufs) hdr k (suc i) p free lt same =
    elim (Bool-cases (b.reserved && same_packet b.ip_hdr hdr)) [
      | inl e ↦ absurd (ground (arith, e, free))
      | inr e ↦ rw e (
          find_buffer-set bufs hdr (k + 1) i p (rw e at free) (omega arith) same
          ∙ ap some (omega arith))
    ]

pub free_buffer_lem :
    (bufs : List PacketBuf) (k i : ℕ) → free_buffer bufs k ≡ some (k + i) → i < length bufs
unfolding free_buffer
free_buffer_lem [] k i h = (cc)
free_buffer_lem (b ∷ bufs) k zero h = omega arith
free_buffer_lem (b ∷ bufs) k (suc i) h = elim (Bool-cases b.reserved) [
  | inl e ↦ omega (arith, free_buffer_lem bufs (k + 1) i ((rw e at h) ∙ ap some (omega arith)))
  | inr e ↦ absurd (ground (arith, e, h))
]

-- The fragments of a packet are told apart by fields that they share.
pub find_buffer-piece :
    (bufs : List PacketBuf) (hdr : IpHdr) (piece : Piece) (k : ℕ)
    → find_buffer bufs (piece_hdr hdr piece) k ≡ find_buffer bufs hdr k
unfolding find_buffer same_packet
find_buffer-piece [] hdr piece k = refl
find_buffer-piece (b ∷ bufs) hdr piece k = rw (find_buffer-piece bufs hdr piece (k + 1)) refl

-- The header of a packet of which not all has come.
abbrev pub waiting_hdr : IpHdr → IpHdr
waiting_hdr hdr = record hdr { ip_len = 0; ip_foff = 0 }

pub same_packet-len :
    (hdr : IpHdr) (n : ℕ) → same_packet (record hdr { ip_len = n; ip_foff = 0 }) hdr ≡ true
unfolding same_packet
same_packet-len hdr n = ground arith

pub first_hdr :
    (p : PacketBuf) (hdr : IpHdr) (buf : List ℕ)
    → fragment_off hdr ≡ 0
    → (store_fragment p hdr buf).ip_hdr ≡ waiting_hdr hdr
unfolding store_fragment
first_hdr p hdr buf off = let e : (fragment_off hdr == 0) ≡ true = ground arith in rw e refl

pub middle_hdr :
    (p : PacketBuf) (hdr : IpHdr) (buf : List ℕ)
    → 0 < fragment_off hdr
    → more_fragments hdr ≡ true
    → (store_fragment p hdr buf).ip_hdr ≡ p.ip_hdr
unfolding store_fragment
middle_hdr p hdr buf off more =
    let e : (fragment_off hdr == 0) ≡ false = ground arith in rw (e, more) refl

pub last_hdr :
    (p : PacketBuf) (hdr : IpHdr) (buf : List ℕ)
    → 0 < fragment_off hdr
    → more_fragments hdr ≡ false
    → (store_fragment p hdr buf).ip_hdr
      ≡ record p.ip_hdr { ip_len = u16 (length buf + fragment_off hdr) }
unfolding store_fragment
last_hdr p hdr buf off last =
    let e : (fragment_off hdr == 0) ≡ false = ground arith in rw (e, last) refl

pub store_reserved :
    (p : PacketBuf) (hdr : IpHdr) (buf : List ℕ) → (store_fragment p hdr buf).reserved ≡ p.reserved
unfolding store_fragment
store_reserved p hdr buf = elim (Bool-cases (fragment_off hdr == 0)) [
  | inl zero_off ↦ rw zero_off refl
  | inr later ↦ elim (Bool-cases (more_fragments hdr)) [
    | inl more ↦ rw (later, more) refl
    | inr last ↦ rw (later, last) refl
  ]
]

-- Without a length the packet is not complete; with one it is when every unit has come.
pub is_complete_no : (p : PacketBuf) → p.ip_hdr.ip_len ≡ 0 → is_complete p ≡ false
unfolding is_complete
is_complete_no p e = let z : (p.ip_hdr.ip_len == 0) ≡ true = ground arith in rw z refl

pub is_complete-IsStored :
    (start : ℕ) (buf : List ℕ) (p q : PacketBuf)
    → 0 < start + length buf
    → IsStored start buf p q
    → is_complete q ≡ true
unfolding is_complete
is_complete-IsStored start buf p q positive stored =
    let len = stored.0 in
    let known : (q.ip_hdr.ip_len == 0) ≡ false = ground (arith, len) in
    let units_set : all_units q.fragmap ((q.ip_hdr.ip_len + 7) / 8) ≡ true =
      all_units_lem ((q.ip_hdr.ip_len + 7) / 8) q.fragmap
        (λ j lt. stored.1 j (omega (arith, lt, len))) in
    rw (known, units_set) refl

pub get_packet_buffer_known :
    (bufs : List PacketBuf) (hdr : IpHdr) (i : ℕ)
    → find_buffer bufs hdr 0 ≡ some i
    → get_packet_buffer bufs hdr ≡ some (bufs, i)
unfolding get_packet_buffer
get_packet_buffer_known bufs hdr i e = rw (e, get_packet_buffer) refl

pub get_packet_buffer_new :
    (bufs : List PacketBuf) (hdr : IpHdr) (i : ℕ)
    → find_buffer bufs hdr 0 ≡ none
    → free_buffer bufs 0 ≡ some i
    → get_packet_buffer bufs hdr ≡ some (set bufs i (fresh_buffer (buffer_at bufs i) hdr), i)
unfolding get_packet_buffer
get_packet_buffer_new bufs hdr i e f = rw (e, get_packet_buffer) (rw (f, get_packet_buffer) refl)

pub get_packet_buffer_piece :
    (bufs : List PacketBuf) (hdr : IpHdr) (piece : Piece) (i : ℕ)
    → find_buffer bufs hdr 0 ≡ none
    → free_buffer bufs 0 ≡ some i
    → get_packet_buffer bufs (piece_hdr hdr piece)
      ≡ some (set bufs i (fresh_buffer (buffer_at bufs i) hdr), i)
unfolding fresh_buffer
get_packet_buffer_piece bufs hdr piece i unknown free =
    get_packet_buffer_new bufs (piece_hdr hdr piece) i
      (find_buffer-piece bufs hdr piece 0 ∙ unknown) free

pub fresh_buffer-reserved : (p : PacketBuf) (hdr : IpHdr) → (fresh_buffer p hdr).reserved ≡ true
unfolding fresh_buffer
fresh_buffer-reserved p hdr = refl

-- A buffer that holds the first `start` bytes of a packet.
abbrev pub IsWaiting : IpHdr → ℕ → PacketBuf → Type 0
IsWaiting hdr start q =
    (q.reserved ≡ true)
    × (q.ip_hdr ≡ waiting_hdr hdr)
    × ((j : ℕ) → j < start / 8 → q.fragmap j ≡ true)

pub find_kept :
    (bufs : List PacketBuf) (hdr : IpHdr) (i n : ℕ) (piece : Piece) (q : PacketBuf)
    → find_buffer bufs hdr 0 ≡ none
    → i < length bufs
    → q.reserved ≡ true
    → q.ip_hdr ≡ record hdr { ip_len = n; ip_foff = 0 }
    → get_packet_buffer (set bufs i q) (piece_hdr hdr piece) ≡ some (set bufs i q, i)
find_kept bufs hdr i n piece q unknown lt reserved hdr_same =
    let same : (q.reserved && same_packet q.ip_hdr hdr) ≡ true =
      rw (reserved, hdr_same) (same_packet-len hdr n) in
    get_packet_buffer_known (set bufs i q) (piece_hdr hdr piece) i (
      find_buffer-piece (set bufs i q) hdr piece 0
      ∙ find_buffer-set bufs hdr 0 i q unknown lt same
      ∙ ap some (omega arith))

pub next-IsWaiting :
    (hdr : IpHdr) (q : PacketBuf) (start : ℕ) (buf : List ℕ)
    → 0 < start
    → start % 8 ≡ 0
    → start + length buf ≤ 65515
    → IsWaiting hdr start q
    → IsWaiting hdr
        (start + length buf)
        (store_fragment q (piece_hdr hdr (record { start = start; bytes = buf; more = true })) buf)
next-IsWaiting hdr q start buf positive round small waiting =
    let piece : Piece = record { start = start; bytes = buf; more = true } in
    let h : IpHdr = piece_hdr hdr piece in
    let off : fragment_off h ≡ start = piece_off hdr piece round (omega arith) in
    (
      store_reserved q h buf ∙ waiting.0,
      middle_hdr q h buf (omega (arith, off)) (piece_more hdr piece (omega arith)) ∙ waiting.1,
      (λ j lt. store_bits hdr q start buf true round small waiting.2 j (omega arith)),
    )

pub release-set :
    (bufs : List PacketBuf) (i : ℕ) (p q r : PacketBuf)
    → i < length bufs
    → release_packet_buffer (set (set (set bufs i p) i q) i r) i
      ≡ set bufs i (record r { reserved = false })
unfolding release_packet_buffer
release-set bufs i p q r lt =
    let e : set (set (set bufs i p) i q) i r ≡ set bufs i r =
      set-set (set bufs i p) i q r ∙ set-set bufs i p r in
    ap (λ t. set t i (record (buffer_at t i) { reserved = false })) e
    ∙ set-set bufs i r (record (buffer_at (set bufs i r) i) { reserved = false })
    ∙ ap (λ b. set bufs i (record b { reserved = false })) (get_or-set_self bufs i r no_buffer lt)

pub store_tail_hdr :
    (hdr : IpHdr) (size start : ℕ) (buf : List ℕ) (pieces : List Piece) (q : PacketBuf)
    → IsTiling size start buf pieces
    → 0 < start
    → start % 8 ≡ 0
    → start + length buf ≤ 65515
    → q.ip_hdr ≡ waiting_hdr hdr
    → (store_pieces hdr q pieces).ip_hdr ≡ record hdr { ip_len = start + length buf; ip_foff = 0 }
store_tail_hdr hdr size start buf pieces q (only b bytes h) positive round small waiting =
    let piece : Piece = record { start = b; bytes = bytes; more = false } in
    let off : fragment_off (piece_hdr hdr piece) ≡ b = piece_off hdr piece round (omega arith) in
    last_hdr q (piece_hdr hdr piece) bytes (omega (arith, off)) (piece_more hdr piece (omega arith))
    ∙ ap (λ (n : ℕ). record q.ip_hdr { ip_len = n }) (omega (arith, off))
    ∙ ap (λ (t : IpHdr). record t { ip_len = b + length bytes }) waiting
store_tail_hdr hdr size start buf pieces q (next b front rest others full mult tiling) positive
      round small waiting =
    let total = length-append front rest in
    let piece : Piece = record { start = b; bytes = front; more = true } in
    let h : IpHdr = piece_hdr hdr piece in
    let off : fragment_off h ≡ b = piece_off hdr piece round (omega arith) in
    let q' : PacketBuf = store_fragment q h front in
    store_tail_hdr hdr size (b + length front) rest others q' tiling (omega arith) (omega arith)
      (omega (arith, total, small))
      (middle_hdr q h front (omega (arith, off)) (piece_more hdr piece (omega arith)) ∙ waiting)
    ∙ ap (λ (n : ℕ). record hdr { ip_len = n; ip_foff = 0 }) (omega (arith, total))

pub first-IsWaiting :
    (hdr : IpHdr) (p : PacketBuf) (front : List ℕ)
    → length front ≤ 65515
    → IsWaiting hdr (length front) (
        store_fragment
          (fresh_buffer p hdr)
          (piece_hdr hdr (record { start = 0; bytes = front; more = true }))
          front)
first-IsWaiting hdr p front small =
    let piece : Piece = record { start = 0; bytes = front; more = true } in
    let h : IpHdr = piece_hdr hdr piece in
    let off : fragment_off h ≡ 0 = piece_off hdr piece refl (omega arith) in
    let q : PacketBuf = fresh_buffer p hdr in
    (
      store_reserved q h front ∙ fresh_buffer-reserved p hdr,
      first_hdr q h front off,
      (λ j lt.
          store_bits hdr q 0 front true refl (omega arith) (λ i none. absurd (omega arith)) j
            (omega arith)),
    )

-- Storing a fragment leaves the units before it alone.
pub set_units-before :
    (n i j : ℕ) (fragmap : ℕ → Bool) → j < i → set_units fragmap i n j ≡ fragmap j
unfolding set_units fragmap_set
set_units-before zero i j fragmap lt = refl
set_units-before (suc n) i j fragmap lt =
    set_units-before n (i + 1) j (fragmap_set fragmap i) (omega arith) ∙ ground arith

all_units-missing :
    (n : ℕ) (fragmap : ℕ → Bool) → 0 < n → fragmap 0 ≡ false → all_units fragmap n ≡ false
unfolding all_units
all_units-missing zero fragmap lt e = absurd (omega arith)
all_units-missing (suc zero) fragmap lt e = rw e refl
all_units-missing (suc (suc n)) fragmap lt e =
    let rest = all_units-missing (suc n) fragmap (omega arith) e in
    elim (Bool-cases (fragmap (suc n))) [ inl f ↦ rw (f, rest) refl | inr f ↦ rw f refl ]

pub is_complete-missing : (p : PacketBuf) → p.fragmap 0 ≡ false → is_complete p ≡ false
unfolding is_complete
is_complete-missing p e = elim (Bool-cases (p.ip_hdr.ip_len == 0)) [
  | inl z ↦ rw z refl
  | inr known ↦
      let missing : all_units p.fragmap ((p.ip_hdr.ip_len + 7) / 8) ≡ false =
        all_units-missing ((p.ip_hdr.ip_len + 7) / 8) p.fragmap (ground (arith, known)) e in
      rw (known, missing) refl
]

-- The last fragment comes first: the buffer knows the length, and the first unit is missing.
pub last_alone :
    (hdr : IpHdr) (p : PacketBuf) (start : ℕ) (rest : List ℕ)
    → 0 < start
    → start % 8 ≡ 0
    → start + length rest ≤ 65515
    → let q =
        store_fragment
          (fresh_buffer p hdr)
          (piece_hdr hdr (record { start = start; bytes = rest; more = false }))
          rest in
      (q.reserved ≡ true)
      × (q.ip_hdr ≡ record hdr { ip_len = start + length rest; ip_foff = 0 })
      × (q.fragmap 0 ≡ false)
      × ((j : ℕ) → start / 8 ≤ j → j < (start + length rest + 7) / 8 → q.fragmap j ≡ true)
unfolding fresh_buffer fragmap_init
last_alone hdr p start rest positive round small =
    let piece : Piece = record { start = start; bytes = rest; more = false } in
    let h : IpHdr = piece_hdr hdr piece in
    let off : fragment_off h ≡ start = piece_off hdr piece round (omega arith) in
    let q : PacketBuf = fresh_buffer p hdr in
    let n : ℕ = (length rest + 7) / 8 in
    (
      store_reserved q h rest,
      last_hdr q h rest (omega (arith, off)) (piece_more hdr piece (omega arith))
          ∙ ap (λ (n : ℕ). record q.ip_hdr { ip_len = n }) (omega (arith, off)),
      ap (λ m. m 0) (store_fragmap q h rest)
          ∙ ap (λ o. set_units q.fragmap (o / 8) n 0) off
          ∙ set_units-before n (start / 8) 0 q.fragmap (omega arith),
      (λ j from to.
          ap (λ m. m j) (store_fragmap q h rest)
          ∙ ap (λ o. set_units q.fragmap (o / 8) n j) off
          ∙ set_units_lem n (start / 8) j q.fragmap (inl (from, omega arith))),
    )
