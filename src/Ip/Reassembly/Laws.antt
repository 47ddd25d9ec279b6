-- ===== src/Ip/Reassembly/Laws.antt =====
-- What `ip_fragment_input` of src/ip_fragment.c stores of the fragments of `ip_send_fragments`.
use nstack.Base.{
  ℕ, zero, suc, ◌+◌, ◌-◌, ◌*◌, ◌/◌, ◌%◌, ◌^◌, ◌<◌, ◌≤◌, ◌≡◌, refl, sym, ap, ◌∙◌, ◌⊎◌, inl, inr,
  arith, List, [], ◌∷◌, ◌++◌, Bool, true, false, ltb, leb, ◌==◌, u16, test_bit, get_or, length,
  length-append, Bool-cases,
}
use nstack.Ip.Header.{IpHdr}
use nstack.Ip.Fragments.Pieces.{Piece, cut, cut-IsTiling, IsTiling, only, next}
use nstack.Ip.Fragments.Laws.{piece_hdr}
use nstack.Ip.Reassembly.{
  PacketBuf, set_units, all_units, copy_payload, fragment_off, more_fragments, store_fragment,
  is_complete, fragmap_set,
}

-- The pieces stored one after the other.
abbrev pub store_pieces : IpHdr → PacketBuf → List Piece → PacketBuf
store_pieces hdr p [] = p
store_pieces hdr p (piece ∷ pieces) =
    store_pieces hdr (store_fragment p (piece_hdr hdr piece) piece.bytes) pieces

pub set_units_lem :
    (n i j : ℕ) (fragmap : ℕ → Bool)
    → ((i ≤ j) × (j < i + n)) ⊎ (fragmap j ≡ true)
    → set_units fragmap i n j ≡ true
unfolding set_units fragmap_set
set_units_lem zero i j fragmap (inl h) = absurd (omega (arith, h.0, h.1))
set_units_lem zero i j fragmap (inr e) = e
set_units_lem (suc n) i j fragmap h =
    set_units_lem n (i + 1) j (fragmap_set fragmap i) (ground (arith, h))

pub all_units_lem :
    (n : ℕ) (fragmap : ℕ → Bool) → ((j : ℕ) → j < n → fragmap j ≡ true) → all_units fragmap n ≡ true
unfolding all_units
all_units_lem zero fragmap h = refl
all_units_lem (suc n) fragmap h =
    rw (h n (omega arith)) (all_units_lem n fragmap (λ j lt. h j (omega arith)))

copy_before :
    (payload : ℕ → ℕ) (off : ℕ) (buf : List ℕ) (j : ℕ)
    → j < off
    → copy_payload payload off buf j ≡ payload j
unfolding copy_payload
copy_before payload off buf j h = ground arith

copy_inside :
    (payload : ℕ → ℕ) (off : ℕ) (buf : List ℕ) (j : ℕ)
    → j < length buf
    → copy_payload payload off buf (off + j) ≡ get_or buf j 0
unfolding copy_payload
copy_inside payload off buf j h =
    let a : leb off (off + j) ≡ true = ground arith in
    let b : ltb (off + j) (off + length buf) ≡ true = ground arith in
    let c : off + j - off ≡ j = omega arith in rw (a, b, c) refl

pub piece_off :
    (hdr : IpHdr) (piece : Piece)
    → piece.start % 8 ≡ 0
    → piece.start < 2 ^ 16
    → fragment_off (piece_hdr hdr piece) ≡ piece.start
piece_off hdr piece e h = elim (Bool-cases piece.more) [
  | inl m ↦ ground arith
  | inr m ↦ ground arith
]

pub piece_more :
    (hdr : IpHdr) (piece : Piece)
    → piece.start < 2 ^ 16
    → more_fragments (piece_hdr hdr piece) ≡ piece.more
unfolding test_bit
piece_more hdr piece h = elim (Bool-cases piece.more) [
  | inl m ↦ ground arith
  | inr m ↦ ground arith
]

store_payload :
    (p : PacketBuf) (hdr : IpHdr) (buf : List ℕ)
    → (store_fragment p hdr buf).payload ≡ copy_payload p.payload (fragment_off hdr) buf
unfolding store_fragment
store_payload p hdr buf = elim (Bool-cases (fragment_off hdr == 0)) [
  | inl zero_off ↦ rw zero_off refl
  | inr later ↦ elim (Bool-cases (more_fragments hdr)) [
    | inl more ↦ rw (later, more) refl
    | inr last ↦ rw (later, last) refl
  ]
]

pub store_fragmap :
    (p : PacketBuf) (hdr : IpHdr) (buf : List ℕ)
    → (store_fragment p hdr buf).fragmap
      ≡ set_units p.fragmap (fragment_off hdr / 8) ((length buf + 7) / 8)
unfolding store_fragment
store_fragmap p hdr buf = elim (Bool-cases (fragment_off hdr == 0)) [
  | inl zero_off ↦ rw zero_off refl
  | inr later ↦ elim (Bool-cases (more_fragments hdr)) [
    | inl more ↦ rw (later, more) refl
    | inr last ↦ rw (later, last) refl
  ]
]

store_length :
    (p : PacketBuf) (hdr : IpHdr) (buf : List ℕ)
    → (fragment_off hdr == 0) ≡ false
    → more_fragments hdr ≡ false
    → (store_fragment p hdr buf).ip_hdr.ip_len ≡ u16 (length buf + fragment_off hdr)
unfolding store_fragment
store_length p hdr buf later last = rw (later, last) refl

get_or-front : (xs ys : List ℕ) (j : ℕ) → j < length xs → get_or (xs ++ ys) j 0 ≡ get_or xs j 0
get_or-front [] ys j h = absurd (omega arith)
get_or-front (x ∷ xs) ys zero h = refl
get_or-front (x ∷ xs) ys (suc j) h = get_or-front xs ys j (omega arith)

get_or-back : (xs ys : List ℕ) (j : ℕ) → get_or (xs ++ ys) (length xs + j) 0 ≡ get_or ys j 0
get_or-back [] ys j = ap (λ k. get_or ys k 0) (omega arith)
get_or-back (x ∷ xs) ys j =
    let e : suc (length xs) + j ≡ suc (length xs + j) = omega arith in
    ap (λ k. get_or (x ∷ (xs ++ ys)) k 0) e ∙ get_or-back xs ys j

-- What storing a tiling of `buf` from `start` on leaves of a buffer.
abbrev pub IsStored : ℕ → List ℕ → PacketBuf → PacketBuf → Type 0
IsStored start buf p q =
    (q.ip_hdr.ip_len ≡ start + length buf)
    × ((j : ℕ) → j < (start + length buf + 7) / 8 → q.fragmap j ≡ true)
    × ((j : ℕ) → j < start → q.payload j ≡ p.payload j)
    × ((j : ℕ) → j < length buf → q.payload (start + j) ≡ get_or buf j 0)

filled_bits :
    (start len j : ℕ) (fragmap : ℕ → Bool)
    → start % 8 ≡ 0
    → ((j : ℕ) → j < start / 8 → fragmap j ≡ true)
    → j < (start + len + 7) / 8
    → ((start / 8 ≤ j) × (j < start / 8 + (len + 7) / 8)) ⊎ (fragmap j ≡ true)
filled_bits start len j fragmap round filled lt = elim (Bool-cases (ltb j (start / 8))) [
  | inl below ↦ inr (filled j (ground (arith, below)))
  | inr above ↦ inl (ground (arith, above), omega arith)
]

pub store_bits :
    (hdr : IpHdr) (p : PacketBuf) (start : ℕ) (buf : List ℕ) (more : Bool)
    → start % 8 ≡ 0
    → start + length buf ≤ 65515
    → ((j : ℕ) → j < start / 8 → p.fragmap j ≡ true)
    → (j : ℕ) → j < (start + length buf + 7) / 8
    → (store_fragment p
          (piece_hdr hdr (record { start = start; bytes = buf; more = more }))
          buf).fragmap
        j
      ≡ true
store_bits hdr p start buf more round small filled j lt =
    let piece : Piece = record { start = start; bytes = buf; more = more } in
    let h : IpHdr = piece_hdr hdr piece in
    let off : fragment_off h ≡ start = piece_off hdr piece round (omega arith) in
    ap (λ m. m j) (store_fragmap p h buf)
    ∙ ap (λ o. set_units p.fragmap (o / 8) ((length buf + 7) / 8) j) off
    ∙ set_units_lem ((length buf + 7) / 8) (start / 8) j p.fragmap
        (filled_bits start (length buf) j p.fragmap round filled lt)

store_keeps :
    (hdr : IpHdr) (p : PacketBuf) (start : ℕ) (buf : List ℕ) (more : Bool)
    → start % 8 ≡ 0
    → start + length buf ≤ 65515
    → (j : ℕ) → j < start
    → (store_fragment p
          (piece_hdr hdr (record { start = start; bytes = buf; more = more }))
          buf).payload
        j
      ≡ p.payload j
store_keeps hdr p start buf more round small j lt =
    let piece : Piece = record { start = start; bytes = buf; more = more } in
    let h : IpHdr = piece_hdr hdr piece in
    let off : fragment_off h ≡ start = piece_off hdr piece round (omega arith) in
    ap (λ m. m j) (store_payload p h buf)
    ∙ ap (λ o. copy_payload p.payload o buf j) off
    ∙ copy_before p.payload start buf j lt

store_copies :
    (hdr : IpHdr) (p : PacketBuf) (start : ℕ) (buf : List ℕ) (more : Bool)
    → start % 8 ≡ 0
    → start + length buf ≤ 65515
    → (j : ℕ) → j < length buf
    → (store_fragment p
          (piece_hdr hdr (record { start = start; bytes = buf; more = more }))
          buf).payload
        (start + j)
      ≡ get_or buf j 0
store_copies hdr p start buf more round small j lt =
    let piece : Piece = record { start = start; bytes = buf; more = more } in
    let h : IpHdr = piece_hdr hdr piece in
    let off : fragment_off h ≡ start = piece_off hdr piece round (omega arith) in
    ap (λ m. m (start + j)) (store_payload p h buf)
    ∙ ap (λ o. copy_payload p.payload o buf (start + j)) off
    ∙ copy_inside p.payload start buf j lt

pub store_last :
    (hdr : IpHdr) (p : PacketBuf) (start : ℕ) (buf : List ℕ)
    → 0 < start
    → start % 8 ≡ 0
    → start + length buf ≤ 65515
    → ((j : ℕ) → j < start / 8 → p.fragmap j ≡ true)
    → IsStored start buf p
        (store_pieces hdr p (record { start = start; bytes = buf; more = false } ∷ []))
store_last hdr p start buf positive round small filled =
    let piece : Piece = record { start = start; bytes = buf; more = false } in
    let h : IpHdr = piece_hdr hdr piece in
    let off : fragment_off h ≡ start = piece_off hdr piece round (omega arith) in
    let last : more_fragments h ≡ false = piece_more hdr piece (omega arith) in
    let later : (fragment_off h == 0) ≡ false = ground (arith, off) in
    let total : u16 (length buf + fragment_off h) ≡ start + length buf = omega (arith, off) in
    (
      store_length p h buf later last ∙ total,
      (λ j lt. store_bits hdr p start buf false round small filled j lt),
      (λ j lt. store_keeps hdr p start buf false round small j lt),
      (λ j lt. store_copies hdr p start buf false round small j lt),
    )

pub store_next :
    (hdr : IpHdr) (p q : PacketBuf) (start : ℕ) (front rest : List ℕ)
    → start % 8 ≡ 0
    → start + length (front ++ rest) ≤ 65515
    → IsStored
        (start + length front)
        rest
        (store_fragment p
          (piece_hdr hdr (record { start = start; bytes = front; more = true }))
          front)
        q
    → IsStored start (front ++ rest) p q
store_next hdr p q start front rest round small done =
    let total = length-append front rest in
    let short : start + length front ≤ 65515 = omega (arith, small, total) in
    (
      done.0 ∙ omega (arith, total),
      (λ j lt. done.1 j (omega (arith, lt, total))),
      (λ j lt. done.2 j (omega (arith, lt)) ∙ store_keeps hdr p start front true round short j lt),
      (λ j lt. elim (Bool-cases (ltb j (length front))) [
        | inl inside ↦
            let less : j < length front = ground (arith, inside) in
            done.2 (start + j) (omega (arith, less))
            ∙ store_copies hdr p start front true round short j less
            ∙ sym (get_or-front front rest j less)
        | inr beyond ↦
            let k : ℕ = j - length front in
            let e : j ≡ length front + k = ground (arith, beyond) in
            let e' : start + j ≡ start + length front + k = omega (arith, e) in
            ap q.payload e'
            ∙ done.3 k (omega (arith, e, lt, total))
            ∙ sym (get_or-back front rest k)
            ∙ ap (λ i. get_or (front ++ rest) i 0) (sym e)
      ]),
    )

store_tail :
    (hdr : IpHdr) (size start : ℕ) (buf : List ℕ) (pieces : List Piece) (p : PacketBuf)
    → IsTiling size start buf pieces
    → 0 < size
    → 0 < start
    → start % 8 ≡ 0
    → start + length buf ≤ 65515
    → ((j : ℕ) → j < start / 8 → p.fragmap j ≡ true)
    → IsStored start buf p (store_pieces hdr p pieces)
store_tail hdr size start buf pieces p (only s b h) some_size positive round small filled =
    store_last hdr p s b positive round small filled
store_tail hdr size start buf pieces p (next s front rest others full mult tiling) some_size
      positive round small filled =
    let total = length-append front rest in
    let piece : Piece = record { start = s; bytes = front; more = true } in
    let p' : PacketBuf = store_fragment p (piece_hdr hdr piece) front in
    store_next hdr p (store_pieces hdr p' others) s front rest round small (
      store_tail hdr size (s + length front) rest others p' tiling some_size (omega arith)
        (omega arith) (omega (arith, total))
        (λ j lt. store_bits hdr p s front true round (omega (arith, total)) filled j (omega arith)))

-- The pieces of a packet that is cut in pieces of `size` bytes.
store_tiling :
    (hdr : IpHdr) (size : ℕ) (buf : List ℕ) (pieces : List Piece) (p : PacketBuf)
    → IsTiling size 0 buf pieces
    → 0 < size
    → size < length buf
    → length buf ≤ 65515
    → IsStored 0 buf p (store_pieces hdr p pieces)
store_tiling hdr size buf pieces p (only start b h) some_size long small =
    absurd (omega (arith, h, long))
store_tiling hdr size buf pieces p (next start front rest others full mult tiling) some_size long
      small =
    let total = length-append front rest in
    let piece : Piece = record { start = 0; bytes = front; more = true } in
    let p' : PacketBuf = store_fragment p (piece_hdr hdr piece) front in
    store_next hdr p (store_pieces hdr p' others) 0 front rest refl (omega arith) (
      store_tail hdr size (0 + length front) rest others p' tiling some_size (omega arith)
        (omega arith) (omega (arith, total))
        (λ j lt.
          store_bits hdr p 0 front true refl (omega (arith, total)) (λ i none. absurd (omega arith))
            j (omega arith)))

-- Storing, in order, the pieces of a packet that is longer than one piece and has at most 65515 bytes
-- of data, whatever the buffer held before: its length is then the length of the data, the packet
-- counts as complete, and the payload is the data.
pub store_pieces-cut :
    (hdr : IpHdr) (units : ℕ) (buf : List ℕ) (p : PacketBuf)
    → 0 < units
    → units * 8 < length buf
    → length buf ≤ 65515
    → let q = store_pieces hdr p (cut (length buf + 1) (units * 8) 0 buf) in
      (q.ip_hdr.ip_len ≡ length buf)
      × (is_complete q ≡ true)
      × ((j : ℕ) → j < length buf → q.payload j ≡ get_or buf j 0)
unfolding is_complete
store_pieces-cut hdr units buf p positive long small =
    let pieces : List Piece = cut (length buf + 1) (units * 8) 0 buf in
    let q : PacketBuf = store_pieces hdr p pieces in
    let stored : IsStored 0 buf p q =
      store_tiling hdr (units * 8) buf pieces p
        (cut-IsTiling (length buf + 1) units 0 buf positive (omega arith)) (omega arith) long
        small in
    let len : q.ip_hdr.ip_len ≡ length buf = stored.0 ∙ omega arith in
    let known : (q.ip_hdr.ip_len == 0) ≡ false = ground (arith, len) in
    let units_set : all_units q.fragmap ((q.ip_hdr.ip_len + 7) / 8) ≡ true =
      all_units_lem ((q.ip_hdr.ip_len + 7) / 8) q.fragmap
        (λ j lt. stored.1 j (omega (arith, lt, len))) in
    (len, rw (known, units_set) refl, (λ j lt. ap q.payload (omega arith) ∙ stored.3 j lt))
