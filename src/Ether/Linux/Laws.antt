-- ===== src/Ether/Linux/Laws.antt =====
-- What is received of a frame that was sent.
use mathlib.Core.Path.{subst}
use nstack.Base.{
  zero, suc, ℕ, ◌+◌, ◌-◌, ◌^◌, ◌<◌, ◌≤◌, ◌≡◌, ◌⊎◌, inl, inr, refl, sym, ap, ◌∙◌, arith, List, [],
  ◌∷◌, ◌++◌, true, false, none, some, ltb, Bool-cases, max, min, length, length-append,
  length-replicate, take, drop, take-append, drop-append, replicate, length-take,
}
use nstack.Base.Int.{pos}
use nstack.Ether.Fcs.{ether_fcs}
use nstack.Ether.Linux.{
  ether_header_len, ether_fcs_len, store16, store32, frame_size, frame_body, ether_frame,
  same_bytes, Received, load16_be, without_header, copied, receive_frame, receive_loop,
  EtherReceive, received, came, ether_receive,
}

append_assoc : (xs ys zs : List ℕ) → (xs ++ ys) ++ zs ≡ xs ++ (ys ++ zs)
append_assoc [] ys zs = refl
append_assoc (x ∷ xs) ys zs = ap (λ t. x ∷ t) (append_assoc xs ys zs)

abbrev filler : ℕ → List ℕ
filler n = replicate (frame_size n - ether_fcs_len - ether_header_len - n) 0

length-frame_body :
    (dst src : List ℕ) (proto : ℕ) (buf : List ℕ)
    → length dst ≡ 6
    → length src ≡ 6
    → length (frame_body dst src proto buf) ≡ 14 + max (length buf) 56
unfolding frame_body frame_size
length-frame_body dst src proto buf d s = omega (
  arith,
  length-append dst (src ++ (store16 proto ++ (buf ++ filler (length buf)))),
  length-append src (store16 proto ++ (buf ++ filler (length buf))),
  length-append buf (filler (length buf)),
  length-replicate {A = ℕ} (frame_size (length buf) - 4 - 14 - length buf) 0,
)

-- The frame in its parts.
frame_parts :
    (dst src : List ℕ) (proto : ℕ) (buf fcs : List ℕ)
    → frame_body dst src proto buf ++ fcs
      ≡ dst ++ (src ++ (store16 proto ++ (buf ++ (filler (length buf) ++ fcs))))
unfolding frame_body
frame_parts dst src proto buf fcs =
    append_assoc dst (src ++ (store16 proto ++ (buf ++ filler (length buf)))) fcs
    ∙ ap (λ t. dst ++ t)
        (append_assoc src (store16 proto ++ (buf ++ filler (length buf))) fcs
          ∙ ap (λ t. src ++ (store16 proto ++ t)) (append_assoc buf (filler (length buf)) fcs))

abbrev whole : List ℕ → List ℕ → ℕ → List ℕ → List ℕ → List ℕ
whole dst src proto buf tail = dst ++ (src ++ (store16 proto ++ (buf ++ tail)))

module _ (dst src : List ℕ) (proto : ℕ) (buf tail : List ℕ) (d : length dst ≡ 6)
    (s : length src ≡ 6) (p : proto < 2 ^ 16) where
  behind_dst : drop 6 (whole dst src proto buf tail) ≡ src ++ (store16 proto ++ (buf ++ tail))
  behind_dst = drop-append dst (src ++ (store16 proto ++ (buf ++ tail))) 6 0 d

  behind_src :
      (n : ℕ)
      → drop (6 + (6 + n)) (whole dst src proto buf tail) ≡ drop n (store16 proto ++ (buf ++ tail))
  behind_src n =
      drop-append dst (src ++ (store16 proto ++ (buf ++ tail))) 6 (6 + n) d
      ∙ drop-append src (store16 proto ++ (buf ++ tail)) 6 n s

  whole_dst : take 6 (whole dst src proto buf tail) ≡ dst
  whole_dst = take-append dst (src ++ (store16 proto ++ (buf ++ tail))) 6 d

  whole_src : take 6 (drop 6 (whole dst src proto buf tail)) ≡ src
  whole_src = ap (take 6) behind_dst ∙ take-append src (store16 proto ++ (buf ++ tail)) 6 s

  whole_proto : load16_be (drop 12 (whole dst src proto buf tail)) ≡ proto
  whole_proto = ap load16_be (behind_src 0) ∙ omega (arith, p)

  whole_data : drop 14 (whole dst src proto buf tail) ≡ buf ++ tail
  whole_data = behind_src 2

  length-whole : length (whole dst src proto buf tail) ≡ 14 + length buf + length tail
  length-whole = omega (
    arith,
    length-append dst (src ++ (store16 proto ++ (buf ++ tail))),
    length-append src (store16 proto ++ (buf ++ tail)),
    length-append buf tail,
  )

-- What another interface makes of a frame.
abbrev pub IsReceived : List ℕ → List ℕ → ℕ → List ℕ → EtherReceive → Type 0
IsReceived dst src proto buf result =
    (r : Received) × (result ≡ received r)
    × (r.h_dst ≡ dst)
    × (r.h_src ≡ src)
    × (r.h_proto ≡ proto)
    × (take (length buf) r.buf ≡ buf)
    × (r.retval ≡ pos (min (max (length buf) 56 + 4) 1500))

take-take : (n m : ℕ) (xs : List ℕ) → n ≤ m → take n (take m xs) ≡ take n xs
take-take zero m xs h = refl
take-take (suc n) zero xs h = absurd (omega arith)
take-take (suc n) (suc m) [] h = refl
take-take (suc n) (suc m) (x ∷ xs) h = ap (λ t. x ∷ t) (take-take n m xs (omega arith))

-- A frame in the array of `ether_receive`.
receive_frame-IsReceived :
    (dst src : List ℕ) (proto : ℕ) (buf tail : List ℕ) (size bsize : ℕ)
    → length dst ≡ 6
    → length src ≡ 6
    → proto < 2 ^ 16
    → length buf ≤ bsize
    → bsize < 2 ^ 32
    → length buf ≤ 1500
    → size ≡ 14 + min (max (length buf) 56 + 4) 1500
    → IsReceived dst src proto buf (receive_frame (whole dst src proto buf tail) size bsize)
unfolding receive_frame without_header copied
receive_frame-IsReceived dst src proto buf tail size bsize d s p room few short long =
    let w : List ℕ = whole dst src proto buf tail in
    let no_header : without_header size ≡ pos (size - 14) = ground (arith, without_header) in
    let count : copied (pos (size - 14)) bsize ≡ min (size - 14) bsize = ground arith in
    let within : ltb 1500 (min (size - 14) bsize) ≡ false = ground arith in
    (
      record {
        h_dst = take 6 w;
        h_src = take 6 (drop 6 w);
        h_proto = load16_be (drop 12 w);
        buf = take (min (size - 14) bsize) (drop 14 w);
        retval = pos (size - 14);
      },
      rw (receive_frame, no_header, count, within) refl,
      whole_dst dst src proto buf tail d s p,
      whole_src dst src proto buf tail d s p,
      whole_proto dst src proto buf tail d s p,
      take-take (length buf) (min (size - 14) bsize) (drop 14 w) (omega arith)
          ∙ ap (take (length buf)) (whole_data dst src proto buf tail d s p)
          ∙ take-append buf tail (length buf) refl,
      ap pos (omega arith),
    )

take-append_more :
    (xs ys : List ℕ) (n m : ℕ) → length xs ≡ n → take (n + m) (xs ++ ys) ≡ xs ++ take m ys
take-append_more [] ys zero m h = let e : 0 + m ≡ m = omega arith in ap (λ k. take k ys) e
take-append_more [] ys (suc n) m h = absurd (omega arith)
take-append_more (x ∷ xs) ys zero m h = absurd (omega arith)
take-append_more (x ∷ xs) ys (suc n) m h =
    let e : suc n + m ≡ suc (n + m) = omega arith in
    ap (λ k. take k (x ∷ xs ++ ys)) e ∙ ap (λ t. x ∷ t) (take-append_more xs ys n m (omega arith))

module _ (dst src : List ℕ) (proto : ℕ) (buf tail : List ℕ) (d : length dst ≡ 6)
    (s : length src ≡ 6) (short : length buf ≤ 1500) where
  -- What `recvfrom` writes of a frame: its end is cut off.
  abbrev cut : List ℕ
  cut = take (1500 - length buf) tail

  take-whole : take 1514 (whole dst src proto buf tail) ≡ whole dst src proto buf cut
  take-whole =
      let n : ℕ = 1500 - length buf in
      let sum : 1514 ≡ 6 + (6 + (2 + (length buf + n))) = omega arith in
      ap (λ k. take k (whole dst src proto buf tail)) sum
      ∙ take-append_more dst (src ++ (store16 proto ++ (buf ++ tail))) 6
          (6 + (2 + (length buf + n))) d
      ∙ ap (λ t. dst ++ t)
          (take-append_more src (store16 proto ++ (buf ++ tail)) 6 (2 + (length buf + n)) s
            ∙ ap (λ t. src ++ t)
                (take-append_more (store16 proto) (buf ++ tail) 2 (length buf + n) refl
                  ∙ ap (λ t. store16 proto ++ t) (take-append_more buf tail (length buf) n refl)))

  -- What stands behind the frame in the array comes behind its end.
  whole_behind :
      (end rest : List ℕ)
      → whole dst src proto buf end ++ rest ≡ whole dst src proto buf (end ++ rest)
  whole_behind end rest =
      append_assoc dst (src ++ (store16 proto ++ (buf ++ end))) rest
      ∙ ap (λ t. dst ++ t)
          (append_assoc src (store16 proto ++ (buf ++ end)) rest
            ∙ ap (λ t. src ++ (store16 proto ++ t)) (append_assoc buf end rest))

whole-IsReceived :
    (dst src : List ℕ) (proto : ℕ) (buf tail el_mac frame : List ℕ) (bsize : ℕ)
    → length dst ≡ 6
    → length src ≡ 6
    → proto < 2 ^ 16
    → same_bytes src el_mac ≡ false
    → length buf ≤ bsize
    → bsize < 2 ^ 32
    → length buf ≤ 1500
    → length buf + length tail ≡ max (length buf) 56 + 4
    → IsReceived dst src proto buf
        (ether_receive (some el_mac) bsize frame (came (whole dst src proto buf tail) ∷ []))
unfolding ether_receive receive_loop
whole-IsReceived dst src proto buf tail el_mac frame bsize d s p other room few short size =
    let w : List ℕ = whole dst src proto buf tail in
    let end : List ℕ = cut dst src proto buf tail d s short in
    let got : List ℕ = take 1514 w in
    let rest : List ℕ = drop (length got) frame in
    let held : got ++ rest ≡ whole dst src proto buf (end ++ rest) =
      ap (λ t. t ++ rest) (take-whole dst src proto buf tail d s short)
      ∙ whole_behind dst src proto buf tail d s short end rest in
    let long : length got ≡ 14 + min (max (length buf) 56 + 4) 1500 =
      omega (arith, length-take 1514 w, length-whole dst src proto buf tail d s p) in
    let foreign : same_bytes (take 6 (drop 6 (got ++ rest))) el_mac ≡ false =
      ap (λ t. same_bytes (take 6 (drop 6 t)) el_mac) held
      ∙ ap (λ t. same_bytes t el_mac) (whole_src dst src proto buf (end ++ rest) d s p)
      ∙ other in
    let taken : ether_receive (some el_mac) bsize frame (came w ∷ [])
        ≡ receive_frame (got ++ rest) (length got) bsize =
      rw (foreign, ether_receive, receive_loop) refl in
    subst (IsReceived dst src proto buf)
      (sym (taken ∙ ap (λ t. receive_frame t (length got) bsize) held))
      (receive_frame-IsReceived dst src proto buf (end ++ rest) (length got) bsize d s p room few
        short long)

over_long : (buf : List ℕ) → ltb 1518 (frame_size (length buf)) ≡ true → 1500 < length buf
unfolding frame_size
over_long buf h = ground arith

over_short : (buf : List ℕ) → ltb 1518 (frame_size (length buf)) ≡ false → length buf ≤ 1500
unfolding frame_size
over_short buf h = ground arith

filled_size :
    (buf fcs : List ℕ)
    → length fcs ≡ 4
    → length buf + length (filler (length buf) ++ fcs) ≡ max (length buf) 56 + 4
unfolding frame_size
filled_size buf fcs h = omega (
  arith,
  length-append (filler (length buf)) fcs,
  length-replicate {A = ℕ} (frame_size (length buf) - 4 - 14 - length buf) 0,
)

-- A payload of up to 1500 bytes goes into a frame that ends with its check sequence. Another
-- interface that receives it, with room for the payload (`bsize` fits 32 bits) and another address
-- than the sender's, gets the two addresses, the protocol and the payload back, whatever its array
-- held before; the size that it reports is 4 more than the payload or 56, whichever is larger, but
-- 1500 at most, since longer frames are cut off at 1514 bytes. A longer payload is refused.
pub ether_receive-ether_frame :
    (dst src : List ℕ) (proto : ℕ) (buf el_mac memory : List ℕ) (bsize : ℕ)
    → length dst ≡ 6
    → length src ≡ 6
    → proto < 2 ^ 16
    → same_bytes src el_mac ≡ false
    → length buf ≤ bsize
    → bsize < 2 ^ 32
    → ((length buf ≤ 1500)
        × ((frame : List ℕ) × (ether_frame dst src proto buf ≡ some frame)
            × (frame
                ≡ frame_body dst src proto buf
                  ++ store32 (ether_fcs (frame_body dst src proto buf)))
            × IsReceived dst src proto buf
                (ether_receive (some el_mac) bsize memory (came frame ∷ []))))
      ⊎ ((1500 < length buf) × (ether_frame dst src proto buf ≡ none))
unfolding ether_frame
ether_receive-ether_frame dst src proto buf el_mac memory bsize d s p other room few =
    let body : List ℕ = frame_body dst src proto buf in
    let fcs : List ℕ = store32 (ether_fcs body) in
    elim (Bool-cases (ltb 1518 (frame_size (length buf)))) [
      | inl longer ↦ inr (over_long buf longer, rw (longer, ether_frame) refl)
      | inr fits ↦ inl (
        over_short buf fits,
        (
          body ++ fcs,
          rw (fits, ether_frame) refl,
          refl,
          subst
              (λ w.
                IsReceived dst src proto buf
                  (ether_receive (some el_mac) bsize memory (came w ∷ [])))
              (sym (frame_parts dst src proto buf fcs))
              (whole-IsReceived dst src proto buf (filler (length buf) ++ fcs) el_mac memory bsize d
                s p other room few (over_short buf fits) (filled_size buf fcs refl)),
        ),
      )
    ]
