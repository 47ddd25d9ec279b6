-- ===== src/Ip/Fragments/Pieces.antt =====
-- The pieces that a packet is cut into.
use nstack.Base.{
  ℕ, zero, suc, ◌+◌, ◌-◌, ◌*◌, ◌/◌, ◌%◌, ◌<◌, ◌≤◌, ◌≡◌, sym, arith, List, [], ◌∷◌, ◌++◌, Bool, true,
  false, leb, Bool-cases, inl, inr, length, take, drop, if◌then◌else◌, length-take, length-drop,
  take-append-drop,
}
use mathlib.Core.Path.{subst}

-- A piece of a packet: where it starts in the data, its bytes, and whether more follow.
pub record Piece : Type 0 where
  pub start : ℕ
  pub bytes : List ℕ
  pub more : Bool

-- The data cut into pieces of `size` bytes, the last one with what is left.
abbrev pub cut : ℕ → ℕ → ℕ → List ℕ → List Piece
cut zero size start buf = []
cut (suc fuel) size start buf =
    if leb (length buf) size
    then record { start = start; bytes = buf; more = false } ∷ []
    else record { start = start; bytes = take size buf; more = true }
      ∷ cut fuel size (start + size) (drop size buf)

-- The size of a piece under a header of `hlen` bytes.
abbrev pub piece_size : ℕ → ℕ
piece_size hlen = (1499 - hlen) / 8 * 8

-- Pieces that make up data from an offset on: each starts where the one before ends, all but the last
-- say that more follow and have `size` bytes, a multiple of 8, and the last one is not longer.
pub data IsTiling (size : ℕ) : ℕ → List ℕ → List Piece → Type 0 where
  only :
      (start : ℕ) (buf : List ℕ)
      → length buf ≤ size
      → IsTiling size start buf (record { start = start; bytes = buf; more = false } ∷ [])
  next :
      (start : ℕ) (front rest : List ℕ) (pieces : List Piece)
      → length front ≡ size
      → length front % 8 ≡ 0
      → IsTiling size (start + length front) rest pieces
      → IsTiling size start
          (front ++ rest)
          (record { start = start; bytes = front; more = true } ∷ pieces)

pub cut-IsTiling :
    (fuel units start : ℕ) (buf : List ℕ)
    → 0 < units
    → length buf < fuel
    → IsTiling (units * 8) start buf (cut fuel (units * 8) start buf)
cut-IsTiling zero units start buf positive enough = absurd (omega arith)
cut-IsTiling (suc fuel) units start buf positive enough =
    elim (Bool-cases (leb (length buf) (units * 8))) [
      | inl fits ↦ rw fits (only start buf (ground arith))
      | inr longer ↦
          let size : ℕ = units * 8 in
          let full : length (take size buf) ≡ size = ground (arith, length-take size buf) in
          let rest : IsTiling size (start + length (take size buf)) (drop size buf)
              (cut fuel size (start + size) (drop size buf)) =
            subst
              (λ m.
                IsTiling size (start + m) (drop size buf)
                  (cut fuel size (start + size) (drop size buf)))
              (sym full)
              (cut-IsTiling fuel units (start + size) (drop size buf) positive
                (ground (arith, length-drop size buf))) in
          let whole =
            next start (take size buf) (drop size buf)
              (cut fuel size (start + size) (drop size buf)) full (omega arith) rest in
          rw longer (
            subst
              (λ b. IsTiling size start b (
                record { start = start; bytes = take size buf; more = true }
                ∷ cut fuel size (start + size) (drop size buf)))
              (take-append-drop size buf) whole)
    ]
