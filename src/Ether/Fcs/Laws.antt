-- ===== src/Ether/Fcs/Laws.antt =====
-- `ether_fcs` is the check sequence of IEEE 802.3.
use Prim.Native.Nat.{bit_xor}
use nstack.Base.{
  ℕ, zero, suc, ◌+◌, ◌*◌, ◌/◌, ◌%◌, ◌<◌, ◌≡◌, refl, sym, ap, ap₂, ◌∙◌, arith, List, [], ◌∷◌, Bool,
  true, false, ◌&&◌, Bool-cases, inl, inr, ◌==◌, ==_iff, get_or, length, if◌then◌else◌,
}
use nstack.Base.Xor.{
  bit_xor_lem, bit_xor-zero, bit_xor_half, bit_xor_odd, bit_xor_comm, bit_xor_assoc, bit_xor_swap,
}
use nstack.Checksum.Laws.{AllBytes}
use nstack.Ether.Fcs.{
  crc_table, fcs_step, fcs_loop, ether_fcs, ones, crc_bit, crc_bits, crc_register, crc32,
}

-- What a bit that leaves the register adds to it.
abbrev poly : ℕ → ℕ
poly r = if r % 2 == 1 then 0xedb88320 else 0

poly_xor : (x y : ℕ) → poly (bit_xor x y) ≡ bit_xor (poly x) (poly y)
poly_xor x y = elim (Bool-cases (x % 2 == 1)) [
  | inl p ↦ elim (Bool-cases (y % 2 == 1)) [
    | inl q ↦
        let e : (bit_xor x y % 2 == 1) ≡ false = ground (arith, bit_xor_odd x y) in
        rw (p, q, e) refl
    | inr q ↦
        let e : (bit_xor x y % 2 == 1) ≡ true = ground (arith, bit_xor_odd x y) in rw (p, q, e) refl
  ]
  | inr p ↦ elim (Bool-cases (y % 2 == 1)) [
    | inl q ↦
        let e : (bit_xor x y % 2 == 1) ≡ true = ground (arith, bit_xor_odd x y) in rw (p, q, e) refl
    | inr q ↦
        let e : (bit_xor x y % 2 == 1) ≡ false = ground (arith, bit_xor_odd x y) in
        rw (p, q, e) refl
  ]
]

-- The division is linear.
crc_bit_xor : (x y : ℕ) → crc_bit (bit_xor x y) ≡ bit_xor (crc_bit x) (crc_bit y)
unfolding crc_bit
crc_bit_xor x y =
    ap₂ bit_xor (bit_xor_half x y) (poly_xor x y) ∙ bit_xor_swap (x / 2) (y / 2) (poly x) (poly y)

crc_bits_xor : (n x y : ℕ) → crc_bits n (bit_xor x y) ≡ bit_xor (crc_bits n x) (crc_bits n y)
crc_bits_xor zero x y = refl
crc_bits_xor (suc n) x y =
    ap (crc_bits n) (crc_bit_xor x y) ∙ crc_bits_xor n (crc_bit x) (crc_bit y)

crc_bit_double : (m : ℕ) → crc_bit (2 * m) ≡ m
unfolding crc_bit
crc_bit_double m =
    let e : (2 * m % 2 == 1) ≡ false = ground arith in
    let h : 2 * m / 2 ≡ m = omega arith in rw (e, h) (bit_xor-zero m)

crc_bits_shift : (m : ℕ) → crc_bits 4 (16 * m) ≡ m
crc_bits_shift m =
    let e : 16 * m ≡ 2 * (2 * (2 * (2 * m))) = omega arith in
    rw
      (
        e,
        crc_bit_double (2 * (2 * (2 * m))),
        crc_bit_double (2 * (2 * m)),
        crc_bit_double (2 * m),
        crc_bit_double m,
      )
      refl

-- Four bits at a time.
sixteenth : (a : ℕ) → a / 2 / 2 / 2 / 2 ≡ a / 16
sixteenth a = omega arith

bit_xor_high : (a b : ℕ) → bit_xor a b / 16 ≡ bit_xor (a / 16) (b / 16)
bit_xor_high a b = omega (
  arith,
  bit_xor_half a b,
  bit_xor_half (a / 2) (b / 2),
  bit_xor_half (a / 2 / 2) (b / 2 / 2),
  bit_xor_half (a / 2 / 2 / 2) (b / 2 / 2 / 2),
  ap₂ bit_xor (sixteenth a) (sixteenth b),
)

bit_xor_low : (a b : ℕ) → bit_xor a b % 16 ≡ bit_xor a (b % 16) % 16
bit_xor_low a b = omega (
  arith,
  bit_xor_lem a b,
  bit_xor_lem (a / 2) (b / 2),
  bit_xor_lem (a / 2 / 2) (b / 2 / 2),
  bit_xor_lem (a / 2 / 2 / 2) (b / 2 / 2 / 2),
  bit_xor_lem a (b % 16),
  bit_xor_lem (a / 2) (b % 16 / 2),
  bit_xor_lem (a / 2 / 2) (b % 16 / 2 / 2),
  bit_xor_lem (a / 2 / 2 / 2) (b % 16 / 2 / 2 / 2),
)

-- High and low digits of a sum.
bit_xor_parts : (h n : ℕ) → n < 16 → bit_xor (16 * h) n ≡ 16 * h + n
bit_xor_parts h n p =
    let e : 16 * h / 16 ≡ h = omega arith in
    let f : n / 16 ≡ 0 = omega arith in
    let g : 16 * h % 16 ≡ 0 = omega arith in
    omega (
      arith,
      bit_xor_high (16 * h) n,
      ap₂ bit_xor e f,
      bit_xor-zero h,
      bit_xor_comm (16 * h) n,
      bit_xor_low n (16 * h),
      ap (bit_xor n) g,
      bit_xor-zero n,
    )

crc_bits_four : (x : ℕ) → crc_bits 4 x ≡ bit_xor (x / 16) (crc_bits 4 (x % 16))
crc_bits_four x =
    let e : bit_xor (16 * (x / 16)) (x % 16) ≡ x = omega (arith, bit_xor_parts (x / 16) (x % 16)) in
    ap (crc_bits 4) (sym e)
    ∙ crc_bits_xor 4 (16 * (x / 16)) (x % 16)
    ∙ ap (λ t. bit_xor t (crc_bits 4 (x % 16))) (crc_bits_shift (x / 16))

-- What the complement of the register becomes in four bits, complemented.
abbrev turn : ℕ
turn = bit_xor (crc_bits 4 ones) ones

-- The rows of a table from row `k` on hold four bits of the division of their index.
rows_hold : ℕ → List ℕ → Bool
unfolding crc_bit
rows_hold k [] = true
rows_hold k (row ∷ rows) =
    let rest = rows_hold (k + 1) rows in row == bit_xor (crc_bits 4 k) turn && rest

crc_table_holds : rows_hold 0 crc_table ≡ true
unfolding rows_hold
crc_table_holds = refl

rows_hold_lem :
    (k : ℕ) (rows : List ℕ) (i : ℕ)
    → rows_hold k rows ≡ true
    → i < length rows
    → get_or rows i 0 ≡ bit_xor (crc_bits 4 (k + i)) turn
unfolding rows_hold
rows_hold_lem k [] i h inside = absurd (omega arith)
rows_hold_lem k (row ∷ rows) zero h inside =
    let first : (row == bit_xor (crc_bits 4 k) turn) ≡ true = ground arith in
    let same : k ≡ k + 0 = omega arith in
    (==_iff row (bit_xor (crc_bits 4 k) turn)).0 first ∙ ap (λ n. bit_xor (crc_bits 4 n) turn) same
rows_hold_lem k (row ∷ rows) (suc i) h inside =
    let others : rows_hold (k + 1) rows ≡ true = ground arith in
    let same : k + 1 + i ≡ k + suc i = omega arith in
    rows_hold_lem (k + 1) rows i others (omega arith) ∙ ap (λ n. bit_xor (crc_bits 4 n) turn) same

table_lem : (i : ℕ) → i < 16 → get_or crc_table i 0 ≡ bit_xor (crc_bits 4 i) turn
table_lem i h =
    let same : 0 + i ≡ i = omega arith in
    rows_hold_lem 0 crc_table i crc_table_holds h ∙ ap (λ n. bit_xor (crc_bits 4 n) turn) same

last_swap : (a b c : ℕ) → bit_xor (bit_xor a b) c ≡ bit_xor (bit_xor a c) b
last_swap a b c =
    bit_xor_assoc a b c ∙ ap (bit_xor a) (bit_xor_comm b c) ∙ sym (bit_xor_assoc a c b)

turn_lem :
    (a b : ℕ) → bit_xor (bit_xor a (bit_xor b turn)) ones ≡ bit_xor (bit_xor a b) (crc_bits 4 ones)
unfolding crc_bit
turn_lem a b =
    ap (λ t. bit_xor t ones) (sym (bit_xor_assoc a b turn)) ∙ bit_xor_assoc (bit_xor a b) turn ones

-- One step on the complement of the register.
fcs_step_lem :
    (crc bits : ℕ)
    → bit_xor (fcs_step crc bits) ones ≡ crc_bits 4 (bit_xor (bit_xor crc ones) (bits % 16))
unfolding fcs_step
fcs_step_lem crc bits =
    let d : ℕ = bits % 16 in
    let low : bit_xor crc d % 16 ≡ bit_xor crc bits % 16 = sym (bit_xor_low crc bits) in
    let small : d / 16 ≡ 0 = omega arith in
    let high : bit_xor crc d / 16 ≡ crc / 16 =
      bit_xor_high crc d ∙ ap (bit_xor (crc / 16)) small ∙ bit_xor-zero (crc / 16) in
    let n : ℕ = bit_xor crc bits % 16 in
    let left : bit_xor (bit_xor (crc / 16) (get_or crc_table n 0)) ones
        ≡ bit_xor (bit_xor (crc / 16) (crc_bits 4 n)) (crc_bits 4 ones) =
      ap (λ t. bit_xor (bit_xor (crc / 16) t) ones) (table_lem n (omega arith))
      ∙ turn_lem (crc / 16) (crc_bits 4 n) in
    let right : crc_bits 4 (bit_xor (bit_xor crc ones) d)
        ≡ bit_xor (bit_xor (crc / 16) (crc_bits 4 n)) (crc_bits 4 ones) =
      ap (crc_bits 4) (last_swap crc ones d)
      ∙ crc_bits_xor 4 (bit_xor crc d) ones
      ∙ ap (λ t. bit_xor t (crc_bits 4 ones))
          (crc_bits_four (bit_xor crc d) ∙ ap₂ (λ a b. bit_xor a (crc_bits 4 b)) high low) in
    left ∙ sym right

-- Both steps for a byte.
byte_lem :
    (crc b : ℕ)
    → b < 256
    → bit_xor (fcs_step (fcs_step crc b) (b / 16)) ones ≡ crc_bits 8 (bit_xor (bit_xor crc ones) b)
byte_lem crc b h =
    let c : ℕ = bit_xor crc ones in
    let first : bit_xor (fcs_step crc b) ones ≡ crc_bits 4 (bit_xor c (b % 16)) =
      fcs_step_lem crc b in
    let same : b / 16 % 16 ≡ b / 16 = omega arith in
    let parts : bit_xor (b % 16) (16 * (b / 16)) ≡ b =
      omega (arith, bit_xor_comm (b % 16) (16 * (b / 16)), bit_xor_parts (b / 16) (b % 16)) in
    fcs_step_lem (fcs_step crc b) (b / 16)
    ∙ ap (crc_bits 4) (
        ap₂ bit_xor first same
        ∙ ap (bit_xor (crc_bits 4 (bit_xor c (b % 16)))) (sym (crc_bits_shift (b / 16)))
        ∙ sym (crc_bits_xor 4 (bit_xor c (b % 16)) (16 * (b / 16)))
        ∙ ap (crc_bits 4) (bit_xor_assoc c (b % 16) (16 * (b / 16)) ∙ ap (bit_xor c) parts))

loop_lem :
    (crc : ℕ) (bytes : List ℕ)
    → AllBytes bytes
    → bit_xor (fcs_loop crc bytes) ones ≡ crc_register (bit_xor crc ones) bytes
unfolding fcs_loop
loop_lem crc [] h = refl
loop_lem crc (b ∷ bytes) h =
    loop_lem (fcs_step (fcs_step crc b) (b / 16)) bytes h.1
    ∙ ap (λ r. crc_register r bytes) (byte_lem crc b h.0)

-- `ether_fcs` computes, four bits at a time from a table, the check sequence of IEEE 802.3 for any
-- bytes.
pub ether_fcs-crc32 : (bytes : List ℕ) → AllBytes bytes → ether_fcs bytes ≡ crc32 bytes
unfolding ether_fcs
ether_fcs-crc32 bytes h =
    let r : ℕ = fcs_loop 0 bytes in
    let e : bit_xor r ones ≡ crc_register ones bytes = loop_lem 0 bytes h in
    let back : bit_xor (bit_xor r ones) ones ≡ r = bit_xor_assoc r ones ones ∙ bit_xor-zero r in
    sym (ap (bit_xor ones) (sym e) ∙ bit_xor_comm ones (bit_xor r ones) ∙ back)
