-- ===== src/Ether/Fcs.antt =====
-- The frame check sequence: `ether_fcs` of src/ether_fcs.c, which takes a byte in two steps of four
-- bits by a table, and the check sequence of IEEE 802.3 bit by bit.
pub mod Laws
use Prim.Native.Nat.{bit_xor}
use nstack.Base.{
  ℕ, zero, suc, ◌+◌, ◌-◌, ◌*◌, ◌/◌, ◌%◌, ◌<◌, ◌≤◌, ◌≡◌, refl, sym, ap, ◌∙◌, arith, List, [], ◌∷◌,
  Bool, true, false, Option, none, some, Bool-cases, inl, inr, ◌==◌, get_or, if◌then◌else◌,
}
use nstack.Base.Xor.{
  bit_xor_lem, zero-bit_xor, bit_xor-zero, bit_xor_half, bit_xor_odd, bit_xor_comm, bit_xor_assoc,
  bit_xor_swap,
}
use nstack.Checksum.Laws.{AllBytes}

-- `crc_table`.
abbrev pub crc_table : List ℕ
crc_table =
    0x4dbdf21c ∷ 0x500ae278 ∷ 0x76d3d2d4 ∷ 0x6b64c2b0 ∷ 0x3b61b38c ∷ 0x26d6a3e8 ∷ 0x000f9344
    ∷ 0x1db88320 ∷ 0xa005713c ∷ 0xbdb26158 ∷ 0x9b6b51f4 ∷ 0x86dc4190 ∷ 0xd6d930ac ∷ 0xcb6e20c8
    ∷ 0xedb71064 ∷ 0xf0000000 ∷ []

-- `crc = (crc >> 4) ^ crc_table[(crc ^ bits) & 0x0F]`.
unfoldable pub fcs_step : ℕ → ℕ → ℕ
fcs_step crc bits = bit_xor (crc / 16) (get_or crc_table (bit_xor crc bits % 16) 0)

-- The loop of `ether_fcs`.
unfoldable pub fcs_loop : ℕ → List ℕ → ℕ
fcs_loop crc [] = crc
fcs_loop crc (b ∷ bytes) = fcs_loop (fcs_step (fcs_step crc b) (b / 16)) bytes

-- `ether_fcs`.
unfoldable pub ether_fcs : List ℕ → ℕ
unfolding fcs_loop fcs_step
ether_fcs bytes = fcs_loop 0 bytes

abbrev pub ones : ℕ
ones = 0xffffffff

-- One bit of the division by the generator polynomial, lowest bit first.
unfoldable pub crc_bit : ℕ → ℕ
crc_bit r = bit_xor (r / 2) (if r % 2 == 1 then 0xedb88320 else 0)

abbrev pub crc_bits : ℕ → ℕ → ℕ
crc_bits zero r = r
crc_bits (suc n) r = crc_bits n (crc_bit r)

-- The register after the bytes: each byte is added to it and eight bits are divided.
abbrev pub crc_register : ℕ → List ℕ → ℕ
crc_register r [] = r
crc_register r (b ∷ bytes) = crc_register (crc_bits 8 (bit_xor r b)) bytes

-- The check sequence: the register starts with ones, and its complement is taken.
abbrev pub crc32 : List ℕ → ℕ
crc32 bytes = bit_xor ones (crc_register ones bytes)
