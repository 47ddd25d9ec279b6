-- ===== src/Host.antt =====
-- The host that the stack is compiled for, as far as the code depends on it: the byte order functions
-- of <arpa/inet.h>, which are not part of the repository, and how two bytes in memory read as a
-- `uint16_t` (the `memcpy(&word, p, 2)` of the checksums). Words are bit patterns.
use nstack.Base.{ℕ, ◌+◌, ◌*◌, ◌/◌, ◌%◌, ◌^◌, ◌<◌, ◌≡◌, refl, List, [], ◌∷◌, arith}

-- What the documentation of these functions promises: `ntohs` undoes `htons` and the other way
-- round, likewise `ntohl` and `htonl`; results are words; a word of ones stays as it is. The two bytes
-- of a stored word read as that word.
pub record Host : Type 0 where
  pub htons : ℕ → ℕ
  pub ntohs : ℕ → ℕ
  pub htonl : ℕ → ℕ
  pub ntohl : ℕ → ℕ
  pub load16 : ℕ → ℕ → ℕ
  pub ntohs-htons : (x : ℕ) → x < 2 ^ 16 → ntohs (htons x) ≡ x
  pub htons-ntohs : (x : ℕ) → x < 2 ^ 16 → htons (ntohs x) ≡ x
  pub ntohl-htonl : (x : ℕ) → x < 2 ^ 32 → ntohl (htonl x) ≡ x
  pub htonl-ntohl : (x : ℕ) → x < 2 ^ 32 → htonl (ntohl x) ≡ x
  pub htons-lt : (x : ℕ) → x < 2 ^ 16 → htons x < 2 ^ 16
  pub ntohs-lt : (x : ℕ) → x < 2 ^ 16 → ntohs x < 2 ^ 16
  pub htonl-lt : (x : ℕ) → x < 2 ^ 32 → htonl x < 2 ^ 32
  pub ntohl-lt : (x : ℕ) → x < 2 ^ 32 → ntohl x < 2 ^ 32
  pub ntohs_ones : ntohs 0xffff ≡ 0xffff
  pub load16-lt : (b c : ℕ) → b < 256 → c < 256 → load16 b c < 2 ^ 16
  pub load16_zero : load16 0 0 ≡ 0
  pub first_byte : ℕ → ℕ
  pub second_byte : ℕ → ℕ
  pub load16-bytes : (x : ℕ) → x < 2 ^ 16 → load16 (first_byte x) (second_byte x) ≡ x

-- The two 16-bit halves of a stored `uint32_t`, in the order of a little-endian memory. The checksums
-- do not depend on their order.
abbrev pub halves : ℕ → List ℕ
halves x = (x % 2 ^ 16) ∷ (x / 2 ^ 16) ∷ []

abbrev pub swap16 : ℕ → ℕ
swap16 x = x % 256 * 256 + x / 256 % 256

abbrev pub swap32 : ℕ → ℕ
swap32 x = x % 256 * 2 ^ 24 + x / 256 % 256 * 2 ^ 16 + x / 2 ^ 16 % 256 * 256 + x / 2 ^ 24 % 256

pub swap16_twice : (x : ℕ) → x < 2 ^ 16 → swap16 (swap16 x) ≡ x
swap16_twice x h = omega arith

pub swap32_twice : (x : ℕ) → x < 2 ^ 32 → swap32 (swap32 x) ≡ x
swap32_twice x h = omega arith

pub swap16-lt : (x : ℕ) → x < 2 ^ 16 → swap16 x < 2 ^ 16
swap16-lt x h = omega arith

pub swap32-lt : (x : ℕ) → x < 2 ^ 32 → swap32 x < 2 ^ 32
swap32-lt x h = omega arith

pub load-lt : (b c : ℕ) → b < 256 → c < 256 → b + 256 * c < 2 ^ 16
load-lt b c p q = omega arith

pub load-bytes : (x : ℕ) → x < 2 ^ 16 → x % 256 + 256 * (x / 256) ≡ x
load-bytes x h = omega arith

-- A little-endian host, on which these functions swap bytes.
abbrev pub little_endian : Host
little_endian = record {
  htons = swap16;
  ntohs = swap16;
  htonl = swap32;
  ntohl = swap32;
  load16 = λ b c. b + 256 * c;
  ntohs-htons = swap16_twice;
  htons-ntohs = swap16_twice;
  ntohl-htonl = swap32_twice;
  htonl-ntohl = swap32_twice;
  htons-lt = swap16-lt;
  ntohs-lt = swap16-lt;
  htonl-lt = swap32-lt;
  ntohl-lt = swap32-lt;
  ntohs_ones = refl;
  load16-lt = load-lt;
  load16_zero = refl;
  first_byte = λ x. x % 256;
  second_byte = λ x. x / 256;
  load16-bytes = load-bytes;
}
