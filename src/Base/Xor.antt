-- ===== src/Base/Xor.antt =====
-- Laws of the exclusive or of two numbers, `bit_xor`, from the law for its lowest digit.
use Prim.Native.Nat.{bit_xor, bit_xor-bitwise, digits, differ}
use native.Mathlib.Nat.{le_refl}
use nstack.Base.{ℕ, zero, suc, ◌+◌, ◌*◌, ◌/◌, ◌%◌, ◌<◌, ◌≤◌, ◌≡◌, refl, ap, arith}

abbrev xor_digits : ℕ → ℕ → ℕ → ℕ
xor_digits = digits (λ b. b) differ

-- The digits do not depend on the fuel, if it is at least the first number.
any_fuel : (a k l b : ℕ) → a ≤ k → a ≤ l → xor_digits k a b ≡ xor_digits l a b
any_fuel zero zero zero b _ _ = refl
any_fuel zero zero (suc _) b _ _ = refl
any_fuel zero (suc _) zero b _ _ = refl
any_fuel zero (suc _) (suc _) b _ _ = refl
any_fuel (suc a) zero l b low _ = absurd (omega arith)
any_fuel (suc a) (suc _) zero b _ low = absurd (omega arith)
any_fuel (suc a) (suc k) (suc l) b low low' =
    let halved : xor_digits k (suc a / 2) (b / 2) ≡ xor_digits l (suc a / 2) (b / 2) =
      any_fuel (suc a / 2) k l (b / 2) (omega arith) (omega arith) in
    omega (arith, halved)

differ_lem : (x y : ℕ) → x < 2 → y < 2 → differ x y ≡ (x + y) % 2
differ_lem zero y p q = omega arith
differ_lem (suc zero) zero p q = refl
differ_lem (suc zero) (suc zero) p q = refl
differ_lem (suc zero) (suc (suc y)) p q = absurd (omega arith)
differ_lem (suc (suc x)) y p q = absurd (omega arith)

-- The lowest digit.
pub bit_xor_lem : (a b : ℕ) → bit_xor a b ≡ 2 * bit_xor (a / 2) (b / 2) + (a + b) % 2
bit_xor_lem zero b = omega (arith, bit_xor-bitwise zero b, bit_xor-bitwise zero (b / 2))
bit_xor_lem (suc a) b = omega (
  arith,
  bit_xor-bitwise (suc a) b,
  bit_xor-bitwise (suc a / 2) (b / 2),
  any_fuel (suc a / 2) a (suc a / 2) (b / 2) (omega arith) (le_refl (suc a / 2)),
  differ_lem (suc a % 2) (b % 2) (omega arith) (omega arith),
)

pub zero-bit_xor : (b : ℕ) → bit_xor 0 b ≡ b
zero-bit_xor b = bit_xor-bitwise 0 b

pub bit_xor_half : (a b : ℕ) → bit_xor a b / 2 ≡ bit_xor (a / 2) (b / 2)
bit_xor_half a b = omega (arith, bit_xor_lem a b)

pub bit_xor_odd : (a b : ℕ) → bit_xor a b % 2 ≡ (a + b) % 2
bit_xor_odd a b = omega (arith, bit_xor_lem a b)

zero_upto : (n a : ℕ) → a ≤ n → bit_xor a 0 ≡ a
zero_upto n zero p = refl
zero_upto zero (suc a) p = absurd (omega arith)
zero_upto (suc n) (suc a) p =
    omega (arith, bit_xor_lem (suc a) 0, zero_upto n (suc a / 2) (omega arith))

pub bit_xor-zero : (a : ℕ) → bit_xor a 0 ≡ a
bit_xor-zero a = zero_upto a a (le_refl a)

comm_upto : (n a b : ℕ) → a ≤ n → bit_xor a b ≡ bit_xor b a
comm_upto zero zero b p = omega (arith, zero-bit_xor b, bit_xor-zero b)
comm_upto zero (suc a) b p = absurd (omega arith)
comm_upto (suc n) a b p =
    omega (arith, bit_xor_lem a b, bit_xor_lem b a, comm_upto n (a / 2) (b / 2) (omega arith))

pub bit_xor_comm : (a b : ℕ) → bit_xor a b ≡ bit_xor b a
bit_xor_comm a b = comm_upto a a b (le_refl a)

assoc_upto : (n a b c : ℕ) → a ≤ n → bit_xor (bit_xor a b) c ≡ bit_xor a (bit_xor b c)
assoc_upto zero zero b c p =
    omega (arith, ap (λ t. bit_xor t c) (zero-bit_xor b), zero-bit_xor (bit_xor b c))
assoc_upto zero (suc a) b c p = absurd (omega arith)
assoc_upto (suc n) a b c p = omega (
  arith,
  bit_xor_lem (bit_xor a b) c,
  bit_xor_lem a (bit_xor b c),
  bit_xor_odd a b,
  bit_xor_odd b c,
  ap (λ t. bit_xor t (c / 2)) (bit_xor_half a b),
  ap (bit_xor (a / 2)) (bit_xor_half b c),
  assoc_upto n (a / 2) (b / 2) (c / 2) (omega arith),
)

pub bit_xor_assoc : (a b c : ℕ) → bit_xor (bit_xor a b) c ≡ bit_xor a (bit_xor b c)
bit_xor_assoc a b c = assoc_upto a a b c (le_refl a)

-- Exchanging the middle two of four.
pub bit_xor_swap :
    (a b c d : ℕ) → bit_xor (bit_xor a b) (bit_xor c d) ≡ bit_xor (bit_xor a c) (bit_xor b d)
bit_xor_swap a b c d =
    rw
      (
        bit_xor_assoc a b (bit_xor c d),
        ← bit_xor_assoc b c d,
        bit_xor_comm b c,
        bit_xor_assoc c b d,
        ← bit_xor_assoc a c (bit_xor b d),
      )
      refl
