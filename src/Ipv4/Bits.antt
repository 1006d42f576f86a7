-- ===== src/Ipv4/Bits.antt =====
-- Bitwise operations at variables: an equation for the lowest bit of each, from the recursion on
-- binary digits that the native operations stand for.
use Prim.Native.Nat.{min, max, bit_and, bit_or, digits, bitwise, bit_and-bitwise, bit_or-bitwise}
use native.Mathlib.Nat.{pow-suc}
use smuggle.Prelude.{ℕ, zero, suc, ◌+◌, ◌*◌, ◌/◌, ◌%◌, ◌^◌, ◌≤◌, ◌≡◌, refl, arith}

module _ (rest : ℕ → ℕ) (bit : ℕ → ℕ → ℕ) where
  -- Any fuel that covers the first argument gives the same digits.
  enough_fuel :
      (a fuel extra b : ℕ)
      → a ≤ fuel
      → a ≤ extra
      → digits rest bit fuel a b ≡ digits rest bit extra a b
  enough_fuel zero zero zero b p q = refl
  enough_fuel zero zero (suc extra) b p q = refl
  enough_fuel zero (suc fuel) zero b p q = refl
  enough_fuel zero (suc fuel) (suc extra) b p q = refl
  enough_fuel (suc a) zero extra b p q = absurd (omega arith)
  enough_fuel (suc a) (suc fuel) zero b p q = absurd (omega arith)
  enough_fuel (suc a) (suc fuel) (suc extra) b p q =
      rw (enough_fuel (suc a / 2) fuel extra (b / 2) (omega arith) (omega arith))

  low_bit :
      (a b : ℕ)
      → bitwise rest bit (suc a) b
        ≡ bitwise rest bit (suc a / 2) (b / 2) * 2 + bit (suc a % 2) (b % 2)
  low_bit a b = rw (enough_fuel (suc a / 2) a (suc a / 2) (b / 2) (omega arith) (omega arith))

pub bit_and-zero_left : (b : ℕ) → bit_and 0 b ≡ 0
bit_and-zero_left b = bit_and-bitwise 0 b

pub bit_or-zero_left : (b : ℕ) → bit_or 0 b ≡ b
bit_or-zero_left b = bit_or-bitwise 0 b

pub bit_and-low : (a b : ℕ) → bit_and a b ≡ bit_and (a / 2) (b / 2) * 2 + min (a % 2) (b % 2)
bit_and-low zero b = omega (arith, bit_and-zero_left b, bit_and-zero_left (b / 2))
bit_and-low (suc a) b = omega (
  arith,
  bit_and-bitwise (suc a) b,
  bit_and-bitwise (suc a / 2) (b / 2),
  low_bit (λ y. 0) min a b,
)

pub bit_or-low : (a b : ℕ) → bit_or a b ≡ bit_or (a / 2) (b / 2) * 2 + max (a % 2) (b % 2)
bit_or-low zero b = omega (arith, bit_or-zero_left b, bit_or-zero_left (b / 2))
bit_or-low (suc a) b =
    omega (
      arith,
      bit_or-bitwise (suc a) b,
      bit_or-bitwise (suc a / 2) (b / 2),
      low_bit (λ y. y) max a b,
    )

-- A multiple of a power of two, halved.
pub half_shifted : (m k : ℕ) → (m * 2 ^ suc k / 2 ≡ m * 2 ^ k) × (m * 2 ^ suc k % 2 ≡ 0)
half_shifted m k = (rw pow-suc (omega arith), rw pow-suc (omega arith))
