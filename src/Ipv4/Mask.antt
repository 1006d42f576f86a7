-- ===== src/Ipv4/Mask.antt =====
-- The network mask as arithmetic: masking clears the host bits.
use Prim.Native.Nat.{bit_and}
use native.Mathlib.Nat.{
  pow-suc, one-le-pow, add-suc, add-zero, mul-one, pow-succ', div-div-eq-div-mul,
}
use smuggle.Prelude.{ℕ, zero, suc, ◌+◌, ◌-◌, ◌*◌, ◌/◌, ◌%◌, ◌^◌, ◌<◌, ◌≡◌, arith}
use smuggle.Ipv4.Bits.{bit_and-zero_left, bit_and-low, half_shifted}

half_ones : (w : ℕ) → ((2 ^ suc w - 1) / 2 ≡ 2 ^ w - 1) × ((2 ^ suc w - 1) % 2 ≡ 1)
half_ones w =
    (omega (arith, pow-suc 2 w, one-le-pow w 2), omega (arith, pow-suc 2 w, one-le-pow w 2))

-- Anding with `w` ones keeps a number of `w` bits.
bit_and_ones : (w a : ℕ) → a < 2 ^ w → bit_and a (2 ^ w - 1) ≡ a
bit_and_ones zero a h = ground (arith, bit_and-zero_left (2 ^ 0 - 1))
bit_and_ones (suc w) a h = ground (
  arith,
  half_ones w,
  bit_and-low a (2 ^ suc w - 1),
  bit_and_ones w (a / 2) (omega (arith, pow-suc 2 w)),
)

half_bound : (k w a : ℕ) → a < 2 ^ (w + suc k) → a / 2 < 2 ^ (w + k)
half_bound k w a h = omega (arith, pow-suc 2 (w + k), rw add-suc at h)

-- The mask with `k` zeros under ones up to bit `w + k` clears the low `k` bits.
pub bit_and_high :
    (k w a : ℕ) → a < 2 ^ (w + k) → bit_and a ((2 ^ w - 1) * 2 ^ k) ≡ a / 2 ^ k * 2 ^ k
bit_and_high zero w a h =
    rw (mul-one (2 ^ w - 1)) (rw (bit_and_ones w a (rw add-zero at h)) (omega arith))
bit_and_high (suc k) w a h = ground (
  arith,
  half_shifted (2 ^ w - 1) k,
  bit_and-low a ((2 ^ w - 1) * 2 ^ suc k),
  bit_and_high k w (a / 2) (half_bound k w a h),
  pow-succ' 2 k,
  div-div-eq-div-mul a 2 (2 ^ k),
)
