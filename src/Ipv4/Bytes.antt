-- ===== src/Ipv4/Bytes.antt =====
-- An address and its four bytes: `fromBytes` and `octets` are inverse.
use Prim.Native.Nat.{bit_or}
use native.Mathlib.Nat.{pow-suc}
use smuggle.Prelude.{ℕ, zero, suc, ◌+◌, ◌*◌, ◌/◌, ◌%◌, ◌^◌, ◌<◌, ◌≡◌, ◌∙◌, arith}
use smuggle.Ipv4.Bits.{bit_or-zero_left, bit_or-low, half_shifted}
use smuggle.Ipv4.{octets, from_bytes}

-- Numbers with no bit in common add up.
bit_or_disjoint : (k a b : ℕ) → a < 2 ^ k → bit_or a (b * 2 ^ k) ≡ a + b * 2 ^ k
bit_or_disjoint zero zero b h = omega (arith, bit_or-zero_left (b * 2 ^ 0))
bit_or_disjoint zero (suc a) b h = absurd (omega arith)
bit_or_disjoint (suc k) a b h = ground (
  arith,
  bit_or-low a (b * 2 ^ suc k),
  bit_or_disjoint k (a / 2) b (omega (arith, pow-suc 2 k)),
  half_shifted b k,
)

-- Four bytes make the number that they stand for in base 256.
pub from_bytes_lem :
    (a b c d : ℕ)
    → a < 256
    → b < 256
    → c < 256
    → d < 256
    → from_bytes (a, b, c, d) ≡ d + c * 256 + b * 65536 + a * 16777216
unfolding from_bytes
from_bytes_lem a b c d ha hb hc hd = ground (
  arith,
  bit_or_disjoint 8 d c hd,
  bit_or_disjoint 16 (d + c * 256) b (omega arith),
  bit_or_disjoint 24 (d + c * 256 + b * 65536) a (omega arith),
)

-- The octets of an address give the address back.
pub from_bytes-octets : (i : ℕ) → i < 4294967296 → from_bytes (octets i) ≡ i
unfolding octets
from_bytes-octets i h =
    from_bytes_lem (i / 16777216 % 256) (i / 65536 % 256) (i / 256 % 256) (i % 256) (omega arith)
      (omega arith) (omega arith) (omega arith)
    ∙ omega arith
