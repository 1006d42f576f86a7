-- ===== src/Network/Defaults.antt =====
-- The bounds that `Canonicalize` fills in, as plain arithmetic on the network's range.
use native.Mathlib.Nat.{pow-suc, one-le-pow, pow-le-pow_right}
use native.Mathlib.Decide.{ℕ_discrete}
use smuggle.Prelude.{
  ℕ, suc, ◌+◌, ◌-◌, ◌*◌, ◌^◌, ◌≤◌, ◌<◌, ◌≡◌, refl, ◌∙◌, ◌⊎◌, inl, inr, arith, some, true,
}
use smuggle.Prelude.{every_below, every_below_lem, ◌==◌, nat_eq, ◌||◌}
use smuggle.Prelude.Error.{ok}
use smuggle.Ipv4.{Ipv4Net, u32, shl32, next_network}
use smuggle.Network.{Network, Ipv4Config, ProviderConfig, canonicalize, canonical_masq, subnet_step}
use smuggle.Network.Range.{IsAccepted}

step_table : every_below 33 (λ s. (s == 0) || (subnet_step s == 2 ^ (32 - s))) ≡ true
unfolding every_below shl32
step_table = refl

-- The distance of two subnets, for the sizes that pass validation.
pub subnet_step_lem : (s : ℕ) → 0 < s → s ≤ 32 → subnet_step s ≡ 2 ^ (32 - s)
subnet_step_lem s p h = ground (
  arith,
  every_below_lem 33 (λ s. (s == 0) || (subnet_step s == 2 ^ (32 - s))) s step_table (omega arith),
)

-- A network whose block ends within the address space.
pub record IsBlock (net : Ipv4Net) : Type 0 where
  pub block_size_pos : 0 < net.size
  pub block_size : net.size ≤ 32
  pub block_end : net.ip + 2 ^ (32 - net.size) ≤ 4294967296

-- `n` with the bounds of its range.
abbrev pub with_range : Network → Ipv4Config → ℕ → ℕ → Network
with_range n c lo hi = record n {
  ipv4 = some (record c { min = lo; max = hi });
  ip_masq = canonical_masq n.ip_masq;
}

-- The bounds as the code computes them.
raw_min : Ipv4Config → Ipv4Net → ℕ
raw_min c net = u32 (net.ip + subnet_step c.size)

raw_max : Ipv4Config → Ipv4Net → ℕ
raw_max c net =
    u32 (u32 (net.ip + subnet_step net.size) + (4294967296 - subnet_step c.size) + 4294967295)

canonicalize-raw :
    (n : Network) (c : Ipv4Config) (net : Ipv4Net)
    → n.ipv4 ≡ some c
    → c.network ≡ some net
    → c.min ≡ 0
    → c.max ≡ 0
    → canonicalize n ≡ ok (with_range n c (raw_min c net) (raw_max c net))
unfolding canonicalize raw_min raw_max next_network
canonicalize-raw n c net has_c has_net lo hi = ground arith

raw_min_lem : (ip p q : ℕ) → p < q → ip + q ≤ 4294967296 → u32 (ip + p) ≡ ip + p
raw_min_lem ip p q h b = omega arith

raw_max_lem :
    (ip p q : ℕ)
    → p < q
    → 0 < p
    → ip + q ≤ 4294967296
    → u32 (u32 (ip + q) + (4294967296 - p) + 4294967295) ≡ ip + q - p - 1
raw_max_lem ip p q h pos b = omega arith

pub quarter : (a b : ℕ) → a + 2 ≤ b → b ≤ 32 → 4 * 2 ^ (32 - b) ≤ 2 ^ (32 - a)
quarter a b h le = omega (
  arith,
  pow-suc 2 (32 - b),
  pow-suc 2 (suc (32 - b)),
  pow-le-pow_right {n = 2} (omega arith) {i = suc (suc (32 - b))} {j = 32 - a} (omega arith),
)

-- With both bounds unset, a network that holds four subnets or more gets a range from its second
-- subnet to the last address before its last one.
pub canonicalize_unset :
    (n : Network) (c : Ipv4Config) (net : Ipv4Net) (p : ProviderConfig)
    → IsAccepted n c net p
    → IsBlock net
    → c.min ≡ 0
    → c.max ≡ 0
    → net.size + 2 ≤ c.size
    → canonicalize n
      ≡ ok (
          with_range n c
            (net.ip + 2 ^ (32 - c.size))
            (net.ip + 2 ^ (32 - net.size) - 2 ^ (32 - c.size) - 1))
unfolding raw_min raw_max
canonicalize_unset n c net p u b lo hi wide =
    let room = quarter net.size c.size wide u.size_bound in
    let some_p = one-le-pow (32 - c.size) 2 (omega arith) in
    canonicalize-raw n c net u.has_ipv4 u.has_network lo hi
    ∙ rw (
      subnet_step_lem c.size u.size_pos u.size_bound,
      subnet_step_lem net.size b.block_size_pos b.block_size,
      raw_min_lem net.ip (2 ^ (32 - c.size)) (2 ^ (32 - net.size)) (omega arith) b.block_end,
      raw_max_lem net.ip (2 ^ (32 - c.size)) (2 ^ (32 - net.size)) (omega arith) some_p b.block_end,
    )

narrow_order :
    (ip p q : ℕ)
    → (p ≡ q) ⊎ (2 * p ≡ q)
    → 0 < ip
    → ip + q < 4294967296
    → u32 (u32 (ip + q) + (4294967296 - p) + 4294967295) < u32 (ip + p)
narrow_order ip p q h pos end = omega arith

narrow_steps :
    (a b : ℕ)
    → a ≤ b
    → b ≤ a + 1
    → b ≤ 32
    → (2 ^ (32 - b) ≡ 2 ^ (32 - a)) ⊎ (2 * 2 ^ (32 - b) ≡ 2 ^ (32 - a))
narrow_steps a b le few bound = elim (ℕ_discrete a b) [
  | yes same ↦ inl (rw same)
  | no differ ↦
      let one_less : 32 - a ≡ suc (32 - b) = omega arith in
      inr (rw (one_less, pow-suc) (omega arith))
]

-- A network with one or two subnets gets an empty range: its upper bound lies under the lower one.
pub canonicalize_narrow :
    (n : Network) (c : Ipv4Config) (net : Ipv4Net) (p : ProviderConfig)
    → IsAccepted n c net p
    → IsBlock net
    → c.min ≡ 0
    → c.max ≡ 0
    → net.size ≤ c.size
    → c.size ≤ net.size + 1
    → 0 < net.ip
    → net.ip + 2 ^ (32 - net.size) < 4294967296
    → (lo hi : ℕ) × (canonicalize n ≡ ok (with_range n c lo hi)) × (hi < lo)
unfolding raw_min raw_max
canonicalize_narrow n c net p u b lo hi some_size few pos end = (
  raw_min c net,
  raw_max c net,
  canonicalize-raw n c net u.has_ipv4 u.has_network lo hi,
  rw
      (
        subnet_step_lem c.size u.size_pos u.size_bound,
        subnet_step_lem net.size b.block_size_pos b.block_size,
      )
      (narrow_order net.ip (2 ^ (32 - c.size)) (2 ^ (32 - net.size))
        (narrow_steps net.size c.size some_size few u.size_bound) pos end),
)
