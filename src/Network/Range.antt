-- ===== src/Network/Range.antt =====
-- The range of addresses that validation and the defaults leave to the allocator.
use native.Mathlib.Nat.{one-le-pow}
use smuggle.Prelude.{
  ◌+◌, ◌-◌, ◌^◌, ◌%◌, ◌≤◌, ◌<◌, ◌≡◌, refl, arith, ◌↔◌, ◌⊎◌, ◌∙◌, ap, subst, true, Option, none,
  some, inl, inr, Option-cases, every_below, every_below_lem, ◌==◌, nat_eq, nat_beq_iff,
}
use smuggle.Prelude.Error.{ok}
use smuggle.Ipv4.{Ipv4Net, shl32, host_bits, next_network}
use text.Mathlib.TextEquality.{eq_iff}
use smuggle.Network.{
  validate_ipv4, validate_provider, Network, Ipv4Config, ProviderConfig, validate, last_addr,
}

-- The conditions as the code tests them.
record IsTested (n : Network) (c : Ipv4Config) (net : Ipv4Net) (p : ProviderConfig) : Type 0 where
  has_ipv4 : n.ipv4 ≡ some c
  has_network : c.network ≡ some net
  size_pos : 0 < c.size
  size_bound : c.size ≤ 32
  min_in : (c.min ≡ 0) ⊎ ((net.ip ≤ c.min) × (c.min ≤ last_addr net))
  has_provider : n.provider ≡ some p
  is_vxlan : p.name ≡ "vxlan"

ipv4_of_valid :
    (o : Option Ipv4Config)
    → validate_ipv4 o ≡ ok tt
    → (c : Ipv4Config) × (net : Ipv4Net) × (o ≡ some c) × (c.network ≡ some net)
unfolding validate_ipv4
ipv4_of_valid none h = cc
ipv4_of_valid (some c) h = elim (Option-cases c.network) [
  | inl absent ↦ absurd (ground arith)
  | inr (net, present) ↦ (c, net, refl, present)
]

provider_of_valid :
    (o : Option ProviderConfig)
    → validate_provider o ≡ ok tt
    → (p : ProviderConfig) × (o ≡ some p) × (p.name ≡ "vxlan")
unfolding validate_provider
provider_of_valid none h = cc
provider_of_valid (some p) h = (p, refl, ground (arith, eq_iff p.name "vxlan"))

validate-IsTested :
    (n : Network)
    → validate n ≡ ok tt
    → (c : Ipv4Config) × (net : Ipv4Net) × (p : ProviderConfig) × IsTested n c net p
unfolding validate
validate-IsTested n h =
    let (c, net, some_c, some_net) = ipv4_of_valid n.ipv4 (ground arith) in
    let (p, some_p, vxlan) = provider_of_valid n.provider (ground arith) in
    (c, net, p, ground (arith))

IsTested-validate :
    (n : Network) (c : Ipv4Config) (net : Ipv4Net) (p : ProviderConfig)
    → IsTested n c net p
    → validate n ≡ ok tt
unfolding validate
IsTested-validate n c net p u = ground (arith, eq_iff p.name "vxlan")

-- A network as `UnmarshalJSON` makes it: the address is the first of its block, which ends within the
-- address space.
pub record IsParsed (net : Ipv4Net) : Type 0 where
  pub prefix_bound : net.size ≤ 32
  pub ends : net.ip + 2 ^ (32 - net.size) ≤ 4294967296

abbrev pub HasParsed : Option Ipv4Config → Type 0
HasParsed none = Unit
HasParsed (some c) = elim c.network [ none ↦ Unit | some net ↦ IsParsed net ]

-- What a configuration is accepted for: an address of the network's block as the lower bound, or none.
-- The upper bound is not looked at, nor whether the range holds an address.
pub record IsAccepted (n : Network) (c : Ipv4Config) (net : Ipv4Net) (p : ProviderConfig)
    : Type 0 where
  pub has_ipv4 : n.ipv4 ≡ some c
  pub has_network : c.network ≡ some net
  pub size_pos : 0 < c.size
  pub size_bound : c.size ≤ 32
  pub min_in : (c.min ≡ 0) ⊎ ((net.ip ≤ c.min) × (c.min < net.ip + 2 ^ (32 - net.size)))
  pub has_provider : n.provider ≡ some p
  pub is_vxlan : p.name ≡ "vxlan"

step_table : every_below 33 (λ s. shl32 1 (host_bits s) == 2 ^ (32 - s) % 4294967296) ≡ true
unfolding every_below shl32
step_table = refl

-- The last address that the code computes is the last one of the block.
last_addr_lem : (net : Ipv4Net) → IsParsed net → last_addr net ≡ net.ip + 2 ^ (32 - net.size) - 1
unfolding next_network
last_addr_lem net b =
    let step = (nat_beq_iff (shl32 1 (host_bits net.size)) (2 ^ (32 - net.size) % 4294967296)).0 (
      every_below_lem 33 (λ s. shl32 1 (host_bits s) == 2 ^ (32 - s) % 4294967296) net.size
        step_table (omega (arith, b.prefix_bound))) in
    omega (arith, step, b.ends, one-le-pow (32 - net.size) 2 (omega arith))

HasParsed-IsParsed :
    (o : Option Ipv4Config) (c : Ipv4Config) (net : Ipv4Net)
    → HasParsed o
    → o ≡ some c
    → c.network ≡ some net
    → IsParsed net
HasParsed-IsParsed none c net h e f = cc e
HasParsed-IsParsed (some d) c net h e f =
    let same : d ≡ c = cc e in
    subst (λ (o : Option Ipv4Net). elim o [ none ↦ Unit | some m ↦ IsParsed m ])
      (ap (λ (z : Ipv4Config). z.network) same ∙ f) h

-- For a configuration whose network, if it has one, is parsed, validation succeeds exactly when there
-- is a network, a size from 1 to 32, a lower bound that is unset or an address of the network's block,
-- and the provider vxlan. The upper bound may be any.
pub validate_iff :
    (n : Network)
    → HasParsed n.ipv4
    → (validate n ≡ ok tt)
      ↔ ((c : Ipv4Config) × (net : Ipv4Net) × (p : ProviderConfig) × IsAccepted n c net p)
validate_iff n parsed = (
  λ done.
      let (c, net, p, u) = validate-IsTested n done in
      let b = HasParsed-IsParsed n.ipv4 c net parsed u.has_ipv4 u.has_network in
      let last = last_addr_lem net b in
      let pos = one-le-pow (32 - net.size) 2 (omega arith) in
      (
        c,
        net,
        p,
        record {
          has_ipv4 = u.has_ipv4;
          has_network = u.has_network;
          size_pos = u.size_pos;
          size_bound = u.size_bound;
          min_in = elim u.min_in [
            | inl unset ↦ inl unset
            | inr (low, high) ↦ inr (low, omega (arith, high, last, pos))
          ];
          has_provider = u.has_provider;
          is_vxlan = u.is_vxlan;
        },
      ),
  λ (c, net, p, u).
      let b = HasParsed-IsParsed n.ipv4 c net parsed u.has_ipv4 u.has_network in
      let last = last_addr_lem net b in
      IsTested-validate n c net p (record {
        has_ipv4 = u.has_ipv4;
        has_network = u.has_network;
        size_pos = u.size_pos;
        size_bound = u.size_bound;
        min_in = elim u.min_in [
          | inl unset ↦ inl unset
          | inr (low, high) ↦ inr (low, omega (arith, high, last))
        ];
        has_provider = u.has_provider;
        is_vxlan = u.is_vxlan;
      }),
)
