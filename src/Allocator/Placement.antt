-- ===== src/Allocator/Placement.antt =====
-- Where a granted subnet lies: apart from the other subnets of the range, and in its network.
use native.Mathlib.Nat.{div-le_self, one-le-pow, add-mul-div_right}
use smuggle.Prelude.{ℕ, ◌+◌, ◌-◌, ◌*◌, ◌^◌, ◌≤◌, ◌<◌, ◌≡◌, ◌≢◌, inl, inr, refl, arith, false}
use smuggle.Prelude.{String, some, Bool-cases, ◌∙◌, sym, ap, List, [], ◌∷◌}
use smuggle.Ipv4.{Ipv4Net, overlap}
use smuggle.Ipv4.Overlap.{IsNet, overlap_iff}
use smuggle.Network.{Ipv4Config, Network, ProviderConfig}
use smuggle.Prelude.{In, subst}
use smuggle.Prelude.Error.{ok}
use smuggle.Prelude.Int.{ℤ}
use smuggle.Fingerprint.{Fingerprint}
use smuggle.Allocator.{generate_ipv4_subnet}
use smuggle.Network.Defaults.{IsBlock, quarter, canonicalize_unset, with_range}
use smuggle.Network.Range.{IsAccepted}
use smuggle.Network.{canonicalize}
use smuggle.Allocator.Generate.{pow_half, IsRange, Grant, Allocated, generate_ipv4_subnet-Allocated}
use smuggle.Allocator.Used.{Free, Occupies}
use smuggle.Subnet.{Subnet}

-- The network at a candidate of the range.
abbrev pub candidate : Ipv4Config → ℕ → Ipv4Net
candidate c k = record { ip = c.min + k * 2 ^ (32 - c.size); size = c.size }

candidate-IsNet :
    (c : Ipv4Config) (k : ℕ)
    → IsRange c
    → c.min + k * 2 ^ (32 - c.size) ≤ c.max
    → IsNet (candidate c k)
candidate-IsNet c k r h = record { ip_bound = omega (arith, r); size_bound = r.size_bound }

-- Two different candidates of one range do not overlap, whether or not the range is aligned.
candidates_apart :
    (c : Ipv4Config) (j k : ℕ)
    → IsRange c
    → (candidate c j).ip ≤ c.max
    → (candidate c k).ip ≤ c.max
    → (candidate c j).ip ≢ (candidate c k).ip
    → overlap (candidate c j) (candidate c k) ≡ false
candidates_apart c j k r hj hk differ =
    elim (Bool-cases (overlap (candidate c j) (candidate c k))) [
      | inr apart ↦ apart
      | inl meet ↦
          let nets =
            overlap_iff (candidate c j) (candidate c k) (candidate-IsNet c j r hj)
              (candidate-IsNet c k r hk) in
          let (x, in_j, in_k) = nets.0 meet in
          let pos = one-le-pow (32 - c.size) 2 (omega arith) in
          let at_j = add-mul-div_right c.min j {z = 2 ^ (32 - c.size)} pos in
          let at_k = add-mul-div_right c.min k {z = 2 ^ (32 - c.size)} pos in
          let same : j ≡ k = omega arith in
          absurd (differ (ap (λ (i : ℕ). c.min + i * 2 ^ (32 - c.size)) same))
    ]

Free-In :
    {IP : Type 0} (name : String) (ip : ℕ) (subnets : List (Subnet IP)) (t : Subnet IP)
    → Free name ip subnets
    → In t subnets
    → ¬ (Occupies name ip t)
Free-In name ip [] t free m = absurd m
Free-In name ip (s ∷ rest) t (here, later) (inl e) = rw e here
Free-In name ip (s ∷ rest) t (here, later) (inr m) = Free-In name ip rest t later m

-- The range that the defaults fill in meets what the allocator needs.
unset-IsRange :
    (c : Ipv4Config) (net : Ipv4Net) (lo hi : ℕ)
    → IsBlock net
    → net.size + 2 ≤ c.size
    → c.size ≤ 32
    → lo ≡ net.ip + 2 ^ (32 - c.size)
    → hi ≡ net.ip + 2 ^ (32 - net.size) - 2 ^ (32 - c.size) - 1
    → IsRange (record c { min = lo; max = hi })
unset-IsRange c net lo hi b wide bound at_lo at_hi =
    let room = quarter net.size c.size wide bound in
    let pos = one-le-pow (32 - c.size) 2 (omega arith) in
    let top = pow_half net.size b.block_size_pos b.block_size in
    let count = div-le_self (hi - lo) (2 ^ (32 - c.size)) in
    record {
      size_pos = omega arith;
      size_bound = bound;
      ordered = omega (arith, b);
      top = omega (arith, b);
      few = omega (arith, b);
    }

module _ (int31n : ℕ → ℕ → ℕ) (bounded : (k n : ℕ) → 0 < n → int31n k n < n) where
  module _ {IP : Type 0} (fp : Fingerprint IP) (now : ℤ) (id : String) (n : Network)
      (subnets : List (Subnet IP)) where
    granted :
        (c : Ipv4Config) (p : ProviderConfig) (s : Subnet IP)
        → IsRange c
        → n.ipv4 ≡ some c
        → n.provider ≡ some p
        → generate_ipv4_subnet int31n fp now id n subnets ≡ ok s
        → Grant id n c subnets s
    granted c p s r has_c has_p done =
        subst (Allocated id n c subnets) done
          (generate_ipv4_subnet-Allocated int31n bounded fp now id n c subnets p r has_c has_p)

    -- A granted subnet overlaps no subnet of the same network and size that an earlier grant took
    -- from the range.
    pub generate_ipv4_subnet_apart :
        (c : Ipv4Config) (p : ProviderConfig) (s t : Subnet IP) (j : ℕ)
        → IsRange c
        → n.ipv4 ≡ some c
        → n.provider ≡ some p
        → generate_ipv4_subnet int31n fp now id n subnets ≡ ok s
        → In t subnets
        → t.network_name ≡ n.name
        → t.ipv4_network ≡ some (candidate c j)
        → (candidate c j).ip ≤ c.max
        → (net : Ipv4Net) × (s.ipv4_network ≡ some net) × (overlap net (candidate c j) ≡ false)
    generate_ipv4_subnet_apart c p s t j r has_c has_p done member same_name has_net le =
        let g = granted c p s r has_c has_p done in
        let free = Free-In n.name (candidate c g.0).ip subnets t g.3 member in
        (
          candidate c g.0,
          g.1,
          candidates_apart c g.0 j r g.2 le (λ e. free (same_name, candidate c j, has_net, sym e)),
        )

    -- With both bounds left to the defaults, a network that is a block of the address space, and
    -- subnets whose prefix is at least two bits longer than the network's, so that four or more fit
    -- into it: the whole block of a granted subnet lies in the network.
    pub generate_ipv4_subnet_inside :
        (c : Ipv4Config) (net : Ipv4Net) (p : ProviderConfig) (m : Network) (s : Subnet IP)
        → IsAccepted m c net p
        → IsBlock net
        → c.min ≡ 0
        → c.max ≡ 0
        → net.size + 2 ≤ c.size
        → canonicalize m ≡ ok n
        → generate_ipv4_subnet int31n fp now id n subnets ≡ ok s
        → (ip : ℕ) × (s.ipv4_network ≡ some (record { ip = ip; size = c.size }))
          × (net.ip ≤ ip)
          × (ip + 2 ^ (32 - c.size) ≤ net.ip + 2 ^ (32 - net.size))
    generate_ipv4_subnet_inside c net p m s u b lo hi wide canonical done =
        let at_lo : ℕ = net.ip + 2 ^ (32 - c.size) in
        let at_hi : ℕ = net.ip + 2 ^ (32 - net.size) - 2 ^ (32 - c.size) - 1 in
        let e : n ≡ with_range m c at_lo at_hi = cc (canonicalize_unset m c net p u b lo hi wide) in
        let r = unset-IsRange c net at_lo at_hi b wide u.size_bound refl refl in
        let g =
          granted (record c { min = at_lo; max = at_hi }) p s r (ap (λ (x : Network). x.ipv4) e)
            (ap (λ (x : Network). x.provider) e ∙ u.has_provider) done in
        let room = quarter net.size c.size wide u.size_bound in
        let pos = one-le-pow (32 - c.size) 2 (omega arith) in
        let inside = g.2 in (at_lo + g.0 * 2 ^ (32 - c.size), g.1, omega arith, omega arith)
