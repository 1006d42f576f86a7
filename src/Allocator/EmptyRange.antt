-- ===== src/Allocator/EmptyRange.antt =====
-- What the allocator does with a range whose upper bound lies under the lower one. The number of
-- subnets is computed modulo 2^32, so it is large, and the candidates wrap.
use smuggle.Prelude.{ℕ, suc, ◌+◌, ◌*◌, ◌≤◌, ◌<◌, ◌≡◌, refl, arith, true, false, String}
use smuggle.Prelude.{some, [], leb, ltb, ◌==◌, nat_eq, ◌∙◌, ap}
use smuggle.Prelude.Error.{ok}
use smuggle.Prelude.Int.{ℤ, pos, ◌+ℤ◌, ◌-ℤ◌}
use smuggle.Ipv4.{u32}
use smuggle.Network.{Network, Ipv4Config, ProviderConfig, subnet_step}
use smuggle.Subnet.{Subnet, default_subnet_ttl}
use smuggle.Fingerprint.{Fingerprint}
use smuggle.Allocator.{
  found, is_int31, total_subnets, probe, find_random_subnet, fall_back, find_subnet, conclude,
  create_subnet, generate_ipv4_subnet, used_subnets,
}

module _ (int31n : ℕ → ℕ → ℕ) (c : Ipv4Config) (ip : ℕ) where
  first_probe :
      (left step total : ℕ)
      → is_int31 total ≡ true
      → ip ≡ u32 (c.min + u32 (u32 (int31n 0 (u32 total)) * step))
      → ip ≤ c.max
      → probe int31n (suc left) 0 c [] step total ≡ found ip
  unfolding probe
  first_probe left step total small at le =
      let in_range : ltb c.max ip ≡ false = ground arith in rw (small, ← at, in_range)

  first_draw :
      (step total : ℕ)
      → is_int31 total ≡ true
      → ip ≡ u32 (c.min + u32 (u32 (int31n 0 (u32 total)) * step))
      → ip ≤ c.max
      → find_random_subnet int31n c [] step total ≡ found ip
  unfolding find_random_subnet
  first_draw step total small at le =
      ap (fall_back int31n c [] step) (first_probe 999 step total small at le) ∙ kept step
    where
      kept : (step : ℕ) → fall_back int31n c [] step (found ip) ≡ found ip
      kept step = unfold fall_back in refl

  found_first :
      (subnet_step c.size == 0) ≡ false
      → is_int31 (total_subnets c) ≡ true
      → ip ≡ u32 (c.min + u32 (u32 (int31n 0 (u32 (total_subnets c))) * subnet_step c.size))
      → ip ≤ c.max
      → find_subnet int31n c [] ≡ found ip
  unfolding find_subnet
  found_first some_step small at le =
      let some_total : (total_subnets c == 0) ≡ false = ground arith in
      let sparse : leb (4 * total_subnets c) 0 ≡ false = ground arith in
      rw (some_step, some_total, sparse)
        (first_draw (subnet_step c.size) (total_subnets c) small at le)

  module _ {IP : Type 0} (fp : Fingerprint IP) (now : ℤ) (id : String) (n : Network) where
    -- On an empty range, for a network that has no subnet yet, a first draw whose candidate wraps
    -- to at most the upper bound grants an address under the lower bound, outside the range. The
    -- error about an invalid range is not returned.
    pub generate_ipv4_subnet_escapes :
        (p : ProviderConfig)
        → n.ipv4 ≡ some c
        → n.provider ≡ some p
        → c.max < c.min
        → (subnet_step c.size == 0) ≡ false
        → is_int31 (total_subnets c) ≡ true
        → ip ≡ u32 (c.min + u32 (u32 (int31n 0 (u32 (total_subnets c))) * subnet_step c.size))
        → ip ≤ c.max
        → (s : Subnet IP) × (generate_ipv4_subnet int31n fp now id n [] ≡ ok s)
          × (s.ipv4_network ≡ some (record { ip = ip; size = c.size }))
          × (ip < c.min)
    unfolding generate_ipv4_subnet used_subnets conclude create_subnet
    generate_ipv4_subnet_escapes p has_c has_p empty some_step small at le =
        (granted_at p, ground (arith, found_first some_step small at le), refl, omega arith)
      where
        granted_at : ProviderConfig → Subnet IP
        granted_at q = record {
          client_id = id;
          network_name = n.name;
          provider = q.name;
          host_ipv4 = fp.ipv4_addr;
          config = q.config;
          expiration = now +ℤ default_subnet_ttl;
          expired = false;
          ipv4_network = some (record { ip = ip; size = c.size });
          mtu = fp.iface.mtu -ℤ pos 50;
        }
