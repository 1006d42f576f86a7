-- ===== src/Allocator.antt =====
-- internal/network/network.go: the choice of a free subnet for a client (`GenerateIPv4Subnet`).
-- The random numbers are the parameter `int31n`: its value at the number of the draw and the bound.
pub mod Scan
pub mod Used
pub mod Generate
pub mod Placement
pub mod EmptyRange
use smuggle.Prelude.{ℕ, zero, suc, ◌+◌, ◌-◌, ◌*◌, ◌/◌, ◌%◌, ◌<◌, max, String, Bool, true, false}
use smuggle.Prelude.{◌&&◌, Option, none, some, List, [], ◌∷◌, ltb, leb, length, contains}
use smuggle.Prelude.{if◌then◌else◌, ◌==◌, nat_eq, string_eq}
use smuggle.Prelude.Error.{Result, ok, err, panic, errorf}
use smuggle.Prelude.Int.{ℤ, pos, ◌+ℤ◌, ◌-ℤ◌}
use smuggle.Ipv4.{Ipv4Addr, Ipv4Net, u32, shl32}
use smuggle.Network.{Network, Ipv4Config, ProviderConfig, subnet_step}
use smuggle.Subnet.{Subnet, default_subnet_ttl}
use smuggle.Fingerprint.{Fingerprint, Interface}

-- What a search for an address ends with. Only the sequential search has fuel.
pub data Search : Type 0 where
  found : Ipv4Addr → Search
  exhausted : Search
  invalid_range : Search
  crashed : String → Search
  out_of_fuel : Search

-- `usedSubnets[ip] = true`: a set of addresses, each listed once.
mark_used : Ipv4Addr → List Ipv4Addr → List Ipv4Addr
mark_used ip used = if contains used ip then used else ip ∷ used

-- The body of the loop over the subnets: only those of the network that have one.
mark_net : String → String → Option Ipv4Net → List Ipv4Addr → List Ipv4Addr
unfolding mark_used
mark_net name other none used = used
mark_net name other (some net) used = if other == name then mark_used net.ip used else used

unfoldable pub used_subnets :
    {IP : Type 0} → String → List (Subnet IP) → List Ipv4Addr → List Ipv4Addr
unfolding mark_net
used_subnets name [] used = used
used_subnets name (s ∷ rest) used =
    used_subnets name rest (mark_net name s.network_name s.ipv4_network used)

-- The loop of `findSequentialSubnet`, over uint32: `lo` is the candidate, and the test before the
-- next round stops a candidate from passing the end of the address space.
unfoldable pub scan : ℕ → List Ipv4Addr → ℕ → ℕ → ℕ → Search
scan zero used hi step lo = out_of_fuel
scan (suc fuel) used hi step lo =
    let rest = scan fuel used hi step (u32 (lo + step)) in
    if leb lo hi
    then (if contains used lo
        then (if ltb (u32 (hi + 4294967296 - step)) lo then exhausted else rest)
        else found lo)
    else exhausted

-- Rounds that the loop makes at most.
abbrev pub scan_fuel : ℕ → ℕ → ℕ → ℕ
scan_fuel hi step lo = suc (suc ((hi - lo) / step))

unfoldable pub find_sequential_subnet : Ipv4Config → List Ipv4Addr → ℕ → Search
find_sequential_subnet c used step = scan (scan_fuel c.max step c.min) used c.max step c.min

-- `int32(hi - lo)` is positive; `Int31n` panics if not.
abbrev pub is_int31 : ℕ → Bool
is_int31 n = ltb 0 (u32 n) && ltb (u32 n) 2147483648

abbrev pub total_subnets : Ipv4Config → ℕ
total_subnets c = u32 (c.max + 4294967296 - c.min) / subnet_step c.size + 1

-- `float64(used) / float64(total) >= 0.8` is exact as 4 * total ≤ 5 * used, since both numbers
-- are far below 2^53 and differ from the bound by more than the rounding.
abbrev pub is_dense : List Ipv4Addr → ℕ → Bool
is_dense used total = leb (4 * total) (5 * length used)

abbrev pub max_attempts : List Ipv4Addr → ℕ
max_attempts used = max (max (length used * 3) 100) 1000

module _ (int31n : ℕ → ℕ → ℕ) where
  -- The loop of `findRandomSubnet`, with the attempts left and the number of this one.
  unfoldable pub probe : ℕ → ℕ → Ipv4Config → List Ipv4Addr → ℕ → ℕ → Search
  probe zero attempt c used step total = exhausted
  probe (suc left) attempt c used step total =
      let rest = probe left (attempt + 1) c used step total in
      let candidate = u32 (c.min + u32 (u32 (int31n attempt (u32 total)) * step)) in
      if is_int31 total
      then (if ltb c.max candidate
          then rest
          else if contains used candidate
          then rest
          else found candidate)
      else crashed "invalid argument to Int31n"

  unfoldable pub fall_back : Ipv4Config → List Ipv4Addr → ℕ → Search → Search
  fall_back c used step exhausted = find_sequential_subnet c used step
  fall_back c used step (found ip) = found ip
  fall_back c used step invalid_range = invalid_range
  fall_back c used step (crashed p) = crashed p
  fall_back c used step out_of_fuel = out_of_fuel

  unfoldable pub find_random_subnet : Ipv4Config → List Ipv4Addr → ℕ → ℕ → Search
  find_random_subnet c used step total =
      fall_back c used step (probe (max_attempts used) 0 c used step total)

  -- The two searches, behind the division by the subnet's size and the test `totalSubnets <= 0`.
  unfoldable pub find_subnet : Ipv4Config → List Ipv4Addr → Search
  find_subnet c used =
      let step = subnet_step c.size in
      let total = total_subnets c in
      if step == 0
      then crashed "integer divide by zero"
      else if total == 0
      then invalid_range
      else if is_dense used total
      then find_sequential_subnet c used step
      else find_random_subnet c used step total

  module _ {IP : Type 0} (fp : Fingerprint IP) (now : ℤ) where
    unfoldable pub create_subnet : String → Network → Ipv4Config → Ipv4Addr → Result (Subnet IP)
    create_subnet id n c ip = elim n.provider [
      | none ↦ panic "nil pointer dereference"
      | some p ↦ ok (record {
        client_id = id;
        network_name = n.name;
        provider = p.name;
        host_ipv4 = fp.ipv4_addr;
        config = p.config;
        expiration = now +ℤ default_subnet_ttl;
        expired = false;
        ipv4_network = some (record { ip = ip; size = c.size });
        mtu = fp.iface.mtu -ℤ pos 50;
      })
    ]

    -- The arguments of the message about the range are left out.
    unfoldable pub conclude : String → Network → Ipv4Config → Search → Result (Subnet IP)
    conclude id n c (found ip) = create_subnet id n c ip
    conclude id n c exhausted = err (errorf "network %s is full" (n.name ∷ []))
    conclude id n c invalid_range = err (errorf "invalid network range: min=%s max=%s size=%d" [])
    conclude id n c (crashed p) = panic p
    conclude id n c out_of_fuel = panic "out of fuel"

    unfoldable pub generate_ipv4_subnet : String → Network → List (Subnet IP) → Result (Subnet IP)
    generate_ipv4_subnet id n subnets = elim n.ipv4 [
      | none ↦ panic "nil pointer dereference"
      | some c ↦ conclude id n c (find_subnet c (used_subnets n.name subnets []))
    ]
