-- ===== src/Tests/Plans.antt =====
-- Addresses, network configurations and allocations.
use smuggle.Prelude.{
  ℕ, String, true, false, none, some, [], ◌∷◌, ◌≡◌, ◌<◌, ◌≤◌, ◌↔◌, ◌^◌, ◌-◌, ◌+◌, refl, arith, inl,
}
use smuggle.Prelude.Error.{ok}
use smuggle.Prelude.Int.{pos, ◌+ℤ◌, ◌-ℤ◌}
use smuggle.Ipv4.{Ipv4Net, overlap, shl32}
use smuggle.Ipv4.Overlap.{IsNet, Covers, overlap_iff}
use smuggle.Network.{Network, Ipv4Config, ProviderConfig, validate, canonicalize, canonical_masq}
use smuggle.Network.Range.{IsParsed, IsAccepted, validate_iff}
use smuggle.Network.Defaults.{IsBlock, with_range, canonicalize_unset}
use smuggle.Subnet.{Subnet}
use smuggle.Fingerprint.{Fingerprint}
use smuggle.Allocator.{
  find_subnet, find_sequential_subnet, find_random_subnet, probe, fall_back, used_subnets, conclude,
  create_subnet, generate_ipv4_subnet, scan, scan_fuel,
}
use smuggle.Allocator.Scan.{FirstFree, scan-FirstFree}
use smuggle.Allocator.Generate.{IsRange, Allocated, generate_ipv4_subnet-Allocated}
use smuggle.Allocator.Placement.{candidate, generate_ipv4_subnet_apart, generate_ipv4_subnet_inside}
use smuggle.Allocator.EmptyRange.{generate_ipv4_subnet_escapes}

-- 10.10.0.0/16, and the /24 of the client with the id "b".
abbrev pub net : Ipv4Net
net = record { ip = 168427520; size = 16 }

abbrev pub net_b : Ipv4Net
net_b = record { ip = 168427776; size = 24 }

net-IsNet : IsNet net
net-IsNet = record { ip_bound = omega arith; size_bound = omega arith }

net_b-IsNet : IsNet net_b
net_b-IsNet = record { ip_bound = omega arith; size_bound = omega arith }

overlap_iff_example : (overlap net net_b ≡ true) ↔ ((x : ℕ) × Covers net x × Covers net_b x)
overlap_iff_example = overlap_iff net net_b net-IsNet net_b-IsNet

abbrev pub vxlan : ProviderConfig
vxlan = record { name = "vxlan"; config = none }

abbrev unset : Ipv4Config
unset = record { network = some net; min = 0; max = 0; size = 24 }

abbrev pub blue : Network
blue = record { name = "blue"; ip_masq = none; ipv4 = some unset; provider = some vxlan }

unset-IsAccepted : IsAccepted blue unset net vxlan
unset-IsAccepted = record {
  has_ipv4 = refl;
  has_network = refl;
  size_pos = omega arith;
  size_bound = omega arith;
  min_in = inl refl;
  has_provider = refl;
  is_vxlan = refl;
}

-- The whole network, with its last address as the lower bound.
abbrev last_min : Ipv4Config
last_min = record { network = some net; min = 168493055; max = 7; size = 32 }

abbrev yellow : Network
yellow = record { name = "yellow"; ip_masq = none; ipv4 = some last_min; provider = some vxlan }

net-IsParsed : IsParsed net
net-IsParsed = record { prefix_bound = omega arith; ends = omega arith }

validate_iff_example :
    (validate yellow ≡ ok tt)
    ↔ ((c : Ipv4Config) × (m : Ipv4Net) × (p : ProviderConfig) × IsAccepted yellow c m p)
validate_iff_example = validate_iff yellow net-IsParsed

yellow_valid : validate yellow ≡ ok tt
unfolding validate shl32
yellow_valid = refl

net-IsBlock : IsBlock net
net-IsBlock = record {
  block_size_pos = omega arith;
  block_size = omega arith;
  block_end = omega arith;
}

blue_canonical : canonicalize blue ≡ ok (with_range blue unset 168427776 168492799)
blue_canonical =
    canonicalize_unset blue unset net vxlan unset-IsAccepted net-IsBlock refl refl (omega arith)

-- One subnet for the whole network.
abbrev whole : Ipv4Config
whole = record { network = some net; min = 0; max = 0; size = 16 }

abbrev red : Network
red = record { name = "red"; ip_masq = none; ipv4 = some whole; provider = some vxlan }

whole-IsAccepted : IsAccepted red whole net vxlan
whole-IsAccepted = record {
  has_ipv4 = refl;
  has_network = refl;
  size_pos = omega arith;
  size_bound = omega arith;
  min_in = inl refl;
  has_provider = refl;
  is_vxlan = refl;
}

scan-FirstFree_example :
    FirstFree
      (168427776 ∷ [])
      168492799
      256
      168427776
      (scan (scan_fuel 168492799 256 168427776) (168427776 ∷ []) 168492799 256 168427776)
scan-FirstFree_example =
    scan-FirstFree (168427776 ∷ []) 168492799 256 (omega arith) (omega arith) (omega arith)
      168427776

-- A source of numbers that always gives 0.
abbrev pub zeros : ℕ → ℕ → ℕ
zeros k n = 0

zeros_bounded : (k n : ℕ) → 0 < n → zeros k n < n
zeros_bounded k n h = h

abbrev pub host : Fingerprint ℕ
host = record {
  iface_name = "eth0";
  iface = record { index = 2; mtu = pos 1500; name = "eth0"; is_up = true; is_loopback = false };
  ipv4_addr = some 7;
}

abbrev ranged : Ipv4Config
ranged = record { network = some net; min = 168427776; max = 168492799; size = 24 }

abbrev pub green : Network
green = record { name = "blue"; ip_masq = some true; ipv4 = some ranged; provider = some vxlan }

ranged-IsRange : IsRange ranged
ranged-IsRange = record {
  size_pos = omega arith;
  size_bound = omega arith;
  ordered = omega arith;
  top = omega arith;
  few = omega arith;
}

abbrev pub owned : String → Ipv4Net → Subnet ℕ
owned id m = record {
  client_id = id;
  network_name = "blue";
  provider = "vxlan";
  host_ipv4 = some 7;
  config = none;
  expiration = pos 86400000000000;
  expired = false;
  ipv4_network = some m;
  mtu = pos 1450;
}

abbrev second : Ipv4Net
second = record { ip = 168428032; size = 24 }

generate_ipv4_subnet-Allocated_example :
    Allocated "a" green ranged
      (owned "b" second ∷ [])
      (generate_ipv4_subnet zeros host (pos 0) "a" green (owned "b" second ∷ []))
generate_ipv4_subnet-Allocated_example =
    generate_ipv4_subnet-Allocated zeros zeros_bounded host (pos 0) "a" green ranged
      (owned "b" second ∷ []) vxlan ranged-IsRange refl refl

granted_first :
    generate_ipv4_subnet zeros host (pos 0) "a" green (owned "b" second ∷ []) ≡ ok (owned "a" net_b)
unfolding generate_ipv4_subnet find_subnet find_sequential_subnet find_random_subnet probe fall_back
    scan used_subnets conclude create_subnet shl32 ◌+ℤ◌ ◌-ℤ◌
granted_first = refl

generate_ipv4_subnet_apart_example :
    (m : Ipv4Net) × (some net_b ≡ some m) × (overlap m (candidate ranged 1) ≡ false)
generate_ipv4_subnet_apart_example =
    generate_ipv4_subnet_apart zeros zeros_bounded host (pos 0) "a" green (owned "b" second ∷ [])
      ranged vxlan (owned "a" net_b) (owned "b" second) 1 ranged-IsRange refl refl granted_first
      (inl refl) refl refl (omega arith)

generate_ipv4_subnet_inside_example :
    (ip : ℕ) × (some net_b ≡ some (record { ip = ip; size = 24 }))
    × (168427520 ≤ ip)
    × (ip + 2 ^ (32 - 24) ≤ 168427520 + 2 ^ (32 - 16))
unfolding canonical_masq
generate_ipv4_subnet_inside_example =
    generate_ipv4_subnet_inside zeros zeros_bounded host (pos 0) "a" green (owned "b" second ∷ [])
      unset net vxlan blue (owned "a" net_b) unset-IsAccepted net-IsBlock refl refl (omega arith)
      blue_canonical granted_first

-- The range that a whole network of 10.10.0.0/16 gets, and a source whose first number is 65000.
abbrev narrow : Ipv4Config
narrow = record { network = some net; min = 168493056; max = 168427519; size = 16 }

abbrev crimson : Network
crimson = record { name = "red"; ip_masq = some true; ipv4 = some narrow; provider = some vxlan }

generate_ipv4_subnet_escapes_example :
    (s : Subnet ℕ) × (generate_ipv4_subnet (λ k n. 65000) host (pos 0) "a" crimson [] ≡ ok s)
    × (s.ipv4_network ≡ some (record { ip = 133365760; size = 16 }))
    × (133365760 < 168493056)
unfolding shl32
generate_ipv4_subnet_escapes_example =
    generate_ipv4_subnet_escapes (λ k n. 65000) narrow 133365760 host (pos 0) "a" crimson vxlan refl
      refl (omega arith) refl refl refl (omega arith)
