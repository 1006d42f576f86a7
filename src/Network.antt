-- ===== src/Network.antt =====
-- internal/types/network.go: the configuration of one network, its defaults and its validation.
pub mod Range
pub mod Defaults
use smuggle.Prelude.{ℕ, ◌+◌, ◌-◌, String, ◌<>◌, Bool, true, ◌&&◌, ◌||◌, not, Option, none, some}
use smuggle.Prelude.{List, [], ◌∷◌, ltb, if◌then◌else◌, ◌==◌, nat_eq, string_eq}
use smuggle.Prelude.Error.{Error, Result, ok, err, panic, errorf, new_error, ◌>>=◌}
use smuggle.Ipv4.{Ipv4Addr, Ipv4Net, u32, shl32, host_bits, next_network, empty_ipv4_addr}

pub record Ipv4Config : Type 0 where
  pub network : Option Ipv4Net
  pub min : Ipv4Addr
  pub max : Ipv4Addr
  pub size : ℕ

pub record ProviderConfig : Type 0 where
  pub name : String
  pub config : Option String

pub record Network : Type 0 where
  pub name : String
  pub ip_masq : Option Bool
  pub ipv4 : Option Ipv4Config
  pub provider : Option ProviderConfig

-- `IPv4Addr(1 << (32 - size))`
abbrev pub subnet_step : ℕ → ℕ
subnet_step size = shl32 1 (host_bits size)

-- A nil network is read only where a bound is unset.
canonical_min : Ipv4Config → Result Ipv4Config
canonical_min c =
    if c.min == empty_ipv4_addr
    then elim c.network [
      | none ↦ panic "nil pointer dereference"
      | some net ↦ ok (record c { min = u32 (net.ip + subnet_step c.size) })
    ]
    else ok c

canonical_max : Ipv4Config → Result Ipv4Config
canonical_max c =
    if c.max == empty_ipv4_addr
    then elim c.network [
      | none ↦ panic "nil pointer dereference"
      | some net ↦ ok (record c {
        max = u32 ((next_network net).ip + (4294967296 - subnet_step c.size) + 4294967295);
      })
    ]
    else ok c

canonical_ipv4 : Option Ipv4Config → Result (Option Ipv4Config)
unfolding canonical_min canonical_max
canonical_ipv4 none = ok none
canonical_ipv4 (some c) = do c' ← canonical_min c; c'' ← canonical_max c'; ok (some c'')

unfoldable pub canonical_masq : Option Bool → Option Bool
canonical_masq none = some true
canonical_masq (some b) = some b

unfoldable pub canonicalize : Network → Result Network
unfolding canonical_ipv4 canonical_masq shl32 next_network
canonicalize n = do
  ipv4 ← canonical_ipv4 n.ipv4
  ok (record n { ipv4 = ipv4; ip_masq = canonical_masq n.ip_masq })

unfoldable pub interface_name : Network → String
interface_name n = n.name <> "0"

unfoldable pub bridge_interface_name : Network → String
bridge_interface_name n = n.name <> "brd0"

-- `NextNetwork().IP - 1`, which wraps.
abbrev pub last_addr : Ipv4Net → Ipv4Addr
last_addr net = u32 ((next_network net).ip + 4294967295)

validate_ipv4 : Option Ipv4Config → Result (Unit {0})
validate_ipv4 none = err (new_error "network configuration is empty")
validate_ipv4 (some c) = elim c.network [
  | none ↦ err (new_error "IPv4 network configuration is missing")
  | some net ↦
      if c.size == 0 || ltb 32 c.size
      then err (new_error "IPv4 subnet size must be between 1 and 32")
      else if not (c.min == empty_ipv4_addr) && (ltb c.min net.ip || ltb (last_addr net) c.min)
      then err (new_error "IPv4 minimum address is out of network range")
      else ok tt
]

validate_provider : Option ProviderConfig → Result (Unit {0})
validate_provider none = err (new_error "network provider configuration is missing")
validate_provider (some p) =
    if p.name == "vxlan"
    then ok tt
    else err (errorf "unsupported network provider: %q" (p.name ∷ []))

unfoldable pub validate : Network → Result (Unit {0})
unfolding validate_ipv4 validate_provider next_network
validate n = do _ ← validate_ipv4 n.ipv4; validate_provider n.provider
