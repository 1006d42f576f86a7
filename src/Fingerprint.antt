-- ===== src/Fingerprint.antt =====
-- internal/network/fingerprint.go: which interface and address of the host the agent uses.
-- Package net is a parameter: the interfaces, their addresses, and tests on addresses.
pub mod Choice
use smuggle.Prelude.{ℕ, String, Bool, false, ◌||◌, not, Option, none, some, List, [], ◌∷◌}
use smuggle.Prelude.{if◌then◌else◌, ◌==◌, string_eq}
use smuggle.Prelude.Int.{ℤ}
use smuggle.Prelude.Error.{Result, ok, err, panic, errorf, new_error, wrap, map_err, ◌>>=◌}

-- `net.Interface`, with the two flags that are read.
pub record Interface : Type 0 where
  pub index : ℕ
  pub mtu : ℤ
  pub name : String
  pub is_up : Bool
  pub is_loopback : Bool

-- A `net.Addr` that is a `*net.IPNet`, or of another type.
pub data Addr (IP : Type 0) : Type 0 where
  ip_net : IP → Addr IP
  other_addr : Addr IP

pub record Fingerprint (IP : Type 0) : Type 0 where
  pub iface_name : String
  pub iface : Interface
  pub ipv4_addr : Option IP

pub record Host : Type 1 where
  pub IP : Type 0
  pub interfaces : Result (List Interface)
  pub interface_by_name : String → Result Interface
  pub addrs : Interface → Result (List (Addr IP))
  pub dial_local : Result IP
  pub loopback : IP → Bool
  pub equal : IP → IP → Bool
  pub has_to4 : IP → Bool

module _ (H : Host) where
  open H use {IP, interfaces, interface_by_name, addrs, dial_local, loopback, equal, has_to4}

  -- Some address of the list is not a loopback address.
  unfoldable pub any_routable : List (Addr IP) → Bool
  any_routable [] = false
  any_routable (other_addr ∷ rest) = any_routable rest
  any_routable (ip_net ip ∷ rest) = not (loopback ip) || any_routable rest

  -- The test of one interface in `getFirstNonLoopbackInterface`.
  unfoldable pub is_suitable : Interface → Bool
  unfolding any_routable
  is_suitable i =
      if not i.is_up
      then false
      else if i.is_loopback
      then false
      else elim (addrs i) [ ok l ↦ any_routable l | err _ ↦ false | panic _ ↦ false ]

  unfoldable pub first_non_loopback : List Interface → Result Interface
  unfolding is_suitable
  first_non_loopback [] = err (new_error "no suitable network interface found")
  first_non_loopback (i ∷ rest) = if is_suitable i then ok i else first_non_loopback rest

  any_equal : IP → List (Addr IP) → Bool
  any_equal target [] = false
  any_equal target (other_addr ∷ rest) = any_equal target rest
  any_equal target (ip_net ip ∷ rest) = equal ip target || any_equal target rest

  unfoldable pub owns : IP → Interface → Bool
  unfolding any_equal
  owns target i =
      if not i.is_up
      then false
      else if i.is_loopback
      then false
      else elim (addrs i) [ ok l ↦ any_equal target l | err _ ↦ false | panic _ ↦ false ]

  -- The loop over the interfaces, for the one that has the local address; none if no one has it.
  unfoldable pub find_owner : IP → List Interface → Option Interface
  unfolding owns
  find_owner target [] = none
  find_owner target (i ∷ rest) = if owns target i then some i else find_owner target rest

  unfoldable pub get_default_interface : Result Interface
  unfolding first_non_loopback find_owner
  get_default_interface = do
    all ← map_err (wrap "failed to list interfaces: %w") interfaces
    elim dial_local [
      | err _ ↦ first_non_loopback all
      | panic p ↦ panic p
      | ok local ↦ elim (find_owner local all) [ some i ↦ ok i | none ↦ first_non_loopback all ]
    ]

  -- The first address with a four byte form that is not a loopback address.
  unfoldable pub first_ipv4 : List (Addr IP) → Option IP
  first_ipv4 [] = none
  first_ipv4 (other_addr ∷ rest) = first_ipv4 rest
  first_ipv4 (ip_net ip ∷ rest) =
      let later = first_ipv4 rest in
      if loopback ip then later else if has_to4 ip then some ip else later

  unfoldable pub choose_interface : String → Result Interface
  unfolding get_default_interface
  choose_interface interface_name =
      if interface_name == ""
      then map_err (wrap "failed to get default interface: %w") get_default_interface
      else map_err (wrap "failed to lookup interface: %w") (interface_by_name interface_name)

  unfoldable pub fingerprint : String → Result (Fingerprint IP)
  unfolding choose_interface first_ipv4
  fingerprint interface_name = do
    i ← choose_interface interface_name
    l ← map_err (wrap "failed to get addresses for interface: %w") (addrs i)
    elim (first_ipv4 l) [
      | none ↦ err (errorf "no valid addresses found on interface %s" (i.name ∷ []))
      | some ip ↦ ok (record { iface_name = i.name; iface = i; ipv4_addr = some ip })
    ]
