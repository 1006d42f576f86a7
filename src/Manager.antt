-- ===== src/Manager.antt =====
-- internal/network/network.go: the network manager, which finds the host's interface and passes
-- calls on to the provider of a subnet by its name.
use smuggle.Prelude.{String, Option, none, some, List, [], ◌∷◌, if◌then◌else◌, ◌==◌, string_eq}
use smuggle.Prelude.Error.{Result, ok, err, new_error, errorf, ◌>>=◌}
use smuggle.Prelude.State.{St, fail}
use smuggle.Subnet.{Subnet}
use smuggle.Fingerprint.{Fingerprint, Host, Interface, fingerprint}

-- A provider, as the manager calls it.
pub record Provider (S IP : Type 0) : Type 1 where
  pub set_local : Subnet IP → Interface → St S (Subnet IP)
  pub set_remote : Subnet IP → St S (Unit {0})
  pub delete_remote : Subnet IP → St S (Unit {0})

-- `m.providers[name]`
abbrev pub find_provider :
    {S IP : Type 0} → List (String × Provider S IP) → String → Option (Provider S IP)
find_provider [] name = none
find_provider ((key, p) ∷ rest) name = if name == key then some p else find_provider rest name

pub record Manager (S IP : Type 0) : Type 1 where
  pub fingerprint_of : Fingerprint IP
  pub providers : List (String × Provider S IP)

-- `setProviderMap` on Linux, with the VXLAN provider.
abbrev pub provider_map : {S IP : Type 0} → Provider S IP → List (String × Provider S IP)
provider_map vxlan = ("vxlan", vxlan) ∷ []

-- `NewManager`, with the result of making the manager of iptables.
unfoldable pub new_manager :
    {S : Type 0} (H : Host)
    → String
    → Result (Unit {0})
    → Provider S H.IP
    → String
    → Result (Manager S H.IP)
new_manager H goos iptables vxlan interface_name =
    if goos == "linux"
    then (fingerprint H interface_name >>= λ f.
        iptables >>= λ u. ok (record { fingerprint_of = f; providers = provider_map vxlan }))
    else err (new_error "network manager is only supported on Linux")

abbrev pub with_provider :
    {S IP A : Type 0} → Manager S IP → Subnet IP → (Provider S IP → St S A) → St S A
with_provider m x call = elim (find_provider m.providers x.provider) [
  | none ↦ fail (errorf "unknown network provider %q" (x.provider ∷ []))
  | some p ↦ call p
]

unfoldable pub set_local : {S IP : Type 0} → Manager S IP → Subnet IP → St S (Subnet IP)
set_local m x = with_provider m x (λ p. p.set_local x m.fingerprint_of.iface)

unfoldable pub set_remote : {S IP : Type 0} → Manager S IP → Subnet IP → St S (Unit {0})
set_remote m x = with_provider m x (λ p. p.set_remote x)

unfoldable pub delete_remote : {S IP : Type 0} → Manager S IP → Subnet IP → St S (Unit {0})
delete_remote m x = with_provider m x (λ p. p.delete_remote x)
