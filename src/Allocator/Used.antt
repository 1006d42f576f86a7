-- ===== src/Allocator/Used.antt =====
-- The set of used addresses against the list of subnets that it is built from.
use text.Mathlib.TextEquality.{eq_iff}
use smuggle.Prelude.{ℕ, String, Bool, true, false, ◌&&◌, ◌||◌, List, [], ◌∷◌, some, none, ◌≡◌, refl}
use smuggle.Prelude.{◌⊎◌, inl, inr, arith, contains, ◌==◌, nat_eq, string_eq, All, Bool-cases}
use smuggle.Prelude.{Option}
use smuggle.Ipv4.{Ipv4Net}
use smuggle.Subnet.{Subnet}
use smuggle.Allocator.{used_subnets, mark_net, mark_used}

module _ {IP : Type 0} (name : String) (ip : ℕ) where
  -- The subnet lies in the network `name` and has the address `ip`.
  abbrev pub Occupies : Subnet IP → Type 0
  Occupies s =
      (s.network_name ≡ name) × (net : Ipv4Net) × (s.ipv4_network ≡ some net) × (net.ip ≡ ip)

  abbrev pub Taken : List (Subnet IP) → Type 0
  Taken [] = ⊥
  Taken (s ∷ rest) = Occupies s ⊎ Taken rest

  abbrev pub Free : List (Subnet IP) → Type 0
  Free = All (λ s. ¬ (Occupies s))

occupies_net : String → ℕ → String → Option Ipv4Net → Bool
occupies_net name ip other none = false
occupies_net name ip other (some net) = other == name && ip == net.ip

occupied : {IP : Type 0} → String → ℕ → List (Subnet IP) → Bool
unfolding occupies_net
occupied name ip [] = false
occupied name ip (s ∷ rest) =
    occupies_net name ip s.network_name s.ipv4_network || occupied name ip rest

same : (a ip : ℕ) (used : List ℕ) → a ≡ ip → contains used a ≡ contains used ip
same a ip used e = rw e

contains-mark_used :
    (a ip : ℕ) (used : List ℕ) → contains (mark_used a used) ip ≡ (ip == a || contains used ip)
unfolding mark_used
contains-mark_used a ip used = ground (arith, same a ip used)

contains-mark_net :
    (name other : String) (net : Option Ipv4Net) (ip : ℕ) (used : List ℕ)
    → contains (mark_net name other net used) ip
      ≡ (contains used ip || occupies_net name ip other net)
unfolding mark_net occupies_net
contains-mark_net name other none ip used = ground arith
contains-mark_net name other (some net) ip used = ground (arith, contains-mark_used net.ip ip used)

contains-used_subnets :
    {IP : Type 0} (name : String) (ip : ℕ) (subnets : List (Subnet IP)) (used : List ℕ)
    → contains (used_subnets name subnets used) ip ≡ (contains used ip || occupied name ip subnets)
unfolding used_subnets occupied
contains-used_subnets name ip [] used = ground arith
contains-used_subnets name ip (s ∷ rest) used = ground (
  arith,
  contains-used_subnets name ip rest (mark_net name s.network_name s.ipv4_network used),
  contains-mark_net name s.network_name s.ipv4_network ip used,
)

occupied-Taken :
    {IP : Type 0} (name : String) (ip : ℕ) (subnets : List (Subnet IP))
    → occupied name ip subnets ≡ true
    → Taken name ip subnets
unfolding occupied
occupied-Taken name ip [] h = cc
occupied-Taken name ip (s ∷ rest) h =
    elim (Bool-cases (occupies_net name ip s.network_name s.ipv4_network)) [
      | inl yes_here ↦ inl (occupies s.network_name s.ipv4_network yes_here)
      | inr later ↦ inr (occupied-Taken name ip rest (ground arith))
    ]
  where
    occupies :
        (other : String) (o : Option Ipv4Net)
        → occupies_net name ip other o ≡ true
        → (other ≡ name) × (net : Ipv4Net) × (o ≡ some net) × (net.ip ≡ ip)
    occupies other none e = cc
    occupies other (some net) e = (ground (arith, eq_iff other name), net, refl, ground arith)

Free-of :
    {IP : Type 0} (name : String) (ip : ℕ) (subnets : List (Subnet IP))
    → occupied name ip subnets ≡ false
    → Free name ip subnets
unfolding occupied
Free-of name ip [] h = tt
Free-of name ip (s ∷ rest) h = (
  λ (same, net, some_net, at). ground (arith, eq_iff s.network_name name),
  Free-of name ip rest (ground arith),
)

-- An address in the set is that of some subnet of the network.
pub used-Taken :
    {IP : Type 0} (name : String) (ip : ℕ) (subnets : List (Subnet IP))
    → contains (used_subnets name subnets []) ip ≡ true
    → Taken name ip subnets
used-Taken name ip subnets h =
    occupied-Taken name ip subnets (ground (arith, contains-used_subnets name ip subnets []))

-- An address that is not in the set is that of no subnet of the network.
pub unused-Free :
    {IP : Type 0} (name : String) (ip : ℕ) (subnets : List (Subnet IP))
    → contains (used_subnets name subnets []) ip ≡ false
    → Free name ip subnets
unused-Free name ip subnets h =
    Free-of name ip subnets (ground (arith, contains-used_subnets name ip subnets []))
