-- ===== src/Allocator/Generate.antt =====
-- `GenerateIPv4Subnet` on a range that holds an address: it grants a free subnet of the range, or
-- reports a full network when every subnet of the range is taken.
use native.Mathlib.Nat.{div-add-mod', one-le-pow, pow-le-pow_right, mul-le-mul_right}
use smuggle.Prelude.{ℕ, zero, suc, ◌+◌, ◌-◌, ◌*◌, ◌/◌, ◌^◌, ◌≤◌, ◌<◌, ◌≡◌, refl, arith, true, false}
use smuggle.Prelude.{
  String, List, [], ◌∷◌, subst, sym, contains, Bool-cases, inl, inr, ltb, nat_eq, some, ◌==◌,
  if◌then◌else◌,
}
use smuggle.Prelude.Error.{Result, ok, err, panic, errorf}
use smuggle.Prelude.Int.{ℤ}
use smuggle.Ipv4.{u32}
use smuggle.Network.{Network, Ipv4Config, ProviderConfig, subnet_step}
use smuggle.Network.Defaults.{subnet_step_lem}
use smuggle.Subnet.{Subnet}
use smuggle.Fingerprint.{Fingerprint}
use smuggle.Allocator.{
  Search, found, exhausted, invalid_range, crashed, out_of_fuel, find_sequential_subnet, probe,
  find_random_subnet, fall_back, find_subnet, total_subnets, is_int31, is_dense, max_attempts,
  generate_ipv4_subnet, conclude, create_subnet, used_subnets,
}
use smuggle.Allocator.Scan.{FirstFree, scan-FirstFree}
use smuggle.Allocator.Used.{Taken, Free, used-Taken, unused-Free}

-- A range with at least one address, and a number of subnets that `int32` holds.
pub record IsRange (c : Ipv4Config) : Type 0 where
  pub size_pos : 0 < c.size
  pub size_bound : c.size ≤ 32
  pub ordered : c.min ≤ c.max
  pub top : c.max < 4294967296
  pub few : (c.max - c.min) / 2 ^ (32 - c.size) + 1 < 2147483648

-- What a search may end with: a free candidate, or no free candidate at all.
abbrev Searched : Ipv4Config → List ℕ → ℕ → Search → Type 0
Searched c used step (found a) =
    (k : ℕ) × (a ≡ c.min + k * step) × (a ≤ c.max) × (contains used a ≡ false)
Searched c used step exhausted =
    (j : ℕ) → c.min + j * step ≤ c.max → contains used (c.min + j * step) ≡ true
Searched c used step invalid_range = ⊥
Searched c used step (crashed p) = ⊥
Searched c used step out_of_fuel = ⊥

Searched-of_first :
    (c : Ipv4Config) (used : List ℕ) (step : ℕ) (r : Search)
    → FirstFree used c.max step c.min r
    → Searched c used step r
Searched-of_first c used step (found a) (k, at, le, free, before) = (k, at, le, free)
Searched-of_first c used step exhausted h = h
Searched-of_first c used step invalid_range h = h
Searched-of_first c used step (crashed p) h = h
Searched-of_first c used step out_of_fuel h = h

-- Giving up after random attempts says nothing, so the sequential search follows.
abbrev Probed : Ipv4Config → List ℕ → ℕ → Search → Type 0
Probed c used step (found a) = Searched c used step (found a)
Probed c used step exhausted = Unit
Probed c used step invalid_range = ⊥
Probed c used step (crashed p) = ⊥
Probed c used step out_of_fuel = ⊥

le-pred_of_suc : (i q : ℕ) → i < q + 1 → i ≤ q
le-pred_of_suc i q h = omega arith

index_fits : (i d step : ℕ) → 0 < step → i < d / step + 1 → i * step ≤ d
index_fits i d step pos h =
    omega (arith, mul-le-mul_right step (le-pred_of_suc i (d / step) h), div-add-mod' d step)

-- A candidate whose index is in bounds lies in the range, so no sum wraps.
candidate_fits :
    (i lo hi step : ℕ)
    → 0 < step
    → lo ≤ hi
    → hi < 4294967296
    → i < (hi - lo) / step + 1
    → i < 2147483648
    → (u32 (lo + u32 (u32 i * step)) ≡ lo + i * step) × (lo + i * step ≤ hi)
candidate_fits i lo hi step pos le top h small =
    let fits = index_fits i (hi - lo) step pos h in
    let exact : u32 i ≡ i = omega arith in (rw exact (omega arith), omega arith)

pub pow_half : (s : ℕ) → 0 < s → s ≤ 32 → 2 ^ (32 - s) ≤ 2147483648
pow_half s pos h = pow-le-pow_right {n = 2} (omega arith) {i = 32 - s} {j = 31} (omega arith)

total_lem :
    (c : Ipv4Config) → IsRange c → total_subnets c ≡ (c.max - c.min) / subnet_step c.size + 1
total_lem c r =
    let exact : u32 (c.max + 4294967296 - c.min) ≡ c.max - c.min = omega (arith, r) in rw exact

-- What the result says, for the network `n` with the range `c` and the subnets in the store.
module _ {IP : Type 0} (id : String) (n : Network) (c : Ipv4Config)
    (subnets : List (Subnet IP)) where
  abbrev pub Grant : Subnet IP → Type 0
  Grant s =
      (k : ℕ) × (s.ipv4_network
        ≡ some (record { ip = c.min + k * 2 ^ (32 - c.size); size = c.size }))
      × (c.min + k * 2 ^ (32 - c.size) ≤ c.max)
      × Free n.name (c.min + k * 2 ^ (32 - c.size)) subnets
      × (s.network_name ≡ n.name)
      × (s.client_id ≡ id)
      × (s.expired ≡ false)

  abbrev pub Allocated : Result (Subnet IP) → Type 0
  Allocated (ok s) = Grant s
  Allocated (err e) =
      (e ≡ errorf "network %s is full" (n.name ∷ []))
      × ((j : ℕ)
          → c.min + j * 2 ^ (32 - c.size) ≤ c.max
          → Taken n.name (c.min + j * 2 ^ (32 - c.size)) subnets)
  Allocated (panic p) = ⊥

module _ (int31n : ℕ → ℕ → ℕ) (bounded : (k n : ℕ) → 0 < n → int31n k n < n) where
  module _ (c : Ipv4Config) (used : List ℕ) (step total : ℕ) (pos : 0 < step)
      (ordered : c.min ≤ c.max) (top : c.max < 4294967296)
      (count : total ≡ (c.max - c.min) / step + 1) (few : total < 2147483648) where
    probe-Probed :
        (left attempt : ℕ) → Probed c used step (probe int31n left attempt c used step total)
    unfolding probe
    probe-Probed zero attempt = tt
    probe-Probed (suc left) attempt =
        let some_total : 0 < u32 total = omega arith in
        let draw = bounded attempt (u32 total) some_total in
        let i : ℕ = int31n attempt (u32 total) in
        let (exact, inside) =
          candidate_fits i c.min c.max step pos ordered top (omega arith) (omega arith) in
        let positive : is_int31 total ≡ true = ground arith in
        let in_range : ltb c.max (c.min + i * step) ≡ false = ground arith in
        elim (Bool-cases (contains used (c.min + i * step))) [
          | inl taken ↦ rw (positive, exact, in_range, taken) (probe-Probed left (attempt + 1))
          | inr free ↦ rw (positive, exact, in_range, free) (i, refl, inside, free)
        ]

    sequential :
        (half : step ≤ 2147483648) → Searched c used step (find_sequential_subnet c used step)
    unfolding find_sequential_subnet
    sequential half =
        Searched-of_first c used step _ (scan-FirstFree used c.max step pos half top c.min)

    -- The fallback turns "gave up" into the answer of the sequential search.
    fall_back-Searched :
        (half : step ≤ 2147483648) (r : Search)
        → Probed c used step r
        → Searched c used step (fall_back int31n c used step r)
    unfolding fall_back
    fall_back-Searched half (found a) h = h
    fall_back-Searched half exhausted h = sequential half
    fall_back-Searched half invalid_range h = h
    fall_back-Searched half (crashed p) h = h
    fall_back-Searched half out_of_fuel h = h

  searches :
      (c : Ipv4Config) (used : List ℕ) (step total : ℕ)
      → IsRange c
      → step ≡ 2 ^ (32 - c.size)
      → total ≡ (c.max - c.min) / step + 1
      → Searched c used step (
          if step == 0
          then crashed "integer divide by zero"
          else if total == 0
          then invalid_range
          else if is_dense used total
          then find_sequential_subnet c used step
          else find_random_subnet int31n c used step total)
  unfolding find_random_subnet
  searches c used step total r is_pow count =
      let pos : 0 < step = rw is_pow (one-le-pow (32 - c.size) 2 (omega arith)) in
      let half : step ≤ 2147483648 = rw is_pow (pow_half c.size r.size_pos r.size_bound) in
      let few : total < 2147483648 = rw (count, is_pow) r.few in
      let some_step : (step == 0) ≡ false = ground arith in
      let some_total : (total == 0) ≡ false = ground arith in
      let drawn =
        probe-Probed c used step total pos r.ordered r.top count few (max_attempts used) 0 in
      elim (Bool-cases (is_dense used total)) [
        | inl dense ↦
            rw (some_step, some_total, dense)
              (sequential c used step total pos r.ordered r.top count few half)
        | inr sparse ↦
            rw (some_step, some_total, sparse)
              (fall_back-Searched c used step total pos r.ordered r.top count few half _ drawn)
      ]

  find_subnet-Searched :
      (c : Ipv4Config) (used : List ℕ)
      → IsRange c
      → Searched c used (2 ^ (32 - c.size)) (find_subnet int31n c used)
  unfolding find_subnet
  find_subnet-Searched c used r =
      let step = subnet_step_lem c.size r.size_pos r.size_bound in
      subst (λ (t : ℕ). Searched c used t (find_subnet int31n c used)) step
        (searches c used (subnet_step c.size) (total_subnets c) r step (total_lem c r))

  module _ {IP : Type 0} (fp : Fingerprint IP) (now : ℤ) (id : String) (n : Network)
      (c : Ipv4Config) (subnets : List (Subnet IP)) where
    concluded :
        (p : ProviderConfig) (r : Search)
        → n.provider ≡ some p
        → Searched c (used_subnets n.name subnets []) (2 ^ (32 - c.size)) r
        → Allocated id n c subnets (conclude int31n fp now id n c r)
    unfolding conclude create_subnet
    concluded p (found a) has_p (k, at, le, free) =
        rw has_p
          (k, rw at, rw at at le, rw at at (unused-Free n.name a subnets free), refl, refl, refl)
    concluded p exhausted has_p all = (refl, λ j le. used-Taken n.name _ subnets (all j le))
    concluded p invalid_range has_p h = absurd h
    concluded p (crashed m) has_p h = h
    concluded p out_of_fuel has_p h = h

    generate-conclude :
        n.ipv4 ≡ some c
        → generate_ipv4_subnet int31n fp now id n subnets
          ≡ conclude int31n fp now id n c (find_subnet int31n c (used_subnets n.name subnets []))
    unfolding generate_ipv4_subnet
    generate-conclude has_c = ground arith

    -- With a usable range the result is a free subnet of the range for this client, or the error
    -- that the network is full, and then every subnet of the range is taken. It never panics, and
    -- the search always ends.
    pub generate_ipv4_subnet-Allocated :
        (p : ProviderConfig)
        → IsRange c
        → n.ipv4 ≡ some c
        → n.provider ≡ some p
        → Allocated id n c subnets (generate_ipv4_subnet int31n fp now id n subnets)
    generate_ipv4_subnet-Allocated p r has_c has_p =
        subst (Allocated id n c subnets) (sym (generate-conclude has_c))
          (concluded p _ has_p (find_subnet-Searched c (used_subnets n.name subnets []) r))
