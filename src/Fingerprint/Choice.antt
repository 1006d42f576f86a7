-- ===== src/Fingerprint/Choice.antt =====
-- The interface and the address that `fingerprint` settles on.
use smuggle.Prelude.{
  String, true, false, Bool-cases, inl, inr, some, Option-cases, List, [], ◌∷◌, ◌≡◌, refl, arith,
  In, string_eq,
}
use smuggle.Prelude.Error.{Result-cases, ok}
use smuggle.Fingerprint.{
  Host, Interface, Addr, ip_net, other_addr, Fingerprint, is_suitable, owns, first_non_loopback,
  find_owner, get_default_interface, first_ipv4, choose_interface, fingerprint,
}

module _ (H : Host) where
  abbrev pub IsRunning : Interface → Type 0
  IsRunning i = (i.is_up ≡ true) × (i.is_loopback ≡ false)

  suitable-IsRunning : (i : Interface) → is_suitable H i ≡ true → IsRunning i
  unfolding is_suitable
  suitable-IsRunning i h = ground arith

  owns-IsRunning : (target : H.IP) (i : Interface) → owns H target i ≡ true → IsRunning i
  unfolding owns
  owns-IsRunning target i h = ground arith

  first_non_loopback-In :
      (l : List Interface) (i : Interface) → first_non_loopback H l ≡ ok i → In i l × IsRunning i
  unfolding first_non_loopback
  first_non_loopback-In [] i h = cc
  first_non_loopback-In (x ∷ rest) i h = elim (Bool-cases (is_suitable H x)) [
    | inl fits ↦ let same : i ≡ x = ground arith in rw same (inl refl, suitable-IsRunning x fits)
    | inr other ↦
        let (here, running) = first_non_loopback-In rest i (ground arith) in (inr here, running)
  ]

  find_owner-In :
      (target : H.IP) (l : List Interface) (i : Interface)
      → find_owner H target l ≡ some i
      → In i l × IsRunning i
  unfolding find_owner
  find_owner-In target [] i h = cc
  find_owner-In target (x ∷ rest) i h = elim (Bool-cases (owns H target x)) [
    | inl fits ↦ let same : i ≡ x = ground arith in rw same (inl refl, owns-IsRunning target x fits)
    | inr other ↦
        let (here, running) = find_owner-In target rest i (ground arith) in (inr here, running)
  ]

  -- The default interface is one of the host's, is up and is no loopback interface, whether it was
  -- found by the local address or by the list alone.
  pub get_default_interface_lem :
      (i : Interface)
      → get_default_interface H ≡ ok i
      → (l : List Interface) × (H.interfaces ≡ ok l) × In i l × IsRunning i
  unfolding get_default_interface
  get_default_interface_lem i h = elim (Result-cases H.interfaces) [
    | inl (l, all) ↦ elim (Result-cases H.dial_local) [
      | inl (local, dialled) ↦ elim (Option-cases (find_owner H local l)) [
        | inl absent ↦
            let (here, running) = first_non_loopback-In l i (ground arith) in
            (l, all, here, running)
        | inr (x, found) ↦
            let same : i ≡ x = ground arith in
            let (here, running) = find_owner-In local l x found in rw same (l, all, here, running)
      ]
      | inr (inl (e, failed)) ↦
          let (here, running) = first_non_loopback-In l i (ground arith) in (l, all, here, running)
      | inr (inr (p, crashed)) ↦ absurd (ground arith)
    ]
    | inr (inl (e, failed)) ↦ absurd (ground arith)
    | inr (inr (p, crashed)) ↦ absurd (ground arith)
  ]

  first_ipv4-In :
      (l : List (Addr H.IP)) (ip : H.IP)
      → first_ipv4 H l ≡ some ip
      → In (ip_net ip) l × (H.loopback ip ≡ false) × (H.has_to4 ip ≡ true)
  unfolding first_ipv4
  first_ipv4-In [] ip h = cc
  first_ipv4-In (other_addr ∷ rest) ip h =
      let (here, routed, short) = first_ipv4-In rest ip h in (inr here, routed, short)
  first_ipv4-In (ip_net x ∷ rest) ip h = elim (Bool-cases (H.loopback x)) [
    | inl loops ↦
        let (here, far, short) = first_ipv4-In rest ip (ground arith) in (inr here, far, short)
    | inr routed ↦ elim (Bool-cases (H.has_to4 x)) [
      | inl short ↦ let same : ip ≡ x = ground arith in rw same (inl refl, routed, short)
      | inr long ↦
          let (here, far, short) = first_ipv4-In rest ip (ground arith) in (inr here, far, short)
    ]
  ]

  -- A fingerprint that succeeds has an address of its interface, which has a four byte form and is
  -- no loopback address, and the name of that interface.
  pub fingerprint_lem :
      (name : String) (f : Fingerprint H.IP)
      → fingerprint H name ≡ ok f
      → (l : List (Addr H.IP)) × (ip : H.IP) × (H.addrs f.iface ≡ ok l)
        × (f.ipv4_addr ≡ some ip)
        × In (ip_net ip) l
        × (H.loopback ip ≡ false)
        × (H.has_to4 ip ≡ true)
        × (f.iface_name ≡ f.iface.name)
  unfolding fingerprint
  fingerprint_lem name f h = elim (Result-cases (choose_interface H name)) [
    | inl (i, chosen) ↦ elim (Result-cases (H.addrs i)) [
      | inl (l, listed) ↦ elim (Option-cases (first_ipv4 H l)) [
        | inl absent ↦ absurd (ground arith)
        | inr (ip, found) ↦
            let same : f ≡ record { iface_name = i.name; iface = i; ipv4_addr = some ip } =
              ground arith in
            let (here, routed, short) = first_ipv4-In l ip found in
            rw same (l, ip, listed, refl, here, routed, short, refl)
      ]
      | inr (inl (e, failed)) ↦ absurd (ground arith)
      | inr (inr (p, crashed)) ↦ absurd (ground arith)
    ]
    | inr (inl (e, failed)) ↦ absurd (ground arith)
    | inr (inr (p, crashed)) ↦ absurd (ground arith)
  ]
