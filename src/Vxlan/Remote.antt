-- ===== src/Vxlan/Remote.antt =====
-- The entries of the host's network after `SetRemote` and `DeleteRemote`.
use smuggle.Prelude.{ℕ, String, Bool, true, false, none, some, Option, ◌≡◌, ◌≢◌, ◌∙◌, sym, ap}
use smuggle.Prelude.Error.{Error, Result, ok, err, panic, map_err}
use smuggle.Prelude.State.{>>=-ok, lift, on_error}
use smuggle.Ipv4.{Ipv4Net, Net}
use smuggle.Subnet.{Subnet, subnet_interface_name}
use smuggle.Vxlan.{
  fdb_entry, arp_entry, gateway_ip, remote_route, set_entries, set_remote, delete_entries,
  delete_remote, deref, parse_config, as_vxlan,
}
use smuggle.Vxlan.Interface.{
  Netlink, IsLawful, Family, inet, bridge, Link, vxlan_link, other_link, Config, Neigh,
}
use smuggle.Vxlan.Retry.{retry, retry-ok, retry_keeps}

families_differ : ◌≢◌ {A = Family} inet bridge
families_differ e = cc e

deref-ok : {A : Type 0} (o : Option A) {a : A} → deref o ≡ ok a → o ≡ some a
deref-ok none h = cc
deref-ok (some a) h = cc

module _ (N : Net) (K : Netlink N.IP) (L : IsLawful K) (attempts : ℕ) where
  open L use {has_neigh, has_route}

  abbrev pub HasEntries : Bool → Subnet N.IP → ℕ → String → K.State → Type 0
  HasEntries b x index mac s =
      (host : N.IP) × (net : Ipv4Net) × (x.host_ipv4 ≡ some host)
      × (x.ipv4_network ≡ some net)
      × (has_neigh s (fdb_entry N K attempts index host mac) ≡ b)
      × (has_neigh s (arp_entry N K attempts index (gateway_ip N K attempts net) mac) ≡ b)
      × (has_route s (remote_route N K attempts index net) ≡ b)

  set_entries_lem :
      (x : Subnet N.IP) (index : ℕ) (mac : String) (s : K.State)
      → (set_entries N K attempts x index mac s).0 ≡ ok tt
      → HasEntries true x index mac (set_entries N K attempts x index mac s).1
  unfolding set_entries
  set_entries_lem x index mac s done =
      let (host, has_host, done1, at1) = >>=-ok (lift (deref x.host_ipv4)) _ s done in
      let fdb = fdb_entry N K attempts index host mac in
      let (u1, ok1, done2, at2) = >>=-ok (retry attempts (K.neigh_set fdb)) _ s done1 in
      let s1 = (retry attempts (K.neigh_set fdb) s).1 in
      let (net, has_net, done3, at3) = >>=-ok (lift (deref x.ipv4_network)) _ s1 done2 in
      let arp = arp_entry N K attempts index (gateway_ip N K attempts net) mac in
      let (u2, ok2, ok3, at4) = >>=-ok (retry attempts (K.neigh_set arp)) _ s1 done3 in
      let s2 = (retry attempts (K.neigh_set arp) s1).1 in
      let route = remote_route N K attempts index net in
      let (t1, worked1, end1) =
        retry-ok (K.neigh_set fdb) (L.neigh_set_kernel fdb) attempts s ok1 in
      let (t2, worked2, end2) =
        retry-ok (K.neigh_set arp) (L.neigh_set_kernel arp) attempts s1 ok2 in
      let (t3, worked3, end3) =
        retry-ok (K.route_replace route) (L.route_replace_kernel route) attempts s2 ok3 in
      let last = ap (λ r. r.1) (at1 ∙ at2 ∙ at3 ∙ at4) in
      let kept_route : (y : Neigh N.IP)
          → has_neigh (retry attempts (K.route_replace route) s2).1 y ≡ has_neigh s2 y =
        (λ y.
          retry_keeps (K.route_replace route) (λ t. has_neigh t y)
            (λ t. L.route_replace_neigh route y t) attempts s2) in
      let kept_fdb =
        retry_keeps (K.neigh_set arp) (λ t. has_neigh t fdb)
          (λ t. L.neigh_set_other arp fdb t families_differ) attempts s1 in
      (
        host,
        net,
        deref-ok x.host_ipv4 has_host,
        deref-ok x.ipv4_network has_net,
        rw last (kept_route fdb ∙ kept_fdb ∙ rw end1 (L.neigh_set_ok fdb t1 worked1)),
        rw last (kept_route arp ∙ rw end2 (L.neigh_set_ok arp t2 worked2)),
        rw last (rw end3 (L.route_replace_ok route t3 worked3)),
      )

  delete_entries_lem :
      (x : Subnet N.IP) (index : ℕ) (mac : String) (s : K.State)
      → (delete_entries N K attempts x index mac s).0 ≡ ok tt
      → HasEntries false x index mac (delete_entries N K attempts x index mac s).1
  unfolding delete_entries
  delete_entries_lem x index mac s done =
      let (net, has_net, done1, at1) = >>=-ok (lift (deref x.ipv4_network)) _ s done in
      let route = remote_route N K attempts index net in
      let arp = arp_entry N K attempts index (gateway_ip N K attempts net) mac in
      let (u1, ok1, done2, at2) = >>=-ok (retry attempts (K.route_del route)) _ s done1 in
      let s1 = (retry attempts (K.route_del route) s).1 in
      let (u2, ok2, done3, at3) = >>=-ok (retry attempts (K.neigh_del arp)) _ s1 done2 in
      let s2 = (retry attempts (K.neigh_del arp) s1).1 in
      let (host, has_host, ok3, at4) = >>=-ok (lift (deref x.host_ipv4)) _ s2 done3 in
      let fdb = fdb_entry N K attempts index host mac in
      let (t1, worked1, end1) =
        retry-ok (K.route_del route) (L.route_del_kernel route) attempts s ok1 in
      let (t2, worked2, end2) =
        retry-ok (K.neigh_del arp) (L.neigh_del_kernel arp) attempts s1 ok2 in
      let (t3, worked3, end3) =
        retry-ok (K.neigh_del fdb) (L.neigh_del_kernel fdb) attempts s2 ok3 in
      let last = ap (λ r. r.1) (at1 ∙ at2 ∙ at3 ∙ at4) in
      let kept_arp =
        retry_keeps (K.neigh_del fdb) (λ t. has_neigh t arp)
          (λ t. L.neigh_del_other fdb arp t (λ e. families_differ (sym e))) attempts s2 in
      let kept_route =
        retry_keeps (K.neigh_del fdb) (λ t. has_route t route) (λ t. L.neigh_del_route fdb route t)
          attempts s2
        ∙ retry_keeps (K.neigh_del arp) (λ t. has_route t route)
            (λ t. L.neigh_del_route arp route t) attempts s1 in
      (
        host,
        net,
        deref-ok x.host_ipv4 has_host,
        deref-ok x.ipv4_network has_net,
        rw last (rw end3 (L.neigh_del_ok fdb t3 worked3)),
        rw last (kept_arp ∙ rw end2 (L.neigh_del_ok arp t2 worked2)),
        rw last (kept_route ∙ rw end1 (L.route_del_ok route t1 worked1)),
      )

  -- The interface and the remote end that a subnet names.
  abbrev pub IsNamed : Subnet N.IP → String → ℕ → String → K.State → Type 0
  IsNamed x message index mac s =
      (cfg : Config) × (parse_config N K attempts message x.config ≡ ok cfg)
      × ((K.link_by_name (subnet_interface_name x) s).0 ≡ ok (vxlan_link index))
      × (K.parse_mac cfg.vtep_mac ≡ ok mac)

  as_vxlan-ok : (e : Error) (l : Link) {i : ℕ} → as_vxlan e l ≡ ok i → l ≡ vxlan_link i
  as_vxlan-ok e (vxlan_link j) h = cc
  as_vxlan-ok e other_link h = cc

  map_err-inv :
      {A : Type 0} (f : Error → Error) (r : Result A) {a : A} → map_err f r ≡ ok a → r ≡ ok a
  map_err-inv f (ok a) h = h
  map_err-inv f (err e) h = cc
  map_err-inv f (panic p) h = cc

  -- After a `SetRemote` that succeeds the host has the entry of the forwarding database, the ARP
  -- entry and the route of the remote subnet, on the VXLAN interface of its network and for the
  -- address of the remote end. Attempts that failed before do not matter.
  pub set_remote_lem :
      (x : Subnet N.IP) (s : K.State)
      → (set_remote N K attempts x s).0 ≡ ok tt
      → (index : ℕ) × (mac : String) × IsNamed x "failed to unmarshal vxlan config: %w" index mac s
        × HasEntries true x index mac (set_remote N K attempts x s).1
  unfolding set_remote
  set_remote_lem x s done =
      let name = subnet_interface_name x in
      let (cfg, has_cfg, done1, at1) =
        >>=-ok (lift (parse_config N K attempts "failed to unmarshal vxlan config: %w" x.config)) _
          s done in
      let (link, found_link, done2, at2) = >>=-ok (on_error _ (K.link_by_name name)) _ s done1 in
      let t = (K.link_by_name name s).1 in
      let (index, is_vxlan, done3, at3) = >>=-ok (lift (as_vxlan _ link)) _ t done2 in
      let (mac, has_mac, done4, at4) =
        >>=-ok (lift (map_err _ (K.parse_mac cfg.vtep_mac))) _ t done3 in
      let last = ap (λ r. r.1) (at1 ∙ at2 ∙ at3 ∙ at4) in
      (
        index,
        mac,
        (
          cfg,
          has_cfg,
          map_err-inv _ (K.link_by_name name s).0 found_link ∙ ap ok (as_vxlan-ok _ link is_vxlan),
          map_err-inv _ (K.parse_mac cfg.vtep_mac) has_mac,
        ),
        rw last (set_entries_lem x index mac t done4),
      )

  -- After a `DeleteRemote` that succeeds the host has none of the three entries.
  pub delete_remote_lem :
      (x : Subnet N.IP) (s : K.State)
      → (delete_remote N K attempts x s).0 ≡ ok tt
      → (index : ℕ) × (mac : String) × IsNamed x "failed to unmarshal config: %w" index mac s
        × HasEntries false x index mac (delete_remote N K attempts x s).1
  unfolding delete_remote
  delete_remote_lem x s done =
      let name = subnet_interface_name x in
      let (cfg, has_cfg, done1, at1) =
        >>=-ok (lift (parse_config N K attempts "failed to unmarshal config: %w" x.config)) _ s
          done in
      let (link, found_link, done2, at2) = >>=-ok (on_error _ (K.link_by_name name)) _ s done1 in
      let t = (K.link_by_name name s).1 in
      let (index, is_vxlan, done3, at3) = >>=-ok (lift (as_vxlan _ link)) _ t done2 in
      let (mac, has_mac, done4, at4) =
        >>=-ok (lift (map_err _ (K.parse_mac cfg.vtep_mac))) _ t done3 in
      let last = ap (λ r. r.1) (at1 ∙ at2 ∙ at3 ∙ at4) in
      (
        index,
        mac,
        (
          cfg,
          has_cfg,
          map_err-inv _ (K.link_by_name name s).0 found_link ∙ ap ok (as_vxlan-ok _ link is_vxlan),
          map_err-inv _ (K.parse_mac cfg.vtep_mac) has_mac,
        ),
        rw last (delete_entries_lem x index mac t done4),
      )
