-- ===== src/Vxlan/Published.antt =====
-- What other hosts read from the subnet that `SetLocal` gives back.
use smuggle.Prelude.{ℕ, String, some, ◌≡◌, ◌≢◌, refl, sym}
use smuggle.Prelude.Error.{ok, map_err, wrap}
use smuggle.Prelude.State.{lift, >>=-ok, on_error-ok}
use smuggle.Ipv4.{Net}
use smuggle.Subnet.{Subnet, copy}
use smuggle.Vxlan.{parse_config, empty_config}
use smuggle.Vxlan.Interface.{Netlink, Config}
use smuggle.Vxlan.Local.{
  Vxlan, Links, HostInterface, create_ipv4, parse_local, local_config, check_mac, set_local,
}

module _ (N : Net) (K : Netlink N.IP) (attempts : ℕ) (L : Links N.IP) where
  check_mac-ok : (mac : String) → check_mac L mac ≡ ok tt → mac ≢ ""
  check_mac-ok mac h e = let bad : check_mac L "" ≡ ok tt = rw e at h in cc bad

  -- Another host that parses the configuration of the subnet that `SetLocal` gives back reads the
  -- hardware address of the VXLAN link that `SetLocal` has set up, which is not empty, and the rest
  -- of the subnet is as it was. The text that JSON gives for a configuration has to be read back as
  -- that configuration.
  pub set_local-parse_config :
      (message : String) (x y : Subnet N.IP) (i : HostInterface) (s : L.State)
      → ((c : Config) (t : String) → L.marshal c ≡ ok t → K.unmarshal t empty_config ≡ ok c)
      → (set_local L x i s).0 ≡ ok y
      → (given : Config) × (link : Vxlan N.IP) × (parse_local L x.config (local_config L i)
          ≡ ok given)
        × ((create_ipv4 L x given i.index s).0 ≡ ok link)
        × (parse_config N K attempts message y.config
            ≡ ok (record given { vtep_mac = link.hardware_addr }))
        × (link.hardware_addr ≢ "")
        × (y ≡ record x { config = y.config })
  unfolding set_local parse_config
  set_local-parse_config message x y i s codec done =
      let (given, e1, done1, at1) =
        >>=-ok (lift (parse_local L x.config (local_config L i))) _ s done in
      let (link, e2, done2, at2) = >>=-ok (create_ipv4 L x given i.index) _ s done1 in
      let s1 = (create_ipv4 L x given i.index s).1 in
      let (u, e3, done3, at3) = >>=-ok (lift (check_mac L link.hardware_addr)) _ s1 done2 in
      let stored : Config = record given { vtep_mac = link.hardware_addr } in
      let (text, e4, done4, at4) =
        >>=-ok (lift (map_err (wrap "failed to marshal vxlan config: %v") (L.marshal stored))) _ s1
          done3 in
      let reply : Subnet N.IP = record (copy x) { config = some text } in
      let made : reply ≡ y = cc done4 in
      let read : K.unmarshal text empty_config ≡ ok stored =
        codec stored text (
          on_error-ok (wrap "failed to marshal vxlan config: %v") (lift (L.marshal stored)) s1
            e4) in
      (
        given,
        link,
        e1,
        e2,
        rw (sym made) (rw read refl),
        check_mac-ok link.hardware_addr e3,
        rw (sym made) refl,
      )
