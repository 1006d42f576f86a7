-- ===== src/Tests/Codecs.antt =====
-- A codec for all subnets that changes them as JSON does, and the store on Nomad variables with it.
use native.Mathlib.Nat.{one-le-pow, mul-div_cancel}
use smuggle.Prelude.{
  ℕ, String, Bool, false, Option, none, some, List, [], ◌∷◌, ◌<>◌, ◌≡◌, refl, ap, ap₂, sym, ◌∙◌,
  arith, ◌*◌, ◌/◌, ◌-◌, ◌^◌,
}
use smuggle.Prelude.Error.{Result, ok, err, new_error}
use smuggle.Prelude.Int.{pos}
use smuggle.Ipv4.{Ipv4Net}
use smuggle.Subnet.{Subnet}
use smuggle.Store
use smuggle.Nvar.{Paths, parse_client_subnet_config, set_subnet}
use smuggle.Nvar.Interface.{Codec}
use smuggle.Nvar.Sound.{IsFaithful, IsSound, back}
use smuggle.Nvar.Refinement.{store, stored, at_path, nvar_store-IsLawful}
use smuggle.Tests.Memory.{Vault, memory_variables, memory_variables-IsLawful}
use smuggle.Tests.Plans.{blue}
use smuggle.Tests.Texts.{put_subnet, get_subnet, subnet-Reads}

-- `net.ParseCIDR` gives the network of an address.
abbrev pub masked : Ipv4Net → Ipv4Net
masked m = record m { ip = m.ip / 2 ^ (32 - m.size) * 2 ^ (32 - m.size) }

abbrev pub masked_network : Option Ipv4Net → Option Ipv4Net
masked_network none = none
masked_network (some m) = some (masked m)

abbrev pub raw_config : Option String → Option String
raw_config none = some "null"
raw_config (some c) = some c

abbrev pub normal : Subnet ℕ → Subnet ℕ
normal x = record x { config = raw_config x.config; ipv4_network = masked_network x.ipv4_network }

masked_twice : (m : Ipv4Net) → masked (masked m) ≡ masked m
masked_twice m =
    let same =
      mul-div_cancel (m.ip / 2 ^ (32 - m.size)) (one-le-pow (32 - m.size) 2 (omega arith)) in
    ap (λ (q : ℕ). record m { ip = q * 2 ^ (32 - m.size) }) same

masked_network_twice : (o : Option Ipv4Net) → masked_network (masked_network o) ≡ masked_network o
masked_network_twice none = refl
masked_network_twice (some m) = ap some (masked_twice m)

raw_config_twice : (o : Option String) → raw_config (raw_config o) ≡ raw_config o
raw_config_twice none = refl
raw_config_twice (some c) = refl

normal_twice :
    (x : Subnet ℕ) (b : Bool)
    → normal (record (normal x) { expired = b }) ≡ record (normal x) { expired = b }
normal_twice x b =
    ap₂ (λ c m. record x { config = c; ipv4_network = m; expired = b }) (raw_config_twice x.config)
      (masked_network_twice x.ipv4_network)

abbrev pub got : Option (Subnet ℕ × String) → Result (Subnet ℕ)
got none = err (new_error "unexpected end of JSON input")
got (some (x, rest)) = ok x

abbrev pub joined : List String → String
joined [] = ""
joined (p ∷ []) = p
joined (p ∷ q ∷ rest) = p <> "/" <> joined (q ∷ rest)

abbrev pub json : Codec ℕ
json = record {
  join = joined;
  marshal = λ x. ok (put_subnet (normal x) "");
  unmarshal = λ t. got (get_subnet t);
  unmarshal_network = λ t. ok blue;
}

read_back :
    (x y : Subnet ℕ) (t : String) → json.marshal x ≡ ok t → json.unmarshal t ≡ ok y → y ≡ normal x
read_back x y t put get =
    let text : put_subnet (normal x) "" ≡ t = cc put in
    let both : ok y ≡ ok (normal x) =
      sym get ∙ ap json.unmarshal (sym text) ∙ ap got (subnet-Reads (normal x) "") in
    cc both

pub json-IsFaithful : IsFaithful json
json-IsFaithful = record {
  keeps_key = λ x y t put get.
      let same = read_back x y t put get in
      (ap (λ (z : Subnet ℕ). z.network_name) same, ap (λ (z : Subnet ℕ). z.client_id) same);
  reads_back = λ x y t u b put get again.
      let same = read_back x y t put get in
      let fixed : normal (record y { expired = b }) ≡ record y { expired = b } =
        ap (λ (z : Subnet ℕ). normal (record z { expired = b })) same
        ∙ normal_twice x b
        ∙ ap (λ (z : Subnet ℕ). record z { expired = b }) (sym same) in
      let text : put_subnet (normal (record y { expired = b })) "" ≡ u = cc again in
      ap json.unmarshal (sym text)
      ∙ ap got (subnet-Reads (normal (record y { expired = b })) "")
      ∙ ap ok fixed;
}

-- A subnet with no configuration and an address inside its network, and what is read back of it.
abbrev pub raw : Subnet ℕ
raw = record {
  client_id = "a";
  network_name = "blue";
  provider = "vxlan";
  host_ipv4 = some 7;
  config = none;
  expiration = pos 3;
  expired = false;
  ipv4_network = some (record { ip = 5; size = 31 });
  mtu = pos 4;
}

abbrev pub read_raw : Subnet ℕ
read_raw = record raw { config = some "null"; ipv4_network = some (record { ip = 4; size = 31 }) }

abbrev pub raw_text : String
raw_text = put_subnet (normal raw) ""

pub raw_read : json.unmarshal raw_text ≡ ok read_raw
raw_read = refl

abbrev paths : Paths
paths = record { config_path = "n"; client_path = "p" }

abbrev empty : Vault
empty p = none

empty-IsSound : IsSound json json-IsFaithful memory_variables memory_variables-IsLawful paths empty
empty-IsSound = record {
  own_paths = λ n rest v x held parsed. cc held;
  fixed = λ n i v x held parsed. cc held;
}

nvar_store-IsLawful_example :
    (l : Store.IsLawful
      (store json json-IsFaithful memory_variables memory_variables-IsLawful paths))
    × ((s : Vault)
          (h : IsSound json json-IsFaithful memory_variables memory_variables-IsLawful paths s)
          (n i : String)
        → l.subnet (s, h) n i
          ≡ stored json json-IsFaithful memory_variables memory_variables-IsLawful paths s
              (at_path json json-IsFaithful memory_variables memory_variables-IsLawful paths n i))
    × ((x : Subnet ℕ)
        → l.back x ≡ back json json-IsFaithful memory_variables memory_variables-IsLawful paths x)
nvar_store-IsLawful_example =
    nvar_store-IsLawful json json-IsFaithful memory_variables memory_variables-IsLawful paths

-- The variables after the client of the tests has written its subnet.
abbrev nomad : Store.Store ℕ
nomad = store json json-IsFaithful memory_variables memory_variables-IsLawful paths

abbrev written : nomad.State
written = (nomad.set_subnet raw (empty, empty-IsSound)).1

written-held :
    stored json json-IsFaithful memory_variables memory_variables-IsLawful paths written.0
      "p/blue/a"
    ≡ some read_raw
unfolding parse_client_subnet_config set_subnet
written-held = refl
