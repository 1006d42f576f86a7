-- ===== src/Tests/Texts.antt =====
-- Texts for all subnets, with the changes that writing and reading JSON makes: the address of the
-- network is masked, and a configuration that is nil comes back as the text null.
use Prim.Native.Char.{Char, code}
use Prim.Native.String.{[] as no_text, ◌∷◌ as ◌then_text◌}
use smuggle.Prelude.{
  ℕ, zero, suc, String, Bool, true, false, Option, none, some, ◌≡◌, refl, if◌then◌else◌, ◌==◌,
  nat_eq,
}
use smuggle.Prelude.Int.{ℤ, pos, negsuc}
use smuggle.Ipv4.{Ipv4Net}
use smuggle.Subnet.{Subnet}

abbrev pub Get : Type 0 → Type 0
Get A = String → Option (A × String)

abbrev pub Put : Type 0 → Type 0
Put A = A → String → String

-- What is put is got, with what follows it.
abbrev pub Reads : {A : Type 0} → Put A → Get A → Type 0
Reads {A = A} p g = (a : A) (k : String) → g (p a k) ≡ some (a, k)

abbrev pub then_get : {A B : Type 0} → Option (A × String) → (A → String → Option B) → Option B
then_get none f = none
then_get (some (a, k)) f = f a k

abbrev pub is_tag : ℕ → Char → Bool
is_tag n c = code c == n

abbrev pub put_nat : Put ℕ
put_nat zero k = "." then_text k
put_nat (suc n) k = "I" then_text (put_nat n k)

abbrev pub get_nat : Get ℕ
get_nat no_text = none
get_nat (c then_text s) =
    let rest = get_nat s in
    if is_tag 46 c then some (0, s) else then_get rest (λ n k. some (suc n, k))

nat-Reads : Reads put_nat get_nat
nat-Reads zero k = refl
nat-Reads (suc n) k = rw (nat-Reads n k) refl

abbrev pub put_text : Put String
put_text no_text k = "." then_text k
put_text (c then_text s) k = "c" then_text (c then_text (put_text s k))

abbrev pub get_text : Get String
get_text no_text = none
get_text (c then_text no_text) = if is_tag 46 c then some ("", "") else none
get_text (c then_text (d then_text s)) =
    let rest = get_text s in
    if is_tag 46 c then some ("", d then_text s) else then_get rest (λ t k. some (d then_text t, k))

text-Reads : Reads put_text get_text
text-Reads no_text no_text = refl
text-Reads no_text (d then_text s) = refl
text-Reads (c then_text s) k = rw (text-Reads s k) refl

module _ {A B : Type 0} (p : Put A) (q : Put B) (g : Get A) (h : Get B) where
  abbrev pub put_pair : Put (A × B)
  put_pair (a, b) k = p a (q b k)

  abbrev pub get_pair : Get (A × B)
  get_pair s = then_get (g s) (λ a r. then_get (h r) (λ b t. some ((a, b), t)))

  pair-Reads : Reads p g → Reads q h → Reads put_pair get_pair
  pair-Reads first second (a, b) k = rw (first a (q b k), second b k) refl

module _ {A : Type 0} (p : Put A) (g : Get A) where
  abbrev pub put_option : Put (Option A)
  put_option none k = "." then_text k
  put_option (some a) k = "s" then_text (p a k)

  abbrev pub get_option : Get (Option A)
  get_option no_text = none
  get_option (c then_text s) =
      if is_tag 46 c then some (none, s) else then_get (g s) (λ a k. some (some a, k))

  option-Reads : Reads p g → Reads put_option get_option
  option-Reads inner none k = refl
  option-Reads inner (some a) k = rw (inner a k) refl

abbrev pub put_int : Put ℤ
put_int (pos n) k = "." then_text (put_nat n k)
put_int (negsuc n) k = "m" then_text (put_nat n k)

abbrev pub get_int : Get ℤ
get_int no_text = none
get_int (c then_text s) =
    then_get (get_nat s) (λ n k. some (if is_tag 46 c then pos n else negsuc n, k))

int-Reads : Reads put_int get_int
int-Reads (pos n) k = rw (nat-Reads n k) refl
int-Reads (negsuc n) k = rw (nat-Reads n k) refl

abbrev pub put_bool : Put Bool
put_bool true k = "." then_text k
put_bool false k = "f" then_text k

abbrev pub get_bool : Get Bool
get_bool no_text = none
get_bool (c then_text s) = some (is_tag 46 c, s)

bool-Reads : Reads put_bool get_bool
bool-Reads true k = refl
bool-Reads false k = refl

abbrev pub put_net : Put Ipv4Net
put_net m = put_pair put_nat put_nat get_nat get_nat (m.ip, m.size)

abbrev pub get_net : Get Ipv4Net
get_net s =
    then_get (get_pair put_nat put_nat get_nat get_nat s)
      (λ m k. some (record { ip = m.0; size = m.1 }, k))

net-Reads : Reads put_net get_net
net-Reads m k =
    rw (pair-Reads put_nat put_nat get_nat get_nat nat-Reads nat-Reads (m.ip, m.size) k) refl

-- The fields of a subnet, one after the other.
abbrev pub put_subnet : Put (Subnet ℕ)
put_subnet x k = put_text x.client_id (
    put_text x.network_name (
      put_text x.provider (
        put_option put_nat get_nat x.host_ipv4 (
          put_option put_text get_text x.config (
            put_int x.expiration (
              put_bool x.expired (put_option put_net get_net x.ipv4_network (put_int x.mtu k))))))))

abbrev pub get_subnet : Get (Subnet ℕ)
get_subnet s0 = then_get (get_text s0) (λ client_id s1. then_get (get_text s1) (λ network_name s2.
    then_get (get_text s2) (λ provider s3. then_get (get_option put_nat get_nat s3) (λ host_ipv4 s4.
      then_get (get_option put_text get_text s4) (λ config s5.
        then_get (get_int s5) (λ expiration s6. then_get (get_bool s6) (λ expired s7.
          then_get (get_option put_net get_net s7) (λ ipv4_network s8.
            then_get (get_int s8) (λ mtu k. some (
              record {
                client_id = client_id;
                network_name = network_name;
                provider = provider;
                host_ipv4 = host_ipv4;
                config = config;
                expiration = expiration;
                expired = expired;
                ipv4_network = ipv4_network;
                mtu = mtu;
              },
              k,
            ))))))))))

pub subnet-Reads : Reads put_subnet get_subnet
subnet-Reads x k =
    let s8 = put_int x.mtu k in
    let s7 = put_option put_net get_net x.ipv4_network s8 in
    let s6 = put_bool x.expired s7 in
    let s5 = put_int x.expiration s6 in
    let s4 = put_option put_text get_text x.config s5 in
    let s3 = put_option put_nat get_nat x.host_ipv4 s4 in
    let s2 = put_text x.provider s3 in
    let s1 = put_text x.network_name s2 in
    rw
      (
        text-Reads x.client_id s1,
        text-Reads x.network_name s2,
        text-Reads x.provider s3,
        option-Reads put_nat get_nat nat-Reads x.host_ipv4 s4,
        option-Reads put_text get_text text-Reads x.config s5,
        int-Reads x.expiration s6,
        bool-Reads x.expired s7,
        option-Reads put_net get_net net-Reads x.ipv4_network s8,
        int-Reads x.mtu k,
      )
      refl
