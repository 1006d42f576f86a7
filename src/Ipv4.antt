-- ===== src/Ipv4.antt =====
-- internal/types/ipv4.go: addresses as uint32, and networks as an address with a prefix length.
-- The text form goes through the standard library's `net.IP`, which is a parameter where it is used.
mod Bits
pub mod Mask
pub mod Overlap
pub mod Bytes
use Prim.Native.Nat.{bit_and, bit_or}
use smuggle.Prelude.{ℕ, ◌+◌, ◌-◌, ◌*◌, ◌/◌, ◌%◌, ◌^◌, String, ◌<>◌, Bool, Option, none, some}
use smuggle.Prelude.{List, [], ◌∷◌, ltb, leb, if◌then◌else◌, ◌==◌, nat_eq}
use smuggle.Prelude.Error.{Error, Result, ok, err, panic, new_error, ◌>>=◌}

abbrev pub u8 : ℕ → ℕ
u8 n = n % 256

abbrev pub u32 : ℕ → ℕ
u32 n = n % 4294967296

-- Go's `uint` has 64 bits.
abbrev pub u64 : ℕ → ℕ
u64 n = n % 18446744073709551616

-- `x << k` on uint32: a shift by the width or more gives 0.
unfoldable pub shl32 : ℕ → ℕ → ℕ
shl32 x k = if leb 32 k then 0 else u32 (x * 2 ^ k)

-- `32 - size` on `uint`, which wraps.
abbrev pub host_bits : ℕ → ℕ
host_bits size = u64 (32 + 18446744073709551616 - size)

-- `type IPv4Addr uint32`
abbrev pub Ipv4Addr : Type 0
Ipv4Addr = ℕ

pub record Ipv4Net : Type 0 where
  pub ip : Ipv4Addr
  pub size : ℕ

abbrev pub empty_ipv4_addr : Ipv4Addr
empty_ipv4_addr = 0

unfoldable pub mask : Ipv4Net → ℕ
unfolding shl32
mask i = shl32 0xffffffff (host_bits i.size)

unfoldable pub next_network : Ipv4Net → Ipv4Net
unfolding shl32
next_network i = record { ip = u32 (i.ip + shl32 1 (host_bits i.size)); size = i.size }

unfoldable pub next_addr : Ipv4Net → Ipv4Net
next_addr i = record i { ip = u32 (i.ip + 1) }

unfoldable pub overlap : Ipv4Net → Ipv4Net → Bool
unfolding mask
overlap i other =
    let m = (if ltb i.size other.size then mask i else mask other) in
    bit_and i.ip m == bit_and other.ip m

-- The octets of an address, most significant first.
unfoldable pub octets : Ipv4Addr → ℕ × ℕ × ℕ × ℕ
octets i = (u8 (i / 2 ^ 24), u8 (i / 2 ^ 16), u8 (i / 2 ^ 8), u8 i)

-- `uint32(ip[3]) | (uint32(ip[2]) << 8) | …` of four bytes.
unfoldable pub from_bytes : ℕ × ℕ × ℕ × ℕ → Ipv4Addr
unfolding shl32
from_bytes (a, b, c, d) = bit_or (bit_or (bit_or d (shl32 c 8)) (shl32 b 16)) (shl32 a 24)

-- What the code uses of package net. `parse_ip` gives none for a text that is no address, and
-- `to4` gives none for an address that has no four byte form.
pub record Net : Type 1 where
  pub IP : Type 0
  pub parse_ip : String → Option IP
  pub to4 : IP → Option (ℕ × ℕ × ℕ × ℕ)
  pub ipv4 : ℕ × ℕ × ℕ × ℕ → IP
  pub ip_string : IP → String
  pub decimal : ℕ → String
  pub parse_cidr : String → Result (IP × ℕ)

module _ (N : Net) where
  open N use {IP, parse_ip, to4, ipv4, ip_string, decimal, parse_cidr}

  unfoldable pub to_net_ip : Ipv4Addr → IP
  unfolding octets
  to_net_ip i = ipv4 (octets i)

  unfoldable pub addr_string : Ipv4Addr → String
  unfolding to_net_ip
  addr_string i = ip_string (to_net_ip i)

  unfoldable pub net_string : Ipv4Net → String
  unfolding addr_string
  net_string i = addr_string i.ip <> "/" <> decimal i.size

  unfoldable pub from_ip : IP → Result Ipv4Addr
  unfolding from_bytes
  from_ip ip = elim (to4 ip) [
    | none ↦ panic "unexpected address type; expected IPv4"
    | some bytes ↦ ok (from_bytes bytes)
  ]

  -- `parseIPv4Addr` indexes the four byte form without a test, so an IPv6 text panics.
  unfoldable pub parse_ipv4_addr : String → Result Ipv4Addr
  unfolding from_bytes
  parse_ipv4_addr text = elim (parse_ip text) [
    | none ↦ err (new_error "failed to parse IP address")
    | some ip ↦ elim (to4 ip) [
      | none ↦ panic "index out of range"
      | some bytes ↦ ok (from_bytes bytes)
    ]
  ]

  -- `UnmarshalJSON` of a network, on the text between the quotes; `parse_cidr` gives the masked
  -- address with the prefix length.
  unfoldable pub parse_ipv4_net : String → Result Ipv4Net
  unfolding from_ip
  parse_ipv4_net text = do
    (ip, prefix_len) ← parse_cidr text
    addr ← from_ip ip
    ok (record { ip = addr; size = prefix_len })
