-- ===== src/Ip.antt =====
-- casbin/ip_parser: IP addresses, their parsers, masks and networks. `byte` of the program is an
-- `unsigned short`, so a byte of an address is a number below 2 ^ 16 and not always below 2 ^ 8.
pub mod Numbers
pub mod Address
pub mod Parsing
pub mod Network
pub mod Bounds
pub mod Safety
pub mod Decimal
pub mod Octets
pub mod Prefix
pub mod Match
pub mod Tests
use casbin_cpp.Base.{ℕ, Bool, List, [], ◌∷◌}

-- `const unsigned int big`
abbrev pub big : ℕ
big = 0xFFFFFF

abbrev pub IpMask : Type 0
IpMask = List ℕ

pub record Ip : Type 0 where
  pub ip : List ℕ
  pub is_legal : Bool

pub record IpNet : Type 0 where
  pub net_ip : Ip
  pub mask : IpMask

pub record Cidr : Type 0 where
  pub ip : Ip
  pub net : IpNet

-- `IP::IPv4len` and `IP::IPv6len`
abbrev pub ipv4_len : ℕ
ipv4_len = 4

abbrev pub ipv6_len : ℕ
ipv6_len = 16

-- `IP::v4InV6Prefix`
abbrev pub v4_in_v6_prefix : List ℕ
v4_in_v6_prefix = 0 ∷ 0 ∷ 0 ∷ 0 ∷ 0 ∷ 0 ∷ 0 ∷ 0 ∷ 0 ∷ 0 ∷ 0xff ∷ 0xff ∷ []
