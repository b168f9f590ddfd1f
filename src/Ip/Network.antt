-- ===== src/Ip/Network.antt =====
-- IPNet.cpp of casbin/ip_parser/parser, and `IPMatch` of casbin/util/built_in_functions.cpp.
use Prim.Native.Nat.{bit_and}
use casbin_cpp.Base.{
  ℕ, Bool, true, false, not, ◌&&◌, List, [], ◌∷◌, Text, if◌then◌else◌, nat_eq, length, drop, Result,
  ok, err, undefined, illegal_argument, ◌>>=◌,
}
use casbin_cpp.Ip.{Ip, IpMask, IpNet, ipv4_len, ipv6_len}
use casbin_cpp.Ip.Address.{to4, ip_equal, dotted_at}
use casbin_cpp.Ip.Parsing.{parse_ip, parse_cidr}

-- `networkNumberAndMask`, after the address was chosen.
unfoldable pub with_mask : Ip → IpMask → Ip × IpMask
with_mask p m =
    if nat_eq (length m) ipv4_len
    then (if nat_eq (length p.ip) ipv4_len then (p, m) else (record p { is_legal = false }, m))
    else if nat_eq (length m) ipv6_len
    then (if nat_eq (length p.ip) ipv4_len then (p, drop 12 m) else (p, m))
    else (record p { is_legal = false }, m)

unfoldable pub network_number_and_mask : IpNet → Result (Ip × IpMask)
unfolding to4 with_mask
network_number_and_mask n = do
  p ← to4 n.net_ip
  if not p.is_legal && not (nat_eq (length p.ip) ipv6_len)
      then ok (p, [])
      else ok (with_mask p n.mask)

-- The loop of `contains`; a mask that is too short is read out of range.
unfoldable pub masked_equal : List ℕ → List ℕ → List ℕ → Result Bool
masked_equal [] ys ms = ok true
masked_equal (x ∷ xs) [] ms = ok true
masked_equal (x ∷ xs) (y ∷ ys) [] = err undefined
masked_equal (x ∷ xs) (y ∷ ys) (m ∷ ms) =
    let rest = masked_equal xs ys ms in
    if nat_eq (bit_and x m) (bit_and y m) then rest else ok false

unfoldable pub contains : IpNet → Ip → Result Bool
unfolding network_number_and_mask to4 masked_equal
contains net ip_new = do
  (number, mask) ← network_number_and_mask net
  x ← to4 ip_new
  let chosen : Ip = if x.is_legal then x else ip_new
  if nat_eq (length chosen.ip) (length number.ip)
      then masked_equal number.ip chosen.ip mask
      else ok false

-- `NETIP_toString` and `IPMask_toString`
unfoldable pub net_ip_to_string : IpNet → Result Text
unfolding dotted_at
net_ip_to_string net = dotted_at net.net_ip.ip 0

unfoldable pub mask_to_string : IpNet → Result Text
unfolding dotted_at
mask_to_string net = dotted_at net.mask 0

unfoldable pub ip_match : Text → Text → Result Bool
unfolding parse_ip parse_cidr ip_equal contains
ip_match ip1 ip2 = do
  obj_ip1 ← parse_ip ip1
  if not obj_ip1.is_legal then err illegal_argument else do
    obj_cidr ← parse_cidr ip2
    if not obj_cidr.ip.is_legal
        then (do
          obj_ip2 ← parse_ip ip2
          if not obj_ip2.is_legal then err illegal_argument else ok (ip_equal obj_ip1 obj_ip2))
        else contains obj_cidr.net obj_ip1
