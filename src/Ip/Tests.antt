-- ===== src/Ip/Tests.antt =====
-- IP addresses, run on small texts.
use casbin_cpp.Base.{
  ◌++◌, ◌↔◌, Bool, Text, arith, ℕ, true, false, [], ◌∷◌, str, ◌≡◌, refl, ok, err, parser,
}
use casbin_cpp.Ip.{Ip}
use casbin_cpp.Ip.Address.{ipv4, legal, dotted, decimal, ip_to_string, cidr_mask}
use casbin_cpp.Ip.Parsing.{parse_ipv4, parse_ipv6}
use casbin_cpp.Ip.Prefix.{Octets, SamePrefix}
use casbin_cpp.Ip.Bounds.{Words, parse_ipv4_legal}
use casbin_cpp.Ip.Safety.{parse_ipv6_safe}
use casbin_cpp.Ip.Octets.{parse_ipv4-ip_to_string}
use casbin_cpp.Ip.Match.{ip_match_iff}
use casbin_cpp.Ip.Network.{ip_match}

parse_ipv4_test : parse_ipv4 (str "192.168.2.123") ≡ ipv4 192 168 2 123
unfolding parse_ipv4
parse_ipv4_test = refl

ip_match_test : ip_match (str "192.168.2.123") (str "192.168.2.0/24") ≡ ok true
unfolding ip_match
ip_match_test = refl

ip_match_test2 : ip_match (str "192.168.2.123") (str "192.168.2.123") ≡ err parser
unfolding ip_match
ip_match_test2 = refl

parse_ipv6_test :
    parse_ipv6 (str "2001:db8::1")
    ≡ ok (legal (0x20 ∷ 0x2001 ∷ 0xd ∷ 0xdb8 ∷ 0 ∷ 0 ∷ 0 ∷ 0 ∷ 0 ∷ 0 ∷ 0 ∷ 0 ∷ 0 ∷ 0 ∷ 0 ∷ 1 ∷ []))
unfolding parse_ipv6
parse_ipv6_test = refl

-- The low byte of a group keeps its sixteen bits, so a mapped IPv4 address is not recognised.
mapped_test : ip_match (str "::ffff:1.2.3.4") (str "1.2.3.4/32") ≡ ok false
unfolding ip_match
mapped_test = refl

ip_match_iff_example :
    (r : Bool) × (ip_match (dotted 192 168 2 123) (dotted 192 168 2 0 ++ b'/' ∷ decimal 24) ≡ ok r)
    × ((r ≡ true) ↔ SamePrefix 24 (192 ∷ 168 ∷ 2 ∷ 0 ∷ []) (192 ∷ 168 ∷ 2 ∷ 123 ∷ []))
ip_match_iff_example =
    ip_match_iff 24 192 168 2 0 192 168 2 123 (omega arith)
      (omega arith, (omega arith, (omega arith, (omega arith, tt))))
      (omega arith, (omega arith, (omega arith, (omega arith, tt))))

parse_ipv4-ip_to_string_example :
    (t : Text) × (ip_to_string (ipv4 10 0 255 7) ≡ ok t) × (parse_ipv4 t ≡ ipv4 10 0 255 7)
parse_ipv4-ip_to_string_example =
    parse_ipv4-ip_to_string 10 0 255 7 (omega arith) (omega arith) (omega arith) (omega arith)

is_legal_test : (parse_ipv4 (str "10.0.255.7")).is_legal ≡ true
unfolding parse_ipv4
is_legal_test = refl

parse_ipv4_legal_example :
    (a : ℕ) × (b : ℕ) × (c : ℕ) × (d : ℕ) × (parse_ipv4 (str "10.0.255.7") ≡ ipv4 a b c d)
    × Octets (a ∷ b ∷ c ∷ d ∷ [])
parse_ipv4_legal_example = parse_ipv4_legal (str "10.0.255.7") is_legal_test

parse_ipv6_safe_example :
    (p : Ip) × (parse_ipv6 (str "2001:db8::1") ≡ ok p) × (p.is_legal ≡ true → Words p.ip)
parse_ipv6_safe_example = parse_ipv6_safe (str "2001:db8::1")

-- A mask of nine bits has a second byte above 255.
cidr_mask_test : cidr_mask 9 32 ≡ 0xff ∷ 0xff80 ∷ 0 ∷ 0 ∷ []
unfolding cidr_mask
cidr_mask_test = refl
