-- ===== src/Ip/Match.antt =====
-- `IPMatch` on printed IPv4 addresses, and on a pattern without a prefix.
use casbin_cpp.Base.{
  ℕ, suc, ◌≤◌, Bool, true, false, none, some, [], ◌∷◌, ◌++◌, Text, length, drop, ok, err, parser,
  ◌≡◌, refl, ap, ◌↔◌, arith,
}
use casbin_cpp.Util.Trim.{find_char}
use casbin_cpp.Ip.{Ip}
use casbin_cpp.Ip.Address.{decimal, dotted, ipv4}
use casbin_cpp.Ip.Parsing.{parse_ip, parse_cidr, cidr_address, first_separator, bad_prefix}
use casbin_cpp.Ip.Network.{ip_match}
use casbin_cpp.Ip.Decimal.{
  dtoi-decimal, decimal-Free, Free, Free-append, find_char-append, length-decimal_pos, take-append,
}
use casbin_cpp.Ip.Octets.{parse_ipv4-dotted}
use casbin_cpp.Ip.Prefix.{Octets, SamePrefix, network, contains_iff}

first_separator-append :
    (s t : Text) → Free b'.' s → Free b':' s → first_separator (s ++ b'.' ∷ t) ≡ some b'.'
unfolding first_separator
first_separator-append [] t h k = refl
first_separator-append (c ∷ s) t h k = ground (arith, first_separator-append s t h.1 k.1)

drop-past : (s t : Text) (c : ℕ) → drop (suc (length s)) (s ++ c ∷ t) ≡ t
drop-past [] t c = refl
drop-past (x ∷ s) t c = drop-past s t c

module _ (a b c d : ℕ) (h : Octets (a ∷ b ∷ c ∷ d ∷ [])) where
  dotted-Free : Free b'/' (dotted a b c d)
  unfolding dotted
  dotted-Free =
      let fa = (decimal-Free a h.0).0 in
      let fb = (decimal-Free b h.1.0).0 in
      let fc = (decimal-Free c h.1.1.0).0 in
      let fd = (decimal-Free d h.1.1.1.0).0 in
      let dot = Free-append b'/' in
      dot (decimal a) _ fa (refl, dot (decimal b) _ fb (refl, dot (decimal c) _ fc (refl, fd)))

  parse_ip-dotted : parse_ip (dotted a b c d) ≡ ok (ipv4 a b c d)
  unfolding dotted parse_ip ipv4
  parse_ip-dotted =
      let (slash, colon, dot) = decimal-Free a h.0 in
      let rest = decimal b ++ (b'.' ∷ (decimal c ++ (b'.' ∷ decimal d))) in
      rw (first_separator-append (decimal a) rest dot colon, parse_ip)
        (ap ok (parse_ipv4-dotted a b c d h.0 h.1.0 h.1.1.0 h.1.1.1.0))

  -- The address, a slash and the prefix length.
  abbrev pub pattern_text : ℕ → Text
  pattern_text n = dotted a b c d ++ b'/' ∷ decimal n

  parse_cidr-pattern :
      (n : ℕ)
      → n ≤ 32
      → parse_cidr (pattern_text n)
        ≡ ok (record { ip = ipv4 a b c d; net = network (ipv4 a b c d) n })
  unfolding parse_cidr cidr_address ipv4
  parse_cidr-pattern n small =
      let good : bad_prefix (n, length (decimal n)) (decimal n) 4 ≡ false =
        ground (arith, length-decimal_pos n) in
      rw (find_char-append b'/' (dotted a b c d) (decimal n) dotted-Free, parse_cidr)
        (rw (take-append (dotted a b c d) (b'/' ∷ decimal n)) (
          rw (parse_ipv4-dotted a b c d h.0 h.1.0 h.1.1.0 h.1.1.1.0) (
            rw (drop-past (dotted a b c d) (decimal n) b'/')
              (rw (dtoi-decimal n (omega arith)) (rw good)))))

-- `IPMatch` of two IPv4 addresses as `toString` prints them, the second with a slash and a prefix
-- length of at most 32, returns, and answers true exactly when the addresses have the same first
-- bits.
pub ip_match_iff :
    (n a b c d a' b' c' d' : ℕ)
    → n ≤ 32
    → Octets (a ∷ b ∷ c ∷ d ∷ [])
    → Octets (a' ∷ b' ∷ c' ∷ d' ∷ [])
    → (r : Bool) × (ip_match (dotted a' b' c' d') (dotted a b c d ++ b'/' ∷ decimal n) ≡ ok r)
      × ((r ≡ true) ↔ SamePrefix n (a ∷ b ∷ c ∷ d ∷ []) (a' ∷ b' ∷ c' ∷ d' ∷ []))
unfolding ip_match ipv4
ip_match_iff n a b c d a' b' c' d' hn h h' =
    let (r, e, iff) = contains_iff n a b c d a' b' c' d' hn h h' in
    (
      r,
      rw (parse_ip-dotted a' b' c' d' h', ip_match) (rw (parse_cidr-pattern a b c d h n hn) e),
      iff,
    )

parse_cidr-plain : (s : Text) → find_char b'/' s ≡ none → parse_cidr s ≡ err parser
unfolding parse_cidr
parse_cidr-plain s e = rw (e, parse_cidr)

-- For an address that `parseIP` accepts and a pattern without a slash, `IPMatch` raises the
-- parser's exception, also when the pattern is the address itself.
pub ip_match_plain :
    (ip1 ip2 : Text) (p : Ip)
    → parse_ip ip1 ≡ ok p
    → p.is_legal ≡ true
    → find_char b'/' ip2 ≡ none
    → ip_match ip1 ip2 ≡ err parser
unfolding ip_match
ip_match_plain ip1 ip2 p e l none_there =
    rw (e, ip_match) (rw l (rw (parse_cidr-plain ip2 none_there)))
