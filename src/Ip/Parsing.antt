-- ===== src/Ip/Parsing.antt =====
-- parseIPv4.cpp, parseIPv6.cpp, parseIP.cpp and parseCIDR.cpp of casbin/ip_parser/parser.
use casbin_cpp.Base.{
  ℕ, zero, suc, ◌+◌, ◌-◌, ◌*◌, ◌/◌, Bool, true, false, not, ◌&&◌, ◌||◌, Option, none, some, List,
  [], ◌∷◌, Text, if◌then◌else◌, leb, ltb, nat_eq, length, drop, take, set, replicate, Result, ok,
  err, undefined, parser, at, ◌>>=◌,
}
use casbin_cpp.Util.Trim.{find_char}
use casbin_cpp.Ip.{big, Ip, IpNet, Cidr, ipv4_len, ipv6_len}
use casbin_cpp.Ip.Numbers.{dtoi, xtoi}
use casbin_cpp.Ip.Address.{legal, illegal, ipv4, apply_mask, cidr_mask}

-- The number is not that of an octet.
abbrev pub bad_octet : ℕ × ℕ → Bool
bad_octet (n, c) = leb big n || (nat_eq c 0 || ltb 255 n)

-- The text after the dot that must stand before every octet but the first.
abbrev pub skip_dot : Bool → Text → Option Text
skip_dot is_first [] = none
skip_dot true (c ∷ s) = some (c ∷ s)
skip_dot false (c ∷ s) = if nat_eq c b'.' then some s else none

-- The loop over the octets: the octets and the text left, or `none` for an illegal address.
unfoldable pub octets : ℕ → Bool → Text → Option (List ℕ × Text)
unfolding dtoi
octets zero is_first s = some ([], s)
octets (suc k) is_first s = elim (skip_dot is_first s) [
  | none ↦ none
  | some t ↦ if bad_octet (dtoi t) then none else elim (octets k false (drop (dtoi t).1 t)) [
    | none ↦ none
    | some (bytes, rest) ↦ some ((dtoi t).0 ∷ bytes, rest)
  ]
]

-- The end of `parseIPv4`: the whole text must be read.
abbrev pub ipv4_of : Option (List ℕ × Text) → Ip
unfolding ipv4
ipv4_of (some (a ∷ b ∷ c ∷ d ∷ [], [])) = ipv4 a b c d
ipv4_of o = illegal []

unfoldable pub parse_ipv4 : Text → Ip
unfolding octets ipv4
parse_ipv4 s = ipv4_of (octets ipv4_len true s)

-- A write at an index; out of range it is undefined.
unfoldable pub put : List ℕ → ℕ → ℕ → Result (List ℕ)
put b i v = if ltb i (length b) then ok (set b i v) else err undefined

-- What the loop of `parseIPv6` works on: `i`, `ellipsis`, the bytes and the text left.
abbrev pub Ipv6State : Type 0
Ipv6State = ℕ × Option ℕ × List ℕ × Text

abbrev pub starts_with : ℕ → Text → Bool
starts_with c [] = false
starts_with c (x ∷ s) = nat_eq x c

-- `ellipsis < 0 && i != IP::IPv6len - IP::IPv4len`
abbrev pub is_misplaced : Option ℕ → ℕ → Bool
is_misplaced none i = not (nat_eq i 12)
is_misplaced (some e) i = false

-- The branch for a trailing IPv4 address; `none` is an illegal one.
unfoldable pub trailing_ipv4 : ℕ → Option ℕ → List ℕ → Text → Result (Option Ipv6State)
unfolding parse_ipv4 put
trailing_ipv4 i ellipsis b s =
    let ip4 = parse_ipv4 s in
    if is_misplaced ellipsis i
    then ok none
    else if ltb 16 (i + 4)
    then ok none
    else if ip4.is_legal
    then (do
      x0 ← at ip4.ip 12
      b0 ← put b i x0
      x1 ← at ip4.ip 13
      b1 ← put b0 (i + 1) x1
      x2 ← at ip4.ip 14
      b2 ← put b1 (i + 2) x2
      x3 ← at ip4.ip 15
      b3 ← put b2 (i + 3) x3
      ok (some (i + 4, ellipsis, b3, [])))
    else ok none

-- The end of a round: the colon, and the ellipsis.
unfoldable pub after_chunk :
    (ℕ → Option ℕ → List ℕ → Text → Result (Option Ipv6State))
    → ℕ
    → Option ℕ
    → List ℕ
    → Text
    → Result (Option Ipv6State)
after_chunk next i ellipsis b [] = ok (some (i, ellipsis, b, []))
after_chunk next i ellipsis b (x ∷ []) = ok none
after_chunk next i ellipsis b (x ∷ y ∷ s) =
    if not (nat_eq x b':')
    then ok none
    else if nat_eq y b':'
    then elim ellipsis [
      | some e ↦ ok none
      | none ↦ elim s [ [] ↦ ok (some (i, some i, b, [])) | z ∷ t ↦ next i (some i) b (z ∷ t) ]
    ]
    else next i ellipsis b (y ∷ s)

abbrev pub bad_chunk : ℕ × ℕ → Bool
bad_chunk (n, c) = leb big n || (nat_eq c 0 || ltb 0xFFFF n)

-- The loop, for the rounds left: each takes two bytes at least, so there are eight at most.
unfoldable pub ipv6_loop : ℕ → ℕ → Option ℕ → List ℕ → Text → Result (Option Ipv6State)
unfolding xtoi put trailing_ipv4 after_chunk
ipv6_loop zero i ellipsis b s = ok (some (i, ellipsis, b, s))
ipv6_loop (suc k) i ellipsis b s =
    if ltb i ipv6_len
    then if bad_chunk (xtoi s)
      then ok none
      else if starts_with b'.' (drop (xtoi s).1 s)
      then trailing_ipv4 i ellipsis b s
      else (do
        b0 ← put b i ((xtoi s).0 / 256)
        b1 ← put b0 (i + 1) (xtoi s).0
        after_chunk (ipv6_loop k) (i + 2) ellipsis b1 (drop (xtoi s).1 s))
    else ok (some (i, ellipsis, b, s))

-- The two loops that make room for the ellipsis, `k` being the rounds left.
unfoldable pub move_up : ℕ → ℕ → ℕ → List ℕ → Result (List ℕ)
unfolding put
move_up zero ellipsis n b = ok b
move_up (suc k) ellipsis n b = do
  x ← at b (ellipsis + k)
  b' ← put b (ellipsis + k + n) x
  move_up k ellipsis n b'

unfoldable pub zero_out : ℕ → ℕ → List ℕ → Result (List ℕ)
unfolding put
zero_out zero ellipsis b = ok b
zero_out (suc k) ellipsis b = do b' ← put b (ellipsis + k) 0; zero_out k ellipsis b'

-- What is done after the loop. The bytes that were written to an address before it was found
-- illegal are not kept: its callers read only that it is illegal.
unfoldable pub expand : Option Ipv6State → Result Ip
unfolding move_up zero_out
expand none = ok (illegal (replicate ipv6_len 0))
expand (some (i, ellipsis, b, c ∷ s)) = ok (illegal b)
expand (some (i, none, b, [])) = if ltb i ipv6_len then ok (illegal b) else ok (legal b)
expand (some (i, some e, b, [])) =
    if ltb i ipv6_len
    then (do
      b' ← move_up (i - e) e (ipv6_len - i) b
      b'' ← zero_out (ipv6_len - i) e b'
      ok (legal b''))
    else ok (illegal b)

abbrev pub no_bytes : List ℕ
no_bytes = replicate ipv6_len 0

unfoldable pub parse_ipv6 : Text → Result Ip
unfolding ipv6_loop expand
parse_ipv6 (x ∷ y ∷ s) =
    if nat_eq x b':' && nat_eq y b':'
    then elim s [
      | [] ↦ ok (legal no_bytes)
      | z ∷ t ↦ (ipv6_loop 8 0 (some 0) no_bytes (z ∷ t) >>= expand)
    ]
    else (ipv6_loop 8 0 none no_bytes (x ∷ y ∷ s) >>= expand)
parse_ipv6 s = ipv6_loop 8 0 none no_bytes s >>= expand

-- The first '.' or ':' says which form it is.
unfoldable pub first_separator : Text → Option ℕ
first_separator [] = none
first_separator (c ∷ s) = if nat_eq c b'.' || nat_eq c b':' then some c else first_separator s

unfoldable pub parse_ip : Text → Result Ip
unfolding first_separator parse_ipv4 parse_ipv6
parse_ip s = elim (first_separator s) [
  | none ↦ ok (illegal [])
  | some c ↦ if nat_eq c b'.' then ok (parse_ipv4 s) else parse_ipv6 s
]

-- The address of `parseCIDR` with its length.
unfoldable pub cidr_address : Text → Result (Ip × ℕ)
unfolding parse_ipv4 parse_ipv6
cidr_address addr =
    let ip = parse_ipv4 addr in
    if ip.is_legal then ok (ip, ipv4_len) else parse_ipv6 addr >>= λ ip6. ok (ip6, ipv6_len)

abbrev pub bad_prefix : ℕ × ℕ → Text → ℕ → Bool
bad_prefix (n, c) mask iplen =
    leb big n || (nat_eq c 0 || (not (nat_eq c (length mask)) || ltb (8 * iplen) n))

unfoldable pub parse_cidr : Text → Result Cidr
unfolding find_char cidr_address dtoi cidr_mask apply_mask
parse_cidr s = elim (find_char b'/' s) [
  | none ↦ err parser
  | some pos ↦ do
    (ip, iplen) ← cidr_address (take pos s)
    let mask = drop (suc pos) s
    if not ip.is_legal || bad_prefix (dtoi mask) mask iplen then err parser else do
      let m = cidr_mask (dtoi mask).0 (8 * iplen)
      let net : IpNet = record { net_ip = (apply_mask ip m).0; mask = m }
      ok (record { ip = ip; net = net })
]
