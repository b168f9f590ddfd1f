-- ===== src/Ip/Address.antt =====
-- IP.cpp, IPv4.cpp, allFF.cpp, equal.cpp and CIDRMask.cpp of casbin/ip_parser/parser.
use Prim.Native.Nat.{bit_and}
use casbin_cpp.Base.{
  ℕ, zero, suc, ◌+◌, ◌-◌, ◌/◌, ◌%◌, ◌^◌, Bool, true, false, not, ◌&&◌, List, [], ◌∷◌, ◌++◌, Text,
  str, if◌then◌else◌, leb, ltb, nat_eq, length, take, drop, get_or, all, Result, ok, err, undefined,
  at, ◌>>=◌,
}
use casbin_cpp.Ip.{Ip, IpMask, ipv4_len, ipv6_len, v4_in_v6_prefix}

-- `IP()` with these bytes, and an illegal address with them.
abbrev pub legal : List ℕ → Ip
legal bytes = record { ip = bytes; is_legal = true }

abbrev pub illegal : List ℕ → Ip
illegal bytes = record { ip = bytes; is_legal = false }

unfoldable pub ipv4 : ℕ → ℕ → ℕ → ℕ → Ip
ipv4 a b c d = legal (v4_in_v6_prefix ++ (a ∷ b ∷ c ∷ d ∷ []))

unfoldable pub all_ff : List ℕ → Bool
all_ff b = all (λ x. nat_eq x 0xff) b

-- `equal`: the lengths first, then each byte.
unfoldable pub bytes_equal : List ℕ → List ℕ → Bool
bytes_equal [] [] = true
bytes_equal [] (y ∷ ys) = false
bytes_equal (x ∷ xs) [] = false
bytes_equal (x ∷ xs) (y ∷ ys) = nat_eq x y && bytes_equal xs ys

unfoldable pub is_zeros : List ℕ → Bool
is_zeros p = all (λ x. nat_eq x 0) p

-- `out.ip[i] = ip[i] & mask[i]`, the sizes being equal.
unfoldable pub and_bytes : List ℕ → List ℕ → List ℕ
and_bytes [] ms = []
and_bytes (x ∷ xs) [] = []
and_bytes (x ∷ xs) (m ∷ ms) = bit_and x m ∷ and_bytes xs ms

-- The mask and the address of `Mask`, after both have been shortened.
unfoldable pub shortened_mask : Ip → IpMask → IpMask
unfolding all_ff
shortened_mask p mask =
    if nat_eq (length mask) ipv6_len && nat_eq (length p.ip) ipv4_len
    then (if all_ff (take 12 mask) then drop 12 mask else mask)
    else mask

unfoldable pub shortened_ip : Ip → IpMask → List ℕ
unfolding bytes_equal
shortened_ip p mask =
    if nat_eq (length mask) ipv4_len && nat_eq (length p.ip) ipv6_len
    then (if bytes_equal (take 12 p.ip) v4_in_v6_prefix then drop 12 p.ip else p.ip)
    else p.ip

-- `Mask`: the result, and `*this`, whose bytes it shortens.
unfoldable pub apply_mask : Ip → IpMask → Ip × Ip
unfolding shortened_mask shortened_ip and_bytes
apply_mask p mask =
    let mask' = shortened_mask p mask in
    let bytes = shortened_ip p mask' in
    let this = record p { ip = bytes } in
    if nat_eq (length bytes) (length mask')
    then (legal (and_bytes bytes mask'), this)
    else (illegal [], this)

unfoldable pub ip_equal : Ip → Ip → Bool
unfolding bytes_equal
ip_equal p x =
    if nat_eq (length p.ip) (length x.ip)
    then bytes_equal p.ip x.ip
    else if nat_eq (length p.ip) ipv4_len && nat_eq (length x.ip) ipv6_len
    then bytes_equal (take 12 x.ip) v4_in_v6_prefix && bytes_equal p.ip (drop 12 x.ip)
    else if nat_eq (length p.ip) ipv6_len && nat_eq (length x.ip) ipv4_len
    then bytes_equal (take 12 p.ip) v4_in_v6_prefix && bytes_equal (drop 12 p.ip) x.ip
    else false

-- `To4`: the first ten bytes are read whatever the size is. An address that has no form of four
-- bytes is marked illegal, and is returned.
unfoldable pub to4 : Ip → Result Ip
unfolding is_zeros
to4 p =
    if nat_eq (length p.ip) ipv4_len
    then ok p
    else if ltb (length p.ip) 10
    then err undefined
    else if nat_eq (length p.ip) ipv6_len
        && (is_zeros (take 10 p.ip)
            && (nat_eq (get_or p.ip 10 0) 0xff && nat_eq (get_or p.ip 11 0) 0xff))
    then ok (legal (take 4 (drop 12 p.ip)))
    else ok (record p { is_legal = false })

-- A number printed to a stream, on fuel; a byte has five digits at most.
unfoldable pub decimal_loop : ℕ → ℕ → Text
decimal_loop zero n = []
decimal_loop (suc k) n =
    let rest = decimal_loop k (n / 10) in
    if ltb n 10 then (n + b'0') ∷ [] else rest ++ (n % 10 + b'0') ∷ []

unfoldable pub decimal : ℕ → Text
unfolding decimal_loop
decimal n = decimal_loop 5 n

unfoldable pub dotted : ℕ → ℕ → ℕ → ℕ → Text
unfolding decimal
dotted a b c d =
    decimal a ++ (str "." ++ (decimal b ++ (str "." ++ (decimal c ++ (str "." ++ decimal d)))))

-- The four bytes from an index on, in dotted form; a byte that is not there is undefined.
unfoldable pub dotted_at : List ℕ → ℕ → Result Text
unfolding dotted
dotted_at bytes i = do
  a ← at bytes i
  b ← at bytes (i + 1)
  c ← at bytes (i + 2)
  d ← at bytes (i + 3)
  ok (dotted a b c d)

-- `IP::toString`
unfoldable pub ip_to_string : Ip → Result Text
unfolding dotted_at
ip_to_string p = dotted_at p.ip 12

-- `~char(0xff >> n)` stored in a byte, for n < 8: `char` is signed, so the upper half is set too
-- unless n is 0.
abbrev pub mask_byte : ℕ → ℕ
mask_byte n = if nat_eq n 0 then 0 else 0xFFFF - 0xff / 2 ^ n

unfoldable pub mask_loop : ℕ → ℕ → IpMask
mask_loop zero n = []
mask_loop (suc l) n =
    let byte : ℕ = if leb 8 n then 0xff else mask_byte n in
    let left : ℕ = if leb 8 n then n - 8 else 0 in byte ∷ mask_loop l left

unfoldable pub cidr_mask : ℕ → ℕ → IpMask
unfolding mask_loop
cidr_mask ones bits =
    if not (nat_eq bits 32) && not (nat_eq bits 128)
    then []
    else if ltb bits ones
    then []
    else mask_loop (bits / 8) ones
