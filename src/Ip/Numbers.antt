-- ===== src/Ip/Numbers.antt =====
-- dtoi.cpp and xtoi.cpp of casbin/ip_parser/parser: a number at the start of a text, and how many
-- characters it takes.
use casbin_cpp.Base.{
  ℕ, ◌+◌, ◌-◌, ◌*◌, Bool, ◌&&◌, Option, none, some, [], ◌∷◌, Text, if◌then◌else◌, leb, nat_eq,
}
use casbin_cpp.Ip.{big}

abbrev pub is_digit : ℕ → Bool
is_digit c = leb b'0' c && leb c b'9'

-- What is returned when the loop ends by its test.
abbrev pub stopped : ℕ → ℕ → ℕ × ℕ
stopped n i = if nat_eq i 0 then (0, 0) else (n, i)

unfoldable pub dtoi_loop : ℕ → ℕ → Text → ℕ × ℕ
dtoi_loop n i [] = stopped n i
dtoi_loop n i (c ∷ s) =
    let n' = n * 10 + (c - b'0') in
    let rest = dtoi_loop n' (i + 1) s in
    if is_digit c then (if leb big n' then (big, i) else rest) else stopped n i

unfoldable pub dtoi : Text → ℕ × ℕ
unfolding dtoi_loop
dtoi s = dtoi_loop 0 0 s

unfoldable pub hex_digit : ℕ → Option ℕ
hex_digit c =
    if is_digit c
    then some (c - b'0')
    else if leb b'a' c && leb c b'f'
    then some (c - b'a' + 10)
    else if leb b'A' c && leb c b'F'
    then some (c - b'A' + 10)
    else none

-- A number that is too large gives 0, and not `big`.
unfoldable pub xtoi_loop : ℕ → ℕ → Text → ℕ × ℕ
unfolding hex_digit
xtoi_loop n i [] = stopped n i
xtoi_loop n i (c ∷ s) = elim (hex_digit c) [
  | none ↦ stopped n i
  | some d ↦
      (let n' = n * 16 + d in
        let rest = xtoi_loop n' (i + 1) s in if leb big n' then (0, i) else rest)
]

unfoldable pub xtoi : Text → ℕ × ℕ
unfolding xtoi_loop
xtoi s = xtoi_loop 0 0 s
