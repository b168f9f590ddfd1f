-- ===== src/Ip/Prefix.antt =====
-- `contains` for the network of an IPv4 address and a prefix length, in terms of the bits.
use Prim.Native.Nat.{bit_and}
use casbin_cpp.Base.{
  ℕ, ◌-◌, ◌*◌, ◌/◌, ◌^◌, ◌≤◌, ◌<◌, Bool, true, false, ◌&&◌, &&_iff, List, [], ◌∷◌, if◌then◌else◌,
  nat_eq, leb, ltb, nat_eq_iff, length, ok, ◌≡◌, refl, ap, sym, subst, ◌∙◌, ◌↔◌, arith, Bool-cases,
  inl, inr,
}
use casbin_cpp.Ip.{Ip, IpNet}
use casbin_cpp.Ip.Address.{ipv4, apply_mask, cidr_mask, mask_loop, mask_byte, and_bytes}
use casbin_cpp.Ip.Network.{contains, masked_equal}
use casbin_cpp.Ip.Decimal.{all_below, all_below-at}

-- The first `n` bits of two lists of octets are the same.
abbrev pub SamePrefix : ℕ → List ℕ → List ℕ → Type 0
SamePrefix n [] ys = Unit
SamePrefix n (x ∷ xs) [] = Unit
SamePrefix n (x ∷ xs) (y ∷ ys) = (x / 2 ^ (8 - n) ≡ y / 2 ^ (8 - n)) × SamePrefix (n - 8) xs ys

-- The byte of the mask for a prefix of `n` bits, in the form of the loop.
abbrev prefix_byte : ℕ → ℕ
prefix_byte n = if leb 8 n then 0xff else mask_byte n

-- The mask keeps the upper bits of an octet, and the rest of it is lost.
keeps : ℕ → ℕ → Bool
keeps n x =
    nat_eq (bit_and x (prefix_byte n)) (x / 2 ^ (8 - n) * 2 ^ (8 - n))
    && (nat_eq (bit_and x (prefix_byte n) / 2 ^ (8 - n)) (x / 2 ^ (8 - n))
        && nat_eq (bit_and (bit_and x (prefix_byte n)) (prefix_byte n)) (bit_and x (prefix_byte n)))

keeps_table : all_below 129 (λ n. all_below 256 (keeps n)) ≡ true
unfolding all_below keeps
keeps_table = refl

-- What the table says of one octet.
record Keeps (n x : ℕ) : Type 0 where
  upper : bit_and x (prefix_byte n) ≡ x / 2 ^ (8 - n) * 2 ^ (8 - n)
  quotient : bit_and x (prefix_byte n) / 2 ^ (8 - n) ≡ x / 2 ^ (8 - n)
  again : bit_and (bit_and x (prefix_byte n)) (prefix_byte n) ≡ bit_and x (prefix_byte n)

Keeps-octet : (n x : ℕ) → n ≤ 128 → x < 256 → Keeps n x
unfolding keeps
Keeps-octet n x hn hx =
    let row = all_below-at 129 (λ m. all_below 256 (keeps m)) n keeps_table (omega arith) in
    let cell = all_below-at 256 (keeps n) x row hx in
    let (first, rest) = (&&_iff _ _).0 cell in
    let (second, third) = (&&_iff _ _).0 rest in
    record {
      upper = (nat_eq_iff _ _).0 first;
      quotient = (nat_eq_iff _ _).0 second;
      again = (nat_eq_iff _ _).0 third;
    }

-- The test of one octet compares the bits of the prefix.
octet_test_iff :
    (n x y : ℕ)
    → n ≤ 128
    → x < 256
    → y < 256
    → (nat_eq (bit_and (bit_and x (prefix_byte n)) (prefix_byte n)) (bit_and y (prefix_byte n))
        ≡ true)
      ↔ (x / 2 ^ (8 - n) ≡ y / 2 ^ (8 - n))
octet_test_iff n x y hn hx hy =
    let kx = Keeps-octet n x hn hx in
    let ky = Keeps-octet n y hn hy in
    (
      λ h.
          let same = sym kx.again ∙ (nat_eq_iff _ _).0 h in
          sym kx.quotient ∙ ap (λ (t : ℕ). t / 2 ^ (8 - n)) same ∙ ky.quotient,
      λ h.
          (nat_eq_iff _ _).1
            (kx.again ∙ kx.upper ∙ ap (λ (t : ℕ). t * 2 ^ (8 - n)) h ∙ sym ky.upper),
    )

-- Every byte is an octet.
abbrev pub Octets : List ℕ → Type 0
Octets [] = Unit
Octets (x ∷ xs) = (x < 256) × Octets xs

abbrev next_prefix : ℕ → ℕ
next_prefix n = if leb 8 n then n - 8 else 0

-- The loop of `contains` over the masked address of the network.
masked_equal_lem :
    (n : ℕ) (xs ys : List ℕ)
    → n ≤ 128
    → Octets xs
    → Octets ys
    → length xs ≡ length ys
    → (b : Bool) × (masked_equal
          (and_bytes xs (mask_loop (length xs) n))
          ys
          (mask_loop (length xs) n)
        ≡ ok b)
      × ((b ≡ true) ↔ SamePrefix n xs ys)
unfolding masked_equal and_bytes mask_loop
masked_equal_lem n [] ys hn hx hy e = (true, refl, (λ _. tt, λ _. refl))
masked_equal_lem n (x ∷ xs) [] hn hx hy e = absurd (omega arith)
masked_equal_lem n (x ∷ xs) (y ∷ ys) hn hx hy e =
    let next : next_prefix n ≡ n - 8 = ground arith in
    let (b, f, iff) =
      masked_equal_lem (next_prefix n) xs ys (omega (arith, next)) hx.1 hy.1 (omega arith) in
    let test = octet_test_iff n x y hn hx.0 hy.0 in
    elim (Bool-cases
      (nat_eq (bit_and (bit_and x (prefix_byte n)) (prefix_byte n)) (bit_and y (prefix_byte n)))) [
        | inl same ↦ (
          b,
          rw same f,
          (
            λ t. (test.0 same, subst (λ m. SamePrefix m xs ys) next (iff.0 t)),
            λ p. iff.1 (subst (λ m. SamePrefix m xs ys) (sym next) p.1),
          ),
        )
        | inr differ ↦ (
          false,
          rw differ,
          (λ t. absurd (ground arith), λ p. absurd (ground (arith, test.1 p.0))),
        )
      ]

-- The network of an address and a prefix length, as `parseCIDR` makes it.
abbrev pub network : Ip → ℕ → IpNet
network p n = record { net_ip = (apply_mask p (cidr_mask n 32)).0; mask = cidr_mask n 32 }

-- For octets and a prefix of at most 32 bits, `contains` of the network of an IPv4 address
-- returns, and answers true exactly when the two addresses have the same first bits.
pub contains_iff :
    (n a b c d a' b' c' d' : ℕ)
    → n ≤ 32
    → Octets (a ∷ b ∷ c ∷ d ∷ [])
    → Octets (a' ∷ b' ∷ c' ∷ d' ∷ [])
    → (r : Bool) × (contains (network (ipv4 a b c d) n) (ipv4 a' b' c' d') ≡ ok r)
      × ((r ≡ true) ↔ SamePrefix n (a ∷ b ∷ c ∷ d ∷ []) (a' ∷ b' ∷ c' ∷ d' ∷ []))
unfolding contains cidr_mask apply_mask ipv4
contains_iff n a b c d a' b' c' d' hn h h' =
    let fits : ltb 32 n ≡ false = ground arith in
    let (r, e, iff) =
      masked_equal_lem n (a ∷ b ∷ c ∷ d ∷ []) (a' ∷ b' ∷ c' ∷ d' ∷ []) (omega arith) h h' refl in
    (r, rw fits (unfold mask_loop and_bytes in e), iff)
