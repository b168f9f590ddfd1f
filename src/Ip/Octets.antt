-- ===== src/Ip/Octets.antt =====
-- `parseIPv4` reads what `toString` prints.
use mathlib.Core.List.{append-nil}
use casbin_cpp.Base.{
  ℕ, suc, ◌<◌, Bool, true, false, some, List, [], ◌∷◌, ◌++◌, Text, length, length-append, ok, ◌≡◌,
  refl, ap, sym, ◌∙◌, arith,
}
use casbin_cpp.Ip.Numbers.{dtoi}
use casbin_cpp.Ip.Address.{decimal, dotted, ipv4, ip_to_string}
use casbin_cpp.Ip.Parsing.{octets, skip_dot, bad_octet, parse_ipv4}
use casbin_cpp.Ip.Decimal.{dtoi-decimal, dtoi-decimal_dot, length-decimal_pos, drop-append}

-- One round of the loop, at a text that starts with a printed octet.
octets-step :
    (k : ℕ) (is_first : Bool) (s u : Text) (n : ℕ) (bytes : List ℕ)
    → skip_dot is_first s ≡ some (decimal n ++ u)
    → dtoi (decimal n ++ u) ≡ (n, length (decimal n))
    → n < 256
    → octets k false u ≡ some (bytes, [])
    → octets (suc k) is_first s ≡ some (n ∷ bytes, [])
unfolding octets
octets-step k is_first s u n bytes e d small later =
    let good : bad_octet (n, length (decimal n)) ≡ false = ground (arith, length-decimal_pos n) in
    rw (e, octets)
      (rw d (
        rw good (
          rw (drop-append (decimal n) u)
            (rw later (ap (λ (z : ℕ × ℕ). some (z.0 ∷ bytes, [])) d)))))

skip_first : (s : Text) → 0 < length s → skip_dot true s ≡ some s
skip_first [] h = absurd (omega arith)
skip_first (c ∷ s) h = refl

-- A round at an octet that a dot follows, and at the last one.
octets-dot :
    (k n : ℕ) (u : Text) (bytes : List ℕ)
    → n < 256
    → octets k false (b'.' ∷ u) ≡ some (bytes, [])
    → octets (suc k) false (b'.' ∷ (decimal n ++ b'.' ∷ u)) ≡ some (n ∷ bytes, [])
octets-dot k n u bytes small later =
    octets-step k false (b'.' ∷ (decimal n ++ b'.' ∷ u)) (b'.' ∷ u) n bytes refl
      (dtoi-decimal_dot n u small) small later

octets-last : (n : ℕ) → n < 256 → octets 1 false (b'.' ∷ decimal n) ≡ some (n ∷ [], [])
unfolding octets
octets-last n small =
    octets-step 0 false (b'.' ∷ decimal n) [] n [] (ap some (sym (append-nil (decimal n))))
      (ap dtoi (append-nil (decimal n)) ∙ dtoi-decimal n small) small refl

module _ (a b c d : ℕ) (ha : a < 256) (hb : b < 256) (hc : c < 256) (hd : d < 256) where
  pub octets-dotted : octets 4 true (dotted a b c d) ≡ some (a ∷ b ∷ c ∷ d ∷ [], [])
  unfolding dotted
  octets-dotted =
      let after_a = decimal b ++ (b'.' ∷ (decimal c ++ (b'.' ∷ decimal d))) in
      octets-step 3 true (decimal a ++ b'.' ∷ after_a) (b'.' ∷ after_a) a (b ∷ c ∷ d ∷ [])
        (skip_first (decimal a ++ b'.' ∷ after_a)
          (omega (arith, length-append (decimal a) (b'.' ∷ after_a), length-decimal_pos a)))
        (dtoi-decimal_dot a after_a ha) ha
        (octets-dot 2 b (decimal c ++ (b'.' ∷ decimal d)) (c ∷ d ∷ []) hb
          (octets-dot 1 c (decimal d) (d ∷ []) hc (octets-last d hd)))

  pub parse_ipv4-dotted : parse_ipv4 (dotted a b c d) ≡ ipv4 a b c d
  unfolding parse_ipv4
  parse_ipv4-dotted = rw (octets-dotted, parse_ipv4)

  -- An IPv4 address of four octets is printed by `toString`, and `parseIPv4` reads the text back.
  pub parse_ipv4-ip_to_string :
      (t : Text) × (ip_to_string (ipv4 a b c d) ≡ ok t) × (parse_ipv4 t ≡ ipv4 a b c d)
  unfolding ip_to_string ipv4
  parse_ipv4-ip_to_string = (dotted a b c d, refl, parse_ipv4-dotted)
