-- ===== src/Ip/Bounds.antt =====
-- The parsers write no byte out of range, and the bytes of a legal address are in range.
use casbin_cpp.Base.{
  ℕ, zero, suc, ◌<◌, Bool, true, false, some, List, [], ◌∷◌, Text, length, drop, set, get_elem?,
  replicate, ok, at, ◌≡◌, refl, ap, sym, subst, ◌⊎◌, ◌∙◌, arith, Bool-cases, Option-cases, inl, inr,
}
use casbin_cpp.Ip.Numbers.{dtoi}
use casbin_cpp.Ip.Address.{ipv4}
use casbin_cpp.Ip.Parsing.{octets, skip_dot, bad_octet, parse_ipv4, put, no_bytes, ipv4_of}
use casbin_cpp.Ip.Prefix.{Octets}

octets_bounds :
    (k : ℕ) (is_first : Bool) (s : Text) (bytes : List ℕ) (rest : Text)
    → octets k is_first s ≡ some (bytes, rest)
    → (length bytes ≡ k) × Octets bytes
unfolding octets
octets_bounds zero is_first s bytes rest h =
    let e : [] ≡ bytes = ground arith in (ap length (sym e), subst Octets e tt)
octets_bounds (suc k) is_first s bytes rest h = elim (Option-cases (skip_dot is_first s)) [
  | inl e ↦ absurd (ground arith)
  | inr (t, e) ↦ elim (Bool-cases (bad_octet (dtoi t))) [
    | inl bad ↦ absurd (ground arith)
    | inr good ↦ elim (Option-cases (octets k false (drop (dtoi t).1 t))) [
      | inl f ↦ absurd (ground arith)
      | inr ((later, left), f) ↦
          let (size, small) = octets_bounds k false (drop (dtoi t).1 t) later left f in
          let same : (dtoi t).0 ∷ later ≡ bytes = ground arith in
          let octet : (dtoi t).0 < 256 = ground arith in
          (ap length (sym same) ∙ ap suc size, subst Octets same (octet, small))
    ]
  ]
]

ipv4_of-legal :
    (bytes : List ℕ) (rest : Text)
    → length bytes ≡ 4
    → Octets bytes
    → (ipv4_of (some (bytes, rest))).is_legal ≡ true
    → (a : ℕ) × (b : ℕ) × (c : ℕ) × (d : ℕ) × (ipv4_of (some (bytes, rest)) ≡ ipv4 a b c d)
      × Octets (a ∷ b ∷ c ∷ d ∷ [])
unfolding ipv4
ipv4_of-legal [] rest e o h = absurd (omega arith)
ipv4_of-legal (a ∷ []) rest e o h = absurd (omega arith)
ipv4_of-legal (a ∷ b ∷ []) rest e o h = absurd (omega arith)
ipv4_of-legal (a ∷ b ∷ c ∷ []) rest e o h = absurd (omega arith)
ipv4_of-legal (a ∷ b ∷ c ∷ d ∷ []) [] e o h = (a, b, c, d, refl, o)
ipv4_of-legal (a ∷ b ∷ c ∷ d ∷ []) (x ∷ rest) e o h = absurd ((cc))
ipv4_of-legal (a ∷ b ∷ c ∷ d ∷ f ∷ bytes) rest e o h = absurd (omega arith)

-- A legal result of `parseIPv4` is an IPv4 address of four octets.
pub parse_ipv4_legal :
    (s : Text)
    → (parse_ipv4 s).is_legal ≡ true
    → (a : ℕ) × (b : ℕ) × (c : ℕ) × (d : ℕ) × (parse_ipv4 s ≡ ipv4 a b c d)
      × Octets (a ∷ b ∷ c ∷ d ∷ [])
unfolding parse_ipv4
parse_ipv4_legal s h = elim (Option-cases (octets 4 true s)) [
  | inl e ↦ absurd ((cc))
  | inr ((bytes, rest), e) ↦
      let (size, small) = octets_bounds 4 true s bytes rest e in
      let same = ap ipv4_of e in
      let (a, b, c, d, f, o) =
        ipv4_of-legal bytes rest size small (sym (ap (λ p. p.is_legal) same) ∙ h) in
      (a, b, c, d, same ∙ f, o)
]

-- The bytes of an address: sixteen, each an `unsigned short`.
pub record Words (b : List ℕ) : Type 0 where
  pub size : length b ≡ 16
  pub each : (i v : ℕ) → get_elem? b i ≡ some v → v < 65536

length-set : (b : List ℕ) (i v : ℕ) → length (set b i v) ≡ length b
length-set [] i v = refl
length-set (x ∷ b) zero v = refl
length-set (x ∷ b) (suc i) v = ap suc (length-set b i v)

get_elem?-set :
    (b : List ℕ) (i v j w : ℕ)
    → get_elem? (set b i v) j ≡ some w
    → (w ≡ v) ⊎ (get_elem? b j ≡ some w)
get_elem?-set [] i v j w h = inr h
get_elem?-set (x ∷ b) zero v zero w h = inl (ground arith)
get_elem?-set (x ∷ b) zero v (suc j) w h = inr h
get_elem?-set (x ∷ b) (suc i) v zero w h = inr h
get_elem?-set (x ∷ b) (suc i) v (suc j) w h = get_elem?-set b i v j w h

pub get_elem?-within :
    (b : List ℕ) (i : ℕ) → i < length b → (v : ℕ) × (get_elem? b i ≡ some v) × (at b i ≡ ok v)
get_elem?-within [] i h = absurd (omega arith)
get_elem?-within (x ∷ b) zero h = (x, refl, refl)
get_elem?-within (x ∷ b) (suc i) h = get_elem?-within b i (omega arith)

Words-set : (b : List ℕ) (i v : ℕ) → Words b → v < 65536 → Words (set b i v)
Words-set b i v w h = record {
  size = length-set b i v ∙ w.size;
  each = λ j u e. elim (get_elem?-set b i v j u e) [
    | inl same ↦ omega (arith, same)
    | inr old ↦ w.each j u old
  ];
}

pub Words-none : Words no_bytes
Words-none = record { size = refl; each = zeros 16 }
  where
    zeros : (k i v : ℕ) → get_elem? (replicate k 0) i ≡ some v → v < 65536
    zeros zero i v e = absurd ((cc))
    zeros (suc k) zero v e = ground arith
    zeros (suc k) (suc i) v e = zeros k i v e

-- A write in range succeeds.
pub put-ok :
    (b : List ℕ) (i v : ℕ)
    → Words b
    → i < 16
    → v < 65536
    → (put b i v ≡ ok (set b i v)) × Words (set b i v)
unfolding put
put-ok b i v w hi hv = (ground (arith, w.size), Words-set b i v w hv)
