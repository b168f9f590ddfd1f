-- ===== src/Ip/Safety.antt =====
-- The loop of `parseIPv6` and the loops after it stay in the sixteen bytes.
use casbin_cpp.Base.{
  ℕ, zero, suc, ◌+◌, ◌-◌, ◌*◌, ◌/◌, ◌≤◌, ◌<◌, true, ◌&&◌, Option, none, some, List, [], ◌∷◌, Text,
  nat_eq, ltb, drop, set, Result, ok, ◌>>=◌, ◌≡◌, refl, sym, subst, arith, Bool-cases, inl, inr,
}
use casbin_cpp.Ip.{Ip}
use casbin_cpp.Ip.Numbers.{xtoi}
use casbin_cpp.Ip.Address.{ipv4, legal, illegal}
use casbin_cpp.Ip.Parsing.{
  parse_ipv4, trailing_ipv4, after_chunk, bad_chunk, starts_with, ipv6_loop, move_up, zero_out,
  expand, parse_ipv6, Ipv6State, no_bytes, is_misplaced,
}
use casbin_cpp.Ip.Bounds.{Words, Words-none, put-ok, get_elem?-within, parse_ipv4_legal}

-- The ellipsis stands before the index.
abbrev Before : Option ℕ → ℕ → Type 0
Before none i = Unit
Before (some e) i = e ≤ i

abbrev Good : Option Ipv6State → Type 0
Good none = Unit
Good (some (i, e, b, s)) = (i ≤ 16) × Words b × Before e i

abbrev Returned : Result (Option Ipv6State) → Type 0
Returned r = (o : Option Ipv6State) × (r ≡ ok o) × Good o

Before-later : (e : Option ℕ) (i j : ℕ) → i ≤ j → Before e i → Before e j
Before-later none i j h b = tt
Before-later (some e) i j h b = omega arith

trailing_ipv4-Returned :
    (i : ℕ) (e : Option ℕ) (b : List ℕ) (s : Text)
    → Words b
    → Before e i
    → Returned (trailing_ipv4 i e b s)
unfolding trailing_ipv4 ipv4
trailing_ipv4-Returned i e b s w before = elim (Bool-cases (is_misplaced e i)) [
  | inl bad ↦ (none, rw bad, tt)
  | inr good ↦ elim (Bool-cases (ltb 16 (i + 4))) [
    | inl bad ↦ (none, rw good (rw bad), tt)
    | inr room ↦ elim (Bool-cases (parse_ipv4 s).is_legal) [
      | inr bad ↦ (none, rw good (rw room (rw bad)), tt)
      | inl l ↦
          let fits : i + 4 ≤ 16 = ground arith in
          let (x0, x1, x2, x3, e4, o) = parse_ipv4_legal s l in
          let (e0, w0) = put-ok b i x0 w (omega arith) (omega (arith, o.0)) in
          let b0 = set b i x0 in
          let (e1, w1) = put-ok b0 (i + 1) x1 w0 (omega arith) (omega (arith, o.1.0)) in
          let b1 = set b0 (i + 1) x1 in
          let (e2, w2) = put-ok b1 (i + 2) x2 w1 (omega arith) (omega (arith, o.1.1.0)) in
          let b2 = set b1 (i + 2) x2 in
          let (e3, w3) = put-ok b2 (i + 3) x3 w2 (omega arith) (omega (arith, o.1.1.1.0)) in
          (
            some (i + 4, e, set b2 (i + 3) x3, []),
            rw good (rw room (rw e4 (rw e0 (rw e1 (rw e2 (rw e3)))))),
            (fits, w3, Before-later e i (i + 4) (omega arith) before),
          )
    ]
  ]
]

after_chunk-Returned :
    (next : ℕ → Option ℕ → List ℕ → Text → Result (Option Ipv6State)) (i : ℕ) (e : Option ℕ)
    (b : List ℕ) (s : Text)
    → ((e' : Option ℕ) (s' : Text) → Before e' i → Returned (next i e' b s'))
    → i ≤ 16
    → Words b
    → Before e i
    → Returned (after_chunk next i e b s)
unfolding after_chunk
after_chunk-Returned next i e b [] h room w before = (some (i, e, b, []), refl, (room, w, before))
after_chunk-Returned next i e b (x ∷ []) h room w before = (none, refl, tt)
after_chunk-Returned next i e b (x ∷ y ∷ s) h room w before = elim (Bool-cases (nat_eq x b':')) [
  | inr other ↦ (none, rw other, tt)
  | inl colon ↦ elim (Bool-cases (nat_eq y b':')) [
    | inr one ↦ let (o, f, g) = h e (y ∷ s) before in (o, rw colon (rw one f), g)
    | inl two ↦ second e s colon two
  ]
]
  where
    second :
        (e : Option ℕ) (s : Text)
        → nat_eq x b':' ≡ true
        → nat_eq y b':' ≡ true
        → Returned (after_chunk next i e b (x ∷ y ∷ s))
    second (some e') s colon two = (none, rw colon (rw two), tt)
    second none [] colon two = (some (i, some i, b, []), rw colon (rw two), (room, w, omega arith))
    second none (z ∷ t) colon two =
        let (o, f, g) = h (some i) (z ∷ t) (omega arith) in (o, rw colon (rw two f), g)

ipv6_loop-Returned :
    (k j : ℕ) (e : Option ℕ) (b : List ℕ) (s : Text)
    → j ≤ 8
    → Words b
    → Before e (2 * j)
    → Returned (ipv6_loop k (2 * j) e b s)
unfolding ipv6_loop
ipv6_loop-Returned zero j e b s room w before =
    (some (2 * j, e, b, s), refl, (omega arith, w, before))
ipv6_loop-Returned (suc k) j e b s room w before = elim (Bool-cases (ltb (2 * j) 16)) [
  | inr over ↦ (some (2 * j, e, b, s), rw over, (omega arith, w, before))
  | inl more ↦
      let left : j < 8 = ground arith in
      elim (Bool-cases (bad_chunk (xtoi s))) [
        | inl bad ↦ (none, rw more (rw bad), tt)
        | inr good ↦ elim (Bool-cases (starts_with b'.' (drop (xtoi s).1 s))) [
          | inl dot ↦
              let (o, f, g) = trailing_ipv4-Returned (2 * j) e b s w before in
              (o, rw more (rw good (rw dot f)), g)
          | inr chunk ↦
              let small : (xtoi s).0 < 65536 = ground arith in
              let (e0, w0) = put-ok b (2 * j) ((xtoi s).0 / 256) w (omega arith) (omega arith) in
              let b0 = set b (2 * j) ((xtoi s).0 / 256) in
              let (e1, w1) = put-ok b0 (2 * j + 1) (xtoi s).0 w0 (omega arith) small in
              let b1 = set b0 (2 * j + 1) (xtoi s).0 in
              let two : 2 * suc j ≡ 2 * j + 2 = omega arith in
              let later = λ (e' : Option ℕ) (s' : Text) (before' : Before e' (2 * j + 2)).
                subst (λ i. Returned (ipv6_loop k i e' b1 s')) two
                  (ipv6_loop-Returned k (suc j) e' b1 s' (omega arith) w1
                    (subst (Before e') (sym two) before')) in
              let (o, f, g) =
                after_chunk-Returned (ipv6_loop k) (2 * j + 2) e b1 (drop (xtoi s).1 s) later
                  (omega arith) w1 (Before-later e (2 * j) (2 * j + 2) (omega arith) before) in
              (o, rw more (rw good (rw chunk (rw e0 (rw e1 f)))), g)
        ]
      ]
]

-- The two loops that make room for the ellipsis.
move_up-ok :
    (k e n : ℕ) (b : List ℕ)
    → e + k + n ≤ 16
    → Words b
    → (b' : List ℕ) × (move_up k e n b ≡ ok b') × Words b'
unfolding move_up
move_up-ok zero e n b room w = (b, refl, w)
move_up-ok (suc k) e n b room w =
    let (x, there, reads) = get_elem?-within b (e + k) (omega (arith, w.size)) in
    let (f, w') = put-ok b (e + k + n) x w (omega arith) (w.each (e + k) x there) in
    let (b', g, w'') = move_up-ok k e n (set b (e + k + n) x) (omega arith) w' in
    (b', rw reads (rw f g), w'')

zero_out-ok :
    (k e : ℕ) (b : List ℕ)
    → e + k ≤ 16
    → Words b
    → (b' : List ℕ) × (zero_out k e b ≡ ok b') × Words b'
unfolding zero_out
zero_out-ok zero e b room w = (b, refl, w)
zero_out-ok (suc k) e b room w =
    let (f, w') = put-ok b (e + k) 0 w (omega arith) (omega arith) in
    let (b', g, w'') = zero_out-ok k e (set b (e + k) 0) (omega arith) w' in (b', rw f g, w'')

abbrev Parsed : Result Ip → Type 0
Parsed r = (p : Ip) × (r ≡ ok p) × (p.is_legal ≡ true → Words p.ip)

expand-Parsed : (o : Option Ipv6State) → Good o → Parsed (expand o)
unfolding expand
expand-Parsed none g = (illegal no_bytes, refl, λ h. cc)
expand-Parsed (some (i, e, b, c ∷ s)) g = (illegal b, refl, λ h. cc)
expand-Parsed (some (i, none, b, [])) (room, w, before) = elim (Bool-cases (ltb i 16)) [
  | inl short ↦ (illegal b, rw short, λ h. cc)
  | inr full ↦ (legal b, rw full, λ h. w)
]
expand-Parsed (some (i, some e, b, [])) (room, w, before) = elim (Bool-cases (ltb i 16)) [
  | inl short ↦
      let (b', f, w') = move_up-ok (i - e) e (16 - i) b (omega arith) w in
      let (b'', g, w'') = zero_out-ok (16 - i) e b' (omega arith) w' in
      (legal b'', rw short (rw f (rw g)), λ h. w'')
  | inr full ↦ (illegal b, rw full, λ h. cc)
]

loop-Parsed :
    (e : Option ℕ) (s : Text) → Before e 0 → Parsed (ipv6_loop 8 0 e no_bytes s >>= expand)
loop-Parsed e s before =
    let (o, f, g) = ipv6_loop-Returned 8 0 e no_bytes s (omega arith) Words-none before in
    let (p, h, w) = expand-Parsed o g in (p, rw f h, w)

-- `parseIPv6` returns on every text, with no read or write outside the sixteen bytes; when the
-- address is legal, it has sixteen bytes, each below 2 ^ 16.
pub parse_ipv6_safe :
    (s : Text) → (p : Ip) × (parse_ipv6 s ≡ ok p) × (p.is_legal ≡ true → Words p.ip)
unfolding parse_ipv6
parse_ipv6_safe [] = loop-Parsed none [] tt
parse_ipv6_safe (x ∷ []) = loop-Parsed none (x ∷ []) tt
parse_ipv6_safe (x ∷ y ∷ s) = elim (Bool-cases (nat_eq x b':' && nat_eq y b':')) [
  | inr other ↦ let (p, e, w) = loop-Parsed none (x ∷ y ∷ s) tt in (p, rw other e, w)
  | inl two ↦ after_ellipsis s two
]
  where
    after_ellipsis :
        (s : Text) → (nat_eq x b':' && nat_eq y b':') ≡ true → Parsed (parse_ipv6 (x ∷ y ∷ s))
    after_ellipsis [] two = (legal no_bytes, rw two, λ h. Words-none)
    after_ellipsis (z ∷ t) two =
        let (p, e, w) = loop-Parsed (some 0) (z ∷ t) (omega arith) in (p, rw two e, w)
