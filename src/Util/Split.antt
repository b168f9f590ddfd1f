-- ===== src/Util/Split.antt =====
-- casbin/util/split.cpp, join.cpp and find_all_occurences.cpp.
pub mod Single
use mathlib.Core.List.{append-nil}
use casbin_cpp.Base.{
  ℕ, zero, suc, ◌+◌, ◌-◌, ◌≤◌, ◌<◌, Option, none, some, List, [], ◌∷◌, ◌++◌, Text, ◌==◌, ==_iff,
  if◌then◌else◌, nat_eq, length, take, drop, ◌≡◌, refl, ap, sym, ◌∙◌, inl, inr, arith, Bool-cases,
  Option-cases, Result, ok, err, undefined, take-append-drop,
}

-- `std::string::find` of a string
unfoldable pub find : Text → Text → Option ℕ
find del [] = if del == [] then some 0 else none
find del (c ∷ s) =
    let later : Option ℕ = elim (find del s) [ none ↦ none | some i ↦ some (suc i) ] in
    if take (length del) (c ∷ s) == del then some 0 else later

-- The loop of `Split`, with so many rounds left.
unfoldable pub split_rounds : ℕ → Text → Text → List Text
unfolding find
split_rounds zero del s = s ∷ []
split_rounds (suc n) del s = elim (find del s) [
  | none ↦ s ∷ []
  | some pos ↦ take pos s ∷ split_rounds n del (drop (pos + length del) s)
]

-- `#define LARGE`
abbrev pub large : ℕ
large = 2147483647

-- A limit of 0 stands for every limit that is not positive.
unfoldable pub split : Text → Text → ℕ → List Text
unfolding split_rounds
split s del limit = split_rounds ((if nat_eq limit 0 then large else limit) - 1) del s

unfoldable pub join_rest : Text → List Text → Text
join_rest sep [] = []
join_rest sep (x ∷ xs) = sep ++ (x ++ join_rest sep xs)

-- `vos[0]` of an empty array is undefined.
unfoldable pub join : List Text → Text → Result Text
unfolding join_rest
join [] sep = err undefined
join (x ∷ xs) sep = ok (x ++ join_rest sep xs)

drop-add : (m n : ℕ) (s : Text) → drop (m + n) s ≡ drop n (drop m s)
drop-add zero n s = let e : zero + n ≡ n = omega arith in rw e refl
drop-add (suc m) zero [] = let e : suc m + zero ≡ suc m = omega arith in rw e refl
drop-add (suc m) (suc n) [] = let e : suc m + suc n ≡ suc (m + suc n) = omega arith in rw e refl
drop-add (suc m) n (c ∷ s) = let e : suc m + n ≡ suc (m + n) = omega arith in rw e (drop-add m n s)

-- What `find` answers is where the text occurs.
pub find_sound :
    (del s : Text) (p : ℕ)
    → find del s ≡ some p
    → s ≡ take p s ++ (del ++ drop (length del) (drop p s))
unfolding find
find_sound del [] p h = elim (Bool-cases (del == [])) [
  | inl e ↦
      let none_there : del ≡ [] = (==_iff del []).0 e in
      let start : zero ≡ p = ground arith in rw (← start, none_there) refl
  | inr e ↦ absurd (ground arith)
]
find_sound del (c ∷ s) p h = elim (Bool-cases (take (length del) (c ∷ s) == del)) [
  | inl e ↦
      let start : zero ≡ p = ground arith in
      let same : take (length del) (c ∷ s) ≡ del = (==_iff _ _).0 e in
      rw (← start) (
        sym (take-append-drop (length del) (c ∷ s)) ∙ ap (λ t. t ++ drop (length del) (c ∷ s)) same)
  | inr e ↦ elim (Option-cases (find del s)) [
    | inl n ↦ absurd (ground arith)
    | inr (i, f) ↦
        let next : suc i ≡ p = ground arith in rw (← next) (ap (λ t. c ∷ t) (find_sound del s i f))
  ]
]

abbrev Joins : Text → Text → List Text → Type 0
Joins del s [] = ⊥
Joins del s (x ∷ xs) = x ++ join_rest del xs ≡ s

Joins-cons :
    (del s x rest : Text) (xs : List Text)
    → Joins del rest xs
    → s ≡ x ++ (del ++ rest)
    → Joins del s (x ∷ xs)
unfolding join_rest
Joins-cons del s x rest [] h e = absurd h
Joins-cons del s x rest (y ∷ ys) h e = ap (λ t. x ++ (del ++ t)) h ∙ sym e

Joins-split : (n : ℕ) (del s : Text) → Joins del s (split_rounds n del s)
unfolding split_rounds join_rest
Joins-split zero del s = append-nil s
Joins-split (suc n) del s = elim (Option-cases (find del s)) [
  | inl e ↦ rw (e, split_rounds) (append-nil s)
  | inr (p, e) ↦
      rw (e, split_rounds)
        (Joins-cons del s (take p s) (drop (p + length del) s)
          (split_rounds n del (drop (p + length del) s))
          (Joins-split n del (drop (p + length del) s))
          (rw (drop-add p (length del) s) (find_sound del s p e)))
]

join-Joins : (del s : Text) (xs : List Text) → Joins del s xs → join xs del ≡ ok s
unfolding join
join-Joins del s [] h = absurd h
join-Joins del s (x ∷ xs) h = ap ok h

length-split_rounds : (n : ℕ) (del s : Text) → length (split_rounds n del s) ≤ n + 1
unfolding split_rounds
length-split_rounds zero del s = omega arith
length-split_rounds (suc n) del s = elim (Option-cases (find del s)) [
  | inl e ↦ rw (e, split_rounds) (omega arith)
  | inr (p, e) ↦
      rw (e, split_rounds) (omega (arith, length-split_rounds n del (drop (p + length del) s)))
]

-- `Join` with the same separator undoes `Split`, whatever the limit and the separator, and a
-- positive limit bounds the number of parts.
pub join-split :
    (s del : Text) (limit : ℕ)
    → (join (split s del limit) del ≡ ok s) × (0 < limit → length (split s del limit) ≤ limit)
unfolding split
join-split s del limit = (
  join-Joins del s (split s del limit) (Joins-split _ del s),
  λ h. ground (arith, length-split_rounds (limit - 1) del s),
)
