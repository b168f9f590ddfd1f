-- ===== src/Util/Trim.antt =====
-- casbin/util/trim.cpp, remove_comments.cpp and ends_with.cpp.
pub mod Whole
use mathlib.Core.List.{append_assoc}
use casbin_cpp.Base.{
  ℕ, suc, ◌-◌, Bool, true, false, Option, none, some, [], ◌∷◌, ◌++◌, Text, ◌==◌, if◌then◌else◌,
  nat_eq, any, all, length, take, drop, leb, ◌≡◌, refl, ap, ◌∙◌, inl, inr, arith, Bool-cases,
  Option-cases, Result, ok, err, out_of_range, subst,
}

-- "\t\n\v\f\r ", the characters that `Trim` removes unless it is told others
abbrev pub blanks : Text
blanks = 9 ∷ 10 ∷ 11 ∷ 12 ∷ 13 ∷ 32 ∷ []

abbrev pub among : Text → ℕ → Bool
among chars c = any (λ d. nat_eq c d) chars

-- `std::string::find_first_not_of`
pub find_first_not_of : Text → Text → Option ℕ
find_first_not_of chars [] = none
find_first_not_of chars (c ∷ s) =
    let later : Option ℕ = elim (find_first_not_of chars s) [
      | none ↦ none
      | some i ↦ some (suc i)
    ] in
    if among chars c then later else some 0

-- `std::string::find_last_not_of`
pub find_last_not_of : Text → Text → Option ℕ
find_last_not_of chars [] = none
find_last_not_of chars (c ∷ s) = elim (find_last_not_of chars s) [
  | some i ↦ some (suc i)
  | none ↦ if among chars c then none else some 0
]

-- `str.erase(0, n)`, where `n` may be `npos`
pub ltrim : Text → Text → Text
unfolding find_first_not_of
ltrim chars s = elim (find_first_not_of chars s) [ none ↦ [] | some i ↦ drop i s ]

-- `str.erase(n + 1)`, where `npos + 1` is 0
unfoldable pub rtrim : Text → Text → Text
unfolding find_last_not_of
rtrim chars s = elim (find_last_not_of chars s) [ none ↦ [] | some i ↦ take (suc i) s ]

unfoldable pub trim : Text → Text
unfolding ltrim rtrim
trim s = ltrim blanks (rtrim blanks s)

-- `std::string::find` of one character
unfoldable pub find_char : ℕ → Text → Option ℕ
find_char c [] = none
find_char c (d ∷ s) =
    let later : Option ℕ = elim (find_char c s) [ none ↦ none | some i ↦ some (suc i) ] in
    if nat_eq d c then some 0 else later

unfoldable pub remove_comments : Text → Text
unfolding find_char trim
remove_comments s = elim (find_char b'#' s) [ none ↦ s | some pos ↦ trim (take pos s) ]

-- `base.substr(base_len - suffix_len, suffix_len)`: where the suffix is longer, the start wraps
-- round to a position past the end, and `substr` throws.
unfoldable pub ends_with : Text → Text → Result Bool
ends_with base suffix =
    if leb (length suffix) (length base)
    then ok (take (length suffix) (drop (length base - length suffix) base) == suffix)
    else err out_of_range

-- Every character is among those.
abbrev pub Blank : Text → Text → Type 0
Blank chars s = all (among chars) s ≡ true

abbrev pub FirstKept : Text → Text → Type 0
FirstKept chars [] = Unit
FirstKept chars (c ∷ s) = among chars c ≡ false

abbrev pub LastKept : Text → Text → Type 0
LastKept chars [] = Unit
LastKept chars (c ∷ []) = among chars c ≡ false
LastKept chars (c ∷ d ∷ s) = LastKept chars (d ∷ s)

Blank-cons :
    (chars : Text) (c : ℕ) (s : Text) → among chars c ≡ true → Blank chars s → Blank chars (c ∷ s)
Blank-cons chars c s h b = ground arith

pub ltrim-cons :
    (chars : Text) (c : ℕ) (s : Text)
    → ltrim chars (c ∷ s) ≡ (if among chars c then ltrim chars s else c ∷ s)
unfolding ltrim
ltrim-cons chars c s = ground arith

ltrim_lem :
    (chars s : Text)
    → (pre : Text) × (s ≡ pre ++ ltrim chars s) × Blank chars pre × FirstKept chars (ltrim chars s)
unfolding ltrim
ltrim_lem chars [] = ([], refl, refl, tt)
ltrim_lem chars (c ∷ s) = elim (Bool-cases (among chars c)) [
  | inl e ↦
      let (pre, eq, b, k) = ltrim_lem chars s in
      let step : ltrim chars (c ∷ s) ≡ ltrim chars s = ltrim-cons chars c s ∙ rw e in
      rw step (c ∷ pre, ap (λ t. c ∷ t) eq, Blank-cons chars c pre e b, k)
  | inr e ↦
      let step : ltrim chars (c ∷ s) ≡ c ∷ s = ltrim-cons chars c s ∙ rw e in
      rw step ([], refl, refl, e)
]

find_last-none : (chars s : Text) → find_last_not_of chars s ≡ none → Blank chars s
unfolding find_last_not_of
find_last-none chars [] h = refl
find_last-none chars (c ∷ s) h = ground (arith, find_last-none chars s)

rtrim_lem :
    (chars s : Text)
    → (post : Text) × (s ≡ rtrim chars s ++ post)
      × Blank chars post
      × LastKept chars (rtrim chars s)
unfolding rtrim
rtrim_lem chars [] = ([], refl, refl, tt)
rtrim_lem chars (c ∷ s) = elim (Option-cases (find_last_not_of chars s)) [
  | inl e ↦ elim (Bool-cases (among chars c)) [
    | inl a ↦
        let step : rtrim chars (c ∷ s) ≡ [] = ground arith in
        rw step (c ∷ s, refl, Blank-cons chars c s a (find_last-none chars s e), tt)
    | inr a ↦
        let step : rtrim chars (c ∷ s) ≡ c ∷ [] = ground arith in
        rw step (s, refl, find_last-none chars s e, a)
  ]
  | inr (i, e) ↦ kept s i e (rtrim_lem chars s)
]
  where
    kept :
        (s : Text) (i : ℕ)
        → find_last_not_of chars s ≡ some i
        → ((post : Text) × (s ≡ rtrim chars s ++ post)
            × Blank chars post
            × LastKept chars (rtrim chars s))
        → (post : Text) × (c ∷ s ≡ rtrim chars (c ∷ s) ++ post)
          × Blank chars post
          × LastKept chars (rtrim chars (c ∷ s))
    kept [] i e h = cc
    kept (d ∷ s) i e (post, eq, b, k) =
        let here : rtrim chars (d ∷ s) ≡ d ∷ take i s = ground arith in
        let step : rtrim chars (c ∷ d ∷ s) ≡ c ∷ d ∷ take i s = ground arith in
        rw step (post, ap (λ t. c ∷ t) (rw here at eq), b, rw here at k)

LastKept-append : (chars pre s : Text) → LastKept chars (pre ++ s) → LastKept chars s
LastKept-append chars [] s h = h
LastKept-append chars (c ∷ []) [] h = tt
LastKept-append chars (c ∷ []) (d ∷ s) h = h
LastKept-append chars (c ∷ d ∷ pre) s h = LastKept-append chars (d ∷ pre) s h

-- Neither the first nor the last character is among those.
abbrev pub Kept : Text → Text → Type 0
Kept chars s = FirstKept chars s × LastKept chars s

-- `Trim` removes blanks from the two ends and nothing else: the text is its trimmed form between
-- two runs of blanks, and the trimmed form neither begins nor ends with a blank.
pub trim_lem :
    (s : Text)
    → (pre : Text) × (post : Text) × (s ≡ pre ++ (trim s ++ post))
      × Blank blanks pre
      × Blank blanks post
      × Kept blanks (trim s)
unfolding trim
trim_lem s =
    let (post, e, b, k) = rtrim_lem blanks s in
    let (pre, e', b', k') = ltrim_lem blanks (rtrim blanks s) in
    (
      pre,
      post,
      e ∙ ap (λ t. t ++ post) e' ∙ append_assoc pre (ltrim blanks (rtrim blanks s)) post,
      b',
      b,
      (
        k',
        LastKept-append blanks pre (ltrim blanks (rtrim blanks s)) (subst (LastKept blanks) e' k),
      ),
    )
