-- ===== src/Util/Trim/Whole.antt =====
-- Trimming texts that have nothing to be trimmed, and behind a prefix.
use casbin_cpp.Base.{
  ℕ, true, false, some, none, [], ◌∷◌, ◌++◌, Text, length, take, ◌≡◌, ◌≢◌, refl, ap, ◌∙◌, arith,
  Option-cases, inl, inr,
}
use casbin_cpp.Util.Trim.{
  blanks, among, find_last_not_of, ltrim, ltrim-cons, rtrim, trim, FirstKept, LastKept, Kept,
}

-- The text goes on to its end.
take_all : (s : Text) → take (length s) s ≡ s
take_all [] = refl
take_all (c ∷ s) = ap (λ t. c ∷ t) (take_all s)

find_last-LastKept :
    (chars : Text) (c : ℕ) (s : Text)
    → LastKept chars (c ∷ s)
    → find_last_not_of chars (c ∷ s) ≡ some (length s)
unfolding find_last_not_of
find_last-LastKept chars c [] h = rw h refl
find_last-LastKept chars c (d ∷ s) h = rw (find_last-LastKept chars d s h) refl

pub rtrim-LastKept : (chars s : Text) → LastKept chars s → rtrim chars s ≡ s
unfolding rtrim
rtrim-LastKept chars [] h = refl
rtrim-LastKept chars (c ∷ s) h = rw (find_last-LastKept chars c s h, rtrim) (take_all (c ∷ s))

pub rtrim-cons :
    (chars : Text) (c : ℕ) (s : Text)
    → find_last_not_of chars s ≢ none
    → rtrim chars (c ∷ s) ≡ c ∷ rtrim chars s
unfolding rtrim
rtrim-cons chars c s h = elim (Option-cases (find_last_not_of chars s)) [
  | inl e ↦ absurd (h e)
  | inr (i, e) ↦ rw (e, rtrim) refl
]

-- A text that begins with a kept character has a last one.
pub find_last_not_of-FirstKept :
    (chars : Text) (c : ℕ) (s : Text)
    → among chars c ≡ false
    → find_last_not_of chars (c ∷ s) ≢ none
unfolding find_last_not_of
find_last_not_of-FirstKept chars c s h e = elim (Option-cases (find_last_not_of chars s)) [
  | inl n ↦ ground arith
  | inr (i, f) ↦ ground arith
]

pub trim-Kept : (s : Text) → Kept blanks s → trim s ≡ s
unfolding trim ltrim
trim-Kept s (first, last) = rw (rtrim-LastKept blanks s last) (go s first)
  where
    go : (s : Text) → FirstKept blanks s → ltrim blanks s ≡ s
    go [] h = refl
    go (c ∷ s) h = ltrim-cons blanks c s ∙ rw h refl

-- One blank before the text goes.
pub trim-space : (c : ℕ) (s : Text) → Kept blanks (c ∷ s) → trim (32 ∷ c ∷ s) ≡ c ∷ s
unfolding trim ltrim
trim-space c s (first, last) =
    rw (rtrim-LastKept blanks (32 ∷ c ∷ s) last)
      (ltrim-cons blanks 32 (c ∷ s) ∙ ltrim-cons blanks c s ∙ rw first refl)

pub LastKept-after :
    (chars pre : Text) (c : ℕ) (s : Text) → LastKept chars (c ∷ s) → LastKept chars (pre ++ c ∷ s)
LastKept-after chars [] c s h = h
LastKept-after chars (d ∷ []) c s h = h
LastKept-after chars (d ∷ e ∷ pre) c s h = LastKept-after chars (e ∷ pre) c s h

pub find_last_not_of-append :
    (chars pre s : Text)
    → find_last_not_of chars s ≢ none
    → find_last_not_of chars (pre ++ s) ≢ none
unfolding find_last_not_of
find_last_not_of-append chars [] s h = h
find_last_not_of-append chars (c ∷ pre) s h =
    elim (Option-cases (find_last_not_of chars (pre ++ s))) [
      | inl e ↦ absurd (find_last_not_of-append chars pre s h e)
      | inr (i, e) ↦ rw e (λ n. ground (arith, n))
    ]

pub rtrim-one :
    (chars : Text) (c d : ℕ)
    → among chars c ≡ false
    → among chars d ≡ true
    → rtrim chars (c ∷ d ∷ []) ≡ c ∷ []
unfolding rtrim find_last_not_of
rtrim-one chars c d h k = ground (arith, h, k)
