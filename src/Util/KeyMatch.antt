-- ===== src/Util/KeyMatch.antt =====
-- `KeyMatch` and `KeyGet` of casbin/util/built_in_functions.cpp, whose patterns have one `*`.
use mathlib.Core.List.{append-nil}
use casbin_cpp.Base.{
  ℕ, suc, Bool, true, false, none, some, [], ◌∷◌, ◌++◌, Text, ◌==◌, ==_iff, ==_refl, if◌then◌else◌,
  nat_eq, ltb, length, take, drop, ◌≡◌, refl, ap, sym, ◌∙◌, ◌↔◌, inl, inr, arith, Bool-cases,
  take-append-drop, length-append,
}
use casbin_cpp.Util.Trim.{find_char}

unfoldable pub key_match : Text → Text → Bool
unfolding find_char ◌==◌
key_match key1 key2 = elim (find_char b'*' key2) [
  | none ↦ key1 == key2
  | some pos ↦
      if ltb pos (length key1) then take pos key1 == take pos key2 else key1 == take pos key2
]

unfoldable pub key_get : Text → Text → Text
unfolding find_char ◌==◌
key_get key1 key2 = elim (find_char b'*' key2) [
  | none ↦ []
  | some pos ↦
      if ltb pos (length key1)
      then if take pos key1 == take pos key2 then drop pos key1 else []
      else []
]

-- No `*` in the text.
abbrev pub Plain : Text → Type 0
Plain [] = Unit
Plain (c ∷ s) = (nat_eq c b'*' ≡ false) × Plain s

find_star : (pre post : Text) → Plain pre → find_char b'*' (pre ++ b'*' ∷ post) ≡ some (length pre)
unfolding find_char
find_star [] post h = refl
find_star (c ∷ pre) post h = rw (find_star pre post h.1, h.0) refl

no_star : (s : Text) → Plain s → find_char b'*' s ≡ none
unfolding find_char
no_star [] h = refl
no_star (c ∷ s) h = rw (no_star s h.1, h.0) refl

take-length : (s t : Text) → take (length s) (s ++ t) ≡ s
take-length [] t = refl
take-length (c ∷ s) t = ap (λ r. c ∷ r) (take-length s t)

drop-length : (s t : Text) → drop (length s) (s ++ t) ≡ t
drop-length [] t = refl
drop-length (c ∷ s) t = drop-length s t

-- A key matches a pattern without `*` exactly when it is the pattern.
pub key_match-Plain :
    (key pattern : Text) → Plain pattern → (key_match key pattern ≡ true) ↔ (key ≡ pattern)
unfolding key_match
key_match-Plain key pattern h = rw (no_star pattern h, key_match) (==_iff key pattern)

key_match-star :
    (key pre post : Text)
    → Plain pre
    → key_match key (pre ++ b'*' ∷ post)
      ≡ (if ltb (length pre) (length key) then take (length pre) key == pre else key == pre)
unfolding key_match
key_match-star key pre post h =
    rw (find_star pre post h, key_match) (rw (take-length pre (b'*' ∷ post)) refl)

key_get-star :
    (key pre post : Text)
    → Plain pre
    → key_get key (pre ++ b'*' ∷ post) ≡ (
        if ltb (length pre) (length key)
        then if take (length pre) key == pre then drop (length pre) key else []
        else [])
unfolding key_get
key_get-star key pre post h =
    rw (find_star pre post h, key_get) (rw (take-length pre (b'*' ∷ post)) refl)

shorter : (pre rest : Text) → ltb (length pre) (length (pre ++ rest)) ≡ ltb 0 (length rest)
shorter pre rest = ground (arith, length-append pre rest)

positive : (n : ℕ) → ltb 0 (suc n) ≡ true
positive n = ground arith

begins :
    (key pre : Text)
    → (if ltb (length pre) (length key) then take (length pre) key == pre else key == pre) ≡ true
    → (rest : Text) × (key ≡ pre ++ rest)
begins key pre m = elim (Bool-cases (ltb (length pre) (length key))) [
  | inl e ↦
      let same : take (length pre) key ≡ pre =
        (==_iff (take (length pre) key) pre).0 (ground arith) in
      (
        drop (length pre) key,
        sym (take-append-drop (length pre) key) ∙ ap (λ t. t ++ drop (length pre) key) same,
      )
  | inr e ↦ ([], (==_iff key pre).0 (ground arith) ∙ sym (append-nil pre))
]

matches :
    (pre rest : Text)
    → (if ltb (length pre) (length (pre ++ rest))
        then take (length pre) (pre ++ rest) == pre
        else pre ++ rest == pre)
      ≡ true
matches pre [] = rw (shorter pre [], append-nil pre) (==_refl pre)
matches pre (c ∷ rest) =
    rw (shorter pre (c ∷ rest), positive (length rest), take-length pre (c ∷ rest)) (==_refl pre)

gets :
    (pre rest : Text)
    → (if ltb (length pre) (length (pre ++ rest))
        then if take (length pre) (pre ++ rest) == pre then drop (length pre) (pre ++ rest) else []
        else [])
      ≡ rest
gets pre [] = rw (shorter pre []) refl
gets pre (c ∷ rest) =
    rw (shorter pre (c ∷ rest), positive (length rest), take-length pre (c ∷ rest), ==_refl pre)
      (drop-length pre (c ∷ rest))

-- A key matches a pattern exactly when it begins with what stands before the pattern's first `*`,
-- whatever stands behind it, and `KeyGet` then gives the rest of the key.
pub key_match_iff :
    (key pre post : Text)
    → Plain pre
    → ((key_match key (pre ++ b'*' ∷ post) ≡ true) ↔ ((rest : Text) × (key ≡ pre ++ rest)))
      × ((rest : Text) → key ≡ pre ++ rest → key_get key (pre ++ b'*' ∷ post) ≡ rest)
key_match_iff key pre post h = (
  (
    λ m. begins key pre (sym (key_match-star key pre post h) ∙ m),
    λ (rest, e). key_match-star key pre post h ∙ rw e (matches pre rest),
  ),
  λ rest e. key_get-star key pre post h ∙ rw e (gets pre rest),
)
