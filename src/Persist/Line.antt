-- ===== src/Persist/Line.antt =====
-- A line that was made from plain texts, read again.
use casbin_cpp.Base.{
  suc, ◌-◌, ◌<◌, List, [], ◌∷◌, ◌++◌, Text, str, map, length, ◌≡◌, refl, ap, arith,
}
use casbin_cpp.Util.Trim.{blanks, trim, Kept}
use casbin_cpp.Util.Trim.Whole.{trim-Kept, trim-space}
use casbin_cpp.Util.Split.{split, join_rest, large}
use casbin_cpp.Util.Split.Single.{Without, AllWithout, split_rounds-join_rest}

-- Not empty, without comma and newline, and with a blank at neither end.
abbrev pub Plain : Text → Type 0
Plain [] = ⊥
Plain (c ∷ s) = Kept blanks (c ∷ s) × Without b',' (c ∷ s) × Without 10 (c ∷ s)

abbrev pub AllPlain : List Text → Type 0
AllPlain [] = Unit
AllPlain (x ∷ xs) = Plain x × AllPlain xs

abbrev spaced : List Text → List Text
spaced xs = map (λ x. 32 ∷ x) xs

join_rest-spaced : (xs : List Text) → join_rest (str ", ") xs ≡ join_rest (str ",") (spaced xs)
unfolding join_rest
join_rest-spaced [] = refl
join_rest-spaced (x ∷ xs) = ap (λ t. str ", " ++ (x ++ t)) (join_rest-spaced xs)

AllWithout-spaced : (xs : List Text) → AllPlain xs → AllWithout b',' (spaced xs)
AllWithout-spaced [] h = tt
AllWithout-spaced ([] ∷ xs) h = absurd h.0
AllWithout-spaced ((c ∷ x) ∷ xs) h = ((refl, h.0.1), AllWithout-spaced xs h.1)

map-trim-spaced : (xs : List Text) → AllPlain xs → map trim (spaced xs) ≡ xs
map-trim-spaced [] h = refl
map-trim-spaced ([] ∷ xs) h = absurd h.0
map-trim-spaced ((c ∷ x) ∷ xs) h = rw (trim-space c x h.0.0, map-trim-spaced xs h.1) refl

length-spaced : (xs : List Text) → length (spaced xs) ≡ length xs
length-spaced [] = refl
length-spaced (x ∷ xs) = ap suc (length-spaced xs)

-- The parts of a line of plain texts, split at the commas and trimmed, are those texts.
pub parts_of_line :
    (key : Text) (fields : List Text)
    → Plain key
    → AllPlain fields
    → length fields < large
    → map trim (split (key ++ join_rest (str ", ") fields) (str ",") 0) ≡ key ∷ fields
unfolding split
parts_of_line [] fields k h l = absurd k
parts_of_line (c ∷ key) fields k h l = rw (join_rest-spaced fields) (
    rw
      (split_rounds-join_rest (large - 1) b',' (c ∷ key) (spaced fields) k.1
        (AllWithout-spaced fields h) (rw (length-spaced fields) (omega arith)))
      (rw (trim-Kept (c ∷ key) k.0, map-trim-spaced fields h) refl))
