-- ===== src/Persist/Lines.antt =====
-- The lines of a file that was written line after line, the last newline left out.
use casbin_cpp.Base.{
  ℕ, false, none, List, [], ◌∷◌, ◌++◌, Text, nat_eq, ◌≡◌, ◌≢◌, refl, ap, ◌∙◌, arith,
}
use casbin_cpp.Util.Trim.{among, find_last_not_of, rtrim}
use casbin_cpp.Util.Trim.Whole.{
  rtrim-cons, find_last_not_of-FirstKept, find_last_not_of-append, rtrim-one, rtrim-LastKept,
}
use casbin_cpp.Util.Split.Single.{Without}
use casbin_cpp.Persist.{file_lines}

-- Every line, with a newline behind it.
abbrev pub with_newlines : List Text → Text
with_newlines [] = []
with_newlines (l ∷ ls) = l ++ (10 ∷ with_newlines ls)

abbrev pub Line : Text → Type 0
Line [] = ⊥
Line (c ∷ l) = Without 10 (c ∷ l)

abbrev pub AllLines : List Text → Type 0
AllLines [] = Unit
AllLines (l ∷ ls) = Line l × AllLines ls

file_lines-last : (c : ℕ) (l : Text) → Without 10 (c ∷ l) → file_lines (c ∷ l) ≡ (c ∷ l) ∷ []
unfolding file_lines
file_lines-last c [] h = rw h.0 refl
file_lines-last c (d ∷ l) h = rw (file_lines-last d l h.1, h.0) refl

file_lines-first :
    (l rest : Text) → Without 10 l → file_lines (l ++ (10 ∷ rest)) ≡ l ∷ file_lines rest
unfolding file_lines
file_lines-first [] rest h = refl
file_lines-first (c ∷ l) rest h = rw (file_lines-first l rest h.1, h.0) refl

-- What stands before a newline that stays is kept.
rtrim-first :
    (l rest : Text)
    → find_last_not_of (10 ∷ []) rest ≢ none
    → rtrim (10 ∷ []) (l ++ (10 ∷ rest)) ≡ l ++ (10 ∷ rtrim (10 ∷ []) rest)
rtrim-first [] rest h = rtrim-cons (10 ∷ []) 10 rest h
rtrim-first (c ∷ l) rest h =
    rtrim-cons (10 ∷ []) c (l ++ (10 ∷ rest)) (
      find_last_not_of-append (10 ∷ []) l (10 ∷ rest)
        (find_last_not_of-append (10 ∷ []) (10 ∷ []) rest h))
    ∙ ap (λ t. c ∷ t) (rtrim-first l rest h)

not_newline : (c : ℕ) → nat_eq c 10 ≡ false → among (10 ∷ []) c ≡ false
not_newline c h = ground (arith, h)

rtrim-last : (c : ℕ) (l : Text) → Without 10 (c ∷ l) → rtrim (10 ∷ []) (c ∷ l ++ 10 ∷ []) ≡ c ∷ l
rtrim-last c [] h = rtrim-one (10 ∷ []) c 10 (not_newline c h.0) refl
rtrim-last c (d ∷ l) h =
    rtrim-cons (10 ∷ []) c (d ∷ l ++ 10 ∷ [])
      (find_last_not_of-FirstKept (10 ∷ []) d (l ++ 10 ∷ []) (not_newline d h.1.0))
    ∙ ap (λ t. c ∷ t) (rtrim-last d l h.1)

-- The lines of the file are those that were written.
pub file_lines-rtrim :
    (ls : List Text) → AllLines ls → file_lines (rtrim (10 ∷ []) (with_newlines ls)) ≡ ls
unfolding file_lines
file_lines-rtrim [] h = rw (rtrim-LastKept (10 ∷ []) [] tt) refl
file_lines-rtrim ([] ∷ ls) h = absurd h.0
file_lines-rtrim ((c ∷ l) ∷ []) h = rw (rtrim-last c l h.0) (file_lines-last c l h.0)
file_lines-rtrim (l ∷ [] ∷ ms) h = absurd h.1.0
file_lines-rtrim ((c ∷ l) ∷ (d ∷ m) ∷ ms) h =
    let rest = with_newlines ((d ∷ m) ∷ ms) in
    rw
      (rtrim-first (c ∷ l) rest (
        find_last_not_of-FirstKept (10 ∷ []) d (m ++ (10 ∷ with_newlines ms))
          (not_newline d h.1.0.0)))
      (file_lines-first (c ∷ l) (rtrim (10 ∷ []) rest) h.0
        ∙ ap (λ t. (c ∷ l) ∷ t) (file_lines-rtrim ((d ∷ m) ∷ ms) h.1))
