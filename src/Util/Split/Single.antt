-- ===== src/Util/Split/Single.antt =====
-- `Split` at one character undoes the join of texts without it.
use mathlib.Core.List.{append-nil}
use casbin_cpp.Base.{
  ℕ, zero, suc, ◌+◌, ◌≤◌, false, none, some, List, [], ◌∷◌, ◌++◌, Text, ◌==◌, nat_eq, length, take,
  drop, ◌≡◌, refl, ap, arith,
}
use casbin_cpp.Util.Split.{find, split_rounds, join_rest}

-- The character is not in the text.
abbrev pub Without : ℕ → Text → Type 0
Without c [] = Unit
Without c (d ∷ s) = (nat_eq d c ≡ false) × Without c s

abbrev pub AllWithout : ℕ → List Text → Type 0
AllWithout c [] = Unit
AllWithout c (x ∷ xs) = Without c x × AllWithout c xs

find-none : (c : ℕ) (s : Text) → Without c s → find (c ∷ []) s ≡ none
unfolding find ◌==◌
find-none c [] h = refl
find-none c (d ∷ s) h = rw (find-none c s h.1, h.0) refl

find-some : (c : ℕ) (s rest : Text) → Without c s → find (c ∷ []) (s ++ c ∷ rest) ≡ some (length s)
unfolding find ◌==◌
find-some c [] rest h = ground arith
find-some c (d ∷ s) rest h = rw (find-some c s rest h.1, h.0) refl

take-length : (s t : Text) → take (length s) (s ++ t) ≡ s
take-length [] t = refl
take-length (c ∷ s) t = ap (λ r. c ∷ r) (take-length s t)

drop-length : (c : ℕ) (s t : Text) → drop (length s + 1) (s ++ c ∷ t) ≡ t
drop-length c [] t = refl
drop-length c (d ∷ s) t =
    let e : suc (length s) + 1 ≡ suc (length s + 1) = omega arith in rw e (drop-length c s t)

pub split_rounds-join_rest :
    (n c : ℕ) (x : Text) (xs : List Text)
    → Without c x
    → AllWithout c xs
    → length xs ≤ n
    → split_rounds n (c ∷ []) (x ++ join_rest (c ∷ []) xs) ≡ x ∷ xs
unfolding split_rounds join_rest
split_rounds-join_rest zero c x [] h hs l = ap (λ t. t ∷ []) (append-nil x)
split_rounds-join_rest zero c x (y ∷ ys) h hs l = absurd (omega arith)
split_rounds-join_rest (suc n) c x [] h hs l =
    rw (append-nil x) (rw (find-none c x h, split_rounds) refl)
split_rounds-join_rest (suc n) c x (y ∷ ys) h hs l =
    let rest = y ++ join_rest (c ∷ []) ys in
    rw (find-some c x rest h, split_rounds)
      (rw (take-length x (c ∷ rest), drop-length c x rest)
        (ap (λ t. x ∷ t) (split_rounds-join_rest n c y ys hs.0 hs.1 (omega arith))))
