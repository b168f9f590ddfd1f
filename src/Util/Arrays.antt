-- ===== src/Util/Arrays.antt =====
-- casbin/util: array_remove_duplicates.cpp, set_subtract.cpp, array_to_string.cpp, join_slice.cpp.
use casbin_cpp.Base.{
  Bool, true, not, List, [], ◌∷◌, ◌++◌, Text, str, ◌==◌, ==_iff, ==_refl, if◌then◌else◌, any, keep,
  drop, In, Distinct, In-keep, In-any, any_of_In, ◌≡◌, refl, sym, subst, ◌↔◌, inl, inr, Bool-cases,
  length, leb, suc, arith, ap, Result, ok, err, out_of_range,
}
use casbin_cpp.Util.Split.{join_rest}

abbrev pub contains : Text → List Text → Bool
contains t xs = any (λ x. x == t) xs

pub contains_iff : (t : Text) (xs : List Text) → (contains t xs ≡ true) ↔ In t xs
contains_iff t xs = (
  λ h. let (x, i, e) = In-any (λ x. x == t) xs h in subst (λ y. In y xs) ((==_iff x t).0 e) i,
  λ i. any_of_In (λ x. x == t) t xs i (==_refl t),
)

-- The loop of `ArrayRemoveDuplicates`: `found` holds the texts met so far, and what is kept is
-- written back to the front of the array.
remove_found : List Text → List Text → List Text
remove_found found [] = []
remove_found found (x ∷ xs) =
    let rest = remove_found (x ∷ found) xs in
    let skipped = remove_found found xs in if contains x found then skipped else x ∷ rest

unfoldable pub array_remove_duplicates : List Text → List Text
unfolding remove_found
array_remove_duplicates s = remove_found [] s

unfoldable pub set_subtract : List Text → List Text → List Text
set_subtract a b = keep (λ x. not (contains x b)) a

-- The parts, each behind ", "
joined : List Text → Text
joined [] = []
joined (x ∷ xs) = str ", " ++ (x ++ joined xs)

-- `res.substr(2)` throws where the result is shorter than that.
unfoldable pub array_to_string : List Text → Result Text
unfolding joined
array_to_string arr =
    if leb 2 (length (joined arr)) then ok (drop 2 (joined arr)) else err out_of_range

-- `ArrayToString` of an array that is not empty puts ", " between its texts.
pub array_to_string-cons :
    (x : Text) (xs : List Text) → array_to_string (x ∷ xs) ≡ ok (x ++ join_rest (str ", ") xs)
unfolding array_to_string joined join_rest
array_to_string-cons x xs =
    let long : leb 2 (suc (suc (length (x ++ joined xs)))) ≡ true = ground arith in
    rw long (ap (λ t. ok (x ++ t)) (go xs))
  where
    go : (xs : List Text) → joined xs ≡ join_rest (str ", ") xs
    go [] = refl
    go (x ∷ xs) = ap (λ t. str ", " ++ (x ++ t)) (go xs)

unfoldable pub join_slice : Text → List Text → List Text
join_slice a slice = a ∷ slice

In-remove_found :
    (t : Text) (found xs : List Text) → In t (remove_found found xs) ↔ (In t xs × (¬ In t found))
unfolding remove_found
In-remove_found t found [] = ((λ h. absurd h), (λ h. absurd h.0))
In-remove_found t found (x ∷ xs) = elim (Bool-cases (contains x found)) [
  | inl e ↦
      let old : In x found = (contains_iff x found).0 e in
      let ih = In-remove_found t found xs in
      rw e (
        λ h. (inr (ih.0 h).0, (ih.0 h).1),
        λ (i, ne). elim i [
          | inl q ↦ absurd (ne (subst (λ y. In y found) (sym q) old))
          | inr j ↦ ih.1 (j, ne)
        ],
      )
  | inr e ↦
      let new : ¬ In x found = λ i. cc (e, (contains_iff x found).1 i) in
      let ih = In-remove_found t (x ∷ found) xs in
      rw e (
        λ h. elim h [
          | inl q ↦ (inl q, λ i. new (subst (λ y. In y found) q i))
          | inr j ↦ (inr (ih.0 j).0, λ i. (ih.0 j).1 (inr i))
        ],
        λ (i, ne). elim (Bool-cases (t == x)) [
          | inl s ↦ inl ((==_iff t x).0 s)
          | inr s ↦ elim i [
            | inl q ↦ inl q
            | inr j ↦
                inr (ih.1 (j, λ k. elim k [ inl q ↦ cc (s, (==_iff t x).1 q) | inr p ↦ ne p ]))
          ]
        ],
      )
]

Distinct-remove_found : (found xs : List Text) → Distinct (remove_found found xs)
unfolding remove_found
Distinct-remove_found found [] = tt
Distinct-remove_found found (x ∷ xs) = elim (Bool-cases (contains x found)) [
  | inl e ↦ rw e (Distinct-remove_found found xs)
  | inr e ↦ rw e (
    λ i. ((In-remove_found x (x ∷ found) xs).0 i).1 (inl refl),
    Distinct-remove_found (x ∷ found) xs,
  )
]

-- `ArrayRemoveDuplicates` leaves no text twice, and leaves exactly the texts that were there.
pub array_remove_duplicates_lem :
    (xs : List Text)
    → Distinct (array_remove_duplicates xs)
      × ((t : Text) → In t (array_remove_duplicates xs) ↔ In t xs)
unfolding array_remove_duplicates
array_remove_duplicates_lem xs = (
  Distinct-remove_found [] xs,
  λ t. (λ h. ((In-remove_found t [] xs).0 h).0, λ i. (In-remove_found t [] xs).1 (i, λ n. n)),
)

-- `SetSubtract` leaves exactly the texts of the first array that are not in the second.
pub In-set_subtract : (t : Text) (a b : List Text) → In t (set_subtract a b) ↔ (In t a × (¬ In t b))
unfolding set_subtract
In-set_subtract t a b =
    let kept = In-keep (λ x. not (contains x b)) t a in
    (
      λ h. ((kept.0 h).0, λ i. cc ((kept.0 h).1, (contains_iff t b).1 i)),
      λ (i, ne). kept.1 (
        i,
        elim (Bool-cases (contains t b)) [
          | inl e ↦ absurd (ne ((contains_iff t b).0 e))
          | inr e ↦ rw e
        ],
      ),
    )
