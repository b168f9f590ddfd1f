-- ===== src/Util/Equality.antt =====
-- casbin/util/array_equals.cpp: two arrays of strings are sorted and compared.
use casbin_cpp.Base.{
  ℕ, suc, ◌<◌, Bool, true, false, List, [], ◌∷◌, Text, Rule, ◌==◌, ==_iff, ==_refl, rule_eq,
  rule_eq_iff, if◌then◌else◌, nat_eq, ltb, length, ◌≡◌, refl, ap, sym, ◌∙◌, ◌↔◌, inl, inr, arith,
  Bool-cases, subst,
}

-- `a <= b` in the order of `std::string::operator<`, which compares bytes.
unfoldable pub text_le : Text → Text → Bool
text_le [] b = true
text_le (x ∷ a) [] = false
text_le (x ∷ a) (y ∷ b) =
    let rest = text_le a b in if ltb x y then true else if ltb y x then false else rest

insert_sorted : Text → List Text → List Text
insert_sorted t [] = t ∷ []
insert_sorted t (x ∷ xs) =
    let rest = insert_sorted t xs in if text_le t x then t ∷ x ∷ xs else x ∷ rest

-- `std::sort`: of a list of strings there is one sorted arrangement.
unfoldable pub sort : List Text → List Text
unfolding insert_sorted text_le
sort [] = []
sort (x ∷ xs) = insert_sorted x (sort xs)

unfoldable pub array_equals : Rule → Rule → Bool
unfolding sort rule_eq ◌==◌
array_equals a b = if nat_eq (length a) (length b) then rule_eq (sort a) (sort b) else false

-- How often a text occurs.
abbrev pub count : Text → List Text → ℕ
count t [] = 0
count t (x ∷ xs) = let rest = count t xs in if x == t then suc rest else rest

-- The same texts, each as often.
abbrev pub SameItems : Rule → Rule → Type 0
SameItems a b = (t : Text) → count t a ≡ count t b

text_le-total : (a b : Text) → text_le a b ≡ false → text_le b a ≡ true
unfolding text_le
text_le-total [] b h = cc
text_le-total (x ∷ a) [] h = refl
text_le-total (x ∷ a) (y ∷ b) h = ground (arith, text_le-total a b)

text_le-antisym : (a b : Text) → text_le a b ≡ true → text_le b a ≡ true → a ≡ b
unfolding text_le
text_le-antisym [] [] h k = refl
text_le-antisym [] (y ∷ b) h k = cc
text_le-antisym (x ∷ a) [] h k = cc
text_le-antisym (x ∷ a) (y ∷ b) h k = ground (arith, text_le-antisym a b)

text_le_trans : (a b c : Text) → text_le a b ≡ true → text_le b c ≡ true → text_le a c ≡ true
unfolding text_le
text_le_trans [] b c h k = refl
text_le_trans (x ∷ a) [] c h k = cc
text_le_trans (x ∷ a) (y ∷ b) [] h k = cc
text_le_trans (x ∷ a) (y ∷ b) (z ∷ c) h k = ground (arith, text_le_trans a b c)

count-insert_sorted :
    (t x : Text) (xs : List Text) → count t (insert_sorted x xs) ≡ count t (x ∷ xs)
unfolding insert_sorted
count-insert_sorted t x [] = refl
count-insert_sorted t x (y ∷ ys) = ground (arith, count-insert_sorted t x ys)

count-sort : (t : Text) (xs : List Text) → count t (sort xs) ≡ count t xs
unfolding sort
count-sort t [] = refl
count-sort t (x ∷ xs) = ground (arith, count-insert_sorted t x (sort xs), count-sort t xs)

length-insert_sorted : (x : Text) (xs : List Text) → length (insert_sorted x xs) ≡ suc (length xs)
unfolding insert_sorted
length-insert_sorted x [] = refl
length-insert_sorted x (y ∷ ys) = ground (arith, length-insert_sorted x ys)

length-sort : (xs : List Text) → length (sort xs) ≡ length xs
unfolding sort
length-sort [] = refl
length-sort (x ∷ xs) = length-insert_sorted x (sort xs) ∙ ap suc (length-sort xs)

abbrev Below : Text → List Text → Type 0
Below t [] = Unit
Below t (x ∷ xs) = (text_le t x ≡ true) × Below t xs

abbrev IsSorted : List Text → Type 0
IsSorted [] = Unit
IsSorted (x ∷ xs) = Below x xs × IsSorted xs

Below-trans : (s t : Text) (xs : List Text) → text_le s t ≡ true → Below t xs → Below s xs
Below-trans s t [] h b = tt
Below-trans s t (x ∷ xs) h b = (text_le_trans s t x h b.0, Below-trans s t xs h b.1)

Below-insert_sorted :
    (s x : Text) (xs : List Text) → text_le s x ≡ true → Below s xs → Below s (insert_sorted x xs)
unfolding insert_sorted
Below-insert_sorted s x [] h b = (h, tt)
Below-insert_sorted s x (y ∷ ys) h b = elim (Bool-cases (text_le x y)) [
  | inl e ↦ rw e (h, b)
  | inr e ↦ rw e (b.0, Below-insert_sorted s x ys h b.1)
]

insert_sorted-IsSorted : (x : Text) (xs : List Text) → IsSorted xs → IsSorted (insert_sorted x xs)
unfolding insert_sorted
insert_sorted-IsSorted x [] s = (tt, tt)
insert_sorted-IsSorted x (y ∷ ys) s = elim (Bool-cases (text_le x y)) [
  | inl e ↦ rw e ((e, Below-trans x y ys e s.0), s)
  | inr e ↦
      rw e (Below-insert_sorted y x ys (text_le-total x y e) s.0, insert_sorted-IsSorted x ys s.1)
]

sort-IsSorted : (xs : List Text) → IsSorted (sort xs)
unfolding sort
sort-IsSorted [] = tt
sort-IsSorted (x ∷ xs) = insert_sorted-IsSorted x (sort xs) (sort-IsSorted xs)

le_of_count : (s t : Text) (xs : List Text) → Below s xs → 0 < count t xs → text_le s t ≡ true
le_of_count s t [] b h = absurd (omega arith)
le_of_count s t (x ∷ xs) b h = elim (Bool-cases (x == t)) [
  | inl e ↦ subst (λ y. text_le s y ≡ true) ((==_iff x t).0 e) b.0
  | inr e ↦ le_of_count s t xs b.1 (rw e at h)
]

text_le_refl : (a : Text) → text_le a a ≡ true
text_le_refl a = elim (Bool-cases (text_le a a)) [ inl e ↦ e | inr e ↦ text_le-total a a e ]

heads :
    (x y : Text) (xs ys : List Text)
    → IsSorted (x ∷ xs)
    → IsSorted (y ∷ ys)
    → ((t : Text) → count t (x ∷ xs) ≡ count t (y ∷ ys))
    → x ≡ y
heads x y xs ys s r h =
    text_le-antisym x y
      (le_of_count x y (x ∷ xs) (text_le_refl x, s.0) (ground (arith, h y, ==_refl y)))
      (le_of_count y x (y ∷ ys) (text_le_refl y, r.0) (ground (arith, h x, ==_refl x)))

-- Two sorted lists with the same items are equal.
sorted_unique :
    (xs ys : List Text)
    → IsSorted xs
    → IsSorted ys
    → ((t : Text) → count t xs ≡ count t ys)
    → xs ≡ ys
sorted_unique [] [] s r h = refl
sorted_unique [] (y ∷ ys) s r h = absurd (ground (arith, h y, ==_refl y))
sorted_unique (x ∷ xs) [] s r h = absurd (ground (arith, h x, ==_refl x))
sorted_unique (x ∷ xs) (y ∷ ys) s r h =
    let e = heads x y xs ys s r h in
    let tails = sorted_unique xs ys s.1 r.1 (λ t. ground (arith, h t, e)) in
    ap (λ z. z ∷ xs) e ∙ ap (λ zs. y ∷ zs) tails

-- `ArrayEquals` answers true exactly when the two arrays have the same strings, each as often, in
-- whatever order: it is equality up to a permutation.
pub array_equals_iff : (a b : Rule) → (array_equals a b ≡ true) ↔ SameItems a b
unfolding array_equals
array_equals_iff a b = (
  λ h.
      let sorted : rule_eq (sort a) (sort b) ≡ true = ground arith in
      let same : sort a ≡ sort b = (rule_eq_iff (sort a) (sort b)).0 sorted in
      λ t. sym (count-sort t a) ∙ ap (count t) same ∙ count-sort t b,
  λ h.
      let same : sort a ≡ sort b =
        sorted_unique (sort a) (sort b) (sort-IsSorted a) (sort-IsSorted b)
          (λ t. count-sort t a ∙ h t ∙ sym (count-sort t b)) in
      let lengths : length a ≡ length b = sym (length-sort a) ∙ ap length same ∙ length-sort b in
      ground (arith, (rule_eq_iff (sort a) (sort b)).1 same),
)

pub array_equals_refl : (a : Rule) → array_equals a a ≡ true
array_equals_refl a = (array_equals_iff a a).1 (λ t. refl)
