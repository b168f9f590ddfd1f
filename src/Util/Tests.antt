-- ===== src/Util/Tests.antt =====
-- The helpers of casbin/util, run on small texts.
use casbin_cpp.Util.KeyMatch.{key_match, key_get, key_match_iff}
use casbin_cpp.Util.Split.Single.{Without}
use casbin_cpp.Base.{
  false, all, not, nat_eq, ℕ, arith, ◌≤◌, ◌<◌, true, List, [], ◌∷◌, ◌++◌, Text, str, Rule, ◌≡◌,
  refl, ◌↔◌, ◌==◌, In, Distinct, ok, length,
}
use casbin_cpp.Base.Assoc.{Assoc, lookup}
use casbin_cpp.Util.Trim.{trim, blanks, Blank, Kept, trim_lem}
use casbin_cpp.Util.Split.{split, join, join-split}
use casbin_cpp.Util.Arrays.{
  array_remove_duplicates, set_subtract, array_remove_duplicates_lem, In-set_subtract,
}
use casbin_cpp.Util.Equality.{array_equals, SameItems, array_equals_iff}
use casbin_cpp.Util.Eval.Replaced.{EvalCall, replace_eval_with_map_lem}
use casbin_cpp.Util.Eval.{lower, replace_eval_with_map, get_eval_value, has_eval}

trim_lem_example :
    (pre : Text) × (post : Text) × (str " p, r " ≡ pre ++ (trim (str " p, r ") ++ post))
    × Blank blanks pre
    × Blank blanks post
    × Kept blanks (trim (str " p, r "))
trim_lem_example = trim_lem (str " p, r ")

join-split_example :
    (join (split (str "a::b::c") (str "::") 2) (str "::") ≡ ok (str "a::b::c"))
    × (0 < 2 → length (split (str "a::b::c") (str "::") 2) ≤ 2)
join-split_example = join-split (str "a::b::c") (str "::") 2

split_test : split (str "a::b::c") (str "::") 2 ≡ str "a" ∷ str "b::c" ∷ []
unfolding split ◌==◌
split_test = refl

abbrev texts : List Text
texts = str "bob" ∷ str "alice" ∷ str "bob" ∷ []

array_remove_duplicates_test :
    Distinct (array_remove_duplicates texts)
    × ((t : Text) → In t (array_remove_duplicates texts) ↔ In t texts)
array_remove_duplicates_test = array_remove_duplicates_lem texts

set_subtract_test :
    In (str "alice") (set_subtract texts (str "bob" ∷ []))
    ↔ (In (str "alice") texts × (¬ In (str "alice") (str "bob" ∷ [])))
set_subtract_test = In-set_subtract (str "alice") texts (str "bob" ∷ [])

abbrev pub alice_bob : Rule
alice_bob = str "alice" ∷ str "bob" ∷ []

abbrev pub bob_alice : Rule
bob_alice = str "bob" ∷ str "alice" ∷ []

array_equals_iff_example : (array_equals alice_bob bob_alice ≡ true) ↔ SameItems alice_bob bob_alice
array_equals_iff_example = array_equals_iff alice_bob bob_alice

-- Two rules that swap their fields count as equal.
array_equals_test : array_equals alice_bob bob_alice ≡ true
unfolding array_equals
array_equals_test = refl

abbrev sets : Assoc Text
sets = (str "p.sub_rule", str "r.age > 18") ∷ []

replace_eval_with_map_test :
    replace_eval_with_map (str "eval(p.sub_rule) && x") sets ≡ str "r.age > 18 && x"
unfolding replace_eval_with_map
replace_eval_with_map_test = refl

without : (c : ℕ) (s : Text) → all (λ d. not (nat_eq d c)) s ≡ true → Without c s
without c [] h = tt
without c (d ∷ s) h = (ground arith, without c s (ground arith))

-- Two calls, of which one has a value, and a name that ends in eval.
abbrev two_calls : List EvalCall
two_calls =
    record { plain = str "x || "; word = str "Eval("; arg = str "p.sub_rule" }
    ∷ record { plain = str " && "; word = str "eval("; arg = str "other" }
    ∷ []

replace_eval_with_map_lem_example :
    (replace_eval_with_map (str "x || Eval(p.sub_rule) && eval(other) && y") sets
      ≡ str "x || r.age > 18 && eval(other) && y")
    × (get_eval_value (str "x || Eval(p.sub_rule) && eval(other) && y")
        ≡ str "p.sub_rule" ∷ str "other" ∷ [])
    × (has_eval (str "my_eval(p.sub_rule)") ≡ false)
    × (replace_eval_with_map (str "my_eval(p.sub_rule)") sets ≡ str "my_eval(p.sub_rule)")
unfolding ◌==◌ lookup lower
replace_eval_with_map_lem_example =
    replace_eval_with_map_lem two_calls (str " && y") (str "my_") (str "eval(") (str "p.sub_rule)")
      sets
      (
        (without b'(' (str "x || ") refl, refl, refl, without b')' (str "p.sub_rule") refl),
        ((without b'(' (str " && ") refl, refl, refl, without b')' (str "other") refl), tt),
      )
      (without b'(' (str " && y") refl) (without b'(' (str "my_") refl) refl refl
      (without b'(' (str "p.sub_rule)") refl)

abbrev foo_bar : Text
foo_bar = str "/foo/bar"

abbrev foo : Text
foo = str "/foo/"

key_match_iff_example :
    ((key_match foo_bar (foo ++ b'*' ∷ []) ≡ true) ↔ ((rest : Text) × (foo_bar ≡ foo ++ rest)))
    × ((rest : Text) → foo_bar ≡ foo ++ rest → key_get foo_bar (foo ++ b'*' ∷ []) ≡ rest)
key_match_iff_example = key_match_iff foo_bar foo [] (refl, (refl, (refl, (refl, (refl, tt)))))

key_get_test : key_get foo_bar (str "/foo/*") ≡ str "bar"
unfolding key_get
key_get_test = refl
