-- ===== src/Model.antt =====
-- casbin/model/model.cpp: the policy operations of `Model`. `m[sec].assertion_map[p_type]->…` on a
-- missing section or assertion reads through a null pointer, which is `undefined` here.
pub mod Links
pub mod Membership
pub mod Changes
pub mod Additions
pub mod Filters
pub mod Loading
pub mod Tests
use casbin_cpp.Base.{
  ℕ, zero, suc, ◌+◌, Bool, true, false, not, ◌&&◌, Option, none, some, List, [], ◌∷◌, ◌++◌, Text,
  str, Rule, ◌==◌, if◌then◌else◌, any, Result, ok, err, undefined, at, ◌>>=◌,
}
use casbin_cpp.Base.Assoc.{Assoc, lookup, insert}
use casbin_cpp.Util.Equality.{array_equals}
use casbin_cpp.Util.Arrays.{array_remove_duplicates}
use casbin_cpp.Policy.{PoliciesValues, vector, rules_of, emplace, clear, with_rules}
use casbin_cpp.Assertion.{Assertion}

abbrev pub AssertionMap : Type 0
AssertionMap = Assoc Assertion

pub record Model : Type 0 where
  pub m : Assoc AssertionMap

unfoldable pub has_section : Model → Text → Bool
unfolding lookup
has_section model sec = elim (lookup sec model.m) [ none ↦ false | some x ↦ true ]

-- `m[sec].assertion_map`, where a missing section is made.
unfoldable pub section : Model → Text → AssertionMap
unfolding lookup
section model sec = elim (lookup sec model.m) [ none ↦ [] | some x ↦ x ]

unfoldable pub put_section : Text → AssertionMap → Model → Model
unfolding insert
put_section sec amap model = record model { m = insert sec amap model.m }

-- the assertion that `m[sec].assertion_map[p_type]` points to
unfoldable pub assertion : Model → Text → Text → Result Assertion
unfolding section
assertion model sec p_type = elim (lookup p_type (section model sec)) [
  | none ↦ err undefined
  | some a ↦ ok a
]

-- the model after a write through that pointer
unfoldable pub put_policy : Text → Text → Assertion → PoliciesValues → Model → Model
unfolding section put_section
put_policy sec p_type a policy model =
    put_section sec (insert p_type (record a { policy = policy }) (section model sec)) model

unfoldable pub clear_all : AssertionMap → AssertionMap
unfolding clear
clear_all [] = []
clear_all ((k, a) ∷ rest) = (k, record a { policy = clear a.policy }) ∷ clear_all rest

unfoldable pub clear_policy : Model → Model
unfolding clear_all section put_section
clear_policy model =
    let model' = put_section (str "p") (clear_all (section model (str "p"))) model in
    put_section (str "g") (clear_all (section model' (str "g"))) model'

unfoldable pub get_policy : Model → Text → Text → Result PoliciesValues
unfolding assertion
get_policy model sec p_type = do a ← assertion model sec p_type; ok a.policy

-- Does the rule have these values from the field on? An empty value stands for any; a field out of
-- range is undefined.
unfoldable pub matches_fields : Rule → ℕ → List Text → Result Bool
unfolding ◌==◌
matches_fields rule index [] = ok true
matches_fields rule index (v ∷ vs) =
    let rest = matches_fields rule (index + 1) vs in
    if v == [] then rest else (do x ← at rule index; if x == v then rest else ok false)

-- The loop of `GetFilteredPolicy` and `RemoveFilteredPolicy`: the rules that match, and the others.
unfoldable pub partition : List Rule → ℕ → List Text → Result (List Rule × List Rule)
unfolding matches_fields
partition [] index values = ok ([], [])
partition (r ∷ rs) index values = do
  matched ← matches_fields r index values
  (yes_part, no_part) ← partition rs index values
  ok (if matched then (r ∷ yes_part, no_part) else (yes_part, r ∷ no_part))

unfoldable pub get_filtered_policy : Model → Text → Text → ℕ → List Text → Result PoliciesValues
unfolding assertion partition
get_filtered_policy model sec p_type index values = do
  a ← assertion model sec p_type
  (matched, others) ← partition (rules_of a.policy) index values
  ok (vector matched)

unfoldable pub contains_rule : Rule → List Rule → Bool
unfolding array_equals
contains_rule rule rules = any (array_equals rule) rules

unfoldable pub has_policy : Model → Text → Text → Rule → Result Bool
unfolding assertion contains_rule
has_policy model sec p_type rule = do
  a ← assertion model sec p_type
  ok (contains_rule rule (rules_of a.policy))

unfoldable pub add_policy : Text → Text → Rule → Model → Result (Bool × Model)
unfolding assertion contains_rule put_policy emplace
add_policy sec p_type rule model = do
  a ← assertion model sec p_type
  if contains_rule rule (rules_of a.policy)
      then ok (false, model)
      else ok (true, put_policy sec p_type a (emplace a.policy rule) model)

unfoldable pub contains_some : List Rule → List Rule → Bool
unfolding contains_rule
contains_some news rules = any (λ r. contains_rule r rules) news

unfoldable pub emplace_all : PoliciesValues → List Rule → PoliciesValues
unfolding emplace
emplace_all p [] = p
emplace_all p (r ∷ rs) = emplace_all (emplace p r) rs

unfoldable pub add_policies : Text → Text → List Rule → Model → Result (Bool × Model)
unfolding assertion contains_some put_policy emplace_all
add_policies sec p_type rules model = do
  a ← assertion model sec p_type
  if contains_some rules (rules_of a.policy)
      then ok (false, model)
      else ok (true, put_policy sec p_type a (emplace_all a.policy rules) model)

-- The loop that erases the first rule that `ArrayEquals` finds equal; `none` when there is none.
unfoldable pub erase_first : Rule → List Rule → Option (List Rule)
unfolding array_equals
erase_first rule [] = none
erase_first rule (r ∷ rs) =
    let later : Option (List Rule) = elim (erase_first rule rs) [
      | none ↦ none
      | some l ↦ some (r ∷ l)
    ] in
    if array_equals rule r then some rs else later

unfoldable pub remove_policy : Text → Text → Rule → Model → Result (Bool × Model)
unfolding assertion put_policy erase_first
remove_policy sec p_type rule model = do
  a ← assertion model sec p_type
  elim (erase_first rule (rules_of a.policy)) [
    | none ↦ ok (false, model)
    | some left ↦ ok (true, put_policy sec p_type a (with_rules a.policy left) model)
  ]

-- The old rule is erased before the new one is looked for, and stays erased when that is there.
unfoldable pub update_policy : Text → Text → Rule → Rule → Model → Result (Bool × Model)
unfolding assertion put_policy erase_first contains_rule emplace
update_policy sec p_type old_rule new_rule model = do
  a ← assertion model sec p_type
  elim (erase_first old_rule (rules_of a.policy)) [
    | none ↦ ok (false, model)
    | some left ↦
        let erased = with_rules a.policy left in
        if contains_rule new_rule left
        then ok (false, put_policy sec p_type a erased model)
        else ok (true, put_policy sec p_type a (emplace erased new_rule) model)
  ]

-- Erases each rule in turn; stops at the first that is not there, with what is left at that point.
unfoldable pub erase_each : List Rule → List Rule → Bool × List Rule
unfolding erase_first
erase_each [] rules = (true, rules)
erase_each (r ∷ rs) rules = elim (erase_first r rules) [
  | none ↦ (false, rules)
  | some left ↦ erase_each rs left
]

unfoldable pub update_policies : Text → Text → List Rule → List Rule → Model → Result (Bool × Model)
unfolding assertion put_policy erase_each contains_some emplace_all
update_policies sec p_type old_rules new_rules model = do
  a ← assertion model sec p_type
  let (all_there, left) = erase_each old_rules (rules_of a.policy)
  let erased = with_rules a.policy left
  if all_there && not (contains_some new_rules left)
      then ok (true, put_policy sec p_type a (emplace_all erased new_rules) model)
      else ok (false, put_policy sec p_type a erased model)

-- The second loop of `RemovePolicies` goes on with an iterator that `erase` made invalid, so a
-- call that erases anything is undefined: the first rule of the argument is there, or the call has
-- returned false.
unfoldable pub remove_policies : Text → Text → List Rule → Model → Result (Bool × Model)
unfolding assertion contains_rule
remove_policies sec p_type [] model = do a ← assertion model sec p_type; ok (true, model)
remove_policies sec p_type (r ∷ rs) model = do
  a ← assertion model sec p_type
  if any (λ x. not (contains_rule x (rules_of a.policy))) (r ∷ rs)
      then ok (false, model)
      else err undefined

abbrev pub not_empty : List Rule → Bool
not_empty [] = false
not_empty (r ∷ rs) = true

unfoldable pub remove_filtered_policy :
    Text → Text → ℕ → List Text → Model → Result ((Bool × List Rule) × Model)
unfolding assertion partition put_policy
remove_filtered_policy sec p_type index values model = do
  a ← assertion model sec p_type
  (matched, others) ← partition (rules_of a.policy) index values
  ok ((not_empty matched, matched), put_policy sec p_type a (vector others) model)

-- One field of every rule
unfoldable pub fields_at : ℕ → List Rule → Result (List Text)
fields_at index [] = ok []
fields_at index (r ∷ rs) = do x ← at r index; xs ← fields_at index rs; ok (x ∷ xs)

unfoldable pub get_values_for_field_in_policy : Model → Text → Text → ℕ → Result (List Text)
unfolding assertion fields_at array_remove_duplicates
get_values_for_field_in_policy model sec p_type index = do
  a ← assertion model sec p_type
  values ← fields_at index (rules_of a.policy)
  ok (array_remove_duplicates values)

values_of_types : ℕ → AssertionMap → Result (List Text)
unfolding fields_at array_remove_duplicates
values_of_types index [] = ok []
values_of_types index ((k, a) ∷ rest) = do
  values ← fields_at index (rules_of a.policy)
  others ← values_of_types index rest
  ok (array_remove_duplicates values ++ others)

unfoldable pub get_values_for_field_in_policy_all_types : Model → Text → ℕ → Result (List Text)
unfolding section values_of_types array_remove_duplicates
get_values_for_field_in_policy_all_types model sec index = do
  values ← values_of_types index (section model sec)
  ok (array_remove_duplicates values)
