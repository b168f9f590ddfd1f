-- ===== src/Policy.antt =====
-- casbin/model/policy_collection.cpp: `PoliciesValues`, a vector or a hash set of rules. The list
-- of a hash set is one of its iteration orders; its equality is that of `std::vector<std::string>`.
use casbin_cpp.Base.{
  ℕ, Bool, true, false, Option, none, some, List, [], ◌∷◌, ◌++◌, Rule, rule_eq, if◌then◌else◌, any,
  length,
}

pub data PoliciesValues : Type 0 where
  vector : List Rule → PoliciesValues
  hashset : List Rule → PoliciesValues

-- The rules in the order of iteration, `begin()` to `end()`.
abbrev pub rules_of : PoliciesValues → List Rule
rules_of (vector rules) = rules
rules_of (hashset rules) = rules

unfoldable pub size : PoliciesValues → ℕ
size (vector rules) = length rules
size (hashset rules) = length rules

unfoldable pub is_empty : PoliciesValues → Bool
is_empty p = elim (rules_of p) [ [] ↦ true | r ∷ rs ↦ false ]

unfoldable pub is_hash : PoliciesValues → Bool
is_hash (vector rules) = false
is_hash (hashset rules) = true

-- A rule that is new to a hash set stands last in the list. `std::unordered_set` leaves its place
-- open and may change that of others, so of a hash set only which rules it has is meant.
unfoldable pub emplace : PoliciesValues → Rule → PoliciesValues
unfolding rule_eq
emplace (vector rules) r = vector (rules ++ r ∷ [])
emplace (hashset rules) r =
    if any (rule_eq r) rules then hashset rules else hashset (rules ++ r ∷ [])

-- `find`: the rule that is found, or none for `end()`.
unfoldable pub find : PoliciesValues → Rule → Option Rule
unfolding rule_eq
find p r = if any (rule_eq r) (rules_of p) then some r else none

unfoldable pub clear : PoliciesValues → PoliciesValues
clear (vector rules) = vector []
clear (hashset rules) = hashset []

-- The same container with other contents, as `erase` leaves it.
abbrev pub with_rules : PoliciesValues → List Rule → PoliciesValues
with_rules (vector _) rules = vector rules
with_rules (hashset _) rules = hashset rules
