-- ===== src/Effect/Tests.antt =====
-- The loop over the rules, run on small policies.
use casbin_cpp.Base.{
  none, List, [], ◌∷◌, ◌≡◌, refl, str, Rule, ◌==◌, get_or, if◌then◌else◌, Result, ok, err,
  unsupported_operation,
}
use casbin_cpp.Effect.{
  allow, indeterminate, deny, Outcome, merge_effects, merge_rules, deny_override,
}

-- A matcher that accepts the rules of alice.
abbrev alice_outcome : Rule → Outcome
unfolding ◌==◌
alice_outcome r = record {
  matched = get_or r 0 [] == str "alice";
  eft =
      if get_or r 1 [] == str "allow"
      then allow
      else if get_or r 1 [] == str "deny"
      then deny
      else indeterminate;
}

abbrev alice_round : Unit {0} → Rule → Result Outcome × Unit {0}
alice_round s r = (ok (alice_outcome r), s)

abbrev bob_allow : Rule
bob_allow = str "bob" ∷ str "allow" ∷ []

abbrev alice_allow : Rule
alice_allow = str "alice" ∷ str "allow" ∷ []

abbrev alice_deny : Rule
alice_deny = str "alice" ∷ str "deny" ∷ []

abbrev rules : List Rule
rules = bob_allow ∷ alice_allow ∷ alice_deny ∷ []

deny_runs : (merge_rules alice_round deny_override (bob_allow ∷ []) tt).0 ≡ ok (allow, none)
unfolding merge_rules merge_effects ◌==◌
deny_runs = refl

unknown_expression :
    (merge_rules alice_round (str "some") (bob_allow ∷ []) tt).0 ≡ err unsupported_operation
unfolding merge_rules merge_effects ◌==◌
unknown_expression = refl
