-- ===== src/Enforcer/Enforce/Ordered/Tests.antt =====
-- The loop over the rules and the decision, with the program's round on a small policy.
use casbin_cpp.Base.{
  ℕ, ◌<◌, true, false, none, some, List, [], ◌∷◌, Text, Rule, ◌==◌, get_elem?, In, ◌≡◌, refl, ◌⊎◌,
  Result, ok,
}
use casbin_cpp.Base.Assoc.{Assoc}
use casbin_cpp.Effect.{
  Effect, allow, deny, Outcome, merge_rules, allow_override, deny_override, allow_and_deny,
  priority, is_allow,
}
use casbin_cpp.Effect.Verdict.{
  allow_override_lem, deny_override_lem, allow_and_deny_lem, priority_lem,
}
use casbin_cpp.Enforcer.Evaluate.{World}
use casbin_cpp.Enforcer.Enforce.{round, effect_of, m_enforce}
use casbin_cpp.Enforcer.Enforce.Rounds.{outcome}
use casbin_cpp.Enforcer.Enforce.Decision.{round-ok}
use casbin_cpp.Enforcer.Enforce.Decided.{Decided, Neutral}
use casbin_cpp.Enforcer.Enforce.Ordered.{
  AllowsAndNoneDenies, m_enforce-priority, m_enforce-allow_and_deny,
}
use casbin_cpp.Enforcer.Enforce.Tests.{
  p_tokens, alice_allow, bob_deny, r_definition, p_definition, e_definition, m_definition,
  is_alices, small_evaluator, small_enforcer, own_matcher, has_r, has_p, has_e, judges,
}

abbrev policy : List Rule
policy = bob_deny ∷ alice_allow ∷ []

abbrev program_round : Text → World (Assoc Text) → Rule → Result Outcome × World (Assoc Text)
program_round expr = round small_evaluator (small_enforcer expr).model m_definition.value p_tokens

abbrev outcomes : Rule → Outcome
outcomes = outcome is_alices p_tokens

rounds :
    (expr : Text) (w : World (Assoc Text)) (r : Rule)
    → In r policy
    → (program_round expr w r).0 ≡ ok (outcomes r)
rounds expr =
    round-ok small_evaluator (small_enforcer expr) [] m_definition.value r_definition p_definition
      (e_definition expr) refl (own_matcher expr) (has_r expr) (has_p expr) (has_e expr) bob_deny
      (alice_allow ∷ []) refl (refl, (refl, tt)) is_alices (judges expr)

allow_override_lem_example :
    (merge_rules (program_round allow_override) allow_override policy ([], [])).0
    ≡ ok (allow, some 1)
unfolding ◌==◌ effect_of
allow_override_lem_example =
    allow_override_lem (program_round allow_override) outcomes policy ([], [])
      (rounds allow_override)

deny_override_lem_example :
    (merge_rules (program_round deny_override) deny_override policy ([], [])).0 ≡ ok (allow, none)
unfolding ◌==◌ effect_of
deny_override_lem_example =
    deny_override_lem (program_round deny_override) outcomes bob_deny (alice_allow ∷ []) ([], [])
      (rounds deny_override)

allow_and_deny_lem_example :
    (merge_rules (program_round allow_and_deny) allow_and_deny policy ([], [])).0
    ≡ ok (allow, some 1)
unfolding ◌==◌ effect_of
allow_and_deny_lem_example =
    allow_and_deny_lem (program_round allow_and_deny) outcomes bob_deny (alice_allow ∷ []) ([], [])
      (rounds allow_and_deny)

priority_lem_example :
    (merge_rules (program_round priority) priority policy ([], [])).0 ≡ ok (allow, some 1)
unfolding ◌==◌ effect_of
priority_lem_example =
    priority_lem (program_round priority) outcomes policy ([], []) (rounds priority)

m_enforce-priority_example :
    ((k : ℕ) × (r : Rule) × (eft : Effect) × (get_elem? policy k ≡ some r)
      × Decided p_tokens is_alices r eft
      × ((eft ≡ allow) ⊎ (eft ≡ deny))
      × ((j : ℕ) (q : Rule) → j < k → get_elem? policy j ≡ some q → Neutral p_tokens is_alices q)
      × ((m_enforce small_evaluator (small_enforcer priority) [] []).0 ≡ ok (is_allow eft, r)))
    ⊎ (((q : Rule) → In q policy → Neutral p_tokens is_alices q)
        × ((m_enforce small_evaluator (small_enforcer priority) [] []).0 ≡ ok (false, [])))
m_enforce-priority_example =
    m_enforce-priority small_evaluator (small_enforcer priority) [] m_definition.value r_definition
      p_definition (e_definition priority) refl (own_matcher priority) (has_r priority)
      (has_p priority) (has_e priority) bob_deny (alice_allow ∷ []) refl (refl, (refl, tt))
      is_alices (judges priority) refl []

m_enforce-allow_and_deny_example :
    AllowsAndNoneDenies p_tokens policy is_alices
      (m_enforce small_evaluator (small_enforcer allow_and_deny) [] []).0
m_enforce-allow_and_deny_example =
    m_enforce-allow_and_deny small_evaluator (small_enforcer allow_and_deny) [] m_definition.value
      r_definition p_definition (e_definition allow_and_deny) refl (own_matcher allow_and_deny)
      (has_r allow_and_deny) (has_p allow_and_deny) (has_e allow_and_deny) bob_deny
      (alice_allow ∷ []) refl (refl, (refl, tt)) is_alices (judges allow_and_deny) refl []

priority_test :
    (m_enforce small_evaluator (small_enforcer priority) [] []).0 ≡ ok (true, alice_allow)
unfolding m_enforce
priority_test = refl
