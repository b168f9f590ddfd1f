-- ===== src/Model/Additions.antt =====
-- `AddPolicies`: what it leaves in the policy.
use casbin_cpp.Base.{
  true, false, List, [], ◌∷◌, Text, Rule, rule_eq, rule_eq_iff, any, In, In-any, In-concat, ok, ◌≡◌,
  ◌↔◌, ◌⊎◌, refl, sym, subst, inl, inr, arith, Bool-cases,
}
use casbin_cpp.Policy.{PoliciesValues, vector, hashset, rules_of, emplace}
use casbin_cpp.Assertion.{Assertion}
use casbin_cpp.Model.{Model, assertion, put_policy, contains_some, emplace_all, add_policies}
use casbin_cpp.Model.Membership.{assertion-put_policy_self}
use casbin_cpp.Model.Changes.{Holds, Elsewhere, Elsewhere-put_policy}

In-emplace :
    (p : PoliciesValues) (rule x : Rule)
    → In x (rules_of (emplace p rule)) ↔ (In x (rules_of p) ⊎ (x ≡ rule))
unfolding emplace
In-emplace (vector rules) rule x = In-concat x rule rules
In-emplace (hashset rules) rule x = elim (Bool-cases (any (rule_eq rule) rules)) [
  | inl e ↦
      let (r, i, q) = In-any (rule_eq rule) rules e in
      let there : In rule rules = subst (λ y. In y rules) (sym ((rule_eq_iff rule r).0 q)) i in
      rw e (inl, λ h. elim h [ inl j ↦ j | inr same ↦ subst (λ y. In y rules) (sym same) there ])
  | inr e ↦ rw e (In-concat x rule rules)
]

In-emplace_all :
    (p : PoliciesValues) (rules : List Rule) (x : Rule)
    → In x (rules_of (emplace_all p rules)) ↔ (In x (rules_of p) ⊎ In x rules)
unfolding emplace_all
In-emplace_all p [] x = (inl, λ h. elim h [ inl i ↦ i | inr i ↦ absurd i ])
In-emplace_all p (r ∷ rules) x =
    ground (arith, In-emplace_all (emplace p r) rules x, In-emplace p r x)

module _ (model : Model) (sec p_type : Text) (a : Assertion)
    (there : assertion model sec p_type ≡ ok a) (rules : List Rule) where
  -- `AddPolicies` on an assertion that is there returns. When the policy has one of the rules up to
  -- a permutation of its fields, the answer is false and the model is unchanged. Otherwise the
  -- answer is true, the policy has the rules that it had and the new ones and no others, and no
  -- other assertion changes.
  pub add_policies_lem :
      (contains_some rules (rules_of a.policy) ≡ true
        → add_policies sec p_type rules model ≡ ok (false, model))
      × (contains_some rules (rules_of a.policy) ≡ false
          → (model' : Model) × (left : List Rule) × (add_policies sec p_type rules model
              ≡ ok (true, model'))
            × Holds sec p_type a left model'
            × ((x : Rule) → In x left ↔ (In x (rules_of a.policy) ⊎ In x rules))
            × Elsewhere sec p_type model model')
  unfolding add_policies
  add_policies_lem =
      let policy = emplace_all a.policy rules in
      (
        λ h. rw (there, h),
        λ h. (
          put_policy sec p_type a policy model,
          rules_of policy,
          rw (there, h),
          (policy, assertion-put_policy_self sec p_type a policy model, refl),
          In-emplace_all a.policy rules,
          Elsewhere-put_policy sec p_type a policy model,
        ),
      )
