-- ===== src/Model/Membership.antt =====
-- Membership of a policy, and the frame of a write to one assertion.
use casbin_cpp.Base.{
  Bool, true, false, ◌&&◌, List, [], ◌∷◌, ◌++◌, Text, Rule, ◌==◌, ==_iff, ==_refl, rule_eq,
  rule_eq_iff, if◌then◌else◌, any, In, In-any, any_of_In, ok, ◌>>=◌, ◌≡◌, refl, sym, subst, ◌↔◌,
  inl, inr, arith, Bool-cases,
}
use casbin_cpp.Base.Assoc.{Assoc, insert, lookup-insert}
use casbin_cpp.Util.Equality.{array_equals, SameItems, array_equals_iff}
use casbin_cpp.Policy.{PoliciesValues, vector, hashset, rules_of, emplace}
use casbin_cpp.Assertion.{Assertion}
use casbin_cpp.Model.{Model, section, put_section, assertion, put_policy, contains_rule, has_policy}

pub section-put_section :
    (sec s : Text) (amap : Assoc Assertion) (model : Model)
    → section (put_section sec amap model) s ≡ (if sec == s then amap else section model s)
unfolding section put_section
section-put_section sec s amap model = ground (arith, lookup-insert sec s amap model.m)

pub assertion-put_policy :
    (sec p_type s q : Text) (a : Assertion) (policy : PoliciesValues) (model : Model)
    → assertion (put_policy sec p_type a policy model) s q
      ≡ (if sec == s && p_type == q then ok (record a { policy = policy }) else assertion model s q)
unfolding assertion put_policy
assertion-put_policy sec p_type s q a policy model = ground (
  arith,
  section-put_section sec s (insert p_type (record a { policy = policy }) (section model sec))
      model,
  lookup-insert p_type q (record a { policy = policy }) (section model sec),
  ==_iff sec s,
)

pub assertion-put_policy_self :
    (sec p_type : Text) (a : Assertion) (policy : PoliciesValues) (model : Model)
    → assertion (put_policy sec p_type a policy model) sec p_type
      ≡ ok (record a { policy = policy })
assertion-put_policy_self sec p_type a policy model =
    ground (
      arith,
      assertion-put_policy sec p_type sec p_type a policy model,
      ==_refl sec,
      ==_refl p_type,
    )

-- Some rule of the list is the same up to a permutation of its fields.
pub contains_rule_iff :
    (rule : Rule) (rules : List Rule)
    → (contains_rule rule rules ≡ true) ↔ ((r : Rule) × In r rules × SameItems rule r)
unfolding contains_rule
contains_rule_iff rule rules = (
  λ h. let (r, i, e) = In-any (array_equals rule) rules h in (r, i, (array_equals_iff rule r).0 e),
  λ (r, i, e). any_of_In (array_equals rule) r rules i ((array_equals_iff rule r).1 e),
)

pub contains_rule_of_In :
    (rule : Rule) (rules : List Rule) → In rule rules → contains_rule rule rules ≡ true
contains_rule_of_In rule rules i = (contains_rule_iff rule rules).1 (rule, i, λ t. refl)

-- A rule that is new up to permutation is appended, by a vector and by a hash set.
pub rules-emplace :
    (p : PoliciesValues) (rule : Rule)
    → contains_rule rule (rules_of p) ≡ false
    → rules_of (emplace p rule) ≡ rules_of p ++ rule ∷ []
unfolding emplace
rules-emplace (vector rules) rule h = refl
rules-emplace (hashset rules) rule h = elim (Bool-cases (any (rule_eq rule) rules)) [
  | inl e ↦
      let (r, i, q) = In-any (rule_eq rule) rules e in
      let same : rule ≡ r = (rule_eq_iff rule r).0 q in
      absurd (clash (contains_rule_of_In rule rules (subst (λ x. In x rules) (sym same) i)) h)
  | inr e ↦ rw e
]
  where
    clash : {b : Bool} → b ≡ true → b ≡ false → ⊥
    clash p q = cc

-- `HasPolicy` on an assertion that is there returns, and answers true exactly when some rule of
-- its policy has the same fields, each as often, in whatever order.
pub has_policy_iff :
    (model : Model) (sec p_type : Text) (rule : Rule) (a : Assertion)
    → assertion model sec p_type ≡ ok a
    → (b : Bool) × (has_policy model sec p_type rule ≡ ok b)
      × ((b ≡ true) ↔ ((r : Rule) × In r (rules_of a.policy) × SameItems rule r))
unfolding has_policy
has_policy_iff model sec p_type rule a h = (
  contains_rule rule (rules_of a.policy),
  rw (h, ◌>>=◌),
  contains_rule_iff rule (rules_of a.policy),
)
