-- ===== src/Model/Changes.antt =====
-- `AddPolicy`, `RemovePolicy` and `UpdatePolicy`: what they leave in the policy and what they leave
-- alone.
use casbin_cpp.Base.{
  true, false, not, ◌&&◌, none, some, List, [], ◌∷◌, ◌++◌, Text, Rule, ◌==◌, if◌then◌else◌, ok,
  ◌>>=◌, ◌≡◌, refl, ap, ◌∙◌, inl, inr, arith, Bool-cases,
}
use casbin_cpp.Util.Equality.{array_equals, SameItems, array_equals_iff, array_equals_refl}
use casbin_cpp.Policy.{PoliciesValues, vector, hashset, rules_of, emplace, with_rules}
use casbin_cpp.Assertion.{Assertion}
use casbin_cpp.Model.{
  Model, assertion, put_policy, contains_rule, add_policy, remove_policy, update_policy,
  erase_first,
}
use casbin_cpp.Model.Membership.{assertion-put_policy, assertion-put_policy_self, rules-emplace}

-- Every assertion but the one at this place is what it was.
abbrev pub Elsewhere : Text → Text → Model → Model → Type 0
Elsewhere sec p_type before after =
    (s q : Text) → (sec == s && p_type == q) ≡ false → assertion after s q ≡ assertion before s q

pub Elsewhere-put_policy :
    (sec p_type : Text) (a : Assertion) (policy : PoliciesValues) (model : Model)
    → Elsewhere sec p_type model (put_policy sec p_type a policy model)
Elsewhere-put_policy sec p_type a policy model s q h =
    assertion-put_policy sec p_type s q a policy model ∙ rw h

-- The rules of the assertion at this place are these, and nothing else of it changed.
abbrev pub Holds : Text → Text → Assertion → List Rule → Model → Type 0
Holds sec p_type a rules model =
    (policy : PoliciesValues) × (assertion model sec p_type ≡ ok (record a { policy = policy }))
    × (rules_of policy ≡ rules)

rules-with_rules : (p : PoliciesValues) (rules : List Rule) → rules_of (with_rules p rules) ≡ rules
rules-with_rules (vector _) rules = refl
rules-with_rules (hashset _) rules = refl

erase_first-none :
    (rule : Rule) (rules : List Rule)
    → contains_rule rule rules ≡ false
    → erase_first rule rules ≡ none
unfolding erase_first contains_rule
erase_first-none rule [] h = refl
erase_first-none rule (r ∷ rs) h = ground (arith, erase_first-none rule rs)

-- One rule is gone: the first that is the same up to a permutation of its fields.
pub record Erased (rule : Rule) (before after : List Rule) : Type 0 where
  pub front : List Rule
  pub back : List Rule
  pub gone : Rule
  pub was : before ≡ front ++ gone ∷ back
  pub is_now : after ≡ front ++ back
  pub same : SameItems rule gone
  pub first : contains_rule rule front ≡ false

Erased-cons :
    (rule r : Rule) (before after : List Rule)
    → array_equals rule r ≡ false
    → Erased rule before after
    → Erased rule (r ∷ before) (r ∷ after)
unfolding contains_rule
Erased-cons rule r before after h e = record {
  front = r ∷ e.front;
  back = e.back;
  gone = e.gone;
  was = ap (λ l. r ∷ l) e.was;
  is_now = ap (λ l. r ∷ l) e.is_now;
  same = e.same;
  first = ground (arith, e.first);
}

erase_first-some :
    (rule : Rule) (rules : List Rule)
    → contains_rule rule rules ≡ true
    → (left : List Rule) × (erase_first rule rules ≡ some left) × Erased rule rules left
unfolding erase_first contains_rule
erase_first-some rule [] h = cc
erase_first-some rule (r ∷ rs) h = elim (Bool-cases (array_equals rule r)) [
  | inl e ↦ (
    rs,
    rw e,
    record {
      front = [];
      back = rs;
      gone = r;
      was = refl;
      is_now = refl;
      same = (array_equals_iff rule r).0 e;
      first = refl;
    },
  )
  | inr e ↦
      let later : contains_rule rule rs ≡ true = ground arith in
      let (left, found, gone) = erase_first-some rule rs later in
      (r ∷ left, ground arith, Erased-cons rule r rs left e gone)
]

erase_first-append :
    (rule : Rule) (rules : List Rule)
    → contains_rule rule rules ≡ false
    → erase_first rule (rules ++ rule ∷ []) ≡ some rules
unfolding erase_first contains_rule
erase_first-append rule [] h = ground (arith, array_equals_refl rule)
erase_first-append rule (r ∷ rs) h = ground (arith, erase_first-append rule rs)

module _ (model : Model) (sec p_type : Text) (a : Assertion)
    (there : assertion model sec p_type ≡ ok a) where
  -- `AddPolicy` on an assertion that is there returns. When the policy has the rule up to a
  -- permutation of its fields, the answer is false and the model is unchanged. Otherwise the
  -- answer is true, the rule stands behind the rules that were there, and no other assertion
  -- changes.
  -- Where the new rule stands is meant for a vector; the order of a hash set is open.
  pub add_policy_lem :
      (rule : Rule)
      → (contains_rule rule (rules_of a.policy) ≡ true
          → add_policy sec p_type rule model ≡ ok (false, model))
        × (contains_rule rule (rules_of a.policy) ≡ false
            → (model' : Model) × (add_policy sec p_type rule model ≡ ok (true, model'))
              × Holds sec p_type a (rules_of a.policy ++ rule ∷ []) model'
              × Elsewhere sec p_type model model')
  unfolding add_policy
  add_policy_lem rule = (
    λ h. rw (there, h),
    λ h. (
      put_policy sec p_type a (emplace a.policy rule) model,
      rw (there, h),
      (
        emplace a.policy rule,
        assertion-put_policy_self sec p_type a (emplace a.policy rule) model,
        rules-emplace a.policy rule h,
      ),
      Elsewhere-put_policy sec p_type a (emplace a.policy rule) model,
    ),
  )

  -- `RemovePolicy` on an assertion that is there returns. When the policy does not have the rule
  -- up to a permutation of its fields, the answer is false and the model is unchanged. Otherwise
  -- the answer is true, the first such rule is gone, the others stand in their order, and no other
  -- assertion changes.
  pub remove_policy_lem :
      (rule : Rule)
      → (contains_rule rule (rules_of a.policy) ≡ false
          → remove_policy sec p_type rule model ≡ ok (false, model))
        × (contains_rule rule (rules_of a.policy) ≡ true
            → (model' : Model) × (left : List Rule) × (remove_policy sec p_type rule model
                ≡ ok (true, model'))
              × Erased rule (rules_of a.policy) left
              × Holds sec p_type a left model'
              × Elsewhere sec p_type model model')
  unfolding remove_policy
  remove_policy_lem rule = (
    λ h. rw (there, ◌>>=◌) (rw (erase_first-none rule (rules_of a.policy) h)),
    λ h.
        let (left, found, gone) = erase_first-some rule (rules_of a.policy) h in
        let policy = with_rules a.policy left in
        (
          put_policy sec p_type a policy model,
          left,
          rw (there, ◌>>=◌) (rw found),
          gone,
          (
            policy,
            assertion-put_policy_self sec p_type a policy model,
            rules-with_rules a.policy left,
          ),
          Elsewhere-put_policy sec p_type a policy model,
        ),
  )

  -- `UpdatePolicy` on an assertion that is there returns. When the policy does not have the old
  -- rule, the answer is false and the model is unchanged. When it has it and what is left has the
  -- new rule, the answer is false too, and the old rule is gone all the same. Otherwise the answer
  -- is true, the old rule is gone and the new one stands last. No other assertion changes. Having a
  -- rule is up to a permutation of its fields.
  -- Where the new rule stands is meant for a vector; the order of a hash set is open.
  pub update_policy_lem :
      (old_rule new_rule : Rule)
      → (contains_rule old_rule (rules_of a.policy) ≡ false
          → update_policy sec p_type old_rule new_rule model ≡ ok (false, model))
        × (contains_rule old_rule (rules_of a.policy) ≡ true
            → (model' : Model) × (left : List Rule) × Erased old_rule (rules_of a.policy) left
              × (update_policy sec p_type old_rule new_rule model
                  ≡ ok (not (contains_rule new_rule left), model'))
              × Holds sec p_type a
                  (if contains_rule new_rule left then left else left ++ new_rule ∷ [])
                  model'
              × Elsewhere sec p_type model model')
  unfolding update_policy
  update_policy_lem old_rule new_rule = (
    λ h. rw (there, ◌>>=◌) (rw (erase_first-none old_rule (rules_of a.policy) h)),
    λ h.
        let (left, found, gone) = erase_first-some old_rule (rules_of a.policy) h in
        let erased = with_rules a.policy left in
        let kept = rules-with_rules a.policy left in
        elim (Bool-cases (contains_rule new_rule left)) [
          | inl e ↦ (
            put_policy sec p_type a erased model,
            left,
            gone,
            rw (there, ◌>>=◌) (rw found (rw e)),
            rw e (erased, assertion-put_policy_self sec p_type a erased model, kept),
            Elsewhere-put_policy sec p_type a erased model,
          )
          | inr e ↦ (
            put_policy sec p_type a (emplace erased new_rule) model,
            left,
            gone,
            rw (there, ◌>>=◌) (rw found (rw e)),
            rw e (
              emplace erased new_rule,
              assertion-put_policy_self sec p_type a (emplace erased new_rule) model,
              rules-emplace erased new_rule (rw kept e) ∙ ap (λ l. l ++ new_rule ∷ []) kept,
            ),
            Elsewhere-put_policy sec p_type a (emplace erased new_rule) model,
          )
        ],
  )
