-- ===== src/Enforcer/Enforce/Ordered.antt =====
-- What `m_enforce` answers under the two expressions in which allow and deny both count.
pub mod Tests
use casbin_cpp.Base.{
  ℕ, ◌+◌, ◌<◌, Bool, true, false, Option, none, some, List, [], ◌∷◌, Text, str, Rule, length, map,
  get_elem?, In, ◌≡◌, refl, ap, ◌∙◌, ◌↔◌, ◌⊎◌, inl, inr, arith, Result, ok,
}
use casbin_cpp.Effect.{
  Effect, allow, deny, Outcome, Merged, merge_rules, is_allow, allow_and_deny, priority,
}
use casbin_cpp.Effect.Scan.{first_index, allows, denies, allow_at}
use casbin_cpp.Effect.Verdict.{allow_and_deny_lem, priority_lem, deny_at, first_decided}
use casbin_cpp.Policy.{vector}
use casbin_cpp.Assertion.{Assertion}
use casbin_cpp.Model.{assertion}
use casbin_cpp.Enforcer.{Enforcer}
use casbin_cpp.Enforcer.Evaluate.{Evaluator, World}
use casbin_cpp.Enforcer.Enforce.{matcher_accepts, round, matcher_or_own, conclude, m_enforce}
use casbin_cpp.Enforcer.Enforce.Rounds.{
  Sized, Sized-In, effect_or, effect_or-ok, allows_iff, denies_iff, outcome,
}
use casbin_cpp.Enforcer.Enforce.Decision.{
  FirstRule, first_index_lem, SomeRule, round-ok, conclude-some, m_enforce-loop,
}
use casbin_cpp.Enforcer.Enforce.Decided.{
  Decided, Neutral, first_decided_lem, decided_effect, undecided_effect,
}

-- The result is an answer and an explanation: the answer is true exactly when some rule that the
-- matcher accepts allows and none denies. The explanation is a rule that allows when the answer is
-- true, and one that denies when there is one.
abbrev pub AllowsAndNoneDenies :
    List Text → List Rule → (Rule → Bool) → Result (Bool × Rule) → Type 0
AllowsAndNoneDenies tokens rules accepts result =
    (b : Bool) × (x : Rule) × (result ≡ ok (b, x))
    × ((b ≡ true) ↔ (SomeRule tokens rules accepts allow × (¬ SomeRule tokens rules accepts deny)))
    × (b ≡ true → In x rules × Decided tokens accepts x allow)
    × (SomeRule tokens rules accepts deny → In x rules × Decided tokens accepts x deny)

module _ {S : Type 0} (ev : Evaluator S) (e : Enforcer) (matcher exp : Text) (ra pa ea : Assertion)
    (on : e.enabled ≡ true) (own : matcher_or_own ev e.model matcher ≡ ok exp)
    (has_r : assertion e.model (str "r") (str "r") ≡ ok ra)
    (has_p : assertion e.model (str "p") (str "p") ≡ ok pa)
    (has_e : assertion e.model (str "e") (str "e") ≡ ok ea) (r0 : Rule) (rest : List Rule)
    (stored : pa.policy ≡ vector (r0 ∷ rest)) (sized : Sized (length pa.tokens) (r0 ∷ rest))
    (accepts : Rule → Bool)
    (judges : (w : World S) (r : Rule)
      → In r (r0 ∷ rest)
      → (matcher_accepts ev e.model exp pa.tokens r w).0 ≡ ok (accepts r)) where
  abbrev rules : List Rule
  rules = r0 ∷ rest

  abbrev outcome_of : Rule → Outcome
  outcome_of = outcome accepts pa.tokens

  size_of : (r : Rule) → In r (r0 ∷ rest) → length r ≡ length pa.tokens
  size_of r i = Sized-In (length pa.tokens) rules r sized i

  rounds-ok :
      (w : World S) (r : Rule)
      → In r (r0 ∷ rest)
      → (round ev e.model exp pa.tokens w r).0 ≡ ok (outcome_of r)
  rounds-ok =
      round-ok ev e matcher exp ra pa ea on own has_r has_p has_e r0 rest stored sized accepts
        judges

  concluded :
      (expr : Text) (m : Merged)
      → ea.value ≡ expr
      → ((w : World S) → (merge_rules (round ev e.model exp pa.tokens) expr rules w).0 ≡ ok m)
      → (s : S) → (m_enforce ev e matcher s).0 ≡ ok (conclude ev e.model rules m)
  concluded expr m v h =
      m_enforce-loop ev e matcher exp ra pa ea on own has_r has_p has_e r0 rest stored sized accepts
        judges m (λ w. ap (λ t. (merge_rules (round ev e.model exp pa.tokens) t rules w).0) v ∙ h w)

  explained :
      (eft : Effect) (k j : ℕ) (r : Rule)
      → j ≡ k
      → get_elem? rules k ≡ some r
      → conclude ev e.model rules (eft, some j) ≡ (is_allow eft, r)
  explained =
      conclude-some ev e matcher exp ra pa ea on own has_r has_p has_e r0 rest stored sized accepts
        judges

  -- Under `priority(p.eft) || deny`: for an enabled enforcer whose model has its definitions, a
  -- policy kept as a vector of at least one rule, each with a field for every token, and a matcher
  -- that returns whether it accepts a rule, the same in every state, `m_enforce` returns. Either
  -- there is a rule that the matcher accepts and that allows or denies, with no such rule at an
  -- earlier position; then it is the explanation, and the answer is whether it allows. Or there is
  -- no such rule; then the answer is false with an empty explanation.
  pub m_enforce-priority :
      ea.value ≡ priority
      → (s : S)
      → ((k : ℕ) × (r : Rule) × (eft : Effect) × (get_elem? (r0 ∷ rest) k ≡ some r)
          × Decided pa.tokens accepts r eft
          × ((eft ≡ allow) ⊎ (eft ≡ deny))
          × ((j : ℕ) (q : Rule)
              → j < k
              → get_elem? (r0 ∷ rest) j ≡ some q
              → Neutral pa.tokens accepts q)
          × ((m_enforce ev e matcher s).0 ≡ ok (is_allow eft, r)))
        ⊎ (((q : Rule) → In q (r0 ∷ rest) → Neutral pa.tokens accepts q)
            × ((m_enforce ev e matcher s).0 ≡ ok (false, [])))
  m_enforce-priority v s =
      let result =
        concluded priority (first_decided 0 (map outcome_of rules)) v
          (λ w. priority_lem (round ev e.model exp pa.tokens) outcome_of rules w rounds-ok) s in
      elim (first_decided_lem outcome_of rules 0) [
        | inl (quiet, d) ↦ inr (
          λ q h. undecided_effect accepts pa.tokens q (size_of q h) (quiet q h),
          result ∙ ap (λ m. ok (conclude ev e.model rules m)) d ∙ unfold conclude in refl,
        )
        | inr (k, r, (there, h, good, before), d) ↦
            let (a, which) = decided_effect accepts pa.tokens r (size_of r h) good in
            inl (
              k,
              r,
              effect_or pa.tokens r,
              there,
              (a, effect_or-ok pa.tokens r (size_of r h)),
              which,
              λ j q l here.
                  let (i, bad) = before j q l here in
                  undecided_effect accepts pa.tokens q (size_of q i) bad,
              result
                  ∙ ap (λ m. ok (conclude ev e.model rules m)) d
                  ∙ ap ok (explained (effect_or pa.tokens r) k (0 + k) r (omega arith) there),
            )
      ]

  allow_iff :
      (r : Rule)
      → In r (r0 ∷ rest)
      → (allows (outcome_of r) ≡ true) ↔ Decided pa.tokens accepts r allow
  allow_iff r i = allows_iff accepts pa.tokens r (size_of r i)

  deny_iff :
      (r : Rule)
      → In r (r0 ∷ rest)
      → (denies (outcome_of r) ≡ true) ↔ Decided pa.tokens accepts r deny
  deny_iff r i = denies_iff accepts pa.tokens r (size_of r i)

  none_there :
      (p : Outcome → Bool) (eft : Effect)
      → ((r : Rule)
          → In r (r0 ∷ rest)
          → (p (outcome_of r) ≡ true) ↔ Decided pa.tokens accepts r eft)
      → FirstRule p outcome_of rules 0 none
      → ¬ SomeRule pa.tokens (r0 ∷ rest) accepts eft
  unfolding FirstRule
  none_there p eft iff never (r, i, a, f) = absurd (ground (arith, never r i, (iff r i).1 (a, f)))

  both :
      (s : S) (x y : Option ℕ)
      → FirstRule allows outcome_of rules 0 x
      → FirstRule denies outcome_of rules 0 y
      → (m_enforce ev e matcher s).0 ≡ ok (conclude ev e.model rules (deny_at (allow_at x) y))
      → AllowsAndNoneDenies pa.tokens (r0 ∷ rest) accepts (m_enforce ev e matcher s).0
  unfolding FirstRule conclude
  both s x (some j) fx (k, same, r, there, i, t) h =
      let (a, f) = (deny_iff r i).0 t in
      (
        false,
        r,
        h ∙ ap ok (explained deny k j r (omega (arith, same)) there),
        (λ c. absurd cc, λ (_, n). absurd (n (r, i, a, f))),
        λ c. absurd cc,
        λ _. (i, (a, f)),
      )
  both s none none fx fy h = (
    false,
    [],
    h,
    (λ c. absurd cc, λ (some_allows, n). absurd (none_there allows allow allow_iff fx some_allows)),
    λ c. absurd cc,
    λ d. absurd (none_there denies deny deny_iff fy d),
  )
  both s (some j) none (k, same, r, there, i, t) fy h =
      let (a, f) = (allow_iff r i).0 t in
      (
        true,
        r,
        h ∙ ap ok (explained allow k j r (omega (arith, same)) there),
        (λ c. ((r, i, a, f), none_there denies deny deny_iff fy), λ c. refl),
        λ c. (i, (a, f)),
        λ d. absurd (none_there denies deny deny_iff fy d),
      )

  -- Under `some(where (p.eft == allow)) && !some(where (p.eft == deny))`: for an enabled enforcer
  -- whose model has its definitions, a policy kept as a vector of at least one rule, each with a
  -- field for every token, and a matcher that returns whether it accepts a rule, the same in every
  -- state, `m_enforce` returns. Its answer is true exactly when some rule that the matcher accepts
  -- allows and none denies, and then the explanation is an accepted rule that allows. When some
  -- accepted rule denies, the explanation is an accepted rule that denies.
  pub m_enforce-allow_and_deny :
      ea.value ≡ allow_and_deny
      → (s : S) → AllowsAndNoneDenies pa.tokens (r0 ∷ rest) accepts (m_enforce ev e matcher s).0
  m_enforce-allow_and_deny v s =
      both s (first_index allows 0 (map outcome_of rules))
        (first_index denies 0 (map outcome_of rules))
        (first_index_lem allows outcome_of rules 0 _ refl)
        (first_index_lem denies outcome_of rules 0 _ refl)
        (concluded allow_and_deny _ v
          (λ w. allow_and_deny_lem (round ev e.model exp pa.tokens) outcome_of r0 rest w rounds-ok)
          s)
