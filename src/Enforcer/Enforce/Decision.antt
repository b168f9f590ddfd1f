-- ===== src/Enforcer/Enforce/Decision.antt =====
-- What `m_enforce` answers for a policy of rules, in terms of the rules alone.
use casbin_cpp.Base.{
  ℕ, suc, ◌+◌, Bool, true, false, not, Option, none, some, List, [], ◌∷◌, Text, str, Rule, nat_eq,
  length, map, get_elem?, In, ◌≡◌, refl, ap, ◌∙◌, ◌↔◌, inl, inr, arith, Bool-cases, Result, ok,
}
use casbin_cpp.Effect.{
  Effect, allow, deny, indeterminate, Outcome, Merged, merge_rules, is_allow, allow_override,
  deny_override,
}
use casbin_cpp.Effect.Scan.{first_index, allows, denies, allow_at}
use casbin_cpp.Effect.Verdict.{allow_override_lem, deny_override_lem, deny_at}
use casbin_cpp.Rbac.{RoleManager}
use casbin_cpp.Policy.{vector, is_hash}
use casbin_cpp.Assertion.{Assertion}
use casbin_cpp.Model.{assertion}
use casbin_cpp.Enforcer.{Enforcer}
use casbin_cpp.Enforcer.Evaluate.{Evaluator, World, pure, go_on}
use casbin_cpp.Enforcer.Enforce.{
  matcher_accepts, effect_of, effect_expr, effect_text, round, decide, conclude, matcher_or_own,
  selected_policies, enforce_enabled, m_enforce,
}
use casbin_cpp.Enforcer.Enforce.Rounds.{
  Sized, Sized-In, effect_or-ok, allows_iff, denies_iff, outcome,
}

-- What the position of the first outcome with a property says of the rules.
unfoldable pub FirstRule : (Outcome → Bool) → (Rule → Outcome) → List Rule → ℕ → Option ℕ → Type 0
FirstRule p f rules i none = (r : Rule) → In r rules → p (f r) ≡ false
FirstRule p f rules i (some j) =
    (k : ℕ) × (j ≡ i + k)
    × (r : Rule) × (get_elem? rules k ≡ some r)
    × In r rules
    × (p (f r) ≡ true)

pub first_index_lem :
    (p : Outcome → Bool) (f : Rule → Outcome) (rules : List Rule) (i : ℕ) (x : Option ℕ)
    → first_index p i (map f rules) ≡ x
    → FirstRule p f rules i x
unfolding FirstRule
first_index_lem p f [] i none e = λ r h. absurd h
first_index_lem p f [] i (some j) e = absurd cc
first_index_lem p f (r ∷ rules) i none e = elim (Bool-cases (p (f r))) [
  | inl t ↦ absurd (ground arith)
  | inr t ↦
      let later = first_index_lem p f rules (i + 1) none (ground arith) in
      λ q h. elim h [ inl same ↦ ap (λ z. p (f z)) same ∙ t | inr rest ↦ later q rest ]
]
first_index_lem p f (r ∷ rules) i (some j) e = elim (Bool-cases (p (f r))) [
  | inl t ↦ (0, ground arith, r, refl, inl refl, t)
  | inr t ↦
      let (k, same, q, there, h, good) =
        first_index_lem p f rules (i + 1) (some j) (ground arith) in
      (suc k, omega (arith, same), q, there, inr h, good)
]

-- Some rule that the matcher accepts has this effect.
abbrev pub SomeRule : List Text → List Rule → (Rule → Bool) → Effect → Type 0
SomeRule tokens rules accepts eft =
    (r : Rule) × In r rules × (accepts r ≡ true) × (effect_of tokens r ≡ ok eft)

-- The result is an answer and an explanation: the answer is `good` exactly when some rule that the
-- matcher accepts has this effect, and then the explanation is such a rule.
abbrev pub Answers :
    List Text → List Rule → (Rule → Bool) → Effect → Bool → Result (Bool × Rule) → Type 0
Answers tokens rules accepts eft good result =
    (b : Bool) × (x : Rule) × (result ≡ ok (b, x))
    × ((b ≡ good) ↔ SomeRule tokens rules accepts eft)
    × (b ≡ good → In x rules × (accepts x ≡ true) × (effect_of tokens x ≡ ok eft))

-- An enabled enforcer whose model has its definitions, a policy that is a vector of at least one
-- rule, each with a field for every token, and a matcher that accepts the rules for which `accepts`
-- holds, whatever state the evaluator and the role managers are in.
module _ {S : Type 0} (ev : Evaluator S) (e : Enforcer) (matcher exp : Text) (ra pa ea : Assertion)
    (on : e.enabled ≡ true) (own : matcher_or_own ev e.model matcher ≡ ok exp)
    (has_r : assertion e.model (str "r") (str "r") ≡ ok ra)
    (has_p : assertion e.model (str "p") (str "p") ≡ ok pa)
    (has_e : assertion e.model (str "e") (str "e") ≡ ok ea) (r0 : Rule) (rest : List Rule)
    (stored : pa.policy ≡ vector (r0 ∷ rest)) (sized : Sized (length pa.tokens) (r0 ∷ rest))
    (accepts : Rule → Bool)
    (judges : (w : World S) (r : Rule)
      → In r (r0 ∷ rest)
      → (matcher_accepts ev e.model exp pa.tokens r w).0 ≡ ok (accepts r)) where
  abbrev this_round : World S → Rule → Result Outcome × World S
  this_round = round ev e.model exp pa.tokens

  effect-ok : effect_expr ev e.model ≡ ok ea.value
  unfolding effect_expr
  effect-ok = rw (has_e, effect_expr)

  selected-ok :
      (s : S) (managers : List RoleManager)
      → selected_policies ev e.model (s, managers) ≡ (ok (r0 ∷ rest), (s, managers))
  unfolding selected_policies is_hash
  selected-ok s managers = rw (has_p, selected_policies) (rw stored)

  -- The program's round, on each rule of the policy.
  pub round-ok :
      (w : World S) (r : Rule)
      → In r (r0 ∷ rest)
      → (this_round w r).0 ≡ ok (outcome accepts pa.tokens r)
  unfolding round
  round-ok w r i =
      let size : nat_eq (length pa.tokens) (length r) ≡ true =
        ground (arith, Sized-In (length pa.tokens) (r0 ∷ rest) r sized i) in
      let gives = effect_or-ok pa.tokens r (Sized-In (length pa.tokens) (r0 ∷ rest) r sized i) in
      rw size (rw (judges w r i) (rw gives (rw effect-ok)))

  text-ok : effect_text ev e.model ≡ ea.value
  text-ok = rw (effect-ok, effect_text)

  merged-ok :
      (m : Merged)
      → ((w : World S) → (merge_rules this_round ea.value (r0 ∷ rest) w).0 ≡ ok m)
      → (w : World S) → (merge_rules this_round (effect_text ev e.model) (r0 ∷ rest) w).0 ≡ ok m
  merged-ok m h w = ap (λ t. (merge_rules this_round t (r0 ∷ rest) w).0) text-ok ∙ h w

  decide-loop :
      (m : Merged)
      → ((w : World S) → (merge_rules this_round ea.value (r0 ∷ rest) w).0 ≡ ok m)
      → (w : World S)
      → (decide ev e.model exp pa.tokens (r0 ∷ rest) w).0 ≡ ok (conclude ev e.model (r0 ∷ rest) m)
  unfolding decide
  decide-loop m h w =
      ap
        (λ (o : Result Merged).
          (go_on (λ (x : Merged). pure (conclude ev e.model (r0 ∷ rest) x)) o
            (merge_rules this_round (effect_text ev e.model) (r0 ∷ rest) w).1).0)
        (merged-ok m h w)

  pub m_enforce-loop :
      (m : Merged)
      → ((w : World S) → (merge_rules this_round ea.value (r0 ∷ rest) w).0 ≡ ok m)
      → (s : S) → (m_enforce ev e matcher s).0 ≡ ok (conclude ev e.model (r0 ∷ rest) m)
  unfolding m_enforce enforce_enabled
  m_enforce-loop m h s =
      rw on (rw own (rw has_r (rw has_p (rw (selected-ok _ e.managers) (decide-loop m h _)))))

  abbrev rules : List Rule
  rules = r0 ∷ rest

  abbrev outcome_of : Rule → Outcome
  outcome_of = outcome accepts pa.tokens

  pub conclude-some :
      (eft : Effect) (k j : ℕ) (r : Rule)
      → j ≡ k
      → get_elem? rules k ≡ some r
      → conclude ev e.model rules (eft, some j) ≡ (is_allow eft, r)
  unfolding conclude
  conclude-some eft k j r same there =
      ap (λ i. conclude ev e.model rules (eft, some i)) same ∙ rw (there, conclude)

  answers :
      (eft : Effect) (good : Bool) (p : Outcome → Bool) (otherwise : Effect)
      → is_allow eft ≡ good
      → is_allow otherwise ≡ not good
      → ((r : Rule)
          → In r (r0 ∷ rest)
          → (p (outcome_of r) ≡ true) ↔ ((accepts r ≡ true) × (effect_of pa.tokens r ≡ ok eft)))
      → (m : Option ℕ → Merged) → m none ≡ (otherwise, none)
      → ((i : ℕ) → m (some i) ≡ (eft, some i))
      → (x : Option ℕ) → FirstRule p outcome_of rules 0 x
      → (s : S) → (m_enforce ev e matcher s).0 ≡ ok (conclude ev e.model rules (m x))
      → Answers pa.tokens rules accepts eft good (m_enforce ev e matcher s).0
  unfolding conclude FirstRule
  answers eft good p otherwise isg iso iff m at_none at_some none never s h = (
    not good,
    [],
    h
        ∙ ap (λ (z : Merged). ok (conclude ev e.model rules z)) at_none
        ∙ ap (λ (b : Bool). ok (b, [])) iso,
    (
      λ c. absurd (ground arith),
      λ (r, i, a, f). absurd (ground (arith, never r i, (iff r i).1 (a, f))),
    ),
    λ c. absurd (ground arith),
  )
  answers eft good p otherwise isg iso iff m at_none at_some (some j) (k, same, r, there, i, t) s
        h =
      let (a, f) = (iff r i).0 t in
      (
        good,
        r,
        h
            ∙ ap (λ (z : Merged). ok (conclude ev e.model rules z)) (at_some j)
            ∙ ap ok (conclude-some eft k j r (omega (arith, same)) there)
            ∙ ap (λ (b : Bool). ok (b, r)) isg,
        (λ c. (r, i, a, f), λ c. refl),
        λ c. (i, a, f),
      )

  -- Under `some(where (p.eft == allow))`: for an enabled enforcer whose model has its definitions,
  -- a policy kept as a vector of at least one rule, each with a field for every token, and a
  -- matcher that returns whether it accepts a rule, the same in every state, `m_enforce` returns.
  -- Its answer is true exactly when some rule that the matcher accepts allows, and then the
  -- explanation is such a rule.
  pub m_enforce-allow_override :
      ea.value ≡ allow_override
      → (s : S) → Answers pa.tokens (r0 ∷ rest) accepts allow true (m_enforce ev e matcher s).0
  m_enforce-allow_override v s =
      answers allow true allows indeterminate refl refl
        (λ r i. allows_iff accepts pa.tokens r (Sized-In (length pa.tokens) rules r sized i))
        allow_at refl (λ i. refl) (first_index allows 0 (map outcome_of rules))
        (first_index_lem allows outcome_of rules 0 _ refl) s
        (m_enforce-loop _
          (λ w.
            ap (λ t. (merge_rules this_round t rules w).0) v
            ∙ allow_override_lem this_round outcome_of rules w round-ok)
          s)

  -- Under `!some(where (p.eft == deny))`: for an enabled enforcer whose model has its definitions,
  -- a policy kept as a vector of at least one rule, each with a field for every token, and a
  -- matcher that returns whether it accepts a rule, the same in every state, `m_enforce` returns.
  -- Its answer is false exactly when some rule that the matcher accepts denies, and then the
  -- explanation is such a rule.
  pub m_enforce-deny_override :
      ea.value ≡ deny_override
      → (s : S) → Answers pa.tokens (r0 ∷ rest) accepts deny false (m_enforce ev e matcher s).0
  m_enforce-deny_override v s =
      answers deny false denies allow refl refl
        (λ r i. denies_iff accepts pa.tokens r (Sized-In (length pa.tokens) rules r sized i))
        (deny_at (allow, none)) refl (λ i. refl) (first_index denies 0 (map outcome_of rules))
        (first_index_lem denies outcome_of rules 0 _ refl) s
        (m_enforce-loop _
          (λ w.
            ap (λ t. (merge_rules this_round t rules w).0) v
            ∙ deny_override_lem this_round outcome_of r0 rest w round-ok)
          s)
