-- ===== src/Effect.antt =====
-- casbin/effect/default_effector.cpp: `DefaultEffector::MergeEffects`, and the loop over the rules
-- of `Enforcer::m_enforce` (casbin/enforcer.cpp) that fills the two arrays and calls it.
pub mod Scan
pub mod Loop
pub mod Verdict
pub mod Tests
use casbin_cpp.Base.{
  ℕ, zero, suc, ◌+◌, Bool, true, false, Option, none, some, List, [], ◌∷◌, Text, Rule, str, ◌==◌,
  if◌then◌else◌, nat_eq, ltb, length, replicate, set, Result, ok, err, unsupported_operation,
  undefined, at, ◌>>=◌,
}

-- `enum class Effect`
pub data Effect : Type 0 where
  allow indeterminate deny : Effect

abbrev pub is_allow : Effect → Bool
is_allow allow = true
is_allow _ = false

abbrev pub is_deny : Effect → Bool
is_deny deny = true
is_deny _ = false

-- The effect and `explainIndex`, where `none` is the index -1.
abbrev pub Merged : Type 0
Merged = Effect × Option ℕ

abbrev pub allow_override : Text
allow_override = str "some(where (p.eft == allow))"

abbrev pub deny_override : Text
deny_override = str "!some(where (p.eft == deny))"

abbrev pub allow_and_deny : Text
allow_and_deny = str "some(where (p.eft == allow)) && !some(where (p.eft == deny))"

abbrev pub priority : Text
priority = str "priority(p.eft) || deny"

-- The ascending loop of the third branch: the first matched rule whose effect is allow.
pub first_allow : List Effect → List ℕ → ℕ → Result Merged
first_allow [] ms i = ok (indeterminate, none)
first_allow (e ∷ es) [] i = err undefined
first_allow (e ∷ es) (m ∷ ms) i =
    let rest = first_allow es ms (i + 1) in
    if nat_eq m 0 then rest else if is_allow e then ok (allow, some i) else rest

-- The descending loop of the fourth branch, from index `n - 1` down to 0.
pub last_decided : ℕ → List Effect → List ℕ → Result Merged
last_decided zero es ms = ok (indeterminate, none)
last_decided (suc i) es ms =
    let rest = last_decided i es ms in
    at ms i >>= λ m.
    if nat_eq m 0
    then rest
    else at es i >>= λ e. elim e [
      | allow ↦ ok (allow, some i)
      | deny ↦ ok (deny, some i)
      | indeterminate ↦ rest
    ]

-- The four branches of `MergeEffects`, each at the arrays, `policyIndex` and `policyLength`.
merge_allow_override : List Effect → List ℕ → ℕ → Result Merged
merge_allow_override effects matches index = do
  m ← at matches index
  if nat_eq m 0 then ok (indeterminate, none) else do
    e ← at effects index
    if is_allow e then ok (allow, some index) else ok (indeterminate, none)

-- `matches[policyIndex] != 0 && effects[policyIndex] == Effect::Deny`
pub denied : List Effect → List ℕ → ℕ → Result Bool
denied effects matches index = do
  m ← at matches index
  if nat_eq m 0 then ok false else do e ← at effects index; ok (is_deny e)

pub merge_deny_override : List Effect → List ℕ → ℕ → ℕ → Result Merged
unfolding denied
merge_deny_override effects matches index policy_length = do
  hit ← denied effects matches index
  if hit
      then ok (deny, some index)
      else if nat_eq (index + 1) policy_length
      then ok (allow, none)
      else ok (indeterminate, none)

pub merge_allow_and_deny : List Effect → List ℕ → ℕ → ℕ → Result Merged
unfolding denied first_allow
merge_allow_and_deny effects matches index policy_length = do
  hit ← denied effects matches index
  if hit
      then ok (deny, some index)
      else if ltb (index + 1) policy_length
      then ok (indeterminate, none)
      else first_allow effects matches 0

unfoldable pub merge_effects : Text → List Effect → List ℕ → ℕ → ℕ → Result Merged
unfolding merge_allow_override merge_deny_override merge_allow_and_deny last_decided
merge_effects expr effects matches index policy_length =
    if expr == allow_override
    then merge_allow_override effects matches index
    else if expr == deny_override
    then merge_deny_override effects matches index policy_length
    else if expr == allow_and_deny
    then merge_allow_and_deny effects matches index policy_length
    else if expr == priority
    then last_decided (length effects) effects matches
    else err unsupported_operation

-- What the evaluation of one rule gives: did the matcher accept, and the effect of the rule.
pub record Outcome : Type 0 where
  pub matched : Bool
  pub eft : Effect

-- What is stored in `matcher_results`.
abbrev pub mark : Bool → ℕ
mark true = 1
mark false = 0

-- The loop over the rules. `round` evaluates one rule in the evaluator's state, and may raise;
-- `last` is what the previous round left in `effect` and `explainIndex`.
module _ {S : Type 0} (round : S → Rule → Result Outcome × S) (expr : Text) (policy_len : ℕ) where
  pub after_round :
      (ℕ → List Effect → List ℕ → Merged → S → Result Merged × S)
      → ℕ
      → List Effect
      → List ℕ
      → Result Outcome
      → S
      → Result Merged × S
  after_round next index effects matches (err e) s = (err e, s)
  after_round next index effects matches (ok o) s =
      let effects' = set effects index o.eft in
      let matches' = set matches index (mark o.matched) in
      elim (merge_effects expr effects' matches' index policy_len) [
        | err e ↦ (err e, s)
        | ok (indeterminate, x) ↦ next (index + 1) effects' matches' (indeterminate, x) s
        | ok (allow, x) ↦ (ok (allow, x), s)
        | ok (deny, x) ↦ (ok (deny, x), s)
      ]

  pub rules_loop : List Rule → ℕ → List Effect → List ℕ → Merged → S → Result Merged × S
  unfolding after_round
  rules_loop [] index effects matches last s = (ok last, s)
  rules_loop (r ∷ rs) index effects matches last s =
      let (o, s') = round s r in after_round (rules_loop rs) index effects matches o s'

-- The loop from its initial arrays, for a policy that is not empty.
unfoldable pub merge_rules :
    {S : Type 0} (round : S → Rule → Result Outcome × S) → Text → List Rule → S → Result Merged × S
unfolding rules_loop
merge_rules round expr rules s =
    let n = length rules in
    rules_loop round expr n rules 0 (replicate n indeterminate) (replicate n 0)
      (indeterminate, none) s
