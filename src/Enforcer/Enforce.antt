-- ===== src/Enforcer/Enforce.antt =====
-- `m_enforce` of casbin/enforcer.cpp, and casbin/selected_policies.cpp.
pub mod Rounds
pub mod Decision
pub mod Decided
pub mod Ordered
pub mod Requests
pub mod Users
pub mod Tests
use casbin_cpp.Base.{
  ℕ, zero, suc, ◌+◌, Bool, true, false, not, ◌&&◌, Option, none, some, List, [], ◌∷◌, Text, str,
  Rule, ◌==◌, if◌then◌else◌, nat_eq, ltb, length, drop, get_elem?, map, Result, ok, err, at, Error,
  enforcer, undefined, out_of_range, logic_error,
}
use casbin_cpp.Base.Assoc.{Assoc, lookup, insert}
use casbin_cpp.Util.Trim.{find_char}
use casbin_cpp.Util.Eval.{has_eval, get_eval_value, replace_eval_with_map, escape_assertion}
use casbin_cpp.Effect.{
  Effect, allow, deny, indeterminate, is_allow, Merged, merge_effects, Outcome, merge_rules,
}
use casbin_cpp.Policy.{PoliciesValues, vector, rules_of, is_hash, find}
use casbin_cpp.Assertion.{Assertion, count_underscores}
use casbin_cpp.Model.{Model, AssertionMap, section, has_section, assertion}
use casbin_cpp.Enforcer.{Enforcer}
use casbin_cpp.Enforcer.Evaluate.{
  Evaluator, World, Run, pure, lift, modify, ◌>>=◌, ◌>>◌, EvalType, bool_type, float_type,
}

-- `p_int_tokens`: the later of two equal tokens stands.
unfoldable pub int_tokens : List Text → ℕ → Assoc ℕ → Assoc ℕ
unfolding insert
int_tokens [] i acc = acc
int_tokens (t ∷ ts) i acc = int_tokens ts (i + 1) (insert t i acc)

abbrev pub p_int_tokens : List Text → Assoc ℕ
p_int_tokens tokens = int_tokens tokens 0 []

-- `token.substr(token.find('_') + 1)`
unfoldable pub after_underscore : Text → Text
unfolding find_char
after_underscore t = elim (find_char b'_' t) [ none ↦ t | some i ↦ drop (suc i) t ]

-- `p.substr(2, p.size() - 2)`
unfoldable pub after_prefix : Text → Result Text
after_prefix p = if ltb (length p) 2 then err out_of_range else ok (drop 2 p)

-- The effect that a rule gives when the matcher accepts it.
unfoldable pub effect_of : List Text → Rule → Result Effect
unfolding int_tokens lookup ◌==◌
effect_of tokens p_vals = elim (lookup (str "p_eft") (p_int_tokens tokens)) [
  | none ↦ ok allow
  | some j ↦ elim (at p_vals j) [
    | err e ↦ err e
    | ok eft ↦
        ok (if eft == str "allow" then allow else if eft == str "deny" then deny else indeterminate)
  ]
]

-- The loop that collects the values of the rules named in eval().
unfoldable pub replacements : List Text → Rule → List Text → Assoc Text → Result (Assoc Text)
unfolding int_tokens lookup insert escape_assertion
replacements tokens p_vals [] acc = ok acc
replacements tokens p_vals (name ∷ names) acc =
    elim (lookup (escape_assertion name) (p_int_tokens tokens)) [
      | none ↦ err enforcer
      | some idx ↦ elim (at p_vals idx) [
        | err e ↦ err e
        | ok v ↦ replacements tokens p_vals names (insert name v acc)
      ]
    ]

-- The matcher for one rule, the calls of eval() replaced.
unfoldable pub matcher_for : Text → List Text → Rule → Result Text
unfolding has_eval get_eval_value replacements replace_eval_with_map
matcher_for exp tokens p_vals =
    if has_eval exp
    then elim (replacements tokens p_vals (get_eval_value exp) []) [
      | err e ↦ err e
      | ok sets ↦ ok (replace_eval_with_map exp sets)
    ]
    else ok exp

unfoldable pub requested_from : List Text → Assoc Text → Result Rule
unfolding after_prefix lookup
requested_from [] values = ok []
requested_from (p ∷ ps) values = elim (after_prefix p) [
  | err e ↦ err e
  | ok token ↦ elim (lookup token values) [
    | none ↦ err logic_error
    | some v ↦ elim (requested_from ps values) [ err e ↦ err e | ok vs ↦ ok (v ∷ vs) ]
  ]
]

module _ {S : Type 0} (ev : Evaluator S) (model : Model) where
  -- `SelectedPolicies::requestedPolicy`
  pub requested_policy : S → Result Rule
  unfolding assertion requested_from
  requested_policy s = elim (assertion model (str "r") (str "r")) [
    | err e ↦ err e
    | ok r ↦ requested_from r.tokens (ev.request_values s)
  ]

  -- `SelectedPolicies::operator*`
  pub selected_policies : Run S (List Rule)
  unfolding assertion is_hash find requested_policy
  selected_policies (s, managers) = elim (assertion model (str "p") (str "p")) [
    | err e ↦ (err e, (s, managers))
    | ok p ↦
        if is_hash p.policy
        then elim (requested_policy s) [
          | err e ↦ (err e, (s, managers))
          | ok wanted ↦ elim (find p.policy wanted) [
            | none ↦ (ok [], (s, managers))
            | some rule ↦ (ok (rule ∷ []), (s, managers))
          ]
        ]
        else (ok (rules_of p.policy), (s, managers))
  ]

  pub load_g_functions : AssertionMap → S → S
  load_g_functions [] s = s
  load_g_functions ((name, a) ∷ rest) s =
      load_g_functions rest (ev.load_g_function a.rm name (count_underscores a.value) s)

  pub push_tokens : List Text → Rule → S → S
  unfolding after_underscore
  push_tokens [] p_vals s = s
  push_tokens (t ∷ ts) [] s = s
  push_tokens (t ∷ ts) (v ∷ vs) s =
      push_tokens ts vs (ev.push_object_string (str "p") (after_underscore t) v s)

  -- The object "p" for a rule.
  pub set_object : List Text → Rule → S → S
  unfolding push_tokens section
  set_object tokens p_vals s =
      push_tokens tokens p_vals
        (ev.initial_object (str "p") (ev.clean (section model (str "p")) false s))

  -- The result of the expression that was evaluated, as a Boolean.
  pub read_result : Run S Bool
  read_result = do
    t ← ev.check_type
    elim t [
      | bool_type ↦ ev.get_boolean
      | float_type ↦ do
        t' ← ev.check_type
        elim t' [ float_type ↦ ev.float_is_nonzero | bool_type ↦ lift (err enforcer) ]
    ]

  -- Does the matcher accept the rule?
  pub matcher_accepts : Text → List Text → Rule → Run S Bool
  unfolding set_object matcher_for read_result
  matcher_accepts exp tokens p_vals = do
    modify (set_object tokens p_vals)
    e ← lift (matcher_for exp tokens p_vals)
    _ ← ev.eval e
    read_result

  -- `m_model->m["e"].assertion_map["e"]->value`
  pub effect_expr : Result Text
  unfolding assertion
  effect_expr = elim (assertion model (str "e") (str "e")) [ err e ↦ err e | ok a ↦ ok a.value ]

  -- The body of the loop, up to the call of `MergeEffects`.
  pub round : Text → List Text → World S → Rule → Result Outcome × World S
  unfolding matcher_accepts effect_of effect_expr
  round exp tokens w p_vals =
      if nat_eq (length tokens) (length p_vals)
      then (do
        accepted ← matcher_accepts exp tokens p_vals
        eft ← lift (effect_of tokens p_vals)
        _ ← lift effect_expr
        pure (record { matched = accepted; eft = eft }))
          w
      else (err enforcer, w)

  -- The branch for a policy without rules; `none` is its early return.
  pub without_rules : Text → List Text → Run S (Option Merged)
  unfolding set_object has_eval effect_expr merge_effects
  without_rules exp tokens = if has_eval exp then lift (err enforcer) else (do
    modify (set_object tokens (map (λ _. []) tokens))
    isvalid ← ev.eval exp
    if isvalid
        then (do
          result ← ev.get_boolean
          expr ← lift effect_expr
          merged ←
              lift
                (merge_effects expr ((if result then allow else indeterminate) ∷ []) (1 ∷ []) 0 1)
          pure (some merged))
        else pure none)

  -- `explains`, and the effect as a Boolean.
  pub conclude : List Rule → Merged → Bool × Rule
  conclude policy (effect, none) = (is_allow effect, [])
  conclude policy (effect, some i) = elim (get_elem? policy i) [
    | none ↦ (is_allow effect, [])
    | some rule ↦ (is_allow effect, rule)
  ]

  -- The expression, when it is there; `round` raises when it is not.
  abbrev pub effect_text : Text
  effect_text = elim effect_expr [ err e ↦ [] | ok t ↦ t ]

  pub decide : Text → List Text → List Rule → Run S (Bool × Rule)
  unfolding merge_rules round without_rules conclude
  decide exp tokens [] = do
    merged ← without_rules exp tokens
    elim merged [ none ↦ pure (false, []) | some m ↦ pure (conclude [] m) ]
  decide exp tokens (r ∷ rs) = do
    merged ← merge_rules (round exp tokens) effect_text (r ∷ rs)
    pure (conclude (r ∷ rs) merged)

  -- The matcher of the model when none is given.
  pub matcher_or_own : Text → Result Text
  unfolding assertion
  matcher_or_own [] = elim (assertion model (str "m") (str "m")) [
    | err e ↦ err e
    | ok a ↦ ok a.value
  ]
  matcher_or_own (c ∷ cs) = ok (c ∷ cs)

  pub enforce_enabled : Text → Run S (Bool × Rule)
  unfolding load_g_functions matcher_or_own assertion selected_policies decide section
  enforce_enabled matcher = do
    modify (λ s. load_g_functions (section model (str "g")) (ev.load_functions s))
    exp ← lift (matcher_or_own matcher)
    _ ← lift (assertion model (str "r") (str "r"))
    p ← lift (assertion model (str "p") (str "p"))
    policy ← selected_policies
    decide exp p.tokens policy

-- `m_enforce`, with the answer and `explains`.
unfoldable pub m_enforce :
    {S : Type 0} → Evaluator S → Enforcer → Text → S → Result (Bool × Rule) × World S
unfolding enforce_enabled
m_enforce ev e matcher s =
    if e.enabled
    then enforce_enabled ev e.model matcher (s, e.managers)
    else (ok (true, []), (s, e.managers))
