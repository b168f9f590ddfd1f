-- ===== src/Assertion.antt =====
-- casbin/model/assertion.cpp: an assertion of the model, and the role links of its rules. The
-- assertion shares its role manager with the enforcer: `rm` is the manager's address, and an
-- operation on it is given the manager and returns it. A manager that an exception leaves behind
-- is returned too.
pub mod Edges
use casbin_cpp.Base.{
  ℕ, zero, suc, ◌+◌, Bool, true, false, Option, none, some, List, [], ◌∷◌, Text, Rule,
  if◌then◌else◌, nat_eq, ltb, length, take, drop, Result, ok, err, illegal_argument, undefined,
}
use casbin_cpp.Policy.{PoliciesValues, rules_of}
use casbin_cpp.Rbac.{RoleManager, add_link, delete_link}

pub record Assertion : Type 0 where
  pub key : Text
  pub value : Text
  pub tokens : List Text
  pub policy : PoliciesValues
  pub rm : Option ℕ

pub data PolicyOp : Type 0 where
  policy_add policy_remove : PolicyOp

-- `count(value.begin(), value.end(), '_')`
abbrev pub count_underscores : Text → ℕ
count_underscores [] = 0
count_underscores (c ∷ s) =
    let rest = count_underscores s in if nat_eq c b'_' then suc rest else rest

-- One rule: its first two fields are linked, in the domain of the fields after them.
unfoldable pub link_rule : PolicyOp → Rule → RoleManager → Result RoleManager
unfolding add_link delete_link
link_rule op [] rm = err undefined
link_rule op (a ∷ []) rm = err undefined
link_rule policy_add (a ∷ b ∷ domain) rm = add_link rm a b domain
link_rule policy_remove (a ∷ b ∷ domain) rm = delete_link rm a b domain

-- The loop over the rules, for a role definition with so many underscores.
unfoldable pub link_rules : PolicyOp → ℕ → List Rule → RoleManager → Result (Unit {0}) × RoleManager
unfolding link_rule
link_rules op n [] rm = (ok tt, rm)
link_rules op n (r ∷ rs) rm =
    if ltb (length r) n
    then (err illegal_argument, rm)
    else elim (link_rule op (take n r) rm) [ err e ↦ (err e, rm) | ok rm' ↦ link_rules op n rs rm' ]

unfoldable pub build_incremental_role_links :
    ℕ → PolicyOp → List Rule → Assertion → RoleManager → Result (Unit {0}) × Assertion × RoleManager
unfolding link_rules
build_incremental_role_links address op rules ast rm =
    let ast' = record ast { rm = some address } in
    let n = count_underscores ast.value in
    if ltb n 2
    then (err illegal_argument, ast', rm)
    else (let (r, rm') = link_rules op n rules rm in (r, ast', rm'))

unfoldable pub build_role_links :
    ℕ → Assertion → RoleManager → Result (Unit {0}) × Assertion × RoleManager
unfolding link_rules
build_role_links address ast rm =
    let ast' = record ast { rm = some address } in
    let n = count_underscores ast.value in
    if ltb n 2
    then (err illegal_argument, ast', rm)
    else (let (r, rm') = link_rules policy_add n (rules_of ast.policy) rm in (r, ast', rm'))
