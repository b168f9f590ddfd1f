-- ===== src/Enforcer/Settings.antt =====
-- casbin/enforcer.cpp: the setters and flags, and loading the policy. What the adapter's
-- `LoadPolicy` and `SavePolicy` do is a parameter; the effector and the evaluator are not part of
-- the state here.
pub mod Loaded
pub mod Tests
use casbin_cpp.Base.{
  ℕ, Bool, true, false, Option, none, some, List, [], ◌∷◌, ◌++◌, if◌then◌else◌, length, get_elem?,
  set, Result, ok, err, undefined, enforcer, Text, Rule, str,
}
use casbin_cpp.Rbac.{RoleManager, new_role_manager}
use casbin_cpp.Rbac.Implicit.{implicit_roles}
use casbin_cpp.Policy.{PoliciesValues, vector, rules_of, emplace}
use casbin_cpp.Model
use casbin_cpp.Model.{Model}
use casbin_cpp.Model.Links.{model_build_incremental_role_links}
use casbin_cpp.Assertion.{PolicyOp}
use casbin_cpp.Enforcer.{
  Enforcer, Adapter, Method, pure, raise, with_manager, ◌>>=◌, ◌>>◌, update_watcher, log_call,
}
use casbin_cpp.Enforcer.Internal
use casbin_cpp.Enforcer.Roles.{get_permissions_for_user, get_permissions_for_user_in_domain}

-- `Initialize`: a role manager of its own for at most ten levels, no watcher, every flag on.
unfoldable pub initialize : Enforcer → Enforcer
unfolding new_role_manager
initialize s = record s {
  rm = length s.managers;
  managers = s.managers ++ new_role_manager 10 ∷ [];
  watcher = false;
  enabled = true;
  auto_save = true;
  auto_build_role_links = true;
  auto_notify_watcher = true;
}

unfoldable pub set_model : Model → Enforcer → Enforcer
unfolding initialize
set_model m s = initialize (record s { model = m })

unfoldable pub set_adapter : Option Adapter → Enforcer → Enforcer
set_adapter a s = record s { adapter = a }

unfoldable pub set_role_manager : ℕ → Enforcer → Enforcer
set_role_manager address s = record s { rm = address }

unfoldable pub enable_enforce : Bool → Enforcer → Enforcer
enable_enforce enable s = record s { enabled = enable }

unfoldable pub enable_auto_notify_watcher : Bool → Enforcer → Enforcer
enable_auto_notify_watcher enable s = record s { auto_notify_watcher = enable }

unfoldable pub enable_auto_save : Bool → Enforcer → Enforcer
enable_auto_save auto_save s = record s { auto_save = auto_save }

unfoldable pub enable_auto_build_role_links : Bool → Enforcer → Enforcer
enable_auto_build_role_links on s = record s { auto_build_role_links = on }

unfoldable pub clear_policy : Method (Unit {0})
unfolding Model.clear_policy
clear_policy s = (ok tt, record s { model = Model.clear_policy s.model })

-- A call of the adapter on the model; there may be none.
abbrev pub of_adapter : (Model → Result (Unit {0}) × Model) → Method (Unit {0})
of_adapter f s = elim s.adapter [
  | none ↦ (err undefined, s)
  | some a ↦ let (r, m) = f s.model in (r, record s { model = m })
]

-- `LoadPolicy`: the policy is cleared before the adapter is asked.
unfoldable pub load_policy : (Model → Result (Unit {0}) × Model) → Method (Unit {0})
unfolding clear_policy Internal.build_role_links
load_policy load = do
  clear_policy
  of_adapter load
  λ s. if s.auto_build_role_links then Internal.build_role_links s else (ok tt, s)

-- `SavePolicy`, where the adapter's `IsFiltered` answers `filtered`. Any watcher is told by
-- `Update`.
unfoldable pub save_policy : Bool → (Model → Result (Unit {0}) × Model) → Method (Unit {0})
save_policy filtered save s = elim s.adapter [
  | none ↦ (err undefined, s)
  | some a ↦
      if filtered
      then (err enforcer, s)
      else (do
        of_adapter save
        λ t. if t.watcher then (ok tt, log_call update_watcher t) else (ok tt, t))
          s
]

-- `GetImplicitRolesForUser` on the enforcer's own role manager, with so many rounds left.
unfoldable pub get_implicit_roles_for_user :
    ℕ → Text → List Text → Enforcer → Option (Result (List Text) × Enforcer)
unfolding implicit_roles
get_implicit_roles_for_user n name domain s = elim (get_elem? s.managers s.rm) [
  | none ↦ some (err undefined, s)
  | some m ↦ elim (implicit_roles n name domain m) [
    | none ↦ none
    | some (r, m') ↦ some (r, record s { managers = set s.managers s.rm m' })
  ]
]

abbrev emplace_all : PoliciesValues → List Rule → PoliciesValues
unfolding emplace
emplace_all res [] = res
emplace_all res (r ∷ rs) = emplace_all (emplace res r) rs

-- The permissions of each role in turn.
unfoldable pub permissions_of :
    (Text → Method PoliciesValues) → List Text → PoliciesValues → Method PoliciesValues
unfolding emplace_all
permissions_of get [] res = pure res
permissions_of get (role ∷ roles) res = do
  permissions ← get role
  permissions_of get roles (emplace_all res (rules_of permissions))

abbrev permissions_in : List Text → List Text → Method PoliciesValues
unfolding permissions_of get_permissions_for_user get_permissions_for_user_in_domain
permissions_in roles [] = permissions_of get_permissions_for_user roles (vector [])
permissions_in roles (d ∷ []) =
    permissions_of (λ role. get_permissions_for_user_in_domain role d) roles (vector [])
permissions_in roles (d ∷ e ∷ more) = raise enforcer

abbrev then_permissions :
    Text → List Text → Result (List Text) × Enforcer → Result PoliciesValues × Enforcer
unfolding permissions_in
then_permissions user domain (err e, s) = (err e, s)
then_permissions user domain (ok roles, s) = permissions_in (user ∷ roles) domain s

unfoldable pub get_implicit_permissions_for_user :
    ℕ → Text → List Text → Enforcer → Option (Result PoliciesValues × Enforcer)
unfolding get_implicit_roles_for_user then_permissions
get_implicit_permissions_for_user n user domain s =
    elim (get_implicit_roles_for_user n user domain s) [
      | none ↦ none
      | some x ↦ some (then_permissions user domain x)
    ]
