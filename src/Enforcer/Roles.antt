-- ===== src/Enforcer/Roles.antt =====
-- casbin/rbac_api.cpp and rbac_api_with_domains.cpp: roles and permissions of users.
use casbin_cpp.Base.{
  ℕ, Bool, false, ◌||◌, none, some, List, [], ◌∷◌, Text, str, ◌==◌, any, get_elem?, set, Result, ok,
  err, undefined,
}
use casbin_cpp.Rbac
use casbin_cpp.Rbac.{RoleManager}
use casbin_cpp.Policy.{PoliciesValues}
use casbin_cpp.Util.Arrays.{join_slice}
use casbin_cpp.Model
use casbin_cpp.Enforcer.{Method, pure, ◌>>=◌, of_model}
use casbin_cpp.Enforcer.Management

-- A call on the role manager of `m["g"].assertion_map["g"]`, which need not be the enforcer's; a
-- null pointer is undefined.
abbrev pub ask_manager : {A : Type 0} → ℕ → (RoleManager → Result (A × RoleManager)) → Method A
ask_manager address f s = elim (get_elem? s.managers address) [
  | none ↦ (err undefined, s)
  | some m ↦ elim (f m) [
    | err e ↦ (err e, s)
    | ok (a, m') ↦ (ok a, record s { managers = set s.managers address m' })
  ]
]

unfoldable pub with_g_manager : {A : Type 0} → (RoleManager → Result (A × RoleManager)) → Method A
with_g_manager f = do
  a ← of_model (λ m. Model.assertion m (str "g") (str "g"))
  elim a.rm [ none ↦ (λ s. (err undefined, s)) | some address ↦ ask_manager address f ]

-- A call that leaves the manager as it is.
abbrev reading : {A : Type 0} → (RoleManager → Result A) → RoleManager → Result (A × RoleManager)
reading f m = elim (f m) [ ok a ↦ ok (a, m) | err e ↦ err e ]

unfoldable pub get_roles_for_user : Text → List Text → Method (List Text)
unfolding with_g_manager
get_roles_for_user name domain = with_g_manager (λ m. Rbac.get_roles m name domain)

unfoldable pub get_users_for_role : Text → List Text → Method (List Text)
unfolding with_g_manager
get_users_for_role name domain = with_g_manager (reading (λ m. Rbac.get_users m name domain))

unfoldable pub has_role_for_user : Text → Text → Method Bool
unfolding get_roles_for_user
has_role_for_user name role = do
  roles ← get_roles_for_user name []
  pure (any (λ r. r == role) roles)

unfoldable pub add_role_for_user : Text → Text → Method Bool
add_role_for_user user role = Management.add_grouping_policy (user ∷ role ∷ [])

-- The loop of `AddRolesForUser`; `f` is true once a role was added.
unfoldable pub add_roles_from : Bool → Text → List Text → Method Bool
add_roles_from f user [] = pure f
add_roles_from f user (role ∷ roles) = do
  b ← Management.add_grouping_policy (user ∷ role ∷ [])
  add_roles_from (f || b) user roles

unfoldable pub add_roles_for_user : Text → List Text → Method Bool
unfolding add_roles_from
add_roles_for_user user roles = add_roles_from false user roles

unfoldable pub delete_role_for_user : Text → Text → Method Bool
delete_role_for_user user role = Management.remove_grouping_policy (user ∷ role ∷ [])

unfoldable pub delete_roles_for_user : Text → Method Bool
delete_roles_for_user user = Management.remove_filtered_grouping_policy 0 (user ∷ [])

unfoldable pub delete_user : Text → Method Bool
delete_user user = do
  res1 ← Management.remove_filtered_grouping_policy 0 (user ∷ [])
  res2 ← Management.remove_filtered_policy 0 (user ∷ [])
  pure (res1 || res2)

unfoldable pub delete_role : Text → Method Bool
delete_role role = do
  res1 ← Management.remove_filtered_grouping_policy 1 (role ∷ [])
  res2 ← Management.remove_filtered_policy 0 (role ∷ [])
  pure (res1 || res2)

unfoldable pub delete_permission : List Text → Method Bool
delete_permission permission = Management.remove_filtered_policy 1 permission

unfoldable pub add_permission_for_user : Text → List Text → Method Bool
add_permission_for_user user permission = Management.add_policy (join_slice user permission)

unfoldable pub delete_permission_for_user : Text → List Text → Method Bool
delete_permission_for_user user permission = Management.remove_policy (join_slice user permission)

unfoldable pub delete_permissions_for_user : Text → Method Bool
delete_permissions_for_user user = Management.remove_filtered_policy 0 (user ∷ [])

unfoldable pub get_permissions_for_user : Text → Method PoliciesValues
get_permissions_for_user user = Management.get_filtered_policy 0 (user ∷ [])

unfoldable pub has_permission_for_user : Text → List Text → Method Bool
has_permission_for_user user permission = Management.has_policy (join_slice user permission)

unfoldable pub get_users_for_role_in_domain : Text → Text → Method (List Text)
unfolding with_g_manager
get_users_for_role_in_domain name domain =
    with_g_manager (reading (λ m. Rbac.get_users m name (domain ∷ [])))

unfoldable pub get_roles_for_user_in_domain : Text → Text → Method (List Text)
unfolding with_g_manager
get_roles_for_user_in_domain name domain = with_g_manager (λ m. Rbac.get_roles m name (domain ∷ []))

unfoldable pub get_permissions_for_user_in_domain : Text → Text → Method PoliciesValues
get_permissions_for_user_in_domain user domain =
    Management.get_filtered_policy 0 (user ∷ domain ∷ [])

unfoldable pub add_role_for_user_in_domain : Text → Text → Text → Method Bool
add_role_for_user_in_domain user role domain =
    Management.add_grouping_policy (user ∷ role ∷ domain ∷ [])

unfoldable pub delete_role_for_user_in_domain : Text → Text → Text → Method Bool
delete_role_for_user_in_domain user role domain =
    Management.remove_grouping_policy (user ∷ role ∷ domain ∷ [])
