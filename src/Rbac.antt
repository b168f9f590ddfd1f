-- ===== src/Rbac.antt =====
-- casbin/rbac/default_role_manager.cpp: `Role` and `DefaultRoleManager`. Every `Role` is made by
-- `NewRole` and owned by `all_roles` under its name, so a pointer to a role is its key there.
pub mod Edges
pub mod Invariant
pub mod Links
pub mod Reachable
pub mod Members
pub mod Implicit
pub mod Tests
use casbin_cpp.Base.{
  ℕ, zero, suc, ◌+◌, Bool, true, false, not, ◌&&◌, ◌||◌, Option, none, some, List, [], ◌∷◌, ◌++◌,
  Text, str, ◌==◌, if◌then◌else◌, leb, length, drop, any, Result, ok, err, rbac, out_of_range,
  ◌>>=◌,
}
use casbin_cpp.Base.Assoc.{Assoc, lookup, insert}

-- `class Role`; `roles` holds the keys of the roles that are pointed to.
pub record Role : Type 0 where
  pub name : Text
  pub roles : List Text

unfoldable pub new_role : Text → Role
new_role name = record { name = name; roles = [] }

-- `Role::AddRole` and `Role::HasDirectRole`
unfoldable pub has_direct_role : Role → Text → Bool
has_direct_role role name = any (λ r. r == name) role.roles

unfoldable pub add_role : Role → Text → Role
unfolding has_direct_role
add_role role other =
    if any (λ r. r == other) role.roles
    then role
    else record role { roles = role.roles ++ other ∷ [] }

-- `Role::DeleteRole`: after `erase` at index i the loop goes on at index i + 1, so the element
-- that moved into place i is not looked at.
unfoldable mutual
  pub erase_role : Text → List Text → List Text
  erase_role name [] = []
  erase_role name (r ∷ rs) =
      let rest = erase_role name rs in
      let skipped = skip_one name rs in if r == name then skipped else r ∷ rest

  pub skip_one : Text → List Text → List Text
  skip_one name [] = []
  skip_one name (r ∷ rs) = r ∷ erase_role name rs

unfoldable pub delete_role : Role → Text → Role
unfolding erase_role skip_one
delete_role role other = record role { roles = erase_role other role.roles }

-- `matching_func` is set exactly when `has_pattern` is.
pub record RoleManager : Type 0 where
  pub all_roles : Assoc Role
  pub matching_func : Option (Text → Text → Bool)
  pub max_hierarchy_level : ℕ

unfoldable pub new_role_manager : ℕ → RoleManager
new_role_manager level = record {
  all_roles = [];
  matching_func = none;
  max_hierarchy_level = level;
}

unfoldable pub add_matching_func : RoleManager → (Text → Text → Bool) → RoleManager
add_matching_func rm fn = record rm { matching_func = some fn }

unfoldable pub clear : RoleManager → RoleManager
clear rm = record rm { all_roles = [] }

-- The roles that a role points to.
unfoldable pub roles_of : Assoc Role → Text → List Text
unfolding lookup
roles_of all name = elim (lookup name all) [ none ↦ [] | some r ↦ r.roles ]

-- `Role::HasRole(name, hierarchy_level)` on the role `self`
unfoldable pub role_has_role : Assoc Role → ℕ → Text → Text → Bool
unfolding roles_of
role_has_role all zero self name = self == name
role_has_role all (suc level) self name =
    let below = any (λ r. role_has_role all level r name) (roles_of all self) in
    if self == name then true else below

-- the scan of `all_roles` under a pattern: is there a key that the name matches?
unfoldable pub matches_any : (Text → Text → Bool) → Text → Assoc Role → Bool
matches_any fn name [] = false
matches_any fn name ((key, r) ∷ all) = fn name key || matches_any fn name all

abbrev pub is_known : Text → Assoc Role → Bool
is_known name all = elim (lookup name all) [ none ↦ false | some r ↦ true ]

-- `DefaultRoleManager::HasRole`
unfoldable pub has_role : RoleManager → Text → Bool
unfolding matches_any lookup
has_role rm name = elim rm.matching_func [
  | none ↦ is_known name rm.all_roles
  | some fn ↦ matches_any fn name rm.all_roles
]

-- the loop of `CreateRole` over `all_roles`, which links `role` to each other key that matches
unfoldable pub link_matching : (Text → Text → Bool) → Role → Assoc Role → Role
unfolding add_role
link_matching fn role [] = role
link_matching fn role ((key, r) ∷ all) =
    link_matching fn
      (if fn role.name key && not (role.name == key) then add_role role key else role) all

unfoldable pub find_or_new : Text → Assoc Role → Role
unfolding lookup new_role
find_or_new name all = elim (lookup name all) [ none ↦ new_role name | some r ↦ r ]

-- `CreateRole` leaves the role of that name in `all_roles`; the pointer returned is `name`.
unfoldable pub create_role : RoleManager → Text → RoleManager
unfolding insert find_or_new link_matching
create_role rm name =
    let role = find_or_new name rm.all_roles in
    let all = insert name role rm.all_roles in
    elim rm.matching_func [
      | none ↦ record rm { all_roles = all }
      | some fn ↦ record rm { all_roles = insert name (link_matching fn role all) all }
    ]

-- The domain as a prefix of a name; more than one domain is refused.
unfoldable pub qualify : List Text → Text → Result Text
qualify [] name = ok name
qualify (d ∷ []) name = ok (d ++ str "::" ++ name)
qualify (d ∷ e ∷ rest) name = err rbac

-- `role1->AddRole(role2)` through the pointer `name1`
unfoldable pub update_role : (Role → Role) → Text → RoleManager → RoleManager
unfolding find_or_new insert
update_role f name rm = record rm {
  all_roles = insert name (f (find_or_new name rm.all_roles)) rm.all_roles;
}

unfoldable pub add_link : RoleManager → Text → Text → List Text → Result RoleManager
unfolding qualify create_role add_role update_role
add_link rm name1 name2 domain = do
  n1 ← qualify domain name1
  n2 ← qualify domain name2
  ok (update_role (λ r. add_role r n2) n1 (create_role (create_role rm n1) n2))

unfoldable pub delete_link : RoleManager → Text → Text → List Text → Result RoleManager
unfolding qualify create_role delete_role has_role update_role
delete_link rm name1 name2 domain = do
  n1 ← qualify domain name1
  n2 ← qualify domain name2
  if not (has_role rm n1) || not (has_role rm n2)
      then err rbac
      else ok (update_role (λ r. delete_role r n2) n1 (create_role (create_role rm n1) n2))

-- The answer, and the manager: under a pattern `CreateRole` adds links.
unfoldable pub has_link : RoleManager → Text → Text → List Text → Result (Bool × RoleManager)
unfolding qualify create_role has_role role_has_role
has_link rm name1 name2 domain = do
  n1 ← qualify domain name1
  n2 ← qualify domain name2
  if n1 == n2
      then ok (true, rm)
      else if not (has_role rm n1) || not (has_role rm n2)
      then ok (false, rm)
      else ok (
        role_has_role (create_role rm n1).all_roles rm.max_hierarchy_level n1 n2,
        create_role rm n1,
      )

-- `substr(domain[0].length() + 2, …)`, which throws when it starts past the end
unfoldable pub strip : List Text → Text → Result Text
strip [] name = ok name
strip (d ∷ rest) name =
    if leb (length d + 2) (length name) then ok (drop (length d + 2) name) else err out_of_range

unfoldable pub strip_all : List Text → List Text → Result (List Text)
unfolding strip
strip_all domain [] = ok []
strip_all domain (n ∷ ns) = do m ← strip domain n; ms ← strip_all domain ns; ok (m ∷ ms)

unfoldable pub get_roles : RoleManager → Text → List Text → Result (List Text × RoleManager)
unfolding qualify create_role has_role roles_of strip_all
get_roles rm name domain = do
  n ← qualify domain name
  if not (has_role rm n) then ok ([], rm) else (do
    names ← strip_all domain (roles_of (create_role rm n).all_roles n)
    ok (names, create_role rm n))

-- the loop of `GetUsers` over `all_roles`
pub users_of : Text → Assoc Role → List Text
unfolding has_direct_role
users_of name [] = []
users_of name ((key, role) ∷ all) =
    let rest = users_of name all in if has_direct_role role name then role.name ∷ rest else rest

unfoldable pub get_users : RoleManager → Text → List Text → Result (List Text)
unfolding qualify has_role users_of strip_all
get_users rm name domain = do
  n ← qualify domain name
  if not (has_role rm n) then err rbac else strip_all domain (users_of n rm.all_roles)
