-- ===== src/Rbac/Implicit.antt =====
-- `GetImplicitRolesForUser` of casbin/rbac_api.cpp as a search of the role manager.
pub mod Search
use casbin_cpp.Base.{
  ℕ, zero, suc, Option, none, some, List, [], ◌∷◌, ◌++◌, Text, ◌==◌, if◌then◌else◌, any, Result, ok,
  err,
}
use casbin_cpp.Rbac.{RoleManager, get_roles}

-- The roles that `role_set` lacks, each once; it is a list of the names that are keys.
abbrev pub fresh : List Text → List Text → List Text
unfolding ◌==◌
fresh [] role_set = []
fresh (r ∷ roles) role_set =
    let old = fresh roles role_set in
    let new = fresh roles (role_set ++ r ∷ []) in
    if any (λ x. x == r) role_set then old else r ∷ new

-- The loop over the queue `q`, with so many rounds left.
unfoldable pub implicit_rounds :
    ℕ
    → List Text
    → List Text
    → List Text
    → List Text
    → RoleManager
    → Option (Result (List Text) × RoleManager)
unfolding get_roles fresh
implicit_rounds zero domain q res role_set rm = none
implicit_rounds (suc n) domain [] res role_set rm = some (ok res, rm)
implicit_rounds (suc n) domain (name ∷ q) res role_set rm = elim (get_roles rm name domain) [
  | err e ↦ some (err e, rm)
  | ok (roles, rm') ↦
      implicit_rounds n domain (q ++ fresh roles role_set) (res ++ fresh roles role_set)
        (role_set ++ fresh roles role_set) rm'
]

unfoldable pub implicit_roles :
    ℕ → Text → List Text → RoleManager → Option (Result (List Text) × RoleManager)
unfolding implicit_rounds
implicit_roles n name domain rm = implicit_rounds n domain (name ∷ []) [] (name ∷ []) rm
