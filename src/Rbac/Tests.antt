-- ===== src/Rbac/Tests.antt =====
-- The role manager, run on a small hierarchy: alice has the role admin, which has the role root.
use casbin_cpp.Base.{
  Bool, true, false, none, some, List, Distinct, arith, [], ◌∷◌, Text, str, ◌==◌, ok, err, rbac,
  ◌≡◌, refl, ◌↔◌, ◌⊎◌, In, ◌&&◌,
}
use casbin_cpp.Rbac.{
  RoleManager, roles_of, add_link, delete_link, has_link, get_roles, get_users, new_role_manager,
  is_known, qualify,
}
use casbin_cpp.Rbac.Edges.{Edge}
use casbin_cpp.Rbac.Invariant.{IsWellFormed}
use casbin_cpp.Rbac.Links.{
  Reach, here, next, adding, Reach-IsWellFormed, add_link_edges, delete_link_edges,
}
use casbin_cpp.Rbac.Reachable.{Chain, has_link_reachable}
use casbin_cpp.Rbac.Implicit.{implicit_roles}
use casbin_cpp.Rbac.Implicit.Search.{Reaches, implicit_roles_found}
use casbin_cpp.Rbac.Members.{get_users_edges, get_roles_edges}

abbrev alice : Text
alice = str "alice"

abbrev admin : Text
admin = str "admin"

abbrev root : Text
root = str "root"

abbrev one_link : RoleManager
one_link = record {
  all_roles =
      (alice, record { name = alice; roles = admin ∷ [] })
      ∷ (admin, record { name = admin; roles = [] })
      ∷ [];
  matching_func = none;
  max_hierarchy_level = 10;
}

abbrev sample : RoleManager
sample = record {
  all_roles =
      (alice, record { name = alice; roles = admin ∷ [] })
      ∷ (admin, record { name = admin; roles = root ∷ [] })
      ∷ (root, record { name = root; roles = [] })
      ∷ [];
  matching_func = none;
  max_hierarchy_level = 10;
}

first_link : add_link (new_role_manager 10) alice admin [] ≡ ok one_link
unfolding add_link new_role_manager ◌==◌
first_link = refl

second_link : add_link one_link admin root [] ≡ ok sample
unfolding add_link ◌==◌
second_link = refl

history : Reach (new_role_manager 10) sample
history = next (next here (adding alice admin [] first_link)) (adding admin root [] second_link)

Reach-IsWellFormed_example : IsWellFormed sample.all_roles
Reach-IsWellFormed_example = Reach-IsWellFormed 10 sample history

sample-IsWellFormed : IsWellFormed sample.all_roles
sample-IsWellFormed = Reach-IsWellFormed 10 sample history

add_link_edges_example :
    (rm' : RoleManager) × (add_link sample alice root [] ≡ ok rm')
    × ((a b : Text)
        → Edge rm'.all_roles a b ↔ (Edge sample.all_roles a b ⊎ ((a ≡ alice) × (b ≡ root))))
unfolding qualify
add_link_edges_example = add_link_edges sample refl alice root alice root [] refl refl

delete_link_edges_example :
    ((is_known alice sample.all_roles && is_known admin sample.all_roles) ≡ false
      → delete_link sample alice admin [] ≡ err rbac)
    × ((is_known alice sample.all_roles && is_known admin sample.all_roles) ≡ true
        → (rm' : RoleManager) × (delete_link sample alice admin [] ≡ ok rm')
          × ((a b : Text)
              → Edge rm'.all_roles a b
                ↔ (Edge sample.all_roles a b × (¬ ((a ≡ alice) × (b ≡ admin))))))
unfolding qualify
delete_link_edges_example =
    delete_link_edges sample refl alice admin alice admin [] refl refl sample-IsWellFormed

has_link_reachable_example :
    (b : Bool) × (rm' : RoleManager) × (has_link sample alice root [] ≡ ok (b, rm'))
    × ((b ≡ true) ↔ Chain sample.all_roles 10 alice root)
    × ((a : Text) → roles_of rm'.all_roles a ≡ roles_of sample.all_roles a)
unfolding qualify
has_link_reachable_example =
    has_link_reachable sample alice root alice root [] refl sample-IsWellFormed refl refl

get_users_edges_example :
    (is_known root sample.all_roles ≡ false → get_users sample root [] ≡ err rbac)
    × (is_known root sample.all_roles ≡ true
        → (names : List Text) × (get_users sample root [] ≡ ok names)
          × ((u : Text) → In u names ↔ Edge sample.all_roles u root))
get_users_edges_example = get_users_edges sample refl sample-IsWellFormed root

get_roles_edges_example :
    (names : List Text) × (rm' : RoleManager) × (get_roles sample alice [] ≡ ok (names, rm'))
    × ((r : Text) → In r names ↔ Edge sample.all_roles alice r)
    × ((a : Text) → roles_of rm'.all_roles a ≡ roles_of sample.all_roles a)
get_roles_edges_example = get_roles_edges sample refl sample-IsWellFormed alice

runs :
    (has_link sample alice root [] ≡ ok (true, sample))
    × (has_link sample root alice [] ≡ ok (false, sample))
    × (get_users sample root [] ≡ ok (admin ∷ []))
    × (delete_link sample alice (str "nobody") [] ≡ err rbac)
unfolding has_link get_users delete_link ◌==◌
runs = (refl, refl, refl, refl)

domains :
    (r : RoleManager) × (add_link (new_role_manager 10) alice admin (str "d1" ∷ []) ≡ ok r)
    × (has_link r alice admin (str "d1" ∷ []) ≡ ok (true, r))
    × (has_link r alice admin (str "d2" ∷ []) ≡ ok (false, r))
    × (has_link r alice admin (str "d1" ∷ str "d2" ∷ []) ≡ err rbac)
unfolding add_link has_link new_role_manager ◌==◌
domains = (
  record {
    all_roles =
        (str "d1::alice", record { name = str "d1::alice"; roles = str "d1::admin" ∷ [] })
        ∷ (str "d1::admin", record { name = str "d1::admin"; roles = [] })
        ∷ [];
    matching_func = none;
    max_hierarchy_level = 10;
  },
  refl,
  refl,
  refl,
  refl,
)

implicit_roles_found_example :
    (roles : List Text) × (implicit_roles 5 alice [] sample ≡ some (ok roles, sample))
    × Distinct roles
    × ((r : Text) → In r roles ↔ (Reaches sample.all_roles alice r × (¬ (r ≡ alice))))
implicit_roles_found_example =
    implicit_roles_found sample refl sample-IsWellFormed alice 5 (omega arith)

implicit_roles_test : implicit_roles 5 alice [] sample ≡ some (ok (admin ∷ root ∷ []), sample)
unfolding implicit_roles
implicit_roles_test = refl
