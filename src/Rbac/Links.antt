-- ===== src/Rbac/Links.antt =====
-- The operations of the role manager: the invariant over every history, what the link operations
-- do to the edges, and `HasLink` as bounded reachability.
use casbin_cpp.Base.{
  ℕ, Bool, true, false, none, List, [], Text, Distinct, ok, err, rbac, ◌≡◌, refl, ◌↔◌, ◌⊎◌, inl,
  inr, arith, Option-cases, subst, ◌&&◌, first_step,
}
use casbin_cpp.Base.Assoc.{lookup}
use casbin_cpp.Rbac.{
  RoleManager, roles_of, create_role, add_role, delete_role, update_role, add_link, delete_link,
  has_link, get_roles, qualify, is_known, has_role, new_role_manager, clear, add_matching_func,
}
use casbin_cpp.Rbac.Edges.{Edge, Edge-add, Edge-delete}
use casbin_cpp.Rbac.Invariant.{
  IsWellFormed, create_role-IsWellFormed, added-IsWellFormed, deleted-IsWellFormed,
}

-- One call of the public interface that returned, and the manager that it left.
pub data Step : RoleManager → RoleManager → Type 0 where
  clearing : (rm : RoleManager) → Step rm (clear rm)
  matching : (rm : RoleManager) (fn : Text → Text → Bool) → Step rm (add_matching_func rm fn)
  adding :
      {rm rm' : RoleManager} (n1 n2 : Text) (domain : List Text)
      → add_link rm n1 n2 domain ≡ ok rm'
      → Step rm rm'
  deleting :
      {rm rm' : RoleManager} (n1 n2 : Text) (domain : List Text)
      → delete_link rm n1 n2 domain ≡ ok rm'
      → Step rm rm'
  asking :
      {rm rm' : RoleManager} (b : Bool) (n1 n2 : Text) (domain : List Text)
      → has_link rm n1 n2 domain ≡ ok (b, rm')
      → Step rm rm'
  listing :
      {rm rm' : RoleManager} (names : List Text) (n : Text) (domain : List Text)
      → get_roles rm n domain ≡ ok (names, rm')
      → Step rm rm'

pub data Reach (rm : RoleManager) : RoleManager → Type 0 where
  here : Reach rm rm
  next : {t u : RoleManager} → Reach rm t → Step t u → Reach rm u

add_link-IsWellFormed :
    (rm rm' : RoleManager) (n1 n2 : Text) (domain : List Text)
    → IsWellFormed rm.all_roles
    → add_link rm n1 n2 domain ≡ ok rm'
    → IsWellFormed rm'.all_roles
unfolding add_link
add_link-IsWellFormed rm rm' n1 n2 domain w h =
    let (q1, e1, h1) = first_step (qualify domain n1) _ h in
    let (q2, e2, h2) = first_step (qualify domain n2) _ h1 in
    let same : update_role (λ r. add_role r q2) q1 (create_role (create_role rm q1) q2) ≡ rm' =
      cc h2 in
    subst (λ m. IsWellFormed m.all_roles) same (added-IsWellFormed rm w q1 q2)

delete_link-IsWellFormed :
    (rm rm' : RoleManager) (n1 n2 : Text) (domain : List Text)
    → IsWellFormed rm.all_roles
    → delete_link rm n1 n2 domain ≡ ok rm'
    → IsWellFormed rm'.all_roles
unfolding delete_link
delete_link-IsWellFormed rm rm' n1 n2 domain w h =
    let (q1, e1, h1) = first_step (qualify domain n1) _ h in
    let (q2, e2, h2) = first_step (qualify domain n2) _ h1 in
    let same : update_role (λ r. delete_role r q2) q1 (create_role (create_role rm q1) q2) ≡ rm' =
      ground arith in
    subst (λ m. IsWellFormed m.all_roles) same (deleted-IsWellFormed rm w q1 q2)

has_link-IsWellFormed :
    (rm rm' : RoleManager) (b : Bool) (n1 n2 : Text) (domain : List Text)
    → IsWellFormed rm.all_roles
    → has_link rm n1 n2 domain ≡ ok (b, rm')
    → IsWellFormed rm'.all_roles
unfolding has_link
has_link-IsWellFormed rm rm' b n1 n2 domain w h =
    let (q1, e1, h1) = first_step (qualify domain n1) _ h in
    let (q2, e2, h2) = first_step (qualify domain n2) _ h1 in
    let either : (rm ≡ rm') ⊎ (create_role rm q1 ≡ rm') = ground arith in
    elim either [
      | inl e ↦ subst (λ m. IsWellFormed m.all_roles) e w
      | inr e ↦ subst (λ m. IsWellFormed m.all_roles) e (create_role-IsWellFormed rm q1 w)
    ]

get_roles-IsWellFormed :
    (rm rm' : RoleManager) (names : List Text) (n : Text) (domain : List Text)
    → IsWellFormed rm.all_roles
    → get_roles rm n domain ≡ ok (names, rm')
    → IsWellFormed rm'.all_roles
unfolding get_roles
get_roles-IsWellFormed rm rm' names n domain w h =
    let (q, e, h1) = first_step (qualify domain n) _ h in
    let either : (rm ≡ rm') ⊎ (create_role rm q ≡ rm') = ground arith in
    elim either [
      | inl s ↦ subst (λ m. IsWellFormed m.all_roles) s w
      | inr s ↦ subst (λ m. IsWellFormed m.all_roles) s (create_role-IsWellFormed rm q w)
    ]

IsWellFormed-nil : IsWellFormed []
unfolding lookup
IsWellFormed-nil = record { unique = tt; at_key = λ k r e. cc }

Step-IsWellFormed :
    {t u : RoleManager} → Step t u → IsWellFormed t.all_roles → IsWellFormed u.all_roles
unfolding clear add_matching_func
Step-IsWellFormed (clearing rm) w = IsWellFormed-nil
Step-IsWellFormed (matching rm fn) w = w
Step-IsWellFormed (adding {rm} {rm'} n1 n2 domain h) w =
    add_link-IsWellFormed rm rm' n1 n2 domain w h
Step-IsWellFormed (deleting {rm} {rm'} n1 n2 domain h) w =
    delete_link-IsWellFormed rm rm' n1 n2 domain w h
Step-IsWellFormed (asking {rm} {rm'} b n1 n2 domain h) w =
    has_link-IsWellFormed rm rm' b n1 n2 domain w h
Step-IsWellFormed (listing {rm} {rm'} names n domain h) w =
    get_roles-IsWellFormed rm rm' names n domain w h

Reach-keeps : {t u : RoleManager} → IsWellFormed t.all_roles → Reach t u → IsWellFormed u.all_roles
Reach-keeps w here = w
Reach-keeps w (next r s) = Step-IsWellFormed s (Reach-keeps w r)

-- In every role manager that the constructor and any sequence of calls that return produce, with
-- or without a matching function: no key of the table is repeated, each role is stored under its
-- own name, no role points twice to one role, and each role that is pointed to is in the table.
pub Reach-IsWellFormed :
    (level : ℕ) (rm : RoleManager) → Reach (new_role_manager level) rm → IsWellFormed rm.all_roles
unfolding new_role_manager
Reach-IsWellFormed level rm r = Reach-keeps IsWellFormed-nil r

pub Distinct-roles_of :
    (rm : RoleManager) → IsWellFormed rm.all_roles → (a : Text) → Distinct (roles_of rm.all_roles a)
unfolding roles_of
Distinct-roles_of rm w a = elim (Option-cases (lookup a rm.all_roles)) [
  | inl e ↦ rw (e, roles_of) tt
  | inr (r, e) ↦ rw (e, roles_of) (w.at_key a r e).distinct
]

module _ (rm : RoleManager) (plain : rm.matching_func ≡ none) (n1 n2 q1 q2 : Text)
    (domain : List Text) (e1 : qualify domain n1 ≡ ok q1) (e2 : qualify domain n2 ≡ ok q2) where
  -- Without a matching function, for at most one domain, `AddLink` returns, and the manager that
  -- it leaves has the edges that were there and the one from the first qualified name to the
  -- second, and no other.
  pub add_link_edges :
      (rm' : RoleManager) × (add_link rm n1 n2 domain ≡ ok rm')
      × ((a b : Text) → Edge rm'.all_roles a b ↔ (Edge rm.all_roles a b ⊎ ((a ≡ q1) × (b ≡ q2))))
  unfolding add_link
  add_link_edges = (
    update_role (λ r. add_role r q2) q1 (create_role (create_role rm q1) q2),
    rw (e1, e2) refl,
    Edge-add rm plain q1 q2,
  )

  abbrev both_known : Bool
  both_known = is_known q1 rm.all_roles && is_known q2 rm.all_roles

  -- Without a matching function, for at most one domain, on a well-formed manager, `DeleteLink`
  -- raises the role manager's exception when one of the qualified names is unknown. Otherwise it
  -- returns, and exactly the edge from the first name to the second is gone.
  pub delete_link_edges :
      IsWellFormed rm.all_roles
      → (both_known ≡ false → delete_link rm n1 n2 domain ≡ err rbac)
        × (both_known ≡ true
            → (rm' : RoleManager) × (delete_link rm n1 n2 domain ≡ ok rm')
              × ((a b : Text)
                  → Edge rm'.all_roles a b ↔ (Edge rm.all_roles a b × (¬ ((a ≡ q1) × (b ≡ q2))))))
  unfolding delete_link has_role
  delete_link_edges w = (
    λ k. ground arith,
    λ k. (
      update_role (λ r. delete_role r q2) q1 (create_role (create_role rm q1) q2),
      ground arith,
      λ a b. Edge-delete rm plain q1 q2 a b (Distinct-roles_of rm w q1),
    ),
  )
