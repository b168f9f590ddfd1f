-- ===== src/Rbac/Members.antt =====
-- `GetRoles` and `GetUsers` without a matching function list the two ends of the edges.
use casbin_cpp.Base.{
  true, false, none, List, [], ◌∷◌, Text, ◌==◌, ==_iff, ==_refl, In, any_of_In, In-any, ok, err,
  rbac, ◌≡◌, refl, ◌↔◌, inl, inr, arith, Bool-cases, Option-cases, sym, ap, ◌∙◌, subst,
}
use casbin_cpp.Base.Assoc.{Assoc, lookup, Entry, Entry-lookup, lookup_of_Entry}
use casbin_cpp.Rbac.{
  Role, RoleManager, roles_of, create_role, qualify, is_known, has_role, get_roles, get_users,
  users_of, strip_all, strip, has_direct_role,
}
use casbin_cpp.Rbac.Edges.{Edge, roles_of-create_role}
use casbin_cpp.Rbac.Reachable.{Edge-known}
use casbin_cpp.Rbac.Invariant.{IsWellFormed}

pub strip_all-nil : (names : List Text) → strip_all [] names ≡ ok names
unfolding strip_all strip
strip_all-nil [] = refl
strip_all-nil (n ∷ ns) = ground (arith, strip_all-nil ns)

has_direct_role_iff : (r : Role) (n : Text) → (has_direct_role r n ≡ true) ↔ In n r.roles
unfolding has_direct_role
has_direct_role_iff r n = (
  λ h.
      let (x, i, e) = In-any (λ x. x == n) r.roles h in
      subst (λ y. In y r.roles) ((==_iff x n).0 e) i,
  λ i. any_of_In (λ x. x == n) n r.roles i (==_refl n),
)

In-users_of :
    (n u : Text) (all : Assoc Role)
    → In u (users_of n all)
      ↔ ((k : Text) × (r : Role) × Entry k r all × In n r.roles × (r.name ≡ u))
unfolding users_of
In-users_of n u [] = ((λ h. absurd h), (λ h. absurd h.2))
In-users_of n u ((k, r) ∷ all) = elim (Bool-cases (has_direct_role r n)) [
  | inl e ↦ rw e (
    λ h. elim h [
      | inl s ↦ (k, r, inl (refl, refl), (has_direct_role_iff r n).0 e, sym s)
      | inr j ↦ let (k', r', en, i, s) = (In-users_of n u all).0 j in (k', r', inr en, i, s)
    ],
    λ (k', r', en, i, s). elim en [
      | inl (p, q) ↦ inl (sym s ∙ ap (λ (x : Role). x.name) q)
      | inr later ↦ inr ((In-users_of n u all).1 (k', r', later, i, s))
    ],
  )
  | inr e ↦ rw e (
    λ j. let (k', r', en, i, s) = (In-users_of n u all).0 j in (k', r', inr en, i, s),
    λ (k', r', en, i, s). elim en [
      | inl (p, q) ↦ cc (e, (has_direct_role_iff r n).1 (subst (λ (x : Role). In n x.roles) q i))
      | inr later ↦ (In-users_of n u all).1 (k', r', later, i, s)
    ],
  )
]

users_of-Edge :
    (n u : Text) (all : Assoc Role) → IsWellFormed all → In u (users_of n all) ↔ Edge all u n
unfolding roles_of
users_of-Edge n u all w = (
  λ h.
      let (k, r, en, i, s) = (In-users_of n u all).0 h in
      let found = lookup_of_Entry k r all w.unique en in
      let key : k ≡ u = sym (w.at_key k r found).named ∙ s in
      subst (λ x. Edge all x n) key (rw (found, roles_of) i),
  λ h. elim (Option-cases (lookup u all)) [
    | inl e ↦ absurd (rw (e, roles_of) at h)
    | inr (r, e) ↦
        (In-users_of n u all).1
          (u, r, Entry-lookup u r all e, rw (e, roles_of) at h, (w.at_key u r e).named)
  ],
)

module _ (rm : RoleManager) (plain : rm.matching_func ≡ none) (w : IsWellFormed rm.all_roles) where
  -- Without a matching function or a domain, on a well-formed manager, `GetUsers` of a role raises
  -- the role manager's exception when the role is unknown, and otherwise returns names: exactly
  -- those that have an edge to the role.
  pub get_users_edges :
      (n : Text)
      → (is_known n rm.all_roles ≡ false → get_users rm n [] ≡ err rbac)
        × (is_known n rm.all_roles ≡ true
            → (names : List Text) × (get_users rm n [] ≡ ok names)
              × ((u : Text) → In u names ↔ Edge rm.all_roles u n))
  unfolding get_users has_role qualify
  get_users_edges n = (
    λ k. ground arith,
    λ k. (
      users_of n rm.all_roles,
      ground (arith, strip_all-nil (users_of n rm.all_roles)),
      λ u. users_of-Edge n u rm.all_roles w,
    ),
  )

  -- Without a matching function or a domain, `GetRoles` of any name returns, known or not: it
  -- lists exactly the names to which it has an edge, and no edge of the manager changes.
  pub get_roles_edges :
      (n : Text)
      → (names : List Text) × (rm' : RoleManager) × (get_roles rm n [] ≡ ok (names, rm'))
        × ((r : Text) → In r names ↔ Edge rm.all_roles n r)
        × ((a : Text) → roles_of rm'.all_roles a ≡ roles_of rm.all_roles a)
  unfolding get_roles has_role qualify
  get_roles_edges n = elim (Bool-cases (is_known n rm.all_roles)) [
    | inl k ↦ (
      roles_of (create_role rm n).all_roles n,
      create_role rm n,
      ground (arith, strip_all-nil (roles_of (create_role rm n).all_roles n)),
      λ r. subst (λ l. In r l ↔ Edge rm.all_roles n r) (sym (kept n)) (λ i. i, λ i. i),
      kept,
    )
    | inr k ↦ (
      [],
      rm,
      ground arith,
      λ r. (λ i. absurd i, λ i. cc (Edge-known rm.all_roles n r i)),
      λ a. refl,
    )
  ]
    where
      kept : (a : Text) → roles_of (create_role rm n).all_roles a ≡ roles_of rm.all_roles a
      kept = roles_of-create_role rm n plain
