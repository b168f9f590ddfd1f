-- ===== src/Rbac/Reachable.antt =====
-- `HasLink` without a matching function: reachability along at most `max_hierarchy_level` edges.
use casbin_cpp.Base.{
  ℕ, zero, suc, Bool, true, false, none, some, List, [], Text, ◌==◌, ==_iff, any, In, any_of_In,
  In-any, ok, ◌≡◌, refl, ◌↔◌, ◌⊎◌, inl, inr, arith, Bool-cases, Option-cases, sym, subst, ◌&&◌,
}
use casbin_cpp.Base.Assoc.{Assoc, lookup}
use casbin_cpp.Rbac.{
  Role, RoleManager, roles_of, create_role, has_link, qualify, is_known, has_role, role_has_role,
}
use casbin_cpp.Rbac.Edges.{Edge, roles_of-create_role}
use casbin_cpp.Rbac.Invariant.{IsWellFormed}

-- A path of at most so many edges.
pub data Chain (all : Assoc Role) : ℕ → Text → Text → Type 0 where
  stay : {l : ℕ} {a b : Text} → a ≡ b → Chain all l a b
  step : {l : ℕ} {a m b : Text} → Edge all a m → Chain all l m b → Chain all (suc l) a b

module _ (all : Assoc Role) where
  pub role_has_role_sound : (l : ℕ) (a b : Text) → role_has_role all l a b ≡ true → Chain all l a b
  unfolding role_has_role
  role_has_role_sound zero a b h = stay ((==_iff a b).0 h)
  role_has_role_sound (suc l) a b h = elim (Bool-cases (a == b)) [
    | inl e ↦ stay ((==_iff a b).0 e)
    | inr e ↦
        let found : any (λ r. role_has_role all l r b) (roles_of all a) ≡ true = ground arith in
        let (m, i, q) = In-any (λ r. role_has_role all l r b) (roles_of all a) found in
        step i (role_has_role_sound l m b q)
  ]

  pub role_has_role_complete :
      {l : ℕ} {a b : Text} → Chain all l a b → role_has_role all l a b ≡ true
  unfolding role_has_role
  role_has_role_complete (stay {l} {a} {b} e) = same l a b e
    where
      same : (l : ℕ) (a b : Text) → a ≡ b → role_has_role all l a b ≡ true
      same zero a b e = (==_iff a b).1 e
      same (suc l) a b e = rw ((==_iff a b).1 e)
  role_has_role_complete (step {l} {a} {m} {b} i c) =
      let found : any (λ r. role_has_role all l r b) (roles_of all a) ≡ true =
        any_of_In (λ r. role_has_role all l r b) m (roles_of all a) i (role_has_role_complete c) in
      ground arith

  pub Edge-known : (a b : Text) → Edge all a b → is_known a all ≡ true
  unfolding roles_of
  Edge-known a b i = elim (Option-cases (lookup a all)) [
    | inl e ↦ absurd (subst (λ o. In b (elim o [ none ↦ [] | some r ↦ r.roles ])) e i)
    | inr (r, e) ↦ rw (e, is_known)
  ]

  pub Edge-target : (a b : Text) → IsWellFormed all → Edge all a b → is_known b all ≡ true
  unfolding roles_of
  Edge-target a b w i = elim (Option-cases (lookup a all)) [
    | inl e ↦ absurd (subst (λ o. In b (elim o [ none ↦ [] | some r ↦ r.roles ])) e i)
    | inr (r, e) ↦
        (w.at_key a r e).targets b (subst (λ o. In b (elim o [ none ↦ [] | some r ↦ r.roles ])) e i)
  ]

  Chain-known :
      {l : ℕ} {a b : Text}
      → IsWellFormed all
      → Chain all l a b
      → (a ≡ b) ⊎ ((is_known a all ≡ true) × (is_known b all ≡ true))
  Chain-known w (stay e) = inl e
  Chain-known w (step {l} {a} {m} {b} i c) = elim (Chain-known w c) [
    | inl e ↦ inr (Edge-known a m i, subst (λ x. is_known x all ≡ true) e (Edge-target a m w i))
    | inr k ↦ inr (Edge-known a m i, k.1)
  ]

Chain-same :
    (all all' : Assoc Role)
    → ((a : Text) → roles_of all' a ≡ roles_of all a)
    → {l : ℕ} {a b : Text} → Chain all' l a b
    → Chain all l a b
Chain-same all all' h (stay e) = stay e
Chain-same all all' h (step {l} {a} {m} {b} i c) =
    step (subst (In m) (h a) i) (Chain-same all all' h c)

-- Without a matching function, for at most one domain, on a well-formed manager, `HasLink`
-- returns. It answers true exactly when the second qualified name can be reached from the first
-- along at most `max_hierarchy_level` edges, and no edge of the manager changes.
pub has_link_reachable :
    (rm : RoleManager) (n1 n2 q1 q2 : Text) (domain : List Text)
    → rm.matching_func ≡ none
    → IsWellFormed rm.all_roles
    → qualify domain n1 ≡ ok q1
    → qualify domain n2 ≡ ok q2
    → (b : Bool) × (rm' : RoleManager) × (has_link rm n1 n2 domain ≡ ok (b, rm'))
      × ((b ≡ true) ↔ Chain rm.all_roles rm.max_hierarchy_level q1 q2)
      × ((a : Text) → roles_of rm'.all_roles a ≡ roles_of rm.all_roles a)
unfolding has_link has_role
has_link_reachable rm n1 n2 q1 q2 domain plain w e1 e2 = elim (Bool-cases (q1 == q2)) [
  | inl e ↦ (true, rm, ground arith, (λ _. stay ((==_iff q1 q2).0 e), λ _. refl), λ a. refl)
  | inr e ↦ elim (Bool-cases (is_known q1 all && is_known q2 all)) [
    | inl k ↦ (
      role_has_role all' rm.max_hierarchy_level q1 q2,
      create_role rm q1,
      ground arith,
      (
        λ h. Chain-same all all' kept (role_has_role_sound all' rm.max_hierarchy_level q1 q2 h),
        λ c. role_has_role_complete all' (Chain-same all' all (λ a. sym (kept a)) c),
      ),
      kept,
    )
    | inr k ↦ (
      false,
      rm,
      ground arith,
      (
        λ h. cc,
        λ c. elim (Chain-known all w c) [
          | inl s ↦ cc (e, (==_iff q1 q2).1 s)
          | inr (a, b) ↦ ground arith
        ],
      ),
      λ a. refl,
    )
  ]
]
  where
    all : Assoc Role
    all = rm.all_roles

    all' : Assoc Role
    all' = (create_role rm q1).all_roles

    kept : (a : Text) → roles_of all' a ≡ roles_of all a
    kept = roles_of-create_role rm q1 plain
