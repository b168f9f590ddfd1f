-- ===== src/Rbac/Invariant.antt =====
-- The well-formedness of a role manager, and that every operation keeps it.
use casbin_cpp.Base.{
  Bool, true, some, List, [], ◌∷◌, ◌++◌, Text, ◌==◌, ==_iff, ==_refl, if◌then◌else◌, any, In,
  Distinct, In-concat, any_of_In, ◌≡◌, refl, ◌⊎◌, inl, inr, arith, Bool-cases, Option-cases, sym,
  subst, not, ◌&&◌,
}
use casbin_cpp.Base.Assoc.{Assoc, lookup, insert, lookup-insert, keys, Distinct-insert}
use casbin_cpp.Rbac.{
  Role, RoleManager, find_or_new, create_role, new_role, add_role, delete_role, erase_role,
  update_role, is_known, link_matching,
}
use casbin_cpp.Rbac.Edges.{In-add_role, In-erase_role, skip-absent}

-- A role under its own name, whose pointers are all different and point to roles that are there.
pub record IsRole (all : Assoc Role) (k : Text) (r : Role) : Type 0 where
  pub named : r.name ≡ k
  pub distinct : Distinct r.roles
  pub targets : (b : Text) → In b r.roles → is_known b all ≡ true

pub record IsWellFormed (all : Assoc Role) : Type 0 where
  pub unique : Distinct (keys all)
  pub at_key : (k : Text) (r : Role) → lookup k all ≡ some r → IsRole all k r

known-insert :
    (k b : Text) (r : Role) (all : Assoc Role)
    → is_known b (insert k r all) ≡ (if k == b then true else is_known b all)
known-insert k b r all = ground (arith, lookup-insert k b r all)

pub known-insert_self :
    (k : Text) (r : Role) (all : Assoc Role) → is_known k (insert k r all) ≡ true
known-insert_self k r all = rw (known-insert k k r all) (ground (arith, ==_refl k))

pub known-insert_old :
    (k b : Text) (r : Role) (all : Assoc Role)
    → is_known b all ≡ true
    → is_known b (insert k r all) ≡ true
known-insert_old k b r all h = rw (known-insert k b r all) (ground arith)

pub IsWellFormed-insert :
    (k : Text) (r : Role) (all : Assoc Role)
    → IsWellFormed all
    → IsRole (insert k r all) k r
    → IsWellFormed (insert k r all)
IsWellFormed-insert k r all w h = record {
  unique = Distinct-insert k r all w.unique;
  at_key = λ j s e. elim (Bool-cases (k == j)) [
    | inl same ↦
        let e' : some r ≡ some s = ground (arith, lookup-insert k j r all) in
        let here : r ≡ s = ground arith in
        subst (λ x. IsRole (insert k r all) j x) here
          (subst (λ x. IsRole (insert k r all) x r) ((==_iff k j).0 same) h)
    | inr other ↦
        let old = w.at_key j s (ground (arith, lookup-insert k j r all)) in
        record {
          named = old.named;
          distinct = old.distinct;
          targets = λ b i. known-insert_old k b r all (old.targets b i);
        }
  ];
}

-- A role that is well formed stays so in a larger table.
pub IsRole-insert :
    (k : Text) (r : Role) (all : Assoc Role) {j : Text} {s : Role}
    → IsRole all j s
    → IsRole (insert k r all) j s
IsRole-insert k r all h = record {
  named = h.named;
  distinct = h.distinct;
  targets = λ b i. known-insert_old k b r all (h.targets b i);
}

pub IsRole-find_or_new :
    (k : Text) (all : Assoc Role) → IsWellFormed all → IsRole all k (find_or_new k all)
unfolding find_or_new new_role
IsRole-find_or_new k all w = elim (Option-cases (lookup k all)) [
  | inl e ↦ rw (e, find_or_new) (record { named = refl; distinct = tt; targets = λ b i. absurd i })
  | inr (r, e) ↦ rw (e, find_or_new) (w.at_key k r e)
]

pub IsWellFormed-find_or_new :
    (k : Text) (all : Assoc Role)
    → IsWellFormed all
    → IsWellFormed (insert k (find_or_new k all) all)
IsWellFormed-find_or_new k all w =
    IsWellFormed-insert k (find_or_new k all) all w
      (IsRole-insert k (find_or_new k all) all (IsRole-find_or_new k all w))

Distinct-concat : (n : Text) (rs : List Text) → Distinct rs → (¬ In n rs) → Distinct (rs ++ n ∷ [])
Distinct-concat n [] d h = ((λ x. x), tt)
Distinct-concat n (r ∷ rs) d h = (
  λ i. elim ((In-concat r n rs).0 i) [ inl j ↦ d.0 j | inr e ↦ h (inl (sym e)) ],
  Distinct-concat n rs d.1 (λ i. h (inr i)),
)

pub Distinct-add_role : (r : Role) (n : Text) → Distinct r.roles → Distinct (add_role r n).roles
unfolding add_role
Distinct-add_role r n d = elim (Bool-cases (any (λ x. x == n) r.roles)) [
  | inl e ↦ rw e d
  | inr e ↦
      rw e
        (Distinct-concat n r.roles d (λ i. cc (e, any_of_In (λ x. x == n) n r.roles i (==_refl n))))
]

pub IsRole-add :
    (all : Assoc Role) (k n : Text) (r : Role)
    → IsRole all k r
    → is_known n all ≡ true
    → IsRole all k (add_role r n)
IsRole-add all k n r h known = record {
  named = unfold add_role in ground (arith, h.named);
  distinct = Distinct-add_role r n h.distinct;
  targets = λ b i. elim ((In-add_role r n b).0 i) [
    | inl j ↦ h.targets b j
    | inr e ↦ subst (λ x. is_known x all ≡ true) (sym e) known
  ];
}

Distinct-erase : (n : Text) (rs : List Text) → Distinct rs → Distinct (erase_role n rs)
unfolding erase_role
Distinct-erase n [] d = tt
Distinct-erase n (r ∷ rs) d = elim (Bool-cases (r == n)) [
  | inl e ↦ rw (e, skip-absent n rs (subst (λ x. ¬ In x rs) ((==_iff r n).0 e) d.0)) d.1
  | inr e ↦ rw e ((λ i. d.0 ((In-erase_role n r rs d.1).0 i).0), Distinct-erase n rs d.1)
]

pub IsRole-delete :
    (all : Assoc Role) (k n : Text) (r : Role) → IsRole all k r → IsRole all k (delete_role r n)
unfolding delete_role
IsRole-delete all k n r h = record {
  named = h.named;
  distinct = Distinct-erase n r.roles h.distinct;
  targets = λ b i. h.targets b ((In-erase_role n b r.roles h.distinct).0 i).0;
}

abbrev KeysKnown : Assoc Role → Assoc Role → Type 0
KeysKnown [] all = Unit
KeysKnown ((k, r) ∷ l) all = (is_known k all ≡ true) × KeysKnown l all

KeysKnown-cons :
    (k : Text) (r : Role) (l all : Assoc Role) → KeysKnown l all → KeysKnown l ((k, r) ∷ all)
unfolding lookup
KeysKnown-cons k r [] all h = tt
KeysKnown-cons k r ((j, s) ∷ l) all h = (ground (arith, h.0), KeysKnown-cons k r l all h.1)

KeysKnown-self : (all : Assoc Role) → KeysKnown all all
unfolding lookup
KeysKnown-self [] = tt
KeysKnown-self ((k, r) ∷ l) = (ground (arith, ==_refl k), KeysKnown-cons k r l l (KeysKnown-self l))

IsRole-link_matching :
    (fn : Text → Text → Bool) (all : Assoc Role) (k : Text) (r : Role) (l : Assoc Role)
    → IsRole all k r
    → KeysKnown l all
    → IsRole all k (link_matching fn r l)
unfolding link_matching
IsRole-link_matching fn all k r [] h known = h
IsRole-link_matching fn all k r ((j, s) ∷ l) h known =
    elim (Bool-cases (fn r.name j && not (r.name == j))) [
      | inl e ↦
          rw e (
            IsRole-link_matching fn all k (add_role r j) l (IsRole-add all k j r h known.0) known.1)
      | inr e ↦ rw e (IsRole-link_matching fn all k r l h known.1)
    ]

-- `CreateRole` keeps the invariant, with a matching function or without.
pub create_role-IsWellFormed :
    (rm : RoleManager) (n : Text)
    → IsWellFormed rm.all_roles
    → IsWellFormed (create_role rm n).all_roles
unfolding create_role
create_role-IsWellFormed rm n w = elim (Option-cases rm.matching_func) [
  | inl e ↦ rw e (IsWellFormed-find_or_new n rm.all_roles w)
  | inr (fn, e) ↦ rw e (
      IsWellFormed-insert n (link_matching fn role all) all made (
        IsRole-insert n (link_matching fn role all) all (
          IsRole-link_matching fn all n role all
            (IsRole-insert n role rm.all_roles (IsRole-find_or_new n rm.all_roles w))
            (KeysKnown-self all))))
]
  where
    role : Role
    role = find_or_new n rm.all_roles

    all : Assoc Role
    all = insert n role rm.all_roles

    made : IsWellFormed all
    made = IsWellFormed-find_or_new n rm.all_roles w

known-create :
    (rm : RoleManager) (n b : Text)
    → (is_known b rm.all_roles ≡ true) ⊎ (b ≡ n)
    → is_known b (create_role rm n).all_roles ≡ true
unfolding create_role
known-create rm n b h = elim (Option-cases rm.matching_func) [
  | inl e ↦ rw e (made role rm.all_roles h)
  | inr (fn, e) ↦
      rw e (known-insert_old n b _ (insert n role rm.all_roles) (made role rm.all_roles h))
]
  where
    role : Role
    role = find_or_new n rm.all_roles

    made :
        (r : Role) (all : Assoc Role)
        → (is_known b all ≡ true) ⊎ (b ≡ n)
        → is_known b (insert n r all) ≡ true
    made r all (inl old) = known-insert_old n b r all old
    made r all (inr new) =
        subst (λ x. is_known x (insert n r all) ≡ true) (sym new) (known-insert_self n r all)

-- A well-formed manager after `role1->AddRole(role2)` or `role1->DeleteRole(role2)`.
module _ (rm : RoleManager) (w : IsWellFormed rm.all_roles) (q1 q2 : Text) where
  abbrev both : RoleManager
  both = create_role (create_role rm q1) q2

  both-IsWellFormed : IsWellFormed both.all_roles
  both-IsWellFormed =
      create_role-IsWellFormed (create_role rm q1) q2 (create_role-IsWellFormed rm q1 w)

  update-IsWellFormed :
      (f : Role → Role)
      → ((r : Role) → IsRole both.all_roles q1 r → IsRole both.all_roles q1 (f r))
      → IsWellFormed (update_role f q1 both).all_roles
  unfolding update_role
  update-IsWellFormed f keeps =
      let role = find_or_new q1 both.all_roles in
      IsWellFormed-insert q1 (f role) both.all_roles both-IsWellFormed (
        IsRole-insert q1 (f role) both.all_roles
          (keeps role (IsRole-find_or_new q1 both.all_roles both-IsWellFormed)))

  pub added-IsWellFormed : IsWellFormed (update_role (λ r. add_role r q2) q1 both).all_roles
  added-IsWellFormed =
      update-IsWellFormed (λ r. add_role r q2)
        (λ r h.
          IsRole-add both.all_roles q1 q2 r h (known-create (create_role rm q1) q2 q2 (inr refl)))

  pub deleted-IsWellFormed : IsWellFormed (update_role (λ r. delete_role r q2) q1 both).all_roles
  deleted-IsWellFormed =
      update-IsWellFormed (λ r. delete_role r q2) (λ r h. IsRole-delete both.all_roles q1 q2 r h)
