-- ===== src/Rbac/Edges.antt =====
-- The inheritance edges of a role manager, and what each operation does to them when no matching
-- function is set.
use casbin_cpp.Base.{
  none, List, [], ◌∷◌, Text, ◌==◌, ==_iff, if◌then◌else◌, any, In, Distinct, In-concat, In-any, ◌≡◌,
  refl, ◌↔◌, ◌⊎◌, ◌≢◌, inl, inr, arith, Bool-cases, sym, ap, ◌∙◌, subst,
}
use casbin_cpp.Base.Assoc.{Assoc, insert, lookup-insert}
use casbin_cpp.Rbac.{
  Role, RoleManager, roles_of, find_or_new, create_role, add_role, delete_role, erase_role,
  skip_one, update_role,
}

-- `a` inherits `b` directly.
abbrev pub Edge : Assoc Role → Text → Text → Type 0
Edge all a b = In b (roles_of all a)

pub roles_of-insert :
    (k : Text) (r : Role) (all : Assoc Role) (a : Text)
    → roles_of (insert k r all) a ≡ (if k == a then r.roles else roles_of all a)
unfolding roles_of
roles_of-insert k r all a = ground (arith, lookup-insert k a r all)

pub roles-find_or_new : (k : Text) (all : Assoc Role) → (find_or_new k all).roles ≡ roles_of all k
unfolding roles_of find_or_new
roles-find_or_new k all = ground arith

pub create_role_plain :
    (rm : RoleManager) (n : Text)
    → rm.matching_func ≡ none
    → create_role rm n
      ≡ record rm { all_roles = insert n (find_or_new n rm.all_roles) rm.all_roles }
unfolding create_role
create_role_plain rm n h = ground arith

-- Making sure that a role is there changes no edge.
pub roles_of-create :
    (all : Assoc Role) (n a : Text) → roles_of (insert n (find_or_new n all) all) a ≡ roles_of all a
roles_of-create all n a =
    ground (arith, roles_of-insert n (find_or_new n all) all a, roles-find_or_new n all, ==_iff n a)

pub roles_of-create_role :
    (rm : RoleManager) (n : Text)
    → rm.matching_func ≡ none
    → (a : Text) → roles_of (create_role rm n).all_roles a ≡ roles_of rm.all_roles a
roles_of-create_role rm n plain a =
    ap (λ (m : RoleManager). roles_of m.all_roles a) (create_role_plain rm n plain)
    ∙ roles_of-create rm.all_roles n a

pub In-add_role : (r : Role) (n b : Text) → In b (add_role r n).roles ↔ (In b r.roles ⊎ (b ≡ n))
unfolding add_role
In-add_role r n b = elim (Bool-cases (any (λ x. x == n) r.roles)) [
  | inl found ↦
      let (x, i, e) = In-any (λ x. x == n) r.roles found in
      let same : x ≡ n = (==_iff x n).0 e in
      rw found (inl, λ h. elim h [ inl j ↦ j | inr s ↦ subst (λ y. In y r.roles) (same ∙ sym s) i ])
  | inr new ↦ rw new (In-concat b n r.roles)
]

pub erase-absent : (n : Text) (rs : List Text) → (¬ In n rs) → erase_role n rs ≡ rs
unfolding erase_role
erase-absent n [] h = refl
erase-absent n (r ∷ rs) h =
    ground (arith, ==_iff r n, erase-absent n rs (λ i. h (inr i)), λ (e : n ≡ r). h (inl e))

pub skip-absent : (n : Text) (rs : List Text) → (¬ In n rs) → skip_one n rs ≡ rs
unfolding skip_one
skip-absent n [] h = refl
skip-absent n (r ∷ rs) h = ap (λ t. r ∷ t) (erase-absent n rs (λ i. h (inr i)))

-- On a list without repetitions the loop of `DeleteRole` removes the one occurrence.
pub In-erase_role :
    (n b : Text) (rs : List Text) → Distinct rs → In b (erase_role n rs) ↔ (In b rs × (b ≢ n))
unfolding erase_role
In-erase_role n b [] d = ((λ h. absurd h), (λ h. absurd h.0))
In-erase_role n b (r ∷ rs) d = elim (Bool-cases (r == n)) [
  | inl e ↦
      let same : r ≡ n = (==_iff r n).0 e in
      let gone : ¬ In n rs = subst (λ x. ¬ In x rs) same d.0 in
      rw (e, skip-absent n rs gone)
        (
          λ i. (inr i, λ q. gone (subst (λ x. In x rs) q i)),
          λ (i, ne). elim i [ inl q ↦ absurd (ne (q ∙ same)) | inr j ↦ j ],
        )
  | inr e ↦
      let ih = In-erase_role n b rs d.1 in
      let other : r ≢ n = λ q. cc ((==_iff r n).1 q) in
      rw e (
        λ i. elim i [
          | inl q ↦ (inl q, λ s. other (sym q ∙ s))
          | inr j ↦ (inr (ih.0 j).0, (ih.0 j).1)
        ],
        λ (i, ne). elim i [ inl q ↦ inl q | inr j ↦ inr (ih.1 (j, ne)) ],
      )
]

module _ (rm : RoleManager) (plain : rm.matching_func ≡ none) (q1 q2 : Text) where
  -- The manager with both roles present, before the link is written.
  abbrev both : RoleManager
  both = create_role (create_role rm q1) q2

  all_roles-both : both.all_roles ≡ (
      let all = insert q1 (find_or_new q1 rm.all_roles) rm.all_roles in
      insert q2 (find_or_new q2 all) all)
  all_roles-both = rw (create_role_plain rm q1 plain) (
      ap (λ (m : RoleManager). m.all_roles)
        (create_role_plain
          (record rm { all_roles = insert q1 (find_or_new q1 rm.all_roles) rm.all_roles }) q2
          plain))

  roles_of-both : (a : Text) → roles_of both.all_roles a ≡ roles_of rm.all_roles a
  roles_of-both a = rw all_roles-both (
      roles_of-create (insert q1 (find_or_new q1 rm.all_roles) rm.all_roles) q2 a
      ∙ roles_of-create rm.all_roles q1 a)

  roles_of-update :
      (f : Role → Role) (a : Text)
      → roles_of (update_role f q1 both).all_roles a
        ≡ (if q1 == a then (f (find_or_new q1 both.all_roles)).roles else roles_of rm.all_roles a)
  unfolding update_role
  roles_of-update f a = ground (
    arith,
    roles_of-insert q1 (f (find_or_new q1 both.all_roles)) both.all_roles a,
    roles_of-both a,
  )

  roles_self : (find_or_new q1 both.all_roles).roles ≡ roles_of rm.all_roles q1
  roles_self = roles-find_or_new q1 both.all_roles ∙ roles_of-both q1

  pub Edge-add :
      (a b : Text)
      → Edge (update_role (λ r. add_role r q2) q1 both).all_roles a b
        ↔ (Edge rm.all_roles a b ⊎ ((a ≡ q1) × (b ≡ q2)))
  Edge-add a b = elim (Bool-cases (q1 == a)) [
    | inl e ↦
        let same : q1 ≡ a = (==_iff q1 a).0 e in
        rw (roles_of-update (λ r. add_role r q2) a, e)
          (
            λ i. elim ((In-add_role (find_or_new q1 both.all_roles) q2 b).0 i) [
              | inl j ↦
                  inl (subst (λ x. In b (roles_of rm.all_roles x)) same (subst (In b) roles_self j))
              | inr q ↦ inr (sym same, q)
            ],
            λ i. (In-add_role (find_or_new q1 both.all_roles) q2 b).1 (elim i [
              | inl j ↦ inl (
                  subst (In b) (sym roles_self)
                    (subst (λ x. In b (roles_of rm.all_roles x)) (sym same) j))
              | inr q ↦ inr q.1
            ]),
          )
    | inr e ↦
        rw (roles_of-update (λ r. add_role r q2) a, e)
          (inl, λ i. elim i [ inl j ↦ j | inr q ↦ cc (e, (==_iff q1 a).1 (sym q.0)) ])
  ]

  pub Edge-delete :
      (a b : Text)
      → Distinct (roles_of rm.all_roles q1)
      → Edge (update_role (λ r. delete_role r q2) q1 both).all_roles a b
        ↔ (Edge rm.all_roles a b × (¬ ((a ≡ q1) × (b ≡ q2))))
  unfolding delete_role
  Edge-delete a b d = elim (Bool-cases (q1 == a)) [
    | inl e ↦
        let same : q1 ≡ a = (==_iff q1 a).0 e in
        let erased = In-erase_role q2 b (roles_of rm.all_roles q1) d in
        rw (roles_of-update (λ r. delete_role r q2) a, e, roles_self, ← same)
          (
            λ i. ((erased.0 i).0, λ q. (erased.0 i).1 q.1),
            λ (i, ne). erased.1 (i, λ q. ne (refl, q)),
          )
    | inr e ↦
        rw (roles_of-update (λ r. delete_role r q2) a, e)
          ((λ i. (i, λ q. cc (e, (==_iff q1 a).1 (sym q.0)))), λ i. i.0)
  ]
