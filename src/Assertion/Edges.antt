-- ===== src/Assertion/Edges.antt =====
-- The role links of an assertion are the edges that its rules name.
use casbin_cpp.Base.{
  ℕ, zero, suc, none, some, List, [], ◌∷◌, Text, Rule, ltb, length, take, Result, ok, ◌≡◌, refl,
  sym, ap, ◌∙◌, subst, ◌↔◌, ◌⊎◌, inl, inr, arith, Bool-cases, first_step, Result-cases, ◌≤◌,
}
use casbin_cpp.Rbac.{RoleManager, add_link, qualify, create_role, update_role, roles_of}
use casbin_cpp.Rbac.Edges.{Edge}
use casbin_cpp.Rbac.Links.{add_link_edges}
use casbin_cpp.Policy.{rules_of}
use casbin_cpp.Assertion.{
  Assertion, policy_add, link_rule, link_rules, build_role_links, count_underscores,
}

-- The two names of a rule, under the domain of its other fields.
abbrev pub Names : Rule → Text → Text → Type 0
Names [] a b = ⊥
Names (x ∷ []) a b = ⊥
Names (x ∷ y ∷ domain) a b = (qualify domain x ≡ ok a) × (qualify domain y ≡ ok b)

matching-add_link :
    (rm rm' : RoleManager) (x y : Text) (domain : List Text)
    → rm.matching_func ≡ none
    → add_link rm x y domain ≡ ok rm'
    → rm'.matching_func ≡ none
unfolding add_link update_role create_role
matching-add_link rm rm' x y domain plain h =
    let (q1, e1, h1) = first_step (qualify domain x) _ h in
    let (q2, e2, h2) = first_step (qualify domain y) _ h1 in ground arith

link_rule-add :
    (r : Rule) (rm rm' : RoleManager)
    → rm.matching_func ≡ none
    → link_rule policy_add r rm ≡ ok rm'
    → (rm'.matching_func ≡ none)
      × ((a b : Text) → Edge rm'.all_roles a b ↔ (Edge rm.all_roles a b ⊎ Names r a b))
unfolding link_rule
link_rule-add [] rm rm' plain h = absurd (ground arith)
link_rule-add (x ∷ []) rm rm' plain h = absurd (ground arith)
link_rule-add (x ∷ y ∷ domain) rm rm' plain h =
    let (q1, e1, h1) = first_step (qualify domain x) _ (unfold add_link in h) in
    let (q2, e2, h2) = first_step (qualify domain y) _ h1 in
    let (made, returns, edges) = add_link_edges rm plain x y q1 q2 domain e1 e2 in
    let same : made ≡ rm' = ground arith in
    (
      matching-add_link rm rm' x y domain plain h,
      λ a b.
          subst
            (λ (m : RoleManager).
              Edge m.all_roles a b ↔ (Edge rm.all_roles a b ⊎ Names (x ∷ y ∷ domain) a b))
            same
            (
              λ i. elim ((edges a b).0 i) [
                | inl old ↦ inl old
                | inr (p, q) ↦ inr (e1 ∙ ap ok (sym p), e2 ∙ ap ok (sym q))
              ],
              λ i. elim i [
                | inl old ↦ (edges a b).1 (inl old)
                | inr (p, q) ↦ (edges a b).1 (inr (cc (e1, p), cc (e2, q)))
              ],
            ),
    )

-- Some rule of the list, cut to so many fields, names the two.
abbrev pub SomeNames : ℕ → List Rule → Text → Text → Type 0
SomeNames n [] a b = ⊥
SomeNames n (r ∷ rs) a b = Names (take n r) a b ⊎ SomeNames n rs a b

pub link_rules-add :
    (n : ℕ) (rs : List Rule) (rm rm' : RoleManager)
    → rm.matching_func ≡ none
    → link_rules policy_add n rs rm ≡ (ok tt, rm')
    → (a b : Text) → Edge rm'.all_roles a b ↔ (Edge rm.all_roles a b ⊎ SomeNames n rs a b)
unfolding link_rules
link_rules-add n [] rm rm' plain h a b =
    let same : rm ≡ rm' = ap (λ (p : Result (Unit {0}) × RoleManager). p.1) h in
    subst (λ (m : RoleManager). Edge m.all_roles a b ↔ (Edge rm.all_roles a b ⊎ ⊥)) same
      (inl, λ i. elim i [ inl e ↦ e | inr no_rule ↦ absurd no_rule ])
link_rules-add n (r ∷ rs) rm rm' plain h a b = elim (Bool-cases (ltb (length r) n)) [
  | inl short ↦ absurd (ground arith)
  | inr long ↦ elim (Result-cases (link_rule policy_add (take n r) rm)) [
    | inr (x, e) ↦ absurd (ground arith)
    | inl (rm1, e) ↦
        let (plain1, edges) = link_rule-add (take n r) rm rm1 plain e in
        let later = link_rules-add n rs rm1 rm' plain1 (ground arith) a b in
        (
          λ i. elim (later.0 i) [
            | inl j ↦ elim ((edges a b).0 j) [ inl old ↦ inl old | inr x ↦ inr (inl x) ]
            | inr k ↦ inr (inr k)
          ],
          λ i. elim i [
            | inl old ↦ later.1 (inl ((edges a b).1 (inl old)))
            | inr k ↦ elim k [
              | inl x ↦ later.1 (inl ((edges a b).1 (inr x)))
              | inr y ↦ later.1 (inr y)
            ]
          ],
        )
  ]
]

-- Every rule has so many fields at least.
abbrev pub AllLong : ℕ → List Rule → Type 0
AllLong n [] = Unit
AllLong n (r ∷ rs) = (n ≤ length r) × AllLong n rs

link_rule-returns :
    (n : ℕ) (r : Rule) (rm : RoleManager)
    → 2 ≤ n
    → n ≤ 3
    → n ≤ length r
    → (rm' : RoleManager) × (link_rule policy_add (take n r) rm ≡ ok rm')
unfolding link_rule add_link
link_rule-returns n [] rm h k l = absurd (omega arith)
link_rule-returns n (x ∷ []) rm h k l = absurd (omega arith)
link_rule-returns zero (x ∷ y ∷ r) rm h k l = absurd (omega arith)
link_rule-returns (suc zero) (x ∷ y ∷ r) rm h k l = absurd (omega arith)
link_rule-returns (suc (suc zero)) (x ∷ y ∷ r) rm h k l = (_, refl)
link_rule-returns (suc (suc (suc zero))) (x ∷ y ∷ []) rm h k l = absurd (omega arith)
link_rule-returns (suc (suc (suc zero))) (x ∷ y ∷ d ∷ r) rm h k l = (_, refl)
link_rule-returns (suc (suc (suc (suc n)))) (x ∷ y ∷ r) rm h k l = absurd (omega arith)

link_rules-returns :
    (n : ℕ) (rs : List Rule) (rm : RoleManager)
    → 2 ≤ n
    → n ≤ 3
    → AllLong n rs
    → (rm' : RoleManager) × (link_rules policy_add n rs rm ≡ (ok tt, rm'))
unfolding link_rules
link_rules-returns n [] rm h k l = (rm, refl)
link_rules-returns n (r ∷ rs) rm h k l =
    let (rm1, e) = link_rule-returns n r rm h k l.0 in
    let (rm2, e') = link_rules-returns n rs rm1 h k l.1 in (rm2, ground arith)

-- For a role definition with two or three underscores and rules with at least that many fields,
-- `BuildRoleLinks` of an assertion into a manager without roles and without a matching function
-- returns, stores the manager's address in the assertion, and the edges of the manager are exactly
-- the pairs of names that the rules of the assertion give: first field and second field, under the
-- domain of the third if there is one.
pub build_role_links_edges :
    (address : ℕ) (ast : Assertion) (rm : RoleManager)
    → rm.matching_func ≡ none
    → rm.all_roles ≡ []
    → 2 ≤ count_underscores ast.value
    → count_underscores ast.value ≤ 3
    → AllLong (count_underscores ast.value) (rules_of ast.policy)
    → (rm' : RoleManager) × (build_role_links address ast rm
        ≡ (ok tt, record ast { rm = some address }, rm'))
      × ((a b : Text)
          → Edge rm'.all_roles a b
            ↔ SomeNames (count_underscores ast.value) (rules_of ast.policy) a b)
unfolding build_role_links roles_of
build_role_links_edges address ast rm plain empty h k l =
    let n = count_underscores ast.value in
    let rules = rules_of ast.policy in
    let (rm', e) = link_rules-returns n rules rm h k l in
    let edges = link_rules-add n rules rm rm' plain e in
    (
      rm',
      ground arith,
      λ a b. (
        λ i. elim ((edges a b).0 i) [
          | inl old ↦ absurd (subst (λ all. Edge all a b) empty old)
          | inr x ↦ x
        ],
        λ x. (edges a b).1 (inr x),
      ),
    )
