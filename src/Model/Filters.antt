-- ===== src/Model/Filters.antt =====
-- The field filters, and the two operations on them.
use casbin_cpp.Base.{
  ℕ, zero, suc, ◌+◌, ◌≤◌, ◌<◌, Bool, true, false, not, some, List, [], ◌∷◌, Text, Rule, ◌==◌,
  ==_iff, In, keep, get_elem?, length, ok, err, at, ◌>>=◌, first_step, ◌≡◌, ◌≢◌, refl, sym, ap, ◌∙◌,
  subst, ◌↔◌, inl, inr, arith, Bool-cases,
}
use casbin_cpp.Policy.{vector, rules_of}
use casbin_cpp.Assertion.{Assertion}
use casbin_cpp.Model.{
  Model, assertion, put_policy, matches_fields, partition, get_filtered_policy,
  remove_filtered_policy, not_empty,
}
use casbin_cpp.Model.Membership.{assertion-put_policy_self}
use casbin_cpp.Model.Changes.{Holds, Elsewhere, Elsewhere-put_policy}

-- Every value that is not empty is the rule's field at its place.
abbrev pub Agrees : Rule → ℕ → List Text → Type 0
Agrees rule index values =
    (j : ℕ) (v : Text) → get_elem? values j ≡ some v → v ≢ [] → at rule (index + j) ≡ ok v

Agrees-cons :
    (rule : Rule) (index : ℕ) (v : Text) (vs : List Text)
    → Agrees rule index (v ∷ vs) ↔ ((v ≢ [] → at rule index ≡ ok v) × Agrees rule (index + 1) vs)
Agrees-cons rule index v vs = (
  λ h. (
    λ ne.
        let e : index + 0 ≡ index = omega arith in subst (λ i. at rule i ≡ ok v) e (h 0 v refl ne),
    λ j w g ne.
        let e : index + suc j ≡ (index + 1) + j = omega arith in
        subst (λ i. at rule i ≡ ok w) e (h (suc j) w g ne),
  ),
  λ (here, later) j w g ne. at_place here later j w g ne,
)
  where
    at_place :
        (v ≢ [] → at rule index ≡ ok v)
        → Agrees rule (index + 1) vs
        → (j : ℕ) (w : Text) → get_elem? (v ∷ vs) j ≡ some w
        → w ≢ []
        → at rule (index + j) ≡ ok w
    at_place here later zero w g ne =
        let e : index + 0 ≡ index = omega arith in
        let same : v ≡ w = ground arith in
        rw e (subst (λ x. at rule index ≡ ok x) same (here (λ q. ne (sym same ∙ q))))
    at_place here later (suc j) w g ne =
        let e : index + suc j ≡ (index + 1) + j = omega arith in rw e (later j w g ne)

pub matches_fields_iff :
    (rule : Rule) (values : List Text) (index : ℕ)
    → (matches_fields rule index values ≡ ok true) ↔ Agrees rule index values
unfolding matches_fields
matches_fields_iff rule [] index = (λ _ j v g ne. absurd (ground arith), λ _. refl)
matches_fields_iff rule (v ∷ vs) index = elim (Bool-cases (v == [])) [
  | inl e ↦
      let any_value : v ≡ [] = (==_iff v []).0 e in
      rw e (
        λ h.
            (Agrees-cons rule index v vs).1
              ((λ ne. absurd (ne any_value)), (matches_fields_iff rule vs (index + 1)).0 h),
        λ h. (matches_fields_iff rule vs (index + 1)).1 ((Agrees-cons rule index v vs).0 h).1,
      )
  | inr e ↦
      let given : v ≢ [] = λ q. cc (e, (==_iff v []).1 q) in
      rw e (
        λ h.
            let (x, here, rest) = first_step (at rule index) _ h in
            elim (Bool-cases (x == v)) [
              | inl s ↦ (Agrees-cons rule index v vs).1 (
                (λ _. here ∙ ap ok ((==_iff x v).0 s)),
                (matches_fields_iff rule vs (index + 1)).0 (ground arith),
              )
              | inr s ↦ absurd (ground arith)
            ],
        λ h.
            rw (((Agrees-cons rule index v vs).0 h).0 given, ◌>>=◌)
              (rw ((==_iff v v).1 refl)
                ((matches_fields_iff rule vs (index + 1)).1 ((Agrees-cons rule index v vs).0 h).1)),
      )
]

pub at-returns : (r : Rule) (i : ℕ) → i < length r → (x : Text) × (at r i ≡ ok x)
at-returns [] i h = absurd (omega arith)
at-returns (x ∷ r) zero h = (x, refl)
at-returns (x ∷ r) (suc i) h = at-returns r i (omega arith)

matches_fields-returns :
    (r : Rule) (values : List Text) (index : ℕ)
    → index + length values ≤ length r
    → (b : Bool) × (matches_fields r index values ≡ ok b)
unfolding matches_fields
matches_fields-returns r [] index h = (true, refl)
matches_fields-returns r (v ∷ vs) index h =
    let (b, e) = matches_fields-returns r vs (index + 1) (omega arith) in
    let (x, here) = at-returns r index (omega arith) in
    elim (Bool-cases (v == [])) [
      | inl free ↦ (b, rw free e)
      | inr given ↦ elim (Bool-cases (x == v)) [
        | inl s ↦ (b, rw (given, here) (rw s e))
        | inr s ↦ (false, rw (given, here) (rw s))
      ]
    ]

-- The rule passes the filter.
unfoldable pub selected : ℕ → List Text → Rule → Bool
selected index values r = elim (matches_fields r index values) [ ok b ↦ b | err e ↦ false ]

-- The filter reads no field out of range.
abbrev pub AllWide : ℕ → List Text → List Rule → Type 0
AllWide index values [] = Unit
AllWide index values (r ∷ rs) = (index + length values ≤ length r) × AllWide index values rs

partition_lem :
    (rules : List Rule) (index : ℕ) (values : List Text)
    → AllWide index values rules
    → partition rules index values
      ≡ ok (keep (selected index values) rules, keep (λ r. not (selected index values r)) rules)
unfolding partition selected
partition_lem [] index values w = refl
partition_lem (r ∷ rs) index values w =
    let (b, e) = matches_fields-returns r values index w.0 in
    ground (arith, e, partition_lem rs index values w.1)

selected_iff :
    (rules : List Rule) (index : ℕ) (values : List Text)
    → AllWide index values rules
    → (r : Rule) → In r rules
    → (selected index values r ≡ true) ↔ Agrees r index values
unfolding selected
selected_iff [] index values w r i = absurd i
selected_iff (x ∷ xs) index values w r i = elim i [
  | inl e ↦
      let wide : index + length values ≤ length r =
        subst (λ y. index + length values ≤ length y) (sym e) w.0 in
      let (b, m) = matches_fields-returns r values index wide in
      (
        λ h. (matches_fields_iff r values index).0 (ground arith),
        λ h. ground (arith, (matches_fields_iff r values index).1 h),
      )
  | inr later ↦ selected_iff xs index values w.1 r later
]

-- On an assertion that is there and a filter that reads no field out of range,
-- `RemoveFilteredPolicy` returns. It takes out exactly the rules that agree with every value of
-- the filter that is not empty; the others stand in their order and no other assertion changes.
-- Its result is the rules taken out, in order, with true when there is one, and before the call
-- `GetFilteredPolicy` returns the same rules.
pub remove_filtered_policy_lem :
    (model : Model) (sec p_type : Text) (a : Assertion) (index : ℕ) (values : List Text)
    → assertion model sec p_type ≡ ok a
    → AllWide index values (rules_of a.policy)
    → (model' : Model) × (sel : Rule → Bool) × (remove_filtered_policy sec p_type index values model
        ≡ ok ((not_empty (keep sel (rules_of a.policy)), keep sel (rules_of a.policy)), model'))
      × (get_filtered_policy model sec p_type index values
          ≡ ok (vector (keep sel (rules_of a.policy))))
      × ((r : Rule) → In r (rules_of a.policy) → (sel r ≡ true) ↔ Agrees r index values)
      × Holds sec p_type a (keep (λ r. not (sel r)) (rules_of a.policy)) model'
      × Elsewhere sec p_type model model'
unfolding remove_filtered_policy get_filtered_policy
remove_filtered_policy_lem model sec p_type a index values there wide =
    let others = vector (keep (λ r. not (selected index values r)) (rules_of a.policy)) in
    let parts = partition_lem (rules_of a.policy) index values wide in
    (
      put_policy sec p_type a others model,
      selected index values,
      rw (there, ◌>>=◌) (rw (parts, ◌>>=◌)),
      rw (there, ◌>>=◌) (rw (parts, ◌>>=◌)),
      selected_iff (rules_of a.policy) index values wide,
      (others, assertion-put_policy_self sec p_type a others model, refl),
      Elsewhere-put_policy sec p_type a others model,
    )
