-- ===== src/Enforcer/Settings/Loaded.antt =====
-- What `LoadPolicy` leaves behind when the adapter throws.
use casbin_cpp.Base.{
  Option, none, some, [], ◌∷◌, Text, str, ◌==◌, if◌then◌else◌, Result, ok, err, Error, undefined,
  subst, arith, Bool-cases, Option-cases, inl, inr, ◌≡◌, refl, ap, sym, ◌∙◌,
}
use casbin_cpp.Base.Assoc.{lookup, lookup-insert-same, lookup-insert-other}
use casbin_cpp.Policy.{PoliciesValues, vector, hashset, rules_of, clear}
use casbin_cpp.Assertion.{Assertion}
use casbin_cpp.Model
use casbin_cpp.Model.{Model, AssertionMap, section, put_section, clear_all, get_policy, assertion}
use casbin_cpp.Persist.Roundtrip.{p_not_g}
use casbin_cpp.Enforcer.{Enforcer, Adapter, go_on}
use casbin_cpp.Enforcer.Internal
use casbin_cpp.Enforcer.Settings.{load_policy, of_adapter, clear_policy}

of_adapter-throws :
    (load : Model → Result (Unit {0}) × Model) (s : Enforcer) (a : Adapter) (e : Error)
    → s.adapter ≡ some a
    → load s.model ≡ (err e, s.model)
    → of_adapter load s ≡ (err e, s)
of_adapter-throws load s a e has_adapter throws =
    ap
      (λ (o : Option Adapter). elim o [
        | none ↦ (err undefined, s)
        | some b ↦ let (r, m) = load s.model in (r, record s { model = m })
      ])
      has_adapter
    ∙ ap (λ (x : Result (Unit {0}) × Model). (x.0, record s { model = x.1 })) throws

lookup-clear_all :
    (k : Text) (a : Assertion) (amap : AssertionMap)
    → lookup k (clear_all amap) ≡ some a
    → rules_of a.policy ≡ []
unfolding lookup clear_all
lookup-clear_all k a [] h = cc
lookup-clear_all k a ((j, b) ∷ rest) h = elim (Bool-cases (j == k)) [
  | inl e ↦
      let same : record b { policy = clear b.policy } ≡ a = ground arith in
      subst (λ (x : Assertion). rules_of x.policy ≡ []) same (none_left b.policy)
  | inr e ↦ lookup-clear_all k a rest (ground arith)
]
  where
    none_left : (p : PoliciesValues) → rules_of (clear p) ≡ []
    none_left (vector rules) = refl
    none_left (hashset rules) = refl

section-clear_policy :
    (m : Model) → section (Model.clear_policy m) (str "p") ≡ clear_all (section m (str "p"))
unfolding section Model.clear_policy put_section
section-clear_policy m =
    let x : AssertionMap = clear_all (section m (str "p")) in
    let m1 : Model = put_section (str "p") x m in
    ap (λ (o : Option AssertionMap). elim o [ none ↦ [] | some y ↦ y ])
      (lookup-insert-other (str "g") (str "p") (clear_all (section m1 (str "g"))) m1.m p_not_g
        ∙ lookup-insert-same (str "p") x m.m)

got_policy :
    (m : Model) (sec p_type : Text) (policy : PoliciesValues)
    → get_policy m sec p_type ≡ ok policy
    → (a : Assertion) × (lookup p_type (section m sec) ≡ some a) × (a.policy ≡ policy)
unfolding get_policy assertion
got_policy m sec p_type policy h = elim (Option-cases (lookup p_type (section m sec))) [
  | inl e ↦ absurd (ground arith)
  | inr (a, e) ↦ (a, e, ground arith)
]

-- When the adapter throws before it has read anything, `LoadPolicy` throws the same, and no
-- definition of the section "p" has a rule any more.
pub load_policy_throws :
    (load : Model → Result (Unit {0}) × Model) (s : Enforcer) (a : Adapter) (e : Error)
    → s.adapter ≡ some a
    → ((m : Model) → load m ≡ (err e, m))
    → (s' : Enforcer) × (load_policy load s ≡ (err e, s'))
      × ((p_type : Text) (policy : PoliciesValues)
          → get_policy s'.model (str "p") p_type ≡ ok policy
          → rules_of policy ≡ [])
unfolding load_policy clear_policy
load_policy_throws load s a e has_adapter throws =
    let s' : Enforcer = record s { model = Model.clear_policy s.model } in
    (
      s',
      ap
          (λ (x : Result (Unit {0}) × Enforcer).
            go_on
              (λ _ t. if t.auto_build_role_links then Internal.build_role_links t else (ok tt, t))
              x.0 x.1)
          (of_adapter-throws load s' a e has_adapter (throws s'.model)),
      λ p_type policy h.
          let (b, there, same) = got_policy s'.model (str "p") p_type policy h in
          subst (λ (x : PoliciesValues). rules_of x ≡ []) same
            (lookup-clear_all p_type b (section s.model (str "p"))
              (ap (lookup p_type) (sym (section-clear_policy s.model)) ∙ there)),
    )
