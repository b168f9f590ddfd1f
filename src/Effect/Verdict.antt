-- ===== src/Effect/Verdict.antt =====
-- The loop over the rules decides each effect expression as its words say.
use mathlib.Core.List.{append_assoc}
use casbin_cpp.Base.{
  ℕ, zero, suc, ◌+◌, Option, none, some, List, [], ◌∷◌, ◌++◌, map, ◌≡◌, refl, ap, ◌∙◌, arith,
  if◌then◌else◌, nat_eq, length, replicate, Result, ok, ◌==◌, Rule, In, length-append,
}
use casbin_cpp.Effect.{
  Effect, allow, indeterminate, deny, Merged, Outcome, merge_effects, merge_rules, allow_override,
  deny_override, allow_and_deny, priority, merge_deny_override, merge_allow_and_deny,
}
use casbin_cpp.Effect.Scan.{
  blank, effects_of, marks_of, allows, denies, decides, first_index, allow_at, at-effects, at-marks,
  denied_lem, first_allow_lem, last_decided_lem, Undecided, Undecided-concat, Undecided-blank,
  length-effects_of,
}
use casbin_cpp.Effect.Loop.{judge, loop-all}

-- What each expression makes of one more outcome.
abbrev allow_step : List Outcome → Outcome → ℕ → Merged
allow_step done o k = if allows o then (allow, some (length done)) else (indeterminate, none)

abbrev deny_step : List Outcome → Outcome → ℕ → Merged
deny_step done o k =
    if denies o
    then (deny, some (length done))
    else if nat_eq k 0
    then (allow, none)
    else (indeterminate, none)

abbrev both_step : List Outcome → Outcome → ℕ → Merged
both_step done o k =
    if denies o
    then (deny, some (length done))
    else if nat_eq k 0
    then allow_at (first_index allows 0 (done ++ o ∷ []))
    else (indeterminate, none)

abbrev priority_step : List Outcome → Outcome → ℕ → Merged
priority_step done o k = if decides o then (o.eft, some (length done)) else (indeterminate, none)

abbrev pub deny_at : Merged → Option ℕ → Merged
deny_at otherwise none = otherwise
deny_at otherwise (some i) = (deny, some i)

-- The effect and the position of the first outcome that is matched and allows or denies.
abbrev pub first_decided : ℕ → List Outcome → Merged
first_decided i [] = (indeterminate, none)
first_decided i (o ∷ os) =
    let rest = first_decided (i + 1) os in if decides o then (o.eft, some i) else rest

judge-allow :
    (os done : List Outcome) (i : ℕ)
    → i ≡ length done
    → judge allow_step done os (indeterminate, none) ≡ allow_at (first_index allows i os)
judge-allow [] done i e = refl
judge-allow (o ∷ os) done i e =
    ground (arith, judge-allow os (done ++ o ∷ []) (i + 1), length-append done (o ∷ []))

judge-deny :
    (o : Outcome) (os done : List Outcome) (i : ℕ) (last : Merged)
    → i ≡ length done
    → judge deny_step done (o ∷ os) last ≡ deny_at (allow, none) (first_index denies i (o ∷ os))
judge-deny o [] done i last e = ground arith
judge-deny o (p ∷ os) done i last e = ground (
  arith,
  judge-deny p os (done ++ o ∷ []) (i + 1) (indeterminate, none),
  length-append done (o ∷ []),
)

judge-both :
    (o : Outcome) (os done : List Outcome) (i : ℕ) (last : Merged)
    → i ≡ length done
    → judge both_step done (o ∷ os) last
      ≡ deny_at (allow_at (first_index allows 0 (done ++ o ∷ os))) (first_index denies i (o ∷ os))
judge-both o [] done i last e = ground arith
judge-both o (p ∷ os) done i last e = ground (
  arith,
  judge-both p os (done ++ o ∷ []) (i + 1) (indeterminate, none),
  length-append done (o ∷ []),
  append_assoc done (o ∷ []) (p ∷ os),
)

judge-priority :
    (os done : List Outcome) (i : ℕ)
    → i ≡ length done
    → judge priority_step done os (indeterminate, none) ≡ first_decided i os
judge-priority [] done i e = refl
judge-priority (o ∷ os) done i e =
    ground (arith, judge-priority os (done ++ o ∷ []) (i + 1), length-append done (o ∷ []))

module _ (done : List Outcome) (o : Outcome) (k n : ℕ) (fits : length done + suc k ≡ n) where
  abbrev effects : List Effect
  effects = effects_of (done ++ o ∷ replicate k blank)

  abbrev marks : List ℕ
  marks = marks_of (done ++ o ∷ replicate k blank)

  merge-allow :
      merge_effects allow_override effects marks (length done) n ≡ ok (allow_step done o k)
  unfolding merge_effects ◌==◌
  merge-allow =
      ground (arith, at-marks o done (replicate k blank), at-effects o done (replicate k blank))

  merge-deny : merge_effects deny_override effects marks (length done) n ≡ ok (deny_step done o k)
  unfolding merge_effects ◌==◌
  merge-deny = rw (denied_lem o done (replicate k blank), merge_deny_override) (ground arith)

  merge-priority :
      Undecided done
      → merge_effects priority effects marks (length done) n ≡ ok (priority_step done o k)
  unfolding merge_effects ◌==◌
  merge-priority u =
      rw (length-effects_of (done ++ o ∷ replicate k blank))
        (last_decided_lem o (replicate k blank) (Undecided-blank k) done u)

merge-both :
    (done : List Outcome) (o : Outcome) (k n : ℕ)
    → length done + suc k ≡ n
    → merge_effects allow_and_deny
        (effects_of (done ++ o ∷ replicate k blank))
        (marks_of (done ++ o ∷ replicate k blank))
        (length done)
        n
      ≡ ok (both_step done o k)
unfolding merge_effects ◌==◌
merge-both done o zero n fits =
    rw (denied_lem o done [], merge_allow_and_deny)
      (ground (arith, first_allow_lem (done ++ o ∷ []) 0))
merge-both done o (suc k) n fits =
    rw (denied_lem o done (replicate (suc k) blank), merge_allow_and_deny) (ground arith)

-- `round` evaluates the matcher on one rule.
module _ {S : Type 0} (round : S → Rule → Result Outcome × S) (f : Rule → Outcome) where
  -- When the round for each rule of the policy returns an outcome that does not depend on the
  -- state, then under `some(where (p.eft == allow))` the loop over the rules returns normally, and
  -- returns allow with the position of the first rule that is matched and allows, and
  -- indeterminate with position -1 when no rule does both.
  pub allow_override_lem :
      (rules : List Rule) (s : S)
      → ((w : S) (r : Rule) → In r rules → (round w r).0 ≡ ok (f r))
      → (merge_rules round allow_override rules s).0
        ≡ ok (allow_at (first_index allows 0 (map f rules)))
  unfolding merge_rules
  allow_override_lem rules s h =
      loop-all round f allow_override (length rules) (λ _. Unit) allow_step
        (λ done o k _ e. merge-allow done o k (length rules) e) (λ done o k x _ _. tt) rules s h tt
        refl
      ∙ ap ok (judge-allow (map f rules) [] 0 refl)

  -- When the round for each rule of the policy returns an outcome that does not depend on the
  -- state, then under `!some(where (p.eft == deny))` the loop over a policy with at least one rule
  -- returns normally: it returns deny with the position of the first rule that is matched and
  -- denies, and allow with position -1 when no rule does both.
  pub deny_override_lem :
      (r : Rule) (rules : List Rule) (s : S)
      → ((w : S) (q : Rule) → In q (r ∷ rules) → (round w q).0 ≡ ok (f q))
      → (merge_rules round deny_override (r ∷ rules) s).0
        ≡ ok (deny_at (allow, none) (first_index denies 0 (map f (r ∷ rules))))
  unfolding merge_rules
  deny_override_lem r rules s h =
      loop-all round f deny_override (suc (length rules)) (λ _. Unit) deny_step
        (λ done o k _ e. merge-deny done o k (suc (length rules)) e) (λ done o k x _ _. tt)
        (r ∷ rules) s h tt refl
      ∙ ap ok (judge-deny (f r) (map f rules) [] 0 (indeterminate, none) refl)

  -- When the round for each rule of the policy returns an outcome that does not depend on the
  -- state, then under `some(where (p.eft == allow)) && !some(where (p.eft == deny))` the loop over
  -- a policy with at least one rule returns normally: it returns deny with the position of the
  -- first rule that is matched and denies; when there is none, allow with the position of the
  -- first rule that is matched and allows; when there is neither, indeterminate with position -1.
  pub allow_and_deny_lem :
      (r : Rule) (rules : List Rule) (s : S)
      → ((w : S) (q : Rule) → In q (r ∷ rules) → (round w q).0 ≡ ok (f q))
      → (merge_rules round allow_and_deny (r ∷ rules) s).0
        ≡ ok (
            deny_at
              (allow_at (first_index allows 0 (map f (r ∷ rules))))
              (first_index denies 0 (map f (r ∷ rules))))
  unfolding merge_rules
  allow_and_deny_lem r rules s h =
      loop-all round f allow_and_deny (suc (length rules)) (λ _. Unit) both_step
        (λ done o k _ e. merge-both done o k (suc (length rules)) e) (λ done o k x _ _. tt)
        (r ∷ rules) s h tt refl
      ∙ ap ok (judge-both (f r) (map f rules) [] 0 (indeterminate, none) refl)

  -- When the round for each rule of the policy returns an outcome that does not depend on the
  -- state, then under `priority(p.eft) || deny` the loop returns normally with the effect and the
  -- position of the first rule that is matched and whose effect is allow or deny, and
  -- indeterminate with position -1 when there is no such rule.
  pub priority_lem :
      (rules : List Rule) (s : S)
      → ((w : S) (r : Rule) → In r rules → (round w r).0 ≡ ok (f r))
      → (merge_rules round priority rules s).0 ≡ ok (first_decided 0 (map f rules))
  unfolding merge_rules
  priority_lem rules s h =
      loop-all round f priority (length rules) Undecided priority_step
        (λ done o k u e. merge-priority done o k (length rules) e u)
        (λ done o k x u e. Undecided-concat done o u (ground arith)) rules s h tt refl
      ∙ ap ok (judge-priority (map f rules) [] 0 refl)
