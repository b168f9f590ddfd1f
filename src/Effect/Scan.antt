-- ===== src/Effect/Scan.antt =====
-- The two arrays of `m_enforce` as the outcomes so far, padded with blanks, and the scans of
-- `MergeEffects` over them.
use casbin_cpp.Base.{
  ℕ, zero, suc, ◌+◌, ◌≤◌, ◌<◌, Bool, true, false, ◌&&◌, ◌||◌, Option, none, some, List, [], ◌∷◌,
  ◌++◌, ◌≡◌, refl, ap, ◌∙◌, arith, if◌then◌else◌, length, replicate, set, ok, at, Bool-cases,
  length-append, dec_lt, inl, inr,
}
use casbin_cpp.Effect.{
  Effect, allow, indeterminate, is_allow, is_deny, Merged, Outcome, mark, first_allow, last_decided,
  denied,
}

abbrev pub blank : Outcome
blank = record { matched = false; eft = indeterminate }

abbrev pub effects_of : List Outcome → List Effect
effects_of [] = []
effects_of (o ∷ os) = o.eft ∷ effects_of os

abbrev pub marks_of : List Outcome → List ℕ
marks_of [] = []
marks_of (o ∷ os) = mark o.matched ∷ marks_of os

abbrev pub allows : Outcome → Bool
allows o = o.matched && is_allow o.eft

abbrev pub denies : Outcome → Bool
denies o = o.matched && is_deny o.eft

abbrev pub decides : Outcome → Bool
decides o = o.matched && (is_allow o.eft || is_deny o.eft)

-- The position of the first outcome that passes a test, counted from `i`.
abbrev pub first_index : (Outcome → Bool) → ℕ → List Outcome → Option ℕ
first_index p i [] = none
first_index p i (o ∷ os) = let rest = first_index p (i + 1) os in if p o then some i else rest

abbrev pub allow_at : Option ℕ → Merged
allow_at none = (indeterminate, none)
allow_at (some i) = (allow, some i)

pub effects-replicate : (n : ℕ) → replicate n indeterminate ≡ effects_of (replicate n blank)
effects-replicate zero = refl
effects-replicate (suc n) = ap (λ t. indeterminate ∷ t) (effects-replicate n)

pub marks-replicate : (n : ℕ) → replicate n 0 ≡ marks_of (replicate n blank)
marks-replicate zero = refl
marks-replicate (suc n) = ap (λ (t : List ℕ). 0 ∷ t) (marks-replicate n)

module _ (o : Outcome) where
  pub set-effects :
      (done : List Outcome) (rest : List Outcome)
      → set (effects_of (done ++ blank ∷ rest)) (length done) o.eft ≡ effects_of (done ++ o ∷ rest)
  set-effects [] rest = refl
  set-effects (d ∷ ds) rest = ap (λ t. d.eft ∷ t) (set-effects ds rest)

  pub set-marks :
      (done : List Outcome) (rest : List Outcome)
      → set (marks_of (done ++ blank ∷ rest)) (length done) (mark o.matched)
        ≡ marks_of (done ++ o ∷ rest)
  set-marks [] rest = refl
  set-marks (d ∷ ds) rest = ap (λ t. mark d.matched ∷ t) (set-marks ds rest)

  pub at-effects :
      (done : List Outcome) (rest : List Outcome)
      → at (effects_of (done ++ o ∷ rest)) (length done) ≡ ok o.eft
  at-effects [] rest = refl
  at-effects (d ∷ ds) rest = at-effects ds rest

  pub at-marks :
      (done : List Outcome) (rest : List Outcome)
      → at (marks_of (done ++ o ∷ rest)) (length done) ≡ ok (mark o.matched)
  at-marks [] rest = refl
  at-marks (d ∷ ds) rest = at-marks ds rest

  pub denied_lem :
      (done : List Outcome) (rest : List Outcome)
      → denied (effects_of (done ++ o ∷ rest)) (marks_of (done ++ o ∷ rest)) (length done)
        ≡ ok (denies o)
  unfolding denied
  denied_lem done rest = ground (arith, at-effects done rest, at-marks done rest)

pub first_allow_lem :
    (os : List Outcome) (i : ℕ)
    → first_allow (effects_of os) (marks_of os) i ≡ ok (allow_at (first_index allows i os))
unfolding first_allow
first_allow_lem [] i = refl
first_allow_lem (o ∷ os) i = ground (arith, first_allow_lem os (i + 1))

-- The descending scan, one step down from index `i`.
last_decided-suc :
    (es : List Effect) (ms : List ℕ) (i : ℕ) (o : Outcome)
    → at es i ≡ ok o.eft
    → at ms i ≡ ok (mark o.matched)
    → last_decided (suc i) es ms ≡ (if decides o then ok (o.eft, some i) else last_decided i es ms)
unfolding last_decided
last_decided-suc es ms i o he hm = ground arith

-- No outcome among those decides.
abbrev pub Undecided : List Outcome → Type 0
Undecided [] = Unit
Undecided (o ∷ os) = (decides o ≡ false) × Undecided os

pub Undecided-concat :
    (os : List Outcome) (o : Outcome) → Undecided os → decides o ≡ false → Undecided (os ++ o ∷ [])
Undecided-concat [] o u h = (h, tt)
Undecided-concat (x ∷ os) o u h = (u.0, Undecided-concat os o u.1 h)

pub Undecided-blank : (k : ℕ) → Undecided (replicate k blank)
Undecided-blank zero = tt
Undecided-blank (suc k) = (refl, Undecided-blank k)

pub Undecided-append : (os ps : List Outcome) → Undecided os → Undecided ps → Undecided (os ++ ps)
Undecided-append [] ps u v = v
Undecided-append (o ∷ os) ps u v = (u.0, Undecided-append os ps u.1 v)

-- Below any index that is in range, undecided outcomes leave the scan without a result.
at-Undecided :
    (os : List Outcome) (i : ℕ)
    → Undecided os
    → i < length os
    → (o : Outcome) × (at (effects_of os) i ≡ ok o.eft)
      × (at (marks_of os) i ≡ ok (mark o.matched))
      × (decides o ≡ false)
at-Undecided [] i u h = absurd (omega arith)
at-Undecided (o ∷ os) zero u h = (o, refl, refl, u.0)
at-Undecided (o ∷ os) (suc i) u h = at-Undecided os i u.1 (omega arith)

pub last_decided-none :
    (os : List Outcome) (i : ℕ)
    → Undecided os
    → i ≤ length os
    → last_decided i (effects_of os) (marks_of os) ≡ ok (indeterminate, none)
unfolding last_decided
last_decided-none os zero u h = refl
last_decided-none os (suc i) u h =
    let (o, e, m, d) = at-Undecided os i u (omega arith) in
    last_decided-suc (effects_of os) (marks_of os) i o e m
    ∙ (rw d (last_decided-none os i u (omega arith)))

module _ (o : Outcome) (rest : List Outcome) (u : Undecided rest) where
  beyond :
      (done : List Outcome) (i : ℕ)
      → length done < i
      → i < length (done ++ o ∷ rest)
      → (x : Outcome) × (at (effects_of (done ++ o ∷ rest)) i ≡ ok x.eft)
        × (at (marks_of (done ++ o ∷ rest)) i ≡ ok (mark x.matched))
        × (decides x ≡ false)
  beyond [] zero h k = absurd (omega arith)
  beyond [] (suc i) h k = at-Undecided rest i u (omega arith)
  beyond (d ∷ ds) zero h k = absurd (omega arith)
  beyond (d ∷ ds) (suc i) h k = beyond ds i (omega arith) (omega arith)

  -- The scan from above passes the undecided outcomes and stops at `o`.
  last_decided-some :
      (done : List Outcome) (i : ℕ)
      → decides o ≡ true
      → length done < i
      → i ≤ length (done ++ o ∷ rest)
      → last_decided i (effects_of (done ++ o ∷ rest)) (marks_of (done ++ o ∷ rest))
        ≡ ok (o.eft, some (length done))
  last_decided-some done zero d h k = absurd (omega arith)
  last_decided-some done (suc i) d h k = elim (dec_lt (length done) i) [
    | yes above ↦
        let (x, e, m, dx) = beyond done i above (omega arith) in
        last_decided-suc (effects_of all) (marks_of all) i x e m
        ∙ rw dx (last_decided-some done i d above (omega arith))
    | no here ↦
        let same : length done ≡ i = omega arith in
        rw (← same) (
          last_decided-suc (effects_of all) (marks_of all) (length done) o (at-effects o done rest)
            (at-marks o done rest)
          ∙ rw d)
  ]
    where
      all : List Outcome
      all = done ++ o ∷ rest

  pub last_decided_lem :
      (done : List Outcome)
      → Undecided done
      → last_decided
          (length (done ++ o ∷ rest))
          (effects_of (done ++ o ∷ rest))
          (marks_of (done ++ o ∷ rest))
        ≡ ok (if decides o then (o.eft, some (length done)) else (indeterminate, none))
  last_decided_lem done v = elim (Bool-cases (decides o)) [
    | inl d ↦ rw d (
        last_decided-some done (length (done ++ o ∷ rest)) d
          (omega (arith, length-append done (o ∷ rest))) (omega arith))
    | inr d ↦ rw d (
        last_decided-none (done ++ o ∷ rest) (length (done ++ o ∷ rest))
          (Undecided-append done (o ∷ rest) v (d, u)) (omega arith))
  ]

pub length-effects_of : (os : List Outcome) → length (effects_of os) ≡ length os
length-effects_of [] = refl
length-effects_of (o ∷ os) = ap suc (length-effects_of os)
