-- ===== src/Enforcer/Enforce/Decided.antt =====
-- The first rule that the matcher accepts and that allows or denies.
use casbin_cpp.Base.{
  ℕ, zero, suc, ◌+◌, ◌<◌, Bool, true, false, none, some, List, [], ◌∷◌, Text, Rule, length, map,
  get_elem?, In, ◌≡◌, refl, ap, sym, ◌∙◌, ◌⊎◌, inl, inr, arith, Bool-cases, ok,
}
use casbin_cpp.Effect.{Effect, allow, deny, indeterminate, Outcome, is_allow, is_deny}
use casbin_cpp.Effect.Scan.{allows, decides}
use casbin_cpp.Effect.Verdict.{first_decided}
use casbin_cpp.Enforcer.Enforce.{effect_of}
use casbin_cpp.Enforcer.Enforce.Rounds.{effect_or, effect_or-ok, allows_iff, denies_iff, outcome}

-- No outcome is decided, or this rule has the first that is.
abbrev pub NoneDecides : (Rule → Outcome) → List Rule → Type 0
NoneDecides f rules = (q : Rule) → In q rules → decides (f q) ≡ false

abbrev pub FirstDecides : (Rule → Outcome) → List Rule → ℕ → Rule → Type 0
FirstDecides f rules k r =
    (get_elem? rules k ≡ some r)
    × In r rules
    × (decides (f r) ≡ true)
    × ((j : ℕ) (q : Rule)
        → j < k
        → get_elem? rules j ≡ some q
        → In q rules × (decides (f q) ≡ false))

still_before :
    (f : Rule → Outcome) (r : Rule) (rules : List Rule) (k : ℕ)
    → decides (f r) ≡ false
    → ((j : ℕ) (q : Rule)
        → j < k
        → get_elem? rules j ≡ some q
        → In q rules × (decides (f q) ≡ false))
    → (j : ℕ) (q : Rule) → j < suc k
    → get_elem? (r ∷ rules) j ≡ some q
    → In q (r ∷ rules) × (decides (f q) ≡ false)
still_before f r rules k t before zero q l here =
    let same : r ≡ q = ground arith in (inl (sym same), ap (λ z. decides (f z)) (sym same) ∙ t)
still_before f r rules k t before (suc j) q l here =
    let (at, bad) = before j q (omega arith) here in (inr at, bad)

pub first_decided_lem :
    (f : Rule → Outcome) (rules : List Rule) (i : ℕ)
    → (NoneDecides f rules × (first_decided i (map f rules) ≡ (indeterminate, none)))
      ⊎ ((k : ℕ) × (r : Rule) × FirstDecides f rules k r
          × (first_decided i (map f rules) ≡ ((f r).eft, some (i + k))))
first_decided_lem f [] i = inl (λ q h. absurd h, refl)
first_decided_lem f (r ∷ rules) i = elim (Bool-cases (decides (f r))) [
  | inl t ↦ inr (
    0,
    r,
    (refl, inl refl, t, λ j q h. absurd (omega arith)),
    rw t (ap (λ n. ((f r).eft, some n)) (omega arith)),
  )
  | inr t ↦ elim (first_decided_lem f rules (i + 1)) [
    | inl (quiet, e) ↦ inl (
      λ q h. elim h [ inl same ↦ ap (λ z. decides (f z)) same ∙ t | inr later ↦ quiet q later ],
      rw t e,
    )
    | inr (k, q, (there, h, good, before), e) ↦ inr (
      suc k,
      q,
      (there, inr h, good, still_before f r rules k t before),
      rw t (e ∙ ap (λ n. ((f q).eft, some n)) (omega arith)),
    )
  ]
]

neither : (e : Effect) → is_allow e ≡ false → is_deny e ≡ false → e ≡ indeterminate
neither allow h k = absurd cc
neither indeterminate h k = refl
neither deny h k = absurd cc

module _ (accepts : Rule → Bool) (tokens : List Text) (r : Rule)
    (z : length r ≡ length tokens) where
  same_effect : (eft : Effect) → effect_of tokens r ≡ ok eft → effect_or tokens r ≡ eft
  same_effect eft e = cc (e, effect_or-ok tokens r z)

  pub decided_effect :
      decides (outcome accepts tokens r) ≡ true
      → (accepts r ≡ true) × ((effect_or tokens r ≡ allow) ⊎ (effect_or tokens r ≡ deny))
  decided_effect h = elim (Bool-cases (allows (outcome accepts tokens r))) [
    | inl t ↦ let (a, e) = (allows_iff accepts tokens r z).0 t in (a, inl (same_effect allow e))
    | inr t ↦
        let (a, e) = (denies_iff accepts tokens r z).0 (ground arith) in
        (a, inr (same_effect deny e))
  ]

  pub undecided_effect :
      decides (outcome accepts tokens r) ≡ false
      → accepts r ≡ true
      → effect_of tokens r ≡ ok indeterminate
  undecided_effect h a =
      effect_or-ok tokens r z ∙ ap ok (neither (effect_or tokens r) (ground arith) (ground arith))

-- A rule that the matcher accepts, with an effect.
abbrev pub Decided : List Text → (Rule → Bool) → Rule → Effect → Type 0
Decided tokens accepts r eft = (accepts r ≡ true) × (effect_of tokens r ≡ ok eft)

-- A rule that the matcher accepts has neither effect.
abbrev pub Neutral : List Text → (Rule → Bool) → Rule → Type 0
Neutral tokens accepts r = accepts r ≡ true → effect_of tokens r ≡ ok indeterminate
