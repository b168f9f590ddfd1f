-- ===== src/Enforcer/Enforce/Rounds.antt =====
-- One round of the loop of `m_enforce`: the size of the rules, and the outcome of one of them.
use casbin_cpp.Base.{
  ℕ, ◌+◌, ◌<◌, Bool, true, some, List, [], ◌∷◌, Text, str, Rule, ◌==◌, if◌then◌else◌, length, In,
  ◌≡◌, ◌↔◌, refl, ap, ◌∙◌, sym, inl, inr, arith, Option-cases, Result, ok, err,
}
use casbin_cpp.Base.Assoc.{Assoc, lookup, insert, lookup-insert}
use casbin_cpp.Effect.{Effect, allow, deny, indeterminate, Outcome, is_allow, is_deny}
use casbin_cpp.Effect.Scan.{allows, denies}
use casbin_cpp.Model.Filters.{at-returns}
use casbin_cpp.Enforcer.Enforce.{int_tokens, p_int_tokens, effect_of}

-- Every rule has a field for every token.
abbrev pub Sized : ℕ → List Rule → Type 0
Sized n [] = Unit
Sized n (r ∷ rs) = (length r ≡ n) × Sized n rs

pub Sized-In : (n : ℕ) (rules : List Rule) (r : Rule) → Sized n rules → In r rules → length r ≡ n
Sized-In n [] r z i = absurd i
Sized-In n (x ∷ rules) r z i = elim i [
  | inl e ↦ ap length e ∙ z.0
  | inr later ↦ Sized-In n rules r z.1 later
]

lookup-int_tokens :
    (ts : List Text) (i : ℕ) (acc : Assoc ℕ) (t : Text)
    → ((j : ℕ) → lookup t acc ≡ some j → j < i)
    → (j : ℕ) → lookup t (int_tokens ts i acc) ≡ some j
    → j < i + length ts
unfolding int_tokens
lookup-int_tokens [] i acc t h j e = omega (arith, h j e)
lookup-int_tokens (x ∷ ts) i acc t h j e =
    let bound =
      lookup-int_tokens ts (i + 1) (insert x i acc) t
        (λ k f. ground (arith, lookup-insert x t i acc, h k)) j e in
    omega (arith, bound)

pub effect_of-returns :
    (tokens : List Text) (r : Rule)
    → length r ≡ length tokens
    → (e : Effect) × (effect_of tokens r ≡ ok e)
unfolding effect_of lookup
effect_of-returns tokens r z = elim (Option-cases (lookup (str "p_eft") (p_int_tokens tokens))) [
  | inl none_there ↦ (allow, rw (none_there, effect_of))
  | inr (j, there) ↦
      let bound = lookup-int_tokens tokens 0 [] (str "p_eft") (λ k f. cc) j there in
      let (x, here) = at-returns r j (omega (arith, bound, z)) in
      (
        (if x == str "allow" then allow else if x == str "deny" then deny else indeterminate),
        rw (there, effect_of) (rw here),
      )
]

abbrev or_indeterminate : Result Effect → Effect
or_indeterminate (ok e) = e
or_indeterminate (err e) = indeterminate

-- The effect of a rule that has a field for every token.
abbrev pub effect_or : List Text → Rule → Effect
effect_or tokens r = or_indeterminate (effect_of tokens r)

pub effect_or-ok :
    (tokens : List Text) (r : Rule)
    → length r ≡ length tokens
    → effect_of tokens r ≡ ok (effect_or tokens r)
effect_or-ok tokens r z =
    let (e, g) = effect_of-returns tokens r z in g ∙ sym (ap (λ o. ok (or_indeterminate o)) g)

abbrev pub outcome : (Rule → Bool) → List Text → Rule → Outcome
outcome accepts tokens r = record { matched = accepts r; eft = effect_or tokens r }

is_allow_iff : (e : Effect) → (is_allow e ≡ true) ↔ (e ≡ allow)
is_allow_iff allow = (λ h. refl, λ h. refl)
is_allow_iff indeterminate = (λ h. cc, λ h. cc)
is_allow_iff deny = (λ h. cc, λ h. cc)

is_deny_iff : (e : Effect) → (is_deny e ≡ true) ↔ (e ≡ deny)
is_deny_iff allow = (λ h. cc, λ h. cc)
is_deny_iff indeterminate = (λ h. cc, λ h. cc)
is_deny_iff deny = (λ h. refl, λ h. refl)

module _ (accepts : Rule → Bool) (tokens : List Text) (r : Rule)
    (z : length r ≡ length tokens) where
  pub allows_iff :
      (allows (outcome accepts tokens r) ≡ true)
      ↔ ((accepts r ≡ true) × (effect_of tokens r ≡ ok allow))
  allows_iff = ground (arith, is_allow_iff (effect_or tokens r), effect_or-ok tokens r z)

  pub denies_iff :
      (denies (outcome accepts tokens r) ≡ true)
      ↔ ((accepts r ≡ true) × (effect_of tokens r ≡ ok deny))
  denies_iff = ground (arith, is_deny_iff (effect_or tokens r), effect_or-ok tokens r z)
