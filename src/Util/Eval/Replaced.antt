-- ===== src/Util/Eval/Replaced.antt =====
-- `ReplaceEvalWithMap` and `GetEvalValue` on a text whose calls of eval() are known.
use casbin_cpp.Base.{
  ℕ, zero, suc, ◌≤◌, true, false, none, some, List, [], ◌∷◌, ◌++◌, Text, str, length, subst, ◌≡◌,
  refl, ap, ◌∙◌, inl, inr, arith, Option-cases,
}
use casbin_cpp.Base.Assoc.{Assoc, lookup}
use casbin_cpp.Util.Split.Single.{Without}
use casbin_cpp.Util.Eval.{
  EvalMatch, search_from, eval_search, eval_values, get_eval_value, has_eval, replace_eval_with_map,
  search_from-shorter, replace_eval_with_map_unrolled,
}
use casbin_cpp.Util.Eval.Calls.{Spelled, boundary, search-Without, search-call, search-inside}

-- A call, and what stands between it and the call before.
pub record EvalCall : Type 0 where
  pub plain : Text
  pub word : Text
  pub arg : Text

abbrev pub text_of : List EvalCall → Text → Text
text_of [] tail = tail
text_of (k ∷ ks) tail = k.plain ++ (k.word ++ (k.arg ++ b')' ∷ text_of ks tail))

-- The text with each call replaced by the value of its argument, when there is one.
abbrev pub valued : Assoc Text → List EvalCall → Text → Text
valued sets [] tail = tail
valued sets (k ∷ ks) tail =
    let rest = valued sets ks tail in
    k.plain ++ (elim (lookup k.arg sets) [
      | some v ↦ v ++ rest
      | none ↦ k.word ++ (k.arg ++ (str ")" ++ rest))
    ])

-- Each call: no opening bracket before it and no letter, digit or underscore directly before it, a
-- word that spells "eval(" in any case, and no closing bracket in its argument.
abbrev pub AreCalls : List EvalCall → Type 0
AreCalls [] = Unit
AreCalls (k ∷ ks) =
    (Without b'(' k.plain × (boundary true k.plain ≡ true) × Spelled k.word × Without b')' k.arg)
    × AreCalls ks

five_letters : (word : Text) → Spelled word → (v w x y z : ℕ) × (word ≡ v ∷ w ∷ x ∷ y ∷ z ∷ [])
five_letters (v ∷ w ∷ x ∷ y ∷ z ∷ []) h = (v, w, x, y, z, refl)
five_letters [] h = absurd (omega (arith, ap length h))
five_letters (v ∷ []) h = absurd (omega (arith, ap length h))
five_letters (v ∷ w ∷ []) h = absurd (omega (arith, ap length h))
five_letters (v ∷ w ∷ x ∷ []) h = absurd (omega (arith, ap length h))
five_letters (v ∷ w ∷ x ∷ y ∷ []) h = absurd (omega (arith, ap length h))
five_letters (v ∷ w ∷ x ∷ y ∷ z ∷ u ∷ s) h = absurd (omega (arith, ap length h))

search-Spelled :
    (plain word arg rest : Text)
    → Without b'(' plain
    → boundary true plain ≡ true
    → Spelled word
    → Without b')' arg
    → eval_search (plain ++ (word ++ (arg ++ b')' ∷ rest)))
      ≡ some (record { before = plain; word = word; arg = arg; after = rest })
unfolding eval_search
search-Spelled plain word arg rest g at h k =
    let (v, w, x, y, z, e) = five_letters word h in
    rw e (search-call v w x y z (subst (λ t. Spelled t) e h) true plain arg rest g k at)

-- The loop of `GetEvalValue`, a round for every match.
eval_values-fuel :
    (n k : ℕ) (s : Text) → length s ≤ n → length s ≤ k → eval_values n s ≡ eval_values k s
unfolding eval_values eval_search
eval_values-fuel zero zero s h l = refl
eval_values-fuel zero (suc k) [] h l = unfold search_from in refl
eval_values-fuel zero (suc k) (c ∷ s) h l = absurd (omega arith)
eval_values-fuel (suc n) zero [] h l = unfold search_from in refl
eval_values-fuel (suc n) zero (c ∷ s) h l = absurd (omega arith)
eval_values-fuel (suc n) (suc k) s h l = elim (Option-cases (search_from true s)) [
  | inl e ↦ rw (e, eval_values) refl
  | inr (m, e) ↦
      let shorter = search_from-shorter true s m e in
      rw (e, eval_values)
        (ap (λ t. m.arg ∷ t) (eval_values-fuel n k m.after (omega arith) (omega arith)))
]

get_eval_value-none : (s : Text) → eval_search s ≡ none → get_eval_value s ≡ []
unfolding get_eval_value eval_values
get_eval_value-none s h =
    eval_values-fuel (length s) (suc (length s)) s (omega arith) (omega arith)
    ∙ rw (h, eval_values) refl

get_eval_value-some :
    (s : Text) (m : EvalMatch)
    → eval_search s ≡ some m
    → get_eval_value s ≡ m.arg ∷ get_eval_value m.after
unfolding get_eval_value eval_values
get_eval_value-some s m h =
    let shorter = search_from-shorter true s m (unfold eval_search in h) in
    eval_values-fuel (length s) (suc (length s)) s (omega arith) (omega arith)
    ∙ rw (h, eval_values)
        (ap (λ t. m.arg ∷ t)
          (eval_values-fuel (length s) (length m.after) m.after (omega arith) (omega arith)))

abbrev pub args_of : List EvalCall → List Text
args_of [] = []
args_of (k ∷ ks) = k.arg ∷ args_of ks

calls_replaced :
    (ks : List EvalCall) (tail : Text) (sets : Assoc Text)
    → AreCalls ks
    → Without b'(' tail
    → (replace_eval_with_map (text_of ks tail) sets ≡ valued sets ks tail)
      × (get_eval_value (text_of ks tail) ≡ args_of ks)
calls_replaced [] tail sets g q =
    let nothing : eval_search tail ≡ none = unfold eval_search in search-Without true tail q in
    ((replace_eval_with_map_unrolled tail sets).0 nothing, get_eval_value-none tail nothing)
calls_replaced (k ∷ ks) tail sets ((p, at, h, close), g) q =
    let rest = text_of ks tail in
    let found = search-Spelled k.plain k.word k.arg rest p at h close in
    let (ih, ih_values) = calls_replaced ks tail sets g q in
    (
      (replace_eval_with_map_unrolled (text_of (k ∷ ks) tail) sets).1 _ found
          ∙ ap
              (λ (t : Text). k.plain ++ (elim (lookup k.arg sets) [
                | some v ↦ v ++ t
                | none ↦ k.word ++ (k.arg ++ (str ")" ++ t))
              ]))
              ih,
      get_eval_value-some (text_of (k ∷ ks) tail) _ found ∙ ap (λ t. k.arg ∷ t) ih_values,
    )

-- For a text made of calls of eval() and what stands between and behind them, where no opening
-- bracket and, directly before a call, no letter, digit or underscore stands, each call is spelled
-- in any case and its argument has no closing bracket: `ReplaceEvalWithMap` replaces the calls
-- whose argument has a value by that value, and keeps the others and all that stands between, and
-- `GetEvalValue` returns the arguments in order. And a text whose only bracket follows "eval" with
-- a letter, digit or underscore directly before it has no call: `HasEval` is false and
-- `ReplaceEvalWithMap` returns it as it is.
pub replace_eval_with_map_lem :
    (ks : List EvalCall) (tail plain word rest : Text) (sets : Assoc Text)
    → AreCalls ks
    → Without b'(' tail
    → Without b'(' plain
    → boundary true plain ≡ false
    → Spelled word
    → Without b'(' rest
    → (replace_eval_with_map (text_of ks tail) sets ≡ valued sets ks tail)
      × (get_eval_value (text_of ks tail) ≡ args_of ks)
      × (has_eval (plain ++ (word ++ rest)) ≡ false)
      × (replace_eval_with_map (plain ++ (word ++ rest)) sets ≡ plain ++ (word ++ rest))
unfolding has_eval
replace_eval_with_map_lem ks tail plain word rest sets calls q p at h r =
    let (replaced, values) = calls_replaced ks tail sets calls q in
    let (v, w, x, y, z, e) = five_letters word h in
    let nothing : eval_search (plain ++ (word ++ rest)) ≡ none =
      unfold eval_search in
      rw e (search-inside v w x y z (subst (λ t. Spelled t) e h) true plain rest p r at) in
    (
      replaced,
      values,
      rw (nothing, has_eval) refl,
      (replace_eval_with_map_unrolled (plain ++ (word ++ rest)) sets).0 nothing,
    )
