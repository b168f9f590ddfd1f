-- ===== src/Effect/Loop.antt =====
-- The loop over the rules of `m_enforce` as a recursion over the outcomes alone.
use mathlib.Core.List.{append_assoc}
use casbin_cpp.Base.{
  ℕ, suc, ◌+◌, Option, none, List, [], ◌∷◌, ◌++◌, map, ◌≡◌, refl, ap, ◌∙◌, sym, arith, length,
  replicate, set, Result, ok, Text, Rule, length-append, length-map, In, inl, inr,
}
use casbin_cpp.Effect.{
  Effect, allow, indeterminate, deny, Merged, Outcome, mark, merge_effects, rules_loop, after_round,
}
use casbin_cpp.Effect.Scan.{
  blank, effects_of, marks_of, set-effects, set-marks, effects-replicate, marks-replicate,
}

-- The loop ends at the first effect that is not indeterminate.
abbrev pub settle : Merged → Merged → Merged
settle (indeterminate, x) later = later
settle (allow, x) later = (allow, x)
settle (deny, x) later = (deny, x)

-- The loop over the outcomes alone; `v` says what `MergeEffects` returns after `done`, at `o`, with
-- `k` rules still to come.
abbrev pub judge :
    (List Outcome → Outcome → ℕ → Merged) → List Outcome → List Outcome → Merged → Merged
judge v done [] last = last
judge v done (o ∷ os) last =
    let m = v done o (length os) in settle m (judge v (done ++ o ∷ []) os m)

module _ {S : Type 0} (round : S → Rule → Result Outcome × S) (f : Rule → Outcome) (expr : Text)
    (n : ℕ) (P : List Outcome → Type 0) (v : List Outcome → Outcome → ℕ → Merged)
    (merges : (done : List Outcome) (o : Outcome) (k : ℕ)
      → P done
      → length done + suc k ≡ n
      → merge_effects expr
          (effects_of (done ++ o ∷ replicate k blank))
          (marks_of (done ++ o ∷ replicate k blank))
          (length done)
          n
        ≡ ok (v done o k))
    (steps : (done : List Outcome) (o : Outcome) (k : ℕ) (x : Option ℕ)
      → P done
      → v done o k ≡ (indeterminate, x)
      → P (done ++ o ∷ [])) where
  -- One round: the outcome is stored, and the loop ends or goes on as `MergeEffects` says.
  after_round-ok :
      (next : ℕ → List Effect → List ℕ → Merged → S → Result Merged × S) (later : Merged)
      (o : Outcome) (i : ℕ) (es : List Effect) (ms : List ℕ) (s : S) (m : Merged)
      → merge_effects expr (set es i o.eft) (set ms i (mark o.matched)) i n ≡ ok m
      → ((x : Option ℕ)
          → m ≡ (indeterminate, x)
          → (next (i + 1) (set es i o.eft) (set ms i (mark o.matched)) m s).0 ≡ ok later)
      → (after_round round expr n next i es ms (ok o) s).0 ≡ ok (settle m later)
  unfolding after_round
  after_round-ok next later o i es ms s (allow, x) e go = rw (e, after_round)
  after_round-ok next later o i es ms s (deny, x) e go = rw (e, after_round)
  after_round-ok next later o i es ms s (indeterminate, x) e go = rw (e, after_round) (go x refl)

  loop-judge :
      (rs : List Rule) (done : List Outcome) (last : Merged) (s : S) (i : ℕ) (es : List Effect)
      (ms : List ℕ)
      → ((s : S) (r : Rule) → In r rs → (round s r).0 ≡ ok (f r))
      → P done
      → i ≡ length done
      → es ≡ effects_of (done ++ replicate (length rs) blank)
      → ms ≡ marks_of (done ++ replicate (length rs) blank)
      → i + length rs ≡ n
      → (rules_loop round expr n rs i es ms last s).0 ≡ ok (judge v done (map f rs) last)
  unfolding rules_loop
  loop-judge [] done last s i es ms h p ei ee em e = refl
  loop-judge (r ∷ rs) done last s i es ms h p ei ee em e =
      let o = f r in
      let k = length rs in
      let pad = replicate k blank in
      let es' : set es i o.eft ≡ effects_of (done ++ o ∷ pad) =
        rw (ee, ei) (set-effects o done pad) in
      let ms' : set ms i (mark o.matched) ≡ marks_of (done ++ o ∷ pad) =
        rw (em, ei) (set-marks o done pad) in
      rw (h s r (inl refl), length-map f rs)
        (after_round-ok (rules_loop round expr n rs)
          (judge v (done ++ o ∷ []) (map f rs) (v done o k)) o i es ms (round s r).1 (v done o k)
          (rw (es', ms', ei) (merges done o k p (omega arith)))
          (λ x vm.
            loop-judge rs (done ++ o ∷ []) (v done o k) (round s r).1 (i + 1) (set es i o.eft)
              (set ms i (mark o.matched)) (λ t q here. h t q (inr here)) (steps done o k x p vm)
              (omega (arith, length-append done (o ∷ [])))
              (es' ∙ ap effects_of (sym (append_assoc done (o ∷ []) pad)))
              (ms' ∙ ap marks_of (sym (append_assoc done (o ∷ []) pad))) (omega arith)))

  -- The whole loop, from the arrays that it starts with.
  pub loop-all :
      (rs : List Rule) (s : S)
      → ((s : S) (r : Rule) → In r rs → (round s r).0 ≡ ok (f r))
      → P []
      → length rs ≡ n
      → (rules_loop round expr n rs 0
          (replicate (length rs) indeterminate)
          (replicate (length rs) 0)
          (indeterminate, none)
          s).0
        ≡ ok (judge v [] (map f rs) (indeterminate, none))
  loop-all rs s h p e =
      loop-judge rs [] (indeterminate, none) s 0 _ _ h p refl (effects-replicate (length rs))
        (marks-replicate (length rs)) (omega arith)
