-- ===== src/Enforcer/Changes.antt =====
-- The operations of casbin/internal_api.cpp as a whole: the model, the adapter and the watcher.
use mathlib.Core.List.{append_assoc, append-nil}
use casbin_cpp.Base.{
  Bool, true, false, not, undefined, ◌&&◌, Option, none, some, List, [], ◌∷◌, ◌++◌, Text, str, Rule,
  ◌==◌, if◌then◌else◌, Result, ok, err, ◌≡◌, refl, sym, ap, inl, inr, Bool-cases,
}
use casbin_cpp.Policy.{rules_of}
use casbin_cpp.Assertion.{Assertion}
use casbin_cpp.Model
use casbin_cpp.Model.{Model, assertion, contains_rule}
use casbin_cpp.Model.Changes.{Holds, Elsewhere, Erased, add_policy_lem, remove_policy_lem}
use casbin_cpp.Enforcer.{
  Enforcer, Adapter, Call, add_rule, remove_rule, update_watcher, save, notify, on_model, answered,
  pure, ◌>>◌,
}
use casbin_cpp.Enforcer.Internal

-- The adapter, if there is one, does not raise on this call.
abbrev pub Accepts : Option Adapter → Call → Type 0
Accepts none c = Unit
Accepts (some a) c = a.answer c ≡ none

-- The calls that a change makes: of the adapter when changes are saved, and of the watcher.
abbrev pub saved : Option Adapter → Bool → Call → List Call
saved none on c = []
saved (some a) true c = c ∷ []
saved (some a) false c = []

abbrev pub notified : Bool → List Call
notified true = update_watcher ∷ []
notified false = []

abbrev pub quietly : Enforcer → Result (Unit {0}) × Enforcer
quietly s = (ok tt, s)

pub nothing_saved : (s : Enforcer) → quietly s ≡ quietly (record s { calls = s.calls ++ [] })
nothing_saved s = ap (λ l. quietly (record s { calls = l })) (sym (append-nil s.calls))

-- What `save` does, for an adapter and a flag of their own.
abbrev save_with : Enforcer → Call → Option Adapter → Bool → Result (Unit {0}) × Enforcer
save_with s c x on = elim x [
  | none ↦ (ok tt, s)
  | some a ↦
      if on
      then if false && not a.is_batch
        then (err undefined, s)
        else (answered (a.answer c), record s { calls = s.calls ++ c ∷ [] })
      else (ok tt, s)
]

saving :
    (s : Enforcer) (c : Call) (x : Option Adapter) (on : Bool)
    → Accepts x c
    → save_with s c x on ≡ quietly (record s { calls = s.calls ++ saved x on c })
saving s c none on h = nothing_saved s
saving s c (some a) true h = ap (λ z. (answered z, record s { calls = s.calls ++ c ∷ [] })) h
saving s c (some a) false h = nothing_saved s

save-ok :
    (s : Enforcer) (c : Call)
    → Accepts s.adapter c
    → save false c s ≡ (ok tt, record s { calls = s.calls ++ saved s.adapter s.auto_save c })
unfolding save
save-ok s c h = saving s c s.adapter s.auto_save h

pub notify-ok :
    (s : Enforcer)
    → notify s
      ≡ (ok tt, record s { calls = s.calls ++ notified (s.watcher && s.auto_notify_watcher) })
unfolding notify
notify-ok s = elim (Bool-cases (s.watcher && s.auto_notify_watcher)) [
  | inl e ↦ rw e
  | inr e ↦ rw e (rw (append-nil s.calls))
]

-- The enforcer after a change of the model that is saved and notified.
abbrev pub told : Enforcer → Model → List Call → Enforcer
told s model calls = record s { model = model; calls = s.calls ++ calls }

abbrev pub calls_of : Enforcer → Call → List Call
calls_of s c = saved s.adapter s.auto_save c ++ notified (s.watcher && s.auto_notify_watcher)

pub on_model-ok :
    {A : Type 0} (f : Model → Result (A × Model)) (s : Enforcer) (v : A) (m : Model)
    → f s.model ≡ ok (v, m)
    → on_model f s ≡ (ok v, record s { model = m })
on_model-ok f s v m e = rw (e, on_model)

-- Saving and notifying after the model was changed.
rest-ok :
    (s : Enforcer) (c : Call)
    → Accepts s.adapter c
    → ((save false c >> notify) >> pure true) s
      ≡ (ok true, record s { calls = s.calls ++ calls_of s c })
rest-ok s c h = rw (save-ok s c h) (
    rw (notify-ok (record s { calls = s.calls ++ saved s.adapter s.auto_save c })) (
      rw (
        append_assoc s.calls (saved s.adapter s.auto_save c)
          (notified (s.watcher && s.auto_notify_watcher)))))

module _ (s : Enforcer) (sec p_type : Text) (a : Assertion)
    (there : assertion s.model sec p_type ≡ ok a) (plain : (sec == str "g") ≡ false) where
  -- For an assertion that is there, in a section other than "g", and an adapter that does not
  -- raise, the enforcer's `addPolicy` returns. When the policy has the rule up to a permutation of
  -- its fields, the answer is false and nothing changes. Otherwise the answer is true, the rule
  -- stands behind the rules that were there, no other assertion and no role manager changes, and
  -- the calls made are one of the adapter, when there is one and changes are saved, and then one
  -- of the watcher, when there is one to be notified.
  -- Where the new rule stands is meant for a vector; the order of a hash set is open.
  pub add_policy-changes :
      (rule : Rule)
      → Accepts s.adapter (add_rule sec p_type rule)
      → (contains_rule rule (rules_of a.policy) ≡ true
          → Internal.add_policy sec p_type rule s ≡ (ok false, s))
        × (contains_rule rule (rules_of a.policy) ≡ false
            → (s' : Enforcer) × (Internal.add_policy sec p_type rule s ≡ (ok true, s'))
              × Holds sec p_type a (rules_of a.policy ++ rule ∷ []) s'.model
              × Elsewhere sec p_type s.model s'.model
              × (s'.managers ≡ s.managers)
              × (s'.calls ≡ s.calls ++ calls_of s (add_rule sec p_type rule)))
  unfolding Internal.add_policy Internal.link_if_grouping
  add_policy-changes rule accepts = (
    λ h. rw (
        on_model-ok (Model.add_policy sec p_type rule) s false s.model
          ((add_policy_lem s.model sec p_type a there rule).0 h)),
    λ h.
        let (model', e, holds, elsewhere) = (add_policy_lem s.model sec p_type a there rule).1 h in
        (
          told s model' (calls_of s (add_rule sec p_type rule)),
          rw (on_model-ok (Model.add_policy sec p_type rule) s true model' e)
              (rw plain (rest-ok (record s { model = model' }) (add_rule sec p_type rule) accepts)),
          holds,
          elsewhere,
          refl,
          refl,
        ),
  )

  -- For an assertion that is there, in a section other than "g", and an adapter that does not
  -- raise, the enforcer's `removePolicy` returns. When the policy does not have the rule up to a
  -- permutation of its fields, the answer is false and nothing changes. Otherwise the answer is
  -- true, the first such rule is gone, no other assertion and no role manager changes, and the
  -- calls made are one of the adapter, when there is one and changes are saved, and then one of
  -- the watcher, when there is one to be notified.
  pub remove_policy-changes :
      (rule : Rule)
      → Accepts s.adapter (remove_rule sec p_type rule)
      → (contains_rule rule (rules_of a.policy) ≡ false
          → Internal.remove_policy sec p_type rule s ≡ (ok false, s))
        × (contains_rule rule (rules_of a.policy) ≡ true
            → (s' : Enforcer) × (left : List Rule) × (Internal.remove_policy sec p_type rule s
                ≡ (ok true, s'))
              × Erased rule (rules_of a.policy) left
              × Holds sec p_type a left s'.model
              × Elsewhere sec p_type s.model s'.model
              × (s'.managers ≡ s.managers)
              × (s'.calls ≡ s.calls ++ calls_of s (remove_rule sec p_type rule)))
  unfolding Internal.remove_policy Internal.link_if_grouping
  remove_policy-changes rule accepts = (
    λ h. rw (
        on_model-ok (Model.remove_policy sec p_type rule) s false s.model
          ((remove_policy_lem s.model sec p_type a there rule).0 h)),
    λ h.
        let (model', left, e, erased, holds, elsewhere) =
          (remove_policy_lem s.model sec p_type a there rule).1 h in
        (
          told s model' (calls_of s (remove_rule sec p_type rule)),
          left,
          rw (on_model-ok (Model.remove_policy sec p_type rule) s true model' e) (
              rw plain
                (rest-ok (record s { model = model' }) (remove_rule sec p_type rule) accepts)),
          erased,
          holds,
          elsewhere,
          refl,
          refl,
        ),
  )
