-- ===== src/Enforcer/Additions.antt =====
-- `removePolicies` of casbin/internal_api.cpp, which adds.
use casbin_cpp.Base.{
  Bool, true, false, not, ◌&&◌, undefined, Option, none, some, List, [], ◌∷◌, ◌++◌, Text, str, Rule,
  ◌==◌, if◌then◌else◌, In, Result, ok, err, ◌≡◌, ◌↔◌, ◌⊎◌, refl,
}
use mathlib.Core.List.{append_assoc}
use casbin_cpp.Policy.{rules_of}
use casbin_cpp.Assertion.{Assertion}
use casbin_cpp.Model
use casbin_cpp.Model.{Model, assertion, contains_some}
use casbin_cpp.Model.Changes.{Holds, Elsewhere}
use casbin_cpp.Model.Additions.{add_policies_lem}
use casbin_cpp.Enforcer.{Enforcer, Adapter, Call, remove_rules, save, notify, answered, pure, ◌>>◌}
use casbin_cpp.Enforcer.Internal
use casbin_cpp.Enforcer.Changes.{
  saved, notified, calls_of, quietly, nothing_saved, notify-ok, told, on_model-ok,
}

-- The adapter, if there is one, is a `BatchAdapter` and does not raise on this call.
abbrev pub AcceptsBatch : Option Adapter → Call → Type 0
AcceptsBatch none c = Unit
AcceptsBatch (some a) c = (a.is_batch ≡ true) × (a.answer c ≡ none)

-- What `save` does with a batch, for an adapter and a flag of their own.
abbrev save_batch : Enforcer → Call → Option Adapter → Bool → Result (Unit {0}) × Enforcer
save_batch s c x on = elim x [
  | none ↦ (ok tt, s)
  | some a ↦
      if on
      then if true && not a.is_batch
        then (err undefined, s)
        else (answered (a.answer c), record s { calls = s.calls ++ c ∷ [] })
      else (ok tt, s)
]

saving_batch :
    (s : Enforcer) (c : Call) (x : Option Adapter) (on : Bool)
    → AcceptsBatch x c
    → save_batch s c x on ≡ quietly (record s { calls = s.calls ++ saved x on c })
saving_batch s c none on h = nothing_saved s
saving_batch s c (some a) true h = rw (h.0, h.1)
saving_batch s c (some a) false h = nothing_saved s

save-batch :
    (s : Enforcer) (c : Call)
    → AcceptsBatch s.adapter c
    → save true c s ≡ (ok tt, record s { calls = s.calls ++ saved s.adapter s.auto_save c })
unfolding save
save-batch s c h = saving_batch s c s.adapter s.auto_save h

told_batch :
    (s : Enforcer) (c : Call)
    → AcceptsBatch s.adapter c
    → ((save true c >> notify) >> pure true) s
      ≡ (ok true, record s { calls = s.calls ++ calls_of s c })
told_batch s c h = rw (save-batch s c h) (
    rw (notify-ok (record s { calls = s.calls ++ saved s.adapter s.auto_save c })) (
      rw (
        append_assoc s.calls (saved s.adapter s.auto_save c)
          (notified (s.watcher && s.auto_notify_watcher)))))

module _ (s : Enforcer) (sec p_type : Text) (a : Assertion)
    (there : assertion s.model sec p_type ≡ ok a) (plain : (sec == str "g") ≡ false)
    (rules : List Rule) (accepts : AcceptsBatch s.adapter (remove_rules sec p_type rules)) where
  -- For an assertion that is there, in a section other than "g", and an adapter, when there is one,
  -- that takes batches and does not raise, the enforcer's `removePolicies` returns. When the policy
  -- has one of the rules up to a permutation of its fields, the answer is false and nothing
  -- changes. Otherwise the answer is true and the policy has the rules that it had and, added, the
  -- ones to be removed, and no others; no other assertion and no role manager changes; the adapter,
  -- when there is one and changes are saved, is told to remove them, and then the watcher, when
  -- there is one to be notified, is called.
  pub remove_policies_lem :
      (contains_some rules (rules_of a.policy) ≡ true
        → Internal.remove_policies sec p_type rules s ≡ (ok false, s))
      × (contains_some rules (rules_of a.policy) ≡ false
          → (s' : Enforcer) × (left : List Rule) × (Internal.remove_policies sec p_type rules s
              ≡ (ok true, s'))
            × Holds sec p_type a left s'.model
            × ((x : Rule) → In x left ↔ (In x (rules_of a.policy) ⊎ In x rules))
            × Elsewhere sec p_type s.model s'.model
            × (s'.managers ≡ s.managers)
            × (s'.calls ≡ s.calls ++ calls_of s (remove_rules sec p_type rules)))
  unfolding Internal.remove_policies Internal.link_if_grouping
  remove_policies_lem = (
    λ h. rw (
        on_model-ok (Model.add_policies sec p_type rules) s false s.model
          ((add_policies_lem s.model sec p_type a there rules).0 h)),
    λ h.
        let (model', left, e, holds, members, elsewhere) =
          (add_policies_lem s.model sec p_type a there rules).1 h in
        (
          told s model' (calls_of s (remove_rules sec p_type rules)),
          left,
          rw (on_model-ok (Model.add_policies sec p_type rules) s true model' e) (
              rw plain
                (told_batch (record s { model = model' }) (remove_rules sec p_type rules) accepts)),
          holds,
          members,
          elsewhere,
          refl,
          refl,
        ),
  )
