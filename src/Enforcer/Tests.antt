-- ===== src/Enforcer/Tests.antt =====
-- The enforcer's operations on a small model, with an adapter that takes every call.
use casbin_cpp.Base.{
  true, false, none, some, List, [], ◌∷◌, ◌++◌, str, Rule, ◌==◌, ◌≡◌, ◌↔◌, ◌⊎◌, In, refl, ok,
}
use casbin_cpp.Policy.{rules_of}
use casbin_cpp.Model.{contains_rule, contains_some}
use casbin_cpp.Model.Changes.{Holds, Elsewhere, Erased}
use casbin_cpp.Model.Tests.{sample_model, p_assertion, carol_read, bob_write, has_p}
use casbin_cpp.Enforcer.Additions.{remove_policies_lem}
use casbin_cpp.Enforcer.{Enforcer, Adapter, add_rule, remove_rule, remove_rules}
use casbin_cpp.Enforcer.Internal
use casbin_cpp.Enforcer.Changes.{calls_of, add_policy-changes, remove_policy-changes}

abbrev taking_adapter : Adapter
taking_adapter = record { is_batch = false; answer = λ c. none }

abbrev sample_enforcer : Enforcer
sample_enforcer = record {
  model = sample_model;
  adapter = some taking_adapter;
  watcher = true;
  enabled = true;
  auto_save = true;
  auto_build_role_links = true;
  auto_notify_watcher = true;
  rm = 0;
  managers = [];
  calls = [];
}

p_plain : (str "p" == str "g") ≡ false
unfolding ◌==◌
p_plain = refl

add_policy-changes_example :
    (contains_rule carol_read (rules_of p_assertion.policy) ≡ true
      → Internal.add_policy (str "p") (str "p") carol_read sample_enforcer
        ≡ (ok false, sample_enforcer))
    × (contains_rule carol_read (rules_of p_assertion.policy) ≡ false
        → (s' : Enforcer) × (Internal.add_policy (str "p") (str "p") carol_read sample_enforcer
            ≡ (ok true, s'))
          × Holds
              (str "p")
              (str "p")
              p_assertion
              (rules_of p_assertion.policy ++ carol_read ∷ [])
              s'.model
          × Elsewhere (str "p") (str "p") sample_model s'.model
          × (s'.managers ≡ [])
          × (s'.calls ≡ [] ++ calls_of sample_enforcer (add_rule (str "p") (str "p") carol_read)))
add_policy-changes_example =
    add_policy-changes sample_enforcer (str "p") (str "p") p_assertion has_p p_plain carol_read refl

remove_policy-changes_example :
    (contains_rule bob_write (rules_of p_assertion.policy) ≡ false
      → Internal.remove_policy (str "p") (str "p") bob_write sample_enforcer
        ≡ (ok false, sample_enforcer))
    × (contains_rule bob_write (rules_of p_assertion.policy) ≡ true
        → (s' : Enforcer) × (left : List Rule) × (Internal.remove_policy
              (str "p")
              (str "p")
              bob_write
              sample_enforcer
            ≡ (ok true, s'))
          × Erased bob_write (rules_of p_assertion.policy) left
          × Holds (str "p") (str "p") p_assertion left s'.model
          × Elsewhere (str "p") (str "p") sample_model s'.model
          × (s'.managers ≡ [])
          × (s'.calls ≡ [] ++ calls_of sample_enforcer (remove_rule (str "p") (str "p") bob_write)))
remove_policy-changes_example =
    remove_policy-changes sample_enforcer (str "p") (str "p") p_assertion has_p p_plain bob_write
      refl

abbrev batch_adapter : Adapter
batch_adapter = record { is_batch = true; answer = λ c. none }

abbrev batch_enforcer : Enforcer
batch_enforcer = record sample_enforcer { adapter = some batch_adapter }

remove_policies_lem_example :
    (contains_some (carol_read ∷ []) (rules_of p_assertion.policy) ≡ true
      → Internal.remove_policies (str "p") (str "p") (carol_read ∷ []) batch_enforcer
        ≡ (ok false, batch_enforcer))
    × (contains_some (carol_read ∷ []) (rules_of p_assertion.policy) ≡ false
        → (s' : Enforcer) × (left : List Rule) × (Internal.remove_policies
              (str "p")
              (str "p")
              (carol_read ∷ [])
              batch_enforcer
            ≡ (ok true, s'))
          × Holds (str "p") (str "p") p_assertion left s'.model
          × ((x : Rule) → In x left ↔ (In x (rules_of p_assertion.policy) ⊎ In x (carol_read ∷ [])))
          × Elsewhere (str "p") (str "p") sample_model s'.model
          × (s'.managers ≡ [])
          × (s'.calls
              ≡ [] ++ calls_of batch_enforcer (remove_rules (str "p") (str "p") (carol_read ∷ []))))
remove_policies_lem_example =
    remove_policies_lem batch_enforcer (str "p") (str "p") p_assertion has_p p_plain
      (carol_read ∷ []) (refl, refl)
