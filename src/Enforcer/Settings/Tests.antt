-- ===== src/Enforcer/Settings/Tests.antt =====
-- Loading a policy from an adapter that throws.
use casbin_cpp.Base.{
  adapter, true, ◌==◌, false, none, some, [], Text, str, Result, ok, err, io, ◌≡◌, refl,
}
use casbin_cpp.Effect.{allow_override}
use casbin_cpp.Policy.{PoliciesValues, rules_of}
use casbin_cpp.Model
use casbin_cpp.Model.{Model, get_policy}
use casbin_cpp.Enforcer.{Enforcer, Adapter}
use casbin_cpp.Enforcer.Settings.{load_policy, set_adapter}
use casbin_cpp.Enforcer.Construction.{new_enforcer, load_filtered_policy}
use casbin_cpp.Enforcer.Settings.Loaded.{load_policy_throws}
use casbin_cpp.Enforcer.Enforce.Tests.{small_enforcer}

abbrev quiet : Adapter
quiet = record { is_batch = false; answer = λ c. none }

abbrev no_file : Model → Result (Unit {0}) × Model
no_file m = (err io, m)

abbrev before : Enforcer
unfolding set_adapter
before = set_adapter (some quiet) (small_enforcer allow_override)

load_policy_throws_example :
    (s' : Enforcer) × (load_policy no_file before ≡ (err io, s'))
    × ((p_type : Text) (policy : PoliciesValues)
        → get_policy s'.model (str "p") p_type ≡ ok policy
        → rules_of policy ≡ [])
unfolding before
load_policy_throws_example = load_policy_throws no_file before quiet io refl (λ m. refl)

-- A new enforcer with an adapter that throws is not made.
new_enforcer_test : (new_enforcer true no_file before.model (some quiet)).0 ≡ err io
unfolding new_enforcer load_policy ◌==◌ before
new_enforcer_test = refl

-- An adapter that is not filtered is refused after the policy has been cleared.
load_filtered_policy_test :
    load_filtered_policy false no_file before
    ≡ (err adapter, record before { model = Model.clear_policy before.model })
unfolding load_filtered_policy before
load_filtered_policy_test = refl
