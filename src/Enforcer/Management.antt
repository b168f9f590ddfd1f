-- ===== src/Enforcer/Management.antt =====
-- casbin/management_api.cpp. The copies that it makes of a rule, whole or of one field, are equal
-- to the rule.
use casbin_cpp.Base.{ℕ, Bool, true, List, [], ◌∷◌, Text, str, Rule, if◌then◌else◌, ok}
use casbin_cpp.Rbac.{add_matching_func}
use casbin_cpp.Policy.{PoliciesValues}
use casbin_cpp.Assertion.{policy_add}
use casbin_cpp.Model
use casbin_cpp.Enforcer.{Method, pure, ◌>>=◌, ◌>>◌, of_model, with_manager}
use casbin_cpp.Enforcer.Internal

unfoldable pub get_all_subjects : Method (List Text)
get_all_subjects = of_model (λ m. Model.get_values_for_field_in_policy_all_types m (str "p") 0)

unfoldable pub get_all_named_subjects : Text → Method (List Text)
get_all_named_subjects p_type =
    of_model (λ m. Model.get_values_for_field_in_policy m (str "p") p_type 0)

unfoldable pub get_all_objects : Method (List Text)
get_all_objects = of_model (λ m. Model.get_values_for_field_in_policy_all_types m (str "p") 1)

unfoldable pub get_all_named_objects : Text → Method (List Text)
get_all_named_objects p_type =
    of_model (λ m. Model.get_values_for_field_in_policy m (str "p") p_type 1)

unfoldable pub get_all_actions : Method (List Text)
get_all_actions = of_model (λ m. Model.get_values_for_field_in_policy_all_types m (str "p") 2)

unfoldable pub get_all_named_actions : Text → Method (List Text)
get_all_named_actions p_type =
    of_model (λ m. Model.get_values_for_field_in_policy m (str "p") p_type 2)

unfoldable pub get_all_roles : Method (List Text)
get_all_roles = of_model (λ m. Model.get_values_for_field_in_policy_all_types m (str "g") 1)

unfoldable pub get_all_named_roles : Text → Method (List Text)
get_all_named_roles p_type =
    of_model (λ m. Model.get_values_for_field_in_policy m (str "g") p_type 1)

unfoldable pub get_named_policy : Text → Method PoliciesValues
get_named_policy p_type = of_model (λ m. Model.get_policy m (str "p") p_type)

unfoldable pub get_policy : Method PoliciesValues
unfolding get_named_policy
get_policy = get_named_policy (str "p")

unfoldable pub get_filtered_named_policy : Text → ℕ → List Text → Method PoliciesValues
get_filtered_named_policy p_type index values =
    of_model (λ m. Model.get_filtered_policy m (str "p") p_type index values)

unfoldable pub get_filtered_policy : ℕ → List Text → Method PoliciesValues
unfolding get_filtered_named_policy
get_filtered_policy index values = get_filtered_named_policy (str "p") index values

unfoldable pub get_named_grouping_policy : Text → Method PoliciesValues
get_named_grouping_policy p_type = of_model (λ m. Model.get_policy m (str "g") p_type)

unfoldable pub get_grouping_policy : Method PoliciesValues
unfolding get_named_grouping_policy
get_grouping_policy = get_named_grouping_policy (str "g")

unfoldable pub get_filtered_named_grouping_policy : Text → ℕ → List Text → Method PoliciesValues
get_filtered_named_grouping_policy p_type index values =
    of_model (λ m. Model.get_filtered_policy m (str "g") p_type index values)

unfoldable pub get_filtered_grouping_policy : ℕ → List Text → Method PoliciesValues
unfolding get_filtered_named_grouping_policy
get_filtered_grouping_policy index values =
    get_filtered_named_grouping_policy (str "g") index values

unfoldable pub has_named_policy : Text → Rule → Method Bool
has_named_policy p_type params = of_model (λ m. Model.has_policy m (str "p") p_type params)

unfoldable pub has_policy : Rule → Method Bool
unfolding has_named_policy
has_policy params = has_named_policy (str "p") params

unfoldable pub add_named_policy : Text → Rule → Method Bool
add_named_policy p_type params = Internal.add_policy (str "p") p_type params

unfoldable pub add_policy : Rule → Method Bool
unfolding add_named_policy
add_policy params = add_named_policy (str "p") params

unfoldable pub add_named_policies : Text → List Rule → Method Bool
add_named_policies p_type rules = Internal.add_policies (str "p") p_type rules

unfoldable pub add_policies : List Rule → Method Bool
unfolding add_named_policies
add_policies rules = add_named_policies (str "p") rules

unfoldable pub remove_named_policy : Text → Rule → Method Bool
remove_named_policy p_type params = Internal.remove_policy (str "p") p_type params

unfoldable pub remove_policy : Rule → Method Bool
unfolding remove_named_policy
remove_policy params = remove_named_policy (str "p") params

unfoldable pub remove_named_policies : Text → List Rule → Method Bool
remove_named_policies p_type rules = Internal.remove_policies (str "p") p_type rules

unfoldable pub remove_policies : List Rule → Method Bool
unfolding remove_named_policies
remove_policies rules = remove_named_policies (str "p") rules

unfoldable pub remove_filtered_named_policy : Text → ℕ → List Text → Method Bool
remove_filtered_named_policy p_type index values =
    Internal.remove_filtered_policy (str "p") p_type index values

unfoldable pub remove_filtered_policy : ℕ → List Text → Method Bool
unfolding remove_filtered_named_policy
remove_filtered_policy index values = remove_filtered_named_policy (str "p") index values

unfoldable pub has_named_grouping_policy : Text → Rule → Method Bool
has_named_grouping_policy p_type params = of_model (λ m. Model.has_policy m (str "g") p_type params)

unfoldable pub has_grouping_policy : Rule → Method Bool
unfolding has_named_grouping_policy
has_grouping_policy params = has_named_grouping_policy (str "g") params

-- `if (m_auto_build_role_links)`
unfoldable pub when_auto_build : Method (Unit {0}) → Method (Unit {0})
when_auto_build build s = if s.auto_build_role_links then build s else (ok tt, s)

unfoldable pub add_named_grouping_policy : Text → Rule → Method Bool
unfolding when_auto_build
add_named_grouping_policy p_type params = do
  added ← Internal.add_policy (str "g") p_type params
  when_auto_build (Internal.build_incremental_role_links policy_add p_type (params ∷ []))
  pure added

unfoldable pub add_grouping_policy : Rule → Method Bool
unfolding add_named_grouping_policy
add_grouping_policy params = add_named_grouping_policy (str "g") params

unfoldable pub add_named_grouping_policies : Text → List Rule → Method Bool
add_named_grouping_policies p_type rules = Internal.add_policies (str "g") p_type rules

unfoldable pub add_grouping_policies : List Rule → Method Bool
unfolding add_named_grouping_policies
add_grouping_policies rules = add_named_grouping_policies (str "g") rules

unfoldable pub remove_named_grouping_policy : Text → Rule → Method Bool
unfolding when_auto_build
remove_named_grouping_policy p_type params = do
  removed ← Internal.remove_policy (str "g") p_type params
  when_auto_build Internal.build_role_links
  pure removed

unfoldable pub remove_grouping_policy : Rule → Method Bool
unfolding remove_named_grouping_policy
remove_grouping_policy params = remove_named_grouping_policy (str "g") params

unfoldable pub remove_named_grouping_policies : Text → List Rule → Method Bool
remove_named_grouping_policies p_type rules = Internal.remove_policies (str "g") p_type rules

unfoldable pub remove_grouping_policies : List Rule → Method Bool
unfolding remove_named_grouping_policies
remove_grouping_policies rules = remove_named_grouping_policies (str "g") rules

unfoldable pub remove_filtered_named_grouping_policy : Text → ℕ → List Text → Method Bool
unfolding when_auto_build
remove_filtered_named_grouping_policy p_type index values = do
  removed ← Internal.remove_filtered_policy (str "g") p_type index values
  when_auto_build Internal.build_role_links
  pure removed

unfoldable pub remove_filtered_grouping_policy : ℕ → List Text → Method Bool
unfolding remove_filtered_named_grouping_policy
remove_filtered_grouping_policy index values =
    remove_filtered_named_grouping_policy (str "g") index values

unfoldable pub update_named_grouping_policy : Text → Rule → Rule → Method Bool
update_named_grouping_policy p_type old_rule new_rule =
    Internal.update_policy (str "g") p_type old_rule new_rule

unfoldable pub update_named_policy : Text → Rule → Rule → Method Bool
update_named_policy p_type old_rule new_rule =
    Internal.update_policy (str "p") p_type old_rule new_rule

unfoldable pub update_named_policies : Text → List Rule → List Rule → Method Bool
update_named_policies p_type old_rules new_rules =
    Internal.update_policies (str "p") p_type old_rules new_rules

unfoldable pub add_named_matching_func : Text → Text → (Text → Text → Bool) → Method Bool
add_named_matching_func p_type name func =
    with_manager (λ address model m. (ok tt, model, add_matching_func m func)) >> pure true

unfoldable pub update_grouping_policy : Rule → Rule → Method Bool
unfolding update_named_grouping_policy
update_grouping_policy old_rule new_rule = update_named_grouping_policy (str "g") old_rule new_rule

unfoldable pub update_policy : Rule → Rule → Method Bool
unfolding update_named_policy
update_policy old_rule new_rule = update_named_policy (str "p") old_rule new_rule

unfoldable pub update_policies : List Rule → List Rule → Method Bool
unfolding update_named_policies
update_policies old_rules new_rules = update_named_policies (str "p") old_rules new_rules
