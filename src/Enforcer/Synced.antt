-- ===== src/Enforcer/Synced.antt =====
-- casbin/enforcer_synced.cpp: each method takes the mutex and calls the method of the base class,
-- which calls other methods of this class where they are virtual. `held` says whether the calling
-- thread has the mutex, shared or not; to lock it again is undefined. Leaving a method, also by an
-- exception, frees it.
pub mod Default
pub mod Tests
use casbin_cpp.Base.{
  ℕ, Bool, true, false, List, [], ◌∷◌, Text, str, Rule, if◌then◌else◌, Result, ok, err, undefined,
}
use casbin_cpp.Policy.{PoliciesValues}
use casbin_cpp.Model.{Model}
use casbin_cpp.Enforcer.{Enforcer, Method, pure, ◌>>=◌, ◌>>◌}
use casbin_cpp.Enforcer.Internal
use casbin_cpp.Enforcer.Management
use casbin_cpp.Enforcer.Settings

abbrev pub Synced : Type 0 → Type 0
Synced A = Bool → Method A

-- `unique_lock` and `shared_lock`
abbrev pub locked : {A : Type 0} → Synced A → Synced A
locked f held s = if held then (err undefined, s) else f true s

-- A method of the base class that calls no method of this class.
abbrev pub of_base : {A : Type 0} → Method A → Synced A
of_base f held = f

unfoldable pub synced_get_all_subjects : Synced (List Text)
unfolding Management.get_all_subjects
synced_get_all_subjects = locked (of_base Management.get_all_subjects)

unfoldable pub synced_get_all_named_subjects : Text → Synced (List Text)
unfolding Management.get_all_named_subjects
synced_get_all_named_subjects p_type = locked (of_base (Management.get_all_named_subjects p_type))

unfoldable pub synced_get_all_objects : Synced (List Text)
unfolding Management.get_all_objects
synced_get_all_objects = locked (of_base Management.get_all_objects)

unfoldable pub synced_get_all_named_objects : Text → Synced (List Text)
unfolding Management.get_all_named_objects
synced_get_all_named_objects p_type = locked (of_base (Management.get_all_named_objects p_type))

unfoldable pub synced_get_all_actions : Synced (List Text)
unfolding Management.get_all_actions
synced_get_all_actions = locked (of_base Management.get_all_actions)

unfoldable pub synced_get_all_named_actions : Text → Synced (List Text)
unfolding Management.get_all_named_actions
synced_get_all_named_actions p_type = locked (of_base (Management.get_all_named_actions p_type))

unfoldable pub synced_get_all_roles : Synced (List Text)
unfolding Management.get_all_roles
synced_get_all_roles = locked (of_base Management.get_all_roles)

unfoldable pub synced_get_all_named_roles : Text → Synced (List Text)
unfolding Management.get_all_named_roles
synced_get_all_named_roles p_type = locked (of_base (Management.get_all_named_roles p_type))

unfoldable pub synced_get_named_policy : Text → Synced PoliciesValues
unfolding Management.get_named_policy
synced_get_named_policy p_type = locked (of_base (Management.get_named_policy p_type))

unfoldable pub synced_get_filtered_named_policy : Text → ℕ → List Text → Synced PoliciesValues
unfolding Management.get_filtered_named_policy
synced_get_filtered_named_policy p_type index values =
    locked (of_base (Management.get_filtered_named_policy p_type index values))

unfoldable pub synced_get_named_grouping_policy : Text → Synced PoliciesValues
unfolding Management.get_named_grouping_policy
synced_get_named_grouping_policy p_type =
    locked (of_base (Management.get_named_grouping_policy p_type))

unfoldable pub synced_get_filtered_named_grouping_policy :
    Text → ℕ → List Text → Synced PoliciesValues
unfolding Management.get_filtered_named_grouping_policy
synced_get_filtered_named_grouping_policy p_type index values =
    locked (of_base (Management.get_filtered_named_grouping_policy p_type index values))

unfoldable pub synced_has_named_policy : Text → Rule → Synced Bool
unfolding Management.has_named_policy
synced_has_named_policy p_type rule = locked (of_base (Management.has_named_policy p_type rule))

unfoldable pub synced_add_named_policy : Text → Rule → Synced Bool
unfolding Management.add_named_policy
synced_add_named_policy p_type rule = locked (of_base (Management.add_named_policy p_type rule))

unfoldable pub synced_add_named_policies : Text → List Rule → Synced Bool
unfolding Management.add_named_policies
synced_add_named_policies p_type rules =
    locked (of_base (Management.add_named_policies p_type rules))

unfoldable pub synced_update_named_policy : Text → Rule → Rule → Synced Bool
unfolding Management.update_named_policy
synced_update_named_policy p_type old_rule new_rule =
    locked (of_base (Management.update_named_policy p_type old_rule new_rule))

unfoldable pub synced_update_named_policies : Text → List Rule → List Rule → Synced Bool
unfolding Management.update_named_policies
synced_update_named_policies p_type old_rules new_rules =
    locked (of_base (Management.update_named_policies p_type old_rules new_rules))

unfoldable pub synced_remove_named_policy : Text → Rule → Synced Bool
unfolding Management.remove_named_policy
synced_remove_named_policy p_type rule =
    locked (of_base (Management.remove_named_policy p_type rule))

unfoldable pub synced_remove_named_policies : Text → List Rule → Synced Bool
unfolding Management.remove_named_policies
synced_remove_named_policies p_type rules =
    locked (of_base (Management.remove_named_policies p_type rules))

unfoldable pub synced_remove_filtered_named_policy : Text → ℕ → List Text → Synced Bool
unfolding Management.remove_filtered_named_policy
synced_remove_filtered_named_policy p_type index values =
    locked (of_base (Management.remove_filtered_named_policy p_type index values))

unfoldable pub synced_has_named_grouping_policy : Text → Rule → Synced Bool
unfolding Management.has_named_grouping_policy
synced_has_named_grouping_policy p_type rule =
    locked (of_base (Management.has_named_grouping_policy p_type rule))

unfoldable pub synced_add_named_grouping_policy : Text → Rule → Synced Bool
unfolding Management.add_named_grouping_policy
synced_add_named_grouping_policy p_type rule =
    locked (of_base (Management.add_named_grouping_policy p_type rule))

unfoldable pub synced_add_named_grouping_policies : Text → List Rule → Synced Bool
unfolding Management.add_named_grouping_policies
synced_add_named_grouping_policies p_type rules =
    locked (of_base (Management.add_named_grouping_policies p_type rules))

unfoldable pub synced_remove_named_grouping_policies : Text → List Rule → Synced Bool
unfolding Management.remove_named_grouping_policies
synced_remove_named_grouping_policies p_type rules =
    locked (of_base (Management.remove_named_grouping_policies p_type rules))

unfoldable pub synced_update_named_grouping_policy : Text → Rule → Rule → Synced Bool
unfolding Management.update_named_grouping_policy
synced_update_named_grouping_policy p_type old_rule new_rule =
    locked (of_base (Management.update_named_grouping_policy p_type old_rule new_rule))

-- These two rebuild the role links by the virtual `BuildRoleLinks`, which locks too.
unfoldable pub synced_build_role_links : Synced (Unit {0})
unfolding Internal.build_role_links
synced_build_role_links = locked (of_base Internal.build_role_links)

unfoldable pub synced_remove_named_grouping_policy : Text → Rule → Synced Bool
unfolding synced_build_role_links Management.when_auto_build Internal.remove_policy
synced_remove_named_grouping_policy p_type rule = locked (λ held. do
  removed ← Internal.remove_policy (str "g") p_type rule
  Management.when_auto_build (synced_build_role_links held)
  pure removed)

unfoldable pub synced_remove_filtered_named_grouping_policy : Text → ℕ → List Text → Synced Bool
unfolding synced_build_role_links Management.when_auto_build Internal.remove_filtered_policy
synced_remove_filtered_named_grouping_policy p_type index values = locked (λ held. do
  removed ← Internal.remove_filtered_policy (str "g") p_type index values
  Management.when_auto_build (synced_build_role_links held)
  pure removed)

unfoldable pub synced_clear_policy : Synced (Unit {0})
unfolding Settings.clear_policy
synced_clear_policy = locked (of_base Settings.clear_policy)

unfoldable pub synced_load_policy : (Model → Result (Unit {0}) × Model) → Synced (Unit {0})
unfolding Settings.load_policy
synced_load_policy load = locked (of_base (Settings.load_policy load))

unfoldable pub synced_save_policy : Bool → (Model → Result (Unit {0}) × Model) → Synced (Unit {0})
unfolding Settings.save_policy
synced_save_policy filtered save = locked (of_base (Settings.save_policy filtered save))
