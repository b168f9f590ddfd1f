-- ===== src/Enforcer/Internal.antt =====
-- casbin/internal_api.cpp, and `BuildRoleLinks` and `BuildIncrementalRoleLinks` of enforcer.cpp.
use casbin_cpp.Base.{ℕ, Bool, true, false, List, [], ◌∷◌, Text, str, Rule, ◌==◌, if◌then◌else◌, ok}
use casbin_cpp.Rbac.{clear}
use casbin_cpp.Assertion.{PolicyOp, policy_add, policy_remove}
use casbin_cpp.Model
use casbin_cpp.Model.Links.{model_build_role_links, model_build_incremental_role_links}
use casbin_cpp.Enforcer.{
  Method, pure, ◌>>=◌, ◌>>◌, on_model, with_manager, save, notify, add_rule, add_rules, remove_rule,
  remove_rules, remove_filtered,
}

unfoldable pub build_role_links : Method (Unit {0})
unfolding model_build_role_links clear
build_role_links = with_manager (λ address model m. model_build_role_links address model (clear m))

unfoldable pub build_incremental_role_links : PolicyOp → Text → List Rule → Method (Unit {0})
unfolding model_build_incremental_role_links
build_incremental_role_links op p_type rules = with_manager (λ address model m.
    model_build_incremental_role_links address op (str "g") p_type rules model m)

-- `if (sec == "g")`
unfoldable pub link_if_grouping : Text → Method (Unit {0}) → Method (Unit {0})
unfolding ◌==◌
link_if_grouping sec link s = if sec == str "g" then link s else (ok tt, s)

-- The rest of an operation, when the model was changed.
abbrev pub after_change : Bool → Method (Unit {0}) → Method Bool
after_change changed rest s = if changed then (rest >> pure true) s else (ok false, s)

unfoldable pub add_policy : Text → Text → Rule → Method Bool
unfolding build_incremental_role_links link_if_grouping save notify Model.add_policy
add_policy sec p_type rule = do
  added ← on_model (Model.add_policy sec p_type rule)
  after_change added (do
    link_if_grouping sec (build_incremental_role_links policy_add p_type (rule ∷ []))
    save false (add_rule sec p_type rule)
    notify)

unfoldable pub add_policies : Text → Text → List Rule → Method Bool
unfolding build_incremental_role_links link_if_grouping save notify Model.add_policies
add_policies sec p_type rules = do
  added ← on_model (Model.add_policies sec p_type rules)
  after_change added (do
    link_if_grouping sec (build_incremental_role_links policy_add p_type rules)
    save true (add_rules sec p_type rules)
    notify)

-- As written, the link of a removed grouping rule is added.
unfoldable pub remove_policy : Text → Text → Rule → Method Bool
unfolding build_incremental_role_links link_if_grouping save notify Model.remove_policy
remove_policy sec p_type rule = do
  removed ← on_model (Model.remove_policy sec p_type rule)
  after_change removed (do
    link_if_grouping sec (build_incremental_role_links policy_add p_type (rule ∷ []))
    save false (remove_rule sec p_type rule)
    notify)

-- As written, the operation of the model is `AddPolicies`.
unfoldable pub remove_policies : Text → Text → List Rule → Method Bool
unfolding build_incremental_role_links link_if_grouping save notify Model.add_policies
remove_policies sec p_type rules = do
  removed ← on_model (Model.add_policies sec p_type rules)
  after_change removed (do
    link_if_grouping sec (build_incremental_role_links policy_add p_type rules)
    save true (remove_rules sec p_type rules)
    notify)

unfoldable pub remove_filtered_policy : Text → Text → ℕ → List Text → Method Bool
unfolding build_incremental_role_links link_if_grouping save notify Model.remove_filtered_policy
remove_filtered_policy sec p_type index values = do
  (removed, effects) ← on_model (Model.remove_filtered_policy sec p_type index values)
  after_change removed (do
    link_if_grouping sec (build_incremental_role_links policy_remove p_type effects)
    save false (remove_filtered sec p_type index values)
    notify)

unfoldable pub update_policy : Text → Text → Rule → Rule → Method Bool
unfolding build_incremental_role_links link_if_grouping notify Model.update_policy
update_policy sec p_type old_rule new_rule = do
  updated ← on_model (Model.update_policy sec p_type old_rule new_rule)
  after_change updated (do
    link_if_grouping sec (build_incremental_role_links policy_remove p_type (old_rule ∷ []))
    link_if_grouping sec (build_incremental_role_links policy_add p_type (new_rule ∷ []))
    notify)

unfoldable pub update_policies : Text → Text → List Rule → List Rule → Method Bool
unfolding build_incremental_role_links link_if_grouping notify Model.update_policies
update_policies sec p_type old_rules new_rules = do
  updated ← on_model (Model.update_policies sec p_type old_rules new_rules)
  after_change updated (do
    link_if_grouping sec (build_incremental_role_links policy_remove p_type old_rules)
    link_if_grouping sec (build_incremental_role_links policy_add p_type new_rules)
    notify)
