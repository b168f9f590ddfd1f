-- ===== src/Enforcer/Synced/Default.antt =====
-- The methods of casbin/enforcer_synced.cpp for the definitions "p" and "g", where the base class
-- calls the method with a name, which is virtual.
use casbin_cpp.Base.{ℕ, Bool, List, Text, str, Rule}
use casbin_cpp.Policy.{PoliciesValues}
use casbin_cpp.Enforcer.Synced.{
  Synced, locked, synced_get_named_policy, synced_get_filtered_named_policy,
  synced_get_named_grouping_policy, synced_get_filtered_named_grouping_policy,
  synced_has_named_policy, synced_add_named_policy, synced_add_named_policies,
  synced_update_named_policy, synced_update_named_policies, synced_remove_named_policy,
  synced_remove_named_policies, synced_remove_filtered_named_policy,
  synced_has_named_grouping_policy, synced_add_named_grouping_policy,
  synced_add_named_grouping_policies, synced_remove_named_grouping_policies,
  synced_update_named_grouping_policy, synced_remove_named_grouping_policy,
  synced_remove_filtered_named_grouping_policy,
}

unfoldable pub synced_get_policy : Synced PoliciesValues
unfolding synced_get_named_policy
synced_get_policy = locked (synced_get_named_policy (str "p"))

unfoldable pub synced_get_filtered_policy : ℕ → List Text → Synced PoliciesValues
unfolding synced_get_filtered_named_policy
synced_get_filtered_policy index values =
    locked (synced_get_filtered_named_policy (str "p") index values)

unfoldable pub synced_get_grouping_policy : Synced PoliciesValues
unfolding synced_get_named_grouping_policy
synced_get_grouping_policy = locked (synced_get_named_grouping_policy (str "g"))

unfoldable pub synced_get_filtered_grouping_policy : ℕ → List Text → Synced PoliciesValues
unfolding synced_get_filtered_named_grouping_policy
synced_get_filtered_grouping_policy index values =
    locked (synced_get_filtered_named_grouping_policy (str "g") index values)

unfoldable pub synced_has_policy : Rule → Synced Bool
unfolding synced_has_named_policy
synced_has_policy rule = locked (synced_has_named_policy (str "p") rule)

unfoldable pub synced_add_policy : Rule → Synced Bool
unfolding synced_add_named_policy
synced_add_policy rule = locked (synced_add_named_policy (str "p") rule)

unfoldable pub synced_add_policies : List Rule → Synced Bool
unfolding synced_add_named_policies
synced_add_policies rules = locked (synced_add_named_policies (str "p") rules)

unfoldable pub synced_update_policy : Rule → Rule → Synced Bool
unfolding synced_update_named_policy
synced_update_policy old_rule new_rule =
    locked (synced_update_named_policy (str "p") old_rule new_rule)

unfoldable pub synced_update_policies : List Rule → List Rule → Synced Bool
unfolding synced_update_named_policies
synced_update_policies old_rules new_rules =
    locked (synced_update_named_policies (str "p") old_rules new_rules)

unfoldable pub synced_remove_policy : Rule → Synced Bool
unfolding synced_remove_named_policy
synced_remove_policy rule = locked (synced_remove_named_policy (str "p") rule)

unfoldable pub synced_remove_policies : List Rule → Synced Bool
unfolding synced_remove_named_policies
synced_remove_policies rules = locked (synced_remove_named_policies (str "p") rules)

unfoldable pub synced_remove_filtered_policy : ℕ → List Text → Synced Bool
unfolding synced_remove_filtered_named_policy
synced_remove_filtered_policy index values =
    locked (synced_remove_filtered_named_policy (str "p") index values)

unfoldable pub synced_has_grouping_policy : Rule → Synced Bool
unfolding synced_has_named_grouping_policy
synced_has_grouping_policy rule = locked (synced_has_named_grouping_policy (str "g") rule)

unfoldable pub synced_add_grouping_policy : Rule → Synced Bool
unfolding synced_add_named_grouping_policy
synced_add_grouping_policy rule = locked (synced_add_named_grouping_policy (str "g") rule)

unfoldable pub synced_add_grouping_policies : List Rule → Synced Bool
unfolding synced_add_named_grouping_policies
synced_add_grouping_policies rules = locked (synced_add_named_grouping_policies (str "g") rules)

unfoldable pub synced_remove_grouping_policies : List Rule → Synced Bool
unfolding synced_remove_named_grouping_policies
synced_remove_grouping_policies rules =
    locked (synced_remove_named_grouping_policies (str "g") rules)

unfoldable pub synced_update_grouping_policy : Rule → Rule → Synced Bool
unfolding synced_update_named_grouping_policy
synced_update_grouping_policy old_rule new_rule =
    locked (synced_update_named_grouping_policy (str "g") old_rule new_rule)

unfoldable pub synced_remove_grouping_policy : Rule → Synced Bool
unfolding synced_remove_named_grouping_policy
synced_remove_grouping_policy rule = locked (synced_remove_named_grouping_policy (str "g") rule)

unfoldable pub synced_remove_filtered_grouping_policy : ℕ → List Text → Synced Bool
unfolding synced_remove_filtered_named_grouping_policy
synced_remove_filtered_grouping_policy index values =
    locked (synced_remove_filtered_named_grouping_policy (str "g") index values)
