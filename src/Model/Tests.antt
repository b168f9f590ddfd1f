-- ===== src/Model/Tests.antt =====
-- The operations of the model and of its assertions, run on a small model.
use casbin_cpp.Base.{
  Bool, true, false, not, some, none, List, [], ◌∷◌, ◌++◌, Text, str, Rule, ◌≡◌, refl, ◌↔◌, In, ok,
  if◌then◌else◌, keep, arith, ◌==◌,
}
use casbin_cpp.Base.Assoc.{lookup}
use casbin_cpp.Util.Equality.{SameItems}
use casbin_cpp.Policy.{vector, rules_of}
use casbin_cpp.Rbac.{RoleManager, new_role_manager}
use casbin_cpp.Rbac.Edges.{Edge}
use casbin_cpp.Assertion.{Assertion, count_underscores, build_role_links}
use casbin_cpp.Assertion.Edges.{SomeNames, build_role_links_edges}
use casbin_cpp.Model
use casbin_cpp.Model.{Model, assertion, contains_rule, not_empty}
use casbin_cpp.Model.Membership.{has_policy_iff}
use casbin_cpp.Model.Changes.{
  Holds, Elsewhere, Erased, add_policy_lem, remove_policy_lem, update_policy_lem,
}
use casbin_cpp.Model.Filters.{Agrees, remove_filtered_policy_lem}

abbrev alice_read : Rule
alice_read = str "alice" ∷ str "data" ∷ str "read" ∷ []

abbrev pub bob_write : Rule
bob_write = str "bob" ∷ str "data" ∷ str "write" ∷ []

abbrev pub p_assertion : Assertion
p_assertion = record {
  key = str "p";
  value = str "sub, obj, act";
  tokens = str "p_sub" ∷ str "p_obj" ∷ str "p_act" ∷ [];
  policy = vector (alice_read ∷ bob_write ∷ []);
  rm = none;
}

abbrev pub sample_model : Model
sample_model = record { m = (str "p", (str "p", p_assertion) ∷ []) ∷ [] }

pub has_p : assertion sample_model (str "p") (str "p") ≡ ok p_assertion
unfolding assertion Model.section lookup ◌==◌
has_p = refl

has_policy_iff_example :
    (b : Bool) × (Model.has_policy sample_model (str "p") (str "p") bob_write ≡ ok b)
    × ((b ≡ true) ↔ ((r : Rule) × In r (rules_of p_assertion.policy) × SameItems bob_write r))
has_policy_iff_example = has_policy_iff sample_model (str "p") (str "p") bob_write p_assertion has_p

abbrev pub carol_read : Rule
carol_read = str "carol" ∷ str "data" ∷ str "read" ∷ []

add_policy_lem_example :
    (contains_rule carol_read (rules_of p_assertion.policy) ≡ true
      → Model.add_policy (str "p") (str "p") carol_read sample_model ≡ ok (false, sample_model))
    × (contains_rule carol_read (rules_of p_assertion.policy) ≡ false
        → (model' : Model) × (Model.add_policy (str "p") (str "p") carol_read sample_model
            ≡ ok (true, model'))
          × Holds
              (str "p")
              (str "p")
              p_assertion
              (rules_of p_assertion.policy ++ carol_read ∷ [])
              model'
          × Elsewhere (str "p") (str "p") sample_model model')
add_policy_lem_example =
    add_policy_lem sample_model (str "p") (str "p") p_assertion has_p carol_read

remove_policy_lem_example :
    (contains_rule bob_write (rules_of p_assertion.policy) ≡ false
      → Model.remove_policy (str "p") (str "p") bob_write sample_model ≡ ok (false, sample_model))
    × (contains_rule bob_write (rules_of p_assertion.policy) ≡ true
        → (model' : Model) × (left : List Rule) × (Model.remove_policy
              (str "p")
              (str "p")
              bob_write
              sample_model
            ≡ ok (true, model'))
          × Erased bob_write (rules_of p_assertion.policy) left
          × Holds (str "p") (str "p") p_assertion left model'
          × Elsewhere (str "p") (str "p") sample_model model')
remove_policy_lem_example =
    remove_policy_lem sample_model (str "p") (str "p") p_assertion has_p bob_write

update_policy_lem_example :
    (contains_rule bob_write (rules_of p_assertion.policy) ≡ false
      → Model.update_policy (str "p") (str "p") bob_write carol_read sample_model
        ≡ ok (false, sample_model))
    × (contains_rule bob_write (rules_of p_assertion.policy) ≡ true
        → (model' : Model) × (left : List Rule) × Erased bob_write
            (rules_of p_assertion.policy)
            left
          × (Model.update_policy (str "p") (str "p") bob_write carol_read sample_model
              ≡ ok (not (contains_rule carol_read left), model'))
          × Holds
              (str "p")
              (str "p")
              p_assertion
              (if contains_rule carol_read left then left else left ++ carol_read ∷ [])
              model'
          × Elsewhere (str "p") (str "p") sample_model model')
update_policy_lem_example =
    update_policy_lem sample_model (str "p") (str "p") p_assertion has_p bob_write carol_read

-- With the new rule there already, the old one is lost and the answer is false.
update_policy_test :
    Model.update_policy (str "p") (str "p") bob_write alice_read sample_model
    ≡ ok (
      false,
      record {
        m =
            (str "p", (str "p", record p_assertion { policy = vector (alice_read ∷ []) }) ∷ [])
            ∷ [];
      },
    )
unfolding Model.update_policy
update_policy_test = refl

remove_filtered_policy_lem_example :
    (model' : Model) × (sel : Rule → Bool) × (Model.remove_filtered_policy
        (str "p")
        (str "p")
        1
        (str "data" ∷ [])
        sample_model
      ≡ ok (
        (
          not_empty (keep sel (rules_of p_assertion.policy)),
          keep sel (rules_of p_assertion.policy),
        ),
        model',
      ))
    × (Model.get_filtered_policy sample_model (str "p") (str "p") 1 (str "data" ∷ [])
        ≡ ok (vector (keep sel (rules_of p_assertion.policy))))
    × ((r : Rule)
        → In r (rules_of p_assertion.policy)
        → (sel r ≡ true) ↔ Agrees r 1 (str "data" ∷ []))
    × Holds
        (str "p")
        (str "p")
        p_assertion
        (keep (λ r. not (sel r)) (rules_of p_assertion.policy))
        model'
    × Elsewhere (str "p") (str "p") sample_model model'
remove_filtered_policy_lem_example =
    remove_filtered_policy_lem sample_model (str "p") (str "p") p_assertion 1 (str "data" ∷ [])
      has_p (ground arith, (ground arith, tt))

abbrev g_assertion : Assertion
g_assertion = record {
  key = str "g";
  value = str "_, _";
  tokens = [];
  policy = vector ((str "alice" ∷ str "admin" ∷ []) ∷ []);
  rm = none;
}

build_role_links_edges_example :
    (rm' : RoleManager) × (build_role_links 0 g_assertion (new_role_manager 10)
      ≡ (ok tt, record g_assertion { rm = some 0 }, rm'))
    × ((a b : Text)
        → Edge rm'.all_roles a b
          ↔ SomeNames (count_underscores g_assertion.value) (rules_of g_assertion.policy) a b)
unfolding new_role_manager
build_role_links_edges_example =
    build_role_links_edges 0 g_assertion (new_role_manager 10) refl refl (ground arith)
      (ground arith) (ground arith, tt)
