-- ===== src/Enforcer/Enforce/Users.antt =====
-- `GetImplicitUsersForPermission` of casbin/rbac_api.cpp, which enforces the permission for each
-- subject.
pub mod Tests
use casbin_cpp.Base.{
  Bool, true, List, [], ◌∷◌, ◌++◌, Text, str, if◌then◌else◌, Result, ok, err, undefined, keep, In,
  In-keep, In-append, ◌≡◌, ◌↔◌, ◌⊎◌, refl, arith,
}
use casbin_cpp.Util.Arrays.{
  array_remove_duplicates, set_subtract, array_remove_duplicates_lem, In-set_subtract,
}
use casbin_cpp.Model.{get_values_for_field_in_policy_all_types}
use casbin_cpp.Enforcer.{Enforcer}
use casbin_cpp.Enforcer.Evaluate.{Evaluator, World, Run, pure, lift, ◌>>=◌}
use casbin_cpp.Enforcer.Enforce.Requests.{Data, string_data, enforce}

-- `permission[0]` and `permission[1]`
abbrev object_and_action : List Text → Result (Text × Text)
object_and_action (object ∷ action ∷ more) = ok (object, action)
object_and_action permission = err undefined

module _ {S J : Type 0} (ev : Evaluator S) (push_object_json : Text → Text → J → S → S) where
  abbrev pub enforce_for : Enforcer → Text → Text → Text → World S → Result Bool × World S
  unfolding enforce
  enforce_for e subject object action w =
      enforce ev push_object_json (record e { managers = w.1 })
        (string_data subject ∷ string_data object ∷ string_data action ∷ []) w.0

  unfoldable pub allowed_subjects : Enforcer → List Text → List Text → Run S (List Text)
  unfolding enforce_for
  allowed_subjects e permission [] = pure []
  allowed_subjects e permission (subject ∷ subjects) = do
    (object, action) ← lift (object_and_action permission)
    allowed ← enforce_for e subject object action
    rest ← allowed_subjects e permission subjects
    pure (if allowed then subject ∷ rest else rest)

  unfoldable pub get_implicit_users_for_permission : Enforcer → List Text → Run S (List Text)
  unfolding allowed_subjects array_remove_duplicates set_subtract
      get_values_for_field_in_policy_all_types
  get_implicit_users_for_permission e permission = do
    p_subjects ← lift (get_values_for_field_in_policy_all_types e.model (str "p") 0)
    g_inherit ← lift (get_values_for_field_in_policy_all_types e.model (str "g") 1)
    g_subjects ← lift (get_values_for_field_in_policy_all_types e.model (str "g") 0)
    res ← allowed_subjects e permission (array_remove_duplicates (p_subjects ++ g_subjects))
    pure (set_subtract res g_inherit)

  allowed_subjects-keep :
      (e : Enforcer) (object action : Text) (allows : Text → Bool)
      → ((subject : Text) (w : World S)
          → (enforce_for e subject object action w).0 ≡ ok (allows subject))
      → (subjects : List Text) (w : World S)
      → (allowed_subjects e (object ∷ action ∷ []) subjects w).0 ≡ ok (keep allows subjects)
  unfolding allowed_subjects
  allowed_subjects-keep e object action allows h [] w = refl
  allowed_subjects-keep e object action allows h (u ∷ us) w = rw (h u w) (
      rw (allowed_subjects-keep e object action allows h us (enforce_for e u object action w).1)
        refl)

  -- For a permission with an object and an action, a model from which the subjects and roles can
  -- be read, and an enforcement that returns an answer that depends on the subject alone:
  -- `GetImplicitUsersForPermission` returns, and lists exactly the subjects of the policy rules
  -- and of the grouping rules that are allowed and are no role of a grouping rule.
  pub get_implicit_users_for_permission_lem :
      (e : Enforcer) (object action : Text) (allows : Text → Bool)
      (subjects roles members : List Text) (w : World S)
      → ((subject : Text) (w : World S)
          → (enforce_for e subject object action w).0 ≡ ok (allows subject))
      → get_values_for_field_in_policy_all_types e.model (str "p") 0 ≡ ok subjects
      → get_values_for_field_in_policy_all_types e.model (str "g") 1 ≡ ok roles
      → get_values_for_field_in_policy_all_types e.model (str "g") 0 ≡ ok members
      → (users : List Text) × ((get_implicit_users_for_permission e (object ∷ action ∷ []) w).0
          ≡ ok users)
        × ((u : Text)
            → In u users ↔ ((In u subjects ⊎ In u members) × (allows u ≡ true) × (¬ In u roles)))
  unfolding get_implicit_users_for_permission
  get_implicit_users_for_permission_lem e object action allows subjects roles members w h hs hr hm =
      let all : List Text = array_remove_duplicates (subjects ++ members) in
      (
        set_subtract (keep allows all) roles,
        rw hs (rw hr (rw hm (rw (allowed_subjects-keep e object action allows h all w) refl))),
        λ u. ground (
          arith,
          In-set_subtract u (keep allows all) roles,
          In-keep allows u all,
          (array_remove_duplicates_lem (subjects ++ members)).1 u,
          In-append u subjects members,
        ),
      )
