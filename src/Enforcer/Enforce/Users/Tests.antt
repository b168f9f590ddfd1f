-- ===== src/Enforcer/Enforce/Users/Tests.antt =====
-- The users of a permission in a small model, where alice has the role admin.
use casbin_cpp.Base.{
  Bool, true, false, List, [], ◌∷◌, Text, str, ◌==◌, ◌||◌, if◌then◌else◌, ok, In, ◌≡◌, ◌↔◌, ◌⊎◌,
  refl, inl, inr, Bool-cases,
}
use casbin_cpp.Effect.{allow_override}
use casbin_cpp.Model.{get_values_for_field_in_policy_all_types}
use casbin_cpp.Enforcer.{Enforcer}
use casbin_cpp.Enforcer.Evaluate.{Evaluator, World, bool_type}
use casbin_cpp.Enforcer.Enforce.{m_enforce}
use casbin_cpp.Enforcer.Enforce.Tests.{definition, small_enforcer}
use casbin_cpp.Enforcer.Enforce.Users.{
  enforce_for, get_implicit_users_for_permission, get_implicit_users_for_permission_lem,
}

-- Its state is the subject of the request and that of the rule; alice is an admin.
abbrev is_user : Text → Text → Bool
unfolding ◌==◌
is_user subject user =
    if user == str "admin"
    then subject == str "admin" || subject == str "alice"
    else subject == user

abbrev role_evaluator : Evaluator (Text × Text)
unfolding ◌==◌
role_evaluator = record {
  load_functions = λ s. s;
  load_g_function = λ address name n s. s;
  clean = λ amap after s. s;
  initial_object = λ target s. s;
  push_object_string = λ target field v s.
      if field == str "sub" then if target == str "r" then (v, s.1) else (s.0, v) else s;
  request_values = λ s. [];
  eval = λ text w. (ok true, w);
  check_type = λ w. (ok bool_type, w);
  get_boolean = λ w. (ok (is_user w.0.0 w.0.1), w);
  float_is_nonzero = λ w. (ok false, w);
}

abbrev with_roles : Enforcer
with_roles = record (small_enforcer allow_override) {
  model = record {
    m =
        (
          str "r",
          (
            str "r",
            definition (str "r") (str "sub, obj, act")
                (str "r_sub" ∷ str "r_obj" ∷ str "r_act" ∷ []) [],
          )
              ∷ [],
        )
        ∷ (
          str "p",
          (
            str "p",
            definition (str "p") (str "sub, obj, act")
                (str "p_sub" ∷ str "p_obj" ∷ str "p_act" ∷ [])
                ((str "admin" ∷ str "data1" ∷ str "read" ∷ [])
                  ∷ (str "bob" ∷ str "data1" ∷ str "read" ∷ [])
                  ∷ []),
          )
              ∷ [],
        )
        ∷ (
          str "g",
          (str "g", definition (str "g") (str "_, _") [] ((str "alice" ∷ str "admin" ∷ []) ∷ []))
              ∷ [],
        )
        ∷ (str "e", (str "e", definition (str "e") allow_override [] []) ∷ [])
        ∷ (str "m", (str "m", definition (str "m") (str "g(r.sub, p.sub)") [] []) ∷ [])
        ∷ [];
  };
}

abbrev push_json : Text → Text → Text → Text × Text → Text × Text
push_json target field j s = s

-- As the comment of the method promises.
get_implicit_users_test :
    (get_implicit_users_for_permission role_evaluator push_json with_roles
      (str "data1" ∷ str "read" ∷ [])
      (([], []), [])).0
    ≡ ok (str "bob" ∷ str "alice" ∷ [])
unfolding get_implicit_users_for_permission m_enforce ◌==◌
get_implicit_users_test = refl

abbrev reads : Text → Bool
unfolding ◌==◌
reads u = is_user u (str "admin") || is_user u (str "bob")

answers :
    (u : Text) (w : World (Text × Text))
    → (enforce_for role_evaluator push_json with_roles u (str "data1") (str "read") w).0
      ≡ ok (reads u)
unfolding enforce_for m_enforce ◌==◌
answers u w = elim (Bool-cases (u == str "admin")) [
  | inl e ↦ rw e refl
  | inr e ↦ elim (Bool-cases (u == str "alice")) [
    | inl f ↦ rw e (rw f refl)
    | inr f ↦ elim (Bool-cases (u == str "bob")) [
      | inl g ↦ rw e (rw f (rw g refl))
      | inr g ↦ rw e (rw f (rw g refl))
    ]
  ]
]

abbrev subjects : List Text
subjects = str "admin" ∷ str "bob" ∷ []

abbrev roles : List Text
roles = str "admin" ∷ []

abbrev members : List Text
members = str "alice" ∷ []

has_subjects : get_values_for_field_in_policy_all_types with_roles.model (str "p") 0 ≡ ok subjects
unfolding get_values_for_field_in_policy_all_types ◌==◌
has_subjects = refl

has_roles : get_values_for_field_in_policy_all_types with_roles.model (str "g") 1 ≡ ok roles
unfolding get_values_for_field_in_policy_all_types ◌==◌
has_roles = refl

has_members : get_values_for_field_in_policy_all_types with_roles.model (str "g") 0 ≡ ok members
unfolding get_values_for_field_in_policy_all_types ◌==◌
has_members = refl

get_implicit_users_for_permission_lem_example :
    (users : List Text) × ((get_implicit_users_for_permission role_evaluator push_json with_roles
        (str "data1" ∷ str "read" ∷ [])
        (([], []), [])).0
      ≡ ok users)
    × ((u : Text)
        → In u users ↔ ((In u subjects ⊎ In u members) × (reads u ≡ true) × (¬ In u roles)))
get_implicit_users_for_permission_lem_example =
    get_implicit_users_for_permission_lem role_evaluator push_json with_roles (str "data1")
      (str "read") reads subjects roles members (([], []), []) answers has_subjects has_roles
      has_members
