-- ===== src/Model/Loading/Tests.antt =====
-- Models, loaded from small configurations.
use casbin_cpp.Base.{
  ◌==◌, false, none, some, [], ◌∷◌, Text, str, Result, ok, err, out_of_range,
  missing_required_sections, ◌≡◌, refl,
}
use casbin_cpp.Config.{Config, get_string}
use casbin_cpp.Model.{Model}
use casbin_cpp.Model.Loading.{Load, load_model_from_config}
use casbin_cpp.Model.Loading.Missing.{new_model, no_matcher_throws}

-- A replacement that finds nothing.
abbrev unchanged : Text → Text → Result Text
unchanged text pattern = ok text

abbrev without_matcher : Config
without_matcher = record {
  section_data =
      (str "request_definition", (str "r", str "sub, obj") ∷ [])
      ∷ (str "policy_definition", (str "p", str "sub, obj") ∷ [])
      ∷ (str "policy_effect", (str "e", str "some(where (p.eft == allow))") ∷ [])
      ∷ [];
}

no_m : get_string (str "matchers::m") without_matcher ≡ []
unfolding get_string ◌==◌
no_m = refl

has_r : (get_string (str "request_definition::r") without_matcher == []) ≡ false
unfolding get_string ◌==◌
has_r = refl

has_e : (get_string (str "policy_effect::e") without_matcher == []) ≡ false
unfolding get_string ◌==◌
has_e = refl

no_matcher_throws_example :
    (model : Model) × (load_model_from_config unchanged 2 without_matcher new_model
      ≡ some (err out_of_range, model))
no_matcher_throws_example = no_matcher_throws unchanged without_matcher 0 no_m has_r has_e

-- Without anything, the four sections are missing.
abbrev result_of : Load → Result (Unit {0})
result_of none = ok tt
result_of (some (r, model)) = r

nothing_test :
    result_of (load_model_from_config unchanged 1 (record { section_data = [] }) new_model)
    ≡ err (
        missing_required_sections (
          str "request_definition"
          ∷ str "policy_definition"
          ∷ str "policy_effect"
          ∷ str "matchers"
          ∷ []))
unfolding load_model_from_config ◌==◌
nothing_test = refl
