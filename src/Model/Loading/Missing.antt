-- ===== src/Model/Loading/Missing.antt =====
-- Loading a configuration without a matcher.
use casbin_cpp.Base.{
  ℕ, suc, ◌+◌, true, false, none, some, [], ◌∷◌, ◌++◌, Text, str, ◌==◌, ==_iff, if◌then◌else◌,
  Result, ok, err, out_of_range, ◌≡◌, refl, ap, sym, subst, ◌∙◌, inl, inr, ◌⊎◌, Bool-cases,
  Option-cases,
}
use casbin_cpp.Base.Assoc.{lookup, insert, lookup-insert-other}
use casbin_cpp.Policy.{vector}
use casbin_cpp.Assertion.{Assertion}
use casbin_cpp.Config.{Config, get_string}
use casbin_cpp.Model.{Model, AssertionMap, has_section, put_section}
use casbin_cpp.Model.Loading.{
  section_name, tokens_of, value_of, get_key_suffix, find_assertion, is_hashset_usage_possible,
  add_def, load_assertion, Load, load_section, load_sections, load_model_from_config, and_then,
  or_stop,
}

abbrev pub new_model : Model
new_model = record { m = [] }

-- A request definition and no matchers.
abbrev Stuck : Model → Type 0
Stuck model =
    (lookup (str "m") model.m ≡ none)
    × ((amap : AssertionMap) × (lookup (str "r") model.m ≡ some amap)
        × ((a : Assertion) × (lookup (str "r") amap ≡ some a)))

abbrev made : Text → Model → Model
unfolding has_section put_section
made sec model = if has_section model sec then model else put_section sec [] model

Stuck-made :
    (sec : Text) (model : Model) → (¬ (sec ≡ str "m")) → Stuck model → Stuck (made sec model)
unfolding made has_section put_section
Stuck-made sec model ne (no_m, (amap, r_there, found)) = elim (Option-cases (lookup sec model.m)) [
  | inr (x, e) ↦ rw (e, has_section) (no_m, (amap, r_there, found))
  | inl e ↦
      let other : ¬ (str "r" ≡ sec) = λ q. cc (r_there, ap (λ s. lookup s model.m) q, e) in
      rw (e, has_section)
        (
          lookup-insert-other sec (str "m") [] model.m (λ q. ne (sym q)) ∙ no_m,
          (amap, lookup-insert-other sec (str "r") [] model.m other ∙ r_there, found),
        )
]

Throws : Load → Type 0
Throws l = (model : Model) × (l ≡ some (err out_of_range, model))

Halts : Load → Type 0
Halts l = ((model : Model) × (l ≡ some (ok tt, model)) × Stuck model) ⊎ Throws l

assertion_found :
    (model : Model) (sec key : Text) (amap : AssertionMap)
    → lookup sec model.m ≡ some amap
    → find_assertion model sec key ≡ lookup key amap
unfolding find_assertion
assertion_found model sec key amap e = rw (e, find_assertion) refl

no_assertion :
    (model : Model) (sec key : Text)
    → lookup sec model.m ≡ none
    → find_assertion model sec key ≡ none
unfolding find_assertion
no_assertion model sec key e = rw (e, find_assertion) refl

has_section-lookup :
    (model : Model) (sec : Text) → lookup sec model.m ≡ none → has_section model sec ≡ false
unfolding has_section
has_section-lookup model sec e = rw (e, has_section) refl

Throws-and_then :
    (rest : Model → Load) (l : Load)
    → Halts l
    → ((model : Model) → Stuck model → Throws (rest model))
    → Throws (and_then rest l)
unfolding Halts Throws
Throws-and_then rest l (inl (model, e, stuck)) k = rw e (k model stuck)
Throws-and_then rest l (inr (model, e)) k = rw e (model, refl)

r_not_m : ¬ (str "r" ≡ str "m")
unfolding ◌==◌
r_not_m e = cc ((==_iff (str "r") (str "m")).1 e)

p_not_m : ¬ (str "p" ≡ str "m")
unfolding ◌==◌
p_not_m e = cc ((==_iff (str "p") (str "m")).1 e)

g_not_m : ¬ (str "g" ≡ str "m")
unfolding ◌==◌
g_not_m e = cc ((==_iff (str "g") (str "m")).1 e)

e_not_m : ¬ (str "e" ≡ str "m")
unfolding ◌==◌
e_not_m e = cc ((==_iff (str "e") (str "m")).1 e)

Throws-end : (rest : Model → Load) (l : Load) → Throws l → Throws (and_then rest l)
unfolding Throws
Throws-end rest l (model, e) = rw e (model, refl)

module _ (regex_remove : Text → Text → Result Text) (cfg : Config) where
  impossible :
      (model : Model)
      → Stuck model
      → is_hashset_usage_possible regex_remove model ≡ err out_of_range
  unfolding is_hashset_usage_possible
  impossible model (no_m, (amap, r_there, (a, found))) =
      rw
        (
          assertion_found model (str "r") (str "r") amap r_there ∙ found,
          no_assertion model (str "m") (str "m") no_m,
          is_hashset_usage_possible,
        )
        refl

  def-empty :
      (sec key value : Text) (model : Model)
      → (value == []) ≡ true
      → add_def regex_remove sec key value model ≡ (ok false, model)
  unfolding add_def
  def-empty sec key value model e = rw (e, add_def) refl

  def-early :
      (sec key value : Text) (model : Model)
      → (value == []) ≡ false
      → (sec == str "p") ≡ true
      → has_section (made sec model) (str "m") ≡ false
      → add_def regex_remove sec key value model ≡ (ok false, made sec model)
  unfolding add_def made
  def-early sec key value model e f g = rw (e, f, g, add_def) refl

  def-thrown :
      (sec key value : Text) (model : Model)
      → (value == []) ≡ false
      → (sec == str "p") ≡ false
      → is_hashset_usage_possible regex_remove (made sec model) ≡ err out_of_range
      → add_def regex_remove sec key value model ≡ (err out_of_range, made sec model)
  unfolding add_def made
  def-thrown sec key value model e f g = rw (e, f, g, add_def) refl

  -- One round ends the loop.
  Halts-add_def :
      (sec key value : Text) (model : Model) (again : Model → Load)
      → (¬ (sec ≡ str "m"))
      → Stuck model
      → Halts (or_stop again (add_def regex_remove sec key value model))
  unfolding Halts Throws
  Halts-add_def sec key value model again ne stuck =
      let stuck' = Stuck-made sec model ne stuck in
      let thrown = impossible (made sec model) stuck' in
      elim (Bool-cases (value == [])) [
        | inl e ↦ rw (def-empty sec key value model e) (inl (model, refl, stuck))
        | inr e ↦ elim (Bool-cases (sec == str "p")) [
          | inl f ↦
              rw
                (def-early sec key value model e f
                  (has_section-lookup (made sec model) (str "m") stuck'.0))
                (inl (made sec model, refl, stuck'))
          | inr f ↦ rw (def-thrown sec key value model e f thrown) (inr (made sec model, refl))
        ]
      ]

  Halts-load_section :
      (n : ℕ) (sec : Text) (i : ℕ) (model : Model)
      → (¬ (sec ≡ str "m"))
      → Stuck model
      → Halts (load_section regex_remove (suc n) cfg sec i model)
  unfolding load_section load_assertion
  Halts-load_section n sec i model ne stuck =
      Halts-add_def sec (sec ++ get_key_suffix i)
        (get_string (section_name sec ++ (str "::" ++ (sec ++ get_key_suffix i))) cfg) model
        (load_section regex_remove n cfg sec (i + 1)) ne stuck

  -- The definition that is there throws.
  Throws-load_section :
      (n : ℕ) (sec : Text) (model : Model)
      → (¬ (sec ≡ str "m"))
      → (sec == str "p") ≡ false
      → (get_string (section_name sec ++ (str "::" ++ (sec ++ []))) cfg == []) ≡ false
      → Stuck model
      → Throws (load_section regex_remove (suc n) cfg sec 1 model)
  unfolding load_section load_assertion Throws get_key_suffix
  Throws-load_section n sec model ne not_p there stuck = (
    made sec model,
    ap (or_stop (load_section regex_remove n cfg sec 2)) (
        def-thrown sec (sec ++ []) (get_string (section_name sec ++ (str "::" ++ (sec ++ []))) cfg)
          model there not_p (impossible (made sec model) (Stuck-made sec model ne stuck))),
  )

  -- The first request definition is loaded.
  with_request : Text → Model
  with_request value = record {
    m =
        (
          str "r",
          (
            str "r",
            record {
              key = str "r";
              value = value_of (str "r") value;
              tokens = tokens_of (str "r") (str "r") value;
              policy = vector [];
              rm = none;
            },
          )
              ∷ [],
        )
        ∷ [];
  }

  Stuck-with_request : (value : Text) → Stuck (with_request value)
  unfolding with_request lookup ◌==◌
  Stuck-with_request value = (refl, (_, refl, (_, refl)))

  first_request :
      (value : Text)
      → (value == []) ≡ false
      → add_def regex_remove (str "r") (str "r") value new_model ≡ (ok true, with_request value)
  unfolding add_def with_request is_hashset_usage_possible find_assertion put_section has_section
      lookup insert ◌==◌
  first_request value e = rw (e, add_def) refl

  Halts-r :
      (n : ℕ)
      → (get_string (str "request_definition::r") cfg == []) ≡ false
      → Halts (load_section regex_remove (suc (suc n)) cfg (str "r") 1 new_model)
  unfolding load_section load_assertion get_key_suffix section_name ◌==◌
  Halts-r n there =
      let value = get_string (str "request_definition::r") cfg in
      subst Halts
        (sym (
          ap (or_stop (load_section regex_remove (suc n) cfg (str "r") 2))
            (first_request value there)))
        (Halts-load_section n (str "r") 2 (with_request value) r_not_m (Stuck-with_request value))

  no_matcher_section :
      (n : ℕ)
      → get_string (str "matchers::m") cfg ≡ []
      → load_section regex_remove (suc n) cfg (str "m") 1 new_model ≡ some (ok tt, new_model)
  unfolding load_section load_assertion get_key_suffix section_name add_def ◌==◌
  no_matcher_section n no_m = rw no_m refl

  -- Whatever the number of rounds from two on, and whatever else the configuration holds, a
  -- configuration with a request definition and a policy effect and without a matcher is loaded
  -- into a new model by throwing `std::out_of_range`, not the exception for missing sections.
  pub no_matcher_throws :
      (n : ℕ)
      → get_string (str "matchers::m") cfg ≡ []
      → (get_string (str "request_definition::r") cfg == []) ≡ false
      → (get_string (str "policy_effect::e") cfg == []) ≡ false
      → (model : Model) × (load_model_from_config regex_remove (suc (suc n)) cfg new_model
          ≡ some (err out_of_range, model))
  unfolding load_model_from_config load_sections Throws ◌==◌ section_name
  no_matcher_throws n no_m has_r has_e = rw (no_matcher_section (suc n) no_m) (
      Throws-end _ _ (
        Throws-and_then _ _ (Halts-r n has_r) (λ m1 s1.
          Throws-and_then _ _ (Halts-load_section (suc n) (str "p") 1 m1 p_not_m s1) (λ m2 s2.
            Throws-and_then _ _ (Halts-load_section (suc n) (str "g") 1 m2 g_not_m s2) (λ m3 s3.
              Throws-end _ _ (Throws-load_section (suc n) (str "e") m3 e_not_m refl has_e s3))))))
