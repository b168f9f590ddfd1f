-- ===== src/Persist/Tests.antt =====
-- Policies, saved and loaded.
use casbin_cpp.Base.{
  ◌==◌, Bool, true, false, none, some, List, [], ◌∷◌, Text, str, Rule, arith, ok, err, undefined,
  adapter, ◌≡◌, refl,
}
use casbin_cpp.Base.Assoc.{Assoc, lookup}
use casbin_cpp.Policy.{vector}
use casbin_cpp.Assertion.{Assertion}
use casbin_cpp.Model.{Model, AssertionMap, clear_policy}
use casbin_cpp.Persist.{add_tokens, FileAdapter, new_file_adapter, load_policy, save_policy}
use casbin_cpp.Persist.Filtered.{filter_words, save_policy_filtered, save_policy_filtered_lem}
use casbin_cpp.Persist.StringAdapter.{
  StringAdapter, new_string_adapter, load_policy_string, save_policy_string, remove_policy_string,
}
use casbin_cpp.Persist.Roundtrip.{load_policy-save_policy}

abbrev definition : Text → List Rule → Assertion
definition name rules = record {
  key = name;
  value = [];
  tokens = [];
  policy = vector rules;
  rm = none;
}

abbrev ps : AssertionMap
ps = (str "p", definition (str "p") ((str "a" ∷ str "d" ∷ str "r" ∷ []) ∷ [])) ∷ []

abbrev gs : AssertionMap
gs = (str "g", definition (str "g") ((str "a" ∷ str "x" ∷ []) ∷ [])) ∷ []

abbrev small_model : Model
small_model = record { m = (str "p", ps) ∷ (str "g", gs) ∷ [] }

abbrev any_file : Text → Bool
any_file path = true

save_policy_test :
    (save_policy any_file (new_file_adapter (str "f")) small_model []).0
    ≡ ok ((str "f", str "p, a, d, r\ng, a, x") ∷ [])
unfolding save_policy ◌==◌ new_file_adapter
save_policy_test = refl

load_policy-save_policy_example :
    (disk' : Assoc Text) × (model' : Model) × (save_policy any_file
        (new_file_adapter (str "f"))
        small_model
        []
      ≡ (ok disk', small_model))
    × (load_policy (new_file_adapter (str "f")) disk' (clear_policy small_model) ≡ ok model')
    × ((sec : Text) → lookup sec model'.m ≡ lookup sec small_model.m)
unfolding ◌==◌ lookup new_file_adapter
load_policy-save_policy_example =
    load_policy-save_policy ps gs small_model refl refl
      (
        (refl, ((refl, refl), (refl, tt), (refl, tt))),
        (
          (
            (
              ((refl, refl), (refl, tt), (refl, tt)),
              (
                ((refl, refl), (refl, tt), (refl, tt)),
                (((refl, refl), (refl, tt), (refl, tt)), tt),
              ),
            ),
            omega arith,
          ),
          tt,
        ),
        tt,
        tt,
      )
      (
        (refl, ((refl, refl), (refl, tt), (refl, tt))),
        (
          (
            (((refl, refl), (refl, tt), (refl, tt)), (((refl, refl), (refl, tt), (refl, tt)), tt)),
            omega arith,
          ),
          tt,
        ),
        tt,
        tt,
      )
      ((λ i. i), tt) ((λ i. i), tt) any_file (new_file_adapter (str "f")) [] refl refl

-- Where every field agrees, the answer of `filterWords` was never written.
filter_words_test : filter_words (str "p" ∷ str "a" ∷ []) (str "a" ∷ []) ≡ err undefined
unfolding filter_words ◌==◌
filter_words_test = refl

abbrev reloaded : FileAdapter
reloaded = record { file_path = str "f"; filtered = false }

save_policy_filtered_test :
    (reloaded.filtered ≡ true → save_policy_filtered 4 reloaded ≡ some (err adapter))
    × (reloaded.filtered ≡ false → save_policy_filtered 3 reloaded ≡ none)
save_policy_filtered_test = save_policy_filtered_lem reloaded 3

save_policy_string_test :
    (save_policy_string (new_string_adapter (str "x")) small_model).0
    ≡ ok (new_string_adapter (str "p, a, d, r\ng, a, x"))
unfolding save_policy_string new_string_adapter ◌==◌
save_policy_string_test = refl

load_policy_string_test :
    load_policy_string (new_string_adapter (str "p, a, d, r\ng, a, x")) (clear_policy small_model)
    ≡ ok small_model
unfolding load_policy_string new_string_adapter clear_policy ◌==◌ add_tokens
load_policy_string_test = refl

abbrev has_two : StringAdapter
unfolding new_string_adapter
has_two = new_string_adapter (str "p, a, d, r\ng, a, x")

-- To remove one rule leaves none, and a buffer that is not valid.
remove_policy_string_test :
    remove_policy_string has_two (str "p") (str "p") (str "nobody" ∷ [])
    ≡ ok (new_string_adapter [])
unfolding remove_policy_string new_string_adapter
remove_policy_string_test = refl
