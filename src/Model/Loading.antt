-- ===== src/Model/Loading.antt =====
-- casbin/model/model.cpp: loading a model from a configuration. `std::regex_replace` with the empty
-- text is a parameter, which throws where the pattern is no regular expression.
pub mod Missing
pub mod Sources
pub mod Tests
use casbin_cpp.Base.{
  ℕ, zero, suc, ◌+◌, ◌-◌, ◌%◌, ◌^◌, Bool, true, false, not, ◌&&◌, ◌||◌, Option, none, some, List,
  [], ◌∷◌, ◌++◌, Text, str, ◌==◌, if◌then◌else◌, nat_eq, ltb, length, drop, map, replicate, Result,
  ok, err, out_of_range, missing_required_sections, ◌>>=◌,
}
use casbin_cpp.Base.Assoc.{lookup, insert}
use casbin_cpp.Util.Trim.{trim, remove_comments}
use casbin_cpp.Util.Split.{split}
use casbin_cpp.Policy.{vector, hashset}
use casbin_cpp.Assertion.{Assertion}
use casbin_cpp.Config.{Config, get_string}
use casbin_cpp.Ip.Address.{decimal_loop}
use casbin_cpp.Model.{Model, has_section, section, put_section}

-- `section_name_map`
abbrev pub section_name : Text → Text
unfolding ◌==◌
section_name sec =
    if sec == str "r"
    then str "request_definition"
    else if sec == str "p"
    then str "policy_definition"
    else if sec == str "g"
    then str "role_definition"
    else if sec == str "e"
    then str "policy_effect"
    else if sec == str "m"
    then str "matchers"
    else []

abbrev pub required_sections : List Text
required_sections = str "r" ∷ str "p" ∷ str "e" ∷ str "m" ∷ []

-- `sections_names_reading_order`
abbrev pub reading_order : List Text
reading_order = str "m" ∷ str "r" ∷ str "p" ∷ str "g" ∷ str "e" ∷ []

-- `std::to_string` of an `int`
unfoldable pub get_key_suffix : ℕ → Text
unfolding decimal_loop
get_key_suffix i = if nat_eq i 1 then [] else decimal_loop 10 i

-- `m.find(sec)` and `assertion_map.find(key)`
unfoldable pub find_assertion : Model → Text → Text → Option Assertion
unfolding lookup
find_assertion model sec key = elim (lookup sec model.m) [
  | none ↦ none
  | some amap ↦ lookup key amap
]

-- `token.substr(2, token.size() - 2)`
abbrev effective_token : Text → Result Text
effective_token token = if ltb (length token) 2 then err out_of_range else ok (drop 2 token)

abbrev times : ℕ → Text → Text
times zero t = []
times (suc n) t = t ++ times n t

-- The tokens of a request or policy definition carry its key.
abbrev pub tokens_of : Text → Text → Text → List Text
unfolding trim split ◌==◌
tokens_of sec key value =
    if sec == str "r" || sec == str "p"
    then map (λ t. key ++ (str "_" ++ trim t)) (split value (str ",") 0)
    else []

abbrev pub value_of : Text → Text → Text
unfolding remove_comments ◌==◌
value_of sec value = if sec == str "r" || sec == str "p" then value else remove_comments value

-- The definition that `AddDef` puts into the model, when that is known to be possible.
abbrev pub put_definition : Text → Text → Text → Result Bool → Model → Result Bool × Model
unfolding tokens_of value_of section put_section insert
put_definition sec key value (err e) model = (err e, model)
put_definition sec key value (ok possible) model =
    let ast : Assertion = record {
      key = key;
      value = value_of sec value;
      tokens = tokens_of sec key value;
      policy = if possible then hashset [] else vector [];
      rm = none;
    } in
    (ok true, put_section sec (insert key ast (section model sec)) model)

abbrev pub Load : Type 0
Load = Option (Result (Unit {0}) × Model)

-- The next round of the loop, unless this one was the last.
abbrev pub or_stop : (Model → Load) → Result Bool × Model → Load
or_stop again (err e, model) = some (err e, model)
or_stop again (ok false, model) = some (ok tt, model)
or_stop again (ok true, model) = again model

abbrev pub and_then : (Model → Load) → Load → Load
and_then rest none = none
and_then rest (some (err e, model)) = some (err e, model)
and_then rest (some (ok t, model)) = rest model

abbrev missing : List Text → Model → List Text
unfolding has_section section_name
missing [] model = []
missing (sec ∷ secs) model =
    let rest = missing secs model in if has_section model sec then rest else section_name sec ∷ rest

abbrev pub require : List Text → Model → Load
require [] model = some (ok tt, model)
require (name ∷ names) model = some (err (missing_required_sections (name ∷ names)), model)

module _ (regex_remove : Text → Text → Result Text) where
  -- The matcher without the comparison of each token.
  abbrev pub strip_tokens : List Text → Text → Result Text
  strip_tokens [] matcher = ok matcher
  strip_tokens (t ∷ ts) matcher = do
    token ← effective_token t
    matcher' ← regex_remove matcher (str "r." ++ (token ++ (str " == p." ++ token)))
    strip_tokens ts matcher'

  -- `IsHashsetUsagePossible`; `at("m")` throws where there is no matcher. The count of tokens less
  -- one is a `size_t`.
  unfoldable pub is_hashset_usage_possible : Model → Result Bool
  unfolding find_assertion has_section ◌==◌
  is_hashset_usage_possible model = elim (find_assertion model (str "r") (str "r")) [
    | none ↦ ok false
    | some r ↦ elim (find_assertion model (str "m") (str "m")) [
      | none ↦ err out_of_range
      | some m ↦ (do
        matcher ← strip_tokens r.tokens m.value
        let expected = times ((length r.tokens + 2 ^ 64 - 1) % 2 ^ 64) (str " && ")
        ok (expected == matcher && not (has_section model (str "g"))))
    ]
  ]

  -- `AddDef`. A policy definition needs a matcher and a request definition before it; without them
  -- its section is made and the definition is not.
  unfoldable pub add_def : Text → Text → Text → Model → Result Bool × Model
  unfolding is_hashset_usage_possible put_definition has_section put_section ◌==◌
  add_def sec key value model =
      let made = if has_section model sec then model else put_section sec [] model in
      let too_early = not (has_section made (str "m")) || not (has_section made (str "r")) in
      if value == []
      then (ok false, model)
      else if sec == str "p" && too_early
      then (ok false, made)
      else put_definition sec key value (is_hashset_usage_possible made) made

  unfoldable pub load_assertion : Config → Text → Text → Model → Result Bool × Model
  unfolding add_def section_name get_string
  load_assertion cfg sec key model =
      add_def sec key (get_string (section_name sec ++ (str "::" ++ key)) cfg) model

  -- `LoadSection`, with so many rounds left, from the definition with number `i`.
  unfoldable pub load_section : ℕ → Config → Text → ℕ → Model → Load
  unfolding load_assertion get_key_suffix
  load_section zero cfg sec i model = none
  load_section (suc n) cfg sec i model =
      or_stop (load_section n cfg sec (i + 1))
        (load_assertion cfg sec (sec ++ get_key_suffix i) model)

  unfoldable pub load_sections : ℕ → Config → List Text → Model → Load
  unfolding load_section
  load_sections n cfg [] model = some (ok tt, model)
  load_sections n cfg (sec ∷ secs) model =
      and_then (load_sections n cfg secs) (load_section n cfg sec 1 model)

  unfoldable pub load_model_from_config : ℕ → Config → Model → Load
  unfolding load_sections missing
  load_model_from_config n cfg model =
      and_then (λ loaded. require (missing required_sections loaded) loaded)
        (load_sections n cfg reading_order model)
