-- ===== src/Enforcer/Enforce/Requests.antt =====
-- `EnforceExWithMatcher` of casbin/enforcer.cpp with a list of values, which pushes the request to
-- the evaluator and enforces. A JSON value is of a type `J` of its own.
use casbin_cpp.Base.{
  Bool, false, List, [], ◌∷◌, Text, str, Rule, if◌then◌else◌, nat_eq, length, Result, ok, err,
}
use casbin_cpp.Model.{assertion}
use casbin_cpp.Enforcer.{Enforcer}
use casbin_cpp.Enforcer.Evaluate.{Evaluator, World, Run, pure, lift, modify, ◌>>=◌, ◌>>◌}
use casbin_cpp.Enforcer.Enforce.{after_prefix, m_enforce}

pub data Data (J : Type 0) : Type 0 where
  string_data : Text → Data J
  json_data : J → Data J

module _ {S J : Type 0} (ev : Evaluator S) (push_object_json : Text → Text → J → S → S) where
  abbrev push_one : Text → Data J → S → S
  push_one token (string_data x) s = ev.push_object_string (str "r") token x s
  push_one token (json_data x) s = push_object_json (str "r") token x s

  -- The loop over the parameters.
  pub push_params : List Text → List (Data J) → Run S (Unit {0})
  push_params [] ps = pure tt
  push_params (t ∷ ts) [] = pure tt
  push_params (t ∷ ts) (p ∷ ps) = do
    token ← lift (after_prefix t)
    modify (push_one token p)
    push_params ts ps

  unfoldable pub enforce_ex_with_matcher :
      Enforcer → Text → List (Data J) → Rule → S → Result (Bool × Rule) × World S
  unfolding push_params assertion
  enforce_ex_with_matcher e matcher params explain s =
      (do
        r ← lift (assertion e.model (str "r") (str "r"))
        if nat_eq (length params) (length r.tokens)
            then (do
              modify (ev.initial_object (str "r"))
              push_params r.tokens params
              λ w. m_enforce ev e matcher w.0)
            else pure (false, explain))
        (s, e.managers)

  -- `EnforceExWithMatcher` with a map, in the order in which its entries are visited.
  pub push_named : List (Text × Data J) → S → S
  push_named [] s = s
  push_named ((name, p) ∷ ps) s = push_named ps (push_one name p s)

  unfoldable pub enforce_ex_with_matcher_map :
      Enforcer → Text → List (Text × Data J) → S → Result (Bool × Rule) × World S
  unfolding push_named
  enforce_ex_with_matcher_map e matcher params s =
      m_enforce ev e matcher (push_named params (ev.initial_object (str "r") s))

  -- The answer without the explanation, which starts empty.
  abbrev pub answer_only : Result (Bool × Rule) × World S → Result Bool × World S
  answer_only (ok (b, x), w) = (ok b, w)
  answer_only (err e, w) = (err e, w)

  unfoldable pub enforce_with_matcher : Enforcer → Text → List (Data J) → S → Result Bool × World S
  unfolding enforce_ex_with_matcher
  enforce_with_matcher e matcher params s =
      answer_only (enforce_ex_with_matcher e matcher params [] s)

  unfoldable pub enforce_with_matcher_map :
      Enforcer → Text → List (Text × Data J) → S → Result Bool × World S
  unfolding enforce_ex_with_matcher_map
  enforce_with_matcher_map e matcher params s =
      answer_only (enforce_ex_with_matcher_map e matcher params s)

  -- `Enforce` and `EnforceEx`: the model's own matcher.
  unfoldable pub enforce : Enforcer → List (Data J) → S → Result Bool × World S
  unfolding enforce_with_matcher
  enforce e params s = enforce_with_matcher e [] params s

  unfoldable pub enforce_ex : Enforcer → List (Data J) → Rule → S → Result (Bool × Rule) × World S
  unfolding enforce_ex_with_matcher
  enforce_ex e params explain s = enforce_ex_with_matcher e [] params explain s

  -- `BatchEnforceWithMatcher`, request after request; an exception ends it.
  unfoldable pub batch_enforce_with_matcher :
      Enforcer → Text → List (List (Data J)) → Run S (List Bool)
  unfolding enforce_with_matcher
  batch_enforce_with_matcher e matcher [] = pure []
  batch_enforce_with_matcher e matcher (r ∷ rs) = do
    b ← λ w. enforce_with_matcher (record e { managers = w.1 }) matcher r w.0
    bs ← batch_enforce_with_matcher e matcher rs
    pure (b ∷ bs)

  unfoldable pub batch_enforce : Enforcer → List (List (Data J)) → Run S (List Bool)
  unfolding batch_enforce_with_matcher
  batch_enforce e requests = batch_enforce_with_matcher e [] requests
