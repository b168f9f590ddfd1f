-- ===== src/Enforcer/Cached.antt =====
-- casbin/enforcer_cached.cpp: an enforcer that keeps its answers. The evaluator is the one that the
-- enforcer holds, `m_evalator`.
pub mod Stale
pub mod Tests
use casbin_cpp.Base.{
  Bool, true, false, Option, none, some, List, [], ◌∷◌, ◌++◌, Text, str, if◌then◌else◌, Result, ok,
  err,
}
use casbin_cpp.Base.Assoc.{Assoc, lookup, insert}
use casbin_cpp.Rbac.{RoleManager}
use casbin_cpp.Enforcer.{Enforcer}
use casbin_cpp.Enforcer.Evaluate.{Evaluator, World}
use casbin_cpp.Enforcer.Enforce.Requests.{
  Data, string_data, json_data, enforce_with_matcher, enforce_with_matcher_map,
}

pub record CachedEnforcer (S : Type 0) : Type 0 where
  pub enforcer : Enforcer
  pub evaluator : S
  pub m : Assoc Bool
  pub enable_cache_flag : Bool

module _ {S : Type 0} where
  unfoldable pub enable_cache : Bool → CachedEnforcer S → CachedEnforcer S
  enable_cache should c = record c { enable_cache_flag = should }

  -- The answer, when there is one.
  unfoldable pub get_cached_result : Text → CachedEnforcer S → Option Bool
  unfolding lookup
  get_cached_result key c = lookup key c.m

  unfoldable pub set_cached_result : Text → Bool → CachedEnforcer S → CachedEnforcer S
  unfolding insert
  set_cached_result key res c = record c { m = insert key res c.m }

  unfoldable pub invalidate_cache : CachedEnforcer S → CachedEnforcer S
  invalidate_cache c = record c { m = [] }

  -- What a call of the base class leaves behind.
  abbrev pub with_world : CachedEnforcer S → World S → CachedEnforcer S
  with_world c (s, managers) = record c {
    evaluator = s;
    enforcer = record c.enforcer { managers = managers };
  }

  -- The answer of the base class, stored unless it is an exception.
  unfoldable pub remember :
      Text → CachedEnforcer S → Result Bool × World S → Result Bool × CachedEnforcer S
  unfolding set_cached_result
  remember key c (ok b, w) = (ok b, set_cached_result key b (with_world c w))
  remember key c (err e, w) = (err e, with_world c w)

  abbrev pub forget : CachedEnforcer S → Result Bool × World S → Result Bool × CachedEnforcer S
  forget c (r, w) = (r, with_world c w)

module _ {J : Type 0} where
  -- The values and the matcher as one text; a value that is no text leaves its separator only.
  unfoldable pub cache_key : Text → List (Data J) → Text
  cache_key matcher [] = matcher ++ str "$"
  cache_key matcher (string_data x ∷ ps) = x ++ (str "$$" ++ cache_key matcher ps)
  cache_key matcher (json_data x ∷ ps) = str "$$" ++ cache_key matcher ps

  -- With a map, the names are not part of it.
  abbrev pub values_of : List (Text × Data J) → List (Data J)
  values_of [] = []
  values_of ((name, p) ∷ ps) = p ∷ values_of ps

module _ {S J : Type 0} (ev : Evaluator S) (push_object_json : Text → Text → J → S → S) where
  unfoldable pub cached_enforce_with_matcher :
      Text → List (Data J) → CachedEnforcer S → Result Bool × CachedEnforcer S
  unfolding cache_key get_cached_result remember enforce_with_matcher
  cached_enforce_with_matcher matcher params c =
      let base = enforce_with_matcher ev push_object_json c.enforcer matcher params c.evaluator in
      let key = cache_key matcher params in
      if c.enable_cache_flag
      then elim (get_cached_result key c) [ some b ↦ (ok b, c) | none ↦ remember key c base ]
      else forget c base

  unfoldable pub cached_enforce_with_matcher_map :
      Text → List (Text × Data J) → CachedEnforcer S → Result Bool × CachedEnforcer S
  unfolding cache_key get_cached_result remember enforce_with_matcher_map
  cached_enforce_with_matcher_map matcher params c =
      let base =
        enforce_with_matcher_map ev push_object_json c.enforcer matcher params c.evaluator in
      let key = cache_key matcher (values_of params) in
      if c.enable_cache_flag
      then elim (get_cached_result key c) [ some b ↦ (ok b, c) | none ↦ remember key c base ]
      else forget c base

  unfoldable pub cached_enforce : List (Data J) → CachedEnforcer S → Result Bool × CachedEnforcer S
  unfolding cached_enforce_with_matcher
  cached_enforce params c = cached_enforce_with_matcher [] params c
