-- ===== src/Enforcer/Cached/Tests.antt =====
-- The cached enforcer, run with the small evaluator.
use casbin_cpp.Base.{◌==◌, true, List, [], ◌∷◌, Text, str, ok, ◌≡◌, refl}
use casbin_cpp.Base.Assoc.{Assoc}
use casbin_cpp.Effect.{allow_override, deny_override}
use casbin_cpp.Enforcer.Enforce.Tests.{small_evaluator, small_enforcer, no_json, carol_request}
use casbin_cpp.Enforcer.Enforce.Requests.{Data, string_data}
use casbin_cpp.Enforcer.Enforce.{after_prefix, m_enforce}
use casbin_cpp.Enforcer.Cached.{
  CachedEnforcer, cached_enforce_with_matcher, cached_enforce_with_matcher_map, cache_key,
}
use casbin_cpp.Enforcer.Cached.Stale.{now, then_one, change, ask_map, cached_answer_stays}

abbrev cached : CachedEnforcer (Assoc Text)
cached = record {
  enforcer = small_enforcer allow_override;
  evaluator = [];
  m = [];
  enable_cache_flag = true;
}

asked_test :
    (cached_enforce_with_matcher small_evaluator no_json [] carol_request cached).0 ≡ ok true
unfolding cached_enforce_with_matcher ◌==◌ after_prefix m_enforce
asked_test = refl

-- The policy effect is another one after the first request.
abbrev changed : CachedEnforcer (Assoc Text)
unfolding cached_enforce_with_matcher
changed = record (cached_enforce_with_matcher small_evaluator no_json [] carol_request cached).1 {
  enforcer = small_enforcer deny_override;
  evaluator = [];
}

-- The same value under another name.
abbrev named_request : List (Text × Data (Unit {0}))
named_request = (str "other", string_data (str "carol")) ∷ []

cached_answer_stays_example :
    (cached_enforce_with_matcher small_evaluator no_json [] carol_request changed
      ≡ (ok true, changed))
    × (cached_enforce_with_matcher_map small_evaluator no_json [] named_request changed
        ≡ (ok true, changed))
unfolding changed cache_key cached_enforce_with_matcher_map ◌==◌ after_prefix m_enforce
cached_answer_stays_example =
    cached_answer_stays small_evaluator no_json [] [] [] carol_request carol_request named_request
      true cached changed refl asked_test
      (then_one
        (then_one now (
          change (cached_enforce_with_matcher small_evaluator no_json [] carol_request cached).1
            (small_enforcer deny_override) []))
        (ask_map [] named_request changed))
      refl refl
