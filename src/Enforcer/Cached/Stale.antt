-- ===== src/Enforcer/Cached/Stale.antt =====
-- What the cache answers: what the base class answered when it was asked first.
use casbin_cpp.Base.{
  Bool, true, none, some, List, Text, ==_iff, ==_refl, Result, ok, err, Option-cases, ◌≡◌, refl,
  ◌∙◌, inl, inr, arith,
}
use casbin_cpp.Base.Assoc.{lookup, lookup-insert}
use casbin_cpp.Enforcer.{Enforcer}
use casbin_cpp.Enforcer.Evaluate.{Evaluator, World}
use casbin_cpp.Enforcer.Enforce.Requests.{Data, enforce_with_matcher, enforce_with_matcher_map}
use casbin_cpp.Enforcer.Cached.{
  CachedEnforcer, get_cached_result, set_cached_result, remember, cache_key,
  cached_enforce_with_matcher, cached_enforce_with_matcher_map, values_of,
}

module _ {S J : Type 0} (ev : Evaluator S) (push_object_json : Text → Text → J → S → S) where
  -- A request to the cached enforcer, with a list or with a map, or a change of anything but its
  -- cache: of the policy, say, or of the evaluator.
  pub data Step : CachedEnforcer S → CachedEnforcer S → Type 0 where
    ask :
        (matcher : Text) (params : List (Data J)) (c : CachedEnforcer S)
        → Step c (cached_enforce_with_matcher ev push_object_json matcher params c).1
    ask_map :
        (matcher : Text) (params : List (Text × Data J)) (c : CachedEnforcer S)
        → Step c (cached_enforce_with_matcher_map ev push_object_json matcher params c).1
    change :
        (c : CachedEnforcer S) (e : Enforcer) (s : S)
        → Step c (record c { enforcer = e; evaluator = s })

  pub data Later (c : CachedEnforcer S) : CachedEnforcer S → Type 0 where
    now : Later c c
    then_one : {d d' : CachedEnforcer S} → Later c d → Step d d' → Later c d'

  keeps-remember :
      (key k : Text) (c : CachedEnforcer S) (r : Result Bool × World S) (b : Bool)
      → lookup key c.m ≡ none
      → lookup k c.m ≡ some b
      → lookup k (remember key c r).1.m ≡ some b
  unfolding remember set_cached_result
  keeps-remember key k c (err e, w) b free there = there
  keeps-remember key k c (ok x, w) b free there =
      rw (lookup-insert key k x c.m) (ground (arith, ==_iff key k))

  stored-remember :
      (key : Text) (c : CachedEnforcer S) (r : Result Bool × World S) (b : Bool)
      → (remember key c r).0 ≡ ok b
      → lookup key (remember key c r).1.m ≡ some b
  unfolding remember set_cached_result
  stored-remember key c (err e, w) b h = cc
  stored-remember key c (ok x, w) b h =
      rw (lookup-insert key key x c.m) (rw (==_refl key) (ground arith))

  -- The cache is on and holds the answer `b` under `k`.
  abbrev pub Holds : Text → Bool → CachedEnforcer S → Type 0
  Holds k b c = (c.enable_cache_flag ≡ true) × (lookup k c.m ≡ some b)

  flag-remember :
      (key : Text) (c : CachedEnforcer S) (r : Result Bool × World S)
      → (remember key c r).1.enable_cache_flag ≡ c.enable_cache_flag
  unfolding remember set_cached_result
  flag-remember key c (err e, w) = refl
  flag-remember key c (ok x, w) = refl

  answer-kept :
      (matcher : Text) (params : List (Data J)) (b : Bool) (c : CachedEnforcer S)
      → Holds (cache_key matcher params) b c
      → cached_enforce_with_matcher ev push_object_json matcher params c ≡ (ok b, c)
  unfolding cached_enforce_with_matcher get_cached_result
  answer-kept matcher params b c h = simp (h.0, h.1)

  asked_first :
      (matcher : Text) (params : List (Data J)) (c : CachedEnforcer S)
      → c.enable_cache_flag ≡ true
      → lookup (cache_key matcher params) c.m ≡ none
      → cached_enforce_with_matcher ev push_object_json matcher params c
        ≡ remember
            (cache_key matcher params)
            c
            (enforce_with_matcher ev push_object_json c.enforcer matcher params c.evaluator)
  unfolding cached_enforce_with_matcher get_cached_result
  asked_first matcher params c on miss = simp (on, miss)

  Holds-ask :
      (matcher : Text) (params : List (Data J)) (k : Text) (b : Bool) (c : CachedEnforcer S)
      → Holds k b c
      → Holds k b (cached_enforce_with_matcher ev push_object_json matcher params c).1
  unfolding cached_enforce_with_matcher get_cached_result
  Holds-ask matcher params k b c h =
      let key = cache_key matcher params in
      let base = enforce_with_matcher ev push_object_json c.enforcer matcher params c.evaluator in
      elim (Option-cases (lookup (cache_key matcher params) c.m)) [
        | inl miss ↦
            rw (asked_first matcher params c h.0 miss)
              (flag-remember key c base ∙ h.0, keeps-remember key k c base b miss h.1)
        | inr (x, hit) ↦ rw (answer-kept matcher params x c (h.0, hit)) h
      ]

  Holds-ask_map :
      (matcher : Text) (params : List (Text × Data J)) (k : Text) (b : Bool) (c : CachedEnforcer S)
      → Holds k b c
      → Holds k b (cached_enforce_with_matcher_map ev push_object_json matcher params c).1
  unfolding cached_enforce_with_matcher_map get_cached_result
  Holds-ask_map matcher params k b c h =
      let key = cache_key matcher (values_of params) in
      let base =
        enforce_with_matcher_map ev push_object_json c.enforcer matcher params c.evaluator in
      elim (Option-cases (lookup (cache_key matcher (values_of params)) c.m)) [
        | inl miss ↦
            rw (h.0, miss) (flag-remember key c base ∙ h.0, keeps-remember key k c base b miss h.1)
        | inr (x, hit) ↦ rw (h.0, hit) h
      ]

  map_answer-kept :
      (matcher : Text) (params : List (Text × Data J)) (b : Bool) (c : CachedEnforcer S)
      → Holds (cache_key matcher (values_of params)) b c
      → cached_enforce_with_matcher_map ev push_object_json matcher params c ≡ (ok b, c)
  unfolding cached_enforce_with_matcher_map get_cached_result
  map_answer-kept matcher params b c h = simp (h.0, h.1)

  Holds-Step : (k : Text) (b : Bool) {c d : CachedEnforcer S} → Step c d → Holds k b c → Holds k b d
  Holds-Step k b (ask matcher params c) h = Holds-ask matcher params k b c h
  Holds-Step k b (ask_map matcher params c) h = Holds-ask_map matcher params k b c h
  Holds-Step k b (change c e s) h = h

  Holds-Later :
      (k : Text) (b : Bool) {c d : CachedEnforcer S} → Later c d → Holds k b c → Holds k b d
  Holds-Later k b now h = h
  Holds-Later k b (then_one l s) h = Holds-Step k b s (Holds-Later k b l h)

  Holds-answer :
      (matcher : Text) (params : List (Data J)) (b : Bool) (c : CachedEnforcer S)
      → c.enable_cache_flag ≡ true
      → (cached_enforce_with_matcher ev push_object_json matcher params c).0 ≡ ok b
      → Holds
          (cache_key matcher params)
          b
          (cached_enforce_with_matcher ev push_object_json matcher params c).1
  unfolding cached_enforce_with_matcher get_cached_result
  Holds-answer matcher params b c on =
      let key = cache_key matcher params in
      let base = enforce_with_matcher ev push_object_json c.enforcer matcher params c.evaluator in
      elim (Option-cases (lookup (cache_key matcher params) c.m)) [
        | inl miss ↦
            rw (asked_first matcher params c on miss)
              (λ answered. (flag-remember key c base ∙ on, stored-remember key c base b answered))
        | inr (x, hit) ↦ rw (answer-kept matcher params x c (on, hit)) (λ answered. (on, hit ∙ cc))
      ]

  -- With the cache on, and as long as it is neither switched off nor invalidated, a request with a
  -- list of values that was answered `b` is answered `b` in every later state, however the policy,
  -- the model or the evaluator were changed in between and whatever other requests with a list or
  -- a map were made. So is every request with the same key: one with a list, and one with a map,
  -- whatever the names in it. The state is left as it is.
  pub cached_answer_stays :
      (matcher matcher' matcher_map : Text) (params params' : List (Data J))
      (params_map : List (Text × Data J)) (b : Bool) (c d : CachedEnforcer S)
      → c.enable_cache_flag ≡ true
      → (cached_enforce_with_matcher ev push_object_json matcher params c).0 ≡ ok b
      → Later (cached_enforce_with_matcher ev push_object_json matcher params c).1 d
      → cache_key matcher' params' ≡ cache_key matcher params
      → cache_key matcher_map (values_of params_map) ≡ cache_key matcher params
      → (cached_enforce_with_matcher ev push_object_json matcher' params' d ≡ (ok b, d))
        × (cached_enforce_with_matcher_map ev push_object_json matcher_map params_map d ≡ (ok b, d))
  cached_answer_stays matcher matcher' matcher_map params params' params_map b c d on answered later
        same same_map =
      let held =
        Holds-Later (cache_key matcher params) b later
          (Holds-answer matcher params b c on answered) in
      (
        answer-kept matcher' params' b d (rw same held),
        map_answer-kept matcher_map params_map b d (rw same_map held),
      )
