-- ===== src/Enforcer/Enforce/Tests.antt =====
-- Enforcement run with a small evaluator, whose matcher accepts the rules of the requesting user.
use casbin_cpp.Base.{
  Bool, true, false, Option, none, some, List, [], ◌∷◌, Text, str, Rule, ◌==◌, if◌then◌else◌, In,
  ◌≡◌, refl, ap, ok, inl, inr,
}
use casbin_cpp.Base.Assoc.{Assoc, lookup, insert, lookup-insert}
use casbin_cpp.Effect.{allow, deny, allow_override, deny_override}
use casbin_cpp.Policy.{vector}
use casbin_cpp.Assertion.{Assertion}
use casbin_cpp.Model.{Model, assertion}
use casbin_cpp.Enforcer.{Enforcer}
use casbin_cpp.Enforcer.Evaluate.{Evaluator, World, bool_type}
use casbin_cpp.Enforcer.Enforce.{m_enforce, matcher_accepts, matcher_or_own}
use casbin_cpp.Enforcer.Enforce.Requests.{Data, string_data, enforce_ex_with_matcher}
use casbin_cpp.Enforcer.Enforce.Decision.{
  Answers, m_enforce-allow_override, m_enforce-deny_override,
}

-- Its state holds the objects; the matcher asks whether `p.sub` is alice.
abbrev pub is_alice : Assoc Text → Bool
unfolding lookup ◌==◌
is_alice s = elim (lookup (str "p.sub") s) [ none ↦ false | some v ↦ v == str "alice" ]

abbrev pub small_evaluator : Evaluator (Assoc Text)
unfolding insert ◌==◌
small_evaluator = record {
  load_functions = λ s. s;
  load_g_function = λ address name n s. s;
  clean = λ amap after s. s;
  initial_object = λ target s. s;
  push_object_string =
      λ target field v s. if field == str "sub" then insert (str "p.sub") v s else s;
  request_values = λ s. s;
  eval = λ text w. (ok true, w);
  check_type = λ w. (ok bool_type, w);
  get_boolean = λ w. (ok (is_alice w.0), w);
  float_is_nonzero = λ w. (ok false, w);
}

abbrev pub definition : Text → Text → List Text → List Rule → Assertion
definition name text tokens rules = record {
  key = name;
  value = text;
  tokens = tokens;
  policy = vector rules;
  rm = none;
}

abbrev pub r_definition : Assertion
r_definition = definition (str "r") (str "sub") (str "r_sub" ∷ []) []

abbrev pub p_tokens : List Text
p_tokens = str "p_sub" ∷ str "p_eft" ∷ []

abbrev pub alice_allow : Rule
alice_allow = str "alice" ∷ str "allow" ∷ []

abbrev pub bob_deny : Rule
bob_deny = str "bob" ∷ str "deny" ∷ []

abbrev pub p_definition : Assertion
p_definition = definition (str "p") (str "sub, eft") p_tokens (bob_deny ∷ alice_allow ∷ [])

abbrev pub e_definition : Text → Assertion
e_definition expr = definition (str "e") expr [] []

abbrev pub m_definition : Assertion
m_definition = definition (str "m") (str "r.sub == p.sub") [] []

abbrev small_model : Text → Model
small_model expr = record {
  m =
      (str "r", (str "r", r_definition) ∷ [])
      ∷ (str "p", (str "p", p_definition) ∷ [])
      ∷ (str "e", (str "e", e_definition expr) ∷ [])
      ∷ (str "m", (str "m", m_definition) ∷ [])
      ∷ [];
}

abbrev pub small_enforcer : Text → Enforcer
small_enforcer expr = record {
  model = small_model expr;
  adapter = none;
  watcher = false;
  enabled = true;
  auto_save = true;
  auto_build_role_links = true;
  auto_notify_watcher = true;
  rm = 0;
  managers = [];
  calls = [];
}

m_enforce_test :
    (m_enforce small_evaluator (small_enforcer allow_override) [] []).0 ≡ ok (true, alice_allow)
unfolding m_enforce
m_enforce_test = refl

abbrev pub is_alices : Rule → Bool
unfolding ◌==◌
is_alices [] = false
is_alices (name ∷ fields) = name == str "alice"

pub own_matcher :
    (expr : Text) → matcher_or_own small_evaluator (small_model expr) [] ≡ ok m_definition.value
unfolding matcher_or_own assertion ◌==◌
own_matcher expr = refl

pub has_r : (expr : Text) → assertion (small_model expr) (str "r") (str "r") ≡ ok r_definition
unfolding assertion ◌==◌
has_r expr = refl

pub has_p : (expr : Text) → assertion (small_model expr) (str "p") (str "p") ≡ ok p_definition
unfolding assertion ◌==◌
has_p expr = refl

pub has_e :
    (expr : Text) → assertion (small_model expr) (str "e") (str "e") ≡ ok (e_definition expr)
unfolding assertion ◌==◌
has_e expr = refl

-- The field "p.sub" of the objects, compared with alice.
abbrev named_alice : Option Text → Bool
unfolding ◌==◌
named_alice none = false
named_alice (some v) = v == str "alice"

judges_named :
    (expr name eft : Text) (w : World (Assoc Text))
    → (matcher_accepts small_evaluator
        (small_model expr)
        m_definition.value
        p_tokens
        (name ∷ eft ∷ [])
        w).0
      ≡ ok (is_alices (name ∷ eft ∷ []))
unfolding matcher_accepts ◌==◌ insert lookup
judges_named expr name eft w =
    ap (λ (x : Option Text). ok (named_alice x))
      (lookup-insert (str "p.sub") (str "p.sub") name w.0)

pub judges :
    (expr : Text) (w : World (Assoc Text)) (r : Rule)
    → In r (bob_deny ∷ alice_allow ∷ [])
    → (matcher_accepts small_evaluator (small_model expr) m_definition.value p_tokens r w).0
      ≡ ok (is_alices r)
judges expr w r (inl e) = rw e (judges_named expr (str "bob") (str "deny") w)
judges expr w r (inr (inl e)) = rw e (judges_named expr (str "alice") (str "allow") w)
judges expr w r (inr (inr e)) = absurd e

m_enforce-allow_override_example :
    Answers p_tokens
      (bob_deny ∷ alice_allow ∷ [])
      is_alices
      allow
      true
      (m_enforce small_evaluator (small_enforcer allow_override) [] []).0
m_enforce-allow_override_example =
    m_enforce-allow_override small_evaluator (small_enforcer allow_override) [] m_definition.value
      r_definition p_definition (e_definition allow_override) refl (own_matcher allow_override)
      (has_r allow_override) (has_p allow_override) (has_e allow_override) bob_deny
      (alice_allow ∷ []) refl (refl, (refl, tt)) is_alices (judges allow_override) refl []

m_enforce-deny_override_example :
    Answers p_tokens
      (bob_deny ∷ alice_allow ∷ [])
      is_alices
      deny
      false
      (m_enforce small_evaluator (small_enforcer deny_override) [] []).0
m_enforce-deny_override_example =
    m_enforce-deny_override small_evaluator (small_enforcer deny_override) [] m_definition.value
      r_definition p_definition (e_definition deny_override) refl (own_matcher deny_override)
      (has_r deny_override) (has_p deny_override) (has_e deny_override) bob_deny (alice_allow ∷ [])
      refl (refl, (refl, tt)) is_alices (judges deny_override) refl []

-- The evaluator takes no JSON value.
abbrev pub no_json : Text → Text → Unit {0} → Assoc Text → Assoc Text
no_json target field x s = s

abbrev pub carol_request : List (Data (Unit {0}))
carol_request = string_data (str "carol") ∷ []

enforce_ex_with_matcher_test :
    (enforce_ex_with_matcher small_evaluator no_json
      (small_enforcer allow_override)
      []
      carol_request
      []
      []).0
    ≡ ok (true, alice_allow)
unfolding enforce_ex_with_matcher m_enforce
enforce_ex_with_matcher_test = refl
