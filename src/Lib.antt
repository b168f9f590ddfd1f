-- ===== src/Lib.antt =====
-- casbin-cpp, an access-control library: an enforcer decides whether a request is allowed by the
-- rules of a policy, under a model that names the matcher, the effect and the role definitions.
--
-- Texts are lists of code points over the native numbers, a rule is a list of texts, a map is an
-- association list. An operation that can raise returns a `Result`; `undefined` is what the code
-- leaves undefined (a null pointer, an index out of range).
--
-- The files, and what they model:
--   Base         shared notation, lists, texts, results and association lists
--   Util         casbin/util: Trim (trim, remove_comments, ends_with), Split (split, join), Arrays
--                (array_remove_duplicates, set_subtract, array_to_string, join_slice), Equality
--                (array_equals), Eval (eval, escape_assertion; Eval/Calls and Eval/Replaced
--                prove) and KeyMatch (`KeyMatch` and `KeyGet` of built_in_functions.cpp)
--   Effect       casbin/effect/default_effector.cpp (`MergeEffects`), and the loop over the policy
--                that `m_enforce` of casbin/enforcer.cpp runs it in; Scan, Loop and Verdict prove
--   Rbac         casbin/rbac/default_role_manager.cpp; Edges, Invariant, Links, Reachable, Members
--                prove; Implicit is the search of `GetImplicitRolesForUser`, Implicit/Search proves
--   Policy       casbin/model/policy_collection.cpp
--   Assertion    casbin/model/assertion.cpp; Edges proves
--   Model        casbin/model/model.cpp, its policy operations; Links has the role links, and
--                Membership, Changes, Additions and Filters prove; Loading loads a model from a
--                configuration, Loading/Sources from a file or a text, and Loading/Missing
--                proves
--   Enforcer     casbin/enforcer.cpp, with casbin/internal_api.cpp in Internal,
--                casbin/management_api.cpp in Management, casbin/rbac_api.cpp and
--                casbin/rbac_api_with_domains.cpp in Roles; Changes and Additions prove. Evaluate
--                is the interface of include/casbin/model/evaluator.h, Enforce has `m_enforce`
--                with casbin/selected_policies.cpp, Enforce/Requests pushes a request to the
--                evaluator, Enforce/Users has the users of a permission and what they are, and
--                Enforce/Rounds, Enforce/Decision, Enforce/Decided and Enforce/Ordered prove.
--                Settings has the setters, loading and saving, and the implicit roles and
--                permissions, Settings/Loaded proves; Construction makes an enforcer. Cached is
--                casbin/enforcer_cached.cpp, Cached/Stale proves. Synced is the methods of
--                casbin/enforcer_synced.cpp under its mutex, with those for "p" and "g" in Default
--   Ip           casbin/ip_parser: Numbers, Address, Parsing and Network, with `IPMatch` of
--                casbin/util/built_in_functions.cpp; Bounds, Safety, Decimal, Octets, Prefix and Match
--                prove
--   Config       casbin/config/config.cpp; Get and Lock prove
--   Persist      casbin/persist: adapter.cpp and the file adapters, Filtered the filtered one,
--                StringAdapter the one with a text; Line, Lines, Loads, Sections and Roundtrip prove
--
-- How the parts meet: the enforcer owns the model, a store of role managers and the address of its
-- own; an assertion keeps the address of the manager that its links are in. An operation on a rule
-- changes the model, then the links when the section is "g", then asks the adapter and the watcher,
-- which are parameters (`Adapter`, and the calls made). What an operation changed before an
-- exception stays changed. Roles point to each other by name, since the table of a manager owns
-- every role under its name. `m_enforce` works on the state of the evaluator, a parameter, and on
-- the role managers that the matcher calls; it takes the rules of the policy through `MergeEffects`.
--
-- Bounds and fuel: `HasRole` recurs on the level of the hierarchy that the code counts down; the
-- loops of casbin/util/eval.cpp run on the length of the text, which is enough as every match is
-- not empty. The search for implicit roles runs on fuel, and two rounds more than there are roles
-- are enough; so does `LoadSection`, where the theorem holds from two rounds on. The loop of
-- `parseIPv6` has eight rounds, since each takes two of the sixteen bytes. Numbers of
-- rules and levels stay far below the range of a machine integer.
--
-- A file is its contents, and whether it can be opened for writing is a parameter; the mutex of the
-- configurations is a flag, and that of the synchronised enforcer says whether the calling thread
-- has it. `std::regex_replace`, which the loading of a model calls, is a parameter.
--
-- Not modelled: the evaluator and the expression library it calls, the matching functions that are
-- calls of std::regex, the constructors of the enforcers from paths, the callback that `SetWatcher`
-- sets, enforcement under the mutex of the synchronised enforcer and its timer, which reloads the
-- policy, and logging.
pub mod Base
pub mod Effect
pub mod Rbac
pub mod Util
pub mod Policy
pub mod Assertion
pub mod Model
pub mod Enforcer
pub mod Ip
pub mod Persist
pub mod Config
