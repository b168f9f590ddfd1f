-- ===== src/Enforcer/Synced/Tests.antt =====
-- The enforcer with a mutex, run on a small model.
use casbin_cpp.Base.{true, false, [], ◌∷◌, str, Rule, ok, err, undefined, ◌≡◌, refl}
use casbin_cpp.Effect.{allow_override}
use casbin_cpp.Enforcer.{Enforcer}
use casbin_cpp.Enforcer.Management
use casbin_cpp.Enforcer.Internal
use casbin_cpp.Enforcer.Enforce.Tests.{small_enforcer}
use casbin_cpp.Enforcer.Synced.{synced_add_named_policy}
use casbin_cpp.Enforcer.Synced.Default.{synced_add_policy}

abbrev small : Enforcer
small = small_enforcer allow_override

abbrev rule : Rule
rule = str "bob" ∷ str "allow" ∷ []

-- A method with a name does its work, with the mutex taken once.
named_test : (synced_add_named_policy (str "p") rule false small).0 ≡ ok true
unfolding synced_add_named_policy Management.add_named_policy Internal.add_policy
named_test = refl

-- A method for "p" locks the mutex twice.
default_test : synced_add_policy rule false small ≡ (err undefined, small)
unfolding synced_add_policy
default_test = refl
