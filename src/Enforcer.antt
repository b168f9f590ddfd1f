-- ===== src/Enforcer.antt =====
-- casbin/enforcer.cpp, internal_api.cpp, management_api.cpp, rbac_api.cpp and
-- rbac_api_with_domains.cpp: the enforcer's state here, its operations in the modules below.
pub mod Internal
pub mod Management
pub mod Roles
pub mod Changes
pub mod Additions
pub mod Cached
pub mod Settings
pub mod Construction
pub mod Synced
pub mod Tests
pub mod Evaluate
pub mod Enforce
use casbin_cpp.Base.{
  ℕ, Bool, true, false, not, ◌&&◌, Option, none, some, List, [], ◌∷◌, ◌++◌, Text, Rule,
  if◌then◌else◌, get_elem?, set, Error, unsupported_operation, undefined, Result, ok, err,
}
use casbin_cpp.Model.{Model}
use casbin_cpp.Rbac.{RoleManager}

-- What the enforcer asks of its adapter and of its watcher.
pub data Call : Type 0 where
  add_rule : Text → Text → Rule → Call
  add_rules remove_rules : Text → Text → List Rule → Call
  remove_rule : Text → Text → Rule → Call
  remove_filtered : Text → Text → ℕ → List Text → Call
  update_watcher : Call

-- An adapter: is it a `BatchAdapter`, and does it raise on a call?
pub record Adapter : Type 0 where
  pub is_batch : Bool
  pub answer : Call → Option Error

-- `m_watcher` is set or not: `IsInstanceOf<WatcherEx>` and `IsInstanceOf<WatcherUpdatable>` ask of
-- the static type `Watcher`, so they are false and `Update()` is what is called. `managers` holds
-- the role managers by address; `rm` is the enforcer's own, which assertions share. `calls` are
-- the calls made so far, in order.
pub record Enforcer : Type 0 where
  pub model : Model
  pub adapter : Option Adapter
  pub watcher : Bool
  pub enabled : Bool
  pub auto_save : Bool
  pub auto_build_role_links : Bool
  pub auto_notify_watcher : Bool
  pub rm : ℕ
  pub managers : List RoleManager
  pub calls : List Call

-- A method: what it changed before an exception stays changed.
abbrev pub Method : Type 0 → Type 0
Method A = Enforcer → Result A × Enforcer

abbrev pub pure : {A : Type 0} → A → Method A
pure a s = (ok a, s)

abbrev pub raise : {A : Type 0} → Error → Method A
raise e s = (err e, s)

abbrev pub go_on : {A B : Type 0} → (A → Method B) → Result A → Method B
go_on f (ok a) s = f a s
go_on f (err e) s = (err e, s)

infixl 5 ◌>>=◌ ◌>>◌
abbrev pub ◌>>=◌ : {A B : Type 0} → Method A → (A → Method B) → Method B
◌>>=◌ m f s = let (r, s') = m s in go_on f r s'

abbrev pub ◌>>◌ : {B : Type 0} → Method (Unit {0}) → Method B → Method B
m >> k = m >>= λ _. k

-- A call of an operation of the model.
abbrev pub on_model : {A : Type 0} → (Model → Result (A × Model)) → Method A
on_model f s = elim (f s.model) [ err e ↦ (err e, s) | ok (a, m) ↦ (ok a, record s { model = m }) ]

-- A call that only reads the model.
abbrev pub of_model : {A : Type 0} → (Model → Result A) → Method A
of_model f s = (f s.model, s)

-- A dangling address does not occur; it would be undefined.
abbrev pub with_manager :
    (ℕ → Model → RoleManager → Result (Unit {0}) × Model × RoleManager) → Method (Unit {0})
with_manager f s = elim (get_elem? s.managers s.rm) [
  | none ↦ (err undefined, s)
  | some m ↦
      let (r, model, m') = f s.rm s.model m in
      (r, record s { model = model; managers = set s.managers s.rm m' })
]

abbrev pub log_call : Call → Enforcer → Enforcer
log_call c s = record s { calls = s.calls ++ c ∷ [] }

abbrev pub answered : Option Error → Result (Unit {0})
answered none = ok tt
answered (some unsupported_operation) = ok tt
answered (some e) = err e

-- `if (m_adapter && m_auto_save)` with the handler of `UnsupportedOperationException`; a batch
-- call goes through `dynamic_pointer_cast<BatchAdapter>`, which gives a null pointer for another
-- adapter.
unfoldable pub save : Bool → Call → Method (Unit {0})
save batch c s = elim s.adapter [
  | none ↦ (ok tt, s)
  | some a ↦
      if s.auto_save
      then if batch && not a.is_batch
        then (err undefined, s)
        else (answered (a.answer c), log_call c s)
      else (ok tt, s)
]

-- `if (m_watcher && m_auto_notify_watcher)`
unfoldable pub notify : Method (Unit {0})
notify s =
    if s.watcher && s.auto_notify_watcher then (ok tt, log_call update_watcher s) else (ok tt, s)
