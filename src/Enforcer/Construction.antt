-- ===== src/Enforcer/Construction.antt =====
-- casbin/enforcer.cpp: the constructors, the Init functions and `LoadFilteredPolicy`. Whether the
-- adapter answers that it is valid or filtered, and what it loads, are parameters.
use casbin_cpp.Base.{
  Bool, false, Option, none, some, [], if◌then◌else◌, Result, ok, err, undefined, adapter,
}
use casbin_cpp.Model.{Model}
use casbin_cpp.Enforcer.{Enforcer, Adapter, Method, ◌>>◌}
use casbin_cpp.Enforcer.Internal
use casbin_cpp.Enforcer.Settings.{initialize, clear_policy, load_policy, of_adapter}

-- The members before `Initialize`, which sets all but the first two.
abbrev pub blank : Model → Option Adapter → Enforcer
blank m a = record {
  model = m;
  adapter = a;
  watcher = false;
  enabled = false;
  auto_save = false;
  auto_build_role_links = false;
  auto_notify_watcher = false;
  rm = 0;
  managers = [];
  calls = [];
}

-- `Enforcer(m, adapter)`
unfoldable pub new_enforcer :
    Bool
    → (Model → Result (Unit {0}) × Model)
    → Model
    → Option Adapter
    → Result (Unit {0}) × Enforcer
unfolding initialize load_policy
new_enforcer valid load m a =
    let s = initialize (blank m a) in
    elim a [ none ↦ (ok tt, s) | some x ↦ if valid then load_policy load s else (ok tt, s) ]

unfoldable pub init_with_model_and_adapter :
    Bool → (Model → Result (Unit {0}) × Model) → Model → Option Adapter → Method (Unit {0})
unfolding initialize load_policy
init_with_model_and_adapter filtered load m a s =
    let t = initialize (record s { adapter = a; model = m }) in
    elim a [ none ↦ (ok tt, t) | some x ↦ if filtered then (ok tt, t) else load_policy load t ]

-- An adapter that answers that it is filtered is a `FilteredAdapter`.
abbrev load_filtered : Bool → (Model → Result (Unit {0}) × Model) → Method (Unit {0})
unfolding Internal.build_role_links
load_filtered filtered load s = elim s.adapter [
  | none ↦ (err undefined, s)
  | some x ↦
      if filtered
      then (do
        of_adapter load
        λ t. if t.auto_build_role_links then Internal.build_role_links t else (ok tt, t))
          s
      else (err adapter, s)
]

unfoldable pub load_filtered_policy : Bool → (Model → Result (Unit {0}) × Model) → Method (Unit {0})
unfolding load_filtered clear_policy
load_filtered_policy filtered load = do clear_policy; load_filtered filtered load
