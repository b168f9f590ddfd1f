-- ===== src/Model/Links.antt =====
-- casbin/model/model.cpp: `BuildRoleLinks` and `BuildIncrementalRoleLinks`. The caller passes the
-- role manager with its address, and takes it back with the model, also after an exception.
use casbin_cpp.Base.{ℕ, List, [], ◌∷◌, Text, str, Rule, ◌==◌, if◌then◌else◌, Result, ok, err}
use casbin_cpp.Base.Assoc.{insert}
use casbin_cpp.Rbac.{RoleManager}
use casbin_cpp.Assertion.{PolicyOp, build_role_links, build_incremental_role_links}
use casbin_cpp.Model.{Model, AssertionMap, section, put_section, assertion}

abbrev pub Linked : Type 0 → Type 0
Linked A = Result (Unit {0}) × A × RoleManager

-- The loop over the assertions of a section; an exception ends it.
unfoldable pub link_section : ℕ → AssertionMap → RoleManager → Linked AssertionMap
unfolding build_role_links
link_section address [] rm = (ok tt, [], rm)
link_section address ((k, a) ∷ rest) rm =
    let (r, a', rm') = build_role_links address a rm in
    let (r2, rest', rm2) = link_section address rest rm' in
    elim r [ ok _ ↦ (r2, (k, a') ∷ rest', rm2) | err e ↦ (err e, (k, a') ∷ rest, rm') ]

unfoldable pub model_build_role_links : ℕ → Model → RoleManager → Linked Model
unfolding link_section section put_section
model_build_role_links address model rm =
    let (r, amap, rm') = link_section address (section model (str "g")) rm in
    (r, put_section (str "g") amap model, rm')

unfoldable pub model_build_incremental_role_links :
    ℕ → PolicyOp → Text → Text → List Rule → Model → RoleManager → Linked Model
unfolding build_incremental_role_links section put_section assertion ◌==◌
model_build_incremental_role_links address op sec p_type rules model rm =
    if sec == str "g"
    then elim (assertion model sec p_type) [
      | err e ↦ (err e, model, rm)
      | ok a ↦
          let (r, a', rm') = build_incremental_role_links address op rules a rm in
          (r, put_section sec (insert p_type a' (section model sec)) model, rm')
    ]
    else (ok tt, model, rm)
