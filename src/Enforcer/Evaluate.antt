-- ===== src/Enforcer/Evaluate.antt =====
-- casbin/model/evaluator.h: the evaluator of matchers, a parameter of the enforcement. A matcher
-- calls the role managers, so what evaluates it works on the managers as well.
use casbin_cpp.Base.{ℕ, Bool, Option, List, Text, Result, ok, err}
use casbin_cpp.Base.Assoc.{Assoc}
use casbin_cpp.Rbac.{RoleManager}
use casbin_cpp.Model.{AssertionMap}

pub data EvalType : Type 0 where
  bool_type float_type : EvalType

-- The evaluator's own state, and the role managers by address.
abbrev pub World : Type 0 → Type 0
World S = S × List RoleManager

-- What `m_enforce` calls. `load_functions` clears `func_list` first; `load_g_function` takes the
-- address in `rm` of the assertion; `float_is_nonzero` is `GetFloat() != 0.0`.
pub record Evaluator (S : Type 0) : Type 0 where
  pub load_functions : S → S
  pub load_g_function : Option ℕ → Text → ℕ → S → S
  pub clean : AssertionMap → Bool → S → S
  pub initial_object : Text → S → S
  pub push_object_string : Text → Text → Text → S → S
  pub request_values : S → Assoc Text
  pub eval : Text → World S → Result Bool × World S
  pub check_type : World S → Result EvalType × World S
  pub get_boolean : World S → Result Bool × World S
  pub float_is_nonzero : World S → Result Bool × World S

-- A computation of the enforcement: an exception keeps the state.
abbrev pub Run : Type 0 → Type 0 → Type 0
Run S A = World S → Result A × World S

abbrev pub pure : {S A : Type 0} → A → Run S A
pure a w = (ok a, w)

abbrev pub lift : {S A : Type 0} → Result A → Run S A
lift r w = (r, w)

abbrev pub modify : {S : Type 0} → (S → S) → Run S (Unit {0})
modify f (s, managers) = (ok tt, (f s, managers))

abbrev pub go_on : {S A B : Type 0} → (A → Run S B) → Result A → Run S B
go_on f (ok a) w = f a w
go_on f (err e) w = (err e, w)

infixl 5 ◌>>=◌ ◌>>◌
abbrev pub ◌>>=◌ : {S A B : Type 0} → Run S A → (A → Run S B) → Run S B
◌>>=◌ m f w = let (r, w') = m w in go_on f r w'

abbrev pub ◌>>◌ : {S B : Type 0} → Run S (Unit {0}) → Run S B → Run S B
m >> k = m >>= λ _. k
