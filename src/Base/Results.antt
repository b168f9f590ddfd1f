-- ===== src/Base/Results.antt =====
-- Exceptions as values. A member of `Error` is one exception class of `include/casbin/exception`.
use mathlib.Core.Path.{◌≡◌, refl}
use mathlib.Core.Logic.{◌⊎◌, inl, inr}
use mathlib.Core.List.{List, [], ◌∷◌}
use Prim.Native.Nat.{ℕ, zero, suc}
use casbin_cpp.Base.Texts.{Text}

-- The message is kept where the program builds it from data. `undefined` stands for a step that
-- C++ leaves undefined: a null pointer, an index out of range or an invalid iterator.
pub data Error : Type 0 where
  unsupported_operation illegal_argument out_of_range rbac enforcer adapter io parser logic_error
        undefined :
      Error
  missing_required_sections : List Text → Error

-- What an operation that can throw returns.
pub data Result {ℓ} (A : Type ℓ) : Type ℓ where
  err : Error → Result A
  ok : A → Result A

infixl 5 ◌>>=◌
abbrev pub ◌>>=◌ : {A B : Type 0} → Result A → (A → Result B) → Result B
err x >>= k = err x
ok v >>= k = k v

-- `v[i]` of a `std::vector`: out of range is undefined.
abbrev pub at {ℓ} : {A : Type ℓ} → List A → ℕ → Result A
at [] i = err undefined
at (x ∷ xs) zero = ok x
at (x ∷ xs) (suc i) = at xs i

pub Result-cases {ℓ} :
    {A : Type ℓ} (m : Result A) → ((a : A) × (m ≡ ok a)) ⊎ ((e : Error) × (m ≡ err e))
Result-cases (ok a) = inl (a, refl)
Result-cases (err e) = inr (e, refl)

-- A chain that returns has a first step that returns, and then its rest returns.
pub first_step :
    {A B : Type 0} (step : Result A) (rest : A → Result B) {result : B}
    → (step >>= rest) ≡ ok result
    → (v : A) × (step ≡ ok v) × (rest v ≡ ok result)
first_step (err x) rest h = cc
first_step (ok v) rest h = (v, refl, h)
