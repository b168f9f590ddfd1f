-- ===== src/Base/Texts.antt =====
-- Text: a `std::string` as its list of bytes, and its equality test.
use Prim.Native.Nat.{ℕ}
use Prim.Native.Char.{code}
use Prim.Native.String.{String}
use mathlib.Core.Path.{◌≡◌, refl}
use mathlib.Core.Logic.{◌↔◌}
use mathlib.Core.Bool.{Bool, true, false, ◌&&◌}
use mathlib.Core.List.{List, [], ◌∷◌}
use native.Mathlib.Omega.{arith}
use casbin_cpp.Base.Tests.{nat_eq}

-- A string of the program is the list of its bytes.
abbrev pub Text : Type 0
Text = List ℕ

-- A string literal.
abbrev pub str : String → Text
str String.[] = []
str (String.◌∷◌ c s) = code c ∷ str s

infix 50 ◌==◌
unfoldable pub ◌==◌ : Text → Text → Bool
[] == [] = true
[] == (b ∷ bs) = false
(a ∷ as') == [] = false
(a ∷ as') == (b ∷ bs) = nat_eq a b && as' == bs

pub ==_iff : (a b : Text) → ((a == b) ≡ true) ↔ (a ≡ b)
unfolding ◌==◌
==_iff [] [] = ground arith
==_iff [] (b ∷ bs) = ground arith
==_iff (a ∷ as') [] = ground arith
==_iff (a ∷ as') (b ∷ bs) = ground (arith, ==_iff as' bs)

pub ==_refl : (a : Text) → (a == a) ≡ true
==_refl a = (==_iff a a).1 refl

-- A rule of a policy: `std::vector<std::string>`.
abbrev pub Rule : Type 0
Rule = List Text

unfoldable pub rule_eq : Rule → Rule → Bool
rule_eq [] [] = true
rule_eq [] (b ∷ bs) = false
rule_eq (a ∷ as') [] = false
rule_eq (a ∷ as') (b ∷ bs) = a == b && rule_eq as' bs

pub rule_eq_iff : (a b : Rule) → (rule_eq a b ≡ true) ↔ (a ≡ b)
unfolding rule_eq
rule_eq_iff [] [] = ground arith
rule_eq_iff [] (b ∷ bs) = ground arith
rule_eq_iff (a ∷ as') [] = ground arith
rule_eq_iff (a ∷ as') (b ∷ bs) = ground (arith, ==_iff a b, rule_eq_iff as' bs)
