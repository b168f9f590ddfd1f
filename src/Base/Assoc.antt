-- ===== src/Base/Assoc.antt =====
-- A `std::unordered_map` with string keys as a list of entries, in one of its iteration orders.
use mathlib.Core.Path.{◌≡◌, refl, sym, subst}
use mathlib.Core.Option.{Option, none, some}
use mathlib.Core.List.{List, [], ◌∷◌}
use mathlib.Core.Logic.{◌⊎◌, inl, inr}
use casbin_cpp.Base.Lists.{In, Distinct}
use native.Mathlib.Omega.{arith}
use casbin_cpp.Base.Tests.{if◌then◌else◌}
use casbin_cpp.Base.Texts.{Text, ◌==◌, ==_iff, ==_refl}

abbrev pub Assoc {ℓ} : Type ℓ → Type ℓ
Assoc V = List (Text × V)

module _ {ℓ} {V : Type ℓ} where
  -- `find`, `at`
  unfoldable pub lookup : Text → Assoc V → Option V
  lookup k [] = none
  lookup k ((j, v) ∷ l) = if j == k then some v else lookup k l

  -- `m[k] = v`
  unfoldable pub insert : Text → V → Assoc V → Assoc V
  insert k v [] = (k, v) ∷ []
  insert k v ((j, w) ∷ l) = if j == k then (j, v) ∷ l else (j, w) ∷ insert k v l

  pub lookup-insert :
      (k j : Text) (v : V) (l : Assoc V)
      → lookup j (insert k v l) ≡ (if k == j then some v else lookup j l)
  unfolding lookup insert
  lookup-insert k j v [] = refl
  lookup-insert k j v ((i, w) ∷ l) =
      ground (arith, ==_iff k j, ==_iff i k, ==_iff i j, lookup-insert k j v l)

module _ {V : Type 0} where
  abbrev pub keys : Assoc V → List Text
  keys [] = []
  keys ((k, v) ∷ l) = k ∷ keys l

  abbrev pub Entry : Text → V → Assoc V → Type 0
  Entry k v [] = ⊥
  Entry k v ((j, w) ∷ l) = ((k ≡ j) × (v ≡ w)) ⊎ Entry k v l

  pub In-keys : (k : Text) (v : V) (l : Assoc V) → Entry k v l → In k (keys l)
  In-keys k v [] e = absurd e
  In-keys k v ((j, w) ∷ l) e = ground (arith, In-keys k v l)

  pub Entry-lookup : (k : Text) (v : V) (l : Assoc V) → lookup k l ≡ some v → Entry k v l
  unfolding lookup
  Entry-lookup k v [] h = cc
  Entry-lookup k v ((j, w) ∷ l) h = ground (arith, ==_iff j k, Entry-lookup k v l)

  pub lookup_of_Entry :
      (k : Text) (v : V) (l : Assoc V) → Distinct (keys l) → Entry k v l → lookup k l ≡ some v
  unfolding lookup
  lookup_of_Entry k v [] d e = absurd e
  lookup_of_Entry k v ((j, w) ∷ l) d e = elim e [
    | inl here ↦ ground (arith, ==_iff j k)
    | inr later ↦ ground (
      arith,
      ==_iff j k,
      lookup_of_Entry k v l d.1 later,
      λ (s : j ≡ k). d.0 (subst (λ x. In x (keys l)) (sym s) (In-keys k v l later)),
    )
  ]

  In-keys-insert :
      (j k : Text) (v : V) (l : Assoc V) → In j (keys (insert k v l)) → (j ≡ k) ⊎ In j (keys l)
  unfolding insert
  In-keys-insert j k v [] i = ground arith
  In-keys-insert j k v ((h, w) ∷ l) i = ground (arith, ==_iff h k, In-keys-insert j k v l)

  pub Distinct-insert :
      (k : Text) (v : V) (l : Assoc V) → Distinct (keys l) → Distinct (keys (insert k v l))
  unfolding insert
  Distinct-insert k v [] d = (λ x. x, tt)
  Distinct-insert k v ((h, w) ∷ l) d = ground (
    arith,
    ==_iff h k,
    Distinct-insert k v l d.1,
    λ (i : In h (keys (insert k v l))). In-keys-insert h k v l i,
  )

module _ {ℓ} {V : Type ℓ} where
  -- Writing what is there already changes nothing.
  pub insert_same : (k : Text) (v : V) (l : Assoc V) → lookup k l ≡ some v → insert k v l ≡ l
  unfolding lookup insert
  insert_same k v [] h = cc
  insert_same k v ((j, w) ∷ l) h = ground (arith, insert_same k v l)

  pub lookup-insert-same : (k : Text) (v : V) (l : Assoc V) → lookup k (insert k v l) ≡ some v
  lookup-insert-same k v l = rw (lookup-insert k k v l, ==_refl k) refl

  pub lookup-insert-other :
      (k j : Text) (v : V) (l : Assoc V) → (¬ (j ≡ k)) → lookup j (insert k v l) ≡ lookup j l
  lookup-insert-other k j v l ne = rw (lookup-insert k j v l) (ground (arith, ==_iff k j, ne))
