-- ===== src/Prelude/Map.antt =====
-- A hash map as an association list with distinct keys; the order of the list is the order in
-- which the map happens to be iterated.
use mathlib.Core.Path.{◌≡◌, refl}
use mathlib.Core.List.{List, [], ◌∷◌}
use mathlib.Core.Option.{Option, none, some}
use native.Mathlib.Omega.{arith}
use Prim.Native.Nat.{◌≤◌}
use home_guard.Prelude.Lists.{length}
use home_guard.Prelude.Tests.{if◌then◌else◌}
use home_guard.Prelude.Classes.{Eq, ◌==◌, beq_iff}

module _ {ℓ κ} {K : Type ℓ} {V : Type κ} ⦃e : Eq K⦄ where
  unfoldable pub lookup : K → List (K × V) → Option V
  lookup k [] = none
  lookup k ((j, v) ∷ m) = if j == k then some v else lookup k m

  unfoldable pub insert : K → V → List (K × V) → List (K × V)
  insert k v [] = (k, v) ∷ []
  insert k v ((j, w) ∷ m) = if j == k then (k, v) ∷ m else (j, w) ∷ insert k v m

  -- Drops every entry with the key.
  unfoldable pub remove : K → List (K × V) → List (K × V)
  remove k [] = []
  remove k ((j, w) ∷ m) = if j == k then remove k m else (j, w) ∷ remove k m

  pub lookup-nil : (k : K) → lookup k [] ≡ none
  unfolding lookup
  lookup-nil k = refl

  pub lookup-cons :
      (j k : K) (v : V) (m : List (K × V))
      → lookup j ((k, v) ∷ m) ≡ (if k == j then some v else lookup j m)
  unfolding lookup
  lookup-cons j k v m = refl

  pub lookup-insert :
      (key asked : K) (new : V) (m : List (K × V))
      → lookup asked (insert key new m) ≡ (if key == asked then some new else lookup asked m)
  unfolding insert lookup
  lookup-insert key asked new ((other, old) ∷ m) = ground (
    arith,
    lookup-insert key asked new m,
    beq_iff key asked,
    beq_iff other key,
    beq_iff other asked,
  )
  lookup-insert key asked new [] = refl

  pub lookup-remove :
      (k j : K) (m : List (K × V)) → lookup j (remove k m) ≡ (if k == j then none else lookup j m)
  unfolding lookup remove
  lookup-remove k j [] = ground arith
  lookup-remove k j ((i, w) ∷ m) =
      ground (arith, beq_iff k j, beq_iff i k, beq_iff i j, lookup-remove k j m)

  pub remove_absent : (k : K) (m : List (K × V)) → lookup k m ≡ none → remove k m ≡ m
  unfolding lookup remove
  remove_absent k [] h = refl
  remove_absent k ((i, w) ∷ m) h = ground (arith, beq_iff i k, remove_absent k m)

  pub length-remove-le : (k : K) (m : List (K × V)) → length (remove k m) ≤ length m
  unfolding remove
  length-remove-le k [] = omega arith
  length-remove-le k ((i, w) ∷ m) = ground (arith, beq_iff i k, length-remove-le k m)
