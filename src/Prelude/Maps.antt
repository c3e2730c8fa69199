-- ===== src/Prelude/Maps.antt =====
-- Go's maps, as association lists. A write to a present key keeps its place in the list.
use Prim.Native.Nat.{suc}
use mathlib.Core.Path.{◌≡◌, refl}
use mathlib.Core.List.{List, [], ◌∷◌}
use mathlib.Core.Option.{Option, none, some}
use native.Mathlib.Omega.{arith}
use mrvacommander.Prelude.Tests.{if◌then◌else◌}
use mrvacommander.Prelude.Lists.{length}
use mrvacommander.Prelude.Equality.{Eq, ◌==◌}

abbrev pub Map : Type 0 → Type 0 → Type 0
Map K V = List (K × V)

module _ {K V : Type 0} ⦃e : Eq K⦄ where
  unfoldable pub lookup : K → Map K V → Option V
  lookup k [] = none
  lookup k ((key, x) ∷ rest) = if key == k then some x else lookup k rest

  unfoldable pub insert : K → V → Map K V → Map K V
  insert k v [] = (k, v) ∷ []
  insert k v ((key, x) ∷ rest) = if key == k then (key, v) ∷ rest else (key, x) ∷ insert k v rest

  pub lookup-insert :
      (k other : K) (v : V) (table : Map K V)
      → lookup other (insert k v table) ≡ (if k == other then some v else lookup other table)
  unfolding lookup insert
  lookup-insert k other v [] = refl
  lookup-insert k other v ((key, x) ∷ rest) =
      ground (
        arith,
        lookup-insert k other v rest,
        e.beq_iff k other,
        e.beq_iff key k,
        e.beq_iff key other,
      )

  -- `len` after a write.
  pub length-insert :
      (k : K) (v : V) (m : Map K V)
      → length (insert k v m) ≡ elim (lookup k m) [ none ↦ suc (length m) | some _ ↦ length m ]
  unfolding lookup insert
  length-insert k v [] = refl
  length-insert k v ((j, w) ∷ m) = ground (arith, length-insert k v m)

  -- No key stands twice.
  abbrev pub Distinct : Map K V → Type 0
  Distinct [] = Unit
  Distinct ((j, w) ∷ m) = (lookup j m ≡ none) × Distinct m

  pub insert-Distinct : (k : K) (v : V) (m : Map K V) → Distinct m → Distinct (insert k v m)
  unfolding lookup insert
  insert-Distinct k v [] d = (refl, tt)
  insert-Distinct k v ((j, w) ∷ m) d =
      ground (arith, lookup-insert k j v m, e.beq_iff j k, e.beq_iff k j, insert-Distinct k v m)
