-- ===== src/Prelude/Split.antt =====
-- `strings.Split` at slashes.
use Prim.Native.Nat.{ℕ}
use mathlib.Core.Path.{◌≡◌, refl}
use mathlib.Core.Logic.{◌≢◌}
use mathlib.Core.List.{List, [], ◌∷◌, ◌++◌}
use native.Mathlib.Omega.{arith}
use mrvacommander.Prelude.Tests.{nat_beq, if◌then◌else◌}
use mrvacommander.Prelude.Lists.{All}
use mrvacommander.Prelude.Text.{Bytes}

-- `strings.Split` at one character.
unfoldable pub split : ℕ → Bytes → List Bytes
split sep [] = [] ∷ []
split sep (c ∷ s) =
    let rest = split sep s in
    if nat_beq c sep
    then [] ∷ rest
    else elim rest [ [] ↦ (c ∷ []) ∷ [] | first ∷ more ↦ (c ∷ first) ∷ more ]

abbrev pub NoSlash : Bytes → Type 0
NoSlash = All (λ c. c ≢ b'/')

pub split-NoSlash : (s : Bytes) → NoSlash s → split b'/' s ≡ s ∷ []
unfolding split
split-NoSlash [] h = refl
split-NoSlash (c ∷ s) h = ground (arith, split-NoSlash s h.1)

pub split-append : (xs ys : Bytes) → NoSlash xs → split b'/' (xs ++ b'/' ∷ ys) ≡ xs ∷ split b'/' ys
unfolding split
split-append [] ys h = refl
split-append (x ∷ xs) ys h = ground (arith, split-append xs ys h.1)

pub All-split : (s : Bytes) → All NoSlash (split b'/' s)
unfolding split
All-split [] = (tt, tt)
All-split (c ∷ s) = ground (arith, All-split s)
