-- ===== src/ArtifactStore/Memory/Keys.antt =====
-- When two jobs have different keys in the store.
use mrvacommander.Prelude.{ℕ, Bytes, ascii, ℤ, ◌≡◌, ◌≢◌, refl, [], ◌∷◌, ◌++◌, All, arith}
use mrvacommander.Prelude.Decimal.{format_int-append_injective}
use mrvacommander.Common.Types.{JobSpec, NameWithOwner}
use mrvacommander.ArtifactStore.Memory.{pack_key, format_nwo, result_key}
use mathlib.Core.List.{append_assoc}

abbrev pub Lacks : ℕ → Bytes → Type 0
Lacks c = All (λ x. x ≢ c)

-- A text before the first `c` and the text behind it are determined.
split_injective :
    (c : ℕ) (xs ys r s : Bytes)
    → Lacks c xs
    → Lacks c ys
    → xs ++ c ∷ r ≡ ys ++ c ∷ s
    → (xs ≡ ys) × (r ≡ s)
split_injective c [] [] r s hx hy e = ground arith
split_injective c [] (y ∷ ys) r s hx hy e = ground arith
split_injective c (x ∷ xs) [] r s hx hy e = ground arith
split_injective c (x ∷ xs) (y ∷ ys) r s hx hy e = ground (arith, split_injective c xs ys r s)

append_right_injective : (xs ys : Bytes) (c : ℕ) → xs ++ c ∷ [] ≡ ys ++ c ∷ [] → xs ≡ ys
append_right_injective [] [] c e = refl
append_right_injective [] (y ∷ []) c e = ground arith
append_right_injective [] (y ∷ z ∷ ys) c e = ground arith
append_right_injective (x ∷ []) [] c e = ground arith
append_right_injective (x ∷ z ∷ xs) [] c e = ground arith
append_right_injective (x ∷ xs) (y ∷ ys) c e = ground (arith, append_right_injective xs ys c)

-- Owners without a space keep the printed names apart.
format_nwo_injective :
    (a b : NameWithOwner)
    → Lacks b' ' a.owner
    → Lacks b' ' b.owner
    → format_nwo a ≡ format_nwo b
    → a ≡ b
unfolding format_nwo
format_nwo_injective a b ha hb e =
    let (o, rest) =
      split_injective b' ' a.owner b.owner (a.repo ++ b'}' ∷ []) (b.repo ++ b'}' ∷ []) ha hb
        (ground arith) in
    ground (arith, append_right_injective a.repo b.repo b'}')

-- Two jobs whose owners hold no space have one result key only if they are the same job.
pub result_key_injective :
    (a b : JobSpec) → Lacks b' ' a.owner → Lacks b' ' b.owner → result_key a ≡ result_key b → a ≡ b
unfolding result_key
result_key_injective a b ha hb e =
    let (n, rest) = format_int-append_injective a.session_id b.session_id _ _ e in
    ground (arith, format_nwo_injective a.name_with_owner b.name_with_owner ha hb)

-- Two sessions have different keys for their query packs.
pub pack_key_injective : (n m : ℤ) → pack_key n ≡ pack_key m → n ≡ m
unfolding pack_key
pack_key_injective n m e = (format_int-append_injective n m (ascii "packs") (ascii "packs") e).0

-- In every session, with a space in a name, two different repositories share a key.
pub result_key_collision :
    (id : ℤ) (a b c : Bytes)
    → result_key
        (record { session_id = id; name_with_owner = record { owner = a; repo = b ++ b' ' ∷ c } })
      ≡ result_key
          (record { session_id = id; name_with_owner = record { owner = a ++ b' ' ∷ b; repo = c } })
unfolding result_key format_nwo
result_key_collision id a b c = simp append_assoc
