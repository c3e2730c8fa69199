-- ===== src/Codeql/Bqrs.antt =====
-- pkg/codeql/codeql.go: the number of results in a BQRS file.
use mrvacommander.Prelude.{
  Bytes, bytes_eq, bytes_beq, bytes_beq_iff, ascii, ℤ, List, [], ◌∷◌, Option, none, some, ok, err,
  ◌≡◌, ◌≢◌, inl, inr, if◌then◌else◌, arith, All, Bool-cases, Option-cases,
}
use mrvacommander.Common.Errors.{Fallible, message}
use mrvacommander.Codeql.Types.{ResultSet, BqrsInfo}

abbrev pub known_result_set_names : List Bytes
known_result_set_names = ascii "#select" ∷ ascii "problems" ∷ []

-- The inner loop: the rows of the first result set with a name.
unfoldable pub rows_named : Bytes → List ResultSet → Option ℤ
rows_named name [] = none
rows_named name (set ∷ sets) =
    if bytes_beq set.name name then some set.rows else rows_named name sets

-- The outer loop, over the known names.
unfoldable pub rows_of_known : List Bytes → List ResultSet → Option ℤ
rows_of_known [] sets = none
rows_of_known (name ∷ names) sets = elim (rows_named name sets) [
  | none ↦ rows_of_known names sets
  | some rows ↦ some rows
]

unfoldable pub get_bqrs_result_count : BqrsInfo → Fallible ℤ
unfolding rows_of_known
get_bqrs_result_count info = elim (rows_of_known known_result_set_names info.result_sets) [
  | none ↦ err (message (ascii "BQRS does not contain any result sets matching known names"))
  | some rows ↦ ok rows
]

-- The first set with a name: it stands in the list behind sets of other names.
pub data First (name : Bytes) (rows : ℤ) : List ResultSet → Type 0 where
  here :
      (set : ResultSet) (sets : List ResultSet)
      → set.name ≡ name
      → set.rows ≡ rows
      → First name rows (set ∷ sets)
  later :
      (set : ResultSet) (sets : List ResultSet)
      → set.name ≢ name
      → First name rows sets
      → First name rows (set ∷ sets)

abbrev pub Absent : Bytes → List ResultSet → Type 0
Absent name = All (λ set. set.name ≢ name)

rows_named-First :
    (name : Bytes) (rows : ℤ) (sets : List ResultSet)
    → rows_named name sets ≡ some rows
    → First name rows sets
unfolding rows_named
rows_named-First name rows [] e = cc
rows_named-First name rows (set ∷ sets) e = elim (Bool-cases (bytes_beq set.name name)) [
  | inl same ↦ here set sets ((bytes_beq_iff set.name name).0 same) (ground arith)
  | inr other ↦
      later set sets (λ h. ground (arith, bytes_beq_iff set.name name))
        (rows_named-First name rows sets (ground arith))
]

rows_named-Absent :
    (name : Bytes) (sets : List ResultSet) → rows_named name sets ≡ none → Absent name sets
unfolding rows_named
rows_named-Absent name [] e = tt
rows_named-Absent name (set ∷ sets) e =
    ((λ h. ground (arith, bytes_beq_iff set.name name)), rows_named-Absent name sets (ground arith))

-- What the count of a BQRS file can be.
pub data Counted (sets : List ResultSet) (r : Fallible ℤ) : Type 0 where
  selected : (rows : ℤ) → First (ascii "#select") rows sets → r ≡ ok rows → Counted sets r
  problems :
      (rows : ℤ)
      → Absent (ascii "#select") sets
      → First (ascii "problems") rows sets
      → r ≡ ok rows
      → Counted sets r
  unknown :
      Absent (ascii "#select") sets
      → Absent (ascii "problems") sets
      → r ≡ err (message (ascii "BQRS does not contain any result sets matching known names"))
      → Counted sets r

-- The count is that of the first set named `#select`; if there is none, of the first set named
-- `problems`; and it is an error exactly if there is neither.
pub get_bqrs_result_count-Counted :
    (info : BqrsInfo) → Counted info.result_sets (get_bqrs_result_count info)
unfolding get_bqrs_result_count rows_of_known
get_bqrs_result_count-Counted info =
    elim (Option-cases (rows_named (ascii "#select") info.result_sets)) [
      | inr (rows, e) ↦
          selected rows (rows_named-First _ rows info.result_sets e) (ground (arith, e))
      | inl e ↦ elim (Option-cases (rows_named (ascii "problems") info.result_sets)) [
        | inr (rows, f) ↦
            problems rows (rows_named-Absent _ info.result_sets e)
              (rows_named-First _ rows info.result_sets f) (ground (arith, e, f))
        | inl f ↦
            unknown (rows_named-Absent _ info.result_sets e)
              (rows_named-Absent _ info.result_sets f) (ground (arith, e, f))
      ]
    ]
