-- ===== src/Codeql/Sarif.antt =====
-- pkg/codeql/codeql.go: which queries have results that SARIF can hold, and how many a SARIF file
-- has.
use mrvacommander.Prelude.{
  ℕ, ◌+◌, Bytes, bytes_eq, bytes_beq, bytes_beq_iff, ascii, List, [], ◌∷◌, Bool, true, false, not,
  ◌&&◌, ◌||◌, Option, none, some, ◌≡◌, ◌↔◌, ◌⊎◌, inl, inr, refl, if◌then◌else◌, arith, All,
  Bool-cases, Option-cases, ◌>>=◌,
}
use mrvacommander.Codeql.Types.{BqrsInfo, QueryMetadata, Query, QueryPackRunResults}

unfoldable pub contains : List Bytes → Bytes → Bool
contains [] item = false
contains (s ∷ slice) item = if bytes_beq s item then true else contains slice item

-- The output type of a query of a kind.
unfoldable pub sarif_output_type_of : Bytes → List Bytes → Bytes
unfolding contains
sarif_output_type_of kind compatible =
    if (bytes_beq kind (ascii "path-problem") || bytes_beq kind (ascii "path-alert"))
      && contains compatible (ascii "PathProblem")
    then ascii "path-problem"
    else if (bytes_beq kind (ascii "problem") || bytes_beq kind (ascii "alert"))
        && contains compatible (ascii "Problem")
    then ascii "problem"
    else []

-- `none` where the kind is nil, which the code dereferences.
unfoldable pub get_sarif_output_type : QueryMetadata → List Bytes → Option Bytes
get_sarif_output_type metadata compatible = do
  kind ← metadata.kind
  some (sarif_output_type_of kind compatible)

unfoldable pub query_supports_sarif : QueryMetadata → BqrsInfo → Option Bool
unfolding get_sarif_output_type
query_supports_sarif metadata info = do
  type ← get_sarif_output_type metadata info.compatible_query_kinds
  some (not (bytes_beq type []))

unfoldable pub all_support_sarif : List Query → Option Bool
all_support_sarif [] = some true
all_support_sarif (query ∷ queries) =
    elim (query_supports_sarif query.query_metadata query.bqrs_info) [
      | none ↦ none
      | some false ↦ some false
      | some true ↦ all_support_sarif queries
    ]

unfoldable pub query_pack_supports_sarif : QueryPackRunResults → Option Bool
unfolding all_support_sarif
query_pack_supports_sarif results = all_support_sarif results.queries

-- A SARIF file as `encoding/json` reads it: the number of the results of each run.
unfoldable pub sum_results : List ℕ → ℕ
sum_results [] = 0
sum_results (results ∷ runs) = results + sum_results runs

-- `none` where the file is no SARIF file.
unfoldable pub get_sarif_result_count : Option (List ℕ) → ℕ
unfolding sum_results
get_sarif_result_count none = 0
get_sarif_result_count (some runs) = sum_results runs

-- A text stands in a list.
pub data Listed (item : Bytes) : List Bytes → Type 0 where
  here : (s : Bytes) (slice : List Bytes) → s ≡ item → Listed item (s ∷ slice)
  there : (s : Bytes) (slice : List Bytes) → Listed item slice → Listed item (s ∷ slice)

-- A kind of alerts whose results SARIF can hold.
pub data Alerts (kind : Bytes) (compatible : List Bytes) : Type 0 where
  paths :
      (kind ≡ ascii "path-problem") ⊎ (kind ≡ ascii "path-alert")
      → Listed (ascii "PathProblem") compatible
      → Alerts kind compatible
  points :
      (kind ≡ ascii "problem") ⊎ (kind ≡ ascii "alert")
      → Listed (ascii "Problem") compatible
      → Alerts kind compatible

pub record Supported (query : Query) : Type 0 where
  pub kind : Bytes
  pub has_kind : query.query_metadata.kind ≡ some kind
  pub alerts : Alerts kind query.bqrs_info.compatible_query_kinds

Listed-contains :
    (slice : List Bytes) (item : Bytes) → contains slice item ≡ true → Listed item slice
unfolding contains
Listed-contains [] item e = cc
Listed-contains (s ∷ slice) item e = elim (Bool-cases (bytes_beq s item)) [
  | inl same ↦ here s slice ((bytes_beq_iff s item).0 same)
  | inr other ↦ there s slice (Listed-contains slice item (ground (arith, e, other)))
]

contains-Listed :
    (item : Bytes) (slice : List Bytes) → Listed item slice → contains slice item ≡ true
unfolding contains
contains-Listed item _ (here s slice e) = ground (arith, bytes_beq_iff s item)
contains-Listed item _ (there s slice more) = ground (arith, contains-Listed item slice more)

kind-cases :
    (kind a b : Bytes) → (bytes_beq kind a || bytes_beq kind b) ≡ true → (kind ≡ a) ⊎ (kind ≡ b)
kind-cases kind a b e = elim (Bool-cases (bytes_beq kind a)) [
  | inl same ↦ inl ((bytes_beq_iff kind a).0 same)
  | inr other ↦ inr ((bytes_beq_iff kind b).0 (ground (arith, e, other)))
]

-- A test of `||` and `&&`, taken apart.
either-and :
    (kind a b : Bytes) (compatible : List Bytes) (item : Bytes)
    → ((bytes_beq kind a || bytes_beq kind b) && contains compatible item) ≡ true
    → ((kind ≡ a) ⊎ (kind ≡ b)) × Listed item compatible
either-and kind a b compatible item e =
    (kind-cases kind a b (ground (arith, e)), Listed-contains compatible item (ground (arith, e)))

either-beq :
    (kind a b : Bytes) → (kind ≡ a) ⊎ (kind ≡ b) → (bytes_beq kind a || bytes_beq kind b) ≡ true
either-beq kind a b h = ground (arith, bytes_beq_iff kind a, bytes_beq_iff kind b)

abbrev tests_paths : Bytes → List Bytes → Bool
tests_paths kind compatible =
    (bytes_beq kind (ascii "path-problem") || bytes_beq kind (ascii "path-alert"))
    && contains compatible (ascii "PathProblem")

abbrev tests_points : Bytes → List Bytes → Bool
tests_points kind compatible =
    (bytes_beq kind (ascii "problem") || bytes_beq kind (ascii "alert"))
    && contains compatible (ascii "Problem")

type-Alerts :
    (kind : Bytes) (compatible : List Bytes)
    → bytes_beq (sarif_output_type_of kind compatible) [] ≡ false
    → Alerts kind compatible
unfolding sarif_output_type_of bytes_beq
type-Alerts kind compatible e = elim (Bool-cases (tests_paths kind compatible)) [
  | inl first ↦ let (k, m) = either-and kind _ _ compatible _ first in paths k m
  | inr skip ↦ elim (Bool-cases (tests_points kind compatible)) [
    | inl second ↦ let (k, m) = either-and kind _ _ compatible _ second in points k m
    | inr neither ↦ absurd (ground (arith, e, skip, neither))
  ]
]

Alerts-type :
    (kind : Bytes) (compatible : List Bytes)
    → Alerts kind compatible
    → bytes_beq (sarif_output_type_of kind compatible) [] ≡ false
unfolding sarif_output_type_of bytes_beq
Alerts-type kind compatible (paths k m) =
    ground (arith, either-beq kind _ _ k, contains-Listed (ascii "PathProblem") compatible m)
Alerts-type kind compatible (points k m) =
    ground (arith, either-beq kind _ _ k, contains-Listed (ascii "Problem") compatible m)

query_supports_sarif-true :
    (query : Query)
    → query_supports_sarif query.query_metadata query.bqrs_info ≡ some true
    → Supported query
unfolding query_supports_sarif get_sarif_output_type
query_supports_sarif-true query e = elim (Option-cases query.query_metadata.kind) [
  | inl f ↦ absurd (ground (arith, e, f))
  | inr (kind, f) ↦ record {
    kind = kind;
    has_kind = f;
    alerts = type-Alerts kind query.bqrs_info.compatible_query_kinds (ground (arith, e, f));
  }
]

query_supports_sarif-Supported :
    (query : Query)
    → Supported query
    → query_supports_sarif query.query_metadata query.bqrs_info ≡ some true
unfolding query_supports_sarif get_sarif_output_type
query_supports_sarif-Supported query s =
    ground (arith, s.has_kind, Alerts-type s.kind query.bqrs_info.compatible_query_kinds s.alerts)

all_support_sarif-true :
    (queries : List Query) → all_support_sarif queries ≡ some true → All Supported queries
unfolding all_support_sarif
all_support_sarif-true [] e = tt
all_support_sarif-true (query ∷ queries) e =
    elim (Option-cases (query_supports_sarif query.query_metadata query.bqrs_info)) [
      | inl f ↦ absurd (ground (arith, e, f))
      | inr (false, f) ↦ absurd (ground (arith, e, f))
      | inr (true, f) ↦
          (query_supports_sarif-true query f, all_support_sarif-true queries (ground (arith, e, f)))
    ]

all_support_sarif-All :
    (queries : List Query) → All Supported queries → all_support_sarif queries ≡ some true
unfolding all_support_sarif
all_support_sarif-All [] h = refl
all_support_sarif-All (query ∷ queries) (s, h) =
    ground (arith, query_supports_sarif-Supported query s, all_support_sarif-All queries h)

-- A query pack supports SARIF exactly if every query has a kind, which is of alerts along paths or
-- at points, and its results are compatible with that.
pub query_pack_supports_sarif-Supported :
    (results : QueryPackRunResults)
    → (query_pack_supports_sarif results ≡ some true) ↔ All Supported results.queries
unfolding query_pack_supports_sarif
query_pack_supports_sarif-Supported results =
    (all_support_sarif-true results.queries, all_support_sarif-All results.queries)
