-- ===== src/Codeql/Run.antt =====
-- pkg/codeql/codeql.go: `RunQuery` and what it calls.
pub mod Files
use mrvacommander.Prelude.{
  Bytes, bytes_beq, ascii, ℤ, pos, List, [], ◌∷◌, Bool, true, false, Option, none, some, ok, err,
  if◌then◌else◌,
}
use mrvacommander.Prelude.Chain.{◌>>=◌, ◌>>◌}
use mrvacommander.Utils.Paths.{join}
use mrvacommander.Common.Errors.{Error, Fallible, message, context}
use mrvacommander.Codeql.Types.{CodeqlCli, RunQueryResult, DatabaseMetadata, QueryPackRunResults}
use mrvacommander.Codeql.Sarif.{query_pack_supports_sarif, get_sarif_result_count}
use mrvacommander.Codeql.Provenance.{generate_sarif}
use mrvacommander.Codeql.Commands.{get_source_location_prefix, run_queries}
use mrvacommander.Codeql.Walk.{Node, glob, find_db_dir}
use mrvacommander.Codeql.Toolchain.{Toolchain}
use mrvacommander.Codeql.Packs.{get_query_pack_run_results, adjust_bqrs_files}

-- An error in place of that of a call.
abbrev pub replaced : {A : Type 0} → Error → Fallible A → Fallible A
replaced x (ok a) = ok a
replaced x (err e) = err x

module _ (t : Toolchain) where
  unfoldable pub get_codeql_cli_path : Fallible Bytes
  get_codeql_cli_path =
      let path = t.getenv (ascii "CODEQL_CLI_PATH") in
      if bytes_beq path []
      then err (message (ascii "CODEQL_CLI_PATH environment variable not set"))
      else ok path

  -- The one path of a list.
  abbrev only_path : List Bytes → Fallible Bytes
  only_path (path ∷ []) = ok path
  only_path _ = err (message (ascii "Found wrong number of paths to codeql-database.yml"))

  unfoldable pub get_database_metadata : Bytes → Node → Fallible DatabaseMetadata
  get_database_metadata database_path tree = do
    paths ←
        context (ascii "Failed to find codeql-database.yml")
          (glob (ascii "codeql-database.yml") database_path tree)
    path ← only_path paths
    content ← context (ascii "failed to read database metadata") (t.read_file path)
    context (ascii "failed to unmarshal database metadata") (t.unmarshal_metadata content)

  -- The SHA of a database, and the empty text if it has none.
  unfoldable pub database_sha_of : DatabaseMetadata → Bytes
  database_sha_of metadata = elim metadata.creation_metadata [
    | none ↦ []
    | some creation ↦ elim creation.sha [ none ↦ [] | some sha ↦ sha ]
  ]

  -- The steps up to the unpacked database: the CodeQL program, the database directory and the SHA.
  pub record Unpacked : Type 0 where
    pub cli : CodeqlCli
    pub db_dir : Bytes
    pub sha : Bytes

  unfoldable pub unpack : Bytes → Bytes → Bytes → Fallible Unpacked
  unfolding get_codeql_cli_path get_database_metadata database_sha_of
  unpack database temp_dir results_dir = do
    path ← context (ascii "failed to get codeql cli path") get_codeql_cli_path
    context (ascii "failed to create results directory") (t.mkdir results_dir)
    let database_path = join temp_dir (ascii "db")
    tree ←
        replaced (message (ascii "failed to unzip database: %!v(<nil>)"))
          (t.unzip_file database database_path)
    metadata ←
        context (ascii "failed to get database metadata") (get_database_metadata database_path tree)
    db_dir ← context (ascii "failed to get database path") (find_db_dir database_path tree)
    ok (record { cli = record { path = path }; db_dir = db_dir; sha = database_sha_of metadata })

  -- The steps from there up to the decision about SARIF.
  pub record Prepared : Type 0 where
    pub unpacked : Unpacked
    pub results : QueryPackRunResults
    pub source_location_prefix : Bytes

  unfoldable pub prepare : Unpacked → Bytes → Fallible Prepared
  unfolding get_query_pack_run_results run_queries get_source_location_prefix
  prepare u query_pack_path = do
    output ←
        context (ascii "failed to run queries")
          (run_queries t.interpreter.program u.cli u.db_dir query_pack_path)
    results ←
        context (ascii "failed to get query pack run results")
          (get_query_pack_run_results t u.cli u.db_dir query_pack_path)
    prefix ←
        context (ascii "failed to get source location prefix")
          (get_source_location_prefix t.interpreter.program u.cli u.db_dir)
    ok (record { unpacked = u; results = results; source_location_prefix = prefix })

  abbrev pub sarif_path : Bytes → Bytes
  sarif_path results_dir = join results_dir (ascii "results.sarif")

  -- The number of the results and the path of the SARIF file, with SARIF and without.
  unfoldable pub interpret_sarif : Bytes → Bytes → Bytes → Prepared → Fallible (ℤ × Bytes)
  interpret_sarif language query_pack_path results_dir p = do
    sarif ← context (ascii "failed to generate SARIF") (
        generate_sarif t.interpreter p.unpacked.cli language p.unpacked.db_dir query_pack_path
          p.unpacked.sha results_dir)
    context (ascii "failed to write SARIF file") (t.write_file (sarif_path results_dir) sarif)
    ok (pos (get_sarif_result_count (t.unmarshal_sarif sarif)), sarif_path results_dir)

  unfoldable pub interpret : Bytes → Bytes → Bytes → Prepared → Bool → Fallible (ℤ × Bytes)
  unfolding interpret_sarif
  interpret language query_pack_path results_dir p true =
      interpret_sarif language query_pack_path results_dir p
  interpret language query_pack_path results_dir p false = ok (p.results.total_results_count, [])

  unfoldable pub finish : Bytes → Bytes → Bytes → Prepared → Bool → Fallible RunQueryResult
  unfolding interpret adjust_bqrs_files
  finish language query_pack_path results_dir p should_generate = do
    (count, path) ← interpret language query_pack_path results_dir p should_generate
    bqrs ← context (ascii "failed to adjust BQRS files") (adjust_bqrs_files t p.results results_dir)
    ok (record {
      result_count = count;
      database_sha = p.unpacked.sha;
      source_location_prefix = p.source_location_prefix;
      bqrs_file_paths = bqrs;
      sarif_file_path = path;
    })

  -- `none` where the code dereferences a nil kind.
  unfoldable pub run_query : Bytes → Bytes → Bytes → Bytes → Option (Fallible RunQueryResult)
  unfolding unpack prepare finish
  run_query database language query_pack_path temp_dir =
      let results_dir = join temp_dir (ascii "results") in
      elim (unpack database temp_dir results_dir) [
        | err e ↦ some (err e)
        | ok u ↦ elim (prepare u query_pack_path) [
          | err e ↦ some (err e)
          | ok p ↦ elim (query_pack_supports_sarif p.results) [
            | none ↦ none
            | some should_generate ↦
                some (finish language query_pack_path results_dir p should_generate)
          ]
        ]
      ]
