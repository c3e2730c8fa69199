-- ===== src/Codeql/Commands.antt =====
-- pkg/codeql/codeql.go: the commands of the CodeQL program that a run calls.
use mrvacommander.Prelude.{
  Bytes, ascii, pos, int_beq, List, [], ◌∷◌, ◌++◌, Option, none, some, ok, err, if◌then◌else◌,
}
use mrvacommander.Prelude.Chain.{◌>>=◌}
use mrvacommander.Common.Errors.{Error, Fallible, message, wrapped, context}
use mrvacommander.Codeql.Types.{
  CodeqlCli, CodeqlCommandOutput, ResolvedDatabase, BqrsInfo, QueryMetadata,
}

-- `exec.Command` with the output of a command, given by its path and its arguments, and the
-- decoders of such outputs.
pub record Program : Type 0 where
  pub output : Bytes → List Bytes → Fallible Bytes
  pub combined_output : Bytes → List Bytes → Fallible Bytes
  pub unmarshal_query_metadata : Bytes → Fallible QueryMetadata
  pub unmarshal_bqrs_info : Bytes → Fallible BqrsInfo
  pub unmarshal_resolved_database : Bytes → Fallible ResolvedDatabase

module _ (p : Program) where
  -- The command has a first element, its path.
  unfoldable pub run_command : Bytes → List Bytes → CodeqlCommandOutput × Option Error
  run_command path arguments = elim (p.output path arguments) [
    | err e ↦ (record { exit_code = pos 1; stdout = [] }, some e)
    | ok stdout ↦ (record { exit_code = pos 0; stdout = stdout }, none)
  ]

  unfoldable pub validate_query_metadata_object : Bytes → Fallible QueryMetadata
  validate_query_metadata_object data' = p.unmarshal_query_metadata data'

  unfoldable pub validate_bqrs_info_object : Bytes → Fallible BqrsInfo
  validate_bqrs_info_object data' = p.unmarshal_bqrs_info data'

  -- A command of which the standard output is decoded, with the texts of its two errors.
  unfoldable pub decoded :
      {A : Type 0}
      → Bytes
      → Bytes
      → (Bytes → Fallible A)
      → CodeqlCommandOutput × Option Error
      → Fallible A
  decoded failed failed_with decode (output, some e) = err (wrapped failed e)
  decoded failed failed_with decode (output, none) =
      if int_beq output.exit_code (pos 0) then decode output.stdout else err (message failed_with)

  unfoldable pub get_bqrs_info : CodeqlCli → Bytes → Fallible BqrsInfo
  unfolding run_command decoded validate_bqrs_info_object
  get_bqrs_info cli bqrs =
      decoded (ascii "unable to run codeql bqrs info. Error: ")
        (ascii "unable to run codeql bqrs info. Exit code: ") validate_bqrs_info_object
        (run_command cli.path (ascii "bqrs" ∷ ascii "info" ∷ ascii "--format=json" ∷ bqrs ∷ []))

  unfoldable pub get_query_metadata : CodeqlCli → Bytes → Fallible QueryMetadata
  unfolding run_command decoded validate_query_metadata_object
  get_query_metadata cli query =
      decoded (ascii "unable to run codeql resolve metadata. Error: ")
        (ascii "unable to run codeql resolve metadata. Exit code: ") validate_query_metadata_object
        (run_command cli.path
          (ascii "resolve" ∷ ascii "metadata" ∷ ascii "--format=json" ∷ query ∷ []))

  unfoldable pub get_source_location_prefix : CodeqlCli → Bytes → Fallible Bytes
  get_source_location_prefix cli database_path = do
    output ←
        context (ascii "failed to resolve database")
          (p.combined_output cli.path (ascii "resolve" ∷ ascii "database" ∷ database_path ∷ []))
    resolved ←
        context (ascii "failed to unmarshal resolved database")
          (p.unmarshal_resolved_database output)
    ok resolved.source_location_prefix

  -- The output of the two commands below is only part of their errors.
  unfoldable pub run_queries : CodeqlCli → Bytes → Bytes → Fallible Bytes
  run_queries cli db_dir query_pack_path = p.combined_output cli.path (
      ascii "database"
      ∷ ascii "run-queries"
      ∷ ascii "--ram=2048"
      ∷ ascii "--additional-packs"
      ∷ query_pack_path
      ∷ ascii "--"
      ∷ db_dir
      ∷ query_pack_path
      ∷ [])

  unfoldable pub interpret_results : CodeqlCli → Bytes → Bytes → Bytes → Fallible Bytes
  interpret_results cli sarif_file database_path query_pack_path = p.combined_output cli.path (
      ascii "database"
      ∷ ascii "interpret-results"
      ∷ ascii "--format=sarif-latest"
      ∷ (ascii "--output=" ++ sarif_file)
      ∷ ascii "--sarif-add-snippets"
      ∷ ascii "--no-group-results"
      ∷ database_path
      ∷ query_pack_path
      ∷ [])
