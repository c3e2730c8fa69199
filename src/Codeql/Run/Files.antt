-- ===== src/Codeql/Run/Files.antt =====
-- Which files a run leaves for the results archive.
use mrvacommander.Prelude.{
  Bytes, ascii, List, [], ◌∷◌, true, some, ok, err, ◌≡◌, inl, inr, refl, arith, length, length-map,
  Result-cases,
}
use mrvacommander.Prelude.Chain.{>>=-eq-ok}
use mrvacommander.Utils.Paths.{join}
use mrvacommander.Common.Errors.{Fallible}
use mrvacommander.Codeql.Types.{
  CodeqlCli, BqrsFilePaths, RunQueryResult, Query, QueryPackRunResults,
}
use mrvacommander.Codeql.Sarif.{query_pack_supports_sarif, query_pack_supports_sarif-Supported}
use mrvacommander.Codeql.Provenance.{generate_sarif}
use mrvacommander.Codeql.Commands.{run_queries, get_source_location_prefix}
use mrvacommander.Codeql.Toolchain.{Toolchain}
use mrvacommander.Codeql.Packs.{
  adjust_bqrs_files, get_query_pack_run_results, collect_queries, total_results,
}
use mrvacommander.Codeql.Run.{
  Prepared, prepare, interpret, interpret_sarif, finish, run_query, Unpacked, unpack, sarif_path,
}

module _ (t : Toolchain) where
  adjusted :
      (results : QueryPackRunResults) (results_dir : Bytes) (files : BqrsFilePaths)
      (queries : List Query)
      → results.queries ≡ queries
      → adjust_bqrs_files t results results_dir ≡ ok files
      → length files.relative_file_paths ≡ length queries
  unfolding adjust_bqrs_files
  adjusted results results_dir files [] q e = ground (arith, q, e)
  adjusted results results_dir files (query ∷ []) q e =
      let (_, _, e') = >>=-eq-ok (t.mkdir_all results_dir) _ (rw q at e) in
      let (_, _, e'') = >>=-eq-ok (t.rename _ _) _ e' in ground (arith, e'')
  adjusted results results_dir files (query ∷ (second ∷ more)) q e =
      ground (arith, q, e, length-map more (λ (x : Query). x.relative_bqrs_file_path))

  -- If the BQRS files are put in place, there is one for each query.
  pub length-adjust_bqrs_files :
      (results : QueryPackRunResults) (results_dir : Bytes) (files : BqrsFilePaths)
      → adjust_bqrs_files t results results_dir ≡ ok files
      → length files.relative_file_paths ≡ length results.queries
  unfolding adjust_bqrs_files
  length-adjust_bqrs_files results results_dir files e =
      adjusted results results_dir files results.queries refl e

  -- The run results of a pack hold no query.
  get_query_pack_run_results-empty :
      (cli : CodeqlCli) (database_path query_pack_path : Bytes) (results : QueryPackRunResults)
      → get_query_pack_run_results t cli database_path query_pack_path ≡ ok results
      → results.queries ≡ []
  unfolding get_query_pack_run_results collect_queries total_results
  get_query_pack_run_results-empty cli database_path query_pack_path results e = cc

  prepare-empty :
      (u : Unpacked t) (query_pack_path : Bytes) (p : Prepared t)
      → prepare t u query_pack_path ≡ ok p
      → p.results.queries ≡ []
  unfolding prepare
  prepare-empty u query_pack_path p e =
      elim (Result-cases (run_queries t.interpreter.program u.cli u.db_dir query_pack_path)) [
        | inr (x, f) ↦ absurd (ground (arith, e, f))
        | inl (_, f) ↦
            elim (Result-cases (get_query_pack_run_results t u.cli u.db_dir query_pack_path)) [
              | inr (x, g) ↦ absurd (ground (arith, e, f, g))
              | inl (results, g) ↦
                  elim (Result-cases
                    (get_source_location_prefix t.interpreter.program u.cli u.db_dir)) [
                      | inr (x, h) ↦ absurd (ground (arith, e, f, g, h))
                      | inl (prefix, h) ↦ ground (
                        arith,
                        e,
                        f,
                        g,
                        h,
                        get_query_pack_run_results-empty u.cli u.db_dir query_pack_path results g,
                      )
                    ]
            ]
      ]

  supports-empty :
      (p : Prepared t) → p.results.queries ≡ [] → query_pack_supports_sarif p.results ≡ some true
  supports-empty p e = (query_pack_supports_sarif-Supported p.results).1 (rw e tt)

  finish-sarif :
      (language query_pack_path results_dir : Bytes) (p : Prepared t) (r : RunQueryResult)
      → p.results.queries ≡ []
      → finish t language query_pack_path results_dir p true ≡ ok r
      → (r.bqrs_file_paths.relative_file_paths ≡ [])
        × (r.sarif_file_path ≡ sarif_path t results_dir)
  unfolding finish interpret interpret_sarif adjust_bqrs_files
  finish-sarif language query_pack_path results_dir p r none' e =
      elim (Result-cases (
        generate_sarif t.interpreter p.unpacked.cli language p.unpacked.db_dir query_pack_path
          p.unpacked.sha results_dir)) [
            | inr (x, f) ↦ absurd (ground (arith, e, f))
            | inl (sarif, f) ↦ elim (Result-cases (t.write_file (sarif_path t results_dir) sarif)) [
              | inr (x, g) ↦ absurd (ground (arith, e, f, g))
              | inl (_, g) ↦ ground (arith, e, f, g, none')
            ]
          ]

  -- No run panics, and a run that returns no error always has a SARIF file, and never a BQRS file,
  -- whatever queries the pack holds.
  pub run_query-sarif :
      (database language query_pack_path temp_dir : Bytes)
      → (outcome : Fallible RunQueryResult) × (run_query t database language query_pack_path
            temp_dir
          ≡ some outcome)
        × ((r : RunQueryResult)
            → outcome ≡ ok r
            → (r.bqrs_file_paths.relative_file_paths ≡ [])
              × (r.sarif_file_path ≡ sarif_path t (join temp_dir (ascii "results"))))
  unfolding run_query
  run_query-sarif database language query_pack_path temp_dir =
      let results_dir = join temp_dir (ascii "results") in
      elim (Result-cases (unpack t database temp_dir results_dir)) [
        | inr (x, e) ↦ (err x, ground (arith, e), λ r f. cc)
        | inl (u, e) ↦ elim (Result-cases (prepare t u query_pack_path)) [
          | inr (x, f) ↦ (err x, ground (arith, e, f), λ r g. cc)
          | inl (p, f) ↦
              let empty = prepare-empty u query_pack_path p f in
              (
                finish t language query_pack_path results_dir p true,
                ground (arith, e, f, supports-empty p empty),
                λ r g. finish-sarif language query_pack_path results_dir p r empty g,
              )
        ]
      ]
