-- ===== src/Codeql/Packs.antt =====
-- pkg/codeql/codeql.go: the results of the queries of a pack, and where their files are.
use mrvacommander.Prelude.{
  Bytes, bytes_eq, ascii, ℤ, pos, add_int, List, [], ◌∷◌, map, ok, err, if◌then◌else◌,
}
use mrvacommander.Prelude.Chain.{◌>>=◌, ◌>>◌}
use mrvacommander.Utils.Paths.{join}
use mrvacommander.Common.Errors.{Fallible, message, wrapped, context}
use mrvacommander.Codeql.Types.{CodeqlCli, BqrsFilePaths, Query, QueryPackRunResults}
use mrvacommander.Codeql.Bqrs.{get_bqrs_result_count}
use mrvacommander.Codeql.Commands.{get_bqrs_info, get_query_metadata}
use mrvacommander.Codeql.Toolchain.{Toolchain}

module _ (t : Toolchain) where
  -- The loop over the query paths.
  unfoldable pub collect_queries : CodeqlCli → Bytes → Bytes → List Bytes → Fallible (List Query)
  unfolding get_bqrs_info get_query_metadata
  collect_queries cli results_base_path query_pack_path [] = ok []
  collect_queries cli results_base_path query_pack_path (query_path ∷ query_paths) =
      let relative = join query_pack_path query_path in
      let bqrs = join results_base_path relative in
      let later = collect_queries cli results_base_path query_pack_path query_paths in
      if t.is_not_exist bqrs then err (message (ascii "could not find BQRS file for query")) else do
        info ←
            context (ascii "failed to get BQRS info") (get_bqrs_info t.interpreter.program cli bqrs)
        metadata ←
            context (ascii "failed to get query metadata")
              (get_query_metadata t.interpreter.program cli query_path)
        queries ← later
        ok (
            record {
              query_path = query_path;
              query_metadata = metadata;
              relative_bqrs_file_path = relative;
              bqrs_info = info;
            }
            ∷ queries)

  -- The loop that counts the results.
  unfoldable pub total_results : List Query → ℤ → Fallible ℤ
  total_results [] total = ok total
  total_results (query ∷ queries) total = elim (get_bqrs_result_count query.bqrs_info) [
    | err e ↦ err (wrapped (ascii "failed to get BQRS result count") e)
    | ok count ↦ total_results queries (add_int total count)
  ]

  -- The list that the code writes down in place of the queries of the pack.
  abbrev pub query_paths : List Bytes
  query_paths = []

  unfoldable pub get_query_pack_run_results :
      CodeqlCli → Bytes → Bytes → Fallible QueryPackRunResults
  unfolding collect_queries total_results
  get_query_pack_run_results cli database_path query_pack_path = do
    let results_base_path = join database_path (ascii "results")
    queries ← collect_queries cli results_base_path query_pack_path query_paths
    total ← total_results queries (pos 0)
    ok (record {
      queries = queries;
      total_results_count = total;
      results_base_path = results_base_path;
    })

  unfoldable pub adjust_bqrs_files : QueryPackRunResults → Bytes → Fallible BqrsFilePaths
  adjust_bqrs_files results results_dir = elim results.queries [
    | query ∷ [] ↦ do
      t.mkdir_all results_dir
      t.rename (join results.results_base_path query.relative_bqrs_file_path)
          (join results_dir (ascii "results.bqrs"))
      ok (record { base_path = results_dir; relative_file_paths = ascii "results.bqrs" ∷ [] })
    | _ ↦ ok (record {
      base_path = results.results_base_path;
      relative_file_paths = map (λ query. query.relative_bqrs_file_path) results.queries;
    })
  ]
