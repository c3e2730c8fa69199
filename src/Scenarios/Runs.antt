-- ===== src/Scenarios/Runs.antt =====
-- An agent that runs its queries by `RunQuery`.
use mrvacommander.Prelude.{ascii, Option, none, some, err, ◌≡◌, refl, lookup, bytes_beq}
use mrvacommander.Common.Errors.{Fallible, message}
use mrvacommander.Codeql.Types.{RunQueryResult}
use mrvacommander.Codeql.Run.{run_query}
use mrvacommander.Codeql.Run.Files.{run_query-sarif}
use mrvacommander.Prelude.Split.{split}
use mrvacommander.Utils.Paths.{clean, join}
use mrvacommander.Utils.Extract.{untar_gz}
use mrvacommander.ArtifactStore.Memory.{get_query_pack, save_result}
use mrvacommander.QldbStore.Filesystem.{get_database}
use mrvacommander.Codeql.Walk.{find_db_dir, glob, has_entry}
use mrvacommander.Codeql.Zip.{generate_results_zip_archive, add_file_to_zip}
use mrvacommander.Codeql.Sarif.{query_pack_supports_sarif}
use mrvacommander.Codeql.Provenance.{generate_sarif}
use mrvacommander.Agent.Job.{Machine, run_analysis_job, fetch_query_pack, analyze, upload}
use mrvacommander.Agent.Archive.{RunsQueries, SarifStored, run_analysis_job-SarifStored}
use mrvacommander.Scenarios.{visibles, idle, machine, job}
use mrvacommander.Scenarios.Queries.{toolchain}

-- An error in place of a panic.
abbrev or_error : Option (Fallible RunQueryResult) → Fallible RunQueryResult
or_error none = err (message (ascii "panic"))
or_error (some outcome) = outcome

abbrev agent : Machine
agent = record machine {
  run_query = λ database language query_pack_path temp_dir.
      or_error (run_query toolchain database language query_pack_path temp_dir);
}

agent-RunsQueries : RunsQueries toolchain agent
agent-RunsQueries database language query_pack_path temp_dir =
    let (outcome, returned, _) =
      run_query-sarif toolchain database language query_pack_path temp_dir in
    rw returned refl

does_not_give_up : (run_analysis_job visibles agent idle.artifacts idle.databases job).error ≡ none
unfolding analyze fetch_query_pack run_analysis_job upload get_query_pack save_result generate_sarif
    run_query query_pack_supports_sarif find_db_dir glob has_entry add_file_to_zip
    generate_results_zip_archive bytes_beq lookup split get_database untar_gz clean join
does_not_give_up = refl

run_analysis_job-SarifStored_example :
    SarifStored toolchain visibles agent idle.artifacts job
      (run_analysis_job visibles agent idle.artifacts idle.databases job)
run_analysis_job-SarifStored_example =
    run_analysis_job-SarifStored visibles agent toolchain agent-RunsQueries (λ e. cc) idle.artifacts
      idle.databases job does_not_give_up
