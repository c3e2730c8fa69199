-- ===== src/Scenarios/Jobs.antt =====
-- The agent and the results consumer at work on a job.
use mrvacommander.Prelude.{ascii, [], ◌∷◌, some, ok, ◌≡◌, refl, lookup, bytes_beq}
use mrvacommander.Common.Types.{status_in_progress}
use mrvacommander.Common.Errors.{message, wrapped}
use mrvacommander.ArtifactStore.Memory.{get_query_pack, save_result, result_key}
use mrvacommander.Queue.Types.{AnalyzeResult}
use mrvacommander.State.Local.{get_status}
use mrvacommander.QldbStore.Filesystem.{get_database}
use mrvacommander.Server.Results.{store_result, consume_result, Consumed, consume_result-Consumed}
use mrvacommander.Utils.Extract.{untar_gz, untar, extract_all}
use mrvacommander.Codeql.Zip.{
  generate_results_zip_archive, add_sarif, add_bqrs_files, add_file_to_zip,
}
use mrvacommander.Agent.Job.{run_analysis_job, fetch_query_pack, analyze, upload, succeeded_result}
use mrvacommander.Agent.Worker.{run_job}
use mrvacommander.Agent.Outcomes.{
  Ended, run_analysis_job-Ended, Lost, run_job-Lost, Sent, run_job-Sent,
}
use mrvacommander.Scenarios.{
  Installation, visibles, laws, idle, machine, broken, job, spec, run, or_idle, fresh-Delivered,
}

run_analysis_job-Ended_example :
    Ended visibles idle.artifacts job
      (run_analysis_job visibles broken idle.artifacts idle.databases job)
run_analysis_job-Ended_example =
    run_analysis_job-Ended visibles broken idle.artifacts idle.databases job

abbrev finished : Installation
unfolding run_job
finished = or_idle (run_job visibles machine idle job [])

abbrev lost : Installation
unfolding run_job
lost = or_idle (run_job visibles broken idle job [])

runs : run_job visibles machine idle job [] ≡ some finished
unfolding run_job
runs = refl

fails : run_job visibles broken idle job [] ≡ some lost
unfolding run_job
fails = refl

run_job-Lost_example : Lost idle lost × (get_status lost.state spec ≡ ok status_in_progress)
unfolding run_analysis_job fetch_query_pack analyze untar_gz untar extract_all
    generate_results_zip_archive add_sarif add_bqrs_files add_file_to_zip get_query_pack
    get_database lookup bytes_beq
run_job-Lost_example =
    run_job-Lost visibles laws broken idle job [] lost
      (wrapped (ascii "failed to run analysis") (message (ascii "failed to run queries"))) refl
      fails

run_job-Sent_example : Sent visibles machine idle job finished
unfolding run_analysis_job fetch_query_pack analyze untar_gz untar extract_all
    generate_results_zip_archive add_sarif add_bqrs_files add_file_to_zip upload get_query_pack
    get_database lookup bytes_beq save_result
run_job-Sent_example = run_job-Sent visibles laws machine idle job [] finished refl runs

-- A result that waits in the queue.
abbrev result : AnalyzeResult
result = succeeded_result job run (record { key = result_key spec; bucket = ascii "mrvabucket" })

abbrev waiting : Installation
waiting = record idle { queue = record { jobs = []; results = result ∷ [] } }

abbrev consumed : Installation
unfolding consume_result store_result
consumed = or_idle (consume_result visibles waiting)

consume_result-Consumed_example : Consumed visibles laws waiting result [] consumed
unfolding consume_result store_result
consume_result-Consumed_example =
    consume_result-Consumed visibles laws waiting consumed result [] refl fresh-Delivered refl
