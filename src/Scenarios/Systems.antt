-- ===== src/Scenarios/Systems.antt =====
-- Runs of the whole installation.
use mrvacommander.Prelude.{some, Bytes, [], ◌∷◌, ok, ◌≡◌, refl, lookup, bytes_beq, arith}
use mrvacommander.Common.Types.{status_succeeded, status_pending}
use mrvacommander.Common.JobSpecs.{encode_job_spec}
use mrvacommander.ArtifactStore.Types.{ArtifactLocation, default_buckets}
use mrvacommander.ArtifactStore.Memory.{get_query_pack, save_result}
use mrvacommander.Queue.Types.{AnalyzeResult, send_job, send_result}
use mrvacommander.State.Local.{get_status, get_result}
use mrvacommander.QldbStore.Filesystem.{get_database, filesystem_store}
use mrvacommander.Server.Http.{new_writer, write_raw}
use mrvacommander.Server.Download.{mrva_download_serve}
use mrvacommander.Server.Results.{store_result, consume_result}
use mrvacommander.Utils.Extract.{untar_gz, untar, extract_all}
use mrvacommander.Codeql.Zip.{
  generate_results_zip_archive, add_sarif, add_bqrs_files, add_file_to_zip,
}
use mrvacommander.Agent.Job.{run_analysis_job, fetch_query_pack, analyze, upload}
use mrvacommander.Agent.Worker.{run_job, receive, deliver}
use mrvacommander.System.{send, mark, perform, server, Steps, here, next}
use mrvacommander.System.Safety.{Steps-Delivered}
use mrvacommander.System.EndToEnd.{job_served}
use mrvacommander.System.Race.{mark_after_result}
use mrvacommander.Scenarios as Scenarios
use mrvacommander.Server.Results.{idle}
use mrvacommander.System.Safety.{Safe}
use mrvacommander.System.Rounds.{at_rest, run_job-Steps, consume_result-Steps}
use mrvacommander.Scenarios.{
  Installation, visibles, local, laws, disk, machine, job, spec, or_idle, fresh-Delivered, env,
}

-- The job is sent.
abbrev sent : Installation
unfolding send_job
sent = record Scenarios.idle { queue = send_job Scenarios.idle.queue job }

abbrev ran : Installation
unfolding receive run_job send_job run_analysis_job fetch_query_pack analyze untar_gz untar
    extract_all generate_results_zip_archive add_sarif add_bqrs_files add_file_to_zip upload
    get_query_pack get_database lookup bytes_beq save_result deliver send_result
ran = or_idle (receive visibles machine sent)

abbrev consumed : Installation
unfolding consume_result store_result
consumed = or_idle (consume_result visibles ran)

abbrev marked : Installation
unfolding perform
marked = or_idle (perform visibles (mark job) consumed)

runs : run_job visibles machine sent job [] ≡ some ran
unfolding receive run_job send_job ran
runs = refl

consumes' : consume_result visibles ran ≡ some consumed
unfolding consume_result store_result consumed ran
consumes' = refl

Steps-Delivered_example : Safe visibles consumed.state idle
unfolding perform send_job ran run_job run_analysis_job fetch_query_pack analyze upload
    get_query_pack get_database lookup bytes_beq save_result deliver send_result untar_gz
    generate_results_zip_archive add_file_to_zip receive
Steps-Delivered_example =
    Steps-Delivered visibles laws {s = at_rest visibles Scenarios.idle (send job ∷ [])}
      {t = at_rest visibles consumed []}
      (consume_result-Steps visibles _ ran consumed _ [] [] refl consumes' (
        run_job-Steps visibles _ machine sent ran job [] [] refl runs
          (next here (server (send job) _ sent refl refl refl))))
      (fresh-Delivered, tt)

job_served_example :
    (archive' : Bytes) × (location : ArtifactLocation) × (save_result default_buckets
        Scenarios.idle.artifacts spec archive'
      ≡ (ran.artifacts, ok location))
    × (get_status consumed.state spec ≡ ok status_succeeded)
    × (mrva_download_serve visibles env consumed new_writer
          (encode_job_spec env.marshal_job_spec spec)
        ≡ write_raw new_writer archive')
unfolding receive run_job send_job consume_result store_result run_analysis_job fetch_query_pack
    analyze upload get_query_pack get_database lookup bytes_beq save_result deliver send_result
    untar_gz generate_results_zip_archive add_file_to_zip
job_served_example =
    job_served local laws default_buckets (filesystem_store disk) env machine Scenarios.idle ran
      consumed job [] fresh-Delivered refl refl refl refl refl (ground arith) refl

mark_after_result_example :
    Steps visibles
      (at_rest visibles Scenarios.idle (send job ∷ mark job ∷ []))
      (at_rest visibles marked [])
    × (get_status consumed.state spec ≡ ok status_succeeded)
    × (get_status marked.state spec ≡ ok status_pending)
    × ((r : AnalyzeResult) × (get_result marked.state spec ≡ ok r) × (r.status ≡ status_succeeded))
unfolding receive run_job send_job consume_result store_result run_analysis_job fetch_query_pack
    analyze upload get_query_pack get_database lookup bytes_beq save_result deliver send_result
    perform untar_gz generate_results_zip_archive add_file_to_zip
mark_after_result_example =
    mark_after_result visibles laws Scenarios.idle ran consumed marked job [] machine refl refl
      fresh-Delivered refl refl refl refl refl
