-- ===== src/Scenarios/Submissions.antt =====
-- Submissions, status requests and downloads.
use mrvacommander.Prelude.{
  Bytes, ◌++◌, ℕ, pos, ascii, List, [], ◌∷◌, map, none, ◌≡◌, ◌↔◌, refl, lookup, insert, int_beq,
  bytes_beq, arith,
}
use mrvacommander.Common.Types.{
  job_spec_eq, job_spec_beq, nwo_beq, NameWithOwner, status_succeeded, status_in_progress,
}
use mrvacommander.Common.Api.{DownloadResponse}
use mrvacommander.ArtifactStore.Memory.{get_result}
use mrvacommander.State.Local as Local
use mrvacommander.State.Local.{LocalState, add_job, set_status}
use mrvacommander.Server.Http.{new_writer, write_json, write_raw, download_json}
use mrvacommander.Server.Types.{SessionInfo}
use mrvacommander.Server.Download.{send_artifact_download_response, mrva_download_serve}
use mrvacommander.Server.Download.Serve.{server_address, download_served}
use mrvacommander.Server.Submit.{job_for, start_analysis, start_analyses}
use mrvacommander.Server.Submit.Collect.{collect_repos}
use mrvacommander.Server.Submit.Respond.{skipped_repositories}
use mrvacommander.Server.Submit.Queueing.{Started, start_analyses-Started}
use mrvacommander.Server.Submit.Entries.{collect_repos-NoSlash}
use mrvacommander.Server.Submit.Skipped.{CountsAgree, skipped_repositories-CountsAgree}
use mrvacommander.Queue.Types.{AnalyzeResult}
use mrvacommander.Agent.Job.{succeeded_result}
use mrvacommander.Scenarios.{
  Installation, visibles, laws, idle, job, spec, psycopg2, pack, run, archive, or_idle, fresh, env,
}

abbrev attrs : NameWithOwner
attrs = record { owner = ascii "python-attrs"; repo = ascii "attrs" }

abbrev both : List NameWithOwner
both = psycopg2 ∷ attrs ∷ []

abbrev started : Installation
unfolding start_analyses start_analysis add_job lookup insert set_status int_beq
started = or_idle (start_analyses visibles idle both pack (pos 1) (ascii "python"))

start_analyses-Started_example :
    Started visibles idle (map (job_for pack (pos 1) (ascii "python")) both) started
unfolding start_analyses start_analysis add_job lookup insert set_status int_beq
start_analyses-Started_example =
    start_analyses-Started visibles laws idle started both pack (pos 1) (ascii "python") refl

collect_repos-NoSlash_example :
    collect_repos new_writer (ascii "psycopg/psycopg2" ∷ ascii "attrs" ∷ []) ≡ none
collect_repos-NoSlash_example =
    collect_repos-NoSlash new_writer (ascii "psycopg/psycopg2" ∷ []) [] (ascii "attrs")
      (ground arith)

-- One repository was found, and one was not.
abbrev session : SessionInfo
session = record {
  id = pos 1;
  query_pack = ascii "1";
  language = ascii "python";
  access_mismatch_repos = [];
  not_found_repos = attrs ∷ [];
  no_codeql_db_repos = [];
}

skipped_repositories-CountsAgree_example :
    CountsAgree (skipped_repositories env.now session) ↔ ((◌≡◌ {A = ℕ} 0 1) × (◌≡◌ {A = ℕ} 0 1))
skipped_repositories-CountsAgree_example = skipped_repositories-CountsAgree env.now session

-- The job is done, its result and its archive are stored, and another job is under way.
abbrev result : AnalyzeResult
result = succeeded_result job run (record { key = ascii "1-results"; bucket = ascii "mrvabucket" })

abbrev done : Installation
done = record idle {
  state = record fresh { status = (spec, status_succeeded) ∷ []; result = (spec, result) ∷ [] };
  artifacts = record { packs = []; results = (ascii "1-results", archive) ∷ [] };
}

abbrev busy : Installation
busy = record idle { state = record fresh { status = (spec, status_in_progress) ∷ [] } }

download_served_example :
    (response : DownloadResponse) × (encoded : Bytes) × (send_artifact_download_response visibles
        env done new_writer
        (pos 1)
        spec
      ≡ write_json new_writer (download_json response))
    × (response.artifact_url
        ≡ ascii "http://" ++ (server_address env ++ (ascii "/download/" ++ encoded)))
    × (response.artifact_size_in_bytes ≡ pos 4)
    × (mrva_download_serve visibles env done new_writer encoded ≡ write_raw new_writer archive)
unfolding Local.get_status Local.get_result get_result lookup int_beq job_spec_beq nwo_beq bytes_beq
download_served_example =
    download_served visibles env done spec result archive (pos 1) refl refl refl (ground arith) refl
