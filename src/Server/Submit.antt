-- ===== src/Server/Submit.antt =====
-- pkg/server/server.go: the requests that submit an analysis.
pub mod Collect
pub mod Respond
pub mod Queueing
pub mod Entries
pub mod Skipped
pub mod Refusals
use mrvacommander.Prelude.{ℤ, Bytes, List, [], ◌∷◌, Option, none, some, ok, err, ◌>>=◌}
use mrvacommander.Prelude.Decimal.{format_int}
use mrvacommander.Common.Types.{NameWithOwner, status_pending}
use mrvacommander.ArtifactStore.Types.{ArtifactLocation}
use mrvacommander.Queue.Types.{AnalyzeJob, send_job}
use mrvacommander.Server.Http.{ResponseWriter, http_error, write_json, error_text, submit_json}
use mrvacommander.Server.Types.{Visibles, Commander, Environment, SessionInfo}
use Collect.{RequestBody, Collected, collect_request_info_and_save_query_pack}
use Respond.{build_session_info_response_json}

abbrev pub job_for : ArtifactLocation → ℤ → Bytes → NameWithOwner → AnalyzeJob
job_for location session_id language nwo = record {
  spec = record { session_id = session_id; name_with_owner = nwo };
  query_pack_location = location;
  query_language = language;
}

module _ {S A D : Type 0} (v : Visibles S A D) where
  -- One round of the loop: the job is sent, then marked as pending, then added to its session.
  unfoldable pub start_analysis : Commander S A D → AnalyzeJob → Option (Commander S A D)
  start_analysis c job = do
    s ← v.state.set_status c.state job.spec status_pending
    s' ← v.state.add_job s job
    some (record c { queue = send_job c.queue job; state = s' })

  unfoldable pub start_analyses :
      Commander S A D → List NameWithOwner → ArtifactLocation → ℤ → Bytes → Option (Commander S A D)
  start_analyses c [] location session_id language = some c
  start_analyses c (nwo ∷ repos) location session_id language =
      elim (start_analysis c (job_for location session_id language nwo)) [
        | none ↦ none
        | some c' ↦ start_analyses c' repos location session_id language
      ]

  -- The answer to a submission that was accepted.
  unfoldable pub finish_request :
      Environment
      → Commander S A D
      → ResponseWriter
      → SessionInfo
      → Option (Commander S A D × ResponseWriter)
  finish_request env c w si = do
    (s, response) ← build_session_info_response_json v env c.state si
    some (
      record c { state = s },
      elim response [
        | err e ↦ http_error w (error_text e) 500
        | ok r ↦ write_json w (submit_json r)
      ],
    )

  -- A submission that was read: its jobs are started, and it is answered.
  unfoldable pub run_request :
      Environment
      → Commander S A D
      → ResponseWriter
      → ℤ
      → Collected
      → Option (Commander S A D × ResponseWriter)
  run_request env c w session_id request = do
    let (d, not_found, analysis_repos) =
        v.codeql_db_store.find_available_dbs c.databases request.repositories
    c' ←
        start_analyses (record c { databases = d }) analysis_repos request.query_pack_location
          session_id request.language
    finish_request env c' w (record {
      id = session_id;
      query_pack = format_int session_id;
      language = request.language;
      access_mismatch_repos = [];
      not_found_repos = not_found;
      no_codeql_db_repos = [];
    })

  -- `MRVARequestCommon`, which `MRVARequest` and `MRVARequestID` call.
  unfoldable pub mrva_request_common :
      Environment
      → Commander S A D
      → ResponseWriter
      → RequestBody
      → Option (Commander S A D × ResponseWriter)
  mrva_request_common env c w r = do
    (s, session_id) ← v.state.next_id c.state
    (c', w', collected) ←
        collect_request_info_and_save_query_pack v env (record c { state = s }) w r session_id
    elim collected [
      | err e ↦ some (c', http_error w' (error_text e) 400)
      | ok request ↦ run_request env c' w' session_id request
    ]
