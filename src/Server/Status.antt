-- ===== src/Server/Status.antt =====
-- pkg/server/server.go: the status requests.
pub mod Report
use mrvacommander.Prelude.{
  ℕ, Bytes, ascii, ℤ, pos, negsuc, int_beq, List, [], ◌∷◌, ◌++◌, false, Option, none, some, ok, err,
  map_ok, if◌then◌else◌, ◌>>=◌,
}
use mrvacommander.Prelude.Decimal.{parse_int}
use mrvacommander.Common.Types.{
  JobSpec, NameWithOwner, Status, status_succeeded, to_external_string,
}
use mrvacommander.Common.Errors.{Fallible, not_a_number}
use mrvacommander.Common.Api.{
  JobInfo, SkippedRepositories, ScannedRepo, StatusResponse, no_actor, no_controller_repo,
}
use mrvacommander.Queue.Types.{AnalyzeJob}
use mrvacommander.Server.Http.{
  ResponseWriter, http_error, write_json, text, error_text, status_json,
}
use mrvacommander.Server.Types.{Visibles, Commander}

-- `fmt.Sprintf("%s/%s", owner, repo)`
abbrev pub full_name : NameWithOwner → Bytes
full_name n = n.owner ++ (ascii "/" ++ n.repo)

abbrev pub none_skipped : SkippedRepositories
none_skipped = record {
  access_mismatch_repos = record { repository_count = pos 0; repositories = [] };
  not_found_repos = record { repository_count = pos 0; repository_full_names = [] };
  no_codeql_db_repos = record { repository_count = pos 0; repositories = [] };
  over_limit_repos = record { repository_count = pos 0; repositories = [] };
}

-- The response literal that both submit functions fill in.
abbrev pub status_response : ℤ → JobInfo → Bytes → List ScannedRepo → StatusResponse
status_response id ji status repos = record {
  session_id = id;
  controller_repo = no_controller_repo;
  actor = no_actor;
  query_language = ji.query_language;
  query_pack_url = [];
  created_at = ji.created_at;
  updated_at = ji.updated_at;
  actions_workflow_run_id = negsuc 0;
  status = status;
  scanned_repositories = repos;
  skipped_repositories = ji.skipped_repositories;
}

unfoldable pub submit_empty_status_response : ResponseWriter → ℤ → ResponseWriter
submit_empty_status_response w id = write_json w (
    status_json (
      status_response id
        (record {
          query_language = [];
          created_at = [];
          updated_at = [];
          skipped_repositories = none_skipped;
        })
        (to_external_string status_succeeded) []))

module _ {S A D : Type 0} (v : Visibles S A D) where
  -- The count and the size of a result; a job that has not succeeded has none.
  unfoldable pub result_numbers : Commander S A D → AnalyzeJob → Status → Fallible (ℤ × ℕ)
  result_numbers c job status =
      if int_beq status status_succeeded
      then elim (v.state.get_result c.state job.spec) [
        | err e ↦ err e
        | ok r ↦
            map_ok (λ size. (r.result_count, size))
              (v.artifacts.get_result_size c.artifacts r.result_location)
      ]
      else ok (pos 0, 0)

  abbrev pub scanned : JobInfo → AnalyzeJob → Status → ℤ → ℤ × ℕ → ScannedRepo
  scanned ji job status id (count, size) = record {
    repository = record {
      id = id;
      name = job.spec.repo;
      full_name = full_name job.spec.name_with_owner;
      private = false;
      stargazers_count = pos 0;
      updated_at = ji.updated_at;
    };
    analysis_status = to_external_string status;
    result_count = count;
    artifact_size_in_bytes = pos size;
  }

  -- One round of the loop over the jobs of a session.
  unfoldable pub scan_job :
      Commander S A D → JobInfo → AnalyzeJob → Option (S × Fallible ScannedRepo)
  scan_job c ji job = elim (v.state.get_status c.state job.spec) [
    | err e ↦ some (c.state, err e)
    | ok status ↦ elim (result_numbers c job status) [
      | err e ↦ some (c.state, err e)
      | ok numbers ↦ do
        (s, id) ← v.state.get_repo_id c.state job.spec.name_with_owner
        some (s, ok (scanned ji job status id numbers))
    ]
  ]

  -- The loop, which an error ends.
  unfoldable pub scan_jobs :
      Commander S A D → JobInfo → List AnalyzeJob → Option (S × Fallible (List ScannedRepo))
  scan_jobs c ji [] = some (c.state, ok [])
  scan_jobs c ji (job ∷ jobs) = elim (scan_job c ji job) [
    | none ↦ none
    | some (s, err e) ↦ some (s, err e)
    | some (s, ok repo) ↦ do
      (s', repos) ← scan_jobs (record c { state = s }) ji jobs
      some (s', map_ok (λ rest. repo ∷ rest) repos)
  ]

  -- The response, once the jobs have been gone through.
  unfoldable pub finish_status :
      S → ResponseWriter → ℤ → JobInfo → Fallible (List ScannedRepo) → ResponseWriter
  finish_status s w id ji (err e) = http_error w (error_text e) 422
  finish_status s w id ji (ok repos) = elim (v.state.get_session_status s id) [
    | err e ↦ http_error w (error_text e) 422
    | ok summary ↦
        write_json w
          (status_json (status_response id ji (to_external_string summary.overall) repos))
  ]

  unfoldable pub submit_status_response :
      Commander S A D
      → ResponseWriter
      → JobSpec
      → JobInfo
      → Option (Commander S A D × ResponseWriter)
  submit_status_response c w js ji = elim (v.state.get_job_list c.state js.session_id) [
    | err e ↦ some (c, http_error w (error_text e) 422)
    | ok jobs ↦ do
      (s, scan) ← scan_jobs c ji jobs
      some (record c { state = s }, finish_status s w js.session_id ji scan)
  ]

  -- The status request, once its session id is a number.
  unfoldable pub session_status :
      Commander S A D → ResponseWriter → ℤ → Option (Commander S A D × ResponseWriter)
  session_status c w id = elim (v.state.get_job_list c.state id) [
    | err e ↦ some (c, http_error w (text (ascii "No jobs found for given session id")) 404)
    | ok [] ↦ some (c, submit_empty_status_response w id)
    | ok (job ∷ jobs) ↦ elim (v.state.get_job_info c.state job.spec) [
      | err e ↦ some (c, http_error w (text (ascii "No job info found for given session id")) 400)
      | ok ji ↦ submit_status_response c w job.spec ji
    ]
  ]

  -- `MRVAStatusCommon`; `MRVAStatus` and `MRVAStatusID` pass it the id of their path.
  unfoldable pub mrva_status_common :
      Commander S A D → ResponseWriter → Bytes → Option (Commander S A D × ResponseWriter)
  unfolding session_status
  mrva_status_common c w id = elim (parse_int 32 id) [
    | none ↦ some (c, http_error w (error_text (not_a_number id)) 400)
    | some session_id ↦ session_status c w session_id
  ]
