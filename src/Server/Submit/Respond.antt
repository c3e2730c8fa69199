-- ===== src/Server/Submit/Respond.antt =====
-- Answering a submission: `buildSessionInfoResponseJson` and what it calls.
use mrvacommander.Prelude.{
  ℕ, Bytes, ascii, ℤ, pos, negsuc, List, [], ◌∷◌, map, false, Option, none, some, ok, err, length,
  ◌>>=◌,
}
use mrvacommander.Common.Types.{NameWithOwner}
use mrvacommander.Common.Errors.{Fallible}
use mrvacommander.Common.Api.{
  JobInfo, Repository, SkippedRepositories, SubmitResponse, no_actor, no_controller_repo,
}
use mrvacommander.Queue.Types.{AnalyzeJob}
use mrvacommander.Server.Types.{Visibles, Environment, SessionInfo}
use mrvacommander.Server.Status.{full_name}

unfoldable pub nwo_to_nwo_string_array : List NameWithOwner → List Bytes × ℕ
nwo_to_nwo_string_array nwo = (map full_name nwo, length nwo)

abbrev pub dummy_repository : Bytes → NameWithOwner → Repository
dummy_repository now nwo = record {
  id = negsuc 0;
  name = nwo.repo;
  full_name = full_name nwo;
  private = false;
  stargazers_count = pos 0;
  updated_at = now;
}

unfoldable pub nwo_to_dummy_repository_array : Bytes → List NameWithOwner → List Repository × ℕ
nwo_to_dummy_repository_array now nwo = (map (dummy_repository now) nwo, length nwo)

-- One count, that of the repositories not found, goes into all four parts.
unfoldable pub skipped_repositories : Bytes → SessionInfo → SkippedRepositories
skipped_repositories now si =
    let (names, count) = nwo_to_nwo_string_array si.not_found_repos in
    let (mismatched, _) = nwo_to_dummy_repository_array now si.access_mismatch_repos in
    let (without_db, _) = nwo_to_dummy_repository_array now si.no_codeql_db_repos in
    record {
      access_mismatch_repos = record { repository_count = pos count; repositories = mismatched };
      not_found_repos = record { repository_count = pos count; repository_full_names = names };
      no_codeql_db_repos = record { repository_count = pos count; repositories = without_db };
      over_limit_repos = record { repository_count = pos count; repositories = without_db };
    }

unfoldable pub submit_response : Bytes → SessionInfo → SubmitResponse
submit_response now si = record {
  id = si.id;
  controller_repo = no_controller_repo;
  actor = no_actor;
  query_language = si.language;
  query_pack_url = si.query_pack;
  created_at = now;
  updated_at = now;
  status = ascii "in_progress";
  skipped_repositories = skipped_repositories now si;
}

-- What a status request for a job of the session will need.
unfoldable pub job_info_of : Bytes → SessionInfo → JobInfo
job_info_of now si = record {
  query_language = si.language;
  created_at = now;
  updated_at = now;
  skipped_repositories = skipped_repositories now si;
}

module _ {S A D : Type 0} (v : Visibles S A D) where
  -- The loop that stores the information under each job of the list.
  unfoldable pub set_job_infos : S → ℤ → JobInfo → List AnalyzeJob → Option S
  set_job_infos s id ji [] = some s
  set_job_infos s id ji (job ∷ jobs) =
      elim (v.state.set_job_info s
        (record { session_id = id; name_with_owner = job.spec.name_with_owner }) ji) [
          | none ↦ none
          | some s' ↦ set_job_infos s' id ji jobs
        ]

  unfoldable pub build_session_info_response_json :
      Environment → S → SessionInfo → Option (S × Fallible SubmitResponse)
  build_session_info_response_json env s si = elim (v.state.get_job_list s si.id) [
    | err e ↦ some (s, err e)
    | ok jobs ↦ do
      s' ← set_job_infos s si.id (job_info_of env.now si) jobs
      some (s', ok (submit_response env.now si))
  ]
