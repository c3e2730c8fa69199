-- ===== src/Server/Submit/Skipped.antt =====
-- The counts of the repositories that a submission skips.
use mrvacommander.Prelude.{Bytes, pos, ◌≡◌, ◌↔◌, length, length-map, arith}
use mrvacommander.Common.Api.{SkippedRepositories}
use mrvacommander.Server.Types.{SessionInfo}
use mrvacommander.Server.Status.{full_name}
use mrvacommander.Server.Submit.Respond.{
  skipped_repositories, dummy_repository, nwo_to_nwo_string_array, nwo_to_dummy_repository_array,
}

-- Each count is the length of the list beside it.
pub record CountsAgree (s : SkippedRepositories) : Type 0 where
  pub access_mismatch :
      s.access_mismatch_repos.repository_count ≡ pos (length s.access_mismatch_repos.repositories)
  pub not_found :
      s.not_found_repos.repository_count ≡ pos (length s.not_found_repos.repository_full_names)
  pub no_codeql_db :
      s.no_codeql_db_repos.repository_count ≡ pos (length s.no_codeql_db_repos.repositories)
  pub over_limit :
      s.over_limit_repos.repository_count ≡ pos (length s.over_limit_repos.repositories)

-- The counts of a session's answer agree with its lists exactly when as many repositories are
-- mismatched, and as many are without a database, as are not found.
pub skipped_repositories-CountsAgree :
    (now : Bytes) (si : SessionInfo)
    → CountsAgree (skipped_repositories now si) ↔ (
        (length si.access_mismatch_repos ≡ length si.not_found_repos)
        × (length si.no_codeql_db_repos ≡ length si.not_found_repos))
unfolding skipped_repositories nwo_to_nwo_string_array nwo_to_dummy_repository_array
skipped_repositories-CountsAgree now si =
    let a = length-map si.access_mismatch_repos (dummy_repository now) in
    let b = length-map si.not_found_repos full_name in
    let d = length-map si.no_codeql_db_repos (dummy_repository now) in
    (
      (λ h. ground (arith, h.access_mismatch, h.no_codeql_db)),
      (λ h. record {
        access_mismatch = ground arith;
        not_found = ground arith;
        no_codeql_db = ground arith;
        over_limit = ground arith;
      }),
    )
