-- ===== src/Common/Api.antt =====
-- pkg/common/extapi.go: the messages that the server reads and writes.
pub mod Accounts
pub use Accounts.{Actor, no_actor, ControllerRepo, no_controller_repo, DownloadRepo}
unfoldable pub use Accounts.{download_repo}
use mrvacommander.Prelude.{Bytes, ℤ, Bool, List}

pub record Repository : Type 0 where
  pub id : ℤ
  pub name : Bytes
  pub full_name : Bytes
  pub private : Bool
  pub stargazers_count : ℤ
  pub updated_at : Bytes

pub record AccessMismatchRepos : Type 0 where
  pub repository_count : ℤ
  pub repositories : List Repository

pub record NotFoundRepos : Type 0 where
  pub repository_count : ℤ
  pub repository_full_names : List Bytes

pub record NoCodeqlDbRepos : Type 0 where
  pub repository_count : ℤ
  pub repositories : List Repository

pub record OverLimitRepos : Type 0 where
  pub repository_count : ℤ
  pub repositories : List Repository

pub record SkippedRepositories : Type 0 where
  pub access_mismatch_repos : AccessMismatchRepos
  pub not_found_repos : NotFoundRepos
  pub no_codeql_db_repos : NoCodeqlDbRepos
  pub over_limit_repos : OverLimitRepos

pub record JobInfo : Type 0 where
  pub query_language : Bytes
  pub created_at : Bytes
  pub updated_at : Bytes
  pub skipped_repositories : SkippedRepositories

pub record ScannedRepo : Type 0 where
  pub repository : Repository
  pub analysis_status : Bytes
  pub result_count : ℤ
  pub artifact_size_in_bytes : ℤ

pub record StatusResponse : Type 0 where
  pub session_id : ℤ
  pub controller_repo : ControllerRepo
  pub actor : Actor
  pub query_language : Bytes
  pub query_pack_url : Bytes
  pub created_at : Bytes
  pub updated_at : Bytes
  pub actions_workflow_run_id : ℤ
  pub status : Bytes
  pub scanned_repositories : List ScannedRepo
  pub skipped_repositories : SkippedRepositories

pub record DownloadResponse : Type 0 where
  pub repository : DownloadRepo
  pub analysis_status : Bytes
  pub result_count : ℤ
  pub artifact_size_in_bytes : ℤ
  pub database_commit_sha : Bytes
  pub source_location_prefix : Bytes
  pub artifact_url : Bytes

pub record SubmitResponse : Type 0 where
  pub id : ℤ
  pub controller_repo : ControllerRepo
  pub actor : Actor
  pub query_language : Bytes
  pub query_pack_url : Bytes
  pub created_at : Bytes
  pub updated_at : Bytes
  pub status : Bytes
  pub skipped_repositories : SkippedRepositories

pub record SubmitMsg : Type 0 where
  pub action_repo_ref : Bytes
  pub language : Bytes
  pub query_pack : Bytes
  pub repositories : List Bytes
