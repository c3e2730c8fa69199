-- ===== src/State/Interface.antt =====
-- pkg/state/interfaces.go
use mrvacommander.Prelude.{ℤ, Option, List}
use mrvacommander.Common.Types.{JobSpec, NameWithOwner, Status, StatusSummary}
use mrvacommander.Common.Errors.{Fallible}
use mrvacommander.Common.Api.{JobInfo}
use mrvacommander.Queue.Types.{AnalyzeJob, AnalyzeResult}

-- The interface `ServerState`, over the state `S` of an implementation. A method that changes the
-- state returns the state that it leaves, and `none` where it panics.
pub record ServerState (S : Type 0) : Type 0 where
  pub next_id : S → Option (S × ℤ)
  pub get_result : S → JobSpec → Fallible AnalyzeResult
  pub get_job_spec_by_repo_id : S → ℤ → ℤ → Fallible JobSpec
  pub get_repo_id : S → NameWithOwner → Option (S × ℤ)
  pub set_result : S → JobSpec → AnalyzeResult → Option S
  pub get_job_list : S → ℤ → Fallible (List AnalyzeJob)
  pub get_job_info : S → JobSpec → Fallible JobInfo
  pub set_job_info : S → JobSpec → JobInfo → Option S
  pub get_status : S → JobSpec → Fallible Status
  pub get_session_status : S → ℤ → Fallible StatusSummary
  pub set_status : S → JobSpec → Status → Option S
  pub add_job : S → AnalyzeJob → Option S
