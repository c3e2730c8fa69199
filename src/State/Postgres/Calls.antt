-- ===== src/State/Postgres/Calls.antt =====
-- Sequences of calls of the methods that change the tables.
use mrvacommander.Prelude.{ℤ, some, ◌≡◌}
use mrvacommander.Common.Types.{JobSpec, NameWithOwner, nwo_eq, Status}
use mrvacommander.Common.Api.{JobInfo}
use mrvacommander.Queue.Types.{AnalyzeJob, AnalyzeResult}
use mrvacommander.State.Postgres.{PgState, Database}
use mrvacommander.State.Postgres.Writes.{
  next_id, set_result, set_job_info, set_status, get_repo_id, add_job,
}

-- A method call that changes the tables.
pub data Call {J : Type 0} (db : Database J) (s s' : PgState J) : Type 0 where
  issued : (id : ℤ) → next_id db s ≡ some (s', id) → Call db s s'
  result_set : (js : JobSpec) (r : AnalyzeResult) → set_result db s js r ≡ some s' → Call db s s'
  info_set : (js : JobSpec) (ji : JobInfo) → set_job_info db s js ji ≡ some s' → Call db s s'
  status_set : (js : JobSpec) (x : Status) → set_status db s js x ≡ some s' → Call db s s'
  repo_taken : (nwo : NameWithOwner) (id : ℤ) → get_repo_id db s nwo ≡ some (s', id) → Call db s s'
  job_added : (job : AnalyzeJob) → add_job db s job ≡ some s' → Call db s s'

pub data Calls {J : Type 0} (db : Database J) (s : PgState J) : PgState J → Type 0 where
  here : Calls db s s
  next : {t u : PgState J} → Calls db s t → Call db t u → Calls db s u
