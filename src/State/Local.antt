-- ===== src/State/Local.antt =====
-- pkg/state/state_local.go. The mutex makes each method one step on the state; a method that
-- panics gives `none`.
pub mod Invariant
pub mod Jobs
pub mod Laws
use mrvacommander.Prelude.{
  ◌+◌, ℤ, pos, int_beq, increment, int_eq, lookup, insert, Map, List, [], ◌∷◌, ◌++◌, Option, none,
  some, ok, err, length, if◌then◌else◌, nat_beq,
}
use mrvacommander.Common.Types.{JobSpec, job_spec_eq, Status, StatusSummary, NameWithOwner}
use mrvacommander.Common.Errors.{
  Error, Fallible, result_not_found, job_info_not_found, status_not_found, job_ids_not_found,
  job_spec_not_found, job_list_not_found, no_jobs_found,
}
use mrvacommander.Common.Api.{JobInfo}
use mrvacommander.Queue.Types.{AnalyzeJob, AnalyzeResult}
use mrvacommander.State.Interface.{ServerState}
use mrvacommander.State.Summary.{summarize}

pub record LocalState : Type 0 where
  pub jobs : Map ℤ (List AnalyzeJob)
  pub info : Map JobSpec JobInfo
  pub status : Map JobSpec Status
  pub result : Map JobSpec AnalyzeResult
  pub session_to_job_id_to_spec : Map ℤ (Map ℤ JobSpec)
  pub current_id : ℤ

unfoldable pub new_local_state : ℤ → LocalState
new_local_state starting_id = record {
  jobs = (starting_id, []) ∷ [];
  info = [];
  status = [];
  result = [];
  session_to_job_id_to_spec = (starting_id, []) ∷ [];
  current_id = starting_id;
}

unfoldable pub next_id : LocalState → LocalState × ℤ
next_id s =
    let id = increment s.current_id in
    (record s { current_id = id; jobs = insert id [] s.jobs }, id)

abbrev or_error : {A : Type 0} → Error → Option A → Fallible A
or_error e none = err e
or_error e (some a) = ok a

unfoldable pub get_result : LocalState → JobSpec → Fallible AnalyzeResult
get_result s js = or_error (result_not_found js) (lookup js s.result)

-- A job id is looked up in the table of its session.
abbrev pub spec_in : ℤ → ℤ → Option (Map ℤ JobSpec) → Fallible JobSpec
spec_in session_id job_repo_id none = err (job_ids_not_found session_id)
spec_in session_id job_repo_id (some id_to_spec) =
    or_error (job_spec_not_found job_repo_id) (lookup job_repo_id id_to_spec)

unfoldable pub get_job_spec_by_repo_id : LocalState → ℤ → ℤ → Fallible JobSpec
get_job_spec_by_repo_id s session_id job_repo_id =
    spec_in session_id job_repo_id (lookup session_id s.session_to_job_id_to_spec)

unfoldable pub set_result : LocalState → JobSpec → AnalyzeResult → LocalState
set_result s js r = record s { result = insert js r s.result }

unfoldable pub get_job_list : LocalState → ℤ → Fallible (List AnalyzeJob)
get_job_list s id = or_error (job_list_not_found id) (lookup id s.jobs)

unfoldable pub get_job_info : LocalState → JobSpec → Fallible JobInfo
get_job_info s js = or_error (job_info_not_found js) (lookup js s.info)

unfoldable pub set_job_info : LocalState → JobSpec → JobInfo → LocalState
set_job_info s js ji = record s { info = insert js ji s.info }

unfoldable pub get_status : LocalState → JobSpec → Fallible Status
get_status s js = or_error (status_not_found js) (lookup js s.status)

-- The statuses of the jobs of a session: the entries that the loop over `s.status` counts.
unfoldable pub session_rows : ℤ → Map JobSpec Status → List Status
session_rows id [] = []
session_rows id ((js, st) ∷ m) =
    let rows = session_rows id m in if int_beq js.session_id id then st ∷ rows else rows

abbrev pub summary_of : ℤ → List Status → Fallible StatusSummary
summary_of id [] = err (no_jobs_found id)
summary_of id (r ∷ rows) = ok (summarize (r ∷ rows))

unfoldable pub get_session_status : LocalState → ℤ → Fallible StatusSummary
unfolding session_rows
get_session_status s id = summary_of id (session_rows id s.status)

unfoldable pub set_status : LocalState → JobSpec → Status → LocalState
set_status s js st = record s { status = insert js st s.status }

-- A read of a missing key: `nil`, which `append`, `len` and a range take for empty.
abbrev pub or_empty : {A : Type 0} → Option (List A) → List A
or_empty none = []
or_empty (some xs) = xs

abbrev pub jobs_of : LocalState → ℤ → List AnalyzeJob
jobs_of s id = or_empty (lookup id s.jobs)

abbrev pub ids_of : LocalState → ℤ → Map ℤ JobSpec
ids_of s id = or_empty (lookup id s.session_to_job_id_to_spec)

-- The job takes the next free job id of its session; the two tables must stay equally long.
unfoldable pub add_job : LocalState → AnalyzeJob → Option LocalState
add_job s job =
    let id = job.spec.session_id in
    let jobs' = jobs_of s id ++ job ∷ [] in
    let ids = ids_of s id in
    let ids' = insert (pos (length ids)) job.spec ids in
    if nat_beq (length jobs') (length ids')
    then some (record s {
      jobs = insert id jobs' s.jobs;
      session_to_job_id_to_spec = insert id ids' s.session_to_job_id_to_spec;
    })
    else none

-- The state as an implementation of the interface, once `GetRepoId`, which this type does not
-- have, is given.
abbrev pub local_server_state : (NameWithOwner → ℤ) → ServerState LocalState
local_server_state repo_id = record {
  next_id = λ s. some (next_id s);
  get_result = get_result;
  get_job_spec_by_repo_id = get_job_spec_by_repo_id;
  get_repo_id = λ s nwo. some (s, repo_id nwo);
  set_result = λ s js r. some (set_result s js r);
  get_job_list = get_job_list;
  get_job_info = get_job_info;
  set_job_info = λ s js ji. some (set_job_info s js ji);
  get_status = get_status;
  get_session_status = get_session_status;
  set_status = λ s js st. some (set_status s js st);
  add_job = add_job;
}
