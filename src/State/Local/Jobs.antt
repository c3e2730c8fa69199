-- ===== src/State/Local/Jobs.antt =====
-- Every state that the methods can reach, and the table of job ids in it.
use mrvacommander.Prelude.{
  ℕ, ℤ, pos, ◌≤ℤ◌, ◌<ℤ◌, max_int, Option, none, some, ok, ◌≡◌, ◌≢◌, ◌↔◌, get_elem?, lookup, Map,
  int_eq, arith,
}
use mathlib.Core.Path.{subst}
use mrvacommander.Common.Types.{JobSpec, Status}
use mrvacommander.Common.Api.{JobInfo}
use mrvacommander.Queue.Types.{AnalyzeJob, AnalyzeResult}
use mrvacommander.State.Local.{
  LocalState, new_local_state, next_id, set_status, set_result, set_job_info, add_job, jobs_of,
  get_job_spec_by_repo_id, spec_in, or_empty,
}
use mrvacommander.State.Local.Invariant.{
  Inv, spec_of, new_local_state-Inv, next_id-Inv, add_job-Inv,
}

-- The calls of the server: jobs are added to sessions that `NextID` has handed out.
pub data Reach (start : ℤ) : LocalState → Type 0 where
  created : Reach start (new_local_state start)
  issued : {s : LocalState} → Reach start s → s.current_id <ℤ max_int → Reach start (next_id s).0
  status_set :
      {s : LocalState}
      → Reach start s
      → (js : JobSpec) (x : Status) → Reach start (set_status s js x)
  result_set :
      {s : LocalState}
      → Reach start s
      → (js : JobSpec) (r : AnalyzeResult) → Reach start (set_result s js r)
  info_set :
      {s : LocalState}
      → Reach start s
      → (js : JobSpec) (ji : JobInfo) → Reach start (set_job_info s js ji)
  added :
      {s s' : LocalState}
      → Reach start s
      → (job : AnalyzeJob) → job.spec.session_id ≤ℤ s.current_id
      → add_job s job ≡ some s'
      → Reach start s'

set_status-Inv : (s : LocalState) (js : JobSpec) (x : Status) → Inv s → Inv (set_status s js x)
unfolding set_status
set_status-Inv s js x v = record { aligned = v.aligned; unused = v.unused }

set_result-Inv :
    (s : LocalState) (js : JobSpec) (x : AnalyzeResult) → Inv s → Inv (set_result s js x)
unfolding set_result
set_result-Inv s js x v = record { aligned = v.aligned; unused = v.unused }

set_job_info-Inv : (s : LocalState) (js : JobSpec) (x : JobInfo) → Inv s → Inv (set_job_info s js x)
unfolding set_job_info
set_job_info-Inv s js x v = record { aligned = v.aligned; unused = v.unused }

add_job_some-Inv :
    (s s' : LocalState) (job : AnalyzeJob)
    → Inv s
    → job.spec.session_id ≤ℤ s.current_id
    → add_job s job ≡ some s'
    → Inv s'
add_job_some-Inv s s' job v h e =
    let (t, f, w, last, others, current) = add_job-Inv s v job h in
    let same : t ≡ s' = cc in subst Inv same w

pub Reach-Inv : {start : ℤ} {s : LocalState} → Reach start s → Inv s
Reach-Inv {start} created = new_local_state-Inv start
Reach-Inv (issued {s = s} r h) = (next_id-Inv s (Reach-Inv r) h).0
Reach-Inv (status_set {s = s} r js x) = set_status-Inv s js x (Reach-Inv r)
Reach-Inv (result_set {s = s} r js x) = set_result-Inv s js x (Reach-Inv r)
Reach-Inv (info_set {s = s} r js x) = set_job_info-Inv s js x (Reach-Inv r)
Reach-Inv (added {s = s} {s' = s'} r job h e) = add_job_some-Inv s s' job (Reach-Inv r) h e

-- In every state that calls can reach, adding a job to a session that was handed out does not
-- panic.
pub Reach-add_job :
    {start : ℤ} {s : LocalState}
    → Reach start s
    → (job : AnalyzeJob) → job.spec.session_id ≤ℤ s.current_id
    → add_job s job ≢ none
Reach-add_job {s = s} r job h e =
    let (t, f, w, last, others, current) = add_job-Inv s (Reach-Inv r) job h in cc

spec_in-lookup :
    (o : Option (Map ℤ JobSpec)) (id i : ℤ) (js : JobSpec)
    → (spec_in id i o ≡ ok js) ↔ (lookup i (or_empty o) ≡ some js)
unfolding lookup
spec_in-lookup none id i js = ground arith
spec_in-lookup (some m) id i js = ground arith

-- In every state that calls can reach, job id `i` of a session names the job that was added to it
-- as number `i`, from 0.
pub get_job_spec_by_repo_id-jobs :
    {start : ℤ} {s : LocalState}
    → Reach start s
    → (id : ℤ) (i : ℕ) (js : JobSpec)
    → (get_job_spec_by_repo_id s id (pos i) ≡ ok js)
      ↔ (spec_of (get_elem? (jobs_of s id) i) ≡ some js)
unfolding get_job_spec_by_repo_id
get_job_spec_by_repo_id-jobs {s = s} r id i js =
    rw (← ((Reach-Inv r).aligned id).numbered i)
      (spec_in-lookup (lookup id s.session_to_job_id_to_spec) id (pos i) js)
