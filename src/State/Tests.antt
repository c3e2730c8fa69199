-- ===== src/State/Tests.antt =====
-- Runs of the state in memory, and each theorem about it at a concrete state.
use mrvacommander.Prelude.{
  ℤ, pos, ascii, List, [], ◌∷◌, ◌++◌, some, ok, ◌≡◌, ◌≢◌, ◌↔◌, ◌<ℤ◌, ◌≤ℤ◌, refl, arith, get_elem?,
  lookup, insert, int_beq, increment,
}
use mrvacommander.Common.Types.{JobSpec, Status, status_succeeded, status_failed, status_timed_out}
use mrvacommander.ArtifactStore.Types.{no_location}
use mrvacommander.Queue.Types.{AnalyzeJob}
use mrvacommander.State.Summary.{count_at, tally, overall, summarize}
use mrvacommander.State.Summary.Rules.{Verdict, summarize-Verdict}
use mrvacommander.State.Local.{
  LocalState, new_local_state, next_id, add_job, jobs_of, ids_of, get_job_spec_by_repo_id,
}
use mrvacommander.State.Local.Invariant.{
  Inv, spec_of, new_local_state-Inv, next_id-Inv, add_job-Inv,
}
use mrvacommander.State.Local.Jobs.{Reach, get_job_spec_by_repo_id-jobs}

abbrev spec : JobSpec
spec = record {
  session_id = pos 1;
  name_with_owner = record { owner = ascii "psycopg"; repo = ascii "psycopg2" };
}

abbrev job : AnalyzeJob
job = record { spec = spec; query_pack_location = no_location; query_language = ascii "python" }

abbrev start : LocalState
start = new_local_state (pos 0)

abbrev mixed_rows : List Status
mixed_rows = status_failed ∷ status_timed_out ∷ []

-- Jobs that failed in two ways make a session that succeeded.
mixed_failures : (summarize mixed_rows).overall ≡ status_succeeded
unfolding summarize tally overall count_at lookup insert int_beq
mixed_failures = refl

summarize-Verdict_example : Verdict mixed_rows (summarize mixed_rows).overall
summarize-Verdict_example = summarize-Verdict mixed_rows (cc)

issued_id :
    Inv (next_id start).0
    × (start.current_id <ℤ (next_id start).1)
    × (jobs_of (next_id start).0 (next_id start).1 ≡ [])
    × (ids_of (next_id start).0 (next_id start).1 ≡ [])
issued_id = next_id-Inv start (new_local_state-Inv (pos 0)) (unfold new_local_state in omega arith)

abbrev first : LocalState
first = (next_id start).0

first-Inv : Inv first
first-Inv =
    (next_id-Inv start (new_local_state-Inv (pos 0)) (unfold new_local_state in omega arith)).0

first-Reach : Reach (pos 0) first
first-Reach = Reach.issued Reach.created (unfold new_local_state in omega arith)

add_job-Inv_example :
    (s' : LocalState) × (add_job first job ≡ some s')
    × Inv s'
    × (jobs_of s' (pos 1) ≡ jobs_of first (pos 1) ++ job ∷ [])
    × ((other : ℤ) → other ≢ pos 1 → jobs_of s' other ≡ jobs_of first other)
    × (s'.current_id ≡ first.current_id)
unfolding next_id new_local_state increment
add_job-Inv_example = add_job-Inv first first-Inv job (omega arith)

-- The state with the job in it.
abbrev with_job : LocalState
with_job = record first {
  jobs = (pos 0, []) ∷ (pos 1, job ∷ []) ∷ [];
  session_to_job_id_to_spec = (pos 0, []) ∷ (pos 1, (pos 0, spec) ∷ []) ∷ [];
}

in_first : job.spec.session_id ≤ℤ first.current_id
unfolding next_id new_local_state increment
in_first = omega arith

added : add_job first job ≡ some with_job
unfolding add_job next_id new_local_state increment lookup insert int_beq
added = refl

get_job_spec_by_repo_id-jobs_example :
    (get_job_spec_by_repo_id with_job (pos 1) (pos 0) ≡ ok spec)
    ↔ (spec_of (get_elem? (jobs_of with_job (pos 1)) 0) ≡ some spec)
get_job_spec_by_repo_id-jobs_example =
    get_job_spec_by_repo_id-jobs (Reach.added first-Reach job in_first added) (pos 1) 0 spec
