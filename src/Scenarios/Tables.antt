-- ===== src/Scenarios/Tables.antt =====
-- PGState on a small database that keeps its documents as they are.
use mrvacommander.Prelude.{
  ◌^◌, ◌+◌, ◌<◌, ◌++◌, ◌⊎◌, ℕ, ℤ, pos, ascii, bytes_beq, int_beq, lookup, insert, true, List, [],
  Option, none, some, ok, err, ◌≡◌, ◌↔◌, refl, arith,
}
use mrvacommander.Common.Types.{
  NameWithOwner, nwo_beq, job_spec_beq, status_succeeded, status_failed,
}
use mrvacommander.Common.Errors.{Fallible, message as text}
use mrvacommander.Common.Api.{JobInfo}
use mrvacommander.ArtifactStore.Types.{no_location}
use mrvacommander.Queue.Types.{AnalyzeJob, AnalyzeResult}
use mrvacommander.Server.Status.{none_skipped}
use mrvacommander.State.Local as Local
use mrvacommander.State.Local.{new_local_state, set_status}
use mrvacommander.State.Postgres.{PgState, Database, empty_tables, max_serial}
use mrvacommander.State.Postgres.Reads.{
  get_job_list, get_session_status, get_job_spec_by_repo_id, decode_jobs,
}
use mrvacommander.State.Postgres.Writes.{
  get_repo_id, add_job, insert_absent, next_id, set_result, set_job_info,
}
use mrvacommander.State.Postgres.Writes as Writes
use mrvacommander.State.Postgres.Calls.{Calls, here, next, job_added, repo_taken}
use mrvacommander.State.Postgres.Reliable.{IsReliable}
use mrvacommander.State.Postgres.Repos.Unique.{
  get_repo_id_unique, get_repo_id-get_job_spec_by_repo_id,
}
use mrvacommander.State.Postgres.Jobs.{Listed, Keeps, add_job-get_job_list}
use mrvacommander.State.Postgres.Sessions.{get_session_status-local, or_succeeded}
use mrvacommander.State.Postgres.Overflow.{next_id-Overflow}
use mrvacommander.State.Postgres.Connections.{
  Stage, waiting_calls, left_all, Step, now, begins, here as no_steps, next as step, Run,
}
use mrvacommander.State.Postgres.Connections.Progress.{run_length, fewer_calls_finish}
use mrvacommander.State.Postgres.Connections.Deadlock.{begun_calls, calls_deadlock}

pub data Doc : Type 0 where
  result_doc : AnalyzeResult → Doc
  info_doc : JobInfo → Doc
  job_doc : AnalyzeJob → Doc

abbrev pub wrong : {A : Type 0} → Fallible A
wrong = err (text (ascii "json: cannot unmarshal object"))

abbrev pub database : Database Doc
database = record {
  marshal_result = λ r. ok (result_doc r);
  unmarshal_result =
      λ doc. elim doc [ result_doc r ↦ ok r | info_doc i ↦ wrong | job_doc j ↦ wrong ];
  marshal_info = λ i. ok (info_doc i);
  unmarshal_info = λ doc. elim doc [ info_doc i ↦ ok i | result_doc r ↦ wrong | job_doc j ↦ wrong ];
  marshal_job = λ j. ok (job_doc j);
  unmarshal_job = λ doc. elim doc [ job_doc j ↦ ok j | result_doc r ↦ wrong | info_doc i ↦ wrong ];
  fault = λ s statement. none;
  cut = λ s statement. none;
  no_rows = text (ascii "no rows in result set");
  out_of_range = text (ascii "out of range for int4");
  before = λ a b. true;
}

pub reliable : IsReliable database
reliable = record {
  selects = λ s statement e. refl;
  whole = λ s statement e. refl;
  valid_result = λ r. true;
  valid_info = λ i. true;
  valid_job = λ j. true;
  results = λ r doc e. (r, ground arith, λ _. refl);
  infos = λ i doc e. (i, ground arith, λ _. refl);
  jobs = λ j doc e. (j, ground arith, λ _. refl);
}

abbrev pub gopher : NameWithOwner
gopher = record { owner = ascii "golang"; repo = ascii "go" }

abbrev crab : NameWithOwner
crab = record { owner = ascii "rust-lang"; repo = ascii "rust" }

abbrev pub job_of : NameWithOwner → AnalyzeJob
job_of nwo = record {
  spec = record { session_id = pos 1; name_with_owner = nwo };
  query_pack_location = no_location;
  query_language = ascii "go";
}

abbrev or_start : Option (PgState Doc) → PgState Doc
or_start none = empty_tables
or_start (some s) = s

abbrev or_start_with : Option (PgState Doc × ℤ) → PgState Doc × ℤ
or_start_with none = (empty_tables, pos 0)
or_start_with (some r) = r

abbrev with_gopher : PgState Doc × ℤ
unfolding get_repo_id lookup
with_gopher = or_start_with (get_repo_id database empty_tables gopher)

abbrev with_job : PgState Doc
unfolding add_job insert_absent get_repo_id lookup insert job_spec_beq nwo_beq bytes_beq int_beq
with_job = or_start (add_job database with_gopher.0 (job_of gopher))

abbrev with_crab : PgState Doc × ℤ
unfolding get_repo_id lookup insert nwo_beq bytes_beq
with_crab = or_start_with (get_repo_id database with_job crab)

got_gopher : get_repo_id database empty_tables gopher ≡ some with_gopher
unfolding get_repo_id with_gopher
got_gopher = refl

added_job : add_job database with_gopher.0 (job_of gopher) ≡ some with_job
unfolding add_job with_gopher with_job
added_job = refl

got_crab : get_repo_id database with_job crab ≡ some with_crab
unfolding get_repo_id with_job with_crab
got_crab = refl

between : Calls database with_gopher.0 with_job
between = next here (job_added (job_of gopher) added_job)

get_repo_id_unique_example : (with_gopher.1 ≡ with_crab.1) ↔ (gopher ≡ crab)
get_repo_id_unique_example =
    get_repo_id_unique database empty_tables with_gopher.0 with_job with_crab.0 gopher crab
      with_gopher.1 with_crab.1 here got_gopher between got_crab

get_repo_id-get_job_spec_by_repo_id_example :
    get_job_spec_by_repo_id database with_job (pos 7) with_gopher.1
    ≡ ok (record { session_id = pos 7; name_with_owner = gopher })
get_repo_id-get_job_spec_by_repo_id_example =
    get_repo_id-get_job_spec_by_repo_id database empty_tables with_gopher.0 with_job gopher
      with_gopher.1 (pos 7) (λ s statement e. refl) here got_gopher between

empty_list : get_job_list database with_gopher.0 (pos 1) ≡ ok []
unfolding get_job_list with_gopher decode_jobs
empty_list = refl

add_job-get_job_list_example :
    (l : Listed database reliable with_gopher.0 (job_of gopher) (pos 1) [] with_job) × Keeps
      database reliable with_crab.0
      (pos 1)
      l.jobs'
add_job-get_job_list_example =
    add_job-get_job_list database reliable with_gopher.0 with_job with_crab.0 (job_of gopher)
      (pos 1) [] empty_list added_job (next here (repo_taken crab with_crab.1 got_crab))

abbrev one_done : Local.LocalState
unfolding set_status insert
one_done = set_status (new_local_state (pos 0)) (job_of gopher).spec status_succeeded

get_session_status-local_example :
    get_session_status database (record empty_tables { job_status = one_done.status }) (pos 1)
    ≡ or_succeeded (Local.get_session_status one_done (pos 1))
get_session_status-local_example =
    get_session_status-local database (record empty_tables { job_status = one_done.status })
      one_done (pos 1) reliable refl refl

abbrev exhausted : PgState Doc
exhausted = record empty_tables { session_id_seq = max_serial }

abbrev beyond : PgState Doc × ℤ
beyond = (record empty_tables { session_id_seq = 2 ^ 31 }, pos (2 ^ 31))

issued_beyond : next_id database exhausted ≡ some beyond
unfolding next_id
issued_beyond = refl

abbrev late_job : AnalyzeJob
late_job = record (job_of gopher) {
  spec = record { session_id = pos (2 ^ 31); name_with_owner = gopher };
}

abbrev late_result : AnalyzeResult
late_result = record {
  spec = late_job.spec;
  status = status_failed;
  result_count = pos 0;
  result_location = no_location;
  source_location_prefix = [];
  database_sha = [];
}

abbrev late_info : JobInfo
late_info = record {
  query_language = ascii "go";
  created_at = [];
  updated_at = [];
  skipped_repositories = none_skipped;
}

next_id-Overflow_example :
    (add_job database beyond.0 late_job ≡ none)
    × (Writes.set_status database beyond.0 late_job.spec status_failed ≡ none)
    × (set_result database beyond.0 late_job.spec late_result ≡ none)
    × (set_job_info database beyond.0 late_job.spec late_info ≡ none)
next_id-Overflow_example =
    next_id-Overflow database exhausted beyond.0 beyond.1 late_job status_failed late_result
      late_info (omega arith) issued_beyond refl

one_begun : Run 10 (waiting_calls 1) 9 (begun_calls 1 [])
one_begun = step no_steps (now (begins 9))

fewer_calls_finish_example :
    (run_length one_begun + left_all (begun_calls 1 []) ≡ 4)
    × ((left_all (begun_calls 1 []) ≡ 0)
        ⊎ ((j : ℕ) × (calls : List Stage) × Step 9 (begun_calls 1 []) j calls))
fewer_calls_finish_example = fewer_calls_finish {n = 1} (omega arith) one_begun

calls_deadlock_example :
    Run 10 (waiting_calls 10 ++ waiting_calls 2) 0 (begun_calls 10 (waiting_calls 2))
    × (0 < left_all (begun_calls 10 (waiting_calls 2)))
    × ((j : ℕ) (d : List Stage) → ¬ Step 0 (begun_calls 10 (waiting_calls 2)) j d)
calls_deadlock_example = calls_deadlock 10 2 (omega arith)
