-- ===== src/State/Postgres/Writes.antt =====
-- The methods of PGState that write, and the interface that it implements. A method that panics
-- gives `none`.
use mrvacommander.Prelude.{
  inr, Option-cases, inl, Result-cases, arith, true, ◌≡◌, ℕ, ◌+◌, ℤ, pos, [], ◌∷◌, Map, lookup,
  insert, Option, none, some, ok, err, leb, if◌then◌else◌, ◌>>=◌,
}
use mrvacommander.Common.Types.{JobSpec, job_spec_eq, NameWithOwner, nwo_eq, Status}
use mrvacommander.Common.Errors.{Fallible}
use mrvacommander.Common.Api.{JobInfo}
use mrvacommander.Queue.Types.{AnalyzeJob, AnalyzeResult}
use mrvacommander.State.Interface.{ServerState}
use mrvacommander.State.Postgres.{
  PgState, Database, exec, in_integer, max_serial, max_bigint, nextval, begin, commit, put_result,
  put_info, put_status, put_job, put_repo,
}
use mrvacommander.State.Postgres.Reads.{
  get_result, get_job_info, get_status, get_session_status, get_job_list, get_job_spec_by_repo_id,
}

-- `if err != nil { panic(…) }`
abbrev pub or_panic : {A : Type 0} → Fallible A → Option A
or_panic (ok a) = some a
or_panic (err e) = none

-- `INSERT … ON CONFLICT DO NOTHING`
unfoldable pub insert_absent : {J : Type 0} → JobSpec → J → Map JobSpec J → Map JobSpec J
insert_absent js doc table = elim (lookup js table) [ none ↦ insert js doc table | some _ ↦ table ]

-- The tables with the document of a job, if there is none for its specification yet.
abbrev pub with_job : {J : Type 0} → PgState J → AnalyzeJob → J → PgState J
with_job s job doc = record s { analyze_jobs = insert_absent job.spec doc s.analyze_jobs }

-- The row of a repository, which is made with the number drawn where there is none.
abbrev pub repo_row : {J : Type 0} → PgState J → NameWithOwner → ℕ → Option ℕ → PgState J × ℤ
repo_row s nwo n (some id) = (record s { job_repo_id_seq = n }, pos id)
repo_row s nwo n none =
    (record s { job_repo_id_seq = n; job_repo_map = insert nwo n s.job_repo_map }, pos n)

module _ {J : Type 0} (db : Database J) where
  -- `nextval` of a sequence of 64 bits, which ends with an error.
  unfoldable pub next_id : PgState J → Option (PgState J × ℤ)
  next_id s = do
    _ ← or_panic (exec db s nextval [])
    let id = s.session_id_seq + 1
    if leb id max_bigint then some (record s { session_id_seq = id }, pos id) else none

  unfoldable pub set_result : PgState J → JobSpec → AnalyzeResult → Option (PgState J)
  set_result s js ar = do
    doc ← or_panic (db.marshal_result (record ar { spec = js }))
    _ ← or_panic (exec db s (put_result js) (js.session_id ∷ []))
    some (record s { analyze_results = insert js doc s.analyze_results })

  unfoldable pub set_job_info : PgState J → JobSpec → JobInfo → Option (PgState J)
  set_job_info s js ji = do
    doc ← or_panic (db.marshal_info ji)
    _ ← or_panic (exec db s (put_info js) (js.session_id ∷ []))
    some (record s { job_info = insert js doc s.job_info })

  unfoldable pub set_status : PgState J → JobSpec → Status → Option (PgState J)
  set_status s js status = do
    _ ← or_panic (exec db s (put_status js) (js.session_id ∷ status ∷ []))
    some (record s { job_status = insert js status s.job_status })

  -- The default of the SERIAL column draws a number whether or not there is a conflict.
  unfoldable pub get_repo_id : PgState J → NameWithOwner → Option (PgState J × ℤ)
  get_repo_id s nwo = do
    _ ← or_panic (exec db s (put_repo nwo) [])
    let n = s.job_repo_id_seq + 1
    if leb n max_serial then some (repo_row s nwo n (lookup nwo s.job_repo_map)) else none

  -- The repository id is taken on another connection than that of the transaction.
  unfoldable pub add_job : PgState J → AnalyzeJob → Option (PgState J)
  unfolding insert_absent get_repo_id
  add_job s job = do
    _ ← or_panic (exec db s begin [])
    doc ← or_panic (db.marshal_job job)
    _ ← or_panic (exec db s (put_job job.spec) (job.spec.session_id ∷ []))
    r ← get_repo_id (with_job s job doc) job.spec.name_with_owner
    _ ← or_panic (exec db r.0 commit [])
    some r.0

  abbrev pub postgres_state : ServerState (PgState J)
  postgres_state = record {
    next_id = next_id;
    get_result = get_result db;
    get_job_spec_by_repo_id = get_job_spec_by_repo_id db;
    get_repo_id = get_repo_id;
    set_result = set_result;
    get_job_list = get_job_list db;
    get_job_info = get_job_info db;
    set_job_info = set_job_info;
    get_status = get_status db;
    get_session_status = get_session_status db;
    set_status = set_status;
    add_job = add_job;
  }

  -- The parts of an `AddJob` that went through: the job's document, and the repository id.
  pub add_job_steps :
      (s s' : PgState J) (job : AnalyzeJob)
      → add_job s job ≡ some s'
      → (doc : J) × (id : ℤ) × (db.marshal_job job ≡ ok doc)
        × (in_integer job.spec.session_id ≡ true)
        × (get_repo_id (with_job s job doc) job.spec.name_with_owner ≡ some (s', id))
  unfolding add_job
  add_job_steps s s' job e = elim (Result-cases (db.marshal_job job)) [
    | inl (doc, m) ↦
        elim (Option-cases (get_repo_id (with_job s job doc) job.spec.name_with_owner)) [
          | inl taken ↦ absurd (ground arith)
          | inr ((t, id), taken) ↦ (doc, id, m, ground arith, ground arith)
        ]
    | inr (x, m) ↦ absurd (ground arith)
  ]
