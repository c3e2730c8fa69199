-- ===== src/State/Postgres/Jobs.antt =====
-- The job list of a session: what `AddJob` adds to it.
use mathlib.Core.Path.{◌∙◌, sym}
use mathlib.Core.List.{Perm}
use mathlib.Core.List.Perm
use mrvacommander.Prelude.{
  ℤ, int_beq, Bool, true, false, ◌&&◌, List, [], ◌∷◌, ◌++◌, Map, lookup, insert, none, some, ok,
  ◌≡◌, Bool-cases, inl, inr, if◌then◌else◌, arith,
}
use mrvacommander.Common.Types.{JobSpec, job_spec_eq, NameWithOwner}
use mrvacommander.Queue.Types.{AnalyzeJob}
use mrvacommander.State.Postgres.{PgState, Database, in_integer}
use mrvacommander.State.Postgres.Reliable.{IsReliable, get_job_list_lem, same_lists}
use mrvacommander.State.Postgres.Reads.{get_job_list, decode_jobs, session_rows, order_rows, values}
use mrvacommander.State.Postgres.Writes.{
  next_id, set_result, set_job_info, set_status, add_job, add_job_steps, insert_absent, get_repo_id,
  with_job,
}
use mrvacommander.State.Postgres.Calls.{
  Call, issued, result_set, info_set, status_set, repo_taken, job_added, Calls, here, next,
}
use mrvacommander.State.Postgres.Rows.{order_rows-Adds}

session_rows-insert :
    {J : Type 0} (id : ℤ) (js : JobSpec) (doc : J) (table : Map JobSpec J)
    → lookup js table ≡ none
    → session_rows id (insert js doc table) ≡ (
        if int_beq js.session_id id
        then session_rows id table ++ (js, doc) ∷ []
        else session_rows id table)
unfolding session_rows lookup insert
session_rows-insert id js doc [] absent = ground arith
session_rows-insert id js doc ((k, w) ∷ table) absent =
    ground (arith, session_rows-insert id js doc table)

-- Whether a job is of a session, and the first for its repository there.
abbrev pub is_new : {J : Type 0} → ℤ → AnalyzeJob → Map JobSpec J → Bool
is_new id job table =
    int_beq job.spec.session_id id && elim (lookup job.spec table) [ none ↦ true | some _ ↦ false ]

pub session_rows-insert_absent :
    {J : Type 0} (id : ℤ) (job : AnalyzeJob) (doc : J) (table : Map JobSpec J)
    → session_rows id (insert_absent job.spec doc table) ≡ (
        if is_new id job table
        then session_rows id table ++ (job.spec, doc) ∷ []
        else session_rows id table)
unfolding insert_absent
session_rows-insert_absent id job doc table =
    ground (arith, session_rows-insert id job.spec doc table)

module _ {J : Type 0} (db : Database J) where
  pub get_repo_id-analyze_jobs :
      (s s' : PgState J) (nwo : NameWithOwner) (id : ℤ)
      → get_repo_id db s nwo ≡ some (s', id)
      → s'.analyze_jobs ≡ s.analyze_jobs
  unfolding get_repo_id
  get_repo_id-analyze_jobs s s' nwo id e = ground arith

module _ {J : Type 0} (db : Database J) (reliable : IsReliable db) where
  -- The list after a row for a job was added, or not.
  listed :
      (added : Bool) (job : AnalyzeJob) (doc : J) (js : JobSpec) (rows : Map JobSpec J)
      (jobs : List AnalyzeJob)
      → db.unmarshal_job doc ≡ ok job
      → decode_jobs db (values (order_rows db.before rows)) ≡ ok jobs
      → (jobs' : List AnalyzeJob) × (decode_jobs db
            (values (order_rows db.before (if added then rows ++ (js, doc) ∷ [] else rows)))
          ≡ ok jobs')
        × Perm jobs' (if added then job ∷ jobs else jobs)
  listed true job doc js rows jobs good e = order_rows-Adds db db.before js doc job good rows jobs e
  listed false job doc js rows jobs good e = (jobs, e, Perm.refl jobs)

  fits :
      (s : PgState J) (id : ℤ) (jobs : List AnalyzeJob)
      → get_job_list db s id ≡ ok jobs
      → in_integer id ≡ true
  fits s id jobs e = elim (Bool-cases (in_integer id)) [
    | inl h ↦ h
    | inr h ↦ absurd (ground (arith, h, get_job_list_lem db reliable s id))
  ]

  -- The list of a session after `AddJob`.
  pub record Listed (s : PgState J) (job : AnalyzeJob) (id : ℤ) (jobs : List AnalyzeJob)
      (s' : PgState J) : Type 0 where
    pub stored : AnalyzeJob
    pub as_it_was : reliable.valid_job job ≡ true → stored ≡ job
    pub jobs' : List AnalyzeJob
    pub answer : get_job_list db s' id ≡ ok jobs'
    pub adds : Perm jobs' (if is_new id job s.analyze_jobs then stored ∷ jobs else jobs)

  add_job-Listed :
      (s s' : PgState J) (job : AnalyzeJob) (id : ℤ) (jobs : List AnalyzeJob)
      → get_job_list db s id ≡ ok jobs
      → add_job db s job ≡ some s'
      → Listed s job id jobs s'
  add_job-Listed s s' job id jobs e added =
      let (doc, n, m, fit, taken) = add_job_steps db s s' job added in
      let (q, back, as_it_was) = reliable.jobs job doc m in
      let h = fits s id jobs e in
      let table =
        get_repo_id-analyze_jobs db (with_job s job doc) s' job.spec.name_with_owner n taken in
      let rows : decode_jobs db (values (order_rows db.before (session_rows id s.analyze_jobs)))
          ≡ ok jobs =
        rw h at (sym (get_job_list_lem db reliable s id) ∙ e) in
      let (jobs', decoded, p) =
        listed (is_new id job s.analyze_jobs) q doc job.spec (session_rows id s.analyze_jobs) jobs
          back rows in
      record {
        stored = q;
        as_it_was = as_it_was;
        jobs' = jobs';
        answer =
            rw
              (
                get_job_list_lem db reliable s' id,
                h,
                table,
                session_rows-insert_absent id job doc s.analyze_jobs,
              )
              decoded;
        adds = p;
      }

  -- A list that has kept the jobs.
  abbrev pub Keeps : PgState J → ℤ → List AnalyzeJob → Type 0
  Keeps u id jobs =
      (jobs' : List AnalyzeJob) × (more : List AnalyzeJob) × (get_job_list db u id ≡ ok jobs')
      × Perm jobs' (more ++ jobs)

  Keeps-same :
      (t u : PgState J) (id : ℤ) (jobs : List AnalyzeJob)
      → u.analyze_jobs ≡ t.analyze_jobs
      → Keeps t id jobs
      → Keeps u id jobs
  Keeps-same t u id jobs same (jobs', more, e, p) =
      (jobs', more, same_lists db reliable t u same id ∙ e, p)

  Keeps-add :
      (t u : PgState J) (job : AnalyzeJob) (id : ℤ) (jobs jobs' more : List AnalyzeJob)
      → Perm jobs' (more ++ jobs)
      → Listed t job id jobs' u
      → Keeps u id jobs
  Keeps-add t u job id jobs jobs' more p l =
      let a = l.adds in
      elim (Bool-cases (is_new id job t.analyze_jobs)) [
        | inl new ↦
            (l.jobs', l.stored ∷ more, l.answer, Perm.trans (rw new at a) (Perm.cons l.stored p))
        | inr old ↦ (l.jobs', more, l.answer, Perm.trans (rw old at a) p)
      ]

  Call-Keeps :
      (t u : PgState J) (id : ℤ) (jobs : List AnalyzeJob)
      → Call db t u
      → Keeps t id jobs
      → Keeps u id jobs
  unfolding next_id set_result set_job_info set_status
  Call-Keeps t u id jobs (issued i e) k = Keeps-same t u id jobs (ground arith) k
  Call-Keeps t u id jobs (result_set js r e) k = Keeps-same t u id jobs (ground arith) k
  Call-Keeps t u id jobs (info_set js ji e) k = Keeps-same t u id jobs (ground arith) k
  Call-Keeps t u id jobs (status_set js x e) k = Keeps-same t u id jobs (ground arith) k
  Call-Keeps t u id jobs (repo_taken nwo i e) k =
      Keeps-same t u id jobs (get_repo_id-analyze_jobs db t u nwo i e) k
  Call-Keeps t u id jobs (job_added job e) (jobs', more, listed', p) =
      Keeps-add t u job id jobs jobs' more p (add_job-Listed t u job id jobs' listed' e)

  Calls-Keeps :
      (s u : PgState J) (id : ℤ) (jobs : List AnalyzeJob)
      → Calls db s u
      → get_job_list db s id ≡ ok jobs
      → Keeps u id jobs
  Calls-Keeps s u id jobs here e = (jobs, [], e, Perm.refl jobs)
  Calls-Keeps s u id jobs (next {t} calls call) e =
      Call-Keeps t u id jobs call (Calls-Keeps s t id jobs calls e)

  -- Where reads go through, with all their rows, and documents can be decoded: once AddJob has gone
  -- through, each job list that could be read before can be read, and holds the jobs that it held
  -- and, if the list is that of the job's session and there was no job for the same repository, one
  -- more, which is the job itself if its texts are valid. Whatever calls of the methods follow, all
  -- of these stay in the list, as often as they are there.
  pub add_job-get_job_list :
      (s s' u : PgState J) (job : AnalyzeJob) (id : ℤ) (jobs : List AnalyzeJob)
      → get_job_list db s id ≡ ok jobs
      → add_job db s job ≡ some s'
      → Calls db s' u
      → (l : Listed s job id jobs s') × Keeps u id l.jobs'
  add_job-get_job_list s s' u job id jobs e added later =
      let l = add_job-Listed s s' job id jobs e added in
      (l, Calls-Keeps s' u id l.jobs' later l.answer)
