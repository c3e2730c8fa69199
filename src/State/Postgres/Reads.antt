-- ===== src/State/Postgres/Reads.antt =====
-- The methods of PGState that only read.
use mrvacommander.Prelude.{
  ℕ, ℤ, int_beq, Bool, List, [], ◌∷◌, Map, lookup, Option, none, some, ok, err, take, if◌then◌else◌,
}
use mrvacommander.Prelude.Chain.{◌>>=◌, ◌>>◌}
use mrvacommander.Common.Types.{JobSpec, job_spec_eq, NameWithOwner, Status, StatusSummary}
use mrvacommander.Common.Errors.{Error, Fallible, context}
use mrvacommander.Common.Api.{JobInfo}
use mrvacommander.Queue.Types.{AnalyzeJob, AnalyzeResult}
use mrvacommander.State.Postgres.Summaries.{summary_of_rows}
use mrvacommander.State.Postgres.{
  PgState, Database, exec, one_row, select_result, select_info, select_status, select_statuses,
  select_jobs, select_repo,
}
use mrvacommander.Prelude.{ascii, pos}

-- The rows of a table `WHERE session_id = $1`, with their keys.
unfoldable pub session_rows : {V : Type 0} → ℤ → Map JobSpec V → Map JobSpec V
session_rows id [] = []
session_rows id ((js, v) ∷ table) =
    let rows = session_rows id table in if int_beq js.session_id id then (js, v) ∷ rows else rows

unfoldable pub values : {K V : Type 0} → Map K V → List V
values [] = []
values ((k, v) ∷ rows) = v ∷ values rows

-- `ORDER BY owner, repo`, by insertion.
unfoldable pub insert_row :
    {V : Type 0}
    → (NameWithOwner → NameWithOwner → Bool)
    → JobSpec × V
    → Map JobSpec V
    → Map JobSpec V
insert_row before row [] = row ∷ []
insert_row before (js, v) ((k, w) ∷ rows) =
    if before k.name_with_owner js.name_with_owner
    then (k, w) ∷ insert_row before (js, v) rows
    else (js, v) ∷ (k, w) ∷ rows

unfoldable pub order_rows :
    {V : Type 0} → (NameWithOwner → NameWithOwner → Bool) → Map JobSpec V → Map JobSpec V
order_rows before [] = []
order_rows before (row ∷ rows) = insert_row before row (order_rows before rows)

-- The rows that `rows.Next` delivers, and what `rows.Err` says afterwards.
abbrev pub delivered : {A : Type 0} → Option (ℕ × Error) → List A → List A
delivered none rows = rows
delivered (some (n, e)) rows = take n rows

abbrev pub rows_err : Option (ℕ × Error) → Fallible (Unit {0})
rows_err none = ok tt
rows_err (some (n, e)) = err e

-- The row of a repository id in job_repo_map.
unfoldable pub repo_with_id : ℤ → Map NameWithOwner ℕ → Option NameWithOwner
repo_with_id id [] = none
repo_with_id id ((nwo, n) ∷ table) =
    let rest = repo_with_id id table in if int_beq (pos n) id then some nwo else rest

module _ {J : Type 0} (db : Database J) where
  unfoldable pub get_result : PgState J → JobSpec → Fallible AnalyzeResult
  get_result s js = do
    exec db s (select_result js) (js.session_id ∷ [])
    doc ← one_row db (lookup js s.analyze_results)
    context (ascii "unmarshal AnalyzeResult") (db.unmarshal_result doc)

  unfoldable pub get_job_info : PgState J → JobSpec → Fallible JobInfo
  get_job_info s js = do
    exec db s (select_info js) (js.session_id ∷ [])
    doc ← one_row db (lookup js s.job_info)
    context (ascii "unmarshal JobInfo") (db.unmarshal_info doc)

  unfoldable pub get_status : PgState J → JobSpec → Fallible Status
  get_status s js = do
    exec db s (select_status js) (js.session_id ∷ [])
    one_row db (lookup js s.job_status)

  -- The loop over the rows ends where they do, and `rows.Err` is not asked.
  unfoldable pub get_session_status : PgState J → ℤ → Fallible StatusSummary
  unfolding session_rows values
  get_session_status s id = do
    exec db s (select_statuses id) (id ∷ [])
    let rows = values (session_rows id s.job_status)
    ok (summary_of_rows (delivered (db.cut s (select_statuses id)) rows))

  unfoldable pub decode_jobs : List J → Fallible (List AnalyzeJob)
  decode_jobs [] = ok []
  decode_jobs (doc ∷ docs) = do job ← db.unmarshal_job doc; jobs ← decode_jobs docs; ok (job ∷ jobs)

  unfoldable pub get_job_list : PgState J → ℤ → Fallible (List AnalyzeJob)
  unfolding session_rows values order_rows insert_row
  get_job_list s id = do
    exec db s (select_jobs id) (id ∷ [])
    let rows = values (order_rows db.before (session_rows id s.analyze_jobs))
    jobs ← decode_jobs (delivered (db.cut s (select_jobs id)) rows)
    rows_err (db.cut s (select_jobs id))
    ok jobs

  -- The session is not looked at: it becomes part of the answer.
  unfoldable pub get_job_spec_by_repo_id : PgState J → ℤ → ℤ → Fallible JobSpec
  unfolding repo_with_id
  get_job_spec_by_repo_id s session_id job_repo_id = do
    exec db s (select_repo job_repo_id) (job_repo_id ∷ [])
    nwo ← one_row db (repo_with_id job_repo_id s.job_repo_map)
    ok (record { session_id = session_id; name_with_owner = nwo })
