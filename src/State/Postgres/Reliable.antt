-- ===== src/State/Postgres/Reliable.antt =====
-- What PGState answers while its reads go through.
use mrvacommander.Prelude.{
  ℤ, Bool, Result-cases, inl, inr, Option, none, ok, err, ◌≡◌, refl, lookup, insert, Map, Bytes,
  ascii, lookup-insert, true, if◌then◌else◌, arith,
}
use mrvacommander.Common.Types.{NameWithOwner, JobSpec, job_spec_eq, job_spec_beq_iff}
use mrvacommander.Common.Api.{JobInfo}
use mrvacommander.Queue.Types.{AnalyzeJob, AnalyzeResult}
use mrvacommander.Common.Errors.{Fallible, context}
use mrvacommander.State.Postgres.Summaries.{summary_of_rows}
use mrvacommander.State.Laws.{Answers, written, SameLists, SameSpecs, SameSummaries}
use mrvacommander.State.Postgres.{
  PgState, Database, Statement, is_select, in_integer, one_row, select_status, select_result,
  select_info, select_statuses, select_jobs, select_repo,
}
use mrvacommander.State.Postgres.Reads.{
  get_result, get_job_info, get_status, get_session_status, get_job_list, get_job_spec_by_repo_id,
  decode_jobs, session_rows, order_rows, values, repo_with_id,
}
use mrvacommander.State.Postgres.Writes.{postgres_state}

-- Every read goes through.
abbrev pub Selects : {J : Type 0} → Database J → Type 0
Selects {J} db =
    (s : PgState J) (statement : Statement)
    → is_select statement ≡ true
    → db.fault s statement ≡ none

-- What is relied on of the database: a read goes through, with all its rows, and a document that
-- was written can be decoded. A value whose texts are valid UTF-8 is read back as it was; in
-- another one the bytes that are not are replaced.
pub record IsReliable {J : Type 0} (db : Database J) : Type 0 where
  pub selects : Selects db
  pub whole :
      (s : PgState J) (statement : Statement)
      → is_select statement ≡ true
      → db.cut s statement ≡ none
  pub valid_result : AnalyzeResult → Bool
  pub valid_info : JobInfo → Bool
  pub valid_job : AnalyzeJob → Bool
  pub results :
      (r : AnalyzeResult) (doc : J)
      → db.marshal_result r ≡ ok doc
      → (q : AnalyzeResult) × (db.unmarshal_result doc ≡ ok q) × (valid_result r ≡ true → q ≡ r)
  pub infos :
      (ji : JobInfo) (doc : J)
      → db.marshal_info ji ≡ ok doc
      → (q : JobInfo) × (db.unmarshal_info doc ≡ ok q) × (valid_info ji ≡ true → q ≡ ji)
  pub jobs :
      (job : AnalyzeJob) (doc : J)
      → db.marshal_job job ≡ ok doc
      → (q : AnalyzeJob) × (db.unmarshal_job doc ≡ ok q) × (valid_job job ≡ true → q ≡ job)

-- What a read of one row gives, once it goes through.
abbrev pub row_of : {J A : Type 0} → Database J → ℤ → Option A → Fallible A
row_of db id row = if in_integer id then one_row db row else err db.out_of_range

-- The document of a row, decoded.
abbrev pub decoded : {J A : Type 0} → Bytes → (J → Fallible A) → Fallible J → Fallible A
decoded text unmarshal (ok doc) = context text (unmarshal doc)
decoded text unmarshal (err e) = err e

abbrev pub found_spec : ℤ → Fallible NameWithOwner → Fallible JobSpec
found_spec session_id (ok nwo) = ok (record { session_id = session_id; name_with_owner = nwo })
found_spec session_id (err e) = err e

-- What a table of documents answers after a write of one that reads back.
pub decoded-insert :
    {J A : Type 0} (db : Database J) (text : Bytes) (unmarshal : J → Fallible A) (js j : JobSpec)
    (doc : J) (a : A) (table : Map JobSpec J)
    → in_integer js.session_id ≡ true
    → unmarshal doc ≡ ok a
    → decoded text unmarshal (row_of db j.session_id (lookup j (insert js doc table)))
      ≡ written (λ k. decoded text unmarshal (row_of db k.session_id (lookup k table))) js a j
decoded-insert db text unmarshal js j doc a table h e =
    ground (arith, lookup-insert js j doc table, job_spec_beq_iff js j)

module _ {J : Type 0} (db : Database J) (reliable : IsReliable db) where
  pub get_status_lem :
      (s : PgState J) (j : JobSpec)
      → get_status db s j ≡ row_of db j.session_id (lookup j s.job_status)
  unfolding get_status
  get_status_lem s j = ground (arith, reliable.selects s (select_status j) refl)

  pub get_result_lem :
      (s : PgState J) (j : JobSpec)
      → get_result db s j
        ≡ decoded
            (ascii "unmarshal AnalyzeResult")
            db.unmarshal_result
            (row_of db j.session_id (lookup j s.analyze_results))
  unfolding get_result
  get_result_lem s j = ground (arith, reliable.selects s (select_result j) refl)

  pub get_job_info_lem :
      (s : PgState J) (j : JobSpec)
      → get_job_info db s j
        ≡ decoded
            (ascii "unmarshal JobInfo")
            db.unmarshal_info
            (row_of db j.session_id (lookup j s.job_info))
  unfolding get_job_info
  get_job_info_lem s j = ground (arith, reliable.selects s (select_info j) refl)

  -- Where the three tables are as they were, so are the answers.
  pub same_tables :
      (s s' : PgState J)
      → s'.job_status ≡ s.job_status
      → s'.analyze_results ≡ s.analyze_results
      → s'.job_info ≡ s.job_info
      → Answers (postgres_state db) s' (get_status db s) (get_result db s) (get_job_info db s)
  same_tables s s' p q r = record {
    get_status = λ j. cc (get_status_lem s j, get_status_lem s' j);
    get_result = λ j. cc (get_result_lem s j, get_result_lem s' j);
    get_job_info = λ j. cc (get_job_info_lem s j, get_job_info_lem s' j);
  }

  pub get_session_status_lem :
      (s : PgState J) (id : ℤ)
      → get_session_status db s id ≡ (
          if in_integer id
          then ok (summary_of_rows (values (session_rows id s.job_status)))
          else err db.out_of_range)
  unfolding get_session_status
  get_session_status_lem s id = ground (
    arith,
    reliable.selects s (select_statuses id) refl,
    reliable.whole s (select_statuses id) refl,
  )

  pub get_job_list_lem :
      (s : PgState J) (id : ℤ)
      → get_job_list db s id ≡ (
          if in_integer id
          then decode_jobs db (values (order_rows db.before (session_rows id s.analyze_jobs)))
          else err db.out_of_range)
  unfolding get_job_list
  get_job_list_lem s id =
      let goes = reliable.selects s (select_jobs id) refl in
      let all = reliable.whole s (select_jobs id) refl in
      elim (Result-cases
        (decode_jobs db (values (order_rows db.before (session_rows id s.analyze_jobs))))) [
          | inl (jobs, e) ↦ ground arith
          | inr (x, e) ↦ ground arith
        ]

  pub get_job_spec_by_repo_id_lem :
      (s : PgState J) (session_id job_repo_id : ℤ)
      → get_job_spec_by_repo_id db s session_id job_repo_id
        ≡ found_spec session_id (row_of db job_repo_id (repo_with_id job_repo_id s.job_repo_map))
  unfolding get_job_spec_by_repo_id
  get_job_spec_by_repo_id_lem s session_id job_repo_id =
      ground (arith, reliable.selects s (select_repo job_repo_id) refl)

  -- Where a table is as it was, so is what is read from it.
  pub same_lists :
      (s s' : PgState J) → s'.analyze_jobs ≡ s.analyze_jobs → SameLists (postgres_state db) s s'
  same_lists s s' p id = rw (get_job_list_lem s id, get_job_list_lem s' id, p) refl

  pub same_specs :
      (s s' : PgState J) → s'.job_repo_map ≡ s.job_repo_map → SameSpecs (postgres_state db) s s'
  same_specs s s' p session_id id =
      rw
        (
          get_job_spec_by_repo_id_lem s session_id id,
          get_job_spec_by_repo_id_lem s' session_id id,
          p,
        )
        refl

  pub same_summaries :
      (s s' : PgState J) → s'.job_status ≡ s.job_status → SameSummaries (postgres_state db) s s'
  same_summaries s s' p id = rw (get_session_status_lem s id, get_session_status_lem s' id, p) refl
