-- ===== src/State/Postgres/Laws.antt =====
-- PGState answers as the interface demands, while its reads go through.
use mrvacommander.Prelude.{
  ℤ, int_beq, false, refl, some, ok, ◌≡◌, insert, ascii, Result-cases, inl, inr, lookup-insert,
  true, arith,
}
use mrvacommander.Common.Types.{JobSpec, job_spec_eq, job_spec_beq_iff, NameWithOwner, Status}
use mrvacommander.Common.Api.{JobInfo}
use mrvacommander.Queue.Types.{AnalyzeJob, AnalyzeResult}
use mrvacommander.State.Laws.{StateLaws, Answers, written, SameLists, SameSpecs, SameSummaries}
use mrvacommander.State.Postgres.{PgState, Database, in_integer}
use mrvacommander.State.Postgres.Reads.{get_result, get_job_info, get_status, get_job_list}
use mrvacommander.State.Postgres.Writes.{
  postgres_state, next_id, set_result, set_job_info, set_status, get_repo_id, add_job,
  add_job_steps, with_job,
}
use mrvacommander.State.Postgres.Jobs.{get_repo_id-analyze_jobs, session_rows-insert_absent}
use mrvacommander.State.Postgres.Reliable.{
  IsReliable, decoded-insert, get_status_lem, get_result_lem, get_job_info_lem, get_job_list_lem,
  same_tables, same_lists, same_specs, same_summaries,
}

module _ {J : Type 0} (db : Database J) (reliable : IsReliable db) where
  set_status_writes :
      (s s' : PgState J) (js : JobSpec) (x : Status)
      → set_status db s js x ≡ some s'
      → (in_integer js.session_id ≡ true)
        × (s' ≡ record s { job_status = insert js x s.job_status })
  unfolding set_status
  set_status_writes s s' js x e = ground arith

  pg_set_status :
      (s s' : PgState J) (js : JobSpec) (x : Status)
      → set_status db s js x ≡ some s'
      → Answers
          (postgres_state db)
          s'
          (written (get_status db s) js x)
          (get_result db s)
          (get_job_info db s)
  pg_set_status s s' js x e =
      let (h, same) = set_status_writes s s' js x e in
      record {
        get_status = λ j. ground (
          arith,
          lookup-insert js j x s.job_status,
          job_spec_beq_iff js j,
          get_status_lem db reliable s j,
          get_status_lem db reliable s' j,
        );
        get_result =
            λ j. ground (arith, get_result_lem db reliable s j, get_result_lem db reliable s' j);
        get_job_info = λ j.
            ground (arith, get_job_info_lem db reliable s j, get_job_info_lem db reliable s' j);
      }

  set_result_writes :
      (s s' : PgState J) (js : JobSpec) (r : AnalyzeResult)
      → r.spec ≡ js
      → set_result db s js r ≡ some s'
      → (doc : J) × (q : AnalyzeResult) × (in_integer js.session_id ≡ true)
        × (db.unmarshal_result doc ≡ ok q)
        × (reliable.valid_result r ≡ true → q ≡ r)
        × (s' ≡ record s { analyze_results = insert js doc s.analyze_results })
  unfolding set_result
  set_result_writes s s' js r named e = elim (Result-cases (db.marshal_result r)) [
    | inl (doc, m) ↦
        let (q, back, same) = reliable.results r doc m in
        (doc, q, ground arith, back, same, ground arith)
    | inr (x, m) ↦ absurd (ground arith)
  ]

  pg_set_result :
      (s s' : PgState J) (js : JobSpec) (r : AnalyzeResult)
      → r.spec ≡ js
      → set_result db s js r ≡ some s'
      → (q : AnalyzeResult) × (reliable.valid_result r ≡ true → q ≡ r)
        × Answers
            (postgres_state db)
            s'
            (get_status db s)
            (written (get_result db s) js q)
            (get_job_info db s)
  pg_set_result s s' js r named e =
      let (doc, q, h, back, kept, same) = set_result_writes s s' js r named e in
      (
        q,
        kept,
        record {
          get_status =
              λ j. ground (arith, get_status_lem db reliable s j, get_status_lem db reliable s' j);
          get_result = λ j. ground (
            arith,
            get_result_lem db reliable s j,
            get_result_lem db reliable s' j,
            decoded-insert db (ascii "unmarshal AnalyzeResult") db.unmarshal_result js j doc q
                s.analyze_results,
          );
          get_job_info = λ j.
              ground (arith, get_job_info_lem db reliable s j, get_job_info_lem db reliable s' j);
        },
      )

  set_job_info_writes :
      (s s' : PgState J) (js : JobSpec) (ji : JobInfo)
      → set_job_info db s js ji ≡ some s'
      → (doc : J) × (q : JobInfo) × (in_integer js.session_id ≡ true)
        × (db.unmarshal_info doc ≡ ok q)
        × (reliable.valid_info ji ≡ true → q ≡ ji)
        × (s' ≡ record s { job_info = insert js doc s.job_info })
  unfolding set_job_info
  set_job_info_writes s s' js ji e = elim (Result-cases (db.marshal_info ji)) [
    | inl (doc, m) ↦
        let (q, back, same) = reliable.infos ji doc m in
        (doc, q, ground arith, back, same, ground arith)
    | inr (x, m) ↦ absurd (ground arith)
  ]

  pg_set_job_info :
      (s s' : PgState J) (js : JobSpec) (ji : JobInfo)
      → set_job_info db s js ji ≡ some s'
      → (q : JobInfo) × (reliable.valid_info ji ≡ true → q ≡ ji)
        × Answers
            (postgres_state db)
            s'
            (get_status db s)
            (get_result db s)
            (written (get_job_info db s) js q)
  pg_set_job_info s s' js ji e =
      let (doc, q, h, back, kept, same) = set_job_info_writes s s' js ji e in
      (
        q,
        kept,
        record {
          get_status =
              λ j. ground (arith, get_status_lem db reliable s j, get_status_lem db reliable s' j);
          get_result =
              λ j. ground (arith, get_result_lem db reliable s j, get_result_lem db reliable s' j);
          get_job_info = λ j. ground (
            arith,
            get_job_info_lem db reliable s j,
            get_job_info_lem db reliable s' j,
            decoded-insert db (ascii "unmarshal JobInfo") db.unmarshal_info js j doc q s.job_info,
          );
        },
      )

  pg_next_id :
      (s s' : PgState J) (id : ℤ)
      → next_id db s ≡ some (s', id)
      → Answers (postgres_state db) s' (get_status db s) (get_result db s) (get_job_info db s)
  unfolding next_id
  pg_next_id s s' id e = same_tables db reliable s s' (ground arith) (ground arith) (ground arith)

  -- The tables that the answers are read from, after a repository id was taken.
  get_repo_id_keeps :
      (s s' : PgState J) (nwo : NameWithOwner) (id : ℤ)
      → get_repo_id db s nwo ≡ some (s', id)
      → (s'.job_status ≡ s.job_status)
        × (s'.analyze_results ≡ s.analyze_results)
        × (s'.job_info ≡ s.job_info)
  unfolding get_repo_id
  get_repo_id_keeps s s' nwo id e = (ground arith, ground arith, ground arith)

  pg_get_repo_id :
      (s s' : PgState J) (nwo : NameWithOwner) (id : ℤ)
      → get_repo_id db s nwo ≡ some (s', id)
      → Answers (postgres_state db) s' (get_status db s) (get_result db s) (get_job_info db s)
  pg_get_repo_id s s' nwo id e =
      let (p, q, r) = get_repo_id_keeps s s' nwo id e in same_tables db reliable s s' p q r

  pg_add_job :
      (s s' : PgState J) (job : AnalyzeJob)
      → add_job db s job ≡ some s'
      → Answers (postgres_state db) s' (get_status db s) (get_result db s) (get_job_info db s)
  pg_add_job s s' job e =
      let (doc, id, m, h, taken) = add_job_steps db s s' job e in
      let (p, q, r) = get_repo_id_keeps _ s' job.spec.name_with_owner id taken in
      same_tables db reliable s s' p q r

  -- The tables that the other answers are read from.
  pg_set_status_keeps :
      (s s' : PgState J) (js : JobSpec) (x : Status)
      → set_status db s js x ≡ some s'
      → SameLists (postgres_state db) s s' × SameSpecs (postgres_state db) s s'
  pg_set_status_keeps s s' js x e =
      let (h, same) = set_status_writes s s' js x e in
      (same_lists db reliable s s' (ground arith), same_specs db reliable s s' (ground arith))

  abbrev KeptAll : PgState J → PgState J → Type 0
  KeptAll s s' =
      SameLists (postgres_state db) s s'
      × SameSpecs (postgres_state db) s s'
      × SameSummaries (postgres_state db) s s'

  kept_all :
      (s s' : PgState J)
      → s'.analyze_jobs ≡ s.analyze_jobs
      → s'.job_repo_map ≡ s.job_repo_map
      → s'.job_status ≡ s.job_status
      → KeptAll s s'
  kept_all s s' p q r = (
    same_lists db reliable s s' p,
    same_specs db reliable s s' q,
    same_summaries db reliable s s' r,
  )

  pg_set_result_keeps :
      (s s' : PgState J) (js : JobSpec) (r : AnalyzeResult)
      → set_result db s js r ≡ some s'
      → KeptAll s s'
  unfolding set_result
  pg_set_result_keeps s s' js r e = kept_all s s' (ground arith) (ground arith) (ground arith)

  pg_set_job_info_keeps :
      (s s' : PgState J) (js : JobSpec) (ji : JobInfo)
      → set_job_info db s js ji ≡ some s'
      → KeptAll s s'
  unfolding set_job_info
  pg_set_job_info_keeps s s' js ji e = kept_all s s' (ground arith) (ground arith) (ground arith)

  pg_next_id_keeps :
      (s s' : PgState J) (id : ℤ)
      → next_id db s ≡ some (s', id)
      → SameSpecs (postgres_state db) s s' × SameSummaries (postgres_state db) s s'
  unfolding next_id
  pg_next_id_keeps s s' id e =
      (same_specs db reliable s s' (ground arith), same_summaries db reliable s s' (ground arith))

  pg_get_repo_id_keeps :
      (s s' : PgState J) (nwo : NameWithOwner) (id : ℤ)
      → get_repo_id db s nwo ≡ some (s', id)
      → SameLists (postgres_state db) s s' × SameSummaries (postgres_state db) s s'
  pg_get_repo_id_keeps s s' nwo id e =
      let (p, q, r) = get_repo_id_keeps s s' nwo id e in
      (
        same_lists db reliable s s' (get_repo_id-analyze_jobs db s s' nwo id e),
        same_summaries db reliable s s' p,
      )

  pg_add_job_keeps :
      (s s' : PgState J) (job : AnalyzeJob)
      → add_job db s job ≡ some s'
      → SameSummaries (postgres_state db) s s'
        × ((id : ℤ)
            → int_beq job.spec.session_id id ≡ false
            → get_job_list db s' id ≡ get_job_list db s id)
  pg_add_job_keeps s s' job e =
      let (doc, n, m, h, taken) = add_job_steps db s s' job e in
      let (p, q, r) = get_repo_id_keeps _ s' job.spec.name_with_owner n taken in
      let table =
        get_repo_id-analyze_jobs db (with_job s job doc) s' job.spec.name_with_owner n taken in
      (
        same_summaries db reliable s s' p,
        λ id other.
            rw
              (
                get_job_list_lem db reliable s id,
                get_job_list_lem db reliable s' id,
                table,
                session_rows-insert_absent id job doc s.analyze_jobs,
                other,
              )
              refl,
      )

  pub postgres_state-StateLaws : StateLaws (postgres_state db)
  postgres_state-StateLaws = record {
    storable_result = reliable.valid_result;
    storable_info = reliable.valid_info;
    set_status_keeps = pg_set_status_keeps;
    set_result_keeps = pg_set_result_keeps;
    set_job_info_keeps = pg_set_job_info_keeps;
    add_job_keeps = pg_add_job_keeps;
    next_id_keeps = pg_next_id_keeps;
    get_repo_id_keeps = pg_get_repo_id_keeps;
    set_status = pg_set_status;
    set_result = pg_set_result;
    set_job_info = pg_set_job_info;
    add_job = pg_add_job;
    next_id = pg_next_id;
    get_repo_id = pg_get_repo_id;
  }
