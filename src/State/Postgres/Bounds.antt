-- ===== src/State/Postgres/Bounds.antt =====
-- Numbers in the tables fit into the 32 bits of their columns.
use mrvacommander.Prelude.{ℤ, true, [], ◌∷◌, Map, insert, some, ok, err, ◌≡◌, All, refl, arith}
use mrvacommander.Common.Types.{JobSpec, job_spec_eq, NameWithOwner, Status}
use mrvacommander.Queue.Types.{AnalyzeJob, AnalyzeResult}
use mrvacommander.Common.Api.{JobInfo}
use mrvacommander.Common.Errors.{Fallible}
use mrvacommander.State.Postgres.{PgState, Database, in_integer, empty_tables}
use mrvacommander.State.Postgres.Writes.{
  next_id, set_result, set_job_info, set_status, get_repo_id, add_job_steps, insert_absent,
  with_job,
}
use mrvacommander.State.Postgres.Calls.{Call, Calls}

abbrev KeysFit : {V : Type 0} → Map JobSpec V → Type 0
KeysFit {V} = All (λ (row : JobSpec × V). in_integer row.0.session_id ≡ true)

-- Every session id that stands in a table is a 32-bit number, and so is every status.
pub record Fits {J : Type 0} (s : PgState J) : Type 0 where
  pub results : KeysFit s.analyze_results
  pub jobs : KeysFit s.analyze_jobs
  pub infos : KeysFit s.job_info
  pub statuses : KeysFit s.job_status
  pub status_values : All (λ (row : JobSpec × Status). in_integer row.1 ≡ true) s.job_status

KeysFit-insert :
    {V : Type 0} (js : JobSpec) (v : V) (table : Map JobSpec V)
    → in_integer js.session_id ≡ true
    → KeysFit table
    → KeysFit (insert js v table)
unfolding insert
KeysFit-insert js v [] h all = (h, tt)
KeysFit-insert js v ((k, w) ∷ table) h all = ground (arith, KeysFit-insert js v table h all.1)

values-insert :
    (js : JobSpec) (x : Status) (table : Map JobSpec Status)
    → in_integer x ≡ true
    → All (λ (row : JobSpec × Status). in_integer row.1 ≡ true) table
    → All (λ (row : JobSpec × Status). in_integer row.1 ≡ true) (insert js x table)
unfolding insert
values-insert js x [] h all = (h, tt)
values-insert js x ((k, w) ∷ table) h all = ground (arith, values-insert js x table h all.1)

KeysFit-insert_absent :
    {J : Type 0} (js : JobSpec) (doc : J) (table : Map JobSpec J)
    → in_integer js.session_id ≡ true
    → KeysFit table
    → KeysFit (insert_absent js doc table)
unfolding insert_absent
KeysFit-insert_absent js doc table h all = ground (arith, KeysFit-insert js doc table h all)

empty_tables-Fits : {J : Type 0} → Fits {J = J} empty_tables
empty_tables-Fits = record {
  results = tt;
  jobs = tt;
  infos = tt;
  statuses = tt;
  status_values = tt;
}

same_Fits :
    {J : Type 0} (s s' : PgState J)
    → s'.analyze_results ≡ s.analyze_results
    → s'.analyze_jobs ≡ s.analyze_jobs
    → s'.job_info ≡ s.job_info
    → s'.job_status ≡ s.job_status
    → Fits s
    → Fits s'
same_Fits s s' p q r t f = record {
  results = rw p f.results;
  jobs = rw q f.jobs;
  infos = rw r f.infos;
  statuses = rw t f.statuses;
  status_values = rw t f.status_values;
}

module _ {J : Type 0} (db : Database J) where
  get_repo_id-Fits :
      (s s' : PgState J) (nwo : NameWithOwner) (id : ℤ)
      → get_repo_id db s nwo ≡ some (s', id)
      → Fits s
      → Fits s'
  unfolding get_repo_id
  get_repo_id-Fits s s' nwo id e f =
      same_Fits s s' (ground arith) (ground arith) (ground arith) (ground arith) f

  set_result-Fits :
      (s s' : PgState J) (js : JobSpec) (r : AnalyzeResult) (o : Fallible J)
      → db.marshal_result (record r { spec = js }) ≡ o
      → set_result db s js r ≡ some s'
      → Fits s
      → Fits s'
  unfolding set_result
  set_result-Fits s s' js r (err x) m e f = absurd (ground arith)
  set_result-Fits s s' js r (ok doc) m e f = record {
    results = ground (arith, KeysFit-insert js doc s.analyze_results, f.results);
    jobs = ground (arith, f.jobs);
    infos = ground (arith, f.infos);
    statuses = ground (arith, f.statuses);
    status_values = ground (arith, f.status_values);
  }

  set_job_info-Fits :
      (s s' : PgState J) (js : JobSpec) (ji : JobInfo) (o : Fallible J)
      → db.marshal_info ji ≡ o
      → set_job_info db s js ji ≡ some s'
      → Fits s
      → Fits s'
  unfolding set_job_info
  set_job_info-Fits s s' js ji (err x) m e f = absurd (ground arith)
  set_job_info-Fits s s' js ji (ok doc) m e f = record {
    results = ground (arith, f.results);
    jobs = ground (arith, f.jobs);
    infos = ground (arith, KeysFit-insert js doc s.job_info, f.infos);
    statuses = ground (arith, f.statuses);
    status_values = ground (arith, f.status_values);
  }

  set_status-Fits :
      (s s' : PgState J) (js : JobSpec) (x : Status)
      → set_status db s js x ≡ some s'
      → Fits s
      → Fits s'
  unfolding set_status
  set_status-Fits s s' js x e f = record {
    results = ground (arith, f.results);
    jobs = ground (arith, f.jobs);
    infos = ground (arith, f.infos);
    statuses = ground (arith, KeysFit-insert js x s.job_status, f.statuses);
    status_values = ground (arith, values-insert js x s.job_status, f.status_values);
  }

  with_job-Fits :
      (s : PgState J) (job : AnalyzeJob) (doc : J)
      → in_integer job.spec.session_id ≡ true
      → Fits s
      → Fits (with_job s job doc)
  with_job-Fits s job doc h f = record {
    results = f.results;
    jobs = KeysFit-insert_absent job.spec doc s.analyze_jobs h f.jobs;
    infos = f.infos;
    statuses = f.statuses;
    status_values = f.status_values;
  }

  Call-Fits : (s s' : PgState J) → Call db s s' → Fits s → Fits s'
  unfolding next_id
  Call-Fits s s' (Call.issued id e) f =
      same_Fits s s' (ground arith) (ground arith) (ground arith) (ground arith) f
  Call-Fits s s' (Call.result_set js r e) f = set_result-Fits s s' js r _ refl e f
  Call-Fits s s' (Call.info_set js ji e) f = set_job_info-Fits s s' js ji _ refl e f
  Call-Fits s s' (Call.status_set js x e) f = set_status-Fits s s' js x e f
  Call-Fits s s' (Call.repo_taken nwo id e) f = get_repo_id-Fits s s' nwo id e f
  Call-Fits s s' (Call.job_added job e) f =
      let (doc, id, m, h, taken) = add_job_steps db s s' job e in
      get_repo_id-Fits _ s' _ id taken (with_job-Fits s job doc h f)

  Calls-Fits_from : (s s' : PgState J) → Calls db s s' → Fits s → Fits s'
  Calls-Fits_from s s' Calls.here f = f
  Calls-Fits_from s s' (Calls.next {t = t} calls call) f =
      Call-Fits t s' call (Calls-Fits_from s t calls f)

  -- After any method calls on new tables, every session id and every status in them fits into 32
  -- bits.
  pub Calls-Fits : (s : PgState J) → Calls db empty_tables s → Fits s
  Calls-Fits s calls = Calls-Fits_from empty_tables s calls empty_tables-Fits
