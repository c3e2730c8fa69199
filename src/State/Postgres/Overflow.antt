-- ===== src/State/Postgres/Overflow.antt =====
-- Session ids beyond the 32 bits of their columns.
use mathlib.Core.Path.{ap, ◌∙◌}
use mrvacommander.Prelude.{
  ◌≤◌, ℤ, false, none, some, ok, err, Option-cases, inl, inr, ◌≡◌, refl, arith,
}
use mrvacommander.Common.Types.{JobSpec, job_spec_eq, Status}
use mrvacommander.Queue.Types.{AnalyzeJob, AnalyzeResult}
use mrvacommander.Common.Api.{JobInfo}
use mrvacommander.Common.Errors.{Fallible}
use mrvacommander.State.Postgres.{PgState, Database, in_integer, max_serial}
use mrvacommander.State.Postgres.Writes.{
  next_id, set_result, set_job_info, set_status, add_job, add_job_steps,
}

module _ {J : Type 0} (db : Database J) where
  next_id_out :
      (s s' : PgState J) (id : ℤ)
      → max_serial ≤ s.session_id_seq
      → next_id db s ≡ some (s', id)
      → in_integer id ≡ false
  unfolding next_id
  next_id_out s s' id h e = ground arith

  add_job_out :
      (s : PgState J) (job : AnalyzeJob)
      → in_integer job.spec.session_id ≡ false
      → add_job db s job ≡ none
  add_job_out s job out = elim (Option-cases (add_job db s job)) [
    | inl panics ↦ panics
    | inr (s', e) ↦ let (doc, id, m, h, taken) = add_job_steps db s s' job e in cc
  ]

  set_status_out :
      (s : PgState J) (js : JobSpec) (x : Status)
      → in_integer js.session_id ≡ false
      → set_status db s js x ≡ none
  unfolding set_status
  set_status_out s js x out = ground arith

  set_result_out :
      (s : PgState J) (js : JobSpec) (r : AnalyzeResult) (o : Fallible J)
      → db.marshal_result (record r { spec = js }) ≡ o
      → in_integer js.session_id ≡ false
      → set_result db s js r ≡ none
  unfolding set_result
  set_result_out s js r (err x) m out = ground arith
  set_result_out s js r (ok doc) m out = ground arith

  set_job_info_out :
      (s : PgState J) (js : JobSpec) (ji : JobInfo) (o : Fallible J)
      → db.marshal_info ji ≡ o
      → in_integer js.session_id ≡ false
      → set_job_info db s js ji ≡ none
  unfolding set_job_info
  set_job_info_out s js ji (err x) m out = ground arith
  set_job_info_out s js ji (ok doc) m out = ground arith

  -- The sequence of session ids has 64 bits: once it has passed the 32 bits of the columns, each
  -- session that it issues is one to which no job can be added, nor a status, a result or an info.
  pub next_id-Overflow :
      (s s' : PgState J) (id : ℤ) (job : AnalyzeJob) (x : Status) (r : AnalyzeResult) (ji : JobInfo)
      → max_serial ≤ s.session_id_seq
      → next_id db s ≡ some (s', id)
      → job.spec.session_id ≡ id
      → (add_job db s' job ≡ none)
        × (set_status db s' job.spec x ≡ none)
        × (set_result db s' job.spec r ≡ none)
        × (set_job_info db s' job.spec ji ≡ none)
  next_id-Overflow s s' id job x r ji h e own =
      let out : in_integer job.spec.session_id ≡ false =
        ap in_integer own ∙ next_id_out s s' id h e in
      (
        add_job_out s' job out,
        set_status_out s' job.spec x out,
        set_result_out s' job.spec r _ refl out,
        set_job_info_out s' job.spec ji _ refl out,
      )
