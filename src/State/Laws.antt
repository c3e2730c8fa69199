-- ===== src/State/Laws.antt =====
-- What the server relies on of an implementation of `ServerState`: what each method that changes
-- the state makes of the answers of the methods that read it. A result is only ever stored for the
-- job that it names.
use mrvacommander.Prelude.{
  ℤ, int_beq, Bool, true, false, some, ok, ◌≡◌, ◌≢◌, sym, ◌∙◌, ◌==◌, if◌then◌else◌, Bool-cases, inl,
  inr,
}
use mrvacommander.Common.Types.{JobSpec, NameWithOwner, job_spec_eq, Status, status_succeeded}
use mrvacommander.Common.Errors.{Fallible}
use mrvacommander.Common.Api.{JobInfo}
use mrvacommander.Queue.Types.{AnalyzeJob, AnalyzeResult}
use mrvacommander.State.Interface.{ServerState}

-- A read after a write to a table.
abbrev pub written : {A : Type 0} → (JobSpec → Fallible A) → JobSpec → A → JobSpec → Fallible A
written f js a j = if js == j then ok a else f j

-- What the three tables of a state answer.
pub record Answers {S : Type 0} (st : ServerState S) (s : S) (status : JobSpec → Fallible Status)
    (result : JobSpec → Fallible AnalyzeResult) (info : JobSpec → Fallible JobInfo) : Type 0 where
  pub get_status : (j : JobSpec) → st.get_status s j ≡ status j
  pub get_result : (j : JobSpec) → st.get_result s j ≡ result j
  pub get_job_info : (j : JobSpec) → st.get_job_info s j ≡ info j

-- What stays as it was: the job lists of the sessions, the jobs that are found by an id, and the
-- summaries of the sessions.
abbrev pub SameLists : {S : Type 0} → ServerState S → S → S → Type 0
SameLists st s s' = (id : ℤ) → st.get_job_list s' id ≡ st.get_job_list s id

abbrev pub SameSpecs : {S : Type 0} → ServerState S → S → S → Type 0
SameSpecs st s s' =
    (session_id job_repo_id : ℤ)
    → st.get_job_spec_by_repo_id s' session_id job_repo_id
      ≡ st.get_job_spec_by_repo_id s session_id job_repo_id

abbrev pub SameSummaries : {S : Type 0} → ServerState S → S → S → Type 0
SameSummaries st s s' = (id : ℤ) → st.get_session_status s' id ≡ st.get_session_status s id

-- A result or a job info may be read back as another one, unless it can be stored as it is: JSON
-- holds only texts that are valid UTF-8.
pub record StateLaws {S : Type 0} (st : ServerState S) : Type 0 where
  pub storable_result : AnalyzeResult → Bool
  pub storable_info : JobInfo → Bool
  pub set_status :
      (s s' : S) (js : JobSpec) (x : Status)
      → st.set_status s js x ≡ some s'
      → Answers st s' (written (st.get_status s) js x) (st.get_result s) (st.get_job_info s)
  pub set_status_keeps :
      (s s' : S) (js : JobSpec) (x : Status)
      → st.set_status s js x ≡ some s'
      → SameLists st s s' × SameSpecs st s s'
  pub set_result :
      (s s' : S) (js : JobSpec) (r : AnalyzeResult)
      → r.spec ≡ js
      → st.set_result s js r ≡ some s'
      → (q : AnalyzeResult) × (storable_result r ≡ true → q ≡ r)
        × Answers st s' (st.get_status s) (written (st.get_result s) js q) (st.get_job_info s)
  pub set_result_keeps :
      (s s' : S) (js : JobSpec) (r : AnalyzeResult)
      → st.set_result s js r ≡ some s'
      → SameLists st s s' × SameSpecs st s s' × SameSummaries st s s'
  pub set_job_info :
      (s s' : S) (js : JobSpec) (ji : JobInfo)
      → st.set_job_info s js ji ≡ some s'
      → (q : JobInfo) × (storable_info ji ≡ true → q ≡ ji)
        × Answers st s' (st.get_status s) (st.get_result s) (written (st.get_job_info s) js q)
  pub set_job_info_keeps :
      (s s' : S) (js : JobSpec) (ji : JobInfo)
      → st.set_job_info s js ji ≡ some s'
      → SameLists st s s' × SameSpecs st s s' × SameSummaries st s s'
  pub add_job :
      (s s' : S) (job : AnalyzeJob)
      → st.add_job s job ≡ some s'
      → Answers st s' (st.get_status s) (st.get_result s) (st.get_job_info s)
  pub add_job_keeps :
      (s s' : S) (job : AnalyzeJob)
      → st.add_job s job ≡ some s'
      → SameSummaries st s s'
        × ((id : ℤ)
            → int_beq job.spec.session_id id ≡ false
            → st.get_job_list s' id ≡ st.get_job_list s id)
  pub next_id :
      (s s' : S) (id : ℤ)
      → st.next_id s ≡ some (s', id)
      → Answers st s' (st.get_status s) (st.get_result s) (st.get_job_info s)
  pub next_id_keeps :
      (s s' : S) (id : ℤ) → st.next_id s ≡ some (s', id) → SameSpecs st s s' × SameSummaries st s s'
  pub get_repo_id :
      (s s' : S) (nwo : NameWithOwner) (id : ℤ)
      → st.get_repo_id s nwo ≡ some (s', id)
      → Answers st s' (st.get_status s) (st.get_result s) (st.get_job_info s)
  pub get_repo_id_keeps :
      (s s' : S) (nwo : NameWithOwner) (id : ℤ)
      → st.get_repo_id s nwo ≡ some (s', id)
      → SameLists st s s' × SameSummaries st s s'

-- A job that is reported as succeeded has a result.
pub record Delivered {S : Type 0} (st : ServerState S) (s : S) : Type 0 where
  pub has_result :
      (js : JobSpec)
      → st.get_status s js ≡ ok status_succeeded
      → (r : AnalyzeResult) × (st.get_result s js ≡ ok r)

module _ {S : Type 0} (st : ServerState S) where
  -- Where statuses and results are answered as before, nothing is lost.
  pub Answers-Delivered :
      (s s' : S) (info : JobSpec → Fallible JobInfo)
      → Answers st s' (st.get_status s) (st.get_result s) info
      → Delivered st s
      → Delivered st s'
  Answers-Delivered s s' info a d = record {
    has_result = λ js e.
        let (r, got) = d.has_result js (sym (a.get_status js) ∙ e) in (r, a.get_result js ∙ got);
  }

  -- A status other than that of a success may be written at any time.
  pub set_status-Delivered :
      StateLaws st
      → (s s' : S) (js : JobSpec) (x : Status) → x ≢ status_succeeded
      → st.set_status s js x ≡ some s'
      → Delivered st s
      → Delivered st s'
  set_status-Delivered laws s s' js x h e d = record {
    has_result = λ j succeeded.
        let a = laws.set_status s s' js x e in
        let now = sym (a.get_status j) ∙ succeeded in
        elim (Bool-cases (js == j)) [
          | inl same ↦ absurd (h (cc (rw same at now)))
          | inr other ↦ let (r, got) = d.has_result j (rw other at now) in (r, a.get_result j ∙ got)
        ];
  }
