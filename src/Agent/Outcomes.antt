-- ===== src/Agent/Outcomes.antt =====
-- What becomes of a job that a worker takes.
use mathlib.Core.Path.{subst}
use mathlib.Core.Option.{some-injective}
use mrvacommander.Prelude.{
  Bytes, List, [], ◌∷◌, ◌++◌, Option, none, some, ok, ◌≡◌, inl, inr, refl, ◌∙◌, >>=-eq-some,
  Result-cases, beq_refl, arith,
}
use mrvacommander.Common.Types.{JobSpec, job_spec_eq, status_in_progress}
use mrvacommander.Common.Errors.{Error}
use mrvacommander.ArtifactStore.Types.{ArtifactLocation}
use mrvacommander.Queue.Types.{Queue, AnalyzeJob, AnalyzeResult, send_result}
use mrvacommander.Codeql.Types.{RunQueryResult}
use mrvacommander.State.Laws.{StateLaws, Delivered, set_status-Delivered}
use mrvacommander.Server.Types.{Visibles, Commander}
use mrvacommander.Agent.Job.{
  Machine, Outcome, run_analysis_job, upload, failed_result, succeeded_result, fetch_query_pack,
  analyze,
}
use mrvacommander.Agent.Worker.{run_job, deliver}

-- How a run ends: with an error and a failed result, or with no error, a result of the job that
-- succeeded, and an archive that the store accepted at the place that the result names.
pub data Ended {S A D : Type 0} (v : Visibles S A D) (a : A) (job : AnalyzeJob) {machine : Machine}
    (o : Outcome v machine) : Type 0 where
  gave_up : (e : Error) → o.error ≡ some e → o.result ≡ failed_result job → Ended v a job o
  stored :
      (run : RunQueryResult) (archive : Bytes) (location : ArtifactLocation)
      → o.error ≡ none
      → v.artifacts.save_result a job.spec archive ≡ (o.artifacts, ok location)
      → o.result ≡ succeeded_result job run location
      → Ended v a job o

module _ {S A D : Type 0} (v : Visibles S A D) (machine : Machine) where
  upload-Ended :
      (a : A) (d : D) (job : AnalyzeJob) (run : RunQueryResult) (archive : Bytes)
      → Ended v a job (upload v machine a d job run archive)
  unfolding upload
  upload-Ended a d job run archive =
      let saved = v.artifacts.save_result a job.spec archive in
      elim (Result-cases saved.1) [
        | inl (location, e) ↦
            rw (e, upload) (stored run archive location refl (λ i. (saved.0, e i)) refl)
        | inr (x, e) ↦ rw (e, upload) (gave_up _ refl refl)
      ]

  -- Every run ends with an error and a failed result, or with an archive in the store and a result
  -- that names it.
  pub run_analysis_job-Ended :
      (a : A) (d : D) (job : AnalyzeJob) → Ended v a job (run_analysis_job v machine a d job)
  unfolding run_analysis_job
  run_analysis_job-Ended a d job = elim (Result-cases (fetch_query_pack v machine a job)) [
    | inr (x, e) ↦ rw (e, run_analysis_job) (gave_up x refl refl)
    | inl (u, e) ↦
        let got = v.codeql_db_store.get_database d job.spec.name_with_owner in
        elim (Result-cases (analyze v machine job got.1)) [
          | inr (x, f) ↦ rw (e, f, run_analysis_job) (gave_up x refl refl)
          | inl ((run, archive), f) ↦
              rw (e, f, run_analysis_job) (upload-Ended a got.0 job run archive)
        ]
  ]

-- What a worker has made of a commander when it is done with a job.
pub record Worked {S A D : Type 0} (v : Visibles S A D) (c : Commander S A D) (job : AnalyzeJob)
    (rest : List AnalyzeJob) (c' : Commander S A D) : Type 0 where
  pub jobs_left : c'.queue.jobs ≡ rest
  pub in_progress : v.state.get_status c'.state job.spec ≡ ok status_in_progress
  pub results_readable :
      (j : JobSpec) → v.state.get_result c'.state j ≡ v.state.get_result c.state j
  pub delivered : Delivered v.state c.state → Delivered v.state c'.state

-- The job was lost: nothing was sent.
abbrev pub Lost : {S A D : Type 0} → Commander S A D → Commander S A D → Type 0
Lost c c' = c'.queue.results ≡ c.queue.results

-- A result was sent, and its archive is in the store.
pub record Sent {S A D : Type 0} (v : Visibles S A D) (machine : Machine) (c : Commander S A D)
    (job : AnalyzeJob) (c' : Commander S A D) : Type 0 where
  pub run : RunQueryResult
  pub archive : Bytes
  pub location : ArtifactLocation
  pub saved : v.artifacts.save_result c.artifacts job.spec archive ≡ (c'.artifacts, ok location)
  pub returned :
      (run_analysis_job v machine c.artifacts c.databases job).result
      ≡ succeeded_result job run location
  pub sent : c'.queue.results ≡ c.queue.results ++ succeeded_result job run location ∷ []

module _ {S A D : Type 0} (v : Visibles S A D) (laws : StateLaws v.state) (machine : Machine)
    (c : Commander S A D) (job : AnalyzeJob) (rest : List AnalyzeJob) where
  abbrev after : S → Commander S A D
  after s =
      let o = run_analysis_job v machine c.artifacts c.databases job in
      record {
        queue = deliver v (record { jobs = rest; results = c.queue.results }) o.error o.result;
        state = s;
        artifacts = o.artifacts;
        databases = o.databases;
      }

  deliver-jobs :
      (q : Queue) (e : Option Error) (r : AnalyzeResult) → (deliver v q e r).jobs ≡ q.jobs
  unfolding deliver send_result
  deliver-jobs q none r = refl
  deliver-jobs q (some e) r = refl

  -- Whenever a worker is done with a job, the job is gone from the queue and is in progress, and no
  -- stored result has changed.
  pub run_job-Worked :
      (c' : Commander S A D) → run_job v machine c job rest ≡ some c' → Worked v c job rest c'
  unfolding run_job
  run_job-Worked c' e =
      let (s, marked, same) =
        >>=-eq-some (v.state.set_status c.state job.spec status_in_progress) _ e in
      let a = laws.set_status c.state s job.spec status_in_progress marked in
      subst (Worked v c job rest) (some-injective _ _ same) (record {
        jobs_left = deliver-jobs _ _ _;
        in_progress = a.get_status job.spec ∙ rw (beq_refl job.spec);
        results_readable = a.get_result;
        delivered =
            set_status-Delivered v.state laws c.state s job.spec status_in_progress
              (λ x. ground arith) marked;
      })

  -- If the run gives up, nothing is sent: the job stays in progress, and no failure is reported.
  pub run_job-Lost :
      (c' : Commander S A D) (x : Error)
      → (run_analysis_job v machine c.artifacts c.databases job).error ≡ some x
      → run_job v machine c job rest ≡ some c'
      → Lost c c' × (v.state.get_status c'.state job.spec ≡ ok status_in_progress)
  unfolding run_job deliver
  run_job-Lost c' x failed e =
      let (s, marked, same) =
        >>=-eq-some (v.state.set_status c.state job.spec status_in_progress) _ e in
      (
        subst (Lost c) (some-injective _ _ same) (ground (arith, failed)),
        (run_job-Worked c' e).in_progress,
      )

  -- If the run does not give up, exactly one result is sent, of a job that succeeded, and it names
  -- the place of the archive.
  pub run_job-Sent :
      (c' : Commander S A D)
      → (run_analysis_job v machine c.artifacts c.databases job).error ≡ none
      → run_job v machine c job rest ≡ some c'
      → Sent v machine c job c'
  unfolding run_job deliver send_result
  run_job-Sent c' fine e =
      let (s, marked, same) =
        >>=-eq-some (v.state.set_status c.state job.spec status_in_progress) _ e in
      subst (Sent v machine c job) (some-injective _ _ same)
        (elim (run_analysis_job-Ended v machine c.artifacts c.databases job) [
          | gave_up x failed _ ↦ absurd (ground (arith, failed))
          | stored run archive location done saved result ↦ record {
            run = run;
            archive = archive;
            location = location;
            saved = saved;
            returned = result;
            sent = ground (arith, done, result);
          }
        ])
