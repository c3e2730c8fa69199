-- ===== src/Server/Status/Report.antt =====
-- What a status response says about each job of its session.
use mrvacommander.Prelude.{
  ℕ, ℤ, pos, List, [], ◌∷◌, some, ok, ◌≡◌, ◌≢◌, refl, sym, ◌∙◌, Bool-cases, inl, inr, int_beq,
  int_beq_iff, arith, All,
}
use mrvacommander.Common.Types.{JobSpec, Status, status_succeeded, to_external_string}
use mrvacommander.Common.Api.{JobInfo, ScannedRepo}
use mrvacommander.Queue.Types.{AnalyzeJob, AnalyzeResult}
use mrvacommander.State.Laws.{StateLaws, Answers, Delivered, Answers-Delivered}
use mrvacommander.Server.Types.{Visibles, Commander}
use mrvacommander.Server.Status.{full_name, result_numbers, scanned, scan_job, scan_jobs}

-- The count and the size that belong to a job with a status.
pub data Numbers {S A D : Type 0} (v : Visibles S A D) (c : Commander S A D) (job : AnalyzeJob)
    (status : Status) (count : ℤ) (size : ℤ) : Type 0 where
  unfinished :
      status ≢ status_succeeded → count ≡ pos 0 → size ≡ pos 0 → Numbers v c job status count size
  finished :
      status ≡ status_succeeded
      → (r : AnalyzeResult) (n : ℕ) → v.state.get_result c.state job.spec ≡ ok r
      → v.artifacts.get_result_size c.artifacts r.result_location ≡ ok n
      → count ≡ r.result_count
      → size ≡ pos n
      → Numbers v c job status count size

-- An entry reports a job: its repository, its status, and the numbers of its result.
pub record Reports {S A D : Type 0} (v : Visibles S A D) (c : Commander S A D) (job : AnalyzeJob)
    (repo : ScannedRepo) : Type 0 where
  pub status : Status
  pub current : v.state.get_status c.state job.spec ≡ ok status
  pub named : repo.repository.full_name ≡ full_name job.spec.name_with_owner
  pub shown : repo.analysis_status ≡ to_external_string status
  pub numbers : Numbers v c job status repo.result_count repo.artifact_size_in_bytes

-- One entry for each job, in the order of the jobs.
abbrev pub Pairs : {A B : Type 0} → (A → B → Type 0) → List A → List B → Type 0
Pairs R [] [] = Unit {0}
Pairs R [] (b ∷ bs) = ⊥
Pairs R (a ∷ as') [] = ⊥
Pairs R (a ∷ as') (b ∷ bs) = R a b × Pairs R as' bs

abbrev pub HasStatus : {S A D : Type 0} → Visibles S A D → S → AnalyzeJob → Type 0
HasStatus v s job = (status : Status) × (v.state.get_status s job.spec ≡ ok status)

-- What the loop over the jobs reads: every stored result has a size, and successes have results.
pub record Readable {S A D : Type 0} (v : Visibles S A D) (c : Commander S A D) : Type 0 where
  pub delivered : Delivered v.state c.state
  pub sizes :
      (j : JobSpec) (r : AnalyzeResult)
      → v.state.get_result c.state j ≡ ok r
      → (n : ℕ) × (v.artifacts.get_result_size c.artifacts r.result_location ≡ ok n)

-- The repository ids of some jobs, asked for one after the other, can be had.
abbrev pub IdsIssued : {S A D : Type 0} → Visibles S A D → S → List AnalyzeJob → Type 0
IdsIssued v s [] = Unit {0}
IdsIssued {S} v s (job ∷ jobs) =
    (s' : S) × (id : ℤ) × (v.state.get_repo_id s job.spec.name_with_owner ≡ some (s', id))
    × IdsIssued v s' jobs

module _ {S A D : Type 0} (v : Visibles S A D) where
  result_numbers-Numbers :
      (c : Commander S A D) (job : AnalyzeJob) (status : Status)
      → Readable v c
      → v.state.get_status c.state job.spec ≡ ok status
      → (count : ℤ) × (n : ℕ) × (result_numbers v c job status ≡ ok (count, n))
        × Numbers v c job status count (pos n)
  unfolding result_numbers
  result_numbers-Numbers c job status rd e = elim (Bool-cases (int_beq status status_succeeded)) [
    | inl yes' ↦
        let done = (int_beq_iff status status_succeeded).0 yes' in
        let (r, got) = rd.delivered.has_result job.spec (rw done at e) in
        let (n, size) = rd.sizes job.spec r got in
        (r.result_count, n, ground (arith, got, size), finished done r n got size refl refl)
    | inr no' ↦ (
      pos 0,
      0,
      ground arith,
      unfinished (λ done. ground (arith, int_beq_iff status status_succeeded)) refl refl,
    )
  ]

  module _ (laws : StateLaws v.state) where
    -- One round: the entry, and a state that answers as before.
    scan_job-Reports :
        (c : Commander S A D) (ji : JobInfo) (job : AnalyzeJob) (s : S) (id : ℤ)
        → Readable v c
        → HasStatus v c.state job
        → v.state.get_repo_id c.state job.spec.name_with_owner ≡ some (s, id)
        → (repo : ScannedRepo) × (scan_job v c ji job ≡ some (s, ok repo))
          × Reports v c job repo
          × Answers v.state s
              (v.state.get_status c.state)
              (v.state.get_result c.state)
              (v.state.get_job_info c.state)
    unfolding scan_job
    scan_job-Reports c ji job s id rd (status, e) issued =
        let (count, n, numbers, right) = result_numbers-Numbers c job status rd e in
        (
          scanned v ji job status id (count, n),
          ground (arith, e, numbers, issued),
          record { status = status; current = e; named = refl; shown = refl; numbers = right },
          laws.get_repo_id c.state s job.spec.name_with_owner id issued,
        )

    Readable-Answers :
        (c : Commander S A D) (s : S)
        → Answers v.state s
            (v.state.get_status c.state)
            (v.state.get_result c.state)
            (v.state.get_job_info c.state)
        → Readable v c
        → Readable v (record c { state = s })
    Readable-Answers c s a rd = record {
      delivered = Answers-Delivered v.state c.state s _ a rd.delivered;
      sizes = λ j r got. rd.sizes j r (sym (a.get_result j) ∙ got);
    }

    HasStatus-Answers :
        (c : Commander S A D) (s : S)
        → Answers v.state s
            (v.state.get_status c.state)
            (v.state.get_result c.state)
            (v.state.get_job_info c.state)
        → (jobs : List AnalyzeJob) → All (HasStatus v c.state) jobs
        → All (HasStatus v s) jobs
    HasStatus-Answers c s a [] h = tt
    HasStatus-Answers c s a (job ∷ jobs) ((status, e), h) =
        ((status, a.get_status job.spec ∙ e), HasStatus-Answers c s a jobs h)

    Numbers-Answers :
        (c : Commander S A D) (s : S) (job : AnalyzeJob) (status : Status) (count size : ℤ)
        → Answers v.state s
            (v.state.get_status c.state)
            (v.state.get_result c.state)
            (v.state.get_job_info c.state)
        → Numbers v (record c { state = s }) job status count size
        → Numbers v c job status count size
    Numbers-Answers c s job status count size a (unfinished h p q) = unfinished h p q
    Numbers-Answers c s job status count size a (finished h r n got sized p q) =
        finished h r n (sym (a.get_result job.spec) ∙ got) sized p q

    Pairs-Answers :
        (c : Commander S A D) (s : S)
        → Answers v.state s
            (v.state.get_status c.state)
            (v.state.get_result c.state)
            (v.state.get_job_info c.state)
        → (jobs : List AnalyzeJob) (repos : List ScannedRepo)
        → Pairs (Reports v (record c { state = s })) jobs repos
        → Pairs (Reports v c) jobs repos
    Pairs-Answers c s a [] [] h = tt
    Pairs-Answers c s a [] (repo ∷ repos) h = absurd h
    Pairs-Answers c s a (job ∷ jobs) [] h = absurd h
    Pairs-Answers c s a (job ∷ jobs) (repo ∷ repos) (r, h) = (
      record {
        status = r.status;
        current = sym (a.get_status job.spec) ∙ r.current;
        named = r.named;
        shown = r.shown;
        numbers = Numbers-Answers c s job r.status _ _ a r.numbers;
      },
      Pairs-Answers c s a jobs repos h,
    )

    -- The loop over the jobs of a session comes to an end without an error, and its list has one
    -- entry for each job, in their order: with the name of the repository, the status that is
    -- stored for the job, the count and the size of its result if it succeeded, and zeros if not.
    -- This needs a status for every job, a result for every success, a size for every stored
    -- result, and that the ids of the jobs' repositories, asked for in turn, can be had.
    pub scan_jobs-Reports :
        (c : Commander S A D) (ji : JobInfo) (jobs : List AnalyzeJob)
        → Readable v c
        → All (HasStatus v c.state) jobs
        → IdsIssued v c.state jobs
        → (s : S) × (repos : List ScannedRepo) × (scan_jobs v c ji jobs ≡ some (s, ok repos))
          × Pairs (Reports v c) jobs repos
    unfolding scan_jobs
    scan_jobs-Reports c ji [] rd h ids = (c.state, [], refl, tt)
    scan_jobs-Reports c ji (job ∷ jobs) rd (h, hs) (s, id, issued, ids) =
        let (repo, one, reports, a) = scan_job-Reports c ji job s id rd h issued in
        let (s', repos, rest, pairs) =
          scan_jobs-Reports (record c { state = s }) ji jobs (Readable-Answers c s a rd)
            (HasStatus-Answers c s a jobs hs) ids in
        (
          s',
          repo ∷ repos,
          rw (one, scan_jobs) (rw rest),
          (reports, Pairs-Answers c s a jobs repos pairs),
        )
