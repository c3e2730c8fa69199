-- ===== src/Server/Submit/Queueing.antt =====
-- What starting the analyses of a session does to the queue and to the statuses.
use mathlib.Core.List.{append-nil, append_assoc}
use mathlib.Core.Path.{subst}
use mathlib.Core.Option.{some-injective}
use mrvacommander.Prelude.{
  ℤ, Bytes, List, [], ◌∷◌, ◌++◌, map, some, ok, ◌≡◌, inl, inr, refl, sym, ◌∙◌, >>=-eq-some,
  Option-cases, beq_refl, arith, All,
}
use mrvacommander.Common.Types.{JobSpec, job_spec_eq, NameWithOwner, status_pending}
use mrvacommander.ArtifactStore.Types.{ArtifactLocation}
use mrvacommander.Queue.Types.{AnalyzeJob, send_job}
use mrvacommander.State.Laws.{StateLaws, Delivered, Answers-Delivered, set_status-Delivered}
use mrvacommander.Server.Types.{Visibles, Commander}
use mrvacommander.Server.Submit.{job_for, start_analysis, start_analyses}

abbrev pub IsPending : {S A D : Type 0} → Visibles S A D → Commander S A D → AnalyzeJob → Type 0
IsPending v c job = v.state.get_status c.state job.spec ≡ ok status_pending

-- What starting jobs leaves of a commander, and what it changes.
pub record Started {S A D : Type 0} (v : Visibles S A D) (c : Commander S A D)
    (jobs : List AnalyzeJob) (c' : Commander S A D) : Type 0 where
  pub queued : c'.queue.jobs ≡ c.queue.jobs ++ jobs
  pub results_kept : c'.queue.results ≡ c.queue.results
  pub pending : All (IsPending v c') jobs
  pub pending_kept : (job : AnalyzeJob) → IsPending v c job → IsPending v c' job
  pub stored_results_kept :
      (j : JobSpec) → v.state.get_result c'.state j ≡ v.state.get_result c.state j
  pub delivered : Delivered v.state c.state → Delivered v.state c'.state

module _ {S A D : Type 0} (v : Visibles S A D) (laws : StateLaws v.state) where
  start_analysis-Started :
      (c c' : Commander S A D) (job : AnalyzeJob)
      → start_analysis v c job ≡ some c'
      → Started v c (job ∷ []) c'
  unfolding start_analysis send_job
  start_analysis-Started c c' job run =
      let (s, marked, rest) =
        >>=-eq-some (v.state.set_status c.state job.spec status_pending) _ run in
      let (s', added, same) = >>=-eq-some (v.state.add_job s job) _ rest in
      let a = laws.set_status c.state s job.spec status_pending marked in
      let b = laws.add_job s s' job added in
      subst (Started v c (job ∷ [])) (some-injective _ _ same) (record {
        queued = refl;
        results_kept = refl;
        pending = (b.get_status job.spec ∙ (a.get_status job.spec ∙ rw (beq_refl job.spec)), tt);
        pending_kept = λ other e. ground (arith, b.get_status other.spec, a.get_status other.spec);
        stored_results_kept = λ j. b.get_result j ∙ a.get_result j;
        delivered = λ d. Answers-Delivered v.state s s' _ b (
            set_status-Delivered v.state laws c.state s job.spec status_pending (λ e. ground arith)
              marked d);
      })

  Started-trans :
      (c m c' : Commander S A D) (job : AnalyzeJob) (jobs : List AnalyzeJob)
      → Started v c (job ∷ []) m
      → Started v m jobs c'
      → Started v c (job ∷ jobs) c'
  Started-trans c m c' job jobs a b = record {
    queued = b.queued ∙ (rw a.queued (append_assoc c.queue.jobs (job ∷ []) jobs));
    results_kept = b.results_kept ∙ a.results_kept;
    pending = (b.pending_kept job a.pending.0, b.pending);
    pending_kept = λ other e. b.pending_kept other (a.pending_kept other e);
    stored_results_kept = λ j. b.stored_results_kept j ∙ a.stored_results_kept j;
    delivered = λ d. b.delivered (a.delivered d);
  }

  -- Starting the analyses of a session sends one job for each repository, in their order, behind
  -- the jobs already in the queue. All of them are pending afterwards, and so is what was pending
  -- before. No result is lost, in the queue or in the state, and a job that is reported as
  -- succeeded still has a result.
  pub start_analyses-Started :
      (c c' : Commander S A D) (repos : List NameWithOwner) (location : ArtifactLocation) (id : ℤ)
      (language : Bytes)
      → start_analyses v c repos location id language ≡ some c'
      → Started v c (map (job_for location id language) repos) c'
  unfolding start_analyses
  start_analyses-Started c c' [] location id language run =
      subst (Started v c []) (some-injective _ _ run) (record {
        queued = sym (append-nil c.queue.jobs);
        results_kept = refl;
        pending = tt;
        pending_kept = λ other e. e;
        stored_results_kept = λ j. refl;
        delivered = λ d. d;
      })
  start_analyses-Started c c' (nwo ∷ repos) location id language run =
      elim (Option-cases (start_analysis v c (job_for location id language nwo))) [
        | inl e ↦ absurd (ground (arith, rw (e, start_analyses) at run))
        | inr (m, e) ↦
            Started-trans c m c' (job_for location id language nwo) _
              (start_analysis-Started c m (job_for location id language nwo) e)
              (start_analyses-Started m c' repos location id language
                (rw (e, start_analyses) at run))
      ]
