-- ===== src/System/Race.antt =====
-- A fast agent: the job is done before the server has marked it as pending.
use mathlib.Core.Option.{some-injective}
use mrvacommander.Prelude.{
  List, [], ◌∷◌, ◌++◌, none, some, true, ok, ◌≡◌, refl, sym, ◌∙◌, ap, >>=-eq-some, beq_refl,
}
use mrvacommander.Common.Types.{job_spec_eq, status_pending, status_succeeded}
use mrvacommander.Queue.Types.{AnalyzeJob, AnalyzeResult, send_job}
use mrvacommander.State.Laws.{StateLaws, Delivered}
use mrvacommander.Server.Types.{Visibles, Commander}
use mrvacommander.Server.Results.{consume_result, consume_result-Consumed}
use mrvacommander.Agent.Job.{Machine, run_analysis_job, succeeded_result}
use mrvacommander.Agent.Worker.{receive, run_job}
use mrvacommander.Agent.Outcomes.{run_job-Sent, run_job-Worked}
use mrvacommander.System.{Action, send, mark, perform, server, Steps, here, next}
use mrvacommander.System.Rounds.{at_rest, run_job-Steps, consume_result-Steps}

module _ {S A D : Type 0} (v : Visibles S A D) (laws : StateLaws v.state) where
  abbrev sent : Commander S A D → AnalyzeJob → Commander S A D
  sent c job = record c { queue = send_job c.queue job }

  receive-send_job :
      (c : Commander S A D) (job : AnalyzeJob) (machine : Machine)
      → c.queue.jobs ≡ []
      → receive v machine (sent c job) ≡ run_job v machine (sent c job) job []
  unfolding receive send_job
  receive-send_job c job machine no_jobs = rw no_jobs

  -- For a state that keeps the laws and in which every reported success has a result: from empty
  -- channels, with an analysis that does not give up and whose result can be stored as it is, and
  -- with no panic, the server sends a job, a worker runs it, the consumer stores its result, and
  -- only then does the server mark the job. The job is succeeded before the mark and pending after
  -- it, while its result stays stored.
  pub mark_after_result :
      (c c₁ c₂ c₃ : Commander S A D) (job : AnalyzeJob) (actions : List Action) (machine : Machine)
      → c.queue.jobs ≡ []
      → c.queue.results ≡ []
      → Delivered v.state c.state
      → (run_analysis_job v machine c.artifacts c.databases job).error ≡ none
      → laws.storable_result (run_analysis_job v machine c.artifacts c.databases job).result ≡ true
      → receive v machine (sent c job) ≡ some c₁
      → consume_result v c₁ ≡ some c₂
      → perform v (mark job) c₂ ≡ some c₃
      → Steps v (at_rest v c (send job ∷ mark job ∷ actions)) (at_rest v c₃ actions)
        × (v.state.get_status c₂.state job.spec ≡ ok status_succeeded)
        × (v.state.get_status c₃.state job.spec ≡ ok status_pending)
        × ((r : AnalyzeResult) × (v.state.get_result c₃.state job.spec ≡ ok r)
            × (r.status ≡ status_succeeded))
  unfolding perform send_job
  mark_after_result c c₁ c₂ c₃ job actions machine no_jobs no_results d fine storable e₁ e₂ e₃ =
      let ran : run_job v machine (sent c job) job [] ≡ some c₁ =
        sym (receive-send_job c job machine no_jobs) ∙ e₁ in
      let s = run_job-Sent v laws machine (sent c job) job [] c₁ fine ran in
      let w = run_job-Worked v laws machine (sent c job) job [] c₁ ran in
      let r = succeeded_result job s.run s.location in
      let waits = s.sent ∙ ap (λ (x : List AnalyzeResult). x ++ r ∷ []) no_results in
      let here_waits = ap (λ (x : List AnalyzeJob). x ++ job ∷ []) no_jobs in
      let k = consume_result-Consumed v laws c₁ c₂ r [] waits (w.delivered d) e₂ in
      let (m, marked, same) =
        >>=-eq-some (v.state.set_status c₂.state job.spec status_pending) _ e₃ in
      let a = laws.set_status c₂.state m job.spec status_pending marked in
      let at_end : c₃.state ≡ m =
        sym (ap (λ (x : Commander S A D). x.state) (some-injective _ _ same)) in
      (
        next
            (consume_result-Steps v _ c₁ c₂ r [] (mark job ∷ actions) waits e₂ (
              run_job-Steps v _ machine (sent c job) c₁ job [] (mark job ∷ actions) here_waits ran
                (next here (server (send job) _ _ refl refl refl))))
            (server (mark job) _ c₃ refl e₃ refl),
        k.status_stored,
        ap (λ (x : S). v.state.get_status x job.spec) at_end
            ∙ (a.get_status job.spec ∙ rw (beq_refl job.spec)),
        (
          r,
          ap (λ (x : S). v.state.get_result x job.spec) at_end
              ∙ (a.get_result job.spec ∙ k.result_stored (rw s.returned at storable)),
          refl,
        ),
      )
