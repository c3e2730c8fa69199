-- ===== src/System/Rounds.antt =====
-- The rounds of a worker and of the consumer, as steps with nothing in between.
use mathlib.Core.Path.{subst}
use mathlib.Core.Option.{some-injective}
use mrvacommander.Prelude.{List, [], ◌∷◌, none, some, ◌≡◌, refl, >>=-eq-some}
use mrvacommander.Common.Types.{status_in_progress}
use mrvacommander.Queue.Types.{AnalyzeJob, AnalyzeResult}
use mrvacommander.Server.Types.{Visibles, Commander}
use mrvacommander.Server.Results.{
  idle, holding, announcing, consume_step, consume_result, store_result,
}
use mrvacommander.Agent.Job.{Machine, run_analysis_job}
use mrvacommander.Agent.Worker.{taken, marked, finished, work_step, run_job}
use mrvacommander.System.{Action, System, takes, works, consumes, Steps, next}

module _ {S A D : Type 0} (v : Visibles S A D) where
  -- A system in which neither a worker nor the consumer is at something.
  abbrev pub at_rest : Commander S A D → List Action → System S A D
  at_rest c todo = record { commander = c; todo = todo; consumer = idle; tasks = [] }

  -- The round of a worker for a job is four steps: it takes the job, marks it, runs it, and
  -- delivers.
  pub run_job-Steps :
      (s : System S A D) (machine : Machine) (c c' : Commander S A D) (job : AnalyzeJob)
      (rest : List AnalyzeJob) (todo : List Action)
      → c.queue.jobs ≡ job ∷ rest
      → run_job v machine c job rest ≡ some c'
      → Steps v s (at_rest c todo)
      → Steps v s (at_rest c' todo)
  unfolding run_job work_step
  run_job-Steps s machine c c' job rest todo waits e before =
      let (m, set, same) =
        >>=-eq-some (v.state.set_status c.state job.spec status_in_progress) _ e in
      let o = run_analysis_job v machine c.artifacts c.databases job in
      let took : Commander S A D = record c {
        queue = record { jobs = rest; results = c.queue.results };
      } in
      let started : Commander S A D = record took { state = m } in
      let ran : Commander S A D = record started {
        artifacts = o.artifacts;
        databases = o.databases;
      } in
      subst (λ (x : Commander S A D). Steps v s (at_rest x todo)) (some-injective _ _ same)
        (next
          (next
            (next (next before (takes job rest waits refl))
              (works machine [] [] (taken job) started (some (marked job)) refl (rw set refl) refl))
            (works machine [] [] (marked job) ran (some (finished o.error o.result)) refl refl
              refl))
          (works machine [] [] (finished o.error o.result) _ none refl refl refl))

  -- The round of the consumer for a result is three steps: it receives the result, stores it, and
  -- announces it.
  pub consume_result-Steps :
      (s : System S A D) (c c' : Commander S A D) (r : AnalyzeResult) (rest : List AnalyzeResult)
      (todo : List Action)
      → c.queue.results ≡ r ∷ rest
      → consume_result v c ≡ some c'
      → Steps v s (at_rest c todo)
      → Steps v s (at_rest c' todo)
  unfolding consume_result store_result consume_step
  consume_result-Steps s c c' r rest todo waits e before =
      let (m, stored, same) = >>=-eq-some (store_result v.state c.state r) _ (rw waits at e) in
      let (n, set, told) = >>=-eq-some (v.state.set_result c.state r.spec r) _ stored in
      let took : Commander S A D = record c {
        queue = record { jobs = c.queue.jobs; results = rest };
      } in
      subst (λ (x : Commander S A D). Steps v s (at_rest x todo)) (some-injective _ _ same)
        (next
          (next (next before (consumes took (holding r) (rw waits refl) refl))
            (consumes (record took { state = n }) (announcing r) (rw set refl) refl))
          (consumes (record took { state = m }) idle (rw told refl) refl))
