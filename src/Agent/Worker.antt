-- ===== src/Agent/Worker.antt =====
-- `RunWorker`: the loop of a worker, driven by what its `select` statements receive.
use mrvacommander.Prelude.{List, [], ◌∷◌, Option, none, some, Bool, true, false, ◌||◌, ◌>>=◌}
use mrvacommander.Common.Types.{status_in_progress}
use mrvacommander.Queue.Types.{Queue, AnalyzeJob, AnalyzeResult, send_result}
use mrvacommander.Common.Errors.{Error}
use mrvacommander.Server.Types.{Visibles, Commander}
use mrvacommander.Agent.Job.{Machine, run_analysis_job}

-- What the inner select of a round receives: a job, whose run turns out as the machine says, the
-- closed job channel, a stop of the worker, or the end of the context.
pub data Received : Type 0 where
  job_received : Machine → Received
  jobs_closed stopped cancelled : Received

-- A round of the loop: whether the stop channel is closed, and whether the context is done, when
-- the outer select looks, and what the inner select receives if neither is so.
pub record Round : Type 0 where
  pub stop_closed : Bool
  pub context_done : Bool
  pub inner : Received

-- Where a worker stands with a job: it has taken it, it has marked it as in progress, or its run
-- has come to an end.
pub data Task : Type 0 where
  taken marked : AnalyzeJob → Task
  finished : Option Error → AnalyzeResult → Task

module _ {S A D : Type 0} (v : Visibles S A D) where
  -- A result is sent only if the run returned no error.
  unfoldable pub deliver : Queue → Option Error → AnalyzeResult → Queue
  deliver q (some e) result = q
  deliver q none result = send_result q result

  -- The round for a job.
  unfoldable pub run_job :
      Machine → Commander S A D → AnalyzeJob → List AnalyzeJob → Option (Commander S A D)
  run_job machine c job rest = do
    s ← v.state.set_status c.state job.spec status_in_progress
    let o = run_analysis_job v machine c.artifacts c.databases job
    some (record {
      queue = deliver (record { jobs = rest; results = c.queue.results }) o.error o.result;
      state = s;
      artifacts = o.artifacts;
      databases = o.databases;
    })

  -- One call of the round at a time; `none` in place of a task if the worker is done with the job.
  unfoldable pub work_step :
      Machine → Commander S A D → Task → Option (Commander S A D × Option Task)
  unfolding deliver
  work_step machine c (taken job) = do
    s ← v.state.set_status c.state job.spec status_in_progress
    some (record c { state = s }, some (marked job))
  work_step machine c (marked job) =
      let o = run_analysis_job v machine c.artifacts c.databases job in
      some (
        record c { artifacts = o.artifacts; databases = o.databases },
        some (finished o.error o.result),
      )
  work_step machine c (finished e result) =
      some (record c { queue = deliver c.queue e result }, none)

  -- With no job in the channel the round waits.
  unfoldable pub receive : Machine → Commander S A D → Option (Commander S A D)
  receive machine c = elim c.queue.jobs [ [] ↦ some c | job ∷ rest ↦ run_job machine c job rest ]

  -- The loop; `true` if the worker has returned. Whichever of its cases the outer select takes, the
  -- worker returns.
  unfoldable pub run_worker : Commander S A D → List Round → Option (Commander S A D × Bool)
  run_worker c [] = some (c, false)
  run_worker c (r ∷ rounds) = elim (r.stop_closed || r.context_done) [
    | true ↦ some (c, true)
    | false ↦ elim r.inner [
      | jobs_closed ↦ some (c, true)
      | stopped ↦ some (c, true)
      | cancelled ↦ some (c, true)
      | job_received machine ↦ elim (receive machine c) [
        | none ↦ none
        | some c' ↦ run_worker c' rounds
      ]
    ]
  ]
