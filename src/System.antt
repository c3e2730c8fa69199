-- ===== src/System.antt =====
-- The server, its results consumer and the agent at work on one queue and one state, in any order
-- of their calls: pkg/server/server.go and pkg/agent/agent.go run them as goroutines and processes.
pub mod Safety
pub mod Rounds
pub mod Race
pub mod EndToEnd
use mrvacommander.Prelude.{List, [], ◌∷◌, ◌++◌, Option, none, some, ◌≡◌, ◌>>=◌}
use mrvacommander.Common.Types.{status_pending}
use mrvacommander.Queue.Types.{AnalyzeJob, send_job}
use mrvacommander.Server.Types.{Visibles, Commander}
use mrvacommander.Server.Results.{Consumer, consume_step}
use mrvacommander.Agent.Job.{Machine}
use mrvacommander.Agent.Worker.{Task, taken, work_step}

-- What `startAnalyses` does for a job, one step of the program at a time.
pub data Action : Type 0 where
  send mark add : AnalyzeJob → Action

unfoldable pub program : List AnalyzeJob → List Action
program [] = []
program (job ∷ jobs) = send job ∷ mark job ∷ add job ∷ program jobs

-- The shared state, what the server still has to do, where the consumer stands, and the jobs that
-- the workers are at.
pub record System (S A D : Type 0) : Type 0 where
  pub commander : Commander S A D
  pub todo : List Action
  pub consumer : Consumer
  pub tasks : List Task

-- The tasks with one of them carried on, or done.
abbrev pub carried_on : List Task → Option Task → List Task → List Task
carried_on before none after = before ++ after
carried_on before (some task) after = before ++ task ∷ after

module _ {S A D : Type 0} (v : Visibles S A D) where
  unfoldable pub perform : Action → Commander S A D → Option (Commander S A D)
  perform (send job) c = some (record c { queue = send_job c.queue job })
  perform (mark job) c = do
    s ← v.state.set_status c.state job.spec status_pending
    some (record c { state = s })
  perform (add job) c = do s ← v.state.add_job c.state job; some (record c { state = s })

  unfoldable pub perform_all : List Action → Commander S A D → Option (Commander S A D)
  perform_all [] c = some c
  perform_all (a ∷ actions) c = elim (perform a c) [
    | none ↦ none
    | some c' ↦ perform_all actions c'
  ]

  pub data Step (s t : System S A D) : Type 0 where
    server :
        (a : Action) (actions : List Action) (c : Commander S A D)
        → s.todo ≡ a ∷ actions
        → perform a s.commander ≡ some c
        → t ≡ record s { commander = c; todo = actions }
        → Step s t
    takes :
        (job : AnalyzeJob) (rest : List AnalyzeJob)
        → s.commander.queue.jobs ≡ job ∷ rest
        → t ≡ record s {
          commander = record s.commander {
            queue = record { jobs = rest; results = s.commander.queue.results };
          };
          tasks = s.tasks ++ taken job ∷ [];
        }
        → Step s t
    works :
        (machine : Machine) (before after : List Task) (task : Task) (c : Commander S A D)
        (left : Option Task)
        → s.tasks ≡ before ++ task ∷ after
        → work_step v machine s.commander task ≡ some (c, left)
        → t ≡ record s { commander = c; tasks = carried_on before left after }
        → Step s t
    consumes :
        (c : Commander S A D) (k : Consumer)
        → consume_step v s.commander s.consumer ≡ some (c, k)
        → t ≡ record s { commander = c; consumer = k }
        → Step s t

  pub data Steps (s : System S A D) : System S A D → Type 0 where
    here : Steps s s
    next : {t u : System S A D} → Steps s t → Step t u → Steps s u
