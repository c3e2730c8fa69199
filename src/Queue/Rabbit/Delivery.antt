-- ===== src/Queue/Rabbit/Delivery.antt =====
-- What becomes of the messages between the two ends of the jobs queue.
use mrvacommander.Prelude.{
  ℕ, zero, suc, Bytes, false, List, [], ◌∷◌, ◌++◌, ok, err, ◌≡◌, ◌≢◌, refl, ◌∙◌, arith,
}
use mathlib.Core.List.{append_assoc}
use mrvacommander.Common.Errors.{Error, Fallible}
use mrvacommander.Queue.Types.{AnalyzeJob}
use mrvacommander.Queue.Rabbit.{Broker, RabbitMqQueue, Codec, Got, failed, empty, message}
use mrvacommander.Queue.Rabbit.Connect.{reconnect_if_needed, invalidate_connection, jobs_queue_name}
use mrvacommander.Queue.Rabbit.Consume.{take_job, poll_jobs, wait_or_poll_jobs, consume_job, rounds}

-- The jobs queue of the broker: the messages that wait in it, and those that a consumer has got
-- and not settled, which come back when its connection ends. Acknowledgements go through.
pub record IsFifo {B : Type 0} (broker : Broker B) (ready held : B → List Bytes) : Type 0 where
  pub dialed :
      (b : B) → held b ≡ [] → (ready (broker.dial b).0 ≡ ready b) × (held (broker.dial b).0 ≡ [])
  pub opened :
      (b : B)
      → held b ≡ []
      → (ready (broker.open_channel b).0 ≡ ready b) × (held (broker.open_channel b).0 ≡ [])
  pub ended : (b : B) → (ready (broker.close b) ≡ held b ++ ready b) × (held (broker.close b) ≡ [])
  pub got_message :
      (b : B) (body : Bytes)
      → (broker.get b jobs_queue_name).1 ≡ message body
      → ready b ≡ body ∷ ready (broker.get b jobs_queue_name).0
  pub got_none :
      (b : B)
      → (broker.get b jobs_queue_name).1 ≡ empty
      → held b ≡ []
      → (ready b ≡ [])
        × (ready (broker.get b jobs_queue_name).0 ≡ [])
        × (held (broker.get b jobs_queue_name).0 ≡ [])
  pub got_error :
      (b : B) (e : Error)
      → (broker.get b jobs_queue_name).1 ≡ failed e
      → held b ≡ []
      → (ready (broker.get b jobs_queue_name).0 ≡ ready b)
        × (held (broker.get b jobs_queue_name).0 ≡ [])
  pub acked : (b : B) → (ready (broker.ack b).0 ≡ ready b) × (held (broker.ack b).0 ≡ [])
  pub nacked : (b : B) → (ready (broker.nack b).0 ≡ ready b) × (held (broker.nack b).0 ≡ [])

-- The jobs among messages.
abbrev pub job_and : Fallible AnalyzeJob → List AnalyzeJob → List AnalyzeJob
job_and (ok job) jobs = job ∷ jobs
job_and (err e) jobs = jobs

unfoldable pub jobs_in : Codec → List Bytes → List AnalyzeJob
jobs_in codec [] = []
jobs_in codec (body ∷ bodies) = job_and (codec.unmarshal_job body) (jobs_in codec bodies)

module _ {B : Type 0} (broker : Broker B) (codec : Codec) (ready held : B → List Bytes)
    (fifo : IsFifo broker ready held) where
  -- What a state of the consumer has received, and what it still can.
  abbrev pub all_jobs : B × RabbitMqQueue → List AnalyzeJob
  all_jobs s = s.1.jobs ++ jobs_in codec (ready s.0)

  abbrev pub Kept : B × RabbitMqQueue → B × RabbitMqQueue → Type 0
  Kept s t = (all_jobs t ≡ all_jobs s) × (held t.0 ≡ [])

  take_job-Kept :
      (b : B) (q : RabbitMqQueue) (body : Bytes) (r : Fallible AnalyzeJob)
      → codec.unmarshal_job body ≡ r
      → let s = take_job broker codec b q r in
        (all_jobs s ≡ q.jobs ++ jobs_in codec (body ∷ ready b)) × (held s.0 ≡ [])
  unfolding take_job jobs_in
  take_job-Kept b q body (err e) d =
      let (kept, none_held) = fifo.nacked b in (rw (kept, d) refl, none_held)
  take_job-Kept b q body (ok job) d =
      let (kept, none_held) = fifo.acked b in
      (rw (kept, d) (append_assoc q.jobs (job ∷ []) (jobs_in codec (ready b))), none_held)

  ended_unheld :
      (b : B) → held b ≡ [] → (ready (broker.close b) ≡ ready b) × (held (broker.close b) ≡ [])
  ended_unheld b h = let (back, none_held) = fifo.ended b in (rw h at back, none_held)

  poll_jobs-Kept :
      (b : B) (q : RabbitMqQueue) (got : Got)
      → (broker.get b jobs_queue_name).1 ≡ got
      → held b ≡ []
      → Kept (b, q) (poll_jobs broker codec (broker.get b jobs_queue_name).0 q got)
  unfolding poll_jobs invalidate_connection
  poll_jobs-Kept b q (failed e) g h =
      let (same, none_held) = fifo.got_error b e g h in
      let (still, none_left) = ended_unheld (broker.get b jobs_queue_name).0 none_held in
      (ground arith, ground arith)
  poll_jobs-Kept b q empty g h =
      let (before, after, none_held) = fifo.got_none b g h in (rw (before, after) refl, none_held)
  poll_jobs-Kept b q (message body) g h =
      let (all, none_held) = take_job-Kept (broker.get b jobs_queue_name).0 q body _ refl in
      (rw (fifo.got_message b body g) all, none_held)

  reconnect_if_needed-Kept :
      (b : B) (q : RabbitMqQueue)
      → held b ≡ []
      → let (b', q', r) = reconnect_if_needed broker b q in Kept (b, q) (b', q')
  unfolding reconnect_if_needed
  reconnect_if_needed-Kept b q h =
      let (same, none_held) = fifo.dialed b h in
      let (still, none_left) = fifo.opened (broker.dial b).0 none_held in
      let (again, never) = ended_unheld (broker.open_channel (broker.dial b).0).0 none_left in
      (ground arith, ground arith)

  wait_or_poll_jobs-Kept :
      (b : B) (q : RabbitMqQueue) (r : Fallible (Unit {0}))
      → held b ≡ []
      → Kept (b, q) (wait_or_poll_jobs broker codec b q r)
  unfolding wait_or_poll_jobs
  wait_or_poll_jobs-Kept b q (err e) h = (refl, h)
  wait_or_poll_jobs-Kept b q (ok u) h = poll_jobs-Kept b q _ refl h

  -- A round of the consumer, whatever fails in it.
  pub consume_job-Kept :
      (s : B × RabbitMqQueue) → held s.0 ≡ [] → Kept s (consume_job broker codec s)
  unfolding consume_job
  consume_job-Kept (b, q) h =
      let (same, none_held) = reconnect_if_needed-Kept b q h in
      let (still, none_left) = wait_or_poll_jobs-Kept _ _ _ none_held in (still ∙ same, none_left)

  -- Over any number of rounds of ConsumeJobs, with connections that fail and are renewed, and with
  -- messages that are no jobs: what has been received and what waits in the broker make up the
  -- same jobs, in the same order. None is lost, and none is received twice.
  pub consume_jobs-Kept :
      (n : ℕ) (s : B × RabbitMqQueue)
      → held s.0 ≡ []
      → Kept s (rounds n (consume_job broker codec) s)
  unfolding rounds
  consume_jobs-Kept zero s h = (refl, h)
  consume_jobs-Kept (suc n) s h =
      let (same, none_held) = consume_job-Kept s h in
      let (still, none_left) = consume_jobs-Kept n (consume_job broker codec s) none_held in
      (still ∙ same, none_left)

-- A broker that can always be reached, and whose connections stay open.
pub record NeverFails {B : Type 0} (broker : Broker B) : Type 0 where
  pub open_conn : (b : B) → broker.is_closed b ≡ false
  pub gets : (b : B) (e : Error) → (broker.get b jobs_queue_name).1 ≢ failed e
