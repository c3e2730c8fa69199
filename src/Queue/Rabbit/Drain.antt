-- ===== src/Queue/Rabbit/Drain.antt =====
-- Jobs on their way from the server to an agent, while the broker can be reached.
use mrvacommander.Queue.Rabbit.Delivery.{
  job_and, IsFifo, NeverFails, jobs_in, consume_job-Kept, consume_jobs-Kept,
}
use mrvacommander.Prelude.{
  Bytes, true, List, [], ◌∷◌, ◌++◌, ok, err, ◌≡◌, refl, sym, ap, ◌∙◌, length, All, arith,
}
use mathlib.Core.List.{append_assoc, append-nil}
use mrvacommander.Common.Errors.{Fallible}
use mrvacommander.Queue.Types.{AnalyzeJob}
use mrvacommander.Queue.Rabbit.{
  Broker, RabbitMqQueue, Codec, Got, failed, empty, message, confirmed,
}
use mrvacommander.Queue.Rabbit.Connect.{reconnect_if_needed, jobs_queue_name}
use mrvacommander.Queue.Rabbit.Consume.{take_job, poll_jobs, wait_or_poll_jobs, consume_job, rounds}
use mrvacommander.Queue.Rabbit.Publish.{publish_bytes, publish_job, publish_all, returned}

module _ {B : Type 0} (broker : Broker B) (codec : Codec) (ready held : B → List Bytes)
    (fifo : IsFifo broker ready held) (up : NeverFails broker) where
  -- A connected queue takes one message in a round, if there is one, and stays connected.
  abbrev Connected : RabbitMqQueue → Type 0
  Connected q = (q.conn ≡ true) × (q.channel ≡ true)

  consume_job-polls :
      (b : B) (q : RabbitMqQueue)
      → Connected q
      → consume_job broker codec (b, q)
        ≡ poll_jobs broker codec (broker.get b jobs_queue_name).0 q (broker.get b jobs_queue_name).1
  unfolding consume_job reconnect_if_needed wait_or_poll_jobs
  consume_job-polls b q (c, d) = ground (arith, up.open_conn b)

  take_job-Connected :
      (b : B) (q : RabbitMqQueue) (r : Fallible AnalyzeJob)
      → Connected q
      → Connected (take_job broker codec b q r).1
  unfolding take_job
  take_job-Connected b q (ok job) c = c
  take_job-Connected b q (err e) c = c

  take_job-ready :
      (b : B) (q : RabbitMqQueue) (r : Fallible AnalyzeJob)
      → ready (take_job broker codec b q r).0 ≡ ready b
  unfolding take_job
  take_job-ready b q (ok job) = (fifo.acked b).0
  take_job-ready b q (err e) = (fifo.nacked b).0

  -- A round takes the oldest message.
  poll_jobs-step :
      (b : B) (q : RabbitMqQueue) (got : Got) (body : Bytes) (bodies : List Bytes)
      → (broker.get b jobs_queue_name).1 ≡ got
      → held b ≡ []
      → Connected q
      → ready b ≡ body ∷ bodies
      → let s = poll_jobs broker codec (broker.get b jobs_queue_name).0 q got in
        (ready s.0 ≡ bodies) × Connected s.1
  unfolding poll_jobs
  poll_jobs-step b q (failed e) body bodies g h c r = absurd (up.gets b e g)
  poll_jobs-step b q empty body bodies g h c r = absurd (cc (r, (fifo.got_none b g h).0))
  poll_jobs-step b q (message m) body bodies g h c r =
      (take_job-ready _ q _ ∙ ground (arith, fifo.got_message b m g), take_job-Connected _ q _ c)

  consume_job-step :
      (s : B × RabbitMqQueue) (body : Bytes) (bodies : List Bytes)
      → held s.0 ≡ []
      → Connected s.1
      → ready s.0 ≡ body ∷ bodies
      → (ready (consume_job broker codec s).0 ≡ bodies) × Connected (consume_job broker codec s).1
  consume_job-step (b, q) body bodies h c r =
      rw (consume_job-polls b q c) (poll_jobs-step b q _ body bodies refl h c r)

  consume_jobs-ready :
      (bodies : List Bytes) (s : B × RabbitMqQueue)
      → ready s.0 ≡ bodies
      → held s.0 ≡ []
      → Connected s.1
      → ready (rounds (length bodies) (consume_job broker codec) s).0 ≡ []
  unfolding rounds
  consume_jobs-ready [] s r h c = r
  consume_jobs-ready (body ∷ bodies) s r h c =
      let (less, still) = consume_job-step s body bodies h c r in
      let (same, none_held) = consume_job-Kept broker codec ready held fifo s h in
      consume_jobs-ready bodies (consume_job broker codec s) less none_held still

  -- While nothing fails, ConsumeJobs empties the queue: after as many rounds as messages wait, none
  -- does, and the agent has received the job of each, in their order.
  pub consume_jobs-Drained :
      (b : B) (q : RabbitMqQueue)
      → held b ≡ []
      → q.conn ≡ true
      → q.channel ≡ true
      → let s = rounds (length (ready b)) (consume_job broker codec) (b, q) in
        (ready s.0 ≡ []) × (s.1.jobs ≡ q.jobs ++ jobs_in codec (ready b))
  unfolding jobs_in
  consume_jobs-Drained b q h c d =
      let gone = consume_jobs-ready (ready b) (b, q) refl h (c, d) in
      let (same, none_held) =
        consume_jobs-Kept broker codec ready held fifo (length (ready b)) (b, q) h in
      (gone, sym (append-nil _) ∙ (rw gone at same))

-- What a publisher relies on: a confirmed message stands at the end of the queue.
pub record Confirms {B : Type 0} (broker : Broker B) (ready held : B → List Bytes) : Type 0 where
  pub published :
      (b : B) (body : Bytes)
      → ((broker.publish (broker.notify_publish (broker.confirm b).0) jobs_queue_name body).1
          ≡ confirmed true)
        × (ready
              (broker.publish (broker.notify_publish (broker.confirm b).0) jobs_queue_name body).0
            ≡ ready b ++ body ∷ [])
        × (held (broker.publish (broker.notify_publish (broker.confirm b).0) jobs_queue_name body).0
            ≡ held b)

-- A job is encoded, and read back from its encoding.
abbrev pub ReadsBack : Codec → AnalyzeJob → Type 0
ReadsBack codec job =
    (body : Bytes) × (codec.marshal_job job ≡ ok body) × (codec.unmarshal_job body ≡ ok job)

module _ {B : Type 0} (broker : Broker B) (codec : Codec) (ready held : B → List Bytes)
    (confirms : Confirms broker ready held) where
  job_and-append :
      (r : Fallible AnalyzeJob) (xs ys : List AnalyzeJob)
      → job_and r (xs ++ ys) ≡ job_and r xs ++ ys
  job_and-append (ok job) xs ys = refl
  job_and-append (err e) xs ys = refl

  jobs_in-append :
      (xs ys : List Bytes) → jobs_in codec (xs ++ ys) ≡ jobs_in codec xs ++ jobs_in codec ys
  unfolding jobs_in
  jobs_in-append [] ys = refl
  jobs_in-append (x ∷ xs) ys =
      rw (jobs_in-append xs ys) (job_and-append (codec.unmarshal_job x) _ _)

  publish_job-returned :
      (b : B) (q : RabbitMqQueue) (job : AnalyzeJob)
      → ReadsBack codec job
      → q.channel ≡ true
      → (b' : B) × (publish_job broker codec b q job ≡ returned b')
        × (jobs_in codec (ready b') ≡ jobs_in codec (ready b) ++ job ∷ [])
        × (held b' ≡ held b)
  unfolding publish_job publish_bytes jobs_in
  publish_job-returned b q job (body, coded, back) c =
      let (ack, behind, same) = confirms.published b body in
      (
        (broker.publish (broker.notify_publish (broker.confirm b).0) jobs_queue_name body).0,
        ground arith,
        rw behind (
            jobs_in-append (ready b) (body ∷ [])
            ∙ ap (λ (l : List AnalyzeJob). jobs_in codec (ready b) ++ l) (rw back refl)),
        same,
      )

  publish_all-returned :
      (jobs : List AnalyzeJob) (b : B) (q : RabbitMqQueue)
      → All (ReadsBack codec) jobs
      → q.channel ≡ true
      → (b' : B) × (publish_all (publish_job broker codec) b q jobs ≡ returned b')
        × (jobs_in codec (ready b') ≡ jobs_in codec (ready b) ++ jobs)
        × (held b' ≡ held b)
  unfolding publish_all
  publish_all-returned [] b q back c = (b, refl, sym (append-nil _), refl)
  publish_all-returned (job ∷ jobs) b q back c =
      let (b₁, sent, more, same) = publish_job-returned b q job back.0 c in
      let (b₂, rest, all, still) = publish_all-returned jobs b₁ q back.1 c in
      (
        b₂,
        rw (sent, publish_all) rest,
        all ∙ (rw more (append_assoc _ (job ∷ []) jobs)),
        still ∙ same,
      )

-- Jobs that the server sends one after the other, while nothing fails, are received by an agent
-- that polls as often as messages wait: behind the jobs that waited before, exactly once, and in
-- the order of the sends.
pub published-consumed :
    {B : Type 0} (broker : Broker B) (codec : Codec) (ready held : B → List Bytes)
    (server agent : RabbitMqQueue) (b : B) (jobs : List AnalyzeJob)
    → IsFifo broker ready held
    → NeverFails broker
    → Confirms broker ready held
    → All (ReadsBack codec) jobs
    → held b ≡ []
    → server.channel ≡ true
    → agent.conn ≡ true
    → agent.channel ≡ true
    → (b' : B) × (publish_all (publish_job broker codec) b server jobs ≡ returned b')
      × ((rounds (length (ready b')) (consume_job broker codec) (b', agent)).1.jobs
          ≡ agent.jobs ++ (jobs_in codec (ready b) ++ jobs))
published-consumed broker codec ready held server agent b jobs fifo up confirms reads_back h c d e =
    let (b', sent, waiting, same) =
      publish_all-returned broker codec ready held confirms jobs b server reads_back c in
    let (gone, received) =
      consume_jobs-Drained broker codec ready held fifo up b' agent (same ∙ h) d e in
    (b', sent, received ∙ ap (λ (l : List AnalyzeJob). agent.jobs ++ l) waiting)
