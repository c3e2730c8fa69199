-- ===== src/Queue/Rabbit/Consume.antt =====
-- The loops that take messages from the broker: ConsumeJobs and ConsumeResults.
use mrvacommander.Prelude.{ℕ, zero, suc, [], ◌∷◌, ◌++◌, ok, err}
use mrvacommander.Common.Errors.{Fallible}
use mrvacommander.Queue.Types.{AnalyzeJob, AnalyzeResult}
use mrvacommander.Queue.Rabbit.{Broker, RabbitMqQueue, Codec, Got, failed, empty, message}
use mrvacommander.Queue.Rabbit.Connect.{
  reconnect_if_needed, invalidate_connection, jobs_queue_name, results_queue_name,
}

module _ {B : Type 0} (broker : Broker B) (codec : Codec) where
  -- A message is acknowledged once a worker has received its job, and rejected for good if it is
  -- none.
  unfoldable pub take_job : B → RabbitMqQueue → Fallible AnalyzeJob → B × RabbitMqQueue
  take_job b q (err e) = ((broker.nack b).0, q)
  take_job b q (ok job) = ((broker.ack b).0, record q { jobs = q.jobs ++ job ∷ [] })

  unfoldable pub poll_jobs : B → RabbitMqQueue → Got → B × RabbitMqQueue
  unfolding take_job invalidate_connection
  poll_jobs b q (failed e) = invalidate_connection broker b q
  poll_jobs b q empty = (b, q)
  poll_jobs b q (message body) = take_job b q (codec.unmarshal_job body)

  -- A round waits where there is no connection, and polls where there is one.
  unfoldable pub wait_or_poll_jobs : B → RabbitMqQueue → Fallible (Unit {0}) → B × RabbitMqQueue
  unfolding poll_jobs
  wait_or_poll_jobs b q (err e) = (b, q)
  wait_or_poll_jobs b q (ok u) =
      poll_jobs (broker.get b jobs_queue_name).0 q (broker.get b jobs_queue_name).1

  -- A round of ConsumeJobs.
  unfoldable pub consume_job : B × RabbitMqQueue → B × RabbitMqQueue
  unfolding wait_or_poll_jobs reconnect_if_needed
  consume_job (b, q) = let (b', q', r) = reconnect_if_needed broker b q in wait_or_poll_jobs b' q' r

  unfoldable pub take_result : B → RabbitMqQueue → Fallible AnalyzeResult → B × RabbitMqQueue
  take_result b q (err e) = ((broker.nack b).0, q)
  take_result b q (ok result) = ((broker.ack b).0, record q { results = q.results ++ result ∷ [] })

  -- Here an error leaves the connection as it is.
  unfoldable pub poll_results : B → RabbitMqQueue → Got → B × RabbitMqQueue
  unfolding take_result
  poll_results b q (failed e) = (b, q)
  poll_results b q empty = (b, q)
  poll_results b q (message body) = take_result b q (codec.unmarshal_result body)

  unfoldable pub wait_or_poll_results : B → RabbitMqQueue → Fallible (Unit {0}) → B × RabbitMqQueue
  unfolding poll_results
  wait_or_poll_results b q (err e) = (b, q)
  wait_or_poll_results b q (ok u) =
      poll_results (broker.get b results_queue_name).0 q (broker.get b results_queue_name).1

  -- A round of ConsumeResults.
  unfoldable pub consume_result : B × RabbitMqQueue → B × RabbitMqQueue
  unfolding wait_or_poll_results reconnect_if_needed
  consume_result (b, q) =
      let (b', q', r) = reconnect_if_needed broker b q in wait_or_poll_results b' q' r

-- The first rounds of an endless loop.
unfoldable pub rounds : {S : Type 0} → ℕ → (S → S) → S → S
rounds zero round s = s
rounds (suc n) round s = rounds n round (round s)
