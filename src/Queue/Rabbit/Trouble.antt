-- ===== src/Queue/Rabbit/Trouble.antt =====
-- What the loops of a queue do when a channel is lost.
use mrvacommander.Prelude.{ℕ, zero, suc, Bytes, true, false, List, ◌∷◌, ok, ◌≡◌, refl, arith}
use mrvacommander.Common.Errors.{Error}
use mrvacommander.Queue.Types.{AnalyzeResult}
use mrvacommander.Queue.Rabbit.{Broker, RabbitMqQueue, Codec, failed}
use mrvacommander.Queue.Rabbit.Connect.{
  reconnect_if_needed, invalidate_connection, jobs_queue_name, results_queue_name,
}
use mrvacommander.Queue.Rabbit.Consume.{
  poll_jobs, wait_or_poll_jobs, consume_job, poll_results, wait_or_poll_results, consume_result,
  rounds,
}
use mrvacommander.Queue.Rabbit.Publish.{publish_bytes, publish_result, publish_all, panics}

module _ {B : Type 0} (broker : Broker B) (codec : Codec) where
  consume_result-same :
      (b : B) (q : RabbitMqQueue) (e : Error)
      → broker.is_closed b ≡ false
      → q.conn ≡ true
      → q.channel ≡ true
      → broker.get b results_queue_name ≡ (b, failed e)
      → consume_result broker codec (b, q) ≡ (b, q)
  unfolding consume_result reconnect_if_needed wait_or_poll_results poll_results
  consume_result-same b q e open_conn c d dead = ground arith

  -- ConsumeResults never comes back from a channel that is closed while its connection is not: if
  -- `Get` fails on it once and for all, then no number of rounds changes anything, and no later
  -- result is received.
  pub consume_results_stuck :
      (b : B) (q : RabbitMqQueue) (e : Error)
      → broker.is_closed b ≡ false
      → q.conn ≡ true
      → q.channel ≡ true
      → broker.get b results_queue_name ≡ (b, failed e)
      → (n : ℕ) → rounds n (consume_result broker codec) (b, q) ≡ (b, q)
  unfolding rounds
  consume_results_stuck b q e open_conn c d dead zero = refl
  consume_results_stuck b q e open_conn c d dead (suc n) =
      rw (consume_result-same b q e open_conn c d dead, rounds)
        (consume_results_stuck b q e open_conn c d dead n)

  -- What a failed poll leaves.
  abbrev unlinked : RabbitMqQueue → RabbitMqQueue
  unlinked q = record q { conn = false; channel = false }

  consume_job-failed :
      (b b₁ : B) (q : RabbitMqQueue) (e : Error)
      → broker.is_closed b ≡ false
      → q.conn ≡ true
      → q.channel ≡ true
      → broker.get b jobs_queue_name ≡ (b₁, failed e)
      → consume_job broker codec (b, q) ≡ (broker.close b₁, unlinked q)
  unfolding consume_job reconnect_if_needed wait_or_poll_jobs poll_jobs invalidate_connection
  consume_job-failed b b₁ q e open_conn c d lost = ground arith

  consume_job-again :
      (b b₂ b₃ : B) (q : RabbitMqQueue)
      → q.conn ≡ true
      → q.channel ≡ true
      → broker.dial b ≡ (b₂, ok tt)
      → broker.open_channel b₂ ≡ (b₃, ok tt)
      → consume_job broker codec (b, unlinked q)
        ≡ poll_jobs broker codec
            (broker.get b₃ jobs_queue_name).0
            q
            (broker.get b₃ jobs_queue_name).1
  unfolding consume_job reconnect_if_needed wait_or_poll_jobs
  consume_job-again b b₂ b₃ q c d dialed opened = ground arith

  publish_result-unlinked :
      (b : B) (q : RabbitMqQueue) (result : AnalyzeResult) (more : List AnalyzeResult)
      (body : Bytes)
      → codec.marshal_result result ≡ ok body
      → publish_all (publish_result broker codec) b (unlinked q) (result ∷ more) ≡ panics
  unfolding publish_all publish_result publish_bytes
  publish_result-unlinked b q result more body coded = ground arith

  -- After a poll that failed, ConsumeJobs has closed the connection, and the queue has neither a
  -- connection nor a channel: a result that an agent publishes then panics, and the results behind
  -- it are not published either; but the next round of ConsumeJobs polls again, on a new
  -- connection, if one can be had.
  pub consume_jobs_failed :
      (b b₁ b₂ b₃ : B) (q : RabbitMqQueue) (e : Error) (result : AnalyzeResult)
      (more : List AnalyzeResult) (body : Bytes)
      → broker.is_closed b ≡ false
      → q.conn ≡ true
      → q.channel ≡ true
      → broker.get b jobs_queue_name ≡ (b₁, failed e)
      → broker.dial (broker.close b₁) ≡ (b₂, ok tt)
      → broker.open_channel b₂ ≡ (b₃, ok tt)
      → codec.marshal_result result ≡ ok body
      → let (b', q') = consume_job broker codec (b, q) in
        (b' ≡ broker.close b₁)
        × (q'.conn ≡ false)
        × (q'.channel ≡ false)
        × (publish_all (publish_result broker codec) b' q' (result ∷ more) ≡ panics)
        × (consume_job broker codec (b', q')
            ≡ poll_jobs broker codec
                (broker.get b₃ jobs_queue_name).0
                q
                (broker.get b₃ jobs_queue_name).1)
  consume_jobs_failed b b₁ b₂ b₃ q e result more body open_conn c d lost dialed opened coded =
      let left = consume_job-failed b b₁ q e open_conn c d lost in
      (
        rw left refl,
        rw left refl,
        rw left refl,
        rw left (publish_result-unlinked (broker.close b₁) q result more body coded),
        rw left (consume_job-again (broker.close b₁) b₂ b₃ q c d dialed opened),
      )
