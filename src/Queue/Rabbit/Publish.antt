-- ===== src/Queue/Rabbit/Publish.antt =====
-- The loops that hand messages to the broker: PublishJobs and PublishResults.
use mrvacommander.Prelude.{Bytes, List, [], ◌∷◌, ok, err, if◌then◌else◌}
use mrvacommander.Common.Errors.{Fallible}
use mrvacommander.Queue.Types.{AnalyzeJob, AnalyzeResult}
use mrvacommander.Queue.Rabbit.{
  Broker, RabbitMqQueue, Codec, Confirmation, confirmed, closed, no_answer,
}
use mrvacommander.Queue.Rabbit.Connect.{jobs_queue_name, results_queue_name}

-- How a publisher goes on: it returns, it waits for a confirmation that never comes, or it panics
-- for want of a channel.
pub data Next (B : Type 0) : Type 0 where
  returned waits : B → Next B
  panics : Next B

abbrev answered : {B : Type 0} → B × Confirmation → Next B
answered (b, confirmed ack) = returned b
answered (b, closed) = returned b
answered (b, no_answer) = waits b

module _ {B : Type 0} (broker : Broker B) where
  -- Each publish adds one more listener for confirmations to the channel.
  unfoldable pub publish_bytes : Bytes → B → RabbitMqQueue → Fallible Bytes → Next B
  publish_bytes name b q (err e) = returned b
  publish_bytes name b q (ok body) =
      if q.channel
      then answered (broker.publish (broker.notify_publish (broker.confirm b).0) name body)
      else panics

  unfoldable pub publish_job : Codec → B → RabbitMqQueue → AnalyzeJob → Next B
  unfolding publish_bytes
  publish_job codec b q job = publish_bytes jobs_queue_name b q (codec.marshal_job job)

  unfoldable pub publish_result : Codec → B → RabbitMqQueue → AnalyzeResult → Next B
  unfolding publish_bytes
  publish_result codec b q result =
      publish_bytes results_queue_name b q (codec.marshal_result result)

-- The loop over a Go channel, given what is sent on it; what a publisher that does not return
-- leaves behind is never published.
unfoldable pub publish_all :
    {A B : Type 0} → (B → RabbitMqQueue → A → Next B) → B → RabbitMqQueue → List A → Next B
publish_all publish b q [] = returned b
publish_all publish b q (a ∷ rest) = elim (publish b q a) [
  | returned b' ↦ publish_all publish b' q rest
  | waits b' ↦ waits b'
  | panics ↦ panics
]
