-- ===== src/Queue/Rabbit.antt =====
-- pkg/queue/queue_rabbitmq.go: the connection to the broker, and the loops of its two ends.
pub mod Connect
pub mod Consume
pub mod Publish
pub mod Delivery
pub mod Drain
pub mod Trouble
use mrvacommander.Prelude.{Bytes, Bool, List}
use mrvacommander.Common.Errors.{Error, Fallible}
use mrvacommander.Queue.Types.{AnalyzeJob, AnalyzeResult}

-- What a `Get` answers: an error, no message, or the body of one.
pub data Got : Type 0 where
  failed : Error → Got
  empty : Got
  message : Bytes → Got

-- What a publisher receives behind a `PublishWithContext`: a confirmation, with its `Ack`, the
-- zero value of a channel that was closed, or nothing at all.
pub data Confirmation : Type 0 where
  confirmed : Bool → Confirmation
  closed no_answer : Confirmation

-- The AMQP library and the broker behind it, over their state `B`.
pub record Broker (B : Type 0) : Type 0 where
  pub dial : B → B × Fallible (Unit {0})
  pub open_channel : B → B × Fallible (Unit {0})
  pub close : B → B
  pub is_closed : B → Bool
  pub declare : B → Bytes → B × Fallible (Unit {0})
  pub qos : B → B × Fallible (Unit {0})
  pub get : B → Bytes → B × Got
  pub ack : B → B × Fallible (Unit {0})
  pub nack : B → B × Fallible (Unit {0})
  pub confirm : B → B × Fallible (Unit {0})
  -- the confirmations are also sent to every listener that was added before
  pub notify_publish : B → B
  pub publish : B → Bytes → Bytes → B × Confirmation

-- A queue: whether it has a connection and a channel, and what has gone through its Go channels,
-- oldest first.
pub record RabbitMqQueue : Type 0 where
  pub conn : Bool
  pub channel : Bool
  pub jobs : List AnalyzeJob
  pub results : List AnalyzeResult

-- encoding/json on the two kinds of messages.
pub record Codec : Type 0 where
  pub marshal_job : AnalyzeJob → Fallible Bytes
  pub unmarshal_job : Bytes → Fallible AnalyzeJob
  pub marshal_result : AnalyzeResult → Fallible Bytes
  pub unmarshal_result : Bytes → Fallible AnalyzeResult
