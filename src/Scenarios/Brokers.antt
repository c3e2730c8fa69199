-- ===== src/Scenarios/Brokers.antt =====
-- A broker in memory, and one whose channel is lost.
use mrvacommander.Prelude.{
  if◌then◌else◌, pos, Bytes, ascii, bytes_beq, true, false, List, [], ◌∷◌, ◌++◌, ok, err, length,
  ◌≡◌, refl, arith,
}
use mrvacommander.Common.Types.{status_succeeded}
use mrvacommander.Common.Errors.{Error, message as text}
use mrvacommander.ArtifactStore.Types.{no_location}
use mrvacommander.Queue.Types.{AnalyzeResult}
use mrvacommander.Queue.Rabbit.{
  Broker, RabbitMqQueue, Codec, Got, failed, empty, message, confirmed,
}
use mrvacommander.Queue.Rabbit.Connect.{jobs_queue_name}
use mrvacommander.Queue.Rabbit.Consume.{consume_job, consume_result, rounds, poll_jobs}
use mrvacommander.Queue.Rabbit.Publish.{publish_job, publish_result, publish_all, returned, panics}
use mrvacommander.Queue.Rabbit.Delivery.{IsFifo, NeverFails, jobs_in, Kept, consume_jobs-Kept}
use mrvacommander.Queue.Rabbit.Drain.{Confirms, published-consumed}
use mrvacommander.Queue.Rabbit.Trouble.{consume_results_stuck, consume_jobs_failed}
use mrvacommander.Scenarios.{job, spec}

record Messages : Type 0 where
  ready : List Bytes
  held : List Bytes

abbrev taken : Messages → List Bytes → Messages × Got
taken b [] = (b, empty)
taken b (body ∷ bodies) = (record { ready = bodies; held = body ∷ b.held }, message body)

abbrev broker : Broker Messages
broker = record {
  dial = λ b. (b, ok tt);
  open_channel = λ b. (b, ok tt);
  close = λ b. record { ready = b.held ++ b.ready; held = [] };
  is_closed = λ b. false;
  declare = λ b name. (b, ok tt);
  qos = λ b. (b, ok tt);
  get = λ b name. taken b b.ready;
  ack = λ b. (record b { held = [] }, ok tt);
  nack = λ b. (record b { held = [] }, ok tt);
  confirm = λ b. (b, ok tt);
  notify_publish = λ b. b;
  publish = λ b name body. (record b { ready = b.ready ++ body ∷ [] }, confirmed true);
}

taken-message :
    (b : Messages) (bodies : List Bytes) (body : Bytes)
    → (taken b bodies).1 ≡ message body
    → bodies ≡ body ∷ (taken b bodies).0.ready
taken-message b [] body e = ground arith
taken-message b (first ∷ bodies) body e = ground arith

taken-none :
    (b : Messages) (bodies : List Bytes)
    → b.ready ≡ bodies
    → (taken b bodies).1 ≡ empty
    → b.held ≡ []
    → (bodies ≡ []) × ((taken b bodies).0.ready ≡ []) × ((taken b bodies).0.held ≡ [])
taken-none b [] same e h = (refl, same, h)
taken-none b (first ∷ bodies) same e h = absurd (ground arith)

taken-error : (b : Messages) (bodies : List Bytes) (x : Error) → (taken b bodies).1 ≡ failed x → ⊥
taken-error b [] x e = ground arith
taken-error b (first ∷ bodies) x e = ground arith

fifo : IsFifo broker (λ (b : Messages). b.ready) (λ (b : Messages). b.held)
fifo = record {
  dialed = λ b h. (refl, h);
  opened = λ b h. (refl, h);
  ended = λ b. (refl, refl);
  got_message = λ b body e. taken-message b b.ready body e;
  got_none = λ b e h. taken-none b b.ready refl e h;
  got_error = λ b x e h. absurd (taken-error b b.ready x e);
  acked = λ b. (refl, refl);
  nacked = λ b. (refl, refl);
}

never_fails : NeverFails broker
never_fails = record { open_conn = λ b. refl; gets = λ b x e. taken-error b b.ready x e }

confirms : Confirms broker (λ (b : Messages). b.ready) (λ (b : Messages). b.held)
confirms = record { published = λ b body. (refl, refl, refl) }

abbrev a_result : AnalyzeResult
a_result = record {
  spec = spec;
  status = status_succeeded;
  result_count = pos 2;
  result_location = no_location;
  source_location_prefix = [];
  database_sha = [];
}

-- The coding of one job and one result.
abbrev codec : Codec
codec = record {
  marshal_job = λ j. ok (ascii "job");
  unmarshal_job = λ body.
      if bytes_beq body (ascii "job") then ok job else err (text (ascii "invalid character"));
  marshal_result = λ r. ok (ascii "result");
  unmarshal_result = λ body. ok a_result;
}

abbrev linked : RabbitMqQueue
linked = record { conn = true; channel = true; jobs = []; results = [] }

abbrev two_messages : Messages
two_messages = record { ready = ascii "junk" ∷ ascii "job" ∷ []; held = [] }

consume_jobs-Kept_example :
    Kept broker codec
      (λ (b : Messages). b.ready)
      (λ (b : Messages). b.held)
      fifo
      (two_messages, linked)
      (rounds 2 (consume_job broker codec) (two_messages, linked))
consume_jobs-Kept_example =
    consume_jobs-Kept broker codec (λ (b : Messages). b.ready) (λ (b : Messages). b.held) fifo 2
      (two_messages, linked) refl

published-consumed_example :
    (b' : Messages) × (publish_all (publish_job broker codec) two_messages linked (job ∷ job ∷ [])
      ≡ returned b')
    × ((rounds (length b'.ready) (consume_job broker codec) (b', linked)).1.jobs
        ≡ jobs_in codec two_messages.ready ++ job ∷ job ∷ [])
unfolding bytes_beq
published-consumed_example =
    published-consumed broker codec (λ (b : Messages). b.ready) (λ (b : Messages). b.held) linked
      linked two_messages (job ∷ job ∷ []) fifo never_fails confirms
      ((ascii "job", refl, refl), ((ascii "job", refl, refl), tt)) refl refl refl refl

abbrev channel_closed : Error
channel_closed = text (ascii "channel/connection is not open")

-- The channel is lost, and comes back with a new connection.
data Channel : Type 0 where
  dead fresh : Channel

abbrev lossy : Broker Channel
lossy = record {
  dial = λ b. (b, ok tt);
  open_channel = λ b. (fresh, ok tt);
  close = λ b. b;
  is_closed = λ b. false;
  declare = λ b name. (b, ok tt);
  qos = λ b. (b, ok tt);
  get = λ b name. elim b [
    | dead ↦ (dead, failed channel_closed)
    | fresh ↦ (fresh, message (ascii "job"))
  ];
  ack = λ b. (b, ok tt);
  nack = λ b. (b, ok tt);
  confirm = λ b. (b, ok tt);
  notify_publish = λ b. b;
  publish = λ b name body. (b, confirmed true);
}

consume_results_stuck_example :
    rounds 100 (consume_result lossy codec) (dead, linked) ≡ (dead, linked)
consume_results_stuck_example =
    consume_results_stuck lossy codec dead linked channel_closed refl refl refl refl 100

consume_jobs_failed_example :
    let (b', q') = consume_job lossy codec (dead, linked) in
    (b' ≡ lossy.close dead)
    × (q'.conn ≡ false)
    × (q'.channel ≡ false)
    × (publish_all (publish_result lossy codec) b' q' (a_result ∷ []) ≡ panics)
    × (consume_job lossy codec (b', q')
        ≡ poll_jobs lossy codec
            (lossy.get fresh jobs_queue_name).0
            linked
            (lossy.get fresh jobs_queue_name).1)
consume_jobs_failed_example =
    consume_jobs_failed lossy codec dead dead dead fresh linked channel_closed a_result []
      (ascii "result") refl refl refl refl refl refl refl
