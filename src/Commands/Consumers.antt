-- ===== src/Commands/Consumers.antt =====
-- The main functions of cmd/ledger-consumer, cmd/fraud-consumer and cmd/notification-consumer.
pub mod Booked
use distributed_payment_pipe.Base.{ℕ, Bool, List, some}
use distributed_payment_pipe.Text.{Text, codes}
use distributed_payment_pipe.Errors.{
  Result, ok, err, Outcome, nil, Reply, reply_outcome, ◌>>=◌, ◌>>◌,
}
use distributed_payment_pipe.Domain.{Time}
use distributed_payment_pipe.Configuration.{Environment, load}
use distributed_payment_pipe.Kafka.{Handler, Publish, DlqMessage, topic_payments_received}
use distributed_payment_pipe.Kafka.Brokers.{new_consumer, new_producer}
use distributed_payment_pipe.Kafka.Consume.{Poll, Consumed, consume}
use distributed_payment_pipe.Kafka.Retry.{RetryConfig}
use distributed_payment_pipe.Store.{new_store}
use distributed_payment_pipe.Outbox.{EventCodec}
use distributed_payment_pipe.Consumer.{
  LedgerWorld, handle_ledger, handle_notification, ledger_config, on_broker,
}
use distributed_payment_pipe.Fraud.{FraudWorld, Velocity, handle_fraud}
use distributed_payment_pipe.Commands.{Exit, Calls, finish, retrying}

-- What a process of a consumer gets from outside: the answers of pgxpool.New to a URL, for
-- the pool of `main` and that of the store, of kgo.NewClient for the producer and for the consumer, the polls, the times of the calls, and
-- whether the context is cancelled in the end.
pub record Host (B : Type 0) : Type 0 where
  pub new_pool : Text → Reply
  pub new_store_pool : Text → Reply
  pub new_producer_client : List Text → Result (Publish B)
  pub new_consumer_client : Reply
  pub polls : List Poll
  pub clock : ℕ → Time
  pub cancelled : Bool

-- The consumer and the producer of the dead letters.
unfoldable pub connect : {B : Type 0} → Host B → Environment → Result (List Text × Publish B)
connect host env = do
  brokers ← new_consumer (load env).kafka_broker
  publish ← new_producer host.new_producer_client (load env).kafka_broker
  ok (brokers, publish)

-- `consumer.Consume(ctx, kafka.TopicPaymentsReceived, consumerGroup, handler)`, and what follows.
unfoldable pub consume_with :
    {B S : Type 0}
    → Host B
    → List Text
    → RetryConfig S
    → Handler S
    → Consumed (Calls S)
    → Exit × Consumed (Calls S)
unfolding finish
consume_with host brokers c handler w =
    let (next, w') =
      consume (some brokers) topic_payments_received c.consumer_group
        (some (retrying c handler host.clock)) host.new_consumer_client host.polls w in
    (finish host.cancelled next, w')

-- A handler and a producer on the two parts of a state.
abbrev pub on_world : {S B : Type 0} → Handler S → Handler (S × B)
on_world handler key payload (s, b) = let (o, s') = handler key payload s in (o, (s', b))

abbrev pub on_dead_letters : {S B : Type 0} → Publish B → Publish (S × B)
on_dead_letters publish topic key payload (s, b) =
    let (o, b') = publish topic key payload b in (o, (s, b'))

-- `kafka.RetryHandler(…, dlqProducer, kafka.TopicPaymentsReceived, consumerGroup, 3)`
unfoldable pub retries :
    {S : Type 0} → Publish S → (DlqMessage → Result Text) → Text → RetryConfig S
retries publish marshal consumer_group = record {
  publish = publish;
  marshal = marshal;
  topic = topic_payments_received;
  consumer_group = consumer_group;
  max_attempts = 3;
}

-- The parts of the ledger consumer: a pool, the consumer, the producer, a store with its own pool.
unfoldable pub ledger_start : {B : Type 0} → Host B → Environment → Result (List Text × Publish B)
unfolding connect
ledger_start host env = do
  reply_outcome (host.new_pool (load env).postgres_url)
  parts ← connect host env
  new_store (load env).postgres_url host.new_store_pool
  ok parts

module _ {B : Type 0} (host : Host B) (env : Environment) (marshal : DlqMessage → Result Text)
    (codec : EventCodec) where
  -- `main` of cmd/ledger-consumer
  unfoldable pub run_ledger_consumer :
      Consumed (Calls (LedgerWorld B)) → Exit × Consumed (Calls (LedgerWorld B))
  unfolding ledger_start consume_with
  run_ledger_consumer w = elim (ledger_start host env) [
    | err e ↦ (Exit.died e, w)
    | ok (brokers, publish) ↦
        consume_with host brokers (ledger_config publish marshal) (handle_ledger codec) w
  ]

  -- `main` of cmd/fraud-consumer: a pool, the consumer, the producer.
  unfoldable pub run_fraud_consumer :
      {R : Type 0}
      → (List Text → Result Text)
      → Velocity R
      → Consumed (Calls (FraudWorld R × B))
      → Exit × Consumed (Calls (FraudWorld R × B))
  unfolding connect consume_with retries
  run_fraud_consumer marshal_signals velocity w =
      elim (reply_outcome (host.new_pool (load env).postgres_url) >> connect host env) [
        | err e ↦ (Exit.died e, w)
        | ok (brokers, publish) ↦
            consume_with host brokers
              (retries (on_dead_letters publish) marshal (codes "fraud-consumer"))
              (on_world (handle_fraud codec marshal_signals velocity)) w
      ]

  -- `main` of cmd/notification-consumer: the consumer, the producer.
  unfoldable pub run_notification_consumer : Consumed (Calls B) → Exit × Consumed (Calls B)
  unfolding connect consume_with retries
  run_notification_consumer w = elim (connect host env) [
    | err e ↦ (Exit.died e, w)
    | ok (brokers, publish) ↦
        consume_with host brokers (retries publish marshal (codes "notification-consumer"))
          (handle_notification codec) w
  ]
