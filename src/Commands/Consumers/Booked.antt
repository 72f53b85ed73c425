-- ===== src/Commands/Consumers/Booked.antt =====
-- The process of the ledger consumer keeps the tables consistent.
use distributed_payment_pipe.Base.{List, inl, inr}
use distributed_payment_pipe.Text.{Text}
use distributed_payment_pipe.Errors.{Result, Result-cases}
use distributed_payment_pipe.Configuration.{Environment}
use distributed_payment_pipe.Kafka.{Handler, DlqMessage, topic_payments_received}
use distributed_payment_pipe.Kafka.Consume.{Consumed}
use distributed_payment_pipe.Kafka.Consume.Keeps.{consume_keeps}
use distributed_payment_pipe.Kafka.Retry.{RetryConfig}
use distributed_payment_pipe.Kafka.Retry.Runs.{retry_handler_keeps}
use distributed_payment_pipe.Outbox.{EventCodec}
use distributed_payment_pipe.Consumer.{LedgerWorld, handle_ledger, ledger_config}
use distributed_payment_pipe.System.Consistent.{IsConsistent, IsConsistent-IsStable}
use distributed_payment_pipe.System.Kept.{handle_ledger_keeps}
use distributed_payment_pipe.Commands.{Calls, retrying}
use distributed_payment_pipe.Commands.Consumers.{
  Host, ledger_start, consume_with, run_ledger_consumer,
}

consume_with_keeps :
    {B S : Type 0} (P : S → Type 0) (host : Host B) (brokers : List Text) (c : RetryConfig S)
    (handler : Handler S)
    → ((key payload : Text) (s : S) → P s → P (handler key payload s).1)
    → ((topic key body : Text) (s : S) → P s → P (c.publish topic key body s).1)
    → (w : Consumed (Calls S)) → P w.world.world
    → P (consume_with host brokers c handler w).1.world.world
unfolding consume_with retrying
consume_with_keeps P host brokers c handler keep put w h =
    consume_keeps (λ (v : Calls _). P v.world) (retrying c handler host.clock)
      (λ key payload v hv.
        retry_handler_keeps P c handler key payload (host.clock v.calls) (keep key payload)
          (put _ key) v.world hv)
      brokers topic_payments_received c.consumer_group host.new_consumer_client host.polls w h

-- Whatever the process of the ledger consumer meets, from its start to whatever moment: its
-- environment, the answers of Postgres and Kafka to each call, the records that it polls, with
-- repetitions, and the failures of its commits. The unique keys of the tables hold, each payment
-- has no leg or one balanced pair, and the ledger sums to zero, if that held at the start.
pub run_ledger_consumer-IsConsistent :
    {B : Type 0} (host : Host B) (env : Environment) (marshal : DlqMessage → Result Text)
    (codec : EventCodec) (w : Consumed (Calls (LedgerWorld B)))
    → IsConsistent w.world.world.db
    → IsConsistent (run_ledger_consumer host env marshal codec w).1.world.world.db
unfolding run_ledger_consumer ledger_config
run_ledger_consumer-IsConsistent host env marshal codec w h =
    elim (Result-cases (ledger_start host env)) [
      | inr (e, bad) ↦ rw (bad, run_ledger_consumer) h
      | inl ((brokers, publish), good) ↦
          rw (good, run_ledger_consumer)
            (consume_with_keeps (λ (v : LedgerWorld _). IsConsistent v.db) host brokers
              (ledger_config publish marshal) (handle_ledger codec)
              (handle_ledger_keeps IsConsistent IsConsistent-IsStable codec)
              (λ topic key body v hv. hv) w h)
    ]
