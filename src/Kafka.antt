-- ===== src/Kafka.antt =====
-- internal/kafka: the names of the topics, and the interfaces of handlers and producers. What the
-- franz-go client does stays a parameter: an operation on a state of the caller's choice.
pub mod Brokers
pub mod Consume
pub mod Retry
use distributed_payment_pipe.Base.{ℕ, ◌∷◌, []}
use distributed_payment_pipe.Text.{Text, codes}
use distributed_payment_pipe.Errors.{Outcome, Result}
use distributed_payment_pipe.Domain.{Time}

abbrev pub topic_payments_received : Text
topic_payments_received = codes "payments.received"

abbrev pub topic_payments_settled : Text
topic_payments_settled = codes "payments.settled"

abbrev pub topic_payouts_requested : Text
topic_payouts_requested = codes "payouts.requested"

abbrev pub topic_dlq : Text
topic_dlq = codes "payments.dlq"

-- `func(ctx, key, payload) error`, on the state that it changes.
abbrev pub Handler {ℓ} : Type ℓ → Type ℓ
Handler S = Text → Text → S → Outcome × S

-- `Producer.Publish(ctx, topic, partitionKey, payload)`
abbrev pub Publish {ℓ} : Type ℓ → Type ℓ
Publish S = Text → Text → Text → S → Outcome × S

pub record DlqMessage : Type 0 where
  pub original_topic : Text
  pub original_key : Text
  pub original_payload : Text
  pub error : Text
  pub attempts : ℕ
  pub failed_at : Time
  pub consumer_group : Text
