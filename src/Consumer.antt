-- ===== src/Consumer.antt =====
-- The handlers of cmd/ledger-consumer, cmd/notification-consumer and cmd/fraud-consumer: the part
-- that they share, which reads an event, and the whole handler of the ledger consumer.
pub mod Redelivery
pub mod FailedRetry
use distributed_payment_pipe.Base.{ℕ, suc, Bool, ◌||◌, [], ◌∷◌, ◌++◌, none, if◌then◌else◌}
use distributed_payment_pipe.Base.Int.{pos}
use distributed_payment_pipe.Text.{Text, codes, text_eq}
use distributed_payment_pipe.Errors.{
  Failure, non_retryable, new_error, wrap, Result, ok, err, Outcome, nil, ◌>>=◌, context,
}
use distributed_payment_pipe.Domain.{Time, Transaction}
use distributed_payment_pipe.Db.{Db}
use distributed_payment_pipe.Kafka.{Handler, Publish, DlqMessage, topic_payments_received}
use distributed_payment_pipe.Kafka.Retry.{RetryConfig, Returned, retry_handler}
use distributed_payment_pipe.Outbox.{PaymentReceivedEvent, EventCodec}
use distributed_payment_pipe.Ledger.{PostReplies, post}

-- `fmt.Errorf("%w: unmarshal: %w", kafka.ErrNonRetryable, err)`
unfoldable pub not_retryable : Failure → Failure
not_retryable e = record {
  message = codes "non-retryable error: unmarshal: " ++ e.message;
  chain = non_retryable ∷ e.chain;
}

-- The fields that the handlers copy; the others have Go's zero value.
unfoldable pub transaction_of_event : PaymentReceivedEvent → Transaction
transaction_of_event e = record {
  payment_id = e.payment_id;
  idempotency_key = [];
  source = e.source;
  external_txn_id = [];
  account_id = e.account_id;
  amount = record { minor_units = e.amount_minor; currency = e.currency };
  state = e.state;
  schema_version = 0;
  metadata = none;
  created_at = e.created_at;
  updated_at = pos 0;
}

-- The event has no payment id, no account or no currency.
unfoldable pub is_malformed : PaymentReceivedEvent → Bool
is_malformed e = text_eq e.payment_id [] || text_eq e.account_id [] || text_eq e.currency []

unfoldable pub read_event : EventCodec → Text → Result Transaction
unfolding not_retryable transaction_of_event is_malformed
read_event codec payload = elim (codec.unmarshal payload) [
  | err e ↦ err (not_retryable e)
  | ok e ↦
      if is_malformed e
      then err (not_retryable (new_error (codes "malformed event")))
      else ok (transaction_of_event e)
]

-- The handler of the notification consumer only logs.
unfoldable pub handle_notification {ℓ} : {S : Type ℓ} → EventCodec → Handler S
unfolding read_event
handle_notification codec key payload s = ((read_event codec payload >>= λ _. nil), s)

-- What the ledger consumer works on: the tables; the answers to each call of `Post` and its time,
-- by the number of the call; and the broker, which only the producer changes.
pub record LedgerWorld (B : Type 0) : Type 0 where
  pub db : Db
  pub replies : ℕ → PostReplies
  pub clock : ℕ → Time
  pub posts : ℕ
  pub broker : B

module _ {B : Type 0} where
  unfoldable pub handle_ledger : EventCodec → Handler (LedgerWorld B)
  unfolding read_event
  handle_ledger codec key payload w = elim (read_event codec payload) [
    | err e ↦ (err e, w)
    | ok trx ↦
        let (o, db') = post (w.replies w.posts) trx (w.clock w.posts) w.db in
        (
          context (codes "post ledger entries payment_id=" ++ (trx.payment_id ++ codes ": ")) o,
          record w { db = db'; posts = suc w.posts },
        )
  ]

  -- The producer of the dead-letter queue, on the world of the consumer.
  unfoldable pub on_broker : Publish B → Publish (LedgerWorld B)
  on_broker publish topic key payload w =
      let (o, b) = publish topic key payload w.broker in (o, record w { broker = b })

  -- The handler that `main` builds: three attempts, then the dead-letter queue.
  unfoldable pub ledger_config :
      Publish B → (DlqMessage → Result Text) → RetryConfig (LedgerWorld B)
  unfolding on_broker
  ledger_config publish marshal = record {
    publish = on_broker publish;
    marshal = marshal;
    topic = topic_payments_received;
    consumer_group = codes "ledger-consumer";
    max_attempts = 3;
  }

  unfoldable pub deliver :
      Publish B
      → (DlqMessage → Result Text)
      → EventCodec
      → Text
      → Text
      → Time
      → LedgerWorld B
      → Returned × LedgerWorld B
  unfolding ledger_config
  deliver publish marshal codec key payload now w =
      retry_handler (ledger_config publish marshal) (handle_ledger codec) key payload now w
