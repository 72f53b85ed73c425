-- ===== src/Outbox.antt =====
-- internal/outbox/event.go: the payload of payments.received. The encoding is encoding/json's and
-- stays a parameter.
pub mod Relay
use distributed_payment_pipe.Base.{ℕ, Option}
use distributed_payment_pipe.Base.Int.{ℤ}
use distributed_payment_pipe.Text.{Text, codes}
use distributed_payment_pipe.Dict.{Dict}
use distributed_payment_pipe.Errors.{Result}
use distributed_payment_pipe.Domain.{Time, Transaction}

pub record PaymentReceivedEvent : Type 0 where
  pub event_id : Text
  pub event_type : Text
  pub schema_version : ℕ
  pub payment_id : Text
  pub idempotency_key : Text
  pub source : Text
  pub external_txn_id : Text
  pub account_id : Text
  pub amount_minor : ℤ
  pub currency : Text
  pub state : Text
  pub created_at : Time
  pub metadata : Option (Dict Text)

-- `uuid` is the fresh id that the event gets.
unfoldable pub new_payment_received_event : Text → Transaction → PaymentReceivedEvent
new_payment_received_event uuid t = record {
  event_id = uuid;
  event_type = codes "payment.received";
  schema_version = 1;
  payment_id = t.payment_id;
  idempotency_key = t.idempotency_key;
  source = t.source;
  external_txn_id = t.external_txn_id;
  account_id = t.account_id;
  amount_minor = t.amount.minor_units;
  currency = t.amount.currency;
  state = t.state;
  created_at = t.created_at;
  metadata = t.metadata;
}

-- json.Marshal and json.Unmarshal at this type.
pub record EventCodec : Type 0 where
  pub marshal : PaymentReceivedEvent → Result Text
  pub unmarshal : Text → Result PaymentReceivedEvent
