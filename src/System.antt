-- ===== src/System.antt =====
-- The processes of cmd over one database, as a sequence of their operations in any order.
pub mod Rows
pub mod Stable
pub mod Settled
pub mod Kept
pub mod Consistent
pub mod Reachable
pub mod Held
pub mod Lifecycle
pub mod Paid
pub mod Backed
pub mod Audited
use distributed_payment_pipe.Base.{List, [], ◌∷◌}
use distributed_payment_pipe.Text.{Text}
use distributed_payment_pipe.Errors.{Result}
use distributed_payment_pipe.Domain.{Time}
use distributed_payment_pipe.Db.{Db}
use distributed_payment_pipe.Kafka.{Publish, DlqMessage}
use distributed_payment_pipe.Outbox.{EventCodec}
use distributed_payment_pipe.Outbox.Relay.{BatchReplies, relay_batch, relay_batch_size}
use distributed_payment_pipe.Consumer.{LedgerWorld, deliver}
use distributed_payment_pipe.Intake.{
  Packages, Server, CallInput, SubmitPaymentRequest, submit_payment,
}
use distributed_payment_pipe.Settlement.Engine.{Engine, Tick, tick}

-- One operation, with what it gets from outside: the request, the state of Redis and of the broker,
-- the answers of Postgres. Redis and the broker may be in any state, since other processes use them.
pub data Event (R B : Type 0) : Type 0 where
  submits : CallInput → SubmitPaymentRequest → R → Event R B
  relays : BatchReplies → B → Event R B
  delivers : Text → Text → Time → LedgerWorld B → Event R B
  ticks : Tick → Engine → Event R B

module _ {R B : Type 0} (lib : Packages) (server : Server R) (publish : Publish B)
    (marshal : DlqMessage → Result Text) (codec : EventCodec) where
  unfoldable pub handle : Event R B → Db → Db
  handle (Event.submits i req redis) db =
      (submit_payment lib server i req (record { db = db; redis = redis })).1.db
  handle (Event.relays r broker) db = record db {
    outbox =
        (relay_batch publish r relay_batch_size
          (record { table = db.outbox; broker = broker })).1.table;
  }
  handle (Event.delivers key payload now w) db =
      (deliver publish marshal codec key payload now (record w { db = db })).1.db
  handle (Event.ticks t e) db = (tick t.input t.at e db).1

  unfoldable pub handle_all : List (Event R B) → Db → Db
  handle_all [] db = db
  handle_all (e ∷ es) db = handle_all es (handle e db)
