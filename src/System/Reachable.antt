-- ===== src/System/Reachable.antt =====
-- What holds of the tables whatever the processes do.
use distributed_payment_pipe.Base.{List}
use distributed_payment_pipe.Text.{Text}
use distributed_payment_pipe.Errors.{Result}
use distributed_payment_pipe.Db.{Db}
use distributed_payment_pipe.Outbox.{EventCodec}
use distributed_payment_pipe.Kafka.{Publish, DlqMessage}
use distributed_payment_pipe.Intake.{Packages, Server}
use distributed_payment_pipe.System.{Event, handle_all}
use distributed_payment_pipe.System.Kept.{handle_all_keeps}
use distributed_payment_pipe.System.Consistent.{IsConsistent, IsConsistent-IsStable}

module _ {R B : Type 0} (lib : Packages) (server : Server R) (publish : Publish B)
    (marshal : DlqMessage → Result Text) (codec : EventCodec) where
  -- After any sequence of operations of the processes, each run to its end before the next, with any
  -- answers of Redis, Postgres and the broker and with deliveries repeated: no two payments share an id or an idempotency key, no two batches share
  -- an account, a currency and a window, each payment has no leg or one balanced pair, and the ledger
  -- sums to zero, if that held at the start.
  pub handle_all-IsConsistent :
      (es : List (Event R B)) (db : Db)
      → IsConsistent db
      → IsConsistent (handle_all lib server publish marshal codec es db)
  handle_all-IsConsistent =
      handle_all_keeps lib server publish marshal codec IsConsistent IsConsistent-IsStable
