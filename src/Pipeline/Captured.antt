-- ===== src/Pipeline/Captured.antt =====
-- From the request to the ledger.
use distributed_payment_pipe.Base.{◌≡◌, refl, List, [], ◌∷◌, ◌++◌, some, ap, ◌∙◌, keep_if}
use distributed_payment_pipe.Base.Int.{pos, ◌<ℤ◌}
use distributed_payment_pipe.Text.{Text}
use distributed_payment_pipe.Errors.{Result, ok, nil, committed}
use distributed_payment_pipe.Domain.{Time, Transaction, state_captured, state_validated}
use distributed_payment_pipe.Db.{Db, OutboxRow, select_payment, clashes}
use distributed_payment_pipe.Store.Keys.{IsKeyed, IsKeyed-append}
use distributed_payment_pipe.Store.Update.{AllDone}
use distributed_payment_pipe.Store.Save.{event_row}
use distributed_payment_pipe.Ledger.{PostReplies, debit_leg, credit_leg}
use distributed_payment_pipe.Ledger.Booked.{IsBooked, legs}
use distributed_payment_pipe.Ledger.Capture.{LegsDone, post_captures}
use distributed_payment_pipe.Kafka.{Publish, DlqMessage}
use distributed_payment_pipe.Kafka.Retry.{returned}
use distributed_payment_pipe.Kafka.Retry.Runs.{retry_handler_first}
use distributed_payment_pipe.Outbox.{EventCodec, new_payment_received_event}
use distributed_payment_pipe.Consumer.{
  LedgerWorld, read_event, handle_ledger, ledger_config, deliver, transaction_of_event,
}
use distributed_payment_pipe.Consumer.FailedRetry.{after_post, posting_call}
use distributed_payment_pipe.Kafka.{topic_payments_received}
use distributed_payment_pipe.Outbox.Relay.{
  Relayed, BatchReplies, is_unpublished, relay_batch, relay_batch_size,
}
use distributed_payment_pipe.Outbox.Relay.Delivery.{Message, tracked}
use distributed_payment_pipe.Outbox.Relay.Drains.{IsHealthy}
use distributed_payment_pipe.Intake.{
  Server, Packages, CallInput, SubmitPaymentRequest, World, accepted, submit_payment,
}
use distributed_payment_pipe.Intake.Outcomes.{stored_response}
use distributed_payment_pipe.Pipeline.Stored.{
  IsSmooth, submit_payment_stores, select_payment-append,
}
use distributed_payment_pipe.Pipeline.Sent.{relay_batch_one}

-- The event of the stored payment, as the handler reads it.
unfoldable pub delivered : Text → Transaction → Transaction
delivered event_id t = transaction_of_event (new_payment_received_event event_id t)

-- The answers to one call of `Post` are all good.
abbrev pub PostDone : PostReplies → Type 0
PostDone r = LegsDone r × (r.commit ≡ committed) × AllDone r.update

module _ {B : Type 0} (dlq : Publish B) (marshal : DlqMessage → Result Text) (codec : EventCodec)
    (key payload : Text) (now : Time) where
  -- A payment that is VALIDATED and has no legs is captured by the first delivery of its event.
  deliver_captures :
      (v : LedgerWorld B) (trx t : Transaction)
      → read_event codec payload ≡ ok trx
      → pos 0 <ℤ trx.amount.minor_units
      → PostDone (v.replies v.posts)
      → IsKeyed v.db.transactions
      → IsBooked v.db.ledger_entries
      → legs trx.payment_id v.db.ledger_entries ≡ []
      → select_payment trx.payment_id v.db.transactions ≡ some t
      → t.state ≡ state_validated
      → let (q, v') = deliver dlq marshal codec key payload now v in
        (q ≡ returned nil)
        × (v'.db.ledger_entries ≡ v.db.ledger_entries ++ debit_leg trx ∷ credit_leg trx ∷ [])
        × (select_payment trx.payment_id v'.db.transactions
            ≡ some (record t { state = state_captured; updated_at = v.clock v.posts }))
  unfolding deliver ledger_config after_post
  deliver_captures v trx t read positive (statements, commits, answered) k booked none_yet found
        was =
      let (returns, books, moves) =
        post_captures (v.replies v.posts) trx (v.clock v.posts) v.db t positive statements commits
          answered k booked none_yet found was in
      rw
        (retry_handler_first (ledger_config dlq marshal) (handle_ledger codec) key payload now v
          (after_post v trx).1 refl (posting_call codec key payload v trx read returns))
        (refl, books, moves)

module _ {ℓ} {R : Type ℓ} {B : Type 0} (lib : Packages) (server : Server R) (publish : Publish B)
    (sends : (topic key payload : Text) (b : B) → (publish topic key payload b).0 ≡ nil)
    (dlq : Publish B) (marshal : DlqMessage → Result Text) (codec : EventCodec) where
  -- The tables after the call of SubmitPayment, and after one batch of the relay on them.
  abbrev pub submitted : CallInput → SubmitPaymentRequest → World R → Db
  submitted i req w = (submit_payment lib server i req w).1.db

  abbrev pub relayed : BatchReplies → B → List OutboxRow → Relayed (B × List Message)
  relayed r b outbox =
      (relay_batch (tracked publish) r relay_batch_size
        (record { table = outbox; broker = (b, []) })).1

  -- If nothing fails on the way, the payment is not known yet, its amount is positive, the outbox
  -- holds no unpublished row and the event is decoded as it was encoded: the call stores the payment
  -- and returns its id; the next batch of the relay sends one message, the event, keyed by the
  -- account; and its delivery to the ledger consumer books the debit and the credit of the payment and
  -- leaves it CAPTURED.
  pub pipeline_captures :
      (i : CallInput) (req : SubmitPaymentRequest) (w : World R) (t : Transaction) (payload : Text)
      (r : BatchReplies) (b : B) (v : LedgerWorld B) (now : Time)
      → IsSmooth lib server i req w t payload
      → keep_if is_unpublished w.db.outbox ≡ []
      → IsHealthy r
      → read_event codec payload ≡ ok (delivered i.event_id (accepted lib server i.now t))
      → pos 0 <ℤ t.amount.minor_units
      → PostDone (v.replies v.posts)
      → IsKeyed w.db.transactions
      → IsBooked w.db.ledger_entries
      → legs t.payment_id w.db.ledger_entries ≡ []
      → let stored = submitted i req w in
        let sent = relayed r b stored.outbox in
        let world = record v { db = record stored { outbox = sent.table } } in
        let (q, v') = deliver dlq marshal codec t.account_id payload now world in
        ((submit_payment lib server i req w).0 ≡ ok (stored_response i t))
        × (sent.broker.1
            ≡ record { topic = topic_payments_received; key = t.account_id; payload = payload }
              ∷ [])
        × (q ≡ returned nil)
        × (v'.db.ledger_entries ≡ w.db.ledger_entries ++ debit_leg t ∷ credit_leg t ∷ [])
        × ((u : Transaction) × (select_payment t.payment_id v'.db.transactions ≡ some u)
            × (u.state ≡ state_captured))
  unfolding accepted delivered transaction_of_event new_payment_received_event clashes
  pipeline_captures i req w t payload r b v now smooth quiet healthy read positive posts keyed
        booked none_yet =
      let (returns, (rows, events, entries, _, _)) =
        submit_payment_stores lib server i req w t payload smooth in
      let u = accepted lib server i.now t in
      let (_, sent, _) =
        relay_batch_one publish sends r w.db.outbox (event_row u payload w.db) b healthy quiet
          refl in
      let stored = submitted i req w in
      let world = record v { db = record stored { outbox = (relayed r b stored.outbox).table } } in
      let (q, books, moves) =
        deliver_captures dlq marshal codec t.account_id payload now world (delivered i.event_id u) u
          read positive posts (rw rows (IsKeyed-append w.db.transactions u keyed smooth.fresh))
          (rw entries booked) (rw entries none_yet)
          (rw rows (select_payment-append u w.db.transactions smooth.fresh)) refl in
      (
        returns,
        ap (λ (rows : List OutboxRow). (relayed r b rows).broker.1) events ∙ sent,
        q,
        books ∙ ap (λ es. es ++ debit_leg t ∷ credit_leg t ∷ []) entries,
        (_, moves, refl),
      )
