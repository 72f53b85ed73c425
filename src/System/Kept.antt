-- ===== src/System/Kept.antt =====
-- The operations of all processes keep every stable property.
use distributed_payment_pipe.Base.{refl, false, List, [], ◌∷◌, inl, inr, true}
use distributed_payment_pipe.Text.{Text}
use distributed_payment_pipe.Errors.{Result-cases, Outcome-cases, ◌>>◌, Result}
use distributed_payment_pipe.Domain.{Transaction}
use distributed_payment_pipe.Db.{Db}
use distributed_payment_pipe.Outbox.{EventCodec}
use distributed_payment_pipe.Consumer.{LedgerWorld, handle_ledger, read_event}
use distributed_payment_pipe.Store.{save_with_outbox}
use distributed_payment_pipe.Consumer.Redelivery.{deliver_keeps}
use distributed_payment_pipe.Kafka.{Publish, DlqMessage}
use distributed_payment_pipe.Idempotency.{derive_key, claim}
use distributed_payment_pipe.Intake.{
  Packages, Server, CallInput, SubmitPaymentRequest, World, prepare, validate, event_payload,
  accepted, accept, answer, submit_payment,
}
use distributed_payment_pipe.Outbox.Relay.{relay_batch_size}
use distributed_payment_pipe.Outbox.Relay.Marked.{relay_batch-unmarked}
use distributed_payment_pipe.System.Stable.{IsStable}
use distributed_payment_pipe.System.{Event, handle, handle_all}

module _ (P : Db → Type 0) (stable : IsStable P) where
  pub handle_ledger_keeps :
      {B : Type 0} (codec : EventCodec) (key payload : Text) (w : LedgerWorld B)
      → P w.db
      → P (handle_ledger codec key payload w).1.db
  unfolding handle_ledger
  handle_ledger_keeps codec key payload w h = elim (Result-cases (read_event codec payload)) [
    | inr (e, bad) ↦ rw (bad, handle_ledger) h
    | inl (trx, good) ↦
        rw (good, handle_ledger) (stable.posted (w.replies w.posts) trx (w.clock w.posts) w.db h)
  ]

module _ {R B : Type 0} (lib : Packages) (server : Server R) (publish : Publish B)
    (marshal : DlqMessage → Result Text) (codec : EventCodec) (P : Db → Type 0)
    (stable : IsStable P) where
  accept_keeps : (i : CallInput) (t : Transaction) (db : Db) → P db → P (accept lib server i t db).1
  unfolding accept accepted
  accept_keeps i t db h =
      elim (Result-cases
        (validate lib server t >> event_payload lib server i (accepted lib server i.now t))) [
          | inr (e, bad) ↦ rw (bad, accept) h
          | inl (payload, good) ↦
              let stored = stable.saved i.save (accepted lib server i.now t) payload db refl h in
              elim (Outcome-cases
                (save_with_outbox i.save (accepted lib server i.now t) payload db).0) [
                  | inl saved ↦ rw (good, saved, accept) stored
                  | inr (e, failed) ↦ rw (good, failed, accept) stored
                ]
        ]

  submit_payment_keeps :
      (i : CallInput) (req : SubmitPaymentRequest) (w : World R)
      → P w.db
      → P (submit_payment lib server i req w).1.db
  unfolding submit_payment answer
  submit_payment_keeps i req w h = elim (Result-cases (prepare lib server i.payment_id req)) [
    | inr (e, bad) ↦ rw (bad, submit_payment) h
    | inl ((idem, t), good) ↦
        elim (Result-cases
          (claim idem.client idem.ttl_seconds (derive_key lib.sha256_hex t) t.payment_id
            w.redis).0) [
              | inr (e, c) ↦ rw (good, c, submit_payment, answer) h
              | inl ((false, existing), c) ↦ rw (good, c, submit_payment, answer) h
              | inl ((true, existing), c) ↦
                  rw (good, c, submit_payment, answer) (accept_keeps i t w.db h)
            ]
  ]

  handle_keeps : (e : Event R B) (db : Db) → P db → P (handle lib server publish marshal codec e db)
  unfolding handle
  handle_keeps (Event.submits i req redis) db h =
      submit_payment_keeps i req (record { db = db; redis = redis }) h
  handle_keeps (Event.relays r broker) db h =
      stable.relayed _ db (relay_batch-unmarked publish r relay_batch_size _) h
  handle_keeps (Event.delivers key payload now w) db h =
      deliver_keeps publish marshal codec (λ (v : LedgerWorld B). P v.db)
        (record { key = key; payload = payload; now = now })
        (handle_ledger_keeps P stable codec key payload) (λ b v hv. hv) (record w { db = db }) h
  handle_keeps (Event.ticks t e) db h = stable.ticked t.input t.at e db h

  pub handle_all_keeps :
      (es : List (Event R B)) (db : Db)
      → P db
      → P (handle_all lib server publish marshal codec es db)
  unfolding handle_all
  handle_all_keeps [] db h = h
  handle_all_keeps (e ∷ es) db h = handle_all_keeps es _ (handle_keeps e db h)
