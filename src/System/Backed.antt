-- ===== src/System/Backed.antt =====
-- The outbox holds one event for each stored payment, whatever the processes do.
use distributed_payment_pipe.Base.{
  ℕ, suc, ◌+◌, ◌≡◌, refl, sym, ◌∙◌, ap, ◌&&◌, List, [], ◌∷◌, ◌++◌, map, arith, if◌then◌else◌, inl,
  inr,
}
use distributed_payment_pipe.Text.{Text, codes, text_eq}
use distributed_payment_pipe.Errors.{Result}
use distributed_payment_pipe.Domain.{
  Time, State, Transaction, state_validated, state_captured, state_failed,
}
use distributed_payment_pipe.Db.{Db, Batch, OutboxRow, set_state, insert_outbox}
use distributed_payment_pipe.Store.{SaveReplies, save_with_outbox}
use distributed_payment_pipe.Store.Save.{event_row, save_with_outbox_atomic}
use distributed_payment_pipe.Store.Update.{update_state_frame}
use distributed_payment_pipe.Ledger.{PostReplies, post}
use distributed_payment_pipe.Settlement.{CapturedGroup, settle_row, persisted}
use distributed_payment_pipe.Settlement.Persist.{event_of}
use distributed_payment_pipe.Kafka.{Publish, DlqMessage, topic_payments_received}
use distributed_payment_pipe.Outbox.{EventCodec}
use distributed_payment_pipe.Outbox.Relay.Marked.{unmarked}
use distributed_payment_pipe.Intake.{Packages, Server}
use distributed_payment_pipe.System.Rows.{post_rows}
use distributed_payment_pipe.System.Stable.{IsStable}
use distributed_payment_pipe.System.Settled.{tick_keeps}
use distributed_payment_pipe.System.{Event, handle_all}
use distributed_payment_pipe.System.Kept.{handle_all_keeps}

-- The number of rows of a payment.
unfoldable pub rows_of : Text → List Transaction → ℕ
rows_of p [] = 0
rows_of p (t ∷ ts) = if text_eq t.payment_id p then suc (rows_of p ts) else rows_of p ts

-- The number of its events that say that it was received, published or not.
unfoldable pub events_of : Text → List OutboxRow → ℕ
events_of p [] = 0
events_of p (r ∷ rows) =
    if text_eq r.topic topic_payments_received && text_eq r.aggregate_id p
    then suc (events_of p rows)
    else events_of p rows

-- Each payment has as many events as rows.
abbrev pub IsBacked : Db → Type 0
IsBacked db = (p : Text) → events_of p db.outbox ≡ rows_of p db.transactions

rows_of-append :
    (p : Text) (t : Transaction) (rows : List Transaction)
    → rows_of p (rows ++ t ∷ []) ≡ rows_of p rows + (if text_eq t.payment_id p then 1 else 0)
unfolding rows_of
rows_of-append p t [] = ground arith
rows_of-append p t (r ∷ rows) = ground (arith, rows_of-append p t rows)

events_of-append :
    (p : Text) (r : OutboxRow) (rows : List OutboxRow)
    → events_of p (rows ++ r ∷ [])
      ≡ events_of p rows
        + (if text_eq r.topic topic_payments_received && text_eq r.aggregate_id p then 1 else 0)
unfolding events_of
events_of-append p r [] = ground arith
events_of-append p r (x ∷ rows) = ground (arith, events_of-append p r rows)

events_of-unmarked :
    (p : Text) (rows : List OutboxRow) → events_of p (map unmarked rows) ≡ events_of p rows
unfolding events_of
events_of-unmarked p [] = refl
events_of-unmarked p (r ∷ rows) = ground (arith, events_of-unmarked p rows)

rows_of-set_state :
    (p q : Text) (from to : State) (now : Time) (rows : List Transaction)
    → rows_of p (set_state q from to now rows) ≡ rows_of p rows
unfolding rows_of set_state
rows_of-set_state p q from to now [] = refl
rows_of-set_state p q from to now (r ∷ rows) =
    ground (arith, rows_of-set_state p q from to now rows)

rows_of-settle :
    (p : Text) (ids : List Text) (now : Time) (rows : List Transaction)
    → rows_of p (map (settle_row ids now) rows) ≡ rows_of p rows
unfolding rows_of settle_row
rows_of-settle p ids now [] = refl
rows_of-settle p ids now (r ∷ rows) = ground (arith, rows_of-settle p ids now rows)

save_with_outbox-IsBacked :
    (r : SaveReplies) (t : Transaction) (payload : Text) (db : Db)
    → IsBacked db
    → IsBacked (save_with_outbox r t payload db).1
unfolding text_eq
save_with_outbox-IsBacked r t payload db h p = elim (save_with_outbox_atomic r t payload db) [
  | inl (bad, same) ↦ rw same (h p)
  | inr (inr (good, same, lost)) ↦ rw same (h p)
  | inr (inl (good, (rows, events, ledger, log, batches))) ↦
      rw (rows, events)
        (ground (
          arith,
          h p,
          rows_of-append p t db.transactions,
          events_of-append p (event_row t payload db) db.outbox,
        ))
]

post_outbox :
    (r : PostReplies) (trx : Transaction) (now : Time) (db : Db)
    → (post r trx now db).1.outbox ≡ db.outbox
unfolding post
post_outbox r trx now db = ground (
  arith,
  update_state_frame r.update trx.payment_id state_validated state_captured now db,
  update_state_frame r.update trx.payment_id state_validated state_failed now db,
)

post-IsBacked :
    (r : PostReplies) (trx : Transaction) (now : Time) (db : Db)
    → IsBacked db
    → IsBacked (post r trx now db).1
post-IsBacked r trx now db h p = rw (post_outbox r trx now db) (
    ground (
      arith,
      h p,
      post_rows r trx now db,
      rows_of-set_state p trx.payment_id state_validated state_captured now db.transactions,
      rows_of-set_state p trx.payment_id state_validated state_failed now db.transactions,
    ))

persisted-IsBacked :
    (b : Batch) (g : CapturedGroup) (settled payout : Text) (now : Time) (db : Db)
    → IsBacked db
    → IsBacked (persisted b g settled payout now db)
unfolding persisted insert_outbox text_eq
persisted-IsBacked b g settled payout now db h p = ground (
  arith,
  h p,
  rows_of-settle p g.payment_ids now db.transactions,
  events_of-append p (event_of db.next_outbox_id b (codes "payments.settled") settled now)
      db.outbox,
  events_of-append p (event_of (suc db.next_outbox_id) b (codes "payouts.requested") payout now)
      (db.outbox ++ event_of db.next_outbox_id b (codes "payments.settled") settled now ∷ []),
)

IsBacked-IsStable : IsStable IsBacked
IsBacked-IsStable = record {
  saved = λ r t payload db fresh h. save_with_outbox-IsBacked r t payload db h;
  posted = post-IsBacked;
  ticked =
      tick_keeps IsBacked
        (λ b g settled payout now db new h. persisted-IsBacked b g settled payout now db h);
  relayed = λ rows db same h p.
      sym (events_of-unmarked p rows)
      ∙ ap (events_of p) same
      ∙ events_of-unmarked p db.outbox
      ∙ h p;
}

module _ {R B : Type 0} (lib : Packages) (server : Server R) (publish : Publish B)
    (marshal : DlqMessage → Result Text) (codec : EventCodec) where
  -- Through any sequence of operations of the processes, each run to its end before the next, with
  -- any answers of Redis, Postgres and the broker: for every payment id the outbox holds as many
  -- payments.received events as there are rows of that payment, if that held at the start. So no
  -- stored payment lacks its event, and no event is without its payment.
  pub handle_all-IsBacked :
      (es : List (Event R B)) (db : Db)
      → IsBacked db
      → IsBacked (handle_all lib server publish marshal codec es db)
  handle_all-IsBacked = handle_all_keeps lib server publish marshal codec IsBacked IsBacked-IsStable
