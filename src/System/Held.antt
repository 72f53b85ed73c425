-- ===== src/System/Held.antt =====
-- A stored payment is not lost, whatever the processes do.
use distributed_payment_pipe.Base.{
  ◌≡◌, refl, List, [], ◌∷◌, ◌++◌, map, Option, none, some, arith, if◌then◌else◌,
}
use distributed_payment_pipe.Base.Int.{pos}
use distributed_payment_pipe.Text.{Text, text_eq}
use distributed_payment_pipe.Errors.{Result}
use distributed_payment_pipe.Domain.{
  Time, State, Transaction, state_validated, state_captured, state_failed,
}
use distributed_payment_pipe.Db.{Db, set_state, insert_outbox}
use distributed_payment_pipe.Store.{SaveReplies, save_with_outbox}
use distributed_payment_pipe.Ledger.{PostReplies, post}
use distributed_payment_pipe.Settlement.{settle_row, persisted}
use distributed_payment_pipe.Kafka.{Publish, DlqMessage}
use distributed_payment_pipe.Outbox.{EventCodec}
use distributed_payment_pipe.Intake.{Packages, Server}
use distributed_payment_pipe.System.Rows.{post_rows, save_with_outbox_rows}
use distributed_payment_pipe.System.Stable.{IsStable}
use distributed_payment_pipe.System.Settled.{tick_keeps}
use distributed_payment_pipe.System.{Event, handle_all}
use distributed_payment_pipe.System.Kept.{handle_all_keeps}

-- The row of a payment but for its state and the time of its last update.
unfoldable pub terms_of : Text → List Transaction → Option Transaction
terms_of p [] = none
terms_of p (r ∷ rows) =
    if text_eq r.payment_id p
    then some (record r { state = []; updated_at = pos 0 })
    else terms_of p rows

terms_of-append :
    (p : Text) (x t : Transaction) (rows : List Transaction)
    → terms_of p rows ≡ some x
    → terms_of p (rows ++ t ∷ []) ≡ some x
unfolding terms_of
terms_of-append p x t [] h = cc
terms_of-append p x t (r ∷ rows) h = ground (arith, terms_of-append p x t rows)

terms_of-set_state :
    (p q : Text) (from to : State) (now : Time) (rows : List Transaction)
    → terms_of p (set_state q from to now rows) ≡ terms_of p rows
unfolding terms_of set_state
terms_of-set_state p q from to now [] = refl
terms_of-set_state p q from to now (r ∷ rows) =
    ground (arith, terms_of-set_state p q from to now rows)

terms_of-settle :
    (p : Text) (ids : List Text) (now : Time) (rows : List Transaction)
    → terms_of p (map (settle_row ids now) rows) ≡ terms_of p rows
unfolding terms_of settle_row
terms_of-settle p ids now [] = refl
terms_of-settle p ids now (r ∷ rows) = ground (arith, terms_of-settle p ids now rows)

terms_of-post :
    (r : PostReplies) (trx : Transaction) (now : Time) (db : Db) (p : Text)
    → terms_of p (post r trx now db).1.transactions ≡ terms_of p db.transactions
terms_of-post r trx now db p = ground (
  arith,
  post_rows r trx now db,
  terms_of-set_state p trx.payment_id state_validated state_captured now db.transactions,
  terms_of-set_state p trx.payment_id state_validated state_failed now db.transactions,
)

terms_of-save_with_outbox :
    (r : SaveReplies) (t : Transaction) (payload : Text) (db : Db) (p : Text) (x : Transaction)
    → terms_of p db.transactions ≡ some x
    → terms_of p (save_with_outbox r t payload db).1.transactions ≡ some x
terms_of-save_with_outbox r t payload db p x h =
    ground (arith, save_with_outbox_rows r t payload db, terms_of-append p x t db.transactions h)

terms_of-IsStable :
    (p : Text) (x : Transaction) → IsStable (λ (db : Db). terms_of p db.transactions ≡ some x)
unfolding persisted insert_outbox
terms_of-IsStable p x = record {
  saved = λ r t payload db fresh h. terms_of-save_with_outbox r t payload db p x h;
  posted = λ r trx now db h. rw (terms_of-post r trx now db p) h;
  ticked =
      tick_keeps (λ (db : Db). terms_of p db.transactions ≡ some x)
        (λ b g settled payout now db new h.
          rw (terms_of-settle p g.payment_ids now db.transactions) h);
  relayed = λ rows db same h. h;
}

module _ {R B : Type 0} (lib : Packages) (server : Server R) (publish : Publish B)
    (marshal : DlqMessage → Result Text) (codec : EventCodec) where
  -- A payment that is in the tables stays there through any sequence of operations of the processes,
  -- each run to its end before the next, with any answers of Redis, Postgres and the broker, and no
  -- column of its row changes but its state and the time of its last update.
  pub terms_of-handle_all :
      (es : List (Event R B)) (db : Db) (p : Text) (x : Transaction)
      → terms_of p db.transactions ≡ some x
      → terms_of p (handle_all lib server publish marshal codec es db).transactions ≡ some x
  terms_of-handle_all es db p x h =
      handle_all_keeps lib server publish marshal codec
        (λ (d : Db). terms_of p d.transactions ≡ some x) (terms_of-IsStable p x) es db h
