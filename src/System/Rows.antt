-- ===== src/System/Rows.antt =====
-- What the operations may do to the rows of `transactions`.
use distributed_payment_pipe.Base.{◌≡◌, ◌⊎◌, [], ◌∷◌, ◌++◌, arith}
use distributed_payment_pipe.Text.{Text}
use distributed_payment_pipe.Domain.{
  Time, State, Transaction, state_validated, state_captured, state_failed,
}
use distributed_payment_pipe.Db.{Db, set_state}
use distributed_payment_pipe.Store.{UpdateReplies, SaveReplies, save_with_outbox, update_state}
use distributed_payment_pipe.Ledger.{PostReplies, post}

update_state_rows :
    (r : UpdateReplies) (p : Text) (from to : State) (now : Time) (db : Db)
    → ((update_state r p from to now db).1.transactions ≡ db.transactions)
      ⊎ ((update_state r p from to now db).1.transactions ≡ set_state p from to now db.transactions)
unfolding update_state
update_state_rows r p from to now db = ground arith

-- `Post` leaves the rows, or moves the payment from VALIDATED to CAPTURED or to FAILED.
pub post_rows :
    (r : PostReplies) (trx : Transaction) (now : Time) (db : Db)
    → let rows = (post r trx now db).1.transactions in
      let p = trx.payment_id in
      (rows ≡ db.transactions)
      ⊎ (rows ≡ set_state p state_validated state_captured now db.transactions)
      ⊎ (rows ≡ set_state p state_validated state_failed now db.transactions)
unfolding post
post_rows r trx now db = ground (
  arith,
  update_state_rows r.update trx.payment_id state_validated state_captured now db,
  update_state_rows r.update trx.payment_id state_validated state_failed now db,
)

-- `SaveWithOutbox` leaves the rows, or adds the payment.
pub save_with_outbox_rows :
    (r : SaveReplies) (t : Transaction) (payload : Text) (db : Db)
    → let rows = (save_with_outbox r t payload db).1.transactions in
      (rows ≡ db.transactions) ⊎ (rows ≡ db.transactions ++ t ∷ [])
unfolding save_with_outbox
save_with_outbox_rows r t payload db = ground arith
