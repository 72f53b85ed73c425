-- ===== src/Tests/StoreTests.antt =====
-- The store at concrete tables.
use distributed_payment_pipe.Base.{◌≡◌, ◌≢◌, refl, ◌⊎◌, []}
use distributed_payment_pipe.Base.Int.{pos}
use distributed_payment_pipe.Text.{codes, text_eq}
use distributed_payment_pipe.Errors
use distributed_payment_pipe.Errors.{Failure, nil, err, new_error, done, refused, unconfirmed}
use distributed_payment_pipe.Domain.{state_validated, state_captured, state_settled, transition}
use distributed_payment_pipe.Db.{clashes, select_payment, rows_affected}
use distributed_payment_pipe.Store.{save_with_outbox, update_state, get_by_payment_id}
use distributed_payment_pipe.Store.Save.{HasSaved, save_with_outbox_atomic}
use distributed_payment_pipe.Store.Keys.{IsKeyed}
use distributed_payment_pipe.Store.Update.{HasMoved, update_state-HasMoved}
use distributed_payment_pipe.Tests.Fixtures.{payment, empty, received, save_done, update_done}

received-IsKeyed : IsKeyed received.transactions
unfolding clashes
received-IsKeyed = (refl, tt)

-- A second payment with the same keys is refused by the unique index.
save_twice : save_with_outbox save_done payment (codes "{}") received ≡ (
  err (record { message = codes "insert transaction: connection reset"; chain = [] }),
  received,
)
unfolding save_with_outbox clashes text_eq
save_twice = refl

found_again : get_by_payment_id done (codes "p1") received ≡ Errors.ok payment
unfolding get_by_payment_id select_payment text_eq
found_again = refl

lost_row :
    get_by_payment_id done (codes "p2") received
    ≡ err (new_error (codes "transaction not found for payment_id=p2"))
unfolding get_by_payment_id select_payment text_eq Errors.errors_is
lost_row = refl

stale_message :
    (update_state update_done (codes "p1") state_captured state_settled (pos 20) received).0
    ≡ err (
        new_error (
          codes
            "UpdateState: stale transition CAPTURED->SETTLED: current state is VALIDATED (payment p1)"))
unfolding update_state transition select_payment rows_affected text_eq
stale_message = refl

save_with_outbox_atomic_example :
    let (o, db') = save_with_outbox save_done payment (codes "{}") empty in
    ((o ≢ nil) × (db' ≡ empty))
    ⊎ ((o ≡ nil) × HasSaved payment (codes "{}") empty db')
    ⊎ ((o ≡ nil) × (db' ≡ empty) × ((e : Failure) × (save_done.commit ≡ refused e)))
save_with_outbox_atomic_example = save_with_outbox_atomic save_done payment (codes "{}") empty

captured_ok :
    (update_state update_done (codes "p1") state_validated state_captured (pos 20) received).0 ≡ nil
unfolding update_state transition rows_affected text_eq
captured_ok = refl

update_state-HasMoved_example :
    HasMoved
      (codes "p1")
      state_validated
      state_captured
      (pos 20)
      received
      (update_state update_done (codes "p1") state_validated state_captured (pos 20) received).1
update_state-HasMoved_example =
    update_state-HasMoved update_done (codes "p1") state_validated state_captured (pos 20) received
      received-IsKeyed captured_ok
