-- ===== src/Tests/LedgerTests.antt =====
-- The ledger at concrete tables.
use distributed_payment_pipe.Base.{◌≡◌, refl, inl, false, [], ◌∷◌, ◌++◌, some, arith}
use distributed_payment_pipe.Base.Int.{pos}
use distributed_payment_pipe.Text.{codes, text_eq}
use distributed_payment_pipe.Text.Decimal.{format_int}
use distributed_payment_pipe.Errors.{nil, err, new_error}
use distributed_payment_pipe.Domain.{Transaction, state_captured, state_failed, transition}
use distributed_payment_pipe.Db.{Db, clashes, select_payment, rows_affected, set_state}
use distributed_payment_pipe.Store.{update_state}
use distributed_payment_pipe.Store.Keys.{IsKeyed}
use distributed_payment_pipe.Ledger.{post, debit_leg, credit_leg}
use distributed_payment_pipe.Ledger.Capture.{post_hides_stale, post_loses_legs}
use distributed_payment_pipe.Tests.Fixtures.{
  payment, received, broken, post_done, post_refused, post_no_debit,
}

abbrev failed_payment : Transaction
failed_payment = record payment { state = state_failed }

abbrev failed_db : Db
failed_db = record received { transactions = failed_payment ∷ [] }

received-IsKeyed : IsKeyed received.transactions
unfolding clashes
received-IsKeyed = (refl, tt)

failed-IsKeyed : IsKeyed failed_db.transactions
unfolding clashes
failed-IsKeyed = (refl, tt)

payment_found : select_payment (codes "p1") received.transactions ≡ some payment
unfolding select_payment text_eq
payment_found = refl

failed_found : select_payment (codes "p1") failed_db.transactions ≡ some failed_payment
unfolding select_payment text_eq
failed_found = refl

not_positive :
    post post_done
      (record payment { amount = record { minor_units = pos 0; currency = [] } })
      (pos 1)
      received
    ≡ (err (new_error (codes "amount must be positive, got 0")), received)
unfolding post format_int
not_positive = refl

fault_marks :
    select_payment (codes "p1") (post post_no_debit payment (pos 20) received).1.transactions
    ≡ some (record payment { state = state_failed; updated_at = pos 20 })
unfolding post update_state transition select_payment set_state rows_affected text_eq
fault_marks = refl

failed_left : text_eq state_failed (codes "VALIDATED") ≡ false
unfolding text_eq
failed_left = refl

post_hides_stale_example :
    let (o, db') = post post_done payment (pos 20) failed_db in
    (o ≡ nil)
    × (db'.ledger_entries ≡ failed_db.ledger_entries ++ debit_leg payment ∷ credit_leg payment ∷ [])
    × (select_payment (codes "p1") db'.transactions ≡ some failed_payment)
post_hides_stale_example =
    post_hides_stale post_done payment (pos 20) failed_db failed_payment (omega arith)
      (refl, refl, refl) refl (refl, refl, refl, refl, refl) failed-IsKeyed (λ p. inl refl) refl
      failed_found failed_left

post_loses_legs_example :
    let (o, db') = post post_refused payment (pos 20) received in
    (o ≡ nil)
    × (db'.ledger_entries ≡ received.ledger_entries)
    × (select_payment (codes "p1") db'.transactions
        ≡ some (record payment { state = state_captured; updated_at = pos 20 }))
post_loses_legs_example =
    post_loses_legs post_refused payment (pos 20) received payment broken (omega arith)
      (refl, refl, refl) refl (refl, refl, refl, refl, refl) received-IsKeyed payment_found refl
