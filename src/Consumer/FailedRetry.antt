-- ===== src/Consumer/FailedRetry.antt =====
-- A transient fault of the database in the first attempt: the payment ends as FAILED and posted.
use distributed_payment_pipe.Base.{suc, ◌≡◌, false, [], ◌∷◌, ◌++◌, some, arith, ap, refl, ◌∙◌}
use distributed_payment_pipe.Base.Int.{pos, ◌<ℤ◌}
use distributed_payment_pipe.Text.{Text, codes, text_eq}
use distributed_payment_pipe.Errors.{
  Failure, non_retryable, errors_is, wrap, Result, Outcome, ok, err, nil, done, failed, committed,
  context,
}
use distributed_payment_pipe.Domain.{Time, Transaction, state_validated, state_failed}
use distributed_payment_pipe.Db.{Db, select_payment}
use distributed_payment_pipe.Store.Keys.{IsKeyed, update_state-IsKeyed}
use distributed_payment_pipe.Store.Update.{AllDone, update_state_succeeds, update_state_frame}
use distributed_payment_pipe.Ledger.{PostReplies, post, mark_failed, debit_leg, credit_leg}
use distributed_payment_pipe.Ledger.Booked.{IsBooked, legs}
use distributed_payment_pipe.Ledger.Capture.{LegsDone, post_hides_stale, validated_failed}
use distributed_payment_pipe.Kafka.{Publish, DlqMessage}
use distributed_payment_pipe.Kafka.Retry.{returned}
use distributed_payment_pipe.Kafka.Retry.Runs.{retry_handler_second}
use distributed_payment_pipe.Outbox.{EventCodec}
use distributed_payment_pipe.Consumer.{
  LedgerWorld, read_event, handle_ledger, ledger_config, deliver,
}

-- An attempt whose first insert fails marks the payment and reports the error.
post_debit_fails :
    (r : PostReplies) (trx : Transaction) (now : Time) (db : Db) (f : Failure)
    → pos 0 <ℤ trx.amount.minor_units
    → r.begin ≡ done
    → r.insert_debit ≡ failed f
    → post r trx now db ≡ (err (wrap (codes "insert debit: ") f), mark_failed r.update trx now db)
unfolding post
post_debit_fails r trx now db f positive begun fault = ground arith

-- What the marking leaves behind.
mark_failed_lem :
    (r : PostReplies) (trx : Transaction) (now : Time) (db : Db) (t : Transaction)
    → AllDone r.update
    → IsKeyed db.transactions
    → select_payment trx.payment_id db.transactions ≡ some t
    → t.state ≡ state_validated
    → let db' = mark_failed r.update trx now db in
      IsKeyed db'.transactions
      × (select_payment trx.payment_id db'.transactions
          ≡ some (record t { state = state_failed; updated_at = now }))
      × (db'.ledger_entries ≡ db.ledger_entries)
unfolding mark_failed
mark_failed_lem r trx now db t answered k found was = (
  update_state-IsKeyed r.update trx.payment_id state_validated state_failed now db k,
  (update_state_succeeds r.update trx.payment_id state_validated state_failed now db t
      validated_failed answered k found was).1,
  (update_state_frame r.update trx.payment_id state_validated state_failed now db).2,
)

failed_is_not_validated : text_eq state_failed state_validated ≡ false
unfolding text_eq
failed_is_not_validated = refl

-- The world after the handler has posted `trx`.
unfoldable pub after_post : {B : Type 0} → LedgerWorld B → Transaction → Outcome × LedgerWorld B
after_post w trx =
    let (o, db') = post (w.replies w.posts) trx (w.clock w.posts) w.db in
    (
      context (codes "post ledger entries payment_id=" ++ (trx.payment_id ++ codes ": ")) o,
      record w { db = db'; posts = suc w.posts },
    )

module _ {B : Type 0} (codec : EventCodec) (key payload : Text) (w : LedgerWorld B)
    (trx : Transaction) where
  handle_ledger-after_post :
      read_event codec payload ≡ ok trx → handle_ledger codec key payload w ≡ after_post w trx
  unfolding handle_ledger after_post
  handle_ledger-after_post read = rw (read, handle_ledger)

  first_call :
      (f : Failure)
      → read_event codec payload ≡ ok trx
      → pos 0 <ℤ trx.amount.minor_units
      → (w.replies w.posts).begin ≡ done
      → (w.replies w.posts).insert_debit ≡ failed f
      → handle_ledger codec key payload w ≡ (
        err (
            wrap
              (codes "post ledger entries payment_id=" ++ (trx.payment_id ++ codes ": "))
              (wrap (codes "insert debit: ") f)),
        record w {
          db = mark_failed (w.replies w.posts).update trx (w.clock w.posts) w.db;
          posts = suc w.posts;
        },
      )
  unfolding after_post
  first_call f read positive begun fault =
      handle_ledger-after_post read
      ∙ rw (post_debit_fails (w.replies w.posts) trx (w.clock w.posts) w.db f positive begun fault)

  pub posting_call :
      read_event codec payload ≡ ok trx
      → (post (w.replies w.posts) trx (w.clock w.posts) w.db).0 ≡ nil
      → handle_ledger codec key payload w ≡ (nil, (after_post w trx).1)
  unfolding after_post
  posting_call read returns = handle_ledger-after_post read ∙ rw returns

module _ {B : Type 0} (publish : Publish B) (marshal : DlqMessage → Result Text)
    (codec : EventCodec) (key payload : Text) (now : Time) where
  -- A VALIDATED payment without legs and with a positive amount: in the first attempt the insert of
  -- the debit fails with a retryable error and the other calls are answered; in the second attempt
  -- every call is answered. Then the consumer returns nil, so that the message counts as handled,
  -- the payment is FAILED, and both its legs are in the ledger.
  pub deliver_failed_and_posted :
      (w : LedgerWorld B) (trx t : Transaction) (f : Failure)
      → read_event codec payload ≡ ok trx
      → pos 0 <ℤ trx.amount.minor_units
      → (w.replies w.posts).begin ≡ done
      → (w.replies w.posts).insert_debit ≡ failed f
      → errors_is f non_retryable ≡ false
      → AllDone (w.replies w.posts).update
      → LegsDone (w.replies (suc w.posts))
      → (w.replies (suc w.posts)).commit ≡ committed
      → AllDone (w.replies (suc w.posts)).update
      → IsKeyed w.db.transactions
      → IsBooked w.db.ledger_entries
      → legs trx.payment_id w.db.ledger_entries ≡ []
      → select_payment trx.payment_id w.db.transactions ≡ some t
      → t.state ≡ state_validated
      → let (r, w') = deliver publish marshal codec key payload now w in
        (r ≡ returned nil)
        × (w'.db.ledger_entries ≡ w.db.ledger_entries ++ debit_leg trx ∷ credit_leg trx ∷ [])
        × (select_payment trx.payment_id w'.db.transactions
            ≡ some (record t { state = state_failed; updated_at = w.clock w.posts }))
  unfolding deliver after_post errors_is ledger_config
  deliver_failed_and_posted w trx t f read positive begun fault again answered legs_done commits
        answered' k booked none_yet found was =
      let first = w.replies w.posts in
      let second = w.replies (suc w.posts) in
      let t' = record t { state = state_failed; updated_at = w.clock w.posts } in
      let (k', found', same) =
        mark_failed_lem first trx (w.clock w.posts) w.db t answered k found was in
      let db' = mark_failed first.update trx (w.clock w.posts) w.db in
      let w' = record w { db = db'; posts = suc w.posts } in
      let (returns, books, stays) =
        post_hides_stale second trx (w.clock (suc w.posts)) db' t' positive legs_done commits
          answered' k' (rw same booked) (rw same none_yet) found' failed_is_not_validated in
      rw
        (retry_handler_second (ledger_config publish marshal) (handle_ledger codec) key payload now
          w w' (after_post w' trx).1 _ refl
          (first_call codec key payload w trx f read positive begun fault) again
          (posting_call codec key payload w' trx read returns))
        (refl, books ∙ ap (λ es. es ++ debit_leg trx ∷ credit_leg trx ∷ []) same, stays)
