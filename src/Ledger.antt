-- ===== src/Ledger.antt =====
-- internal/ledger/ledger.go: double-entry posting for captured payments.
pub mod Booked
pub mod ZeroSum
pub mod Capture
use distributed_payment_pipe.Base.{ℕ, true, false, ◌&&◌, List, [], ◌∷◌, ◌++◌, ◌==◌, if◌then◌else◌}
use distributed_payment_pipe.Base.Int.{pos, leb_ℤ}
use distributed_payment_pipe.Text.{Text, codes, contains}
use distributed_payment_pipe.Text.Decimal.{format_int}
use distributed_payment_pipe.Errors.{
  Failure, new_error, wrap, ok, err, Outcome, nil, Reply, done, failed, CommitReply, after_commit,
}
use distributed_payment_pipe.Domain.{
  Time, State, Transaction, state_validated, state_captured, state_failed,
}
use distributed_payment_pipe.Db.{Db, LedgerEntry, debit, credit, insert_leg}
use distributed_payment_pipe.Store.{UpdateReplies, update_state}

-- The outcome of each call that `Post` makes; it calls `UpdateState` at most once.
pub record PostReplies : Type 0 where
  pub begin : Reply
  pub insert_debit : Reply
  pub insert_credit : Reply
  pub commit : CommitReply
  pub update : UpdateReplies

abbrev pub debit_leg : Transaction → LedgerEntry
debit_leg trx = record {
  payment_id = trx.payment_id;
  account = trx.account_id;
  direction = debit;
  amount_minor = trx.amount.minor_units;
  currency = trx.amount.currency;
}

abbrev pub credit_leg : Transaction → LedgerEntry
credit_leg trx = record {
  payment_id = trx.payment_id;
  account = codes "clearing_account";
  direction = credit;
  amount_minor = trx.amount.minor_units;
  currency = trx.amount.currency;
}

-- The transition to FAILED on a failed call; its own error is only logged.
unfoldable pub mark_failed : UpdateReplies → Transaction → Time → Db → Db
mark_failed r trx now db = (update_state r trx.payment_id state_validated state_failed now db).1

-- What `Post` returns for the outcome of the transition to CAPTURED: a message with the words of a
-- stale transition and CAPTURED counts as success.
unfoldable pub capture_outcome : Outcome → Outcome
capture_outcome (ok _) = nil
capture_outcome (err e) =
    if contains e.message (codes "stale transition") && contains e.message state_captured
    then nil
    else err (wrap (codes "update state to CAPTURED: ") e)

-- Both inserts inside the transaction: the table as the transaction sees it, and whether neither
-- statement affected a row.
unfoldable pub insert_legs : Transaction → List LedgerEntry → List LedgerEntry × ℕ × ℕ
unfolding insert_leg
insert_legs trx es =
    let (es₁, debit_tag) = insert_leg (debit_leg trx) es in
    let (es₂, credit_tag) = insert_leg (credit_leg trx) es₁ in (es₂, debit_tag, credit_tag)

-- The end of `Post`, where both inserts went through. `UpdateState` works on another connection and
-- commits first; the deferred function then commits the legs, and its result does not reach the
-- caller. A duplicate delivery has been rolled back before, so that this commit does nothing.
post_legs : PostReplies → Transaction → Time → Db → Outcome × Db
unfolding insert_legs capture_outcome
post_legs r trx now db =
    let (es, debit_tag, credit_tag) = insert_legs trx db.ledger_entries in
    let (o, db') = update_state r.update trx.payment_id state_validated state_captured now db in
    (
      capture_outcome o,
      if (debit_tag == 0) && (credit_tag == 0)
          then db'
          else record db' { ledger_entries = after_commit r.commit db'.ledger_entries es },
    )

unfoldable pub post : PostReplies → Transaction → Time → Db → Outcome × Db
unfolding mark_failed post_legs
post r trx now db =
    if leb_ℤ trx.amount.minor_units (pos 0)
    then (
      err (new_error (codes "amount must be positive, got " ++ format_int trx.amount.minor_units)),
      db,
    )
    else elim r.begin [
      | failed e ↦ (err e, mark_failed r.update trx now db)
      | done ↦ elim r.insert_debit [
        | failed e ↦ (err (wrap (codes "insert debit: ") e), mark_failed r.update trx now db)
        | done ↦ elim r.insert_credit [
          | failed e ↦ (err (wrap (codes "insert credit: ") e), mark_failed r.update trx now db)
          | done ↦ post_legs r trx now db
        ]
      ]
    ]
