-- ===== src/Store.antt =====
-- internal/store/store.go: the Postgres store. Each operation takes what Postgres answered to each
-- of its calls, in the order of the code, and returns its result with the tables after it.
pub mod Save
pub mod Keys
pub mod Update
use distributed_payment_pipe.Base.{Option, none, some, [], ◌∷◌, ◌++◌, ◌==◌, if◌then◌else◌}
use distributed_payment_pipe.Text.{Text, codes}
use distributed_payment_pipe.Errors.{
  Failure, no_rows, errors_is, new_error, wrap, Result, ok, err, Outcome, nil, ◌>>=◌, ◌>>◌, Reply,
  done, failed, CommitReply, commit_outcome, after_commit, context, reply_outcome,
}
use distributed_payment_pipe.Domain.{Time, State, Transaction, transition}
use distributed_payment_pipe.Db.{
  Db, clashes, select_payment, select_key, set_state, rows_affected, insert_outbox,
}

-- What Postgres reports for a scan without a row: pgx.ErrNoRows.
abbrev no_rows_error : Failure
no_rows_error = record { message = codes "no rows in result set"; chain = no_rows ∷ [] }

-- `QueryRow(…).Scan(…)`
abbrev scan {ℓ} : {A : Type ℓ} → Reply → Option A → Result A
scan (failed e) row = err e
scan done none = err no_rows_error
scan done (some a) = ok a

-- The two ways in which the lookups report a failed scan.
lookup_error : Text → Text → Failure → Failure
lookup_error what key e =
    if errors_is e no_rows
    then new_error (codes "transaction not found for " ++ (what ++ (codes "=" ++ key)))
    else wrap (codes "query transaction by " ++ (what ++ codes ": ")) e

get_by : Text → Text → Reply → Option Transaction → Result Transaction
unfolding lookup_error
get_by what key reply row = elim (scan reply row) [
  | ok t ↦ ok t
  | err e ↦ err (lookup_error what key e)
]

-- `NewStore`: `new_pool` is what pgxpool.New answers to a URL.
unfoldable pub new_store : Text → (Text → Reply) → Outcome
new_store [] new_pool = err (new_error (codes "database URL is required"))
new_store (x ∷ url) new_pool =
    context (codes "create connection pool: ") (reply_outcome (new_pool (x ∷ url)))

unfoldable pub get_by_payment_id : Reply → Text → Db → Result Transaction
unfolding get_by
get_by_payment_id reply p db =
    get_by (codes "payment_id") p reply (select_payment p db.transactions)

unfoldable pub get_by_idempotency_key : Reply → Text → Db → Result Transaction
unfolding get_by
get_by_idempotency_key reply k db =
    get_by (codes "idempotency_key") k reply (select_key k db.transactions)

-- INSERT INTO transactions. `clash` is the error that Postgres reports for a unique violation.
unfoldable pub insert_transaction : Reply → Failure → Transaction → Db → Result Db
insert_transaction (failed e) clash t db = err e
insert_transaction done clash t db =
    if clashes t db.transactions
    then err clash
    else ok (record db { transactions = db.transactions ++ t ∷ [] })

-- `Save`: one statement outside any transaction.
unfoldable pub save : Reply → Failure → Transaction → Db → Outcome × Db
unfolding insert_transaction
save reply clash t db = elim (insert_transaction reply clash t db) [
  | ok db' ↦ (nil, db')
  | err e ↦ (err (wrap (codes "insert transaction: ") e), db)
]

pub record SaveReplies : Type 0 where
  pub begin : Reply
  pub insert_row : Reply
  pub clash : Failure
  pub insert_event : Reply
  pub commit : CommitReply

-- The statements of `SaveWithOutbox` inside its transaction: the tables as the transaction sees
-- them, or the error that the deferred function finds in `err`.
save_statements : SaveReplies → Transaction → Text → Db → Result Db
unfolding insert_transaction insert_outbox
save_statements r t payload db = do
  db' ← context (codes "insert transaction: ") (insert_transaction r.insert_row r.clash t db)
  context (codes "insert outbox: ") (reply_outcome r.insert_event)
  ok (insert_outbox t.payment_id (codes "payments.received") t.account_id payload t.created_at db')

-- The deferred function rolls back on an error; else it commits, and the result of the commit is
-- not looked at.
unfoldable pub save_with_outbox : SaveReplies → Transaction → Text → Db → Outcome × Db
unfolding save_statements
save_with_outbox r t payload db =
    elim (context (codes "begin transaction: ") (reply_outcome r.begin)) [
      | err e ↦ (err e, db)
      | ok _ ↦ elim (save_statements r t payload db) [
        | err e ↦ (err e, db)
        | ok inside ↦ (nil, after_commit r.commit db inside)
      ]
    ]

pub record UpdateReplies : Type 0 where
  pub begin : Reply
  pub update : Reply
  pub select : Reply
  pub audit : Reply
  pub commit : CommitReply

-- The message for a payment that exists in another state.
unfoldable pub stale_transition : State → State → Transaction → Text → Failure
stale_transition from to row p = new_error (
    codes "UpdateState: "
    ++ (codes "stale transition "
        ++ (from
            ++ (codes "->"
                ++ (to
                    ++ (codes ": current state is "
                        ++ (row.state ++ (codes " (payment " ++ (p ++ codes ")")))))))))

-- The branch for `tag.RowsAffected() == 0`: it always ends in an error.
no_row_updated : Reply → Text → State → State → Option Transaction → Failure
unfolding stale_transition
no_row_updated reply p from to row = elim (scan reply row) [
  | ok t ↦ stale_transition from to t p
  | err e ↦
      if errors_is e no_rows
      then new_error (codes "UpdateState: payment " ++ (p ++ codes " not found"))
      else wrap (codes "UpdateState: check current state: ") e
]

-- The tables inside the transaction once the row is updated and the audit row written.
unfoldable pub moved : Text → State → State → Time → Db → Db
moved p from to now db = record db {
  transactions = set_state p from to now db.transactions;
  state_transitions =
      db.state_transitions
      ++ record { payment_id = p; from_state = from; to_state = to; created_at = now } ∷ [];
}

-- The statements of `UpdateState`, with the commit and the deferred rollback.
update_statements : UpdateReplies → Text → State → State → Time → Db → Outcome × Db
unfolding no_row_updated moved
update_statements r p from to now db =
    elim (context (codes "UpdateState: update transactions: ") (reply_outcome r.update)) [
      | err e ↦ (err e, db)
      | ok _ ↦
          if rows_affected p from db.transactions == 0
          then (err (no_row_updated r.select p from to (select_payment p db.transactions)), db)
          else elim (context (codes "UpdateState: insert state_transitions: ")
              (reply_outcome r.audit)) [
                | err e ↦ (err e, db)
                | ok _ ↦ (
                  context (codes "UpdateState: commit: ") (commit_outcome r.commit),
                  after_commit r.commit db (moved p from to now db),
                )
              ]
    ]

unfoldable pub update_state : UpdateReplies → Text → State → State → Time → Db → Outcome × Db
unfolding update_statements
update_state r p from to now db =
    elim (context (codes "UpdateState: ") (transition from to)
      >> context (codes "UpdateState: begin tx: ") (reply_outcome r.begin)) [
        | err e ↦ (err e, db)
        | ok _ ↦ update_statements r p from to now db
      ]
