-- ===== src/Settlement.antt =====
-- internal/settlement: the types, and the queries of pgstore.go over the tables.
pub mod Conserved
pub mod Engine
pub mod Groups
pub mod Persist
use distributed_payment_pipe.Base.{
  ℕ, suc, Bool, true, false, ◌&&◌, ◌||◌, not, List, [], ◌∷◌, ◌++◌, map, keep_if, leb, if◌then◌else◌,
}
use distributed_payment_pipe.Base.Int.{ℤ, ◌+ℤ◌, leb_ℤ, ltb_ℤ, eqb_ℤ, max_int64, pos, negsuc}
use distributed_payment_pipe.Text.{Text, codes, text_eq}
use distributed_payment_pipe.Errors.{
  Failure, wrap, Result, ok, err, nil, ◌>>=◌, ◌>>◌, guard, Reply, CommitReply, committed, refused,
  unconfirmed, context, reply_outcome, commit_outcome, after_commit,
}
use distributed_payment_pipe.Domain.{Time, Transaction, state_captured, state_settled}
use distributed_payment_pipe.Db.{Db, Batch, insert_outbox}

-- One row of the aggregation: the CAPTURED payments of an account in a currency.
pub record CapturedGroup : Type 0 where
  pub account_id : Text
  pub currency : Text
  pub total_minor : ℤ
  pub txn_count : ℕ
  pub payment_ids : List Text

abbrev pub batch_status_pending : Text
batch_status_pending = codes "PENDING"

-- WHERE state = 'CAPTURED' AND created_at >= $1 AND created_at < $2
unfoldable pub in_window : Time → Time → Transaction → Bool
in_window start end t =
    text_eq t.state state_captured && leb_ℤ start t.created_at && ltb_ℤ t.created_at end

-- The row has the keys of the group.
unfoldable pub same_key : Transaction → CapturedGroup → Bool
same_key t g = text_eq t.account_id g.account_id && text_eq t.amount.currency g.currency

unfoldable pub open_group : Transaction → CapturedGroup
open_group t = record {
  account_id = t.account_id;
  currency = t.amount.currency;
  total_minor = t.amount.minor_units;
  txn_count = 1;
  payment_ids = t.payment_id ∷ [];
}

unfoldable pub join_group : Transaction → CapturedGroup → CapturedGroup
join_group t g = record g {
  total_minor = t.amount.minor_units +ℤ g.total_minor;
  txn_count = suc g.txn_count;
  payment_ids = t.payment_id ∷ g.payment_ids;
}

-- The order of (account_id, currency) under the collation of the database.
abbrev pub Collation : Type 0
Collation = Text × Text → Text × Text → Bool

-- There is a group with the keys of the row.
unfoldable pub has_group : Transaction → List CapturedGroup → Bool
unfolding same_key
has_group t [] = false
has_group t (g ∷ gs) = same_key t g || has_group t gs

unfoldable pub join_row : Transaction → List CapturedGroup → List CapturedGroup
unfolding same_key join_group
join_row t [] = []
join_row t (g ∷ gs) = if same_key t g then join_group t g ∷ gs else g ∷ join_row t gs

-- ORDER BY account_id, currency
unfoldable pub place : Collation → CapturedGroup → List CapturedGroup → List CapturedGroup
place before g [] = g ∷ []
place before g (h ∷ gs) =
    if before (g.account_id, g.currency) (h.account_id, h.currency)
    then g ∷ h ∷ gs
    else h ∷ place before g gs

-- GROUP BY account_id, currency: a row joins its group, or opens one in its place. SUM, COUNT and
-- ARRAY_AGG are those of the rows that have joined. Postgres leaves the order of the array open;
-- here it is that of the table.
unfoldable pub add_row : Collation → Transaction → List CapturedGroup → List CapturedGroup
add_row before t gs = if has_group t gs then join_row t gs else place before (open_group t) gs

unfoldable pub group_rows : Collation → List Transaction → List CapturedGroup
group_rows before [] = []
group_rows before (t ∷ rows) = add_row before t (group_rows before rows)

-- A total that is no int64 cannot be scanned.
unfoldable pub fits : ℤ → Bool
fits (pos n) = leb n max_int64
fits (negsuc n) = leb n max_int64

all_fit : List CapturedGroup → Bool
unfolding fits
all_fit [] = true
all_fit (g ∷ gs) = fits g.total_minor && all_fit gs

-- `query` and `rows` are what Postgres answers to the query and at the end of its rows, and
-- `no_scan` is the error of a scan that fails.
pub record AggregateReplies : Type 0 where
  pub query : Reply
  pub rows : Reply
  pub no_scan : Failure

unfoldable pub aggregate_captured :
    Collation → AggregateReplies → Time → Time → Db → Result (List CapturedGroup)
unfolding all_fit group_rows in_window
aggregate_captured before r start end db = do
  context (codes "aggregate query: ") (reply_outcome r.query)
  let groups = group_rows before (keep_if (in_window start end) db.transactions)
  guard (all_fit groups) (wrap (codes "scan group row: ") r.no_scan)
  reply_outcome r.rows
  ok groups

-- The unique index on (account_id, currency, window_start, window_end).
unfoldable pub same_window : Batch → Batch → Bool
same_window b c =
    text_eq b.account_id c.account_id
    && text_eq b.currency c.currency
    && eqb_ℤ b.window_start c.window_start
    && eqb_ℤ b.window_end c.window_end

unfoldable pub has_window : Batch → List Batch → Bool
unfolding same_window
has_window b [] = false
has_window b (c ∷ cs) = same_window b c || has_window b cs

-- PRIMARY KEY (id) on `settlement_batches`.
unfoldable pub has_id : Text → List Batch → Bool
has_id i [] = false
has_id i (c ∷ cs) = text_eq c.id i || has_id i cs

-- payment_id = ANY($1)
unfoldable pub listed : Text → List Text → Bool
listed p [] = false
listed p (q ∷ qs) = text_eq q p || listed p qs

-- UPDATE transactions SET state = 'SETTLED', updated_at = now() WHERE payment_id = ANY($1) AND
-- state = 'CAPTURED', on one row.
unfoldable pub settle_row : List Text → Time → Transaction → Transaction
unfolding listed
settle_row ids now t =
    if listed t.payment_id ids && text_eq t.state state_captured
    then record t { state = state_settled; updated_at = now }
    else t

-- What Postgres answers to each call of `PersistBatch`, and its clock.
pub record PersistReplies : Type 0 where
  pub begin : Reply
  pub insert_batch : Reply
  pub clash : Failure
  pub update_txns : Reply
  pub insert_settled : Reply
  pub insert_payout : Reply
  pub commit : CommitReply
  pub now : Time

-- The tables inside the transaction after all its writes.
unfoldable pub persisted : Batch → CapturedGroup → Text → Text → Time → Db → Db
unfolding settle_row insert_outbox
persisted b g settled payout now db =
    let written = record db {
      settlement_batches = db.settlement_batches ++ b ∷ [];
      transactions = map (settle_row g.payment_ids now) db.transactions;
    } in
    insert_outbox b.id (codes "payouts.requested") b.account_id payout now
      (insert_outbox b.id (codes "payments.settled") b.account_id settled now written)

-- The statements after the batch row, with the commit.
persist_rest : PersistReplies → Batch → CapturedGroup → Text → Text → Db → Result Bool × Db
unfolding persisted
persist_rest r b g settled payout db =
    elim (context (codes "bulk update transactions: ") (reply_outcome r.update_txns)
      >> context (codes "outbox payments.settled: ") (reply_outcome r.insert_settled)
      >> context (codes "outbox payouts.requested: ") (reply_outcome r.insert_payout)) [
        | err e ↦ (err e, db)
        | ok _ ↦
            let after = after_commit r.commit db (persisted b g settled payout r.now db) in
            elim (context (codes "commit: ") (commit_outcome r.commit)) [
              | err e ↦ (err e, after)
              | ok _ ↦ (ok false, after)
            ]
      ]

unfoldable pub persist_batch :
    PersistReplies → Batch → CapturedGroup → Text → Text → Db → Result Bool × Db
unfolding persist_rest has_window has_id
persist_batch r b g settled payout db =
    elim (context (codes "begin tx: ") (reply_outcome r.begin)
      >> context (codes "insert settlement_batch: ") (reply_outcome r.insert_batch)) [
        | err e ↦ (err e, db)
        | ok _ ↦
            if has_window b db.settlement_batches
            then (ok true, db)
            else if has_id b.id db.settlement_batches
            then (err (wrap (codes "insert settlement_batch: ") r.clash), db)
            else persist_rest r b g settled payout db
      ]
