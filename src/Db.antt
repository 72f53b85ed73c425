-- ===== src/Db.antt =====
-- The tables of internal/store/migrations, and the SQL statements of the source over them.
use distributed_payment_pipe.Base.{
  ℕ, suc, Bool, true, false, ◌&&◌, ◌||◌, List, [], ◌∷◌, ◌++◌, Option, none, some, if◌then◌else◌,
}
use distributed_payment_pipe.Base.Int.{ℤ}
use distributed_payment_pipe.Text.{Text, text_eq}
use distributed_payment_pipe.Domain.{Time, State, Transaction}

-- A row of `outbox`. `published_at` is NULL until the relay has published it. The payload is a JSONB
-- value; it is kept here as the text that was inserted.
pub record OutboxRow : Type 0 where
  pub id : ℕ
  pub aggregate_id : Text
  pub topic : Text
  pub partition_key : Text
  pub payload : Text
  pub created_at : Time
  pub published_at : Option Time

pub data Direction : Type 0 where
  debit credit : Direction

-- A row of `ledger_entries`.
pub record LedgerEntry : Type 0 where
  pub payment_id : Text
  pub account : Text
  pub direction : Direction
  pub amount_minor : ℤ
  pub currency : Text

-- A row of `state_transitions`.
pub record StateTransition : Type 0 where
  pub payment_id : Text
  pub from_state : State
  pub to_state : State
  pub created_at : Time

-- A row of `settlement_batches`.
pub record Batch : Type 0 where
  pub id : Text
  pub account_id : Text
  pub currency : Text
  pub window_start : Time
  pub window_end : Time
  pub total_minor : ℤ
  pub txn_count : ℕ
  pub status : Text
  pub created_at : Time

-- The newest row of a table stands last. `next_outbox_id` is the sequence behind BIGSERIAL.
pub record Db : Type 0 where
  pub transactions : List Transaction
  pub outbox : List OutboxRow
  pub next_outbox_id : ℕ
  pub ledger_entries : List LedgerEntry
  pub state_transitions : List StateTransition
  pub settlement_batches : List Batch

-- PRIMARY KEY (payment_id) and UNIQUE INDEX (idempotency_key): the new row clashes with an old one.
unfoldable pub clashes : Transaction → List Transaction → Bool
clashes t [] = false
clashes t (r ∷ rows) =
    text_eq r.payment_id t.payment_id
    || text_eq r.idempotency_key t.idempotency_key
    || clashes t rows

-- SELECT … FROM transactions WHERE payment_id = $1
unfoldable pub select_payment : Text → List Transaction → Option Transaction
select_payment p [] = none
select_payment p (r ∷ rows) = if text_eq r.payment_id p then some r else select_payment p rows

-- SELECT … FROM transactions WHERE idempotency_key = $1
unfoldable pub select_key : Text → List Transaction → Option Transaction
select_key k [] = none
select_key k (r ∷ rows) = if text_eq r.idempotency_key k then some r else select_key k rows

-- The row that UPDATE … SET state = $1, updated_at = now() WHERE payment_id = $2 AND state = $3 sees.
unfoldable pub is_target : Text → State → Transaction → Bool
is_target p from r = text_eq r.payment_id p && text_eq r.state from

unfoldable pub set_state : Text → State → State → Time → List Transaction → List Transaction
unfolding is_target
set_state p from to now [] = []
set_state p from to now (r ∷ rows) =
    (if is_target p from r then record r { state = to; updated_at = now } else r)
    ∷ set_state p from to now rows

-- RowsAffected of that statement.
unfoldable pub rows_affected : Text → State → List Transaction → ℕ
unfolding is_target
rows_affected p from [] = 0
rows_affected p from (r ∷ rows) =
    if is_target p from r then suc (rows_affected p from rows) else rows_affected p from rows

unfoldable pub same_direction : Direction → Direction → Bool
same_direction debit debit = true
same_direction debit credit = false
same_direction credit debit = false
same_direction credit credit = true

-- UNIQUE INDEX (payment_id, direction) on `ledger_entries`.
unfoldable pub has_leg : Text → Direction → List LedgerEntry → Bool
unfolding same_direction
has_leg p d [] = false
has_leg p d (e ∷ es) = text_eq e.payment_id p && same_direction e.direction d || has_leg p d es

-- INSERT INTO ledger_entries … ON CONFLICT (payment_id, direction) DO NOTHING, and RowsAffected.
unfoldable pub insert_leg : LedgerEntry → List LedgerEntry → List LedgerEntry × ℕ
unfolding has_leg
insert_leg e es = if has_leg e.payment_id e.direction es then (es, 0) else (es ++ e ∷ [], 1)

-- INSERT INTO outbox (…) VALUES (…)
unfoldable pub insert_outbox : Text → Text → Text → Text → Time → Db → Db
insert_outbox aggregate_id topic partition_key payload created_at db = record db {
  outbox =
      db.outbox
      ++ record {
        id = db.next_outbox_id;
        aggregate_id = aggregate_id;
        topic = topic;
        partition_key = partition_key;
        payload = payload;
        created_at = created_at;
        published_at = none;
      }
        ∷ [];
  next_outbox_id = suc db.next_outbox_id;
}
