-- ===== src/Outbox/Relay.antt =====
-- internal/outbox/relay.go: the relay from the outbox table to Kafka. The producer is a parameter:
-- an operation on the state of the broker.
pub mod Delivery
pub mod Drains
pub mod Marked
use distributed_payment_pipe.Base.{
  ℕ, zero, suc, ◌≡◌, Bool, true, false, List, [], ◌∷◌, Option, none, some, take, keep_if, leb, ◌==◌,
  if◌then◌else◌,
}
use distributed_payment_pipe.Errors.{
  Failure, Result, ok, err, Outcome, nil, Reply, done, failed, CommitReply, commit_outcome,
  after_commit,
}
use distributed_payment_pipe.Domain.{Time}
use distributed_payment_pipe.Db.{OutboxRow}
use distributed_payment_pipe.Kafka.{Publish}

-- WHERE published_at IS NULL
unfoldable pub is_unpublished : OutboxRow → Bool
is_unpublished row = elim row.published_at [ none ↦ true | some _ ↦ false ]

-- ORDER BY id
unfoldable pub put_in_order : OutboxRow → List OutboxRow → List OutboxRow
put_in_order r [] = r ∷ []
put_in_order r (x ∷ xs) = if leb r.id x.id then r ∷ x ∷ xs else x ∷ put_in_order r xs

unfoldable pub order_by_id : List OutboxRow → List OutboxRow
order_by_id [] = []
order_by_id (r ∷ rows) = put_in_order r (order_by_id rows)

-- The rows of a batch: the oldest unpublished ones, at most `batch_size`.
unfoldable pub select_batch : ℕ → List OutboxRow → List OutboxRow
select_batch batch_size table = take batch_size (order_by_id (keep_if is_unpublished table))

-- UPDATE outbox SET published_at = NOW() WHERE id = $1
unfoldable pub mark_published : ℕ → Time → List OutboxRow → List OutboxRow
mark_published id now [] = []
mark_published id now (r ∷ rows) =
    (if r.id == id then record r { published_at = some now } else r) ∷ mark_published id now rows

-- The table and the broker.
pub record Relayed (B : Type 0) : Type 0 where
  pub table : List OutboxRow
  pub broker : B

-- What Postgres answers to the queries of one batch: the SELECT, its rows, and each UPDATE, with
-- its time, by the number of the row in the batch.
pub record BatchReplies : Type 0 where
  pub query : Reply
  pub rows : Reply
  pub update : ℕ → CommitReply
  pub now : ℕ → Time

module _ {B : Type 0} (publish : Publish B) (r : BatchReplies) where
  -- The loop over the rows of a batch, the first of which is number `n`.
  unfoldable pub relay_rows : ℕ → List OutboxRow → Relayed B → Outcome × Relayed B
  relay_rows n [] w = (nil, w)
  relay_rows n (row ∷ rows) w =
      let (o, b) = publish row.topic row.partition_key row.payload w.broker in
      let marked = mark_published row.id (r.now n) w.table in
      let w' : Relayed B = record {
        table = after_commit (r.update n) w.table marked;
        broker = b;
      } in
      let rest = relay_rows (suc n) rows w' in
      elim o [
        | err e ↦ (err e, record w { broker = b })
        | ok _ ↦ elim (commit_outcome (r.update n)) [ err e ↦ (err e, w') | ok _ ↦ rest ]
      ]

  unfoldable pub relay_batch : ℕ → Relayed B → Outcome × Relayed B
  relay_batch batch_size w = elim r.query [
    | failed e ↦ (err e, w)
    | done ↦ elim r.rows [
      | failed e ↦ (err e, w)
      | done ↦ relay_rows 0 (select_batch batch_size w.table) w
    ]
  ]

-- `NewPostgresRelay`
abbrev pub relay_batch_size : ℕ
relay_batch_size = 100

-- `Run`: a batch at each tick; an error is only logged.
unfoldable pub run : {B : Type 0} → Publish B → List BatchReplies → Relayed B → Relayed B
run publish [] w = w
run publish (r ∷ rs) w = run publish rs (relay_batch publish r relay_batch_size w).1
