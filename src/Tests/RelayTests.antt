-- ===== src/Tests/RelayTests.antt =====
-- The relay at a concrete table.
use distributed_payment_pipe.Base.{ℕ, zero, suc, ◌≡◌, refl, ◌⊎◌, List, [], ◌∷◌, none, some}
use distributed_payment_pipe.Base.Int.{pos}
use distributed_payment_pipe.Text.{codes}
use distributed_payment_pipe.Errors.{Failure, nil, err, done, CommitReply, committed, refused}
use distributed_payment_pipe.Db.{OutboxRow}
use distributed_payment_pipe.Kafka.{Publish}
use distributed_payment_pipe.Outbox.Relay.{
  Relayed, BatchReplies, relay_rows, relay_batch, select_batch, order_by_id, put_in_order,
  is_unpublished, mark_published,
}
use distributed_payment_pipe.Outbox.Relay.Delivery.{
  Message, message, tracked, HasRelayed, relay_batch-HasRelayed,
}
use distributed_payment_pipe.Tests.Fixtures.{broken}

abbrev pub row : ℕ → OutboxRow
row id = record {
  id = id;
  aggregate_id = codes "p1";
  topic = codes "payments.received";
  partition_key = codes "acc";
  payload = codes "{}";
  created_at = pos 10;
  published_at = none;
}

abbrev published_row : OutboxRow
published_row = record (row 2) { published_at = some (pos 11) }

-- A broker that counts what it takes and refuses from the third message on.
abbrev publish : Publish ℕ
publish topic key payload zero = (nil, 1)
publish topic key payload (suc zero) = (nil, 2)
publish topic key payload (suc (suc n)) = (err broken, suc (suc n))

abbrev pub before : Relayed (ℕ × List Message)
before = record { table = row 3 ∷ published_row ∷ row 1 ∷ []; broker = (0, []) }

abbrev pub replies : BatchReplies
replies = record { query = done; rows = done; update = λ n. committed; now = λ n. pos 20 }

-- The second update is refused.
abbrev second_refused : ℕ → CommitReply
second_refused zero = committed
second_refused (suc n) = refused broken

abbrev replies_refused : BatchReplies
replies_refused = record replies { update = second_refused }

oldest_first : select_batch 100 before.table ≡ row 1 ∷ row 3 ∷ []
unfolding select_batch order_by_id put_in_order is_unpublished
oldest_first = refl

both_sent : relay_batch (tracked publish) replies 100 before ≡ (
  nil,
  record {
    table =
        record (row 3) { published_at = some (pos 20) }
        ∷ published_row
        ∷ record (row 1) { published_at = some (pos 20) }
        ∷ [];
    broker = (2, message (row 1) ∷ message (row 3) ∷ []);
  },
)
unfolding relay_batch relay_rows select_batch order_by_id put_in_order is_unpublished mark_published
both_sent = refl

-- The second message stays unpublished, so that the next batch sends it again.
sent_unmarked : relay_batch (tracked publish) replies_refused 100 before ≡ (
  err broken,
  record {
    table = row 3 ∷ published_row ∷ record (row 1) { published_at = some (pos 20) } ∷ [];
    broker = (2, message (row 1) ∷ message (row 3) ∷ []);
  },
)
unfolding relay_batch relay_rows select_batch order_by_id put_in_order is_unpublished mark_published
sent_unmarked = refl

relay_batch-HasRelayed_example :
    let (o, w') = relay_batch (tracked publish) replies_refused 100 before in
    ((w' ≡ before) × ((e : Failure) × (o ≡ err e)))
    ⊎ HasRelayed publish replies_refused 0 (select_batch 100 before.table) before w' o
relay_batch-HasRelayed_example = relay_batch-HasRelayed publish replies_refused 100 before
