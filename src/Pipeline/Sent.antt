-- ===== src/Pipeline/Sent.antt =====
-- A batch of the relay that finds one unpublished row.
use distributed_payment_pipe.Base.{◌≡◌, refl, List, [], ◌∷◌, ◌++◌, none, keep_if, keep_if-append}
use distributed_payment_pipe.Text.{Text}
use distributed_payment_pipe.Errors.{nil}
use distributed_payment_pipe.Db.{OutboxRow}
use distributed_payment_pipe.Kafka.{Publish}
use distributed_payment_pipe.Outbox.Relay.{
  Relayed, BatchReplies, is_unpublished, order_by_id, put_in_order, select_batch, mark_published,
  relay_rows, relay_batch, relay_batch_size,
}
use distributed_payment_pipe.Outbox.Relay.Delivery.{Message, message, tracked}
use distributed_payment_pipe.Outbox.Relay.Drains.{IsHealthy, relay_batch_rows, relay_rows_step}

select_batch_one :
    (rows : List OutboxRow) (row : OutboxRow)
    → keep_if is_unpublished rows ≡ []
    → row.published_at ≡ none
    → select_batch relay_batch_size (rows ++ row ∷ []) ≡ row ∷ []
unfolding select_batch is_unpublished order_by_id put_in_order
select_batch_one rows row h fresh =
    rw (keep_if-append is_unpublished rows (row ∷ []), h, fresh) refl

module _ {B : Type 0} (publish : Publish B)
    (sends : (topic key payload : Text) (b : B) → (publish topic key payload b).0 ≡ nil) where
  -- The tracked producer succeeds too, and notes the message.
  tracked_sends :
      (topic key payload : Text) (b : B × List Message)
      → (tracked publish topic key payload b).0 ≡ nil
  tracked_sends topic key payload b = sends topic key payload b.0

  tracked_notes :
      (topic key payload : Text) (b : B) (log : List Message)
      → (tracked publish topic key payload (b, log)).1.1
        ≡ log ++ record { topic = topic; key = key; payload = payload } ∷ []
  tracked_notes topic key payload b log = rw (sends topic key payload b) refl

  -- The batch sends the message of the row and marks the row.
  pub relay_batch_one :
      (r : BatchReplies) (rows : List OutboxRow) (row : OutboxRow) (b : B)
      → IsHealthy r
      → keep_if is_unpublished rows ≡ []
      → row.published_at ≡ none
      → let w : Relayed (B × List Message) = record {
        table = rows ++ row ∷ [];
        broker = (b, []);
      } in
        let (o, w') = relay_batch (tracked publish) r relay_batch_size w in
        (o ≡ nil)
        × (w'.broker.1 ≡ message row ∷ [])
        × (w'.table ≡ mark_published row.id (r.now 0) (rows ++ row ∷ []))
  relay_batch_one r rows row b h published waits =
      let w : Relayed (B × List Message) = record { table = rows ++ row ∷ []; broker = (b, []) } in
      let noted = tracked_notes row.topic row.partition_key row.payload b [] in
      rw
        (
          relay_batch_rows (tracked publish) tracked_sends r relay_batch_size w h,
          select_batch_one rows row published waits,
          relay_rows_step (tracked publish) tracked_sends r 0 row [] w h,
        )
        (unfold relay_rows in (refl, noted, refl))
