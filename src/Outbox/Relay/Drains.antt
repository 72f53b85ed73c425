-- ===== src/Outbox/Relay/Drains.antt =====
-- The relay without faults: its ticks publish every row that waits in the table.
use distributed_payment_pipe.Base.{
  ℕ, zero, suc, ◌-◌, ◌*◌, ◌≤◌, ◌≡◌, refl, Bool, false, not, ◌&&◌, ◌||◌, List, [], ◌∷◌, ◌++◌, map,
  append-nil, take, length, keep_if, ◌==◌, if◌then◌else◌, All, arith,
}
use distributed_payment_pipe.Text.{Text}
use distributed_payment_pipe.Errors.{nil, done, committed}
use distributed_payment_pipe.Domain.{Time}
use distributed_payment_pipe.Db.{OutboxRow}
use distributed_payment_pipe.Kafka.{Publish}
use distributed_payment_pipe.Outbox.Relay.{
  Relayed, BatchReplies, is_unpublished, put_in_order, order_by_id, select_batch, mark_published,
  relay_rows, relay_batch, relay_batch_size, run,
}

abbrev ids : List OutboxRow → List ℕ
ids = map λ (r : OutboxRow). r.id

abbrev among : ℕ → List ℕ → Bool
among i [] = false
among i (j ∷ js) = i == j || among i js

-- The number of rows with another id, and of the unpublished ones among them.
others : List ℕ → List OutboxRow → ℕ
others js [] = 0
others js (r ∷ rows) = if among r.id js then others js rows else suc (others js rows)

live : List ℕ → List OutboxRow → ℕ
live js [] = 0
live js (r ∷ rows) =
    if is_unpublished r && not (among r.id js) then suc (live js rows) else live js rows

live-others :
    (js : List ℕ) (rows : List OutboxRow) → live js rows ≡ others js (keep_if is_unpublished rows)
unfolding live others
live-others js [] = refl
live-others js (r ∷ rows) = ground (arith, live-others js rows)

live-mark :
    (js : List ℕ) (i : ℕ) (now : Time) (rows : List OutboxRow)
    → live js (mark_published i now rows) ≡ live (i ∷ js) rows
unfolding live mark_published is_unpublished
live-mark js i now [] = refl
live-mark js i now (r ∷ rows) = ground (arith, live-mark js i now rows)

others-put_in_order :
    (js : List ℕ) (r : OutboxRow) (rows : List OutboxRow)
    → others js (put_in_order r rows) ≡ others js (r ∷ rows)
unfolding others put_in_order
others-put_in_order js r [] = refl
others-put_in_order js r (x ∷ rows) = ground (arith, others-put_in_order js r rows)

others-order_by_id :
    (js : List ℕ) (rows : List OutboxRow) → others js (order_by_id rows) ≡ others js rows
unfolding others order_by_id
others-order_by_id js [] = refl
others-order_by_id js (r ∷ rows) =
    ground (arith, others-put_in_order js r (order_by_id rows), others-order_by_id js rows)

others_fewer : (i : ℕ) (js : List ℕ) (rows : List OutboxRow) → others (i ∷ js) rows ≤ others js rows
unfolding others
others_fewer i js [] = omega arith
others_fewer i js (r ∷ rows) = ground (arith, others_fewer i js rows)

others_of_none : (rows : List OutboxRow) → others [] rows ≡ length rows
unfolding others
others_of_none [] = refl
others_of_none (r ∷ rows) = omega (arith, others_of_none rows)

-- None of the first `k` rows is another.
others-take : (k : ℕ) (rows : List OutboxRow) → others (ids (take k rows)) rows ≤ length rows - k
unfolding others
others-take zero rows = omega (arith, others_of_none rows)
others-take (suc k) [] = omega arith
others-take (suc k) (r ∷ rows) =
    ground (arith, others-take k rows, others_fewer r.id (ids (take k rows)) rows)

-- The number of unpublished rows.
abbrev pub waiting : List OutboxRow → ℕ
waiting rows = length (keep_if is_unpublished rows)

live_of_none : (rows : List OutboxRow) → live [] rows ≡ waiting rows
live_of_none rows = rw (live-others [] rows) (others_of_none (keep_if is_unpublished rows))

length-order_by_id : (rows : List OutboxRow) → length (order_by_id rows) ≡ length rows
length-order_by_id rows =
    rw (← others_of_none (order_by_id rows), others-order_by_id [] rows) (others_of_none rows)

-- What is left of the unpublished rows once a batch of them is published.
select_batch_rest :
    (size : ℕ) (table : List OutboxRow)
    → live (ids (select_batch size table) ++ []) table ≤ waiting table - size
unfolding select_batch
select_batch_rest size table =
    let rows = keep_if is_unpublished table in
    let batch = take size (order_by_id rows) in
    rw
      (
        append-nil (ids batch),
        live-others (ids batch) table,
        ← others-order_by_id (ids batch) rows,
        ← length-order_by_id rows,
      )
      (others-take size (order_by_id rows))

-- Every answer of Postgres is good.
pub record IsHealthy (r : BatchReplies) : Type 0 where
  pub query : r.query ≡ done
  pub rows : r.rows ≡ done
  pub update : (n : ℕ) → r.update n ≡ committed

module _ {B : Type 0} (publish : Publish B)
    (sends : (topic key payload : Text) (b : B) → (publish topic key payload b).0 ≡ nil) where
  pub relay_rows_step :
      (r : BatchReplies) (n : ℕ) (row : OutboxRow) (rows : List OutboxRow) (w : Relayed B)
      → IsHealthy r
      → relay_rows publish r n (row ∷ rows) w
        ≡ relay_rows publish r (suc n) rows (record {
          table = mark_published row.id (r.now n) w.table;
          broker = (publish row.topic row.partition_key row.payload w.broker).1;
        })
  unfolding relay_rows
  relay_rows_step r n row rows w h =
      let sent = sends row.topic row.partition_key row.payload w.broker in
      let marked = h.update n in ground arith

  pub relay_batch_rows :
      (r : BatchReplies) (size : ℕ) (w : Relayed B)
      → IsHealthy r
      → relay_batch publish r size w ≡ relay_rows publish r 0 (select_batch size w.table) w
  unfolding relay_batch
  relay_batch_rows r size w h = let q = h.query in let rows = h.rows in ground arith

  live-relay_rows :
      (r : BatchReplies) (js : List ℕ) (n : ℕ) (rows : List OutboxRow) (w : Relayed B)
      → IsHealthy r
      → live js (relay_rows publish r n rows w).1.table ≡ live (ids rows ++ js) w.table
  live-relay_rows r js n [] w h = unfold relay_rows in refl
  live-relay_rows r js n (row ∷ rows) w h =
      let w' : Relayed B = record {
        table = mark_published row.id (r.now n) w.table;
        broker = (publish row.topic row.partition_key row.payload w.broker).1;
      } in
      rw (relay_rows_step r n row rows w h, live-relay_rows r js (suc n) rows w' h)
        (live-mark (ids rows ++ js) row.id (r.now n) w.table)

  waiting-relay_batch :
      (r : BatchReplies) (size : ℕ) (w : Relayed B)
      → IsHealthy r
      → waiting (relay_batch publish r size w).1.table ≤ waiting w.table - size
  waiting-relay_batch r size w h =
      rw
        (
          relay_batch_rows r size w h,
          ← live_of_none (relay_rows publish r 0 (select_batch size w.table) w).1.table,
          live-relay_rows r [] 0 (select_batch size w.table) w h,
        )
        (select_batch_rest size w.table)

  -- If the broker takes every message and Postgres answers every call, then after `n` ticks at most
  -- the rows are left that were waiting beyond 100 for each tick; so once 100 for each tick is as
  -- much as the rows that were waiting, every row of the outbox is published.
  pub run_drains :
      (rs : List BatchReplies) (w : Relayed B)
      → All IsHealthy rs
      → waiting (run publish rs w).table ≤ waiting w.table - relay_batch_size * length rs
  unfolding run
  run_drains [] w h = omega arith
  run_drains (r ∷ rs) w (h, hs) =
      let w' = (relay_batch publish r relay_batch_size w).1 in
      omega (arith, run_drains rs w' hs, waiting-relay_batch r relay_batch_size w h)
