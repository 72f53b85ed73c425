-- ===== src/Outbox/Relay/Delivery.antt =====
-- What a batch of the relay sends and marks, whatever fails in between.
use distributed_payment_pipe.Base.{
  ℕ, zero, suc, ◌≤◌, ◌≡◌, refl, sym, ap, ◌⊎◌, inl, inr, List, [], ◌∷◌, ◌++◌, map, append-nil,
  append_assoc, take, length, arith, if◌then◌else◌, some, ◌==◌, ◌∙◌,
}
use distributed_payment_pipe.Text.{Text}
use distributed_payment_pipe.Errors.{
  Failure, ok, err, Outcome, nil, Outcome-cases, Reply-cases, done, CommitReply, CommitReply-cases,
  after_commit,
}
use distributed_payment_pipe.Db.{OutboxRow}
use distributed_payment_pipe.Kafka.{Publish}
use distributed_payment_pipe.Outbox.Relay.{
  Relayed, BatchReplies, mark_published, relay_rows, relay_batch, select_batch,
}

-- A message on a topic.
pub record Message : Type 0 where
  pub topic : Text
  pub key : Text
  pub payload : Text

abbrev pub message : OutboxRow → Message
message row = record { topic = row.topic; key = row.partition_key; payload = row.payload }

abbrev note : Outcome → Message → List Message → List Message
note (ok _) m log = log ++ m ∷ []
note (err _) m log = log

-- A producer that also keeps the messages that the broker acknowledged, the oldest first.
abbrev pub tracked : {B : Type 0} → Publish B → Publish (B × List Message)
tracked publish topic key payload (b, log) =
    let (o, b') = publish topic key payload b in
    (o, (b', note o (record { topic = topic; key = key; payload = payload }) log))

module _ {B : Type 0} (publish : Publish B) (r : BatchReplies) where
  -- What is left of a row of the table when the first `m` rows of a batch are marked: a row with the
  -- id of one of them has the time of that mark, and any other row is as it was.
  abbrev pub row_after : ℕ → ℕ → List OutboxRow → OutboxRow → OutboxRow
  row_after zero n rows x = x
  row_after (suc m) n [] x = x
  row_after (suc m) n (row ∷ rows) x =
      row_after m (suc n) rows
        (if x.id == row.id then record x { published_at = some (r.now n) } else x)

  map-row_after_zero :
      (n : ℕ) (rows table : List OutboxRow) → map (row_after 0 n rows) table ≡ table
  map-row_after_zero n rows [] = refl
  map-row_after_zero n rows (x ∷ table) = ap (λ t. x ∷ t) (map-row_after_zero n rows table)

  map-mark_published :
      (m n : ℕ) (row : OutboxRow) (rows table : List OutboxRow)
      → map (row_after m (suc n) rows) (mark_published row.id (r.now n) table)
        ≡ map (row_after (suc m) n (row ∷ rows)) table
  unfolding mark_published
  map-mark_published m n row rows [] = refl
  map-mark_published m n row rows (x ∷ table) =
      ap (λ t. row_after (suc m) n (row ∷ rows) x ∷ t) (map-mark_published m n row rows table)

  -- The broker acknowledged the messages of the first `sent` rows, in order, and the table has the
  -- marks of the first `marked` and no other; a batch that succeeds did both for every row.
  pub record HasRelayed (n : ℕ) (rows : List OutboxRow) (w w' : Relayed (B × List Message))
      (o : Outcome) : Type 0 where
    pub sent : ℕ
    pub marked : ℕ
    pub log : w'.broker.1 ≡ w.broker.1 ++ map message (take sent rows)
    pub table : w'.table ≡ map (row_after marked n rows) w.table
    pub behind : marked ≤ sent
    pub by_one : sent ≤ suc marked
    pub finished :
        ((o ≡ nil) × (sent ≡ length rows) × (marked ≡ length rows))
        ⊎ ((e : Failure) × (o ≡ err e) × (sent ≤ length rows))

  -- A row that is sent and marked, before the rest of a batch.
  after_row :
      (n : ℕ) (row : OutboxRow) (rows : List OutboxRow) (w : Relayed (B × List Message))
      {b : B × List Message} {table : List OutboxRow} {w' : Relayed (B × List Message)}
      {o : Outcome}
      → b.1 ≡ w.broker.1 ++ message row ∷ []
      → table ≡ mark_published row.id (r.now n) w.table
      → HasRelayed (suc n) rows (record { table = table; broker = b }) w' o
      → HasRelayed n (row ∷ rows) w w' o
  after_row n row rows w noted marks h = record {
    sent = suc h.sent;
    marked = suc h.marked;
    log =
        rw (h.log, noted)
          (append_assoc w.broker.1 (message row ∷ []) (map message (take h.sent rows)));
    table = rw (h.table, marks) (map-mark_published h.marked n row rows w.table);
    behind = omega (arith, h.behind);
    by_one = omega (arith, h.by_one);
    finished = elim h.finished [
      | inl (o, s, m) ↦ inl (o, ap suc s, ap suc m)
      | inr (e, o, m) ↦ inr (e, o, omega arith)
    ];
  }

  -- The three ways to stop at a row.
  unsent_row :
      (n : ℕ) (row : OutboxRow) (rows : List OutboxRow) (w : Relayed (B × List Message))
      (b : B × List Message) (e : Failure)
      → b.1 ≡ w.broker.1
      → HasRelayed n (row ∷ rows) w (record { table = w.table; broker = b }) (err e)
  unsent_row n row rows w b e noted = record {
    sent = 0;
    marked = 0;
    log = rw noted (sym (append-nil w.broker.1));
    table = sym (map-row_after_zero n (row ∷ rows) w.table);
    behind = omega arith;
    by_one = omega arith;
    finished = inr (e, refl, omega arith);
  }

  unmarked_row :
      (n : ℕ) (row : OutboxRow) (rows : List OutboxRow) (w : Relayed (B × List Message))
      (b : B × List Message) (table : List OutboxRow) (e : Failure)
      → b.1 ≡ w.broker.1 ++ message row ∷ []
      → table ≡ w.table
      → HasRelayed n (row ∷ rows) w (record { table = table; broker = b }) (err e)
  unmarked_row n row rows w b table e noted marks = record {
    sent = 1;
    marked = 0;
    log = noted;
    table = rw marks (sym (map-row_after_zero n (row ∷ rows) w.table));
    behind = omega arith;
    by_one = omega arith;
    finished = inr (e, refl, omega arith);
  }

  marked_row :
      (n : ℕ) (row : OutboxRow) (rows : List OutboxRow) (w : Relayed (B × List Message))
      (b : B × List Message) (table : List OutboxRow) (e : Failure)
      → b.1 ≡ w.broker.1 ++ message row ∷ []
      → table ≡ mark_published row.id (r.now n) w.table
      → HasRelayed n (row ∷ rows) w (record { table = table; broker = b }) (err e)
  marked_row n row rows w b table e noted marks = record {
    sent = 1;
    marked = 1;
    log = noted;
    table = rw marks (
        sym (map-row_after_zero (suc n) rows (mark_published row.id (r.now n) w.table))
        ∙ map-mark_published 0 n row rows w.table);
    behind = omega arith;
    by_one = omega arith;
    finished = inr (e, refl, omega arith);
  }

  relay_rows-HasRelayed :
      (n : ℕ) (rows : List OutboxRow) (w : Relayed (B × List Message))
      → let (o, w') = relay_rows (tracked publish) r n rows w in HasRelayed n rows w w' o
  unfolding relay_rows
  relay_rows-HasRelayed n [] w = record {
    sent = 0;
    marked = 0;
    log = sym (append-nil w.broker.1);
    table = sym (map-row_after_zero n [] w.table);
    behind = omega arith;
    by_one = omega arith;
    finished = inl (refl, refl, refl);
  }
  relay_rows-HasRelayed n (row ∷ rows) w =
      let published = tracked publish row.topic row.partition_key row.payload w.broker in
      let marks =
        λ (c : CommitReply). after_commit c w.table (mark_published row.id (r.now n) w.table) in
      let noted = λ (o : Outcome). note o (message row) w.broker.1 in
      elim (Outcome-cases (publish row.topic row.partition_key row.payload w.broker.0).0) [
        | inr (e, h) ↦ rw (h, relay_rows) (unsent_row n row rows w published.1 e (ap noted h))
        | inl h ↦ elim (CommitReply-cases (r.update n)) [
          | inl k ↦
              rw (h, k, relay_rows)
                (after_row n row rows w (ap noted h) (ap marks k) (
                  relay_rows-HasRelayed (suc n) rows
                    (record { table = marks (r.update n); broker = published.1 })))
          | inr (inl (e, k)) ↦
              rw (h, k, relay_rows)
                (unmarked_row n row rows w published.1 (marks (r.update n)) e (ap noted h)
                  (ap marks k))
          | inr (inr (e, k)) ↦
              rw (h, k, relay_rows)
                (marked_row n row rows w published.1 (marks (r.update n)) e (ap noted h)
                  (ap marks k))
        ]
      ]

  batch_rows :
      (batch_size : ℕ) (w : Relayed (B × List Message))
      → r.query ≡ done
      → r.rows ≡ done
      → relay_batch (tracked publish) r batch_size w
        ≡ relay_rows (tracked publish) r 0 (select_batch batch_size w.table) w
  unfolding relay_batch
  batch_rows batch_size w h k = ground arith

  -- Whatever the producer and Postgres answer, a batch of the relay that gets its rows has the
  -- messages of its first rows acknowledged, in the order of the rows, and has set the time of
  -- publication in those rows, but perhaps not in the last of them, and changed no other row of the
  -- table: a message can be sent twice, but none is marked unsent. Without an error it has sent and
  -- marked every row. A batch whose query fails does nothing.
  pub relay_batch-HasRelayed :
      (batch_size : ℕ) (w : Relayed (B × List Message))
      → let (o, w') = relay_batch (tracked publish) r batch_size w in
        (w' ≡ w) × ((e : Failure) × (o ≡ err e))
        ⊎ HasRelayed 0 (select_batch batch_size w.table) w w' o
  unfolding relay_batch
  relay_batch-HasRelayed batch_size w = elim (Reply-cases r.query) [
    | inr (e, h) ↦ inl (rw h (refl, (e, refl)))
    | inl h ↦ elim (Reply-cases r.rows) [
      | inr (e, k) ↦ inl (rw (h, k) (refl, (e, refl)))
      | inl k ↦ inr (
          rw (batch_rows batch_size w h k)
            (relay_rows-HasRelayed 0 (select_batch batch_size w.table) w))
    ]
  ]
