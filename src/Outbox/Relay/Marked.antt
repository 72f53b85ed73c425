-- ===== src/Outbox/Relay/Marked.antt =====
-- The relay changes nothing in the table but the times of publication.
use distributed_payment_pipe.Base.{
  ◌≡◌, refl, ◌∙◌, ℕ, suc, none, List, [], ◌∷◌, map, arith, inl, inr,
}
use distributed_payment_pipe.Errors.{
  Outcome-cases, Reply-cases, CommitReply-cases, commit_outcome, CommitReply, after_commit,
}
use distributed_payment_pipe.Domain.{Time}
use distributed_payment_pipe.Db.{OutboxRow}
use distributed_payment_pipe.Kafka.{Publish}
use distributed_payment_pipe.Outbox.Relay.{
  Relayed, BatchReplies, select_batch, mark_published, relay_rows, relay_batch,
}

-- A row but for the time of its publication.
abbrev pub unmarked : OutboxRow → OutboxRow
unmarked r = record r { published_at = none }

mark_published-unmarked :
    (id : ℕ) (now : Time) (rows : List OutboxRow)
    → map unmarked (mark_published id now rows) ≡ map unmarked rows
unfolding mark_published
mark_published-unmarked id now [] = refl
mark_published-unmarked id now (r ∷ rows) = ground (arith, mark_published-unmarked id now rows)

after_commit-unmarked :
    (c : CommitReply) (id : ℕ) (now : Time) (rows : List OutboxRow)
    → map unmarked (after_commit c rows (mark_published id now rows)) ≡ map unmarked rows
after_commit-unmarked c id now rows = elim (CommitReply-cases c) [
  | inl e ↦ rw e (mark_published-unmarked id now rows)
  | inr (inl (f, e)) ↦ rw e refl
  | inr (inr (f, e)) ↦ rw e (mark_published-unmarked id now rows)
]

module _ {B : Type 0} (publish : Publish B) (r : BatchReplies) where
  relay_rows-unmarked :
      (n : ℕ) (rows : List OutboxRow) (w : Relayed B)
      → map unmarked (relay_rows publish r n rows w).1.table ≡ map unmarked w.table
  unfolding relay_rows
  relay_rows-unmarked n [] w = refl
  relay_rows-unmarked n (row ∷ rows) w =
      let marked = after_commit-unmarked (r.update n) row.id (r.now n) w.table in
      elim (Outcome-cases (publish row.topic row.partition_key row.payload w.broker).0) [
        | inr (e, h) ↦ rw (h, relay_rows) refl
        | inl h ↦ elim (Outcome-cases (commit_outcome (r.update n))) [
          | inr (e, k) ↦ rw (h, k, relay_rows) marked
          | inl k ↦ rw (h, k, relay_rows) (relay_rows-unmarked (suc n) rows _ ∙ marked)
        ]
      ]

  -- One batch leaves every row as it was, except that it may set times of publication.
  pub relay_batch-unmarked :
      (batch_size : ℕ) (w : Relayed B)
      → map unmarked (relay_batch publish r batch_size w).1.table ≡ map unmarked w.table
  unfolding relay_batch
  relay_batch-unmarked batch_size w = elim (Reply-cases r.query) [
    | inr (e, h) ↦ rw (h, relay_batch) refl
    | inl h ↦ elim (Reply-cases r.rows) [
      | inr (e, k) ↦ rw (h, k, relay_batch) refl
      | inl k ↦ rw (h, k, relay_batch) (relay_rows-unmarked 0 (select_batch batch_size w.table) w)
    ]
  ]
