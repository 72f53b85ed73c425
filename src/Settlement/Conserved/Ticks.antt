-- ===== src/Settlement/Conserved/Ticks.antt =====
-- A tick writes batches for exactly the payments that it settles.
use distributed_payment_pipe.Base.{
  ◌≡◌, sym, ◌∙◌, List, [], ◌∷◌, arith, keep_if, All, All-weaken, some,
}
use distributed_payment_pipe.Base.Int.{int_laws}
use distributed_payment_pipe.Text.{Text}
use distributed_payment_pipe.Domain.{Time, Transaction}
use distributed_payment_pipe.Db.{Db, insert_outbox}
use distributed_payment_pipe.Store.Keys.{IsKeyed}
use distributed_payment_pipe.Settlement.{
  CapturedGroup, Collation, group_rows, in_window, same_key, persisted,
}
use distributed_payment_pipe.Settlement.Engine.{GroupInput, batch_of}
use distributed_payment_pipe.Settlement.Groups.{has_keys, total_of, summary, find_group_lem}
use distributed_payment_pipe.Settlement.Groups.Keys.{IsFound, all-IsFound, group_rows-IsDistinct}
use distributed_payment_pipe.Settlement.Groups.Sums.{ids_of, all-IsNamed, total_of-keep_if}
use distributed_payment_pipe.Settlement.Conserved.{
  settled_sum, batch_sum, batch_sum-append, IsGroupOf, sum_if-settle, sum_if-keys,
}

-- For each account and currency, the batches add up to the SETTLED payments.
abbrev pub IsPaid : Db → Type 0
IsPaid db = (a c : Text) → batch_sum a c db.settlement_batches ≡ settled_sum a c db.transactions

summary-some :
    (a c : Text) (ks : List Transaction) (g : CapturedGroup)
    → summary a c ks ≡ some g
    → (g.total_minor ≡ total_of ks) × (g.payment_ids ≡ ids_of ks)
summary-some a c [] g h = absurd (cc)
summary-some a c (t ∷ ks) g h = ground arith

module _ (start end : Time) where
  found-IsGroupOf :
      (before : Collation) (rows : List Transaction) (g : CapturedGroup)
      → IsKeyed rows
      → IsFound (group_rows before (keep_if (in_window start end) rows)) g
      → IsGroupOf start end rows g
  unfolding same_key
  found-IsGroupOf before rows g keyed found =
      let q = in_window start end in
      let p = has_keys g.account_id g.currency in
      let (total, ids) =
        summary-some g.account_id g.currency (keep_if p (keep_if q rows)) g
          (sym (find_group_lem before g.account_id g.currency (keep_if q rows)) ∙ found) in
      record {
        named = All-weaken (λ t named captured. rw ids named) rows (all-IsNamed p q rows keyed);
        total = total ∙ total_of-keep_if p q rows;
      }

  -- Every group of the aggregation is that of its rows.
  pub group_rows-IsGroupOf :
      (before : Collation) (rows : List Transaction)
      → IsKeyed rows
      → All (IsGroupOf start end rows) (group_rows before (keep_if (in_window start end) rows))
  group_rows-IsGroupOf before rows keyed =
      let groups = group_rows before (keep_if (in_window start end) rows) in
      All-weaken (λ g. found-IsGroupOf before rows g keyed) groups
        (all-IsFound groups (group_rows-IsDistinct before (keep_if (in_window start end) rows)))

  pub persisted-IsPaid :
      (i : GroupInput) (g : CapturedGroup) (settled payout : Text) (now : Time) (db : Db)
      → IsGroupOf start end db.transactions g
      → IsPaid db
      → IsPaid (persisted (batch_of i g start end) g settled payout now db)
  unfolding persisted insert_outbox batch_of
  persisted-IsPaid i g settled payout now db of paid a c = grind (
    int_laws,
    paid a c,
    of.total,
    batch_sum-append a c (batch_of i g start end) db.settlement_batches,
    sum_if-settle start end a c now g db.transactions of.named,
    sum_if-keys start end a c g db.transactions,
  )
