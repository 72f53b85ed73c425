-- ===== src/Settlement/Persist/Race.antt =====
-- Two runs of the engine that have both aggregated the same payments.
use distributed_payment_pipe.Base.{suc, ◌≡◌, refl, false, ◌||◌, List, [], ◌∷◌, ◌++◌, map, arith}
use distributed_payment_pipe.Text.{Text, codes, text_eq}
use distributed_payment_pipe.Errors.{done, committed, ok}
use distributed_payment_pipe.Domain.{Time, Transaction}
use distributed_payment_pipe.Db.{Db, Batch, insert_outbox}
use distributed_payment_pipe.Settlement.{
  CapturedGroup, PersistReplies, persist_batch, persisted, has_window, has_id, same_window,
  settle_row,
}
use distributed_payment_pipe.Settlement.Persist.{event_of, has_window-append}
use distributed_payment_pipe.Settlement.Engine.{GroupInput, batch_of}

-- Postgres answers every call.
abbrev pub IsAnswered : PersistReplies → Type 0
IsAnswered r =
    (r.begin ≡ done)
    × (r.insert_batch ≡ done)
    × (r.update_txns ≡ done)
    × (r.insert_settled ≡ done)
    × (r.insert_payout ≡ done)
    × (r.commit ≡ committed)

-- No batch has the keys or the id of the batch.
abbrev pub IsNew : Batch → Db → Type 0
IsNew b db =
    (has_window b db.settlement_batches ≡ false) × (has_id b.id db.settlement_batches ≡ false)

persist_batch_writes :
    (r : PersistReplies) (b : Batch) (g : CapturedGroup) (s p : Text) (db : Db)
    → IsAnswered r
    → IsNew b db
    → persist_batch r b g s p db ≡ (ok false, persisted b g s p r.now db)
unfolding persist_batch
persist_batch_writes r b g s p db h new = ground arith

has_id-append :
    (i : Text) (b : Batch) (bs : List Batch)
    → has_id i (bs ++ b ∷ []) ≡ (has_id i bs || text_eq b.id i)
unfolding has_id
has_id-append i b [] = ground arith
has_id-append i b (x ∷ bs) = ground (arith, has_id-append i b bs)

settle_row_again :
    (ids : List Text) (now later : Time) (t : Transaction)
    → settle_row ids later (settle_row ids now t) ≡ settle_row ids now t
unfolding settle_row text_eq
settle_row_again ids now later t = ground arith

settle_again :
    (ids : List Text) (now later : Time) (rows : List Transaction)
    → map (settle_row ids later) (map (settle_row ids now) rows) ≡ map (settle_row ids now) rows
settle_again ids now later [] = refl
settle_again ids now later (t ∷ rows) =
    ground (arith, settle_row_again ids now later t, settle_again ids now later rows)

persist_batch_rows_twice :
    (r r' : PersistReplies) (b c : Batch) (g : CapturedGroup) (s p s' p' : Text) (db : Db)
    → IsAnswered r
    → IsAnswered r'
    → IsNew b db
    → IsNew c db
    → same_window c b ≡ false
    → text_eq b.id c.id ≡ false
    → let (o, db') = persist_batch r b g s p db in
      let (o', db'') = persist_batch r' c g s' p' db' in
      (o ≡ ok false)
      × (o' ≡ ok false)
      × (db''.settlement_batches ≡ (db.settlement_batches ++ b ∷ []) ++ c ∷ [])
      × (db''.transactions ≡ db'.transactions)
      × (db''.outbox
          ≡ (((db.outbox ++ event_of db.next_outbox_id b (codes "payments.settled") s r.now ∷ [])
                ++ event_of (suc db.next_outbox_id) b (codes "payouts.requested") p r.now ∷ [])
              ++ event_of (suc (suc db.next_outbox_id)) c (codes "payments.settled") s' r'.now ∷ [])
            ++ event_of (suc (suc (suc db.next_outbox_id))) c (codes "payouts.requested") p' r'.now
              ∷ [])
unfolding persisted insert_outbox
persist_batch_rows_twice r r' b c g s p s' p' db h h' new new' windows ids =
    let db' = persisted b g s p r.now db in
    let new'' : IsNew c db' = (
      ground (arith, new', windows, has_window-append c b db.settlement_batches),
      ground (arith, new', ids, has_id-append c.id b db.settlement_batches),
    ) in
    rw (persist_batch_writes r b g s p db h new, persist_batch_writes r' c g s' p' db' h' new'')
      (refl, refl, refl, settle_again g.payment_ids r.now r'.now db.transactions, refl)

-- If two runs have aggregated the same group of payments for two windows, and Postgres answers every
-- call, then both report a new batch and write its row, with the full total of the group, and its two
-- events, the settled one and the request of a payout, although the second run changes no payment:
-- its condition on the state finds none that is CAPTURED. Neither batch has the id, or the keys and
-- the window, of the other or of a row of the table.
pub persist_batch_twice :
    (i i' : GroupInput) (g : CapturedGroup) (start end start' end' : Time) (s p s' p' : Text)
    (db : Db)
    → let b = batch_of i g start end in
      let c = batch_of i' g start' end' in
      IsAnswered i.replies
      → IsAnswered i'.replies
      → IsNew b db
      → IsNew c db
      → same_window c b ≡ false
      → text_eq b.id c.id ≡ false
      → let (o, db') = persist_batch i.replies b g s p db in
        let (o', db'') = persist_batch i'.replies c g s' p' db' in
        let n = db.next_outbox_id in
        (o ≡ ok false)
        × (o' ≡ ok false)
        × (db''.settlement_batches ≡ (db.settlement_batches ++ b ∷ []) ++ c ∷ [])
        × (b.total_minor ≡ g.total_minor)
        × (c.total_minor ≡ g.total_minor)
        × (db''.transactions ≡ db'.transactions)
        × (db''.outbox
            ≡ (((db.outbox ++ event_of n b (codes "payments.settled") s i.replies.now ∷ [])
                  ++ event_of (suc n) b (codes "payouts.requested") p i.replies.now ∷ [])
                ++ event_of (suc (suc n)) c (codes "payments.settled") s' i'.replies.now ∷ [])
              ++ event_of (suc (suc (suc n))) c (codes "payouts.requested") p' i'.replies.now ∷ [])
unfolding batch_of
persist_batch_twice i i' g start end start' end' s p s' p' db h h' new new' other ids =
    let (first, second, batches, payments, events) =
      persist_batch_rows_twice i.replies i'.replies (batch_of i g start end)
        (batch_of i' g start' end') g s p s' p' db h h' new new' other ids in
    (first, second, batches, refl, refl, payments, events)
