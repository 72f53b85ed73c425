-- ===== src/Settlement/Persist.antt =====
-- `PersistBatch`: one batch, its payments and its two events are written together or not at all,
-- and once for each account, currency and window.
pub mod Race
use distributed_payment_pipe.Base.{
  ℕ, suc, ◌≡◌, ◌≢◌, refl, ap, sym, Bool, ◌⊎◌, inl, inr, true, false, List, [], ◌∷◌, ◌++◌, map,
  Option, none, some, arith, ◌&&◌, ◌||◌, if◌then◌else◌,
}
use distributed_payment_pipe.Text.{Text, codes, text_eq, text_eq_iff}
use distributed_payment_pipe.Errors.{Failure, ok, err, unconfirmed}
use distributed_payment_pipe.Domain.{Time, Transaction, state_captured, state_settled}
use distributed_payment_pipe.Db.{Db, Batch, OutboxRow, select_payment}
use distributed_payment_pipe.Settlement.{
  CapturedGroup, PersistReplies, persist_batch, has_window, same_window, settle_row, listed,
}

-- The two events of a batch, in the order in which they get their ids.
abbrev pub event_of : ℕ → Batch → Text → Text → Time → OutboxRow
event_of id b topic payload now = record {
  id = id;
  aggregate_id = b.id;
  topic = topic;
  partition_key = b.account_id;
  payload = payload;
  created_at = now;
  published_at = none;
}

abbrev is_one_of : Text → List Text → Bool
is_one_of p [] = false
is_one_of p (q ∷ qs) = text_eq q p || is_one_of p qs

-- A payment at the time of a batch: SETTLED if its id is one of those of the batch and it is
-- CAPTURED, and else as it was.
abbrev pub settled_as : List Text → Time → Transaction → Transaction
settled_as ids now t =
    if is_one_of t.payment_id ids && text_eq t.state (codes "CAPTURED")
    then record t { state = codes "SETTLED"; updated_at = now }
    else t

listed-is_one_of : (p : Text) (ids : List Text) → listed p ids ≡ is_one_of p ids
unfolding listed
listed-is_one_of p [] = refl
listed-is_one_of p (q ∷ qs) = ap (λ b. text_eq q p || b) (listed-is_one_of p qs)

map-settled_as :
    (ids : List Text) (now : Time) (rows : List Transaction)
    → map (settle_row ids now) rows ≡ map (settled_as ids now) rows
unfolding settle_row
map-settled_as ids now [] = refl
map-settled_as ids now (t ∷ rows) =
    ground (arith, listed-is_one_of t.payment_id ids, map-settled_as ids now rows)

pub record HasPersisted (b : Batch) (g : CapturedGroup) (settled payout : Text) (now : Time)
    (db db' : Db) : Type 0 where
  pub batch : db'.settlement_batches ≡ db.settlement_batches ++ b ∷ []
  pub payments : db'.transactions ≡ map (settled_as g.payment_ids now) db.transactions
  pub events :
      db'.outbox
      ≡ (db.outbox ++ event_of db.next_outbox_id b (codes "payments.settled") settled now ∷ [])
        ++ event_of (suc db.next_outbox_id) b (codes "payouts.requested") payout now ∷ []
  pub ledger_kept : db'.ledger_entries ≡ db.ledger_entries
  pub log_kept : db'.state_transitions ≡ db.state_transitions

module _ (r : PersistReplies) (b : Batch) (g : CapturedGroup) (settled payout : Text)
    (db : Db) where
  -- `PersistBatch` ends in one of three ways, whatever Postgres answers: it reports that the batch
  -- existed, which it did, and changes nothing; it reports a new batch, and has written the batch
  -- row and both events, has made SETTLED the CAPTURED payments whose ids are listed and no other, and
  -- has written no row of the ledger or of the audit log; or it returns an error, and has changed nothing unless the commit was not confirmed.
  pub persist_batch_atomic :
      let (o, db') = persist_batch r b g settled payout db in
      ((o ≡ ok true) × (has_window b db.settlement_batches ≡ true) × (db' ≡ db))
      ⊎ ((o ≡ ok false)
          × (has_window b db.settlement_batches ≡ false)
          × HasPersisted b g settled payout r.now db db')
      ⊎ ((e : Failure) × (o ≡ err e) × ((db' ≡ db) ⊎ ((f : Failure) × (r.commit ≡ unconfirmed f))))
  unfolding persist_batch
  persist_batch_atomic = ground (arith, map-settled_as g.payment_ids r.now db.transactions)

same_window_of :
    (b c : Batch)
    → c.account_id ≡ b.account_id
    → c.currency ≡ b.currency
    → c.window_start ≡ b.window_start
    → c.window_end ≡ b.window_end
    → same_window c b ≡ true
unfolding same_window
same_window_of b c account currency start end =
    ground (arith, text_eq_iff c.account_id b.account_id, text_eq_iff c.currency b.currency)

pub has_window-append :
    (b c : Batch) (bs : List Batch)
    → has_window b (bs ++ c ∷ []) ≡ (has_window b bs || same_window b c)
unfolding has_window
has_window-append b c [] = ground arith
has_window-append b c (x ∷ bs) = ground (arith, has_window-append b c bs)

-- Two batches for one account, currency and window clash with the same rows.
has_window_congr :
    (b c : Batch) (rows : List Batch)
    → same_window c b ≡ true
    → has_window c (rows ++ b ∷ []) ≡ true
unfolding has_window
has_window_congr b c [] h = ground arith
has_window_congr b c (x ∷ rows) h = ground (arith, has_window_congr b c rows h)

repeat_does_nothing :
    (r : PersistReplies) (b : Batch) (g : CapturedGroup) (s p : Text) (db : Db)
    → has_window b db.settlement_batches ≡ true
    → ((persist_batch r b g s p db).0 ≢ ok false) × ((persist_batch r b g s p db).1 ≡ db)
unfolding persist_batch
repeat_does_nothing r b g s p db h = ground arith

-- Once a batch has been written, no later call for the same account, currency and window, with
-- whatever ids, totals, payments, payloads and answers of Postgres, writes anything or reports a new
-- batch.
pub persist_batch_once :
    (r r' : PersistReplies) (b c : Batch) (g h : CapturedGroup) (s p s' p' : Text) (db : Db)
    → (persist_batch r b g s p db).0 ≡ ok false
    → c.account_id ≡ b.account_id
    → c.currency ≡ b.currency
    → c.window_start ≡ b.window_start
    → c.window_end ≡ b.window_end
    → let db' = (persist_batch r b g s p db).1 in
      ((persist_batch r' c h s' p' db').0 ≢ ok false) × ((persist_batch r' c h s' p' db').1 ≡ db')
persist_batch_once r r' b c g h s p s' p' db first account currency start end =
    elim (persist_batch_atomic r b g s p db) [
      | inl (existed, _, _) ↦ absurd (cc)
      | inr (inr (e, failed, _)) ↦ absurd (cc)
      | inr (inl (_, _, wrote)) ↦ repeat_does_nothing r' c h s' p' (persist_batch r b g s p db).1 (
          rw wrote.batch (
            has_window_congr b c db.settlement_batches
              (same_window_of b c account currency start end)))
    ]

-- What the update does to the row of one payment.
abbrev pub settled_row : List Text → Time → Option Transaction → Option Transaction
settled_row ids now none = none
settled_row ids now (some t) = some (settle_row ids now t)

pub select_payment-settle :
    (ids : List Text) (now : Time) (p : Text) (rows : List Transaction)
    → select_payment p (map (settle_row ids now) rows) ≡ settled_row ids now (select_payment p rows)
unfolding select_payment settle_row
select_payment-settle ids now p [] = refl
select_payment-settle ids now p (t ∷ rows) = ground (arith, select_payment-settle ids now p rows)

select_payment_id :
    (q : Text) (rows : List Transaction) (t : Transaction)
    → select_payment q rows ≡ some t
    → t.payment_id ≡ q
unfolding select_payment
select_payment_id q [] t h = cc
select_payment_id q (x ∷ rows) t h =
    ground (arith, text_eq_iff x.payment_id q, select_payment_id q rows t)

-- After a new batch a payment's row is SETTLED if it was listed and CAPTURED; any other row, of a
-- payment that was not listed or was in another state, is as before.
persist_batch_rows :
    (r : PersistReplies) (b : Batch) (g : CapturedGroup) (s p : Text) (db : Db) (q : Text)
    (t : Transaction)
    → (persist_batch r b g s p db).0 ≡ ok false
    → select_payment q db.transactions ≡ some t
    → select_payment q (persist_batch r b g s p db).1.transactions
      ≡ some (
          if listed q g.payment_ids && text_eq t.state state_captured
          then record t { state = state_settled; updated_at = r.now }
          else t)
unfolding settle_row
persist_batch_rows r b g s p db q t wrote found = elim (persist_batch_atomic r b g s p db) [
  | inl (existed, _, _) ↦ absurd (cc)
  | inr (inr (e, failed, _)) ↦ absurd (cc)
  | inr (inl (_, _, done)) ↦
      rw
        (
          done.payments,
          sym (map-settled_as g.payment_ids r.now db.transactions),
          select_payment-settle g.payment_ids r.now q db.transactions,
          found,
        )
        (ground (arith, select_payment_id q db.transactions t found))
]
