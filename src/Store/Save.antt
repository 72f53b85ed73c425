-- ===== src/Store/Save.antt =====
-- `SaveWithOutbox` writes the payment and its event together or not at all.
use distributed_payment_pipe.Base.{◌≡◌, ◌≢◌, ◌⊎◌, false, [], ◌∷◌, ◌++◌, none, arith}
use distributed_payment_pipe.Text.{Text, codes}
use distributed_payment_pipe.Errors.{Failure, nil, refused, done}
use distributed_payment_pipe.Domain.{Transaction}
use distributed_payment_pipe.Db.{Db, OutboxRow, clashes}
use distributed_payment_pipe.Store.{SaveReplies, save_with_outbox}

-- The tables with the payment and its event added.
abbrev pub event_row : Transaction → Text → Db → OutboxRow
event_row t payload db = record {
  id = db.next_outbox_id;
  aggregate_id = t.payment_id;
  topic = codes "payments.received";
  partition_key = t.account_id;
  payload = payload;
  created_at = t.created_at;
  published_at = none;
}

abbrev pub HasSaved : Transaction → Text → Db → Db → Type 0
HasSaved t payload db db' =
    (db'.transactions ≡ db.transactions ++ t ∷ [])
    × (db'.outbox ≡ db.outbox ++ event_row t payload db ∷ [])
    × (db'.ledger_entries ≡ db.ledger_entries)
    × (db'.state_transitions ≡ db.state_transitions)
    × (db'.settlement_batches ≡ db.settlement_batches)

-- Whatever Postgres answers, `SaveWithOutbox` ends in one of three ways: an error, with every table
-- unchanged; success, with exactly one new payment row and one new event row for it; or success
-- with every table unchanged, which happens only if Postgres refused the commit.
pub save_with_outbox_atomic :
    (r : SaveReplies) (t : Transaction) (payload : Text) (db : Db)
    → let (o, db') = save_with_outbox r t payload db in
      ((o ≢ nil) × (db' ≡ db))
      ⊎ ((o ≡ nil) × HasSaved t payload db db')
      ⊎ ((o ≡ nil) × (db' ≡ db) × ((e : Failure) × (r.commit ≡ refused e)))
unfolding save_with_outbox
save_with_outbox_atomic r t payload db = ground arith

-- If all statements go through and Postgres refuses the commit, `SaveWithOutbox` still returns nil,
-- and neither the payment nor its event is stored.
save_with_outbox_loses :
    (r : SaveReplies) (t : Transaction) (payload : Text) (db : Db) (e : Failure)
    → r.begin ≡ done
    → r.insert_row ≡ done
    → r.insert_event ≡ done
    → r.commit ≡ refused e
    → clashes t db.transactions ≡ false
    → save_with_outbox r t payload db ≡ (nil, db)
unfolding save_with_outbox
save_with_outbox_loses r t payload db e hb hi he hc fresh = ground arith
