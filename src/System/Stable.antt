-- ===== src/System/Stable.antt =====
-- What a property of the tables needs so that no operation of any process breaks it.
use distributed_payment_pipe.Base.{◌≡◌, false, List, map}
use distributed_payment_pipe.Text.{Text}
use distributed_payment_pipe.Domain.{Time, Transaction, state_validated}
use distributed_payment_pipe.Db.{Db, Batch, OutboxRow}
use distributed_payment_pipe.Store.{SaveReplies, save_with_outbox}
use distributed_payment_pipe.Ledger.{PostReplies, post}
use distributed_payment_pipe.Outbox.Relay.Marked.{unmarked}
use distributed_payment_pipe.Settlement.{CapturedGroup, has_window, persisted}
use distributed_payment_pipe.Settlement.Engine.{TickInput, Engine, tick}

-- The server stores no payment in another state than VALIDATED, and the relay changes nothing in the
-- outbox but the times of publication.
pub record IsStable (P : Db → Type 0) : Type 0 where
  pub saved :
      (r : SaveReplies) (t : Transaction) (payload : Text) (db : Db)
      → t.state ≡ state_validated
      → P db
      → P (save_with_outbox r t payload db).1
  pub posted :
      (r : PostReplies) (trx : Transaction) (now : Time) (db : Db) → P db → P (post r trx now db).1
  pub ticked : (i : TickInput) (now : Time) (e : Engine) (db : Db) → P db → P (tick i now e db).1
  pub relayed :
      (rows : List OutboxRow) (db : Db)
      → map unmarked rows ≡ map unmarked db.outbox
      → P db
      → P (record db { outbox = rows })

-- No batch that is written breaks the property, whatever its group.
abbrev pub IsSettleable : (Db → Type 0) → Type 0
IsSettleable P =
    (b : Batch) (g : CapturedGroup) (settled payout : Text) (now : Time) (db : Db)
    → has_window b db.settlement_batches ≡ false
    → P db
    → P (persisted b g settled payout now db)
