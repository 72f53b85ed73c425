-- ===== src/System/Consistent.antt =====
-- What no operation of any process breaks.
use distributed_payment_pipe.Base.{◌≡◌, refl, ◌∙◌, false, List, [], ◌∷◌, ◌++◌, arith, map}
use distributed_payment_pipe.Base.Int.{pos}
use distributed_payment_pipe.Text.{Text, text_eq_comm}
use distributed_payment_pipe.Domain.{
  Time, Transaction, state_validated, state_captured, state_failed,
}
use distributed_payment_pipe.Db.{Db, Batch, clashes, insert_outbox}
use distributed_payment_pipe.Store.Keys.{IsKeyed, update_state-IsKeyed, save_with_outbox-IsKeyed}
use distributed_payment_pipe.Store.Update.{update_state_frame}
use distributed_payment_pipe.Ledger.{PostReplies, post}
use distributed_payment_pipe.Ledger.Booked.{IsBooked, post-IsBooked}
use distributed_payment_pipe.Ledger.ZeroSum.{balance, balance-post}
use distributed_payment_pipe.Settlement.Persist.{has_window-append}
use distributed_payment_pipe.Settlement.{
  same_window, has_window, CapturedGroup, persisted, settle_row,
}
use distributed_payment_pipe.Store.{SaveReplies, save_with_outbox}
use distributed_payment_pipe.System.Stable.{IsStable}
use distributed_payment_pipe.System.Settled.{tick_keeps}

-- No two batches share an account, a currency and a window.
abbrev pub IsWindowed : List Batch → Type 0
IsWindowed [] = Unit
IsWindowed (b ∷ bs) = (has_window b bs ≡ false) × IsWindowed bs

-- The unique keys hold, each payment has no leg or one balanced pair, and the ledger sums to zero.
pub record IsConsistent (db : Db) : Type 0 where
  pub keyed : IsKeyed db.transactions
  pub windows : IsWindowed db.settlement_batches
  pub booked : IsBooked db.ledger_entries
  pub zero_sum : balance db.ledger_entries ≡ pos 0

same_window_comm : (b c : Batch) → same_window b c ≡ same_window c b
unfolding same_window
same_window_comm b c =
    ground (arith, text_eq_comm b.account_id c.account_id, text_eq_comm b.currency c.currency)

pub IsWindowed-append :
    (bs : List Batch) (b : Batch)
    → IsWindowed bs
    → has_window b bs ≡ false
    → IsWindowed (bs ++ b ∷ [])
unfolding has_window
IsWindowed-append [] b k h = (refl, tt)
IsWindowed-append (x ∷ bs) b k h = (
  ground (arith, has_window-append x b bs, same_window_comm x b),
  IsWindowed-append bs b k.1 (ground arith),
)

pub post_frame :
    (r : PostReplies) (trx : Transaction) (now : Time) (db : Db)
    → IsKeyed db.transactions
    → IsKeyed (post r trx now db).1.transactions
      × ((post r trx now db).1.settlement_batches ≡ db.settlement_batches)
unfolding post
post_frame r trx now db k = ground (
  arith,
  update_state-IsKeyed r.update trx.payment_id state_validated state_captured now db k,
  update_state-IsKeyed r.update trx.payment_id state_validated state_failed now db k,
  update_state_frame r.update trx.payment_id state_validated state_captured now db,
  update_state_frame r.update trx.payment_id state_validated state_failed now db,
)

post-IsConsistent :
    (r : PostReplies) (trx : Transaction) (now : Time) (db : Db)
    → IsConsistent db
    → IsConsistent (post r trx now db).1
post-IsConsistent r trx now db h =
    let (keyed, batches) = post_frame r trx now db h.keyed in
    record {
      keyed = keyed;
      windows = rw batches h.windows;
      booked = post-IsBooked r trx now db h.booked;
      zero_sum = balance-post r trx now db h.booked ∙ h.zero_sum;
    }

clashes-settle :
    (ids : List Text) (now : Time) (t : Transaction) (rows : List Transaction)
    → clashes (settle_row ids now t) (map (settle_row ids now) rows) ≡ clashes t rows
unfolding clashes settle_row
clashes-settle ids now t [] = refl
clashes-settle ids now t (r ∷ rows) = ground (arith, clashes-settle ids now t rows)

pub settle-IsKeyed :
    (ids : List Text) (now : Time) (rows : List Transaction)
    → IsKeyed rows
    → IsKeyed (map (settle_row ids now) rows)
settle-IsKeyed ids now [] k = tt
settle-IsKeyed ids now (r ∷ rows) k =
    (clashes-settle ids now r rows ∙ k.0, settle-IsKeyed ids now rows k.1)

persisted-IsConsistent :
    (b : Batch) (g : CapturedGroup) (settled payout : Text) (now : Time) (db : Db)
    → has_window b db.settlement_batches ≡ false
    → IsConsistent db
    → IsConsistent (persisted b g settled payout now db)
unfolding persisted insert_outbox
persisted-IsConsistent b g settled payout now db new h = record {
  keyed = settle-IsKeyed g.payment_ids now db.transactions h.keyed;
  windows = IsWindowed-append db.settlement_batches b h.windows new;
  booked = h.booked;
  zero_sum = h.zero_sum;
}

save_with_outbox_frame :
    (r : SaveReplies) (t : Transaction) (payload : Text) (db : Db)
    → let db' = (save_with_outbox r t payload db).1 in
      (db'.ledger_entries ≡ db.ledger_entries) × (db'.settlement_batches ≡ db.settlement_batches)
unfolding save_with_outbox
save_with_outbox_frame r t payload db = ground arith

save_with_outbox-IsConsistent :
    (r : SaveReplies) (t : Transaction) (payload : Text) (db : Db)
    → IsConsistent db
    → IsConsistent (save_with_outbox r t payload db).1
save_with_outbox-IsConsistent r t payload db h =
    let (ledger, batches) = save_with_outbox_frame r t payload db in
    record {
      keyed = save_with_outbox-IsKeyed r t payload db h.keyed;
      windows = rw batches h.windows;
      booked = rw ledger h.booked;
      zero_sum = rw ledger h.zero_sum;
    }

pub IsConsistent-IsStable : IsStable IsConsistent
IsConsistent-IsStable = record {
  saved = λ r t payload db fresh h. save_with_outbox-IsConsistent r t payload db h;
  posted = post-IsConsistent;
  ticked = tick_keeps IsConsistent persisted-IsConsistent;
  relayed = λ rows db same h. record {
    keyed = h.keyed;
    windows = h.windows;
    booked = h.booked;
    zero_sum = h.zero_sum;
  };
}
