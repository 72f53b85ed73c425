-- ===== src/Ledger/Capture.antt =====
-- What the outcome of `Post` says of the payment, and where it says too much.
use distributed_payment_pipe.Base.{◌≡◌, refl, false, [], ◌∷◌, ◌++◌, some, arith}
use distributed_payment_pipe.Base.Int.{pos, ◌<ℤ◌}
use distributed_payment_pipe.Text.{Text, codes, contains-append, text_eq}
use distributed_payment_pipe.Errors.{Failure, nil, err, done, committed, refused}
use distributed_payment_pipe.Domain.{
  Time, Transaction, state_validated, state_captured, state_failed, transition,
}
use distributed_payment_pipe.Db.{Db, select_payment}
use distributed_payment_pipe.Store.{stale_transition}
use distributed_payment_pipe.Store.Keys.{IsKeyed}
use distributed_payment_pipe.Store.Update.{
  AllDone, update_state_frame, update_state_says_stale, update_state_succeeds,
}
use distributed_payment_pipe.Ledger.{PostReplies, post, capture_outcome, debit_leg, credit_leg}
use distributed_payment_pipe.Ledger.Booked.{IsBooked, legs, insert_legs_both}

-- The words that `Post` looks for are in every message of a stale transition to CAPTURED, since
-- the message names the state that was asked for.
capture_outcome-stale :
    (t : Transaction) (p : Text)
    → capture_outcome (err (stale_transition state_validated state_captured t p)) ≡ nil
unfolding capture_outcome stale_transition
capture_outcome-stale t p =
    let rest =
      codes ": current state is " ++ (t.state ++ (codes " (payment " ++ (p ++ codes ")"))) in
    let stale =
      contains-append (codes "UpdateState: ") (codes "stale transition")
        (codes " VALIDATED->CAPTURED" ++ rest) in
    let captured =
      contains-append (codes "UpdateState: stale transition VALIDATED->") state_captured rest in
    ground (arith, stale, captured)

validated_captured : transition state_validated state_captured ≡ nil
unfolding transition text_eq
validated_captured = refl

pub validated_failed : transition state_validated state_failed ≡ nil
unfolding transition text_eq
validated_failed = refl

-- The three statements of the posting are answered.
abbrev pub LegsDone : PostReplies → Type 0
LegsDone r = (r.begin ≡ done) × (r.insert_debit ≡ done) × (r.insert_credit ≡ done)

-- A payment whose row is in any state but VALIDATED, FAILED included, is posted all the same: if it
-- has no legs, the amount is positive and every call is answered, `Post` returns nil, books the
-- debit and the credit, and leaves the row in the state in which it is.
pub post_hides_stale :
    (r : PostReplies) (trx : Transaction) (now : Time) (db : Db) (t : Transaction)
    → pos 0 <ℤ trx.amount.minor_units
    → LegsDone r
    → r.commit ≡ committed
    → AllDone r.update
    → IsKeyed db.transactions
    → IsBooked db.ledger_entries
    → legs trx.payment_id db.ledger_entries ≡ []
    → select_payment trx.payment_id db.transactions ≡ some t
    → text_eq t.state state_validated ≡ false
    → let (o, db') = post r trx now db in
      (o ≡ nil)
      × (db'.ledger_entries ≡ db.ledger_entries ++ debit_leg trx ∷ credit_leg trx ∷ [])
      × (select_payment trx.payment_id db'.transactions ≡ some t)
unfolding post
post_hides_stale r trx now db t positive statements commits answered k booked none_yet found left =
    ground (
      arith,
      insert_legs_both trx db.ledger_entries (booked trx.payment_id),
      update_state_says_stale r.update trx.payment_id state_validated state_captured now db t
          validated_captured answered k found left,
      capture_outcome-stale t trx.payment_id,
    )

-- If Postgres refuses the commit of the legs, `Post` still returns nil for a VALIDATED payment
-- without legs whose other calls are answered: the payment is CAPTURED and the ledger unchanged.
pub post_loses_legs :
    (r : PostReplies) (trx : Transaction) (now : Time) (db : Db) (t : Transaction) (e : Failure)
    → pos 0 <ℤ trx.amount.minor_units
    → LegsDone r
    → r.commit ≡ refused e
    → AllDone r.update
    → IsKeyed db.transactions
    → select_payment trx.payment_id db.transactions ≡ some t
    → t.state ≡ state_validated
    → let (o, db') = post r trx now db in
      (o ≡ nil)
      × (db'.ledger_entries ≡ db.ledger_entries)
      × (select_payment trx.payment_id db'.transactions
          ≡ some (record t { state = state_captured; updated_at = now }))
unfolding post capture_outcome
post_loses_legs r trx now db t e positive statements refusal answered k found was =
    let (moves, row) =
      update_state_succeeds r.update trx.payment_id state_validated state_captured now db t
        validated_captured answered k found was in
    let frame = update_state_frame r.update trx.payment_id state_validated state_captured now db in
    ground (arith, moves, row, frame)

-- With every call answered, `Post` of a positive amount for a VALIDATED payment without legs
-- returns nil, books the debit and the credit, and moves the payment to CAPTURED.
pub post_captures :
    (r : PostReplies) (trx : Transaction) (now : Time) (db : Db) (t : Transaction)
    → pos 0 <ℤ trx.amount.minor_units
    → LegsDone r
    → r.commit ≡ committed
    → AllDone r.update
    → IsKeyed db.transactions
    → IsBooked db.ledger_entries
    → legs trx.payment_id db.ledger_entries ≡ []
    → select_payment trx.payment_id db.transactions ≡ some t
    → t.state ≡ state_validated
    → let (o, db') = post r trx now db in
      (o ≡ nil)
      × (db'.ledger_entries ≡ db.ledger_entries ++ debit_leg trx ∷ credit_leg trx ∷ [])
      × (select_payment trx.payment_id db'.transactions
          ≡ some (record t { state = state_captured; updated_at = now }))
unfolding post capture_outcome
post_captures r trx now db t positive statements commits answered k booked none_yet found was =
    let (moves, row) =
      update_state_succeeds r.update trx.payment_id state_validated state_captured now db t
        validated_captured answered k found was in
    let frame = update_state_frame r.update trx.payment_id state_validated state_captured now db in
    ground
      (arith, moves, row, frame, insert_legs_both trx db.ledger_entries (booked trx.payment_id))
