-- ===== src/System/Paid/Moves.antt =====
-- Storing and posting payments leaves the sum of the SETTLED ones.
use distributed_payment_pipe.Base.{◌≡◌, refl, false, List, [], ◌∷◌, ◌++◌, arith}
use distributed_payment_pipe.Text.{Text, text_eq, text_eq_iff}
use distributed_payment_pipe.Domain.{
  Time, State, Transaction, state_validated, state_captured, state_failed, state_settled,
}
use distributed_payment_pipe.Db.{Db, set_state}
use distributed_payment_pipe.Ledger.{PostReplies, post}
use distributed_payment_pipe.Settlement.Groups.Sums.{sum_if}
use distributed_payment_pipe.Settlement.Conserved.{settled_sum}
use distributed_payment_pipe.System.Rows.{post_rows}

pub settled_sum-append :
    (a c : Text) (t : Transaction) (rows : List Transaction)
    → t.state ≡ state_validated
    → settled_sum a c (rows ++ t ∷ []) ≡ settled_sum a c rows
unfolding settled_sum sum_if text_eq
settled_sum-append a c t [] h =
    let fresh : text_eq t.state state_settled ≡ false = rw h refl in ground (arith, fresh)
settled_sum-append a c t (r ∷ rows) h = ground (arith, settled_sum-append a c t rows h)

-- A move between two other states.
settled_sum-set_state :
    (a c p : Text) (from to : State) (now : Time) (rows : List Transaction)
    → text_eq from state_settled ≡ false
    → text_eq to state_settled ≡ false
    → settled_sum a c (set_state p from to now rows) ≡ settled_sum a c rows
unfolding settled_sum sum_if set_state
settled_sum-set_state a c p from to now [] h k = refl
settled_sum-set_state a c p from to now (r ∷ rows) h k =
    ground (arith, text_eq_iff r.state from, settled_sum-set_state a c p from to now rows h k)

pub settled_sum-post :
    (r : PostReplies) (trx : Transaction) (now : Time) (db : Db) (a c : Text)
    → settled_sum a c (post r trx now db).1.transactions ≡ settled_sum a c db.transactions
unfolding text_eq
settled_sum-post r trx now db a c =
    let move = λ (to : State) (h : text_eq to state_settled ≡ false).
      settled_sum-set_state a c trx.payment_id state_validated to now db.transactions refl h in
    ground (arith, post_rows r trx now db, move state_captured refl, move state_failed refl)
