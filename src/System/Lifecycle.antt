-- ===== src/System/Lifecycle.antt =====
-- Whatever the processes do, a payment moves along the arrows of the state machine.
use distributed_payment_pipe.Base.{
  ◌&&◌, ◌≡◌, refl, subst, ap, ◌∙◌, ◌⊎◌, inl, inr, List, [], ◌∷◌, ◌++◌, map, some, arith, Bool-cases,
}
use distributed_payment_pipe.Text.{Text, text_eq, text_eq_iff}
use distributed_payment_pipe.Errors.{Result}
use distributed_payment_pipe.Domain.{
  Time, State, Transaction, state_validated, state_captured, state_failed, state_settled,
}
use distributed_payment_pipe.Domain.Lifecycle.{Arrow, Stage, Edge}
use distributed_payment_pipe.Db.{Db, set_state, select_payment, insert_outbox}
use distributed_payment_pipe.Store.{SaveReplies, save_with_outbox}
use distributed_payment_pipe.Ledger.{PostReplies, post}
use distributed_payment_pipe.Settlement.{settle_row, persisted}
use distributed_payment_pipe.Kafka.{Publish, DlqMessage}
use distributed_payment_pipe.Outbox.{EventCodec}
use distributed_payment_pipe.Intake.{Packages, Server}
use distributed_payment_pipe.Store.Update.{select_payment-set_state}
use distributed_payment_pipe.Settlement.Persist.{settled_row, select_payment-settle}
use distributed_payment_pipe.System.Rows.{post_rows, save_with_outbox_rows}
use distributed_payment_pipe.System.Stable.{IsStable}
use distributed_payment_pipe.System.Settled.{tick_keeps}
use distributed_payment_pipe.System.{Event, handle_all}
use distributed_payment_pipe.System.Kept.{handle_all_keeps}

-- The states that arrows of the diagram lead to.
pub data Reach (s : State) : State → Type 0 where
  here : Reach s s
  next : {t u : State} → Reach s t → Arrow t u → Reach s u

-- A payment has a row, in a state that it can have reached from a given one.
pub record HasReached (p : Text) (s : State) (rows : List Transaction) : Type 0 where
  pub row : Transaction
  pub found : select_payment p rows ≡ some row
  pub reached : Reach s row.state

select_payment-append :
    (p : Text) (x t : Transaction) (rows : List Transaction)
    → select_payment p rows ≡ some x
    → select_payment p (rows ++ t ∷ []) ≡ some x
unfolding select_payment
select_payment-append p x t [] h = cc
select_payment-append p x t (r ∷ rows) h = ground (arith, select_payment-append p x t rows)

set_state-HasReached :
    (p q : Text) (s from to : State) (now : Time) (rows : List Transaction)
    → Arrow from to
    → HasReached p s rows
    → HasReached p s (set_state q from to now rows)
set_state-HasReached p q s from to now rows arrow h =
    let seen = select_payment-set_state q from to now rows p in
    elim (Bool-cases (text_eq q p && text_eq h.row.state from)) [
      | inr other ↦ record {
        row = h.row;
        found = ground (arith, seen, h.found, other);
        reached = h.reached;
      }
      | inl target ↦ record {
        row = record h.row { state = to; updated_at = now };
        found = ground (arith, seen, h.found, target);
        reached =
            let starts : from ≡ h.row.state =
              ground (arith, target, text_eq_iff h.row.state from) in
            next h.reached (subst (λ u. Arrow u to) starts arrow);
      }
    ]

captures : Arrow state_validated state_captured
captures = (Stage.validated, Stage.captured, refl, refl, Edge.capture)

fails : Arrow state_validated state_failed
fails = (Stage.validated, Stage.failed, refl, refl, Edge.fail_validated)

-- The update leaves the row, or moves it from CAPTURED to SETTLED.
pub settle_row_state :
    (ids : List Text) (now : Time) (x : Transaction)
    → (settle_row ids now x ≡ x)
      ⊎ ((x.state ≡ state_captured) × ((settle_row ids now x).state ≡ state_settled))
unfolding settle_row
settle_row_state ids now x = ground (arith, text_eq_iff x.state state_captured)

settle-HasReached :
    (p : Text) (s : State) (ids : List Text) (now : Time) (rows : List Transaction)
    → HasReached p s rows
    → HasReached p s (map (settle_row ids now) rows)
settle-HasReached p s ids now rows h =
    let seen = select_payment-settle ids now p rows ∙ ap (settled_row ids now) h.found in
    elim (settle_row_state ids now h.row) [
      | inl same ↦ record { row = h.row; found = seen ∙ ap some same; reached = h.reached }
      | inr (captured, settled) ↦ record {
        row = settle_row ids now h.row;
        found = seen;
        reached = next h.reached (Stage.captured, Stage.settled, captured, settled, Edge.settle);
      }
    ]

post-HasReached :
    (p : Text) (s : State) (r : PostReplies) (trx : Transaction) (now : Time) (db : Db)
    → HasReached p s db.transactions
    → HasReached p s (post r trx now db).1.transactions
post-HasReached p s r trx now db h = elim (post_rows r trx now db) [
  | inl same ↦ rw same h
  | inr (inl captured) ↦ rw captured (
      set_state-HasReached p trx.payment_id s state_validated state_captured now db.transactions
        captures h)
  | inr (inr failed) ↦ rw failed (
      set_state-HasReached p trx.payment_id s state_validated state_failed now db.transactions fails
        h)
]

save_with_outbox-HasReached :
    (p : Text) (s : State) (r : SaveReplies) (t : Transaction) (payload : Text) (db : Db)
    → HasReached p s db.transactions
    → HasReached p s (save_with_outbox r t payload db).1.transactions
save_with_outbox-HasReached p s r t payload db h = elim (save_with_outbox_rows r t payload db) [
  | inl same ↦ rw same h
  | inr added ↦ rw added (record {
    row = h.row;
    found = select_payment-append p h.row t db.transactions h.found;
    reached = h.reached;
  })
]

HasReached-IsStable :
    (p : Text) (s : State) → IsStable (λ (db : Db). HasReached p s db.transactions)
unfolding persisted insert_outbox
HasReached-IsStable p s = record {
  saved = λ r t payload db fresh h. save_with_outbox-HasReached p s r t payload db h;
  posted = λ r trx now db h. post-HasReached p s r trx now db h;
  ticked =
      tick_keeps (λ (db : Db). HasReached p s db.transactions)
        (λ b g settled payout now db new h.
          settle-HasReached p s g.payment_ids now db.transactions h);
  relayed = λ rows db same h. h;
}

module _ {R B : Type 0} (lib : Packages) (server : Server R) (publish : Publish B)
    (marshal : DlqMessage → Result Text) (codec : EventCodec) where
  -- Through any sequence of operations of the processes, each run to its end before the next, with
  -- any answers of Redis, Postgres and the broker, the state of a stored payment moves only along the
  -- arrows of the state machine: the payment still has a row afterwards, in a state to which arrows
  -- lead from the state it was in.
  pub handle_all-Reach :
      (es : List (Event R B)) (db : Db) (p : Text) (t : Transaction)
      → select_payment p db.transactions ≡ some t
      → (u : Transaction) × (select_payment p
            (handle_all lib server publish marshal codec es db).transactions
          ≡ some u)
        × Reach t.state u.state
  handle_all-Reach es db p t found =
      let later =
        handle_all_keeps lib server publish marshal codec
          (λ (d : Db). HasReached p t.state d.transactions) (HasReached-IsStable p t.state) es db
          (record { row = t; found = found; reached = here }) in
      (later.row, later.found, later.reached)
