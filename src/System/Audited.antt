-- ===== src/System/Audited.antt =====
-- What the audit log tells of the state of a payment.
pub mod Posted
pub mod Always
use distributed_payment_pipe.Base.{
  ℕ, ◌≡◌, ◌≢◌, refl, sym, ◌∙◌, ap, true, false, ◌⊎◌, inl, inr, List, [], ◌∷◌, ◌++◌, map, Option,
  none, some, arith, if◌then◌else◌, Bool-cases, subst,
}
use distributed_payment_pipe.Text.{Text, text_eq, text_eq_iff, text_eq_refl, Text-cases}
use distributed_payment_pipe.Errors.{Result}
use distributed_payment_pipe.Domain.{
  Time, State, Transaction, state_validated, state_captured, state_failed, state_settled,
}
use distributed_payment_pipe.Db.{
  Db, StateTransition, clashes, rows_affected, set_state, select_payment, insert_outbox,
}
use distributed_payment_pipe.Store.{
  SaveReplies, UpdateReplies, moved, save_with_outbox, update_state,
}
use distributed_payment_pipe.Store.Keys.{IsKeyed, save_with_outbox-IsKeyed}
use distributed_payment_pipe.Store.Update.{
  select_payment-set_state, rows_affected-select, row_of_hit,
}
use distributed_payment_pipe.Ledger.{PostReplies, post}
use distributed_payment_pipe.Settlement.{CapturedGroup, settle_row, persisted}
use distributed_payment_pipe.Settlement.Persist.{settled_row, select_payment-settle}
use distributed_payment_pipe.Kafka.{Publish, DlqMessage}
use distributed_payment_pipe.Outbox.{EventCodec}
use distributed_payment_pipe.Intake.{Packages, Server}
use distributed_payment_pipe.System.Rows.{save_with_outbox_rows}
use distributed_payment_pipe.System.Stable.{IsStable}
use distributed_payment_pipe.System.Settled.{tick_keeps}
use distributed_payment_pipe.System.Consistent.{post_frame, settle-IsKeyed}
use distributed_payment_pipe.System.Lifecycle.{settle_row_state}
use distributed_payment_pipe.System.{Event, handle_all}
use distributed_payment_pipe.System.Kept.{handle_all_keeps}

-- The entries of a payment, read as moves from a state on: each has to start where the last ended.
unfoldable pub replay : Text → State → List StateTransition → Option State
replay p s [] = some s
replay p s (e ∷ es) =
    let left = replay p e.to_state es in
    let same = replay p s es in
    if text_eq e.payment_id p then (if text_eq e.from_state s then left else none) else same

-- The state that the log tells is that of the row, or the row was CAPTURED and has been settled. A
-- payment without a row has no entries.
abbrev pub Agrees : State → Option Transaction → Type 0
Agrees s none = s ≡ state_validated
Agrees s (some t) = (s ≡ t.state) ⊎ ((s ≡ state_captured) × (t.state ≡ state_settled))

abbrev pub IsLogged : List StateTransition → List Transaction → Text → Type 0
IsLogged log rows p =
    (s : State) × (replay p state_validated log ≡ some s) × Agrees s (select_payment p rows)

pub record IsAudited (db : Db) : Type 0 where
  pub keyed : IsKeyed db.transactions
  pub logged : (p : Text) → IsLogged db.state_transitions db.transactions p

-- One more entry.
abbrev next_state : Text → StateTransition → Option State → Option State
next_state p e none = none
next_state p e (some u) =
    if text_eq e.payment_id p
    then (if text_eq e.from_state u then some e.to_state else none)
    else some u

pub replay-append :
    (p : Text) (s : State) (e : StateTransition) (log : List StateTransition)
    → replay p s (log ++ e ∷ []) ≡ next_state p e (replay p s log)
unfolding replay
replay-append p s e [] = ground arith
replay-append p s e (x ∷ log) =
    ground (arith, replay-append p s e log, replay-append p x.to_state e log)

settled_row-Agrees :
    (ids : List Text) (now : Time) (s : State) (o : Option Transaction)
    → Agrees s o
    → Agrees s (settled_row ids now o)
settled_row-Agrees ids now s none h = h
settled_row-Agrees ids now s (some t) h = elim (settle_row_state ids now t) [
  | inl same ↦ rw same h
  | inr (captured, settled) ↦ elim h [
    | inl e ↦ inr (e ∙ captured, settled)
    | inr (e, _) ↦ inr (e, settled)
  ]
]

pub settle-IsLogged :
    (ids : List Text) (now : Time) (log : List StateTransition) (rows : List Transaction) (p : Text)
    → IsLogged log rows p
    → IsLogged log (map (settle_row ids now) rows) p
settle-IsLogged ids now log rows p (s, told, agrees) = (
  s,
  told,
  rw (select_payment-settle ids now p rows)
      (settled_row-Agrees ids now s (select_payment p rows) agrees),
)
