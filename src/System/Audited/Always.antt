-- ===== src/System/Audited/Always.antt =====
-- The audit log tells the state of each payment, but for settlements, whatever the processes do.
use distributed_payment_pipe.Base.{◌≡◌, sym, ◌∙◌, inl, inr, List, [], ◌∷◌, ◌++◌, arith, Bool-cases}
use distributed_payment_pipe.Text.{Text, text_eq}
use distributed_payment_pipe.Errors.{Result}
use distributed_payment_pipe.Domain.{State, Transaction, state_validated}
use distributed_payment_pipe.Db.{Db, select_payment, insert_outbox}
use distributed_payment_pipe.Store.{SaveReplies, save_with_outbox}
use distributed_payment_pipe.Store.Keys.{save_with_outbox-IsKeyed}
use distributed_payment_pipe.Settlement.{persisted}
use distributed_payment_pipe.Kafka.{Publish, DlqMessage}
use distributed_payment_pipe.Outbox.{EventCodec}
use distributed_payment_pipe.Intake.{Packages, Server}
use distributed_payment_pipe.System.Rows.{save_with_outbox_rows}
use distributed_payment_pipe.System.Stable.{IsStable}
use distributed_payment_pipe.System.Settled.{tick_keeps}
use distributed_payment_pipe.System.Consistent.{settle-IsKeyed}
use distributed_payment_pipe.System.{Event, handle_all}
use distributed_payment_pipe.System.Kept.{handle_all_keeps}
use distributed_payment_pipe.System.Audited.{Agrees, IsAudited, settle-IsLogged}
use distributed_payment_pipe.System.Audited.Posted.{post-IsAudited}

-- A new payment has no entries.
select_payment_added :
    (p : Text) (t : Transaction) (rows : List Transaction) (s : State)
    → t.state ≡ state_validated
    → Agrees s (select_payment p rows)
    → Agrees s (select_payment p (rows ++ t ∷ []))
unfolding select_payment
select_payment_added p t [] s fresh h = elim (Bool-cases (text_eq t.payment_id p)) [
  | inl mine ↦ rw mine (inl (h ∙ sym fresh))
  | inr other ↦ rw other h
]
select_payment_added p t (r ∷ rows) s fresh h = elim (Bool-cases (text_eq r.payment_id p)) [
  | inl here ↦ rw here (rw here at h)
  | inr away ↦ rw away (select_payment_added p t rows s fresh (rw away at h))
]

save_with_outbox_log :
    (r : SaveReplies) (t : Transaction) (payload : Text) (db : Db)
    → (save_with_outbox r t payload db).1.state_transitions ≡ db.state_transitions
unfolding save_with_outbox
save_with_outbox_log r t payload db = ground arith

save_with_outbox-IsAudited :
    (r : SaveReplies) (t : Transaction) (payload : Text) (db : Db)
    → t.state ≡ state_validated
    → IsAudited db
    → IsAudited (save_with_outbox r t payload db).1
save_with_outbox-IsAudited r t payload db fresh h = record {
  keyed = save_with_outbox-IsKeyed r t payload db h.keyed;
  logged = λ p.
      let (s, told, agrees) = h.logged p in
      (
        s,
        rw (save_with_outbox_log r t payload db) told,
        elim (save_with_outbox_rows r t payload db) [
          | inl same ↦ rw same agrees
          | inr added ↦ rw added (select_payment_added p t db.transactions s fresh agrees)
        ],
      );
}

IsAudited-IsStable : IsStable IsAudited
unfolding persisted insert_outbox
IsAudited-IsStable = record {
  saved = save_with_outbox-IsAudited;
  posted = post-IsAudited;
  ticked = tick_keeps IsAudited (λ b g settled payout now db new h. record {
    keyed = settle-IsKeyed g.payment_ids now db.transactions h.keyed;
    logged =
        λ p. settle-IsLogged g.payment_ids now db.state_transitions db.transactions p (h.logged p);
  });
  relayed = λ rows db same h. record { keyed = h.keyed; logged = h.logged };
}

module _ {R B : Type 0} (lib : Packages) (server : Server R) (publish : Publish B)
    (marshal : DlqMessage → Result Text) (codec : EventCodec) where
  -- Through any sequence of operations of the processes, each run to its end before the next, with
  -- any answers of Redis, Postgres and the broker: the entries of a payment in the audit log follow
  -- one another from VALIDATED to a state, and that is the state of its row, or CAPTURED while the row
  -- is SETTLED; for a payment without a row they tell VALIDATED, as no entries do. That is if it held at the
  -- start.
  pub handle_all-IsAudited :
      (es : List (Event R B)) (db : Db)
      → IsAudited db
      → IsAudited (handle_all lib server publish marshal codec es db)
  handle_all-IsAudited =
      handle_all_keeps lib server publish marshal codec IsAudited IsAudited-IsStable
