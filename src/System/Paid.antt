-- ===== src/System/Paid.antt =====
-- The payouts are those of the SETTLED payments, whatever the processes do.
pub mod Moves
use distributed_payment_pipe.Base.{
  ◌≡◌, refl, sym, ◌∙◌, true, false, ◌&&◌, List, [], ◌∷◌, ◌++◌, map, arith, keep_if, All, inl, inr,
  ℕ, suc, if◌then◌else◌,
}
use distributed_payment_pipe.Base.Int.{ℤ, pos, ◌+ℤ◌, int_laws}
use distributed_payment_pipe.Text.{Text, text_eq, text_eq_iff}
use distributed_payment_pipe.Errors.{Result}
use distributed_payment_pipe.Domain.{
  Time, State, Transaction, state_validated, state_captured, state_failed, state_settled,
}
use distributed_payment_pipe.Db.{Db, set_state, insert_outbox}
use distributed_payment_pipe.Store.{SaveReplies, UpdateReplies, save_with_outbox, update_state}
use distributed_payment_pipe.Store.Keys.{IsKeyed, update_state-IsKeyed, save_with_outbox-IsKeyed}
use distributed_payment_pipe.Store.Update.{update_state_frame}
use distributed_payment_pipe.Ledger.{PostReplies, post}
use distributed_payment_pipe.Settlement.{
  CapturedGroup, group_rows, in_window, settle_row, persisted,
}
use distributed_payment_pipe.Settlement.Engine.{
  Encoder, GroupInput, TickInput, Engine, batch_of, process_group, process_groups, settle, tick,
}
use distributed_payment_pipe.Settlement.Groups.{has_keys}
use distributed_payment_pipe.Settlement.Groups.Keys.{
  IsDistinct, others, HasOtherKeys, group_rows-IsDistinct,
}
use distributed_payment_pipe.Settlement.Groups.Sums.{sum_if}
use distributed_payment_pipe.Settlement.Conserved.{
  settled_sum, batch_sum, IsGroupOf, settle-IsGroupOf,
}
use distributed_payment_pipe.Settlement.Conserved.Ticks.{
  IsPaid, group_rows-IsGroupOf, persisted-IsPaid,
}
use distributed_payment_pipe.Kafka.{Publish, DlqMessage}
use distributed_payment_pipe.Outbox.{EventCodec}
use distributed_payment_pipe.Intake.{Packages, Server}
use distributed_payment_pipe.System.Paid.Moves.{settled_sum-append, settled_sum-post}
use distributed_payment_pipe.System.Stable.{IsStable}
use distributed_payment_pipe.System.Settled.{
  process_group_tables, settle_tables, tick_tables, tick_keeps,
}
use distributed_payment_pipe.System.Consistent.{post_frame, settle-IsKeyed}
use distributed_payment_pipe.System.{Event, handle_all}
use distributed_payment_pipe.System.Kept.{handle_all_keeps}

-- Payment ids are unique, and the batches add up to the SETTLED payments.
pub record IsAccounted (db : Db) : Type 0 where
  pub keyed : IsKeyed db.transactions
  pub paid : IsPaid db

rest-IsGroupOf :
    (start end now : Time) (g : CapturedGroup) (gs : List CapturedGroup) (rows : List Transaction)
    → IsGroupOf start end rows g
    → All (HasOtherKeys g) gs
    → All (IsGroupOf start end rows) gs
    → All (IsGroupOf start end (map (settle_row g.payment_ids now) rows)) gs
rest-IsGroupOf start end now g [] rows of other all = tt
rest-IsGroupOf start end now g (h ∷ gs) rows of other all = (
  settle-IsGroupOf start end now g h rows other.0 of.named all.0,
  rest-IsGroupOf start end now g gs rows of other.1 all.1,
)

process_groups-IsPaid :
    (enc : Encoder) (inputs : ℕ → GroupInput) (n : ℕ) (gs : List CapturedGroup) (start end : Time)
    (db : Db)
    → IsDistinct gs
    → All (IsGroupOf start end db.transactions) gs
    → IsPaid db
    → IsPaid (process_groups enc inputs n gs start end db)
unfolding process_groups persisted insert_outbox
process_groups-IsPaid enc inputs n [] start end db d of paid = paid
process_groups-IsPaid enc inputs n (g ∷ gs) start end db d of paid =
    let i = inputs n in
    elim (process_group_tables enc i g start end db) [
      | inl same ↦
          process_groups-IsPaid enc inputs (suc n) gs start end _ d.1 (rw same of.1) (rw same paid)
      | inr (s, p, new, wrote) ↦
          process_groups-IsPaid enc inputs (suc n) gs start end _ d.1
            (rw wrote (
              rest-IsGroupOf start end i.replies.now g gs db.transactions of.0 (others g gs d.0)
                of.1))
            (rw wrote (persisted-IsPaid start end i g s p i.replies.now db of.0 paid))
    ]

settle-IsPaid :
    (i : TickInput) (start end : Time) (db : Db) → IsAccounted db → IsPaid (settle i start end db).1
settle-IsPaid i start end db h =
    let rows = keep_if (in_window start end) db.transactions in
    elim (settle_tables i start end db) [
      | inl same ↦ rw same h.paid
      | inr wrote ↦ rw wrote (
          process_groups-IsPaid i.encoder i.groups 0 (group_rows i.collation rows) start end db
            (group_rows-IsDistinct i.collation rows)
            (group_rows-IsGroupOf start end i.collation db.transactions h.keyed) h.paid)
    ]

tick-IsPaid :
    (i : TickInput) (now : Time) (e : Engine) (db : Db)
    → IsAccounted db
    → IsPaid (tick i now e db).1
tick-IsPaid i now e db h = elim (tick_tables i now e db) [
  | inl same ↦ rw same h.paid
  | inr (start, end, settled) ↦ rw settled (settle-IsPaid i start end db h)
]

tick-IsKeyed :
    (i : TickInput) (now : Time) (e : Engine) (db : Db)
    → IsKeyed db.transactions
    → IsKeyed (tick i now e db).1.transactions
unfolding persisted insert_outbox
tick-IsKeyed =
    tick_keeps (λ (db : Db). IsKeyed db.transactions)
      (λ b g settled payout now db new k. settle-IsKeyed g.payment_ids now db.transactions k)

save_with_outbox-IsPaid :
    (r : SaveReplies) (t : Transaction) (payload : Text) (db : Db)
    → t.state ≡ state_validated
    → IsPaid db
    → IsPaid (save_with_outbox r t payload db).1
unfolding save_with_outbox
save_with_outbox-IsPaid r t payload db fresh paid a c =
    ground (arith, paid a c, settled_sum-append a c t db.transactions fresh)

post-IsPaid :
    (r : PostReplies) (trx : Transaction) (now : Time) (db : Db)
    → IsAccounted db
    → IsPaid (post r trx now db).1
post-IsPaid r trx now db h a c =
    let (_, batches) = post_frame r trx now db h.keyed in
    rw (batches, settled_sum-post r trx now db a c) (h.paid a c)

IsAccounted-IsStable : IsStable IsAccounted
IsAccounted-IsStable = record {
  saved = λ r t payload db fresh h. record {
    keyed = save_with_outbox-IsKeyed r t payload db h.keyed;
    paid = save_with_outbox-IsPaid r t payload db fresh h.paid;
  };
  posted = λ r trx now db h. record {
    keyed = (post_frame r trx now db h.keyed).0;
    paid = post-IsPaid r trx now db h;
  };
  ticked = λ i now e db h. record {
    keyed = tick-IsKeyed i now e db h.keyed;
    paid = tick-IsPaid i now e db h;
  };
  relayed = λ rows db same h. record { keyed = h.keyed; paid = h.paid };
}

module _ {R B : Type 0} (lib : Packages) (server : Server R) (publish : Publish B)
    (marshal : DlqMessage → Result Text) (codec : EventCodec) where
  -- Through any sequence of operations of the processes, each run to its end before the next, with
  -- any answers of Redis, Postgres and the broker: payment ids and idempotency keys stay unique, and
  -- for each account and currency the totals of its settlement batches add up to the amounts of its
  -- SETTLED payments, if that held at the start.
  pub handle_all-IsAccounted :
      (es : List (Event R B)) (db : Db)
      → IsAccounted db
      → IsAccounted (handle_all lib server publish marshal codec es db)
  handle_all-IsAccounted =
      handle_all_keeps lib server publish marshal codec IsAccounted IsAccounted-IsStable
