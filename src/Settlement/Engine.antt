-- ===== src/Settlement/Engine.antt =====
-- internal/settlement/engine.go: the engine over a store that answers like pgstore.go. The ids, the
-- clock, the encoder and the answers of Postgres are arguments, the last by the number of the group.
pub mod Windows
pub mod Lost
use distributed_payment_pipe.Base.{
  ℕ, zero, suc, Bool, true, false, List, [], ◌∷◌, ◌++◌, if◌then◌else◌,
}
use distributed_payment_pipe.Base.Int.{ℤ, pos, negsuc, ◌+ℤ◌, ◌-ℤ◌, ltb_ℤ, leb_ℤ, eqb_ℤ, max_int64}
use distributed_payment_pipe.Text.{Text, codes}
use distributed_payment_pipe.Errors.{Failure, wrap, Result, ok, err, Outcome, nil, ◌>>=◌, context}
use distributed_payment_pipe.Domain.{Time}
use distributed_payment_pipe.Db.{Db, Batch}
use distributed_payment_pipe.Settlement.{
  CapturedGroup, batch_status_pending, Collation, AggregateReplies, aggregate_captured,
  PersistReplies, persist_batch,
}

pub record SettledEvent : Type 0 where
  pub batch_id : Text
  pub account_id : Text
  pub currency : Text
  pub window_start : Time
  pub window_end : Time
  pub total_minor : ℤ
  pub txn_count : ℕ

pub record PayoutRequestedEvent : Type 0 where
  pub payout_id : Text
  pub batch_id : Text
  pub account_id : Text
  pub currency : Text
  pub total_minor : ℤ
  pub requested_at : Time

-- json.Marshal at the two events.
pub record Encoder : Type 0 where
  pub settled : SettledEvent → Result Text
  pub payout : PayoutRequestedEvent → Result Text

-- What one group gets from outside: two fresh ids, the time, and the answers of Postgres.
pub record GroupInput : Type 0 where
  pub batch_id : Text
  pub payout_id : Text
  pub now : Time
  pub replies : PersistReplies

unfoldable pub batch_of : GroupInput → CapturedGroup → Time → Time → Batch
batch_of i g start end = record {
  id = i.batch_id;
  account_id = g.account_id;
  currency = g.currency;
  window_start = start;
  window_end = end;
  total_minor = g.total_minor;
  txn_count = g.txn_count;
  status = batch_status_pending;
  created_at = i.now;
}

unfoldable pub settled_event : GroupInput → CapturedGroup → Time → Time → SettledEvent
settled_event i g start end = record {
  batch_id = i.batch_id;
  account_id = g.account_id;
  currency = g.currency;
  window_start = start;
  window_end = end;
  total_minor = g.total_minor;
  txn_count = g.txn_count;
}

unfoldable pub payout_event : GroupInput → CapturedGroup → PayoutRequestedEvent
payout_event i g = record {
  payout_id = i.payout_id;
  batch_id = i.batch_id;
  account_id = g.account_id;
  currency = g.currency;
  total_minor = g.total_minor;
  requested_at = i.now;
}

-- The two payloads.
unfoldable pub payloads : Encoder → GroupInput → CapturedGroup → Time → Time → Result (Text × Text)
unfolding settled_event payout_event
payloads enc i g start end = do
  s ← context (codes "marshal settled event: ") (enc.settled (settled_event i g start end))
  p ← context (codes "marshal payout event: ") (enc.payout (payout_event i g))
  ok (s, p)

-- What the caller of `PersistBatch` sees: a batch that existed counts as success.
persist_outcome : CapturedGroup → Result Bool → Outcome
persist_outcome g (ok already_existed) = nil
persist_outcome g (err e) = err (
    wrap
      (codes "persist batch (account="
        ++ (g.account_id ++ (codes " currency=" ++ (g.currency ++ codes "): "))))
      e)

unfoldable pub process_group :
    Encoder → GroupInput → CapturedGroup → Time → Time → Db → Outcome × Db
unfolding payloads batch_of persist_outcome
process_group enc i g start end db = elim (payloads enc i g start end) [
  | err e ↦ (err e, db)
  | ok (s, p) ↦
      let (r, db') = persist_batch i.replies (batch_of i g start end) g s p db in
      (persist_outcome g r, db')
]

-- The loop over the groups, of which `n` have been processed. An error of a group is only logged.
unfoldable pub process_groups :
    Encoder → (ℕ → GroupInput) → ℕ → List CapturedGroup → Time → Time → Db → Db
process_groups enc inputs n [] start end db = db
process_groups enc inputs n (g ∷ gs) start end db =
    process_groups enc inputs (suc n) gs start end (process_group enc (inputs n) g start end db).1

-- What one tick gets from outside.
pub record TickInput : Type 0 where
  pub collation : Collation
  pub aggregate : AggregateReplies
  pub encoder : Encoder
  pub groups : ℕ → GroupInput

unfoldable pub settle : TickInput → Time → Time → Db → Outcome × Db
settle i start end db = elim (aggregate_captured i.collation i.aggregate start end db) [
  | err e ↦ (err (wrap (codes "aggregate captured: ") e), db)
  | ok groups ↦ (nil, process_groups i.encoder i.groups 0 groups start end db)
]

pub record Config : Type 0 where
  pub window_size : ℤ
  pub buffer : ℤ
  pub interval : ℤ

-- The engine's one field that changes; Go's zero time stands for "no window yet".
pub record Engine : Type 0 where
  pub config : Config
  pub last_window_end : Time

-- The nearest `Duration` to a difference of times.
unfoldable pub saturate : ℤ → ℤ
saturate d =
    if ltb_ℤ (pos max_int64) d
    then pos max_int64
    else if ltb_ℤ d (negsuc max_int64)
    then negsuc max_int64
    else d

-- `u.Sub t`
abbrev pub sub_time : Time → Time → ℤ
sub_time u t = saturate (u -ℤ t)

-- The start of the next window: on the first tick, a window before its end.
unfoldable pub window_start : Engine → Time → Time
window_start e window_end =
    if eqb_ℤ e.last_window_end (pos 0)
    then window_end -ℤ e.config.window_size
    else e.last_window_end

-- One tick of `Run` at the given time. The start of the first window is kept whatever follows.
unfoldable pub tick : TickInput → Time → Engine → Db → Engine × Db
tick i now e db =
    let window_end = now -ℤ e.config.buffer in
    let start = window_start e window_end in
    let e' = record e { last_window_end = start } in
    if ltb_ℤ (sub_time window_end start) e.config.window_size
    then (e', db)
    else let (o, db') = settle i start window_end db in
      elim o [ ok _ ↦ (record e { last_window_end = window_end }, db') | err _ ↦ (e', db') ]

pub record Tick : Type 0 where
  pub input : TickInput
  pub at : Time

-- `Run`: one tick after the other, until the context ends.
unfoldable pub run_ticks : List Tick → Engine → Db → Engine × Db
run_ticks [] e db = (e, db)
run_ticks (t ∷ ts) e db = let (e', db') = tick t.input t.at e db in run_ticks ts e' db'
