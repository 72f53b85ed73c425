-- ===== src/System/Settled.antt =====
-- A tick of the settlement engine keeps every stable property.
use distributed_payment_pipe.Base.{
  keep_if, ◌≡◌, refl, false, List, [], ◌∷◌, arith, inl, inr, Bool-cases, ◌⊎◌, suc, ℕ,
}
use distributed_payment_pipe.Base.Int.{ltb_ℤ, ◌-ℤ◌}
use distributed_payment_pipe.Text.{Text}
use distributed_payment_pipe.Errors.{ok, Result-cases, Outcome-cases}
use distributed_payment_pipe.Domain.{Time}
use distributed_payment_pipe.Db.{Db, Batch}
use distributed_payment_pipe.Settlement.{
  has_window, CapturedGroup, PersistReplies, aggregate_captured, group_rows, in_window, persisted,
  persist_batch,
}
use distributed_payment_pipe.Settlement.Engine.{
  Encoder, GroupInput, TickInput, Engine, payloads, batch_of, process_group, process_groups, settle,
  tick, sub_time, window_start,
}
use distributed_payment_pipe.System.Stable.{IsSettleable}

persist_batch_tables :
    (r : PersistReplies) (b : Batch) (g : CapturedGroup) (settled payout : Text) (db : Db)
    → let db' = (persist_batch r b g settled payout db).1 in
      (db' ≡ db)
      ⊎ ((has_window b db.settlement_batches ≡ false)
          × (db' ≡ persisted b g settled payout r.now db))
unfolding persist_batch
persist_batch_tables r b g settled payout db = ground arith

-- One group is written, or nothing is.
pub process_group_tables :
    (enc : Encoder) (i : GroupInput) (g : CapturedGroup) (start end : Time) (db : Db)
    → let db' = (process_group enc i g start end db).1 in
      let b = batch_of i g start end in
      (db' ≡ db)
      ⊎ ((s : Text) × (p : Text) × (has_window b db.settlement_batches ≡ false)
          × (db' ≡ persisted b g s p i.replies.now db))
unfolding process_group
process_group_tables enc i g start end db = elim (Result-cases (payloads enc i g start end)) [
  | inr (e, bad) ↦ inl (rw (bad, process_group) refl)
  | inl ((s, p), good) ↦ elim (persist_batch_tables i.replies (batch_of i g start end) g s p db) [
    | inl same ↦ inl (rw (good, process_group) same)
    | inr (new, wrote) ↦ inr (s, p, new, rw (good, process_group) wrote)
  ]
]

-- What the aggregation answers, when it answers.
aggregate_captured-groups :
    (i : TickInput) (start end : Time) (db : Db) (gs : List CapturedGroup)
    → aggregate_captured i.collation i.aggregate start end db ≡ ok gs
    → gs ≡ group_rows i.collation (keep_if (in_window start end) db.transactions)
unfolding aggregate_captured
aggregate_captured-groups i start end db gs h = ground arith

pub settle_tables :
    (i : TickInput) (start end : Time) (db : Db)
    → ((settle i start end db).1 ≡ db)
      ⊎ ((settle i start end db).1
          ≡ process_groups i.encoder i.groups 0
              (group_rows i.collation (keep_if (in_window start end) db.transactions))
              start
              end
              db)
unfolding settle
settle_tables i start end db =
    elim (Result-cases (aggregate_captured i.collation i.aggregate start end db)) [
      | inr (e, bad) ↦ inl (rw (bad, settle) refl)
      | inl (gs, good) ↦
          let e = aggregate_captured-groups i start end db gs good in
          inr (rw (good, settle, e) refl)
    ]

-- A tick leaves the tables, or processes the groups of a window.
pub tick_tables :
    (i : TickInput) (now : Time) (e : Engine) (db : Db)
    → ((tick i now e db).1 ≡ db)
      ⊎ ((start : Time) × (end : Time) × ((tick i now e db).1 ≡ (settle i start end db).1))
unfolding tick
tick_tables i now e db =
    let end = now -ℤ e.config.buffer in
    let start = window_start e end in
    elim (Bool-cases (ltb_ℤ (sub_time end start) e.config.window_size)) [
      | inl short ↦ inl (rw (short, tick) refl)
      | inr long ↦ elim (Outcome-cases (settle i start end db).0) [
        | inl good ↦ inr (start, end, rw (long, good, tick) refl)
        | inr (f, bad) ↦ inr (start, end, rw (long, bad, tick) refl)
      ]
    ]

module _ (P : Db → Type 0) (settleable : IsSettleable P) where
  process_group_keeps :
      (enc : Encoder) (i : GroupInput) (g : CapturedGroup) (start end : Time) (db : Db)
      → P db
      → P (process_group enc i g start end db).1
  process_group_keeps enc i g start end db h = elim (process_group_tables enc i g start end db) [
    | inl same ↦ rw same h
    | inr (settled, payout, new, wrote) ↦
        rw wrote (settleable (batch_of i g start end) g settled payout i.replies.now db new h)
  ]

  process_groups_keeps :
      (enc : Encoder) (inputs : ℕ → GroupInput) (n : ℕ) (gs : List CapturedGroup) (start end : Time)
      (db : Db)
      → P db
      → P (process_groups enc inputs n gs start end db)
  unfolding process_groups
  process_groups_keeps enc inputs n [] start end db h = h
  process_groups_keeps enc inputs n (g ∷ gs) start end db h =
      process_groups_keeps enc inputs (suc n) gs start end _
        (process_group_keeps enc (inputs n) g start end db h)

  settle_keeps : (i : TickInput) (start end : Time) (db : Db) → P db → P (settle i start end db).1
  settle_keeps i start end db h = elim (settle_tables i start end db) [
    | inl same ↦ rw same h
    | inr wrote ↦ rw wrote (process_groups_keeps i.encoder i.groups 0 _ start end db h)
  ]

  pub tick_keeps :
      (i : TickInput) (now : Time) (e : Engine) (db : Db) → P db → P (tick i now e db).1
  tick_keeps i now e db h = elim (tick_tables i now e db) [
    | inl same ↦ rw same h
    | inr (start, end, settled) ↦ rw settled (settle_keeps i start end db h)
  ]
