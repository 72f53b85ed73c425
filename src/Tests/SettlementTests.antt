-- ===== src/Tests/SettlementTests.antt =====
-- The settlement engine at concrete tables.
use distributed_payment_pipe.Base.{ℕ, ◌≡◌, ◌≢◌, refl, ◌⊎◌, true, false, List, [], ◌∷◌, arith, All}
use distributed_payment_pipe.Base.Int.{pos, ◌+ℤ◌, ◌-ℤ◌, ◌<ℤ◌, ltb_ℤ}
use distributed_payment_pipe.Text.{codes, text_eq}
use distributed_payment_pipe.Errors.{Failure, ok, err, done, failed, committed, unconfirmed}
use distributed_payment_pipe.Domain.{Time, Transaction, state_captured}
use distributed_payment_pipe.Db.{Db, Batch}
use distributed_payment_pipe.Settlement.{
  CapturedGroup, Collation, PersistReplies, group_rows, add_row, has_group, join_row, join_group,
  open_group, place, same_key, in_window, fits, aggregate_captured, batch_status_pending,
  persist_batch, has_window,
}
use distributed_payment_pipe.Settlement.Persist.{
  HasPersisted, persist_batch_atomic, persist_batch_once,
}
use distributed_payment_pipe.Settlement.Engine.{
  Encoder, GroupInput, TickInput, Engine, Tick, tick, run_ticks, sub_time, saturate,
}
use distributed_payment_pipe.Settlement.Engine.Windows.{
  windows, settle_each, IsChain, windows-IsChain,
}
use distributed_payment_pipe.Settlement.Engine.Lost.{tick_strands}
use distributed_payment_pipe.Tests.Fixtures.{payment, empty, broken}

-- A collation that compares nothing.
abbrev any_order : Collation
any_order a b = true

abbrev captured : Transaction
captured = record payment { state = state_captured }

abbrev other : Transaction
other = record captured {
  payment_id = codes "p2";
  idempotency_key = codes "k2";
  amount = record { minor_units = pos 50; currency = codes "INR" };
}

abbrev rows : List Transaction
rows = captured ∷ other ∷ []

abbrev pub db : Db
db = record empty { transactions = rows }

abbrev pub group : CapturedGroup
group = record {
  account_id = codes "acc";
  currency = codes "INR";
  total_minor = pos 1300;
  txn_count = 2;
  payment_ids = codes "p1" ∷ codes "p2" ∷ [];
}

grouped : group_rows any_order rows ≡ group ∷ []
unfolding group_rows add_row has_group join_row join_group open_group place same_key text_eq ◌+ℤ◌
grouped = refl

abbrev pub batch : Batch
batch = record {
  id = codes "b1";
  account_id = codes "acc";
  currency = codes "INR";
  window_start = pos 0;
  window_end = pos 15;
  total_minor = pos 1300;
  txn_count = 2;
  status = batch_status_pending;
  created_at = pos 30;
}

abbrev pub persist_done : PersistReplies
persist_done = record {
  begin = done;
  insert_batch = done;
  clash = broken;
  update_txns = done;
  insert_settled = done;
  insert_payout = done;
  commit = committed;
  now = pos 31;
}

persist_batch_atomic_example :
    let (o, db') = persist_batch persist_done batch group (codes "{}") (codes "{}") db in
    ((o ≡ ok true) × (has_window batch db.settlement_batches ≡ true) × (db' ≡ db))
    ⊎ ((o ≡ ok false)
        × (has_window batch db.settlement_batches ≡ false)
        × HasPersisted batch group (codes "{}") (codes "{}") persist_done.now db db')
    ⊎ ((e : Failure) × (o ≡ err e)
        × ((db' ≡ db) ⊎ ((f : Failure) × (persist_done.commit ≡ unconfirmed f))))
persist_batch_atomic_example =
    persist_batch_atomic persist_done batch group (codes "{}") (codes "{}") db

batch_is_new : (persist_batch persist_done batch group (codes "{}") (codes "{}") db).0 ≡ ok false
unfolding persist_batch
batch_is_new = refl

-- Another batch for the same window.
abbrev again : Batch
again = record batch { id = codes "b2"; created_at = pos 40 }

persist_batch_once_example :
    let db' = (persist_batch persist_done batch group (codes "{}") (codes "{}") db).1 in
    ((persist_batch persist_done again group (codes "{}") (codes "{}") db').0 ≢ ok false)
    × ((persist_batch persist_done again group (codes "{}") (codes "{}") db').1 ≡ db')
persist_batch_once_example =
    persist_batch_once persist_done persist_done batch again group group (codes "{}") (codes "{}")
      (codes "{}") (codes "{}") db batch_is_new refl refl refl refl

abbrev encoder : Encoder
encoder = record { settled = λ e. ok (codes "{}"); payout = λ e. ok (codes "{}") }

abbrev group_input : ℕ → GroupInput
group_input n = record {
  batch_id = codes "b1";
  payout_id = codes "o1";
  now = pos 30;
  replies = persist_done;
}

abbrev pub input : TickInput
input = record {
  collation = any_order;
  aggregate = record { query = done; rows = done; no_scan = broken };
  encoder = encoder;
  groups = group_input;
}

abbrev refused_input : TickInput
refused_input = record input {
  groups = λ n. record (group_input n) { replies = record persist_done { begin = failed broken } };
}

abbrev pub engine : Engine
engine = record {
  config = record { window_size = pos 10; buffer = pos 2; interval = pos 5 };
  last_window_end = pos 5;
}

abbrev run : List Tick
run = record { input = input; at = pos 20 } ∷ record { input = input; at = pos 35 } ∷ []

windows-IsChain_example :
    IsChain (pos 10) (pos 5) (windows run engine db)
    × ((run_ticks run engine db).1 ≡ settle_each (windows run engine db) db)
unfolding ◌-ℤ◌
windows-IsChain_example =
    windows-IsChain run engine db (omega arith) refl (omega arith, (omega arith, tt))

settled_window : aggregate_captured any_order input.aggregate (pos 5) (pos 18) db ≡ ok (group ∷ [])
unfolding aggregate_captured group_rows add_row has_group join_row join_group open_group place
    same_key text_eq in_window fits ◌+ℤ◌
settled_window = refl

in_this_window : in_window (pos 5) (pos 18) captured ≡ true
unfolding in_window text_eq
in_this_window = refl

full_window : ltb_ℤ (sub_time (pos 18) (pos 5)) (pos 10) ≡ false
unfolding saturate ◌-ℤ◌
full_window = refl

tick_strands_example :
    (tick refused_input (pos 20) engine db ≡ (record engine { last_window_end = pos 18 }, db))
    × All
        (λ (w : TickInput × Time × Time). captured.created_at <ℤ w.1)
        (windows run (record engine { last_window_end = pos 18 }) db)
unfolding ◌-ℤ◌
tick_strands_example =
    tick_strands refused_input (pos 20) engine db (group ∷ []) (λ n. broken) captured run
      (omega arith) (omega arith) (omega arith, (omega arith, tt)) refl full_window settled_window
      (λ n. refl) in_this_window
