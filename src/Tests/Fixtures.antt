-- ===== src/Tests/Fixtures.antt =====
-- A payment, tables that hold it, and answers of the services.
use distributed_payment_pipe.Base.{[], ◌∷◌, none}
use distributed_payment_pipe.Base.Int.{pos}
use distributed_payment_pipe.Text.{codes}
use distributed_payment_pipe.Errors.{Failure, new_error, done, failed, committed, refused}
use distributed_payment_pipe.Domain.{Transaction, source_card, state_validated}
use distributed_payment_pipe.Db.{Db}
use distributed_payment_pipe.Store.{SaveReplies, UpdateReplies}
use distributed_payment_pipe.Ledger.{PostReplies}

abbrev pub payment : Transaction
payment = record {
  payment_id = codes "p1";
  idempotency_key = codes "k1";
  source = source_card;
  external_txn_id = codes "x1";
  account_id = codes "acc";
  amount = record { minor_units = pos 1250; currency = codes "INR" };
  state = state_validated;
  schema_version = 1;
  metadata = none;
  created_at = pos 10;
  updated_at = pos 10;
}

abbrev pub empty : Db
empty = record {
  transactions = [];
  outbox = [];
  next_outbox_id = 1;
  ledger_entries = [];
  state_transitions = [];
  settlement_batches = [];
}

-- The tables with the payment in them.
abbrev pub received : Db
received = record empty { transactions = payment ∷ [] }

abbrev pub broken : Failure
broken = new_error (codes "connection reset")

abbrev pub save_done : SaveReplies
save_done = record {
  begin = done;
  insert_row = done;
  clash = broken;
  insert_event = done;
  commit = committed;
}

abbrev pub save_refused : SaveReplies
save_refused = record save_done { commit = refused broken }

abbrev pub update_done : UpdateReplies
update_done = record {
  begin = done;
  update = done;
  select = done;
  audit = done;
  commit = committed;
}

abbrev pub post_done : PostReplies
post_done = record {
  begin = done;
  insert_debit = done;
  insert_credit = done;
  commit = committed;
  update = update_done;
}

abbrev pub post_refused : PostReplies
post_refused = record post_done { commit = refused broken }

abbrev pub post_no_debit : PostReplies
post_no_debit = record post_done { insert_debit = failed broken }
