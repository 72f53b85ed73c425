-- ===== src/Tests/CommandTests.antt =====
-- The processes at concrete environments.
use distributed_payment_pipe.Base.{length, ◌≡◌, refl, ◌↔◌, ℕ, [], ◌∷◌, false, none}
use distributed_payment_pipe.Base.Int.{ℤ, pos, ◌≤ℤ◌}
use distributed_payment_pipe.Text.{Text, codes, text_eq, contains}
use distributed_payment_pipe.Errors.{Result, ok, done, failed, errors_is, committed}
use distributed_payment_pipe.Configuration.{Environment, load}
use distributed_payment_pipe.Kafka.Brokers.{new_consumer, new_producer}
use distributed_payment_pipe.Text.Split.{split}
use distributed_payment_pipe.Text.Space.{trim_space}
use distributed_payment_pipe.Store.{new_store, update_state}
use distributed_payment_pipe.Domain.{transition}
use distributed_payment_pipe.Db.{rows_affected, set_state, has_leg, select_payment}
use distributed_payment_pipe.Ledger.{post}
use distributed_payment_pipe.Outbox.{new_payment_received_event}
use distributed_payment_pipe.Kafka.Retry.{retry_handler}
use distributed_payment_pipe.Kafka.Consume.{
  Consumed, Poll, consume, consume_loop, poll_once, handle_records, after_poll,
}
use distributed_payment_pipe.Consumer.{
  LedgerWorld, ledger_config, handle_ledger, handle_notification,
}
use distributed_payment_pipe.System.Consistent.{IsConsistent}
use distributed_payment_pipe.Intake.{accepted}
use distributed_payment_pipe.Commands.{Calls, Exit, retrying}
use distributed_payment_pipe.Commands.Consumers.{
  Host, run_ledger_consumer, run_notification_consumer,
}
use distributed_payment_pipe.Commands.Consumers.Booked.{run_ledger_consumer-IsConsistent}
use distributed_payment_pipe.Commands.Services.{run_settlement, new_engine}
use distributed_payment_pipe.Commands.Services.Interval.{
  IsSetTo, IsInterval, run_settlement-crashed_iff,
}
use distributed_payment_pipe.Tests.Fixtures.{empty, broken}
use distributed_payment_pipe.Tests.PipelineTests.{codec, publish, marshal, world}
use distributed_payment_pipe.Tests.SystemTests.{empty-IsConsistent}

-- Nothing is set.
abbrev unset : Environment
unset key = []

abbrev poll : Poll
poll = record {
  is_client_closed = false;
  errors = [];
  records =
      record {
        topic = codes "payments.received";
        partition = pos 0;
        offset = pos 7;
        key = codes "p1";
        value = codes "{}";
      }
      ∷ [];
  commit = λ n. committed;
  cancelled = none;
}

abbrev host : Host ℕ
host = record {
  new_pool = λ url. done;
  new_store_pool = λ url. done;
  new_producer_client = λ brokers. ok publish;
  new_consumer_client = done;
  polls = poll ∷ poll ∷ [];
  clock = λ n. pos 40;
  cancelled = false;
}

abbrev begun : Consumed (Calls (LedgerWorld ℕ))
begun = record { world = record { world = world; calls = 0 }; committed = [] }

run_ledger_consumer-IsConsistent_example :
    IsConsistent (run_ledger_consumer host unset marshal codec begun).1.world.world.db
run_ledger_consumer-IsConsistent_example =
    run_ledger_consumer-IsConsistent host unset marshal codec begun empty-IsConsistent

-- A zero interval.
abbrev zero_interval : Environment
zero_interval key = codes "0s"

abbrev parse_duration : Text → Result ℤ
parse_duration s = ok (pos 0)

run_settlement-crashed_iff_example :
    (((run_settlement parse_duration zero_interval (λ url. done) [] false empty).0 ≡ Exit.crashed)
      ↔ ((d : ℤ) × IsSetTo parse_duration (codes "0s") d × (d ≤ℤ pos 0)))
    × IsInterval parse_duration
        (codes "0s")
        (new_engine parse_duration zero_interval).config.interval
run_settlement-crashed_iff_example =
    run_settlement-crashed_iff parse_duration zero_interval (λ url. done) [] false empty
      (λ url. refl)

-- Both deliveries are read, and the process goes on.
ledger_runs :
    let (exit, w) = run_ledger_consumer host unset marshal codec begun in
    (exit ≡ Exit.running) × (length w.committed ≡ 2) × (length w.world.world.db.ledger_entries ≡ 2)
unfolding run_ledger_consumer new_consumer split load trim_space new_producer consume text_eq
    consume_loop poll_once handle_records retrying retry_handler new_payment_received_event accepted
    after_poll new_store ledger_config handle_ledger post update_state transition rows_affected
    set_state has_leg contains select_payment errors_is
ledger_runs = (refl, refl, refl)

-- Without a pool nothing is consumed.
ledger_dies :
    run_ledger_consumer (record host { new_pool = λ url. failed broken }) unset marshal codec begun
    ≡ (Exit.died broken, begun)
unfolding run_ledger_consumer
ledger_dies = refl

notification_runs :
    (run_notification_consumer host unset marshal codec
      (record { world = record { world = 0; calls = 0 }; committed = [] })).0
    ≡ Exit.running
unfolding run_notification_consumer new_consumer split load trim_space new_producer consume text_eq
    consume_loop poll_once handle_records retrying retry_handler new_payment_received_event accepted
    after_poll handle_notification
notification_runs = refl
