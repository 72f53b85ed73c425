-- ===== src/Tests/PipelineTests.antt =====
-- A payment on its way from the request to the ledger.
use distributed_payment_pipe.Base.{
  ℕ, suc, ◌≤◌, ◌-◌, ◌*◌, ◌≡◌, refl, inl, [], ◌∷◌, ◌++◌, arith, some,
}
use distributed_payment_pipe.Base.Int.{pos}
use distributed_payment_pipe.Text.{Text, codes, text_eq}
use distributed_payment_pipe.Errors.{nil, ok, Result}
use distributed_payment_pipe.Domain.{Transaction, state_captured}
use distributed_payment_pipe.Db.{clashes, select_payment}
use distributed_payment_pipe.Kafka.{Publish, DlqMessage, topic_payments_received}
use distributed_payment_pipe.Kafka.Retry.{returned}
use distributed_payment_pipe.Ledger.{debit_leg, credit_leg}
use distributed_payment_pipe.Outbox.{EventCodec, new_payment_received_event}
use distributed_payment_pipe.Outbox.Relay.{run, relay_batch_size}
use distributed_payment_pipe.Outbox.Relay.Drains.{IsHealthy, waiting, run_drains}
use distributed_payment_pipe.Consumer.{
  LedgerWorld, read_event, is_malformed, transaction_of_event, deliver,
}
use distributed_payment_pipe.Intake.{accepted, submit_payment}
use distributed_payment_pipe.Intake.Outcomes.{stored_response}
use distributed_payment_pipe.Pipeline.Stored.{IsSmooth}
use distributed_payment_pipe.Pipeline.Captured.{delivered, submitted, relayed, pipeline_captures}
use distributed_payment_pipe.Tests.Fixtures.{empty, post_done}
use distributed_payment_pipe.Tests.IntakeTests.{
  idem, server, packages, request, call, normalized, prepared, start, granted,
}
use distributed_payment_pipe.Tests.RelayTests.{replies, before}

abbrev t : Transaction
t = normalized (codes "p1") (codes "k1")

abbrev pub codec : EventCodec
codec = record {
  marshal = λ e. ok (codes "{}");
  unmarshal =
      λ s. ok (new_payment_received_event (codes "e1") (accepted packages server (pos 10) t));
}

abbrev pub publish : Publish ℕ
publish topic key payload n = (nil, suc n)

abbrev pub marshal : DlqMessage → Result Text
marshal m = ok []

smooth : IsSmooth packages server call (request (codes "k1")) start t (codes "{}")
unfolding clashes
smooth = record {
  idem = idem;
  prepared = prepared (codes "p1") (codes "k1");
  granted = granted;
  valid = refl;
  encoded = refl;
  saves = (refl, refl, refl, refl);
  fresh = refl;
}

replies-IsHealthy : IsHealthy replies
replies-IsHealthy = record { query = refl; rows = refl; update = λ n. refl }

abbrev pub world : LedgerWorld ℕ
world = record { db = empty; replies = λ n. post_done; clock = λ n. pos 30; posts = 0; broker = 0 }

event_read :
    read_event codec (codes "{}")
    ≡ ok (delivered (codes "e1") (accepted packages server (pos 10) t))
unfolding read_event is_malformed text_eq delivered transaction_of_event new_payment_received_event
    accepted
event_read = refl

pipeline_captures_example :
    let stored =
      submitted packages server publish
        (λ topic key payload b. refl)
        publish
        marshal
        codec
        call
        (request (codes "k1"))
        start in
    let sent =
      relayed packages server publish
        (λ topic key payload b. refl)
        publish
        marshal
        codec
        replies
        0
        stored.outbox in
    let (q, v') =
      deliver publish marshal codec
        (codes "acc")
        (codes "{}")
        (pos 40)
        (record world { db = record stored { outbox = sent.table } }) in
    ((submit_payment packages server call (request (codes "k1")) start).0
      ≡ ok (stored_response call t))
    × (sent.broker.1
        ≡ record { topic = topic_payments_received; key = codes "acc"; payload = codes "{}" } ∷ [])
    × (q ≡ returned nil)
    × (v'.db.ledger_entries ≡ [] ++ debit_leg t ∷ credit_leg t ∷ [])
    × ((u : Transaction) × (select_payment (codes "p1") v'.db.transactions ≡ some u)
        × (u.state ≡ state_captured))
pipeline_captures_example =
    pipeline_captures packages server publish (λ topic key payload b. refl) publish marshal codec
      call (request (codes "k1")) start t (codes "{}") replies 0 world (pos 40) smooth refl
      replies-IsHealthy event_read (omega arith)
      ((refl, refl, refl), refl, (refl, refl, refl, refl, refl)) tt (λ p. inl refl) refl

run_drains_example :
    waiting (run publish (replies ∷ []) (record { table = before.table; broker = 0 })).table
    ≤ waiting before.table - relay_batch_size * 1
run_drains_example =
    run_drains publish (λ topic key payload b. refl) (replies ∷ [])
      (record { table = before.table; broker = 0 }) (replies-IsHealthy, tt)
