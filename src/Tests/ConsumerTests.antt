-- ===== src/Tests/ConsumerTests.antt =====
-- The ledger consumer at a concrete world.
use distributed_payment_pipe.Base.{
  ℕ, zero, suc, ◌≡◌, ◌≢◌, refl, inl, inr, true, false, ◌+◌, List, [], ◌∷◌, ◌++◌, none, some, arith,
}
use distributed_payment_pipe.Base.Int.{pos}
use distributed_payment_pipe.Text.{Text, codes, text_eq, Text-cases}
use distributed_payment_pipe.Errors.{Result, errors_is, non_retryable, ok, err, nil}
use distributed_payment_pipe.Domain.{Transaction, state_failed, state_validated}
use distributed_payment_pipe.Db.{clashes, select_payment}
use distributed_payment_pipe.Store.Keys.{IsKeyed}
use distributed_payment_pipe.Ledger.{PostReplies, debit_leg, credit_leg}
use distributed_payment_pipe.Ledger.Booked.{IsPair, legs}
use distributed_payment_pipe.Kafka.{Publish, DlqMessage}
use distributed_payment_pipe.Kafka.Retry.{returned}
use distributed_payment_pipe.Outbox.{EventCodec, PaymentReceivedEvent}
use distributed_payment_pipe.Consumer.{LedgerWorld, deliver, read_event}
use distributed_payment_pipe.Consumer.Redelivery.{Delivery, deliver_all, legs-deliver_all}
use distributed_payment_pipe.Consumer.FailedRetry.{deliver_failed_and_posted}
use distributed_payment_pipe.Tests.Fixtures.{payment, received, broken, post_done, post_no_debit}

abbrev event : PaymentReceivedEvent
event = record {
  event_id = codes "e1";
  event_type = codes "payment.received";
  schema_version = 1;
  payment_id = codes "p1";
  idempotency_key = codes "k1";
  source = codes "CARD";
  external_txn_id = codes "x1";
  account_id = codes "acc";
  amount_minor = pos 1250;
  currency = codes "INR";
  state = state_validated;
  created_at = pos 10;
  metadata = none;
}

-- One payload is the event's; any other is not JSON.
abbrev codec : EventCodec
codec = record {
  marshal = λ e. ok (codes "{}");
  unmarshal =
      λ payload. elim (text_eq payload (codes "{}")) [ true ↦ ok event | false ↦ err broken ];
}

abbrev posted : Transaction
posted = record {
  payment_id = codes "p1";
  idempotency_key = [];
  source = codes "CARD";
  external_txn_id = [];
  account_id = codes "acc";
  amount = record { minor_units = pos 1250; currency = codes "INR" };
  state = state_validated;
  schema_version = 0;
  metadata = none;
  created_at = pos 10;
  updated_at = pos 0;
}

read_it : read_event codec (codes "{}") ≡ ok posted
unfolding read_event text_eq
read_it = refl

-- The broker is the list of the keys that were published.
abbrev publish : Publish ℕ
publish topic key payload b = (nil, suc b)

abbrev marshal : DlqMessage → Result Text
marshal m = ok m.error

-- The first posting loses its connection; the later ones go through.
first_fails : ℕ → PostReplies
first_fails zero = post_no_debit
first_fails (suc n) = post_done

abbrev world : LedgerWorld ℕ
world = record {
  db = received;
  replies = first_fails;
  clock = λ n. pos (20 + n);
  posts = 0;
  broker = 0;
}

abbrev twice : List Delivery
twice =
    record { key = codes "acc"; payload = codes "{}"; now = pos 30 }
    ∷ record { key = codes "acc"; payload = codes "{}"; now = pos 40 }
    ∷ []

abbrev booked_world : LedgerWorld ℕ
booked_world = record world {
  db = record received { ledger_entries = debit_leg posted ∷ credit_leg posted ∷ [] };
}

booked-IsPair : (p : Text) → IsPair p (legs p booked_world.db.ledger_entries)
booked-IsPair p = elim (Text-cases (codes "p1") p) [
  | inl (e, t) ↦ inr (posted, e, omega arith, ground (arith, t))
  | inr n ↦ inl (ground (arith, n))
]

some_legs : legs (codes "p1") booked_world.db.ledger_entries ≢ []
unfolding text_eq
some_legs = λ e. cc

legs-deliver_all_example :
    legs (codes "p1") (deliver_all publish marshal codec twice booked_world).db.ledger_entries
    ≡ legs (codes "p1") booked_world.db.ledger_entries
legs-deliver_all_example =
    legs-deliver_all publish marshal codec (codes "p1") twice booked_world booked-IsPair some_legs

world-IsKeyed : IsKeyed world.db.transactions
unfolding clashes
world-IsKeyed = (refl, tt)

world_found : select_payment (codes "p1") world.db.transactions ≡ some payment
unfolding select_payment text_eq
world_found = refl

broken_is_retryable : errors_is broken non_retryable ≡ false
unfolding errors_is
broken_is_retryable = refl

deliver_failed_and_posted_example :
    let (r, w') = deliver publish marshal codec (codes "acc") (codes "{}") (pos 30) world in
    (r ≡ returned nil)
    × (w'.db.ledger_entries ≡ world.db.ledger_entries ++ debit_leg posted ∷ credit_leg posted ∷ [])
    × (select_payment (codes "p1") w'.db.transactions
        ≡ some (record payment { state = state_failed; updated_at = pos 20 }))
unfolding first_fails
deliver_failed_and_posted_example =
    deliver_failed_and_posted publish marshal codec (codes "acc") (codes "{}") (pos 30) world posted
      payment broken read_it (omega arith) refl refl broken_is_retryable
      (refl, refl, refl, refl, refl) (refl, refl, refl) refl (refl, refl, refl, refl, refl)
      world-IsKeyed (λ p. inl refl) refl world_found refl
