-- ===== src/Tests/ConsumeTests.antt =====
-- The poll loop at concrete records.
use distributed_payment_pipe.Base.{
  ℕ, zero, suc, ◌≡◌, refl, ◌⊎◌, false, List, [], ◌∷◌, ◌++◌, map, none, some,
}
use distributed_payment_pipe.Base.Int.{pos}
use distributed_payment_pipe.Text.{Text, codes, text_eq}
use distributed_payment_pipe.Text.Decimal.{format_int}
use distributed_payment_pipe.Errors.{Outcome, nil, err, done, new_error, committed}
use distributed_payment_pipe.Kafka.{Handler}
use distributed_payment_pipe.Kafka.Consume.{
  Record, Poll, Consumed, consume, consume_loop, poll_once, handle_records, after_poll, fetch_error,
}
use distributed_payment_pipe.Kafka.Consume.Committed.{
  HasConsumed, Entry, entry, logged, all_records, consume_loop-HasConsumed,
}
use distributed_payment_pipe.Tests.Fixtures.{broken}

-- A handler that accepts two records.
abbrev handle : Handler ℕ
handle key payload zero = (nil, 1)
handle key payload (suc zero) = (nil, 2)
handle key payload (suc (suc n)) = (err broken, suc (suc n))

abbrev message : Text → Record
message key = record {
  topic = codes "t";
  partition = pos 0;
  offset = pos 7;
  key = key;
  value = codes "{}";
}

abbrev poll : List Record → Poll
poll rs = record {
  is_client_closed = false;
  errors = [];
  records = rs;
  commit = λ n. committed;
  cancelled = none;
}

abbrev polls : List Poll
polls =
    poll (message (codes "a") ∷ [])
    ∷ poll []
    ∷ poll (message (codes "b") ∷ message (codes "c") ∷ [])
    ∷ []

abbrev start : Consumed (ℕ × List Entry)
start = record { world = (0, []); committed = [] }

-- The third record is refused: it is not committed, and the loop ends with its error.
third_refused : consume_loop (logged handle) polls start ≡ (
  some (err (new_error (codes "handle record topic=t partition=0 offset=7: connection reset"))),
  record {
    world = (2, (codes "a", codes "{}") ∷ (codes "b", codes "{}") ∷ []);
    committed = message (codes "a") ∷ message (codes "b") ∷ [];
  },
)
unfolding consume_loop poll_once handle_records after_poll fetch_error format_int
third_refused = refl

no_topic :
    consume (some (codes "k:9092" ∷ [])) [] (codes "g") (some (logged handle)) done polls start
    ≡ (some (err (new_error (codes "topic is required"))), start)
unfolding consume text_eq
no_topic = refl

consume_loop-HasConsumed_example :
    let (next, w') = consume_loop (logged handle) polls start in
    HasConsumed (all_records polls) start w'
    × (((o : Outcome) × (next ≡ some o))
        ⊎ ((next ≡ none)
            × (w'.committed ≡ start.committed ++ all_records polls)
            × (w'.world.1 ≡ start.world.1 ++ map entry (all_records polls))))
consume_loop-HasConsumed_example = consume_loop-HasConsumed handle polls start
