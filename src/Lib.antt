-- ===== src/Lib.antt =====
-- Verification of the payment intake and settlement pipeline.
--
-- A payment that the intake server accepts is written by the transaction store together with an
-- event in the outbox table, in one database transaction, after its idempotency key was
-- claimed. The relay publishes the rows of the outbox to Kafka. Consumers take the events from
-- there, each through the retry handler, which sends what it cannot handle to a dead-letter
-- topic; the ledger consumer books two legs for a payment and moves it to CAPTURED. The
-- settlement engine collects the CAPTURED payments of a window of time into batches, moves them
-- to SETTLED and writes two more events into the outbox.
--
-- Files and code:
--   Domain            internal/domain/transaction.go and states.go: types, the state machine
--   Db                the tables of internal/store/migrations and the statements on them
--   Store             internal/store/store.go: GetByPaymentID, GetByIdempotencyKey, Save,
--                     SaveWithOutbox, UpdateState, as functions on the tables (save_with_outbox for
--                     SaveWithOutbox, and so on)
--   Normalize         internal/normalize/normalize.go: Registry, the normalizers, parseAmount; in
--                     Normalize/Amount also formatAmount of internal/intake/server.go
--   Validate          internal/validate/validate.go and redis_client.go
--   Idempotency       internal/idempotency/store.go: DeriveKey, Claim
--   Intake            internal/intake/server.go: SubmitPayment
--   Fraud             internal/fraud-score/fraud-engine.go and cmd/fraud-consumer/main.go: Score,
--                     SaveScore, handle
--   Configuration     internal/config/config.go, the settings of cmd/settlement/main.go, and the
--                     topics of cmd/provision-topics/main.go
--   Commands          cmd/*/main.go: main of the three consumers, the relay, the settlement engine,
--                     the intake server and provision-topics (run_ledger_consumer and so on), which compose the parts
--   Pipeline          a payment's path through Intake, Outbox/Relay and Consumer
--   System            the operations of all processes over one database, in any order
--   Ledger            internal/ledger/ledger.go: Post
--   Kafka             internal/kafka/producer.go: the interface and the topics
--   Kafka/Brokers     internal/kafka/consumer.go and producer.go: NewConsumer, NewProducer, Publish
--   Kafka/Consume     internal/kafka/consumer.go: Consume
--   Kafka/Retry       internal/kafka/retry.go: RetryHandler, publishToDLQ
--   Outbox            internal/outbox/event.go
--   Outbox/Relay      internal/outbox/relay.go: relayBatch, Run
--   Consumer          cmd/ledger-consumer/main.go and cmd/notification-consumer/main.go: handle
--   Settlement        internal/settlement/types.go and pgstore.go: AggregateCaptured, PersistBatch
--   Settlement/Engine internal/settlement/engine.go: processGroup, settle, Run
-- The other files below a part hold its proofs. Base, Text and the files below them, Dict
-- and Errors are what the parts share: lists, integers, byte strings, decimal numbers, maps and
-- Go's errors. Tests evaluates the definitions and applies the theorems at concrete inputs.
--
-- Conventions. Numbers are native; an int64 is an integer of Base/Int, a time is a number of
-- nanoseconds from Go's zero time. A text is a list of bytes. Each operation is a function from
-- the tables to its result and the new tables. What Postgres answers to each call is an
-- argument: a statement inside a transaction is done or fails without effect, and a commit,
-- like a statement outside a transaction, is confirmed, refused, or applied with an error to
-- the caller. A unique index is written out in the statement that it guards. So a theorem about
-- all arguments is about all faults. JSON encoding, hashing, Redis, the broker, generated ids,
-- clocks and the collation of the database are parameters. Concurrent transactions are not
-- interleaved: an operation is one step.
--
-- The column outbox.payload is JSONB. Postgres keeps the JSON value and prints it with spaces and an
-- order of keys of its own, while the model keeps the text that was inserted; so an equation between
-- payloads is to be read as one between JSON values. The query of the settlement engine collects the
-- payment ids of a group by ARRAY_AGG without an order, which Postgres leaves open; the model takes
-- that of the table, and what is said of the ids of a group is said up to their order. The delay
-- before an attempt is a natural number of milliseconds, while a time.Duration wraps around after
-- some three hundred thousand attempts.
--
-- A float64 of the fraud score is an exact multiple of 2^-55, and each sum is rounded as Go rounds it.
--
-- Loops. The attempts of the retry handler recurse on the attempts that are left, which the source
-- bounds by maxAttempts; every other loop recurses on its list: the bytes of a text, the rows of a
-- batch, the groups of a window, the ticks of a run, the records of a poll, the polls. Only the
-- digits of a printed number recurse on fuel, one round more than the number, which is enough since
-- each round divides it by ten; that ParseInt reads every such print back is among the results.
--
-- Not modelled: cmd/dlqctl and the packages observability and interceptors, which have no code; the
-- options of the gRPC server and the closing of connections; and the Go code that is generated from api/proto. Logging is left out. Cancellation is seen where a call
-- fails by it, and after each poll of Consume. strconv.Quote, time.ParseDuration and strings.ToLower
-- beyond the letters that its one use can tell apart are not written out; the first two are
-- parameters.
pub mod Base
pub mod Text
pub mod Errors
pub mod Dict
pub mod Domain
pub mod Db
pub mod Store
pub mod Ledger
pub mod Idempotency
pub mod Normalize
pub mod Validate
pub mod Kafka
pub mod Outbox
pub mod Consumer
pub mod Fraud
pub mod Commands
pub mod Configuration
pub mod Intake
pub mod Pipeline
mod Tests
pub mod Settlement
pub mod System
