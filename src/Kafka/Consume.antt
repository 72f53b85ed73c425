-- ===== src/Kafka/Consume.antt =====
-- internal/kafka/consumer.go: the loop of `Consume`. What the client answers to each poll and to each
-- commit is an argument; the handler is a parameter on its own state.
pub mod Committed
pub mod Keeps
use distributed_payment_pipe.Base.{
  ℕ, zero, suc, Bool, true, false, List, [], ◌∷◌, ◌++◌, Option, none, some, if◌then◌else◌,
}
use distributed_payment_pipe.Base.Int.{ℤ}
use distributed_payment_pipe.Text.{Text, codes, text_eq}
use distributed_payment_pipe.Text.Decimal.{format_int}
use distributed_payment_pipe.Errors.{
  Failure, new_error, wrap, Result, ok, err, Outcome, nil, Reply, done, failed, CommitReply,
  commit_outcome, after_commit,
}
use distributed_payment_pipe.Kafka.{Handler}

-- The fields of a `kgo.Record` that the loop reads.
pub record Record : Type 0 where
  pub topic : Text
  pub partition : ℤ
  pub offset : ℤ
  pub key : Text
  pub value : Text

pub record FetchError : Type 0 where
  pub topic : Text
  pub partition : ℤ
  pub cause : Failure

-- What one poll gives: whether the client is closed, the errors and the records of the fetches, the
-- answers to the commits by the number of the record, and the error of the context after the poll.
pub record Poll : Type 0 where
  pub is_client_closed : Bool
  pub errors : List FetchError
  pub records : List Record
  pub commit : ℕ → CommitReply
  pub cancelled : Option Failure

-- The state of the handler, and the records whose offsets have been committed.
pub record Consumed {ℓ} (S : Type ℓ) : Type ℓ where
  pub world : S
  pub committed : List Record

-- `topic=%s partition=%d offset=%d: ` after the verb.
abbrev place_of : Text → Record → Text
place_of verb r =
    verb
    ++ (codes " record topic="
        ++ (r.topic
            ++ (codes " partition="
                ++ (format_int r.partition
                    ++ (codes " offset=" ++ (format_int r.offset ++ codes ": "))))))

-- Only the first error is kept.
unfoldable pub fetch_error : List FetchError → Option Failure
fetch_error [] = none
fetch_error (e ∷ es) = some (
    wrap
      (codes "fetch error for "
        ++ (e.topic ++ (codes "[" ++ (format_int e.partition ++ codes "]: "))))
      e.cause)

-- How the loop goes on after a poll: none for the next poll, some with what `Consume` returns.
abbrev pub Next : Type 0
Next = Option Outcome

-- `if fetchErr != nil { return fetchErr }; if ctx.Err() != nil { return ctx.Err() }`
unfoldable pub after_poll : Poll → Next
unfolding fetch_error
after_poll p = elim (fetch_error p.errors) [
  | some e ↦ some (err e)
  | none ↦ elim p.cancelled [ some e ↦ some (err e) | none ↦ none ]
]

module _ {ℓ} {S : Type ℓ} (handle : Handler S) where
  -- The loop over the records of a poll, the first of which is number `n`.
  unfoldable pub handle_records :
      (ℕ → CommitReply) → ℕ → List Record → Consumed S → Outcome × Consumed S
  handle_records commit n [] w = (nil, w)
  handle_records commit n (r ∷ rs) w =
      let (o, s) = handle r.key r.value w.world in
      let w' : Consumed S = record {
        world = s;
        committed = after_commit (commit n) w.committed (w.committed ++ r ∷ []);
      } in
      let rest = handle_records commit (suc n) rs w' in
      elim o [
        | err e ↦ (err (wrap (place_of (codes "handle") r) e), record w { world = s })
        | ok _ ↦ elim (commit_outcome (commit n)) [
          | err e ↦ (err (wrap (place_of (codes "commit") r) e), w')
          | ok _ ↦ rest
        ]
      ]

  unfoldable pub poll_once : Poll → Consumed S → Next × Consumed S
  poll_once p w =
      let (o, w') = handle_records p.commit 0 p.records w in
      if p.is_client_closed
      then (some nil, w)
      else elim o [ err e ↦ (some (err e), w') | ok _ ↦ (after_poll p, w') ]

  -- The loop, poll by poll: none if it still runs after the last of them.
  unfoldable pub consume_loop : List Poll → Consumed S → Next × Consumed S
  consume_loop [] w = (none, w)
  consume_loop (p ∷ ps) w =
      let (o, w') = poll_once p w in
      let rest = consume_loop ps w' in elim o [ some result ↦ (some result, w') | none ↦ rest ]

-- `Consume` of a consumer that is nil or has the given brokers. The handler is nil or a function,
-- and `new_client` is what `kgo.NewClient` returned.
unfoldable pub consume {ℓ} :
    {S : Type ℓ}
    → Option (List Text)
    → Text
    → Text
    → Option (Handler S)
    → Reply
    → List Poll
    → Consumed S
    → Next × Consumed S
consume none topic group handle new_client polls w =
    (some (err (new_error (codes "kafka consumer is not initialized"))), w)
consume (some []) topic group handle new_client polls w =
    (some (err (new_error (codes "no kafka brokers configured"))), w)
consume (some (b ∷ bs)) topic group none new_client polls w =
    if text_eq topic []
    then (some (err (new_error (codes "topic is required"))), w)
    else if text_eq group []
    then (some (err (new_error (codes "consumer group is required"))), w)
    else (some (err (new_error (codes "handle is required"))), w)
consume (some (b ∷ bs)) topic group (some handle) new_client polls w =
    if text_eq topic []
    then (some (err (new_error (codes "topic is required"))), w)
    else if text_eq group []
    then (some (err (new_error (codes "consumer group is required"))), w)
    else elim new_client [
      | failed e ↦ (some (err (wrap (codes "create kafka consumer: ") e)), w)
      | done ↦ consume_loop handle polls w
    ]
