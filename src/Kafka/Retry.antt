-- ===== src/Kafka/Retry.antt =====
-- internal/kafka/retry.go: a handler with retries and a dead-letter queue.
pub mod Attempts
pub mod Runs
pub mod Verdict
use distributed_payment_pipe.Base.{ℕ, zero, suc, ◌+◌, ◌*◌, true, false, Option, none, some}
use distributed_payment_pipe.Text.{Text, codes}
use distributed_payment_pipe.Errors.{
  Failure, non_retryable, errors_is, wrap, Result, ok, err, Outcome, nil,
}
use distributed_payment_pipe.Domain.{Time}
use distributed_payment_pipe.Kafka.{Handler, Publish, DlqMessage, topic_dlq}

-- How the loop of attempts ended: `return err` with a nil error, or the last error with which the
-- code goes on to the dead-letter queue, none if there was no attempt.
pub data Ending : Type 0 where
  succeeded : Ending
  gave_up : Option Failure → Ending

-- The loop's end, the handler's state, and the milliseconds slept.
pub record Attempted {ℓ} (S : Type ℓ) : Type ℓ where
  pub ending : Ending
  pub world : S
  pub slept : ℕ

module _ {ℓ} {S : Type ℓ} (handler : Handler S) (key payload : Text) where
  -- `for attempt := …; attempt <= maxAttempts; attempt++`, with the number of rounds left.
  -- The delay is a number of milliseconds; a time.Duration of some three hundred thousand attempts or
  -- more wraps around.
  unfoldable pub attempts : ℕ → ℕ → Option Failure → ℕ → S → Attempted S
  attempts zero attempt last slept s = record { ending = gave_up last; world = s; slept = slept }
  attempts (suc left) attempt last slept s =
      let (o, s') = handler key payload s in
      elim o [
        | ok _ ↦ record { ending = succeeded; world = s'; slept = slept }
        | err e ↦ elim (errors_is e non_retryable) [
          | true ↦ record { ending = gave_up (some e); world = s'; slept = slept }
          | false ↦ attempts left (suc attempt) (some e) (slept + attempt * attempt * 100) s'
        ]
      ]

-- A nil error has no `Error` method: the call panics.
pub data Returned : Type 0 where
  returned : Outcome → Returned
  panicked : Returned

-- The configuration of `RetryHandler` but for the handler; `marshal` stands for json.Marshal.
pub record RetryConfig {ℓ} (S : Type ℓ) : Type ℓ where
  pub publish : Publish S
  pub marshal : DlqMessage → Result Text
  pub topic : Text
  pub consumer_group : Text
  pub max_attempts : ℕ

module _ {ℓ} {S : Type ℓ} (c : RetryConfig S) where
  pub dlq_message : Text → Text → Failure → Time → DlqMessage
  dlq_message key payload e now = record {
    original_topic = c.topic;
    original_key = key;
    original_payload = payload;
    error = e.message;
    attempts = c.max_attempts;
    failed_at = now;
    consumer_group = c.consumer_group;
  }

  unfoldable pub publish_to_dlq : Text → Text → Failure → Time → S → Outcome × S
  unfolding dlq_message
  publish_to_dlq key payload last now s = elim (c.marshal (dlq_message key payload last now)) [
    | err e ↦ (err (wrap (codes "publishToDLQ: marshal: ") e), s)
    | ok b ↦
        let (o, s') = c.publish topic_dlq key b s in
        elim o [ ok _ ↦ (nil, s') | err _ ↦ (err last, s') ]
  ]

  -- What follows the loop.
  unfoldable pub conclude : Text → Text → Time → Attempted S → Returned × S
  unfolding publish_to_dlq
  conclude key payload now a = elim a.ending [
    | succeeded ↦ (returned nil, a.world)
    | gave_up none ↦ (panicked, a.world)
    | gave_up (some last) ↦
        let (o, s) = publish_to_dlq key payload last now a.world in (returned o, s)
  ]

  unfoldable pub retry_handler : Handler S → Text → Text → Time → S → Returned × S
  unfolding attempts conclude
  retry_handler handler key payload now s =
      conclude key payload now (attempts handler key payload c.max_attempts 1 none 0 s)
