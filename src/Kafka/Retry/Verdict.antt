-- ===== src/Kafka/Retry/Verdict.antt =====
-- What `RetryHandler` tells its caller, which commits the offset of the message on nil.
use distributed_payment_pipe.Base.{
  ℕ, zero, suc, ◌<◌, ◌≡◌, ◌≢◌, refl, ◌⊎◌, inl, inr, true, none, some, arith,
}
use distributed_payment_pipe.Text.{Text, codes}
use distributed_payment_pipe.Errors.{
  Failure, non_retryable, errors_is, Result-cases, Outcome-cases, wrap, ok, err, nil,
}
use distributed_payment_pipe.Domain.{Time}
use distributed_payment_pipe.Kafka.{Handler, DlqMessage, topic_dlq}
use distributed_payment_pipe.Kafka.Retry.{
  Ending, succeeded, gave_up, Attempted, attempts, Returned, returned, RetryConfig, dlq_message,
  publish_to_dlq, conclude, retry_handler,
}
use distributed_payment_pipe.Kafka.Retry.Attempts.{attempts-Tries, Tries-ending}

-- The message for the dead-letter topic, field by field.
abbrev pub dead_letter {ℓ} :
    {S : Type ℓ} → RetryConfig S → Text → Text → Failure → Time → DlqMessage
dead_letter c key payload e now = record {
  original_topic = c.topic;
  original_key = key;
  original_payload = payload;
  error = e.message;
  attempts = c.max_attempts;
  failed_at = now;
  consumer_group = c.consumer_group;
}

-- What is returned after the loop of attempts `a`, and the state that is left: nil after a success;
-- else nil if the message was encoded and the producer took it for the dead-letter topic under the
-- original key; the handler's last error if the producer refused it; and an error of its own, without
-- a call of the producer, if it could not be encoded.
abbrev pub Verdict {ℓ} :
    {S : Type ℓ} → RetryConfig S → Text → Text → Time → Attempted S → Returned → S → Type ℓ
Verdict c key payload now a r w =
    ((a.ending ≡ succeeded) × (r ≡ returned nil) × (w ≡ a.world))
    ⊎ ((e : Failure) × (b : Text) × (a.ending ≡ gave_up (some e))
        × (c.marshal (dead_letter c key payload e now) ≡ ok b)
        × ((c.publish (codes "payments.dlq") key b a.world).0 ≡ nil)
        × (r ≡ returned nil)
        × (w ≡ (c.publish (codes "payments.dlq") key b a.world).1))
    ⊎ ((e : Failure) × (b : Text) × (f : Failure) × (a.ending ≡ gave_up (some e))
        × (c.marshal (dead_letter c key payload e now) ≡ ok b)
        × ((c.publish (codes "payments.dlq") key b a.world).0 ≡ err f)
        × (r ≡ returned (err e))
        × (w ≡ (c.publish (codes "payments.dlq") key b a.world).1))
    ⊎ ((e : Failure) × (f : Failure) × (a.ending ≡ gave_up (some e))
        × (c.marshal (dead_letter c key payload e now) ≡ err f)
        × (r ≡ returned (err (wrap (codes "publishToDLQ: marshal: ") f)))
        × (w ≡ a.world))

ending-Verdict {ℓ} :
    {S : Type ℓ} (c : RetryConfig S) (key payload : Text) (now : Time) (ending : Ending) (s : S)
    (slept : ℕ)
    → ending ≢ gave_up none
    → let a : Attempted S = record { ending = ending; world = s; slept = slept } in
      let (r, w) = conclude c key payload now a in Verdict c key payload now a r w
unfolding conclude publish_to_dlq dlq_message
ending-Verdict c key payload now succeeded s slept h = inl (refl, refl, refl)
ending-Verdict c key payload now (gave_up none) s slept h = absurd (h refl)
ending-Verdict c key payload now (gave_up (some e)) s slept h =
    elim (Result-cases (c.marshal (dead_letter c key payload e now))) [
      | inr (f, bad) ↦ inr (inr (inr (e, f, refl, bad, ground (arith, bad), ground (arith, bad))))
      | inl (b, good) ↦ elim (Outcome-cases (c.publish topic_dlq key b s).0) [
        | inl taken ↦ inr (
            inl (e, b, refl, good, taken, ground (arith, good, taken), ground (arith, good, taken)))
        | inr (f, refusal) ↦ inr (
            inr (
              inl (
                e,
                b,
                f,
                refl,
                good,
                refusal,
                ground (arith, good, refusal),
                ground (arith, good, refusal),
              )))
      ]
    ]

attempts_reject {ℓ} :
    {S : Type ℓ} (handler : Handler S) (key payload : Text) (m : ℕ) (s t : S) (e : Failure)
    → 0 < m
    → handler key payload s ≡ (err e, t)
    → errors_is e non_retryable ≡ true
    → let a = attempts handler key payload m 1 none 0 s in
      (a.ending ≡ gave_up (some e)) × (a.world ≡ t)
unfolding attempts
attempts_reject handler key payload zero s t e h call stop = elim h [ ]
attempts_reject handler key payload (suc m) s t e h call stop = ground arith

ending_known {ℓ} :
    {S : Type ℓ} (handler : Handler S) (key payload : Text) (s : S) (m : ℕ)
    → 0 < m
    → (attempts handler key payload m 1 none 0 s).ending ≢ gave_up none
ending_known handler key payload s zero h = elim h [ ]
ending_known handler key payload s (suc m) h =
    let (n, few, tries) = attempts-Tries handler key payload m 1 none 0 s in Tries-ending tries

-- If at least one attempt is allowed, `RetryHandler` returns what the end of its loop calls for:
-- nil after a success of the handler; nil if the message, encoded with its original topic, key and
-- payload, the text of the last error, the number of attempts allowed, the time and the consumer
-- group, was published to the dead-letter topic under its key; otherwise an error. So it never
-- returns nil for a message that was neither handled nor published, and it never panics. It leaves
-- the state that the attempts have left, changed by one call of the producer if the message was
-- encoded.
pub retry_handler-Verdict {ℓ} :
    {S : Type ℓ} (c : RetryConfig S) (handler : Handler S) (key payload : Text) (now : Time) (s : S)
    → 0 < c.max_attempts
    → let a = attempts handler key payload c.max_attempts 1 none 0 s in
      let (r, w) = retry_handler c handler key payload now s in Verdict c key payload now a r w
unfolding retry_handler
retry_handler-Verdict c handler key payload now s h =
    let a = attempts handler key payload c.max_attempts 1 none 0 s in
    ending-Verdict c key payload now a.ending a.world a.slept
      (ending_known handler key payload s c.max_attempts h)

-- A non-retryable error ends the attempts after the first call, and the message for the dead-letter
-- topic still says that all attempts were made.
reject_overstates {ℓ} :
    {S : Type ℓ} (c : RetryConfig S) (handler : Handler S) (key payload : Text) (now : Time)
    (s t : S) (e : Failure)
    → 0 < c.max_attempts
    → handler key payload s ≡ (err e, t)
    → errors_is e non_retryable ≡ true
    → let a = attempts handler key payload c.max_attempts 1 none 0 s in
      (a.ending ≡ gave_up (some e))
      × (a.world ≡ t)
      × ((dlq_message c key payload e now).attempts ≡ c.max_attempts)
unfolding dlq_message
reject_overstates c handler key payload now s t e h call stop =
    let (end, world) = attempts_reject handler key payload c.max_attempts s t e h call stop in
    (end, world, refl)
