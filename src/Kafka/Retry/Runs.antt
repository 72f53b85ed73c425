-- ===== src/Kafka/Retry/Runs.antt =====
-- `RetryHandler` as a step of a consumer: what it keeps, and its two shortest successful runs.
use distributed_payment_pipe.Base.{ℕ, ◌≡◌, sym, subst, false, inl, inr, none, some, arith}
use distributed_payment_pipe.Text.{Text}
use distributed_payment_pipe.Errors.{
  Failure, non_retryable, errors_is, Result-cases, Outcome-cases, err, nil,
}
use distributed_payment_pipe.Domain.{Time}
use distributed_payment_pipe.Kafka.{Handler, topic_dlq}
use distributed_payment_pipe.Kafka.Retry.{
  Ending, succeeded, gave_up, Attempted, attempts, returned, RetryConfig, dlq_message,
  publish_to_dlq, conclude, retry_handler,
}
use distributed_payment_pipe.Kafka.Retry.Attempts.{attempts_keep}

attempts_second {ℓ} :
    {S : Type ℓ} (handler : Handler S) (key payload : Text) (s t u : S) (e : Failure)
    → handler key payload s ≡ (err e, t)
    → errors_is e non_retryable ≡ false
    → handler key payload t ≡ (nil, u)
    → attempts handler key payload 3 1 none 0 s
      ≡ record { ending = succeeded; world = u; slept = 100 }
unfolding attempts
attempts_second handler key payload s t u e first again second = ground arith

publish_to_dlq_keeps {ℓ κ} :
    {S : Type ℓ} (P : S → Type κ) (c : RetryConfig S) (key payload : Text) (now : Time)
    → ((b : Text) (s : S) → P s → P (c.publish topic_dlq key b s).1)
    → (e : Failure) (w : S) → P w
    → P (publish_to_dlq c key payload e now w).1
unfolding publish_to_dlq
publish_to_dlq_keeps P c key payload now put e w h =
    elim (Result-cases (c.marshal (dlq_message c key payload e now))) [
      | inr (f, bad) ↦ rw (bad, publish_to_dlq) h
      | inl (b, good) ↦ elim (Outcome-cases (c.publish topic_dlq key b w).0) [
        | inl taken ↦ rw (good, publish_to_dlq) (rw taken (put b w h))
        | inr (f, refusal) ↦ rw (good, publish_to_dlq) (rw refusal (put b w h))
      ]
    ]

keep_at_ending {ℓ κ} :
    {S : Type ℓ} (P : S → Type κ) (c : RetryConfig S) (key payload : Text) (now : Time)
    → ((b : Text) (s : S) → P s → P (c.publish topic_dlq key b s).1)
    → (ending : Ending) (w : S) (slept : ℕ) → P w
    → P (conclude c key payload now (record { ending = ending; world = w; slept = slept })).1
unfolding conclude
keep_at_ending P c key payload now put succeeded w slept h = h
keep_at_ending P c key payload now put (gave_up none) w slept h = h
keep_at_ending P c key payload now put (gave_up (some e)) w slept h =
    publish_to_dlq_keeps P c key payload now put e w h

conclude_keeps {ℓ κ} :
    {S : Type ℓ} (P : S → Type κ) (c : RetryConfig S) (key payload : Text) (now : Time)
    → ((b : Text) (s : S) → P s → P (c.publish topic_dlq key b s).1)
    → (a : Attempted S) → P a.world
    → P (conclude c key payload now a).1
conclude_keeps P c key payload now put a h =
    keep_at_ending P c key payload now put a.ending a.world a.slept h

-- What the handler and the publication keep, `RetryHandler` keeps.
pub retry_handler_keeps {ℓ κ} :
    {S : Type ℓ} (P : S → Type κ) (c : RetryConfig S) (handler : Handler S) (key payload : Text)
    (now : Time)
    → ((s : S) → P s → P (handler key payload s).1)
    → ((b : Text) (s : S) → P s → P (c.publish topic_dlq key b s).1)
    → (s : S) → P s
    → P (retry_handler c handler key payload now s).1
unfolding retry_handler
retry_handler_keeps P c handler key payload now keep put s h =
    conclude_keeps P c key payload now put (attempts handler key payload c.max_attempts 1 none 0 s)
      (attempts_keep P handler key payload keep c.max_attempts 1 none 0 s h)

-- A handler that fails once with a retryable error and then succeeds.
pub retry_handler_second {ℓ} :
    {S : Type ℓ} (c : RetryConfig S) (handler : Handler S) (key payload : Text) (now : Time)
    (s t u : S) (e : Failure)
    → c.max_attempts ≡ 3
    → handler key payload s ≡ (err e, t)
    → errors_is e non_retryable ≡ false
    → handler key payload t ≡ (nil, u)
    → retry_handler c handler key payload now s ≡ (returned nil, u)
unfolding retry_handler
retry_handler_second c handler key payload now s t u e three first again second =
    subst
      (λ m.
        conclude c key payload now (attempts handler key payload m 1 none 0 s) ≡ (returned nil, u))
      (sym three) (rw (attempts_second handler key payload s t u e first again second))

attempts_first {ℓ} :
    {S : Type ℓ} (handler : Handler S) (key payload : Text) (s u : S)
    → handler key payload s ≡ (nil, u)
    → attempts handler key payload 3 1 none 0 s
      ≡ record { ending = succeeded; world = u; slept = 0 }
unfolding attempts
attempts_first handler key payload s u call = ground arith

-- A handler that succeeds at once.
pub retry_handler_first {ℓ} :
    {S : Type ℓ} (c : RetryConfig S) (handler : Handler S) (key payload : Text) (now : Time)
    (s u : S)
    → c.max_attempts ≡ 3
    → handler key payload s ≡ (nil, u)
    → retry_handler c handler key payload now s ≡ (returned nil, u)
unfolding retry_handler
retry_handler_first c handler key payload now s u three call =
    subst
      (λ m.
        conclude c key payload now (attempts handler key payload m 1 none 0 s) ≡ (returned nil, u))
      (sym three) (rw (attempts_first handler key payload s u call))
