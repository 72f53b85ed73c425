-- ===== src/Tests/KafkaTests.antt =====
-- Retries and dead letters at a handler that fails a given number of times.
use distributed_payment_pipe.Base.{ℕ, zero, suc, ◌+◌, ◌*◌, ◌≤◌, ◌≡◌, refl, [], ◌∷◌, none, arith}
use distributed_payment_pipe.Base.Int.{pos}
use distributed_payment_pipe.Text.{codes}
use distributed_payment_pipe.Errors.{Failure, non_retryable, errors_is, ok, err, nil}
use distributed_payment_pipe.Kafka.{Handler}
use distributed_payment_pipe.Kafka.Retry.{attempts, RetryConfig, retry_handler, returned}
use distributed_payment_pipe.Kafka.Retry.Attempts.{Tries, attempts-Tries, slept_bound}
use distributed_payment_pipe.Kafka.Retry.Verdict.{Verdict, retry_handler-Verdict}
use distributed_payment_pipe.Tests.Fixtures.{broken}

-- The state counts the failures that are left.
flaky : Handler ℕ
flaky key payload zero = (nil, zero)
flaky key payload (suc n) = (err broken, n)

abbrev rejection : Failure
rejection = record { message = codes "malformed"; chain = non_retryable ∷ [] }

rejecting : Handler ℕ
rejecting key payload n = (err rejection, n + 1)

-- The producer adds a thousand to the state.
abbrev config : RetryConfig ℕ
config = record {
  publish = λ topic key payload n. (nil, n + 1000);
  marshal = λ m. ok m.error;
  topic = codes "payments.received";
  consumer_group = codes "group";
  max_attempts = 3;
}

third_succeeds : retry_handler config flaky (codes "k") (codes "{}") (pos 1) 2 ≡ (returned nil, 0)
unfolding retry_handler flaky errors_is
third_succeeds = refl

third_fails : retry_handler config flaky (codes "k") (codes "{}") (pos 1) 5 ≡ (returned nil, 1002)
unfolding retry_handler flaky errors_is
third_fails = refl

attempts-Tries_example :
    let a = attempts flaky (codes "k") (codes "{}") 3 1 none 0 5 in
    (n : ℕ) × (n ≤ 3) × Tries (flaky (codes "k") (codes "{}")) 3 n 5 a.ending a.world
attempts-Tries_example = attempts-Tries flaky (codes "k") (codes "{}") 2 1 none 0 5

slept_bound_example :
    (attempts flaky (codes "k") (codes "{}") 3 1 none 0 5).slept * 6
    ≤ 100 * (3 * (3 + 1) * (2 * 3 + 1))
slept_bound_example = slept_bound flaky (codes "k") (codes "{}") 3 5

retry_handler-Verdict_example :
    let (r, w) = retry_handler config flaky (codes "k") (codes "{}") (pos 1) 5 in
    Verdict config
      (codes "k")
      (codes "{}")
      (pos 1)
      (attempts flaky (codes "k") (codes "{}") 3 1 none 0 5)
      r
      w
retry_handler-Verdict_example =
    retry_handler-Verdict config flaky (codes "k") (codes "{}") (pos 1) 5 (omega arith)
