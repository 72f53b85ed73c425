-- ===== src/Commands.antt =====
-- The main functions of cmd: what they connect to and what they run. What the pgx, Redis and Kafka
-- clients answer is an argument, and so is the time of each call of a handler. A process that runs
-- until it gets a signal is given by what happens up to some moment.
pub mod Consumers
pub mod Services
use distributed_payment_pipe.Base.{ℕ, suc, Bool, List, none, some, if◌then◌else◌}
use distributed_payment_pipe.Text.{Text, codes}
use distributed_payment_pipe.Errors.{Failure, new_error, Outcome, ok, err}
use distributed_payment_pipe.Domain.{Time}
use distributed_payment_pipe.Kafka.{Handler}
use distributed_payment_pipe.Kafka.Consume.{Next}
use distributed_payment_pipe.Kafka.Retry.{RetryConfig, Returned, returned, panicked, retry_handler}

-- How a process stands: it runs, it was told to stop and did, or its status is 1 after an error, or
-- 2 after a panic.
pub data Exit : Type 0 where
  running stopped crashed : Exit
  died : Failure → Exit

-- `if err := consumer.Consume(…); err != nil && ctx.Err() == nil { os.Exit(1) }`
unfoldable pub finish : Bool → Next → Exit
finish cancelled none = Exit.running
finish cancelled (some (ok _)) = Exit.stopped
finish cancelled (some (err e)) = if cancelled then Exit.stopped else Exit.died e

-- The state of a handler, and the number of its calls so far.
pub record Calls {ℓ} (S : Type ℓ) : Type ℓ where
  pub world : S
  pub calls : ℕ

-- A panic ends the process; here it ends the loop like an error.
unfoldable pub outcome_of : Returned → Outcome
outcome_of (returned o) = o
outcome_of panicked = err (new_error (codes "nil pointer dereference"))

-- `RetryHandler` as the handler of a consumer.
unfoldable pub retrying {ℓ} :
    {S : Type ℓ} → RetryConfig S → Handler S → (ℕ → Time) → Handler (Calls S)
unfolding outcome_of
retrying c handler clock key payload w =
    let (r, s) = retry_handler c handler key payload (clock w.calls) w.world in
    (outcome_of r, record { world = s; calls = suc w.calls })
