-- ===== src/Commands/Services/Sources.antt =====
-- What the server of cmd/intake takes.
use distributed_payment_pipe.Base.{◌≡◌, ◌≢◌, ◌⊎◌, ◌++◌}
use distributed_payment_pipe.Base.Int.{ℤ, pos}
use distributed_payment_pipe.Text.{Text, codes}
use distributed_payment_pipe.Text.Decimal.{format_int}
use distributed_payment_pipe.Errors.{Failure, new_error, Result, ok, err, ◌>>=◌}
use distributed_payment_pipe.Domain.{Transaction, Source}
use distributed_payment_pipe.Configuration.{Environment, load}
use distributed_payment_pipe.Idempotency.{RedisClient}
use distributed_payment_pipe.Normalize.{SourceNormalizer, registry_get, intake_registry}
use distributed_payment_pipe.Intake.{Packages, SubmitPaymentRequest, IdempotencyStore, raw_payload}

abbrev no_normalizer : Source → ℤ → Failure
no_normalizer source a = new_error (
    codes "no normalizer found for source "
    ++ (source ++ (codes " with schema version " ++ format_int a)))

-- What the registry of cmd/intake answers for a source that it has.
abbrev Registered : (Text → Text) → Source → SourceNormalizer → ℤ → Type 0
Registered quote source normalizer a =
    ((a ≡ pos 1) × (registry_get (intake_registry quote) source a ≡ ok normalizer))
    ⊎ ((a ≢ pos 1) × ((e : Failure) × (registry_get (intake_registry quote) source a ≡ err e)))

module _ {ℓ} {R : Type ℓ} (lib : Packages) (quote : Text → Text) (env : Environment)
    (redis : RedisClient R) (id : Text) (req : SubmitPaymentRequest) where
  -- The store of the keys that the server uses.
  abbrev pub key_store : IdempotencyStore R
  key_store = record { client = redis; ttl_seconds = (load env).idempotency_ttl_seconds }

  -- The normalizer decides over the request.
  abbrev pub normalized_by : SourceNormalizer → Result (IdempotencyStore R × Transaction)
  normalized_by normalizer = normalizer (raw_payload id req) >>= λ t. ok (key_store, t)
