-- ===== src/Idempotency.antt =====
-- internal/idempotency/store.go: the key of a payment, and its claim in Redis. The hash with its
-- hexadecimal form is a parameter, and so is the Redis client, on its own state.
pub mod Winner
pub mod Ambiguous
use distributed_payment_pipe.Base.{ℕ, ◌^◌, Bool, true, false, List, [], ◌∷◌, ◌++◌, if◌then◌else◌}
use distributed_payment_pipe.Base.Int.{ℤ, wrap64, scale}
use distributed_payment_pipe.Text.{Text, codes, text_eq}
use distributed_payment_pipe.Text.Decimal.{format_int}
use distributed_payment_pipe.Errors.{Result, ok, err}
use distributed_payment_pipe.Domain.{Transaction}

-- "%s|%s|%s|%d|%s"
unfoldable pub fingerprint : Transaction → Text
fingerprint t =
    t.source
    ++ (codes "|"
        ++ (t.external_txn_id
            ++ (codes "|"
                ++ (t.account_id
                    ++ (codes "|"
                        ++ (format_int t.amount.minor_units
                            ++ (codes "|" ++ t.amount.currency)))))))

unfoldable pub derive_key : (Text → Text) → Transaction → Text
unfolding fingerprint
derive_key sha256_hex t =
    if text_eq t.idempotency_key []
    then codes "derived:" ++ sha256_hex (fingerprint t)
    else t.idempotency_key

-- `time.Duration(ttlSeconds) * time.Second`
unfoldable pub expiration : ℤ → ℤ
expiration ttl_seconds = wrap64 (scale (10 ^ 9) ttl_seconds)

-- `SetNX(key, value, expiration)` and `Get(key)`; a `Duration` is a number of nanoseconds.
pub record RedisClient {ℓ} (R : Type ℓ) : Type ℓ where
  pub set_nx : Text → Text → ℤ → R → Result Bool × R
  pub get : Text → R → Result Text × R

module _ {ℓ} {R : Type ℓ} (client : RedisClient R) (ttl_seconds : ℤ) where
  -- The pair is (claimed, existingPaymentID).
  unfoldable pub claim : Text → Text → R → Result (Bool × Text) × R
  claim key payment_id r =
      let (set_result, r') = client.set_nx key payment_id (expiration ttl_seconds) r in
      let (found, r'') = client.get key r' in
      elim set_result [
        | err e ↦ (err e, r')
        | ok set ↦
            if set
            then (ok (true, []), r')
            else elim found [ err e ↦ (err e, r'') | ok existing ↦ (ok (false, existing), r'') ]
      ]

  -- One claim after the other, of a key for a payment each.
  unfoldable pub claim_all : List (Text × Text) → R → R
  claim_all [] r = r
  claim_all ((key, payment_id) ∷ cs) r = claim_all cs (claim key payment_id r).1
