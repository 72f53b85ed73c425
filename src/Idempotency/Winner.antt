-- ===== src/Idempotency/Winner.antt =====
-- A key has one winner, as long as it does not expire.
use distributed_payment_pipe.Base.{
  ◌≡◌, refl, ◌⊎◌, inl, inr, true, false, List, [], ◌∷◌, Option, some, arith,
}
use distributed_payment_pipe.Base.Int.{ℤ}
use distributed_payment_pipe.Text.{Text}
use distributed_payment_pipe.Errors.{Failure, ok, err, Result-cases}
use distributed_payment_pipe.Idempotency.{RedisClient, claim, claim_all, expiration}

-- What Redis documents of the two commands on keys that do not expire meanwhile, in terms of the
-- value under a key: SET NX sets a key that is missing and says so, leaves a key that is there, and
-- never touches another key; GET gives the value that is there and changes nothing. A command that
-- fails may have been carried out.
pub record IsRedis {ℓ} {R : Type ℓ} (client : RedisClient R) (value : R → Text → Option Text)
    : Type ℓ where
  pub set_taken :
      (k v p : Text) (ttl : ℤ) (r : R)
      → value r k ≡ some p
      → ((client.set_nx k v ttl r).0 ≡ ok false)
        ⊎ ((e : Failure) × ((client.set_nx k v ttl r).0 ≡ err e))
  pub set_keeps :
      (k j v p : Text) (ttl : ℤ) (r : R)
      → value r j ≡ some p
      → value (client.set_nx k v ttl r).1 j ≡ some p
  pub set_stores :
      (k v : Text) (ttl : ℤ) (r : R)
      → (client.set_nx k v ttl r).0 ≡ ok true
      → value (client.set_nx k v ttl r).1 k ≡ some v
  pub get_keeps : (k : Text) (r : R) → value (client.get k r).1 ≡ value r
  pub get_finds :
      (k p : Text) (r : R)
      → value r k ≡ some p
      → ((client.get k r).0 ≡ ok p) ⊎ ((e : Failure) × ((client.get k r).0 ≡ err e))

module _ {ℓ} {R : Type ℓ} (client : RedisClient R) (value : R → Text → Option Text)
    (redis : IsRedis client value) (ttl : ℤ) where
  pub claim_keeps :
      (k j v p : Text) (r : R) → value r j ≡ some p → value (claim client ttl k v r).1 j ≡ some p
  unfolding claim
  claim_keeps k j v p r h =
      let kept = redis.set_keeps k j v p (expiration ttl) r h in
      let same = redis.get_keeps k (client.set_nx k v (expiration ttl) r).1 in
      elim (Result-cases (client.set_nx k v (expiration ttl) r).0) [
        | inr (e, f) ↦ rw (f, claim) kept
        | inl (true, f) ↦ rw (f, claim) kept
        | inl (false, f) ↦
            elim (Result-cases (client.get k (client.set_nx k v (expiration ttl) r).1).0) [
              | inr (e, g) ↦ rw (f, g, claim, same) kept
              | inl (x, g) ↦ rw (f, g, claim, same) kept
            ]
      ]

  claim_all_keeps :
      (cs : List (Text × Text)) (j p : Text) (r : R)
      → value r j ≡ some p
      → value (claim_all client ttl cs r) j ≡ some p
  unfolding claim_all
  claim_all_keeps [] j p r h = h
  claim_all_keeps ((k, v) ∷ cs) j p r h =
      claim_all_keeps cs j p (claim client ttl k v r).1 (claim_keeps k j v p r h)

  pub claim_stores :
      (k p : Text) (r : R)
      → (claim client ttl k p r).0 ≡ ok (true, [])
      → value (claim client ttl k p r).1 k ≡ some p
  unfolding claim
  claim_stores k p r h = ground (arith, redis.set_stores k p (expiration ttl) r)

  pub claim_taken :
      (k p q : Text) (r : R)
      → value r k ≡ some p
      → ((claim client ttl k q r).0 ≡ ok (false, p))
        ⊎ ((e : Failure) × ((claim client ttl k q r).0 ≡ err e))
  unfolding claim
  claim_taken k p q r h = elim (redis.set_taken k q p (expiration ttl) r h) [
    | inr (e, f) ↦ inr (e, rw (f, claim) refl)
    | inl f ↦
        elim (redis.get_finds k p (client.set_nx k q (expiration ttl) r).1
          (redis.set_keeps k k q p (expiration ttl) r h)) [
            | inl g ↦ inl (rw (f, g, claim) refl)
            | inr (e, g) ↦ inr (e, rw (f, g, claim) refl)
          ]
  ]

  -- If Redis does what it documents and the key does not expire: once a caller has claimed a key, a
  -- later claim of it, after any claims of any keys, is not granted; it gets the payment id of the
  -- winner, or an error.
  pub claim_once :
      (k p q : Text) (between : List (Text × Text)) (r : R)
      → (claim client ttl k p r).0 ≡ ok (true, [])
      → let r' = claim_all client ttl between (claim client ttl k p r).1 in
        ((claim client ttl k q r').0 ≡ ok (false, p))
        ⊎ ((e : Failure) × ((claim client ttl k q r').0 ≡ err e))
  claim_once k p q between r won =
      claim_taken k p q (claim_all client ttl between (claim client ttl k p r).1)
        (claim_all_keeps between k p (claim client ttl k p r).1 (claim_stores k p r won))
