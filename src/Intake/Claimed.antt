-- ===== src/Intake/Claimed.antt =====
-- Calls of SubmitPayment with a key that has been claimed.
use distributed_payment_pipe.Base.{
  ◌≡◌, refl, ◌⊎◌, inl, inr, true, List, [], ◌∷◌, Option, some, arith,
}
use distributed_payment_pipe.Text.{Text, codes}
use distributed_payment_pipe.Errors.{Failure, wrap, Result, ok, err, Result-cases, failed}
use distributed_payment_pipe.Domain.{Transaction}
use distributed_payment_pipe.Db.{Db}
use distributed_payment_pipe.Store.{save_with_outbox}
use distributed_payment_pipe.Idempotency.{derive_key, claim}
use distributed_payment_pipe.Idempotency.Winner.{IsRedis, claim_keeps, claim_stores, claim_taken}
use distributed_payment_pipe.Intake.{
  IdempotencyStore, Server, Packages, CallInput, SubmitPaymentRequest, SubmitPaymentResponse, World,
  prepare, answer, submit_payment, submit_all, accepted,
}
use distributed_payment_pipe.Intake.Outcomes.{duplicate_response, accept_fails}

module _ {ℓ} {R : Type ℓ} (value : R → Text → Option Text) (lib : Packages) (server : Server R)
    (idem : IdempotencyStore R) (redis : IsRedis idem.client value) where
  abbrev key_of : Transaction → Text
  key_of t = derive_key lib.sha256_hex t

  -- A call whose request is normalized to `t`.
  abbrev pub IsPrepared : CallInput → SubmitPaymentRequest → Transaction → Type ℓ
  IsPrepared i req t = prepare lib server i.payment_id req ≡ ok (idem, t)

  -- All calls use the same idempotency store.
  prepare_idem :
      (payment_id : Text) (req : SubmitPaymentRequest) (idem' : IdempotencyStore R)
      (t : Transaction)
      → server.idem ≡ some idem
      → prepare lib server payment_id req ≡ ok (idem', t)
      → idem' ≡ idem
  unfolding prepare
  prepare_idem payment_id req idem' t h p = ground arith

  submit_redis :
      (i : CallInput) (req : SubmitPaymentRequest) (t : Transaction) (w : World R)
      → IsPrepared i req t
      → (submit_payment lib server i req w).1.redis
        ≡ (claim idem.client idem.ttl_seconds (key_of t) t.payment_id w.redis).1
  unfolding submit_payment
  submit_redis i req t w p = rw (p, submit_payment) refl

  submit_keeps :
      (i : CallInput) (req : SubmitPaymentRequest) (w : World R) (k p : Text)
      → server.idem ≡ some idem
      → value w.redis k ≡ some p
      → value (submit_payment lib server i req w).1.redis k ≡ some p
  unfolding submit_payment
  submit_keeps i req w k p same h = elim (Result-cases (prepare lib server i.payment_id req)) [
    | inr (e, bad) ↦ rw (bad, submit_payment) h
    | inl ((idem', t), good) ↦
        let good' : IsPrepared i req t =
          rw (prepare_idem i.payment_id req idem' t same good) at good in
        rw (submit_redis i req t w good') (
          claim_keeps idem.client value redis idem.ttl_seconds (key_of t) k t.payment_id p w.redis
            h)
  ]

  submit_all_keeps :
      (calls : List (CallInput × SubmitPaymentRequest)) (w : World R) (k p : Text)
      → server.idem ≡ some idem
      → value w.redis k ≡ some p
      → value (submit_all lib server calls w).redis k ≡ some p
  unfolding submit_all
  submit_all_keeps [] w k p same h = h
  submit_all_keeps ((i, req) ∷ calls) w k p same h =
      submit_all_keeps calls (submit_payment lib server i req w).1 k p same
        (submit_keeps i req w k p same h)

  -- The answer to a call whose key is taken by the payment `p`: an error, or the id of that payment as
  -- that of a duplicate; and the tables are as they were.
  pub record IsDuplicate (p : Text) (i : CallInput) (w : World R)
      (result : Result SubmitPaymentResponse × World R) : Type ℓ where
    pub unchanged : result.1.db ≡ w.db
    pub answered : (result.0 ≡ ok (duplicate_response i p)) ⊎ ((e : Failure) × (result.0 ≡ err e))

  submit_taken :
      (i : CallInput) (req : SubmitPaymentRequest) (t : Transaction) (w : World R) (p : Text)
      → IsPrepared i req t
      → value w.redis (key_of t) ≡ some p
      → IsDuplicate p i w (submit_payment lib server i req w)
  unfolding submit_payment answer
  submit_taken i req t w p prepared h =
      elim (claim_taken idem.client value redis idem.ttl_seconds (key_of t) p t.payment_id w.redis
        h) [
          | inl dup ↦
              rw (prepared, dup, submit_payment, answer)
                (record { unchanged = refl; answered = inl refl })
          | inr (e, bad) ↦
              rw (prepared, bad, submit_payment, answer)
                (record { unchanged = refl; answered = inr (_, refl) })
        ]

  -- If Redis does what it documents and the key does not expire: once the claim of a call has been
  -- granted, a later call whose payment has the same key, after any calls, leaves the tables as they
  -- are and returns the payment id of the first, as a duplicate, or an error. The first call need not
  -- have succeeded.
  pub submit_payment_once :
      (i j : CallInput) (req req' : SubmitPaymentRequest) (t u : Transaction)
      (calls : List (CallInput × SubmitPaymentRequest)) (w : World R)
      → server.idem ≡ some idem
      → IsPrepared i req t
      → IsPrepared j req' u
      → key_of u ≡ key_of t
      → (claim idem.client idem.ttl_seconds (key_of t) t.payment_id w.redis).0 ≡ ok (true, [])
      → let v = submit_all lib server calls (submit_payment lib server i req w).1 in
        IsDuplicate t.payment_id j v (submit_payment lib server j req' v)
  submit_payment_once i j req req' t u calls w same first later keys granted =
      let after = (submit_payment lib server i req w).1 in
      let claimed : value after.redis (key_of t) ≡ some t.payment_id =
        rw (submit_redis i req t w first) (
          claim_stores idem.client value redis idem.ttl_seconds (key_of t) t.payment_id w.redis
            granted) in
      submit_taken j req' u (submit_all lib server calls after) t.payment_id later
        (rw keys (submit_all_keeps calls after (key_of t) t.payment_id same claimed))

  save_fails :
      (i : CallInput) (t : Transaction) (payload : Text) (db : Db) (f : Failure)
      → i.save.begin ≡ failed f
      → (e : Failure) × (save_with_outbox i.save t payload db ≡ (err e, db))
  unfolding save_with_outbox
  save_fails i t payload db f h = (wrap (codes "begin transaction: ") f, ground arith)

  -- If the claim of a call is granted and then no database transaction can be opened, the call
  -- returns an error and stores nothing; and the next call whose payment has the same key, such as
  -- the client's retry, stores nothing either, whatever Postgres answers it: it returns an error, or
  -- it acknowledges the payment that was never stored as a duplicate.
  pub submit_payment_strands :
      (i j : CallInput) (req req' : SubmitPaymentRequest) (t u : Transaction) (w : World R)
      (f : Failure)
      → server.idem ≡ some idem
      → IsPrepared i req t
      → IsPrepared j req' u
      → key_of u ≡ key_of t
      → (claim idem.client idem.ttl_seconds (key_of t) t.payment_id w.redis).0 ≡ ok (true, [])
      → i.save.begin ≡ failed f
      → let (o, v) = submit_payment lib server i req w in
        ((e : Failure) × (o ≡ err e))
        × (v.db ≡ w.db)
        × IsDuplicate t.payment_id j v (submit_payment lib server j req' v)
  unfolding submit_payment answer submit_all
  submit_payment_strands i j req req' t u w f same first later keys granted down =
      let (e, fails) =
        accept_fails lib server i t w.db
          (λ payload. save_fails i (accepted lib server i.now t) payload w.db f down) in
      (
        (e, rw (first, granted, fails, submit_payment, answer) refl),
        rw (first, granted, fails, submit_payment, answer) refl,
        submit_payment_once i j req req' t u [] w same first later keys granted,
      )
