-- ===== src/Intake/Outcomes.antt =====
-- What one call of SubmitPayment stores.
use distributed_payment_pipe.Base.{ap, ◌≡◌, refl, ◌⊎◌, inl, inr, true, false, Bool}
use distributed_payment_pipe.Text.{Text, codes}
use distributed_payment_pipe.Errors.{
  Outcome, then_ok, wrap, Failure, ◌>>◌, Outcome-cases, ok, err, nil, Result-cases, refused, Result,
}
use distributed_payment_pipe.Domain.{Time, state_validated, Transaction}
use distributed_payment_pipe.Db.{Db}
use distributed_payment_pipe.Store.{save_with_outbox}
use distributed_payment_pipe.Store.Save.{HasSaved, save_with_outbox_atomic}
use distributed_payment_pipe.Idempotency.{derive_key, claim}
use distributed_payment_pipe.Intake.{
  IdempotencyStore, PaymentState, Server, Packages, CallInput, SubmitPaymentRequest,
  SubmitPaymentResponse, World, prepare, accept, accepted, answer, submit_payment, validate,
  event_payload,
}

-- The response to a payment that was stored.
abbrev pub stored_response : CallInput → Transaction → SubmitPaymentResponse
stored_response i t = record {
  payment_id = t.payment_id;
  state = PaymentState.received;
  deduplicated = false;
  received_at = i.now;
}

-- The response to a payment whose key was claimed before, for the given payment.
abbrev pub duplicate_response : CallInput → Text → SubmitPaymentResponse
duplicate_response i existing = record {
  payment_id = existing;
  state = PaymentState.received;
  deduplicated = true;
  received_at = i.now;
}

-- The row of a payment that is accepted at a time.
abbrev pub as_stored : Time → Transaction → Transaction
as_stored now t = record t { state = state_validated; created_at = now; updated_at = now }

module _ {ℓ} {R : Type ℓ} (lib : Packages) (server : Server R) where
  -- The payment passed the validator, and it is in the tables as VALIDATED, with its event; or
  -- Postgres refused the commit and nothing is there.
  pub record IsAccepted (i : CallInput) (t : Transaction) (db db' : Db) : Type 0 where
    pub payload : Text
    pub valid : validate lib server t ≡ nil
    pub encoded : event_payload lib server i (as_stored i.now t) ≡ ok payload
    pub stored :
        HasSaved (as_stored i.now t) payload db db'
        ⊎ ((db' ≡ db) × ((e : Failure) × (i.save.commit ≡ refused e)))

  accept_cases :
      (i : CallInput) (t : Transaction) (db : Db)
      → let (o, db') = accept lib server i t db in
        ((e : Failure) × (o ≡ err e) × (db' ≡ db))
        ⊎ ((o ≡ ok (stored_response i t)) × IsAccepted i t db db')
  unfolding accept accepted
  accept_cases i t db =
      elim (Result-cases
        (validate lib server t >> event_payload lib server i (accepted lib server i.now t))) [
          | inr (e, h) ↦ inl (e, rw (h, accept) refl, rw (h, accept) refl)
          | inl (payload, h) ↦
              let saved = save_with_outbox i.save (accepted lib server i.now t) payload db in
              let (valid, encoded) =
                then_ok (validate lib server t)
                  (event_payload lib server i (accepted lib server i.now t)) payload h in
              elim (save_with_outbox_atomic i.save (accepted lib server i.now t) payload db) [
                | inl (bad, same) ↦ elim (Outcome-cases saved.0) [
                  | inl good ↦ absurd (bad good)
                  | inr (e, failed) ↦
                      inl (e, rw (h, failed, accept) refl, rw (h, failed, accept) same)
                ]
                | inr (inl (good, has)) ↦ inr (
                  rw (h, good, accept) refl,
                  record {
                    payload = payload;
                    valid = valid;
                    encoded = encoded;
                    stored = inl (rw (h, good, accept) has);
                  },
                )
                | inr (inr (good, same, lost)) ↦ inr (
                  rw (h, good, accept) refl,
                  record {
                    payload = payload;
                    valid = valid;
                    encoded = encoded;
                    stored = inr (rw (h, good, accept) same, lost);
                  },
                )
              ]
        ]

  -- A payment that cannot be saved, whatever its payload, is not accepted.
  pub accept_fails :
      (i : CallInput) (t : Transaction) (db : Db)
      → ((payload : Text)
          → (e : Failure) × (save_with_outbox i.save (accepted lib server i.now t) payload db
              ≡ (err e, db)))
      → (e : Failure) × (accept lib server i t db ≡ (err e, db))
  unfolding accept
  accept_fails i t db h =
      elim (Result-cases
        (validate lib server t >> event_payload lib server i (accepted lib server i.now t))) [
          | inr (e, bad) ↦ (e, rw (bad, accept) refl)
          | inl (payload, good) ↦
              let (e, fails) = h payload in
              (e, rw (good, fails, accept) (ap (λ (x : Outcome × Db). (err e, x.1)) fails))
        ]

  -- What the idempotency store answers to the claim of a payment's key.
  abbrev pub claim_of : IdempotencyStore R → Transaction → World R → Result (Bool × Text)
  claim_of idem t w =
      (claim idem.client idem.ttl_seconds (derive_key lib.sha256_hex t) t.payment_id w.redis).0

  -- The call has no duplicate to answer: the request is refused, or the claim of its key is refused or
  -- granted.
  abbrev pub IsUnanswered : CallInput → SubmitPaymentRequest → World R → Type ℓ
  IsUnanswered i req w =
      ((f : Failure) × (prepare lib server i.payment_id req ≡ err f))
      ⊎ ((idem : IdempotencyStore R) × (t : Transaction) × (prepare lib server i.payment_id req
            ≡ ok (idem, t))
          × (((f : Failure) × (claim_of idem t w ≡ err f))
              ⊎ ((holder : Text) × (claim_of idem t w ≡ ok (true, holder)))))

  -- A call of SubmitPayment ends in one of three ways, whatever Redis and Postgres answer. It returns
  -- an error and leaves the tables as they were; then the request was refused or the claim of its key
  -- was refused or granted. Or the request was normalized, the claim of its key
  -- was not granted, and it returns the payment id that the claim answered as that of a duplicate and
  -- leaves the tables as they were. Or the claim of the normalized payment's key was granted, it
  -- returns the id of that payment, which passed the validator, and the payment is in the tables in
  -- state VALIDATED together with one event, or Postgres refused the commit and the tables are as
  -- they were. So it stores a payment only if its claim was granted.
  pub submit_payment_cases :
      (i : CallInput) (req : SubmitPaymentRequest) (w : World R)
      → let (o, w') = submit_payment lib server i req w in
        ((e : Failure) × (o ≡ err e) × (w'.db ≡ w.db) × IsUnanswered i req w)
        ⊎ ((idem : IdempotencyStore R) × (t : Transaction) × (existing : Text) × (prepare lib server
                i.payment_id req
              ≡ ok (idem, t))
            × (claim_of idem t w ≡ ok (false, existing))
            × (o ≡ ok (duplicate_response i existing))
            × (w'.db ≡ w.db))
        ⊎ ((idem : IdempotencyStore R) × (t : Transaction) × (prepare lib server i.payment_id req
              ≡ ok (idem, t))
            × ((holder : Text) × (claim_of idem t w ≡ ok (true, holder)))
            × (o ≡ ok (stored_response i t))
            × IsAccepted i t w.db w'.db)
  unfolding submit_payment answer
  submit_payment_cases i req w = elim (Result-cases (prepare lib server i.payment_id req)) [
    | inr (e, h) ↦ inl (e, rw (h, submit_payment) refl, rw (h, submit_payment) refl, inl (e, h))
    | inl ((idem, t), h) ↦
        let claimed =
          (claim idem.client idem.ttl_seconds (derive_key lib.sha256_hex t) t.payment_id
            w.redis).0 in
        elim (Result-cases claimed) [
          | inr (e, c) ↦ inl (
            wrap (codes "idempotency claim: ") e,
            rw (h, c, submit_payment, answer) refl,
            rw (h, c, submit_payment, answer) refl,
            inr (idem, t, h, inl (e, c)),
          )
          | inl ((false, existing), c) ↦ inr (
              inl (
                idem,
                t,
                existing,
                h,
                c,
                rw (h, c, submit_payment, answer) refl,
                rw (h, c, submit_payment, answer) refl,
              ))
          | inl ((true, existing), c) ↦ elim (accept_cases i t w.db) [
            | inl (e, failed, same) ↦ inl (
              e,
              rw (h, c, submit_payment, answer) failed,
              rw (h, c, submit_payment, answer) same,
              inr (idem, t, h, inr (existing, c)),
            )
            | inr (good, has) ↦ inr (
                inr (
                  idem,
                  t,
                  h,
                  (existing, c),
                  rw (h, c, submit_payment, answer) good,
                  rw (h, c, submit_payment, answer) has,
                ))
          ]
        ]
  ]
